-- ===== src/Orchestration/Scheduler/Loop.antt =====
-- The loop of `selectMissionsToStart`: its bounds, its order, and why it leaves a mission out.
use avity_os.Base.{
  ℕ, ◌+◌, ◌≤◌, max, ◌≡◌, refl, sym, ap, ◌∙◌, ◌⊎◌, inl, inr, String, List, [], ◌∷◌, ◌++◌, false,
  if◌then◌else◌, leb, leb→le, leb→gt, length, length-append, count_if, count_if-append, In,
  In-append_left, In-append_right, here, lookup, insert, lookup-insert, or_else, string_eq, ◌===◌,
  Bool-cases, arith, beq_true,
}
use avity_os.Contracts.{Mission}
use avity_os.Orchestration.Scheduler.{PerProject, projects_of, select_loop}
use mathlib.Core.List.{append-nil, append_assoc, Sublistᴰ}

-- How many of the missions belong to a project.
abbrev pub in_project : String → List Mission → ℕ
in_project p = count_if (λ m. m.project_id === p)

abbrev pub count_of : PerProject → String → ℕ
count_of per_project p = or_else (lookup p per_project) 0

count_of-insert :
    (per_project : PerProject) (k p : String) (n : ℕ)
    → count_of (insert k n per_project) p ≡ (if k === p then n else count_of per_project p)
count_of-insert per_project k p n = ground (arith, lookup-insert k p n per_project)

-- A mission counted once more, in the map and in a list that it is appended to.
count_of-start :
    (per_project : PerProject) (m : Mission) (p : String)
    → count_of (insert m.project_id (count_of per_project m.project_id + 1) per_project) p
      ≡ count_of per_project p + (if m.project_id === p then 1 else 0)
count_of-start per_project m p = elim (Bool-cases (m.project_id === p)) [
  | inl same ↦ ground (
    arith,
    count_of-insert per_project m.project_id p (count_of per_project m.project_id + 1),
    ap (count_of per_project) (beq_true {a = m.project_id} {b = p} same),
  )
  | inr other ↦
      ground
        (arith, count_of-insert per_project m.project_id p (count_of per_project m.project_id + 1))
]

in_project-snoc :
    (p : String) (ms : List Mission) (m : Mission)
    → in_project p (ms ++ m ∷ []) ≡ in_project p ms + (if m.project_id === p then 1 else 0)
unfolding count_if
in_project-snoc p ms m = ground (arith, count_if-append (λ x. x.project_id === p) ms (m ∷ []))

pub projects_of_lem :
    (per_project : PerProject) (ms : List Mission) (p : String)
    → count_of (projects_of per_project ms) p ≡ count_of per_project p + in_project p ms
unfolding projects_of count_if
projects_of_lem per_project [] p = omega arith
projects_of_lem per_project (m ∷ ms) p = ground (
  arith,
  count_of-start per_project m p,
  projects_of_lem (insert m.project_id (count_of per_project m.project_id + 1) per_project) ms p,
)

pub nothing_of : (l : List Mission) → Sublistᴰ [] l
nothing_of [] = Sublistᴰ.slnil
nothing_of (x ∷ l) = Sublistᴰ.cons (nothing_of l)

module _ (capacity limit : ℕ) where
  -- What the loop selects stands behind what was selected before, and follows the given order.
  pub select_loop-extends :
      (ms selected : List Mission) (per_project : PerProject)
      → (picks : List Mission) × (select_loop capacity limit ms selected per_project
          ≡ selected ++ picks)
        × Sublistᴰ picks ms
  unfolding select_loop
  select_loop-extends [] selected per_project = ([], sym (append-nil selected), Sublistᴰ.slnil)
  select_loop-extends (m ∷ ms) selected per_project =
      elim (Bool-cases (leb capacity (length selected))) [
        | inl full ↦ rw full ([], sym (append-nil selected), nothing_of (m ∷ ms))
        | inr room ↦ elim (Bool-cases (leb limit (count_of per_project m.project_id))) [
          | inl capped ↦
              let (picks, e, s) = select_loop-extends ms selected per_project in
              rw (room, capped) (picks, e, Sublistᴰ.cons s)
          | inr free ↦
              let (picks, e, s) =
                select_loop-extends ms (selected ++ m ∷ [])
                  (insert m.project_id (count_of per_project m.project_id + 1) per_project) in
              rw (room, free)
                (m ∷ picks, e ∙ append_assoc selected (m ∷ []) picks, Sublistᴰ.cons-cons refl s)
        ]
      ]

  pub select_loop-length :
      (ms selected : List Mission) (per_project : PerProject)
      → length selected ≤ capacity
      → length (select_loop capacity limit ms selected per_project) ≤ capacity
  unfolding select_loop
  select_loop-length [] selected per_project h = h
  select_loop-length (m ∷ ms) selected per_project h = ground (
    arith,
    select_loop-length ms selected per_project,
    select_loop-length ms (selected ++ m ∷ [])
        (insert m.project_id (count_of per_project m.project_id + 1) per_project),
    length-append selected (m ∷ []),
  )

  -- `base` is the number of runs of the project `p` before the loop, and `Counted` what the loop
  -- keeps of it.
  module _ (p : String) (base : ℕ) where
    abbrev pub Counted : List Mission → PerProject → Type 0
    Counted selected per_project =
        (count_of per_project p ≡ base + in_project p selected)
        × (base + in_project p selected ≤ max limit base)

    Counted-start :
        (m : Mission) (selected : List Mission) (per_project : PerProject)
        → leb limit (count_of per_project m.project_id) ≡ false
        → Counted selected per_project
        → Counted
            (selected ++ m ∷ [])
            (insert m.project_id (count_of per_project m.project_id + 1) per_project)
    Counted-start m selected per_project free h = elim (Bool-cases (m.project_id === p)) [
      | inl same ↦ ground (
        arith,
        leb→gt limit (count_of per_project m.project_id) free,
        count_of-start per_project m p,
        in_project-snoc p selected m,
        ap (count_of per_project) (beq_true {a = m.project_id} {b = p} same),
      )
      | inr other ↦ ground (arith, count_of-start per_project m p, in_project-snoc p selected m)
    ]

    pub select_loop-per_project :
        (ms selected : List Mission) (per_project : PerProject)
        → Counted selected per_project
        → base + in_project p (select_loop capacity limit ms selected per_project) ≤ max limit base
    unfolding select_loop
    select_loop-per_project [] selected per_project h = h.1
    select_loop-per_project (m ∷ ms) selected per_project h =
        elim (Bool-cases (leb capacity (length selected))) [
          | inl full ↦ rw full h.1
          | inr room ↦ elim (Bool-cases (leb limit (count_of per_project m.project_id))) [
            | inl capped ↦ rw (room, capped) (select_loop-per_project ms selected per_project h)
            | inr free ↦
                rw (room, free)
                  (select_loop-per_project ms (selected ++ m ∷ []) _
                    (Counted-start m selected per_project free h))
          ]
        ]

  in_project_mono :
      (p : String) (ms selected : List Mission) (per_project : PerProject)
      → in_project p selected ≤ in_project p (select_loop capacity limit ms selected per_project)
  in_project_mono p ms selected per_project =
      let (picks, e, s) = select_loop-extends ms selected per_project in
      rw e (omega (arith, count_if-append (λ x. x.project_id === p) selected picks))

  -- What becomes of a mission that stands behind `xs` in the order, in a result: it is selected,
  -- or its project is at its cap, or the capacity is used up by missions of `xs`.
  abbrev pub Fair : (String → ℕ) → Mission → List Mission → List Mission → List Mission → Type 0
  Fair base m selected xs result =
      In m result
      ⊎ (limit ≤ base m.project_id + in_project m.project_id result)
      ⊎ (capacity ≤ length result)
        × (picks : List Mission) × (result ≡ selected ++ picks)
        × Sublistᴰ picks xs

  Fair-skip :
      (base : String → ℕ) (m x : Mission) (selected xs result : List Mission)
      → Fair base m selected xs result
      → Fair base m selected (x ∷ xs) result
  Fair-skip base m x selected xs result (inl h) = inl h
  Fair-skip base m x selected xs result (inr (inl h)) = inr (inl h)
  Fair-skip base m x selected xs result (inr (inr (full, picks, e, s))) =
      inr (inr (full, picks, e, Sublistᴰ.cons s))

  Fair-start :
      (base : String → ℕ) (m x : Mission) (selected xs result : List Mission)
      → Fair base m (selected ++ x ∷ []) xs result
      → Fair base m selected (x ∷ xs) result
  Fair-start base m x selected xs result (inl h) = inl h
  Fair-start base m x selected xs result (inr (inl h)) = inr (inl h)
  Fair-start base m x selected xs result (inr (inr (full, picks, e, s))) =
      inr
        (inr (full, x ∷ picks, e ∙ append_assoc selected (x ∷ []) picks, Sublistᴰ.cons-cons refl s))

  In-start :
      (m : Mission) (ms selected : List Mission) (per_project : PerProject)
      → In m (select_loop capacity limit ms (selected ++ m ∷ []) per_project)
  In-start m ms selected per_project =
      let (picks, e, s) = select_loop-extends ms (selected ++ m ∷ []) per_project in
      rw e (In-append_left picks (In-append_right selected here))

  abbrev pub Counts : (String → ℕ) → List Mission → PerProject → Type 0
  Counts base selected per_project =
      (p : String) → count_of per_project p ≡ base p + in_project p selected

  Counts-start :
      (base : String → ℕ) (m : Mission) (selected : List Mission) (per_project : PerProject)
      → Counts base selected per_project
      → Counts base
          (selected ++ m ∷ [])
          (insert m.project_id (count_of per_project m.project_id + 1) per_project)
  Counts-start base m selected per_project h p =
      omega (arith, h p, count_of-start per_project m p, in_project-snoc p selected m)

  pub select_loop-Fair :
      (base : String → ℕ) (xs : List Mission) (m : Mission) (ys selected : List Mission)
      (per_project : PerProject)
      → Counts base selected per_project
      → Fair base m selected xs (select_loop capacity limit (xs ++ m ∷ ys) selected per_project)
  unfolding select_loop
  select_loop-Fair base [] m ys selected per_project counted =
      elim (Bool-cases (leb capacity (length selected))) [
        | inl full ↦
            rw full (inr (inr (leb→le _ _ full, [], sym (append-nil selected), nothing_of [])))
        | inr room ↦ elim (Bool-cases (leb limit (count_of per_project m.project_id))) [
          | inl capped ↦
              rw (room, capped)
                (inr (
                  inl (
                    omega (
                      arith,
                      leb→le limit (count_of per_project m.project_id) capped,
                      counted m.project_id,
                      in_project_mono m.project_id ys selected per_project,
                    ))))
          | inr free ↦ rw (room, free) (inl (In-start m ys selected _))
        ]
      ]
  select_loop-Fair base (x ∷ xs) m ys selected per_project counted =
      elim (Bool-cases (leb capacity (length selected))) [
        | inl full ↦
            rw full
              (inr (inr (leb→le _ _ full, [], sym (append-nil selected), nothing_of (x ∷ xs))))
        | inr room ↦ elim (Bool-cases (leb limit (count_of per_project x.project_id))) [
          | inl capped ↦
              rw (room, capped)
                (Fair-skip base m x selected xs _
                  (select_loop-Fair base xs m ys selected per_project counted))
          | inr free ↦
              rw (room, free)
                (Fair-start base m x selected xs _ (
                  select_loop-Fair base xs m ys (selected ++ x ∷ []) _
                    (Counts-start base x selected per_project counted)))
        ]
      ]
