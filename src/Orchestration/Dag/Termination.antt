-- ===== src/Orchestration/Dag/Termination.antt =====
-- The search never runs out of fuel, and puts its stack back.
use avity_os.Base.{
  ℕ, zero, suc, ◌≤◌, ◌<◌, ◌≡◌, ◌≢◌, refl, sym, subst, ◌∙◌, ap, inl, inr, Bool, false, not, String,
  List, [], ◌∷◌, ◌++◌, length, count_if, filter, In, here, In-append_right, In-includes,
  includes-append, not_includes-cons, count_if_lt, includes, string_eq, beq_self, Bool-cases, arith,
}
use avity_os.Contracts.{MissionDependency}
use avity_os.Orchestration.Dag.{
  Adjacency, group, children, keys, Search, Visit, visited, cycle, exhausted, and_then, visit,
  visit_each, enter, leave, pop, remove, fresh, assert_acyclic,
}
use avity_os.Orchestration.Dag.Adjacency.{key_of_child}
use avity_os.Orchestration.Dag.Steps.{
  visited-injective, and_then-eq-visited, Visit-cases, visit_cases, visit-known, visit-on_stack,
  visit-new,
}

pop-snoc : (l : List String) (n : String) → pop (l ++ n ∷ []) ≡ l
unfolding pop
pop-snoc [] n = refl
pop-snoc (x ∷ []) n = refl
pop-snoc (x ∷ y ∷ l) n = ap (λ r. x ∷ r) (pop-snoc (y ∷ l) n)

remove-snoc : (l : List String) (n : String) → includes l n ≡ false → remove n (l ++ n ∷ []) ≡ l
unfolding remove filter includes
remove-snoc [] n h = ground (arith, beq_self n)
remove-snoc (x ∷ l) n h =
    let (other, rest) = not_includes-cons x l n h in ground (arith, remove-snoc l n rest)

-- A call that returns leaves the set and the stack as it found them.
abbrev pub Restored : Search → Search → Type 0
Restored s t = (t.visiting ≡ s.visiting) × (t.stack ≡ s.stack)

module _ (adjacency : Adjacency) where
  Restored-each :
      (f : String → Search → Visit)
      → ((n : String) (s t : Search) → f n s ≡ visited t → Restored s t)
      → (ns : List String) (s t : Search) → visit_each f ns s ≡ visited t
      → Restored s t
  unfolding visit_each
  Restored-each f step [] s t e = (
    ap (λ r. r.visiting) (sym (visited-injective e)),
    ap (λ r. r.stack) (sym (visited-injective e)),
  )
  Restored-each f step (n ∷ ns) s t e =
      let (u, first, rest) = and_then-eq-visited (f n s) (visit_each f ns) e in
      let (v, k) = step n s u first in
      let (v', k') = Restored-each f step ns u t rest in (v' ∙ v, k' ∙ k)

  Restored-leave :
      (n : String) (s u t : Search)
      → includes s.visiting n ≡ false
      → Restored (enter n s) u
      → leave n u ≡ t
      → Restored s t
  unfolding enter leave
  Restored-leave n s u t off (v, k) e =
      subst (λ r. (r.visiting ≡ s.visiting) × (r.stack ≡ s.stack)) e
        (ap (remove n) v ∙ remove-snoc s.visiting n off, ap pop k ∙ pop-snoc s.stack n)

  exhausted_ne : (n : String) (s t : Search) → visit adjacency zero n s ≢ visited t
  unfolding visit
  exhausted_ne n s t e = cc

  pub Restored-visit :
      (fuel : ℕ) (n : String) (s t : Search) → visit adjacency fuel n s ≡ visited t → Restored s t
  Restored-visit zero n s t e = absurd (exhausted_ne n s t e)
  Restored-visit (suc fuel) n s t e = elim (visit_cases adjacency fuel n s t e) [
    | inl (known, same) ↦ (ap (λ r. r.visiting) (sym same), ap (λ r. r.stack) (sym same))
    | inr (new, off, u, below, left) ↦
        Restored-leave n s u t off
          (Restored-each (visit adjacency fuel) (Restored-visit fuel) (children adjacency n)
            (enter n s) u below)
          left
  ]

  -- How many missions with dependencies are not on the stack: each call's own fuel is above it.
  abbrev pub unvisited : List String → ℕ
  unvisited visiting = count_if (λ k. not (includes visiting k)) (keys adjacency)

  unvisited-enter :
      (n : String) (s : Search)
      → In n (keys adjacency)
      → includes s.visiting n ≡ false
      → unvisited (enter n s).visiting < unvisited s.visiting
  unfolding enter
  unvisited-enter n s key off =
      count_if_lt (λ k. not (includes (s.visiting ++ n ∷ []) k)) (λ k. not (includes s.visiting k))
        (keys adjacency) n (λ y h. ground (arith, includes-append s.visiting (n ∷ []) y))
        (ground
          (arith, In-includes (In-append_right s.visiting (let m : In n (n ∷ []) = here in m))))
        (ground (arith, off)) key

  each-ne-exhausted :
      (fuel : ℕ) (visiting : List String)
      → ((n : String) (s : Search) → s.visiting ≡ visiting → visit adjacency fuel n s ≢ exhausted)
      → (ns : List String) (s : Search) → s.visiting ≡ visiting
      → visit_each (visit adjacency fuel) ns s ≢ exhausted
  unfolding visit_each
  each-ne-exhausted fuel visiting step [] s e = λ q. cc
  each-ne-exhausted fuel visiting step (n ∷ ns) s e =
      elim (Visit-cases (visit adjacency fuel n s)) [
        | inl (u, first) ↦
            rw first
              (each-ne-exhausted fuel visiting step ns u ((Restored-visit fuel n s u first).0 ∙ e))
        | inr (inl (c, first)) ↦ rw first (λ q. cc)
        | inr (inr first) ↦ λ q. step n s e first
      ]

  and_then-ne-exhausted :
      (v : Visit) (n : String) → v ≢ exhausted → and_then v (λ t. visited (leave n t)) ≢ exhausted
  and_then-ne-exhausted (visited u) n h = λ q. cc
  and_then-ne-exhausted (cycle c) n h = λ q. cc
  and_then-ne-exhausted exhausted n h = λ q. h refl

  -- Below a node that has children, one mission more is on the stack.
  kids-ne-exhausted :
      (fuel : ℕ) (n : String) (s : Search)
      → ((n' : String) (s' : Search)
          → unvisited s'.visiting < fuel
          → visit adjacency fuel n' s' ≢ exhausted)
      → includes s.visiting n ≡ false
      → unvisited s.visiting < suc fuel
      → (kids : List String) → ((b : String) → In b kids → In b (children adjacency n))
      → visit_each (visit adjacency fuel) kids (enter n s) ≢ exhausted
  unfolding visit_each
  kids-ne-exhausted fuel n s ih off h [] from = λ q. cc
  kids-ne-exhausted fuel n s ih off h (c ∷ kids) from =
      each-ne-exhausted fuel (enter n s).visiting
        (λ n' s' e. ih n' s' (
          subst (λ v. unvisited v < fuel) (sym e)
            (omega (arith, unvisited-enter n s (key_of_child adjacency n c (from c here)) off))))
        (c ∷ kids) (enter n s) refl

  pub visit-ne-exhausted :
      (fuel : ℕ) (n : String) (s : Search)
      → unvisited s.visiting < fuel
      → visit adjacency fuel n s ≢ exhausted
  visit-ne-exhausted zero n s h = elim h [ ]
  visit-ne-exhausted (suc fuel) n s h = elim (Bool-cases (includes s.done n)) [
    | inl known ↦ rw (visit-known adjacency fuel n s known) (λ q. cc)
    | inr new ↦ elim (Bool-cases (includes s.visiting n)) [
      | inl on ↦ rw (visit-on_stack adjacency fuel n s new on) (λ q. cc)
      | inr off ↦ rw (visit-new adjacency fuel n s new off) (
          and_then-ne-exhausted _ n (
            kids-ne-exhausted fuel n s (visit-ne-exhausted fuel) off h (children adjacency n)
              (λ b m. m)))
    ]
  ]

count_if-le-length : (p : String → Bool) (l : List String) → count_if p l ≤ length l
unfolding count_if
count_if-le-length p [] = omega arith
count_if-le-length p (x ∷ l) = ground (arith, count_if-le-length p l)

-- The fuel that `assert_acyclic` gives is enough: it always returns or reports a cycle.
pub assert_acyclic-ne-exhausted : (deps : List MissionDependency) → assert_acyclic deps ≢ exhausted
unfolding assert_acyclic
assert_acyclic-ne-exhausted deps =
    let adjacency = group deps [] in
    each-ne-exhausted adjacency (suc (length (keys adjacency))) []
      (λ n s e.
        visit-ne-exhausted adjacency (suc (length (keys adjacency))) n s
          (omega (arith, count_if-le-length (λ k. not (includes s.visiting k)) (keys adjacency))))
      (keys adjacency) fresh refl
