-- ===== src/Orchestration/Dag/Unblocked.antt =====
-- Which missions `unblockedMissions` promotes.
use avity_os.Base.{
  ◌≡◌, refl, sym, subst, ◌⊎◌, inl, inr, ◌↔◌, Bool, true, false, String, List, [], ◌∷◌, In, here,
  there, In-cons, not-In_nil, all, filter, includes, lookup, insert, lookup-insert, or_else, Option,
  none, some, ap, ◌∙◌, ◌===◌, if◌then◌else◌, string_eq, Bool-cases, arith,
}
use avity_os.Contracts.{
  Mission, MissionDependency, MissionState, mission_state_eq, mission_state-code_iff,
}
use avity_os.Orchestration.Dag.{
  group, children, states_by_id, is_satisfied, is_unblocked, unblocked_missions, satisfied_states,
}
use avity_os.Orchestration.Dag.Adjacency.{DependsOn, children-group_iff}

module _ {A : Type 0} (p : A → Bool) where
  all_iff : (xs : List A) → (all p xs ≡ true) ↔ ((x : A) → In x xs → p x ≡ true)
  unfolding all
  all_iff [] = ((λ h x m. absurd (not-In_nil m)), (λ h. refl))
  all_iff (x ∷ xs) = (
    (λ h y m. elim (In-cons m) [
      | inl e ↦ subst (λ z. p z ≡ true) (sym e) (ground arith)
      | inr later ↦ (all_iff xs).0 (ground arith) y later
    ]),
    (λ h. ground (arith, h x here, (all_iff xs).1 (λ y m. h y (there m)))),
  )

  In-filter_iff : (xs : List A) (x : A) → In x (filter p xs) ↔ (In x xs × (p x ≡ true))
  unfolding filter
  In-filter_iff [] x = ((λ m. absurd (not-In_nil m)), (λ h. absurd (not-In_nil h.0)))
  In-filter_iff (y ∷ xs) x = elim (Bool-cases (p y)) [
    | inl keep ↦ rw keep (
      (λ m. elim (In-cons m) [
        | inl e ↦ (subst (λ z. In z (y ∷ xs)) (sym e) here, subst (λ z. p z ≡ true) (sym e) keep)
        | inr later ↦ let (place, ok) = (In-filter_iff xs x).0 later in (there place, ok)
      ]),
      (λ (m, ok). elim (In-cons m) [
        | inl e ↦ subst (λ z. In z (y ∷ filter p xs)) (sym e) here
        | inr later ↦ there ((In-filter_iff xs x).1 (later, ok))
      ]),
    )
    | inr drop ↦ rw drop (
      (λ m. let (place, ok) = (In-filter_iff xs x).0 m in (there place, ok)),
      (λ (m, ok). elim (In-cons m) [
        | inl e ↦ absurd (clash (subst (λ z. p z ≡ true) e ok) drop)
        | inr later ↦ (In-filter_iff xs x).1 (later, ok)
      ]),
    )
  ]
    where
      clash : p y ≡ true → p y ≡ false → ⊥
      clash a b = cc

-- A state that satisfies what depends on it.
abbrev IsDone : MissionState → Type 0
IsDone s =
    (s ≡ MissionState.completed) ⊎ (s ≡ MissionState.integrated) ⊎ (s ≡ MissionState.approved)

satisfied-state_iff : (s : MissionState) → (includes satisfied_states s ≡ true) ↔ IsDone s
unfolding includes
satisfied-state_iff MissionState.proposed = ((λ h. cc), (λ h. ground arith))
satisfied-state_iff s = ((λ h. ground arith), (λ h. ground arith))

abbrev pub or_this : Option MissionState → Option MissionState → Option MissionState
or_this none other = other
or_this (some s) other = some s

-- The state of the last of the missions with an identifier.
abbrev pub last_state : String → List Mission → Option MissionState
last_state b [] = none
last_state b (m ∷ ms) = or_this (last_state b ms) (if m.id === b then some m.state else none)

or_this-or_this : (o p q : Option MissionState) → or_this o (or_this p q) ≡ or_this (or_this o p) q
or_this-or_this none p q = refl
or_this-or_this (some s) p q = refl

or_this-if :
    (b : Bool) (s : MissionState) (o : Option MissionState)
    → (if b then some s else o) ≡ or_this (if b then some s else none) o
or_this-if true s o = refl
or_this-if false s o = refl

-- The map holds the last state of each identifier, and where there is none what it held before.
lookup-states_by_id :
    (b : String) (missions : List Mission) (states : List (String × MissionState))
    → lookup b (states_by_id missions states) ≡ or_this (last_state b missions) (lookup b states)
unfolding states_by_id
lookup-states_by_id b [] states = refl
lookup-states_by_id b (m ∷ ms) states =
    rw
      (
        lookup-states_by_id b ms (insert m.id m.state states),
        lookup-insert m.id b m.state states,
        or_this-if (m.id === b) m.state (lookup b states),
      )
      (or_this-or_this (last_state b ms) _ _)

module _ (missions : List Mission) (deps : List MissionDependency) where
  -- The state of a dependency; one that is not given is taken to be proposed.
  abbrev state_of : String → MissionState
  state_of b = or_else (last_state b missions) MissionState.proposed

  mapped_state :
      (b : String)
      → or_else (lookup b (states_by_id missions [])) MissionState.proposed ≡ state_of b
  unfolding lookup
  mapped_state b =
      ap (λ o. or_else o MissionState.proposed)
        (lookup-states_by_id b missions [] ∙ or_none (last_state b missions))
    where
      or_none : (o : Option MissionState) → or_this o none ≡ o
      or_none none = refl
      or_none (some s) = refl

  satisfied_iff :
      (b : String) → (is_satisfied (states_by_id missions []) b ≡ true) ↔ IsDone (state_of b)
  unfolding is_satisfied
  satisfied_iff b =
      subst (λ s. (includes satisfied_states s ≡ true) ↔ IsDone (state_of b)) (sym (mapped_state b))
        (satisfied-state_iff (state_of b))

  is_unblocked_iff :
      (m : Mission)
      → (is_unblocked (states_by_id missions []) (group deps []) m ≡ true) ↔ (
          (m.state ≡ MissionState.proposed)
          × (all (is_satisfied (states_by_id missions [])) (children (group deps []) m.id) ≡ true))
  unfolding is_unblocked
  is_unblocked_iff m = (
    λ h. ground (arith, mission_state-code_iff m.state MissionState.proposed),
    λ h. ground (arith, mission_state-code_iff m.state MissionState.proposed),
  )

  -- A mission is unblocked exactly if it is one of the given missions, is proposed, and every
  -- mission that it depends on is completed, integrated or approved by the last of the given
  -- missions with that identifier; a dependency that is not given does not count as satisfied.
  pub unblocked_iff :
      (m : Mission)
      → In m (unblocked_missions missions deps) ↔ (
          In m missions
          × (m.state ≡ MissionState.proposed)
          × ((b : String)
              → DependsOn deps m.id b
              → (state_of b ≡ MissionState.completed)
                ⊎ (state_of b ≡ MissionState.integrated)
                ⊎ (state_of b ≡ MissionState.approved)))
  unfolding unblocked_missions
  unblocked_iff m = (
    (λ i.
        let (place, ok) =
          (In-filter_iff (is_unblocked (states_by_id missions []) (group deps [])) missions m).0
            i in
        let (proposed, every) = (is_unblocked_iff m).0 ok in
        (
          place,
          proposed,
          λ b e. (satisfied_iff b).0 (
              (all_iff _ (children (group deps []) m.id)).0 every b
                ((children-group_iff deps m.id b).1 e)),
        )),
    (λ (place, proposed, every).
        (In-filter_iff (is_unblocked (states_by_id missions []) (group deps [])) missions m).1 (
          place,
          (is_unblocked_iff m).1 (
            proposed,
            (all_iff _ (children (group deps []) m.id)).1
                (λ b i. (satisfied_iff b).1 (every b ((children-group_iff deps m.id b).0 i))),
          ),
        )),
  )
