-- ===== src/Orchestration/Dag/Steps.antt =====
-- What one call of the search does, by its result.
use avity_os.Base.{
  ℕ, suc, ◌≡◌, refl, sym, ◌∙◌, ◌⊎◌, inl, inr, true, false, String, List, [], ◌∷◌, ◌++◌, includes,
  string_eq, Bool-cases,
}
use avity_os.Orchestration.Dag.{
  Adjacency, children, Search, Visit, visited, cycle, exhausted, and_then, visit, visit_each, enter,
  leave, slice_from,
}

pub visited-injective : {s t : Search} → visited s ≡ visited t → s ≡ t
visited-injective e = cc

pub and_then-eq-visited :
    (v : Visit) (f : Search → Visit) {t : Search}
    → and_then v f ≡ visited t
    → (u : Search) × (v ≡ visited u) × (f u ≡ visited t)
and_then-eq-visited (visited u) f e = (u, refl, e)
and_then-eq-visited (cycle c) f e = cc
and_then-eq-visited exhausted f e = cc

pub and_then-eq-cycle :
    (v : Visit) (f : Search → Visit) {c : List String}
    → and_then v f ≡ cycle c
    → (v ≡ cycle c) ⊎ (u : Search) × (v ≡ visited u) × (f u ≡ cycle c)
and_then-eq-cycle (visited u) f e = inr (u, refl, e)
and_then-eq-cycle (cycle c) f e = inl e
and_then-eq-cycle exhausted f e = cc

pub Visit-cases :
    (v : Visit)
    → ((t : Search) × (v ≡ visited t)) ⊎ ((c : List String) × (v ≡ cycle c)) ⊎ (v ≡ exhausted)
Visit-cases (visited t) = inl (t, refl)
Visit-cases (cycle c) = inr (inl (c, refl))
Visit-cases exhausted = inr (inr refl)

module _ (adjacency : Adjacency) (fuel : ℕ) (n : String) (s : Search) where
  below : Visit
  below = visit_each (visit adjacency fuel) (children adjacency n) (enter n s)

  pub visit-known : includes s.done n ≡ true → visit adjacency (suc fuel) n s ≡ visited s
  unfolding visit
  visit-known known = rw known

  pub visit-on_stack :
      includes s.done n ≡ false
      → includes s.visiting n ≡ true
      → visit adjacency (suc fuel) n s ≡ cycle (slice_from n s.stack ++ n ∷ [])
  unfolding visit
  visit-on_stack new on = rw (new, on)

  pub visit-new :
      includes s.done n ≡ false
      → includes s.visiting n ≡ false
      → visit adjacency (suc fuel) n s
        ≡ and_then
            (visit_each (visit adjacency fuel) (children adjacency n) (enter n s))
            (λ t. visited (leave n t))
  unfolding visit
  visit-new new off = rw (new, off)

  pub visit_cases :
      (t : Search)
      → visit adjacency (suc fuel) n s ≡ visited t
      → (includes s.done n ≡ true) × (s ≡ t)
        ⊎ (includes s.done n ≡ false)
          × (includes s.visiting n ≡ false)
          × (u : Search) × (visit_each (visit adjacency fuel) (children adjacency n) (enter n s)
              ≡ visited u)
          × (leave n u ≡ t)
  visit_cases t e = elim (Bool-cases (includes s.done n)) [
    | inl known ↦ inl (known, visited-injective (sym (visit-known known) ∙ e))
    | inr new ↦ elim (Bool-cases (includes s.visiting n)) [
      | inl on ↦ absurd (cycle_ne (sym (visit-on_stack new on) ∙ e))
      | inr off ↦
          let (u, first, rest) =
            and_then-eq-visited _ (λ t. visited (leave n t)) (sym (visit-new new off) ∙ e) in
          inr (new, off, u, first, visited-injective rest)
    ]
  ]
    where
      cycle_ne : {c : List String} → cycle c ≡ visited t → ⊥
      cycle_ne q = cc
