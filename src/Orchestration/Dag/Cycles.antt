-- ===== src/Orchestration/Dag/Cycles.antt =====
-- A cycle that the search reports is one.
use avity_os.Base.{
  ℕ, zero, suc, ◌≡◌, ◌≢◌, refl, sym, subst, ◌∙◌, ap, ◌⊎◌, inl, inr, false, String, List, [], ◌∷◌,
  ◌++◌, length, In, here, there, In-cons, In-singleton, includes, includes-In, string_eq, ◌===◌,
  beq_true, beq_false, Bool-cases,
}
use avity_os.Contracts.{MissionDependency}
use avity_os.Orchestration.Dag.{
  Adjacency, group, children, keys, Search, Visit, visited, cycle, exhausted, and_then, visit,
  visit_each, enter, leave, slice_from, fresh, assert_acyclic,
}
use avity_os.Orchestration.Dag.Adjacency.{DependsOn, children-group_iff}
use avity_os.Orchestration.Dag.Order.{DependsOn⁺, visited→acyclic}
use avity_os.Orchestration.Dag.Termination.{Restored, Restored-visit, assert_acyclic-ne-exhausted}
use avity_os.Orchestration.Dag.Steps.{
  and_then-eq-cycle, Visit-cases, visit-known, visit-on_stack, visit-new,
}

-- Each item is related to the next.
abbrev pub IsWalk : (String → String → Type 0) → List String → Type 0
IsWalk R [] = Unit
IsWalk R (x ∷ []) = Unit
IsWalk R (x ∷ y ∷ l) = R x y × IsWalk R (y ∷ l)

-- A walk of at least one step that ends where it began.
pub record IsCycle (R : String → String → Type 0) (c : List String) : Type 0 where
  pub node : String
  pub between : List String
  pub closed : c ≡ node ∷ between ++ node ∷ []
  pub walk : IsWalk R c

module _ (R : String → String → Type 0) where
  IsWalk-snoc :
      (l : List String) (n b : String)
      → IsWalk R (l ++ n ∷ [])
      → R n b
      → IsWalk R ((l ++ n ∷ []) ++ b ∷ [])
  IsWalk-snoc [] n b h e = (e, tt)
  IsWalk-snoc (x ∷ []) n b h e = (h.0, (e, tt))
  IsWalk-snoc (x ∷ y ∷ l) n b h e = (h.0, IsWalk-snoc (y ∷ l) n b h.1 e)

  -- The part of a walk from an item of it on.
  slice-IsCycle :
      (l : List String) (n : String)
      → In n l
      → IsWalk R (l ++ n ∷ [])
      → IsCycle R (slice_from n l ++ n ∷ [])
  unfolding slice_from
  slice-IsCycle [] n m h = elim m [ ]
  slice-IsCycle (x ∷ l) n m h = elim (Bool-cases (x === n)) [
    | inl same ↦ rw same (record {
      node = n;
      between = l;
      closed = ap (λ y. y ∷ l ++ n ∷ []) (beq_true {a = x} {b = n} same);
      walk = h;
    })
    | inr other ↦ rw other (slice-IsCycle l n (later other (In-cons m)) (tail l h))
  ]
    where
      later : (x === n) ≡ false → (n ≡ x) ⊎ In n l → In n l
      later off (inl e) = absurd (beq_false off (sym e))
      later off (inr m) = m

      tail : (l : List String) → IsWalk R (x ∷ l ++ n ∷ []) → IsWalk R (l ++ n ∷ [])
      tail [] h = tt
      tail (y ∷ l) h = h.1

module _ (adjacency : Adjacency) where
  abbrev Edge : String → String → Type 0
  Edge a b = In b (children adjacency a)

  -- The stack is the set of the nodes on it, and is a walk that goes on to the next node.
  record IsPath (s : Search) (nodes : List String) : Type 0 where
    same : s.visiting ≡ s.stack
    onward : (n : String) → In n nodes → IsWalk Edge (s.stack ++ n ∷ [])

  IsPath-Restored :
      {s u : Search} (n : String) (ns : List String)
      → Restored s u
      → IsPath s (n ∷ ns)
      → IsPath u ns
  IsPath-Restored n ns (v, k) p = record {
    same = v ∙ p.same ∙ sym k;
    onward = λ m i. subst (λ l. IsWalk Edge (l ++ m ∷ [])) (sym k) (p.onward m (there i));
  }

  IsPath-enter :
      {s : Search} (n : String) → IsPath s (n ∷ []) → IsPath (enter n s) (children adjacency n)
  unfolding enter
  IsPath-enter {s} n p = record {
    same = ap (λ l. l ++ n ∷ []) p.same;
    onward = λ b e. IsWalk-snoc Edge s.stack n b (p.onward n here) e;
  }

  each-IsCycle :
      (fuel : ℕ)
      → ((n : String) (s : Search) (c : List String)
          → IsPath s (n ∷ [])
          → visit adjacency fuel n s ≡ cycle c
          → IsCycle Edge c)
      → (ns : List String) (s : Search) (c : List String) → IsPath s ns
      → visit_each (visit adjacency fuel) ns s ≡ cycle c
      → IsCycle Edge c
  unfolding visit_each
  each-IsCycle fuel step [] s c p e = absurd (visited_ne e)
    where
      visited_ne : visited s ≡ cycle c → ⊥
      visited_ne q = cc
  each-IsCycle fuel step (n ∷ ns) s c p e =
      elim (and_then-eq-cycle (visit adjacency fuel n s) (visit_each (visit adjacency fuel) ns) e) [
        | inl at_first ↦
            step n s c
              (record {
                same = p.same;
                onward = λ m i. p.onward m (subst (λ x. In x (n ∷ ns)) (sym (In-singleton i)) here);
              })
              at_first
        | inr (u, first, rest) ↦
            each-IsCycle fuel step ns u c
              (IsPath-Restored n ns (Restored-visit adjacency fuel n s u first) p) rest
      ]

  exhausted_ne : (n : String) (s : Search) (c : List String) → visit adjacency zero n s ≢ cycle c
  unfolding visit
  exhausted_ne n s c e = cc

  cycle-injective : {c c' : List String} → cycle c ≡ cycle c' → c ≡ c'
  cycle-injective e = cc

  below_of :
      (v : Visit) (n : String) (c : List String)
      → and_then v (λ t. visited (leave n t)) ≡ cycle c
      → v ≡ cycle c
  below_of (visited u) n c e = cc
  below_of (cycle c') n c e = e
  below_of exhausted n c e = cc

  visit-IsCycle :
      (fuel : ℕ) (n : String) (s : Search) (c : List String)
      → IsPath s (n ∷ [])
      → visit adjacency fuel n s ≡ cycle c
      → IsCycle Edge c
  visit-IsCycle zero n s c p e = absurd (exhausted_ne n s c e)
  visit-IsCycle (suc fuel) n s c p e = elim (Bool-cases (includes s.done n)) [
    | inl known ↦ absurd (visited_ne (sym (visit-known adjacency fuel n s known) ∙ e))
    | inr new ↦ elim (Bool-cases (includes s.visiting n)) [
      | inl on ↦
          subst (IsCycle Edge)
            (cycle-injective (sym (visit-on_stack adjacency fuel n s new on) ∙ e))
            (slice-IsCycle Edge s.stack n (subst (In n) p.same (includes-In s.visiting on))
              (p.onward n here))
      | inr off ↦
          each-IsCycle fuel (visit-IsCycle fuel) (children adjacency n) (enter n s) c
            (IsPath-enter n p) (below_of _ n c (sym (visit-new adjacency fuel n s new off) ∙ e))
    ]
  ]
    where
      visited_ne : visited s ≡ cycle c → ⊥
      visited_ne q = cc

IsWalk-map :
    {R Q : String → String → Type 0}
    → ((a b : String) → R a b → Q a b)
    → (l : List String) → IsWalk R l
    → IsWalk Q l
IsWalk-map f [] h = tt
IsWalk-map f (x ∷ []) h = tt
IsWalk-map f (x ∷ y ∷ l) h = (f x y h.0, IsWalk-map f (y ∷ l) h.1)

reported_cycle :
    (deps : List MissionDependency) (c : List String)
    → assert_acyclic deps ≡ cycle c
    → IsCycle (DependsOn deps) c
unfolding assert_acyclic
reported_cycle deps c e =
    let adjacency = group deps [] in
    let found =
      each-IsCycle adjacency (suc (length (keys adjacency)))
        (visit-IsCycle adjacency (suc (length (keys adjacency)))) (keys adjacency) fresh c
        (record { same = refl; onward = λ n m. tt }) e in
    record {
      node = found.node;
      between = found.between;
      closed = found.closed;
      walk = IsWalk-map (λ a b. (children-group_iff deps a b).0) c found.walk;
    }

-- The check of the graph decides it, whatever the dependencies: either it returns, and no mission
-- depends on itself directly or through others, or it reports a cycle, which is a walk along
-- dependencies that ends where it began.
pub assert_acyclic_decides :
    (deps : List MissionDependency)
    → ((t : Search) × (assert_acyclic deps ≡ visited t) × ((a : String) → ¬ DependsOn⁺ deps a a))
      ⊎ ((c : List String) × (assert_acyclic deps ≡ cycle c) × IsCycle (DependsOn deps) c)
assert_acyclic_decides deps = elim (Visit-cases (assert_acyclic deps)) [
  | inl (t, e) ↦ inl (t, e, visited→acyclic deps t e)
  | inr (inl (c, e)) ↦ inr (c, e, reported_cycle deps c e)
  | inr (inr e) ↦ absurd (assert_acyclic-ne-exhausted deps e)
]
