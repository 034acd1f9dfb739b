-- ===== src/Orchestration/Dag/Order.antt =====
-- A search that returns has found an order of the graph, so there is no cycle.
use avity_os.Base.{
  ℕ, zero, suc, ◌≡◌, sym, subst, String, List, [], ◌∷◌, In, here, there, length, not-In_nil,
  In-cons, In-singleton, ◌≢◌, inl, inr, includes-In, string_eq,
}
use avity_os.Contracts.{MissionDependency}
use avity_os.Orchestration.Dag.{
  Adjacency, group, children, keys, Search, Visit, visited, visit, visit_each, enter, leave, fresh,
  assert_acyclic,
}
use avity_os.Orchestration.Dag.Adjacency.{DependsOn, children-group_iff, key_of_child}
use avity_os.Orchestration.Dag.Steps.{visited-injective, and_then-eq-visited, visit_cases}
use mathlib.Core.WellFounded.{Acc}

module _ (adjacency : Adjacency) where
  -- Each item's children stand behind it.
  abbrev IsOrdered : List String → Type 0
  IsOrdered [] = Unit
  IsOrdered (n ∷ ns) = ((b : String) → In b (children adjacency n) → In b ns) × IsOrdered ns

  abbrev Below : String → String → Type 0
  Below b a = In b (children adjacency a)

  Acc-IsOrdered : (ns : List String) → IsOrdered ns → (a : String) → In a ns → Acc Below a
  Acc-IsOrdered [] h a m = absurd (not-In_nil m)
  Acc-IsOrdered (n ∷ ns) h a m = at_head n ns h.0 (Acc-IsOrdered ns h.1) a m
    where
      at_head :
          (n : String) (ns : List String)
          → ((b : String) → In b (children adjacency n) → In b ns)
          → ((a : String) → In a ns → Acc Below a)
          → (a : String) → In a (n ∷ ns)
          → Acc Below a
      at_head n ns kids ih a here = Acc.intro a (λ b e. ih b (kids b e))
      at_head n ns kids ih a (there m) = ih a m

  -- What a call that returns has done: its nodes are done, and no other became undone.
  record IsProgress (nodes : List String) (s t : Search) : Type 0 where
    ordered : IsOrdered s.done → IsOrdered t.done
    kept : (x : String) → In x s.done → In x t.done
    reached : (x : String) → In x nodes → In x t.done

  IsProgress-none : {s t : Search} → s ≡ t → IsProgress [] s t
  IsProgress-none {s} e =
      subst (IsProgress [] s) e
        (record { ordered = λ h. h; kept = λ x m. m; reached = λ x m. absurd (not-In_nil m) })

  IsProgress-cons :
      {n : String} {ns : List String} {s u t : Search}
      → IsProgress (n ∷ []) s u
      → IsProgress ns u t
      → IsProgress (n ∷ ns) s t
  IsProgress-cons {n} p q = record {
    ordered = λ h. q.ordered (p.ordered h);
    kept = λ x m. q.kept x (p.kept x m);
    reached = λ x m. elim (In-cons m) [
      | inl same ↦ q.kept x (p.reached x (subst (λ y. In x (y ∷ [])) same here))
      | inr later ↦ q.reached x later
    ];
  }

  IsProgress-each :
      (f : String → Search → Visit)
      → ((n : String) (s t : Search) → f n s ≡ visited t → IsProgress (n ∷ []) s t)
      → (ns : List String) (s t : Search) → visit_each f ns s ≡ visited t
      → IsProgress ns s t
  unfolding visit_each
  IsProgress-each f step [] s t e = IsProgress-none (visited-injective e)
  IsProgress-each f step (n ∷ ns) s t e =
      let (u, first, rest) = and_then-eq-visited (f n s) (visit_each f ns) e in
      IsProgress-cons (step n s u first) (IsProgress-each f step ns u t rest)

  IsProgress-leave :
      (n : String) (s u t : Search)
      → IsProgress (children adjacency n) (enter n s) u
      → leave n u ≡ t
      → IsProgress (n ∷ []) s t
  unfolding enter leave
  IsProgress-leave n s u t p e = subst (IsProgress (n ∷ []) s) e (record {
    ordered = λ h. (p.reached, p.ordered h);
    kept = λ x m. there (p.kept x m);
    reached = λ x m. subst (λ y. In y (n ∷ u.done)) (sym (In-singleton m)) here;
  })

  exhausted_ne : (n : String) (s t : Search) → visit adjacency zero n s ≢ visited t
  unfolding visit
  exhausted_ne n s t e = cc

  IsProgress-visit :
      (fuel : ℕ) (n : String) (s t : Search)
      → visit adjacency fuel n s ≡ visited t
      → IsProgress (n ∷ []) s t
  IsProgress-visit zero n s t e = absurd (exhausted_ne n s t e)
  IsProgress-visit (suc fuel) n s t e = elim (visit_cases adjacency fuel n s t e) [
    | inl (known, same) ↦ subst (IsProgress (n ∷ []) s) same (record {
      ordered = λ h. h;
      kept = λ x m. m;
      reached = λ x m. subst (λ y. In y s.done) (sym (In-singleton m)) (includes-In s.done known);
    })
    | inr (new, off, u, below, left) ↦
        IsProgress-leave n s u t
          (IsProgress-each (visit adjacency fuel) (IsProgress-visit fuel) (children adjacency n)
            (enter n s) u below)
          left
  ]

-- `a` depends on `b`, directly or through others.
pub data DependsOn⁺ (deps : List MissionDependency) : String → String → Type 0 where
  direct : {a b : String} → DependsOn deps a b → DependsOn⁺ deps a b
  through :
      {a b : String} (x : String) → DependsOn deps a x → DependsOn⁺ deps x b → DependsOn⁺ deps a b

module _ (deps : List MissionDependency) where
  DependsOn⁺-snoc :
      {a b c : String} → DependsOn⁺ deps a b → DependsOn deps b c → DependsOn⁺ deps a c
  DependsOn⁺-snoc {b = b} (direct e) f = through b e (direct f)
  DependsOn⁺-snoc (through x e p) f = through x e (DependsOn⁺-snoc p f)

  not_Acc : (a : String) → Acc (λ b a. DependsOn deps a b) a → ¬ DependsOn⁺ deps a a
  not_Acc a (Acc.intro _ ih) (direct e) = not_Acc a (ih a e) (direct e)
  not_Acc a (Acc.intro _ ih) (through x e p) = not_Acc x (ih x e) (DependsOn⁺-snoc p e)

  Acc-DependsOn : (a : String) → Acc (Below (group deps [])) a → Acc (λ b a. DependsOn deps a b) a
  Acc-DependsOn a (Acc.intro _ ih) =
      Acc.intro a (λ b e. Acc-DependsOn b (ih b ((children-group_iff deps a b).1 e)))

  first_edge : {a b : String} → DependsOn⁺ deps a b → (x : String) × DependsOn deps a x
  first_edge {b = b} (direct e) = (b, e)
  first_edge (through x e p) = (x, e)

  -- If the search returns, no mission depends on itself.
  pub visited→acyclic :
      (t : Search) → assert_acyclic deps ≡ visited t → (a : String) → ¬ DependsOn⁺ deps a a
  unfolding assert_acyclic
  visited→acyclic t e a loop =
      let adjacency = group deps [] in
      let (x, edge) = first_edge loop in
      let key = key_of_child adjacency a x ((children-group_iff deps a x).1 edge) in
      let p =
        IsProgress-each adjacency (visit adjacency (suc (length (keys adjacency))))
          (IsProgress-visit adjacency (suc (length (keys adjacency)))) (keys adjacency) fresh t e in
      not_Acc a
        (Acc-DependsOn a (Acc-IsOrdered adjacency t.done (p.ordered tt) a (p.reached a key))) loop
