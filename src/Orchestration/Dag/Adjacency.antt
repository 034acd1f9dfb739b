-- ===== src/Orchestration/Dag/Adjacency.antt =====
-- The adjacency lists hold exactly the dependencies.
use avity_os.Base.{
  ◌≡◌, sym, subst, ◌∙◌, ◌↔◌, ◌⊎◌, inl, inr, false, String, List, [], ◌∷◌, ◌++◌, In, here, there,
  not-In_nil, In-singleton, In-append, In-append_left, In-append_right, lookup, insert,
  lookup-insert, string_eq, ◌===◌, beq_true, beq_self, Bool-cases, if◌then◌else◌, arith,
}
use avity_os.Contracts.{MissionDependency}
use avity_os.Orchestration.Dag.{Adjacency, group, children, keys}

-- `a` depends on `b`.
pub data DependsOn (deps : List MissionDependency) (a b : String) : Type 0 where
  by :
      (d : MissionDependency)
      → In d deps
      → d.mission_id ≡ a
      → d.depends_on_mission_id ≡ b
      → DependsOn deps a b

children-insert :
    (adjacency : Adjacency) (k a : String) (l : List String)
    → children (insert k l adjacency) a ≡ (if k === a then l else children adjacency a)
children-insert adjacency k a l = ground (arith, lookup-insert k a l adjacency)

abbrev extend : MissionDependency → Adjacency → Adjacency
extend d adjacency =
    insert d.mission_id (children adjacency d.mission_id ++ d.depends_on_mission_id ∷ []) adjacency

module _ (d : MissionDependency) (adjacency : Adjacency) (a : String) where
  extend_same :
      d.mission_id ≡ a
      → children (extend d adjacency) a ≡ children adjacency a ++ d.depends_on_mission_id ∷ []
  extend_same same =
      subst
        (λ k.
          children (insert k (children adjacency k ++ d.depends_on_mission_id ∷ []) adjacency) a
          ≡ children adjacency a ++ d.depends_on_mission_id ∷ [])
        (sym same)
        (children-insert adjacency a a (children adjacency a ++ d.depends_on_mission_id ∷ [])
          ∙ rw (beq_self a))

  extend_other :
      (d.mission_id === a) ≡ false → children (extend d adjacency) a ≡ children adjacency a
  extend_other other =
      children-insert adjacency d.mission_id a
        (children adjacency d.mission_id ++ d.depends_on_mission_id ∷ [])
      ∙ rw other

  -- Adding a dependency adds that one edge, and no other.
  In-extend :
      (b : String)
      → In b (children (extend d adjacency) a)
      → In b (children adjacency a) ⊎ (d.mission_id ≡ a) × (d.depends_on_mission_id ≡ b)
  In-extend b m = elim (Bool-cases (d.mission_id === a)) [
    | inl same ↦
        let e = beq_true {a = d.mission_id} {b = a} same in
        elim (In-append (children adjacency a) (subst (In b) (extend_same e) m)) [
          | inl old ↦ inl old
          | inr new ↦ inr (e, sym (In-singleton new))
        ]
    | inr other ↦ inl (subst (In b) (extend_other other) m)
  ]

  extend_keeps : (b : String) → In b (children adjacency a) → In b (children (extend d adjacency) a)
  extend_keeps b m = elim (Bool-cases (d.mission_id === a)) [
    | inl same ↦
        subst (In b) (sym (extend_same (beq_true {a = d.mission_id} {b = a} same)))
          (In-append_left _ m)
    | inr other ↦ subst (In b) (sym (extend_other other)) m
  ]

  extend_adds : d.mission_id ≡ a → In d.depends_on_mission_id (children (extend d adjacency) a)
  extend_adds same =
      subst (In d.depends_on_mission_id) (sym (extend_same same))
        (In-append_right (children adjacency a) here)

group_keeps :
    (deps : List MissionDependency) (adjacency : Adjacency) (a b : String)
    → In b (children adjacency a)
    → In b (children (group deps adjacency) a)
unfolding group
group_keeps [] adjacency a b m = m
group_keeps (d ∷ deps) adjacency a b m =
    group_keeps deps (extend d adjacency) a b (extend_keeps d adjacency a b m)

group_adds :
    (deps : List MissionDependency) (adjacency : Adjacency) (d : MissionDependency) (a : String)
    → In d deps
    → d.mission_id ≡ a
    → In d.depends_on_mission_id (children (group deps adjacency) a)
unfolding group
group_adds [] adjacency d a m e = elim m [ ]
group_adds (x ∷ deps) adjacency d a here e = group_keeps deps _ a _ (extend_adds d adjacency a e)
group_adds (x ∷ deps) adjacency d a (there m) e = group_adds deps (extend x adjacency) d a m e

group_only :
    (deps : List MissionDependency) (adjacency : Adjacency) (a b : String)
    → In b (children (group deps adjacency) a)
    → In b (children adjacency a) ⊎ DependsOn deps a b
unfolding group
group_only [] adjacency a b m = inl m
group_only (d ∷ deps) adjacency a b m = elim (group_only deps (extend d adjacency) a b m) [
  | inl early ↦ elim (In-extend d adjacency a b early) [
    | inl old ↦ inl old
    | inr (from, to) ↦ inr (by d here from to)
  ]
  | inr (by e place from to) ↦ inr (by e (there place) from to)
]

-- The lists of the map hold, for each mission, exactly what it depends on.
pub children-group_iff :
    (deps : List MissionDependency) (a b : String)
    → In b (children (group deps []) a) ↔ DependsOn deps a b
unfolding lookup
children-group_iff deps a b = (
  λ m. elim (group_only deps [] a b m) [ inl early ↦ absurd (not-In_nil early) | inr edge ↦ edge ],
  λ edge. elim edge [
    | by d place from to ↦
        subst (λ x. In x (children (group deps []) a)) to (group_adds deps [] d a place from)
  ],
)

-- A mission with a dependency is a key of the map.
pub key_of_child :
    (adjacency : Adjacency) (a b : String) → In b (children adjacency a) → In a (keys adjacency)
unfolding lookup
key_of_child [] a b m = absurd (not-In_nil m)
key_of_child ((k, l) ∷ adjacency) a b m = elim (Bool-cases (k === a)) [
  | inl same ↦ subst (λ x. In x (k ∷ keys adjacency)) (beq_true {a = k} {b = a} same) here
  | inr other ↦ there (key_of_child adjacency a b (rw other at m))
]
