-- ===== src/ControlPlane/Changes/Rows.antt =====
-- services/control-plane/src/store.ts: what one row of a table becomes under changes.
use avity_os.Base.{
  List, String, Bool, true, false, ◌≡◌, ◌≢◌, sym, subst, ap, ◌∙◌, some, ◌===◌, lookup, insert,
  is_some, string_eq, arith, Bool-cases, inl, inr, lookup-insert_self, lookup-insert_ne, beq_true,
  beq_false,
}
use avity_os.Contracts.{ProjectStatus, project_status_eq}
use avity_os.ControlPlane.Store.{ProjectRow, Store, Host}
use avity_os.ControlPlane.Changes.{Change, Changes, still, and_then, Later}

same_value : {A : Type 0} {a b : A} → some a ≡ some b → a ≡ b
same_value h = cc

pub Later-self : (p : ProjectRow) → Later p p
Later-self p = record {
  no_lower = omega arith;
  higher_when_paused = λ unpaused paused. ground arith;
}

pub Later-trans : (p q r : ProjectRow) → Later p q → Later q r → Later p r
Later-trans p q r first next = record {
  no_lower = grind arith;
  higher_when_paused = λ unpaused paused. elim (Bool-cases (q.status === ProjectStatus.paused)) [
    | inl middle ↦ grind arith
    | inr middle ↦ grind arith
  ];
}

module _ {V : Type 0} where
  -- What a table's row has become: a row that is there, in a relation to the one before.
  pub record Became (R : V → V → Type 0) (k : String) (v : V) (table : List (String × V))
      : Type 0 where
    pub row : V
    pub found : lookup k table ≡ some row
    pub related : R v row

  pub Became-insert :
      (R : V → V → Type 0) (k j : String) (v w w' : V) (table : List (String × V))
      → lookup k table ≡ some v
      → lookup j table ≡ some w
      → R v v
      → (w ≡ v → R v w')
      → Became R k v (insert j w' table)
  Became-insert R k j v w w' table found other same moved = elim (Bool-cases (j === k)) [
    | inl equal ↦ record {
      row = w';
      found =
          subst (λ i. lookup i (insert j w' table) ≡ some w') (beq_true equal)
            (lookup-insert_self j w' table);
      related = moved (one_row (beq_true equal));
    }
    | inr apart ↦ record {
      row = v;
      found = lookup-insert_ne j k w' table (beq_false apart) ∙ found;
      related = same;
    }
  ]
    where
      one_row : j ≡ k → w ≡ v
      one_row equal = same_value (sym other ∙ ap (λ i. lookup i table) equal ∙ found)

  pub Became-insert_new :
      (R : V → V → Type 0) (k j : String) (v w' : V) (table : List (String × V))
      → lookup k table ≡ some v
      → is_some (lookup j table) ≡ false
      → R v v
      → Became R k v (insert j w' table)
  Became-insert_new R k j v w' table found free same = record {
    row = v;
    found = lookup-insert_ne j k w' table apart ∙ found;
    related = same;
  }
    where
      taken : is_some (lookup k table) ≡ true
      taken = ap is_some found

      clash : true ≡ false → ⊥
      clash h = cc

      apart : j ≢ k
      apart equal = clash (sym (ap (λ i. is_some (lookup i table)) equal ∙ taken) ∙ free)

-- A relation on the rows of a table that each change keeps.
module _ {V : Type 0} (host : Host) (writes : Bool) (table : Store → List (String × V))
    (R : V → V → Type 0) (R-self : (v : V) → R v v) (R-trans : (u v w : V) → R u v → R v w → R u w)
    (one : (s t : Store)
      → Change host writes s t
      → (k : String) (v : V) → lookup k (table s) ≡ some v
      → Became R k v (table t)) where
  pub Became-Changes :
      {s t : Store}
      → Changes host writes s t
      → (k : String) (v : V) → lookup k (table s) ≡ some v
      → Became R k v (table t)
  Became-Changes still k v found = record { row = v; found = found; related = R-self v }
  Became-Changes (and_then {t = t} {u = u} before change) k v found =
      let first = Became-Changes before k v found in
      let next = one t u change k first.row first.found in
      record {
        row = next.row;
        found = next.found;
        related = R-trans v first.row next.row first.related next.related;
      }
