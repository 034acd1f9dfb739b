-- ===== src/Base/Maps.antt =====
-- JavaScript's Map as a list of entries in insertion order: `set` on a present key keeps its
-- place, and on a new key appends.
use mathlib.Core.Path.{◌≡◌, refl, sym, subst, ◌∙◌}
use mathlib.Core.Logic.{◌≢◌, inl, inr}
use mathlib.Core.Bool.{Bool, true, false}
use mathlib.Core.List.{List, [], ◌∷◌}
use mathlib.Core.Option.{Option, none, some}
use native.Mathlib.Omega.{arith}
use avity_os.Base.Tests.{if◌then◌else◌, Bool-cases}
use avity_os.Base.Equality.{StrictEq, ◌===◌, beq_true, beq_false, beq_self, ne→same}

-- `m.get(k) ?? d`
abbrev pub or_else {ℓ} : {A : Type ℓ} → Option A → A → A
or_else none d = d
or_else (some a) d = a

abbrev pub is_some {ℓ} : {A : Type ℓ} → Option A → Bool
is_some none = false
is_some (some _) = true

module _ {ℓ κ} {K : Type ℓ} ⦃e : StrictEq K⦄ {V : Type κ} where
  unfoldable pub lookup : K → List (K × V) → Option V
  lookup k [] = none
  lookup k ((j, v) ∷ m) = if j === k then some v else lookup k m

  unfoldable pub insert : K → V → List (K × V) → List (K × V)
  insert k v [] = (k, v) ∷ []
  insert k v ((j, w) ∷ m) = if j === k then (k, v) ∷ m else (j, w) ∷ insert k v m

  unfoldable pub delete : K → List (K × V) → List (K × V)
  delete k [] = []
  delete k ((j, w) ∷ m) = if j === k then delete k m else (j, w) ∷ delete k m

  pub lookup-insert_self : (k : K) (v : V) (m : List (K × V)) → lookup k (insert k v m) ≡ some v
  unfolding lookup insert
  lookup-insert_self k v [] = ground (arith, beq_self k)
  lookup-insert_self k v ((j, w) ∷ m) = ground (arith, beq_self k, lookup-insert_self k v m)

  pub lookup-insert_ne :
      (k j : K) (v : V) (m : List (K × V)) → k ≢ j → lookup j (insert k v m) ≡ lookup j m
  unfolding lookup insert
  lookup-insert_ne k j v [] h = ground (arith, ne→same h)
  lookup-insert_ne k j v ((i, w) ∷ m) h = elim (Bool-cases (i === k)) [
    | inl same ↦
        let differs : (i === j) ≡ false = ne→same (λ q. h (sym (beq_true same) ∙ q)) in
        ground (arith, ne→same h)
    | inr other ↦ ground (arith, lookup-insert_ne k j v m h)
  ]

  pub lookup-delete_self : (k : K) (m : List (K × V)) → lookup k (delete k m) ≡ none
  unfolding lookup delete
  lookup-delete_self k [] = refl
  lookup-delete_self k ((j, w) ∷ m) = ground (arith, lookup-delete_self k m)

  pub lookup-delete_ne : (k j : K) (m : List (K × V)) → k ≢ j → lookup j (delete k m) ≡ lookup j m
  unfolding lookup delete
  lookup-delete_ne k j [] h = refl
  lookup-delete_ne k j ((i, w) ∷ m) h = elim (Bool-cases (i === k)) [
    | inl same ↦
        let differs : (i === j) ≡ false = ne→same (λ q. h (sym (beq_true same) ∙ q)) in
        ground (arith, lookup-delete_ne k j m h)
    | inr other ↦ ground (arith, lookup-delete_ne k j m h)
  ]

  -- Both laws at once, by the test on the keys.
  pub lookup-insert :
      (k j : K) (v : V) (m : List (K × V))
      → lookup j (insert k v m) ≡ (if k === j then some v else lookup j m)
  lookup-insert k j v m = elim (Bool-cases (k === j)) [
    | inl same ↦
        rw same
          (subst (λ i. lookup i (insert k v m) ≡ some v) (beq_true same) (lookup-insert_self k v m))
    | inr other ↦ rw other (lookup-insert_ne k j v m (beq_false other))
  ]
