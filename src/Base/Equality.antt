-- ===== src/Base/Equality.antt =====
-- JavaScript's `===` on strings and on the closed enumerations, as one operator.
use Prim.Native.Nat.{ℕ}
use Prim.Native.String.{String}
use mathlib.Core.Path.{◌≡◌, refl, sym}
use mathlib.Core.Logic.{◌↔◌, ◌≢◌}
use mathlib.Core.Bool.{Bool, true, false}
use native.Mathlib.Omega.{arith}
use text.Mathlib.Text.{◌==◌ as str_eq}
use text.Mathlib.TextEquality.{eq_iff}
use avity_os.Base.Tests.{nat_eqb, nat_eqb_iff}

pub record StrictEq {ℓ} (A : Type ℓ) : Type ℓ where
  pub same : A → A → Bool
  pub same_iff : (a b : A) → (same a b ≡ true) ↔ (a ≡ b)

abbrev pub ◌===◌ {ℓ} : {A : Type ℓ} ⦃order : StrictEq A⦄ (x y : A) → Bool
◌===◌ ⦃order⦄ x y = order.same x y

infix 50 ◌===◌
instance abbrev pub nat_eq : StrictEq ℕ
nat_eq = record { same = nat_eqb; same_iff = nat_eqb_iff }

instance abbrev pub string_eq : StrictEq String
string_eq = record { same = str_eq; same_iff = eq_iff }

-- Equality of values that a number names.
module _ {A : Type 0} (code : A → ℕ) (decode : ℕ → A)
    (decode-code : (a : A) → decode (code a) ≡ a) where
  pub code-eq_iff : (a b : A) → (nat_eqb (code a) (code b) ≡ true) ↔ (a ≡ b)
  code-eq_iff a b = (
    λ h. ground (arith, decode-code a, decode-code b, nat_eqb_iff (code a) (code b)),
    λ h. ground (arith, nat_eqb_iff (code a) (code b)),
  )

module _ {ℓ} {A : Type ℓ} ⦃e : StrictEq A⦄ where
  pub beq_self : (a : A) → (a === a) ≡ true
  beq_self a = (e.same_iff a a).1 refl

  pub beq_true : {a b : A} → (a === b) ≡ true → a ≡ b
  beq_true {a} {b} h = (e.same_iff a b).0 h

  pub beq_false : {a b : A} → (a === b) ≡ false → a ≢ b
  beq_false {a} {b} h eq = ground (arith, (e.same_iff a b).1 eq)

  pub ne→same : {a b : A} → a ≢ b → (a === b) ≡ false
  ne→same {a} {b} h =
      elim (a === b) as (λ t. (a === b) ≡ t → t ≡ false) [
        | true ↦ λ q. absurd (h (beq_true q))
        | false ↦ λ _. refl
      ]
        refl

  pub beq_comm : (a b : A) → (a === b) ≡ (b === a)
  beq_comm a b =
      elim (a === b) as (λ t. (a === b) ≡ t → t ≡ (b === a)) [
        | true ↦ λ q. sym ((e.same_iff b a).1 (sym (beq_true q)))
        | false ↦ λ q. sym (ne→same (λ r. beq_false q (sym r)))
      ]
        refl
