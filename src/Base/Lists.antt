-- ===== src/Base/Lists.antt =====
-- Lists measured by native numbers, and JavaScript's array methods on them.
use Prim.Native.Nat.{ℕ, zero, suc, ◌+◌, ◌≤◌, ◌<◌}
use mathlib.Core.Path.{◌≡◌, refl, subst, ap}
use mathlib.Core.Logic.{◌⊎◌, inl, inr}
use mathlib.Core.Bool.{Bool, true, false, ◌||◌, ◌&&◌}
use mathlib.Core.List.{List, [], ◌∷◌, ◌++◌}
use mathlib.Core.Option.{Option, none, some}
use native.Mathlib.Omega.{arith}
use avity_os.Base.Tests.{if◌then◌else◌, Bool-cases}
use avity_os.Base.Equality.{StrictEq, ◌===◌, beq_true, beq_self, beq_comm}

module _ {ℓ} {A : Type ℓ} where
  abbrev pub length : List A → ℕ
  length [] = 0
  length (x ∷ xs) = suc (length xs)

  -- `xs.filter(p)`, `xs.some(p)`, `xs.every(p)`, `xs.find(p)`, `xs.slice(0, n)`
  unfoldable pub filter : (A → Bool) → List A → List A
  filter p [] = []
  filter p (x ∷ xs) = if p x then x ∷ filter p xs else filter p xs

  unfoldable pub any : (A → Bool) → List A → Bool
  any p [] = false
  any p (x ∷ xs) = p x || any p xs

  unfoldable pub all : (A → Bool) → List A → Bool
  all p [] = true
  all p (x ∷ xs) = p x && all p xs

  unfoldable pub find : (A → Bool) → List A → Option A
  find p [] = none
  find p (x ∷ xs) = if p x then some x else find p xs

  unfoldable pub take : ℕ → List A → List A
  take zero xs = []
  take (suc n) [] = []
  take (suc n) (x ∷ xs) = x ∷ take n xs

  -- How many items pass a test.
  unfoldable pub count_if : (A → Bool) → List A → ℕ
  count_if p [] = 0
  count_if p (x ∷ xs) = if p x then suc (count_if p xs) else count_if p xs

  pub length-append : (xs ys : List A) → length (xs ++ ys) ≡ length xs + length ys
  length-append [] ys = omega arith
  length-append (x ∷ xs) ys = omega (arith, length-append xs ys)

  pub count_if-append :
      (p : A → Bool) (xs ys : List A) → count_if p (xs ++ ys) ≡ count_if p xs + count_if p ys
  unfolding count_if
  count_if-append p [] ys = omega arith
  count_if-append p (x ∷ xs) ys = ground (arith, count_if-append p xs ys)

  pub count_if_le :
      (p q : A → Bool) (xs : List A)
      → ((x : A) → p x ≡ true → q x ≡ true)
      → count_if p xs ≤ count_if q xs
  unfolding count_if
  count_if_le p q [] h = omega arith
  count_if_le p q (x ∷ xs) h = ground (arith, h x, count_if_le p q xs h)

  pub length-filter_le : (p : A → Bool) (xs : List A) → length (filter p xs) ≤ length xs
  unfolding filter
  length-filter_le p [] = omega arith
  length-filter_le p (x ∷ xs) = ground (arith, length-filter_le p xs)

-- A predicate of every item, by recursion, so that the tactics read it.
abbrev pub All {ℓ κ} : {A : Type ℓ} → (A → Type κ) → List A → Type κ
All P [] = Unit
All P (x ∷ xs) = P x × All P xs

module _ {ℓ} {A : Type ℓ} where
  -- Membership, with the place.
  pub data In (x : A) : List A → Type ℓ where
    here : {xs : List A} → In x (x ∷ xs)
    there : {y : A} {xs : List A} → In x xs → In x (y ∷ xs)

  pub In-append_left : {x : A} {xs : List A} (ys : List A) → In x xs → In x (xs ++ ys)
  In-append_left ys here = here
  In-append_left ys (there m) = there (In-append_left ys m)

  pub In-append_right : {x : A} (xs : List A) {ys : List A} → In x ys → In x (xs ++ ys)
  In-append_right [] m = m
  In-append_right (y ∷ xs) m = there (In-append_right xs m)

  pub In-append : {x : A} (xs : List A) {ys : List A} → In x (xs ++ ys) → In x xs ⊎ In x ys
  In-append [] m = inr m
  In-append (y ∷ xs) here = inl here
  In-append (y ∷ xs) (there m) = elim (In-append xs m) [ inl a ↦ inl (there a) | inr b ↦ inr b ]

  pub not-In_nil : {x : A} → In x [] → ⊥
  not-In_nil m = elim m [ ]

  pub In-singleton : {x y : A} → In x (y ∷ []) → x ≡ y
  In-singleton here = refl
  In-singleton (there m) = absurd (not-In_nil m)

  pub In-cons : {x y : A} {ys : List A} → In x (y ∷ ys) → (x ≡ y) ⊎ In x ys
  In-cons here = inl refl
  In-cons (there m) = inr m

  pub All-In {κ} : (P : A → Type κ) {x : A} {xs : List A} → All P xs → In x xs → P x
  All-In P h here = h.0
  All-In P h (there m) = All-In P h.1 m

  pub All-append {κ} : (P : A → Type κ) (xs ys : List A) → All P xs → All P ys → All P (xs ++ ys)
  All-append P [] ys hx hy = hy
  All-append P (x ∷ xs) ys hx hy = (hx.0, All-append P xs ys hx.1 hy)

-- `xs.includes(x)`, and a Set's `has`.
module _ {ℓ} {A : Type ℓ} ⦃e : StrictEq A⦄ where
  unfoldable pub includes : List A → A → Bool
  includes [] a = false
  includes (x ∷ xs) a = a === x || includes xs a

  pub includes-In : (xs : List A) {a : A} → includes xs a ≡ true → In a xs
  unfolding includes
  includes-In [] {a} h = cc
  includes-In (x ∷ xs) {a} h = elim (Bool-cases (a === x)) [
    | inl same ↦ subst (λ y. In a (y ∷ xs)) (beq_true same) here
    | inr other ↦ there (includes-In xs (rw other at h))
  ]

  pub In-includes : {a : A} {xs : List A} → In a xs → includes xs a ≡ true
  unfolding includes
  In-includes {a} here = rw (beq_self a)
  In-includes {a} (there m) = ground (arith, In-includes m)

  pub includes-append :
      (xs ys : List A) (a : A) → includes (xs ++ ys) a ≡ (includes xs a || includes ys a)
  unfolding includes
  includes-append [] ys a = refl
  includes-append (x ∷ xs) ys a = ground (arith, includes-append xs ys a)

  pub not_includes-cons :
      (x : A) (xs : List A) (a : A)
      → includes (x ∷ xs) a ≡ false
      → ((x === a) ≡ false) × (includes xs a ≡ false)
  unfolding includes
  not_includes-cons x xs a h = (ground (arith, beq_comm x a), ground arith)

module _ {ℓ} {A : Type ℓ} where
  pub count_if_lt :
      (p q : A → Bool) (xs : List A) (x : A)
      → ((y : A) → p y ≡ true → q y ≡ true)
      → p x ≡ false
      → q x ≡ true
      → In x xs
      → count_if p xs < count_if q xs
  unfolding count_if
  count_if_lt p q [] x h px qx m = elim m [ ]
  count_if_lt p q (y ∷ xs) x h px qx m = elim (In-cons m) [
    | inl same ↦ ground (arith, ap p same, ap q same, count_if_le p q xs h)
    | inr later ↦ ground (arith, h y, count_if_lt p q xs x h px qx later)
  ]
