-- ===== src/Routing/Unique.antt =====
-- services/control-plane/src/provider-routing.ts: the chain without duplicates, against a
-- definition by recursion.
use avity_os.Base.{
  ◌≡◌, String, Bool, true, not, ◌&&◌, List, [], ◌∷◌, ◌++◌, ◌===◌, filter, includes, string_eq, inl,
  inr, arith, refl, sym, ap, Bool-cases, beq_self, beq_true, includes-append, ◌∙◌, subst, count_if,
  ◌≤◌,
}
use avity_os.Routing.{set_from, is_given, unique_provider_chain}

-- Each name where it is first seen.
unfoldable pub first_seen : List String → List String
first_seen [] = []
first_seen (name ∷ names) = name ∷ filter (λ other. not (other === name)) (first_seen names)

filter_ext :
    (p q : String → Bool) (xs : List String)
    → ((x : String) → p x ≡ q x)
    → filter p xs ≡ filter q xs
unfolding filter
filter_ext p q [] h = refl
filter_ext p q (x ∷ xs) h = ground (arith, h x, filter_ext p q xs h)

filter-filter :
    (p q : String → Bool) (xs : List String) → filter p (filter q xs) ≡ filter (λ x. q x && p x) xs
unfolding filter
filter-filter p q [] = refl
filter-filter p q (x ∷ xs) = elim (Bool-cases (q x)) [
  | inl yes_q ↦ rw yes_q (elim (Bool-cases (p x)) [
    | inl yes_p ↦ rw yes_p (ap (λ rest. x ∷ rest) (filter-filter p q xs))
    | inr no_p ↦ rw no_p (filter-filter p q xs)
  ])
  | inr no_q ↦ rw no_q (filter-filter p q xs)
]

append-singleton : (xs ys : List String) (y : String) → (xs ++ y ∷ []) ++ ys ≡ xs ++ y ∷ ys
append-singleton [] ys y = refl
append-singleton (x ∷ xs) ys y = ap (λ rest. x ∷ rest) (append-singleton xs ys y)

-- A name that is in the Set is not another name that is out of it.
apart :
    (seen : List String) (name x : String)
    → includes seen name ≡ true
    → (not (x === name) && not (includes seen x)) ≡ not (includes seen x)
apart seen name x h = elim (Bool-cases (x === name)) [
  | inl same ↦
      let known : includes seen x ≡ true = rw (beq_true {a = x} {b = name} same) h in
      ground (arith, known)
  | inr other ↦ ground (arith, other)
]

with_one :
    (seen : List String) (name x : String)
    → not (includes (seen ++ name ∷ []) x) ≡ (not (x === name) && not (includes seen x))
unfolding includes
with_one seen name x = ground (arith, includes-append seen (name ∷ []) x)

set_from_lem :
    (seen names : List String)
    → set_from seen names ≡ seen ++ filter (λ x. not (includes seen x)) (first_seen names)
unfolding set_from first_seen filter
set_from_lem seen [] = append_nil seen
  where
    append_nil : (xs : List String) → xs ≡ xs ++ []
    append_nil [] = refl
    append_nil (x ∷ xs) = ap (λ rest. x ∷ rest) (append_nil xs)
set_from_lem seen (name ∷ names) = elim (Bool-cases (includes seen name)) [
  | inl known ↦
      rw
        (
          known,
          filter-filter (λ x. not (includes seen x)) (λ other. not (other === name))
              (first_seen names),
          filter_ext _ (λ x. not (includes seen x)) (first_seen names)
              (λ x. apart seen name x known),
        )
        (set_from_lem seen names)
  | inr new ↦
      rw
        (
          new,
          filter-filter (λ x. not (includes seen x)) (λ other. not (other === name))
              (first_seen names),
          sym (
              filter_ext (λ x. not (includes (seen ++ name ∷ []) x)) _ (first_seen names)
                (with_one seen name)),
        )
        (set_from_lem (seen ++ name ∷ []) names ∙ append-singleton seen _ name)
]

filter-true : (xs : List String) → filter (λ _. true) xs ≡ xs
unfolding filter
filter-true [] = refl
filter-true (x ∷ xs) = ap (λ rest. x ∷ rest) (filter-true xs)

unique_provider_chain_lem :
    (providers : List String)
    → unique_provider_chain providers ≡ first_seen (filter is_given providers)
unfolding unique_provider_chain includes
unique_provider_chain_lem providers =
    set_from_lem [] (filter is_given providers)
    ∙ filter-true (first_seen (filter is_given providers))

pub includes-filter :
    (p : String → Bool) (xs : List String) (x : String)
    → includes (filter p xs) x ≡ (p x && includes xs x)
unfolding includes filter
includes-filter p [] x = ground arith
includes-filter p (y ∷ ys) x = elim (Bool-cases (x === y)) [
  | inl same ↦
      subst (λ z. includes (filter p (z ∷ ys)) x ≡ (p x && includes (z ∷ ys) x))
        (beq_true {a = x} {b = y} same) (ground (arith, beq_self x, includes-filter p ys x))
  | inr other ↦ ground (arith, other, includes-filter p ys x)
]

first_seen-includes :
    (names : List String) (x : String) → includes (first_seen names) x ≡ includes names x
unfolding first_seen includes
first_seen-includes [] x = refl
first_seen-includes (name ∷ names) x = ground (
  arith,
  includes-filter (λ other. not (other === name)) (first_seen names) x,
  first_seen-includes names x,
)

count-filter_le :
    (p q : String → Bool) (xs : List String) → count_if p (filter q xs) ≤ count_if p xs
unfolding count_if filter
count-filter_le p q [] = omega arith
count-filter_le p q (x ∷ xs) = ground (arith, count-filter_le p q xs)

count-others :
    (name : String) (xs : List String)
    → count_if (λ y. y === name) (filter (λ y. not (y === name)) xs) ≡ 0
unfolding count_if filter
count-others name [] = refl
count-others name (x ∷ xs) = ground (arith, count-others name xs)

first_seen_once :
    (names : List String) (x : String) → count_if (λ y. y === x) (first_seen names) ≤ 1
unfolding first_seen count_if
first_seen_once [] x = omega arith
first_seen_once (name ∷ names) x = elim (Bool-cases (name === x)) [
  | inl same ↦
      subst
        (λ z.
          count_if (λ y. y === z) (name ∷ filter (λ y. not (y === name)) (first_seen names)) ≤ 1)
        (beq_true {a = name} {b = x} same)
        (ground (arith, beq_self name, count-others name (first_seen names)))
  | inr other ↦ ground (
    arith,
    other,
    first_seen_once names x,
    count-filter_le (λ y. y === x) (λ y. not (y === name)) (first_seen names),
  )
]

-- The chain without duplicates lists each given name of the chain where it is first seen: it has
-- a name exactly when the chain has it and it is not empty, and has it once.
pub unique_provider_chain_exact :
    (providers : List String) (x : String)
    → (unique_provider_chain providers ≡ first_seen (filter is_given providers))
      × (includes (unique_provider_chain providers) x ≡ (is_given x && includes providers x))
      × (count_if (λ y. y === x) (unique_provider_chain providers) ≤ 1)
unique_provider_chain_exact providers x =
    let exact = unique_provider_chain_lem providers in
    (
      exact,
      rw (exact, first_seen-includes (filter is_given providers) x)
          (includes-filter is_given providers x),
      rw exact (first_seen_once (filter is_given providers) x),
    )
