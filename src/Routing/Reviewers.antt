-- ===== src/Routing/Reviewers.antt =====
-- services/control-plane/src/provider-routing.ts: a mission is reviewed by another provider than
-- its author's, where one can.
use avity_os.Base.{
  ◌≡◌, ◌≢◌, String, true, false, not, ◌&&◌, ◌||◌, List, [], ◌∷◌, ◌++◌, ◌===◌, filter, includes,
  string_eq, inl, inr, arith, refl, sym, ◌∙◌, ap, Bool-cases, beq_self, beq_true, beq_false,
  ne→same, includes-append, &&_split,
}
use avity_os.Routing.{
  is_given, unique_provider_chain, distinct, reviewer_provider_chain, first_or,
  select_distinct_reviewer_provider,
}
use avity_os.Routing.Unique.{includes-filter, unique_provider_chain_exact}

distinct-includes :
    (chain available : List String) (author x : String)
    → includes (distinct chain available author) x
      ≡ ((not (x === author) && includes available x) && (is_given x && includes chain x))
unfolding distinct
distinct-includes chain available author x = ground (
  arith,
  includes-filter (λ p. not (p === author) && includes available p) (unique_provider_chain chain) x,
  (unique_provider_chain_exact chain x).1,
)

append_nil : (xs : List String) → xs ≡ xs ++ []
append_nil [] = refl
append_nil (x ∷ xs) = ap (λ rest. x ∷ rest) (append_nil xs)

reviewers-includes :
    (chain available : List String) (author x : String)
    → includes (reviewer_provider_chain chain available author) x
      ≡ (includes available x && (x === author || (is_given x && includes chain x)))
unfolding reviewer_provider_chain includes
reviewers-includes chain available author x =
    let among = distinct-includes chain available author x in
    let joined = includes-append (distinct chain available author) (author ∷ []) x in
    elim (Bool-cases (x === author)) [
      | inl same ↦
          let as_author : includes available x ≡ includes available author =
            ap (λ name. includes available name) (beq_true {a = x} {b = author} same) in
          ground (arith, among, joined, same, as_author)
      | inr other ↦ ground (arith, among, joined, other)
    ]

first_or-includes :
    (name other : String) (xs ys : List String)
    → includes xs other ≡ true
    → includes xs (first_or name (xs ++ ys)) ≡ true
unfolding includes
first_or-includes name other [] ys h = ground (arith, h)
first_or-includes name other (x ∷ xs) ys h = ground (arith, beq_self x)

first_or_listed :
    (name other : String) (xs : List String)
    → includes xs other ≡ true
    → includes xs (first_or name xs) ≡ true
unfolding includes
first_or_listed name other [] h = ground (arith, h)
first_or_listed name other (x ∷ xs) h = ground (arith, beq_self x)

select-distinct :
    (chain available : List String) (author other : String)
    → includes (distinct chain available author) other ≡ true
    → includes
        (distinct chain available author)
        (select_distinct_reviewer_provider chain available author)
      ≡ true
unfolding select_distinct_reviewer_provider reviewer_provider_chain
select-distinct chain available author other h = elim (Bool-cases (includes available author)) [
  | inl can ↦
      rw (select_distinct_reviewer_provider, reviewer_provider_chain, can)
        (first_or-includes author other (distinct chain available author) (author ∷ []) h)
  | inr cannot ↦
      rw (select_distinct_reviewer_provider, reviewer_provider_chain, cannot)
        (first_or_listed author other (distinct chain available author) h)
]

-- The reviewers are the available ones among the chain's given providers and the author, and the
-- author, where available, is the last, after all the others.
pub reviewers_exact :
    (chain available : List String) (author x : String)
    → (includes (reviewer_provider_chain chain available author) x
        ≡ (includes available x && (x === author || (is_given x && includes chain x))))
      × (includes (distinct chain available author) author ≡ false)
      × (reviewer_provider_chain chain available author
          ≡ distinct chain available author ++ filter (includes available) (author ∷ []))
unfolding reviewer_provider_chain filter
reviewers_exact chain available author x = (
  reviewers-includes chain available author x,
  ground (arith, distinct-includes chain available author author, beq_self author),
  elim (Bool-cases (includes available author)) [
    | inl can ↦ rw (reviewer_provider_chain, can) refl
    | inr cannot ↦ rw (reviewer_provider_chain, cannot) (append_nil _)
  ],
)

-- When the chain has an available provider other than the author, the reviewer that is selected
-- is not the author, and is itself available and in the chain.
pub reviewer_independent :
    (chain available : List String) (author other : String)
    → includes chain other ≡ true
    → includes available other ≡ true
    → other ≢ author
    → other ≢ ""
    → (select_distinct_reviewer_provider chain available author ≢ author)
      × (includes available (select_distinct_reviewer_provider chain available author) ≡ true)
      × (includes chain (select_distinct_reviewer_provider chain available author) ≡ true)
reviewer_independent chain available author other in_chain can differs given =
    let selected = select_distinct_reviewer_provider chain available author in
    let among = select-distinct chain available author other (
      rw (distinct-includes chain available author other)
        (ground (arith, in_chain, can, ne→same differs, ne→same given))) in
    let facts = distinct-includes chain available author selected in
    let (fits, listed) =
      &&_split _ (is_given selected && includes chain selected) (sym facts ∙ among) in
    let (apart, free) = &&_split (not (selected === author)) (includes available selected) fits in
    (
      beq_false (ground (arith, apart)),
      free,
      (&&_split (is_given selected) (includes chain selected) listed).1,
    )
