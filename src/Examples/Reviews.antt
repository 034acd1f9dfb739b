-- ===== src/Examples/Reviews.antt =====
-- The routing of services/control-plane/src/provider-routing.ts at concrete chains.
use avity_os.Base.{
  ◌≤◌, ◌≡◌, ◌≢◌, String, true, false, ◌&&◌, ◌||◌, List, [], ◌∷◌, ◌++◌, ◌===◌, string_eq, refl,
  filter, includes, count_if, beq_false,
}
use avity_os.Routing.{
  is_given, unique_provider_chain, distinct, reviewer_provider_chain,
  select_distinct_reviewer_provider,
}
use avity_os.Routing.Unique.{first_seen, unique_provider_chain_exact}
use avity_os.Routing.Reviewers.{reviewers_exact, reviewer_independent}

abbrev chain : List String
chain = "claude" ∷ "" ∷ "codex" ∷ "claude" ∷ "local" ∷ []

abbrev available : List String
available = "local" ∷ "claude" ∷ []

abbrev other : String
other = "local"

without_duplicates : unique_provider_chain chain ≡ "claude" ∷ "codex" ∷ "local" ∷ []
unfolding unique_provider_chain
without_duplicates = refl

unique_provider_chain_exact_example :
    (unique_provider_chain chain ≡ first_seen (filter is_given chain))
    × (includes (unique_provider_chain chain) "codex"
        ≡ (is_given "codex" && includes chain "codex"))
    × (count_if (λ y. y === "codex") (unique_provider_chain chain) ≤ 1)
unique_provider_chain_exact_example = unique_provider_chain_exact chain "codex"

reviewers_exact_example :
    (includes (reviewer_provider_chain chain available "claude") "local" ≡ (
      includes available "local"
      && (other === "claude" || (is_given "local" && includes chain "local"))))
    × (includes (distinct chain available "claude") "claude" ≡ false)
    × (reviewer_provider_chain chain available "claude"
        ≡ distinct chain available "claude" ++ filter (includes available) ("claude" ∷ []))
reviewers_exact_example = reviewers_exact chain available "claude" "local"

reviewer_independent_example :
    (select_distinct_reviewer_provider chain available "claude" ≢ "claude")
    × (includes available (select_distinct_reviewer_provider chain available "claude") ≡ true)
    × (includes chain (select_distinct_reviewer_provider chain available "claude") ≡ true)
unfolding includes
reviewer_independent_example =
    reviewer_independent chain available "claude" "local" refl refl (beq_false refl)
      (beq_false refl)
