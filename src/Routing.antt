-- ===== src/Routing.antt =====
-- services/control-plane/src/provider-routing.ts: the chains of providers that a mission's author
-- and its reviewer are tried in.
pub mod Unique
pub mod Reviewers
use avity_os.Base.{
  String, Bool, true, false, not, ◌&&◌, List, [], ◌∷◌, ◌++◌, ◌===◌, if◌then◌else◌, filter, includes,
  lookup, or_else, map, string_eq,
}

pub record ProviderRoutingInput : Type 0 where
  pub provider_chain : List String
  pub role_provider_chains : List (String × List String)

-- The insertion of a value into a Set.
abbrev pub add : List String → String → List String
add seen name = if includes seen name then seen else seen ++ name ∷ []

-- `new Set(names)`, from a Set that has some.
unfoldable pub set_from : List String → List String → List String
unfolding includes
set_from seen [] = seen
set_from seen (name ∷ names) = set_from (add seen name) names

abbrev pub is_given : String → Bool
is_given name = not (name === "")

unfoldable pub unique_provider_chain : List String → List String
unfolding set_from filter
unique_provider_chain providers = set_from [] (filter is_given providers)

unfoldable pub effective_provider_chain_for_role :
    ProviderRoutingInput → (role : String) → List String
unfolding unique_provider_chain lookup
effective_provider_chain_for_role input role =
    unique_provider_chain
      (or_else (lookup role input.role_provider_chains) [] ++ input.provider_chain)

unfoldable pub effective_brain_provider_chain : ProviderRoutingInput → List String
unfolding effective_provider_chain_for_role
effective_brain_provider_chain input = effective_provider_chain_for_role input "orchestrator"

-- `Array.prototype.sort` without a comparison, by code units, is the platform's.
unfoldable pub routed_roles_for_provider :
    (sort : List String → List String)
    → ProviderRoutingInput
    → (provider_name : String) → List String
unfolding effective_provider_chain_for_role includes filter set_from
routed_roles_for_provider sort input provider_name = sort (
    set_from [] (
      filter (λ role. includes (effective_provider_chain_for_role input role) provider_name)
        (map (λ entry. entry.0) input.role_provider_chains)))

unfoldable pub add_routable :
    ProviderRoutingInput → List String → (roles : List String) → List String
unfolding effective_provider_chain_for_role set_from
add_routable input result [] = result
add_routable input result (role ∷ roles) =
    add_routable input (set_from result (effective_provider_chain_for_role input role)) roles

unfoldable pub providers_routable_for_roles :
    ProviderRoutingInput → (roles : List String) → List String
unfolding add_routable
providers_routable_for_roles input roles = add_routable input [] roles

unfoldable pub distinct :
    (chain available_providers : List String) → (author_provider : String) → List String
unfolding unique_provider_chain filter includes
distinct chain available_providers author_provider =
    filter (λ provider. not (provider === author_provider) && includes available_providers provider)
      (unique_provider_chain chain)

unfoldable pub reviewer_provider_chain :
    (chain available_providers : List String) → (author_provider : String) → List String
unfolding distinct includes
reviewer_provider_chain chain available_providers author_provider =
    if includes available_providers author_provider
    then distinct chain available_providers author_provider ++ author_provider ∷ []
    else distinct chain available_providers author_provider

-- `names[0] ?? name`
abbrev pub first_or : String → List String → String
first_or name [] = name
first_or name (first ∷ _) = first

unfoldable pub select_distinct_reviewer_provider :
    (chain available_providers : List String) → (author_provider : String) → String
unfolding reviewer_provider_chain
select_distinct_reviewer_provider chain available_providers author_provider =
    first_or author_provider (reviewer_provider_chain chain available_providers author_provider)
