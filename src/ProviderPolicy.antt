-- ===== src/ProviderPolicy.antt =====
-- services/control-plane/src/provider-policy.ts: in which execution modes the fixture provider,
-- which fabricates results, may be used.
pub mod Fixtures
use avity_os.Base.{
  String, Bool, true, false, not, ◌&&◌, ◌||◌, ◌≡◌, ◌⊎◌, inl, inr, List, Option, none, some, ◌===◌,
  string_eq, if◌then◌else◌, includes, Bool-cases, beq_true, beq_false, ◌≢◌, arith, refl,
}

abbrev pub fixture_provider_id : String
fixture_provider_id = "fake"

pub data ExecutionMode : Type 0 where
  test demo campaign production : ExecutionMode

pub record Environment : Type 0 where
  pub avity_execution_mode : Option String
  pub node_env : Option String
  pub vitest : Option String

pub data Resolution : Type 0 where
  resolved : ExecutionMode → Resolution
  invalid_mode : (raw : String) → Resolution

abbrev pub is_set : Option String → Bool
is_set none = false
is_set (some text) = not (text === "")

unfoldable pub named_mode : (raw : String) → Resolution
named_mode raw =
    if raw === "test"
    then resolved test
    else if raw === "demo"
    then resolved demo
    else if raw === "campaign"
    then resolved campaign
    else if raw === "production"
    then resolved production
    else invalid_mode raw

-- `env.NODE_ENV === "test" || env.VITEST`
unfoldable pub is_test_runner : Environment → Bool
is_test_runner env = elim env.node_env [
  | none ↦ is_set env.vitest
  | some text ↦ text === "test" || is_set env.vitest
]

unfoldable pub implicit_mode : Environment → ExecutionMode
unfolding is_test_runner
implicit_mode env = if is_test_runner env then test else production

-- `trim().toLowerCase()` is the platform's.
module _ (normalise : String → String) where
  unfoldable pub resolve_execution_mode : Environment → Resolution
  unfolding named_mode implicit_mode
  resolve_execution_mode env = elim env.avity_execution_mode [
    | none ↦ resolved (implicit_mode env)
    | some text ↦
        if normalise text === "" then resolved (implicit_mode env) else named_mode (normalise text)
  ]

unfoldable pub fake_provider_allowed : ExecutionMode → Bool
fake_provider_allowed test = true
fake_provider_allowed demo = true
fake_provider_allowed _ = false

pub data ChainCheck : Type 0 where
  chain_allowed fixture_forbidden : ChainCheck

unfoldable pub assert_provider_chain_allowed : ExecutionMode → List String → ChainCheck
unfolding fake_provider_allowed includes
assert_provider_chain_allowed mode chain =
    if fake_provider_allowed mode
    then chain_allowed
    else if includes chain fixture_provider_id
    then fixture_forbidden
    else chain_allowed
