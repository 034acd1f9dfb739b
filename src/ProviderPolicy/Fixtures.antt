-- ===== src/ProviderPolicy/Fixtures.antt =====
-- services/control-plane/src/provider-policy.ts: the fixture provider is never used unasked.
use avity_os.Base.{
  String, true, ◌≡◌, ◌⊎◌, inl, inr, List, some, ◌===◌, string_eq, includes, Bool-cases,
  Option-cases, beq_true, arith,
}
use avity_os.ProviderPolicy.{
  fixture_provider_id, ExecutionMode, Environment, resolved, named_mode, is_test_runner,
  implicit_mode, resolve_execution_mode, fake_provider_allowed, chain_allowed,
  assert_provider_chain_allowed,
}

-- A chain that names the fixture provider passes only in a mode that permits it.
passed_with_fixture :
    (mode : ExecutionMode) (chain : List String)
    → assert_provider_chain_allowed mode chain ≡ chain_allowed
    → includes chain fixture_provider_id ≡ true
    → fake_provider_allowed mode ≡ true
unfolding assert_provider_chain_allowed
passed_with_fixture mode chain passes named = ground (arith, passes, named)

named_permits :
    (raw : String) (mode : ExecutionMode)
    → named_mode raw ≡ resolved mode
    → fake_provider_allowed mode ≡ true
    → (raw ≡ "test") ⊎ (raw ≡ "demo")
unfolding named_mode fake_provider_allowed
named_permits raw mode names permits = elim (Bool-cases (raw === "test")) [
  | inl is_test ↦ inl (beq_true {a = raw} {b = "test"} is_test)
  | inr not_test ↦ elim (Bool-cases (raw === "demo")) [
    | inl is_demo ↦ inr (beq_true {a = raw} {b = "demo"} is_demo)
    | inr not_demo ↦ ground (arith, names, permits, not_test, not_demo)
  ]
]

implicit_permits :
    (env : Environment) (mode : ExecutionMode)
    → resolved (implicit_mode env) ≡ resolved mode
    → fake_provider_allowed mode ≡ true
    → is_test_runner env ≡ true
unfolding implicit_mode fake_provider_allowed
implicit_permits env mode same permits = ground (arith, same, permits)

module _ (normalise : String → String) where
  -- The environment names the mode test or demo.
  abbrev pub NamesFixtureMode : Environment → Type 0
  NamesFixtureMode env =
      (text : String) × (env.avity_execution_mode ≡ some text)
      × ((normalise text ≡ "test") ⊎ (normalise text ≡ "demo"))

  -- A chain that names the fixture provider passes the check, in the mode that an environment
  -- resolves to, only if the environment names the mode test or demo, or is a test runner's.
  pub fixture_is_asked_for :
      (env : Environment) (mode : ExecutionMode) (chain : List String)
      → resolve_execution_mode normalise env ≡ resolved mode
      → assert_provider_chain_allowed mode chain ≡ chain_allowed
      → includes chain fixture_provider_id ≡ true
      → NamesFixtureMode env ⊎ (is_test_runner env ≡ true)
  unfolding resolve_execution_mode
  fixture_is_asked_for env mode chain resolves passes named =
      let permits = passed_with_fixture mode chain passes named in
      elim (Option-cases env.avity_execution_mode) [
        | inl unset ↦
            inr (implicit_permits env mode (rw (resolve_execution_mode, unset) at resolves) permits)
        | inr (text, given) ↦ elim (Bool-cases (normalise text === "")) [
          | inl blank ↦ inr (
              implicit_permits env mode (rw (resolve_execution_mode, given, blank) at resolves)
                permits)
          | inr explicit ↦ inl (
            text,
            given,
            named_permits (normalise text) mode
                (rw (resolve_execution_mode, given, explicit) at resolves) permits,
          )
        ]
      ]
