-- ===== src/Examples/Modes.antt =====
-- The execution modes of services/control-plane/src/provider-policy.ts at concrete environments.
use avity_os.Base.{String, true, ◌≡◌, ◌⊎◌, [], ◌∷◌, none, some, includes, refl}
use avity_os.ProviderPolicy.{
  demo, production, Environment, resolved, is_test_runner, resolve_execution_mode,
  fixture_forbidden, assert_provider_chain_allowed,
}
use avity_os.ProviderPolicy.Fixtures.{NamesFixtureMode, fixture_is_asked_for}

abbrev unchanged_text : String → String
unchanged_text text = text

abbrev plain : Environment
plain = record { avity_execution_mode = none; node_env = some "development"; vitest = none }

abbrev in_demo : Environment
in_demo = record { avity_execution_mode = some "demo"; node_env = none; vitest = none }

plain_is_production : resolve_execution_mode unchanged_text plain ≡ resolved production
unfolding resolve_execution_mode
plain_is_production = refl

production_refuses :
    assert_provider_chain_allowed production ("claude" ∷ "fake" ∷ []) ≡ fixture_forbidden
unfolding assert_provider_chain_allowed
production_refuses = refl

fixture_is_asked_for_example :
    NamesFixtureMode unchanged_text in_demo ⊎ (is_test_runner in_demo ≡ true)
unfolding resolve_execution_mode assert_provider_chain_allowed includes
fixture_is_asked_for_example =
    fixture_is_asked_for unchanged_text in_demo demo ("fake" ∷ []) refl refl refl
