-- ===== src/Examples/Retries.antt =====
-- The fallback and correction decisions at concrete failures.
use avity_os.Base.{ℕ, ◌≤◌, ◌<◌, ◌≡◌, ◌≢◌, refl, true, false, some}
use avity_os.Contracts.{
  ProviderErrorCategory, rate_limited, transient_network, wait_for_reset, retry_backoff,
  switch_model, switch_provider, pause_lower_priority,
}
use avity_os.Orchestration.Fallback.{FallbackContext, decide_fallback, backoff_ms}
use avity_os.Orchestration.Fallback.Decisions.{decision_permitted, wait_ms_exact}

abbrev failure : ProviderErrorCategory → ℕ → FallbackContext
failure category attempt = record {
  category = category;
  attempt = attempt;
  max_retries = 2;
  retry_after_ms = some 5000;
  max_wait_ms = 60000;
  alternate_models_available = false;
  alternate_providers_allowed = true;
}

waits : (decide_fallback (failure rate_limited 1)).wait_ms ≡ 5000
unfolding decide_fallback
waits = refl

decision_permitted_example :
    (((decide_fallback (failure rate_limited 1)).action ≡ retry_backoff) → 1 < 2)
    × (((decide_fallback (failure rate_limited 1)).action ≡ wait_for_reset)
        → (rate_limited ≡ rate_limited) × (1 < 2))
    × (((decide_fallback (failure rate_limited 1)).action ≡ switch_model) → false ≡ true)
    × (((decide_fallback (failure rate_limited 1)).action ≡ switch_provider) → true ≡ true)
    × ((decide_fallback (failure rate_limited 1)).action ≢ pause_lower_priority)
decision_permitted_example = decision_permitted (failure rate_limited 1)

wait_ms_exact_example :
    (((decide_fallback (failure rate_limited 1)).action ≡ wait_for_reset)
      → (some 5000 ≡ some (decide_fallback (failure rate_limited 1)).wait_ms)
        × ((decide_fallback (failure rate_limited 1)).wait_ms ≤ 60000))
    × (((decide_fallback (failure rate_limited 1)).action ≡ retry_backoff)
        → (decide_fallback (failure rate_limited 1)).wait_ms ≡ backoff_ms 1)
    × ((decide_fallback (failure rate_limited 1)).action ≢ wait_for_reset
        → (decide_fallback (failure rate_limited 1)).action ≢ retry_backoff
        → (decide_fallback (failure rate_limited 1)).wait_ms ≡ 0)
wait_ms_exact_example = wait_ms_exact (failure rate_limited 1)

waits_for_reset : (decide_fallback (failure rate_limited 1)).action ≡ wait_for_reset
unfolding decide_fallback
waits_for_reset = refl

abbrev stranded : FallbackContext
stranded = record (failure transient_network 2) { alternate_providers_allowed = false }
