-- ===== src/Orchestration/Fallback/Decisions.antt =====
-- What holds of every decision of `decideFallback`.
use avity_os.Base.{
  ℕ, zero, suc, ◌*◌, ◌^◌, ◌≤◌, ◌<◌, ◌≡◌, refl, true, false, some, min, max, arith, ◌≢◌,
}
use native.Mathlib.Nat.{pow-suc}
use avity_os.Contracts.{
  wait_for_reset, retry_backoff, switch_model, switch_provider, escalate_user, pause_lower_priority,
  auth, context_overflow, policy_denied, sandbox_unavailable, invalid_request, rate_limited,
}
use avity_os.Orchestration.Fallback.{FallbackContext, decide_fallback, backoff_ms}

pow_pos : (n : ℕ) → 1 ≤ 2 ^ n
pow_pos zero = omega arith
pow_pos (suc n) = omega (arith, pow_pos n, pow-suc 2 n)

-- The backoff starts at a second, doubles with each attempt up to its cap of a minute, and stays
-- between the two.
backoff_ms_lem :
    (attempt : ℕ)
    → (backoff_ms 0 ≡ 1000)
      × (backoff_ms (suc attempt) ≡ min (2 * backoff_ms attempt) 60000)
      × (1000 ≤ backoff_ms attempt)
      × (backoff_ms attempt ≤ 60000)
unfolding backoff_ms
backoff_ms_lem attempt =
    (refl, omega (arith, pow-suc 2 attempt), omega (arith, pow_pos attempt), omega arith)

-- A retry or a wait is only decided below the retry limit, and a switch only to what is allowed;
-- lower-priority work is never paused.
pub decision_permitted :
    (ctx : FallbackContext)
    → (((decide_fallback ctx).action ≡ retry_backoff) → ctx.attempt < ctx.max_retries)
      × (((decide_fallback ctx).action ≡ wait_for_reset)
          → (ctx.category ≡ rate_limited) × (ctx.attempt < ctx.max_retries))
      × (((decide_fallback ctx).action ≡ switch_model) → ctx.alternate_models_available ≡ true)
      × (((decide_fallback ctx).action ≡ switch_provider) → ctx.alternate_providers_allowed ≡ true)
      × ((decide_fallback ctx).action ≢ pause_lower_priority)
unfolding decide_fallback
decision_permitted ctx =
    (λ h. ground arith, λ h. ground arith, λ h. ground arith, λ h. ground arith, λ h. ground arith)

-- When the decision is to wait for the provider's reset, the wait is exactly the reset time that
-- the provider gave, which is then within the policy's budget; when it is to retry, the wait is
-- exactly the backoff of this attempt; with any other decision there is no wait.
pub wait_ms_exact :
    (ctx : FallbackContext)
    → (((decide_fallback ctx).action ≡ wait_for_reset)
        → (ctx.retry_after_ms ≡ some (decide_fallback ctx).wait_ms)
          × ((decide_fallback ctx).wait_ms ≤ ctx.max_wait_ms))
      × (((decide_fallback ctx).action ≡ retry_backoff)
          → (decide_fallback ctx).wait_ms ≡ backoff_ms ctx.attempt)
      × ((decide_fallback ctx).action ≢ wait_for_reset
          → (decide_fallback ctx).action ≢ retry_backoff
          → (decide_fallback ctx).wait_ms ≡ 0)
unfolding decide_fallback
wait_ms_exact ctx = (λ h. ground arith, λ h. ground arith, λ h k. ground arith)

-- Whatever the failure, the wait is at most a minute or the policy's budget.
pub wait_ms_bounded :
    (ctx : FallbackContext) → (decide_fallback ctx).wait_ms ≤ max ctx.max_wait_ms 60000
unfolding decide_fallback
wait_ms_bounded ctx = ground (arith, backoff_ms_lem ctx.attempt)

-- Escalation is the last resort: a failure that may be retried is escalated only when neither a
-- model nor a provider is left.
escalates_last :
    (ctx : FallbackContext)
    → ctx.category ≢ policy_denied
    → ctx.category ≢ sandbox_unavailable
    → ctx.category ≢ invalid_request
    → ctx.category ≢ auth
    → ctx.category ≢ context_overflow
    → (decide_fallback ctx).action ≡ escalate_user
    → (ctx.alternate_models_available ≡ false) × (ctx.alternate_providers_allowed ≡ false)
unfolding decide_fallback
escalates_last ctx p s i a o h = ground arith
