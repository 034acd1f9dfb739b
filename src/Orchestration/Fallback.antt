-- ===== src/Orchestration/Fallback.antt =====
-- packages/orchestration/src/fallback.ts: what to do after a provider's failure. A reason is the
-- data that its text is made of; a wait is a number of milliseconds.
pub mod Decisions
use avity_os.Base.{
  ℕ, ◌+◌, ◌*◌, ◌^◌, ◌≤◌, Bool, true, false, Option, none, some, if◌then◌else◌, ltb, leb, ◌&&◌, min,
}
use avity_os.Contracts.{
  ProviderErrorCategory, auth, quota_exhausted, rate_limited, transient_network, invalid_request,
  context_overflow, tool_failure, agent_crash, policy_denied, sandbox_unavailable, unknown,
  FallbackAction, wait_for_reset, retry_backoff, switch_model, switch_provider, escalate_user,
}

pub record FallbackContext : Type 0 where
  pub category : ProviderErrorCategory
  pub attempt : ℕ
  pub max_retries : ℕ
  pub retry_after_ms : Option ℕ
  pub max_wait_ms : ℕ
  pub alternate_models_available : Bool
  pub alternate_providers_allowed : Bool

pub data Cause : Type 0 where
  rate_limited_exhausted : Cause
  reset_exceeds_wait : Cause
  quota_used_up : Cause
  retries_exhausted : Cause

pub data Reason : Type 0 where
  auth_switching : Reason
  auth_no_fallback : Reason
  not_retryable : ProviderErrorCategory → Reason
  resets_in : (ms : ℕ) → Reason
  larger_model : Reason
  no_larger_model : Reason
  transient_retry : (attempt max_retries : ℕ) → Reason
  switching_model : Cause → Reason
  switching_provider : Cause → Reason
  no_alternative : Cause → Reason

pub record FallbackDecision : Type 0 where
  pub action : FallbackAction
  pub wait_ms : ℕ
  pub reason : Reason

abbrev decision : FallbackAction → ℕ → Reason → FallbackDecision
decision action wait_ms reason = record { action = action; wait_ms = wait_ms; reason = reason }

-- 2 ** attempt is exact here: the cap is reached at attempt 6.
unfoldable pub backoff_ms : ℕ → ℕ
backoff_ms attempt = min (1000 * 2 ^ attempt) 60000

unfoldable pub switch_or_escalate : FallbackContext → Cause → FallbackDecision
switch_or_escalate ctx cause =
    if ctx.alternate_models_available
    then decision switch_model 0 (switching_model cause)
    else if ctx.alternate_providers_allowed
    then decision switch_provider 0 (switching_provider cause)
    else decision escalate_user 0 (no_alternative cause)

-- The case "rate_limited".
decide_rate_limited : FallbackContext → Option ℕ → FallbackDecision
unfolding switch_or_escalate
decide_rate_limited ctx none =
    switch_or_escalate ctx
      (if leb ctx.max_retries ctx.attempt then rate_limited_exhausted else reset_exceeds_wait)
decide_rate_limited ctx (some ms) =
    if leb ms ctx.max_wait_ms && ltb ctx.attempt ctx.max_retries
    then decision wait_for_reset ms (resets_in ms)
    else switch_or_escalate ctx
        (if leb ctx.max_retries ctx.attempt then rate_limited_exhausted else reset_exceeds_wait)

-- The last four cases.
decide_transient : FallbackContext → FallbackDecision
unfolding switch_or_escalate
decide_transient ctx =
    if ltb ctx.attempt ctx.max_retries
    then decision retry_backoff (backoff_ms ctx.attempt)
        (transient_retry (ctx.attempt + 1) ctx.max_retries)
    else switch_or_escalate ctx retries_exhausted

decide_for : ProviderErrorCategory → FallbackContext → FallbackDecision
unfolding switch_or_escalate decide_rate_limited decide_transient
decide_for auth ctx =
    if ctx.alternate_providers_allowed
    then decision switch_provider 0 auth_switching
    else decision escalate_user 0 auth_no_fallback
decide_for policy_denied ctx = decision escalate_user 0 (not_retryable policy_denied)
decide_for sandbox_unavailable ctx = decision escalate_user 0 (not_retryable sandbox_unavailable)
decide_for invalid_request ctx = decision escalate_user 0 (not_retryable invalid_request)
decide_for rate_limited ctx = decide_rate_limited ctx ctx.retry_after_ms
decide_for quota_exhausted ctx = switch_or_escalate ctx quota_used_up
decide_for context_overflow ctx =
    if ctx.alternate_models_available
    then decision switch_model 0 larger_model
    else decision escalate_user 0 no_larger_model
decide_for transient_network ctx = decide_transient ctx
decide_for tool_failure ctx = decide_transient ctx
decide_for agent_crash ctx = decide_transient ctx
decide_for unknown ctx = decide_transient ctx

unfoldable pub decide_fallback : FallbackContext → FallbackDecision
unfolding decide_for
decide_fallback ctx = decide_for ctx.category ctx
