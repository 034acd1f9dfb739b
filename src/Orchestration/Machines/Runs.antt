-- ===== src/Orchestration/Machines/Runs.antt =====
-- Traces of a run by RUN_TRANSITIONS.
use avity_os.Base.{true, false, ◌≡◌, refl, ◌↔◌, ◌⊎◌, inl, [], includes, arith}
use avity_os.Contracts.{RunState, run_state_eq}
use avity_os.Orchestration.Machines.{
  run_transitions, run_terminal_states, run_cancellable_on_pause, can_transition_run,
}
use avity_os.Orchestration.Machines.Traces.{Trace, Trace_ind, Trace-absorbed}

abbrev pub RunTrace : RunState → RunState → Type 0
RunTrace = Trace can_transition_run

-- A run state has no exit exactly if RUN_TERMINAL_STATES lists it, and those of the other states
-- that a pause of the project cancels are all but `cancelling`.
run_states :
    (s : RunState)
    → ((includes run_terminal_states s ≡ true) ↔ (run_transitions s ≡ []))
      × ((includes run_cancellable_on_pause s ≡ true)
          ⊎ (s ≡ RunState.cancelling)
          ⊎ (includes run_terminal_states s ≡ true))
unfolding includes
run_states RunState.queued = (((λ h. cc), (λ h. cc)), inl refl)
run_states s = (((λ h. ground arith), (λ h. ground arith)), ground arith)

terminal_stuck :
    (s u : RunState) → includes run_terminal_states s ≡ true → can_transition_run s u ≡ false
unfolding includes can_transition_run
terminal_stuck RunState.queued u h = cc
terminal_stuck s u h = ground arith

IsStopping : RunState → Type 0
IsStopping s = (s ≡ RunState.cancelling) ⊎ (s ≡ RunState.cancelled) ⊎ (s ≡ RunState.failed)

IsStopping-step : (t u : RunState) → can_transition_run t u ≡ true → IsStopping t → IsStopping u
unfolding can_transition_run IsStopping
IsStopping-step RunState.queued u h s = ground arith
IsStopping-step t u h s = ground arith

-- Once a run is being cancelled it ends as cancelled or failed, by whatever legal steps: it is
-- never running and never succeeds afterwards.
pub cancelling_never_succeeds :
    (t : RunState)
    → RunTrace RunState.cancelling t
    → (t ≡ RunState.cancelling) ⊎ (t ≡ RunState.cancelled) ⊎ (t ≡ RunState.failed)
unfolding IsStopping
cancelling_never_succeeds t p = Trace_ind can_transition_run IsStopping IsStopping-step (inl refl) p

-- A run that is over stays as it is, by whatever legal steps.
pub terminal_run_absorbs :
    (s t : RunState) → includes run_terminal_states s ≡ true → RunTrace s t → t ≡ s
terminal_run_absorbs s t over p = Trace-absorbed can_transition_run (λ u. terminal_stuck s u over) p
