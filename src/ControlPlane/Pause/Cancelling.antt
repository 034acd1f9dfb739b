-- ===== src/ControlPlane/Pause/Cancelling.antt =====
-- services/control-plane/src/store.ts: a run that a pause stops ends as cancelled.
use avity_os.Base.{String, List, [], ◌∷◌, string_eq}
use avity_os.Contracts.{RunState, run_state_eq}
use avity_os.ControlPlane.Store.{Store, Host}

module _ (host : Host) (cut_reason cut_detail : String → String) (at : String) where
  -- The states that the second step takes.
  abbrev stoppable : List RunState
  stoppable = RunState.starting ∷ RunState.running ∷ RunState.paused ∷ []
