-- ===== src/ControlPlane/Calls.antt =====
-- services/control-plane/src/store.ts: calls of the methods of the lifecycle and of the terminals,
-- in any order. A call that throws leaves what its method leaves, and the next call follows.
pub mod Moves
pub mod Refusals
use avity_os.Base.{ℕ, String, Bool, true, List, [], ◌∷◌, Option}
use avity_os.Contracts.{MissionState, RunState, ProjectStatus}
use avity_os.ControlPlane.Store.{Store, Host}
use avity_os.ControlPlane.Store.Actions.{Action}
use avity_os.ControlPlane.Fence.{assert_run_acceptable}
use avity_os.ControlPlane.Lifecycle.{
  transition_mission, update_mission_meta, create_run, transition_run, set_project_status,
}
use avity_os.ControlPlane.Pause.{begin_project_pause, complete_paused_run_cancellation}
use avity_os.ControlPlane.Resume.{resume_project}
use avity_os.ControlPlane.Lifecycle.Keeping.{
  Keeps-transition_mission, Keeps-update_mission_meta, Keeps-create_run, Keeps-transition_run,
  Keeps-set_project_status, Keeps-assert_run_acceptable,
}
use avity_os.ControlPlane.Pause.Keeping.{
  Keeps-begin_project_pause, Keeps-complete_paused_run_cancellation,
}
use avity_os.ControlPlane.Resume.Keeping.{Keeps-resume_project}
use avity_os.ControlPlane.Leases.{
  reconcile_expired_terminal_leases, revoke_worker_leases, heartbeat_worker,
  revoke_project_worker_leases, set_terminal_state,
}
use avity_os.ControlPlane.Leases.Offers.{lease_terminal, create_terminal}
use avity_os.ControlPlane.Leases.Keeping.{
  Changes-reconcile, Changes-revoke_worker, Changes-heartbeat, Changes-lease_terminal,
  Keeps-revoke_project, Keeps-set_terminal_state, Keeps-create_terminal,
}
use avity_os.ControlPlane.Changes.{Changes, still, Changes-append}

pub data Call : Type 0 where
  transitions_mission :
      (id : String) → (to : MissionState) → (reason actor : String) → (expected : Option ℕ) → Call
  updates_mission_meta :
      (id : String)
      → (branch_name worktree_path baseline_commit : Option String)
      → (correction_attempts : Option ℕ) → (expected : Option ℕ) → Call
  creates_run :
      (project_id mission_id : String)
      → (provider_id model worker_id : Option String) → (expected : Option ℕ) → Call
  transitions_run :
      (id : String)
      → (to : RunState) → (exit_reason error_category : Option String) → (expected : Option ℕ)
      → Call
  sets_project_status : (id : String) → (status : ProjectStatus) → (expected : Option ℕ) → Call
  asserts_run_acceptable : (run_id : String) → (expected : Option ℕ) → Call
  pauses_project : (id reason actor : String) → (idempotency_key : Option String) → Call
  completes_cancellation : (run_id exit_reason : String) → Call
  resumes_project : (id actor : String) → (idempotency_key : Option String) → Call
  creates_terminal :
      (project_id : String)
      → (command : List String) → (cwd : String) → (run_id : Option String)
      → (required_capabilities : Option (List String)) → (expected : Option ℕ) → Call
  leases_terminal : (now : ℕ) → (worker_id token : String) → (lease_seconds : ℕ) → Call
  heartbeats : (now : ℕ) → (worker_id : String) → (lease_seconds : ℕ) → Call
  reconciles_leases : (now : ℕ) → Call
  revokes_worker : (worker_id : String) → Call
  revokes_project : (project_id : String) → Call
  sets_terminal_state : (id : String) → (state : RunState) → (exit_code : Option ℕ) → Call

module _ (host : Host) (cut_reason cut_detail : String → String) where
  -- The store after a call at a time.
  abbrev pub after_call : (at : String) → Call → Store → Store
  after_call at (transitions_mission id to reason actor expected) s =
      (transition_mission host at id to reason actor expected s).1
  after_call at
        (updates_mission_meta id branch_name worktree_path baseline_commit correction_attempts
          expected)
        s =
      (update_mission_meta host at id branch_name worktree_path baseline_commit correction_attempts
        expected s).1
  after_call at (creates_run project_id mission_id provider_id model worker_id expected) s =
      (create_run host at project_id mission_id provider_id model worker_id expected s).1
  after_call at (transitions_run id to exit_reason error_category expected) s =
      (transition_run host at id to exit_reason error_category expected s).1
  after_call at (sets_project_status id status expected) s =
      (set_project_status host at id status expected s).1
  after_call at (asserts_run_acceptable run_id expected) s =
      (assert_run_acceptable host at run_id expected s).1
  after_call at (pauses_project id reason actor key) s =
      (begin_project_pause host cut_reason cut_detail at id reason actor key s).1
  after_call at (completes_cancellation run_id exit_reason) s =
      (complete_paused_run_cancellation host cut_reason cut_detail at run_id exit_reason s).1
  after_call at (resumes_project id actor key) s = (resume_project host at id actor key s).1
  after_call at (creates_terminal project_id command cwd run_id required_capabilities expected) s =
      (create_terminal host at project_id command cwd run_id required_capabilities expected s).1
  after_call at (leases_terminal now worker_id token lease_seconds) s =
      (lease_terminal host now at worker_id token lease_seconds s).1
  after_call at (heartbeats now worker_id lease_seconds) s =
      heartbeat_worker now at worker_id lease_seconds s
  after_call at (reconciles_leases now) s = reconcile_expired_terminal_leases now at s
  after_call at (revokes_worker worker_id) s = revoke_worker_leases at worker_id s
  after_call at (revokes_project project_id) s =
      (revoke_project_worker_leases host at project_id s).1
  after_call at (sets_terminal_state id state exit_code) s =
      (set_terminal_state host at id state exit_code s).1

  unfoldable pub after_calls : List (String × Call) → Store → Store
  after_calls [] s = s
  after_calls ((at, call) ∷ calls) s = after_calls calls (after_call at call s)

  Changes-after_call :
      (at : String) (call : Call) (s : Store) → Changes host true s (after_call at call s)
  Changes-after_call at (transitions_mission id to reason actor expected) s =
      (Keeps-transition_mission host true at id to reason actor expected s).changes
  Changes-after_call at
        (updates_mission_meta id branch_name worktree_path baseline_commit correction_attempts
          expected)
        s =
      (Keeps-update_mission_meta host true at id branch_name worktree_path baseline_commit
        correction_attempts expected s).changes
  Changes-after_call at (creates_run project_id mission_id provider_id model worker_id expected) s =
      (Keeps-create_run host true at project_id mission_id provider_id model worker_id expected
        s).changes
  Changes-after_call at (transitions_run id to exit_reason error_category expected) s =
      (Keeps-transition_run host true at id to exit_reason error_category expected s).changes
  Changes-after_call at (sets_project_status id status expected) s =
      (Keeps-set_project_status host at id status expected s).changes
  Changes-after_call at (asserts_run_acceptable run_id expected) s =
      (Keeps-assert_run_acceptable host true at run_id expected s).changes
  Changes-after_call at (pauses_project id reason actor key) s =
      (Keeps-begin_project_pause host cut_reason cut_detail at id reason actor key s).changes
  Changes-after_call at (completes_cancellation run_id exit_reason) s =
      (Keeps-complete_paused_run_cancellation host cut_reason cut_detail at true run_id exit_reason
        s).changes
  Changes-after_call at (resumes_project id actor key) s =
      (Keeps-resume_project host at id actor key s).changes
  Changes-after_call at
        (creates_terminal project_id command cwd run_id required_capabilities expected) s =
      (Keeps-create_terminal host true at project_id command cwd run_id required_capabilities
        expected s).changes
  Changes-after_call at (leases_terminal now worker_id token lease_seconds) s =
      Changes-lease_terminal host true now at worker_id token lease_seconds s
  Changes-after_call at (heartbeats now worker_id lease_seconds) s =
      Changes-heartbeat host true now at worker_id lease_seconds s
  Changes-after_call at (reconciles_leases now) s = Changes-reconcile host true now at s
  Changes-after_call at (revokes_worker worker_id) s =
      Changes-revoke_worker host true at worker_id s
  Changes-after_call at (revokes_project project_id) s =
      (Keeps-revoke_project host true at project_id s).changes
  Changes-after_call at (sets_terminal_state id state exit_code) s =
      (Keeps-set_terminal_state host true at id state exit_code s).changes

  -- Whatever is called, the store goes through changes of the kinds of `Change` only.
  pub Changes-after_calls :
      (calls : List (String × Call)) (s : Store) → Changes host true s (after_calls calls s)
  unfolding after_calls
  Changes-after_calls [] s = still
  Changes-after_calls ((at, call) ∷ calls) s =
      Changes-append host true (Changes-after_call at call s)
        (Changes-after_calls calls (after_call at call s))
