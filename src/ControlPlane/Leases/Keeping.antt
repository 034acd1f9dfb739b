-- ===== src/ControlPlane/Leases/Keeping.antt =====
-- services/control-plane/src/store.ts: the changes that the methods for terminals make.
use avity_os.Base.{
  refl, ℕ, String, Bool, ◌&&◌, List, Option, ltb, lookup, find, string_eq, Option-cases, Bool-cases,
  inl, inr,
}
use avity_os.Contracts.{RunState}
use avity_os.ControlPlane.Store.{Store, Host}
use avity_os.ControlPlane.Lifecycle.Keeping.{
  Keeps-append_event, assert_project_accepting_work_still,
}
use avity_os.ControlPlane.Leases.{
  active_count, reconcile_expired_terminal_leases, revoke_worker_leases, heartbeat_worker,
  revoke_project_worker_leases, set_terminal_state,
}
use avity_os.ControlPlane.Leases.Offers.{is_offered, lease_offered, lease_terminal, create_terminal}
use avity_os.ControlPlane.Changes.{
  Changes, still, and_then, Changes-append, terminals_written, workers_written,
}
use avity_os.ControlPlane.Changes.Methods.{
  Keeps, Keeps-then, Keeps-transaction, Keeps-found, Keeps-unless, Keeps-modify_then, Keeps-gets,
  Keeps-pure, Keeps-checked, Keeps-for_each,
}

module _ (host : Host) (writes : Bool) where
  pub Changes-reconcile :
      (now : ℕ) (at : String) (s : Store)
      → Changes host writes s (reconcile_expired_terminal_leases now at s)
  unfolding reconcile_expired_terminal_leases
  Changes-reconcile now at s = and_then still (terminals_written _)

  pub Changes-revoke_worker :
      (at worker_id : String) (s : Store)
      → Changes host writes s (revoke_worker_leases at worker_id s)
  unfolding revoke_worker_leases
  Changes-revoke_worker at worker_id s = and_then still (terminals_written _)

  pub Changes-heartbeat :
      (now : ℕ) (at worker_id : String) (lease_seconds : ℕ) (s : Store)
      → Changes host writes s (heartbeat_worker now at worker_id lease_seconds s)
  unfolding heartbeat_worker
  Changes-heartbeat now at worker_id lease_seconds s =
      and_then (and_then still (workers_written _)) (terminals_written _)

  module _ (now : ℕ) (at worker_id token : String) (lease_seconds : ℕ) where
    Changes-lease_offered :
        (capabilities : List String) (s : Store)
        → Changes host writes s
            (lease_offered host now at worker_id token lease_seconds capabilities s).1
    unfolding lease_offered
    Changes-lease_offered capabilities s =
        elim (Option-cases (find (is_offered s capabilities) s.terminals)) [
          | inl nothing ↦ rw (nothing, lease_offered) still
          | inr (entry, found) ↦ rw (found, lease_offered) (and_then still (terminals_written _))
        ]

    pub Changes-lease_terminal :
        (s : Store)
        → Changes host writes s (lease_terminal host now at worker_id token lease_seconds s).1
    unfolding lease_terminal
    Changes-lease_terminal s =
        let t = reconcile_expired_terminal_leases now at s in
        elim (Option-cases (lookup worker_id t.workers)) [
          | inl missing ↦ rw (missing, lease_terminal) (Changes-reconcile now at s)
          | inr (worker, known) ↦
              elim (Bool-cases (
                worker.is_online
                && ltb (active_count worker_id t.terminals) worker.max_concurrent_runs)) [
                  | inl room ↦
                      rw (known, room, lease_terminal)
                        (Changes-append host writes (Changes-reconcile now at s)
                          (Changes-lease_offered worker.capabilities t))
                  | inr full ↦ rw (known, full, lease_terminal) (Changes-reconcile now at s)
                ]
        ]

  pub Keeps-revoke_project :
      (at project_id : String) (s : Store)
      → Keeps host writes (revoke_project_worker_leases host at project_id) s
  unfolding revoke_project_worker_leases
  Keeps-revoke_project at project_id s = Keeps-transaction host writes _ s (
      Keeps-gets host writes _ _ s (
        Keeps-modify_then host writes _ _ s (terminals_written _) (
          Keeps-for_each host writes _ _ _
            λ entry t. Keeps-append_event host writes at _ _ t refl)))

  pub Keeps-set_terminal_state :
      (at id : String) (state : RunState) (exit_code : Option ℕ) (s : Store)
      → Keeps host writes (set_terminal_state host at id state exit_code) s
  unfolding set_terminal_state
  Keeps-set_terminal_state at id state exit_code s = Keeps-transaction host writes _ s (
      Keeps-found host writes _ _ _ s λ terminal found.
        Keeps-modify_then host writes _ _ s (terminals_written _)
          (Keeps-append_event host writes at _ _ _ refl))

  pub Keeps-create_terminal :
      (at project_id : String) (command : List String) (cwd : String) (run_id : Option String)
      (required_capabilities : Option (List String)) (expected : Option ℕ) (s : Store)
      → Keeps host writes
          (create_terminal host at project_id command cwd run_id required_capabilities expected)
          s
  unfolding create_terminal
  Keeps-create_terminal at project_id command cwd run_id required_capabilities expected s =
      Keeps-transaction host writes _ s (
        Keeps-checked host writes _ _ s (assert_project_accepting_work_still project_id expected s)
          (Keeps-gets host writes _ _ s (
            Keeps-gets host writes _ _ s (
              Keeps-unless host writes _ _ _ s λ free.
                Keeps-modify_then host writes _ _ s (terminals_written _) (
                  Keeps-then host writes _ _ _ (Keeps-append_event host writes at _ _ _ refl)
                    (Keeps-pure host writes _ _))))))
