-- ===== src/ControlPlane/Changes/Audit.antt =====
-- services/control-plane/src/store.ts: the hash chain of the audit entries under changes.
use avity_os.Base.{◌≡◌, refl, ◌∙◌, Bool}
use avity_os.ControlPlane.Store.{Store, Host}
use avity_os.ControlPlane.Store.Actions.{modify}
use avity_os.ControlPlane.Journal.{verify_audit_chain, append_audit}
use avity_os.ControlPlane.Journal.Chain.{verify-append_audit}
use avity_os.ControlPlane.Changes.{
  Change, Changes, still, and_then, event_added, audit_added, mission_moved, mission_noted,
  run_added, run_moved, project_written, pauses_written, key_written, terminals_written,
  workers_written,
}

module _ (host : Host) (writes : Bool) where
  verify_after_one :
      (s t : Store) → Change host writes s t → verify_audit_chain host t ≡ verify_audit_chain host s
  unfolding verify_audit_chain append_audit modify
  verify_after_one s _ (audit_added at project_id actor action detail) =
      verify-append_audit host at project_id actor action detail s
  verify_after_one s _ (event_added at scope event other_event) = refl
  verify_after_one s _ (mission_moved at reason id m m' found legal) = refl
  verify_after_one s _ (mission_noted id m m' found same) = refl
  verify_after_one s _ (run_added id r free queued) = refl
  verify_after_one s _ (run_moved id r r' found legal) = refl
  verify_after_one s _ (project_written id p p' w found legal later) = refl
  verify_after_one s _ (pauses_written pauses) = refl
  verify_after_one s _ (key_written keys) = refl
  verify_after_one s _ (terminals_written terminals) = refl
  verify_after_one s _ (workers_written workers) = refl

  pub verify-Changes :
      {s t : Store}
      → Changes host writes s t
      → verify_audit_chain host t ≡ verify_audit_chain host s
  verify-Changes still = refl
  verify-Changes (and_then {t = t} {u = u} before change) =
      verify_after_one t u change ∙ verify-Changes before
