-- ===== src/ControlPlane/Resume/Targets.antt =====
-- services/control-plane/src/store.ts: the way back of each mission and each project is legal.
use avity_os.Base.{true, false, ◌≡◌, refl, arith, includes, [], ◌∷◌}
use avity_os.Contracts.{MissionState, ProjectStatus, mission_state_eq, project_status_eq}
use avity_os.Orchestration.Machines.{can_transition_mission, can_transition_project}
use avity_os.ControlPlane.Resume.{resume_mission_target}

-- A mission's target after a pause may be reached from `paused`, whatever state it was paused
-- from, and is never one in which a run is going on or a retry is pending, nor `paused`.
pub resume_mission_target_lem :
    (from_state : MissionState)
    → (can_transition_mission MissionState.paused (resume_mission_target from_state) ≡ true)
      × (includes
            (MissionState.assigned ∷ MissionState.running ∷ MissionState.retrying
              ∷ MissionState.paused ∷ [])
            (resume_mission_target from_state)
          ≡ false)
unfolding can_transition_mission includes
resume_mission_target_lem MissionState.paused = (refl, refl)
resume_mission_target_lem _ = (ground arith, ground arith)

-- Every project status that may be paused may be restored by a resumption.
pub status_restorable :
    (status : ProjectStatus)
    → can_transition_project status ProjectStatus.paused ≡ true
    → can_transition_project ProjectStatus.paused status ≡ true
unfolding can_transition_project includes
status_restorable status h = ground arith
