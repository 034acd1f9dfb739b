-- ===== src/Examples/Machines.antt =====
-- The state machines of packages/orchestration/src/machines.ts at concrete states.
use avity_os.Base.{true, false, ◌≡◌, refl, ◌⊎◌, List, [], ◌∷◌, includes}
use avity_os.Contracts.{MissionState, mission_state_eq, run_state_eq}
use avity_os.Orchestration.Machines.{can_transition_mission}
use avity_os.Orchestration.Machines.Traces.{Visits, walk, last_of, is_legal}
use avity_os.Orchestration.Machines.Missions.{
  MissionTrace, mission_review_gate, mission_no_dead_end,
}

abbrev whole_life : List MissionState
whole_life =
    MissionState.ready ∷ MissionState.assigned ∷ MissionState.running
    ∷ MissionState.result_submitted ∷ MissionState.validating ∷ MissionState.review_required
    ∷ MissionState.approved ∷ MissionState.integrated ∷ MissionState.completed ∷ []

life : MissionTrace MissionState.proposed MissionState.completed
unfolding can_transition_mission
life = walk can_transition_mission MissionState.proposed whole_life refl

mission_review_gate_example :
    Visits can_transition_mission life MissionState.paused
    ⊎ Visits can_transition_mission life MissionState.review_required
      × Visits can_transition_mission life MissionState.approved
      × Visits can_transition_mission life MissionState.integrated
mission_review_gate_example = mission_review_gate life

mission_no_dead_end_example :
    (route : List MissionState) × (is_legal can_transition_mission MissionState.failed route ≡ true)
    × (last_of can_transition_mission MissionState.failed route ≡ MissionState.completed)
    × (includes route MissionState.paused ≡ false)
unfolding includes
mission_no_dead_end_example = mission_no_dead_end MissionState.failed refl
