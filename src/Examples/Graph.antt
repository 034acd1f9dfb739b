-- ===== src/Examples/Graph.antt =====
-- The dependency graph of packages/orchestration/src/dag.ts at concrete missions.
use avity_os.Base.{◌≡◌, refl, ◌⊎◌, ◌↔◌, String, List, [], ◌∷◌, In, or_else, string_eq}
use avity_os.Contracts.{Mission, MissionDependency, MissionState}
use avity_os.Orchestration.Dag.{Search, visited, cycle, visit, assert_acyclic, unblocked_missions}
use avity_os.Orchestration.Dag.Adjacency.{DependsOn}
use avity_os.Orchestration.Dag.Order.{DependsOn⁺}
use avity_os.Orchestration.Dag.Cycles.{IsCycle, assert_acyclic_decides}
use avity_os.Orchestration.Dag.Unblocked.{last_state, unblocked_iff}

abbrev needs : String → String → MissionDependency
needs a b = record { mission_id = a; depends_on_mission_id = b }

abbrev looped : List MissionDependency
looped = needs "a" "b" ∷ needs "b" "c" ∷ needs "c" "b" ∷ []

reports_loop : assert_acyclic looped ≡ cycle ("b" ∷ "c" ∷ "b" ∷ [])
unfolding assert_acyclic visit
reports_loop = refl

abbrev sound : List MissionDependency
sound = needs "a" "b" ∷ needs "a" "c" ∷ needs "b" "c" ∷ []

accepts_sound :
    assert_acyclic sound
    ≡ visited (record { visiting = []; done = "a" ∷ "b" ∷ "c" ∷ []; stack = [] })
unfolding assert_acyclic visit
accepts_sound = refl

assert_acyclic_decides_example :
    ((t : Search) × (assert_acyclic looped ≡ visited t) × ((a : String) → ¬ DependsOn⁺ looped a a))
    ⊎ ((c : List String) × (assert_acyclic looped ≡ cycle c) × IsCycle (DependsOn looped) c)
assert_acyclic_decides_example = assert_acyclic_decides looped

abbrev mission : String → MissionState → Mission
mission id state = record {
  id = id;
  project_id = "p";
  state = state;
  correction_attempts = 0;
  max_correction_attempts = 3;
  priority = 50;
  created_at = "2026-01-01";
}

abbrev crew : List Mission
crew =
    mission "a" MissionState.proposed
    ∷ mission "b" MissionState.integrated
    ∷ mission "c" MissionState.running
    ∷ mission "d" MissionState.proposed
    ∷ []

unblocks_one :
    unblocked_missions crew (needs "a" "b" ∷ needs "d" "c" ∷ [])
    ≡ mission "a" MissionState.proposed ∷ []
unfolding unblocked_missions
unblocks_one = refl

unblocked_iff_example :
    In (mission "a" MissionState.proposed) (unblocked_missions crew (needs "a" "b" ∷ [])) ↔ (
      In (mission "a" MissionState.proposed) crew
      × (MissionState.proposed ≡ MissionState.proposed)
      × ((b : String)
          → DependsOn (needs "a" "b" ∷ []) "a" b
          → (or_else (last_state b crew) MissionState.proposed ≡ MissionState.completed)
            ⊎ (or_else (last_state b crew) MissionState.proposed ≡ MissionState.integrated)
            ⊎ (or_else (last_state b crew) MissionState.proposed ≡ MissionState.approved)))
unblocked_iff_example = unblocked_iff crew (needs "a" "b" ∷ []) (mission "a" MissionState.proposed)
