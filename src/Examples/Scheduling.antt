-- ===== src/Examples/Scheduling.antt =====
-- The scheduler of packages/orchestration/src/scheduler.ts at concrete missions.
use Prim.Native.String.{compare as text_order}
use avity_os.Base.{ℕ, ◌+◌, ◌≤◌, max, ◌≡◌, refl, ◌⊎◌, String, List, [], ◌∷◌, length, In}
use avity_os.Contracts.{Mission, MissionState}
use avity_os.Orchestration.Scheduler.{SchedulingLimits, select_missions_to_start}
use avity_os.Orchestration.Scheduler.Loop.{in_project}
use avity_os.Orchestration.Scheduler.Selection.{
  select_within_capacity, select_within_project_cap, select_fair,
}
use mathlib.Core.List.{Sublistᴰ}

abbrev mission : String → String → ℕ → Mission
mission id project_id priority = record {
  id = id;
  project_id = project_id;
  state = MissionState.ready;
  correction_attempts = 0;
  max_correction_attempts = 3;
  priority = priority;
  created_at = "2026-01-01";
}

abbrev queue : List Mission
queue = mission "a" "p" 10 ∷ mission "b" "p" 90 ∷ mission "c" "q" 50 ∷ mission "d" "r" 5 ∷ []

abbrev busy : List Mission
busy = mission "e" "q" 50 ∷ []

abbrev caps : SchedulingLimits
caps = record { max_concurrent_runs = 3; max_concurrent_runs_per_project = 1 }

picks :
    select_missions_to_start text_order queue busy caps
    ≡ mission "b" "p" 90 ∷ mission "d" "r" 5 ∷ []
unfolding select_missions_to_start
picks = refl

select_within_capacity_example :
    length busy + length (select_missions_to_start text_order queue busy caps) ≤ max 3 (length busy)
select_within_capacity_example = select_within_capacity text_order queue busy caps

select_within_project_cap_example :
    in_project "p" busy + in_project "p" (select_missions_to_start text_order queue busy caps)
    ≤ max 1 (in_project "p" busy)
select_within_project_cap_example = select_within_project_cap text_order queue busy caps "p"

select_fair_example :
    In (mission "a" "p" 10) (select_missions_to_start text_order queue busy caps)
    ⊎ (1
        ≤ in_project "p" busy
          + in_project "p" (select_missions_to_start text_order queue busy caps))
    ⊎ (3 ≤ length busy + length (select_missions_to_start text_order queue busy caps))
      × Sublistᴰ
          (select_missions_to_start text_order queue busy caps)
          (mission "b" "p" 90 ∷ mission "c" "q" 50 ∷ [])
unfolding select_missions_to_start
select_fair_example =
    select_fair text_order queue busy caps (mission "b" "p" 90 ∷ mission "c" "q" 50 ∷ [])
      (mission "a" "p" 10) (mission "d" "r" 5 ∷ []) refl
