-- ===== src/Orchestration/Scheduler/Selection.antt =====
-- What `selectMissionsToStart` selects.
use avity_os.Base.{
  ◌+◌, ◌-◌, ◌≤◌, ◌<◌, max, ◌≡◌, sym, subst, ◌⊎◌, inl, inr, Ordering, String, List, [], ◌∷◌, ◌++◌,
  leb, leb→le, leb→gt, length, count_if, lookup, In, Bool-cases, arith,
}
use avity_os.Contracts.{Mission}
use avity_os.Orchestration.Scheduler.{
  SchedulingLimits, start_order, sort, projects_of, select_loop, select_missions_to_start,
}
use avity_os.Orchestration.Scheduler.Sorting.{sort-perm}
use avity_os.Orchestration.Scheduler.Loop.{
  in_project, count_of, projects_of_lem, select_loop-extends, select_loop-length,
  select_loop-per_project, select_loop-Fair, nothing_of, Fair,
}
use mathlib.Core.List.{Sublistᴰ, Subperm, nil-Subperm}
use mathlib.Core.List.Sublist
use mathlib.Core.List.Perm

module _ (locale_compare : String → String → Ordering) (ready running : List Mission)
    (limits : SchedulingLimits) where
  abbrev chosen : List Mission
  chosen = select_missions_to_start locale_compare ready running limits

  abbrev by_start_order : List Mission
  by_start_order = sort (start_order locale_compare) ready

  abbrev loop_result : List Mission
  loop_result =
      select_loop (limits.max_concurrent_runs - length running)
        limits.max_concurrent_runs_per_project by_start_order [] (projects_of [] running)

  chosen_cases :
      (limits.max_concurrent_runs ≤ length running) × (chosen ≡ [])
      ⊎ (length running < limits.max_concurrent_runs) × (chosen ≡ loop_result)
  unfolding select_missions_to_start
  chosen_cases = elim (Bool-cases (leb limits.max_concurrent_runs (length running))) [
    | inl full ↦ inl (leb→le _ _ full, rw full)
    | inr room ↦ inr (leb→gt _ _ room, rw room)
  ]

  counted :
      (p : String) → count_of (projects_of [] running) p ≡ in_project p running + in_project p []
  unfolding count_if lookup
  counted p = omega (arith, projects_of_lem [] running p)

  -- The host-level cap holds after the start: the missions that run and those that are started
  -- are at most `maxConcurrentRuns`, or nothing is started where more run already.
  pub select_within_capacity :
      length running + length (select_missions_to_start locale_compare ready running limits)
      ≤ max limits.max_concurrent_runs (length running)
  select_within_capacity = ground (
    arith,
    chosen_cases,
    select_loop-length (limits.max_concurrent_runs - length running)
        limits.max_concurrent_runs_per_project by_start_order [] (projects_of [] running),
  )

  -- The cap of each project holds after the start: its missions that run and those that are
  -- started are at most `maxConcurrentRunsPerProject`, or none of its is started where more run
  -- already.
  pub select_within_project_cap :
      (p : String)
      → in_project p running
          + in_project p (select_missions_to_start locale_compare ready running limits)
        ≤ max limits.max_concurrent_runs_per_project (in_project p running)
  select_within_project_cap p = elim chosen_cases [
    | inl (_, e) ↦ rw e (unfold count_if in omega arith)
    | inr (_, e) ↦ rw e (
        select_loop-per_project _ _ p (in_project p running) by_start_order [] _
          (counted p, unfold count_if in omega arith))
  ]

  -- Only ready missions are started, each at most as often as it was given, and in the order of
  -- the sort.
  pub select_from_ready :
      Subperm (select_missions_to_start locale_compare ready running limits) ready
  select_from_ready = elim chosen_cases [
    | inl (_, e) ↦ rw e nil-Subperm
    | inr (_, e) ↦
        let (picks, found, order) =
          select_loop-extends (limits.max_concurrent_runs - length running)
            limits.max_concurrent_runs_per_project by_start_order [] (projects_of [] running) in
        rw (e, found)
          ((Perm.Subperm-left (sort-perm (start_order locale_compare) ready)).0
            (Sublist.subperm ∣ order ∣₁))
  ]

  abbrev FairIn : List Mission → Mission → List Mission → Type 0
  FairIn xs m result =
      Fair (limits.max_concurrent_runs - length running) limits.max_concurrent_runs_per_project
        (λ p. in_project p running) m [] xs result

  fair_of :
      (xs : List Mission) (m : Mission)
      → length running < limits.max_concurrent_runs
      → chosen ≡ loop_result
      → FairIn xs m loop_result
      → In m chosen
        ⊎ (limits.max_concurrent_runs_per_project
            ≤ in_project m.project_id running + in_project m.project_id chosen)
        ⊎ (limits.max_concurrent_runs ≤ length running + length chosen) × Sublistᴰ chosen xs
  fair_of xs m room e (inl h) = rw e (inl h)
  fair_of xs m room e (inr (inl h)) = rw e (inr (inl h))
  fair_of xs m room e (inr (inr (full, picks, found, order))) =
      rw e (inr (inr (omega arith, subst (λ l. Sublistᴰ l xs) (sym found) order)))

  -- A ready mission that is not started has its project at the cap, or the host is full.
  pub select_fair :
      (xs : List Mission) (m : Mission) (ys : List Mission)
      → sort (start_order locale_compare) ready ≡ xs ++ m ∷ ys
      → In m (select_missions_to_start locale_compare ready running limits)
        ⊎ (limits.max_concurrent_runs_per_project
            ≤ in_project m.project_id running
              + in_project m.project_id
                  (select_missions_to_start locale_compare ready running limits))
        ⊎ (limits.max_concurrent_runs
            ≤ length running
              + length (select_missions_to_start locale_compare ready running limits))
          × Sublistᴰ (select_missions_to_start locale_compare ready running limits) xs
  select_fair xs m ys e = elim chosen_cases [
    | inl (full, none) ↦ rw none (inr (inr (omega arith, nothing_of xs)))
    | inr (room, some) ↦ fair_of xs m room some (
        subst
          (λ l. FairIn xs m (
            select_loop (limits.max_concurrent_runs - length running)
              limits.max_concurrent_runs_per_project l [] (projects_of [] running)))
          (sym e) (select_loop-Fair _ _ (λ p. in_project p running) xs m ys [] _ (λ p. counted p)))
  ]
