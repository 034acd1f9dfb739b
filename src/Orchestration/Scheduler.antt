-- ===== src/Orchestration/Scheduler.antt =====
-- packages/orchestration/src/scheduler.ts: which ready missions to start.
pub mod Sorting
pub mod Loop
pub mod Selection
use avity_os.Base.{
  ℕ, zero, suc, ◌+◌, ◌-◌, compare, Ordering, String, List, [], ◌∷◌, ◌++◌, Bool, true, false,
  if◌then◌else◌, leb, length, lookup, insert, or_else, string_eq,
}
use avity_os.Contracts.{Mission}

pub record SchedulingLimits : Type 0 where
  pub max_concurrent_runs : ℕ
  pub max_concurrent_runs_per_project : ℕ

-- `a || b` on the results of comparisons: 0 leaves the choice to `b`.
abbrev pub or_then : Ordering → Ordering → Ordering
or_then Ordering.eq b = b
or_then a b = a

-- `String.prototype.localeCompare` is the platform's collation, an argument of all that follows.
module _ (locale_compare : String → String → Ordering) where
  -- The comparison that the sort is given: by priority, the highest first, then by creation time,
  -- then by identifier.
  unfoldable pub start_order : Mission → Mission → Ordering
  start_order a b =
      or_then (compare b.priority a.priority)
        (or_then (locale_compare a.created_at b.created_at) (locale_compare a.id b.id))

-- `Array.prototype.sort`, which is stable: an item goes before the first that it does not follow.
module _ {A : Type 0} (order : A → A → Ordering) where
  unfoldable pub insert_sorted : A → List A → List A
  insert_sorted x [] = x ∷ []
  insert_sorted x (y ∷ ys) = elim (order x y) [
    | Ordering.gt ↦ y ∷ insert_sorted x ys
    | _ ↦ x ∷ y ∷ ys
  ]

  unfoldable pub sort : List A → List A
  unfolding insert_sorted
  sort [] = []
  sort (x ∷ xs) = insert_sorted x (sort xs)

-- How many runs each project has.
abbrev pub PerProject : Type 0
PerProject = List (String × ℕ)

unfoldable pub projects_of : PerProject → List Mission → PerProject
projects_of per_project [] = per_project
projects_of per_project (m ∷ ms) =
    projects_of (insert m.project_id (or_else (lookup m.project_id per_project) 0 + 1) per_project)
      ms

-- The loop over the sorted missions.
unfoldable pub select_loop :
    (capacity per_project_limit : ℕ)
    → List Mission
    → (selected : List Mission) → PerProject
    → List Mission
select_loop capacity limit [] selected per_project = selected
select_loop capacity limit (m ∷ ms) selected per_project =
    let project_count = or_else (lookup m.project_id per_project) 0 in
    let skipped = select_loop capacity limit ms selected per_project in
    let started =
      select_loop capacity limit ms (selected ++ m ∷ [])
        (insert m.project_id (project_count + 1) per_project) in
    if leb capacity (length selected)
    then selected
    else if leb limit project_count
    then skipped
    else started

-- `capacity <= 0` is written without the subtraction, which stops at 0 here.
unfoldable pub select_missions_to_start :
    (String → String → Ordering) → (ready running : List Mission) → SchedulingLimits → List Mission
unfolding sort start_order select_loop projects_of lookup insert
select_missions_to_start locale_compare ready running limits =
    if leb limits.max_concurrent_runs (length running)
    then []
    else select_loop (limits.max_concurrent_runs - length running)
        limits.max_concurrent_runs_per_project (sort (start_order locale_compare) ready) []
        (projects_of [] running)
