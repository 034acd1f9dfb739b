-- ===== src/Orchestration/Dag.antt =====
-- packages/orchestration/src/dag.ts: the graph of dependencies between missions.
pub mod Adjacency
pub mod Termination
pub mod Steps
pub mod Order
pub mod Cycles
pub mod Unblocked
use avity_os.Base.{
  ℕ, zero, suc, Bool, true, false, not, ◌&&◌, String, List, [], ◌∷◌, ◌++◌, if◌then◌else◌, length,
  filter, all, includes, lookup, insert, or_else, string_eq, ◌===◌,
}
use avity_os.Contracts.{Mission, MissionDependency, MissionState, mission_state_eq}

abbrev pub Adjacency : Type 0
Adjacency = List (String × List String)

-- The loop that both functions begin with: the dependencies of each mission, in order.
unfoldable pub group : List MissionDependency → Adjacency → Adjacency
group [] adjacency = adjacency
group (d ∷ deps) adjacency = group deps (
    insert d.mission_id (or_else (lookup d.mission_id adjacency) [] ++ d.depends_on_mission_id ∷ [])
      adjacency)

abbrev pub children : Adjacency → String → List String
children adjacency node = or_else (lookup node adjacency) []

abbrev pub keys : Adjacency → List String
keys [] = []
keys ((k, v) ∷ m) = k ∷ keys m

-- The sets and the stack of the depth-first search. `visiting` keeps the order of insertion; of
-- `done`, newest first, only the members are asked for.
pub record Search : Type 0 where
  pub visiting : List String
  pub done : List String
  pub stack : List String

-- `cycle` is the DependencyCycleError; `exhausted` stands for a search that runs out of fuel.
pub data Visit : Type 0 where
  visited : Search → Visit
  cycle : List String → Visit
  exhausted : Visit

abbrev pub and_then : Visit → (Search → Visit) → Visit
and_then (visited s) f = f s
and_then (cycle c) f = cycle c
and_then exhausted f = exhausted

-- `stack.pop()`, `set.delete(node)` and `stack.slice(stack.indexOf(node))`
unfoldable pub pop : List String → List String
pop [] = []
pop (x ∷ []) = []
pop (x ∷ y ∷ l) = x ∷ pop (y ∷ l)

unfoldable pub remove : String → List String → List String
remove node = filter (λ x. not (x === node))

unfoldable pub slice_from : String → List String → List String
slice_from node [] = []
slice_from node (x ∷ l) = if x === node then x ∷ l else slice_from node l

-- `for (const next of nodes) visit(next);`
unfoldable pub visit_each : (String → Search → Visit) → List String → Search → Visit
visit_each visit [] s = visited s
visit_each visit (n ∷ ns) s = and_then (visit n s) (visit_each visit ns)

unfoldable pub enter : String → Search → Search
enter node s = record s { visiting = s.visiting ++ node ∷ []; stack = s.stack ++ node ∷ [] }

unfoldable pub leave : String → Search → Search
leave node s = record s {
  stack = pop s.stack;
  visiting = remove node s.visiting;
  done = node ∷ s.done;
}

unfoldable pub visit : Adjacency → ℕ → String → Search → Visit
visit adjacency zero node s = exhausted
visit adjacency (suc fuel) node s =
    let below = visit_each (visit adjacency fuel) (children adjacency node) (enter node s) in
    if includes s.done node
    then visited s
    else if includes s.visiting node
    then cycle (slice_from node s.stack ++ node ∷ [])
    else and_then below (λ t. visited (leave node t))

abbrev pub fresh : Search
fresh = record { visiting = []; done = []; stack = [] }

-- One round of fuel for each mission that has dependencies, and one more: a search is never deeper.
unfoldable pub assert_acyclic : List MissionDependency → Visit
unfolding group visit visit_each enter leave pop remove slice_from includes lookup insert filter
assert_acyclic deps =
    let adjacency = group deps [] in
    visit_each (visit adjacency (suc (length (keys adjacency)))) (keys adjacency) fresh

abbrev pub satisfied_states : List MissionState
satisfied_states = MissionState.completed ∷ MissionState.integrated ∷ MissionState.approved ∷ []

-- `new Map(missions.map((m) => [m.id, m.state]))`
unfoldable pub states_by_id :
    List Mission → List (String × MissionState) → List (String × MissionState)
states_by_id [] states = states
states_by_id (m ∷ ms) states = states_by_id ms (insert m.id m.state states)

unfoldable pub is_satisfied : List (String × MissionState) → String → Bool
unfolding includes lookup
is_satisfied states dep =
    includes satisfied_states (or_else (lookup dep states) MissionState.proposed)

unfoldable pub is_unblocked : List (String × MissionState) → Adjacency → Mission → Bool
unfolding is_satisfied all
is_unblocked states deps_by_id m =
    if m.state === MissionState.proposed
    then all (is_satisfied states) (children deps_by_id m.id)
    else false

unfoldable pub unblocked_missions : List Mission → List MissionDependency → List Mission
unfolding is_unblocked filter states_by_id group insert
unblocked_missions missions deps =
    filter (is_unblocked (states_by_id missions []) (group deps [])) missions
