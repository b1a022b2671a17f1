-- ===== src/TaskRegistry/Blockers.antt =====
-- Which tasks wait on which: `check_blockers`, `_waits_on` and `set_blockers` of
-- task-registry/tasks.py. A row of `blockers` is a task with one that it is blocked by.
pub mod Reach
pub mod Closed
pub mod Search
pub mod Acyclic
pub mod Tests
use dockade.Base.{
  ℕ, zero, suc, ◌+◌, ◌≡◌, Bool, true, false, ◌&&◌, ◌||◌, not, Option, none, some, List, [], ◌∷◌,
  ◌++◌, if◌then◌else◌, ◌==◌, length, filter, contains, map, nat_eq, option_eq,
}
use dockade.TaskRegistry.Parents.{Table, row_of, is_id}

abbrev pub Edges : Type 0
Edges = List (ℕ × ℕ)

abbrev pub is_of : ℕ → ℕ × ℕ → Bool
is_of task e = e.0 == task

-- `SELECT blocker_id FROM blockers WHERE task_id = ?`
unfoldable pub blockers_of : Edges → ℕ → List ℕ
blockers_of edges task = map (λ e. e.1) (filter (is_of task) edges)

-- `frontier.extend(found)`: the last one is the first to be popped.
unfoldable pub extend : List ℕ → List ℕ → List ℕ
extend [] frontier = frontier
extend (n ∷ found) frontier = extend found (n ∷ frontier)

-- The `while` loop; each round uses one unit of fuel, and no result is a run out of it.
unfoldable pub search : ℕ → Edges → ℕ → List ℕ → List ℕ → Option Bool
search fuel edges target seen [] = some false
search zero edges target seen (current ∷ frontier) = none
search (suc fuel) edges target seen (current ∷ frontier) = elim (current == target) [
  | true ↦ some true
  | false ↦ elim (contains current seen) [
    | true ↦ search fuel edges target seen frontier
    | false ↦
        search fuel edges target (current ∷ seen) (extend (blockers_of edges current) frontier)
  ]
]

-- A round for the task itself and one for each row are enough.
unfoldable pub waits_on : Edges → ℕ → ℕ → Option Bool
waits_on edges task target = search (suc (length edges)) edges target [] (task ∷ [])

-- Why a blocker is refused; `unfinished` is a search that ran out of fuel.
pub data BlockerRefusal : Type 0 where
  bad_blocker_id itself unfinished_search : ℕ → BlockerRefusal
  not_in_repo already_waits : ℕ → BlockerRefusal

abbrev pub wait_refusal : ℕ → Option Bool → Option BlockerRefusal
wait_refusal blocker none = some (unfinished_search blocker)
wait_refusal blocker (some true) = some (already_waits blocker)
wait_refusal blocker (some false) = none

-- `if task is not None and _waits_on(conn, blocker, task)`
abbrev pub check_wait : Edges → ℕ → Option ℕ → Option BlockerRefusal
check_wait edges blocker none = none
check_wait edges blocker (some task) = wait_refusal blocker (waits_on edges blocker task)

abbrev pub is_in_repo : Table → ℕ → ℕ → Bool
is_in_repo t repo_id blocker = elim (row_of blocker t) [
  | none ↦ false
  | some r ↦ r.repo_id == repo_id
]

unfoldable pub check_blocker : Table → Edges → ℕ → Option ℕ → ℕ → Option BlockerRefusal
check_blocker t edges repo_id task blocker =
    if not (is_id blocker)
    then some (bad_blocker_id blocker)
    else if some blocker == task
    then some (itself blocker)
    else if not (is_in_repo t repo_id blocker)
    then some (not_in_repo blocker)
    else check_wait edges blocker task

-- The first that is refused stops the loop; `none` lets all of them pass.
unfoldable pub check_blockers : Table → Edges → ℕ → Option ℕ → List ℕ → Option BlockerRefusal
check_blockers t edges repo_id task [] = none
check_blockers t edges repo_id task (blocker ∷ blockers) =
    let rest = check_blockers t edges repo_id task blockers in
    elim (check_blocker t edges repo_id task blocker) [ some why ↦ some why | none ↦ rest ]

-- `dict.fromkeys`: each once, in the order of their first places.
unfoldable pub once : List ℕ → List ℕ → List ℕ
once seen [] = []
once seen (n ∷ ns) =
    let rest = once (n ∷ seen) ns in
    let skipped = once seen ns in if contains n seen then skipped else n ∷ rest

unfoldable pub set_blockers : ℕ → List ℕ → Edges → Edges
set_blockers task blockers edges =
    filter (λ e. not (is_of task e)) edges ++ map (λ b. (task, b)) (once [] blockers)
