-- ===== src/TaskRegistry/Lifecycle.antt =====
-- The store that the moves of task-registry/agent_moves.py and task-registry/operator_moves.py write,
-- and the write they share, `update` of task-registry/tasks.py. Each reading of the clock is an
-- argument, and so is the token that is minted.
pub mod Agents
pub mod Operator
pub mod Fits
pub mod Kept
pub mod Written
pub mod Moves
pub mod Planned
pub mod Added
pub mod Operated
pub mod Approved
pub mod Unbroken
pub mod Sequence
pub mod Tests
use dockade.Base.{
  ℕ, zero, suc, ◌+◌, ◌≡◌, Bool, true, false, ◌&&◌, ◌||◌, not, Option, none, some, List, [], ◌∷◌,
  arith, ltb, leb, if◌then◌else◌, ◌==◌, length, find, all, nat_eq, list_eq, option_eq,
}
use dockade.Base.Table.{update}
use dockade.Base.Text.{Text, text}
use dockade.TaskRegistry.Parents.{Time, Task, is_id, row_of, Refused}
use dockade.TaskRegistry.Claims.{Registry, Holding, or_old}
use dockade.TaskRegistry.Fields.{FieldError}
use dockade.TaskRegistry.Blockers.{Edges, BlockerRefusal}
use dockade.TaskRegistry.Plans.{AnswerError}
use dockade.TaskRegistry.Plans.Rows.{Plan, PlanError, current, unanswered, supersede}

pub record Repo : Type 0 where
  pub id : ℕ
  pub name : Text
  pub retired_at : Option Time

-- `last_id` is AUTOINCREMENT's: the largest id that `tasks` has had.
pub record Store : Type 0 where
  pub repos : List Repo
  pub registry : Registry
  pub edges : Edges
  pub plans : List Plan
  pub last_id : ℕ

-- The readings of the clock in a move: of the live claim, the sweep, the new claim, the last write.
pub record Readings : Type 0 where
  pub looked : Time
  pub swept : Time
  pub taken : Time
  pub written : Time

-- Why a move is refused; `broken` is an exception that no handler of the move expects.
pub data MoveError : Type 0 where
  not_an_agent bad_task no_task no_repo retired no_footprint no_plan answered_before : MoveError
  unanswered_plan no_live_claim refined_from_start broken : MoveError
  other_repo wrong_state not_claimable : Text → MoveError
  held : Text → Time → MoveError
  not_holding : Holding → MoveError
  stale : ℕ → MoveError
  bad_field : FieldError → MoveError
  bad_plan : PlanError → MoveError
  bad_answers : AnswerError → MoveError
  bad_parent : Refused → MoveError
  bad_blocker : BlockerRefusal → MoveError

-- A refused move is rolled back; one that is done replies with the task's revision.
pub data Moved : Type 0 where
  refused : MoveError → Moved
  done : ℕ → Store → Moved

abbrev pub is_settled : Option Plan → Bool
is_settled none = true
is_settled (some plan) = unanswered plan == 0

-- `_check_answered`, on a change that opens the task
abbrev pub opens_unanswered : ℕ → Option Text → List Plan → Bool
opens_unanswered task state plans =
    state == some (text "open") && not (is_settled (current task plans))

unfoldable pub set_row : Time → ℕ → Option Text → Registry → Registry
set_row now task state r = record r {
  tasks =
      update (λ t. t.id == task)
        (λ t. record t {
          state = or_old state t.state;
          revision = t.revision + 1;
          updated_at = now;
        })
        r.tasks;
}

unfoldable pub set_state : Time → ℕ → Option Text → Store → Store
set_state now task state s = record s {
  registry = set_row now task state s.registry;
  plans = if state == some (text "proposed") then supersede now task s.plans else s.plans;
}

abbrev pub revision_in : Option Task → ℕ
revision_in none = 0
revision_in (some row) = row.revision

-- With a new state, or with nothing but the revision; the caller has read the task's row.
unfoldable pub update_task : Time → ℕ → Option Text → Store → Moved
update_task now task state s =
    let s_after = set_state now task state s in
    if opens_unanswered task state s.plans
    then refused unanswered_plan
    else done (revision_in (row_of task s_after.registry.tasks)) s_after

-- `task_row`, with the name of the repo; what follows it in the move is `k`.
abbrev pub with_repo : Option Repo → Task → (Task → Text → Moved) → Moved
with_repo none row k = refused no_task
with_repo (some repo) row k = k row repo.name

abbrev pub with_found : List Repo → Option Task → (Task → Text → Moved) → Moved
with_found repos none k = refused no_task
with_found repos (some row) k = with_repo (find (λ r. r.id == row.repo_id) repos) row k

unfoldable pub with_row : ℕ → Store → (Task → Text → Moved) → Moved
with_row task s k =
    if not (is_id task)
    then refused bad_task
    else with_found s.repos (row_of task s.registry.tasks) k

-- The kind of an agent, a hyphen and its session id; `-` is in no kind.
abbrev pub is_lower : ℕ → Bool
is_lower c = leb 97 c && leb c 122

abbrev pub is_digit : ℕ → Bool
is_digit c = leb 48 c && leb c 57

abbrev pub is_session_char : ℕ → Bool
is_session_char c = is_lower c || is_digit c || (leb 65 c && leb c 90) || c == 95 || c == 45

abbrev pub first_is : (ℕ → Bool) → Text → Bool
first_is p [] = false
first_is p (c ∷ t) = p c

abbrev pub is_kind : Text → Bool
is_kind t =
    first_is is_lower t
    && all (λ c. is_lower c || is_digit c) t
    && leb 2 (length t)
    && leb (length t) 16
    && not (t == text "operator")
    && not (t == text "registry")

abbrev pub is_session : Text → Bool
is_session t =
    first_is (λ c. is_session_char c && not (c == 95) && not (c == 45)) t
    && all is_session_char t
    && leb 6 (length t)
    && leb (length t) 64

-- Split at the first hyphen; `kind` is what was read before, backwards.
unfoldable pub agent_parts : Text → Text → Option (Text × Text)
agent_parts kind [] = none
agent_parts kind (c ∷ t) =
    let deeper = agent_parts (c ∷ kind) t in if c == 45 then some (kind, t) else deeper

abbrev pub back_to_front : Text → Text → Text
back_to_front [] t = t
back_to_front (c ∷ cs) t = back_to_front cs (c ∷ t)

unfoldable pub is_agent : Text → Bool
is_agent agent = elim (agent_parts [] agent) [
  | none ↦ false
  | some parts ↦ is_kind (back_to_front parts.0 []) && is_session parts.1
]
