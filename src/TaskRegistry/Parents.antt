-- ===== src/TaskRegistry/Parents.antt =====
-- The parents of tasks: `check_parent` and `insert` of task-registry/tasks.py, and `reparent` of
-- task-registry/operator_moves.py. A row of `tasks` has the columns that these read or write; each
-- reading of the clock is an argument.
pub mod Chains
pub mod Forest
pub mod Tests
use dockade.Base.{
  ℕ, zero, suc, ◌+◌, ◌*◌, ◌≡◌, Bool, true, false, ◌&&◌, ◌||◌, not, Option, none, some, List, [],
  ◌∷◌, ◌++◌, arith, ltb, leb, if◌then◌else◌, ◌==◌, length, find, contains, nat_eq, option_eq,
}
use dockade.Base.Table.{update}
use dockade.Base.Text.{Text}

abbrev pub Time : Type 0
Time = ℕ

pub record Task : Type 0 where
  pub id : ℕ
  pub repo_id : ℕ
  pub title : Text
  pub body : Text
  pub state : Text
  pub severity : Option Text
  pub kind : Option Text
  pub parent_id : Option ℕ
  pub revision : ℕ
  pub created_at : Time
  pub updated_at : Time

abbrev pub Table : Type 0
Table = List Task

-- 2 ^ 63 - 1, SQLite's largest integer.
abbrev pub id_max : ℕ
id_max = 9223372036854775807

abbrev pub is_id : ℕ → Bool
is_id n = ltb 0 n && leb n id_max

abbrev pub row_of : ℕ → Table → Option Task
row_of id t = find (λ r. r.id == id) t

-- How the walk up from a parent ends.
pub data Walk : Type 0 where
  reached_root meets_task loops no_row out_of_fuel : Walk

-- The `while` loop over the ancestors, with what it has seen; each round uses one unit of fuel.
unfoldable pub walk : ℕ → Table → Option ℕ → List ℕ → Option ℕ → Walk
walk fuel t task seen none = reached_root
walk zero t task seen (some a) = out_of_fuel
walk (suc fuel) t task seen (some a) =
    if some a == task
    then meets_task
    else if contains a seen
    then loops
    else elim (row_of a t) [ none ↦ no_row | some r ↦ walk fuel t task (a ∷ seen) r.parent_id ]

-- Why a parent is refused; `broken` is the exception on a parent that has no row.
pub data Refused : Type 0 where
  bad_id not_in_repo own_ancestor parents_loop broken unfinished : Refused

abbrev pub walk_refusal : Walk → Option Refused
walk_refusal reached_root = none
walk_refusal meets_task = some own_ancestor
walk_refusal loops = some parents_loop
walk_refusal no_row = some broken
walk_refusal out_of_fuel = some unfinished

-- `none` lets the parent pass. One unit of fuel more than there are rows.
unfoldable pub check_parent : Table → ℕ → Option ℕ → Option ℕ → Option Refused
check_parent t repo_id none task = none
check_parent t repo_id (some parent) task =
    if not (is_id parent) then some bad_id else elim (row_of parent t) [
      | none ↦ some not_in_repo
      | some r ↦
          if not (r.repo_id == repo_id)
          then some not_in_repo
          else walk_refusal (walk (suc (length t)) t task [] (some parent))
    ]

unfoldable pub insert :
    Time → ℕ → ℕ → Text → Text → Text → Option Text → Option Text → Option ℕ → Table → Table
insert now id repo_id title body state severity kind parent t =
    t
    ++ (record {
      id = id;
      repo_id = repo_id;
      title = title;
      body = body;
      state = state;
      severity = severity;
      kind = kind;
      parent_id = parent;
      revision = 1;
      created_at = now;
      updated_at = now;
    })
      ∷ []

-- `update` with a `parent_id` alone, which touches no plan.
unfoldable pub update_parent : Time → ℕ → Option ℕ → Table → Table
update_parent now task parent t =
    update (λ r. r.id == task)
      (λ r. record r { parent_id = parent; revision = r.revision + 1; updated_at = now }) t

-- What a move returns, with the table that its transaction leaves.
pub data Reparented : Type 0 where
  moved : ℕ → Reparented
  missing : Reparented
  stale : ℕ → Reparented
  refused : Refused → Reparented

unfoldable pub reparent_row : Time → Task → Option ℕ → Table → Option Refused → Reparented × Table
reparent_row now row parent t (some why) = (refused why, t)
reparent_row now row parent t none = (moved (row.revision + 1), update_parent now row.id parent t)

unfoldable pub reparent_found : Time → ℕ → Option ℕ → Table → Option Task → Reparented × Table
reparent_found now revision parent t none = (missing, t)
reparent_found now revision parent t (some row) =
    if not (row.revision == revision)
    then (stale row.revision, t)
    else reparent_row now row parent t (check_parent t row.repo_id parent (some row.id))

unfoldable pub reparent : Time → ℕ → ℕ → Option ℕ → Table → Reparented × Table
reparent now task revision parent t =
    if not (is_id task)
    then (refused bad_id, t)
    else reparent_found now revision parent t (row_of task t)
