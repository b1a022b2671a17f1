-- ===== src/TaskRegistry/Lifecycle/Agents.antt =====
-- What an agent does to a task: `propose`, `_claim`, `_close`, `_end_claim` and `submit_plan` of
-- task-registry/agent_moves.py. A branch is one that `claims.check_branch` lets through, a footprint
-- is what `claims.footprint` returns, and decisions are what `plans.check_decisions` returns.
use dockade.Base.{
  ℕ, suc, Bool, true, false, ◌||◌, not, Option, none, some, List, if◌then◌else◌, ◌==◌, find, nat_eq,
  list_eq, option_eq,
}
use dockade.Base.Text.{Text, text}
use dockade.TaskRegistry.Parents
use dockade.TaskRegistry.Parents.{Time, Task, Table, Refused, check_parent}
use dockade.TaskRegistry.Claims.{
  live, Holding, holds, no_claim, lapsed, held_by, wrong_token, check_holder, end, take,
}
use dockade.TaskRegistry.Fields.{storable, FieldError, check_new, check_text}
use dockade.TaskRegistry.Blockers.{check_blockers, set_blockers}
use dockade.TaskRegistry.Plans.{Decision}
use dockade.TaskRegistry.Plans.Rows.{Plan, PlanFields, check, current, insert}
use dockade.TaskRegistry.Lifecycle.{
  Repo, Store, Readings, MoveError, not_an_agent, no_repo, retired, no_footprint, other_repo,
  wrong_state, not_claimable, held, not_holding, bad_field, bad_plan, bad_parent, bad_blocker,
  Moved, refused, done, update_task, with_row, is_agent,
}

-- What a new task is given.
pub record NewTask : Type 0 where
  pub title : Text
  pub body : Text
  pub severity : Option Text
  pub kind : Option Text
  pub parent : Option ℕ
  pub blocked_by : List ℕ

abbrev pub when_passes {ℓ} : {E : Type ℓ} → (E → MoveError) → Option E → Moved → Moved
when_passes because none m = m
when_passes because (some why) m = refused (because why)

unfoldable pub add_task : Time → ℕ → Text → NewTask → Store → Store
add_task now repo_id state given s = record s {
  registry = record (s.registry) {
    tasks =
        Parents.insert now (suc s.last_id) repo_id given.title given.body state given.severity
          given.kind given.parent s.registry.tasks;
  };
  edges = set_blockers (suc s.last_id) given.blocked_by s.edges;
  last_id = suc s.last_id;
}

abbrev pub is_retired : Repo → Bool
is_retired repo = elim repo.retired_at [ none ↦ false | some at ↦ true ]

-- `tasks.repo_id` for a new task, and what follows it.
abbrev pub with_new_repo : Text → Option Repo → (ℕ → Moved) → Moved
with_new_repo name none k = refused no_repo
with_new_repo name (some repo) k =
    if not (storable name)
    then refused no_repo
    else if is_retired repo
    then refused retired
    else k repo.id

-- What `propose` and the operator's `create` share.
unfoldable pub new_task : Time → Text → Text → NewTask → Store → Moved
new_task now repo state given s =
    with_new_repo repo (find (λ r. r.name == repo) s.repos) (λ repo_id.
      when_passes bad_parent (check_parent s.registry.tasks repo_id given.parent none) (
        when_passes bad_blocker
          (check_blockers s.registry.tasks s.edges repo_id none given.blocked_by)
          (done 1 (add_task now repo_id state given s))))

abbrev pub check_given : NewTask → Option FieldError
check_given given = check_new (some given.title) (some given.body) given.severity given.kind

unfoldable pub propose : Time → Text → Text → NewTask → Store → Moved
propose now agent repo given s =
    if not (is_agent agent)
    then refused not_an_agent
    else when_passes bad_field (check_given given) (new_task now repo (text "proposed") given s)

pub data ClaimMove : Type 0 where
  claim_plan claim_work : ClaimMove

-- `CLAIMED_INTO`
unfoldable pub claimed_into : ClaimMove → Text → Option Text
claimed_into claim_plan state =
    if state == text "proposed" || state == text "refined" then some (text "proposed") else none
claimed_into claim_work state =
    if state == text "open" || state == text "landing" then some (text "open") else none

pub record ClaimSettings : Type 0 where
  pub claim_seconds : ℕ
  pub hash : Text → Text

-- What a claim names; without paths it takes the plan's.
pub record Wanted : Type 0 where
  pub agent : Text
  pub repo : Text
  pub branch : Option Text
  pub paths : Option (List Text)

abbrev pub paths_of : Option Plan → Option (List Text)
paths_of none = none
paths_of (some plan) = some plan.paths

abbrev pub paths_or : Option (List Text) → Option Plan → Option (List Text)
paths_or none plan = paths_of plan
paths_or (some paths) plan = some paths

abbrev pub take_task :
    ClaimSettings → Readings → Text → ℕ → Wanted → Text → Option (List Text) → Store → Moved
take_task settings now token task wanted into none s = refused no_footprint
take_task settings now token task wanted into (some paths) s =
    update_task now.written task (some into) (record s {
      registry =
          (take settings.claim_seconds settings.hash now.swept now.taken token task wanted.agent
            wanted.branch paths s.registry).1;
    })

-- `_claim`, from the state that the task is taken into
abbrev pub claim_into :
    ClaimSettings → Readings → Text → ℕ → Wanted → Text → Option Text → Store → Moved
claim_into settings now token task wanted state none s = refused (not_claimable state)
claim_into settings now token task wanted state (some into) s =
    elim (live now.looked task s.registry) [
      | some c ↦ refused (held c.holder c.expires_at)
      | none ↦
          take_task settings now token task wanted into
            (paths_or wanted.paths (current task s.plans)) s
    ]

unfoldable pub claim : ClaimSettings → Readings → Text → ℕ → Wanted → ClaimMove → Store → Moved
claim settings now token task wanted action s =
    if not (is_agent wanted.agent)
    then refused not_an_agent
    else with_row task s (λ row name.
      if not (name == wanted.repo)
      then refused (other_repo name)
      else claim_into settings now token task wanted row.state (claimed_into action row.state) s)

pub data EndMove : Type 0 where
  submit_plan_move submit_work send_back release : EndMove

-- `_ENDINGS`: the state that the move needs, and the one that it leads to.
abbrev pub needs : EndMove → Option Text
needs submit_plan_move = some (text "proposed")
needs submit_work = some (text "open")
needs send_back = some (text "open")
needs release = none

abbrev pub into : EndMove → Option Text
into submit_plan_move = some (text "refined")
into submit_work = some (text "landing")
into send_back = some (text "proposed")
into release = none

abbrev pub is_ready : Option Text → Text → Bool
is_ready none state = true
is_ready (some needed) state = state == needed

abbrev pub when_held : Holding → Moved → Moved
when_held (holds c) m = m
when_held lapsed m = refused (not_holding lapsed)
when_held no_claim m = refused (not_holding no_claim)
when_held (held_by holder until) m = refused (held holder until)
when_held wrong_token m = refused (not_holding wrong_token)

-- Who ends a claim, and on which task.
pub record Ender : Type 0 where
  pub agent : Text
  pub repo : Text
  pub task : ℕ
  pub token : Text

unfoldable pub close : ClaimSettings → Readings → Ender → EndMove → Store → Moved
close settings now who action s = with_row who.task s (λ row name.
    if not (name == who.repo)
    then refused (other_repo name)
    else when_held (check_holder settings.hash now.looked who.task who.agent who.token s.registry) (
        if not (is_ready (needs action) row.state)
        then refused (wrong_state row.state)
        else update_task now.written who.task (into action)
            (record s { registry = end who.task s.registry })))

abbrev pub note_max : ℕ
note_max = 4000

abbrev pub is_required : EndMove → Bool
is_required submit_plan_move = false
is_required submit_work = false
is_required send_back = true
is_required release = false

unfoldable pub end_claim : ClaimSettings → Readings → Ender → EndMove → Option Text → Store → Moved
end_claim settings now who action note s =
    if not (is_agent who.agent)
    then refused not_an_agent
    else when_passes bad_field (check_text note note_max (is_required action))
        (close settings now who action s)

abbrev pub then_insert : Time → Ender → PlanFields → List Text → List Decision → Moved → Moved
then_insert now who fields paths decisions (refused why) = refused why
then_insert now who fields paths decisions (done revision s) =
    done revision
      (record s { plans = insert now who.task revision who.agent fields paths decisions s.plans })

unfoldable pub submit_plan :
    ClaimSettings
    → Readings
    → Time
    → Ender
    → PlanFields
    → List Text
    → List Decision
    → Option Text
    → Store
    → Moved
submit_plan settings now later who fields paths decisions note s =
    if not (is_agent who.agent)
    then refused not_an_agent
    else when_passes bad_plan (check fields paths) (
        when_passes bad_field (check_text note note_max false) (
          then_insert later who fields paths decisions (close settings now who submit_plan_move s)))
