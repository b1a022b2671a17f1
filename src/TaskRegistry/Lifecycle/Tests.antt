-- ===== src/TaskRegistry/Lifecycle/Tests.antt =====
-- A task from its proposal to its approval (task-registry/agent_moves.py and
-- task-registry/operator_moves.py).
use dockade.Base.{
  ℕ, ◌≡◌, refl, ◌≢◌, none, some, List, [], ◌∷◌, all, any, find, filter, contains, map, nat_eq,
  list_eq, option_eq,
}
use dockade.Base.Table.{update}
use dockade.Base.Text.{Text, text, strip, lstrip, rstrip, is_space}
use dockade.TaskRegistry.Parents
use dockade.TaskRegistry.Parents.{Task, check_parent}
use dockade.TaskRegistry.Claims.{
  live, check_holder, check_found, check_row, end, bump, sweep_rows, sweep, take,
}
use dockade.TaskRegistry.Fields.{storable, check_fields, check_new, check_text, check_state}
use dockade.TaskRegistry.Blockers.{check_blockers, once, set_blockers}
use dockade.TaskRegistry.Plans.{
  is_distinct, check_answer, insert_sorted, sorted, check_each, check_answers, assumed_from,
  all_assumed, state_of, outcome,
}
use dockade.TaskRegistry.Plans.Rows.{
  PlanFields, check, current, insert, supersede, answered, unanswered, answer_each, answer,
}
use dockade.TaskRegistry.Plans.Tests.{one_of, answering}
use dockade.TaskRegistry.Lifecycle.{
  Repo, Store, Readings, broken, unanswered_plan, no_plan, Moved, refused, done, set_row, set_state,
  update_task, with_row, agent_parts, is_agent,
}
use dockade.TaskRegistry.Lifecycle.Agents.{
  NewTask, add_task, new_task, propose, claim_plan, claimed_into, ClaimSettings, claim, close,
  submit_plan,
}
use dockade.TaskRegistry.Lifecycle.Operator.{move, approve}
use dockade.TaskRegistry.Lifecycle.Kept.{IsSound}
use dockade.TaskRegistry.Lifecycle.Unbroken.{approve-unbroken}
use dockade.TaskRegistry.Lifecycle.Sequence.{
  empty, Run, start, after, proposes, claims, submits, Run-IsSound,
}

abbrev settings : ClaimSettings
settings = record { claim_seconds = 3600; hash = λ t. t }

abbrev at_time : ℕ → Readings
at_time now = record { looked = now; swept = now; taken = now; written = now }

abbrev repos : List Repo
repos = (record { id = 1; name = text "dockade"; retired_at = none }) ∷ []

abbrev idea : NewTask
idea = record {
  title = text "Move it";
  body = text "It is in the way.";
  severity = none;
  kind = none;
  parent = none;
  blocked_by = [];
}

abbrev agent : Text
agent = text "claude-abc123"

abbrev parts : PlanFields
parts = record {
  approach = text "Lift it.";
  tests = text "One.";
  out_of_scope = text "The rest.";
  risks = text "None.";
  review_rounds = 1;
  review_verdict = text "Good.";
}

abbrev store_of : Moved → Store
store_of (refused why) = empty []
store_of (done revision s) = s

abbrev revision_of : Moved → ℕ
revision_of (refused why) = 0
revision_of (done revision s) = revision

abbrev proposing : Moved
proposing = propose 10 agent (text "dockade") idea (empty repos)

abbrev claiming : Moved
claiming =
    claim settings (at_time 20) (text "k") 1
      (record {
        agent = agent;
        repo = text "dockade";
        branch = none;
        paths = some (text "src" ∷ []);
      })
      claim_plan (store_of proposing)

abbrev submitting : Moved
submitting =
    submit_plan settings (at_time 30) 31
      (record { agent = agent; repo = text "dockade"; task = 1; token = text "k" }) parts
      (text "src" ∷ []) (one_of ∷ []) none (store_of claiming)

-- What a run computes through: naming this opens all of it.
all_steps : Unit {0}
unfolding propose new_task add_task Parents.insert claim claimed_into close submit_plan move approve
    set_row set_state update_task with_row agent_parts is_agent check_parent check_blockers once
    set_blockers check_new check_fields check_text check_state storable live check_holder
    check_found check_row end bump sweep_rows sweep take check current insert supersede answered
    unanswered answer_each answer outcome state_of check_answers check_each check_answer sorted
    insert_sorted is_distinct assumed_from all_assumed update find filter all any contains strip
    lstrip rstrip is_space
all_steps = tt

proposing_done : proposing ≡ done 1 (store_of proposing)
unfolding all_steps
proposing_done = refl

claiming_done : claiming ≡ done 2 (store_of claiming)
unfolding all_steps
claiming_done = refl

submitting_done : submitting ≡ done 3 (store_of submitting)
unfolding all_steps
submitting_done = refl

move_waits_for_answers :
    move (at_time 40) 1 3 (text "open") (store_of submitting) ≡ refused unanswered_plan
unfolding all_steps
move_waits_for_answers = refl

assumed_opens :
    map
      (λ (t : Task). t.state)
      (store_of (approve 50 1 3 (answering (0 ∷ []) ∷ []) (store_of submitting))).registry.tasks
    ≡ (text "open" ∷ [])
unfolding all_steps
assumed_opens = refl

other_goes_back :
    move
      (at_time 60)
      1
      4
      (text "refined")
      (store_of (approve 50 1 3 (answering (1 ∷ []) ∷ []) (store_of submitting)))
    ≡ refused no_plan
unfolding all_steps
other_goes_back = refl

submitted : Run settings (store_of submitting)
submitted =
    after
      (after (after (start repos) (proposes 10 agent (text "dockade") idea) proposing_done)
        (claims (at_time 20) (text "k") 1 _ claim_plan) claiming_done)
      (submits (at_time 30) 31 _ parts (text "src" ∷ []) (one_of ∷ []) none) submitting_done

Run-IsSound_example : IsSound (store_of submitting)
Run-IsSound_example = Run-IsSound settings (store_of submitting) submitted

approve-unbroken_example :
    approve 50 1 3 (answering (0 ∷ []) ∷ []) (store_of submitting) ≢ refused broken
approve-unbroken_example =
    approve-unbroken 50 1 3 (answering (0 ∷ []) ∷ []) (store_of submitting)
      (Run-IsSound settings (store_of submitting) submitted)
