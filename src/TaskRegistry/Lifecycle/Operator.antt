-- ===== src/TaskRegistry/Lifecycle/Operator.antt =====
-- What the operator does to a task: `create`, `move`, `approve` and `break_claim` of
-- task-registry/operator_moves.py.
use dockade.Base.{
  ℕ, Bool, true, false, ◌&&◌, not, Option, none, some, List, if◌then◌else◌, ◌==◌, map, nat_eq,
  list_eq, option_eq,
}
use dockade.Base.Text.{Text, text}
use dockade.TaskRegistry.Parents.{Time}
use dockade.TaskRegistry.Claims.{Claim, Registry, live, end, sweep}
use dockade.TaskRegistry.Fields.{check_state}
use dockade.TaskRegistry.Plans.{
  Answer, Checked, bad, good, check_answers, Reached, unchecked, reaches, outcome,
}
use dockade.TaskRegistry.Plans.Rows.{Asked, Plan, current, answered, answer_each, answer}
use dockade.TaskRegistry.Lifecycle.{
  Store, Readings, no_plan, answered_before, no_live_claim, refined_from_start, broken, wrong_state,
  stale, bad_field, bad_answers, Moved, refused, update_task, with_row,
}
use dockade.TaskRegistry.Lifecycle.Agents.{NewTask, when_passes, check_given, new_task}

unfoldable pub create : Time → Text → Text → NewTask → Store → Moved
create now repo state given s = when_passes bad_field (check_given given) (
    when_passes bad_field (check_state state) (
      if state == text "refined"
      then refused refined_from_start
      else new_task now repo state given s))

abbrev pub end_held : Option Claim → ℕ → Bool → Registry → Registry
end_held none task changed r = r
end_held (some c) task changed r = if changed then end task r else r

abbrev pub has_plan : Option Plan → Bool
has_plan none = false
has_plan (some plan) = true

unfoldable pub move : Readings → ℕ → ℕ → Text → Store → Moved
move now task revision state s = when_passes bad_field (check_state state) (
    with_row task s (λ row name.
      if not (row.revision == revision)
      then refused (stale row.revision)
      else if state == text "refined" && not (has_plan (current task s.plans))
      then refused no_plan
      else (let swept = sweep now.swept s.registry in
          update_task now.written task (some state) (record s {
            registry = end_held (live now.looked task swept) task (not (state == row.state)) swept;
          }))))

-- What is written once the state is reached: the answers, then the task.
abbrev pub write_answers :
    Time → ℕ → Plan → List Answer → Reached → Option (List Asked) → Store → Moved
write_answers now task plan given (unchecked why) rows s = refused (bad_answers why)
write_answers now task plan given (reaches reached) none s = refused broken
write_answers now task plan given (reaches reached) (some rows) s =
    update_task now task (some reached) (record s { plans = answer plan.id given s.plans })

abbrev pub approve_checked : Time → ℕ → Plan → Checked → Store → Moved
approve_checked now task plan (bad why) s = refused (bad_answers why)
approve_checked now task plan (good given) s =
    write_answers now task plan given (outcome (map (λ q. q.decision) plan.decisions) given)
      (answer_each plan.decisions given) s

-- Without a plan the subscript raises.
abbrev pub approve_plan : Time → ℕ → List Answer → Option Plan → Store → Moved
approve_plan now task answers none s = refused broken
approve_plan now task answers (some plan) s =
    if answered plan
    then refused answered_before
    else approve_checked now task plan
        (check_answers (map (λ q. q.decision) plan.decisions) answers) s

unfoldable pub approve : Time → ℕ → ℕ → List Answer → Store → Moved
approve now task revision answers s = with_row task s (λ row name.
    if not (row.revision == revision)
    then refused (stale row.revision)
    else if not (row.state == text "refined")
    then refused (wrong_state row.state)
    else approve_plan now task answers (current task s.plans) s)

unfoldable pub break_claim : Readings → ℕ → ℕ → Store → Moved
break_claim now task revision s = with_row task s (λ row name.
    if not (row.revision == revision)
    then refused (stale row.revision)
    else elim (live now.looked task s.registry) [
      | none ↦ refused no_live_claim
      | some c ↦ update_task now.written task none (record s { registry = end task s.registry })
    ])
