-- ===== src/TaskRegistry/Lifecycle/Operated.antt =====
-- The operator's new tasks and moves (task-registry/operator_moves.py) leave tasks that fit their
-- plans.
use mathlib.Core.List.{Memᴰ}
use dockade.Base.{
  ℕ, ◌≤◌, ◌≡◌, refl, ap, inl, inr, Bool, true, false, ◌&&◌, not, Option, none, some, List, arith,
  ◌==◌, nat_eq, list_eq, option_eq,
}
use dockade.Base.Text.{Text, text}
use dockade.TaskRegistry.Parents.{Time, Task}
use dockade.TaskRegistry.Claims.{Claim, Registry, live, sweep}
use dockade.TaskRegistry.Fields.{check_state}
use dockade.TaskRegistry.Plans.{Answer}
use dockade.TaskRegistry.Plans.Rows.{Plan, current, answer_each, answer, or_same}
use dockade.TaskRegistry.Lifecycle.{Store, Readings, is_settled}
use dockade.TaskRegistry.Lifecycle.Agents.{NewTask, check_given}
use dockade.TaskRegistry.Lifecycle.Operator.{create, end_held, has_plan, move}
use dockade.TaskRegistry.Lifecycle.Fits.{fits, current-answer}
use dockade.TaskRegistry.Lifecycle.Kept.{
  IsSound, Leaves, mem_of_update, IsFrom, sweep-IsFrom, end-IsFrom, registry-IsSound,
}
use dockade.TaskRegistry.Lifecycle.Written.{new_state-IsSound, update_task-Leaves, with_row-Leaves}
use dockade.TaskRegistry.Lifecycle.Moves.{if-Leaves, when_passes-Leaves}
use dockade.TaskRegistry.Lifecycle.Added.{new_task-Leaves}

pub create-Leaves :
    (now : Time) (repo state : Text) (given : NewTask) (s : Store)
    → IsSound s
    → Leaves IsSound (create now repo state given s)
unfolding create
create-Leaves now repo state given s sound =
    when_passes-Leaves IsSound _ (check_given given) _ (λ h.
      when_passes-Leaves IsSound _ (check_state state) _ (λ k.
        if-Leaves IsSound (state == text "refined") _ _
          (λ other. new_task-Leaves now repo state given s sound other)))

end_held-IsFrom :
    (o : Option Claim) (task : ℕ) (changed : Bool) (r : Registry)
    → IsFrom r.tasks (end_held o task changed r).tasks
end_held-IsFrom none task changed r t m = (t, m, refl, refl)
end_held-IsFrom (some c) task true r t m = end-IsFrom task r t m
end_held-IsFrom (some c) task false r t m = (t, m, refl, refl)

pub move-Leaves :
    (now : Readings) (task revision : ℕ) (state : Text) (s : Store)
    → IsSound s
    → Leaves IsSound (move now task revision state s)
unfolding move
move-Leaves now task revision state s sound =
    when_passes-Leaves IsSound _ (check_state state) _ (λ h.
      with_row-Leaves IsSound task s _ (λ row name e.
        if-Leaves IsSound (not (row.revision == revision)) _ _ (λ k.
          if-Leaves IsSound (state == text "refined" && not (has_plan (current task s.plans))) _ _
            (λ planned.
              update_task-Leaves IsSound now.written task (some state) (moving row) (λ opens.
                new_state-IsSound now.written task state (moving row) (moving-IsSound row) opens
                  (λ l. ground (arith, planned, l)))))))
  where
    swept : Registry
    swept = sweep now.swept s.registry

    moving : Task → Store
    moving row = record s {
      registry = end_held (live now.looked task swept) task (not (state == row.state)) swept;
    }

    moving-IsSound : (row : Task) → IsSound (moving row)
    moving-IsSound row =
        registry-IsSound (record s { registry = swept }) _
          (registry-IsSound s swept sound (sweep-IsFrom now.swept s.registry))
          (end_held-IsFrom (live now.looked task swept) task (not (state == row.state)) swept)

fits-answer :
    (state : Text) (old new : Option Plan)
    → has_plan new ≡ has_plan old
    → (is_settled old ≡ true → is_settled new ≡ true)
    → fits state old ≡ true
    → fits state new ≡ true
unfolding fits
fits-answer state old new same settled h = ground (arith, same, settled, h)

answer-below :
    (plan : ℕ) (answers : List Answer) (bound : ℕ) (plans : List Plan)
    → ((p : Plan) → Memᴰ p plans → p.task_id ≤ bound)
    → (p : Plan) → Memᴰ p (answer plan answers plans)
    → p.task_id ≤ bound
unfolding answer
answer-below plan answers bound plans below p m =
    elim (mem_of_update (λ p. p.id == plan)
      (λ p. record p { decisions = or_same p.decisions (answer_each p.decisions answers) }) plans p
      m) [ inl k ↦ below p k.0 | inr k ↦ rw (ap (λ (x : Plan). x.task_id) k.3) (below k.0 k.1) ]

pub answer-IsSound :
    (plan : ℕ) (answers : List Answer) (s : Store)
    → IsSound s
    → IsSound (record s { plans = answer plan answers s.plans })
answer-IsSound plan answers s sound = record {
  fit = λ t m.
      let kept = current-answer plan answers t.id s.plans in
      fits-answer t.state _ _ kept.0 kept.1 (sound.fit t m);
  row_below = sound.row_below;
  plan_below = answer-below plan answers s.last_id s.plans sound.plan_below;
}
