-- ===== src/TaskRegistry/Lifecycle/Fits.antt =====
-- What the state of a task says of its plan (task-registry/tasks.py, `update`), and how the writes of
-- the plans change it.
use dockade.Base.{
  ℕ, ◌≡◌, refl, Bool, true, false, ◌&&◌, ◌||◌, not, Option, none, some, List, [], ◌∷◌, arith,
  if◌then◌else◌, ◌==◌, ==_iff, length, find, filter, nat_eq, list_eq, option_eq,
}
use dockade.Base.Table.{update}
use dockade.Base.Text.{Text, text}
use dockade.TaskRegistry.Parents.{Time}
use dockade.TaskRegistry.Plans.{Decision, Answer}
use dockade.TaskRegistry.Plans.Rows.{
  Asked, Plan, PlanFields, is_set, current, insert, supersede, unanswered, answer_each, put_answer,
  or_same, answer,
}
use dockade.TaskRegistry.Lifecycle.{is_settled}
use dockade.TaskRegistry.Lifecycle.Operator.{has_plan}

-- An open task has no decision unanswered, a refined one has a current plan, a proposed one has none.
unfoldable pub fits : Text → Option Plan → Bool
fits state plan =
    (not (state == text "open") || is_settled plan)
    && (not (state == text "refined") || has_plan plan)
    && (not (state == text "proposed") || not (has_plan plan))

pub current-supersede_same :
    (now : Time) (task : ℕ) (plans : List Plan) → current task (supersede now task plans) ≡ none
unfolding current supersede update find
current-supersede_same now task [] = refl
current-supersede_same now task (p ∷ plans) = ground (arith, current-supersede_same now task plans)

pub current-supersede_other :
    (now : Time) (task other : ℕ) (plans : List Plan)
    → (other == task) ≡ false
    → current other (supersede now task plans) ≡ current other plans
unfolding current supersede update find
current-supersede_other now task other [] h = refl
current-supersede_other now task other (p ∷ plans) h = ground (
  arith,
  ==_iff p.task_id task,
  ==_iff p.task_id other,
  ==_iff other task,
  current-supersede_other now task other plans h,
)

pub current-insert_same :
    (now : Time) (task revision : ℕ) (author : Text) (fields : PlanFields) (paths : List Text)
    → (decisions : List Decision) (plans : List Plan)
    → has_plan (current task (insert now task revision author fields paths decisions plans)) ≡ true
unfolding current insert find
current-insert_same now task revision author fields paths decisions plans =
    ground (arith, ==_iff task task)

pub current-insert_other :
    (now : Time) (task revision : ℕ) (author : Text) (fields : PlanFields) (paths : List Text)
    → (decisions : List Decision) (plans : List Plan) (other : ℕ) → (other == task) ≡ false
    → current other (insert now task revision author fields paths decisions plans)
      ≡ current other plans
unfolding current insert find
current-insert_other now task revision author fields paths decisions plans other h =
    ground (arith, ==_iff other task, ==_iff task other)

-- Once every row has its answer, none is left.
settled_rows :
    (qs new : List Asked) (answers : List Answer)
    → answer_each qs answers ≡ some new
    → length (filter (λ q. not (is_set q.answer)) new) ≡ 0
unfolding answer_each filter
settled_rows [] new [] h = ground arith
settled_rows [] new (a ∷ answers) h = absurd (cc (h))
settled_rows (q ∷ qs) new [] h = absurd (cc (h))
settled_rows (q ∷ qs) new (a ∷ answers) h =
    by_rest (answer_each qs answers) (λ rest e. settled_rows qs rest answers e) (is_set q.answer) h
  where
    by_rest :
        (o : Option (List Asked))
        → ((rest : List Asked)
            → o ≡ some rest
            → length (filter (λ q. not (is_set q.answer)) rest) ≡ 0)
        → (old : Bool) → (if old then none else put_answer q a o) ≡ some new
        → length (filter (λ q. not (is_set q.answer)) new) ≡ 0
    by_rest o deep true e = absurd (cc (e))
    by_rest none deep false e = absurd (cc (e))
    by_rest (some rest) deep false e = ground (arith, deep rest refl, e)

settled_answer :
    (p : Plan) (answers : List Answer)
    → is_settled (some p) ≡ true
    → is_settled
        (some (record p { decisions = or_same p.decisions (answer_each p.decisions answers) }))
      ≡ true
unfolding unanswered
settled_answer p answers h = by_rows (answer_each p.decisions answers) refl
  where
    by_rows :
        (o : Option (List Asked))
        → answer_each p.decisions answers ≡ o
        → (length (filter (λ q. not (is_set q.answer)) (or_same p.decisions o)) == 0) ≡ true
    by_rows none e = h
    by_rows (some new) e = ground (arith, settled_rows p.decisions new answers e)

-- The answers leave each task's plan its plan, and no decision that had its answer without one.
pub current-answer :
    (plan : ℕ) (answers : List Answer) (task : ℕ) (plans : List Plan)
    → (has_plan (current task (answer plan answers plans)) ≡ has_plan (current task plans))
      × (is_settled (current task plans) ≡ true
          → is_settled (current task (answer plan answers plans)) ≡ true)
unfolding current answer update find
current-answer plan answers task [] = (refl, λ h. refl)
current-answer plan answers task (p ∷ plans) =
    let deep = current-answer plan answers task plans in
    ground (arith, deep, settled_answer p answers)
