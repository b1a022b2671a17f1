-- ===== src/TaskRegistry/Lifecycle/Unbroken.antt =====
-- An approval (`approve` of task-registry/operator_moves.py) meets no exception: a refined task has
-- its plan, and the answers that are written are one for each of its decisions.
use dockade.Base.{
  ℕ, suc, ◌≡◌, refl, ◌≢◌, length, any, ◌∙◌, Bool, true, false, not, Option, none, some, List, [],
  ◌∷◌, arith, if◌then◌else◌, ◌==◌, find, map, nat_eq, list_eq, option_eq,
}
use dockade.Base.Text.{Text, text}
use dockade.TaskRegistry.Parents.{Time, Task, row_of, is_id}
use dockade.TaskRegistry.Plans.{
  Decision, Answer, AnswerError, Checked, bad, good, and_then, unless, check_answer, check_each,
  check_answers, Reached, unchecked, reaches, outcome,
}
use dockade.TaskRegistry.Plans.Rows.{
  is_set, put_answer, Asked, Plan, current, answered, answer_each,
}
use dockade.TaskRegistry.Lifecycle.{
  broken, with_repo, with_found, Repo, Store, MoveError, Moved, refused, opens_unanswered,
  update_task, with_row,
}
use dockade.TaskRegistry.Lifecycle.Operator.{
  has_plan, write_answers, approve_checked, approve_plan, approve,
}
use dockade.TaskRegistry.Lifecycle.Fits.{fits}
use dockade.TaskRegistry.Lifecycle.Kept.{IsSound}
use dockade.TaskRegistry.Lifecycle.Planned.{mem_of_find}

-- What is checked is one answer for each decision.
length-check_each :
    (i : ℕ) (ds : List Decision) (answers checked : List Answer)
    → check_each i ds answers ≡ good checked
    → length checked ≡ length ds
unfolding check_each
length-check_each i [] answers checked h = ground (arith, h)
length-check_each i (d ∷ ds) [] checked h = absurd (cc (h))
length-check_each i (d ∷ ds) (a ∷ answers) checked h =
    by_rest (check_answer i d a) (check_each (suc i) ds answers) h
      (λ rest e. length-check_each (suc i) ds answers rest e)
  where
    by_rest :
        (o : Option AnswerError) (c : Checked)
        → unless o (and_then a c) ≡ good checked
        → ((rest : List Answer) → c ≡ good rest → length rest ≡ length ds)
        → length checked ≡ suc (length ds)
    by_rest (some why) c e deep = absurd (cc (e))
    by_rest none (bad why) e deep = absurd (cc (e))
    by_rest none (good rest) e deep = ground (arith, e, deep rest refl)

length-check_answers :
    (ds : List Decision) (answers checked : List Answer)
    → check_answers ds answers ≡ good checked
    → length checked ≡ length ds
unfolding check_answers
length-check_answers ds answers checked h =
    length-check_each 1 ds answers checked (ground (arith, h))

answer_each-some :
    (qs : List Asked) (given : List Answer)
    → length given ≡ length qs
    → any (λ q. is_set q.answer) qs ≡ false
    → answer_each qs given ≢ none
unfolding answer_each any
answer_each-some [] [] same free = λ e. absurd (cc (e))
answer_each-some [] (a ∷ given) same free = absurd (omega (arith, same))
answer_each-some (q ∷ qs) [] same free = absurd (omega (arith, same))
answer_each-some (q ∷ qs) (a ∷ given) same free =
    by_rest (answer_each qs given) (answer_each-some qs given (omega (arith, same)) (ground arith))
      (is_set q.answer) (ground arith)
  where
    by_rest :
        (o : Option (List Asked))
        → o ≢ none
        → (b : Bool) → b ≡ false
        → (if b then none else put_answer q a o) ≢ none
    by_rest none some_rest b free = absurd (some_rest refl)
    by_rest (some rest) some_rest true free = absurd (cc (free))
    by_rest (some rest) some_rest false free = λ e. absurd (cc (e))

length-asked : (qs : List Asked) → length (map (λ q. q.decision) qs) ≡ length qs
length-asked [] = refl
length-asked (q ∷ qs) = omega (arith, length-asked qs)

-- The exception is no outcome of what follows a check.
abbrev IsUnbroken : Moved → Type 0
IsUnbroken m = m ≢ refused broken

if-IsUnbroken :
    (b : Bool) (why : MoveError) (m : Moved)
    → IsUnbroken (refused why)
    → (b ≡ false → IsUnbroken m)
    → IsUnbroken (if b then refused why else m)
if-IsUnbroken true why m first h = first
if-IsUnbroken false why m first h = h refl

update_task-IsUnbroken :
    (now : Time) (task : ℕ) (state : Option Text) (s : Store)
    → IsUnbroken (update_task now task state s)
unfolding update_task
update_task-IsUnbroken now task state s =
    if-IsUnbroken (opens_unanswered task state s.plans) _ _ (λ e. absurd (cc (e)))
      (λ h e. absurd (cc (e)))

with_row-IsUnbroken :
    (task : ℕ) (s : Store) (k : Task → Text → Moved)
    → ((row : Task) (name : Text)
        → row_of task s.registry.tasks ≡ some row
        → IsUnbroken (k row name))
    → IsUnbroken (with_row task s k)
unfolding with_row
with_row-IsUnbroken task s k h =
    if-IsUnbroken (not (is_id task)) _ _ (λ e. absurd (cc (e)))
      (λ l. by_row (row_of task s.registry.tasks) refl)
  where
    by_repo :
        (row : Task)
        → row_of task s.registry.tasks ≡ some row
        → (o : Option Repo) → IsUnbroken (with_repo o row k)
    by_repo row e none = λ e. absurd (cc (e))
    by_repo row e (some repo) = h row repo.name e

    by_row :
        (o : Option Task) → row_of task s.registry.tasks ≡ o → IsUnbroken (with_found s.repos o k)
    by_row none e = λ e. absurd (cc (e))
    by_row (some row) e = by_repo row e (find (λ r. r.id == row.repo_id) s.repos)

approve_checked-IsUnbroken :
    (now : Time) (task : ℕ) (answers : List Answer) (plan : Plan) (s : Store) (c : Checked)
    → answered plan ≡ false
    → check_answers (map (λ q. q.decision) plan.decisions) answers ≡ c
    → IsUnbroken (approve_checked now task plan c s)
approve_checked-IsUnbroken now task answers plan s (bad why) free h = λ e. absurd (cc (e))
approve_checked-IsUnbroken now task answers plan s (good given) free h =
    by_rows (outcome (map (λ q. q.decision) plan.decisions) given)
      (answer_each plan.decisions given)
      (answer_each-some plan.decisions given
        (length-check_answers (map (λ q. q.decision) plan.decisions) answers given h
          ∙ length-asked plan.decisions)
        (unfold answered in free))
  where
    by_rows :
        (r : Reached) (rows : Option (List Asked))
        → rows ≢ none
        → IsUnbroken (write_answers now task plan given r rows s)
    by_rows (unchecked why) rows some_rows = λ e. absurd (cc (e))
    by_rows (reaches reached) none some_rows = absurd (some_rows refl)
    by_rows (reaches reached) (some rows) some_rows =
        update_task-IsUnbroken now task (some reached) _

approve_plan-IsUnbroken :
    (now : Time) (task : ℕ) (answers : List Answer) (o : Option Plan) (s : Store)
    → has_plan o ≡ true
    → IsUnbroken (approve_plan now task answers o s)
approve_plan-IsUnbroken now task answers none s planned = absurd (cc (planned))
approve_plan-IsUnbroken now task answers (some plan) s planned =
    if-IsUnbroken (answered plan) _ _ (λ e. absurd (cc (e)))
      (λ free. approve_checked-IsUnbroken now task answers plan s _ free refl)

fits-planned :
    (state : Text) (plan : Option Plan)
    → fits state plan ≡ true
    → (state == text "refined") ≡ true
    → has_plan plan ≡ true
unfolding fits
fits-planned state plan h e = ground (arith, h, e)

-- On a store whose tasks fit their plans an approval never ends in an exception: a refined task has
-- its plan, and the answers that pass are one for each of its decisions, none of them answered.
pub approve-unbroken :
    (now : Time) (task revision : ℕ) (answers : List Answer) (s : Store)
    → IsSound s
    → approve now task revision answers s ≢ refused broken
unfolding approve
approve-unbroken now task revision answers s sound = with_row-IsUnbroken task s _ (λ row name e.
    if-IsUnbroken (not (row.revision == revision)) _ _ (λ e. absurd (cc (e)))
      (λ h.
        if-IsUnbroken (not (row.state == text "refined")) _ _ (λ e. absurd (cc (e)))
          (λ k.
            let found = mem_of_find task s.registry.tasks row e in
            approve_plan-IsUnbroken now task answers (current task s.plans) s (
              rw (← found.1)
                (fits-planned row.state _ (sound.fit row found.0) (ground (arith, k)))))))
