-- ===== src/TaskRegistry/Plans/Rows.antt =====
-- The rows of `plans`, `decisions` and `answers`: `check`, `insert`, `answer`, `current`, `answered`
-- and `unanswered` of task-registry/plans.py. The path list is what `claims.footprint` returns.
use dockade.Base.{
  ℕ, suc, Bool, true, false, ◌&&◌, ◌||◌, not, Option, none, some, List, [], ◌∷◌, ltb, leb,
  if◌then◌else◌, ◌==◌, length, find, filter, contains, any, map, nat_eq, list_eq, option_eq,
}
use dockade.Base.Table.{update}
use dockade.Base.Text.{Text, text}
use dockade.TaskRegistry.Parents.{Time}
use dockade.TaskRegistry.Fields.{check_text}
use dockade.TaskRegistry.Plans.{Decision, Answer}

pub record PlanFields : Type 0 where
  pub approach : Text
  pub tests : Text
  pub out_of_scope : Text
  pub risks : Text
  pub review_rounds : ℕ
  pub review_verdict : Text

pub data PlanError : Type 0 where
  bad_part bad_rounds whole_repo : PlanError

abbrev pub is_bad_part : Text → ℕ → Bool
is_bad_part part limit = elim (check_text (some part) limit true) [ none ↦ false | some e ↦ true ]

unfoldable pub check : PlanFields → List Text → Option PlanError
check given paths =
    if is_bad_part given.approach 4000
      || is_bad_part given.tests 2000
      || is_bad_part given.out_of_scope 1500
      || is_bad_part given.risks 1500
      || is_bad_part given.review_verdict 1000
    then some bad_part
    else if not (ltb 0 given.review_rounds && leb given.review_rounds 20)
    then some bad_rounds
    else if contains (text ".") paths
    then some whole_repo
    else none

-- A row of `decisions` with its row of `answers`, if it has one.
pub record Asked : Type 0 where
  pub decision : Decision
  pub answer : Option Answer

pub record Plan : Type 0 where
  pub id : ℕ
  pub task_id : ℕ
  pub task_revision : ℕ
  pub author : Text
  pub created_at : Time
  pub fields : PlanFields
  pub paths : List Text
  pub decisions : List Asked
  pub superseded_at : Option Time

abbrev pub is_set {ℓ} : {A : Type ℓ} → Option A → Bool
is_set none = false
is_set (some a) = true

-- The first that is not superseded; the latest id stands first.
unfoldable pub current : ℕ → List Plan → Option Plan
current task plans = find (λ p. p.task_id == task && not (is_set p.superseded_at)) plans

-- No plan is ever deleted, so the next id is one more than the number of them.
unfoldable pub insert :
    Time → ℕ → ℕ → Text → PlanFields → List Text → List Decision → List Plan → List Plan
insert now task revision author fields paths decisions plans =
    (record {
      id = suc (length plans);
      task_id = task;
      task_revision = revision;
      author = author;
      created_at = now;
      fields = fields;
      paths = paths;
      decisions = map (λ d. record { decision = d; answer = none }) decisions;
      superseded_at = none;
    })
    ∷ plans

-- The statement of `tasks.update` on a task that enters `proposed`.
unfoldable pub supersede : Time → ℕ → List Plan → List Plan
supersede now task plans =
    update (λ p. p.task_id == task && not (is_set p.superseded_at))
      (λ p. record p { superseded_at = some now }) plans

unfoldable pub answered : Plan → Bool
answered plan = any (λ q. is_set q.answer) plan.decisions

unfoldable pub unanswered : Plan → ℕ
unanswered plan = length (filter (λ q. not (is_set q.answer)) plan.decisions)

abbrev pub put_answer : Asked → Answer → Option (List Asked) → Option (List Asked)
put_answer q a none = none
put_answer q a (some rest) = some (record q { answer = some a } ∷ rest)

-- The rows of the loop; `none` is its exception, on lists of two lengths or a row that is there.
unfoldable pub answer_each : List Asked → List Answer → Option (List Asked)
answer_each [] [] = some []
answer_each [] (a ∷ answers) = none
answer_each (q ∷ qs) [] = none
answer_each (q ∷ qs) (a ∷ answers) =
    let rest = answer_each qs answers in if is_set q.answer then none else put_answer q a rest

abbrev pub or_same : List Asked → Option (List Asked) → List Asked
or_same qs none = qs
or_same qs (some new) = new

unfoldable pub answer : ℕ → List Answer → List Plan → List Plan
answer plan answers plans =
    update (λ p. p.id == plan)
      (λ p. record p { decisions = or_same p.decisions (answer_each p.decisions answers) }) plans
