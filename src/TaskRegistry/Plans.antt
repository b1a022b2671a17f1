-- ===== src/TaskRegistry/Plans.antt =====
-- task-registry/plans.py: a plan's decisions, the operator's answers to them and what they take the
-- task to. The rows of `plans` are kept with the latest id first, each with its decisions and their
-- answers. A value of another type than it should have is refused before; here each is of its type.
pub mod Sorted
pub mod Rows
pub mod Outcome
pub mod Tests
use dockade.Base.{
  ℕ, zero, suc, ◌+◌, ◌≡◌, Bool, true, false, ◌&&◌, ◌||◌, not, Option, none, some, List, [], ◌∷◌,
  arith, ltb, leb, if◌then◌else◌, ◌==◌, length, find, filter, contains, any, all, is_empty, nat_eq,
  list_eq, option_eq,
}
use dockade.Base.Table.{update}
use dockade.Base.Text.{Text, text}
use dockade.TaskRegistry.Parents.{Time}
use dockade.TaskRegistry.Fields.{check_text}

abbrev pub other_max : ℕ
other_max = 4000

pub record Choice : Type 0 where
  pub label : Text
  pub meaning : Text
  pub assumed : Bool

pub record Decision : Type 0 where
  pub question : Text
  pub why : Text
  pub multi_select : Bool
  pub options : List Choice

pub record Answer : Type 0 where
  pub options : List ℕ
  pub other : Option Text

-- Each with the number of the decision, from 1.
pub data AnswerError : Type 0 where
  not_one_each : AnswerError
  bad_options bad_other none_chosen not_one_chosen : ℕ → AnswerError

unfoldable pub is_distinct : List ℕ → Bool
is_distinct [] = true
is_distinct (n ∷ ns) = not (contains n ns) && is_distinct ns

abbrev pub count_other : Option Text → ℕ
count_other none = 0
count_other (some t) = 1

abbrev pub is_refused {ℓ} : {A : Type ℓ} → Option A → Bool
is_refused none = false
is_refused (some why) = true

unfoldable pub check_answer : ℕ → Decision → Answer → Option AnswerError
check_answer i d a =
    let chosen = length a.options + count_other a.other in
    if not (all (λ o. ltb o (length d.options)) a.options) || not (is_distinct a.options)
    then some (bad_options i)
    else if is_refused (check_text a.other other_max false)
    then some (bad_other i)
    else if d.multi_select && chosen == 0
    then some (none_chosen i)
    else if not d.multi_select && not (chosen == 1)
    then some (not_one_chosen i)
    else none

-- `sorted`
unfoldable pub insert_sorted : ℕ → List ℕ → List ℕ
insert_sorted n [] = n ∷ []
insert_sorted n (m ∷ ms) = let rest = insert_sorted n ms in if leb n m then n ∷ m ∷ ms else m ∷ rest

unfoldable pub sorted : List ℕ → List ℕ
sorted [] = []
sorted (n ∷ ns) = insert_sorted n (sorted ns)

pub data Checked : Type 0 where
  bad : AnswerError → Checked
  good : List Answer → Checked

-- `checked.append`, in front of what the rest of the loop appends.
abbrev pub and_then : Answer → Checked → Checked
and_then a (bad why) = bad why
and_then a (good rest) = good (record a { options = sorted a.options } ∷ rest)

abbrev pub unless : Option AnswerError → Checked → Checked
unless none rest = rest
unless (some why) rest = bad why

-- The loop; the lists have one length.
unfoldable pub check_each : ℕ → List Decision → List Answer → Checked
check_each i [] answers = good []
check_each i (d ∷ decisions) [] = bad not_one_each
check_each i (d ∷ decisions) (a ∷ answers) =
    unless (check_answer i d a) (and_then a (check_each (suc i) decisions answers))

unfoldable pub check_answers : List Decision → List Answer → Checked
check_answers decisions answers =
    if length answers == length decisions then check_each 1 decisions answers else bad not_one_each

-- The positions that the plan assumes, counted from the given one.
unfoldable pub assumed_from : ℕ → List Choice → List ℕ
assumed_from j [] = []
assumed_from j (c ∷ cs) = let rest = assumed_from (suc j) cs in if c.assumed then j ∷ rest else rest

abbrev pub is_assumed : Decision → Answer → Bool
is_assumed d a = a.other == none && a.options == assumed_from 0 d.options

unfoldable pub all_assumed : List Decision → List Answer → Bool
all_assumed [] answers = true
all_assumed (d ∷ decisions) [] = true
all_assumed (d ∷ decisions) (a ∷ answers) = is_assumed d a && all_assumed decisions answers

pub data Reached : Type 0 where
  unchecked : AnswerError → Reached
  reaches : Text → Reached

unfoldable pub state_of : List Decision → Checked → Reached
state_of decisions (bad why) = unchecked why
state_of decisions (good checked) =
    reaches (if all_assumed decisions checked then text "open" else text "proposed")

unfoldable pub outcome : List Decision → List Answer → Reached
outcome decisions answers = state_of decisions (check_answers decisions answers)
