-- ===== src/TaskRegistry/Plans/Outcome.antt =====
-- What an operator's answers take a task to: `outcome` of task-registry/plans.py.
use dockade.Base.{
  ℕ, suc, ◌≡◌, refl, ◌↔◌, ◌⊎◌, inl, inr, true, Option, none, some, List, [], ◌∷◌, arith, ==_iff,
  contains, nat_eq, list_eq, option_eq, Bool-cases,
}
use dockade.Base.Text.{text}
use dockade.TaskRegistry.Plans.{
  Decision, Answer, AnswerError, is_distinct, check_answer, sorted, Checked, bad, good, and_then,
  unless, check_each, check_answers, assumed_from, is_assumed, all_assumed, reaches, state_of,
  outcome,
}
use dockade.TaskRegistry.Plans.Sorted.{is_assumed_at, sorted-assumed_from}

-- The answer chooses the options that the plan assumes, in whatever order, and says nothing else.
abbrev pub IsAgreed : Decision → Answer → Type 0
IsAgreed d a = (a.other ≡ none) × ((j : ℕ) → contains j a.options ≡ is_assumed_at j d.options)

abbrev pub AllAgreed : List Decision → List Answer → Type 0
AllAgreed [] answers = Unit
AllAgreed (d ∷ ds) [] = ⊥
AllAgreed (d ∷ ds) (a ∷ gs) = IsAgreed d a × AllAgreed ds gs

abbrev in_order : Answer → Answer
in_order a = record a { options = sorted a.options }

unless_good :
    (o : Option AnswerError) (a : Answer) (c : Checked) (checked : List Answer)
    → unless o (and_then a c) ≡ good checked
    → (o ≡ none) × (rest : List Answer) × (c ≡ good rest) × (checked ≡ in_order a ∷ rest)
unless_good (some why) a c checked h = absurd (cc (h))
unless_good none a (bad why) checked h = absurd (cc (h))
unless_good none a (good rest) checked h = (refl, rest, refl, cc (h))

check_answer-distinct :
    (i : ℕ) (d : Decision) (a : Answer) → check_answer i d a ≡ none → is_distinct a.options ≡ true
unfolding check_answer
check_answer-distinct i d a h = ground arith

is_assumed-IsAgreed :
    (d : Decision) (a : Answer)
    → is_distinct a.options ≡ true
    → (is_assumed d (in_order a) ≡ true) ↔ IsAgreed d a
is_assumed-IsAgreed d a distinct = (
  λ h. (
    (==_iff a.other none).0 (ground arith),
    (sorted-assumed_from a.options d.options distinct).0
        ((==_iff (sorted a.options) (assumed_from 0 d.options)).0 (ground arith)),
  ),
  λ agreed. ground (
    arith,
    (==_iff a.other none).1 agreed.0,
    (==_iff (sorted a.options) (assumed_from 0 d.options)).1
        ((sorted-assumed_from a.options d.options distinct).1 agreed.1),
  ),
)

check_each-AllAgreed :
    (i : ℕ) (ds : List Decision) (gs checked : List Answer)
    → check_each i ds gs ≡ good checked
    → (all_assumed ds checked ≡ true) ↔ AllAgreed ds gs
unfolding check_each all_assumed
check_each-AllAgreed i [] gs checked h = (λ k. tt, λ k. refl)
check_each-AllAgreed i (d ∷ ds) [] checked h = absurd (cc (h))
check_each-AllAgreed i (d ∷ ds) (a ∷ gs) checked h =
    let (passes, rest, deep, same) =
      unless_good (check_answer i d a) a (check_each (suc i) ds gs) checked h in
    let first : (is_assumed d (in_order a) ≡ true) ↔ IsAgreed d a =
      is_assumed-IsAgreed d a (check_answer-distinct i d a passes) in
    let others : (all_assumed ds rest ≡ true) ↔ AllAgreed ds gs =
      check_each-AllAgreed (suc i) ds gs rest deep in
    rw same (
      λ k. (first.0 (ground arith), others.0 (ground arith)),
      λ k. ground (arith, first.1 k.0, others.1 k.1),
    )

-- Answers that pass their checks open the task exactly if each chooses the options that the plan
-- assumes, in whatever order, with no other text; otherwise the task goes back to `proposed`.
pub outcome-exact :
    (decisions : List Decision) (answers checked : List Answer)
    → check_answers decisions answers ≡ good checked
    → ((outcome decisions answers ≡ reaches (text "open")) × AllAgreed decisions answers)
      ⊎ ((outcome decisions answers ≡ reaches (text "proposed"))
          × (AllAgreed decisions answers → ⊥))
unfolding outcome state_of check_answers
outcome-exact decisions answers checked h =
    let passes : check_each 1 decisions answers ≡ good checked = ground arith in
    let exact : (all_assumed decisions checked ≡ true) ↔ AllAgreed decisions answers =
      check_each-AllAgreed 1 decisions answers checked passes in
    elim (Bool-cases (all_assumed decisions checked)) [
      | inl agreed ↦ inl (ground arith, exact.0 agreed)
      | inr differs ↦ inr (ground arith, λ agreed. ground (arith, exact.1 agreed))
    ]
