-- ===== src/TaskRegistry/Plans/Tests.antt =====
-- A plan with two decisions (task-registry/plans.py), and what some answers to them lead to.
use dockade.Base.{
  ℕ, ◌≡◌, refl, ◌⊎◌, true, false, none, List, [], ◌∷◌, all, contains, nat_eq, list_eq, option_eq,
}
use dockade.Base.Text.{text, strip, lstrip, rstrip, is_space}
use dockade.TaskRegistry.Fields.{check_text, storable}
use dockade.TaskRegistry.Plans.{
  Decision, Answer, not_one_each, bad_options, none_chosen, not_one_chosen, is_distinct,
  check_answer, insert_sorted, sorted, good, check_each, check_answers, assumed_from, all_assumed,
  unchecked, reaches, state_of, outcome,
}
use dockade.TaskRegistry.Plans.Outcome.{AllAgreed, outcome-exact}

abbrev pub one_of : Decision
one_of = record {
  question = text "Where?";
  why = text "It moves.";
  multi_select = false;
  options =
      (record { label = text "Here"; meaning = text "h"; assumed = true })
      ∷ (record { label = text "There"; meaning = text "t"; assumed = false })
      ∷ [];
}

abbrev some_of : Decision
some_of = record {
  question = text "Which?";
  why = text "They differ.";
  multi_select = true;
  options =
      (record { label = text "A"; meaning = text "a"; assumed = true })
      ∷ (record { label = text "B"; meaning = text "b"; assumed = false })
      ∷ (record { label = text "C"; meaning = text "c"; assumed = true })
      ∷ [];
}

abbrev pub answering : List ℕ → Answer
answering options = record { options = options; other = none }

abbrev two : List Decision
two = one_of ∷ some_of ∷ []

-- What a run computes through: naming this opens all of it.
all_steps : Unit {0}
unfolding outcome state_of check_answers check_each check_answer check_text sorted insert_sorted
    is_distinct assumed_from all_assumed all contains strip lstrip rstrip is_space storable
all_steps = tt

any_order_opens :
    outcome two (answering (0 ∷ []) ∷ answering (2 ∷ 0 ∷ []) ∷ []) ≡ reaches (text "open")
unfolding all_steps
any_order_opens = refl

other_choice_goes_back :
    outcome two (answering (1 ∷ []) ∷ answering (2 ∷ 0 ∷ []) ∷ []) ≡ reaches (text "proposed")
unfolding all_steps
other_choice_goes_back = refl

one_short : outcome two (answering (0 ∷ []) ∷ []) ≡ unchecked not_one_each
unfolding all_steps
one_short = refl

twice_named :
    outcome two (answering (0 ∷ []) ∷ answering (2 ∷ 2 ∷ []) ∷ []) ≡ unchecked (bad_options 2)
unfolding all_steps
twice_named = refl

out_of_range :
    outcome two (answering (2 ∷ []) ∷ answering (0 ∷ []) ∷ []) ≡ unchecked (bad_options 1)
unfolding all_steps
out_of_range = refl

left_out : outcome two (answering (0 ∷ []) ∷ answering [] ∷ []) ≡ unchecked (none_chosen 2)
unfolding all_steps
left_out = refl

both_of_one :
    outcome two (answering (0 ∷ 1 ∷ []) ∷ answering (0 ∷ []) ∷ []) ≡ unchecked (not_one_chosen 1)
unfolding all_steps
both_of_one = refl

two_pass :
    check_answers two (answering (0 ∷ []) ∷ answering (2 ∷ 0 ∷ []) ∷ [])
    ≡ good (answering (0 ∷ []) ∷ answering (0 ∷ 2 ∷ []) ∷ [])
unfolding all_steps
two_pass = refl

outcome-exact_example :
    ((outcome two (answering (0 ∷ []) ∷ answering (2 ∷ 0 ∷ []) ∷ []) ≡ reaches (text "open"))
      × AllAgreed two (answering (0 ∷ []) ∷ answering (2 ∷ 0 ∷ []) ∷ []))
    ⊎ ((outcome two (answering (0 ∷ []) ∷ answering (2 ∷ 0 ∷ []) ∷ []) ≡ reaches (text "proposed"))
        × (AllAgreed two (answering (0 ∷ []) ∷ answering (2 ∷ 0 ∷ []) ∷ []) → ⊥))
outcome-exact_example =
    outcome-exact two (answering (0 ∷ []) ∷ answering (2 ∷ 0 ∷ []) ∷ [])
      (answering (0 ∷ []) ∷ answering (0 ∷ 2 ∷ []) ∷ []) two_pass
