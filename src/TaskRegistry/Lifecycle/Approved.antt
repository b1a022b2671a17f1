-- ===== src/TaskRegistry/Lifecycle/Approved.antt =====
-- `approve` and `break_claim` of task-registry/operator_moves.py leave tasks that fit their plans.
use dockade.Base.{
  ℕ, ◌≡◌, refl, subst, Bool, true, false, not, Option, none, some, List, if◌then◌else◌, ◌==◌, map,
  nat_eq, list_eq, option_eq,
}
use dockade.Base.Text.{Text, text}
use dockade.TaskRegistry.Parents.{Time}
use dockade.TaskRegistry.Claims.{Claim, live, end}
use dockade.TaskRegistry.Plans.{
  Decision, Answer, Checked, bad, good, check_answers, Reached, unchecked, reaches, state_of,
  all_assumed, outcome,
}
use dockade.TaskRegistry.Plans.Rows.{Asked, Plan, current, answered, answer_each}
use dockade.TaskRegistry.Lifecycle.{no_live_claim, Store, Readings, refused, update_task}
use dockade.TaskRegistry.Lifecycle.Operator.{
  write_answers, approve_checked, approve_plan, approve, break_claim,
}
use dockade.TaskRegistry.Lifecycle.Kept.{IsSound, Leaves, end-IsFrom, registry-IsSound}
use dockade.TaskRegistry.Lifecycle.Written.{with_row-Leaves}
use dockade.TaskRegistry.Lifecycle.Moves.{if-Leaves, written-Leaves, touched-Leaves}
use dockade.TaskRegistry.Lifecycle.Operated.{answer-IsSound}

-- `outcome` names `open` or `proposed`.
outcome-refined :
    (decisions : List Decision) (answers : List Answer) (reached : Text)
    → outcome decisions answers ≡ reaches reached
    → (reached == text "refined") ≡ false
unfolding outcome
outcome-refined decisions answers reached h = by_checked (check_answers decisions answers) h
  where
    by_checked :
        (c : Checked) → state_of decisions c ≡ reaches reached → (reached == text "refined") ≡ false
    by_checked (bad why) h = absurd (unfold state_of in cc (h))
    by_checked (good given) h = by_all (all_assumed decisions given) (unfold state_of in h)
      where
        by_all :
            (b : Bool)
            → reaches (if b then text "open" else text "proposed") ≡ reaches reached
            → (reached == text "refined") ≡ false
        by_all true h =
            let same : text "open" ≡ reached = cc (h) in
            subst (λ x. (x == text "refined") ≡ false) same refl
        by_all false h =
            let same : text "proposed" ≡ reached = cc (h) in
            subst (λ x. (x == text "refined") ≡ false) same refl

write_answers-Leaves :
    (now : Time) (task : ℕ) (plan : Plan) (given : List Answer) (s : Store)
    → IsSound s
    → (r : Reached) → ((reached : Text) → r ≡ reaches reached → (reached == text "refined") ≡ false)
    → (rows : Option (List Asked)) → Leaves IsSound (write_answers now task plan given r rows s)
write_answers-Leaves now task plan given s sound (unchecked why) other rows = tt
write_answers-Leaves now task plan given s sound (reaches reached) other none = tt
write_answers-Leaves now task plan given s sound (reaches reached) other (some rows) =
    written-Leaves now task reached _ (answer-IsSound plan.id given s sound) (other reached refl)

approve_plan-Leaves :
    (now : Time) (task : ℕ) (answers : List Answer) (o : Option Plan) (s : Store)
    → IsSound s
    → Leaves IsSound (approve_plan now task answers o s)
approve_plan-Leaves now task answers none s sound = tt
approve_plan-Leaves now task answers (some plan) s sound =
    if-Leaves IsSound (answered plan) _ _ (λ h. by_checked (check_answers asked answers))
  where
    asked : List Decision
    asked = map (λ q. q.decision) plan.decisions

    by_checked : (c : Checked) → Leaves IsSound (approve_checked now task plan c s)
    by_checked (bad why) = tt
    by_checked (good given) =
        write_answers-Leaves now task plan given s sound (outcome asked given)
          (outcome-refined asked given) (answer_each plan.decisions given)

pub approve-Leaves :
    (now : Time) (task revision : ℕ) (answers : List Answer) (s : Store)
    → IsSound s
    → Leaves IsSound (approve now task revision answers s)
unfolding approve
approve-Leaves now task revision answers s sound = with_row-Leaves IsSound task s _ (λ row name e.
    if-Leaves IsSound (not (row.revision == revision)) _ _ (λ h.
      if-Leaves IsSound (not (row.state == text "refined")) _ _
        (λ k. approve_plan-Leaves now task answers (current task s.plans) s sound)))

pub break_claim-Leaves :
    (now : Readings) (task revision : ℕ) (s : Store)
    → IsSound s
    → Leaves IsSound (break_claim now task revision s)
unfolding break_claim
break_claim-Leaves now task revision s sound = with_row-Leaves IsSound task s _ (λ row name e.
    if-Leaves IsSound (not (row.revision == revision)) _ _
      (λ h. by_live (live now.looked task s.registry)))
  where
    by_live :
        (o : Option Claim)
        → Leaves IsSound (elim o [
          | none ↦ refused no_live_claim
          | some c ↦ update_task now.written task none (record s { registry = end task s.registry })
        ])
    by_live none = tt
    by_live (some c) =
        touched-Leaves now.written task _ (registry-IsSound s _ sound (end-IsFrom task s.registry))
