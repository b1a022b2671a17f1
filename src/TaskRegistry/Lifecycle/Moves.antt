-- ===== src/TaskRegistry/Lifecycle/Moves.antt =====
-- Each move of task-registry/agent_moves.py and task-registry/operator_moves.py leaves tasks that fit
-- their plans.
use dockade.Base.{
  ℕ, ◌≡◌, refl, Bool, true, false, not, Option, none, some, List, if◌then◌else◌, ◌==◌, nat_eq,
  list_eq, option_eq,
}
use dockade.Base.Text.{Text, text}
use dockade.TaskRegistry.Parents.{Time, Task, row_of}
use dockade.TaskRegistry.Claims.{
  Claim, live, Holding, holds, no_claim, lapsed, held_by, wrong_token, check_holder, end,
}
use dockade.TaskRegistry.Fields.{check_text}
use dockade.TaskRegistry.Plans.Rows.{current}
use dockade.TaskRegistry.Lifecycle.{
  Store, Readings, MoveError, held, Moved, refused, update_task, is_agent,
}
use dockade.TaskRegistry.Lifecycle.Agents.{
  when_passes, ClaimMove, claim_plan, claim_work, claimed_into, ClaimSettings, Wanted, paths_or,
  take_task, claim_into, claim, EndMove, submit_plan_move, submit_work, send_back, release, needs,
  into, is_ready, when_held, Ender, close, note_max, is_required, end_claim,
}
use dockade.TaskRegistry.Lifecycle.Kept.{IsSound, Leaves, end-IsFrom, take-IsFrom, registry-IsSound}
use dockade.TaskRegistry.Lifecycle.Written.{
  same_state-IsSound, new_state-IsSound, update_task-Leaves, with_row-Leaves,
}

-- What follows a check is left only by what passes it.
module _ (P : Store → Type 0) where
  pub if-Leaves :
      (b : Bool) (why : MoveError) (m : Moved)
      → (b ≡ false → Leaves P m)
      → Leaves P (if b then refused why else m)
  if-Leaves true why m h = tt
  if-Leaves false why m h = h refl

  pub when_passes-Leaves {ℓ} :
      {E : Type ℓ} (because : E → MoveError) (o : Option E) (m : Moved)
      → (o ≡ none → Leaves P m)
      → Leaves P (when_passes because o m)
  when_passes-Leaves because none m h = h refl
  when_passes-Leaves because (some why) m h = tt

  when_held-Leaves : (h : Holding) (m : Moved) → Leaves P m → Leaves P (when_held h m)
  when_held-Leaves (holds c) m leaves = leaves
  when_held-Leaves lapsed m leaves = tt
  when_held-Leaves no_claim m leaves = tt
  when_held-Leaves (held_by holder until) m leaves = tt
  when_held-Leaves wrong_token m leaves = tt

  pub close-Leaves :
      (settings : ClaimSettings) (now : Readings) (who : Ender) (action : EndMove) (s : Store)
      → ((row : Task)
          → row_of who.task s.registry.tasks ≡ some row
          → Leaves P (
              update_task now.written who.task
                (into action)
                (record s { registry = end who.task s.registry })))
      → Leaves P (close settings now who action s)
  unfolding close
  close-Leaves settings now who action s leaves = with_row-Leaves P who.task s _ (λ row name e.
      if-Leaves (not (name == who.repo)) _ _ (λ k.
        when_held-Leaves
          (check_holder settings.hash now.looked who.task who.agent who.token s.registry) _
          (if-Leaves (not (is_ready (needs action) row.state)) _ _ (λ l. leaves row e))))

-- A state that is not `refined`, or none, is written without a look at the plan.
pub written-Leaves :
    (now : Time) (task : ℕ) (state : Text) (s : Store)
    → IsSound s
    → (state == text "refined") ≡ false
    → Leaves IsSound (update_task now task (some state) s)
written-Leaves now task state s sound other =
    update_task-Leaves IsSound now task (some state) s
      (λ opens. new_state-IsSound now task state s sound opens (λ e. absurd (cc (e, other))))

pub touched-Leaves :
    (now : Time) (task : ℕ) (s : Store) → IsSound s → Leaves IsSound (update_task now task none s)
touched-Leaves now task s sound =
    update_task-Leaves IsSound now task none s (λ opens. same_state-IsSound now task s sound)

-- The moves that take a claim.
chosen :
    (b : Bool) (state reached : Text)
    → (if b then some state else none) ≡ some reached
    → reached ≡ state
chosen true state reached h = cc (h)
chosen false state reached h = absurd (cc (h))

claimed_into-refined :
    (action : ClaimMove) (state reached : Text)
    → claimed_into action state ≡ some reached
    → (reached == text "refined") ≡ false
unfolding claimed_into
claimed_into-refined claim_plan state reached h = rw (chosen _ _ reached h) refl
claimed_into-refined claim_work state reached h = rw (chosen _ _ reached h) refl

take_task-Leaves :
    (settings : ClaimSettings) (now : Readings) (token : Text) (task : ℕ) (wanted : Wanted)
    → (state : Text) (o : Option (List Text)) (s : Store) → IsSound s
    → (state == text "refined") ≡ false
    → Leaves IsSound (take_task settings now token task wanted state o s)
take_task-Leaves settings now token task wanted state none s sound other = tt
take_task-Leaves settings now token task wanted state (some paths) s sound other =
    written-Leaves now.written task state _
      (registry-IsSound s _ sound (
        take-IsFrom settings.claim_seconds settings.hash now.swept now.taken token task wanted.agent
          wanted.branch paths s.registry))
      other

claim_into-Leaves :
    (settings : ClaimSettings) (now : Readings) (token : Text) (task : ℕ) (wanted : Wanted)
    → (state : Text) (o : Option Text) (s : Store) → IsSound s
    → ((reached : Text) → o ≡ some reached → (reached == text "refined") ≡ false)
    → Leaves IsSound (claim_into settings now token task wanted state o s)
claim_into-Leaves settings now token task wanted state none s sound other = tt
claim_into-Leaves settings now token task wanted state (some reached) s sound other =
    by_live (live now.looked task s.registry)
  where
    by_live :
        (o : Option Claim)
        → Leaves IsSound (elim o [
          | some c ↦ refused (held c.holder c.expires_at)
          | none ↦
              take_task settings now token task wanted reached
                (paths_or wanted.paths (current task s.plans))
                s
        ])
    by_live (some c) = tt
    by_live none =
        take_task-Leaves settings now token task wanted reached
          (paths_or wanted.paths (current task s.plans)) s sound (other reached refl)

pub claim-Leaves :
    (settings : ClaimSettings) (now : Readings) (token : Text) (task : ℕ) (wanted : Wanted)
    → (action : ClaimMove) (s : Store) → IsSound s
    → Leaves IsSound (claim settings now token task wanted action s)
unfolding claim
claim-Leaves settings now token task wanted action s sound =
    if-Leaves IsSound (not (is_agent wanted.agent)) _ _ (λ h.
      with_row-Leaves IsSound task s _ (λ row name e.
        if-Leaves IsSound (not (name == wanted.repo)) _ _ (λ k.
          claim_into-Leaves settings now token task wanted row.state (claimed_into action row.state)
            s sound (claimed_into-refined action row.state))))

-- The moves that end one.
pub end_claim-Leaves :
    (settings : ClaimSettings) (now : Readings) (who : Ender) (action : EndMove)
    (note : Option Text)
    → (s : Store) → (action ≡ submit_plan_move → ⊥)
    → IsSound s
    → Leaves IsSound (end_claim settings now who action note s)
unfolding end_claim
end_claim-Leaves settings now who action note s no_plan sound =
    if-Leaves IsSound (not (is_agent who.agent)) _ _ (λ h.
      when_passes-Leaves IsSound _ (check_text note note_max (is_required action)) _
        (λ k. close-Leaves IsSound settings now who action s (λ row e. by_action action no_plan)))
  where
    ended : Store
    ended = record s { registry = end who.task s.registry }

    ended-IsSound : IsSound ended
    ended-IsSound = registry-IsSound s _ sound (end-IsFrom who.task s.registry)

    by_action :
        (action : EndMove)
        → (action ≡ submit_plan_move → ⊥)
        → Leaves IsSound (update_task now.written who.task (into action) ended)
    by_action submit_plan_move no_plan = absurd (no_plan refl)
    by_action submit_work no_plan =
        written-Leaves now.written who.task (text "landing") ended ended-IsSound refl
    by_action send_back no_plan =
        written-Leaves now.written who.task (text "proposed") ended ended-IsSound refl
    by_action release no_plan = touched-Leaves now.written who.task ended ended-IsSound
