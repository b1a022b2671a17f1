-- ===== src/TaskRegistry/Lifecycle/Planned.antt =====
-- A submitted plan (task-registry/agent_moves.py) leaves tasks that fit their plans.
use mathlib.Core.List.{Memᴰ}
use dockade.Base.{
  ℕ, ◌≤◌, ◌≡◌, refl, sym, ap, ◌∙◌, inl, inr, true, false, not, Option, some, List, [], ◌∷◌, arith,
  ◌==◌, ==_iff, find, nat_eq, list_eq, option_eq, Bool-cases,
}
use dockade.Base.Text.{Text, text}
use dockade.TaskRegistry.Parents.{Time, Task, Table, row_of}
use dockade.TaskRegistry.Claims.{end}
use dockade.TaskRegistry.Fields.{check_text}
use dockade.TaskRegistry.Plans.{Decision}
use dockade.TaskRegistry.Plans.Rows.{Plan, PlanFields, check, insert}
use dockade.TaskRegistry.Lifecycle.{Store, Readings, Moved, refused, done, set_state, is_agent}
use dockade.TaskRegistry.Lifecycle.Agents.{
  ClaimSettings, submit_plan_move, Ender, close, note_max, then_insert, submit_plan,
}
use dockade.TaskRegistry.Lifecycle.Operator.{has_plan}
use dockade.TaskRegistry.Lifecycle.Fits.{fits, current-insert_same, current-insert_other}
use dockade.TaskRegistry.Lifecycle.Kept.{IsSound, Leaves, end-IsFrom, registry-IsSound}
use dockade.TaskRegistry.Lifecycle.Written.{set_row-IsSetRow, update_task-Leaves}
use dockade.TaskRegistry.Lifecycle.Moves.{if-Leaves, when_passes-Leaves, close-Leaves}

pub mem_of_find :
    (task : ℕ) (rows : Table) (row : Task)
    → row_of task rows ≡ some row
    → Memᴰ row rows × (row.id ≡ task)
unfolding find
mem_of_find task [] row h = absurd (cc (h))
mem_of_find task (r ∷ rows) row h = elim (Bool-cases (r.id == task)) [
  | inl e ↦
      let same : r ≡ row = ground (arith, h, e) in
      (Memᴰ.head (sym same), sym (ap (λ (x : Task). x.id) same) ∙ (==_iff r.id task).0 e)
  | inr e ↦
      let deep = mem_of_find task rows row (ground (arith, h, e)) in (Memᴰ.tail deep.0, deep.1)
]

fits-refined : (plan : Option Plan) → has_plan plan ≡ true → fits (text "refined") plan ≡ true
unfolding fits
fits-refined plan h = rw h refl

-- A store that is sound as soon as the task has its plan.
abbrev IsReady : ℕ → Text → PlanFields → List Text → List Decision → Store → Type 0
IsReady task author fields paths decisions s =
    (now : Time) (revision : ℕ)
    → IsSound (record s { plans = insert now task revision author fields paths decisions s.plans })

insert-below :
    (now : Time) (task revision : ℕ) (author : Text) (fields : PlanFields) (paths : List Text)
    → (decisions : List Decision) (plans : List Plan) (bound : ℕ) → task ≤ bound
    → ((p : Plan) → Memᴰ p plans → p.task_id ≤ bound)
    → (p : Plan) → Memᴰ p (insert now task revision author fields paths decisions plans)
    → p.task_id ≤ bound
unfolding insert
insert-below now task revision author fields paths decisions plans bound low below p (Memᴰ.head e) =
    rw (ap (λ (x : Plan). x.task_id) e) low
insert-below now task revision author fields paths decisions plans bound low below p (Memᴰ.tail m) =
    below p m

refined-IsReady :
    (written : Time) (task : ℕ) (author : Text) (fields : PlanFields) (paths : List Text)
    → (decisions : List Decision) (s : Store) → IsSound s
    → task ≤ s.last_id
    → IsReady task author fields paths decisions (set_state written task (some (text "refined")) s)
unfolding set_state
refined-IsReady written task author fields paths decisions s sound below now revision = record {
  fit = λ t m. elim (set_row-IsSetRow written task (some (text "refined")) s.registry t m) [
    | inl k ↦ cc (
      sound.fit t k.0,
      current-insert_other now task revision author fields paths decisions s.plans t.id k.1,
    )
    | inr k ↦
        let same : t.id ≡ task = k.3 ∙ (==_iff _ _).0 k.2 in
        rw (same, k.4)
          (fits-refined _
            (current-insert_same now task revision author fields paths decisions s.plans))
  ];
  row_below = λ t m. elim (set_row-IsSetRow written task (some (text "refined")) s.registry t m) [
    | inl k ↦ sound.row_below t k.0
    | inr k ↦ rw k.3 (sound.row_below k.0 k.1)
  ];
  plan_below =
      insert-below now task revision author fields paths decisions s.plans s.last_id below
        sound.plan_below;
}

then_insert-Leaves :
    (now : Time) (who : Ender) (fields : PlanFields) (paths : List Text) (decisions : List Decision)
    → (m : Moved) → Leaves (IsReady who.task who.agent fields paths decisions) m
    → Leaves IsSound (then_insert now who fields paths decisions m)
then_insert-Leaves now who fields paths decisions (refused why) ready = tt
then_insert-Leaves now who fields paths decisions (done revision s) ready = ready now revision

pub submit_plan-Leaves :
    (settings : ClaimSettings) (now : Readings) (later : Time) (who : Ender) (fields : PlanFields)
    → (paths : List Text) (decisions : List Decision) (note : Option Text) (s : Store) → IsSound s
    → Leaves IsSound (submit_plan settings now later who fields paths decisions note s)
unfolding submit_plan
submit_plan-Leaves settings now later who fields paths decisions note s sound =
    if-Leaves IsSound (not (is_agent who.agent)) _ _ (λ h.
      when_passes-Leaves IsSound _ (check fields paths) _ (λ k.
        when_passes-Leaves IsSound _ (check_text note note_max false) _ (λ l.
          then_insert-Leaves later who fields paths decisions
            (close settings now who submit_plan_move s) closed)))
  where
    ended : Store
    ended = record s { registry = end who.task s.registry }

    ended-IsSound : IsSound ended
    ended-IsSound = registry-IsSound s _ sound (end-IsFrom who.task s.registry)

    closed :
        Leaves
          (IsReady who.task who.agent fields paths decisions)
          (close settings now who submit_plan_move s)
    closed = close-Leaves _ settings now who submit_plan_move s (λ row e.
        let found = mem_of_find who.task s.registry.tasks row e in
        update_task-Leaves _ now.written who.task (some (text "refined")) ended (λ opens.
          refined-IsReady now.written who.task who.agent fields paths decisions ended ended-IsSound
            (rw (← found.1) (sound.row_below row found.0))))
