-- ===== src/TaskRegistry/Lifecycle/Added.antt =====
-- A new task, from `propose` of task-registry/agent_moves.py or `create` of
-- task-registry/operator_moves.py, fits: it has no plan.
use mathlib.Core.List.{Memᴰ}
use dockade.Base.{
  ℕ, suc, ◌≤◌, ◌<◌, ◌≡◌, refl, ap, ◌⊎◌, inl, inr, true, false, not, Option, none, some, List, [],
  ◌∷◌, ◌++◌, arith, ◌==◌, ==_iff, find, nat_eq, list_eq, option_eq,
}
use dockade.Base.Text.{Text, text}
use dockade.TaskRegistry.Parents
use dockade.TaskRegistry.Parents.{Time, Task, Table, row_of, check_parent}
use dockade.TaskRegistry.Fields.{storable}
use dockade.TaskRegistry.Blockers.{check_blockers}
use dockade.TaskRegistry.Plans.Rows.{Plan, current}
use dockade.TaskRegistry.Lifecycle.{Repo, Store, bad_parent, bad_blocker, done, is_agent}
use dockade.TaskRegistry.Lifecycle.Agents.{
  NewTask, when_passes, add_task, is_retired, with_new_repo, new_task, check_given, propose,
}
use dockade.TaskRegistry.Lifecycle.Fits.{fits}
use dockade.TaskRegistry.Lifecycle.Kept.{IsSound, Leaves}
use dockade.TaskRegistry.Lifecycle.Moves.{if-Leaves, when_passes-Leaves}

-- The id of a new task is in no row yet, so it has no plan.
no_plan_above :
    (bound task : ℕ) (plans : List Plan)
    → ((p : Plan) → Memᴰ p plans → p.task_id ≤ bound)
    → bound < task
    → current task plans ≡ none
unfolding current find
no_plan_above bound task [] below above = refl
no_plan_above bound task (p ∷ plans) below above =
    let first : p.task_id ≤ bound = below p (Memᴰ.head refl) in
    ground (
      arith,
      first,
      above,
      ==_iff p.task_id task,
      no_plan_above bound task plans (λ x m. below x (Memᴰ.tail m)) above,
    )

fits-unplanned : (state : Text) → (state == text "refined") ≡ false → fits state none ≡ true
unfolding fits
fits-unplanned state h = ground (arith, h)

mem_of_append_one {ℓ} :
    {A : Type ℓ} (xs : List A) (y x : A) → Memᴰ x (xs ++ y ∷ []) → Memᴰ x xs ⊎ (x ≡ y)
mem_of_append_one [] y x (Memᴰ.head e) = inr e
mem_of_append_one [] y x (Memᴰ.tail m) = elim m [ ]
mem_of_append_one (z ∷ xs) y x (Memᴰ.head e) = inl (Memᴰ.head e)
mem_of_append_one (z ∷ xs) y x (Memᴰ.tail m) = elim (mem_of_append_one xs y x m) [
  | inl deep ↦ inl (Memᴰ.tail deep)
  | inr e ↦ inr e
]

add_task-IsSound :
    (now : Time) (repo_id : ℕ) (state : Text) (given : NewTask) (s : Store)
    → IsSound s
    → (state == text "refined") ≡ false
    → IsSound (add_task now repo_id state given s)
unfolding add_task Parents.insert
add_task-IsSound now repo_id state given s sound other = record {
  fit = λ t m. elim (mem_of_append_one s.registry.tasks _ t m) [
    | inl old ↦ sound.fit t old
    | inr new ↦
        let id : t.id ≡ suc s.last_id = ap (λ (x : Task). x.id) new in
        let written : t.state ≡ state = ap (λ (x : Task). x.state) new in
        let unplanned : current (suc s.last_id) s.plans ≡ none =
          no_plan_above s.last_id (suc s.last_id) s.plans sound.plan_below (omega arith) in
        cc (fits-unplanned state other, unplanned, ap (λ x. current x s.plans) id, written)
  ];
  row_below = λ t m. elim (mem_of_append_one s.registry.tasks _ t m) [
    | inl old ↦ let below : t.id ≤ s.last_id = sound.row_below t old in omega (arith, below)
    | inr new ↦ let id : t.id ≡ suc s.last_id = ap (λ (x : Task). x.id) new in omega (arith, id)
  ];
  plan_below =
      λ p m. let below : p.task_id ≤ s.last_id = sound.plan_below p m in omega (arith, below);
}

pub new_task-Leaves :
    (now : Time) (repo state : Text) (given : NewTask) (s : Store)
    → IsSound s
    → (state == text "refined") ≡ false
    → Leaves IsSound (new_task now repo state given s)
unfolding new_task
new_task-Leaves now repo state given s sound other = by_repo (find (λ r. r.name == repo) s.repos)
  where
    in_repo :
        (repo_id : ℕ)
        → Leaves IsSound (
            when_passes bad_parent (check_parent s.registry.tasks repo_id given.parent none) (
              when_passes bad_blocker
                (check_blockers s.registry.tasks s.edges repo_id none given.blocked_by)
                (done 1 (add_task now repo_id state given s))))
    in_repo repo_id =
        when_passes-Leaves IsSound _ (check_parent s.registry.tasks repo_id given.parent none) _
          (λ h.
            when_passes-Leaves IsSound _
              (check_blockers s.registry.tasks s.edges repo_id none given.blocked_by) _
              (λ k. add_task-IsSound now repo_id state given s sound other))

    by_repo :
        (o : Option Repo)
        → Leaves IsSound (
            with_new_repo repo o (λ repo_id.
              when_passes bad_parent (check_parent s.registry.tasks repo_id given.parent none) (
                when_passes bad_blocker
                  (check_blockers s.registry.tasks s.edges repo_id none given.blocked_by)
                  (done 1 (add_task now repo_id state given s)))))
    by_repo none = tt
    by_repo (some r) =
        if-Leaves IsSound (not (storable repo)) _ _
          (λ h. if-Leaves IsSound (is_retired r) _ _ (λ k. in_repo r.id))

pub propose-Leaves :
    (now : Time) (agent repo : Text) (given : NewTask) (s : Store)
    → IsSound s
    → Leaves IsSound (propose now agent repo given s)
unfolding propose
propose-Leaves now agent repo given s sound = if-Leaves IsSound (not (is_agent agent)) _ _ (λ h.
    when_passes-Leaves IsSound _ (check_given given) _
      (λ k. new_task-Leaves now repo (text "proposed") given s sound refl))
