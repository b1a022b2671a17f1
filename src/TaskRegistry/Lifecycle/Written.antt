-- ===== src/TaskRegistry/Lifecycle/Written.antt =====
-- The write of a task's state keeps tasks and plans fitting (task-registry/tasks.py, `update`).
use mathlib.Core.List.{Memᴰ}
use dockade.Base.{
  ℕ, ◌+◌, ◌≤◌, ◌≡◌, refl, ap, ◌∙◌, ◌⊎◌, inl, inr, true, false, ◌&&◌, not, Option, none, some, List,
  arith, if◌then◌else◌, ◌==◌, ==_iff, find, nat_eq, list_eq, option_eq, Bool-cases,
}
use dockade.Base.Text.{Text, text}
use dockade.TaskRegistry.Parents.{Time, Task, row_of, is_id}
use dockade.TaskRegistry.Claims.{Registry, or_old}
use dockade.TaskRegistry.Plans.Rows.{Plan, is_set, current, supersede}
use dockade.TaskRegistry.Lifecycle.{
  Repo, Store, Moved, opens_unanswered, set_row, set_state, update_task, with_repo, with_found,
  with_row,
}
use dockade.TaskRegistry.Lifecycle.Operator.{has_plan}
use dockade.TaskRegistry.Lifecycle.Fits.{fits, current-supersede_same, current-supersede_other}
use dockade.TaskRegistry.Lifecycle.Kept.{IsSound, Leaves, mem_of_update}

-- What `update` writes to a row, or leaves of it.
abbrev pub IsSetRow : ℕ → Option Text → List Task → Task → Type 0
IsSetRow task state old t =
    (Memᴰ t old × ((t.id == task) ≡ false))
    ⊎ ((u : Task) × Memᴰ u old
        × ((u.id == task) ≡ true)
        × (t.id ≡ u.id)
        × (t.state ≡ or_old state u.state))

pub set_row-IsSetRow :
    (now : Time) (task : ℕ) (state : Option Text) (r : Registry) (t : Task)
    → Memᴰ t (set_row now task state r).tasks
    → IsSetRow task state r.tasks t
unfolding set_row
set_row-IsSetRow now task state r t m =
    elim (mem_of_update (λ t. t.id == task)
      (λ t. record t { state = or_old state t.state; revision = t.revision + 1; updated_at = now })
      r.tasks t m) [
        | inl k ↦ inl (k.0, k.1)
        | inr k ↦ inr (k.0, k.1, k.2, ap (λ (x : Task). x.id) k.3, ap (λ (x : Task). x.state) k.3)
      ]

-- Superseding changes no plan's task.
supersede-below :
    (now : Time) (task bound : ℕ) (plans : List Plan)
    → ((p : Plan) → Memᴰ p plans → p.task_id ≤ bound)
    → (p : Plan) → Memᴰ p (supersede now task plans)
    → p.task_id ≤ bound
unfolding supersede
supersede-below now task bound plans below p m =
    elim (mem_of_update (λ p. p.task_id == task && not (is_set p.superseded_at))
      (λ p. record p { superseded_at = some now }) plans p m) [
        | inl k ↦ below p k.0
        | inr k ↦ rw (ap (λ (x : Plan). x.task_id) k.3) (below k.0 k.1)
      ]

refined_not_proposed :
    (state : Text) → (state == text "refined") ≡ true → (state == text "proposed") ≡ false
refined_not_proposed state h = rw ((==_iff state (text "refined")).0 h) refl

fits-proposed : (state : Text) → (state == text "proposed") ≡ true → fits state none ≡ true
unfolding fits
fits-proposed state h = rw ((==_iff state (text "proposed")).0 h) refl

-- The new state of the task fits its plan.
module _ (now : Time) (task : ℕ) (state : Text) (plans : List Plan) where
  abbrev pub new_plans : List Plan
  new_plans = if some state == some (text "proposed") then supersede now task plans else plans

  fits-new_plans :
      opens_unanswered task (some state) plans ≡ false
      → ((state == text "refined") ≡ true → has_plan (current task plans) ≡ true)
      → fits state (current task new_plans) ≡ true
  fits-new_plans opens planned = elim (Bool-cases (state == text "proposed")) [
    | inl e ↦ rw (e, current-supersede_same now task plans) (fits-proposed state e)
    | inr e ↦ rw e (unfold fits in ground (arith, opens, planned, e))
  ]

  new_plans_other :
      (other : ℕ) → (other == task) ≡ false → current other new_plans ≡ current other plans
  new_plans_other other h = elim (Bool-cases (state == text "proposed")) [
    | inl e ↦ rw e (current-supersede_other now task other plans h)
    | inr e ↦ rw e refl
  ]

  new_plans_below :
      (bound : ℕ)
      → ((p : Plan) → Memᴰ p plans → p.task_id ≤ bound)
      → (p : Plan) → Memᴰ p new_plans
      → p.task_id ≤ bound
  new_plans_below bound below p = elim (Bool-cases (state == text "proposed")) [
    | inl e ↦ rw e (supersede-below now task bound plans below p)
    | inr e ↦ rw e (below p)
  ]

-- A change that leaves the state.
pub same_state-IsSound :
    (now : Time) (task : ℕ) (s : Store) → IsSound s → IsSound (set_state now task none s)
unfolding set_state
same_state-IsSound now task s sound = record {
  fit = λ t m. elim (set_row-IsSetRow now task none s.registry t m) [
    | inl k ↦ sound.fit t k.0
    | inr k ↦ cc (sound.fit k.0 k.1, ap (λ x. current x s.plans) k.3, k.4)
  ];
  row_below = λ t m. elim (set_row-IsSetRow now task none s.registry t m) [
    | inl k ↦ sound.row_below t k.0
    | inr k ↦ rw k.3 (sound.row_below k.0 k.1)
  ];
  plan_below = sound.plan_below;
}

pub new_state-IsSound :
    (now : Time) (task : ℕ) (state : Text) (s : Store)
    → IsSound s
    → opens_unanswered task (some state) s.plans ≡ false
    → ((state == text "refined") ≡ true → has_plan (current task s.plans) ≡ true)
    → IsSound (set_state now task (some state) s)
unfolding set_state
new_state-IsSound now task state s sound opens planned = record {
  fit = λ t m. elim (set_row-IsSetRow now task (some state) s.registry t m) [
    | inl k ↦ cc (sound.fit t k.0, new_plans_other now task state s.plans t.id k.1)
    | inr k ↦
        let same : t.id ≡ task = k.3 ∙ (==_iff _ _).0 k.2 in
        cc (
          fits-new_plans now task state s.plans opens planned,
          ap (λ x. current x (new_plans now task state s.plans)) same,
          k.4,
        )
  ];
  row_below = λ t m. elim (set_row-IsSetRow now task (some state) s.registry t m) [
    | inl k ↦ sound.row_below t k.0
    | inr k ↦ rw k.3 (sound.row_below k.0 k.1)
  ];
  plan_below = new_plans_below now task state s.plans s.last_id sound.plan_below;
}

-- What is left by the write, when it is not refused.
pub update_task-Leaves :
    (P : Store → Type 0) (now : Time) (task : ℕ) (state : Option Text) (s : Store)
    → (opens_unanswered task state s.plans ≡ false → P (set_state now task state s))
    → Leaves P (update_task now task state s)
unfolding update_task
update_task-Leaves P now task state s kept =
    elim (Bool-cases (opens_unanswered task state s.plans)) [
      | inl e ↦ rw e tt
      | inr e ↦ rw e (kept e)
    ]

pub with_row-Leaves :
    (P : Store → Type 0) (task : ℕ) (s : Store) (k : Task → Text → Moved)
    → ((row : Task) (name : Text) → row_of task s.registry.tasks ≡ some row → Leaves P (k row name))
    → Leaves P (with_row task s k)
unfolding with_row
with_row-Leaves P task s k leaves = elim (Bool-cases (is_id task)) [
  | inl e ↦ rw e (by_row (row_of task s.registry.tasks) refl)
  | inr e ↦ rw e tt
]
  where
    by_repo :
        (row : Task)
        → row_of task s.registry.tasks ≡ some row
        → (o : Option Repo) → Leaves P (with_repo o row k)
    by_repo row e none = tt
    by_repo row e (some repo) = leaves row repo.name e

    by_row :
        (o : Option Task) → row_of task s.registry.tasks ≡ o → Leaves P (with_found s.repos o k)
    by_row none e = tt
    by_row (some row) e = by_repo row e (find (λ r. r.id == row.repo_id) s.repos)
