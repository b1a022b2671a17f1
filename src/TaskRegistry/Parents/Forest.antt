-- ===== src/TaskRegistry/Parents/Forest.antt =====
-- No task becomes its own ancestor: the moves of task-registry that write a parent.
use dockade.Base.{
  ℕ, suc, ◌+◌, ◌≡◌, refl, ◌∙◌, ◌≢◌, Bool, true, false, Option, none, some, [], ◌∷◌, ◌++◌, arith,
  if◌then◌else◌, ◌==◌, ==_iff, length, find, nat_eq, option_eq, Bool-cases, Option-cases, inl, inr,
}
use dockade.Base.Table.{update}
use dockade.Base.Text.{Text}
use dockade.TaskRegistry.Parents.{
  Time, Task, Table, row_of, is_id, Walk, reached_root, out_of_fuel, walk, Refused, bad_id,
  unfinished, walk_refusal, check_parent, insert, update_parent, moved, stale, refused,
  reparent_row, reparent_found, reparent,
}
use dockade.TaskRegistry.Parents.Chains.{walk-finishes, unseen-nil, Clear, root, up, walk-Clear}

-- Above every task there is a root.
abbrev pub IsForest : Table → Type 0
IsForest t = (a : ℕ) (r : Task) → row_of a t ≡ some r → Clear t none (some a)

walk_refusal-finished : (w : Walk) → w ≢ out_of_fuel → walk_refusal w ≢ some unfinished
walk_refusal-finished w h e = ground (arith, h)

walk_refusal-none : (w : Walk) → walk_refusal w ≡ none → w ≡ reached_root
walk_refusal-none w h = ground arith

-- The loop of `check_parent` ends on every table, one with a loop of parents included: the fuel is
-- enough.
pub check_parent-finishes :
    (t : Table) (repo_id : ℕ) (parent task : Option ℕ)
    → check_parent t repo_id parent task ≢ some unfinished
unfolding check_parent
check_parent-finishes t repo_id none task = λ e. cc
check_parent-finishes t repo_id (some p) task = ground (
  arith,
  Option-cases (row_of p t),
  walk_refusal-finished (walk (suc (length t)) t task [] (some p))
      (walk-finishes (suc (length t)) t task [] (some p) (omega (arith, unseen-nil t))),
)

-- A parent that passes has a row in the repo, and the task is not on its chain.
pub check_parent-Clear :
    (t : Table) (repo_id : ℕ) (parent task : Option ℕ)
    → check_parent t repo_id parent task ≡ none
    → Clear t task parent
unfolding check_parent
check_parent-Clear t repo_id none task h = root
check_parent-Clear t repo_id (some p) task h = walk-Clear (suc (length t)) t task [] (some p) (
    walk_refusal-none (walk (suc (length t)) t task [] (some p))
      (ground (arith, Option-cases (row_of p t))))

row_of-update_parent :
    (now : Time) (task a : ℕ) (parent : Option ℕ) (t : Table) (r : Task)
    → row_of a t ≡ some r
    → row_of a (update_parent now task parent t)
      ≡ some (
          if r.id == task
          then record r { parent_id = parent; revision = r.revision + 1; updated_at = now }
          else r)
unfolding update_parent update find
row_of-update_parent now task a parent [] r h = absurd (cc)
row_of-update_parent now task a parent (x ∷ t) r h =
    ground (arith, row_of-update_parent now task a parent t r)

row_of-before :
    (now : Time) (task a : ℕ) (parent : Option ℕ) (t : Table) (r : Task)
    → row_of a (update_parent now task parent t) ≡ some r
    → (s : Task) × (row_of a t ≡ some s)
unfolding update_parent update find
row_of-before now task a parent [] r h = absurd (cc)
row_of-before now task a parent (x ∷ t) r h = elim (Bool-cases (x.id == a)) [
  | inl hit ↦ (x, rw hit refl)
  | inr miss ↦
      let (s, there) = row_of-before now task a parent t r (ground arith) in (s, rw miss there)
]

row_of-id : (a : ℕ) (t : Table) (r : Task) → row_of a t ≡ some r → r.id ≡ a
unfolding find
row_of-id a [] r h = absurd (cc)
row_of-id a (x ∷ t) r h = ground (arith, row_of-id a t r, ==_iff x.id a)

module _ (now : Time) (task : ℕ) (parent : Option ℕ) (t : Table) where
  abbrev after : Table
  after = update_parent now task parent t

  -- A chain without the task stays.
  Clear-after : (x : Option ℕ) → Clear t (some task) x → Clear after none x
  Clear-after _ root = root
  Clear-after _ (up a r other there rest) =
      up a r (λ e. cc)
        (row_of-update_parent now task a parent t r there
          ∙ ground (arith, row_of-id a t r there, ==_iff r.id task))
        (Clear-after r.parent_id rest)

  -- A chain with it goes on along the new parent's.
  Clear-rerouted : Clear after none parent → (x : Option ℕ) → Clear t none x → Clear after none x
  Clear-rerouted above _ root = root
  Clear-rerouted above _ (up a r other there rest) =
      by_row (r.id == task) refl (Clear-rerouted above r.parent_id rest)
    where
      by_row :
          (b : Bool) → (r.id == task) ≡ b → Clear after none r.parent_id → Clear after none (some a)
      by_row true e kept =
          up a (record r { parent_id = parent; revision = r.revision + 1; updated_at = now })
            (λ q. cc) (row_of-update_parent now task a parent t r there ∙ rw e refl) above
      by_row false e kept =
          up a r (λ q. cc) (row_of-update_parent now task a parent t r there ∙ rw e refl) kept

  update_parent-IsForest : Clear t (some task) parent → IsForest t → IsForest after
  update_parent-IsForest clear forest a r h =
      let (s, there) = row_of-before now task a parent t r h in
      Clear-rerouted (Clear-after parent clear) (some a) (forest a s there)

reparent_row-cases :
    (now : Time) (row : Task) (parent : Option ℕ) (t : Table) (why : Option Refused)
    (P : Table → Type 0)
    → P t
    → (why ≡ none → P (update_parent now row.id parent t))
    → P (reparent_row now row parent t why).1
unfolding reparent_row
reparent_row-cases now row parent t (some w) P same new = same
reparent_row-cases now row parent t none P same new = new refl

reparent_found-IsForest :
    (now : Time) (revision : ℕ) (parent : Option ℕ) (t : Table) (found : Option Task)
    → IsForest t
    → IsForest (reparent_found now revision parent t found).1
unfolding reparent_found
reparent_found-IsForest now revision parent t none forest = forest
reparent_found-IsForest now revision parent t (some row) forest =
    elim (Bool-cases (row.revision == revision)) [
      | inr e ↦ rw e forest
      | inl e ↦ rw e (
          reparent_row-cases now row parent t (check_parent t row.repo_id parent (some row.id))
            IsForest forest
            (λ passes.
              update_parent-IsForest now row.id parent t
                (check_parent-Clear t row.repo_id parent (some row.id) passes) forest))
    ]

-- In a registry where every task has a root above it, and so none is its own ancestor, the
-- operator's `reparent` of any task to any parent, refused or not, leaves it so.
pub reparent-IsForest :
    (now : Time) (task revision : ℕ) (parent : Option ℕ) (t : Table)
    → IsForest t
    → IsForest (reparent now task revision parent t).1
unfolding reparent
reparent-IsForest now task revision parent t forest = elim (Bool-cases (is_id task)) [
  | inl e ↦ rw e (reparent_found-IsForest now revision parent t (row_of task t) forest)
  | inr e ↦ rw e forest
]

row_of-append :
    (t : Table) (new : Task) (a : ℕ)
    → row_of a (t ++ new ∷ [])
      ≡ (elim (row_of a t) [ none ↦ if new.id == a then some new else none | some r ↦ some r ])
unfolding find
row_of-append [] new a = refl
row_of-append (x ∷ t) new a = ground (arith, row_of-append t new a)

module _ (t : Table) (new : Task) (fresh : row_of new.id t ≡ none) where
  Clear-append : (x : Option ℕ) → Clear t none x → Clear (t ++ new ∷ []) none x
  Clear-append _ root = root
  Clear-append _ (up a r other there rest) =
      up a r other (row_of-append t new a ∙ rw there refl) (Clear-append r.parent_id rest)

  append-IsForest : Clear t none new.parent_id → IsForest t → IsForest (t ++ new ∷ [])
  append-IsForest above forest a r h = elim (Option-cases (row_of a t)) [
    | inr (s, there) ↦ Clear-append (some a) (forest a s there)
    | inl absent ↦
        up a new (λ q. cc) (ground (arith, row_of-append t new a))
          (Clear-append new.parent_id above)
  ]

-- In a registry where every task has a root above it, a new task leaves it so, if no row has its id
-- and its parent passes the check.
pub insert-IsForest :
    (now : Time) (id repo_id : ℕ) (title body state : Text) (severity kind : Option Text)
    (parent : Option ℕ) (t : Table)
    → row_of id t ≡ none
    → check_parent t repo_id parent none ≡ none
    → IsForest t
    → IsForest (insert now id repo_id title body state severity kind parent t)
unfolding insert
insert-IsForest now id repo_id title body state severity kind parent t fresh passes forest =
    append-IsForest t _ fresh (check_parent-Clear t repo_id parent none passes) forest

row_of-update_other :
    (now : Time) (task a : ℕ) (parent : Option ℕ) (t : Table)
    → a ≢ task
    → row_of a (update_parent now task parent t) ≡ row_of a t
unfolding update_parent update find
row_of-update_other now task a parent [] other = refl
row_of-update_other now task a parent (x ∷ t) other =
    ground (arith, row_of-update_other now task a parent t other, ==_iff x.id a, ==_iff x.id task)

-- What `reparent` of a found row leaves, if it succeeds.
abbrev pub IsMoved : Time → ℕ → ℕ → ℕ → Option ℕ → Table → Table → Type 0
IsMoved now task revision n parent t after =
    (row : Task) × (row_of task t ≡ some row)
    × (row.revision ≡ revision)
    × (n ≡ revision + 1)
    × Clear t (some task) parent
    × (row_of task after
        ≡ some (record row { parent_id = parent; revision = revision + 1; updated_at = now }))
    × ((a : ℕ) → a ≢ task → row_of a after ≡ row_of a t)

reparent_row-Moved :
    (now : Time) (task revision n : ℕ) (parent : Option ℕ) (t : Table) (row : Task)
    → row_of task t ≡ some row
    → row.revision ≡ revision
    → (why : Option Refused) → check_parent t row.repo_id parent (some row.id) ≡ why
    → (reparent_row now row parent t why).0 ≡ moved n
    → IsMoved now task revision n parent t (reparent_row now row parent t why).1
unfolding reparent_row
reparent_row-Moved now task revision n parent t row there same (some w) passes h = absurd (cc)
reparent_row-Moved now task revision n parent t row there same none passes h =
    let own : row.id ≡ task = row_of-id task t row there in
    (
      row,
      there,
      same,
      ground arith,
      rw (← own) (check_parent-Clear t row.repo_id parent (some row.id) passes),
      row_of-update_parent now row.id task parent t row there
          ∙ ground (arith, ==_iff row.id row.id),
      λ a other. row_of-update_other now row.id a parent t (λ e. other (e ∙ own)),
    )

reparent_found-Moved :
    (now : Time) (task revision n : ℕ) (parent : Option ℕ) (t : Table) (found : Option Task)
    → row_of task t ≡ found
    → (reparent_found now revision parent t found).0 ≡ moved n
    → IsMoved now task revision n parent t (reparent_found now revision parent t found).1
unfolding reparent_found
reparent_found-Moved now task revision n parent t none e h = absurd (cc)
reparent_found-Moved now task revision n parent t (some row) e h =
    elim (Bool-cases (row.revision == revision)) [
      | inl q ↦ rw q (
          reparent_row-Moved now task revision n parent t row e ((==_iff row.revision revision).0 q)
            (check_parent t row.repo_id parent (some row.id)) refl (rw q at h))
      | inr q ↦ absurd (not_stale (rw q at h))
    ]
  where
    not_stale : stale row.revision ≡ moved n → ⊥
    not_stale k = cc

-- What a successful `reparent` did: the revision was the one given and is one more now, the task
-- has the new parent, and the new parent's chain to its root does not meet the task; every other
-- task is as it was.
pub reparent-Moved :
    (now : Time) (task revision n : ℕ) (parent : Option ℕ) (t : Table)
    → (reparent now task revision parent t).0 ≡ moved n
    → IsMoved now task revision n parent t (reparent now task revision parent t).1
unfolding reparent
reparent-Moved now task revision n parent t h = elim (Bool-cases (is_id task)) [
  | inl e ↦
      rw e (reparent_found-Moved now task revision n parent t (row_of task t) refl (rw e at h))
  | inr e ↦ absurd (not_refused (rw e at h))
]
  where
    not_refused : refused bad_id ≡ moved n → ⊥
    not_refused k = cc
