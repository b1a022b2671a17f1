-- ===== src/TaskRegistry/Parents/Chains.antt =====
-- The walk of `check_parent` (task-registry/tasks.py): it ends, and what it finds.
use dockade.Base.{
  ℕ, zero, suc, ◌≤◌, ◌<◌, ◌≡◌, ◌≢◌, false, not, Option, none, some, List, [], ◌∷◌, arith, ==_iff,
  length, find, filter, contains, nat_eq, option_eq, Option-cases, inl, inr,
}
use dockade.TaskRegistry.Parents.{Task, Table, row_of, reached_root, out_of_fuel, walk}

-- The rows that the walk has not seen.
abbrev unseen : List ℕ → Table → ℕ
unseen seen t = length (filter (λ r. not (contains r.id seen)) t)

unseen_le : (seen : List ℕ) (a : ℕ) (t : Table) → unseen (a ∷ seen) t ≤ unseen seen t
unfolding filter contains
unseen_le seen a [] = omega arith
unseen_le seen a (r ∷ t) = ground (arith, unseen_le seen a t)

unseen_lt :
    (seen : List ℕ) (a : ℕ) (t : Table) (r : Task)
    → row_of a t ≡ some r
    → contains a seen ≡ false
    → unseen (a ∷ seen) t < unseen seen t
unfolding filter contains find
unseen_lt seen a [] r h new = absurd (cc)
unseen_lt seen a (x ∷ t) r h new =
    ground (arith, unseen_lt seen a t r, unseen_le seen a t, ==_iff x.id a)

pub unseen-nil : (t : Table) → unseen [] t ≤ length t
unfolding filter contains
unseen-nil [] = omega arith
unseen-nil (r ∷ t) = ground (arith, unseen-nil t)

pub walk-finishes :
    (fuel : ℕ) (t : Table) (task : Option ℕ) (seen : List ℕ) (a : Option ℕ)
    → unseen seen t < fuel
    → walk fuel t task seen a ≢ out_of_fuel
unfolding walk
walk-finishes fuel t task seen none lt = λ e. cc
walk-finishes zero t task seen (some a) lt = absurd (omega (arith, lt))
walk-finishes (suc fuel) t task seen (some a) lt = elim (Option-cases (row_of a t)) [
  | inl absent ↦ ground arith
  | inr (r, there) ↦
      ground (arith, walk-finishes fuel t task (a ∷ seen) r.parent_id, unseen_lt seen a t r there)
]

-- The chain of parents from `a` on comes to an end, and `task` is not on it.
pub data Clear (t : Table) (task : Option ℕ) : Option ℕ → Type 0 where
  root : Clear t task none
  up :
      (a : ℕ) (r : Task)
      → some a ≢ task
      → row_of a t ≡ some r
      → Clear t task r.parent_id
      → Clear t task (some a)

pub walk-Clear :
    (fuel : ℕ) (t : Table) (task : Option ℕ) (seen : List ℕ) (a : Option ℕ)
    → walk fuel t task seen a ≡ reached_root
    → Clear t task a
unfolding walk
walk-Clear fuel t task seen none h = root
walk-Clear zero t task seen (some a) h = absurd (cc)
walk-Clear (suc fuel) t task seen (some a) h = elim (Option-cases (row_of a t)) [
  | inl absent ↦ absurd (ground arith)
  | inr (r, there) ↦
      let other : some a ≢ task = ground (arith, ==_iff (some a) task) in
      up a r other there (walk-Clear fuel t task (a ∷ seen) r.parent_id (ground arith))
]
