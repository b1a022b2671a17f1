-- ===== src/TaskRegistry/Parents/Tests.antt =====
-- A small registry of tasks (task-registry/tasks.py), one of them under another, and one loop.
use dockade.Base.{
  ℕ, ◌≡◌, refl, subst, ◌≢◌, none, some, Option, [], ◌∷◌, arith, ==_iff, find, contains, nat_eq,
  option_eq, Bool-cases, inl, inr, ◌==◌,
}
use dockade.Base.Table.{update}
use dockade.Base.Text.{text}
use dockade.TaskRegistry.Parents.{
  Task, Table, walk, unfinished, check_parent, update_parent, moved, refused, own_ancestor,
  parents_loop, reparent_row, reparent_found, reparent,
}
use dockade.TaskRegistry.Parents.Chains.{Clear, root, up}
use dockade.TaskRegistry.Parents.Forest.{
  IsForest, check_parent-finishes, reparent-IsForest, IsMoved, reparent-Moved,
}

abbrev pub task_under : ℕ → Option ℕ → Task
task_under id parent = record {
  id = id;
  repo_id = 1;
  title = text "t";
  body = text "b";
  state = text "open";
  severity = none;
  kind = none;
  parent_id = parent;
  revision = 1;
  created_at = 10;
  updated_at = 10;
}

abbrev chain : Table
chain = task_under 1 none ∷ task_under 2 (some 1) ∷ task_under 3 none ∷ []

abbrev ring : Table
ring = task_under 1 (some 2) ∷ task_under 2 (some 1) ∷ task_under 3 none ∷ []

-- What a run computes through: naming this opens all of it.
all_steps : Unit {0}
unfolding reparent reparent_found reparent_row check_parent walk update_parent update find contains
all_steps = tt

own_child : (reparent 20 1 1 (some 2) chain).0 ≡ refused own_ancestor
unfolding all_steps
own_child = refl

ring_found : check_parent ring 1 (some 1) (some 3) ≡ some parents_loop
unfolding all_steps
ring_found = refl

third_moves : (reparent 20 3 1 (some 2) chain).0 ≡ moved 2
unfolding all_steps
third_moves = refl

first-Clear : Clear chain none (some 1)
unfolding find
first-Clear = up 1 (task_under 1 none) (λ e. cc) refl root

second-Clear : Clear chain none (some 2)
unfolding find
second-Clear = up 2 (task_under 2 (some 1)) (λ e. cc) refl first-Clear

third-Clear : Clear chain none (some 3)
unfolding find
third-Clear = up 3 (task_under 3 none) (λ e. cc) refl root

chain-IsForest : IsForest chain
unfolding find
chain-IsForest a r h = elim (Bool-cases (1 == a)) [
  | inl one ↦ subst (λ x. Clear chain none (some x)) ((==_iff 1 a).0 one) first-Clear
  | inr e ↦ elim (Bool-cases (2 == a)) [
    | inl two ↦ subst (λ x. Clear chain none (some x)) ((==_iff 2 a).0 two) second-Clear
    | inr f ↦ elim (Bool-cases (3 == a)) [
      | inl three ↦ subst (λ x. Clear chain none (some x)) ((==_iff 3 a).0 three) third-Clear
      | inr g ↦ absurd (ground arith)
    ]
  ]
]

check_parent-finishes_example : check_parent ring 1 (some 1) (some 3) ≢ some unfinished
check_parent-finishes_example = check_parent-finishes ring 1 (some 1) (some 3)

reparent-IsForest_example : IsForest (reparent 20 3 1 (some 2) chain).1
reparent-IsForest_example = reparent-IsForest 20 3 1 (some 2) chain chain-IsForest

reparent-Moved_example : IsMoved 20 3 1 2 (some 2) chain (reparent 20 3 1 (some 2) chain).1
reparent-Moved_example = reparent-Moved 20 3 1 2 (some 2) chain third_moves
