-- ===== src/TaskRegistry/Blockers/Tests.antt =====
-- Three tasks and their blockers (task-registry/tasks.py): a chain, and a ring in which the search
-- comes back to where it has been.
use mathlib.Core.List.{Memᴰ}
use dockade.Base.{
  ℕ, ◌≡◌, refl, ap, ◌↔◌, Bool, true, false, none, some, [], ◌∷◌, arith, filter, find, contains,
  nat_eq, option_eq,
}
use dockade.TaskRegistry.Parents.{Table}
use dockade.TaskRegistry.Parents.Tests.{task_under}
use dockade.TaskRegistry.Blockers.{
  Edges, blockers_of, extend, search, waits_on, itself, already_waits, not_in_repo, check_blocker,
  check_blockers, once, set_blockers,
}
use dockade.TaskRegistry.Blockers.Reach.{Waits, here, blocked}
use dockade.TaskRegistry.Blockers.Search.{waits_on-exact}
use dockade.TaskRegistry.Blockers.Acyclic.{IsAcyclic, checked_blockers-IsAcyclic}

abbrev three : Table
three = task_under 1 none ∷ task_under 2 none ∷ task_under 3 none ∷ []

-- The second waits on the third.
abbrev one_row : Edges
one_row = (2, 3) ∷ []

abbrev ring_rows : Edges
ring_rows = (1, 2) ∷ (2, 1) ∷ []

all_steps : Unit {0}
unfolding search waits_on blockers_of extend check_blocker check_blockers once set_blockers filter
    contains find
all_steps = tt

ring_ends : waits_on ring_rows 1 3 ≡ some false
unfolding all_steps
ring_ends = refl

waiting_refused : check_blockers three one_row 1 (some 3) (1 ∷ 2 ∷ []) ≡ some (already_waits 2)
unfolding all_steps
waiting_refused = refl

own_refused : check_blockers three one_row 1 (some 3) (3 ∷ []) ≡ some (itself 3)
unfolding all_steps
own_refused = refl

stranger_refused : check_blockers three one_row 1 none (1 ∷ 4 ∷ []) ≡ some (not_in_repo 4)
unfolding all_steps
stranger_refused = refl

chain_passes : check_blockers three one_row 1 (some 1) (3 ∷ 2 ∷ 3 ∷ []) ≡ none
unfolding all_steps
chain_passes = refl

each_once : set_blockers 1 (3 ∷ 2 ∷ 3 ∷ []) one_row ≡ ((2, 3) ∷ (1, 3) ∷ (1, 2) ∷ [])
unfolding all_steps
each_once = refl

from_third : Waits one_row 2 3 → ⊥
from_third (here e) = absurd (omega (arith, e))
from_third (blocked y (Memᴰ.head e) rest) =
    let three_is_two : 3 ≡ 2 = ap (λ (p : ℕ × ℕ). p.0) e in absurd (omega (arith, three_is_two))
from_third (blocked y (Memᴰ.tail m) rest) = elim m [ ]

one_row-IsAcyclic : IsAcyclic one_row
one_row-IsAcyclic x y (Memᴰ.head e) w =
    from_third (rw (ap (λ (p : ℕ × ℕ). p.0) e, ap (λ (p : ℕ × ℕ). p.1) e) at w)
one_row-IsAcyclic x y (Memᴰ.tail m) w = elim m [ ]

waits_on-exact_example :
    (b : Bool) × (waits_on ring_rows 1 3 ≡ some b) × ((b ≡ true) ↔ Waits ring_rows 3 1)
waits_on-exact_example = waits_on-exact ring_rows 1 3

checked_blockers-IsAcyclic_example : IsAcyclic (set_blockers 1 (3 ∷ 2 ∷ 3 ∷ []) one_row)
checked_blockers-IsAcyclic_example =
    checked_blockers-IsAcyclic three one_row 1 1 (3 ∷ 2 ∷ 3 ∷ []) one_row-IsAcyclic chain_passes
