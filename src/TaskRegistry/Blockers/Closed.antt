-- ===== src/TaskRegistry/Blockers/Closed.antt =====
-- What the loop of `_waits_on` (task-registry/tasks.py) keeps while it has not met its target.
use mathlib.Core.List.{Memᴰ}
use dockade.Base.{
  ℕ, ◌≡◌, ◌≢◌, ◌⊎◌, inl, inr, true, false, ◌||◌, List, [], ◌∷◌, arith, ◌==◌, ==_iff, contains,
  nat_eq, Bool-cases,
}
use dockade.TaskRegistry.Blockers.{Edges, blockers_of, extend}
use dockade.TaskRegistry.Blockers.Reach.{
  Waits, here, blocked, blockers_of_complete, extend_kept, extend_pushed,
}

-- What has been followed is not the target, and its blockers are followed or in the frontier.
pub record IsClosed (edges : Edges) (target : ℕ) (seen frontier : List ℕ) : Type 0 where
  pub not_target : (x : ℕ) → contains x seen ≡ true → x ≢ target
  pub followed :
      (x y : ℕ)
      → contains x seen ≡ true
      → Memᴰ (x, y) edges
      → (contains y seen ≡ true) ⊎ Memᴰ y frontier

-- From a followed task nothing but followed tasks is reached.
pub closed_unreached :
    (edges : Edges) (target : ℕ) (seen : List ℕ)
    → IsClosed edges target seen []
    → {x : ℕ} → Waits edges target x
    → contains x seen ≡ true
    → ⊥
closed_unreached edges target seen c (here e) k = c.not_target _ k e
closed_unreached edges target seen c (blocked y m rest) k = elim (c.followed _ y k m) [
  | inl next ↦ closed_unreached edges target seen c rest next
  | inr none_there ↦ elim none_there [ ]
]

pub mem-contains : (x : ℕ) (xs : List ℕ) → Memᴰ x xs → contains x xs ≡ true
unfolding contains
mem-contains x (y ∷ xs) (Memᴰ.head e) = ground (arith, ==_iff x y)
mem-contains x (y ∷ xs) (Memᴰ.tail m) = ground (arith, mem-contains x xs m)
mem-contains x [] m = elim m [ ]

pub step-IsClosed :
    (edges : Edges) (target : ℕ) (seen : List ℕ) (current : ℕ) (frontier : List ℕ)
    → (current == target) ≡ false
    → IsClosed edges target seen (current ∷ frontier)
    → IsClosed edges target (current ∷ seen) (extend (blockers_of edges current) frontier)
unfolding contains
step-IsClosed edges target seen current frontier miss c = record {
  not_target =
      λ x k e. ground (arith, ==_iff x current, ==_iff current target, c.not_target x, k, e);
  followed = λ x y k m. elim (Bool-cases (x == current)) [
    | inl same ↦
        let here_it : x ≡ current = (==_iff x current).0 same in
        inr (
          extend_pushed (blockers_of edges current) frontier y
            (blockers_of_complete edges current y (rw here_it at m)))
    | inr other ↦ elim (c.followed x y (ground arith) m) [
      | inl old ↦ inl (ground arith)
      | inr there ↦ in_frontier y there
    ]
  ];
}
  where
    in_frontier :
        (y : ℕ)
        → Memᴰ y (current ∷ frontier)
        → ((y == current || contains y seen) ≡ true)
          ⊎ Memᴰ y (extend (blockers_of edges current) frontier)
    in_frontier y (Memᴰ.head e) = inl (ground (arith, ==_iff y current))
    in_frontier y (Memᴰ.tail m) = inr (extend_kept (blockers_of edges current) frontier y m)

pub old-IsClosed :
    (edges : Edges) (target : ℕ) (seen : List ℕ) (current : ℕ) (frontier : List ℕ)
    → contains current seen ≡ true
    → IsClosed edges target seen (current ∷ frontier)
    → IsClosed edges target seen frontier
old-IsClosed edges target seen current frontier old c = record {
  not_target = c.not_target;
  followed = λ x y k m. elim (c.followed x y k m) [
    | inl seen_it ↦ inl seen_it
    | inr there ↦ in_rest y there
  ];
}
  where
    in_rest : (y : ℕ) → Memᴰ y (current ∷ frontier) → (contains y seen ≡ true) ⊎ Memᴰ y frontier
    in_rest y (Memᴰ.head e) = inl (rw e old)
    in_rest y (Memᴰ.tail m) = inr m
