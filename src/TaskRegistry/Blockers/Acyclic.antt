-- ===== src/TaskRegistry/Blockers/Acyclic.antt =====
-- `check_blockers` with `set_blockers` (task-registry/tasks.py) never makes a task wait on itself.
use mathlib.Core.List.{Memᴰ}
use dockade.Base.{
  ℕ, ◌≡◌, ap, ◌≢◌, ◌⊎◌, inl, inr, true, not, none, some, List, [], ◌∷◌, ◌++◌, arith, ==_iff, filter,
  contains, map, nat_eq, option_eq, Bool-cases,
}
use dockade.Base.Members.{mem_of_mem-filter}
use dockade.TaskRegistry.Parents.{Table}
use dockade.TaskRegistry.Blockers.{Edges, is_of, check_blocker, check_blockers, once, set_blockers}
use dockade.TaskRegistry.Blockers.Reach.{Waits, Waits-trans, here, blocked}
use dockade.TaskRegistry.Blockers.Search.{waits_on-exact}

-- No task waits on itself through one blocker or more.
abbrev pub IsAcyclic : Edges → Type 0
IsAcyclic edges = (x y : ℕ) → Memᴰ (x, y) edges → Waits edges x y → ⊥

mem_of_append {ℓ} :
    {A : Type ℓ} (xs ys : List A) (x : A) → Memᴰ x (xs ++ ys) → Memᴰ x xs ⊎ Memᴰ x ys
mem_of_append [] ys x m = inr m
mem_of_append (y ∷ xs) ys x (Memᴰ.head e) = inl (Memᴰ.head e)
mem_of_append (y ∷ xs) ys x (Memᴰ.tail m) = elim (mem_of_append xs ys x m) [
  | inl deep ↦ inl (Memᴰ.tail deep)
  | inr there ↦ inr there
]

mem_of_once : (seen bs : List ℕ) (b : ℕ) → Memᴰ b (once seen bs) → Memᴰ b bs
unfolding once
mem_of_once seen [] b m = elim m [ ]
mem_of_once seen (c ∷ bs) b m = elim (Bool-cases (contains c seen)) [
  | inl old ↦ Memᴰ.tail (mem_of_once seen bs b (rw old at m))
  | inr new ↦ first (mem_of_once (c ∷ seen) bs b) (rw new at m)
]
  where
    first :
        (Memᴰ b (once (c ∷ seen) bs) → Memᴰ b bs)
        → Memᴰ b (c ∷ once (c ∷ seen) bs)
        → Memᴰ b (c ∷ bs)
    first deep (Memᴰ.head e) = Memᴰ.head e
    first deep (Memᴰ.tail m) = Memᴰ.tail (deep m)

mem_of_map_pair :
    (task : ℕ) (bs : List ℕ) (x y : ℕ)
    → Memᴰ {A = ℕ × ℕ} (x, y) (map (λ b. (task, b)) bs)
    → (x ≡ task) × Memᴰ y bs
mem_of_map_pair task [] x y m = elim m [ ]
mem_of_map_pair task (b ∷ bs) x y (Memᴰ.head e) =
    (ap (λ (p : ℕ × ℕ). p.0) e, Memᴰ.head (ap (λ (p : ℕ × ℕ). p.1) e))
mem_of_map_pair task (b ∷ bs) x y (Memᴰ.tail m) =
    let (same, deep) = mem_of_map_pair task bs x y m in (same, Memᴰ.tail deep)

module _ (task : ℕ) (blockers : List ℕ) (edges : Edges) where
  -- A row after the write is one that was there, of another task, or a blocker of this one.
  row_after :
      (x y : ℕ)
      → Memᴰ (x, y) (set_blockers task blockers edges)
      → (Memᴰ (x, y) edges × (x ≢ task)) ⊎ ((x ≡ task) × Memᴰ y blockers)
  unfolding set_blockers
  row_after x y m =
      elim (mem_of_append (filter (λ e. not (is_of task e)) edges)
        (map (λ b. (task, b)) (once [] blockers)) (x, y) m) [
          | inl old ↦
              let (there, other) = mem_of_mem-filter (λ e. not (is_of task e)) edges (x, y) old in
              inl (there, λ same. ground (arith, other, same, ==_iff x task))
          | inr new ↦
              let (same, chosen) = mem_of_map_pair task (once [] blockers) x y new in
              inr (same, mem_of_once [] blockers y chosen)
        ]

  -- A chain down to the task uses only rows that were there.
  chain_to_task : {x : ℕ} → Waits (set_blockers task blockers edges) task x → Waits edges task x
  chain_to_task (here e) = here e
  chain_to_task {x} (blocked y m rest) = elim (row_after x y m) [
    | inl (old, other) ↦ blocked y old (chain_to_task rest)
    | inr (same, chosen) ↦ here same
  ]

  -- Any chain was there, or passes through the task and one of its new blockers.
  chain_after :
      {z x : ℕ}
      → Waits (set_blockers task blockers edges) z x
      → Waits edges z x
        ⊎ (Waits (set_blockers task blockers edges) task x
            × ((b : ℕ) × Memᴰ b blockers × Waits (set_blockers task blockers edges) z b))
  chain_after (here e) = inl (here e)
  chain_after {z} {x} (blocked y m rest) = elim (row_after x y m) [
    | inl (old, other) ↦ elim (chain_after rest) [
      | inl chain ↦ inl (blocked y old chain)
      | inr (down, (b, chosen, up)) ↦ inr (blocked y m down, (b, chosen, up))
    ]
    | inr (same, chosen) ↦ inr (here same, (y, chosen, rest))
  ]

  pub set_blockers-IsAcyclic :
      IsAcyclic edges
      → ((b : ℕ) → Memᴰ b blockers → Waits edges task b → ⊥)
      → IsAcyclic (set_blockers task blockers edges)
  set_blockers-IsAcyclic acyclic free x y m loop = elim (row_after x y m) [
    | inr (same, chosen) ↦ free y chosen (chain_to_task (rw same at loop))
    | inl (old, other) ↦ elim (chain_after loop) [
      | inl chain ↦ acyclic x y old chain
      | inr (down, (b, chosen, up)) ↦
          free b chosen (chain_to_task (Waits-trans up (blocked y m down)))
    ]
  ]

-- What is let through is another task of the repo, that does not wait on the task.
module _ (t : Table) (edges : Edges) (repo_id task : ℕ) where
  check_blocker_free :
      (b : ℕ) → check_blocker t edges repo_id (some task) b ≡ none → Waits edges task b → ⊥
  unfolding check_blocker
  check_blocker_free b h w =
      let (answer, e, exact) = waits_on-exact edges b task in
      let yes_it_waits : answer ≡ true = exact.1 w in absurd (ground (arith, e, yes_it_waits))

  check_blockers_free :
      (bs : List ℕ)
      → check_blockers t edges repo_id (some task) bs ≡ none
      → (b : ℕ) → Memᴰ b bs
      → Waits edges task b
      → ⊥
  unfolding check_blockers
  check_blockers_free [] h b m w = elim m [ ]
  check_blockers_free (c ∷ bs) h b (Memᴰ.head e) w =
      check_blocker_free c (ground arith) (rw (← e) w)
  check_blockers_free (c ∷ bs) h b (Memᴰ.tail m) w = check_blockers_free bs (ground arith) b m w

  -- Blockers that the check lets through, written to a table in which no task waits on itself, leave
  -- a table in which no task waits on itself.
  pub checked_blockers-IsAcyclic :
      (blockers : List ℕ)
      → IsAcyclic edges
      → check_blockers t edges repo_id (some task) blockers ≡ none
      → IsAcyclic (set_blockers task blockers edges)
  checked_blockers-IsAcyclic blockers acyclic h =
      set_blockers-IsAcyclic task blockers edges acyclic (check_blockers_free blockers h)
