-- ===== src/TaskRegistry/Blockers/Search.antt =====
-- The search of `_waits_on` (task-registry/tasks.py) ends, and finds exactly the chains of blockers.
use mathlib.Core.List.{Memᴰ}
use dockade.Base.{
  ℕ, zero, suc, ◌+◌, ◌≤◌, ◌≡◌, refl, sym, ◌≢◌, ◌↔◌, ◌⊎◌, inl, inr, Bool, true, false, not, Option,
  none, some, List, [], ◌∷◌, arith, ◌==◌, ==_iff, length, filter, contains, map, nat_eq, Bool-cases,
}
use dockade.TaskRegistry.Blockers.{Edges, is_of, blockers_of, extend, search, waits_on}
use dockade.TaskRegistry.Blockers.Reach.{
  Waits, Waits-trans, here, blocked, blockers_of_sound, mem_of_extend, extend_kept,
}
use dockade.TaskRegistry.Blockers.Closed.{IsClosed, closed_unreached, step-IsClosed, old-IsClosed}

length-extend :
    (found frontier : List ℕ) → length (extend found frontier) ≡ length found + length frontier
unfolding extend
length-extend [] frontier = omega arith
length-extend (n ∷ found) frontier = omega (arith, length-extend found (n ∷ frontier))

-- The rows that are still to be followed.
abbrev is_open : List ℕ → ℕ × ℕ → Bool
is_open seen e = not (contains e.0 seen)

length-blockers_of :
    (edges : Edges) (x : ℕ) → length (blockers_of edges x) ≡ length (filter (is_of x) edges)
unfolding blockers_of
length-blockers_of edges x = length-map (filter (is_of x) edges)
  where
    length-map : (es : List (ℕ × ℕ)) → length (map (λ e. e.1) es) ≡ length es
    length-map [] = refl
    length-map (e ∷ es) = omega (arith, length-map es)

open_rows :
    (edges : Edges) (x : ℕ) (seen : List ℕ)
    → contains x seen ≡ false
    → length (filter (is_open seen) edges)
      ≡ length (filter (is_of x) edges) + length (filter (is_open (x ∷ seen)) edges)
unfolding filter contains
open_rows [] x seen h = refl
open_rows ((a, b) ∷ edges) x seen h =
    ground (arith, ==_iff a x, ==_iff x a, open_rows edges x seen h)

no_seen : (edges : Edges) → length (filter (is_open []) edges) ≤ length edges
unfolding filter contains
no_seen [] = omega arith
no_seen (e ∷ edges) = ground (arith, no_seen edges)

-- One round of the loop.
module _ (fuel : ℕ) (edges : Edges) (target : ℕ) (seen : List ℕ) (current : ℕ)
    (frontier : List ℕ) where
  search_hit :
      (current == target) ≡ true
      → search (suc fuel) edges target seen (current ∷ frontier) ≡ some true
  unfolding search
  search_hit h = ground arith

  search_old :
      (current == target) ≡ false
      → contains current seen ≡ true
      → search (suc fuel) edges target seen (current ∷ frontier)
        ≡ search fuel edges target seen frontier
  unfolding search
  search_old h k = ground arith

  search_new :
      (current == target) ≡ false
      → contains current seen ≡ false
      → search (suc fuel) edges target seen (current ∷ frontier)
        ≡ search fuel edges target (current ∷ seen) (extend (blockers_of edges current) frontier)
  unfolding search
  search_new h k = ground arith

search_empty :
    (fuel : ℕ) (edges : Edges) (target : ℕ) (seen : List ℕ)
    → search fuel edges target seen [] ≡ some false
unfolding search
search_empty zero edges target seen = refl
search_empty (suc fuel) edges target seen = refl

-- A round that goes on has one unit less of what is left.
rounds_left :
    (fuel : ℕ) (edges : Edges) (seen : List ℕ) (current : ℕ) (frontier : List ℕ)
    → contains current seen ≡ false
    → length (current ∷ frontier) + length (filter (is_open seen) edges) ≤ suc fuel
    → length (extend (blockers_of edges current) frontier)
        + length (filter (is_open (current ∷ seen)) edges)
      ≤ fuel
rounds_left fuel edges seen current frontier new h = omega (
  arith,
  length-extend (blockers_of edges current) frontier,
  length-blockers_of edges current,
  open_rows edges current seen new,
)

-- The loop ends within the rounds that the frontier and the rows to follow give.
search_finishes :
    (fuel : ℕ) (edges : Edges) (target : ℕ) (seen frontier : List ℕ)
    → length frontier + length (filter (is_open seen) edges) ≤ fuel
    → search fuel edges target seen frontier ≢ none
search_finishes fuel edges target seen [] h = rw (search_empty fuel edges target seen) (λ e. cc)
search_finishes zero edges target seen (current ∷ frontier) h = absurd (omega arith)
search_finishes (suc fuel) edges target seen (current ∷ frontier) h =
    elim (Bool-cases (current == target)) [
      | inl hit ↦ rw (search_hit fuel edges target seen current frontier hit) (λ e. cc)
      | inr miss ↦ elim (Bool-cases (contains current seen)) [
        | inl old ↦
            rw (search_old fuel edges target seen current frontier miss old)
              (search_finishes fuel edges target seen frontier (omega (arith, h)))
        | inr new ↦ rw (search_new fuel edges target seen current frontier miss new) (
            search_finishes fuel edges target (current ∷ seen)
              (extend (blockers_of edges current) frontier)
              (rounds_left fuel edges seen current frontier new h))
      ]
    ]

-- What it finds is there: if every member of the frontier is reached from the start, so is a hit.
search_sound :
    (fuel : ℕ) (edges : Edges) (start target : ℕ) (seen frontier : List ℕ)
    → ((x : ℕ) → Memᴰ x frontier → Waits edges x start)
    → search fuel edges target seen frontier ≡ some true
    → Waits edges target start
search_sound fuel edges start target seen [] reached h =
    absurd (cc (search_empty fuel edges target seen, h))
search_sound zero edges start target seen (current ∷ frontier) reached h =
    absurd (unfold search in cc (h))
search_sound (suc fuel) edges start target seen (current ∷ frontier) reached h =
    elim (Bool-cases (current == target)) [
      | inl hit ↦
          let same : current ≡ target = (==_iff current target).0 hit in
          rw (← same) (reached current (Memᴰ.head refl))
      | inr miss ↦ elim (Bool-cases (contains current seen)) [
        | inl old ↦
            search_sound fuel edges start target seen frontier (λ x m. reached x (Memᴰ.tail m))
              (rw (search_old fuel edges target seen current frontier miss old) at h)
        | inr new ↦
            search_sound fuel edges start target (current ∷ seen)
              (extend (blockers_of edges current) frontier)
              (λ x m. elim (mem_of_extend (blockers_of edges current) frontier x m) [
                | inl found ↦
                    Waits-trans (reached current (Memᴰ.head refl))
                      (blocked x (blockers_of_sound edges current x found) (here refl))
                | inr there ↦ reached x (Memᴰ.tail there)
              ])
              (rw (search_new fuel edges target seen current frontier miss new) at h)
      ]
    ]

-- When it finds nothing, nothing is reached from what it has followed or was to follow.
search_complete :
    (fuel : ℕ) (edges : Edges) (target : ℕ) (seen frontier : List ℕ)
    → IsClosed edges target seen frontier
    → search fuel edges target seen frontier ≡ some false
    → (x : ℕ) → (contains x seen ≡ true) ⊎ Memᴰ x frontier
    → Waits edges target x
    → ⊥
search_complete fuel edges target seen [] c h x (inl k) w = closed_unreached edges target seen c w k
search_complete fuel edges target seen [] c h x (inr m) w = elim m [ ]
search_complete zero edges target seen (current ∷ frontier) c h x k w =
    absurd (unfold search in cc (h))
search_complete (suc fuel) edges target seen (current ∷ frontier) c h x k w =
    elim (Bool-cases (current == target)) [
      | inl hit ↦ absurd (cc (search_hit fuel edges target seen current frontier hit, h))
      | inr miss ↦ elim (Bool-cases (contains current seen)) [
        | inl old ↦
            search_complete fuel edges target seen frontier
              (old-IsClosed edges target seen current frontier old c)
              (rw (search_old fuel edges target seen current frontier miss old) at h) x
              (old_place old k) w
        | inr new ↦
            search_complete fuel edges target (current ∷ seen)
              (extend (blockers_of edges current) frontier)
              (step-IsClosed edges target seen current frontier miss c)
              (rw (search_new fuel edges target seen current frontier miss new) at h) x
              (new_place k) w
      ]
    ]
  where
    old_place :
        contains current seen ≡ true
        → (contains x seen ≡ true) ⊎ Memᴰ x (current ∷ frontier)
        → (contains x seen ≡ true) ⊎ Memᴰ x frontier
    old_place old (inl there) = inl there
    old_place old (inr (Memᴰ.head e)) = inl (rw e old)
    old_place old (inr (Memᴰ.tail m)) = inr m

    new_place :
        (contains x seen ≡ true) ⊎ Memᴰ x (current ∷ frontier)
        → (contains x (current ∷ seen) ≡ true)
          ⊎ Memᴰ x (extend (blockers_of edges current) frontier)
    new_place (inl there) = inl (unfold contains in ground arith)
    new_place (inr (Memᴰ.head e)) = inl (unfold contains in ground (arith, ==_iff x current))
    new_place (inr (Memᴰ.tail m)) = inr (extend_kept (blockers_of edges current) frontier x m)

-- The search always ends with an answer, and the answer is yes exactly if the task is the target or
-- waits on it through some chain of blockers, whatever cycles the table has.
pub waits_on-exact :
    (edges : Edges) (task target : ℕ)
    → (b : Bool) × (waits_on edges task target ≡ some b) × ((b ≡ true) ↔ Waits edges target task)
unfolding waits_on
waits_on-exact edges task target =
    by_result (search (suc (length edges)) edges target [] (task ∷ [])) refl
  where
    by_result :
        (o : Option Bool)
        → search (suc (length edges)) edges target [] (task ∷ []) ≡ o
        → (b : Bool) × (o ≡ some b) × ((b ≡ true) ↔ Waits edges target task)
    by_result none e = absurd (
        search_finishes (suc (length edges)) edges target [] (task ∷ [])
          (omega (arith, no_seen edges)) e)
    by_result (some true) e = (
      true,
      refl,
      (λ k. search_sound (suc (length edges)) edges task target [] (task ∷ []) only e, λ w. refl),
    )
      where
        only : (x : ℕ) → Memᴰ x (task ∷ []) → Waits edges x task
        only x (Memᴰ.head same) = here (sym same)
        only x (Memᴰ.tail m) = elim m [ ]
    by_result (some false) e = (false, refl, (λ k. absurd (cc), λ w. absurd (unreached w)))
      where
        nothing : IsClosed edges target [] (task ∷ [])
        nothing = record {
          not_target = λ x k. absurd (unfold contains in cc (k));
          followed = λ x y k m. absurd (unfold contains in cc (k));
        }

        unreached : Waits edges target task → ⊥
        unreached =
            search_complete (suc (length edges)) edges target [] (task ∷ []) nothing e task
              (inr (Memᴰ.head refl))
