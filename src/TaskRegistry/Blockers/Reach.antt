-- ===== src/TaskRegistry/Blockers/Reach.antt =====
-- A chain of blockers: what `_waits_on` of task-registry/tasks.py looks for.
use mathlib.Core.List.{Memᴰ}
use dockade.Base.{ℕ, ◌≡◌, refl, ap, List, [], ◌∷◌, ==_iff, filter, map, nat_eq, inl, inr, ◌⊎◌}
use dockade.Base.Members.{mem_of_mem-filter, mem-filter_of_mem}
use dockade.TaskRegistry.Blockers.{Edges, is_of, blockers_of, extend}

-- `x` is `target` or waits on it.
pub data Waits (edges : Edges) (target : ℕ) : ℕ → Type 0 where
  here : {x : ℕ} → x ≡ target → Waits edges target x
  blocked : {x : ℕ} (y : ℕ) → Memᴰ (x, y) edges → Waits edges target y → Waits edges target x

pub Waits-trans : {edges : Edges} {y z x : ℕ} → Waits edges y x → Waits edges z y → Waits edges z x
Waits-trans (here e) w = rw e w
Waits-trans (blocked y m rest) w = blocked y m (Waits-trans rest w)

pub mem_map_snd :
    (es : List (ℕ × ℕ)) (y : ℕ) → Memᴰ y (map (λ e. e.1) es) → (x : ℕ) × Memᴰ (x, y) es
mem_map_snd [] y m = elim m [ ]
mem_map_snd ((a, b) ∷ es) y (Memᴰ.head e) = (a, rw e (Memᴰ.head refl))
mem_map_snd ((a, b) ∷ es) y (Memᴰ.tail m) =
    let (x, deep) = mem_map_snd es y m in (x, Memᴰ.tail deep)

mem-map_snd : (es : List (ℕ × ℕ)) (x y : ℕ) → Memᴰ (x, y) es → Memᴰ y (map (λ e. e.1) es)
mem-map_snd [] x y m = elim m [ ]
mem-map_snd ((a, b) ∷ es) x y (Memᴰ.head e) = Memᴰ.head (ap (λ (p : ℕ × ℕ). p.1) e)
mem-map_snd ((a, b) ∷ es) x y (Memᴰ.tail m) = Memᴰ.tail (mem-map_snd es x y m)

pub blockers_of_sound : (edges : Edges) (x y : ℕ) → Memᴰ y (blockers_of edges x) → Memᴰ (x, y) edges
unfolding blockers_of
blockers_of_sound edges x y m =
    let (a, deep) = mem_map_snd (filter (is_of x) edges) y m in
    let (there, ok) = mem_of_mem-filter (is_of x) edges (a, y) deep in
    let same : a ≡ x = (==_iff a x).0 ok in rw (← same) there

pub blockers_of_complete :
    (edges : Edges) (x y : ℕ) → Memᴰ (x, y) edges → Memᴰ y (blockers_of edges x)
unfolding blockers_of
blockers_of_complete edges x y m =
    mem-map_snd (filter (is_of x) edges) x y
      (mem-filter_of_mem (is_of x) edges (x, y) m ((==_iff x x).1 refl))

-- What is pushed, and what was there, is in the frontier; nothing else is.
pub mem_of_extend :
    (found frontier : List ℕ) (x : ℕ)
    → Memᴰ x (extend found frontier)
    → Memᴰ x found ⊎ Memᴰ x frontier
unfolding extend
mem_of_extend [] frontier x m = inr m
mem_of_extend (n ∷ found) frontier x m = elim (mem_of_extend found (n ∷ frontier) x m) [
  | inl deep ↦ inl (Memᴰ.tail deep)
  | inr there ↦ first there
]
  where
    first : Memᴰ x (n ∷ frontier) → Memᴰ x (n ∷ found) ⊎ Memᴰ x frontier
    first (Memᴰ.head e) = inl (Memᴰ.head e)
    first (Memᴰ.tail deep) = inr deep

pub extend_kept :
    (found frontier : List ℕ) (x : ℕ) → Memᴰ x frontier → Memᴰ x (extend found frontier)
unfolding extend
extend_kept [] frontier x m = m
extend_kept (n ∷ found) frontier x m = extend_kept found (n ∷ frontier) x (Memᴰ.tail m)

pub extend_pushed :
    (found frontier : List ℕ) (x : ℕ) → Memᴰ x found → Memᴰ x (extend found frontier)
unfolding extend
extend_pushed (n ∷ found) frontier x (Memᴰ.head e) =
    extend_kept found (n ∷ frontier) x (Memᴰ.head e)
extend_pushed (n ∷ found) frontier x (Memᴰ.tail m) = extend_pushed found (n ∷ frontier) x m
extend_pushed [] frontier x m = elim m [ ]
