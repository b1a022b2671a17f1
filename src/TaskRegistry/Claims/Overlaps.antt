-- ===== src/TaskRegistry/Claims/Overlaps.antt =====
-- Which footprints overlap: `_contains` and `shared` of task-registry/claims.py.
use dockade.Base.{
  ◌≡◌, refl, sym, ◌∙◌, Bool, false, ◌||◌, List, [], ◌∷◌, ◌++◌, arith, ◌==◌, filter, any, nat_eq,
  list_eq, is_empty, not,
}
use dockade.Base.Members.{any_congr}
use dockade.Base.Text.{starts_with, Text, text}

unfoldable pub contains_path : Text → Text → Bool
contains_path outer inner =
    outer == text "." || outer == inner || starts_with inner (outer ++ text "/")

abbrev pub overlap : Text → Text → Bool
overlap p m = contains_path p m || contains_path m p

unfoldable pub shared : List Text → List Text → List Text
shared theirs mine = filter (λ p. any (λ m. overlap p m) mine) theirs

any-or : (p q : Text → Bool) (xs : List Text) → any (λ x. p x || q x) xs ≡ (any p xs || any q xs)
unfolding any
any-or p q [] = refl
any-or p q (x ∷ xs) = ground (arith, any-or p q xs)

any_never : (xs : List Text) → any (λ x. false) xs ≡ false
unfolding any
any_never [] = refl
any_never (x ∷ xs) = any_never xs

overlap_symmetric : (p m : Text) → overlap p m ≡ overlap m p
overlap_symmetric p m = ground arith

any-swap :
    (xs ys : List Text)
    → any (λ p. any (λ m. overlap p m) ys) xs ≡ any (λ m. any (λ p. overlap m p) xs) ys
unfolding any
any-swap [] ys = sym (any_never ys)
any-swap (x ∷ xs) ys = ground (
  arith,
  any-swap xs ys,
  any-or (λ m. overlap m x) (λ m. any (λ p. overlap m p) xs) ys,
  any_congr (λ m. overlap x m) (λ m. overlap m x) ys (λ m _. overlap_symmetric x m),
)

is_empty-filter : (p : Text → Bool) (xs : List Text) → is_empty (filter p xs) ≡ not (any p xs)
unfolding filter any
is_empty-filter p [] = refl
is_empty-filter p (x ∷ xs) = ground (arith, is_empty-filter p xs)

-- Of two claims, each overlaps the other or neither does.
pub shared_symmetric :
    (theirs mine : List Text) → is_empty (shared theirs mine) ≡ is_empty (shared mine theirs)
unfolding shared
shared_symmetric theirs mine =
    is_empty-filter (λ p. any (λ m. overlap p m) mine) theirs
    ∙ ground (arith, any-swap theirs mine)
    ∙ sym (is_empty-filter (λ p. any (λ m. overlap p m) theirs) mine)
