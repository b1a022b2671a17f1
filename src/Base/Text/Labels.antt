-- ===== src/Base/Text/Labels.antt =====
-- The labels of a dotted text: splitting and joining.
use dockade.Base.{
  ℕ, ◌≡◌, refl, ap, ◌∙◌, inl, inr, Bool, false, List, [], ◌∷◌, ◌++◌, arith, ◌==◌, ==_iff, nat_eq,
  list_eq, Bool-cases, All,
}
use dockade.Base.Text.{
  Text, split_on, split_dot, join_dot, split_push, is_dot, lstrip, rstrip, strip,
}

-- No character of a label is a dot.
abbrev pub IsDotFree : Text → Type 0
IsDotFree [] = Unit
IsDotFree (c ∷ t) = (is_dot c ≡ false) × IsDotFree t

pub split_on-cons : (sep : ℕ) (t : Text) → (l : Text) × (ls : List Text) × (split_on sep t ≡ l ∷ ls)
unfolding split_on
split_on-cons sep [] = ([], [], refl)
split_on-cons sep (c ∷ t) =
    let (l, ls, e) = split_on-cons sep t in
    elim (Bool-cases (c == sep)) [
      | inl cut ↦ ([], l ∷ ls, ground (arith, e, cut))
      | inr keep ↦ (c ∷ l, ls, ground (arith, e, keep))
    ]

pub split_dot-IsDotFree : (t : Text) → All IsDotFree (split_dot t)
unfolding split_on
split_dot-IsDotFree [] = (tt, tt)
split_dot-IsDotFree (c ∷ t) = pushed (split_on b'.' t) (split_dot-IsDotFree t)
  where
    pushed : (ls : List Text) → All IsDotFree ls → All IsDotFree (split_push b'.' c ls)
    pushed [] h = (tt, tt)
    pushed (l ∷ ls) h = elim (Bool-cases (c == b'.')) [
      | inl cut ↦ rw cut (tt, h)
      | inr keep ↦ rw keep ((keep, h.0), h.1)
    ]

pub join_dot-split_dot : (t : Text) → join_dot (split_dot t) ≡ t
unfolding split_on join_dot
join_dot-split_dot [] = refl
join_dot-split_dot (c ∷ t) =
    let (l, ls, e) = split_on-cons b'.' t in rw e (joined l ls (rw e at (join_dot-split_dot t)))
  where
    joined :
        (l : Text) (ls : List Text)
        → join_dot (l ∷ ls) ≡ t
        → join_dot (split_push b'.' c (l ∷ ls)) ≡ c ∷ t
    joined l [] h = ground (arith, h, ==_iff c b'.')
    joined l (m ∷ ls) h = ground (arith, h, ==_iff c b'.')

-- A text without dots in front of a dot is the first label.
split_dot-label : (l t : Text) → IsDotFree l → split_dot (l ++ b'.' ∷ t) ≡ l ∷ split_dot t
unfolding split_on
split_dot-label [] t h = let (m, ms, e) = split_on-cons b'.' t in rw e
split_dot-label (c ∷ l) t h = ground (arith, split_dot-label l t h.1, h.0)

split_dot_one : (l : Text) → IsDotFree l → split_dot l ≡ l ∷ []
unfolding split_on
split_dot_one [] h = refl
split_dot_one (c ∷ l) h = ground (arith, split_dot_one l h.1, h.0)

pub split_dot-join_dot :
    (l : Text) (ls : List Text) → All IsDotFree (l ∷ ls) → split_dot (join_dot (l ∷ ls)) ≡ l ∷ ls
unfolding join_dot
split_dot-join_dot l [] h = split_dot_one l h.0
split_dot-join_dot l (m ∷ ls) h =
    split_dot-label l (join_dot (m ∷ ls)) h.0
    ∙ ap (λ (r : List Text). l ∷ r) (split_dot-join_dot m ls h.1)

lstrip_head : (p : ℕ → Bool) (t : Text) (d : ℕ) (v : Text) → lstrip p t ≡ d ∷ v → p d ≡ false
unfolding lstrip
lstrip_head p [] d v h = absurd (cc)
lstrip_head p (c ∷ t) d v h = ground (arith, lstrip_head p t d v)

rstrip_head :
    (p : ℕ → Bool) (s : Text) (c : ℕ) (u : Text) → rstrip p s ≡ c ∷ u → (v : Text) × (s ≡ c ∷ v)
unfolding rstrip
rstrip_head p [] c u h = absurd (cc)
rstrip_head p (d ∷ s) c u h = (s, ground arith)

-- `strip` leaves no stripped character in front.
pub strip_head : (p : ℕ → Bool) (t : Text) (c : ℕ) (u : Text) → strip p t ≡ c ∷ u → p c ≡ false
unfolding strip
strip_head p t c u h = let (v, e) = rstrip_head p (lstrip p t) c u h in lstrip_head p t c v e
