-- ===== src/Base/Text/Case.antt =====
-- Letter case, stripping on the right, and how many labels a text has.
use mathlib.Core.List.{map-append}
use dockade.Base.{
  ℕ, ◌+◌, ◌≤◌, ◌≡◌, refl, ap, ◌∙◌, Bool, true, ◌&&◌, [], ◌∷◌, ◌++◌, arith, nat_eq, is_empty, length,
  Bool-cases, inl, inr,
}
use dockade.Base.Text.{Text, lower, lower_char, rstrip, split_on, split_dot, is_dot}
use dockade.Base.Text.Labels.{split_on-cons}

lower_char_idem : (c : ℕ) → lower_char (lower_char c) ≡ lower_char c
unfolding lower_char
lower_char_idem c = ground arith

pub lower_idem : (t : Text) → lower (lower t) ≡ lower t
unfolding lower
lower_idem [] = refl
lower_idem (c ∷ t) = cc (lower_char_idem c, lower_idem t)

pub lower-append : (t u : Text) → lower (t ++ u) ≡ lower t ++ lower u
unfolding lower
lower-append t u = map-append lower_char t u

-- A trailing character that is stripped leaves no trace.
pub rstrip-append_one :
    (p : ℕ → Bool) (t : Text) (c : ℕ) → p c ≡ true → rstrip p (t ++ c ∷ []) ≡ rstrip p t
unfolding rstrip
rstrip-append_one p [] c h = ground arith
rstrip-append_one p (d ∷ t) c h = rw (rstrip-append_one p t c h)

pub rstrip_idem : (p : ℕ → Bool) (t : Text) → rstrip p (rstrip p t) ≡ rstrip p t
unfolding rstrip
rstrip_idem p [] = refl
rstrip_idem p (c ∷ t) = elim (Bool-cases (is_empty (rstrip p t) && p c)) [
  | inl gone ↦ rw gone
  | inr kept ↦ rw kept (unfold rstrip in rw (rstrip_idem p t, kept))
]

is_dot-lower_char : (c : ℕ) → is_dot (lower_char c) ≡ is_dot c
unfolding lower_char
is_dot-lower_char c = ground arith

is_empty-lower : (t : Text) → is_empty (lower t) ≡ is_empty t
unfolding lower
is_empty-lower [] = refl
is_empty-lower (c ∷ t) = refl

pub lower-rstrip : (t : Text) → lower (rstrip is_dot t) ≡ rstrip is_dot (lower t)
unfolding rstrip lower
lower-rstrip [] = refl
lower-rstrip (c ∷ t) =
    let ends : (is_empty (rstrip is_dot (lower t)) && is_dot (lower_char c))
        ≡ (is_empty (rstrip is_dot t) && is_dot c) =
      cc (is_dot-lower_char c, is_empty-lower (rstrip is_dot t), lower-rstrip t) in
    elim (Bool-cases (is_empty (rstrip is_dot t) && is_dot c)) [
      | inl gone ↦ rw (gone, ends ∙ gone)
      | inr kept ↦ rw (kept, ends ∙ kept) (ap (λ (u : Text). lower_char c ∷ u) (lower-rstrip t))
    ]

-- A suffix has no more labels.
pub count-suffix : (q t : Text) → length (split_dot t) ≤ length (split_dot (q ++ t))
unfolding split_on
count-suffix [] t = omega arith
count-suffix (c ∷ q) t =
    let (l, ls, e) = split_on-cons b'.' (q ++ t) in ground (arith, e, count-suffix q t)

pub count-after_dot : (t : Text) → length (split_dot (b'.' ∷ t)) ≡ length (split_dot t) + 1
unfolding split_on
count-after_dot t = let (l, ls, e) = split_on-cons b'.' t in ground (arith, e)
