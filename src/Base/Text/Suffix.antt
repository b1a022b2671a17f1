-- ===== src/Base/Text/Suffix.antt =====
-- `endswith` as a relation, and the labels of a dotted text.
use dockade.Base.{
  ◌≡◌, refl, sym, ap, ◌∙◌, inl, inr, true, [], ◌∷◌, ◌++◌, arith, ◌==◌, ==_iff, nat_eq, list_eq,
  Bool-cases,
}
use mathlib.Core.List.{append_assoc}
use dockade.Base.Text.{Text, ends_with}

-- `t` is `s` with something before it.
abbrev pub HasSuffix : Text → Text → Type 0
HasSuffix t s = (p : Text) × (t ≡ p ++ s)

pub ends_with-HasSuffix : (t s : Text) → ends_with t s ≡ true → HasSuffix t s
unfolding ends_with
ends_with-HasSuffix [] [] h = ([], refl)
ends_with-HasSuffix [] (c ∷ s) h = absurd (cc)
ends_with-HasSuffix (c ∷ t) s h = elim (Bool-cases (c ∷ t == s)) [
  | inl whole ↦ ([], (==_iff (c ∷ t) s).0 whole)
  | inr part ↦
      let (p, e) = ends_with-HasSuffix t s (rw part at h) in (c ∷ p, ap (λ (u : Text). c ∷ u) e)
]

pub ends_with_self : (s : Text) → ends_with s s ≡ true
unfolding ends_with
ends_with_self [] = refl
ends_with_self (c ∷ s) = rw ((==_iff (c ∷ s) (c ∷ s)).1 refl)

pub ends_with-append : (p s : Text) → ends_with (p ++ s) s ≡ true
unfolding ends_with
ends_with-append [] s = ends_with_self s
ends_with-append (c ∷ p) s = ground (arith, ends_with-append p s)

pub HasSuffix-ends_with : (t s : Text) → HasSuffix t s → ends_with t s ≡ true
HasSuffix-ends_with t s (p, e) = rw e (ends_with-append p s)

pub ends_with_trans :
    (t s u : Text) → ends_with t s ≡ true → ends_with s u ≡ true → ends_with t u ≡ true
ends_with_trans t s u h k =
    let (p, e) = ends_with-HasSuffix t s h in
    let (q, f) = ends_with-HasSuffix s u k in
    HasSuffix-ends_with t u (p ++ q, e ∙ ap (λ (v : Text). p ++ v) f ∙ sym (append_assoc p q u))
