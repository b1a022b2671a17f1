-- ===== src/ControlPlane/Policy/Candidates.antt =====
-- The patterns that control-plane/policy.py offers for a held host.
use dockade.Base.{
  ℕ, ◌≤◌, ◌<◌, ◌≡◌, refl, sym, ap, subst, ◌∙◌, inl, inr, Bool, true, false, ◌||◌, not, Option, List,
  [], ◌∷◌, ◌++◌, arith, if◌then◌else◌, ==_iff, leb, ltb, nat_eq, list_eq, Bool-cases, is_empty,
  length, length-append, All, All-append, All-if, contains, all,
}
use dockade.Base.Text.{
  Text, ends_with, split_dot, join_dot, is_dot, strip, lower, is_space, starts_with_dot, tail,
}
use mathlib.Core.List.{append_assoc, append-nil}
use dockade.Base.Text.Suffix.{ends_with-append, ends_with_trans, HasSuffix-ends_with}
use dockade.Base.Text.Labels.{
  IsDotFree, split_on-cons, split_dot-IsDotFree, join_dot-split_dot, split_dot-join_dot, strip_head,
}
use dockade.ControlPlane.Policy.Hosts.{
  Address, match, last_labels, add_wildcard, exact_form, persist_candidates, wildcard_min_labels,
  is_some, is_bracket, is_full,
}

ends_with-after_dot : (l t : Text) → ends_with (l ++ b'.' ∷ t) t ≡ true
ends_with-after_dot l t =
    HasSuffix-ends_with (l ++ b'.' ∷ t) t (l ++ b'.' ∷ [], sym (append_assoc l (b'.' ∷ []) t))

-- Fewer labels than all are a suffix that begins at a dot.
last_labels-suffix :
    (depth : ℕ) (l : Text) (ls : List Text)
    → 0 < depth
    → depth < length (l ∷ ls)
    → ends_with (join_dot (l ∷ ls)) (b'.' ∷ join_dot (last_labels depth (l ∷ ls))) ≡ true
unfolding last_labels join_dot
last_labels-suffix depth l [] pos h = absurd (omega arith)
last_labels-suffix depth l (m ∷ ms) pos h = elim (Bool-cases (leb (length (m ∷ ms)) depth)) [
  | inl all_left ↦ ground (arith, all_left, ends_with-append l (b'.' ∷ join_dot (m ∷ ms)))
  | inr more ↦ ground (
    arith,
    more,
    ends_with_trans (l ++ b'.' ∷ join_dot (m ∷ ms)) (join_dot (m ∷ ms))
        (b'.' ∷ join_dot (last_labels depth (m ∷ ms))) (ends_with-after_dot l (join_dot (m ∷ ms)))
        (last_labels-suffix depth m ms pos (ground arith)),
  )
]

last_labels-cons :
    (depth : ℕ) (ls : List Text)
    → 0 < depth
    → depth ≤ length ls
    → All IsDotFree ls
    → (m : Text) × (ms : List Text) × (last_labels depth ls ≡ m ∷ ms)
      × (length (m ∷ ms) ≡ depth)
      × All IsDotFree (m ∷ ms)
unfolding last_labels
last_labels-cons depth [] pos h free = absurd (omega arith)
last_labels-cons depth (l ∷ ls) pos h free = elim (Bool-cases (leb (length (l ∷ ls)) depth)) [
  | inl whole ↦ (l, ls, rw whole, ground arith, free)
  | inr more ↦
      let (m, ms, e, n, f) = last_labels-cons depth ls pos (ground arith) free.1 in
      (m, ms, rw more e, n, f)
]

-- A pattern that matches the host it was derived from and, as a wildcard, keeps two labels.
pub record IsOffered (exact : Text) (pattern : Text) : Type 0 where
  pub matches : match exact pattern ≡ true
  pub floor :
      starts_with_dot pattern ≡ true → wildcard_min_labels ≤ length (split_dot (tail pattern))

last_labels_all : (depth : ℕ) (ls : List Text) → length ls ≤ depth → last_labels depth ls ≡ ls
unfolding last_labels
last_labels_all depth [] h = refl
last_labels_all depth (l ∷ ls) h = ground arith

wildcard-match :
    (exact : Text) (depth : ℕ)
    → wildcard_min_labels ≤ depth
    → depth ≤ length (split_dot exact)
    → match exact (b'.' ∷ join_dot (last_labels depth (split_dot exact))) ≡ true
unfolding match
wildcard-match exact depth two h = elim (Bool-cases (leb (length (split_dot exact)) depth)) [
  | inl whole ↦
      let same : join_dot (last_labels depth (split_dot exact)) ≡ exact =
        ap join_dot (last_labels_all depth (split_dot exact) (ground arith))
        ∙ join_dot-split_dot exact in
      rw same (ground (arith, ==_iff exact exact))
  | inr more ↦
      let (l, ls, e) = split_on-cons b'.' exact in
      let longer : depth < length (split_dot exact) = ground arith in
      let part = last_labels-suffix depth l ls (omega arith) (rw e at longer) in
      let here : ends_with exact (b'.' ∷ join_dot (last_labels depth (split_dot exact))) ≡ true =
        subst
          (λ (t : Text). ends_with t (b'.' ∷ join_dot (last_labels depth (split_dot exact))) ≡ true)
          (ap join_dot (sym e) ∙ join_dot-split_dot exact) (rw e part) in
      ground (arith, here)
]

wildcard-IsOffered :
    (exact : Text) (depth : ℕ)
    → wildcard_min_labels ≤ depth
    → depth ≤ length (split_dot exact)
    → IsOffered exact (b'.' ∷ join_dot (last_labels depth (split_dot exact)))
wildcard-IsOffered exact depth two h =
    let (m, ms, e, n, free) =
      last_labels-cons depth (split_dot exact) (omega arith) h (split_dot-IsDotFree exact) in
    record {
      matches = wildcard-match exact depth two h;
      floor = λ _. rw (e, split_dot-join_dot m ms free) (omega arith);
    }

add_wildcard-IsOffered :
    (exact : Text) (out : List Text) (depth : ℕ)
    → All (IsOffered exact) out
    → All (IsOffered exact) (add_wildcard (split_dot exact) out depth)
unfolding add_wildcard
add_wildcard-IsOffered exact out depth h =
    skip_or (ltb depth wildcard_min_labels || ltb (length (split_dot exact)) depth) refl
  where
    pattern : Text
    pattern = b'.' ∷ join_dot (last_labels depth (split_dot exact))

    once :
        (b : Bool)
        → IsOffered exact pattern
        → All (IsOffered exact) (if b then out else out ++ pattern ∷ [])
    once true ok = h
    once false ok = All-append (IsOffered exact) out (pattern ∷ []) h (ok, tt)

    skip_or :
        (b : Bool)
        → (ltb depth wildcard_min_labels || ltb (length (split_dot exact)) depth) ≡ b
        → All
            (IsOffered exact)
            (if b then out else (if contains pattern out then out else out ++ pattern ∷ []))
    skip_or true e = h
    skip_or false e =
        once (contains pattern out) (wildcard-IsOffered exact depth (ground arith) (ground arith))

exact_form-IsOffered : (host : Text) → IsOffered (exact_form host) (exact_form host)
exact_form-IsOffered host = record {
  matches =
      unfold match in
      ground (arith, no_dot (exact_form host) refl, ==_iff (exact_form host) (exact_form host));
  floor = λ dot. absurd (cc (dot, no_dot (exact_form host) refl));
}
  where
    no_dot : (t : Text) → exact_form host ≡ t → starts_with_dot t ≡ false
    no_dot [] e = refl
    no_dot (c ∷ t) e = unfold exact_form in strip_head is_dot (lower (strip is_space host)) c t e

-- Every pattern that an operator may persist for a host matches the exact form of that host, and
-- one that is a wildcard keeps at least two labels.
pub persist_candidates-IsOffered :
    (parse_ip : Text → Option Address) (host : Text)
    → All (IsOffered (exact_form host)) (persist_candidates parse_ip host)
unfolding persist_candidates
persist_candidates-IsOffered parse_ip host =
    let exact = exact_form host in
    let labels = split_dot exact in
    let one : All (IsOffered exact) (exact ∷ []) = (exact_form-IsOffered host, tt) in
    let two = add_wildcard-IsOffered exact (exact ∷ []) (length labels) one in
    let three =
      add_wildcard-IsOffered exact (add_wildcard labels (exact ∷ []) (length labels))
        wildcard_min_labels two in
    All-if (IsOffered exact) (is_empty exact) _ _ tt (
      All-if (IsOffered exact) (is_some (parse_ip (strip is_bracket exact))) _ _ one
        (All-if (IsOffered exact) (not (all is_full labels)) _ _ one three))

add_wildcard-grows :
    (labels out : List Text) (depth : ℕ)
    → (rest : List Text) × (add_wildcard labels out depth ≡ out ++ rest) × (length rest ≤ 1)
unfolding add_wildcard
add_wildcard-grows labels out depth =
    by_range (ltb depth wildcard_min_labels || ltb (length labels) depth)
  where
    pattern : Text
    pattern = b'.' ∷ join_dot (last_labels depth labels)

    by_range :
        (b : Bool)
        → (rest : List Text) × ((if b
              then out
              else (if contains pattern out then out else out ++ pattern ∷ []))
            ≡ out ++ rest)
          × (length rest ≤ 1)
    by_range true = ([], sym (append-nil out), omega arith)
    by_range false = elim (Bool-cases (contains pattern out)) [
      | inl old ↦ ([], rw old (sym (append-nil out)), omega arith)
      | inr new ↦ (pattern ∷ [], rw new, omega arith)
    ]

-- Where something is left of the host, the candidates begin with its exact form, the narrowest, and
-- are three at most; an address literal has the exact one alone.
pub persist_candidates-exact_first :
    (parse_ip : Text → Option Address) (host : Text)
    → is_empty (exact_form host) ≡ false
    → (rest : List Text) × (persist_candidates parse_ip host ≡ exact_form host ∷ rest)
      × (length rest ≤ 2)
      × (is_some (parse_ip (strip is_bracket (exact_form host))) ≡ true → rest ≡ [])
unfolding persist_candidates
persist_candidates-exact_first parse_ip host full =
    let exact = exact_form host in
    let labels = split_dot exact in
    let first = add_wildcard labels (exact ∷ []) (length labels) in
    let (r, e, n) = add_wildcard-grows labels (exact ∷ []) (length labels) in
    let (r', e', n') = add_wildcard-grows labels first wildcard_min_labels in
    elim (Bool-cases (is_some (parse_ip (strip is_bracket exact)))) [
      | inl literal ↦ ([], rw (full, literal), omega arith, λ _. refl)
      | inr name ↦ elim (Bool-cases (all is_full labels)) [
        | inl well ↦ (
          r ++ r',
          rw (full, name, well) (e' ∙ ap (λ (xs : List Text). xs ++ r') e),
          omega (arith, length-append r r'),
          λ h. absurd (cc (h, name)),
        )
        | inr odd ↦ ([], rw (full, name, odd), omega arith, λ _. refl)
      ]
    ]
