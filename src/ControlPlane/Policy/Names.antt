-- ===== src/ControlPlane/Policy/Names.antt =====
-- Spelling in control-plane/policy.py: hosts in their normal form, and which patterns may be stored.
use dockade.Base.{
  ◌≤◌, ◌≡◌, refl, ap, ◌∙◌, inl, inr, true, Option, none, [], ◌∷◌, ◌++◌, arith, ◌==◌, ==_iff, nat_eq,
  list_eq, length, Bool-cases,
}
use dockade.Base.Text.{Text, text, lower, lower_char, rstrip, is_dot, starts_with_dot, split_dot}
use dockade.Base.Text.Suffix.{ends_with-HasSuffix}
use dockade.Base.Text.Case.{
  lower_idem, lower-append, rstrip-append_one, rstrip_idem, lower-rstrip, count-suffix,
  count-after_dot,
}
use dockade.ControlPlane.Policy.Hosts.{
  Address, match, normalize_host, rule_error, wildcard_min_labels,
}
use dockade.ControlPlane.Policy.Rules.{Time, Store, decide, ruling}

pub normalize_host_idem : (host : Text) → normalize_host (normalize_host host) ≡ normalize_host host
unfolding normalize_host
normalize_host_idem host =
    ap (rstrip is_dot) (lower-rstrip (lower host))
    ∙ rstrip_idem is_dot (lower (lower host))
    ∙ ap (rstrip is_dot) (lower_idem host)

normalize_host-dot : (host : Text) → normalize_host (host ++ b'.' ∷ []) ≡ normalize_host host
unfolding normalize_host lower rstrip lower_char
normalize_host-dot host =
    ap (rstrip is_dot) (lower-append host (b'.' ∷ []))
    ∙ rstrip-append_one is_dot (lower host) b'.' refl

normalize_host-lower : (host : Text) → normalize_host (lower host) ≡ normalize_host host
unfolding normalize_host
normalize_host-lower host = ap (rstrip is_dot) (lower_idem host)

-- Three spellings of one destination decide alike, with the same reason: the host as asked for, the
-- host with a final dot, and the host in lower case.
pub decide-spelling :
    (store : Store) (now : Time) (host client_class : Text)
    → (decide store now (host ++ b'.' ∷ []) client_class ≡ decide store now host client_class)
      × (decide store now (lower host) client_class ≡ decide store now host client_class)
unfolding decide ruling
decide-spelling store now host c = (rw (normalize_host-dot host), rw (normalize_host-lower host))

-- The host that a wildcard matches has at least the labels of what follows its dot.
match-labels :
    (host p : Text) → match host (b'.' ∷ p) ≡ true → length (split_dot p) ≤ length (split_dot host)
unfolding match
match-labels host p h = elim (Bool-cases (host == p)) [
  | inl same ↦ rw ((==_iff host p).0 same) (omega arith)
  | inr other ↦
      let (q, e) = ends_with-HasSuffix host (b'.' ∷ p) (ground arith) in
      rw e (omega (arith, count-suffix q (b'.' ∷ p), count-after_dot p))
]

-- No allow rule that is accepted as a wildcard matches a host of fewer than two labels: none can
-- open a whole top-level domain by its name.
pub rule_error-allow_floor :
    (parse_ip : Text → Option Address) (pattern host : Text)
    → rule_error parse_ip pattern (text "allow") ≡ none
    → starts_with_dot pattern ≡ true
    → match host pattern ≡ true
    → wildcard_min_labels ≤ length (split_dot host)
rule_error-allow_floor parse_ip [] host ok dot m = absurd (cc)
rule_error-allow_floor parse_ip (c ∷ p) host ok dot m =
    let same : c ≡ b'.' = (==_iff c b'.').0 dot in
    omega (arith, floor same, match-labels host p (rw same at m))
  where
    floor : c ≡ b'.' → wildcard_min_labels ≤ length (split_dot p)
    floor same = unfold rule_error in ground (arith, rw same at ok)
