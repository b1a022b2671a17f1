-- ===== src/ControlPlane/Policy/Rules/Landing.antt =====
-- `_landing` of control-plane/policy.py says of a wildcard where the hosts under it land: that word
-- holds of every one of them.
use mathlib.Core.List.{Memᴰ}
use dockade.Base.{
  ◌≡◌, refl, true, false, ◌&&◌, [], ◌∷◌, arith, if◌then◌else◌, ◌==◌, ==_iff, nat_eq, list_eq, any,
  Bool-cases, inl, inr,
}
use dockade.Base.Members.{any_congr, any_of_mem, mem_of_any}
use dockade.Base.Text.{Text, text, ends_with}
use dockade.Base.Text.Suffix.{ends_with-append, ends_with_trans}
use dockade.ControlPlane.Policy.Hosts.{match}
use dockade.ControlPlane.Policy.Rules.{
  Time, Rule, Store, allow, deny, hold, is_for, does, is_live_for, held, ruling_in, covers_subtree,
  subtree,
}
use dockade.ControlPlane.Policy.Rules.Exact.{has_rule, rule_pass-by_rules, ruling_in-exact}

-- `host` lies strictly under the wildcard `.apex`.
abbrev pub IsUnder : Text → Text → Type 0
IsUnder apex host = ends_with host (b'.' ∷ apex) ≡ true

-- A wildcard that covers the subtree matches every host in it.
pub covers_subtree-match :
    (apex host p : Text) → IsUnder apex host → covers_subtree apex p ≡ true → match host p ≡ true
unfolding covers_subtree match
covers_subtree-match apex host [] under h = absurd (cc)
covers_subtree-match apex host (c ∷ p) under h = elim (Bool-cases (apex == p)) [
  | inl whole ↦
      let same : apex ≡ p = (==_iff apex p).0 whole in
      let dot : c ≡ b'.' = ground arith in ground (arith, rw (same, ← dot) at under)
  | inr part ↦
      let deep : ends_with apex (c ∷ p) ≡ true = ground arith in
      let above : ends_with (b'.' ∷ apex) apex ≡ true = ends_with-append (b'.' ∷ []) apex in
      let all_the_way : ends_with host (c ∷ p) ≡ true =
        ends_with_trans host (b'.' ∷ apex) (c ∷ p) under
          (ends_with_trans (b'.' ∷ apex) apex (c ∷ p) above deep) in
      ground (arith, all_the_way)
]

pub subtree-exact :
    (s : Store) (apex client_class : Text)
    → (subtree s apex client_class).0 ≡ (
        if has_rule (text "block") client_class (covers_subtree apex) s.rules
        then deny
        else if has_rule (text "allow") client_class (covers_subtree apex) s.rules
        then allow
        else hold)
unfolding subtree held
subtree-exact s apex c = ground (arith, rule_pass-by_rules s.rules c (covers_subtree apex))

-- If the subtree of a wildcard is said to be denied, every host under it is denied, whatever
-- narrower rules and leases are stored.
pub subtree-deny :
    (s : Store) (now : Time) (apex host client_class : Text)
    → IsUnder apex host
    → (subtree s apex client_class).0 ≡ deny
    → (ruling_in s now host client_class).decision ≡ deny
subtree-deny s now apex host c under h =
    let blocked : has_rule (text "block") c (covers_subtree apex) s.rules ≡ true =
      ground (arith, subtree-exact s apex c) in
    let (r, there, hit) =
      mem_of_any (λ r. is_for c r && does (text "block") (covers_subtree apex) r) s.rules blocked in
    let on_host : has_rule (text "block") c (match host) s.rules ≡ true =
      any_of_mem (λ r. is_for c r && does (text "block") (match host) r) s.rules r there
        (ground (arith, hit, covers_subtree-match apex host r.pattern under)) in
    ground (arith, on_host, ruling_in-exact s now host c)

-- Whatever the subtree is said to land on, a host under it lands there, if no lease names it and
-- each rule of its class that matches it covers the subtree.
pub subtree_sound :
    (s : Store) (now : Time) (apex host client_class : Text)
    → IsUnder apex host
    → ((r : Rule)
        → Memᴰ r s.rules
        → is_for client_class r ≡ true
        → match host r.pattern ≡ true
        → covers_subtree apex r.pattern ≡ true)
    → any (is_live_for host client_class now) s.leases ≡ false
    → (ruling_in s now host client_class).decision ≡ (subtree s apex client_class).0
subtree_sound s now apex host c under wide no_lease =
    rw
      (
        ruling_in-exact s now host c,
        subtree-exact s apex c,
        same_rules (text "block"),
        same_rules (text "allow"),
        no_lease,
      )
      refl
  where
    same_rule :
        (action : Text) (r : Rule)
        → Memᴰ r s.rules
        → (is_for c r && does action (match host) r)
          ≡ (is_for c r && does action (covers_subtree apex) r)
    same_rule action r there =
        ground (arith, wide r there, covers_subtree-match apex host r.pattern under)

    same_rules :
        (action : Text)
        → has_rule action c (match host) s.rules ≡ has_rule action c (covers_subtree apex) s.rules
    same_rules action = any_congr _ _ s.rules (same_rule action)
