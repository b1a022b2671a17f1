-- ===== src/ControlPlane/Policy/Rules/Isolation.antt =====
-- What a decision of control-plane/policy.py does not depend on, and what a new rule changes.
use mathlib.Core.List.{Memᴰ}
use dockade.Base.{
  ◌≡◌, sym, ap, ◌∙◌, Bool, true, ◌&&◌, not, List, ◌∷◌, arith, if◌then◌else◌, ◌==◌, ==_iff, nat_eq,
  list_eq, filter, any,
}
use dockade.Base.Members.{any-eq_of_members, filter-filter}
use dockade.Base.Text.{Text, text}
use dockade.ControlPlane.Policy.Hosts.{match}
use dockade.ControlPlane.Policy.Rules.{
  Time, Rule, Lease, Store, allow, deny, is_for, does, is_live_for, rule_pass, passes_over, held,
  live_lease, longest_lived, ruling_in,
}
use dockade.ControlPlane.Policy.Rules.Exact.{has_rule, ruling_in-exact}

-- Two stores that agree on the rules and leases of a class give its clients the same decision and
-- credit the same card, whatever they hold for other classes.
pub ruling_in-class_isolation :
    (s t : Store) (now : Time) (host client_class : Text)
    → filter (is_for client_class) s.rules ≡ filter (is_for client_class) t.rules
    → filter (λ l. l.client_class == client_class) s.leases
      ≡ filter (λ l. l.client_class == client_class) t.leases
    → ((ruling_in s now host client_class).decision ≡ (ruling_in t now host client_class).decision)
      × ((ruling_in s now host client_class).lease_card
          ≡ (ruling_in t now host client_class).lease_card)
unfolding ruling_in held
ruling_in-class_isolation s t now host c rules leases =
    let passes : rule_pass s.rules c (match host) ≡ rule_pass t.rules c (match host) =
      unfold rule_pass in ap (λ (mine : List Rule). passes_over mine c (match host)) rules in
    let reads : live_lease s.leases host c now ≡ live_lease t.leases host c now = same_read in
    (ground (arith, passes, reads), ground (arith, passes, reads))
  where
    of_class : Lease → Bool
    of_class l = l.client_class == c

    implied : (l : Lease) → is_live_for host c now l ≡ true → of_class l ≡ true
    implied l h = ground arith

    narrowed :
        (ls : List Lease)
        → filter (is_live_for host c now) (filter of_class ls) ≡ filter (is_live_for host c now) ls
    narrowed ls = filter-filter (is_live_for host c now) of_class ls implied

    same_read : live_lease s.leases host c now ≡ live_lease t.leases host c now
    same_read =
        unfold live_lease in
        ap longest_lived (
          sym (narrowed s.leases) ∙ ap (filter (is_live_for host c now)) leases ∙ narrowed t.leases)

-- The order of the rows of the two tables has no part in the decision, nor has a repeated row.
pub ruling_in-order :
    (s t : Store) (now : Time) (host client_class : Text)
    → ((r : Rule) → Memᴰ r s.rules → Memᴰ r t.rules)
    → ((r : Rule) → Memᴰ r t.rules → Memᴰ r s.rules)
    → ((l : Lease) → Memᴰ l s.leases → Memᴰ l t.leases)
    → ((l : Lease) → Memᴰ l t.leases → Memᴰ l s.leases)
    → (ruling_in s now host client_class).decision ≡ (ruling_in t now host client_class).decision
ruling_in-order s t now host c f g h k = rw (
  ruling_in-exact s now host c,
  ruling_in-exact t now host c,
  any-eq_of_members (λ r. is_for c r && does (text "block") (match host) r) s.rules t.rules f g,
  any-eq_of_members (λ r. is_for c r && does (text "allow") (match host) r) s.rules t.rules f g,
  any-eq_of_members (is_live_for host c now) s.leases t.leases h k,
)

-- A new block rule denies the hosts that it covers to its own class, and changes nothing else: no
-- allow rule and no lease stands against it.
pub ruling_in-new_block :
    (s : Store) (now : Time) (host client_class : Text) (r : Rule)
    → r.action ≡ text "block"
    → (ruling_in (record s { rules = r ∷ s.rules }) now host client_class).decision ≡ (
        if is_for client_class r && match host r.pattern
        then deny
        else (ruling_in s now host client_class).decision)
ruling_in-new_block s now host c r block =
    rw (ruling_in-exact (record s { rules = r ∷ s.rules }) now host c, ruling_in-exact s now host c)
      (unfold any in
        ground (arith, block, ==_iff r.action (text "block"), ==_iff r.action (text "allow")))

-- A new allow rule allows the hosts that it covers to its own class unless a rule blocks them, and
-- changes nothing else.
pub ruling_in-new_allow :
    (s : Store) (now : Time) (host client_class : Text) (r : Rule)
    → r.action ≡ text "allow"
    → (ruling_in (record s { rules = r ∷ s.rules }) now host client_class).decision ≡ (
        if is_for client_class r
          && match host r.pattern
          && not (has_rule (text "block") client_class (match host) s.rules)
        then allow
        else (ruling_in s now host client_class).decision)
ruling_in-new_allow s now host c r al =
    rw (ruling_in-exact (record s { rules = r ∷ s.rules }) now host c, ruling_in-exact s now host c)
      (unfold any in
        ground (arith, al, ==_iff r.action (text "block"), ==_iff r.action (text "allow")))
