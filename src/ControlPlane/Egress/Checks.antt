-- ===== src/ControlPlane/Egress/Checks.antt =====
-- What the checks of `resolve` in control-plane/api_approvals.py let through, and what its writes add.
use mathlib.Core.List.{Memᴰ}
use dockade.Base.{
  ◌≡◌, refl, ◌⊎◌, inl, inr, true, false, ◌||◌, Option, none, some, List, [], ◌∷◌, ◌++◌, arith, ◌==◌,
  ==_iff, find, any, filter, All, contains, Bool-cases, list_eq, nat_eq, option_eq, ltb,
}
use dockade.Base.Members.{mem_of_mem-filter}
use dockade.Base.Text.{Text, or_empty, starts_with, ends_with}
use dockade.ControlPlane.Holds.{Time}
use dockade.ControlPlane.Holds.Orphans.{Approval}
use dockade.ControlPlane.Policy.Hosts.{Address, exact_form, persist_candidates}
use dockade.ControlPlane.Policy.Candidates.{IsOffered, persist_candidates-IsOffered}
use dockade.ControlPlane.Policy.Rules.{Rule, Lease}
use dockade.ControlPlane.Egress.Resolve.{
  egress_actions, write, write_lease, write_rule, is_persist, is_lease, is_allow, has_no_class,
  chosen, check_grant, check_pattern, check_existing, is_rule_for,
}

pub mem-append_one {ℓ} :
    {A : Type ℓ} (xs : List A) (y z : A) → Memᴰ z (xs ++ y ∷ []) → Memᴰ z xs ⊎ (z ≡ y)
mem-append_one [] y z (Memᴰ.head e) = inr e
mem-append_one [] y z (Memᴰ.tail m) = elim m [ ]
mem-append_one (x ∷ xs) y z (Memᴰ.head e) = inl (Memᴰ.head e)
mem-append_one (x ∷ xs) y z (Memᴰ.tail m) = elim (mem-append_one xs y z m) [
  | inl deep ↦ inl (Memᴰ.tail deep)
  | inr e ↦ inr e
]

pub write_lease-mem :
    (now : Time) (new l : Lease) (t : List Lease)
    → Memᴰ l (write_lease now new t)
    → Memᴰ l t ⊎ (l ≡ new)
unfolding write_lease
write_lease-mem now new l t m =
    elim (mem-append_one (filter (λ (k : Lease). ltb now k.expires_at) t) new l m) [
      | inl old ↦ inl (mem_of_mem-filter (λ (k : Lease). ltb now k.expires_at) t l old).0
      | inr e ↦ inr e
    ]

pub write_rule-mem :
    (new r : Rule) (t : List Rule) → Memᴰ r (write_rule new t) → Memᴰ r t ⊎ (r ≡ new)
unfolding write_rule
write_rule-mem new r t m = elim (Bool-cases (any (is_rule_for new.pattern new.client_class) t)) [
  | inl present ↦ inl (rw present at m)
  | inr absent ↦ mem-append_one t new r (rw absent at m)
]

pub All-contains {κ} :
    (P : Text → Type κ) (t : Text) (ts : List Text) → All P ts → contains t ts ≡ true → P t
unfolding contains
All-contains P t [] h c = absurd (cc)
All-contains P t (u ∷ us) h c = elim (Bool-cases (t == u)) [
  | inl e ↦ let same : t ≡ u = (==_iff t u).0 e in rw same h.0
  | inr e ↦ All-contains P t us h.1 (rw e at c)
]

check_pattern-write :
    (rules : List Rule) (action : Text) (asked : Option Text) (row : Approval) (allowed : List Text)
    (o : Option Text)
    → check_pattern rules action asked row allowed ≡ write o
    → (p : Text) × (o ≡ some p) × (contains p allowed ≡ true)
unfolding check_pattern
check_pattern-write rules action asked row [] o h = absurd (cc)
check_pattern-write rules action asked row (first ∷ others) o h =
    elim (Bool-cases (contains (chosen asked first) (first ∷ others))) [
      | inl fits ↦
          (chosen asked first, existing (chosen asked first) _ (find _ rules) (rw fits at h), fits)
      | inr misfit ↦ absurd (cc (rw misfit at h))
    ]
  where
    existing :
        (p cls : Text) (r : Option Rule) → check_existing action p cls r ≡ write o → o ≡ some p
    existing p cls none k = unfold check_existing in cc (k)
    existing p cls (some r) k = unfold check_existing in ground (arith, k)

-- What the checks let through: a class that is known, and a pattern of the card's candidates.
module _ (parse_ip : Text → Option Address) (rules : List Rule) (action : Text)
    (asked : Option Text) (row : Approval) (o : Option Text)
    (h : check_grant parse_ip rules action asked row ≡ write o) where
  pub check_grant-known :
      (is_persist action || is_lease action) ≡ true → has_no_class row.client_class ≡ false
  unfolding check_grant
  check_grant-known outlives = ground arith

  check_grant-pattern :
      is_persist action ≡ true
      → check_pattern rules action asked row (persist_candidates parse_ip row.host) ≡ write o
  unfolding check_grant
  check_grant-pattern persists = ground arith

  pub check_grant-IsOffered :
      is_persist action ≡ true → (p : Text) × (o ≡ some p) × IsOffered (exact_form row.host) p
  check_grant-IsOffered persists =
      let candidates = persist_candidates parse_ip row.host in
      let (p, e, fits) =
        check_pattern-write rules action asked row candidates o (check_grant-pattern persists) in
      (
        p,
        e,
        All-contains (IsOffered (exact_form row.host)) p candidates
            (persist_candidates-IsOffered parse_ip row.host) fits,
      )

pub or_empty_known : (o : Option Text) → has_no_class o ≡ false → o ≡ some (or_empty o)
or_empty_known none h = absurd (cc)
or_empty_known (some c) h = refl

pub known_some :
    (o : Option Text) → has_no_class o ≡ false → has_no_class (some (or_empty o)) ≡ false
known_some none h = absurd (cc)
known_some (some c) h = h

-- Only `allow_lease` leases.
abbrev pub OnlyAllows : Text → Type 0
OnlyAllows action = is_lease action ≡ true → (is_allow action ≡ true) × (is_persist action ≡ false)

pub egress_actions-OnlyAllows : All OnlyAllows egress_actions
unfolding starts_with ends_with
egress_actions-OnlyAllows = (
  λ h. absurd (cc),
  (λ h. (refl, refl), (λ h. absurd (cc), (λ h. absurd (cc), (λ h. absurd (cc), tt)))),
)
