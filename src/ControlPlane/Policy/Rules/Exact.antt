-- ===== src/ControlPlane/Policy/Rules/Exact.antt =====
-- Which of allow, deny and hold control-plane/policy.py decides, against a description that reads
-- the tables row by row.
use mathlib.Core.List.{Memᴰ}
use dockade.Base.{
  ◌≤◌, ◌≢◌, Option-cases, ◌≡◌, refl, Bool, true, false, ◌&&◌, Option, none, some, List, [], ◌∷◌,
  arith, if◌then◌else◌, nat_eq, list_eq, filter, find, any, Bool-cases, inl, inr,
}
use dockade.Base.Text.{Text, text}
use dockade.ControlPlane.Policy.Hosts.{match}
use dockade.ControlPlane.Policy.Rules.Leases.{live_lease-none, live_lease-some, live_lease_lem}
use dockade.ControlPlane.Policy.Rules.{
  Time, Rule, Lease, Store, Decision, allow, deny, hold, is_for, does, is_live_for, rule_pass,
  passes_over, held, live_lease, ruling_in,
}

-- Some rule of the class has this action and covers the host.
abbrev pub has_rule : Text → Text → (Text → Bool) → List Rule → Bool
has_rule action client_class covers = any (λ r. is_for client_class r && does action covers r)

pub find-filter-none {ℓ} :
    {A : Type ℓ} (p q : A → Bool) (xs : List A)
    → any (λ x. p x && q x) xs ≡ false
    → find q (filter p xs) ≡ none
unfolding find filter any
find-filter-none p q [] h = refl
find-filter-none p q (x ∷ xs) h = ground (arith, find-filter-none p q xs)

pub find-filter-some {ℓ} :
    {A : Type ℓ} (p q : A → Bool) (xs : List A)
    → any (λ x. p x && q x) xs ≡ true
    → (x : A) × (find q (filter p xs) ≡ some x)
unfolding find filter any
find-filter-some p q [] h = absurd (cc)
find-filter-some p q (x ∷ xs) h = elim (Bool-cases (p x && q x)) [
  | inl hit ↦ (x, ground arith)
  | inr miss ↦ let (y, found) = find-filter-some p q xs (rw miss at h) in (y, ground arith)
]

-- What the rules alone decide.
abbrev pub by_rules : Text → (Text → Bool) → List Rule → Option Decision
by_rules client_class covers rows =
    if has_rule (text "block") client_class covers rows
    then some deny
    else if has_rule (text "allow") client_class covers rows
    then some allow
    else none

abbrev pub decision_only {ℓ} : {A : Type ℓ} → Option (Decision × A) → Option Decision
decision_only none = none
decision_only (some (d, _)) = some d

pub rule_pass-by_rules :
    (rows : List Rule) (client_class : Text) (covers : Text → Bool)
    → decision_only (rule_pass rows client_class covers) ≡ by_rules client_class covers rows
unfolding rule_pass passes_over
rule_pass-by_rules rows c covers = elim (Bool-cases (has_rule (text "block") c covers rows)) [
  | inl blocked ↦
      let (r, found) = find-filter-some (is_for c) (does (text "block") covers) rows blocked in
      ground (arith, blocked, found)
  | inr free ↦
      let clear = find-filter-none (is_for c) (does (text "block") covers) rows free in
      elim (Bool-cases (has_rule (text "allow") c covers rows)) [
        | inl allowed ↦
            let (r, found) =
              find-filter-some (is_for c) (does (text "allow") covers) rows allowed in
            ground (arith, free, clear, allowed, found)
        | inr unknown ↦ ground (
          arith,
          free,
          clear,
          unknown,
          find-filter-none (is_for c) (does (text "allow") covers) rows unknown,
        )
      ]
]

-- A host of a class is denied exactly if some rule of the class blocks it, whatever else is stored;
-- otherwise it is allowed exactly if some rule of the class allows it or some lease of that host and
-- class has not expired; otherwise it is held. No rule or lease of another class has a part in it.
pub ruling_in-exact :
    (store : Store) (now : Time) (host client_class : Text)
    → (ruling_in store now host client_class).decision ≡ (
        if has_rule (text "block") client_class (match host) store.rules
        then deny
        else if has_rule (text "allow") client_class (match host) store.rules
        then allow
        else if any (is_live_for host client_class now) store.leases
        then allow
        else hold)
unfolding ruling_in held
ruling_in-exact store now host c = ground (
  arith,
  rule_pass-by_rules store.rules c (match host),
  live_lease-none store.leases host c now,
  live_lease-some store.leases host c now,
)

-- A ruling that credits a card is an allow that no rule decided: the card is that of a lease in the
-- table, of this host and class, that has not expired and that no other such lease outlives.
pub ruling_in-lease_card :
    (store : Store) (now : Time) (host client_class card : Text)
    → (ruling_in store now host client_class).lease_card ≡ some card
    → ((ruling_in store now host client_class).decision ≡ allow)
      × (by_rules client_class (match host) store.rules ≡ none)
      × ((l : Lease) × Memᴰ l store.leases
          × (is_live_for host client_class now l ≡ true)
          × (l.approval_id ≡ card)
          × ((m : Lease)
              → Memᴰ m store.leases
              → is_live_for host client_class now m ≡ true
              → m.expires_at ≤ l.expires_at))
unfolding ruling_in held
ruling_in-lease_card store now host c card h =
    elim (Option-cases (rule_pass store.rules c (match host))) [
      | inr (d, e) ↦ absurd (ground arith)
      | inl e ↦ elim (Option-cases (live_lease store.leases host c now)) [
        | inl none_live ↦ absurd (ground arith)
        | inr (l, read) ↦
            let (there, live, best) = live_lease_lem store.leases host c now l read in
            (
              ground arith,
              ground (arith, rule_pass-by_rules store.rules c (match host)),
              (l, there, live, ground arith, best),
            )
      ]
    ]

-- Where no rule decides and a lease is live, the card of one is credited.
pub ruling_in-credited :
    (store : Store) (now : Time) (host client_class : Text)
    → by_rules client_class (match host) store.rules ≡ none
    → any (is_live_for host client_class now) store.leases ≡ true
    → (ruling_in store now host client_class).lease_card ≢ none
unfolding ruling_in
ruling_in-credited store now host c free live e =
    elim (Option-cases (rule_pass store.rules c (match host))) [
      | inr (d, k) ↦ absurd (ground (arith, rule_pass-by_rules store.rules c (match host), free, k))
      | inl none_decides ↦ absurd (
          ground (
            arith,
            none_decides,
            live,
            e,
            live_lease-none store.leases host c now,
            live_lease-some store.leases host c now,
          ))
    ]
