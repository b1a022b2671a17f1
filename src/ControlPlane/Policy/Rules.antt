-- ===== src/ControlPlane/Policy/Rules.antt =====
-- control-plane/policy.py: what a host decides to for a class of clients, from the `rules` and
-- `leases` tables. A `SELECT` is a list in the order of the table; the clock is an argument.
pub mod Exact
pub mod Leases
pub mod Isolation
pub mod Landing
pub mod Tests
use dockade.Base.{
  ℕ, ◌-◌, Bool, true, false, ◌&&◌, ◌||◌, not, Option, none, some, List, [], ◌∷◌, map, ltb, leb,
  if◌then◌else◌, ◌==◌, nat_eq, list_eq, filter, find,
}
use dockade.Base.Text.{Text, text, starts_with_dot, tail}
use dockade.ControlPlane.Policy.Hosts.{match, normalize_host}

abbrev pub Time : Type 0
Time = ℕ

pub record Rule : Type 0 where
  pub pattern : Text
  pub action : Text
  pub client_class : Text

pub record Lease : Type 0 where
  pub id : ℕ
  pub host : Text
  pub client_class : Text
  pub approval_id : Text
  pub expires_at : Time

pub record Store : Type 0 where
  pub rules : List Rule
  pub leases : List Lease

pub data Decision : Type 0 where
  allow deny hold : Decision

-- The reason of a decision, by what its sentence names.
pub data Reason : Type 0 where
  blocked_by_rule : Text → Text → Reason
  allowed_by_rule : Text → Text → Reason
  allowed_by_lease : Text → Text → Time → Reason
  no_matching_rule : Text → List Text → Reason

-- With the approval id of the lease that decided.
pub record Ruling : Type 0 where
  pub decision : Decision
  pub reason : Reason
  pub lease_card : Option Text

-- Python's `<` on `str`, by code points.
unfoldable pub text_lt : Text → Text → Bool
text_lt [] [] = false
text_lt [] (d ∷ u) = true
text_lt (c ∷ t) [] = false
text_lt (c ∷ t) (d ∷ u) = ltb c d || c == d && text_lt t u

-- One element put into a sorted set.
unfoldable pub insert_sorted : Text → List Text → List Text
insert_sorted t [] = t ∷ []
insert_sorted t (u ∷ us) =
    let rest = insert_sorted t us in
    if t == u then u ∷ us else if text_lt t u then t ∷ u ∷ us else u ∷ rest

-- `sorted({...})`
unfoldable pub sorted_set : List Text → List Text
sorted_set [] = []
sorted_set (t ∷ ts) = insert_sorted t (sorted_set ts)

abbrev pub is_for : Text → Rule → Bool
is_for client_class r = r.client_class == client_class

abbrev pub does : Text → (Text → Bool) → Rule → Bool
does action covers r = r.action == action && covers r.pattern

-- The two passes over the rules of the class: blocks, then allows.
unfoldable pub passes_over : List Rule → Text → (Text → Bool) → Option (Decision × Reason)
passes_over mine client_class covers = elim (find (does (text "block") covers) mine) [
  | some r ↦ some (deny, blocked_by_rule r.pattern client_class)
  | none ↦ elim (find (does (text "allow") covers) mine) [
    | some r ↦ some (allow, allowed_by_rule r.pattern client_class)
    | none ↦ none
  ]
]

unfoldable pub rule_pass : List Rule → Text → (Text → Bool) → Option (Decision × Reason)
rule_pass rows client_class covers =
    passes_over (filter (is_for client_class) rows) client_class covers

unfoldable pub held : List Rule → Text → (Text → Bool) → Decision × Reason
held rows client_class covers =
    let others = filter (λ r. not (is_for client_class r) && covers r.pattern) rows in
    (hold, no_matching_rule client_class (sorted_set (map (λ r. r.client_class) others)))

-- The condition of the `SELECT` on `leases`.
abbrev pub is_live_for : Text → Text → Time → Lease → Bool
is_live_for host client_class now l =
    l.host == host && l.client_class == client_class && ltb now l.expires_at

-- `ORDER BY expires_at DESC LIMIT 1`
unfoldable pub longest_lived : List Lease → Option Lease
longest_lived [] = none
longest_lived (l ∷ ls) = elim (longest_lived ls) [
  | none ↦ some l
  | some m ↦ if ltb l.expires_at m.expires_at then some m else some l
]

unfoldable pub live_lease : List Lease → Text → Text → Time → Option Lease
live_lease leases host client_class now =
    longest_lived (filter (is_live_for host client_class now) leases)

-- The ruling on a host in its normalized form.
unfoldable pub ruling_in : Store → Time → Text → Text → Ruling
ruling_in store now host client_class = elim (rule_pass store.rules client_class (match host)) [
  | some (d, why) ↦ record { decision = d; reason = why; lease_card = none }
  | none ↦ elim (live_lease store.leases host client_class now) [
    | some l ↦ record {
      decision = allow;
      reason = allowed_by_lease host client_class (l.expires_at - now);
      lease_card = some l.approval_id;
    }
    | none ↦
        let (d, why) = held store.rules client_class (match host) in
        record { decision = d; reason = why; lease_card = none }
  ]
]

unfoldable pub ruling : Store → Time → Text → Text → Ruling
ruling store now host client_class = ruling_in store now (normalize_host host) client_class

abbrev pub decision_of : Ruling → Decision × Reason
decision_of r = (r.decision, r.reason)

unfoldable pub decide : Store → Time → Text → Text → Decision × Reason
decide store now host client_class = decision_of (ruling store now host client_class)

unfoldable pub decide_in : Store → Time → Text → Text → Decision × Reason
decide_in store now host client_class = decision_of (ruling_in store now host client_class)

-- A wildcard rule that covers the whole subtree of the apex.
unfoldable pub covers_subtree : Text → Text → Bool
covers_subtree apex p = starts_with_dot p && match apex p

unfoldable pub subtree : Store → Text → Text → Decision × Reason
subtree store apex client_class = elim (rule_pass store.rules client_class (covers_subtree apex)) [
  | some decided ↦ decided
  | none ↦ held store.rules client_class (covers_subtree apex)
]

unfoldable pub landing :
    Store → Time → Text → Text → (Decision × Reason) × Option (Decision × Reason)
landing store now pattern client_class =
    if not (starts_with_dot pattern) then (decide_in store now pattern client_class, none) else (
      decide_in store now (tail pattern) client_class,
      some (subtree store (tail pattern) client_class),
    )
