-- ===== src/ControlPlane/Egress/Grants.antt =====
-- Where the leases and the rules that `resolve` of control-plane/api_approvals.py writes come from.
use mathlib.Core.List.{Memᴰ}
use dockade.Base.{
  ℕ, ◌≡◌, refl, ◌⊎◌, inl, inr, Bool, true, false, Option, none, some, List, arith, if◌then◌else◌,
  ◌==◌, ==_iff, find, contains, Bool-cases, list_eq, nat_eq, option_eq,
}
use dockade.Base.Table.{changes}
use dockade.Base.Text.{Text, text, or_empty}
use dockade.ControlPlane.Holds.{Time, Event}
use dockade.ControlPlane.Holds.Orphans.{Approval}
use dockade.ControlPlane.Policy.Hosts.{Address, exact_form, normalize_host}
use dockade.ControlPlane.Policy.Candidates.{IsOffered}
use dockade.ControlPlane.Policy.Rules.{Rule, Lease}
use dockade.ControlPlane.Egress.{
  State, AuthorizeRequest, awaits, has_id, record_hold, with_rows, settle, abandon, write_line,
  expire_card,
}
use dockade.ControlPlane.Egress.Rows.{
  HasUniqueIds, KeepsDecided, update-KeepsDecided, find-update, find-has_id, changes-awaits,
}
use dockade.ControlPlane.Egress.Resolve.{
  egress_actions, ResolveRequest, write, decide_row, write_policy, is_persist, is_lease, is_allow,
  has_no_class, check_grant, lease_of_row, rule_of_row,
}
use dockade.ControlPlane.Egress.Checks.{
  write_lease-mem, write_rule-mem, All-contains, OnlyAllows, egress_actions-OnlyAllows,
  check_grant-known, check_grant-IsOffered, or_empty_known, known_some,
}
use dockade.ControlPlane.Egress.Outcomes.{ask-IsAsked, resolve_rule, action_of, decided}
use dockade.ControlPlane.Egress.Invariant.{IsSoundWorld, Kept, Step-Kept, Run-Kept}
use dockade.ControlPlane.Egress.Steps.{
  World, Settings, Step, Run, asks, records, settles, fails, resolves, done, next,
}

-- The card that a lease was granted from: allowed for a while, of this host and of a known class.
pub record LeaseFromCard (t : List Approval) (l : Lease) : Type 0 where
  pub row : Approval
  pub found : find (has_id l.approval_id) t ≡ some row
  pub status : row.status ≡ text "allowed"
  pub mode : row.mode ≡ some (text "lease")
  pub host : l.host ≡ normalize_host row.host
  pub client_class : row.client_class ≡ some l.client_class
  pub known : has_no_class (some l.client_class) ≡ false

-- The card that a rule was written from: decided for good, the pattern one that its host is offered.
pub record RuleFromCard (t : List Approval) (r : Rule) : Type 0 where
  pub row : Approval
  pub id : Text
  pub found : find (has_id id) t ≡ some row
  pub status : row.status ≡ (if r.action == text "allow" then text "allowed" else text "denied")
  pub mode : row.mode ≡ some (text "persist")
  pub pattern : row.pattern ≡ some r.pattern
  pub offered : IsOffered (exact_form row.host) r.pattern
  pub client_class : row.client_class ≡ some r.client_class
  pub known : has_no_class (some r.client_class) ≡ false

-- Every lease comes from a card, and every rule that was not there from the start.
pub record IsGranted (seed : List Rule) (s : State) : Type 0 where
  pub leases : (l : Lease) → Memᴰ l s.policy.leases → LeaseFromCard s.approvals l
  pub rules : (r : Rule) → Memᴰ r s.policy.rules → Memᴰ r seed ⊎ RuleFromCard s.approvals r

lease_kept :
    (t u : List Approval) (l : Lease) → KeepsDecided t u → LeaseFromCard t l → LeaseFromCard u l
lease_kept t u l keeps c = record {
  row = c.row;
  status = c.status;
  mode = c.mode;
  host = c.host;
  client_class = c.client_class;
  known = c.known;
  found = keeps l.approval_id c.row c.found (rw c.status refl);
}

rule_kept :
    (t u : List Approval) (r : Rule) → KeepsDecided t u → RuleFromCard t r → RuleFromCard u r
rule_kept t u r keeps c = record {
  row = c.row;
  id = c.id;
  status = c.status;
  mode = c.mode;
  pattern = c.pattern;
  offered = c.offered;
  client_class = c.client_class;
  known = c.known;
  found = keeps c.id c.row c.found (elim (Bool-cases (r.action == text "allow")) [
    | inl e ↦ rw (c.status, e) refl
    | inr e ↦ rw (c.status, e) refl
  ]);
}

-- With the policy as it was.
keeps-IsGranted :
    (seed : List Rule) (s t : State)
    → t.policy ≡ s.policy
    → KeepsDecided s.approvals t.approvals
    → IsGranted seed s
    → IsGranted seed t
keeps-IsGranted seed s t same keeps h = record {
  leases = λ l m. lease_kept s.approvals t.approvals l keeps (h.leases l (rw same at m));
  rules = λ r m. elim (h.rules r (rw same at m)) [
    | inl old ↦ inl old
    | inr card ↦ inr (rule_kept s.approvals t.approvals r keeps card)
  ];
}

with_rows-policy :
    (g : Settings) (id : Text) (q : AuthorizeRequest) (joined : Bool) (o : Option (List Approval))
    (s : State)
    → (with_rows g.parse_ip g.classes id q joined o s).policy ≡ s.policy
with_rows-policy g id q joined none s = unfold with_rows abandon in refl
with_rows-policy g id q joined (some t) s = unfold with_rows write_line in refl

module _ (seed : List Rule) (s : State) (unique : HasUniqueIds s.approvals) (h : IsGranted seed s)
    (parse_ip : Text → Option Address) (now lease_seconds : Time) (actor : Text) (new_lease : ℕ)
    (id : Text) (req : ResolveRequest) (event : Event) (row : Approval) (pattern : Option Text)
    (found : find (has_id id) s.approvals ≡ some row)
    (checks : check_grant parse_ip s.policy.rules (action_of req) req.pattern row ≡ write pattern)
    (changed : changes (awaits id) s.approvals ≡ true) where
  abbrev after : State
  after = decided now lease_seconds actor new_lease id req s event row pattern

  abbrev after_row : Approval
  after_row = decide_row now (action_of req) actor pattern row

  found_after : find (has_id id) after.approvals ≡ some after_row
  found_after =
      let waits : (row.status == text "pending") ≡ true =
        cc (changes-awaits id s.approvals row unique found, changed) in
      ground (
        arith,
        find-update (awaits id) (decide_row now (action_of req) actor pattern)
            (λ (b : Approval). refl) id s.approvals,
        found,
        find-has_id id s.approvals row found,
        ==_iff row.id id,
      )

  new_lease-LeaseFromCard :
      is_lease (action_of req) ≡ true
      → is_allow (action_of req) ≡ true
      → is_persist (action_of req) ≡ false
      → LeaseFromCard after.approvals
          (lease_of_row now lease_seconds actor new_lease (action_of req) id row)
  new_lease-LeaseFromCard leases allows once =
      let known : has_no_class row.client_class ≡ false =
        check_grant-known parse_ip s.policy.rules (action_of req) req.pattern row pattern checks
          (ground arith) in
      record {
        row = after_row;
        found = found_after;
        status = rw allows refl;
        mode = ground arith;
        host = refl;
        client_class = or_empty_known row.client_class known;
        known = known_some row.client_class known;
      }

  new_rule-RuleFromCard :
      is_persist (action_of req) ≡ true
      → RuleFromCard after.approvals
          (rule_of_row now lease_seconds actor new_lease (action_of req) id row (or_empty pattern))
  new_rule-RuleFromCard persists =
      let known : has_no_class row.client_class ≡ false =
        check_grant-known parse_ip s.policy.rules (action_of req) req.pattern row pattern checks
          (ground arith) in
      let (p, e, offered) =
        check_grant-IsOffered parse_ip s.policy.rules (action_of req) req.pattern row pattern checks
          persists in
      record {
        row = after_row;
        id = id;
        found = found_after;
        status = ground arith;
        mode = ground arith;
        pattern = rw (persists, e) refl;
        offered = rw e offered;
        client_class = or_empty_known row.client_class known;
        known = known_some row.client_class known;
      }

  -- What the decision leaves of the leases and the rules.
  decided_leases :
      (outlives : Bool)
      → is_lease (action_of req) ≡ outlives
      → contains (action_of req) egress_actions ≡ true
      → (l : Lease) → Memᴰ l after.policy.leases
      → LeaseFromCard after.approvals l
  unfolding write_policy
  decided_leases false once action l m =
      lease_kept s.approvals after.approvals l
        (update-KeepsDecided id (decide_row now (action_of req) actor pattern) (λ b. refl)
          s.approvals)
        (h.leases l (rw once at m))
  decided_leases true leases action l m =
      elim (write_lease-mem now _ l s.policy.leases (rw leases at m)) [
        | inl old ↦
            lease_kept s.approvals after.approvals l
              (update-KeepsDecided id (decide_row now (action_of req) actor pattern) (λ b. refl)
                s.approvals)
              (h.leases l old)
        | inr e ↦
            let (allows, once) =
              All-contains OnlyAllows (action_of req) egress_actions egress_actions-OnlyAllows
                action leases in
            rw e (new_lease-LeaseFromCard leases allows once)
      ]

  decided_rules :
      (standing : Bool)
      → is_persist (action_of req) ≡ standing
      → (r : Rule) → Memᴰ r after.policy.rules
      → Memᴰ r seed ⊎ RuleFromCard after.approvals r
  unfolding write_policy
  decided_rules standing persists r m = elim (kept_or_new standing persists m) [
    | inl old ↦ elim (h.rules r old) [
      | inl seeded ↦ inl seeded
      | inr card ↦ inr (
          rule_kept s.approvals after.approvals r
            (update-KeepsDecided id (decide_row now (action_of req) actor pattern) (λ b. refl)
              s.approvals)
            card)
    ]
    | inr (again, e) ↦ inr (rw e (new_rule-RuleFromCard again))
  ]
    where
      kept_or_new :
          (b : Bool)
          → is_persist (action_of req) ≡ b
          → Memᴰ r after.policy.rules
          → Memᴰ r s.policy.rules
            ⊎ ((is_persist (action_of req) ≡ true)
                × (r
                    ≡ rule_of_row now lease_seconds actor new_lease
                        (action_of req)
                        id
                        row
                        (or_empty pattern)))
      kept_or_new false once k = inl (rw once at k)
      kept_or_new true again k = elim (write_rule-mem _ r s.policy.rules (rw again at k)) [
        | inl old ↦ inl old
        | inr e ↦ inr (again, e)
      ]

Step-IsGranted :
    (g : Settings) (seed : List Rule) (w v : World)
    → IsSoundWorld g.caps w
    → Step g w v
    → IsGranted seed w.state
    → IsGranted seed v.state
Step-IsGranted g seed w v sound step h = by_step step
  where
    kept : Kept g.caps w v
    kept = Step-Kept g w v sound step

    by_step : Step g w v → IsGranted seed v.state
    by_step (asks now later id event q fresh e) =
        keeps-IsGranted seed w.state v.state
          (rw e (ask-IsAsked g.parse_ip g.classes g.caps now later id event q w.state).policy)
          kept.decided h
    by_step (records disk_ok now id q joined there e) =
        keeps-IsGranted seed w.state v.state
          (rw e (unfold record_hold in with_rows-policy g id q joined _ w.state)) kept.decided h
    by_step (settles now id q there e) =
        keeps-IsGranted seed w.state v.state
          (rw e (unfold settle write_line abandon expire_card in refl)) kept.decided h
    by_step (fails id there e) =
        keeps-IsGranted seed w.state v.state (rw e (unfold abandon in refl)) kept.decided h
    by_step (resolves now actor new_lease id req e) = rw e (
        resolve_rule g.parse_ip now g.lease_seconds actor new_lease id req w.state
          (λ out. IsGranted seed out.1) (λ why. h)
          (λ event row pattern action registered found checks changed. record {
            leases =
                decided_leases seed w.state sound.unique h g.parse_ip now g.lease_seconds actor
                  new_lease id req event row pattern found checks changed (is_lease (action_of req))
                  refl action;
            rules =
                decided_rules seed w.state sound.unique h g.parse_ip now g.lease_seconds actor
                  new_lease id req event row pattern found checks changed
                  (is_persist (action_of req)) refl;
          }))

-- Whatever the order of requests, timeouts, failures and clicks: every lease in the store names a
-- card that an operator allowed for a while, and is of that card's host and class; and every
-- standing rule that was not there at the start was written from a card that an operator decided
-- for good, in the direction of the decision, for the card's class, which is a known one, with a
-- pattern that the card's host was offered. The premise is a sound start whose leases come from
-- cards.
pub Run-IsGranted :
    (g : Settings) (seed : List Rule) {w v : World}
    → IsSoundWorld g.caps w
    → IsGranted seed w.state
    → Run g w v
    → IsGranted seed v.state
Run-IsGranted g seed sound h (done e) = rw (← e) h
Run-IsGranted g seed sound h (next {w} {m} {v} before step) =
    Step-IsGranted g seed m v (Run-Kept g sound before).sound step
      (Run-IsGranted g seed sound h before)
