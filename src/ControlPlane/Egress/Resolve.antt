-- ===== src/ControlPlane/Egress/Resolve.antt =====
-- `resolve` of control-plane/api_approvals.py, for a card of the egress proxy: what it refuses, and the
-- row, the rule or the lease that it writes. The id of a new row of `leases` is an argument.
use dockade.Base.{
  ℕ, ◌+◌, Bool, true, ◌&&◌, ◌||◌, not, Option, none, some, List, [], ◌∷◌, ◌++◌, ltb, if◌then◌else◌,
  ◌==◌, find, any, filter, contains, is_empty, list_eq, nat_eq, option_eq,
}
use dockade.Base.Dict.{get}
use dockade.Base.Table.{update, changes}
use dockade.Base.Text.{Text, text, or_empty, lower, strip, is_space, starts_with, ends_with}
use dockade.ControlPlane.Holds.{Time, Event, close_group}
use dockade.ControlPlane.Holds.Orphans.{Approval}
use dockade.ControlPlane.Policy.Hosts.{
  Address, is_some, normalize_host, persist_candidates, unclassified,
}
use dockade.ControlPlane.Policy.Rules.{Rule, Lease, Store, Decision, allow, deny}
use dockade.ControlPlane.Egress.{State, awaits, has_id}

pub record ResolveRequest : Type 0 where
  pub action : Text
  pub pattern : Option Text

-- Why a resolve wrote nothing, with what its detail names.
pub data Unresolved : Type 0 where
  bad_action not_pending unknown raced : Unresolved
  unscoped : Option Text → Unresolved
  no_candidate : Text → Unresolved
  not_offered : Text → List Text → Unresolved
  opposite_rule : Text → Text → Text → Unresolved

pub record Receipt : Type 0 where
  pub outcome : Decision
  pub persisted : Bool
  pub already_present : Bool
  pub pattern : Option Text
  pub lease_expires_at : Option Time
  pub client_class : Option Text

pub data Resolution : Type 0 where
  refused : Unresolved → Resolution
  resolved : Receipt → Resolution

abbrev pub egress_actions : List Text
egress_actions =
    text "allow_once"
    ∷ text "allow_lease"
    ∷ text "allow_persist"
    ∷ text "deny_once"
    ∷ text "deny_persist"
    ∷ []

abbrev pub is_persist : Text → Bool
is_persist action = ends_with action (text "persist")

abbrev pub is_lease : Text → Bool
is_lease action = ends_with action (text "lease")

abbrev pub is_allow : Text → Bool
is_allow action = starts_with action (text "allow")

abbrev pub outcome_of : Text → Decision
outcome_of action = if is_allow action then allow else deny

-- The action of the rule that a persist writes.
abbrev pub wanted : Text → Text
wanted action = if is_allow action then text "allow" else text "block"

-- `not client_class or client_class == policy.UNCLASSIFIED`
abbrev pub has_no_class : Option Text → Bool
has_no_class none = true
has_no_class (some c) = is_empty c || c == unclassified

-- `(req.pattern or "").strip().lower() or allowed[0]`
abbrev pub chosen : Option Text → Text → Text
chosen asked first =
    let p = lower (strip is_space (or_empty asked)) in if is_empty p then first else p

-- The key of the UNIQUE on `rules`.
abbrev pub is_rule_for : Text → Text → Rule → Bool
is_rule_for pattern client_class r = r.pattern == pattern && r.client_class == client_class

-- What the checks before the write come to: a refusal, or the pattern to write.
pub data Checked : Type 0 where
  stop : Unresolved → Checked
  write : Option Text → Checked

unfoldable pub check_existing : Text → Text → Text → Option Rule → Checked
check_existing action pattern cls none = write (some pattern)
check_existing action pattern cls (some r) =
    if r.action == wanted action
    then write (some pattern)
    else stop (opposite_rule pattern cls r.action)

unfoldable pub check_pattern : List Rule → Text → Option Text → Approval → List Text → Checked
check_pattern rules action asked row [] = stop (no_candidate row.host)
check_pattern rules action asked row (first ∷ others) =
    let pattern = chosen asked first in
    let cls = or_empty row.client_class in
    if not (contains pattern (first ∷ others))
    then stop (not_offered pattern (first ∷ others))
    else check_existing action pattern cls (find (is_rule_for pattern cls) rules)

module _ (parse_ip : Text → Option Address) where
  unfoldable pub check_grant : List Rule → Text → Option Text → Approval → Checked
  check_grant rules action asked row =
      if (is_persist action || is_lease action) && has_no_class row.client_class
      then stop (unscoped row.client_class)
      else if is_persist action
      then check_pattern rules action asked row (persist_candidates parse_ip row.host)
      else write none

-- The mode that the row keeps.
abbrev pub mode_of : Text → Text
mode_of action =
    if is_persist action
    then text "persist"
    else if is_lease action
    then text "lease"
    else text "once"

abbrev pub decide_row : Time → Text → Text → Option Text → Approval → Approval
decide_row now action actor pattern a = record a {
  status = if is_allow action then text "allowed" else text "denied";
  mode = some (mode_of action);
  resolved_at = some now;
  resolved_by = some actor;
  pattern = if is_persist action then pattern else none;
}

-- The expired rows go, and the new one comes last.
unfoldable pub write_lease : Time → Lease → List Lease → List Lease
write_lease now l t = filter (λ (m : Lease). ltb now m.expires_at) t ++ l ∷ []

-- `INSERT OR IGNORE`
unfoldable pub write_rule : Rule → List Rule → List Rule
write_rule r t = if any (is_rule_for r.pattern r.client_class) t then t else t ++ r ∷ []

module _ (now lease_seconds : Time) (actor : Text) (new_lease : ℕ) (action id : Text)
    (row : Approval) where
  abbrev pub lease_of_row : Lease
  lease_of_row = record {
    id = new_lease;
    host = normalize_host row.host;
    client_class = or_empty row.client_class;
    approval_id = id;
    expires_at = now + lease_seconds;
  }

  abbrev pub rule_of_row : Text → Rule
  rule_of_row pattern = record {
    pattern = pattern;
    action = wanted action;
    client_class = or_empty row.client_class;
  }

  -- What the decision leaves of the policy.
  unfoldable pub write_policy : Option Text → Store → Store
  write_policy pattern p = record {
    rules =
        if is_persist action then write_rule (rule_of_row (or_empty pattern)) p.rules else p.rules;
    leases = if is_lease action then write_lease now lease_of_row p.leases else p.leases;
  }

  unfoldable pub receipt : Option Text → Store → Receipt
  receipt pattern p =
      let present = any (is_rule_for (or_empty pattern) (or_empty row.client_class)) p.rules in
      record {
        outcome = outcome_of action;
        persisted = is_persist action && not present;
        already_present = is_persist action && present;
        pattern = pattern;
        lease_expires_at = if is_lease action then some (now + lease_seconds) else none;
        client_class = if is_persist action || is_lease action then row.client_class else none;
      }

  -- The conditional `UPDATE`, and what only its winner writes.
  unfoldable pub decide_card : Event → Option Text → State → Resolution × State
  decide_card event pattern s =
      let hit = awaits id in
      let t = update hit (decide_row now action actor pattern) s.approvals in
      if changes hit s.approvals
      then (
        resolved (receipt pattern s.policy),
        record s {
          approvals = t;
          policy = write_policy pattern s.policy;
          registry = close_group id s.registry;
          woken =
              if is_some (get (close_group id s.registry).events id)
              then event ∷ s.woken
              else s.woken;
        },
      )
      else (refused raced, record s { approvals = t })

  unfoldable pub checked : Event → Checked → State → Resolution × State
  checked event (stop why) s = (refused why, s)
  checked event (write pattern) s = decide_card event pattern s

module _ (parse_ip : Text → Option Address) (now lease_seconds : Time) (actor : Text)
    (new_lease : ℕ) (action : Text) (asked : Option Text) where
  unfoldable pub with_row : Text → Event → Option Approval → State → Resolution × State
  with_row id event none s = (refused unknown, s)
  with_row id event (some row) s =
      checked now lease_seconds actor new_lease action id row event
        (check_grant parse_ip s.policy.rules action asked row) s

  unfoldable pub with_event : Text → Option Event → State → Resolution × State
  with_event id none s = (refused not_pending, s)
  with_event id (some event) s = with_row id event (find (has_id id) s.approvals) s

module _ (parse_ip : Text → Option Address) (now lease_seconds : Time) (actor : Text)
    (new_lease : ℕ) where
  unfoldable pub resolve : Text → ResolveRequest → State → Resolution × State
  resolve id req s =
      let action = lower (strip is_space req.action) in
      if not (contains action egress_actions)
      then (refused bad_action, s)
      else with_event parse_ip now lease_seconds actor new_lease action req.pattern id
          (get s.registry.events id) s
