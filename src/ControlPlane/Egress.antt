-- ===== src/ControlPlane/Egress.antt =====
-- control-plane/api_authorize.py: the egress proxy's question, from its arrival to its answer. A worker
-- runs `ask`, `record_hold` and `settle`, with those of others between; `abandon` is what is left of
-- them where a write to the store fails. A row of `approvals` is in Holds/Orphans.
pub mod Resolve
pub mod Rows
pub mod Outcomes
pub mod Steps
pub mod Invariant
pub mod Agreement
pub mod Checks
pub mod Grants
pub mod Slots
pub mod Refine
pub mod Answers
pub mod Tests
use dockade.Base.{
  ℕ, Bool, true, false, ◌&&◌, ◌||◌, not, Option, none, some, List, [], ◌∷◌, ◌++◌, if◌then◌else◌,
  ◌==◌, find, any, list_eq, nat_eq, option_eq,
}
use dockade.Base.Table.{update, changes}
use dockade.Base.Text.{Text, text, or_none}
use dockade.ControlPlane.Holds.{
  Time, Event, Caps, Registry, Request, Scope, HoldSlot, reserve_hold, close_group, release_hold,
}
use dockade.ControlPlane.Holds.Orphans.{Approval}
use dockade.ControlPlane.Asks.Register.{unencodable}
use dockade.ControlPlane.Policy.Hosts.{Address, ClientClasses, client_class, is_some}
use dockade.ControlPlane.Policy.Rules.{Store, Reason, Decision, allow, deny, hold, ruling}

pub record AuthorizeRequest : Type 0 where
  pub host : Text
  pub port : Option ℕ
  pub proto : Option Text
  pub client : Option Text
  pub method : Option Text
  pub url : Option Text
  pub stage : Option Text

-- How far a decision reached.
pub data Reach : Type 0 where
  rule_written : Option Text → Reach
  lease_written this_request_only : Reach

-- The sentence of an answer or of an audit row, as what it is made of.
pub data Why : Type 0 where
  unencodable_field : Why
  by_policy : Reason → Why
  over_cap : Scope → Why
  joined_hold : Text → Why
  held_for_approval : Why
  no_decision : Why
  human_approval human_rejection : Reach → Why

pub record AuthorizeResponse : Type 0 where
  pub decision : Decision
  pub reason : Why

-- A row of `audit`, of a request to the proxy.
pub record AuditLine : Type 0 where
  pub decision : Decision
  pub request : AuthorizeRequest
  pub client_class : Text
  pub approval_id : Option Text
  pub actor : Option Text
  pub reason : Why

-- The registry of holds.py, the tables, and the events that are set.
pub record State : Type 0 where
  pub registry : Registry
  pub approvals : List Approval
  pub policy : Store
  pub audit : List AuditLine
  pub woken : List Event

unfoldable pub decision_scope : Option Approval → Reach
decision_scope none = this_request_only
decision_scope (some row) =
    if row.mode == some (text "persist")
    then rule_written (or_none row.pattern)
    else if row.mode == some (text "lease")
    then lease_written
    else this_request_only

abbrev pub has_surrogate : Option Text → Bool
has_surrogate none = false
has_surrogate (some t) = unencodable t

unfoldable pub is_unencodable : AuthorizeRequest → Bool
is_unencodable q =
    unencodable q.host || any has_surrogate (q.proto ∷ q.client ∷ q.method ∷ q.url ∷ q.stage ∷ [])

-- `store._audit`
unfoldable pub write_line :
    Decision → AuthorizeRequest → Text → Option Text → Option Text → Why → State → State
write_line d q cls card actor why s = record s {
  audit =
      s.audit
      ++ record {
        decision = d;
        request = q;
        client_class = cls;
        approval_id = card;
        actor = actor;
        reason = why;
      }
        ∷ [];
}

-- What the first half of `_answer` comes to: an answer, or a slot to wait on.
pub data Asked : Type 0 where
  answered : AuthorizeResponse → Asked
  reserved : HoldSlot → Asked

abbrev pub to_request : AuthorizeRequest → Request
to_request q = record { client = q.client; host = some q.host; port = q.port; proto = q.proto }

abbrev pub respond : Decision → Why → AuthorizeResponse
respond d why = record { decision = d; reason = why }

-- After `_reserve_hold`.
unfoldable pub by_slot : AuthorizeRequest → Text → Option Scope → HoldSlot → State → Asked × State
by_slot q cls (some scope) slot s =
    (answered (respond deny (over_cap scope)), write_line deny q cls none none (over_cap scope) s)
by_slot q cls none slot s = (reserved slot, s)

unfoldable pub by_decision :
    Caps
    → Time
    → Text
    → Event
    → AuthorizeRequest
    → Text
    → Decision
    → Why
    → Option Text
    → State
    → Asked × State
by_decision caps now id event q cls hold why card s =
    let (slot, registry) = reserve_hold caps now id event (to_request q) s.registry in
    by_slot q cls slot.refused slot (record s { registry = registry })
by_decision caps now id event q cls allow why card s =
    (answered (respond allow why), write_line allow q cls card none why s)
by_decision caps now id event q cls deny why card s =
    (answered (respond deny why), write_line deny q cls card none why s)

module _ (parse_ip : Text → Option Address) (classes : ClientClasses) where
  abbrev pub class_for : AuthorizeRequest → Text
  class_for q = client_class parse_ip classes q.client

  -- `_answer` up to the slot; `now` is read for the leases, `later` for the hold.
  unfoldable pub ask : Caps → Time → Time → Text → Event → AuthorizeRequest → State → Asked × State
  ask caps now later id event q s =
      let cls = class_for q in
      if is_unencodable q
      then by_decision caps later id event q cls deny unencodable_field none s
      else let r = ruling s.policy now q.host cls in
        by_decision caps later id event q cls r.decision (by_policy r.reason) r.lease_card s

  abbrev pub new_row : Time → Text → AuthorizeRequest → Approval
  new_row now id q = record {
    id = id;
    ts = now;
    host = q.host;
    port = q.port;
    proto = q.proto;
    client = q.client;
    client_class = some (class_for q);
    method = q.method;
    url = q.url;
    status = text "pending";
    resolved_at = none;
    resolved_by = none;
    mode = none;
    pattern = none;
  }

abbrev pub has_id : Text → Approval → Bool
has_id id a = a.id == id

-- The condition of each `UPDATE` that decides a card.
abbrev pub awaits : Text → Approval → Bool
awaits id a = a.id == id && a.status == text "pending"

abbrev pub expire_approval : Time → Approval → Approval
expire_approval now a = record a { status = text "expired"; resolved_at = some now }

unfoldable pub status_of : Option Approval → Text
status_of none = text "expired"
status_of (some row) = row.status

-- From the row's status, whoever wrote it.
unfoldable pub final_answer : Option Approval → AuthorizeResponse
final_answer row =
    if status_of row == text "expired"
    then respond deny no_decision
    else if status_of row == text "allowed"
    then respond allow (human_approval (decision_scope row))
    else respond deny (human_rejection (decision_scope row))

abbrev pub resolver : Option Approval → Option Text
resolver none = none
resolver (some row) = row.resolved_by

-- The slot is given back whatever happened: the `finally` of `_answer`.
unfoldable pub abandon : Text → State → State
abandon id s = record s { registry = release_hold id s.registry }

-- The row that the waiter reads: none where it expired the card itself.
unfoldable pub row_read : Time → Text → List Approval → Option Approval
row_read now id t =
    if changes (awaits id) t
    then none
    else find (has_id id) (update (awaits id) (expire_approval now) t)

unfoldable pub expire_card : Time → Text → State → State
expire_card now id s = record s {
  approvals = update (awaits id) (expire_approval now) s.approvals;
  registry = if changes (awaits id) s.approvals then close_group id s.registry else s.registry;
}

-- The id is the primary key: an insert under one that is there raises, as does one that the disk
-- refuses.
unfoldable pub insert_row : Bool → Approval → List Approval → Option (List Approval)
insert_row disk_ok row t =
    if not disk_ok || any (has_id row.id) t then none else some (t ++ row ∷ [])

module _ (parse_ip : Text → Option Address) (classes : ClientClasses) where
  -- The row of a new card, unless this request joined one; no result is an exception.
  unfoldable pub insert_card :
      Bool → Time → Text → AuthorizeRequest → Bool → List Approval → Option (List Approval)
  insert_card disk_ok now id q true t = some t
  insert_card disk_ok now id q false t = insert_row disk_ok (new_row parse_ip classes now id q) t

  unfoldable pub with_rows : Text → AuthorizeRequest → Bool → Option (List Approval) → State → State
  with_rows id q joined none s = abandon id s
  with_rows id q joined (some t) s =
      write_line hold q (class_for parse_ip classes q) (some id) none
        (if joined then joined_hold id else held_for_approval) (record s { approvals = t })

  -- `_answer` from the slot to the wait; the Boolean of the result is whether the worker waits.
  unfoldable pub record_hold : Bool → Time → Text → AuthorizeRequest → Bool → State → Bool × State
  record_hold disk_ok now id q joined s =
      let t = insert_card disk_ok now id q joined s.approvals in
      (is_some t, with_rows id q joined t s)

  -- `_answer` from the wait on.
  unfoldable pub settle : Time → Text → AuthorizeRequest → State → AuthorizeResponse × State
  settle now id q s =
      let row = row_read now id s.approvals in
      let answer = final_answer row in
      (
        answer,
        write_line answer.decision q (class_for parse_ip classes q) (some id) (resolver row)
            answer.reason (abandon id (expire_card now id s)),
      )
