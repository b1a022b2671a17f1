-- ===== src/ControlPlane/Egress/Outcomes.antt =====
-- The outcomes of the operations of control-plane/api_authorize.py and of `resolve` in
-- control-plane/api_approvals.py, as rules for proofs about them.
use dockade.Base.{
  ℕ, ◌≡◌, refl, ◌⊎◌, inl, inr, Bool, true, false, not, Option, none, some, ◌∷◌, arith,
  if◌then◌else◌, find, contains, Bool-cases, list_eq, nat_eq,
}
use dockade.Base.Dict.{get}
use dockade.Base.Table.{update, changes, changes-any, update-missed}
use dockade.Base.Text.{Text, lower, strip, is_space}
use dockade.ControlPlane.Holds.{
  Time, Event, Caps, Registry, Scope, refuse, join_card, open_card, reserve_hold, close_group,
}
use dockade.ControlPlane.Holds.Outcomes.{reserve_rule}
use dockade.ControlPlane.Holds.Orphans.{Approval}
use dockade.ControlPlane.Policy.Hosts.{Address, ClientClasses, is_some}
use dockade.ControlPlane.Policy.Rules.{Decision, allow, deny, hold}
use dockade.ControlPlane.Egress.{
  State, AuthorizeRequest, Asked, Why, answered, reserved, ask, by_decision, by_slot, write_line,
  to_request, is_unencodable, awaits, has_id,
}
use dockade.ControlPlane.Egress.Resolve.{
  ResolveRequest, Unresolved, Resolution, Checked, bad_action, not_pending, unknown, raced, refused,
  resolved, stop, write, egress_actions, check_grant, decide_row, write_policy, receipt,
  decide_card, checked, with_row, with_event, resolve,
}

-- The id of the slot is none exactly in a refusal.
reserve_hold-refused :
    (caps : Caps) (now : Time) (id : Text) (event : Event) (q : AuthorizeRequest) (r : Registry)
    (scope : Scope)
    → (reserve_hold caps now id event (to_request q) r).0.refused ≡ some scope
    → (reserve_hold caps now id event (to_request q) r).0.approval_id ≡ none
reserve_hold-refused caps now id event q r scope =
    reserve_rule caps now id event (to_request q) r
      (λ out. out.0.refused ≡ some scope → out.0.approval_id ≡ none)
      (λ s. unfold refuse in λ h. refl) (λ joined e h room. unfold join_card in λ h. cc)
      (λ h room cards. unfold open_card in λ h. cc)

-- The card that the worker waits on from here.
abbrev pub slot_of : Asked → Option Text
slot_of (answered a) = none
slot_of (reserved slot) = slot.approval_id

-- A question changes only the registry and the audit.
pub record IsAsked (caps : Caps) (now : Time) (id : Text) (event : Event) (q : AuthorizeRequest)
    (s : State) (out : Asked × State) : Type 0 where
  pub approvals : out.1.approvals ≡ s.approvals
  pub policy : out.1.policy ≡ s.policy
  pub registry :
      ((out.1.registry ≡ s.registry) × (slot_of out.0 ≡ none))
      ⊎ ((out.1.registry ≡ (reserve_hold caps now id event (to_request q) s.registry).1)
          × (slot_of out.0
              ≡ (reserve_hold caps now id event (to_request q) s.registry).0.approval_id))

module _ (caps : Caps) (now : Time) (id : Text) (event : Event) (q : AuthorizeRequest)
    (s : State) where
  by_slot-IsAsked :
      (cls : Text) (o : Option Scope)
      → (reserve_hold caps now id event (to_request q) s.registry).0.refused ≡ o
      → (let (slot, registry) = reserve_hold caps now id event (to_request q) s.registry in
          IsAsked caps now id event q s (by_slot q cls o slot (record s { registry = registry })))
  unfolding by_slot write_line
  by_slot-IsAsked cls none h = record {
    approvals = refl;
    policy = refl;
    registry = inr (refl, refl);
  }
  by_slot-IsAsked cls (some scope) h = record {
    approvals = refl;
    policy = refl;
    registry =
        inr (refl, ground (arith, reserve_hold-refused caps now id event q s.registry scope h));
  }

  by_decision-IsAsked :
      (cls : Text) (d : Decision) (why : Why) (card : Option Text)
      → IsAsked caps now id event q s (by_decision caps now id event q cls d why card s)
  unfolding by_decision write_line
  by_decision-IsAsked cls allow why card = record {
    approvals = refl;
    policy = refl;
    registry = inl (refl, refl);
  }
  by_decision-IsAsked cls deny why card = record {
    approvals = refl;
    policy = refl;
    registry = inl (refl, refl);
  }
  by_decision-IsAsked cls hold why card = by_slot-IsAsked cls _ refl

pub ask-IsAsked :
    (parse_ip : Text → Option Address) (classes : ClientClasses) (caps : Caps) (now later : Time)
    (id : Text) (event : Event) (q : AuthorizeRequest) (s : State)
    → IsAsked caps later id event q s (ask parse_ip classes caps now later id event q s)
unfolding ask
ask-IsAsked parse_ip classes caps now later id event q s = elim (Bool-cases (is_unencodable q)) [
  | inl bad ↦ rw bad (by_decision-IsAsked caps later id event q s _ _ _ _)
  | inr good ↦ rw good (by_decision-IsAsked caps later id event q s _ _ _ _)
]

abbrev pub action_of : ResolveRequest → Text
action_of req = lower (strip is_space req.action)

module _ (now lease_seconds : Time) (actor : Text) (new_lease : ℕ) (id : Text)
    (req : ResolveRequest) (s : State) where
  -- The state that a decision leaves.
  abbrev pub decided : Event → Approval → Option Text → State
  decided event row pattern = record s {
    approvals = update (awaits id) (decide_row now (action_of req) actor pattern) s.approvals;
    policy = write_policy now lease_seconds actor new_lease (action_of req) id row pattern s.policy;
    registry = close_group id s.registry;
    woken =
        if is_some (get (close_group id s.registry).events id) then event ∷ s.woken else s.woken;
  }

-- What holds of a refusal, which leaves the state as it is, and of a decision, holds of the result.
module _ (parse_ip : Text → Option Address) (now lease_seconds : Time) (actor : Text)
    (new_lease : ℕ) (id : Text) (req : ResolveRequest) (s : State)
    (P : Resolution × State → Type 0) where
  pub resolve_rule :
      ((why : Unresolved) → P (refused why, s))
      → ((event : Event) (row : Approval) (pattern : Option Text)
          → contains (action_of req) egress_actions ≡ true
          → get s.registry.events id ≡ some event
          → find (has_id id) s.approvals ≡ some row
          → check_grant parse_ip s.policy.rules (action_of req) req.pattern row ≡ write pattern
          → changes (awaits id) s.approvals ≡ true
          → P (
            resolved
                (receipt now lease_seconds actor new_lease (action_of req) id row pattern s.policy),
            decided now lease_seconds actor new_lease id req s event row pattern,
          ))
      → P (resolve parse_ip now lease_seconds actor new_lease id req s)
  unfolding resolve with_event with_row checked decide_card
  resolve_rule refusal decision = by_action (contains (action_of req) egress_actions) refl
    where
      by_change :
          (event : Event) (row : Approval) (pattern : Option Text)
          → contains (action_of req) egress_actions ≡ true
          → get s.registry.events id ≡ some event
          → find (has_id id) s.approvals ≡ some row
          → check_grant parse_ip s.policy.rules (action_of req) req.pattern row ≡ write pattern
          → (b : Bool) → changes (awaits id) s.approvals ≡ b
          → P (
              if b
              then (
                resolved (
                    receipt now lease_seconds actor new_lease
                      (action_of req)
                      id
                      row
                      pattern
                      s.policy),
                decided now lease_seconds actor new_lease id req s event row pattern,
              )
              else (
                refused raced,
                record s {
                  approvals =
                      update (awaits id) (decide_row now (action_of req) actor pattern) s.approvals;
                },
              ))
      by_change event row pattern a e r c true h = decision event row pattern a e r c h
      by_change event row pattern a e r c false h =
          rw
            (update-missed (awaits id) (decide_row now (action_of req) actor pattern) s.approvals
              (ground (arith, changes-any (awaits id) s.approvals, h)))
            (refusal raced)

      by_check :
          (event : Event) (row : Approval) (c : Checked)
          → contains (action_of req) egress_actions ≡ true
          → get s.registry.events id ≡ some event
          → find (has_id id) s.approvals ≡ some row
          → check_grant parse_ip s.policy.rules (action_of req) req.pattern row ≡ c
          → P (checked now lease_seconds actor new_lease (action_of req) id row event c s)
      by_check event row (stop why) a e r c = refusal why
      by_check event row (write pattern) a e r c = by_change event row pattern a e r c _ refl

      by_row :
          (event : Event) (o : Option Approval)
          → contains (action_of req) egress_actions ≡ true
          → get s.registry.events id ≡ some event
          → find (has_id id) s.approvals ≡ o
          → P (
              with_row parse_ip now lease_seconds actor new_lease
                (action_of req)
                req.pattern
                id
                event
                o
                s)
      by_row event none a e r = refusal unknown
      by_row event (some row) a e r = by_check event row _ a e r refl

      by_event :
          (o : Option Event)
          → contains (action_of req) egress_actions ≡ true
          → get s.registry.events id ≡ o
          → P (
              with_event parse_ip now lease_seconds actor new_lease
                (action_of req)
                req.pattern
                id
                o
                s)
      by_event none a e = refusal not_pending
      by_event (some event) a e = by_row event _ a e refl

      by_action :
          (b : Bool)
          → contains (action_of req) egress_actions ≡ b
          → P (
              if not b
              then (refused bad_action, s)
              else with_event parse_ip now lease_seconds actor new_lease
                  (action_of req)
                  req.pattern
                  id
                  (get s.registry.events id)
                  s)
      by_action true a = by_event _ a refl
      by_action false a = refusal bad_action
