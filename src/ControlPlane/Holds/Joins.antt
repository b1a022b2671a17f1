-- ===== src/ControlPlane/Holds/Joins.antt =====
-- What a slot of control-plane/holds.py says: refusals, joins, and when a card can be joined.
use dockade.Base.{
  ◌+◌, ◌≡◌, refl, sym, ◌≢◌, true, false, Option, none, some, arith, list_eq, nat_eq, option_eq,
}
use dockade.Base.Dict.{get, get-put_self, get-none_of_keys}
use dockade.Base.Text.{Text, or_none}
use dockade.ControlPlane.Holds.{
  Time, Event, Caps, Registry, Request, Scope, HoldSlot, group_key_eq, group_key, client_of, refuse,
  joinable, join_card, open_card, reserve_hold, or_zero,
}
use dockade.ControlPlane.Holds.Outcomes.{reserve_rule}
use dockade.ControlPlane.Holds.Invariant.{IsConsistent, joinable-live}

-- The slot that refuses, and a registry that differs in the saturation account alone.
pub record IsRefusal (now : Time) (q : Request) (r : Registry) (out : HoldSlot × Registry)
    : Type 0 where
  pub scope : Scope
  pub refused : out.0.refused ≡ some scope
  pub nothing_reserved : out.0.approval_id ≡ none
  pub registry : out.1 ≡ (refuse now q scope r).1
  pub counted : out.1.saturation.count ≡ r.saturation.count + 1

-- An existing card of this request's key and client, under the deadline that it has.
pub record IsJoin (q : Request) (r : Registry) (out : HoldSlot × Registry) : Type 0 where
  pub card : Text
  pub approval_id : out.0.approval_id ≡ some card
  pub not_refused : out.0.refused ≡ none
  pub grouped : get r.groups (group_key q) ≡ some card
  pub same_client : or_none q.client ≡ or_none (client_of r card)
  pub same_deadline : get r.deadlines card ≡ some out.0.deadline
  pub deadlines_kept : out.1.deadlines ≡ r.deadlines
  pub no_new_card : out.1.events ≡ r.events
  pub one_more_waiter : or_zero (get out.1.waiters card) ≡ or_zero (get r.waiters card) + 1

-- A new card under the given id, with a full window and one waiter, that its key names.
pub record IsOpening (caps : Caps) (now : Time) (id : Text) (q : Request)
    (out : HoldSlot × Registry) : Type 0 where
  pub approval_id : out.0.approval_id ≡ some id
  pub not_refused : out.0.refused ≡ none
  pub full_window : out.0.deadline ≡ now + caps.hold_timeout
  pub deadline_stored : get out.1.deadlines id ≡ some (now + caps.hold_timeout)
  pub one_waiter : get out.1.waiters id ≡ some 1
  pub own_client : client_of out.1 id ≡ q.client
  pub named : get out.1.groups (group_key q) ≡ some id

pub data Outcome (caps : Caps) (now : Time) (id : Text) (q : Request) (r : Registry)
    (out : HoldSlot × Registry) : Type 0 where
  refusal : IsRefusal now q r out → Outcome caps now id q r out
  join : out.0.joined ≡ true → IsJoin q r out → Outcome caps now id q r out
  opening : out.0.joined ≡ false → IsOpening caps now id q out → Outcome caps now id q r out

join_card-IsJoin :
    (id : Text) (event : Event) (q : Request) (r : Registry)
    → joinable r (group_key q) ≡ some (id, event)
    → IsConsistent r
    → IsJoin q r (join_card id event r)
join_card-IsJoin id event q r h c =
    let (named, stands) = joinable-live r (group_key q) id event h in
    record {
      card = id;
      approval_id = unfold join_card in refl;
      not_refused = unfold join_card in refl;
      grouped = named;
      same_client = unfold group_key in c.same_client (group_key q) id named;
      same_deadline =
          unfold join_card in
          deadline (get r.deadlines id) refl (λ absent.
            cc (stands, get-none_of_keys r.deadlines r.events id (sym c.deadlines_keys) absent));
      deadlines_kept = unfold join_card in refl;
      no_new_card = unfold join_card in refl;
      one_more_waiter =
          unfold join_card in
          ground (arith, get-put_self r.waiters id (or_zero (get r.waiters id) + 1));
    }
  where
    deadline : (o : Option Time) → get r.deadlines id ≡ o → o ≢ none → o ≡ some (or_zero o)
    deadline none e h = absurd (h refl)
    deadline (some t) e h = refl

pub reserve_hold-Outcome :
    (caps : Caps) (now : Time) (id : Text) (event : Event) (q : Request) (r : Registry)
    → IsConsistent r
    → Outcome caps now id q r (reserve_hold caps now id event q r)
reserve_hold-Outcome caps now id event q r c =
    reserve_rule caps now id event q r (Outcome caps now id q r)
      (λ scope.
        unfold refuse in
        refusal (record {
          scope = scope;
          refused = refl;
          nothing_reserved = refl;
          registry = refl;
          counted = refl;
        }))
      (λ joined e h room. join (unfold join_card in refl) (join_card-IsJoin joined e q r h c))
      (λ h room cards.
        unfold open_card client_of in
        opening refl (record {
          approval_id = refl;
          not_refused = refl;
          full_window = refl;
          deadline_stored = get-put_self r.deadlines id _;
          one_waiter = get-put_self r.waiters id 1;
          own_client = ground (arith, get-put_self r.clients id q.client);
          named = get-put_self r.groups (group_key q) id;
        }))
