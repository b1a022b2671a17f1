-- ===== src/ControlPlane/Holds/Invariant.antt =====
-- The registry of control-plane/holds.py stays consistent: its dicts have one entry for each card.
use dockade.Base.{
  ℕ, ◌+◌, ◌-◌, ◌<◌, ◌≡◌, refl, sym, ◌∙◌, ◌≢◌, inl, inr, true, false, none, some, arith,
  if◌then◌else◌, ==_iff, Option-cases, list_eq, nat_eq, option_eq, ltb, Bool,
}
use dockade.Base.Dict.{
  keys, get, put, HasUniqueKeys, get-put, get-remove, put-HasUniqueKeys, remove-HasUniqueKeys,
  get-none_of_keys, keys-put, keys-remove, keys-put_present,
}
use dockade.Base.Text.{Text, or_none}
use dockade.ControlPlane.Holds.{
  Time, Event, Caps, GroupKey, Registry, Request, group_key_eq, group_key, client_of, refuse,
  joinable, join_card, open_card, reserve_hold, close_group, release_hold, empty_registry, or_zero,
  Scope, drop_card,
}
use dockade.ControlPlane.Holds.Outcomes.{reserve_rule}
use dockade.ControlPlane.Holds.Groups.{get-close_group, close_items-HasUniqueKeys}

pub record IsConsistent (r : Registry) : Type 0 where
  -- the four dicts of a card are written and popped together
  pub clients_keys : keys r.events ≡ keys r.clients
  pub waiters_keys : keys r.events ≡ keys r.waiters
  pub deadlines_keys : keys r.events ≡ keys r.deadlines
  pub unique_events : HasUniqueKeys r.events
  pub unique_groups : HasUniqueKeys r.groups
  -- a card that stands has a waiter
  pub waiting : (id : Text) (n : ℕ) → get r.waiters id ≡ some n → 0 < n
  -- a group names a card that stands, and of the client that its key names
  pub live : (key : GroupKey) (id : Text) → get r.groups key ≡ some id → get r.events id ≢ none
  pub same_client :
      (key : GroupKey) (id : Text)
      → get r.groups key ≡ some id
      → key.client ≡ or_none (client_of r id)

pub empty_registry-IsConsistent : IsConsistent empty_registry
unfolding get
empty_registry-IsConsistent = record {
  clients_keys = refl;
  waiters_keys = refl;
  deadlines_keys = refl;
  unique_events = tt;
  unique_groups = tt;
  waiting = λ id n h. cc;
  live = λ key id h. cc;
  same_client = λ key id h. cc;
}

refuse-IsConsistent :
    (now : Time) (q : Request) (scope : Scope) (r : Registry)
    → IsConsistent r
    → IsConsistent (refuse now q scope r).1
unfolding refuse client_of
refuse-IsConsistent now q scope r c = record {
  clients_keys = c.clients_keys;
  waiters_keys = c.waiters_keys;
  deadlines_keys = c.deadlines_keys;
  unique_events = c.unique_events;
  unique_groups = c.unique_groups;
  waiting = c.waiting;
  live = c.live;
  same_client = c.same_client;
}

-- A write to the waiters of a card that stands.
set_waiters-IsConsistent :
    (r : Registry) (id : Text) (n m : ℕ)
    → IsConsistent r
    → get r.waiters id ≡ some n
    → 0 < m
    → IsConsistent (record r { waiters = put r.waiters id m })
unfolding client_of
set_waiters-IsConsistent r id n m c old pos = record {
  clients_keys = c.clients_keys;
  waiters_keys = c.waiters_keys ∙ sym (keys-put_present r.waiters id n m old);
  deadlines_keys = c.deadlines_keys;
  unique_events = c.unique_events;
  unique_groups = c.unique_groups;
  waiting = λ j k h. ground (arith, get-put r.waiters id j m, c.waiting j k);
  live = c.live;
  same_client = c.same_client;
}

pub waiters_of_live :
    (r : Registry) (id : Text)
    → IsConsistent r
    → get r.events id ≢ none
    → (n : ℕ) × (get r.waiters id ≡ some n)
waiters_of_live r id c live = elim (Option-cases (get r.waiters id)) [
  | inl absent ↦ absurd (live (get-none_of_keys r.waiters r.events id (sym c.waiters_keys) absent))
  | inr there ↦ there
]

join_card-IsConsistent :
    (id : Text) (event : Event) (r : Registry)
    → get r.events id ≢ none
    → IsConsistent r
    → IsConsistent (join_card id event r).1
unfolding join_card
join_card-IsConsistent id event r live c =
    let (n, there) = waiters_of_live r id c live in
    set_waiters-IsConsistent r id n (or_zero (get r.waiters id) + 1) c there (omega arith)

-- The card's id is new: no dict holds it.
open_card-IsConsistent :
    (caps : Caps) (now : Time) (id : Text) (event : Event) (q : Request) (r : Registry)
    → get r.events id ≡ none
    → IsConsistent r
    → IsConsistent (open_card caps now id event q r).1
unfolding open_card client_of
open_card-IsConsistent caps now id event q r fresh c = record {
  clients_keys = keys-put r.events r.clients id event q.client c.clients_keys;
  waiters_keys = keys-put r.events r.waiters id event 1 c.waiters_keys;
  deadlines_keys = keys-put r.events r.deadlines id event _ c.deadlines_keys;
  unique_events = put-HasUniqueKeys r.events id event c.unique_events;
  unique_groups = put-HasUniqueKeys r.groups (group_key q) id c.unique_groups;
  waiting = λ j k h. ground (arith, get-put r.waiters id j 1, c.waiting j k);
  live = λ key j h. ground (
    arith,
    get-put r.events id j event,
    get-put r.groups (group_key q) key id,
    ==_iff id j,
    c.live key j,
  );
  same_client = λ key j h.
      unfold group_key in
      ground (
        arith,
        get-put r.clients id j q.client,
        get-put r.groups (group_key q) key id,
        ==_iff id j,
        ==_iff (group_key q) key,
        c.live key j,
        c.same_client key j,
      );
}

pub close_group-IsConsistent :
    (id : Text) (r : Registry) → IsConsistent r → IsConsistent (close_group id r)
close_group-IsConsistent id r c = record {
  clients_keys = unfold close_group in c.clients_keys;
  waiters_keys = unfold close_group in c.waiters_keys;
  deadlines_keys = unfold close_group in c.deadlines_keys;
  unique_events = unfold close_group in c.unique_events;
  unique_groups =
      unfold close_group in close_items-HasUniqueKeys id r.groups r.groups c.unique_groups;
  waiting = unfold close_group in c.waiting;
  live = λ key j h. unfold close_group in c.live key j (kept key j h);
  same_client = λ key j h. unfold close_group client_of in c.same_client key j (kept key j h);
}
  where
    kept :
        (key : GroupKey) (j : Text)
        → get (close_group id r).groups key ≡ some j
        → get r.groups key ≡ some j
    kept key j h = ground (arith, get-close_group id r key c.unique_groups)

drop_card-IsConsistent :
    (id : Text) (r : Registry) → IsConsistent r → IsConsistent (close_group id (drop_card id r))
drop_card-IsConsistent id r c = record {
  clients_keys = unfold close_group drop_card in keys-remove r.events r.clients id c.clients_keys;
  waiters_keys = unfold close_group drop_card in keys-remove r.events r.waiters id c.waiters_keys;
  deadlines_keys =
      unfold close_group drop_card in keys-remove r.events r.deadlines id c.deadlines_keys;
  unique_events = unfold close_group drop_card in remove-HasUniqueKeys r.events id c.unique_events;
  unique_groups =
      unfold close_group drop_card in
      close_items-HasUniqueKeys id r.groups r.groups c.unique_groups;
  waiting = λ j k h.
      unfold close_group drop_card in ground (arith, get-remove r.waiters id j, c.waiting j k);
  live = λ key j h.
      let (held, other) = kept key j h in
      unfold close_group drop_card in
      ground (arith, get-remove r.events id j, ==_iff id j, c.live key j held);
  same_client = λ key j h.
      let (held, other) = kept key j h in
      unfold close_group drop_card client_of in
      ground (arith, get-remove r.clients id j, ==_iff id j, c.same_client key j held);
}
  where
    kept :
        (key : GroupKey) (j : Text)
        → get (close_group id (drop_card id r)).groups key ≡ some j
        → (get r.groups key ≡ some j) × (id ≢ j)
    kept key j h =
        unfold drop_card in
        ground (
          arith,
          get-close_group id (drop_card id r) key (unfold drop_card in c.unique_groups),
          ==_iff j id,
        )

-- `_release_hold`, of any id, leaves the registry consistent.
pub release_hold-IsConsistent :
    (id : Text) (r : Registry) → IsConsistent r → IsConsistent (release_hold id r)
unfolding release_hold
release_hold-IsConsistent id r c = elim (Option-cases (get r.waiters id)) [
  | inl absent ↦ rw absent (drop_card-IsConsistent id r c)
  | inr (n, there) ↦ rw there (by_count n there (ltb 1 n) refl)
]
  where
    by_count :
        (n : ℕ)
        → get r.waiters id ≡ some n
        → (b : Bool) → ltb 1 n ≡ b
        → IsConsistent (
            if b
            then record r { waiters = put r.waiters id (n - 1) }
            else close_group id (drop_card id r))
    by_count n there true h = set_waiters-IsConsistent r id n (n - 1) c there (ground arith)
    by_count n there false h = drop_card-IsConsistent id r c

-- A group that can be joined names a card that stands.
pub joinable-live :
    (r : Registry) (key : GroupKey) (id : Text) (event : Event)
    → joinable r key ≡ some (id, event)
    → (get r.groups key ≡ some id) × (get r.events id ≡ some event)
unfolding joinable
joinable-live r key id event h = ground arith

-- `_reserve_hold` with a new id, whatever its outcome, leaves the registry consistent.
pub reserve_hold-IsConsistent :
    (caps : Caps) (now : Time) (id : Text) (event : Event) (q : Request) (r : Registry)
    → get r.events id ≡ none
    → IsConsistent r
    → IsConsistent (reserve_hold caps now id event q r).1
reserve_hold-IsConsistent caps now id event q r fresh c =
    reserve_rule caps now id event q r (λ out. IsConsistent out.1)
      (λ scope. refuse-IsConsistent now q scope r c)
      (λ joined e h room.
        let there = (joinable-live r (group_key q) joined e h).1 in
        join_card-IsConsistent joined e r (λ absent. cc (there, absent)) c)
      (λ h room cards. open_card-IsConsistent caps now id event q r fresh c)
