-- ===== src/ControlPlane/Holds/Bounds.antt =====
-- The four caps of control-plane/holds.py hold of every registry that its operations produce.
use dockade.Base.{
  ℕ, ◌-◌, ◌≤◌, ◌<◌, ◌≡◌, refl, ap, ◌∙◌, ◌≢◌, inl, inr, Bool, true, false, none, some, [], ◌∷◌,
  arith, ltb, if◌then◌else◌, ◌==◌, ==_iff, Bool-cases, Option-cases, list_eq, nat_eq, option_eq,
  length, Option,
}
use dockade.Base.Dict.{get, put, get-none_of_keys}
use dockade.Base.Weigh.{weigh}
use dockade.Base.Text.{Text, or_none}
use dockade.ControlPlane.Holds.{
  Time, Event, Caps, Registry, Request, Scope, group_key_eq, group_key, client_of, refuse, joinable,
  join_card, open_card, reserve_hold, close_group, drop_card, release_hold, total_waiters,
  client_waiters_locked, client_cards, over_client_cap, empty_registry,
}
use dockade.ControlPlane.Holds.Counting.{
  length-put, length-remove-le, client_waiters-join_card, total_waiters-join_card,
  client_waiters-open_card, client_cards-open_card, total_waiters-open_card,
  total_waiters-decrement, client_waiters-decrement-le, total_waiters-drop_card-le,
  client_waiters-drop_card-le, client_cards-drop_card-le,
}
use dockade.ControlPlane.Holds.Outcomes.{HasWaiterRoom, HasCardRoom, reserve_rule}
use dockade.ControlPlane.Holds.Invariant.{IsConsistent, joinable-live, waiters_of_live}

-- A per-client cap of 0 is off, and the empty address is grouped with the absent one.
pub record IsWithinCaps (caps : Caps) (r : Registry) : Type 0 where
  pub waiters : total_waiters r ≤ caps.max_waiters
  pub cards : length r.events ≤ caps.max_pending
  pub waiters_of_client :
      (c : Text)
      → c ≢ []
      → 0 < caps.max_waiters_per_client
      → client_waiters_locked (some c) r ≤ caps.max_waiters_per_client
  pub cards_of_client :
      (c : Text)
      → 0 < caps.max_pending_per_client
      → client_cards (some c) r ≤ caps.max_pending_per_client

pub empty_registry-IsWithinCaps : (caps : Caps) → IsWithinCaps caps empty_registry
unfolding total_waiters client_waiters_locked client_cards weigh
empty_registry-IsWithinCaps caps = record {
  waiters = omega arith;
  cards = omega arith;
  waiters_of_client = λ c h pos. omega arith;
  cards_of_client = λ c pos. omega arith;
}

refuse-IsWithinCaps :
    (caps : Caps) (now : Time) (q : Request) (scope : Scope) (r : Registry)
    → IsWithinCaps caps r
    → IsWithinCaps caps (refuse now q scope r).1
unfolding refuse total_waiters client_waiters_locked client_cards client_of
refuse-IsWithinCaps caps now q scope r w = record {
  waiters = w.waiters;
  cards = w.cards;
  waiters_of_client = w.waiters_of_client;
  cards_of_client = w.cards_of_client;
}

-- The client of a request that joins is the client of the card.
pub joined_client :
    (r : Registry) (q : Request) (id : Text) (c : Text)
    → IsConsistent r
    → get r.groups (group_key q) ≡ some id
    → client_of r id ≡ some c
    → c ≢ []
    → q.client ≡ some c
joined_client r q id c k h e full =
    or_none_some q.client c full
      (or_none_full c full e (unfold group_key in k.same_client (group_key q) id h))
  where
    or_none_some : (o : Option Text) (c : Text) → c ≢ [] → or_none o ≡ some c → o ≡ some c
    or_none_some none c full h = cc
    or_none_some (some []) c full h = cc
    or_none_some (some (x ∷ t)) c full h = h

    or_none_full :
        (c : Text)
        → c ≢ []
        → client_of r id ≡ some c
        → or_none q.client ≡ or_none (client_of r id)
        → or_none q.client ≡ some c
    or_none_full [] full e h = absurd (full refl)
    or_none_full (x ∷ t) full e h = h ∙ ap or_none e

over_cap_room :
    (cap : ℕ) (c : Text) (used : ℕ)
    → over_client_cap cap (some c) used ≡ false
    → 0 < cap
    → used < cap
unfolding over_client_cap
over_cap_room cap c used h pos = ground arith

join_card-IsWithinCaps :
    (caps : Caps) (q : Request) (id : Text) (event : Event) (r : Registry)
    → joinable r (group_key q) ≡ some (id, event)
    → HasWaiterRoom caps q r
    → IsConsistent r
    → IsWithinCaps caps r
    → IsWithinCaps caps (join_card id event r).1
join_card-IsWithinCaps caps q id event r h room c w =
    let (named, stands) = joinable-live r (group_key q) id event h in
    let (n, there) = waiters_of_live r id c (λ absent. cc (stands, absent)) in
    record {
      waiters = ground (arith, room.global, total_waiters-join_card r id event n there);
      cards = unfold join_card in w.cards;
      waiters_of_client = λ cl full pos. elim (Bool-cases (client_of r id == some cl)) [
        | inl own ↦
            let same : q.client ≡ some cl =
              joined_client r q id cl c named ((==_iff _ _).0 own) full in
            ground (
              arith,
              client_waiters-join_card r id event n (some cl) there,
              over_cap_room caps.max_waiters_per_client cl (client_waiters_locked (some cl) r)
                  (rw same at room.of_client) pos,
            )
        | inr other ↦ ground (
          arith,
          client_waiters-join_card r id event n (some cl) there,
          w.waiters_of_client cl full pos,
        )
      ];
      cards_of_client = unfold join_card client_cards in w.cards_of_client;
    }

open_card-IsWithinCaps :
    (caps : Caps) (now : Time) (id : Text) (event : Event) (q : Request) (r : Registry)
    → get r.events id ≡ none
    → HasWaiterRoom caps q r
    → HasCardRoom caps q r
    → IsConsistent r
    → IsWithinCaps caps r
    → IsWithinCaps caps (open_card caps now id event q r).1
open_card-IsWithinCaps caps now id event q r fresh room cards c w =
    let no_waiters = get-none_of_keys r.events r.waiters id c.waiters_keys fresh in
    let no_client = get-none_of_keys r.events r.clients id c.clients_keys fresh in
    record {
      waiters =
          ground (arith, room.global, total_waiters-open_card caps now id event q r no_waiters);
      cards = unfold open_card in ground (arith, cards.global, length-put r.events id event fresh);
      waiters_of_client = λ cl full pos. ground (
        arith,
        client_waiters-open_card caps now id event q r (some cl) no_waiters,
        w.waiters_of_client cl full pos,
        ==_iff q.client (some cl),
        room_of cl pos,
      );
      cards_of_client = λ cl pos. ground (
        arith,
        client_cards-open_card caps now id event q r (some cl) no_client,
        w.cards_of_client cl pos,
        ==_iff q.client (some cl),
        card_room_of cl pos,
      );
    }
  where
    room_of :
        (cl : Text)
        → 0 < caps.max_waiters_per_client
        → q.client ≡ some cl
        → client_waiters_locked (some cl) r < caps.max_waiters_per_client
    room_of cl pos same =
        over_cap_room caps.max_waiters_per_client cl _ (rw same at room.of_client) pos

    card_room_of :
        (cl : Text)
        → 0 < caps.max_pending_per_client
        → q.client ≡ some cl
        → client_cards (some cl) r < caps.max_pending_per_client
    card_room_of cl pos same =
        over_cap_room caps.max_pending_per_client cl _ (rw same at cards.of_client) pos

-- No reservation, whatever its outcome, passes a cap.
pub reserve_hold-IsWithinCaps :
    (caps : Caps) (now : Time) (id : Text) (event : Event) (q : Request) (r : Registry)
    → get r.events id ≡ none
    → IsConsistent r
    → IsWithinCaps caps r
    → IsWithinCaps caps (reserve_hold caps now id event q r).1
reserve_hold-IsWithinCaps caps now id event q r fresh c w =
    reserve_rule caps now id event q r (λ out. IsWithinCaps caps out.1)
      (λ scope. refuse-IsWithinCaps caps now q scope r w)
      (λ joined e h room. join_card-IsWithinCaps caps q joined e r h room c w)
      (λ h room cards. open_card-IsWithinCaps caps now id event q r fresh room cards c w)

pub close_group-IsWithinCaps :
    (caps : Caps) (id : Text) (r : Registry)
    → IsWithinCaps caps r
    → IsWithinCaps caps (close_group id r)
unfolding close_group total_waiters client_waiters_locked client_cards client_of
close_group-IsWithinCaps caps id r w = record {
  waiters = w.waiters;
  cards = w.cards;
  waiters_of_client = w.waiters_of_client;
  cards_of_client = w.cards_of_client;
}

drop_card-IsWithinCaps :
    (caps : Caps) (id : Text) (r : Registry)
    → IsWithinCaps caps r
    → IsWithinCaps caps (drop_card id r)
drop_card-IsWithinCaps caps id r w = record {
  waiters = omega (arith, w.waiters, total_waiters-drop_card-le id r);
  cards = unfold drop_card in omega (arith, w.cards, length-remove-le r.events id);
  waiters_of_client = λ c full pos.
      omega (arith, w.waiters_of_client c full pos, client_waiters-drop_card-le id r (some c));
  cards_of_client =
      λ c pos. omega (arith, w.cards_of_client c pos, client_cards-drop_card-le id r (some c));
}

decrement-IsWithinCaps :
    (caps : Caps) (id : Text) (r : Registry) (n : ℕ)
    → get r.waiters id ≡ some n
    → 0 < n
    → IsWithinCaps caps r
    → IsWithinCaps caps (record r { waiters = put r.waiters id (n - 1) })
decrement-IsWithinCaps caps id r n there pos w = record {
  waiters = omega (arith, w.waiters, total_waiters-decrement r id n there pos);
  cards = w.cards;
  waiters_of_client = λ c full on.
      omega
        (arith, w.waiters_of_client c full on, client_waiters-decrement-le r id n (some c) there);
  cards_of_client = unfold client_cards in w.cards_of_client;
}

pub release_hold-IsWithinCaps :
    (caps : Caps) (id : Text) (r : Registry)
    → IsWithinCaps caps r
    → IsWithinCaps caps (release_hold id r)
unfolding release_hold
release_hold-IsWithinCaps caps id r w = elim (Option-cases (get r.waiters id)) [
  | inl absent ↦ rw absent (close_group-IsWithinCaps caps id _ (drop_card-IsWithinCaps caps id r w))
  | inr (n, there) ↦ rw there (by_count n there (ltb 1 n) refl)
]
  where
    by_count :
        (n : ℕ)
        → get r.waiters id ≡ some n
        → (b : Bool) → ltb 1 n ≡ b
        → IsWithinCaps caps (
            if b
            then record r { waiters = put r.waiters id (n - 1) }
            else close_group id (drop_card id r))
    by_count n there true h = decrement-IsWithinCaps caps id r n there (ground arith) w
    by_count n there false h =
        close_group-IsWithinCaps caps id _ (drop_card-IsWithinCaps caps id r w)
