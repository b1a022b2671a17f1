-- ===== src/ControlPlane/Holds/Release.antt =====
-- When a card of control-plane/holds.py stops being joinable, and when it goes.
use dockade.Base.{
  ℕ, zero, suc, ◌+◌, ◌-◌, ◌≡◌, ◌≢◌, ◌↔◌, true, false, Option, none, some, arith, ==_iff, list_eq,
  nat_eq, option_eq, is_empty, leb,
}
use dockade.Base.Dict.{get, get-put, get-remove, get-put_self, get-remove_self}
use dockade.Base.Text.{Text}
use dockade.ControlPlane.Holds.{
  Time, Event, Caps, GroupKey, Registry, Request, group_key_eq, group_key, refuse, joinable,
  join_card, open_card, reserve_hold, close_group, drop_card, release_hold, or_zero, total_waiters,
  over_client_cap, client_waiters_locked,
}
use dockade.ControlPlane.Holds.Groups.{get-close_group}
use dockade.ControlPlane.Holds.Outcomes.{reserve_rule}
use dockade.ControlPlane.Holds.Invariant.{IsConsistent, joinable-live, release_hold-IsConsistent}

-- Once a card's group is closed no request joins it, whatever its key: the only way to be handed
-- the id is to open a new card under it.
pub closed_not_joined :
    (caps : Caps) (now : Time) (id fresh : Text) (event : Event) (q : Request) (r : Registry)
    → IsConsistent r
    → (reserve_hold caps now fresh event q (close_group id r)).0.joined ≡ true
    → (reserve_hold caps now fresh event q (close_group id r)).0.approval_id ≢ some id
closed_not_joined caps now id fresh event q r c =
    reserve_rule caps now fresh event q (close_group id r)
      (λ out. out.0.joined ≡ true → out.0.approval_id ≢ some id) (λ scope. unfold refuse in λ h. cc)
      (λ joined e h room. unfold join_card in λ _ same. elsewhere joined e h same)
      (λ h room cards. unfold open_card in λ h. cc)
  where
    elsewhere :
        (joined : Text) (e : Event)
        → joinable (close_group id r) (group_key q) ≡ some (joined, e)
        → ◌≢◌ {A = Option Text} (some joined) (some id)
    elsewhere joined e h same = ground (
      arith,
      (joinable-live (close_group id r) (group_key q) joined e h).0,
      get-close_group id r (group_key q) c.unique_groups,
      ==_iff joined id,
    )

-- `n` workers give their slots back.
pub release_times : ℕ → Text → Registry → Registry
release_times zero id r = r
release_times (suc n) id r = release_times n id (release_hold id r)

-- Nothing of the card is left.
pub record IsGone (id : Text) (r : Registry) : Type 0 where
  pub no_event : get r.events id ≡ none
  pub no_client : get r.clients id ≡ none
  pub no_waiters : get r.waiters id ≡ none
  pub no_deadline : get r.deadlines id ≡ none
  pub no_group : (key : GroupKey) → get r.groups key ≢ some id

release_hold-waiters :
    (id : Text) (r : Registry) (n : ℕ)
    → get r.waiters id ≡ some (suc (suc n))
    → get (release_hold id r).waiters id ≡ some (suc n)
unfolding release_hold
release_hold-waiters id r n h = ground (arith, get-put_self r.waiters id (suc n))

release_hold_last :
    (id : Text) (r : Registry)
    → IsConsistent r
    → get r.waiters id ≡ some 1
    → IsGone id (release_hold id r)
release_hold_last id r c h = record {
  no_event =
      unfold release_hold close_group drop_card in ground (arith, get-remove_self r.events id);
  no_client =
      unfold release_hold close_group drop_card in ground (arith, get-remove_self r.clients id);
  no_waiters =
      unfold release_hold close_group drop_card in ground (arith, get-remove_self r.waiters id);
  no_deadline =
      unfold release_hold close_group drop_card in ground (arith, get-remove_self r.deadlines id);
  no_group = λ key held.
      unfold release_hold drop_card in
      ground (
        arith,
        get-close_group id (drop_card id r) key (unfold drop_card in c.unique_groups),
        ==_iff (some id) (some id),
      );
}

-- A card with `n` waiters is gone after `n` releases: its id is in no dict and no group names it.
-- No slot leaks.
pub release_times-IsGone :
    (n : ℕ) (id : Text) (r : Registry)
    → IsConsistent r
    → get r.waiters id ≡ some (suc n)
    → IsGone id (release_times (suc n) id r)
unfolding release_times
release_times-IsGone zero id r c h = release_hold_last id r c h
release_times-IsGone (suc n) id r c h =
    release_times-IsGone n id (release_hold id r) (release_hold-IsConsistent id r c)
      (release_hold-waiters id r n h)

-- The entries of one card, and which keys are grouped under it, are as they were.
pub record AgreesOn (id : Text) (r s : Registry) : Type 0 where
  pub event : get s.events id ≡ get r.events id
  pub client : get s.clients id ≡ get r.clients id
  pub waiters : get s.waiters id ≡ get r.waiters id
  pub deadline : get s.deadlines id ≡ get r.deadlines id
  pub group : (key : GroupKey) → (get s.groups key ≡ some id) ↔ (get r.groups key ≡ some id)

-- Releasing a slot of one card leaves every entry of another card, and its groups, as they were.
pub release_hold_other :
    (id other : Text) (r : Registry)
    → IsConsistent r
    → id ≢ other
    → AgreesOn other r (release_hold id r)
release_hold_other id other r c ne = record {
  event =
      unfold release_hold close_group drop_card in
      ground (arith, get-remove r.events id other, ==_iff id other);
  client =
      unfold release_hold close_group drop_card in
      ground (arith, get-remove r.clients id other, ==_iff id other);
  waiters =
      unfold release_hold close_group drop_card in
      ground (
        arith,
        get-remove r.waiters id other,
        get-put r.waiters id other (or_zero (get r.waiters id) - 1),
        ==_iff id other,
      );
  deadline =
      unfold release_hold close_group drop_card in
      ground (arith, get-remove r.deadlines id other, ==_iff id other);
  group = λ key.
      unfold release_hold drop_card in
      ground (
        arith,
        get-close_group id (drop_card id r) key (unfold drop_card in c.unique_groups),
        ==_iff other id,
      );
}

-- A duplicate of a held request, sent while the waiter caps have room, joins the card that the
-- first one opened, and waits until the same deadline.
pub duplicate_joins :
    (caps : Caps) (now later : Time) (id fresh : Text) (event e : Event) (q p : Request)
    (r : Registry)
    → is_empty id ≡ false
    → group_key p ≡ group_key q
    → let s = (open_card caps now id event q r).1 in
      leb caps.max_waiters (total_waiters s) ≡ false
      → over_client_cap caps.max_waiters_per_client p.client (client_waiters_locked p.client s)
        ≡ false
      → (reserve_hold caps later fresh e p s).0 ≡ record {
        approval_id = some id;
        event = some event;
        joined = true;
        refused = none;
        deadline = now + caps.hold_timeout;
      }
unfolding reserve_hold
duplicate_joins caps now later id fresh event e q p r full same room own =
    rw (room, own, attached)
      (unfold join_card open_card in
        ground (arith, get-put_self r.deadlines id (now + caps.hold_timeout)))
  where
    attached : joinable (open_card caps now id event q r).1 (group_key p) ≡ some (id, event)
    attached = rw same (
        unfold joinable open_card in
        ground (arith, get-put_self r.groups (group_key q) id, get-put_self r.events id event))
