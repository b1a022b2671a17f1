-- ===== src/ControlPlane/Holds/Tests.antt =====
-- The registry of control-plane/holds.py at the default caps: runs, and the theorems at inputs.
use dockade.Base.{◌≡◌, refl, some, list_eq, nat_eq}
use dockade.Base.Dict.{get, put, remove}
use dockade.Base.Weigh.{weigh}
use dockade.Base.Text.{text, lower, lower_char}
use dockade.ControlPlane.Holds.{
  Caps, Registry, Request, group_key, client_of, refuse, joinable, join_card, open_card,
  reserve_card, reserve_hold, close_items, close_group, drop_card, release_hold, empty_registry,
  total_waiters, client_waiters_locked, client_cards, over_client_cap,
}
use dockade.ControlPlane.Holds.Invariant.{IsConsistent}
use dockade.ControlPlane.Holds.Steps.{Reach, start, next, reserve, IsSound, Reach-IsSound}
use dockade.ControlPlane.Holds.Release.{release_times, IsGone, release_times-IsGone}

abbrev caps : Caps
caps = record {
  hold_timeout = 120;
  max_pending = 12;
  max_pending_per_client = 4;
  max_waiters = 16;
  max_waiters_per_client = 8;
}

abbrev request : Request
request = record {
  client = some (text "172.30.0.130");
  host = some (text "Example.com");
  port = some 443;
  proto = some (text "TLS");
}

abbrev opened : Registry
opened = (reserve_hold caps 100 (text "a1") 1 request empty_registry).1

abbrev joined_twice : Registry
joined_twice = (reserve_hold caps 110 (text "b2") 2 request opened).1

-- What a run computes through: naming this opens all of it.
all_steps : Unit {0}
unfolding reserve_hold reserve_card open_card join_card joinable group_key lower lower_char
    total_waiters client_waiters_locked client_cards over_client_cap client_of weigh get put remove
    release_hold drop_card close_group close_items refuse
all_steps = tt

opened_waiters : get opened.waiters (text "a1") ≡ some 1
unfolding all_steps
opened_waiters = refl

joined_waiters : get joined_twice.waiters (text "a1") ≡ some 2
unfolding all_steps
joined_waiters = refl

Reach-opened : Reach caps opened
unfolding get
Reach-opened = next (start refl) (reserve 100 (text "a1") 1 request refl refl)

Reach-joined_twice : Reach caps joined_twice
unfolding all_steps
Reach-joined_twice = next Reach-opened (reserve 110 (text "b2") 2 request refl refl)

Reach-IsSound_example : IsSound caps joined_twice
Reach-IsSound_example = Reach-IsSound caps Reach-joined_twice

joined_twice-IsConsistent : IsConsistent joined_twice
joined_twice-IsConsistent = (Reach-IsSound caps Reach-joined_twice).consistent

two_releases_example : IsGone (text "a1") (release_times 2 (text "a1") joined_twice)
two_releases_example =
    release_times-IsGone 1 (text "a1") joined_twice joined_twice-IsConsistent joined_waiters

abbrev decided : Registry
decided = close_group (text "a1") joined_twice

abbrev other_request : Request
other_request = record request { port = some 80 }

abbrev two_cards : Registry
two_cards = (reserve_hold caps 120 (text "d4") 4 other_request joined_twice).1

Reach-two_cards : Reach caps two_cards
Reach-two_cards =
    next Reach-joined_twice
      (reserve 120 (text "d4") 4 other_request (unfold all_steps in refl) refl)

two_cards-IsConsistent : IsConsistent two_cards
two_cards-IsConsistent = (Reach-IsSound caps Reach-two_cards).consistent

-- After the decision a duplicate gets a card of its own.
after_decision :
    (reserve_hold caps 130 (text "c3") 3 request decided).0.approval_id ≡ some (text "c3")
unfolding all_steps
after_decision = refl
