-- ===== src/ControlPlane/Holds/Room.antt =====
-- When `_reserve_hold` of control-plane/holds.py refuses, and what it reserves when it does not.
use dockade.Base.{◌≡◌, refl, ◌⊎◌, inl, inr, none, some, Option-cases, list_eq, nat_eq}
use dockade.Base.Text.{Text}
use dockade.ControlPlane.Holds.{
  Time, Event, Caps, Scope, Registry, Request, HoldSlot, group_key, joinable, join_card, open_card,
  reserve_card, reserve_hold,
}
use dockade.ControlPlane.Holds.Outcomes.{HasWaiterRoom, HasCardRoom}
use dockade.ControlPlane.Holds.Joins.{IsRefusal, IsJoin, IsOpening, Outcome, refusal, join, opening}

-- With room for one more waiter of the client and one more card, nothing is refused.
pub room-unrefused :
    (caps : Caps) (now : Time) (id : Text) (event : Event) (q : Request) (r : Registry)
    → HasWaiterRoom caps q r
    → HasCardRoom caps q r
    → (reserve_hold caps now id event q r).0.refused ≡ none
unfolding reserve_hold reserve_card
room-unrefused caps now id event q r waiters cards =
    elim (Option-cases (joinable r (group_key q))) [
      | inl alone ↦
          rw (waiters.global, waiters.of_client, alone, cards.global, cards.of_client)
            (unfold open_card in refl)
      | inr (card, there) ↦ rw (waiters.global, waiters.of_client, there) (unfold join_card in refl)
    ]

-- Of the outcomes of a reservation, the one that refuses, and the two that reserve.
module _ (caps : Caps) (now : Time) (id : Text) (q : Request) (r : Registry)
    (out : HoldSlot × Registry) where
  pub outcome-IsRefusal :
      (scope : Scope)
      → Outcome caps now id q r out
      → out.0.refused ≡ some scope
      → IsRefusal now q r out
  outcome-IsRefusal scope (refusal x) h = x
  outcome-IsRefusal scope (join j x) h = absurd (cc (x.not_refused, h))
  outcome-IsRefusal scope (opening j x) h = absurd (cc (x.not_refused, h))

  pub outcome_reserved :
      Outcome caps now id q r out
      → out.0.refused ≡ none
      → IsJoin q r out ⊎ IsOpening caps now id q out
  outcome_reserved (refusal x) h = absurd (cc (x.refused, h))
  outcome_reserved (join j x) h = inl x
  outcome_reserved (opening j x) h = inr x
