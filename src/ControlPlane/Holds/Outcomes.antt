-- ===== src/ControlPlane/Holds/Outcomes.antt =====
-- The three outcomes of `_reserve_hold` (control-plane/holds.py), as a rule for proofs about it.
use dockade.Base.{
  ◌≡◌, refl, Bool, true, false, Option, none, some, leb, if◌then◌else◌, length, list_eq, nat_eq,
}
use dockade.Base.Text.{Text}
use dockade.ControlPlane.Holds.{
  Time, Event, Caps, Registry, Request, Scope, HoldSlot, group_key, refuse, joinable, join_card,
  open_card, reserve_card, reserve_hold, total_waiters, client_waiters_locked, client_cards,
  over_client_cap, global_waiters, waiters_of_client, global_cards, cards_of_client, group_key_eq,
}

-- The waiter caps have room for one more of this client.
pub record HasWaiterRoom (caps : Caps) (q : Request) (r : Registry) : Type 0 where
  pub global : leb caps.max_waiters (total_waiters r) ≡ false
  pub of_client :
      over_client_cap caps.max_waiters_per_client q.client (client_waiters_locked q.client r)
      ≡ false

pub record HasCardRoom (caps : Caps) (q : Request) (r : Registry) : Type 0 where
  pub global : leb caps.max_pending (length r.events) ≡ false
  pub of_client :
      over_client_cap caps.max_pending_per_client q.client (client_cards q.client r) ≡ false

module _ (caps : Caps) (now : Time) (id : Text) (event : Event) (q : Request) (r : Registry)
    (P : HoldSlot × Registry → Type 0) (refused : (scope : Scope) → P (refuse now q scope r)) where
  card_rule :
      (HasCardRoom caps q r → P (open_card caps now id event q r))
      → P (reserve_card caps now id event q r)
  unfolding reserve_card
  card_rule opened = by_global (leb caps.max_pending (length r.events)) refl
    where
      by_client :
          (b : Bool)
          → leb caps.max_pending (length r.events) ≡ false
          → over_client_cap caps.max_pending_per_client q.client (client_cards q.client r) ≡ b
          → P (
              if b
              then refuse now q (cards_of_client q.client) r
              else open_card caps now id event q r)
      by_client true room over = refused (cards_of_client q.client)
      by_client false room over = opened (record { global = room; of_client = over })

      by_global :
          (b : Bool)
          → leb caps.max_pending (length r.events) ≡ b
          → P (
              if b
              then refuse now q global_cards r
              else (if over_client_cap caps.max_pending_per_client q.client
                    (client_cards q.client r)
                  then refuse now q (cards_of_client q.client) r
                  else open_card caps now id event q r))
      by_global true over = refused global_cards
      by_global false room = by_client _ room refl

  -- What holds of a refusal, of a join within the waiter caps, and of a card opened within all
  -- four, holds of the result.
  pub reserve_rule :
      ((joined : Text) (e : Event)
        → joinable r (group_key q) ≡ some (joined, e)
        → HasWaiterRoom caps q r
        → P (join_card joined e r))
      → (joinable r (group_key q) ≡ none
          → HasWaiterRoom caps q r
          → HasCardRoom caps q r
          → P (open_card caps now id event q r))
      → P (reserve_hold caps now id event q r)
  unfolding reserve_hold
  reserve_rule join opened = by_global (leb caps.max_waiters (total_waiters r)) refl
    where
      seek : HoldSlot × Registry
      seek = elim (joinable r (group_key q)) [
        | some (joined, e) ↦ join_card joined e r
        | none ↦ reserve_card caps now id event q r
      ]

      by_join :
          (o : Option (Text × Event))
          → joinable r (group_key q) ≡ o
          → HasWaiterRoom caps q r
          → P (elim o [
            | some (joined, e) ↦ join_card joined e r
            | none ↦ reserve_card caps now id event q r
          ])
      by_join none h room = card_rule (opened h room)
      by_join (some (joined, e)) h room = join joined e h room

      by_client :
          (b : Bool)
          → leb caps.max_waiters (total_waiters r) ≡ false
          → over_client_cap caps.max_waiters_per_client q.client (client_waiters_locked q.client r)
            ≡ b
          → P (if b then refuse now q (waiters_of_client q.client) r else seek)
      by_client true room over = refused (waiters_of_client q.client)
      by_client false room over = by_join _ refl (record { global = room; of_client = over })

      by_global :
          (b : Bool)
          → leb caps.max_waiters (total_waiters r) ≡ b
          → P (
              if b
              then refuse now q global_waiters r
              else (if over_client_cap caps.max_waiters_per_client q.client
                    (client_waiters_locked q.client r)
                  then refuse now q (waiters_of_client q.client) r
                  else seek))
      by_global true over = refused global_waiters
      by_global false room = by_client _ room refl
