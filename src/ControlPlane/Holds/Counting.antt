-- ===== src/ControlPlane/Holds/Counting.antt =====
-- How the operations of control-plane/holds.py change the numbers that the caps are checked against.
use dockade.Base.{
  ℕ, ◌+◌, ◌-◌, ◌≤◌, ◌<◌, ◌≡◌, ap, ◌≢◌, none, some, [], ◌∷◌, arith, if◌then◌else◌, ◌==◌, ==_iff,
  list_eq, nat_eq, option_eq, length, Option,
}
use dockade.Base.Dict.{Dict, get, put, remove, get-put, get-remove, get-put_self}
use dockade.Base.Weigh.{weigh, weigh-one, weigh-put, weigh-put_over, weigh_congr}
use dockade.Base.Text.{Text}
use dockade.ControlPlane.Holds.{
  Time, Event, Caps, Registry, Request, group_key_eq, client_of, join_card, open_card, drop_card,
  or_zero, total_waiters, client_waiters_locked, client_cards,
}

pub length-put :
    {V : Type 0} (d : Dict Text V) (k : Text) (v : V)
    → get d k ≡ none
    → length (put d k v) ≡ length d + 1
length-put d k v h = omega (arith, weigh-one (put d k v), weigh-one d, weigh-put (λ _ _. 1) d k v h)

pub length-remove-le : {V : Type 0} (d : Dict Text V) (k : Text) → length (remove d k) ≤ length d
unfolding remove
length-remove-le [] k = omega arith
length-remove-le ((j, v) ∷ d) k = ground (arith, length-remove-le d k)

-- One more waiter on a card counts for the card's client alone.
pub client_waiters-join_card :
    (r : Registry) (id : Text) (event : Event) (n : ℕ) (c : Option Text)
    → get r.waiters id ≡ some n
    → client_waiters_locked c (join_card id event r).1
      ≡ client_waiters_locked c r + (if client_of r id == c then 1 else 0)
unfolding client_waiters_locked join_card client_of
client_waiters-join_card r id event n c there = ground (
  arith,
  weigh-put_over (λ j k. if client_of r j == c then k else 0) r.waiters id n
      (or_zero (get r.waiters id) + 1) there,
)

pub total_waiters-join_card :
    (r : Registry) (id : Text) (event : Event) (n : ℕ)
    → get r.waiters id ≡ some n
    → total_waiters (join_card id event r).1 ≡ total_waiters r + 1
unfolding total_waiters join_card
total_waiters-join_card r id event n there =
    ground (arith, weigh-put_over (λ _ k. k) r.waiters id n (or_zero (get r.waiters id) + 1) there)

-- A new card adds one waiter and one card, both of the request's client.
client_of-open_card_ne :
    (caps : Caps) (now : Time) (id j : Text) (event : Event) (q : Request) (r : Registry)
    → id ≢ j
    → client_of (open_card caps now id event q r).1 j ≡ client_of r j
unfolding client_of open_card
client_of-open_card_ne caps now id j event q r h =
    ground (arith, get-put r.clients id j q.client, ==_iff id j)

client_of-open_card_self :
    (caps : Caps) (now : Time) (id : Text) (event : Event) (q : Request) (r : Registry)
    → client_of (open_card caps now id event q r).1 id ≡ q.client
unfolding client_of open_card
client_of-open_card_self caps now id event q r = ground (arith, get-put_self r.clients id q.client)

pub client_waiters-open_card :
    (caps : Caps) (now : Time) (id : Text) (event : Event) (q : Request) (r : Registry)
    (c : Option Text)
    → get r.waiters id ≡ none
    → client_waiters_locked c (open_card caps now id event q r).1
      ≡ client_waiters_locked c r + (if q.client == c then 1 else 0)
unfolding client_waiters_locked open_card
client_waiters-open_card caps now id event q r c absent =
    let s = (open_card caps now id event q r).1 in
    let new : Text → ℕ → ℕ = λ j k. if client_of s j == c then k else 0 in
    let old : Text → ℕ → ℕ = λ j k. if client_of r j == c then k else 0 in
    let own : new id 1 ≡ (if q.client == c then 1 else 0) =
      ap (λ (o : Option Text). if o == c then 1 else 0)
        (client_of-open_card_self caps now id event q r) in
    let others : weigh new r.waiters ≡ weigh old r.waiters =
      weigh_congr new old r.waiters (λ j k there.
        ap (λ (o : Option Text). if o == c then k else 0)
          (client_of-open_card_ne caps now id j event q r (λ same. there (rw (← same) absent)))) in
    omega (arith, weigh-put new r.waiters id 1 absent, others, own)

pub client_cards-open_card :
    (caps : Caps) (now : Time) (id : Text) (event : Event) (q : Request) (r : Registry)
    (c : Option Text)
    → get r.clients id ≡ none
    → client_cards c (open_card caps now id event q r).1
      ≡ client_cards c r + (if q.client == c then 1 else 0)
unfolding client_cards open_card
client_cards-open_card caps now id event q r c absent =
    weigh-put (λ _ k. if k == c then 1 else 0) r.clients id q.client absent

pub total_waiters-open_card :
    (caps : Caps) (now : Time) (id : Text) (event : Event) (q : Request) (r : Registry)
    → get r.waiters id ≡ none
    → total_waiters (open_card caps now id event q r).1 ≡ total_waiters r + 1
unfolding total_waiters open_card
total_waiters-open_card caps now id event q r absent = weigh-put (λ _ k. k) r.waiters id 1 absent

-- One waiter fewer on a card that keeps others.
pub total_waiters-decrement :
    (r : Registry) (id : Text) (n : ℕ)
    → get r.waiters id ≡ some n
    → 0 < n
    → total_waiters (record r { waiters = put r.waiters id (n - 1) }) + 1 ≡ total_waiters r
unfolding total_waiters
total_waiters-decrement r id n there pos =
    omega (arith, weigh-put_over (λ _ k. k) r.waiters id n (n - 1) there)

pub client_waiters-decrement-le :
    (r : Registry) (id : Text) (n : ℕ) (c : Option Text)
    → get r.waiters id ≡ some n
    → client_waiters_locked c (record r { waiters = put r.waiters id (n - 1) })
      ≤ client_waiters_locked c r
unfolding client_waiters_locked client_of
client_waiters-decrement-le r id n c there = ground (
  arith,
  weigh-put_over (λ j k. if client_of r j == c then k else 0) r.waiters id n (n - 1) there,
)

weigh-remove-le :
    {V : Type 0} (w : Text → V → ℕ) (d : Dict Text V) (k : Text) → weigh w (remove d k) ≤ weigh w d
unfolding weigh remove
weigh-remove-le w [] k = omega arith
weigh-remove-le w ((j, v) ∷ d) k = ground (arith, weigh-remove-le w d k)

pub total_waiters-drop_card-le :
    (id : Text) (r : Registry) → total_waiters (drop_card id r) ≤ total_waiters r
unfolding total_waiters drop_card
total_waiters-drop_card-le id r = weigh-remove-le (λ _ k. k) r.waiters id

-- The card that goes was the only one whose client changes.
pub client_waiters-drop_card-le :
    (id : Text) (r : Registry) (c : Option Text)
    → client_waiters_locked c (drop_card id r) ≤ client_waiters_locked c r
unfolding client_waiters_locked drop_card client_of
client_waiters-drop_card-le id r c =
    let old : Text → ℕ → ℕ = λ j k. if client_of r j == c then k else 0 in
    let new : Text → ℕ → ℕ = λ j k. if client_of (drop_card id r) j == c then k else 0 in
    let others : weigh new (remove r.waiters id) ≡ weigh old (remove r.waiters id) =
      weigh_congr new old (remove r.waiters id)
        (λ j k there. ground (arith, get-remove r.clients id j, get-remove r.waiters id j)) in
    omega (arith, others, weigh-remove-le old r.waiters id)

pub client_cards-drop_card-le :
    (id : Text) (r : Registry) (c : Option Text)
    → client_cards c (drop_card id r) ≤ client_cards c r
unfolding client_cards drop_card
client_cards-drop_card-le id r c = weigh-remove-le (λ _ k. if k == c then 1 else 0) r.clients id
