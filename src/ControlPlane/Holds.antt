-- ===== src/ControlPlane/Holds.antt =====
-- control-plane/holds.py: the registry of held requests, its caps, and the grouping of duplicates.
-- The module's globals are the fields of `Registry`; the clock and the fresh id are arguments.
pub mod Groups
pub mod Outcomes
pub mod Invariant
pub mod Counting
pub mod Bounds
pub mod Banner
pub mod Orphans
pub mod Steps
pub mod Joins
pub mod Room
pub mod Release
pub mod Tests
use dockade.Base.{
  ℕ, ◌+◌, ◌-◌, ◌≡◌, ◌↔◌, Bool, true, false, ◌&&◌, Option, none, some, List, [], ◌∷◌, arith, ltb,
  leb, if◌then◌else◌, Eq, ◌==◌, ==_iff, length, is_empty, nat_eq, list_eq, option_eq,
}
use dockade.Base.Dict.{Dict, get, put, remove}
use dockade.Base.Text.{Text, or_empty, or_none, lower}
use dockade.Base.Weigh.{weigh}

-- The identity of a `threading.Event`, and an instant of the clock.
abbrev pub Event : Type 0
Event = ℕ

abbrev pub Time : Type 0
Time = ℕ

pub record Caps : Type 0 where
  pub hold_timeout : Time
  pub max_pending : ℕ
  pub max_pending_per_client : ℕ
  pub max_waiters : ℕ
  pub max_waiters_per_client : ℕ

pub record GroupKey : Type 0 where
  pub client : Option Text
  pub host : Text
  pub port : Option ℕ
  pub proto : Option Text

-- Which cap refused a request.
pub data Scope : Type 0 where
  global_waiters : Scope
  waiters_of_client : Option Text → Scope
  global_cards : Scope
  cards_of_client : Option Text → Scope
  global_tool_asks : Scope
  tool_asks_of_client : Option Text → Scope

pub record Saturation : Type 0 where
  pub count : ℕ
  pub last_ts : Option Time
  pub last_scope : Option Scope
  pub last_host : Option Text
  pub acked : ℕ
  pub acked_ts : Option Time

pub record Registry : Type 0 where
  pub events : Dict Text Event
  pub clients : Dict Text (Option Text)
  pub waiters : Dict Text ℕ
  pub groups : Dict GroupKey Text
  pub deadlines : Dict Text Time
  pub saturation : Saturation

pub record HoldSlot : Type 0 where
  pub approval_id : Option Text
  pub event : Option Event
  pub joined : Bool
  pub refused : Option Scope
  pub deadline : Time

-- What a request brings to `_reserve_hold`.
pub record Request : Type 0 where
  pub client : Option Text
  pub host : Option Text
  pub port : Option ℕ
  pub proto : Option Text

abbrev pub group_key_same : GroupKey → GroupKey → Bool
group_key_same a b =
    a.client == b.client && a.host == b.host && a.port == b.port && a.proto == b.proto

pub group_key_same_iff : (a b : GroupKey) → (group_key_same a b ≡ true) ↔ (a ≡ b)
group_key_same_iff a b = ground (
  arith,
  ==_iff a.client b.client,
  ==_iff a.host b.host,
  ==_iff a.port b.port,
  ==_iff a.proto b.proto,
)

instance abbrev pub group_key_eq : Eq GroupKey
group_key_eq = record { same = group_key_same; same_iff = group_key_same_iff }

unfoldable pub group_key : Request → GroupKey
group_key q = record {
  client = or_none q.client;
  host = lower (or_empty q.host);
  port = q.port;
  proto = or_none (some (lower (or_empty q.proto)));
}

-- _PENDING_CLIENT.get(approval_id)
unfoldable pub client_of : Registry → Text → Option Text
client_of r id = elim (get r.clients id) [ none ↦ none | some client ↦ client ]

unfoldable pub total_waiters : Registry → ℕ
total_waiters r = weigh (λ _ n. n) r.waiters

unfoldable pub client_waiters_locked : Option Text → Registry → ℕ
client_waiters_locked client r = weigh (λ id n. if client_of r id == client then n else 0) r.waiters

unfoldable pub client_cards : Option Text → Registry → ℕ
client_cards client r = weigh (λ _ c. if c == client then 1 else 0) r.clients

-- A cap on one client: off when it is 0 or the client is unknown.
unfoldable pub over_client_cap : ℕ → Option Text → ℕ → Bool
over_client_cap cap none used = false
over_client_cap cap (some _) used = ltb 0 cap && leb cap used

unfoldable pub refuse : Time → Request → Scope → Registry → HoldSlot × Registry
refuse now q scope r = (
  record { approval_id = none; event = none; joined = false; refused = some scope; deadline = 0 },
  record r {
    saturation = record (r.saturation) {
      count = r.saturation.count + 1;
      last_ts = some now;
      last_scope = some scope;
      last_host = q.host;
    };
  },
)

abbrev pub or_zero : Option ℕ → ℕ
or_zero none = 0
or_zero (some n) = n

-- The card that a request with this key attaches to, and its event.
unfoldable pub joinable : Registry → GroupKey → Option (Text × Event)
joinable r key = elim (get r.groups key) [
  | none ↦ none
  | some id ↦
      if is_empty id
      then none
      else elim (get r.events id) [ none ↦ none | some event ↦ some (id, event) ]
]

unfoldable pub join_card : Text → Event → Registry → HoldSlot × Registry
join_card id event r = (
  record {
    approval_id = some id;
    event = some event;
    joined = true;
    refused = none;
    deadline = or_zero (get r.deadlines id);
  },
  record r { waiters = put r.waiters id (or_zero (get r.waiters id) + 1) },
)

unfoldable pub open_card : Caps → Time → Text → Event → Request → Registry → HoldSlot × Registry
open_card caps now id event q r =
    let deadline = now + caps.hold_timeout in
    (
      record {
        approval_id = some id;
        event = some event;
        joined = false;
        refused = none;
        deadline = deadline;
      },
      record r {
        events = put r.events id event;
        clients = put r.clients id q.client;
        waiters = put r.waiters id 1;
        deadlines = put r.deadlines id deadline;
        groups = put r.groups (group_key q) id;
      },
    )

-- The checks on cards, which only a new card reaches.
unfoldable pub reserve_card : Caps → Time → Text → Event → Request → Registry → HoldSlot × Registry
reserve_card caps now id event q r =
    if leb caps.max_pending (length r.events)
    then refuse now q global_cards r
    else if over_client_cap caps.max_pending_per_client q.client (client_cards q.client r)
    then refuse now q (cards_of_client q.client) r
    else open_card caps now id event q r

unfoldable pub reserve_hold : Caps → Time → Text → Event → Request → Registry → HoldSlot × Registry
reserve_hold caps now id event q r =
    if leb caps.max_waiters (total_waiters r)
    then refuse now q global_waiters r
    else if over_client_cap caps.max_waiters_per_client q.client (client_waiters_locked q.client r)
    then refuse now q (waiters_of_client q.client) r
    else elim (joinable r (group_key q)) [
      | some (joined, e) ↦ join_card joined e r
      | none ↦ reserve_card caps now id event q r
    ]

-- `for key, held in list(_GROUPS.items())`: the loop runs over a copy of the items.
unfoldable pub close_items : Text → Dict GroupKey Text → Dict GroupKey Text → Dict GroupKey Text
close_items id [] groups = groups
close_items id ((key, held) ∷ items) groups =
    close_items id items (if held == id then remove groups key else groups)

unfoldable pub close_group : Text → Registry → Registry
close_group id r = record r { groups = close_items id r.groups r.groups }

-- The pops of the last waiter.
unfoldable pub drop_card : Text → Registry → Registry
drop_card id r = record r {
  waiters = remove r.waiters id;
  events = remove r.events id;
  clients = remove r.clients id;
  deadlines = remove r.deadlines id;
}

-- Drop one waiter's slot; the last one unregisters the card.
unfoldable pub release_hold : Text → Registry → Registry
release_hold id r =
    let n = or_zero (get r.waiters id) in
    if ltb 1 n
    then record r { waiters = put r.waiters id (n - 1) }
    else close_group id (drop_card id r)

abbrev pub empty_registry : Registry
empty_registry = record {
  events = [];
  clients = [];
  waiters = [];
  groups = [];
  deadlines = [];
  saturation = record {
    count = 0;
    last_ts = none;
    last_scope = none;
    last_host = none;
    acked = 0;
    acked_ts = none;
  };
}
