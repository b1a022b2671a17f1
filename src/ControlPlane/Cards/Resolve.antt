-- ===== src/ControlPlane/Cards/Resolve.antt =====
-- The tool half of `resolve` in control-plane/api_approvals.py: `_resolve_tool_ask_request` and
-- `_allow_pinned`. The id of a new pin is an argument, and so is each reading of the clock.
use dockade.Base.{
  ℕ, ◌-◌, Bool, ◌&&◌, not, Option, none, some, List, [], ◌∷◌, ◌++◌, if◌then◌else◌, ◌==◌, contains,
  is_empty, list_eq, nat_eq,
}
use dockade.Base.Dict.{keys}
use dockade.Base.Text.{Text, text, lower, strip, is_space, or_empty}
use dockade.ControlPlane.Asks.{
  Ask, Table, Limits, Status, allowed, denied, get_tool_ask, resolve_tool_ask,
}
use dockade.ControlPlane.Policy.Hosts.{Address, ClientClasses, client_class}
use dockade.ControlPlane.Policy.Rules.{sorted_set}
use dockade.ControlPlane.Tools.{Json, object}
use dockade.ControlPlane.Tools.Pins.{Time}
use dockade.ControlPlane.Tools.Ruling.{ToolStore}
use dockade.ControlPlane.Pinned.{
  created, extended, rebound, kept, Unpinned, not_pending, not_ask, bound_later, Pinning,
  PinnedAnswer, unpinned, pinned, resolve_tool_ask_pinned,
}
use dockade.ControlPlane.Cards.{NoPin, Candidates, pin_candidates, pick, object_of, is_choice}

pub record CardSettings : Type 0 where
  pub limits : Limits
  pub loads : Text → Option Json
  pub dumps : Json → Text
  pub canonical : Json → Text
  pub parse_ip : Text → Option Address
  pub classes : ClientClasses
  pub pin_lease_seconds : Time

-- A click, with who made it.
pub record CardClick : Type 0 where
  pub action : Text
  pub pattern : Option Text
  pub pins : Option (List Text)
  pub actor : Text

-- The readings of the clock, in order, and the id of a new pin.
pub record ClickTimes : Type 0 where
  pub read : Time
  pub decide : Time
  pub reread : Time
  pub told : Time
  pub new_pin : ℕ

-- What a pin that stays as it was says of itself.
pub data InPlace : Type 0 where
  written : InPlace
  already_for_good : Bool → InPlace
  already_with_left : Time → InPlace

pub data CardSentence : Type 0 where
  ask_allowed ask_denied : CardSentence
  allowed_and_pinned : List Text → ℕ → InPlace → CardSentence
  pin_created : ℕ → List Text → Option Time → CardSentence
  pin_extended : ℕ → Time → List Text → Option Time → CardSentence
  pin_rebound : ℕ → Option Time → List Text → Option Time → CardSentence

pub data CardKind : Type 0 where
  allow deny create edit : CardKind

pub record CardLine : Type 0 where
  pub kind : CardKind
  pub stage : Text
  pub client : Option Text
  pub client_class : Text
  pub actor : Text
  pub server : Text
  pub tool : Text
  pub approval_id : Text
  pub reason : CardSentence

pub record CardState : Type 0 where
  pub asks : Table
  pub tools : ToolStore
  pub audit : List CardLine

pub data CardAnswer : Type 0 where
  raised : CardAnswer
  unknown_action : Text → CardAnswer
  takes_no_pattern : CardAnswer
  takes_no_pins : Text → CardAnswer
  no_pin : NoPin → CardAnswer
  bad_pins : List Text → CardAnswer
  pin_refused : Unpinned → CardAnswer
  stale : Option Status → CardAnswer
  answered : Status → CardAnswer
  answered_pinned : List Text → Pinning → CardAnswer

abbrev pub tool_actions : List Text
tool_actions = text "allow" ∷ text "allow_pinned" ∷ text "allow_pinned_lease" ∷ text "deny" ∷ []

abbrev pub pin_actions : List Text
pin_actions = text "allow_pinned" ∷ text "allow_pinned_lease" ∷ []

abbrev pub status_in : Option Ask → Option Status
status_in none = none
status_in (some ask) = some ask.status

-- The length of a grant, in an audit sentence.
abbrev pub left_of : Option Time → Time → Option Time
left_of none now = none
left_of (some t) now = some (t - now)

module _ (g : CardSettings) (at : ClickTimes) (id : Text) (actor : Text) where
  abbrev pub card_line : CardKind → Text → Ask → CardSentence → CardLine
  card_line kind stage ask reason = record {
    kind = kind;
    stage = stage;
    client = ask.client;
    client_class = client_class g.parse_ip g.classes ask.client;
    actor = actor;
    server = ask.server;
    tool = ask.tool;
    approval_id = id;
    reason = reason;
  }

  -- Not pending any more: the status says why.
  unfoldable pub tell_stale : CardState → CardAnswer × CardState
  tell_stale s =
      let (current, t) = get_tool_ask g.limits at.reread id s.asks in
      (stale (status_in current), record s { asks = t })

  unfoldable pub in_place : Bool → Pinning → InPlace
  in_place leased done = elim done.change [
    | kept ↦ elim done.expires_at [
      | none ↦ already_for_good leased
      | some t ↦ already_with_left (t - at.told)
    ]
    | created ↦ written
    | extended ↦ written
    | rebound ↦ written
  ]

  abbrev pub lasting : Pinning → Option Time
  lasting done = elim done.expires_at [ none ↦ none | some t ↦ some g.pin_lease_seconds ]

  -- The standing policy that the click wrote, if it did.
  unfoldable pub policy_lines : List Text → Ask → Pinning → List CardLine
  policy_lines names ask done = elim done.change [
    | created ↦
        card_line create (text "tool-policy") ask (pin_created done.pin_id names (lasting done))
        ∷ []
    | extended ↦
        card_line edit (text "tool-policy") ask (
          pin_extended done.pin_id (elim done.replaced [ none ↦ 0 | some t ↦ t - at.told ]) names
            (lasting done))
        ∷ []
    | rebound ↦
        card_line edit (text "tool-policy") ask
          (pin_rebound done.pin_id (left_of done.replaced at.told) names (lasting done))
        ∷ []
    | kept ↦ []
  ]

  unfoldable pub by_pinned :
      Bool → List Text → Ask → PinnedAnswer → CardState → CardAnswer × CardState
  by_pinned leased names ask (pinned done) s = (
    answered_pinned names done,
    record s {
      audit =
          s.audit
          ++ card_line allow (text "tool-ask") ask
              (allowed_and_pinned names done.pin_id (in_place leased done))
            ∷ policy_lines names ask done;
    },
  )
  by_pinned leased names ask (unpinned not_pending) s = tell_stale s
  by_pinned leased names ask (unpinned (not_ask now)) s = (pin_refused (not_ask now), s)
  by_pinned leased names ask (unpinned (bound_later old)) s = (pin_refused (bound_later old), s)

  abbrev pub pins_of : Ask → List Text → Text
  pins_of ask chosen = g.canonical (object (pick (object_of (g.loads ask.args_json)) chosen))

  unfoldable pub pin_chosen : Bool → List Text → Ask → CardState → CardAnswer × CardState
  pin_chosen leased chosen ask s =
      let (answer, t, tools) =
        resolve_tool_ask_pinned at.decide id actor (pins_of ask chosen)
          (if leased then some g.pin_lease_seconds else none) at.new_pin s.asks s.tools in
      by_pinned leased (sorted_set chosen) ask answer (record s { asks = t; tools = tools })

  abbrev pub candidates_for : Ask → Candidates
  candidates_for ask = pin_candidates g.dumps g.loads ask.args_json ask.schema_digest

  unfoldable pub by_candidates :
      Bool → List Text → Ask → Option NoPin → CardState → CardAnswer × CardState
  by_candidates leased chosen ask (some why) s = (no_pin why, s)
  by_candidates leased chosen ask none s =
      let offered = keys (candidates_for ask).fields in
      if is_choice offered chosen
      then pin_chosen leased chosen ask s
      else (bad_pins (sorted_set offered), s)

  unfoldable pub allow_pinned : Bool → List Text → Option Ask → CardState → CardAnswer × CardState
  allow_pinned leased chosen none s = (stale none, s)
  allow_pinned leased chosen (some ask) s =
      by_candidates leased chosen ask (candidates_for ask).refused s

  -- After `_resolve_tool_ask`; the ask was read before it.
  unfoldable pub by_status : Text → Option Ask → Option Status → CardState → CardAnswer × CardState
  by_status action ask none s = tell_stale s
  by_status action none (some status) s = (raised, s)
  by_status action (some ask) (some status) s = (
    answered status,
    record s {
      audit =
          s.audit
          ++ (if action == text "allow"
              then card_line allow (text "tool-ask") ask ask_allowed
              else card_line deny (text "tool-ask") ask ask_denied)
            ∷ [];
    },
  )

  unfoldable pub decide_ask : Text → Option Ask → CardState → CardAnswer × CardState
  decide_ask action ask s =
      let (status, t) =
        resolve_tool_ask at.decide id (if action == text "allow" then allowed else denied) actor
          s.asks in
      by_status action ask status (record s { asks = t })

abbrev pub list_or_empty : Option (List Text) → List Text
list_or_empty none = []
list_or_empty (some l) = l

abbrev pub action_of_click : CardClick → Text
action_of_click click = lower (strip is_space click.action)

module _ (g : CardSettings) (at : ClickTimes) (id : Text) (click : CardClick) where
  unfoldable pub by_action : Text → CardState → CardAnswer × CardState
  by_action action s =
      let (ask, t) = get_tool_ask g.limits at.read id s.asks in
      if contains action pin_actions
      then allow_pinned g at id click.actor (action == text "allow_pinned_lease")
          (list_or_empty click.pins) ask (record s { asks = t })
      else decide_ask g at id click.actor action ask (record s { asks = t })

  unfoldable pub resolve_tool_ask_request : CardState → CardAnswer × CardState
  resolve_tool_ask_request s =
      let action = action_of_click click in
      if not (contains action tool_actions)
      then (unknown_action action, s)
      else if not (is_empty (strip is_space (or_empty click.pattern)))
      then (takes_no_pattern, s)
      else if not (is_empty (list_or_empty click.pins)) && not (contains action pin_actions)
      then (takes_no_pins action, s)
      else by_action action s
