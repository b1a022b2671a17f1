-- ===== src/ControlPlane/Bridge.antt =====
-- control-plane/api_tool.py, the tool bridge: may this call run, and may I now run the ask that a human
-- approved. The clock is read at each step of a handler; ids and tokens that are minted are arguments.
pub mod Authorize
pub mod Resume
pub mod Owners
pub mod Claims
pub mod Withdrawals
pub mod Calls
pub mod Tests
use dockade.Base.{
  ℕ, Bool, true, false, ◌&&◌, ◌||◌, Option, none, some, List, [], ◌∷◌, ◌++◌, if◌then◌else◌, ◌==◌,
  list_eq, nat_eq, option_eq,
}
use dockade.Base.Text.{Text, or_none}
use dockade.ControlPlane.Holds.{Time, Saturation}
use dockade.ControlPlane.Asks.{Ask, Table, Limits, Status, ask_by_token, get_tool_ask}
use dockade.ControlPlane.Asks.Register.{Refusal}
use dockade.ControlPlane.Policy.Hosts.{Address, ClientClasses, client_class}
use dockade.ControlPlane.Tools.{Json}
use dockade.ControlPlane.Tools.Ruling.{ToolStore, ToolReason}

-- What the library functions decide: `json`, `ipaddress` and SHA-256, with the settings.
pub record Setup : Type 0 where
  pub limits : Limits
  pub loads : Text → Option Json
  pub dumps : Json → Text
  pub canonical : Json → Text
  pub digest : Text → Text → Text → Text
  pub parse_ip : Text → Option Address
  pub classes : ClientClasses

-- A row of `tool_call_tokens`.
pub record CallToken : Type 0 where
  pub token : Text
  pub approval_id : Text
  pub server : Text
  pub tool : Text
  pub client : Option Text

-- The sentence of an audit row of the bridge, as what it is made of.
pub data Sentence : Type 0 where
  unencodable_call : Sentence
  decided_by : ToolReason → Sentence
  not_registered : Refusal → Sentence
  registered : ToolReason → Bool → Sentence
  foreign_token : Text → Option Text → Sentence
  operator_id : Text → Sentence
  unknown_token : Text → Text → Sentence
  not_released : ToolReason → Sentence
  claimed_for_execution : Sentence
  withdrawn_while : Status → Sentence

pub data Kind : Type 0 where
  allow deny hold withdraw : Kind

pub record BridgeLine : Type 0 where
  pub kind : Kind
  pub stage : Text
  pub client : Option Text
  pub client_class : Text
  pub server : Option Text
  pub tool : Option Text
  pub approval_id : Option Text
  pub reason : Sentence

pub record BridgeState : Type 0 where
  pub asks : Table
  pub tools : ToolStore
  pub saturation : Saturation
  pub call_tokens : List CallToken
  pub audit : List BridgeLine

abbrev pub class_in : Setup → Option Text → Text
class_in setup client = client_class setup.parse_ip setup.classes client

-- `store._audit`
unfoldable pub note : BridgeLine → BridgeState → BridgeState
note line s = record s { audit = s.audit ++ line ∷ [] }

-- A row about an ask that is known, or about none.
abbrev pub line_on : Setup → Kind → Text → Option Text → Ask → Sentence → BridgeLine
line_on setup kind stage client ask reason = record {
  kind = kind;
  stage = stage;
  client = client;
  client_class = class_in setup client;
  server = some ask.server;
  tool = some ask.tool;
  approval_id = some ask.id;
  reason = reason;
}

abbrev pub line_on_none : Setup → Text → Option Text → Sentence → BridgeLine
line_on_none setup stage client reason = record {
  kind = deny;
  stage = stage;
  client = client;
  client_class = class_in setup client;
  server = none;
  tool = none;
  approval_id = none;
  reason = reason;
}

abbrev pub raised_by : Option Text → Ask → Bool
raised_by client ask = or_none ask.client == or_none client

module _ (setup : Setup) (token : Text) (client : Option Text) (verb stage : Text) where
  -- The value was no resume token: is it an operator's id?
  unfoldable pub refuse_unknown : Option Ask → BridgeState → BridgeState
  refuse_unknown (some presented) s =
      note (line_on setup deny stage client presented (operator_id verb)) s
  refuse_unknown none s = note (line_on_none setup stage client (unknown_token verb token)) s

  unfoldable pub by_token : Time → Option Ask → BridgeState → Option Ask × BridgeState
  by_token later (some ask) s =
      if raised_by client ask
      then (some ask, s)
      else (none, note (line_on setup deny stage client ask (foreign_token verb ask.client)) s)
  by_token later none s =
      let (presented, t) = get_tool_ask setup.limits later token s.asks in
      (none, refuse_unknown presented (record s { asks = t }))

  -- `_own_ask`: no ask is the 404.
  unfoldable pub own_ask : Time → Time → BridgeState → Option Ask × BridgeState
  own_ask now later s =
      let (found, t) = ask_by_token setup.limits now token s.asks in
      by_token later found (record s { asks = t })
