-- ===== src/ControlPlane/Bridge/Authorize.antt =====
-- `tool_authorize` of control-plane/api_tool.py: allow, deny, or an ask with its resume token.
use dockade.Base.{
  ℕ, Bool, ◌&&◌, ◌||◌, Option, none, some, [], ◌∷◌, ◌++◌, leb, if◌then◌else◌, ◌==◌, all, length,
  list_eq, nat_eq,
}
use dockade.Base.Text.{Text, text, lower, strip, is_space, or_none}
use dockade.ControlPlane.Holds.{Time}
use dockade.ControlPlane.Asks.Register.{
  Call, ToolAsk, Refusal, tool_args_max, unencodable, register_tool_ask,
}
use dockade.ControlPlane.Asks.Ended.{first_of}
use dockade.ControlPlane.Egress.{has_surrogate}
use dockade.ControlPlane.Tools.{Json, null}
use dockade.ControlPlane.Tools.Ruling.{ToolReason, ToolRuling, tool_ruling}
use dockade.ControlPlane.Bridge.{
  Setup, BridgeState, BridgeLine, Kind, allow, deny, hold, Sentence, unencodable_call, decided_by,
  not_registered, registered, note, class_in,
}

pub record ToolCallRequest : Type 0 where
  pub server : Text
  pub tool : Text
  pub args : Json
  pub client : Option Text
  pub schema_digest : Option Text

-- What a call brings, normalized, with the ids that it may use.
pub record Arrival : Type 0 where
  pub now : Time
  pub expiry : Time
  pub later : Time
  pub id : Text
  pub token : Text
  pub call_token : Text
  pub stored : Bool

-- The sentence of an answer: a ruling's own, or the field that no store can hold.
pub data CallAnswer : Type 0 where
  failed : CallAnswer
  unencodable_field : CallAnswer
  allowed : ToolReason → Option Text → CallAnswer
  denied : ToolReason → CallAnswer
  refused : Refusal → CallAnswer
  asking : ToolReason → Option Text → Time → Bool → Time → CallAnswer

abbrev pub drain_max_field : ℕ
drain_max_field = 2048

-- The fields of a call that is decided have no surrogate, which `_escaped` would change.
abbrev pub capped : Text → Text
capped t = first_of drain_max_field t

abbrev pub capped_client : Option Text → Option Text
capped_client none = none
capped_client (some t) = some (capped t)

-- `[0-9a-f]{64}`, of the whole text.
unfoldable pub is_digest : Text → Bool
is_digest t = length t == 64 && all (λ c. leb b'0' c && leb c b'9' || leb b'a' c && leb c b'f') t

abbrev pub kept_digest : Option Text → Option Text
kept_digest none = none
kept_digest (some d) = if is_digest d then some d else none

abbrev pub server_of : ToolCallRequest → Text
server_of req = lower (strip is_space req.server)

abbrev pub tool_of : ToolCallRequest → Text
tool_of req = strip is_space req.tool

module _ (setup : Setup) (at : Arrival) (req : ToolCallRequest) where
  abbrev pub args_json : Text
  args_json = setup.canonical req.args

  abbrev pub is_showable : Bool
  is_showable = leb (length args_json) tool_args_max

  abbrev pub call_line : Kind → Option Text → Sentence → BridgeLine
  call_line kind card reason = record {
    kind = kind;
    stage = text "tool-call";
    client = req.client;
    client_class = class_in setup req.client;
    server = or_none (some (server_of req));
    tool = or_none (some (tool_of req));
    approval_id = card;
    reason = reason;
  }

  abbrev pub call_of : Call
  call_of = record {
    server = server_of req;
    tool = tool_of req;
    args_json = args_json;
    client = req.client;
    schema_digest = kept_digest req.schema_digest;
  }

  -- A pin answered: the token of the call, on the pin's card.
  unfoldable pub mint_call_token : Text → BridgeState → BridgeState
  mint_call_token card s = record s {
    call_tokens =
        s.call_tokens
        ++ record {
          token = at.call_token;
          approval_id = card;
          server = capped (server_of req);
          tool = capped (tool_of req);
          client = capped_client req.client;
        }
          ∷ [];
  }

  unfoldable pub allow_call : ToolReason → Option Text → BridgeState → CallAnswer × BridgeState
  allow_call why none s = (allowed why none, note (call_line allow none (decided_by why)) s)
  allow_call why (some card) s =
      if at.stored
      then (
        allowed why (some at.call_token),
        note (call_line allow (some card) (decided_by why)) (mint_call_token card s),
      )
      else (failed, s)

  unfoldable pub by_refusal :
      ToolReason → ToolAsk → Option Refusal → BridgeState → CallAnswer × BridgeState
  by_refusal why ask (some refusal) s =
      (refused refusal, note (call_line deny none (not_registered refusal)) s)
  by_refusal why ask none s = (
    asking why ask.resume_token ask.deadline ask.joined setup.limits.tool_grant_timeout,
    note (call_line hold ask.approval_id (registered why ask.joined)) s,
  )

  unfoldable pub ask_call : ToolReason → BridgeState → CallAnswer × BridgeState
  ask_call why s =
      let (ask, sat, t) =
        register_tool_ask setup.limits setup.digest at.expiry at.later at.id at.token call_of
          s.saturation s.asks in
      by_refusal why ask ask.refused (record s { saturation = sat; asks = t })

  unfoldable pub by_ruling : ToolRuling → BridgeState → CallAnswer × BridgeState
  by_ruling r s =
      if r.decision == text "allow"
      then allow_call r.reason r.card s
      else if r.decision == text "deny"
      then (denied r.reason, note (call_line deny r.card (decided_by r.reason)) s)
      else ask_call r.reason s

  abbrev pub is_bad_call : Bool
  is_bad_call = unencodable req.server || unencodable req.tool || has_surrogate req.client

  abbrev pub call_ruling : BridgeState → ToolRuling
  call_ruling s =
      tool_ruling setup.loads setup.dumps s.tools at.now (server_of req) (tool_of req)
        (if is_showable then req.args else null) (kept_digest req.schema_digest)

  unfoldable pub tool_authorize : BridgeState → CallAnswer × BridgeState
  tool_authorize s =
      if is_bad_call
      then (unencodable_field, note (call_line deny none unencodable_call) s)
      else by_ruling (call_ruling s) s
