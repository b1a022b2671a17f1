-- ===== src/ControlPlane/Bridge/Calls.antt =====
-- What `tool_authorize` of control-plane/api_tool.py answers a call.
use dockade.Base.{◌≡◌, ◌≢◌, true, false, none, some, [], ◌∷◌, ◌++◌, list_eq, nat_eq}
use dockade.Base.Text.{Text, text}
use dockade.ControlPlane.Holds.{Saturation}
use dockade.ControlPlane.Asks.{Ask, Table}
use dockade.ControlPlane.Asks.Evolution.{Evolves}
use dockade.ControlPlane.Asks.Register.{ToolAsk, Refusal, register_tool_ask}
use dockade.ControlPlane.Asks.Answers.{IsHandleOn}
use dockade.ControlPlane.Tools.Ruling.{ToolRuling}
use dockade.ControlPlane.Bridge.{Setup, BridgeState, CallToken}
use dockade.ControlPlane.Bridge.Authorize.{
  ToolCallRequest, Arrival, CallAnswer, failed, unencodable_field, allowed, denied, refused, asking,
  server_of, tool_of, capped, capped_client, call_of, is_bad_call, call_ruling,
}

module _ (setup : Setup) (at : Arrival) (req : ToolCallRequest) (s : BridgeState) where
  abbrev ruling : ToolRuling
  ruling = call_ruling setup at req s

  abbrev call_digest : Text
  call_digest =
      setup.digest (call_of setup at req).server (call_of setup at req).tool
        (call_of setup at req).args_json

  -- The token of a call that a pin answered, with the pin's card.
  abbrev pub minted : Text → CallToken
  minted card = record {
    token = at.call_token;
    approval_id = card;
    server = capped (server_of req);
    tool = capped (tool_of req);
    client = capped_client req.client;
  }

  pub data IsCall (out : CallAnswer × BridgeState) : Type 0 where
    unreadable :
        is_bad_call setup at req ≡ true
        → out.0 ≡ unencodable_field
        → out.1.asks ≡ s.asks
        → out.1.call_tokens ≡ s.call_tokens
        → IsCall out
    allowed_by_rule :
        is_bad_call setup at req ≡ false
        → ruling.decision ≡ text "allow"
        → ruling.card ≡ none
        → out.0 ≡ allowed ruling.reason none
        → out.1.asks ≡ s.asks
        → out.1.call_tokens ≡ s.call_tokens
        → IsCall out
    allowed_by_pin :
        (card : Text)
        → is_bad_call setup at req ≡ false
        → ruling.decision ≡ text "allow"
        → ruling.card ≡ some card
        → at.stored ≡ true
        → out.0 ≡ allowed ruling.reason (some at.call_token)
        → out.1.asks ≡ s.asks
        → out.1.call_tokens ≡ s.call_tokens ++ minted card ∷ []
        → IsCall out
    not_minted :
        is_bad_call setup at req ≡ false
        → ruling.card ≢ none
        → at.stored ≡ false
        → out ≡ (failed, s)
        → IsCall out
    denied_by_policy :
        is_bad_call setup at req ≡ false
        → ruling.decision ≡ text "deny"
        → out.0 ≡ denied ruling.reason
        → out.1.asks ≡ s.asks
        → out.1.call_tokens ≡ s.call_tokens
        → IsCall out
    not_asked :
        (refusal : Refusal)
        → is_bad_call setup at req ≡ false
        → ruling.decision ≢ text "allow"
        → out.0 ≡ refused refusal
        → Evolves s.asks out.1.asks
        → out.1.call_tokens ≡ s.call_tokens
        → IsCall out
    asks :
        (ask : ToolAsk) (r : Ask)
        → is_bad_call setup at req ≡ false
        → ruling.decision ≢ text "allow"
        → ruling.decision ≢ text "deny"
        → IsHandleOn (call_of setup at req) call_digest ask out.1.asks r
        → out.0
          ≡ asking ruling.reason ask.resume_token ask.deadline ask.joined
              setup.limits.tool_grant_timeout
        → Evolves s.asks out.1.asks
        → out.1.call_tokens ≡ s.call_tokens
        → IsCall out

  module _ (clean : is_bad_call setup at req ≡ false) where
    abbrev registration : ToolAsk × Saturation × Table
    registration =
        register_tool_ask setup.limits setup.digest at.expiry at.later at.id at.token
          (call_of setup at req) s.saturation s.asks
