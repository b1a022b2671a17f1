-- ===== src/ControlPlane/Bridge/Tests.antt =====
-- The bridge of control-plane/api_tool.py: runs, and the theorems at inputs.
use dockade.Base.{
  ◌≡◌, refl, true, false, none, some, [], ◌∷◌, ◌++◌, list_eq, nat_eq, option_eq, find, filter, any,
  all, contains,
}
use dockade.Base.Dict.{get}
use dockade.Base.Table.{update, row_count}
use dockade.Base.Text.{text, strip, lstrip, rstrip, is_space, lower, lower_char}
use dockade.ControlPlane.Holds.{over_client_cap}
use dockade.ControlPlane.Asks.{
  Ask, allowed, withdrawn, expire_tool_asks, expire_rows, ask_by_token, get_tool_ask,
  claim_tool_ask, withdraw_tool_ask, claim_row,
}
use dockade.ControlPlane.Asks.Ended.{grant_lapsed}
use dockade.ControlPlane.Asks.Register.{
  unencodable, register_tool_ask, register_live, insert_ask, new_ask, sort_by_ts, insert_by_ts,
  count_cooling, client_asks,
}
use dockade.ControlPlane.Tools.{null}
use dockade.ControlPlane.Tools.Ruling.{
  ToolStore, decide_tool, tool_ruling, stripped_ruling, served, ruled, rule_action, pinned_ruling,
}
use dockade.ControlPlane.Tools.Pins.{pins_met, answering_pin, sort_pins}
use dockade.ControlPlane.Bridge.{Setup, BridgeState, own_ask, by_token, refuse_unknown, note}
use dockade.ControlPlane.Bridge.Resume.{
  Readings, released, unknown_approval, tool_claim, by_owner, release, by_claimed, tool_withdraw,
  withdraw_owned, by_withdrawn, dropped,
}
use dockade.ControlPlane.Bridge.Authorize.{
  Arrival, ToolCallRequest, tool_authorize, by_ruling, ask_call, by_refusal, asking, is_digest,
}
use dockade.ControlPlane.Bridge.Claims.{IsClaim, tool_claim-IsClaim}
use dockade.ControlPlane.Bridge.Withdrawals.{IsWithdrawal, tool_withdraw-IsWithdrawal}

abbrev setup : Setup
setup = record {
  limits = record {
    tool_hold_timeout = 600;
    tool_grant_timeout = 900;
    max_tool_pending = 2;
    max_tool_pending_per_client = 1;
    tool_withdraw_cooldown = 60;
  };
  loads = λ t. none;
  dumps = λ j. [];
  canonical = λ j. text "{}";
  digest = λ server tool args. server ++ tool ++ args;
  parse_ip = λ t. none;
  classes = [];
}

-- The ask that a human approved at 110.
abbrev granted : Ask
granted = record {
  id = text "a";
  ts = 100;
  server = text "git";
  tool = text "merge";
  args_json = text "{}";
  args_digest = text "gitmerge{}";
  client = some (text "10.0.0.2");
  status = allowed;
  deadline = 700;
  resolved_at = some 110;
  resolved_by = some (text "operator");
  claimed_at = none;
  schema_digest = none;
  resume_token = text "t";
}

abbrev tools : ToolStore
tools = record {
  servers = (text "git", true) ∷ [];
  rules = record { server = text "git"; tool = text "merge"; action = text "ask" } ∷ [];
  pins = [];
}

abbrev state : BridgeState
state = record {
  asks = granted ∷ [];
  tools = tools;
  saturation = record {
    count = 0;
    last_ts = none;
    last_scope = none;
    last_host = none;
    acked = 0;
    acked_ts = none;
  };
  call_tokens = [];
  audit = [];
}

abbrev now : Readings
now = record {
  by_token = 120;
  by_id = 120;
  policy = 120;
  expiry = 120;
  claim = 121;
  reread = 121;
  current = 121;
}

-- What a run computes through: naming this opens all of it.
all_steps : Unit {0}
unfolding strip lstrip rstrip is_space lower lower_char get find filter any all contains update
    row_count over_client_cap expire_tool_asks expire_rows ask_by_token get_tool_ask claim_tool_ask
    withdraw_tool_ask grant_lapsed unencodable register_tool_ask register_live insert_ask new_ask
    sort_by_ts insert_by_ts count_cooling client_asks decide_tool tool_ruling stripped_ruling served
    ruled rule_action pinned_ruling pins_met answering_pin sort_pins own_ask by_token refuse_unknown
    note tool_claim by_owner release by_claimed tool_withdraw withdraw_owned by_withdrawn
    tool_authorize by_ruling ask_call by_refusal is_digest
all_steps = tt

claim_run :
    (tool_claim setup now (text "t") (some (text "10.0.0.2")) state).0
    ≡ released (claim_row 121 granted)
unfolding all_steps
claim_run = refl

foreign_run : (tool_claim setup now (text "t") (some (text "10.0.0.3")) state).0 ≡ unknown_approval
unfolding all_steps
foreign_run = refl

-- The server is disabled: the claim is refused, and the grant is there for later.
disabled_run :
    (tool_claim setup now
      (text "t")
      (some (text "10.0.0.2"))
      (record state { tools = record tools { servers = (text "git", false) ∷ [] } })).1.asks
    ≡ granted ∷ []
unfolding all_steps
disabled_run = refl

tool_claim-IsClaim_example :
    IsClaim setup now
      (text "t")
      (some (text "10.0.0.2"))
      state
      (tool_claim setup now (text "t") (some (text "10.0.0.2")) state)
tool_claim-IsClaim_example =
    tool_claim-IsClaim setup now (text "t") (some (text "10.0.0.2")) state
      (unfold find in (refl, tt))

withdraw_run :
    (tool_withdraw setup now (text "t") (some (text "10.0.0.2")) state).0 ≡ dropped allowed
unfolding all_steps
withdraw_run = refl

-- The grant keeps the stamp of its decision.
withdraw_row_run :
    (tool_withdraw setup now (text "t") (some (text "10.0.0.2")) state).1.asks
    ≡ record granted { status = withdrawn } ∷ []
unfolding all_steps
withdraw_row_run = refl

tool_withdraw-IsWithdrawal_example :
    IsWithdrawal setup now
      (text "t")
      (some (text "10.0.0.2"))
      state
      (tool_withdraw setup now (text "t") (some (text "10.0.0.2")) state)
tool_withdraw-IsWithdrawal_example =
    tool_withdraw-IsWithdrawal setup now (text "t") (some (text "10.0.0.2")) state
      (unfold find in (refl, tt))

abbrev arrival : Arrival
arrival = record {
  now = 130;
  expiry = 130;
  later = 130;
  id = text "b";
  token = text "u";
  call_token = text "v";
  stored = true;
}

abbrev call : ToolCallRequest
call = record {
  server = text " Git";
  tool = text "merge";
  args = null;
  client = some (text "10.0.0.3");
  schema_digest = some (text "short");
}

ask_run :
    (tool_authorize setup arrival call state).0
    ≡ asking
        (tool_ruling setup.loads setup.dumps tools 130 (text "git") (text "merge") null none).reason
        (some (text "u"))
        730
        false
        900
unfolding all_steps
ask_run = refl
