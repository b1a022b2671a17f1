-- ===== src/ControlPlane/Asks/Register.antt =====
-- `_register_tool_ask` of control-plane/holds.py: raise a card for a tool call, join the identical
-- one that is pending, or refuse. The arguments come in the canonical form of `_canonical_args`;
-- `digest` stands for SHA-256 over server, tool and arguments.
use dockade.Base.{
  ℕ, ◌+◌, Bool, true, false, ◌&&◌, Option, none, some, List, [], ◌∷◌, ◌++◌, ltb, leb, if◌then◌else◌,
  ◌==◌, length, filter, find, any, nat_eq, list_eq, option_eq,
}
use dockade.Base.Text.{Text}
use dockade.ControlPlane.Holds.{
  Time, Scope, Saturation, global_tool_asks, tool_asks_of_client, over_client_cap,
}
use dockade.ControlPlane.Asks.{
  Ask, Table, Limits, pending, withdrawn, status_eq, is_pending, is_none, younger, expire_tool_asks,
}

abbrev pub tool_args_max : ℕ
tool_args_max = 8192

pub record Call : Type 0 where
  pub server : Text
  pub tool : Text
  pub args_json : Text
  pub client : Option Text
  pub schema_digest : Option Text

-- Why no ask was registered: too long, not storable, or a cap, with how many withdrawals count.
pub data Refusal : Type 0 where
  args_too_long : ℕ → Refusal
  lone_surrogate : Refusal
  over_capacity : Scope → ℕ → Refusal

pub record ToolAsk : Type 0 where
  pub approval_id : Option Text
  pub joined : Bool
  pub refused : Option Refusal
  pub deadline : Time
  pub resume_token : Option Text

-- A code point that UTF-8 has no form for.
abbrev pub is_surrogate : ℕ → Bool
is_surrogate c = leb 0xd800 c && leb c 0xdfff

unfoldable pub unencodable : Text → Bool
unencodable t = any is_surrogate t

-- `ORDER BY ts`
unfoldable pub insert_by_ts : Ask → List Ask → List Ask
insert_by_ts a [] = a ∷ []
insert_by_ts a (b ∷ bs) =
    let rest = insert_by_ts a bs in if leb a.ts b.ts then a ∷ b ∷ bs else b ∷ rest

unfoldable pub sort_by_ts : List Ask → List Ask
sort_by_ts [] = []
sort_by_ts (a ∷ rest) = insert_by_ts a (sort_by_ts rest)

-- The pending row that this call is identical to.
abbrev pub is_same_call : Call → Text → Ask → Bool
is_same_call call digest r =
    r.client == call.client && r.args_digest == digest && r.schema_digest == call.schema_digest

-- Withdrawn while pending, and still counted.
abbrev pub is_cooling : Limits → Time → Option Text → Ask → Bool
is_cooling limits now client r =
    r.client == client
    && r.status == withdrawn
    && is_none r.resolved_by
    && younger r.resolved_at limits.tool_withdraw_cooldown now

unfoldable pub count_cooling : Limits → Time → Option Text → Table → ℕ
count_cooling limits now client t =
    if ltb 0 limits.tool_withdraw_cooldown
    then length (filter (is_cooling limits now client) t)
    else 0

unfoldable pub client_asks : Option Text → List Ask → ℕ
client_asks client rows = length (filter (λ r. r.client == client) rows)

refused_ask : Refusal → ToolAsk
refused_ask why = record {
  approval_id = none;
  joined = false;
  refused = some why;
  deadline = 0;
  resume_token = none;
}

-- `_refuse_tool`: the one saturation account counts it; the last host stays.
unfoldable pub refuse_tool : Time → Scope → ℕ → Saturation → Table → ToolAsk × Saturation × Table
unfolding refused_ask
refuse_tool now scope cooling sat t = (
  refused_ask (over_capacity scope cooling),
  record sat { count = sat.count + 1; last_ts = some now; last_scope = some scope },
  t,
)

unfoldable pub new_ask : Limits → Time → Text → Text → Text → Call → Ask
new_ask limits now id token digest call = record {
  id = id;
  ts = now;
  server = call.server;
  tool = call.tool;
  args_json = call.args_json;
  args_digest = digest;
  client = call.client;
  status = pending;
  deadline = now + limits.tool_hold_timeout;
  resolved_at = none;
  resolved_by = none;
  claimed_at = none;
  schema_digest = call.schema_digest;
  resume_token = token;
}

unfoldable pub join_ask : Ask → ToolAsk
join_ask r = record {
  approval_id = some r.id;
  joined = true;
  refused = none;
  deadline = r.deadline;
  resume_token = some r.resume_token;
}

unfoldable pub insert_ask :
    Limits → Time → Text → Text → Text → Call → Saturation → Table → ToolAsk × Saturation × Table
insert_ask limits now id token digest call sat t = (
  record {
    approval_id = some id;
    joined = false;
    refused = none;
    deadline = now + limits.tool_hold_timeout;
    resume_token = some token;
  },
  sat,
  t ++ new_ask limits now id token digest call ∷ [],
)

-- What runs under `_LOCK`, once the lapsed asks are retired: join, then the two caps.
unfoldable pub register_live :
    Limits → Time → Text → Text → Text → Call → Saturation → Table → ToolAsk × Saturation × Table
register_live limits now id token digest call sat t =
    let rows = sort_by_ts (filter is_pending t) in
    let cooling = count_cooling limits now call.client t in
    elim (find (is_same_call call digest) rows) [
      | some r ↦ (join_ask r, sat, t)
      | none ↦
          if leb limits.max_tool_pending (length rows)
          then refuse_tool now global_tool_asks 0 sat t
          else if over_client_cap limits.max_tool_pending_per_client call.client
              (client_asks call.client rows + cooling)
          then refuse_tool now (tool_asks_of_client call.client) cooling sat t
          else insert_ask limits now id token digest call sat t
    ]

unfoldable pub register_tool_ask :
    Limits
    → (Text → Text → Text → Text)
    → Time
    → Time
    → Text
    → Text
    → Call
    → Saturation
    → Table
    → ToolAsk × Saturation × Table
unfolding refused_ask
register_tool_ask limits digest now later id token call sat t =
    if ltb tool_args_max (length call.args_json)
    then (refused_ask (args_too_long (length call.args_json)), sat, t)
    else if unencodable call.args_json
    then (refused_ask lone_surrogate, sat, t)
    else register_live limits later id token (digest call.server call.tool call.args_json) call sat
        (expire_tool_asks limits now t)
