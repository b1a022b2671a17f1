-- ===== src/ControlPlane/Asks/Registration.antt =====
-- The outcomes of `_register_tool_ask` (control-plane/holds.py): a rule for proofs about it, and
-- what each outcome is.
use dockade.Base.{
  ℕ, ◌+◌, ◌≡◌, refl, Bool, true, false, Option, none, some, List, ltb, leb, if◌then◌else◌, nat_eq,
  list_eq, option_eq, filter, find, length,
}
use dockade.Base.Text.{Text}
use dockade.ControlPlane.Holds.{
  Time, Scope, Saturation, global_tool_asks, tool_asks_of_client, over_client_cap,
}
use dockade.ControlPlane.Asks.{Ask, Table, Limits, is_pending, expire_tool_asks, status_eq}
use dockade.ControlPlane.Asks.Register.{
  Call, Refusal, ToolAsk, args_too_long, lone_surrogate, tool_args_max, unencodable, sort_by_ts,
  is_same_call, count_cooling, client_asks, refuse_tool, join_ask, insert_ask, register_live,
  register_tool_ask,
}

-- The pending rows, in the order they are read.
abbrev pub queue : Table → List Ask
queue t = sort_by_ts (filter is_pending t)

-- Both caps have room for one more ask of this client.
pub record HasRoom (limits : Limits) (now : Time) (client : Option Text) (t : Table) : Type 0 where
  pub global : leb limits.max_tool_pending (length (queue t)) ≡ false
  pub of_client :
      over_client_cap limits.max_tool_pending_per_client client
        (client_asks client (queue t) + count_cooling limits now client t)
      ≡ false

abbrev pub refused_for : Refusal → ToolAsk
refused_for why = record {
  approval_id = none;
  joined = false;
  refused = some why;
  deadline = 0;
  resume_token = none;
}

module _ (limits : Limits) (digest : Text → Text → Text → Text) (now later : Time) (id token : Text)
    (call : Call) (sat : Saturation) (t : Table) (P : ToolAsk × Saturation × Table → Type 0) where
  abbrev expired_t : Table
  expired_t = expire_tool_asks limits now t

  abbrev call_digest : Text
  call_digest = digest call.server call.tool call.args_json

  -- What holds of each outcome holds of the result.
  pub register_rule :
      (P (refused_for (args_too_long (length call.args_json)), sat, t))
      → P (refused_for lone_surrogate, sat, t)
      → ((r : Ask)
          → find (is_same_call call call_digest) (queue expired_t) ≡ some r
          → P (join_ask r, sat, expired_t))
      → ((scope : Scope) (cooling : ℕ) → P (refuse_tool later scope cooling sat expired_t))
      → (find (is_same_call call call_digest) (queue expired_t) ≡ none
          → HasRoom limits later call.client expired_t
          → P (insert_ask limits later id token call_digest call sat expired_t))
      → P (register_tool_ask limits digest now later id token call sat t)
  unfolding register_tool_ask register_live
  register_rule long bad joins refuses inserts =
      by_length (ltb tool_args_max (length call.args_json)) (unencodable call.args_json)
    where
      by_client :
          (b : Bool)
          → find (is_same_call call call_digest) (queue expired_t) ≡ none
          → leb limits.max_tool_pending (length (queue expired_t)) ≡ false
          → over_client_cap limits.max_tool_pending_per_client call.client (
              client_asks call.client (queue expired_t)
              + count_cooling limits later call.client expired_t)
            ≡ b
          → P (
              if b
              then refuse_tool later
                  (tool_asks_of_client call.client)
                  (count_cooling limits later call.client expired_t)
                  sat
                  expired_t
              else insert_ask limits later id token call_digest call sat expired_t)
      by_client true absent room over = refuses (tool_asks_of_client call.client) _
      by_client false absent room over = inserts absent (record { global = room; of_client = over })

      by_global :
          (b : Bool)
          → find (is_same_call call call_digest) (queue expired_t) ≡ none
          → leb limits.max_tool_pending (length (queue expired_t)) ≡ b
          → P (
              if b
              then refuse_tool later global_tool_asks 0 sat expired_t
              else (if over_client_cap limits.max_tool_pending_per_client call.client (
                    client_asks call.client (queue expired_t)
                    + count_cooling limits later call.client expired_t)
                  then refuse_tool later
                      (tool_asks_of_client call.client)
                      (count_cooling limits later call.client expired_t)
                      sat
                      expired_t
                  else insert_ask limits later id token call_digest call sat expired_t))
      by_global true absent over = refuses global_tool_asks 0
      by_global false absent room = by_client _ absent room refl

      by_join :
          (o : Option Ask)
          → find (is_same_call call call_digest) (queue expired_t) ≡ o
          → P (elim o [
            | some r ↦ (join_ask r, sat, expired_t)
            | none ↦
                if leb limits.max_tool_pending (length (queue expired_t))
                then refuse_tool later global_tool_asks 0 sat expired_t
                else if over_client_cap limits.max_tool_pending_per_client call.client (
                    client_asks call.client (queue expired_t)
                    + count_cooling limits later call.client expired_t)
                then refuse_tool later
                    (tool_asks_of_client call.client)
                    (count_cooling limits later call.client expired_t)
                    sat
                    expired_t
                else insert_ask limits later id token call_digest call sat expired_t
          ])
      by_join none h = by_global _ h refl
      by_join (some r) h = joins r h

      by_length :
          (a b : Bool)
          → P (
              if a
              then (refused_for (args_too_long (length call.args_json)), sat, t)
              else if b
              then (refused_for lone_surrogate, sat, t)
              else register_live limits later id token call_digest call sat expired_t)
      by_length true b = long
      by_length false true = bad
      by_length false false = by_join _ refl
