-- ===== src/ControlPlane/Asks/Tests.antt =====
-- One tool call of control-plane/holds.py: raised, raised again, allowed, claimed.
use dockade.Base.{
  ◌≡◌, refl, ◌⊎◌, true, false, Option, none, some, [], ◌∷◌, ◌++◌, nat_eq, list_eq, option_eq,
  contains, filter, find, any,
}
use dockade.Base.Text.{Text, text}
use dockade.Base.Table.{update, row_count}
use dockade.ControlPlane.Holds.{Saturation, over_client_cap}
use dockade.ControlPlane.Asks.{
  Ask, Table, Limits, Status, pending, allowed, status_eq, expire_tool_asks, expire_rows,
  resolve_tool_ask, claim_tool_ask, get_tool_ask,
}
use dockade.ControlPlane.Asks.Retired.{AreLeft, expire_tool_asks-rowwise}
use dockade.ControlPlane.Asks.Evolution.{Evolves}
use dockade.ControlPlane.Asks.Claims.{claim_tool_ask-exact}
use dockade.ControlPlane.Asks.Register.{
  Call, ToolAsk, register_tool_ask, register_live, new_ask, insert_ask, sort_by_ts, insert_by_ts,
  count_cooling, client_asks, unencodable,
}
use dockade.ControlPlane.Asks.Answers.{IsRefusal, IsHandleOn, register_tool_ask-Answer}
use dockade.ControlPlane.Asks.History.{
  Log, HasNoRepeats, History, start, registered, resolved, claimed, log_resolved, log_claimed,
}
use dockade.ControlPlane.Asks.History.Safety.{History-claims}
use dockade.ControlPlane.Asks.History.Caps.{IsWithinCaps, History-IsWithinCaps}
use dockade.ControlPlane.Asks.History.Cards.{HasOneCards, History-HasOneCards}

abbrev limits : Limits
limits = record {
  tool_hold_timeout = 600;
  tool_grant_timeout = 900;
  max_tool_pending = 2;
  max_tool_pending_per_client = 1;
  tool_withdraw_cooldown = 60;
}

abbrev plain_digest : Text → Text → Text → Text
plain_digest server tool args = server ++ tool ++ args

abbrev no_saturation : Saturation
no_saturation = record {
  count = 0;
  last_ts = none;
  last_scope = none;
  last_host = none;
  acked = 0;
  acked_ts = none;
}

abbrev merge : Call
merge = record {
  server = text "git";
  tool = text "merge";
  args_json = text "{}";
  client = some (text "10.0.0.2");
  schema_digest = none;
}

abbrev empty_log : Log
empty_log = record { grants = []; claims = []; withdrawals = [] }

abbrev asked : ToolAsk × Saturation × Table
asked = register_tool_ask limits plain_digest 100 100 (text "a") (text "t") merge no_saturation []

abbrev answered : Option Status × Table
answered = resolve_tool_ask 110 (text "a") allowed (text "operator") asked.2

abbrev spent : Option Ask × Table
spent = claim_tool_ask limits 120 120 120 (text "a") answered.1

abbrev spent_log : Log
spent_log = log_claimed (text "a") spent.0 (log_resolved (text "a") answered.0 empty_log)

abbrev whole_history : History limits plain_digest spent_log asked.1 spent.1
whole_history = claimed 120 120 120 (text "a") (
    resolved 110 (text "a") allowed (text "operator")
      (registered 100 100 (text "a") (text "t") merge (start no_saturation) (unfold find in refl)))

spent_log_claims : (spent_log.claims ≡ text "a" ∷ []) × (spent_log.grants ≡ text "a" ∷ [])
unfolding claim_tool_ask resolve_tool_ask register_tool_ask register_live insert_ask new_ask
    expire_tool_asks expire_rows get_tool_ask filter find update row_count any unencodable
    sort_by_ts insert_by_ts count_cooling client_asks over_client_cap
spent_log_claims = (refl, refl)

History-claims_example :
    HasNoRepeats spent_log.claims
    × ((id : Text) → contains id spent_log.claims ≡ true → contains id spent_log.grants ≡ true)
    × ((id : Text)
        → contains id spent_log.claims ≡ true
        → contains id spent_log.withdrawals ≡ false)
History-claims_example = History-claims limits plain_digest spent_log asked.1 spent.1 whole_history

History-IsWithinCaps_example : IsWithinCaps limits spent.1
History-IsWithinCaps_example =
    History-IsWithinCaps limits plain_digest spent_log asked.1 spent.1 whole_history

History-HasOneCards_example : HasOneCards spent.1
History-HasOneCards_example =
    History-HasOneCards limits plain_digest spent_log asked.1 spent.1 whole_history

-- The row as the registration leaves it, and as the decision does.
abbrev waiting : Ask
waiting = record {
  id = text "a";
  ts = 100;
  server = text "git";
  tool = text "merge";
  args_json = text "{}";
  args_digest = text "gitmerge{}";
  client = some (text "10.0.0.2");
  status = pending;
  deadline = 700;
  resolved_at = none;
  resolved_by = none;
  claimed_at = none;
  schema_digest = none;
  resume_token = text "t";
}

abbrev granted : Ask
granted = record waiting {
  status = allowed;
  resolved_at = some 110;
  resolved_by = some (text "operator");
}

expire_tool_asks-rowwise_example :
    AreLeft limits 1200
      (waiting ∷ granted ∷ [])
      (expire_tool_asks limits 1200 (waiting ∷ granted ∷ []))
expire_tool_asks-rowwise_example = expire_tool_asks-rowwise limits 1200 (waiting ∷ granted ∷ [])

claim_tool_ask-exact_example :
    (claim_tool_ask limits 120 120 121 (text "a") (granted ∷ [])).0
    ≡ some (record granted { claimed_at = some 120 })
unfolding find
claim_tool_ask-exact_example =
    claim_tool_ask-exact limits 120 120 121 (text "a") (granted ∷ []) (refl, tt)

abbrev asked_again : ToolAsk × Saturation × Table
asked_again =
    register_tool_ask limits plain_digest 130 130 (text "b") (text "u") merge no_saturation
      (waiting ∷ [])

register_tool_ask-Answer_example :
    (IsRefusal asked_again.0
      ⊎ ((r : Ask) × IsHandleOn merge (text "gitmerge{}") asked_again.0 asked_again.2 r
          × (asked_again.1 ≡ no_saturation)))
    × Evolves (waiting ∷ []) asked_again.2
register_tool_ask-Answer_example =
    register_tool_ask-Answer limits plain_digest 130 130 (text "b") (text "u") merge no_saturation
      (waiting ∷ [])
