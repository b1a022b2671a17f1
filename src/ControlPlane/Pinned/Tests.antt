-- ===== src/ControlPlane/Pinned/Tests.antt =====
-- A card pinned once, and pinned again under other arguments of the tool (control-plane/holds.py).
use dockade.Base.{◌≡◌, refl, true, none, some, [], ◌∷◌, list_eq, nat_eq, option_eq, find, filter}
use dockade.Base.Table.{update}
use dockade.Base.Text.{Text, text}
use dockade.ControlPlane.Asks.{Ask, Table, pending, status_eq}
use dockade.ControlPlane.Tools.Pins.{Pin}
use dockade.ControlPlane.Tools.Ruling.{ToolStore}
use dockade.ControlPlane.Pinned.{
  PinnedAnswer, pinned, unpinned, not_ask, rebound, rebind_refusal, write_pin, pin_ruled, pin_found,
  resolve_tool_ask_pinned,
}
use dockade.ControlPlane.Pinned.Outcome.{IsOutcome, resolve_tool_ask_pinned-IsOutcome}

abbrev card : Ask
card = record {
  id = text "a";
  ts = 100;
  server = text "git";
  tool = text "merge";
  args_json = text "{}";
  args_digest = text "x";
  client = none;
  status = pending;
  deadline = 700;
  resolved_at = none;
  resolved_by = none;
  claimed_at = none;
  schema_digest = some (text "new");
  resume_token = text "t";
}

abbrev old_pin : Pin
old_pin = record {
  id = 7;
  server = text "git";
  tool = text "merge";
  pins_json = text "P";
  expires_at = none;
  approval_id = text "gone";
  created_at = 20;
  granted_by = text "operator";
  schema_digest = some (text "old");
}

abbrev ruled : Text → ToolStore
ruled action = record {
  servers = (text "git", true) ∷ [];
  rules = record { server = text "git"; tool = text "merge"; action = action } ∷ [];
  pins = old_pin ∷ [];
}

abbrev answer : Text → PinnedAnswer × Table × ToolStore
answer action =
    resolve_tool_ask_pinned 200 (text "a") (text "op") (text "P") (some 60) 8 (card ∷ [])
      (ruled action)

-- What a run computes through: naming this opens all of it.
all_steps : Unit {0}
unfolding resolve_tool_ask_pinned pin_found pin_ruled write_pin rebind_refusal update find filter
all_steps = tt

bound_again :
    (answer (text "ask")).0
    ≡ pinned (record { pin_id = 7; change = rebound; expires_at = some 260; replaced = none })
unfolding all_steps
bound_again = refl

rule_moved : (answer (text "deny")).0 ≡ unpinned (not_ask (some (text "deny")))
unfolding all_steps
rule_moved = refl

resolve_tool_ask_pinned-IsOutcome_example :
    IsOutcome 200
      (text "a")
      (text "op")
      (text "P")
      (some 60)
      (card ∷ [])
      (ruled (text "ask"))
      (answer (text "ask"))
resolve_tool_ask_pinned-IsOutcome_example =
    resolve_tool_ask_pinned-IsOutcome 200 (text "a") (text "op") (text "P") (some 60) 8 (card ∷ [])
      (ruled (text "ask"))
