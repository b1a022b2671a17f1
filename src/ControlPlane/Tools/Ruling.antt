-- ===== src/ControlPlane/Tools/Ruling.antt =====
-- `_tool_ruling` and `_decide_tool` of control-plane/policy.py.
use dockade.Base.{
  ◌-◌, Bool, ◌&&◌, ◌||◌, not, Option, none, some, List, [], ◌∷◌, if◌then◌else◌, ◌==◌, find,
  is_empty, contains, list_eq, nat_eq, option_eq,
}
use dockade.Base.Dict.{Dict, get}
use dockade.Base.Text.{Text, text, strip, is_space}
use dockade.ControlPlane.Tools.{Json}
use dockade.ControlPlane.Tools.Pins.{Time, Pin, pins_met, answering_pin}

pub record ToolRule : Type 0 where
  pub server : Text
  pub tool : Text
  pub action : Text

-- `mcp_servers` as the registered names with `enabled`, `tool_rules` and `tool_pins`.
pub record ToolStore : Type 0 where
  pub servers : Dict Text Bool
  pub rules : List ToolRule
  pub pins : List Pin

abbrev pub tool_actions : List Text
tool_actions = text "allow" ∷ text "deny" ∷ text "ask" ∷ []

-- The sentence of a decision, as what it is made of.
pub data ToolReason : Type 0 where
  needs_names : ToolReason
  unregistered disabled : Text → ToolReason
  no_rule : Text → Text → ToolReason
  unknown_action : Text → Text → Text → ToolReason
  by_pin : Pin → Option Time → ToolReason
  by_rule : Text → Text → Text → List Pin → ToolReason

pub record ToolRuling : Type 0 where
  pub decision : Text
  pub reason : ToolReason
  pub card : Option Text

abbrev pub refusal : ToolReason → ToolRuling
refusal why = record { decision = text "deny"; reason = why; card = none }

abbrev pub is_rule_of : Text → Text → ToolRule → Bool
is_rule_of server tool r = r.server == server && r.tool == tool

-- The answer of the pin that was found, or the rule's own.
unfoldable pub pinned_ruling : Time → Text → Text → Text → List Pin → Option Pin → ToolRuling
pinned_ruling now action tool server met (some p) = record {
  decision = text "allow";
  reason = by_pin p (elim p.expires_at [ none ↦ none | some t ↦ some (t - now) ]);
  card = some p.approval_id;
}
pinned_ruling now action tool server met none = record {
  decision = action;
  reason = by_rule action tool server met;
  card = none;
}

module _ (loads : Text → Option Json) (dumps : Json → Text) where
  -- Under a stored action, once the server and the rule are known.
  unfoldable pub rule_action :
      ToolStore → Time → Text → Text → Json → Option Text → Text → ToolRuling
  rule_action store now server tool args schema_digest action =
      let met =
        if action == text "ask" then pins_met loads dumps store.pins server tool args now else [] in
      pinned_ruling now action tool server met (answering_pin met schema_digest)

  -- By the row of the rule, and by the row of the server before it.
  unfoldable pub ruled :
      ToolStore → Time → Text → Text → Json → Option Text → Option ToolRule → ToolRuling
  ruled store now server tool args schema_digest none = refusal (no_rule tool server)
  ruled store now server tool args schema_digest (some r) =
      if not (contains r.action tool_actions)
      then refusal (unknown_action tool server r.action)
      else rule_action store now server tool args schema_digest r.action

  unfoldable pub served :
      ToolStore → Time → Text → Text → Json → Option Text → Option Bool → ToolRuling
  served store now server tool args schema_digest none = refusal (unregistered server)
  served store now server tool args schema_digest (some enabled) =
      if not enabled
      then refusal (disabled server)
      else ruled store now server tool args schema_digest
          (find (is_rule_of server tool) store.rules)

  unfoldable pub stripped_ruling : ToolStore → Time → Text → Text → Json → Option Text → ToolRuling
  stripped_ruling store now server tool args schema_digest =
      if is_empty server || is_empty tool
      then refusal needs_names
      else served store now server tool args schema_digest (get store.servers server)

  unfoldable pub tool_ruling : ToolStore → Time → Text → Text → Json → Option Text → ToolRuling
  tool_ruling store now server tool args schema_digest =
      stripped_ruling store now (strip is_space server) (strip is_space tool) args schema_digest

  unfoldable pub decide_tool :
      ToolStore → Time → Text → Text → Json → Option Text → Text × ToolReason
  decide_tool store now server tool args schema_digest =
      let r = tool_ruling store now server tool args schema_digest in (r.decision, r.reason)
