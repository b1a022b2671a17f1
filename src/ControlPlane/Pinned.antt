-- ===== src/ControlPlane/Pinned.antt =====
-- `_resolve_tool_ask_pinned` of control-plane/holds.py: allow an ask and write its pin, in one
-- transaction. The id of a new row of `tool_pins` is an argument, and so is the clock.
pub mod Outcome
pub mod Tests
use dockade.Base.{
  ℕ, ◌+◌, ◌≡◌, Bool, true, false, ◌&&◌, ◌||◌, not, Option, none, some, List, [], ◌∷◌, ◌++◌, arith,
  ltb, leb, if◌then◌else◌, ◌==◌, find, filter, nat_eq, list_eq, option_eq,
}
use dockade.Base.Table.{update}
use dockade.Base.Text.{Text, text}
use dockade.ControlPlane.Asks.{Ask, Table, Status, allowed, status_eq, is_pending, resolve_row}
use dockade.ControlPlane.Tools.Pins.{Time, Pin}
use dockade.ControlPlane.Tools.Ruling.{ToolRule, ToolStore, is_rule_of}

pub data Change : Type 0 where
  created extended rebound kept : Change

-- Why nothing was written: the ask is not pending, the rule is not `ask` now (with what it is), or the
-- pin in place was bound from a later card.
pub data Unpinned : Type 0 where
  not_pending : Unpinned
  not_ask : Option Text → Unpinned
  bound_later : ℕ → Unpinned

pub record Pinning : Type 0 where
  pub pin_id : ℕ
  pub change : Change
  pub expires_at : Option Time
  pub replaced : Option Time

pub data PinnedAnswer : Type 0 where
  unpinned : Unpinned → PinnedAnswer
  pinned : Pinning → PinnedAnswer

-- Whether the card `ask` may not rebind a pin that was bound from the card of that id.
unfoldable pub rebind_refusal : Table → Text → Ask → Bool
rebind_refusal asks bound_id ask = elim (find (λ r. r.id == bound_id) asks) [
  | none ↦ false
  | some bound ↦ ltb ask.ts bound.ts
]

-- `DELETE FROM tool_pins WHERE expires_at <= ?`
abbrev pub has_not_expired : Time → Pin → Bool
has_not_expired now p = elim p.expires_at [ none ↦ true | some t ↦ ltb now t ]

-- The key of the UNIQUE on `tool_pins`.
abbrev pub is_set_of : Ask → Text → Pin → Bool
is_set_of ask pins_json p = p.server == ask.server && p.tool == ask.tool && p.pins_json == pins_json

-- The timed pin in place ends before the one that is asked for.
abbrev pub ends_before : Option Time → Option Time → Bool
ends_before none asked = false
ends_before (some old) none = true
ends_before (some old) (some new) = ltb old new

module _ (now : Time) (actor pins_json : Text) (expires_at : Option Time) (new_id : ℕ)
    (ask : Ask) where
  abbrev pub new_pin : Pin
  new_pin = record {
    id = new_id;
    server = ask.server;
    tool = ask.tool;
    pins_json = pins_json;
    expires_at = expires_at;
    approval_id = ask.id;
    created_at = now;
    granted_by = actor;
    schema_digest = ask.schema_digest;
  }

  abbrev pub rebind_pin : Pin → Pin
  rebind_pin p = record p {
    schema_digest = ask.schema_digest;
    expires_at = expires_at;
    approval_id = ask.id;
    granted_by = actor;
  }

  abbrev pub extend_pin : Pin → Pin
  extend_pin p = record p { expires_at = expires_at; approval_id = ask.id; granted_by = actor }

  -- The write of the pin, by the row in place; no result is a refusal to rebind.
  unfoldable pub write_pin : Table → List Pin → Option Pin → Option (Pinning × List Pin)
  write_pin asks pins none = some (
    record { pin_id = new_id; change = created; expires_at = expires_at; replaced = none },
    pins ++ new_pin ∷ [],
  )
  write_pin asks pins (some p) =
      if not (p.schema_digest == ask.schema_digest)
      then (if rebind_refusal asks p.approval_id ask
          then none
          else some (
            record {
              pin_id = p.id;
              change = rebound;
              expires_at = expires_at;
              replaced = p.expires_at;
            },
            update (λ q. q.id == p.id) rebind_pin pins,
          ))
      else if ends_before p.expires_at expires_at
      then some (
        record {
          pin_id = p.id;
          change = extended;
          expires_at = expires_at;
          replaced = p.expires_at;
        },
        update (λ q. q.id == p.id) extend_pin pins,
      )
      else some (
        record { pin_id = p.id; change = kept; expires_at = p.expires_at; replaced = none },
        pins,
      )

  abbrev pub commit :
      Table → ToolStore → ℕ → Option (Pinning × List Pin) → PinnedAnswer × Table × ToolStore
  commit asks store old_id none = (unpinned (bound_later old_id), asks, store)
  commit asks store old_id (some (done, pins)) = (
    pinned done,
    update (λ r. r.id == ask.id && is_pending r) (resolve_row allowed now actor) asks,
    record store { pins = pins },
  )

  abbrev id_of : Option Pin → ℕ
  id_of none = 0
  id_of (some p) = p.id

  unfoldable pub pin_ruled : Table → ToolStore → Option ToolRule → PinnedAnswer × Table × ToolStore
  pin_ruled asks store none = (unpinned (not_ask none), asks, store)
  pin_ruled asks store (some rule) =
      if not (rule.action == text "ask")
      then (unpinned (not_ask (some rule.action)), asks, store)
      else let pins = filter (has_not_expired now) store.pins in
        let existing = find (is_set_of ask pins_json) pins in
        commit asks store (id_of existing) (write_pin asks pins existing)

abbrev pub expiry : Time → Option Time → Option Time
expiry now none = none
expiry now (some lasts) = some (now + lasts)

unfoldable pub pin_found :
    Time
    → Text
    → Text
    → Option Time
    → ℕ
    → Table
    → ToolStore
    → Option Ask
    → PinnedAnswer × Table × ToolStore
pin_found now actor pins_json lasts new_id asks store none = (unpinned not_pending, asks, store)
pin_found now actor pins_json lasts new_id asks store (some ask) =
    pin_ruled now actor pins_json (expiry now lasts) new_id ask asks store
      (find (is_rule_of ask.server ask.tool) store.rules)

unfoldable pub resolve_tool_ask_pinned :
    Time
    → Text
    → Text
    → Text
    → Option Time
    → ℕ
    → Table
    → ToolStore
    → PinnedAnswer × Table × ToolStore
resolve_tool_ask_pinned now id actor pins_json lasts new_id asks store =
    pin_found now actor pins_json lasts new_id asks store
      (find (λ r. r.id == id && is_pending r) asks)
