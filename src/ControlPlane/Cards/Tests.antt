-- ===== src/ControlPlane/Cards/Tests.antt =====
-- Clicks on a tool card (control-plane/api_approvals.py), at a small rendering of JSON.
use mathlib.Core.List.{Memᴰ}
use dockade.Base.{
  ◌≡◌, refl, ◌↔◌, true, false, Option, none, some, List, [], ◌∷◌, if◌then◌else◌, ◌==◌, list_eq,
  nat_eq, option_eq, any, all, find, filter, contains,
}
use dockade.Base.Dict.{get}
use dockade.Base.Table.{update, row_count}
use dockade.Base.Text.{Text, text, strip, lstrip, rstrip, is_space, lower, lower_char}
use dockade.ControlPlane.Asks.{
  Ask, pending, expire_tool_asks, expire_rows, get_tool_ask, resolve_tool_ask,
}
use dockade.ControlPlane.Policy.Rules.{sorted_set, insert_sorted, text_lt}
use dockade.ControlPlane.Tools.{
  Json, boolean, int, string, array, object, nil, Fields, empty_object, add_field, fields_of,
  pin_value, is_pin_field, unambiguous, distinct,
}
use dockade.ControlPlane.Tools.Pins.{Pin, meets}
use dockade.ControlPlane.Pinned.{
  created, resolve_tool_ask_pinned, pin_found, pin_ruled, write_pin, rebind_refusal,
}
use dockade.ControlPlane.Cards.{
  pick, pin_candidates, candidates_in, candidates_of, pinnable_fields, unpinnable_fields,
  why_unpinnable, is_choice, object_of, is_list,
}
use dockade.ControlPlane.Cards.Resolve.{
  CardSettings, CardClick, ClickTimes, CardState, answered_pinned, bad_pins,
  resolve_tool_ask_request, by_action, allow_pinned, by_candidates, pin_chosen, by_pinned,
  decide_ask, by_status, tell_stale, in_place, policy_lines,
}
use dockade.ControlPlane.Cards.Refusals.{IsClean, resolve_tool_ask_request-IsClean}
use dockade.ControlPlane.Cards.Readback.{chosen_pins_meet}

abbrev dumps : Json → Text
dumps (boolean true) = 0 ∷ []
dumps (boolean false) = 1 ∷ []
dumps (int true n) = 2 ∷ n ∷ []
dumps (int false n) = 3 ∷ n ∷ []
dumps (string t) = 4 ∷ t
dumps _ = []

abbrev repo : Fields
repo = add_field (text "repo") (string (text "dockade")) empty_object

abbrev args : Fields
args = add_field (text "tags") (array nil) repo

-- The call is written as `C`, and the pins as `P`.
abbrev loads : Text → Option Json
loads t =
    if t == text "C" then some (object args) else if t == text "P" then some (object repo) else none

abbrev canonical : Json → Text
canonical j = text "P"

abbrev settings : CardSettings
settings = record {
  limits = record {
    tool_hold_timeout = 600;
    tool_grant_timeout = 900;
    max_tool_pending = 2;
    max_tool_pending_per_client = 1;
    tool_withdraw_cooldown = 60;
  };
  loads = loads;
  dumps = dumps;
  canonical = canonical;
  parse_ip = λ t. none;
  classes = [];
  pin_lease_seconds = 14400;
}

abbrev card : Ask
card = record {
  id = text "a";
  ts = 100;
  server = text "git";
  tool = text "merge";
  args_json = text "C";
  args_digest = text "x";
  client = none;
  status = pending;
  deadline = 700;
  resolved_at = none;
  resolved_by = none;
  claimed_at = none;
  schema_digest = some (text "d");
  resume_token = text "t";
}

abbrev state : CardState
state = record {
  asks = card ∷ [];
  tools = record {
    servers = (text "git", true) ∷ [];
    rules = record { server = text "git"; tool = text "merge"; action = text "ask" } ∷ [];
    pins = [];
  };
  audit = [];
}

abbrev at : ClickTimes
at = record { read = 200; decide = 200; reread = 200; told = 201; new_pin = 8 }

abbrev click : List Text → CardClick
click pins = record {
  action = text "Allow_Pinned";
  pattern = none;
  pins = some pins;
  actor = text "ui";
}

-- What a run computes through: naming this opens all of it.
all_steps : Unit {0}
unfolding strip lstrip rstrip is_space lower lower_char any all find filter contains get update
    row_count expire_tool_asks expire_rows get_tool_ask resolve_tool_ask sorted_set insert_sorted
    text_lt pin_value is_pin_field unambiguous distinct resolve_tool_ask_pinned pin_found pin_ruled
    write_pin rebind_refusal pick pin_candidates candidates_in candidates_of pinnable_fields
    unpinnable_fields why_unpinnable is_choice resolve_tool_ask_request by_action allow_pinned
    by_candidates pin_chosen by_pinned decide_ask by_status tell_stale in_place policy_lines
all_steps = tt

pinned_run :
    (resolve_tool_ask_request settings at (text "a") (click (text "repo" ∷ [])) state).0
    ≡ answered_pinned
        (text "repo" ∷ [])
        (record { pin_id = 8; change = created; expires_at = none; replaced = none })
unfolding all_steps
pinned_run = refl

-- A list is not offered.
bad_run :
    (resolve_tool_ask_request settings at (text "a") (click (text "tags" ∷ [])) state).0
    ≡ bad_pins (text "repo" ∷ [])
unfolding all_steps
bad_run = refl

offered_run :
    (pin_candidates dumps loads (text "C") (some (text "d"))).unpinnable
    ≡ (text "tags", is_list) ∷ []
unfolding all_steps
offered_run = refl

resolve_tool_ask_request-IsClean_example :
    IsClean settings.limits state
      (resolve_tool_ask_request settings at (text "a") (click (text "tags" ∷ [])) state)
resolve_tool_ask_request-IsClean_example =
    resolve_tool_ask_request-IsClean settings at (text "a") (click (text "tags" ∷ [])) state

abbrev pin : Pin
pin = record {
  id = 8;
  server = text "git";
  tool = text "merge";
  pins_json = text "P";
  expires_at = none;
  approval_id = text "a";
  created_at = 200;
  granted_by = text "ui";
  schema_digest = some (text "d");
}

repo_read :
    (k : Text) (v : Json)
    → Memᴰ (k, v) (fields_of repo)
      ↔ Memᴰ (k, v) (fields_of (pick (object_of (loads (text "C"))) (text "repo" ∷ [])))
unfolding all_steps
repo_read k v = (λ m. m, λ m. m)

chosen_pins_meet_example : meets loads dumps (object args) pin ≡ true
chosen_pins_meet_example =
    chosen_pins_meet loads dumps canonical (text "C") (some (text "d")) (text "repo" ∷ []) repo
      (object args) pin (unfold all_steps in refl) (unfold all_steps in refl) refl refl repo_read
      refl
