-- ===== src/ControlPlane/Tools/Tests.antt =====
-- A pin on one field, and calls that meet it, at a small rendering of JSON (control-plane/policy.py).
use mathlib.Core.List.{Memᴰ}
use dockade.Base.{
  ◌≡◌, refl, sym, ap, ◌∙◌, ◌≢◌, Bool, true, false, Option, none, some, [], ◌∷◌, if◌then◌else◌, ◌==◌,
  list_eq, nat_eq, option_eq, any, all, find, filter, contains,
}
use dockade.Base.Dict.{Dict, get}
use dockade.Base.Text.{
  starts_with, split_on, Text, text, strip, lstrip, rstrip, is_space, lower, lower_char,
}
use dockade.ControlPlane.Tools.{
  Json, null, boolean, int, float, string, array, object, Fields, empty_object, add_field,
  fields_of, pin_value, is_pin_field, unambiguous, distinct,
}
use dockade.ControlPlane.Tools.Pins.{
  Pin, present, parse_pins, checked_pins, pin_matches, pins_met, answering_pin, sort_pins,
  insert_pin,
}
use dockade.ControlPlane.Tools.Ruling.{
  ToolStore, tool_ruling, stripped_ruling, served, ruled, rule_action, pinned_ruling,
}
use dockade.ControlPlane.Tools.Servers.{
  endpoint_error, bad_path, is_path, is_path_rest, auth_descriptor_error, placeholders, count_text,
  is_header_name, server_name_error, bad_name, is_server_name, tool_rule_error, bad_tool,
  is_tool_name,
}
use dockade.ControlPlane.Tools.Exact.{tool_ruling-exact}
use dockade.ControlPlane.Tools.Credit.{IsCredited, tool_ruling-credit}
use dockade.ControlPlane.Tools.Values.{IsFaithful, meets-values}

abbrev dumps : Json → Text
dumps (boolean true) = 0 ∷ []
dumps (boolean false) = 1 ∷ []
dumps (int true n) = 2 ∷ n ∷ []
dumps (int false n) = 3 ∷ n ∷ []
dumps (string t) = 4 ∷ t
dumps _ = []

abbrev one_pin : Fields
one_pin = add_field (text "repo") (string (text "dockade")) empty_object

abbrev loads : Text → Option Json
loads t = if t == text "P" then some (object one_pin) else none

abbrev pin : Pin
pin = record {
  id = 7;
  server = text "git";
  tool = text "merge";
  pins_json = text "P";
  expires_at = some 500;
  approval_id = text "c1";
  created_at = 20;
  granted_by = text "operator";
  schema_digest = some (text "d");
}

abbrev store : ToolStore
store = record {
  servers = (text "git", true) ∷ [];
  rules = record { server = text "git"; tool = text "merge"; action = text "ask" } ∷ [];
  pins = pin ∷ [];
}

abbrev args : Json
args = object (add_field (text "number") (int false 3) one_pin)

-- What a run computes through: naming this opens all of it.
all_steps : Unit {0}
unfolding tool_ruling stripped_ruling served ruled rule_action pinned_ruling pins_met answering_pin
    sort_pins insert_pin parse_pins checked_pins pin_matches pin_value is_pin_field unambiguous
    distinct strip lstrip rstrip is_space lower lower_char get any all find filter contains
all_steps = tt

pinned_call :
    (tool_ruling loads dumps store 100 (text "git") (text " merge") args (some (text "d"))).card
    ≡ some (text "c1")
unfolding all_steps
pinned_call = refl

other_schema :
    (tool_ruling loads dumps store 100 (text "git") (text "merge") args (some (text "e"))).decision
    ≡ text "ask"
unfolding all_steps
other_schema = refl

tool_ruling-exact_example :
    (tool_ruling loads dumps store 600 (text "git") (text "merge") args (some (text "d"))).decision
    ≡ text "ask"
unfolding all_steps
tool_ruling-exact_example =
    tool_ruling-exact loads dumps store 600 (text "git") (text "merge") args (some (text "d"))

tool_ruling-credit_example :
    IsCredited loads dumps store 100
      (strip is_space (text "git"))
      (strip is_space (text " merge"))
      args
      (some (text "d"))
      (text "c1")
tool_ruling-credit_example =
    tool_ruling-credit loads dumps store 100 (text "git") (text " merge") args (some (text "d"))
      (text "c1") pinned_call

-- A left inverse of `dumps` on what a pin can hold.
abbrev number_of : Bool → Text → Json
number_of sign [] = null
number_of sign (n ∷ rest) = int sign n

abbrev reads : Text → Json
reads [] = null
reads (c ∷ rest) =
    if c == 0
    then boolean true
    else if c == 1
    then boolean false
    else if c == 2
    then number_of true rest
    else if c == 3
    then number_of false rest
    else string rest

reads-dumps : (a : Json) → present (pin_value dumps a) ≡ true → reads (dumps a) ≡ a
unfolding pin_value
reads-dumps null h = absurd (cc)
reads-dumps (boolean true) h = refl
reads-dumps (boolean false) h = refl
reads-dumps (int true n) h = refl
reads-dumps (int false n) h = refl
reads-dumps (float t) h = absurd (cc)
reads-dumps (string t) h = refl
reads-dumps (array a) h = absurd (cc)
reads-dumps (object fields) h = absurd (cc)

dumps-IsFaithful : IsFaithful loads dumps
dumps-IsFaithful a b h k e = sym (reads-dumps a h) ∙ ap reads e ∙ reads-dumps b k

meets-values_example :
    (fields : Fields) × (pins : Dict Text Json) × (args ≡ object fields)
    × (unambiguous (fields_of fields) ≡ true)
    × (parse_pins loads dumps (text "P") ≡ some pins)
    × (pins ≢ [])
    × ((name : Text) (value : Json)
        → Memᴰ (name, value) pins
        → get (fields_of fields) name ≡ some value)
meets-values_example = meets-values loads dumps args pin dumps-IsFaithful (unfold all_steps in refl)

-- What a registration is refused for.
all_errors : Unit {0}
unfolding endpoint_error is_path is_path_rest auth_descriptor_error count_text starts_with
    is_header_name server_name_error is_server_name tool_rule_error is_tool_name all any contains
    split_on
all_errors = tt

moved_host : endpoint_error 8082 (text "/@evil.example") ≡ some bad_path
unfolding all_errors
moved_host = refl

two_secrets :
    auth_descriptor_error (text "header") (text "X-Key") (text "{secret}{secret}")
    ≡ some placeholders
unfolding all_errors
two_secrets = refl

one_secret : auth_descriptor_error (text "header") (text "X-Key") (text "Bearer {secret}") ≡ none
unfolding all_errors
one_secret = refl

dashed_server :
    (server_name_error (text "my-git") ≡ none) × (server_name_error (text "git-") ≡ some bad_name)
unfolding all_errors
dashed_server = (refl, refl)

tool_rules :
    (tool_rule_error (text "ns:merge") (text "ask") ≡ none)
    × (tool_rule_error (text "a b") (text "ask") ≡ some bad_tool)
unfolding all_errors
tool_rules = (refl, refl)
