-- ===== src/ControlPlane/Tools.antt =====
-- The tool half of control-plane/policy.py: servers, tool rules, and pins that answer an `ask` in
-- advance. `loads` and `dumps` stand for `json.loads` and `json.dumps`.
pub mod Pins
pub mod Ruling
pub mod Exact
pub mod Credit
pub mod Values
pub mod Servers
pub mod Tests
use dockade.Base.{
  ℕ, ◌≡◌, ◌↔◌, Bool, true, false, ◌&&◌, ◌||◌, not, Option, none, some, List, [], ◌∷◌, arith, leb,
  if◌then◌else◌, Eq, ◌==◌, all, any, length, map, contains, list_eq, nat_eq, is_empty,
}
use dockade.Base.Dict.{Dict, keys}
use dockade.Base.Text.{Text, text, lower}

-- A value as `json.loads` returns it. A number without fraction and exponent is its sign (`true` for
-- below 0) and its size; one with either is kept as it is written.
mutual
  pub data Json : Type 0 where
    null : Json
    boolean : Bool → Json
    int : Bool → ℕ → Json
    float : Text → Json
    string : Text → Json
    array : Jsons → Json
    object : Fields → Json

  pub data Jsons : Type 0 where
    nil : Jsons
    cons : Json → Jsons → Jsons

  pub data Fields : Type 0 where
    empty_object : Fields
    add_field : Text → Json → Fields → Fields

abbrev pub fields_of : Fields → Dict Text Json
fields_of empty_object = []
fields_of (add_field key value rest) = (key, value) ∷ fields_of rest

abbrev pub pin_value_max : ℕ
pin_value_max = 200

-- The form in which a pin holds and compares a value, if one can.
unfoldable pub pin_value : (Json → Text) → Json → Option Text
pin_value dumps (boolean b) = some (dumps (boolean b))
pin_value dumps (int sign n) = some (dumps (int sign n))
pin_value dumps (string s) = if leb (length s) pin_value_max then some (dumps (string s)) else none
pin_value dumps _ = none

-- `[A-Za-z_]` and `[A-Za-z0-9_]`
abbrev pub starts_name : ℕ → Bool
starts_name c = leb 65 c && leb c 90 || leb 97 c && leb c 122 || c == 95

abbrev pub in_name : ℕ → Bool
in_name c = starts_name c || leb 48 c && leb c 57

-- `_PIN_FIELD_RE`, of the whole text.
unfoldable pub is_pin_field : Text → Bool
is_pin_field [] = false
is_pin_field (c ∷ rest) = starts_name c && all in_name rest && leb (length rest) 63

-- `{key.lower() for key in keys}`, as a list without repeats.
unfoldable pub distinct : List Text → List Text
distinct [] = []
distinct (t ∷ ts) = let rest = distinct ts in if contains t rest then rest else t ∷ rest

unfoldable pub unambiguous : Dict Text Json → Bool
unambiguous args =
    all is_pin_field (keys args) && length (distinct (map lower (keys args))) == length (keys args)
