-- ===== src/ControlPlane/Cards.antt =====
-- What a pin may be made of for a held call: `_pin_candidates` of control-plane/policy.py, and the pins that
-- `_allow_pinned` of control-plane/api_approvals.py makes of the fields an operator chose.
pub mod Resolve
pub mod Offers
pub mod Readback
pub mod Refusals
pub mod Tests
use dockade.Base.{
  ℕ, Bool, true, false, ◌&&◌, ◌||◌, not, Option, none, some, List, [], ◌∷◌, if◌then◌else◌, ◌==◌,
  all, contains, length, is_empty, list_eq, nat_eq,
}
use dockade.Base.Dict.{Dict, get, keys}
use dockade.Base.Text.{Text}
use dockade.ControlPlane.Policy.Rules.{sorted_set}
use dockade.ControlPlane.Tools.{
  Json, null, boolean, int, float, string, array, object, Fields, empty_object, add_field,
  fields_of, pin_value, unambiguous, distinct,
}

-- `_why_unpinnable`
pub data WhyNot : Type 0 where
  is_list is_object is_null has_fraction too_long : WhyNot

unfoldable pub why_unpinnable : Json → WhyNot
why_unpinnable (array values) = is_list
why_unpinnable (object fields) = is_object
why_unpinnable null = is_null
why_unpinnable (float t) = has_fraction
why_unpinnable (boolean b) = too_long
why_unpinnable (int sign n) = too_long
why_unpinnable (string t) = too_long

-- Why no pin can be made at all.
pub data NoPin : Type 0 where
  no_digest not_an_object ambiguous_keys nothing_pinnable : NoPin

pub record Candidates : Type 0 where
  pub fields : Dict Text Text
  pub unpinnable : Dict Text WhyNot
  pub refused : Option NoPin

abbrev pub no_candidates : NoPin → Candidates
no_candidates why = record { fields = []; unpinnable = []; refused = some why }

-- A field with its value, where a pin can hold one.
abbrev pub keep_value : Text → Option Text → Dict Text Text → Dict Text Text
keep_value name none rest = rest
keep_value name (some value) rest = (name, value) ∷ rest

module _ (dumps : Json → Text) where
  abbrev pub value_of : Dict Text Json → Text → Option Text
  value_of args name = elim (get args name) [ none ↦ none | some value ↦ pin_value dumps value ]

  -- The loop over `sorted(args)`: the fields with the value that a pin would hold.
  unfoldable pub pinnable_fields : Dict Text Json → List Text → Dict Text Text
  pinnable_fields args [] = []
  pinnable_fields args (name ∷ names) =
      keep_value name (value_of args name) (pinnable_fields args names)

  -- And the rest, each with why not.
  unfoldable pub unpinnable_fields : Dict Text Json → List Text → Dict Text WhyNot
  unpinnable_fields args [] = []
  unpinnable_fields args (name ∷ names) = elim (get args name) [
    | none ↦ unpinnable_fields args names
    | some value ↦ elim (pin_value dumps value) [
      | none ↦ (name, why_unpinnable value) ∷ unpinnable_fields args names
      | some text ↦ unpinnable_fields args names
    ]
  ]

  unfoldable pub candidates_of : Dict Text Json → Candidates
  candidates_of args =
      let names = sorted_set (keys args) in
      let found = pinnable_fields args names in
      if not (unambiguous args) then no_candidates ambiguous_keys else record {
        fields = found;
        unpinnable = unpinnable_fields args names;
        refused = if is_empty found then some nothing_pinnable else none;
      }

  unfoldable pub candidates_in : Option Json → Candidates
  candidates_in (some (object fields)) = candidates_of (fields_of fields)
  candidates_in _ = no_candidates not_an_object

  unfoldable pub pin_candidates : (Text → Option Json) → Text → Option Text → Candidates
  pin_candidates loads args_json none = no_candidates no_digest
  pin_candidates loads args_json (some digest) = candidates_in (loads args_json)

abbrev pub keep_field : Text → Option Json → Fields → Fields
keep_field name none rest = rest
keep_field name (some value) rest = add_field name value rest

-- `{field: args[field] for field in chosen}`
unfoldable pub pick : Dict Text Json → List Text → Fields
pick args [] = empty_object
pick args (name ∷ names) = keep_field name (get args name) (pick args names)

-- The args of a stored call, where they are an object.
abbrev pub object_of : Option Json → Dict Text Json
object_of (some (object fields)) = fields_of fields
object_of _ = []

-- Whether the chosen names are one or more of those offered, each once.
unfoldable pub is_choice : List Text → List Text → Bool
is_choice offered chosen =
    not (is_empty chosen)
    && length (distinct chosen) == length chosen
    && all (λ name. contains name offered) chosen
