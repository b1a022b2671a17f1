-- ===== src/ControlPlane/Tools/Pins.antt =====
-- Which pins of control-plane/policy.py a call meets, and which of them answers it.
use dockade.Base.{
  ℕ, Bool, true, false, ◌&&◌, ◌||◌, not, Option, none, some, List, [], ◌∷◌, ltb, leb, if◌then◌else◌,
  ◌==◌, all, filter, find, is_empty, list_eq, nat_eq, option_eq,
}
use dockade.Base.Dict.{Dict, get}
use dockade.Base.Text.{Text}
use dockade.ControlPlane.Tools.{Json, object, fields_of, pin_value, is_pin_field, unambiguous}

abbrev pub Time : Type 0
Time = ℕ

pub record Pin : Type 0 where
  pub id : ℕ
  pub server : Text
  pub tool : Text
  pub pins_json : Text
  pub expires_at : Option Time
  pub approval_id : Text
  pub created_at : Time
  pub granted_by : Text
  pub schema_digest : Option Text

abbrev pub present {ℓ} : {A : Type ℓ} → Option A → Bool
present none = false
present (some _) = true

abbrev pub is_live_on : Text → Text → Time → Pin → Bool
is_live_on server tool now p =
    p.server == server && p.tool == tool && elim p.expires_at [ none ↦ true | some t ↦ ltb now t ]

-- `ORDER BY expires_at IS NOT NULL, expires_at DESC, id`
abbrev pub goes_before : Pin → Pin → Bool
goes_before p q = elim p.expires_at [
  | none ↦ elim q.expires_at [ none ↦ leb p.id q.id | some u ↦ true ]
  | some t ↦ elim q.expires_at [ none ↦ false | some u ↦ ltb u t || t == u && leb p.id q.id ]
]

unfoldable pub insert_pin : Pin → List Pin → List Pin
insert_pin p [] = p ∷ []
insert_pin p (q ∷ qs) =
    let rest = insert_pin p qs in if goes_before p q then p ∷ q ∷ qs else q ∷ rest

unfoldable pub sort_pins : List Pin → List Pin
sort_pins [] = []
sort_pins (p ∷ ps) = insert_pin p (sort_pins ps)

module _ (loads : Text → Option Json) (dumps : Json → Text) where
  abbrev pub is_pinnable : Text × Json → Bool
  is_pinnable (name, value) = is_pin_field name && present (pin_value dumps value)

  unfoldable pub checked_pins : Option Json → Option (Dict Text Json)
  checked_pins (some (object fields)) =
      if not (is_empty (fields_of fields)) && all is_pinnable (fields_of fields)
      then some (fields_of fields)
      else none
  checked_pins _ = none

  -- A stored pin set, if the row holds one.
  unfoldable pub parse_pins : Text → Option (Dict Text Json)
  parse_pins pins_json = checked_pins (loads pins_json)

  -- `field in args and _pin_value(args[field]) == _pin_value(value)`
  abbrev pub carries : Dict Text Json → Text × Json → Bool
  carries args (name, value) = elim (get args name) [
    | none ↦ false
    | some given ↦ pin_value dumps given == pin_value dumps value
  ]

  unfoldable pub pin_matches : Dict Text Json → Json → Bool
  pin_matches pins (object fields) =
      unambiguous (fields_of fields) && all (carries (fields_of fields)) pins
  pin_matches pins _ = false

  abbrev pub meets : Json → Pin → Bool
  meets args p = elim (parse_pins p.pins_json) [ none ↦ false | some pins ↦ pin_matches pins args ]

  unfoldable pub pins_met : List Pin → Text → Text → Json → Time → List Pin
  pins_met table server tool (object fields) now =
      filter (meets (object fields)) (sort_pins (filter (is_live_on server tool now) table))
  pins_met table server tool _ now = []

unfoldable pub answering_pin : List Pin → Option Text → Option Pin
answering_pin met none = none
answering_pin met (some digest) = find (λ p. p.schema_digest == some digest) met
