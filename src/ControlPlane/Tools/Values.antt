-- ===== src/ControlPlane/Tools/Values.antt =====
-- What a call that meets a pin carries: `_pin_matches` and `_parse_pins` of control-plane/policy.py.
use mathlib.Core.List.{Memᴰ}
use dockade.Base.{
  ◌≡◌, refl, sym, ◌∙◌, ap, ◌≢◌, Bool, true, false, Option, none, some, [], ◌∷◌, arith, ==_iff, all,
  list_eq, nat_eq, option_eq,
}
use dockade.Base.Dict.{Dict, get}
use dockade.Base.Text.{Text}
use dockade.ControlPlane.Tools.{
  Json, null, boolean, int, float, string, array, object, Fields, fields_of, pin_value, unambiguous,
}
use dockade.ControlPlane.Tools.Pins.{
  Pin, present, is_pinnable, parse_pins, checked_pins, carries, pin_matches, meets,
}

module _ (loads : Text → Option Json) (dumps : Json → Text) where
  -- `json.dumps` has different texts for different values among those that a pin can hold.
  abbrev pub IsFaithful : Type 0
  IsFaithful =
      (a b : Json)
      → present (pin_value dumps a) ≡ true
      → present (pin_value dumps b) ≡ true
      → dumps a ≡ dumps b
      → a ≡ b

  pin_value-dumps :
      (a : Json) → present (pin_value dumps a) ≡ true → pin_value dumps a ≡ some (dumps a)
  unfolding pin_value
  pin_value-dumps null h = absurd (cc)
  pin_value-dumps (boolean b) h = refl
  pin_value-dumps (int b n) h = refl
  pin_value-dumps (float t) h = absurd (cc)
  pin_value-dumps (string t) h = ground arith
  pin_value-dumps (array a) h = absurd (cc)
  pin_value-dumps (object fields) h = absurd (cc)

  carries-value :
      (args : Dict Text Json) (name : Text) (value : Json)
      → IsFaithful
      → present (pin_value dumps value) ≡ true
      → carries loads dumps args (name, value) ≡ true
      → get args name ≡ some value
  carries-value args name value faithful pinnable h = by_field (get args name) refl
    where
      absent : false ≡ true → get args name ≡ some value
      absent q = absurd (cc)

      by_field : (o : Option Json) → get args name ≡ o → get args name ≡ some value
      by_field none e = absent (rw (carries, e) at h)
      by_field (some given) e =
          let same : pin_value dumps given ≡ pin_value dumps value =
            (==_iff (pin_value dumps given) (pin_value dumps value)).0 (rw (carries, e) at h) in
          let is_given : present (pin_value dumps given) ≡ true = rw same pinnable in
          let texts : some (dumps given) ≡ some (dumps value) =
            sym (pin_value-dumps given is_given) ∙ same ∙ pin_value-dumps value pinnable in
          e ∙ ap some (faithful given value is_given pinnable (ground arith))

  all_of_mem :
      (p : Text × Json → Bool) (xs : Dict Text Json) (x : Text × Json)
      → all p xs ≡ true
      → Memᴰ x xs
      → p x ≡ true
  unfolding all
  all_of_mem p [] x h m = elim m [ ]
  all_of_mem p (y ∷ xs) x h (Memᴰ.head e) = rw e (ground arith)
  all_of_mem p (y ∷ xs) x h (Memᴰ.tail m) = all_of_mem p xs x (ground arith) m

  checked_pins-pinnable :
      (o : Option Json) (pins : Dict Text Json)
      → checked_pins loads dumps o ≡ some pins
      → (pins ≢ []) × (all (is_pinnable loads dumps) pins ≡ true)
  unfolding checked_pins
  checked_pins-pinnable none pins h = absurd (cc)
  checked_pins-pinnable (some null) pins h = absurd (cc)
  checked_pins-pinnable (some (boolean b)) pins h = absurd (cc)
  checked_pins-pinnable (some (int b n)) pins h = absurd (cc)
  checked_pins-pinnable (some (float t)) pins h = absurd (cc)
  checked_pins-pinnable (some (string t)) pins h = absurd (cc)
  checked_pins-pinnable (some (array a)) pins h = absurd (cc)
  checked_pins-pinnable (some (object fields)) pins h = ground arith

  meets-parsed :
      (args : Json) (p : Pin)
      → meets loads dumps args p ≡ true
      → (pins : Dict Text Json) × (parse_pins loads dumps p.pins_json ≡ some pins)
        × (pin_matches loads dumps pins args ≡ true)
  meets-parsed args p h = by_set (parse_pins loads dumps p.pins_json) refl
    where
      absent : false ≡ true → ⊥
      absent q = cc

      by_set :
          (o : Option (Dict Text Json))
          → parse_pins loads dumps p.pins_json ≡ o
          → (pins : Dict Text Json) × (parse_pins loads dumps p.pins_json ≡ some pins)
            × (pin_matches loads dumps pins args ≡ true)
      by_set none e = absurd (absent (rw (meets, e) at h))
      by_set (some pins) e = (pins, e, rw (meets, e) at h)

  pin_matches-object :
      (pins : Dict Text Json) (args : Json)
      → pin_matches loads dumps pins args ≡ true
      → (fields : Fields) × (args ≡ object fields)
        × (unambiguous (fields_of fields) ≡ true)
        × (all (carries loads dumps (fields_of fields)) pins ≡ true)
  unfolding pin_matches
  pin_matches-object pins null h = absurd (cc)
  pin_matches-object pins (boolean b) h = absurd (cc)
  pin_matches-object pins (int b n) h = absurd (cc)
  pin_matches-object pins (float t) h = absurd (cc)
  pin_matches-object pins (string t) h = absurd (cc)
  pin_matches-object pins (array a) h = absurd (cc)
  pin_matches-object pins (object fields) h = (fields, refl, ground arith, ground arith)

  -- Where `json.dumps` keeps the values that pins hold apart: a call that meets a stored pin set is
  -- an object without ambiguous keys, and the set is not empty and the call has each of its fields
  -- with the very value that the set has.
  pub meets-values :
      (args : Json) (p : Pin)
      → IsFaithful
      → meets loads dumps args p ≡ true
      → (fields : Fields) × (pins : Dict Text Json) × (args ≡ object fields)
        × (unambiguous (fields_of fields) ≡ true)
        × (parse_pins loads dumps p.pins_json ≡ some pins)
        × (pins ≢ [])
        × ((name : Text) (value : Json)
            → Memᴰ (name, value) pins
            → get (fields_of fields) name ≡ some value)
  unfolding parse_pins
  meets-values args p faithful h =
      let (pins, parsed, met) = meets-parsed args p h in
      let (fields, same, clear, carried) = pin_matches-object pins args met in
      let (full, pinnable) = checked_pins-pinnable (loads p.pins_json) pins parsed in
      (
        fields,
        pins,
        same,
        clear,
        parsed,
        full,
        λ name value m.
            let held : is_pinnable loads dumps (name, value) ≡ true =
              all_of_mem (is_pinnable loads dumps) pins (name, value) pinnable m in
            carries-value (fields_of fields) name value faithful (ground arith)
              (all_of_mem (carries loads dumps (fields_of fields)) pins (name, value) carried m),
      )
