-- ===== src/ControlPlane/Cards/Readback.antt =====
-- A pin made from a card answers the call on the card: `_allow_pinned` of control-plane/api_approvals.py
-- against `_pin_matches` of control-plane/policy.py.
use mathlib.Core.List.{Memᴰ}
use dockade.Base.{
  ◌≡◌, refl, ◌≢◌, ◌↔◌, true, Option, none, some, List, [], arith, ==_iff, list_eq, nat_eq,
  option_eq,
}
use dockade.Base.Dict.{Dict, keys}
use dockade.Base.Text.{Text}
use dockade.ControlPlane.Policy.Rules.{sorted_set}
use dockade.ControlPlane.Tools.{
  Json, object, Fields, fields_of, pin_value, is_pin_field, unambiguous,
}
use dockade.ControlPlane.Tools.Pins.{
  Pin, present, is_pinnable, checked_pins, parse_pins, carries, pin_matches, meets,
}
use dockade.ControlPlane.Cards.Offers.{
  IsPinnableCall, all_of_mem, of_all, mem_key_of_get, offered-value, pick-mem, is_choice-nonempty,
  is_choice-offered, pin_candidates-IsPinnableCall, is_empty-nil, first_chosen, offered-get,
  picked_first, mem_not-nil,
}
use dockade.ControlPlane.Cards.{
  Candidates, pinnable_fields, pin_candidates, pick, object_of, is_choice,
}

module _ (loads : Text → Option Json) (dumps : Json → Text) (fields stored : Fields)
    (chosen : List Text) (c : Candidates) (call : IsPinnableCall dumps (fields_of fields) c)
    (choice : is_choice (keys c.fields) chosen ≡ true)
    (into : (k : Text) (v : Json)
      → Memᴰ (k, v) (fields_of stored)
      → Memᴰ (k, v) (fields_of (pick (fields_of fields) chosen))) where
  abbrev args : Dict Text Json
  args = fields_of fields

  stored-field :
      (x : Text × Json)
      → Memᴰ x (fields_of stored)
      → (is_pinnable loads dumps x ≡ true) × (carries loads dumps args x ≡ true)
  stored-field (k, v) m =
      let (picked, got) = pick-mem args chosen k v (into k v m) in
      let offered : Memᴰ k (keys (pinnable_fields dumps args (sorted_set (keys args)))) =
        rw (← call.fields) (is_choice-offered (keys c.fields) chosen k choice picked) in
      let holds : present (pin_value dumps v) ≡ true =
        ground (arith, got, offered-value dumps args (sorted_set (keys args)) k offered) in
      let named : is_pin_field k ≡ true =
        of_all is_pin_field (keys args) k (unfold unambiguous in ground (arith, call.clear))
          (mem_key_of_get args k v got) in
      (rw (named, holds) refl, ground (arith, got, ==_iff (pin_value dumps v) (pin_value dumps v)))

  stored_full :
      ((k : Text) (v : Json)
        → Memᴰ (k, v) (fields_of (pick (fields_of fields) chosen))
        → Memᴰ (k, v) (fields_of stored))
      → fields_of stored ≢ []
  stored_full back =
      let (n, rest, e) = first_chosen chosen (is_choice-nonempty (keys c.fields) chosen choice) in
      let first : Memᴰ n chosen = rw e (Memᴰ.head refl) in
      let offered : Memᴰ n (keys (pinnable_fields dumps args (sorted_set (keys args)))) =
        rw (← call.fields) (is_choice-offered (keys c.fields) chosen n choice first) in
      let (v, got) =
        offered-get dumps args n (offered-value dumps args (sorted_set (keys args)) n offered) in
      let picked : Memᴰ (n, v) (fields_of (pick args chosen)) =
        picked_first args chosen n rest v e got in
      mem_not-nil (n, v) (fields_of stored) (back n v picked)

  chosen_meet :
      fields_of stored ≢ []
      → (o : Option Json) → o ≡ some (object stored)
      → (checked_pins loads dumps o ≡ some (fields_of stored))
        × (pin_matches loads dumps (fields_of stored) (object fields) ≡ true)
  unfolding checked_pins pin_matches
  chosen_meet full o e = (
    rw e (
        ground (
          arith,
          all_of_mem (is_pinnable loads dumps) (fields_of stored) (λ x m. (stored-field x m).0),
          is_empty-nil (fields_of stored),
          full,
        )),
    ground (
      arith,
      call.clear,
      all_of_mem (carries loads dumps args) (fields_of stored) (λ x m. (stored-field x m).1),
    ),
  )

-- A pin answers the call that it was made from. Take a card of which pins can be made, and one or more
-- of the fields that it offers, each once; let JSON read what `_canonical_pins` wrote of them as an
-- object with the same fields. Then the call on the card meets every pin that holds them.
pub chosen_pins_meet :
    (loads : Text → Option Json) (dumps canonical : Json → Text) (args_json : Text)
    (digest : Option Text) (chosen : List Text) (stored : Fields) (call_args : Json) (p : Pin)
    → (pin_candidates dumps loads args_json digest).refused ≡ none
    → is_choice (keys (pin_candidates dumps loads args_json digest).fields) chosen ≡ true
    → p.pins_json ≡ canonical (object (pick (object_of (loads args_json)) chosen))
    → loads p.pins_json ≡ some (object stored)
    → ((k : Text) (v : Json)
        → Memᴰ (k, v) (fields_of stored)
          ↔ Memᴰ (k, v) (fields_of (pick (object_of (loads args_json)) chosen)))
    → loads args_json ≡ some call_args
    → meets loads dumps call_args p ≡ true
unfolding parse_pins
chosen_pins_meet loads dumps canonical args_json digest chosen stored call_args p possible choice
      made reads same call =
    let (fields, parsed, pinnable) =
      pin_candidates-IsPinnableCall loads dumps args_json digest possible in
    let is_object : call_args ≡ object fields = cc in
    let (checks, matches) =
      chosen_meet loads dumps fields stored chosen (pin_candidates dumps loads args_json digest)
        pinnable choice (λ k v m. rw parsed at ((same k v).0 m))
        (stored_full loads dumps fields stored chosen (pin_candidates dumps loads args_json digest)
          pinnable choice (λ k v m. rw parsed at ((same k v).0 m))
          (λ k v m. (same k v).1 (rw parsed m)))
        (loads p.pins_json) reads in
    rw is_object (ground (arith, checks, matches))
