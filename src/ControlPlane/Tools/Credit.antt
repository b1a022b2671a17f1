-- ===== src/ControlPlane/Tools/Credit.antt =====
-- The pin that `_tool_ruling` of control-plane/policy.py credits, and what it lets through.
use mathlib.Core.List.{Memᴰ}
use dockade.Base.{
  ◌≡◌, refl, sym, ap, Bool, true, false, ◌||◌, Option, none, some, List, [], ◌∷◌, arith, ◌==◌,
  ==_iff, filter, find, is_empty, contains, list_eq, nat_eq, option_eq, Bool-cases, inl, inr,
}
use dockade.Base.Members.{mem_of_mem-filter}
use dockade.Base.Dict.{get}
use dockade.Base.Text.{Text, text, strip, is_space}
use dockade.ControlPlane.Tools.{Json, null, boolean, int, float, string, array, object}
use dockade.ControlPlane.Tools.Pins.{
  Time, Pin, is_live_on, insert_pin, sort_pins, meets, pins_met, answering_pin, goes_before,
}
use dockade.ControlPlane.Tools.Ruling.{
  ToolRule, ToolStore, tool_actions, pinned_ruling, is_rule_of, rule_action, ruled, served,
  stripped_ruling, tool_ruling,
}
use dockade.ControlPlane.Tools.Exact.{answers, stored_action, action_of, is_off}

mem_of_find :
    (p : Pin → Bool) (ps : List Pin) (x : Pin) → find p ps ≡ some x → Memᴰ x ps × (p x ≡ true)
unfolding find
mem_of_find p [] x h = absurd (cc)
mem_of_find p (y ∷ ps) x h = elim (Bool-cases (p y)) [
  | inl hit ↦ let same : y ≡ x = ground arith in (Memᴰ.head (sym same), rw (← same) hit)
  | inr miss ↦ let (there, ok) = mem_of_find p ps x (ground arith) in (Memᴰ.tail there, ok)
]

mem_of_insert_pin : (a : Pin) (ps : List Pin) (x : Pin) → Memᴰ x (insert_pin a ps) → Memᴰ x (a ∷ ps)
unfolding insert_pin
mem_of_insert_pin a [] x m = m
mem_of_insert_pin a (b ∷ ps) x m = elim (Bool-cases (goes_before a b)) [
  | inl e ↦ (rw e at m)
  | inr e ↦ later (mem_of_insert_pin a ps x) (rw e at m)
]
  where
    swap : Memᴰ x (a ∷ ps) → Memᴰ x (a ∷ b ∷ ps)
    swap (Memᴰ.head h) = Memᴰ.head h
    swap (Memᴰ.tail k) = Memᴰ.tail (Memᴰ.tail k)

    later :
        (Memᴰ x (insert_pin a ps) → Memᴰ x (a ∷ ps))
        → Memᴰ x (b ∷ insert_pin a ps)
        → Memᴰ x (a ∷ b ∷ ps)
    later past (Memᴰ.head h) = Memᴰ.tail (Memᴰ.head h)
    later past (Memᴰ.tail n) = swap (past n)

mem_of_sort_pins : (ps : List Pin) (x : Pin) → Memᴰ x (sort_pins ps) → Memᴰ x ps
unfolding sort_pins
mem_of_sort_pins [] x m = m
mem_of_sort_pins (a ∷ ps) x m =
    past (mem_of_sort_pins ps x) (mem_of_insert_pin a (sort_pins ps) x m)
  where
    past : (Memᴰ x (sort_pins ps) → Memᴰ x ps) → Memᴰ x (a ∷ sort_pins ps) → Memᴰ x (a ∷ ps)
    past f (Memᴰ.head h) = Memᴰ.head h
    past f (Memᴰ.tail k) = Memᴰ.tail (f k)

module _ (loads : Text → Option Json) (dumps : Json → Text) where
  mem_of_pins_met :
      (table : List Pin) (server tool : Text) (args : Json) (now : Time) (p : Pin)
      → Memᴰ p (pins_met loads dumps table server tool args now)
      → Memᴰ p table × (is_live_on server tool now p ≡ true) × (meets loads dumps args p ≡ true)
  unfolding pins_met
  mem_of_pins_met table server tool (object fields) now p m =
      let (sorted, met) =
        mem_of_mem-filter (meets loads dumps (object fields))
          (sort_pins (filter (is_live_on server tool now) table)) p m in
      let (there, live) =
        mem_of_mem-filter (is_live_on server tool now) table p
          (mem_of_sort_pins (filter (is_live_on server tool now) table) p sorted) in
      (there, live, met)
  mem_of_pins_met table server tool null now p m = elim m [ ]
  mem_of_pins_met table server tool (boolean b) now p m = elim m [ ]
  mem_of_pins_met table server tool (int b n) now p m = elim m [ ]
  mem_of_pins_met table server tool (float t) now p m = elim m [ ]
  mem_of_pins_met table server tool (string t) now p m = elim m [ ]
  mem_of_pins_met table server tool (array a) now p m = elim m [ ]

  -- What a credited card says, under names that are stripped.
  abbrev pub IsCredited : ToolStore → Time → Text → Text → Json → Option Text → Text → Type 0
  IsCredited store now s t args digest card =
      (stored_action store s t ≡ some (text "ask"))
      × ((p : Pin) × Memᴰ p store.pins
          × (p.approval_id ≡ card)
          × (answers loads dumps s t args digest now p ≡ true))

  credited-answering_pin :
      (store : ToolStore) (now : Time) (s t : Text) (args : Json) (digest : Option Text) (p : Pin)
      → answering_pin (pins_met loads dumps store.pins s t args now) digest ≡ some p
      → Memᴰ p store.pins × (answers loads dumps s t args digest now p ≡ true)
  unfolding answering_pin
  credited-answering_pin store now s t args none p h = absurd (cc)
  credited-answering_pin store now s t args (some d) p h =
      let (met, bound) =
        mem_of_find (λ x. x.schema_digest == some d) (pins_met loads dumps store.pins s t args now)
          p h in
      let (there, live, ok) = mem_of_pins_met store.pins s t args now p met in (there, ground arith)

  rule_action-credit :
      (store : ToolStore) (now : Time) (s t : Text) (args : Json) (digest : Option Text)
      (action card : Text)
      → (rule_action loads dumps store now s t args digest action).card ≡ some card
      → (action ≡ text "ask")
        × ((p : Pin) × Memᴰ p store.pins
            × (p.approval_id ≡ card)
            × (answers loads dumps s t args digest now p ≡ true))
  unfolding rule_action
  rule_action-credit store now s t args digest action card h =
      elim (Bool-cases (action == text "ask")) [
        | inl e ↦
            let same : action ≡ text "ask" = (==_iff action (text "ask")).0 e in
            (same, by_pin_found _ refl (rw e at h))
        | inr e ↦ absurd (no_pin digest (rw e at h))
      ]
    where
      by_pin_found :
          (o : Option Pin)
          → answering_pin (pins_met loads dumps store.pins s t args now) digest ≡ o
          → (pinned_ruling now action t s (pins_met loads dumps store.pins s t args now) o).card
            ≡ some card
          → (p : Pin) × Memᴰ p store.pins
            × (p.approval_id ≡ card)
            × (answers loads dumps s t args digest now p ≡ true)
      by_pin_found none e k = unfold pinned_ruling in absurd (none_some k)
        where
          none_some : none ≡ some card → ⊥
          none_some q = cc
      by_pin_found (some p) e k =
          unfold pinned_ruling in
          (let (there, ok) = credited-answering_pin store now s t args digest p e in
            (p, there, ground arith, ok))

      no_pin :
          (d : Option Text)
          → (pinned_ruling now action t s [] (answering_pin [] d)).card ≡ some card
          → ⊥
      no_pin none k = unfold answering_pin pinned_ruling in cc
      no_pin (some d) k = unfold answering_pin find pinned_ruling in cc

  served-credit :
      (store : ToolStore) (now : Time) (s t : Text) (args : Json) (digest : Option Text)
      (o : Option Bool) (card : Text)
      → (served loads dumps store now s t args digest o).card ≡ some card
      → (is_off o ≡ false)
        × (action_of (find (is_rule_of s t) store.rules) ≡ some (text "ask"))
        × ((p : Pin) × Memᴰ p store.pins
            × (p.approval_id ≡ card)
            × (answers loads dumps s t args digest now p ≡ true))
  unfolding served
  served-credit store now s t args digest none card h = absurd (cc)
  served-credit store now s t args digest (some false) card h = absurd (cc)
  served-credit store now s t args digest (some true) card h =
      let (asks, credit) = by_rule _ h in (refl, asks, credit)
    where
      by_rule :
          (o : Option ToolRule)
          → (ruled loads dumps store now s t args digest o).card ≡ some card
          → (action_of o ≡ some (text "ask"))
            × ((p : Pin) × Memᴰ p store.pins
                × (p.approval_id ≡ card)
                × (answers loads dumps s t args digest now p ≡ true))
      by_rule none k = unfold ruled in absurd (cc)
      by_rule (some r) k =
          unfold ruled in
          (elim (Bool-cases (contains r.action tool_actions)) [
            | inl e ↦
                let (same, credit) =
                  rule_action-credit store now s t args digest r.action card (rw e at k) in
                (ap some same, credit)
            | inr e ↦ absurd (none_some (rw e at k))
          ])
        where
          none_some : none ≡ some card → ⊥
          none_some q = cc

  stripped-credit :
      (store : ToolStore) (now : Time) (s t : Text) (args : Json) (digest : Option Text)
      (card : Text)
      → (stripped_ruling loads dumps store now s t args digest).card ≡ some card
      → IsCredited store now s t args digest card
  unfolding stripped_ruling
  stripped-credit store now s t args digest card h = elim (Bool-cases (is_empty s || is_empty t)) [
    | inl e ↦ absurd (none_some (rw e at h))
    | inr e ↦
        let (on, asks, credit) =
          served-credit store now s t args digest (get store.servers s) card (rw e at h) in
        (rw (e, on) asks, credit)
  ]
    where
      none_some : none ≡ some card → ⊥
      none_some q = cc

  -- A card is credited only under an `ask` rule of an enabled server, and it is that of a pin in the
  -- table which is live at this moment, names this server and tool, is bound to the digest that the
  -- call carries, and is met by the arguments.
  pub tool_ruling-credit :
      (store : ToolStore) (now : Time) (server tool : Text) (args : Json) (digest : Option Text)
      (card : Text)
      → (tool_ruling loads dumps store now server tool args digest).card ≡ some card
      → IsCredited store now (strip is_space server) (strip is_space tool) args digest card
  unfolding tool_ruling
  tool_ruling-credit store now server tool args digest card h =
      stripped-credit store now (strip is_space server) (strip is_space tool) args digest card h
