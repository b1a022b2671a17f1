-- ===== src/ControlPlane/Tools/Exact.antt =====
-- When `_tool_ruling` of control-plane/policy.py allows, and which pin it credits.
use dockade.Base.{
  ◌≡◌, refl, sym, ◌∙◌, Bool, true, false, ◌&&◌, ◌||◌, not, Option, none, some, List, [], ◌∷◌, arith,
  if◌then◌else◌, ◌==◌, ==_iff, any, filter, find, is_empty, contains, list_eq, nat_eq, option_eq,
  Bool-cases, Option-cases, inl, inr,
}
use dockade.Base.Dict.{Dict, get}
use dockade.Base.Text.{Text, text, strip, is_space}
use dockade.ControlPlane.Tools.{Json, null, boolean, int, float, string, array, object, Fields}
use dockade.ControlPlane.Tools.Pins.{
  Time, Pin, present, parse_pins, pin_matches, is_live_on, insert_pin, sort_pins, meets, pins_met,
  answering_pin, goes_before,
}
use dockade.ControlPlane.Tools.Ruling.{
  ToolRule, ToolStore, tool_actions, pinned_ruling, is_rule_of, rule_action, ruled, served,
  stripped_ruling, tool_ruling,
}

find-any : (p : Pin → Bool) (ps : List Pin) → present (find p ps) ≡ any p ps
unfolding find any
find-any p [] = refl
find-any p (q ∷ ps) = ground (arith, find-any p ps)

any-filter : (p q : Pin → Bool) (ps : List Pin) → any p (filter q ps) ≡ any (λ x. q x && p x) ps
unfolding filter any
any-filter p q [] = refl
any-filter p q (x ∷ ps) = ground (arith, any-filter p q ps)

any-insert_pin :
    (p : Pin → Bool) (x : Pin) (ps : List Pin) → any p (insert_pin x ps) ≡ (p x || any p ps)
unfolding insert_pin any
any-insert_pin p x [] = refl
any-insert_pin p x (y ∷ ps) = elim (Bool-cases (goes_before x y)) [
  | inl e ↦ rw e refl
  | inr e ↦ rw (e, any-insert_pin p x ps) (ground arith)
]

any-sort_pins : (p : Pin → Bool) (ps : List Pin) → any p (sort_pins ps) ≡ any p ps
unfolding sort_pins any
any-sort_pins p [] = refl
any-sort_pins p (x ∷ ps) = ground (arith, any-insert_pin p x (sort_pins ps), any-sort_pins p ps)

any_nil : (p : Pin → Bool) → any p [] ≡ false
unfolding any
any_nil p = refl

any_never : (ps : List Pin) → any (λ x. false) ps ≡ false
unfolding any
any_never [] = refl
any_never (x ∷ ps) = any_never ps

any_congr : (p q : Pin → Bool) (ps : List Pin) → ((x : Pin) → p x ≡ q x) → any p ps ≡ any q ps
unfolding any
any_congr p q [] h = refl
any_congr p q (x ∷ ps) h = ground (arith, h x, any_congr p q ps h)

abbrev pub action_of : Option ToolRule → Option Text
action_of none = none
action_of (some r) = some r.action

abbrev pub is_off : Option Bool → Bool
is_off none = true
is_off (some enabled) = not enabled

-- The action that is stored for a tool of an enabled server.
abbrev pub stored_action : ToolStore → Text → Text → Option Text
stored_action store server tool =
    if is_empty server || is_empty tool || is_off (get store.servers server)
    then none
    else action_of (find (is_rule_of server tool) store.rules)

-- What a stored action comes to.
abbrev pub outcome : Option Text → Bool → Text
outcome action pinned =
    if action == some (text "allow")
    then text "allow"
    else if action == some (text "ask")
    then (if pinned then text "allow" else text "ask")
    else text "deny"

module _ (loads : Text → Option Json) (dumps : Json → Text) where
  -- A pin that answers a call: it is live, of this tool, met, and bound to the call's own digest.
  abbrev pub answers : Text → Text → Json → Option Text → Time → Pin → Bool
  answers server tool args digest now p =
      present digest
      && is_live_on server tool now p
      && meets loads dumps args p
      && p.schema_digest == digest

  -- Only an object is matched.
  abbrev IsPlain : Json → Type 0
  IsPlain args = (pins : Dict Text Json) → pin_matches loads dumps pins args ≡ false

  meets-plain : (args : Json) (p : Pin) → IsPlain args → meets loads dumps args p ≡ false
  meets-plain args p plain = elim (Option-cases (parse_pins loads dumps p.pins_json)) [
    | inl e ↦ rw (meets, e) refl
    | inr (pins, e) ↦ rw (meets, e) (plain pins)
  ]

  plain-answers :
      (table : List Pin) (server tool : Text) (args : Json) (digest : Option Text) (now : Time)
      → IsPlain args
      → any (answers server tool args digest now) table ≡ false
  plain-answers table server tool args digest now plain =
      any_congr (answers server tool args digest now) (λ p. false) table
        (λ p. ground (arith, meets-plain args p plain))
      ∙ any_never table

  object-answers :
      (table : List Pin) (server tool : Text) (fields : Fields) (d : Text) (now : Time)
      → any
          (λ p. p.schema_digest == some d)
          (pins_met loads dumps table server tool (object fields) now)
        ≡ any (answers server tool (object fields) (some d) now) table
  unfolding pins_met
  object-answers table server tool fields d now =
      any-filter bound met (sort_pins (filter live table))
      ∙ any-sort_pins (λ p. met p && bound p) (filter live table)
      ∙ any-filter (λ p. met p && bound p) live table
      ∙ any_congr (λ p. live p && (met p && bound p))
          (answers server tool (object fields) (some d) now) table (λ p. ground arith)
    where
      bound : Pin → Bool
      bound p = p.schema_digest == some d

      met : Pin → Bool
      met p = meets loads dumps (object fields) p

      live : Pin → Bool
      live p = is_live_on server tool now p

  any-pins_met :
      (table : List Pin) (server tool : Text) (args : Json) (d : Text) (now : Time)
      → any (λ p. p.schema_digest == some d) (pins_met loads dumps table server tool args now)
        ≡ any (answers server tool args (some d) now) table
  unfolding pins_met pin_matches
  any-pins_met table server tool (object fields) d now =
      object-answers table server tool fields d now
  any-pins_met table server tool null d now =
      any_nil _ ∙ sym (plain-answers table server tool null (some d) now (λ pins. refl))
  any-pins_met table server tool (boolean b) d now =
      any_nil _ ∙ sym (plain-answers table server tool (boolean b) (some d) now (λ pins. refl))
  any-pins_met table server tool (int b n) d now =
      any_nil _ ∙ sym (plain-answers table server tool (int b n) (some d) now (λ pins. refl))
  any-pins_met table server tool (float t) d now =
      any_nil _ ∙ sym (plain-answers table server tool (float t) (some d) now (λ pins. refl))
  any-pins_met table server tool (string t) d now =
      any_nil _ ∙ sym (plain-answers table server tool (string t) (some d) now (λ pins. refl))
  any-pins_met table server tool (array a) d now =
      any_nil _ ∙ sym (plain-answers table server tool (array a) (some d) now (λ pins. refl))

  present-answering_pin :
      (table : List Pin) (server tool : Text) (args : Json) (digest : Option Text) (now : Time)
      → present (answering_pin (pins_met loads dumps table server tool args now) digest)
        ≡ any (answers server tool args digest now) table
  unfolding answering_pin
  present-answering_pin table server tool args none now = sym (any_never table)
  present-answering_pin table server tool args (some d) now =
      find-any (λ p. p.schema_digest == some d) (pins_met loads dumps table server tool args now)
      ∙ any-pins_met table server tool args d now

  answering_pin-nil : (digest : Option Text) → answering_pin [] digest ≡ none
  unfolding answering_pin find
  answering_pin-nil none = refl
  answering_pin-nil (some d) = refl

  rule_action-ask :
      (store : ToolStore) (now : Time) (server tool : Text) (args : Json) (digest : Option Text)
      → (rule_action loads dumps store now server tool args digest (text "ask")).decision ≡ (
          if any (answers server tool args digest now) store.pins then text "allow" else text "ask")
  unfolding rule_action pinned_ruling
  rule_action-ask store now server tool args digest =
      elim (Option-cases
        (answering_pin (pins_met loads dumps store.pins server tool args now) digest)) [
          | inl e ↦
              rw (rule_action, e, ← present-answering_pin store.pins server tool args digest now, e)
                refl
          | inr (p, e) ↦
              rw (rule_action, e, ← present-answering_pin store.pins server tool args digest now, e)
                refl
        ]

  rule_action_fixed :
      (store : ToolStore) (now : Time) (server tool : Text) (args : Json) (digest : Option Text)
      (action : Text)
      → (action == text "ask") ≡ false
      → (rule_action loads dumps store now server tool args digest action).decision ≡ action
  unfolding pinned_ruling rule_action
  rule_action_fixed store now server tool args digest action e =
      rw (rule_action, e, answering_pin-nil digest) refl

  rule_action-outcome :
      (store : ToolStore) (now : Time) (server tool : Text) (args : Json) (digest : Option Text)
      (action : Text)
      → contains action tool_actions ≡ true
      → (rule_action loads dumps store now server tool args digest action).decision
        ≡ outcome (some action) (any (answers server tool args digest now) store.pins)
  unfolding contains
  rule_action-outcome store now server tool args digest action known =
      elim (Bool-cases (action == text "ask")) [
        | inl e ↦
            let same : action ≡ text "ask" = (==_iff action (text "ask")).0 e in
            rw (same) (rule_action-ask store now server tool args digest)
        | inr e ↦
            rw (rule_action_fixed store now server tool args digest action e)
              (elim (Bool-cases (action == text "allow")) [
                | inl a ↦
                    let same : action ≡ text "allow" = (==_iff action (text "allow")).0 a in
                    rw same refl
                | inr a ↦
                    let same : action ≡ text "deny" =
                      (==_iff action (text "deny")).0 (ground arith) in
                    rw same refl
              ])
      ]

  unknown-outcome :
      (action : Text) (pinned : Bool)
      → contains action tool_actions ≡ false
      → outcome (some action) pinned ≡ text "deny"
  unfolding contains
  unknown-outcome action pinned h =
      let no_allow : (action == text "allow") ≡ false = ground arith in
      let no_ask : (action == text "ask") ≡ false = ground arith in rw (no_allow, no_ask) refl

  ruled-outcome :
      (store : ToolStore) (now : Time) (s t : Text) (args : Json) (digest : Option Text)
      (o : Option ToolRule)
      → (ruled loads dumps store now s t args digest o).decision
        ≡ outcome (action_of o) (any (answers s t args digest now) store.pins)
  unfolding ruled
  ruled-outcome store now s t args digest none = refl
  ruled-outcome store now s t args digest (some r) =
      elim (Bool-cases (contains r.action tool_actions)) [
        | inl e ↦ rw e (rule_action-outcome store now s t args digest r.action e)
        | inr e ↦
            rw (e, unknown-outcome r.action (any (answers s t args digest now) store.pins) e) refl
      ]

  served-outcome :
      (store : ToolStore) (now : Time) (s t : Text) (args : Json) (digest : Option Text)
      (o : Option Bool)
      → (served loads dumps store now s t args digest o).decision
        ≡ outcome
            (if is_off o then none else action_of (find (is_rule_of s t) store.rules))
            (any (answers s t args digest now) store.pins)
  unfolding served
  served-outcome store now s t args digest none = refl
  served-outcome store now s t args digest (some false) = refl
  served-outcome store now s t args digest (some true) =
      ruled-outcome store now s t args digest (find (is_rule_of s t) store.rules)

  -- A call is allowed exactly if both names are there, the server is registered and enabled, and
  -- the rule of the tool is `allow`, or it is `ask` and some pin of the table is live, of this
  -- server and tool, bound to the digest that the call carries, and met by the arguments. An `ask`
  -- comes back exactly under an `ask` rule without such a pin; all else is denied.
  pub tool_ruling-exact :
      (store : ToolStore) (now : Time) (server tool : Text) (args : Json) (digest : Option Text)
      → let s : Text = strip is_space server in
        let t : Text = strip is_space tool in
        (tool_ruling loads dumps store now server tool args digest).decision
        ≡ outcome (stored_action store s t) (any (answers s t args digest now) store.pins)
  unfolding tool_ruling stripped_ruling
  tool_ruling-exact store now server tool args digest =
      by_names (strip is_space server) (strip is_space tool)
    where
      by_names :
          (s t : Text)
          → (stripped_ruling loads dumps store now s t args digest).decision
            ≡ outcome (stored_action store s t) (any (answers s t args digest now) store.pins)
      by_names s t = elim (Bool-cases (is_empty s || is_empty t)) [
        | inl e ↦ rw e refl
        | inr e ↦ rw e (served-outcome store now s t args digest (get store.servers s))
      ]
