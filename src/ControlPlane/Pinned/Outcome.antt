-- ===== src/ControlPlane/Pinned/Outcome.antt =====
-- Both or neither: the ask and its pin in `_resolve_tool_ask_pinned` of control-plane/holds.py.
use mathlib.Core.List.{Memᴰ}
use dockade.Base.{
  ℕ, ◌≡◌, refl, sym, Bool, true, false, ◌&&◌, not, Option, none, some, List, [], ◌∷◌, ◌++◌, arith,
  if◌then◌else◌, ◌==◌, ==_iff, find, filter, nat_eq, list_eq, option_eq, Bool-cases, inl, inr,
}
use dockade.Base.Table.{update}
use dockade.Base.Text.{Text, text}
use dockade.ControlPlane.Asks.{Ask, Table, allowed, status_eq, is_pending, resolve_row}
use dockade.ControlPlane.Tools.Pins.{Time, Pin}
use dockade.ControlPlane.Tools.Ruling.{ToolRule, ToolStore, is_rule_of}
use dockade.ControlPlane.Pinned.{
  Pinning, PinnedAnswer, unpinned, pinned, rebind_refusal, has_not_expired, is_set_of, ends_before,
  new_pin, rebind_pin, extend_pin, write_pin, commit, pin_ruled, expiry, pin_found,
  resolve_tool_ask_pinned,
}

mem-update :
    (p : Pin → Bool) (f : Pin → Pin) (xs : List Pin) (x : Pin)
    → Memᴰ x xs
    → p x ≡ true
    → Memᴰ (f x) (update p f xs)
unfolding update
mem-update p f [] x m ok = elim m [ ]
mem-update p f (y ∷ xs) x (Memᴰ.head e) ok = Memᴰ.head (rw e (ground arith))
mem-update p f (y ∷ xs) x (Memᴰ.tail m) ok = Memᴰ.tail (mem-update p f xs x m ok)

mem_of_find :
    (p : Pin → Bool) (ps : List Pin) (x : Pin) → find p ps ≡ some x → Memᴰ x ps × (p x ≡ true)
unfolding find
mem_of_find p [] x h = absurd (cc)
mem_of_find p (y ∷ ps) x h = elim (Bool-cases (p y)) [
  | inl hit ↦ let same : y ≡ x = ground arith in (Memᴰ.head (sym same), rw (← same) hit)
  | inr miss ↦ let (there, ok) = mem_of_find p ps x (ground arith) in (Memᴰ.tail there, ok)
]

mem_last : (ps : List Pin) (x : Pin) → Memᴰ x (ps ++ x ∷ [])
mem_last [] x = Memᴰ.head refl
mem_last (y ∷ ps) x = Memᴰ.tail (mem_last ps x)

-- A pin of the set, under the ask's own digest, that the answer describes.
pub record IsPinOf (ask : Ask) (pins_json : Text) (done : Pinning) (p : Pin) : Type 0 where
  pub id : p.id ≡ done.pin_id
  pub of_set : is_set_of ask pins_json p ≡ true
  pub schema_digest : p.schema_digest ≡ ask.schema_digest
  pub expires_at : p.expires_at ≡ done.expires_at

ends_before_self : (e : Option Time) → ends_before e e ≡ false
ends_before_self none = refl
ends_before_self (some t) = ground arith

module _ (now : Time) (actor pins_json : Text) (expires_at : Option Time) (new_id : ℕ)
    (ask : Ask) where
  -- What a write of the pin comes to.
  abbrev IsWritten : List Pin → Pinning → Type 0
  IsWritten after done =
      ((p : Pin) × Memᴰ p after × IsPinOf ask pins_json done p)
      × (ends_before done.expires_at expires_at ≡ false)

  abbrev Written : Option (Pinning × List Pin) → Type 0
  Written none = Unit
  Written (some (done, after)) = IsWritten after done

  Written-if :
      (b : Bool) (x y : Option (Pinning × List Pin))
      → (b ≡ true → Written x)
      → (b ≡ false → Written y)
      → Written (if b then x else y)
  Written-if true x y f g = f refl
  Written-if false x y f g = g refl

  write_pin-Written :
      (asks : Table) (pins : List Pin) (existing : Option Pin)
      → find (is_set_of ask pins_json) pins ≡ existing
      → Written (write_pin now actor pins_json expires_at new_id ask asks pins existing)
  unfolding write_pin
  write_pin-Written asks pins none e = (
    (
      new_pin now actor pins_json expires_at new_id ask,
      mem_last pins (new_pin now actor pins_json expires_at new_id ask),
      record {
        id = refl;
        of_set = ground (
          arith,
          ==_iff ask.server ask.server,
          ==_iff ask.tool ask.tool,
          ==_iff pins_json pins_json,
        );
        schema_digest = refl;
        expires_at = refl;
      },
    ),
    ends_before_self expires_at,
  )
  write_pin-Written asks pins (some p) e =
      let (there, of_set) = mem_of_find (is_set_of ask pins_json) pins p e in
      Written-if (not (p.schema_digest == ask.schema_digest)) _ _
        (λ differs.
          Written-if (rebind_refusal asks p.approval_id ask) none _ (λ r. tt)
            (λ r. (
              (
                rebind_pin now actor pins_json expires_at new_id ask p,
                mem-update (λ q. q.id == p.id)
                    (rebind_pin now actor pins_json expires_at new_id ask) pins p there
                    ((==_iff p.id p.id).1 refl),
                record { id = refl; of_set = of_set; schema_digest = refl; expires_at = refl },
              ),
              ends_before_self expires_at,
            )))
        (λ same.
          let digest : p.schema_digest ≡ ask.schema_digest =
            (==_iff p.schema_digest ask.schema_digest).0 (ground arith) in
          Written-if (ends_before p.expires_at expires_at) _ _
            (λ before. (
              (
                extend_pin now actor pins_json expires_at new_id ask p,
                mem-update (λ q. q.id == p.id)
                    (extend_pin now actor pins_json expires_at new_id ask) pins p there
                    ((==_iff p.id p.id).1 refl),
                record { id = refl; of_set = of_set; schema_digest = digest; expires_at = refl },
              ),
              ends_before_self expires_at,
            ))
            (λ reaches. (
              (
                p,
                there,
                record { id = refl; of_set = of_set; schema_digest = digest; expires_at = refl },
              ),
              reaches,
            )))

-- What the transaction leaves, by its answer.
abbrev pub IsOutcome :
    Time
    → Text
    → Text
    → Text
    → Option Time
    → Table
    → ToolStore
    → PinnedAnswer × Table × ToolStore
    → Type 0
IsOutcome now id actor pins_json lasts asks store (unpinned why, asks', store') =
    (asks' ≡ asks) × (store' ≡ store)
IsOutcome now id actor pins_json lasts asks store (pinned done, asks', store') =
    (ask : Ask) × (rule : ToolRule) × (find (λ r. r.id == id && is_pending r) asks ≡ some ask)
    × (find (is_rule_of ask.server ask.tool) store.rules ≡ some rule)
    × (rule.action ≡ text "ask")
    × (asks' ≡ update (λ r. r.id == ask.id && is_pending r) (resolve_row allowed now actor) asks)
    × ((p : Pin) × Memᴰ p store'.pins × IsPinOf ask pins_json done p)
    × (ends_before done.expires_at (expiry now lasts) ≡ false)
    × (store'.rules ≡ store.rules)

module _ (now : Time) (id actor pins_json : Text) (lasts : Option Time) (new_id : ℕ) (asks : Table)
    (store : ToolStore) where
  abbrev IsResult : PinnedAnswer × Table × ToolStore → Type 0
  IsResult out = IsOutcome now id actor pins_json lasts asks store out

  commit-IsOutcome :
      (ask : Ask) (rule : ToolRule) (old : ℕ) (w : Option (Pinning × List Pin))
      → find (λ r. r.id == id && is_pending r) asks ≡ some ask
      → find (is_rule_of ask.server ask.tool) store.rules ≡ some rule
      → rule.action ≡ text "ask"
      → Written now actor pins_json (expiry now lasts) new_id ask w
      → IsResult (commit now actor pins_json (expiry now lasts) new_id ask asks store old w)
  commit-IsOutcome ask rule old none found ruled asks_for w = (refl, refl)
  commit-IsOutcome ask rule old (some (done, after)) found ruled asks_for (written, reaches) =
      (ask, rule, found, ruled, asks_for, refl, written, reaches, refl)

  pin_ruled-IsOutcome :
      (ask : Ask) (o : Option ToolRule)
      → find (λ r. r.id == id && is_pending r) asks ≡ some ask
      → find (is_rule_of ask.server ask.tool) store.rules ≡ o
      → IsResult (pin_ruled now actor pins_json (expiry now lasts) new_id ask asks store o)
  unfolding pin_ruled
  pin_ruled-IsOutcome ask none found ruled = (refl, refl)
  pin_ruled-IsOutcome ask (some rule) found ruled = elim (Bool-cases (rule.action == text "ask")) [
    | inr e ↦ rw e (refl, refl)
    | inl e ↦ rw e (
        commit-IsOutcome ask rule _ _ found ruled ((==_iff rule.action (text "ask")).0 e) (
          write_pin-Written now actor pins_json (expiry now lasts) new_id ask asks
            (filter (has_not_expired now) store.pins) _ refl))
  ]

  -- Either nothing is written, or all of this: there was a pending ask of that id whose tool is ruled
  -- `ask` now, it is allowed, and the table has a pin of this set for its server and tool, bound to
  -- the digest of the ask and ending, if ever, when the answer says and no sooner than was asked for.
  pub resolve_tool_ask_pinned-IsOutcome :
      IsResult (resolve_tool_ask_pinned now id actor pins_json lasts new_id asks store)
  unfolding resolve_tool_ask_pinned pin_found
  resolve_tool_ask_pinned-IsOutcome = by_ask (find (λ r. r.id == id && is_pending r) asks) refl
    where
      by_ask :
          (o : Option Ask)
          → find (λ r. r.id == id && is_pending r) asks ≡ o
          → IsResult (pin_found now actor pins_json lasts new_id asks store o)
      by_ask none e = (refl, refl)
      by_ask (some ask) e =
          pin_ruled-IsOutcome ask (find (is_rule_of ask.server ask.tool) store.rules) e refl
