-- ===== src/ControlPlane/Cards/Refusals.antt =====
-- A click on a tool card that is refused writes nothing: `_resolve_tool_ask_request` of
-- control-plane/api_approvals.py on every way out that is no decision.
use dockade.Base.{
  ◌≡◌, refl, ◌≢◌, inl, inr, Bool, true, false, ◌&&◌, not, Option, none, some, List, [], ◌∷◌, arith,
  if◌then◌else◌, ◌==◌, find, any, contains, is_empty, Bool-cases, list_eq, nat_eq,
}
use dockade.Base.Dict.{keys}
use dockade.Base.Table.{changes-any, update-missed}
use dockade.Base.Text.{Text, strip, is_space, or_empty}
use dockade.ControlPlane.Holds.{Time}
use dockade.ControlPlane.Asks.{
  Ask, Table, Limits, Status, is_pending, is_decision, status_eq, resolve_row, expire_tool_asks,
  get_tool_ask, resolve_tool_ask,
}
use dockade.ControlPlane.Policy.Rules.{sorted_set}
use dockade.ControlPlane.Tools.Ruling.{ToolStore}
use dockade.ControlPlane.Pinned.{
  PinnedAnswer, Unpinned, unpinned, pinned, not_pending, not_ask, bound_later,
  resolve_tool_ask_pinned,
}
use dockade.ControlPlane.Pinned.Outcome.{IsOutcome, resolve_tool_ask_pinned-IsOutcome}
use dockade.ControlPlane.Cards.{NoPin, is_choice}
use dockade.ControlPlane.Cards.Resolve.{
  CardSettings, CardClick, ClickTimes, CardState, CardAnswer, raised, unknown_action,
  takes_no_pattern, takes_no_pins, answered, answered_pinned, tool_actions, pin_actions, tell_stale,
  by_pinned, pin_chosen, pins_of, candidates_for, by_candidates, allow_pinned, by_status,
  decide_ask, by_action, list_or_empty, action_of_click, resolve_tool_ask_request,
}

-- One expiry after another, or none.
pub data Expires (limits : Limits) (t : Table) : Table → Type 0 where
  same : {u : Table} → u ≡ t → Expires limits t u
  after :
      {m u : Table} (now : Time)
      → Expires limits t m
      → u ≡ expire_tool_asks limits now m
      → Expires limits t u

-- Nothing is written: only asks that had lapsed are retired.
pub record IsQuiet (limits : Limits) (s : CardState) (u : CardState) : Type 0 where
  pub tools : u.tools ≡ s.tools
  pub audit : u.audit ≡ s.audit
  pub asks : Expires limits s.asks u.asks

abbrev pub is_decided : CardAnswer → Bool
is_decided (answered status) = true
is_decided (answered_pinned names done) = true
is_decided _ = false

-- The answer is a decision, or the state is as it was.
abbrev pub IsClean : Limits → CardState → CardAnswer × CardState → Type 0
IsClean limits s out = (out.0 ≢ raised) × (is_decided out.0 ≡ false → IsQuiet limits s out.1)

module _ (g : CardSettings) (at : ClickTimes) (id : Text) (actor : Text) (s : CardState) where
  tell_stale-IsClean :
      (u : CardState) → IsQuiet g.limits s u → IsClean g.limits s (tell_stale g at id actor u)
  unfolding tell_stale get_tool_ask
  tell_stale-IsClean u q = (
    λ e. cc,
    λ h. record { tools = q.tools; audit = q.audit; asks = after at.reread q.asks refl },
  )

  by_pinned-IsClean :
      (leased : Bool) (names : List Text) (ask : Ask) (a : PinnedAnswer) (u : CardState)
      → ((why : Unpinned) → a ≡ unpinned why → IsQuiet g.limits s u)
      → IsClean g.limits s (by_pinned g at id actor leased names ask a u)
  unfolding by_pinned
  by_pinned-IsClean leased names ask (pinned done) u q = (λ e. cc, λ h. absurd (cc))
  by_pinned-IsClean leased names ask (unpinned not_pending) u q =
      tell_stale-IsClean u (q not_pending refl)
  by_pinned-IsClean leased names ask (unpinned (not_ask now)) u q =
      (λ e. cc, λ h. q (not_ask now) refl)
  by_pinned-IsClean leased names ask (unpinned (bound_later old)) u q =
      (λ e. cc, λ h. q (bound_later old) refl)

  pin_chosen-IsClean :
      (leased : Bool) (chosen : List Text) (ask : Ask) (u : CardState)
      → IsQuiet g.limits s u
      → IsClean g.limits s (pin_chosen g at id actor leased chosen ask u)
  unfolding pin_chosen
  pin_chosen-IsClean leased chosen ask u q =
      let lasts : Option Time = if leased then some g.pin_lease_seconds else none in
      let pins = pins_of g at id actor ask chosen in
      by_result (resolve_tool_ask_pinned at.decide id actor pins lasts at.new_pin u.asks u.tools)
        (resolve_tool_ask_pinned-IsOutcome at.decide id actor pins lasts at.new_pin u.asks u.tools)
    where
      by_result :
          (out : PinnedAnswer × Table × ToolStore)
          → IsOutcome at.decide id actor
              (pins_of g at id actor ask chosen)
              (if leased then some g.pin_lease_seconds else none)
              u.asks
              u.tools
              out
          → IsClean g.limits s (
              by_pinned g at id actor leased
                (sorted_set chosen)
                ask
                out.0
                (record u { asks = out.1; tools = out.2 }))
      by_result (pinned done, t, tools) o =
          by_pinned-IsClean leased (sorted_set chosen) ask (pinned done) _ (λ why e. absurd (cc))
      by_result (unpinned why, t, tools) (same_asks, same_tools) =
          by_pinned-IsClean leased (sorted_set chosen) ask (unpinned why) _
            (λ other e. rw (same_asks, same_tools) q)

  allow_pinned-IsClean :
      (leased : Bool) (chosen : List Text) (ask : Option Ask) (u : CardState)
      → IsQuiet g.limits s u
      → IsClean g.limits s (allow_pinned g at id actor leased chosen ask u)
  unfolding allow_pinned
  allow_pinned-IsClean leased chosen none u q = (λ e. cc, λ h. q)
  allow_pinned-IsClean leased chosen (some ask) u q =
      by_reason (candidates_for g at id actor ask).refused
    where
      by_reason :
          (o : Option NoPin)
          → IsClean g.limits s (by_candidates g at id actor leased chosen ask o u)
      by_reason (some why) = unfold by_candidates in (λ e. cc, λ h. q)
      by_reason none =
          unfold by_candidates in
          elim (Bool-cases (is_choice (keys (candidates_for g at id actor ask).fields) chosen)) [
            | inl fits ↦ rw fits (pin_chosen-IsClean leased chosen ask u q)
            | inr misfit ↦ rw misfit (λ e. cc, λ h. q)
          ]

  by_status-IsClean :
      (action : Text) (ask : Option Ask) (status : Option Status) (u : CardState)
      → (ask ≡ none → status ≡ none)
      → (status ≡ none → IsQuiet g.limits s u)
      → IsClean g.limits s (by_status g at id actor action ask status u)
  unfolding by_status
  by_status-IsClean action ask none u absent q = tell_stale-IsClean u (q refl)
  by_status-IsClean action none (some status) u absent q = absurd (cc (absent refl))
  by_status-IsClean action (some ask) (some status) u absent q = (λ e. cc, λ h. absurd (cc))

-- A decision that finds no pending row changes none, and one that finds a row finds its ask.
resolve_tool_ask-missed :
    (now : Time) (id : Text) (decision : Status) (actor : Text) (t : Table)
    → (resolve_tool_ask now id decision actor t).0 ≡ none
    → (resolve_tool_ask now id decision actor t).1 ≡ t
unfolding resolve_tool_ask
resolve_tool_ask-missed now id decision actor t h = elim (Bool-cases (is_decision decision)) [
  | inr other ↦ rw other refl
  | inl known ↦
      let miss : any (λ (r : Ask). r.id == id && is_pending r) t ≡ false =
        ground (arith, changes-any (λ (r : Ask). r.id == id && is_pending r) t, h, known) in
      rw known (
        update-missed (λ (r : Ask). r.id == id && is_pending r) (resolve_row decision now actor) t
          miss)
]

any-none :
    (id : Text) (t : Table)
    → find (λ (r : Ask). r.id == id) t ≡ none
    → any (λ (r : Ask). r.id == id && is_pending r) t ≡ false
unfolding find any
any-none id [] h = refl
any-none id (r ∷ t) h = ground (arith, any-none id t)

resolve_tool_ask-absent :
    (now : Time) (id : Text) (decision : Status) (actor : Text) (t : Table)
    → find (λ (r : Ask). r.id == id) t ≡ none
    → (resolve_tool_ask now id decision actor t).0 ≡ none
unfolding resolve_tool_ask
resolve_tool_ask-absent now id decision actor t h =
    ground (arith, changes-any (λ (r : Ask). r.id == id && is_pending r) t, any-none id t h)

module _ (g : CardSettings) (at : ClickTimes) (id : Text) (click : CardClick) (s : CardState) where
  unchanged : IsQuiet g.limits s s
  unchanged = record { tools = refl; audit = refl; asks = same refl }

  abbrev read : CardState
  read = record s { asks = expire_tool_asks g.limits at.read s.asks }

  read-IsQuiet : IsQuiet g.limits s read
  read-IsQuiet = record { tools = refl; audit = refl; asks = after at.read (same refl) refl }

  decide_ask-IsClean :
      (action : Text)
      → IsClean g.limits s
          (decide_ask g at id click.actor action (find (λ (r : Ask). r.id == id) read.asks) read)
  unfolding decide_ask
  decide_ask-IsClean action =
      by_status-IsClean g at id click.actor s action (find (λ (r : Ask). r.id == id) read.asks) _ _
        (λ gone. resolve_tool_ask-absent at.decide id _ click.actor read.asks gone)
        (λ missed.
          rw (resolve_tool_ask-missed at.decide id _ click.actor read.asks missed) read-IsQuiet)

  by_action-IsClean : (action : Text) → IsClean g.limits s (by_action g at id click action s)
  unfolding by_action get_tool_ask
  by_action-IsClean action = elim (Bool-cases (contains action pin_actions)) [
    | inl pins ↦ rw pins (
        allow_pinned-IsClean g at id click.actor s _ (list_or_empty click.pins) _ read read-IsQuiet)
    | inr plain ↦ rw plain (decide_ask-IsClean action)
  ]

  -- A click on a tool card never decides an ask that it did not find, and unless it is answered as a
  -- decision it writes nothing: no rule, no pin and no audit row changes, and no ask but by the expiry
  -- of those that had lapsed. So a click that is refused leaves the card for another.
  pub resolve_tool_ask_request-IsClean :
      IsClean g.limits s (resolve_tool_ask_request g at id click s)
  unfolding resolve_tool_ask_request
  resolve_tool_ask_request-IsClean = by_known (contains action tool_actions)
    where
      action : Text
      action = action_of_click click

      by_pins :
          (b : Bool)
          → IsClean g.limits s
              (if b then (takes_no_pins action, s) else by_action g at id click action s)
      by_pins true = (λ e. cc, λ h. unchanged)
      by_pins false = by_action-IsClean action

      by_pattern :
          (b : Bool)
          → IsClean g.limits s (
              if b
              then (takes_no_pattern, s)
              else if not (is_empty (list_or_empty click.pins)) && not (contains action pin_actions)
              then (takes_no_pins action, s)
              else by_action g at id click action s)
      by_pattern true = (λ e. cc, λ h. unchanged)
      by_pattern false = by_pins _

      by_known :
          (b : Bool)
          → IsClean g.limits s (
              if not b
              then (unknown_action action, s)
              else if not (is_empty (strip is_space (or_empty click.pattern)))
              then (takes_no_pattern, s)
              else if not (is_empty (list_or_empty click.pins)) && not (contains action pin_actions)
              then (takes_no_pins action, s)
              else by_action g at id click action s)
      by_known true = by_pattern _
      by_known false = (λ e. cc, λ h. unchanged)
