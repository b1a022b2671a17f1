-- ===== src/ControlPlane/Asks.antt =====
-- control-plane/holds.py, the tool asks: rows of `tool_approvals`, and the statements that move them.
-- Each reading of the clock is an argument, and so are the id and the token that are minted.
pub mod Register
pub mod Expiry
pub mod Retired
pub mod Lookup
pub mod Evolution
pub mod Claims
pub mod Withdrawn
pub mod Answers
pub mod Ended
pub mod History
pub mod Registration
pub mod Tests
use dockade.Base.{
  ℕ, ◌+◌, ◌≡◌, ◌↔◌, Bool, true, false, ◌&&◌, ◌||◌, not, Option, none, some, List, [], ◌∷◌, ◌++◌,
  arith, ltb, leb, if◌then◌else◌, Eq, ◌==◌, length, filter, find, nat_eq, list_eq, option_eq,
}
use dockade.Base.Text.{Text, text}
use dockade.Base.Table.{update, changes}
use dockade.ControlPlane.Holds.{
  Time, Scope, Saturation, global_tool_asks, tool_asks_of_client, over_client_cap,
}

pub data Status : Type 0 where
  pending allowed denied expired withdrawn : Status

abbrev status_same : Status → Status → Bool
status_same pending pending = true
status_same allowed allowed = true
status_same denied denied = true
status_same expired expired = true
status_same withdrawn withdrawn = true
status_same _ _ = false

pub status_same_iff : (s t : Status) → (status_same s t ≡ true) ↔ (s ≡ t)
status_same_iff s t = ground arith

instance abbrev pub status_eq : Eq Status
status_eq = record { same = status_same; same_iff = status_same_iff }

pub record Ask : Type 0 where
  pub id : Text
  pub ts : Time
  pub server : Text
  pub tool : Text
  pub args_json : Text
  pub args_digest : Text
  pub client : Option Text
  pub status : Status
  pub deadline : Time
  pub resolved_at : Option Time
  pub resolved_by : Option Text
  pub claimed_at : Option Time
  pub schema_digest : Option Text
  pub resume_token : Text

abbrev pub Table : Type 0
Table = List Ask

pub record Limits : Type 0 where
  pub tool_hold_timeout : Time
  pub tool_grant_timeout : Time
  pub max_tool_pending : ℕ
  pub max_tool_pending_per_client : ℕ
  pub tool_withdraw_cooldown : Time

abbrev pub is_none {ℓ} : {A : Type ℓ} → Option A → Bool
is_none none = true
is_none (some _) = false

-- `resolved_at IS NOT NULL AND resolved_at <= now - window`, and `>`; written without a difference.
abbrev pub older : Option Time → Time → Time → Bool
older none window now = false
older (some t) window now = leb (t + window) now

abbrev pub younger : Option Time → Time → Time → Bool
younger none window now = false
younger (some t) window now = ltb now (t + window)

abbrev pub is_pending : Ask → Bool
is_pending r = r.status == pending

abbrev pub is_grant : Ask → Bool
is_grant r = r.status == allowed && is_none r.claimed_at

-- The two windows that an ask can run out of.
abbrev pub hold_lapsed : Time → Ask → Bool
hold_lapsed now r = is_pending r && leb r.deadline now

abbrev pub grant_lapsed_by : Limits → Time → Ask → Bool
grant_lapsed_by limits now r = is_grant r && older r.resolved_at limits.tool_grant_timeout now

abbrev pub expire_pending : Time → Ask → Ask
expire_pending now r = record r { status = expired; resolved_at = some now }

abbrev pub expire_grant : Ask → Ask
expire_grant r = record r { status = expired }

-- The rows that are due, one conditional `UPDATE` each.
unfoldable pub expire_rows : Limits → Time → List Ask → Table → Table
expire_rows limits now [] t = t
expire_rows limits now (due ∷ rest) t = expire_rows limits now rest (
    if is_pending due
    then update (λ r. r.id == due.id && hold_lapsed now r) (expire_pending now) t
    else update (λ r. r.id == due.id && grant_lapsed_by limits now r) expire_grant t)

unfoldable pub expire_tool_asks : Limits → Time → Table → Table
expire_tool_asks limits now t =
    expire_rows limits now (filter (λ r. hold_lapsed now r || grant_lapsed_by limits now r) t) t

-- One ask by its id, expiry applied first; the table is what that left.
unfoldable pub get_tool_ask : Limits → Time → Text → Table → Option Ask × Table
get_tool_ask limits now id t =
    let t' = expire_tool_asks limits now t in (find (λ r. r.id == id) t', t')

unfoldable pub ask_by_token : Limits → Time → Text → Table → Option Ask × Table
ask_by_token limits now token t =
    let t' = expire_tool_asks limits now t in (find (λ r. r.resume_token == token) t', t')

abbrev pub resolve_row : Status → Time → Text → Ask → Ask
resolve_row decision now actor r = record r {
  status = decision;
  resolved_at = some now;
  resolved_by = some actor;
}

abbrev pub is_decision : Status → Bool
is_decision allowed = true
is_decision denied = true
is_decision _ = false

unfoldable pub resolve_tool_ask : Time → Text → Status → Text → Table → Option Status × Table
resolve_tool_ask now id decision actor t =
    let hit = λ (r : Ask). r.id == id && is_pending r in
    if not (is_decision decision) then (none, t) else (
      if changes hit t then some decision else none,
      update hit (resolve_row decision now actor) t,
    )

-- The condition of a claim: an unclaimed grant inside its window.
abbrev pub claimable : Limits → Time → Ask → Bool
claimable limits now r = is_grant r && younger r.resolved_at limits.tool_grant_timeout now

abbrev pub claim_row : Time → Ask → Ask
claim_row now r = record r { claimed_at = some now }

-- `now`, `later` and `last` are the three readings of the clock.
unfoldable pub claim_tool_ask : Limits → Time → Time → Time → Text → Table → Option Ask × Table
claim_tool_ask limits now later last id t =
    let t' = expire_tool_asks limits now t in
    let hit = λ (r : Ask). r.id == id && claimable limits later r in
    let claimed = update hit (claim_row later) t' in
    if changes hit t' then get_tool_ask limits last id claimed else (none, claimed)

abbrev pub or_some : Option Time → Time → Option Time
or_some none now = some now
or_some (some t) now = some t

abbrev pub withdraw_row : Time → Ask → Ask
withdraw_row now r = record r { status = withdrawn; resolved_at = or_some r.resolved_at now }

unfoldable pub withdraw_tool_ask : Limits → Time → Time → Text → Table → Bool × Table
withdraw_tool_ask limits now later id t =
    let t' = expire_tool_asks limits now t in
    let hit = λ (r : Ask). r.id == id && (is_pending r || claimable limits later r) in
    (changes hit t', update hit (withdraw_row later) t')
