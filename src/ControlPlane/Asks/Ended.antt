-- ===== src/ControlPlane/Asks/Ended.antt =====
-- What control-plane/holds.py tells of asks that have ended: `_grant_lapsed` and `_list_withdrawn`.
use dockade.Base.{
  ℕ, ◌-◌, ◌≡◌, Bool, true, false, ◌&&◌, ◌||◌, not, Option, none, some, List, [], ◌∷◌, arith, ltb,
  leb, if◌then◌else◌, ◌==◌, any, filter, map, nat_eq, list_eq,
}
use dockade.Base.Text.{Text}
use dockade.ControlPlane.Holds.{Time}
use dockade.ControlPlane.Asks.{
  Ask, Table, Limits, expired, withdrawn, status_eq, is_none, hold_lapsed, grant_lapsed_by,
  expire_tool_asks,
}
use dockade.ControlPlane.Asks.Expiry.{expire_row, expire_tool_asks-map}
use dockade.ControlPlane.Asks.Evolution.{expire_row-Later}
use dockade.ControlPlane.Asks.Lookup.{
  lookup, HasUniqueIds, lookup-map, map-HasUniqueIds, any-lookup,
}

-- An ask that was approved and then expired unclaimed.
abbrev pub is_lapsed_grant : Ask → Bool
is_lapsed_grant r = r.status == expired && not (is_none r.resolved_by)

unfoldable pub grant_lapsed : Text → Table → Bool
grant_lapsed id t = any (λ r. r.id == id && is_lapsed_grant r) t

-- Withdrawn while pending.
abbrev pub is_withdrawn_unanswered : Ask → Bool
is_withdrawn_unanswered r = r.status == withdrawn && is_none r.resolved_by

-- `ORDER BY resolved_at DESC`, where no time is the least.
abbrev pub resolved_no_later : Option Time → Option Time → Bool
resolved_no_later none u = true
resolved_no_later (some t) none = false
resolved_no_later (some t) (some u) = leb t u

unfoldable pub insert_newest : Ask → List Ask → List Ask
insert_newest a [] = a ∷ []
insert_newest a (b ∷ bs) =
    let rest = insert_newest a bs in
    if resolved_no_later b.resolved_at a.resolved_at then a ∷ b ∷ bs else b ∷ rest

unfoldable pub newest_first : List Ask → List Ask
newest_first [] = []
newest_first (a ∷ rest) = insert_newest a (newest_first rest)

unfoldable pub first_of {ℓ} : {A : Type ℓ} → ℕ → List A → List A
first_of n [] = []
first_of n (x ∷ xs) = let rest = first_of (n - 1) xs in if ltb 0 n then x ∷ rest else []

unfoldable pub list_withdrawn : Limits → Table → List Text
list_withdrawn limits t =
    map (λ r. r.id)
      (first_of limits.max_tool_pending (newest_first (filter is_withdrawn_unanswered t)))

-- Right after an expiry, of an ask that is there under an id of its own: a lapsed grant is told from
-- an unanswered question by whether a human resolved it.
pub grant_lapsed-expire_tool_asks :
    (limits : Limits) (now : Time) (id : Text) (t : Table) (r : Ask)
    → HasUniqueIds t
    → lookup id t ≡ some r
    → grant_lapsed id (expire_tool_asks limits now t) ≡ (
        not (is_none r.resolved_by)
        && (r.status == expired || hold_lapsed now r || grant_lapsed_by limits now r))
unfolding grant_lapsed
grant_lapsed-expire_tool_asks limits now id t r u there =
    rw
      (
        expire_tool_asks-map limits now t,
        any-lookup id is_lapsed_grant (map (expire_row limits now) t) (
            map-HasUniqueIds (expire_row limits now) (λ x. (expire_row-Later limits now x).same_id)
              t u),
        lookup-map (expire_row limits now) (λ x. (expire_row-Later limits now x).same_id) id t,
        there,
      )
      (ground arith)
