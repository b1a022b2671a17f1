-- ===== src/ControlPlane/Asks/Claims.antt =====
-- Exactly when `_claim_tool_ask` and `_withdraw_tool_ask` of control-plane/holds.py succeed.
use dockade.Base.{
  ◌≡◌, refl, ◌∙◌, Bool, true, false, ◌&&◌, ◌||◌, Option, none, some, arith, ltb, if◌then◌else◌,
  ◌==◌, ==_iff, Bool-cases, inl, inr, nat_eq, list_eq,
}
use dockade.Base.Text.{Text}
use dockade.Base.Table.{update, changes}
use dockade.ControlPlane.Holds.{Time}
use dockade.ControlPlane.Asks.{
  Ask, Table, Limits, status_eq, is_pending, claimable, claim_row, expire_tool_asks, get_tool_ask,
  claim_tool_ask, withdraw_tool_ask,
}
use dockade.ControlPlane.Asks.Expiry.{expire_row, update-map, expire_tool_asks-map}
use dockade.ControlPlane.Asks.Evolution.{Later, expire_row-Later, Later-if, claim_row-Later}
use dockade.ControlPlane.Asks.Lookup.{
  lookup, HasUniqueIds, map_found, lookup-map, lookup-id, changes-lookup, map-HasUniqueIds,
}

module _ (limits : Limits) where
  pub lookup-expire :
      (now : Time) (id : Text) (t : Table)
      → lookup id (expire_tool_asks limits now t) ≡ map_found (expire_row limits now) (lookup id t)
  lookup-expire now id t =
      rw (expire_tool_asks-map limits now t)
        (lookup-map (expire_row limits now) (λ r. (expire_row-Later limits now r).same_id) id t)

  pub expire-HasUniqueIds :
      (now : Time) (t : Table) → HasUniqueIds t → HasUniqueIds (expire_tool_asks limits now t)
  expire-HasUniqueIds now t u =
      rw (expire_tool_asks-map limits now t) (
        map-HasUniqueIds (expire_row limits now) (λ r. (expire_row-Later limits now r).same_id) t u)

  changes-expire :
      (now : Time) (id : Text) (p : Ask → Bool) (t : Table)
      → HasUniqueIds t
      → changes (λ r. r.id == id && p r) (expire_tool_asks limits now t)
        ≡ elim (lookup id t) [ none ↦ false | some r ↦ p (expire_row limits now r) ]
  changes-expire now id p t u =
      changes-lookup id p (expire_tool_asks limits now t) (expire-HasUniqueIds now t u)
      ∙ by_row (lookup id t) (lookup-expire now id t)
    where
      by_row :
          (o : Option Ask)
          → lookup id (expire_tool_asks limits now t) ≡ map_found (expire_row limits now) o
          → elim (lookup id (expire_tool_asks limits now t)) [ none ↦ false | some r ↦ p r ]
            ≡ elim o [ none ↦ false | some r ↦ p (expire_row limits now r) ]
      by_row none e = rw e refl
      by_row (some r) e = rw e refl

  -- If ids are unique, the withdrawal of an id succeeds exactly if there is such an ask and it is
  -- pending with its deadline ahead at the first reading of the clock, or an unclaimed grant that
  -- is within its window at both readings.
  pub withdraw_tool_ask-exact :
      (now later : Time) (id : Text) (t : Table)
      → HasUniqueIds t
      → (withdraw_tool_ask limits now later id t).0 ≡ elim (lookup id t) [
        | none ↦ false
        | some r ↦
            is_pending r && ltb now r.deadline || claimable limits now r && claimable limits later r
      ]
  unfolding withdraw_tool_ask
  withdraw_tool_ask-exact now later id t u =
      changes-expire now id (λ r. is_pending r || claimable limits later r) t u
      ∙ by_row (lookup id t)
    where
      by_row :
          (o : Option Ask)
          → elim o [
            | none ↦ false
            | some r ↦
                is_pending (expire_row limits now r)
                || claimable limits later (expire_row limits now r)
          ]
            ≡ elim o [
              | none ↦ false
              | some r ↦
                  is_pending r && ltb now r.deadline
                  || claimable limits now r && claimable limits later r
            ]
      by_row none = refl
      by_row (some r) = ground arith

  abbrev taken : Text → Time → Ask → Bool
  taken id later r = r.id == id && claimable limits later r

  abbrev claim_touch : Text → Time → Ask → Ask
  claim_touch id later r = if taken id later r then claim_row later r else r

  claim_touch-Later : (id : Text) (later : Time) (r : Ask) → Later r (claim_touch id later r)
  claim_touch-Later id later r =
      Later-if (taken id later r) r (claim_row later r)
        (λ h. claim_row-Later limits later r (ground arith))

  claim_found :
      (now later last : Time) (id : Text) (t : Table) (r : Ask)
      → lookup id t ≡ some r
      → claimable limits now r ≡ true
      → claimable limits later r ≡ true
      → lookup id (
          expire_tool_asks limits last
            (update (taken id later) (claim_row later) (expire_tool_asks limits now t)))
        ≡ some (claim_row later r)
  claim_found now later last id t r there ok still =
      rw
        (
          lookup-expire last id
              (update (taken id later) (claim_row later) (expire_tool_asks limits now t)),
          update-map (taken id later) (claim_row later) (expire_tool_asks limits now t),
          lookup-map (claim_touch id later) (λ x. (claim_touch-Later id later x).same_id) id
              (expire_tool_asks limits now t),
          lookup-expire now id t,
          there,
        )
        (ground (arith, lookup-id id t r there, ==_iff r.id id))

  -- If ids are unique, a claim of an id succeeds exactly if there is such an ask and it is an
  -- unclaimed grant within its window at both readings of the clock; it then returns that ask, as it
  -- was raised, stamped as claimed.
  pub claim_tool_ask-exact :
      (now later last : Time) (id : Text) (t : Table)
      → HasUniqueIds t
      → (claim_tool_ask limits now later last id t).0 ≡ elim (lookup id t) [
        | none ↦ none
        | some r ↦
            if claimable limits now r && claimable limits later r
            then some (claim_row later r)
            else none
      ]
  unfolding claim_tool_ask get_tool_ask
  claim_tool_ask-exact now later last id t u = by_row (lookup id t) refl
    where
      changed : changes (taken id later) (expire_tool_asks limits now t) ≡ elim (lookup id t) [
        | none ↦ false
        | some r ↦ claimable limits later (expire_row limits now r)
      ]
      changed = changes-expire now id (claimable limits later) t u

      claimed : Table
      claimed = update (taken id later) (claim_row later) (expire_tool_asks limits now t)

      outcome : Option Ask × Table
      outcome =
          if changes (taken id later) (expire_tool_asks limits now t)
          then (
            lookup id (expire_tool_asks limits last claimed),
            expire_tool_asks limits last claimed,
          )
          else (none, claimed)

      by_row :
          (o : Option Ask)
          → lookup id t ≡ o
          → outcome.0 ≡ elim o [
            | none ↦ none
            | some r ↦
                if claimable limits now r && claimable limits later r
                then some (claim_row later r)
                else none
          ]
      by_row none e = rw (changed, e) refl
      by_row (some r) e = elim (Bool-cases (claimable limits now r && claimable limits later r)) [
        | inl ok ↦
            rw (changed, e, claim_found now later last id t r e (ground arith) (ground arith))
              (ground arith)
        | inr bad ↦
            let miss : claimable limits later (expire_row limits now r) ≡ false = ground arith in
            rw (changed, e, miss) (ground arith)
      ]
