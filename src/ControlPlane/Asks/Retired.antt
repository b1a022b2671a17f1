-- ===== src/ControlPlane/Asks/Retired.antt =====
-- What `_expire_tool_asks` of control-plane/holds.py leaves of each row, against a description of the
-- two windows that an ask waits in.
use dockade.Base.{
  ◌+◌, ◌≤◌, ◌<◌, ◌≡◌, refl, true, Option, none, some, [], ◌∷◌, arith, map, ==_iff, nat_eq,
  Bool-cases, inl, inr,
}
use dockade.ControlPlane.Holds.{Time}
use dockade.ControlPlane.Asks.{
  Ask, Table, Limits, pending, allowed, expired, status_eq, is_none, older, hold_lapsed,
  grant_lapsed_by, expire_tool_asks,
}
use dockade.ControlPlane.Asks.Expiry.{expire_row, expire_tool_asks-map}

module _ (limits : Limits) (now : Time) where
  -- The row `s` is what is left of the row `r`.
  pub data IsLeft (r s : Ask) : Type 0 where
    undecided :
        r.status ≡ pending
        → r.deadline ≤ now
        → s ≡ record r { status = expired; resolved_at = some now }
        → IsLeft r s
    unresumed :
        (decided_at : Time)
        → r.status ≡ allowed
        → r.claimed_at ≡ none
        → r.resolved_at ≡ some decided_at
        → decided_at + limits.tool_grant_timeout ≤ now
        → s ≡ record r { status = expired }
        → IsLeft r s
    stays :
        (r.status ≡ pending → now < r.deadline)
        → ((decided_at : Time)
            → r.status ≡ allowed
            → r.claimed_at ≡ none
            → r.resolved_at ≡ some decided_at
            → now < decided_at + limits.tool_grant_timeout)
        → s ≡ r
        → IsLeft r s

  -- Row by row, in the order of the table, and no row more or less.
  abbrev pub AreLeft : Table → Table → Type 0
  AreLeft [] [] = Unit
  AreLeft [] (s ∷ u) = ⊥
  AreLeft (r ∷ t) [] = ⊥
  AreLeft (r ∷ t) (s ∷ u) = IsLeft r s × AreLeft t u

  claim_none : (o : Option Time) → is_none o ≡ true → o ≡ none
  claim_none none h = refl
  claim_none (some at) h = absurd (cc (h))

  lapsed_at :
      (o : Option Time)
      → older o limits.tool_grant_timeout now ≡ true
      → (at : Time) × (o ≡ some at) × (at + limits.tool_grant_timeout ≤ now)
  lapsed_at none h = absurd (cc (h))
  lapsed_at (some at) h = (at, refl, ground (arith, h))

  expire_row-IsLeft : (r : Ask) → IsLeft r (expire_row limits now r)
  expire_row-IsLeft r = elim (Bool-cases (hold_lapsed now r)) [
    | inl due ↦ undecided ((==_iff r.status pending).0 (ground arith)) (ground arith) (rw due refl)
    | inr in_time ↦ elim (Bool-cases (grant_lapsed_by limits now r)) [
      | inl due ↦
          let (at, there, past) = lapsed_at r.resolved_at (ground arith) in
          unresumed at ((==_iff r.status allowed).0 (ground arith))
            (claim_none r.claimed_at (ground arith)) there past (rw (in_time, due) refl)
      | inr fresh ↦
          stays (λ h. ground (arith, in_time, h, (==_iff r.status pending).1 h))
            (λ at h free there. ground (arith, fresh, free, there, (==_iff r.status allowed).1 h))
            (rw (in_time, fresh) refl)
    ]
  ]

  map-AreLeft : (t : Table) → AreLeft t (map (expire_row limits now) t)
  map-AreLeft [] = tt
  map-AreLeft (r ∷ t) = (expire_row-IsLeft r, map-AreLeft t)

  -- Expiry leaves the rows of the table in their places. A pending ask whose deadline has come is
  -- expired and stamped with the moment; an approved ask that nobody claimed within its window is
  -- expired and keeps the stamp of its decision, and every other column; and any other row, a claimed
  -- one of whatever age included, stays as it was.
  pub expire_tool_asks-rowwise : (t : Table) → AreLeft t (expire_tool_asks limits now t)
  expire_tool_asks-rowwise t = rw (expire_tool_asks-map limits now t) (map-AreLeft t)
