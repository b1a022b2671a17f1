-- ===== src/ControlPlane/Asks/Withdrawn.antt =====
-- What `_withdraw_tool_ask` of control-plane/holds.py writes, and to which row.
use dockade.Base.{
  ◌≡◌, refl, ◌∙◌, ◌≢◌, Bool, true, false, ◌&&◌, ◌||◌, Option, none, some, arith, ltb, if◌then◌else◌,
  ◌==◌, ==_iff, nat_eq, list_eq,
}
use dockade.Base.Text.{Text}
use dockade.Base.Table.{changes-any, update-missed}
use dockade.ControlPlane.Holds.{Time}
use dockade.ControlPlane.Asks.{
  Ask, Table, Limits, withdrawn, status_eq, is_pending, claimable, expire_tool_asks, withdraw_row,
  withdraw_tool_ask,
}
use dockade.ControlPlane.Asks.Expiry.{update-map}
use dockade.ControlPlane.Asks.Claims.{lookup-expire}
use dockade.ControlPlane.Asks.Lookup.{lookup, map_found, lookup-map, lookup-id}

-- The row `s` is the row `r`, withdrawn: stamped now, unless it has a stamp, which stays.
pub record IsWithdrawn (now : Time) (r s : Ask) : Type 0 where
  pub changed : s ≡ record r { status = withdrawn; resolved_at = s.resolved_at }
  pub stamp_kept : (at : Time) → r.resolved_at ≡ some at → s.resolved_at ≡ some at
  pub stamped : r.resolved_at ≡ none → s.resolved_at ≡ some now

withdraw_row-IsWithdrawn : (now : Time) (r : Ask) → IsWithdrawn now r (withdraw_row now r)
withdraw_row-IsWithdrawn now r = record {
  changed = refl;
  stamp_kept = λ at h. rw h refl;
  stamped = λ h. rw h refl;
}

module _ (limits : Limits) (now later : Time) (id : Text) where
  abbrev drops : Ask → Bool
  drops r = r.id == id && (is_pending r || claimable limits later r)

  abbrev drop_touch : Ask → Ask
  drop_touch r = if drops r then withdraw_row later r else r

  abbrev can_drop : Ask → Bool
  can_drop r =
      is_pending r && ltb now r.deadline || claimable limits now r && claimable limits later r

  drop_touch-id : (r : Ask) → (drop_touch r).id ≡ r.id
  drop_touch-id r = ground arith

  lookup-withdrawn :
      (other : Text) (t : Table)
      → lookup other (withdraw_tool_ask limits now later id t).1
        ≡ map_found drop_touch (lookup other (expire_tool_asks limits now t))
  unfolding withdraw_tool_ask
  lookup-withdrawn other t =
      rw (update-map drops (withdraw_row later) (expire_tool_asks limits now t))
        (lookup-map drop_touch drop_touch-id other (expire_tool_asks limits now t))

  -- The open ask is withdrawn.
  pub withdraw_own :
      (t : Table) (r : Ask)
      → lookup id t ≡ some r
      → can_drop r ≡ true
      → (s : Ask) × (lookup id (withdraw_tool_ask limits now later id t).1 ≡ some s)
        × IsWithdrawn later r s
  withdraw_own t r there can = (
    withdraw_row later r,
    lookup-withdrawn id t
        ∙ rw (lookup-expire limits now id t, there)
            (ground (arith, can, lookup-id id t r there, ==_iff r.id id)),
    withdraw_row-IsWithdrawn later r,
  )

  -- Any other ask is as expiry leaves it.
  pub withdraw_other :
      (t : Table) (other : Text)
      → other ≢ id
      → lookup other (withdraw_tool_ask limits now later id t).1
        ≡ lookup other (expire_tool_asks limits now t)
  withdraw_other t other differs =
      lookup-withdrawn other t ∙ by_row (lookup other (expire_tool_asks limits now t)) refl
    where
      by_row :
          (o : Option Ask)
          → lookup other (expire_tool_asks limits now t) ≡ o
          → map_found drop_touch o ≡ o
      by_row none e = refl
      by_row (some r) e =
          let same : r.id ≡ other = lookup-id other (expire_tool_asks limits now t) r e in
          ground (arith, same, differs, ==_iff r.id id)

  -- A withdrawal that fails is an expiry.
  pub withdraw_failed :
      (t : Table)
      → (withdraw_tool_ask limits now later id t).0 ≡ false
      → (withdraw_tool_ask limits now later id t).1 ≡ expire_tool_asks limits now t
  unfolding withdraw_tool_ask
  withdraw_failed t h =
      update-missed drops (withdraw_row later) (expire_tool_asks limits now t)
        (cc (changes-any drops (expire_tool_asks limits now t), h))
