-- ===== src/ControlPlane/Asks/Expiry.antt =====
-- `_expire_tool_asks` of control-plane/holds.py, row by row.
use mathlib.Core.List.{Memᴰ, map-map}
use dockade.Base.{
  ◌≡◌, refl, ◌∙◌, ◌⊎◌, Bool, false, ◌&&◌, ◌||◌, List, [], ◌∷◌, arith, if◌then◌else◌, ◌==◌, ==_iff,
  Bool-cases, inl, inr, nat_eq, list_eq, filter, map,
}
use dockade.Base.Members.{mem-filter_of_mem}
use dockade.Base.Table.{update}
use dockade.ControlPlane.Holds.{Time}
use dockade.ControlPlane.Asks.{
  Ask, Table, Limits, status_eq, is_pending, hold_lapsed, grant_lapsed_by, expire_pending,
  expire_grant, expire_rows, expire_tool_asks,
}

pub update-map :
    (p : Ask → Bool) (f : Ask → Ask) (t : Table)
    → update p f t ≡ map (λ r. if p r then f r else r) t
unfolding update
update-map p f [] = refl
update-map p f (r ∷ t) = rw (update-map p f t)

map-id : (t : Table) → t ≡ map (λ r. r) t
map-id [] = refl
map-id (r ∷ t) = rw (← map-id t)

map-congr : (f g : Ask → Ask) (t : Table) → ((r : Ask) → Memᴰ r t → f r ≡ g r) → map f t ≡ map g t
map-congr f g [] h = refl
map-congr f g (r ∷ t) h = rw (h r (Memᴰ.head refl), map-congr f g t (λ s m. h s (Memᴰ.tail m)))

module _ (limits : Limits) (now : Time) where
  abbrev is_due : Ask → Bool
  is_due r = hold_lapsed now r || grant_lapsed_by limits now r

  -- What expiry makes of one row, by that row alone.
  abbrev pub expire_row : Ask → Ask
  expire_row r =
      if hold_lapsed now r
      then expire_pending now r
      else if grant_lapsed_by limits now r
      then expire_grant r
      else r

  -- What the statement for `due` makes of one row.
  abbrev touch : Ask → Ask → Ask
  touch due r =
      if is_pending due
      then if r.id == due.id && hold_lapsed now r then expire_pending now r else r
      else if r.id == due.id && grant_lapsed_by limits now r
      then expire_grant r
      else r

  abbrev touch_all : List Ask → Ask → Ask
  touch_all [] r = r
  touch_all (due ∷ rest) r = touch_all rest (touch due r)

  touch-kept : (due r : Ask) → is_due r ≡ false → touch due r ≡ r
  touch-kept due r h = ground arith

  touch_all-kept : (dues : List Ask) (r : Ask) → is_due r ≡ false → touch_all dues r ≡ r
  touch_all-kept [] r h = refl
  touch_all-kept (due ∷ rest) r h = rw (touch-kept due r h) (touch_all-kept rest r h)

  expire_row-settled : (r : Ask) → is_due (expire_row r) ≡ false
  expire_row-settled r = ground arith

  touch-either : (due r : Ask) → (touch due r ≡ r) ⊎ (touch due r ≡ expire_row r)
  touch-either due r = ground arith

  touch-own : (r : Ask) → touch r r ≡ expire_row r
  touch-own r = ground (arith, ==_iff r.id r.id)

  touch_all-own : (dues : List Ask) (r : Ask) → Memᴰ r dues → touch_all dues r ≡ expire_row r
  touch_all-own [] r m = elim m [ ]
  touch_all-own (due ∷ rest) r (Memᴰ.head e) =
      rw (← e, touch-own r) (touch_all-kept rest (expire_row r) (expire_row-settled r))
  touch_all-own (due ∷ rest) r (Memᴰ.tail m) = elim (touch-either due r) [
    | inl e ↦ rw e (touch_all-own rest r m)
    | inr e ↦ rw e (touch_all-kept rest (expire_row r) (expire_row-settled r))
  ]

  touch_all-due : (t : Table) (r : Ask) → Memᴰ r t → touch_all (filter is_due t) r ≡ expire_row r
  touch_all-due t r m = elim (Bool-cases (is_due r)) [
    | inl due ↦ touch_all-own (filter is_due t) r (mem-filter_of_mem is_due t r m due)
    | inr not_due ↦ touch_all-kept (filter is_due t) r not_due ∙ ground arith
  ]

  statement-touch :
      (due : Ask) (t : Table)
      → (if is_pending due
          then update (λ r. r.id == due.id && hold_lapsed now r) (expire_pending now) t
          else update (λ r. r.id == due.id && grant_lapsed_by limits now r) expire_grant t)
        ≡ map (touch due) t
  statement-touch due t = elim (Bool-cases (is_pending due)) [
    | inl e ↦ rw e (update-map _ _ t ∙ map-congr _ (touch due) t (λ r m. ground (arith, e)))
    | inr e ↦ rw e (update-map _ _ t ∙ map-congr _ (touch due) t (λ r m. ground (arith, e)))
  ]

  expire_rows-touch :
      (dues : List Ask) (t : Table) → expire_rows limits now dues t ≡ map (touch_all dues) t
  unfolding expire_rows
  expire_rows-touch [] t = map-id t
  expire_rows-touch (due ∷ rest) t =
      rw (statement-touch due t, expire_rows-touch rest (map (touch due) t))
        (map-map (touch_all rest) (touch due) t)

  -- The statements, one for each row found due, do to every row what that row alone calls for.
  pub expire_tool_asks-map : (t : Table) → expire_tool_asks limits now t ≡ map expire_row t
  unfolding expire_tool_asks
  expire_tool_asks-map t =
      expire_rows-touch (filter is_due t) t
      ∙ map-congr (touch_all (filter is_due t)) expire_row t (touch_all-due t)
