-- ===== src/ControlPlane/Asks/History/Writes.antt =====
-- Single statements of control-plane/holds.py, on a table that the log agrees with.
use dockade.Base.{
  ◌≡◌, sym, ◌∙◌, ◌≢◌, Bool, true, false, ◌&&◌, none, some, ◌∷◌, arith, if◌then◌else◌, ◌==◌, ==_iff,
  Bool-cases, Option-cases, inl, inr, nat_eq, list_eq, contains,
}
use dockade.Base.Text.{Text}
use dockade.Base.Table.{update, changes, changes-any, update-missed}
use dockade.ControlPlane.Holds.{Time}
use dockade.ControlPlane.Asks.{
  Ask, Table, Status, pending, allowed, denied, expired, withdrawn, status_eq, is_pending,
  resolve_row, is_decision, resolve_tool_ask,
}
use dockade.ControlPlane.Asks.Expiry.{update-map}
use dockade.ControlPlane.Asks.Evolution.{Later, Later-if, resolve_row-Later}
use dockade.ControlPlane.Asks.Lookup.{lookup, lookup-map, lookup-id, changes-lookup}
use dockade.ControlPlane.Asks.History.{Log, log_resolved}
use dockade.ControlPlane.Asks.History.Logged.{IsLogged, map_grants-IsLogged, map-IsLogged}

-- `UPDATE … WHERE id = ? AND p`, of a table whose log agrees with it.
module _ (id : Text) (p : Ask → Bool) (f : Ask → Ask)
    (later : (r : Ask) → p r ≡ true → Later r (f r)) where
  abbrev hit : Ask → Bool
  hit r = r.id == id && p r

  abbrev touched : Ask → Ask
  touched r = if hit r then f r else r

  touched-Later : (r : Ask) → Later r (touched r)
  touched-Later r = Later-if (hit r) r (f r) (λ h. later r (ground arith))

  pub update-IsLogged :
      (log : Log) (t : Table)
      → ((r : Ask) → p r ≡ true → (f r).status ≡ allowed → r.status ≡ allowed)
      → IsLogged log t
      → IsLogged log (update hit f t)
  update-IsLogged log t none_new c =
      rw (update-map hit f t)
        (map-IsLogged touched log t touched-Later (λ r h. ground (arith, none_new r)) c)

  unchanged : (t : Table) → changes hit t ≡ false → update hit f t ≡ t
  unchanged t h = update-missed hit f t (sym (changes-any hit t) ∙ h)

  -- The row that the statement changed, before and after.
  pub update-hit :
      (log : Log) (t : Table)
      → IsLogged log t
      → changes hit t ≡ true
      → (r : Ask) × (lookup id t ≡ some r)
        × (p r ≡ true)
        × (lookup id (update hit f t) ≡ some (f r))
  update-hit log t c changed = elim (Option-cases (lookup id t)) [
    | inl absent ↦ absurd (ground (arith, changes-lookup id p t c.unique))
    | inr (r, there) ↦
        let ok : p r ≡ true = ground (arith, changes-lookup id p t c.unique) in
        (
          r,
          there,
          ok,
          rw (update-map hit f t, lookup-map touched (λ x. (touched-Later x).same_id) id t, there)
              (ground (arith, lookup-id id t r there, ==_iff r.id id)),
        )
  ]

pub resolve-IsLogged :
    (log : Log) (now : Time) (id : Text) (decision : Status) (actor : Text) (t : Table)
    → IsLogged log t
    → IsLogged
        (log_resolved id (resolve_tool_ask now id decision actor t).0 log)
        (resolve_tool_ask now id decision actor t).1
unfolding resolve_tool_ask
resolve-IsLogged log now id decision actor t c = elim (Bool-cases (is_decision decision)) [
  | inr e ↦ rw e c
  | inl e ↦ elim (Bool-cases (changes taken t)) [
    | inr miss ↦
        rw
          (
            e,
            miss,
            unchanged id is_pending (resolve_row decision now actor)
                (λ r h. resolve_row-Later decision now actor r (ground arith)) t miss,
          )
          c
    | inl changed ↦ rw (e, changed) (by_decision decision e)
  ]
]
  where
    taken : Ask → Bool
    taken r = r.id == id && is_pending r

    by_decision :
        (d : Status)
        → is_decision d ≡ true
        → IsLogged (log_resolved id (some d) log) (update taken (resolve_row d now actor) t)
    by_decision allowed e = rw (update-map taken (resolve_row allowed now actor) t) (
        map_grants-IsLogged (λ r. if taken r then resolve_row allowed now actor r else r) log
          (id ∷ log.grants) t
          (λ r. Later-if (taken r) r _ (λ h. resolve_row-Later allowed now actor r (ground arith)))
          (λ j h. unfold contains in ground arith)
          (λ r h. unfold contains in ground (arith, Bool-cases (taken r))) c)
    by_decision denied e =
        update-IsLogged id is_pending (resolve_row denied now actor)
          (λ r h. resolve_row-Later denied now actor r (ground arith)) log t (λ r h k. ground arith)
          c
    by_decision pending e = absurd (cc)
    by_decision expired e = absurd (cc)
    by_decision withdrawn e = absurd (cc)

-- The log gains a claim of a row that is claimed now and was not before.
pub log_claim-IsLogged :
    (log : Log) (id : Text) (t : Table) (r : Ask)
    → lookup id t ≡ some r
    → r.claimed_at ≢ none
    → r.status ≡ allowed
    → contains id log.claims ≡ false
    → IsLogged log t
    → IsLogged (record log { claims = id ∷ log.claims }) t
unfolding contains
log_claim-IsLogged log id t r there claim ok new c = record {
  unique = c.unique;
  once = (new, c.once);
  claimed_row = λ j h. elim (Bool-cases (j == id)) [
    | inl same ↦ let e : j ≡ id = (==_iff j id).0 same in (r, rw e there, claim, ok)
    | inr other ↦ c.claimed_row j (ground arith)
  ];
  withdrawn_row = c.withdrawn_row;
  granted = c.granted;
  claims_allowed = c.claims_allowed;
}

pub log_withdrawal-IsLogged :
    (log : Log) (id : Text) (t : Table) (r : Ask)
    → lookup id t ≡ some r
    → r.claimed_at ≡ none
    → r.status ≡ withdrawn
    → IsLogged log t
    → IsLogged (record log { withdrawals = id ∷ log.withdrawals }) t
unfolding contains
log_withdrawal-IsLogged log id t r there unclaimed gone c = record {
  unique = c.unique;
  once = c.once;
  claimed_row = c.claimed_row;
  withdrawn_row = λ j h. elim (Bool-cases (j == id)) [
    | inl same ↦ let e : j ≡ id = (==_iff j id).0 same in (r, rw e there, unclaimed, gone)
    | inr other ↦ c.withdrawn_row j (ground arith)
  ];
  granted = c.granted;
  claims_allowed = c.claims_allowed;
}
