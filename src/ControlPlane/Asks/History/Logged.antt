-- ===== src/ControlPlane/Asks/History/Logged.antt =====
-- A log agrees with the table: the invariant of the histories of control-plane/holds.py.
use dockade.Base.{
  ◌≡◌, refl, sym, ◌∙◌, ◌≢◌, ◌⊎◌, true, Option, none, some, List, [], ◌∷◌, ◌++◌, arith, Option-cases,
  inl, inr, nat_eq, list_eq, find, map, contains,
}
use dockade.Base.Text.{Text}
use dockade.ControlPlane.Holds.{Time}
use dockade.ControlPlane.Asks.{
  Ask, Table, Limits, pending, allowed, withdrawn, status_eq, expire_tool_asks,
}
use dockade.ControlPlane.Asks.Expiry.{expire_row, expire_tool_asks-map}
use dockade.ControlPlane.Asks.Evolution.{Later, expire_row-Later}
use dockade.ControlPlane.Asks.Lookup.{
  lookup, HasUniqueIds, map_found, lookup-map, map-HasUniqueIds, lookup-id, lookup-append,
  append-HasUniqueIds,
}
use dockade.ControlPlane.Asks.History.{Log, HasNoRepeats}

pub record IsLogged (log : Log) (t : Table) : Type 0 where
  pub unique : HasUniqueIds t
  pub once : HasNoRepeats log.claims
  pub claimed_row :
      (id : Text)
      → contains id log.claims ≡ true
      → (r : Ask) × (lookup id t ≡ some r) × (r.claimed_at ≢ none) × (r.status ≡ allowed)
  pub withdrawn_row :
      (id : Text)
      → contains id log.withdrawals ≡ true
      → (r : Ask) × (lookup id t ≡ some r) × (r.claimed_at ≡ none) × (r.status ≡ withdrawn)
  pub granted :
      (id : Text) (r : Ask)
      → lookup id t ≡ some r
      → r.status ≡ allowed
      → contains id log.grants ≡ true
  pub claims_allowed :
      (id : Text) (r : Ask) → lookup id t ≡ some r → r.claimed_at ≢ none → r.status ≡ allowed

found_before :
    (f : Ask → Ask) (o : Option Ask) (s : Ask)
    → map_found f o ≡ some s
    → (r : Ask) × (o ≡ some r) × (f r ≡ s)
found_before f none s h = absurd (cc)
found_before f (some r) s h = (r, refl, ground arith)

-- A statement that makes each row a later one, and allows only rows whose ids `grants` has.
pub map_grants-IsLogged :
    (f : Ask → Ask) (log : Log) (grants : List Text) (t : Table)
    → ((r : Ask) → Later r (f r))
    → ((id : Text) → contains id log.grants ≡ true → contains id grants ≡ true)
    → ((r : Ask) → (f r).status ≡ allowed → (r.status ≡ allowed) ⊎ (contains r.id grants ≡ true))
    → IsLogged log t
    → IsLogged (record log { grants = grants }) (map f t)
map_grants-IsLogged f log grants t later more new_ones c = record {
  unique = map-HasUniqueIds f (λ r. (later r).same_id) t c.unique;
  once = c.once;
  claimed_row = λ id h.
      let (r, there, claim, ok) = c.claimed_row id h in
      (
        f r,
        seen id r there,
        λ e. claim (sym ((later r).claim_kept claim ok).0 ∙ e),
        ((later r).claim_kept claim ok).1,
      );
  withdrawn_row = λ id h.
      let (r, there, unclaimed, gone) = c.withdrawn_row id h in
      (f r, seen id r there, unclaimed_still r unclaimed gone, gone_still r gone);
  granted = λ id s h ok.
      let (r, there, e) =
        found_before f (lookup id t) s (sym (lookup-map f (λ r. (later r).same_id) id t) ∙ h) in
      elim (new_ones r (rw e ok)) [
        | inl before ↦ more id (c.granted id r there before)
        | inr now ↦ rw (← lookup-id id t r there) now
      ];
  claims_allowed = λ id s h claim.
      let (r, there, e) =
        found_before f (lookup id t) s (sym (lookup-map f (λ r. (later r).same_id) id t) ∙ h) in
      rw (← e) (allowed_still id r there (rw e claim));
}
  where
    seen : (id : Text) (r : Ask) → lookup id t ≡ some r → lookup id (map f t) ≡ some (f r)
    seen id r there = rw (lookup-map f (λ r. (later r).same_id) id t, there) refl

    gone_still : (r : Ask) → r.status ≡ withdrawn → (f r).status ≡ withdrawn
    gone_still r gone = ground (arith, (later r).status)

    unclaimed_still :
        (r : Ask) → r.claimed_at ≡ none → r.status ≡ withdrawn → (f r).claimed_at ≡ none
    unclaimed_still r unclaimed gone = elim (Option-cases (f r).claimed_at) [
      | inl e ↦ e
      | inr (at, e) ↦ ground (arith, (later r).claim_allowed unclaimed (λ k. cc), gone_still r gone)
    ]

    allowed_still :
        (id : Text) (r : Ask)
        → lookup id t ≡ some r
        → (f r).claimed_at ≢ none
        → (f r).status ≡ allowed
    allowed_still id r there claim = elim (Option-cases r.claimed_at) [
      | inl e ↦ (later r).claim_allowed e claim
      | inr (at, e) ↦ ((later r).claim_kept (λ k. cc) (c.claims_allowed id r there (λ k. cc))).1
    ]

-- And one that allows no row.
pub map-IsLogged :
    (f : Ask → Ask) (log : Log) (t : Table)
    → ((r : Ask) → Later r (f r))
    → ((r : Ask) → (f r).status ≡ allowed → r.status ≡ allowed)
    → IsLogged log t
    → IsLogged log (map f t)
map-IsLogged f log t later none_new c =
    map_grants-IsLogged f log log.grants t later (λ id h. h) (λ r h. inl (none_new r h)) c

pub expire-IsLogged :
    (limits : Limits) (now : Time) (log : Log) (t : Table)
    → IsLogged log t
    → IsLogged log (expire_tool_asks limits now t)
expire-IsLogged limits now log t c = rw (expire_tool_asks-map limits now t) (
    map-IsLogged (expire_row limits now) log t (expire_row-Later limits now) (λ r h. ground arith)
      c)

-- A row that is inserted is pending, and its id is new.
pub append-IsLogged :
    (log : Log) (t : Table) (new : Ask)
    → lookup new.id t ≡ none
    → new.status ≡ pending
    → new.claimed_at ≡ none
    → IsLogged log t
    → IsLogged log (t ++ new ∷ [])
unfolding find
append-IsLogged log t new fresh waits unclaimed c = record {
  unique = append-HasUniqueIds t new c.unique fresh;
  once = c.once;
  claimed_row = λ id h.
      let (r, there, x, y) = c.claimed_row id h in
      (r, rw (lookup-append id t (new ∷ []), there) refl, x, y);
  withdrawn_row = λ id h.
      let (r, there, x, y) = c.withdrawn_row id h in
      (r, rw (lookup-append id t (new ∷ []), there) refl, x, y);
  granted = λ id r h ok. ground (arith, lookup-append id t (new ∷ []), c.granted id r);
  claims_allowed =
      λ id r h claim. ground (arith, lookup-append id t (new ∷ []), c.claims_allowed id r);
}
