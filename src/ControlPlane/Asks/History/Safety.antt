-- ===== src/ControlPlane/Asks/History/Safety.antt =====
-- Every history of the tool asks of control-plane/holds.py keeps its log in agreement with the
-- table: a call runs once, after a human allowed it.
use dockade.Base.{
  ◌≡◌, refl, Bool, true, false, ◌&&◌, ◌||◌, none, some, ◌∷◌, arith, ◌==◌, Bool-cases, Option-cases,
  inl, inr, nat_eq, list_eq, find, contains,
}
use dockade.Base.Text.{Text}
use dockade.Base.Table.{update, changes}
use dockade.ControlPlane.Holds.{Time, Saturation}
use dockade.ControlPlane.Asks.{
  Ask, Table, Limits, status_eq, is_pending, claimable, claim_row, withdraw_row, expire_tool_asks,
  get_tool_ask, ask_by_token, claim_tool_ask, withdraw_tool_ask,
}
use dockade.ControlPlane.Asks.Expiry.{expire_row, expire_tool_asks-map}
use dockade.ControlPlane.Asks.Evolution.{
  Later, expire_row-Later, claim_row-Later, withdraw_row-Later,
}
use dockade.ControlPlane.Asks.Lookup.{lookup, lookup-map}
use dockade.ControlPlane.Asks.Register.{Call, register_tool_ask, insert_ask, refuse_tool, new_ask}
use dockade.ControlPlane.Asks.Registration.{register_rule}
use dockade.ControlPlane.Asks.History.{
  Log, HasNoRepeats, History, start, registered, read_by_id, read_by_token, resolved, claimed,
  withdrew, log_claimed, log_withdrawn,
}
use dockade.ControlPlane.Asks.History.Logged.{IsLogged, expire-IsLogged, append-IsLogged}
use dockade.ControlPlane.Asks.History.Writes.{
  update-IsLogged, update-hit, resolve-IsLogged, log_claim-IsLogged, log_withdrawal-IsLogged,
}

module _ (limits : Limits) where
  withdraw-IsLogged :
      (log : Log) (now later : Time) (id : Text) (t : Table)
      → IsLogged log t
      → IsLogged
          (log_withdrawn id (withdraw_tool_ask limits now later id t).0 log)
          (withdraw_tool_ask limits now later id t).1
  unfolding withdraw_tool_ask
  withdraw-IsLogged log now later id t c = elim (Bool-cases (changes gone u)) [
    | inr miss ↦ rw miss d
    | inl changed ↦ rw changed (
        let (r, there, ok, after) =
          update-hit id open_row (withdraw_row later) is_later log u uc changed in
        log_withdrawal-IsLogged log id (update gone (withdraw_row later) u) (withdraw_row later r)
          after
          (elim (Option-cases r.claimed_at) [
            | inl e ↦ e
            | inr (at, e) ↦ ground (arith, uc.claims_allowed id r there (λ k. cc))
          ])
          refl d)
  ]
    where
      u : Table
      u = expire_tool_asks limits now t

      uc : IsLogged log u
      uc = expire-IsLogged limits now log t c

      open_row : Ask → Bool
      open_row r = is_pending r || claimable limits later r

      gone : Ask → Bool
      gone r = r.id == id && open_row r

      is_later : (r : Ask) → open_row r ≡ true → Later r (withdraw_row later r)
      is_later r h = withdraw_row-Later limits later r h

      d : IsLogged log (update gone (withdraw_row later) u)
      d = update-IsLogged id open_row (withdraw_row later) is_later log u (λ r h k. absurd (cc)) uc

  claim-IsLogged :
      (log : Log) (now later last : Time) (id : Text) (t : Table)
      → IsLogged log t
      → IsLogged
          (log_claimed id (claim_tool_ask limits now later last id t).0 log)
          (claim_tool_ask limits now later last id t).1
  unfolding claim_tool_ask get_tool_ask
  claim-IsLogged log now later last id t c = elim (Bool-cases (changes taken u)) [
    | inr miss ↦ rw miss d
    | inl changed ↦ rw changed (
        let (r, there, ok, after) =
          update-hit id (claimable limits later) (claim_row later) is_later log u uc changed in
        rw (seen r after) (
          expire-IsLogged limits last (record log { claims = id ∷ log.claims }) claimed_u
            (log_claim-IsLogged log id claimed_u (claim_row later r) after (λ k. cc) (ground arith)
              (new r there ok) d)))
  ]
    where
      u : Table
      u = expire_tool_asks limits now t

      uc : IsLogged log u
      uc = expire-IsLogged limits now log t c

      taken : Ask → Bool
      taken r = r.id == id && claimable limits later r

      claimed_u : Table
      claimed_u = update taken (claim_row later) u

      is_later : (r : Ask) → claimable limits later r ≡ true → Later r (claim_row later r)
      is_later r h = claim_row-Later limits later r h

      d : IsLogged log claimed_u
      d =
          update-IsLogged id (claimable limits later) (claim_row later) is_later log u (λ r h k. k)
            uc

      seen :
          (r : Ask)
          → lookup id claimed_u ≡ some (claim_row later r)
          → lookup id (expire_tool_asks limits last claimed_u)
            ≡ some (expire_row limits last (claim_row later r))
      seen r after =
          rw
            (
              expire_tool_asks-map limits last claimed_u,
              lookup-map (expire_row limits last) (λ x. (expire_row-Later limits last x).same_id) id
                  claimed_u,
              after,
            )
            refl

      new :
          (r : Ask)
          → lookup id u ≡ some r
          → claimable limits later r ≡ true
          → contains id log.claims ≡ false
      new r there ok = elim (Bool-cases (contains id log.claims)) [
        | inr e ↦ e
        | inl e ↦
            let (s, here, claim, status) = uc.claimed_row id e in
            let same : s ≡ r = ground arith in absurd (claim (rw same (ground arith)))
      ]

  register-IsLogged :
      (digest : Text → Text → Text → Text) (log : Log) (now later : Time) (id token : Text)
      (call : Call) (sat : Saturation) (t : Table)
      → lookup id t ≡ none
      → IsLogged log t
      → IsLogged log (register_tool_ask limits digest now later id token call sat t).2
  register-IsLogged digest log now later id token call sat t fresh c =
      register_rule limits digest now later id token call sat t (λ out. IsLogged log out.2) c c
        (λ r h. expire-IsLogged limits now log t c)
        (λ scope cooling. unfold refuse_tool in expire-IsLogged limits now log t c)
        (λ h room.
          unfold insert_ask new_ask in
          append-IsLogged log (expire_tool_asks limits now t) _
            (rw
              (
                expire_tool_asks-map limits now t,
                lookup-map (expire_row limits now) (λ x. (expire_row-Later limits now x).same_id) id
                    t,
                fresh,
              )
              refl)
            refl refl (expire-IsLogged limits now log t c))

  module _ (digest : Text → Text → Text → Text) where
    pub History-IsLogged :
        (log : Log) (sat : Saturation) (t : Table)
        → History limits digest log sat t
        → IsLogged log t
    unfolding get_tool_ask ask_by_token contains find
    History-IsLogged log sat t (start s) = record {
      unique = tt;
      once = tt;
      claimed_row = λ id h. absurd (cc);
      withdrawn_row = λ id h. absurd (cc);
      granted = λ id r h. absurd (cc);
      claims_allowed = λ id r h. absurd (cc);
    }
    History-IsLogged log sat t (registered {sat = s} {t = u} now later id token call h fresh) =
        register-IsLogged digest log now later id token call s u fresh (History-IsLogged log s u h)
    History-IsLogged log sat t (read_by_id {t = u} now id h) =
        expire-IsLogged limits now log u (History-IsLogged log sat u h)
    History-IsLogged log sat t (read_by_token {t = u} now token h) =
        expire-IsLogged limits now log u (History-IsLogged log sat u h)
    History-IsLogged log sat t (resolved {log = old} {t = u} now id decision actor h) =
        resolve-IsLogged old now id decision actor u (History-IsLogged old sat u h)
    History-IsLogged log sat t (claimed {log = old} {t = u} now later last id h) =
        claim-IsLogged old now later last id u (History-IsLogged old sat u h)
    History-IsLogged log sat t (withdrew {log = old} {t = u} now later id h) =
        withdraw-IsLogged old now later id u (History-IsLogged old sat u h)

    -- In any history, new asks having new ids, no ask is claimed twice, every ask that was claimed was allowed before by a
    -- resolution, and none that was withdrawn was claimed.
    pub History-claims :
        (log : Log) (sat : Saturation) (t : Table)
        → History limits digest log sat t
        → HasNoRepeats log.claims
          × ((id : Text) → contains id log.claims ≡ true → contains id log.grants ≡ true)
          × ((id : Text) → contains id log.claims ≡ true → contains id log.withdrawals ≡ false)
    History-claims log sat t h =
        let c = History-IsLogged log sat t h in
        (
          c.once,
          λ id k. let (r, there, claim, ok) = c.claimed_row id k in c.granted id r there ok,
          λ id k. elim (Bool-cases (contains id log.withdrawals)) [
            | inr e ↦ e
            | inl e ↦
                let (r, there, claim, ok) = c.claimed_row id k in
                let (s, here, unclaimed, gone) = c.withdrawn_row id e in ground arith
          ],
        )
