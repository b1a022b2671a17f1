-- ===== src/ControlPlane/Bridge/Withdrawals.antt =====
-- What `tool_withdraw` of control-plane/api_tool.py drops, and for whom.
use dockade.Base.{
  ◌++◌, ◌∷◌, [], ◌≡◌, refl, sym, subst, ◌∙◌, ◌≢◌, inl, inr, Bool, true, false, ◌&&◌, ◌||◌, Option,
  some, ltb, Bool-cases, list_eq, nat_eq,
}
use dockade.Base.Text.{Text, text}
use dockade.ControlPlane.Asks.{
  Ask, Table, status_eq, is_pending, claimable, expire_tool_asks, get_tool_ask, withdraw_tool_ask,
}
use dockade.ControlPlane.Asks.Claims.{withdraw_tool_ask-exact, expire-HasUniqueIds}
use dockade.ControlPlane.Asks.Lookup.{lookup, HasUniqueIds}
use dockade.ControlPlane.Bridge.{
  Setup, BridgeState, BridgeLine, note, line_on, withdraw, withdrawn_while, own_ask,
}
use dockade.ControlPlane.Bridge.Owners.{IsOnlyExpired, IsOwned, own, not_own, own_ask-IsOwned}
use dockade.ControlPlane.Bridge.Resume.{
  Readings, Unclaimable, WithdrawAnswer, unknown_ask, not_withdrawable, dropped, by_withdrawn,
  withdraw_owned, tool_withdraw,
}
use dockade.ControlPlane.Asks.Withdrawn.{IsWithdrawn, withdraw_own, withdraw_other, withdraw_failed}
use dockade.ControlPlane.Asks.Expiry.{expire_row}
use dockade.ControlPlane.Asks.Claims.{lookup-expire}
use dockade.ControlPlane.Bridge.Claims.{Owns, OwnsNone, live, live-lookup}

-- What a withdrawal may drop.
abbrev pub can_withdraw : Setup → Readings → Ask → Bool
can_withdraw setup now ask =
    is_pending ask && ltb now.expiry ask.deadline
    || claimable setup.limits now.expiry ask && claimable setup.limits now.claim ask

module _ (setup : Setup) (now : Readings) (token : Text) (client : Option Text)
    (s : BridgeState) where
  -- The asks, once those that lapsed are retired at both readings.
  abbrev unlapsed : Table
  unlapsed = expire_tool_asks setup.limits now.expiry (live setup now token client s)

  -- The three answers to a withdrawal.
  pub data IsWithdrawal (out : WithdrawAnswer × BridgeState) : Type 0 where
    not_mine :
        OwnsNone setup now token client s
        → out.0 ≡ unknown_ask
        → IsOnlyExpired setup now.by_token now.by_id s.asks out.1.asks
        → IsWithdrawal out
    stays :
        (ask row : Ask) (told : Unclaimable)
        → Owns setup now token client s ask
        → can_withdraw setup now ask ≡ false
        → out.0 ≡ not_withdrawable told
        → out.1.asks ≡ expire_tool_asks setup.limits now.current unlapsed
        → lookup ask.id out.1.asks ≡ some row
        → told.status ≡ row.status
        → IsWithdrawal out
    drops :
        (ask row : Ask) (line : BridgeLine)
        → Owns setup now token client s ask
        → can_withdraw setup now ask ≡ true
        → out.0 ≡ dropped ask.status
        → lookup ask.id out.1.asks ≡ some row
        → IsWithdrawn now.claim ask row
        → ((other : Text) → other ≢ ask.id → lookup other out.1.asks ≡ lookup other unlapsed)
        → out.1.tools ≡ s.tools
        → out.1.audit ≡ s.audit ++ line ∷ []
        → line.approval_id ≡ some ask.id
        → IsWithdrawal out

  -- What the agent is told of an ask that stays is what the table has.
  by_withdrawn-stays :
      (ask row : Ask) (r : BridgeState)
      → lookup ask.id (expire_tool_asks setup.limits now.current r.asks) ≡ some row
      → (told : Unclaimable) × ((by_withdrawn setup now ask false r).0 ≡ not_withdrawable told)
        × (told.status ≡ row.status)
        × ((by_withdrawn setup now ask false r).1.asks
            ≡ expire_tool_asks setup.limits now.current r.asks)
  unfolding by_withdrawn get_tool_ask
  by_withdrawn-stays ask row r h = (_, refl, rw h refl, refl)

  -- An ask that cannot be dropped stays, with the row that two more expiries leave.
  stays-unlapsed :
      (ask : Ask)
      → Owns setup now token client s ask
      → lookup ask.id (live setup now token client s) ≡ some ask
      → can_withdraw setup now ask ≡ false
      → IsWithdrawal (by_withdrawn setup now ask false (record s { asks = unlapsed }))
  stays-unlapsed ask mine found cannot =
      let row : Ask =
        expire_row setup.limits now.current (expire_row setup.limits now.expiry ask) in
      let still : lookup ask.id (expire_tool_asks setup.limits now.current unlapsed) ≡ some row =
        lookup-expire setup.limits now.current ask.id unlapsed
        ∙ rw (lookup-expire setup.limits now.expiry ask.id (live setup now token client s), found)
            refl in
      let (told, answer, same, asks) =
        by_withdrawn-stays ask row (record s { asks = unlapsed }) still in
      stays ask row told mine cannot answer asks (rw asks still) same

  withdraw_owned-IsWithdrawal :
      HasUniqueIds s.asks
      → (ask : Ask) → Owns setup now token client s ask
      → IsWithdrawal
          (withdraw_owned setup now (some ask) (record s { asks = live setup now token client s }))
  unfolding withdraw_owned
  withdraw_owned-IsWithdrawal unique ask mine = elim (Bool-cases (can_withdraw setup now ask)) [
    | inl can ↦
        let (row, there, row_IsWithdrawn) =
          withdraw_own setup.limits now.expiry now.claim ask.id before ask found can in
        drops ask row line mine can (rw (result, can) (unfold by_withdrawn in refl))
          (rw (result, can) (unfold by_withdrawn note in there)) row_IsWithdrawn
          (rw (result, can)
            (unfold by_withdrawn note in
              withdraw_other setup.limits now.expiry now.claim ask.id before))
          (rw (result, can) (unfold by_withdrawn note in refl))
          (rw (result, can) (unfold by_withdrawn note in refl)) refl
    | inr cannot ↦
        rw (result, cannot)
          (subst (λ t. IsWithdrawal (by_withdrawn setup now ask false (record s { asks = t })))
            (sym
              (withdraw_failed setup.limits now.expiry now.claim ask.id before (result ∙ cannot)))
            (stays-unlapsed ask mine found cannot))
  ]
    where
      before : Table
      before = live setup now token client s

      found : lookup ask.id before ≡ some ask
      found = live-lookup setup now token client s unique ask mine

      result :
          (withdraw_tool_ask setup.limits now.expiry now.claim ask.id before).0
          ≡ can_withdraw setup now ask
      result =
          withdraw_tool_ask-exact setup.limits now.expiry now.claim ask.id before
            (expire-HasUniqueIds setup.limits now.by_token s.asks unique)
          ∙ rw found refl

      line : BridgeLine
      line =
          line_on setup withdraw (text "tool-withdraw") ask.client ask (withdrawn_while ask.status)

  -- If the ids of asks are unique, a withdrawal of a token drops the ask exactly if the caller raised
  -- it and it is pending before its deadline or an unclaimed grant within its window. Its row is then
  -- withdrawn, with the stamp that it had or else that of the moment, and with its other columns, any
  -- other ask is as expiry leaves it, and one audit row names the ask; the agent is told the status
  -- that it had. An ask of the caller's that cannot be dropped changes by expiry alone, and the agent
  -- is told the status that is then in its row. A caller who did not raise the token's ask gets the
  -- unknown answer and changes no ask but by expiry.
  pub tool_withdraw-IsWithdrawal :
      HasUniqueIds s.asks → IsWithdrawal (tool_withdraw setup now token client s)
  unfolding tool_withdraw
  tool_withdraw-IsWithdrawal unique =
      by_ask
        (own_ask setup token client (text "withdrawal") (text "tool-withdraw") now.by_token
          now.by_id s)
        (own_ask-IsOwned setup token client (text "withdrawal") (text "tool-withdraw") now.by_token
          now.by_id s)
    where
      by_ask :
          (out : Option Ask × BridgeState)
          → IsOwned setup token client
              (text "withdrawal")
              (text "tool-withdraw")
              now.by_token
              now.by_id
              s
              out
          → IsWithdrawal (withdraw_owned setup now out.0 out.1)
      by_ask out (own ask found mine e) =
          rw e (withdraw_owned-IsWithdrawal unique ask (found, mine))
      by_ask out (not_own foreign e expired tools tokens) =
          rw e (unfold withdraw_owned in not_mine foreign refl expired)
