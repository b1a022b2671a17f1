-- ===== src/ControlPlane/Bridge/Resume.antt =====
-- `tool_claim` and `tool_withdraw` of control-plane/api_tool.py: the agent comes back for an ask.
use dockade.Base.{
  Bool, true, false, ◌&&◌, ◌||◌, not, Option, none, some, if◌then◌else◌, ◌==◌, list_eq, nat_eq,
}
use dockade.Base.Text.{Text, text}
use dockade.ControlPlane.Holds.{Time}
use dockade.ControlPlane.Asks.{
  Ask, Status, allowed, denied, expired, withdrawn, status_eq, is_none, get_tool_ask,
  claim_tool_ask, withdraw_tool_ask,
}
use dockade.ControlPlane.Asks.Ended.{grant_lapsed}
use dockade.ControlPlane.Tools.{null}
use dockade.ControlPlane.Tools.Ruling.{ToolReason, decide_tool}
use dockade.ControlPlane.Bridge.{
  Setup, BridgeState, allow, deny, withdraw, note, line_on, own_ask, not_released,
  claimed_for_execution, withdrawn_while,
}

-- The readings of the clock, in the order in which a handler makes them.
pub record Readings : Type 0 where
  pub by_token : Time
  pub by_id : Time
  pub policy : Time
  pub expiry : Time
  pub claim : Time
  pub reread : Time
  pub current : Time

abbrev pub is_closed : Status → Bool
is_closed denied = true
is_closed expired = true
is_closed withdrawn = true
is_closed _ = false

-- An approval that was claimed: its call may have run.
abbrev pub is_spent : Ask → Bool
is_spent ask = ask.status == allowed && not (is_none ask.claimed_at)

pub record Unclaimable : Type 0 where
  pub status : Status
  pub lapsed : Bool
  pub spent : Bool
  pub terminal : Bool

-- What the agent is told.
pub data ClaimAnswer : Type 0 where
  unknown_approval : ClaimAnswer
  not_releasable : ToolReason → Unclaimable → ClaimAnswer
  not_claimable : Unclaimable → ClaimAnswer
  released : Ask → ClaimAnswer

abbrev pub or_ask : Option Ask → Ask → Ask
or_ask none ask = ask
or_ask (some current) ask = current

module _ (setup : Setup) (now : Readings) where
  -- After the claim of `ask`.
  unfoldable pub by_claimed : Ask → Option Ask → BridgeState → ClaimAnswer × BridgeState
  by_claimed ask (some claimed) s = (
    released claimed,
    note (line_on setup allow (text "tool-resume") claimed.client claimed claimed_for_execution) s,
  )
  by_claimed ask none s =
      let (found, t) = get_tool_ask setup.limits now.current ask.id s.asks in
      let current = or_ask found ask in
      (
        not_claimable (record {
          status = current.status;
          lapsed = grant_lapsed ask.id t;
          spent = is_spent current;
          terminal = is_spent current || is_closed current.status;
        }),
        record s { asks = t },
      )

  unfoldable pub release : Ask → BridgeState → ClaimAnswer × BridgeState
  release ask s =
      let (claimed, t) =
        claim_tool_ask setup.limits now.expiry now.claim now.reread ask.id s.asks in
      by_claimed ask claimed (record s { asks = t })

  -- The policy is read again before the claim.
  unfoldable pub by_owner : Option Ask → BridgeState → ClaimAnswer × BridgeState
  by_owner none s = (unknown_approval, s)
  by_owner (some ask) s =
      let (decision, why) =
        decide_tool setup.loads setup.dumps s.tools now.policy ask.server ask.tool null none in
      if decision == text "deny"
      then (
        not_releasable why (record {
          status = ask.status;
          lapsed = grant_lapsed ask.id s.asks;
          spent = false;
          terminal = true;
        }),
        note (line_on setup deny (text "tool-resume") ask.client ask (not_released why)) s,
      )
      else release ask s

  unfoldable pub tool_claim : Text → Option Text → BridgeState → ClaimAnswer × BridgeState
  tool_claim token client s =
      let (owned, s') =
        own_ask setup token client (text "claim") (text "tool-resume") now.by_token now.by_id s in
      by_owner owned s'

pub data WithdrawAnswer : Type 0 where
  unknown_ask : WithdrawAnswer
  not_withdrawable : Unclaimable → WithdrawAnswer
  dropped : Status → WithdrawAnswer

module _ (setup : Setup) (now : Readings) where
  unfoldable pub by_withdrawn : Ask → Bool → BridgeState → WithdrawAnswer × BridgeState
  by_withdrawn ask true s = (
    dropped ask.status,
    note (line_on setup withdraw (text "tool-withdraw") ask.client ask (withdrawn_while ask.status))
        s,
  )
  by_withdrawn ask false s =
      let (found, t) = get_tool_ask setup.limits now.current ask.id s.asks in
      let current = or_ask found ask in
      (
        not_withdrawable (record {
          status = current.status;
          lapsed = grant_lapsed ask.id t;
          spent = is_spent current;
          terminal = true;
        }),
        record s { asks = t },
      )

  unfoldable pub withdraw_owned : Option Ask → BridgeState → WithdrawAnswer × BridgeState
  withdraw_owned none s = (unknown_ask, s)
  withdraw_owned (some ask) s =
      let (done, t) = withdraw_tool_ask setup.limits now.expiry now.claim ask.id s.asks in
      by_withdrawn ask done (record s { asks = t })

  unfoldable pub tool_withdraw : Text → Option Text → BridgeState → WithdrawAnswer × BridgeState
  tool_withdraw token client s =
      let (owned, s') =
        own_ask setup token client (text "withdrawal") (text "tool-withdraw") now.by_token now.by_id
          s in
      withdraw_owned owned s'
