-- ===== src/ControlPlane/Bridge/Claims.antt =====
-- What `tool_claim` of control-plane/api_tool.py releases, and for whom.
use dockade.Base.{
  ◌≡◌, refl, ◌∙◌, ◌≢◌, inl, inr, Bool, true, false, ◌&&◌, ◌||◌, Option, none, some, arith,
  if◌then◌else◌, ◌==◌, ==_iff, Bool-cases, list_eq, nat_eq,
}
use dockade.Base.Text.{Text, text}
use dockade.ControlPlane.Asks.{
  Ask, Table, status_eq, claimable, claim_row, expire_tool_asks, claim_tool_ask,
}
use dockade.ControlPlane.Asks.Claims.{claim_tool_ask-exact, expire-HasUniqueIds}
use dockade.ControlPlane.Asks.Lookup.{lookup, HasUniqueIds}
use dockade.ControlPlane.Tools.{null}
use dockade.ControlPlane.Tools.Ruling.{ToolReason, decide_tool}
use dockade.ControlPlane.Bridge.{Setup, BridgeState, note, raised_by, own_ask}
use dockade.ControlPlane.Bridge.Owners.{
  token_ask, lookup_of_find, IsOnlyExpired, IsOwned, own, not_own, own_ask-IsOwned,
}
use dockade.ControlPlane.Bridge.Resume.{
  Readings, is_closed, Unclaimable, ClaimAnswer, unknown_approval, not_releasable, not_claimable,
  released, by_claimed, release, by_owner, tool_claim,
}

-- What the policy says now of the call of an ask.
abbrev pub policy_now : Setup → Readings → BridgeState → Ask → Text × ToolReason
policy_now setup now s ask =
    decide_tool setup.loads setup.dumps s.tools now.policy ask.server ask.tool null none

-- The ask that the caller holds the token of.
abbrev pub Owns : Setup → Readings → Text → Option Text → BridgeState → Ask → Type 0
Owns setup now token client s ask =
    (token_ask setup now.by_token token s ≡ some ask) × (raised_by client ask ≡ true)

abbrev pub OwnsNone : Setup → Readings → Text → Option Text → BridgeState → Type 0
OwnsNone setup now token client s =
    (ask : Ask) → token_ask setup now.by_token token s ≡ some ask → raised_by client ask ≡ false

module _ (setup : Setup) (now : Readings) (token : Text) (client : Option Text)
    (s : BridgeState) where
  abbrev pub live : Table
  live = expire_tool_asks setup.limits now.by_token s.asks

  -- An unclaimed grant within its window at both readings of the claim.
  abbrev pub can_claim : Ask → Bool
  can_claim ask = claimable setup.limits now.expiry ask && claimable setup.limits now.claim ask

  -- The four answers to a claim.
  pub data IsClaim (out : ClaimAnswer × BridgeState) : Type 0 where
    unknown :
        OwnsNone setup now token client s
        → out.0 ≡ unknown_approval
        → IsOnlyExpired setup now.by_token now.by_id s.asks out.1.asks
        → IsClaim out
    blocked :
        (ask : Ask) (why : ToolReason) (told : Unclaimable)
        → Owns setup now token client s ask
        → policy_now setup now s ask ≡ (text "deny", why)
        → out.0 ≡ not_releasable why told
        → out.1.asks ≡ live
        → IsClaim out
    unclaimed :
        (ask : Ask) (told : Unclaimable)
        → Owns setup now token client s ask
        → (policy_now setup now s ask).0 ≢ text "deny"
        → can_claim ask ≡ false
        → out.0 ≡ not_claimable told
        → told.terminal ≡ (told.spent || is_closed told.status)
        → IsClaim out
    runs :
        (ask : Ask)
        → Owns setup now token client s ask
        → (policy_now setup now s ask).0 ≢ text "deny"
        → can_claim ask ≡ true
        → out.0 ≡ released (claim_row now.claim ask)
        → IsClaim out

  by_claimed-none :
      (ask : Ask) (r : BridgeState)
      → (told : Unclaimable) × ((by_claimed setup now ask none r).0 ≡ not_claimable told)
        × (told.terminal ≡ (told.spent || is_closed told.status))
  unfolding by_claimed
  by_claimed-none ask r = (_, refl, refl)

  module _ (unique : HasUniqueIds s.asks) (ask : Ask)
      (mine : Owns setup now token client s ask) where
    pub live-lookup : lookup ask.id live ≡ some ask
    live-lookup =
        lookup_of_find (λ r. r.resume_token == token) live ask
          (expire-HasUniqueIds setup.limits now.by_token s.asks unique) mine.0

    claim_result :
        (claim_tool_ask setup.limits now.expiry now.claim now.reread ask.id live).0
        ≡ (if can_claim ask then some (claim_row now.claim ask) else none)
    claim_result =
        claim_tool_ask-exact setup.limits now.expiry now.claim now.reread ask.id live
          (expire-HasUniqueIds setup.limits now.by_token s.asks unique)
        ∙ rw live-lookup refl

    release-IsClaim :
        (policy_now setup now s ask).0 ≢ text "deny"
        → IsClaim (release setup now ask (record s { asks = live }))
    unfolding release
    release-IsClaim allows = elim (Bool-cases (can_claim ask)) [
      | inl can ↦ runs ask mine allows can (rw (claim_result, can) (unfold by_claimed in refl))
      | inr cannot ↦
          let (told, answer, final) = by_claimed-none ask (record s {
            asks = (claim_tool_ask setup.limits now.expiry now.claim now.reread ask.id live).1;
          }) in
          unclaimed ask told mine allows cannot (rw (claim_result, cannot) answer) final
    ]

    by_owner-IsClaim : IsClaim (by_owner setup now (some ask) (record s { asks = live }))
    unfolding by_owner
    by_owner-IsClaim = elim (Bool-cases ((policy_now setup now s ask).0 == text "deny")) [
      | inl denies ↦ rw denies (
          unfold note in
          blocked ask (policy_now setup now s ask).1 _ mine
            (λ i. (
              (==_iff (policy_now setup now s ask).0 (text "deny")).0 denies i,
              (policy_now setup now s ask).1,
            ))
            refl refl)
      | inr allows ↦ rw allows (
          release-IsClaim
            (λ e. ground (arith, allows, e, ==_iff (policy_now setup now s ask).0 (text "deny"))))
    ]

  -- If the ids of asks are unique, a claim of a token comes to one of four answers. A caller who did
  -- not raise the token's ask gets the unknown answer, the same whatever the ask is, and changes no
  -- ask but by expiry. While policy denies the call nothing is released and the grant is not spent.
  -- Otherwise the call is released, as it was asked for and stamped as claimed, exactly if its ask
  -- is an unclaimed grant within its window; if it is not, the answer is final exactly if it says that
  -- the grant is spent or the ask closed.
  pub tool_claim-IsClaim : HasUniqueIds s.asks → IsClaim (tool_claim setup now token client s)
  unfolding tool_claim
  tool_claim-IsClaim unique =
      by_ask
        (own_ask setup token client (text "claim") (text "tool-resume") now.by_token now.by_id s)
        (own_ask-IsOwned setup token client (text "claim") (text "tool-resume") now.by_token
          now.by_id s)
    where
      by_ask :
          (out : Option Ask × BridgeState)
          → IsOwned setup token client
              (text "claim")
              (text "tool-resume")
              now.by_token
              now.by_id
              s
              out
          → IsClaim (by_owner setup now out.0 out.1)
      by_ask out (own ask found mine e) = rw e (by_owner-IsClaim unique ask (found, mine))
      by_ask out (not_own foreign e expired tools tokens) =
          rw e (unfold by_owner in unknown foreign refl expired)
