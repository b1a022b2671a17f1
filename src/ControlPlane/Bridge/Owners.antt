-- ===== src/ControlPlane/Bridge/Owners.antt =====
-- Whose ask a token names: `_own_ask` of control-plane/api_tool.py.
use dockade.Base.{
  ◌≡◌, refl, ◌⊎◌, inl, inr, Bool, true, false, Option, none, some, [], ◌∷◌, arith, ◌==◌, ==_iff,
  find, Bool-cases, list_eq, nat_eq,
}
use dockade.Base.Text.{Text}
use dockade.ControlPlane.Holds.{Time}
use dockade.ControlPlane.Asks.{Ask, Table, expire_tool_asks, ask_by_token, get_tool_ask}
use dockade.ControlPlane.Asks.Lookup.{lookup, HasUniqueIds}
use dockade.ControlPlane.Bridge.{
  Setup, BridgeState, note, raised_by, refuse_unknown, by_token, own_ask,
}

-- The ask of a token, once lapsed asks are retired.
abbrev pub token_ask : Setup → Time → Text → BridgeState → Option Ask
token_ask setup now token s =
    find (λ r. r.resume_token == token) (expire_tool_asks setup.limits now s.asks)

-- The row that a search finds is the row of its id.
pub lookup_of_find :
    (p : Ask → Bool) (t : Table) (r : Ask)
    → HasUniqueIds t
    → find p t ≡ some r
    → lookup r.id t ≡ some r
unfolding find
lookup_of_find p [] r u h = absurd (cc)
lookup_of_find p (x ∷ t) r u h = elim (Bool-cases (p x)) [
  | inl hit ↦ ground (arith, ==_iff x.id x.id)
  | inr miss ↦
      let deep : lookup r.id t ≡ some r = lookup_of_find p t r u.1 (ground arith) in
      ground (arith, deep, u.0, ==_iff x.id r.id)
]

-- The asks changed only by an expiry or two.
abbrev pub IsOnlyExpired : Setup → Time → Time → Table → Table → Type 0
IsOnlyExpired setup now later t u =
    (u ≡ expire_tool_asks setup.limits now t)
    ⊎ (u ≡ expire_tool_asks setup.limits later (expire_tool_asks setup.limits now t))

module _ (setup : Setup) (token : Text) (client : Option Text) (verb stage : Text)
    (now later : Time) (s : BridgeState) where
  -- The caller's own ask, or none and nothing but expiry and a line.
  pub data IsOwned (out : Option Ask × BridgeState) : Type 0 where
    own :
        (ask : Ask)
        → token_ask setup now token s ≡ some ask
        → raised_by client ask ≡ true
        → out ≡ (some ask, record s { asks = expire_tool_asks setup.limits now s.asks })
        → IsOwned out
    not_own :
        ((ask : Ask) → token_ask setup now token s ≡ some ask → raised_by client ask ≡ false)
        → out.0 ≡ none
        → IsOnlyExpired setup now later s.asks out.1.asks
        → out.1.tools ≡ s.tools
        → out.1.call_tokens ≡ s.call_tokens
        → IsOwned out

  refuse_unknown-kept :
      (o : Option Ask) (r : BridgeState)
      → ((refuse_unknown setup token client verb stage o r).asks ≡ r.asks)
        × ((refuse_unknown setup token client verb stage o r).tools ≡ r.tools)
        × ((refuse_unknown setup token client verb stage o r).call_tokens ≡ r.call_tokens)
  unfolding refuse_unknown note
  refuse_unknown-kept none r = (refl, refl, refl)
  refuse_unknown-kept (some ask) r = (refl, refl, refl)

  by_token-IsOwned :
      (o : Option Ask)
      → token_ask setup now token s ≡ o
      → IsOwned (
          by_token setup token client verb stage later o
            (record s { asks = expire_tool_asks setup.limits now s.asks }))
  unfolding by_token
  by_token-IsOwned (some ask) e = elim (Bool-cases (raised_by client ask)) [
    | inl mine ↦ rw mine (own ask e mine refl)
    | inr foreign ↦
        rw foreign
          (unfold note in not_own (λ other h. ground (arith, e, h)) refl (inl refl) refl refl)
  ]
  by_token-IsOwned none e =
      unfold get_tool_ask in
      (let expired =
          expire_tool_asks setup.limits later (expire_tool_asks setup.limits now s.asks) in
        let kept = refuse_unknown-kept (lookup token expired) (record s { asks = expired }) in
        not_own (λ other h. absurd (cc)) refl (inr kept.0) kept.1 kept.2)

  pub own_ask-IsOwned : IsOwned (own_ask setup token client verb stage now later s)
  unfolding own_ask ask_by_token
  own_ask-IsOwned = by_token-IsOwned (token_ask setup now token s) refl
