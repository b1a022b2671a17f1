-- ===== src/ControlPlane/Egress/Agreement.antt =====
-- What the waiters of one card are told, and who decides it: `_answer` of control-plane/api_authorize.py
-- against `resolve` of control-plane/api_approvals.py, whatever runs between.
use dockade.Base.{
  ℕ, ◌≡◌, refl, sym, ◌∙◌, ap, ◌≢◌, inl, inr, true, false, Option, some, arith, if◌then◌else◌, ◌==◌,
  ==_iff, find, Bool-cases, list_eq, nat_eq, option_eq,
}
use dockade.Base.Text.{Text, text}
use dockade.ControlPlane.Holds.{Time}
use dockade.ControlPlane.Holds.Orphans.{Approval}
use dockade.ControlPlane.Policy.Hosts.{Address}
use dockade.ControlPlane.Policy.Rules.{deny}
use dockade.ControlPlane.Egress.{
  State, AuthorizeRequest, no_decision, respond, settle, row_read, final_answer, status_of,
  expire_card, expire_approval, awaits, has_id, write_line, abandon,
}
use dockade.ControlPlane.Egress.Rows.{HasUniqueIds, find-update, find-has_id, changes-awaits}
use dockade.ControlPlane.Egress.Resolve.{
  ResolveRequest, Receipt, resolved, resolve, decide_row, receipt,
}
use dockade.ControlPlane.Egress.Outcomes.{resolve_rule, action_of}
use dockade.ControlPlane.Egress.Invariant.{IsSoundWorld, Run-Kept, settles-Kept, resolves-Kept}
use dockade.ControlPlane.Egress.Steps.{World, Settings, Run, leave}

-- The row after a waiter has looked at it.
abbrev pub seen : Time → Approval → Approval
seen now row = if row.status == text "pending" then expire_approval now row else row

module _ (g : Settings) (now : Time) (id : Text) (q : AuthorizeRequest) (s : State) (row : Approval)
    (unique : HasUniqueIds s.approvals) (found : find (has_id id) s.approvals ≡ some row) where
  pub settle-row :
      find (has_id id) (settle g.parse_ip g.classes now id q s).1.approvals ≡ some (seen now row)
  unfolding settle write_line abandon expire_card
  settle-row = ground (
    arith,
    find-update (awaits id) (expire_approval now) (λ (a : Approval). refl) id s.approvals,
    found,
    find-has_id id s.approvals row found,
    ==_iff row.id id,
  )

  pub settle-answer :
      (settle g.parse_ip g.classes now id q s).0 ≡ final_answer (some (seen now row))
  unfolding settle row_read final_answer status_of
  settle-answer = elim (Bool-cases (row.status == text "pending")) [
    | inl waits ↦ rw (changes-awaits id s.approvals row unique found, waits) refl
    | inr over ↦ ground (
      arith,
      changes-awaits id s.approvals row unique found,
      find-update (awaits id) (expire_approval now) (λ (a : Approval). refl) id s.approvals,
      found,
    )
  ]

-- The row is not pending any more.
seen-decided : (now : Time) (row : Approval) → ((seen now row).status == text "pending") ≡ false
seen-decided now row = elim (Bool-cases (row.status == text "pending")) [
  | inl waits ↦ rw waits refl
  | inr over ↦ rw over over
]

-- The world after a worker has settled, and after an operator's click.
abbrev pub settled : Settings → Time → Text → AuthorizeRequest → World → World
settled g now id q w = record {
  state = (settle g.parse_ip g.classes now id q w.state).1;
  waiting = leave id w.waiting;
}

abbrev pub clicked : Settings → Time → Text → ℕ → Text → ResolveRequest → World → World
clicked g now actor new_lease id req w = record {
  state = (resolve g.parse_ip now g.lease_seconds actor new_lease id req w.state).1;
  waiting = w.waiting;
}

-- All the waiters of a card whose row is written are told the same, decision and reason, whatever
-- steps of other workers and operators come between their answers.
pub settle-agrees :
    (g : Settings) (w v : World) (id : Text) (row : Approval) (now later : Time)
    (q other : AuthorizeRequest)
    → IsSoundWorld g.caps w
    → find (has_id id) w.state.approvals ≡ some row
    → Run g (settled g now id q w) v
    → (settle g.parse_ip g.classes later id other v.state).0
      ≡ (settle g.parse_ip g.classes now id q w.state).0
settle-agrees g w v id row now later q other h found run =
    let kept = Run-Kept g (settles-Kept g w h now id q).sound run in
    let over = seen-decided now row in
    let there =
      kept.decided id (seen now row) (settle-row g now id q w.state row h.unique found) over in
    let same : seen later (seen now row) ≡ seen now row = rw over refl in
    settle-answer g later id other v.state (seen now row) kept.sound.unique there
    ∙ ap (λ (a : Approval). final_answer (some a)) same
    ∙ sym (settle-answer g now id q w.state row h.unique found)

-- A click on a card that is decided is refused and changes nothing.
resolve-decided :
    (parse_ip : Text → Option Address) (now lease_seconds : Time) (actor : Text) (new_lease : ℕ)
    (id : Text) (req : ResolveRequest) (s : State) (row : Approval)
    → HasUniqueIds s.approvals
    → find (has_id id) s.approvals ≡ some row
    → (row.status == text "pending") ≡ false
    → (let out = resolve parse_ip now lease_seconds actor new_lease id req s in
        ((r : Receipt) → out.0 ≢ resolved r) × (out.1 ≡ s))
resolve-decided parse_ip now lease_seconds actor new_lease id req s row unique found over =
    resolve_rule parse_ip now lease_seconds actor new_lease id req s
      (λ out. ((r : Receipt) → out.0 ≢ resolved r) × (out.1 ≡ s)) (λ why. (λ r e. cc, refl))
      (λ event other pattern a e r c changed.
        absurd (cc (changes-awaits id s.approvals row unique found, over, changed)))

-- A hold that runs out is denied: the waiter that wakes on a pending row is told that nobody decided,
-- and from then on, whatever steps follow, a click on that card is refused and changes nothing.
pub settle-timeout :
    (g : Settings) (w v : World) (id : Text) (row : Approval) (now later : Time)
    (q : AuthorizeRequest) (actor : Text) (new_lease : ℕ) (req : ResolveRequest)
    → IsSoundWorld g.caps w
    → find (has_id id) w.state.approvals ≡ some row
    → row.status ≡ text "pending"
    → Run g (settled g now id q w) v
    → ((settle g.parse_ip g.classes now id q w.state).0 ≡ respond deny no_decision)
      × ((r : Receipt)
          → (resolve g.parse_ip later g.lease_seconds actor new_lease id req v.state).0
            ≢ resolved r)
      × ((resolve g.parse_ip later g.lease_seconds actor new_lease id req v.state).1 ≡ v.state)
settle-timeout g w v id row now later q actor new_lease req h found waits run =
    let kept = Run-Kept g (settles-Kept g w h now id q).sound run in
    let over = seen-decided now row in
    let there =
      kept.decided id (seen now row) (settle-row g now id q w.state row h.unique found) over in
    let (unresolved, same) =
      resolve-decided g.parse_ip later g.lease_seconds actor new_lease id req v.state (seen now row)
        kept.sound.unique there over in
    (
      settle-answer g now id q w.state row h.unique found
          ∙ unfold final_answer status_of in ground arith,
      unresolved,
      same,
    )

-- After an operator's decision has gone through, whatever steps follow, every waiter of the card is
-- told that decision, and not that nobody decided.
pub resolve-decides :
    (g : Settings) (w v : World) (id : Text) (now later : Time) (actor : Text) (new_lease : ℕ)
    (req : ResolveRequest) (q : AuthorizeRequest) (r : Receipt)
    → IsSoundWorld g.caps w
    → (resolve g.parse_ip now g.lease_seconds actor new_lease id req w.state).0 ≡ resolved r
    → Run g (clicked g now actor new_lease id req w) v
    → ((settle g.parse_ip g.classes later id q v.state).0.decision ≡ r.outcome)
      × ((settle g.parse_ip g.classes later id q v.state).0.reason ≢ no_decision)
resolve-decides g w v id now later actor new_lease req q r h =
    resolve_rule g.parse_ip now g.lease_seconds actor new_lease id req w.state
      (λ out.
        IsSoundWorld g.caps (record { state = out.1; waiting = w.waiting })
        → out.0 ≡ resolved r
        → Run g (record { state = out.1; waiting = w.waiting }) v
        → ((settle g.parse_ip g.classes later id q v.state).0.decision ≡ r.outcome)
          × ((settle g.parse_ip g.classes later id q v.state).0.reason ≢ no_decision))
      (λ why sound e. absurd (cc))
      (λ event row pattern a e found c changed sound done_so run.
        let kept = Run-Kept g sound run in
        let row' = decide_row now (action_of req) actor pattern row in
        let over : (row'.status == text "pending") ≡ false = ground arith in
        let waits : (row.status == text "pending") ≡ true =
          cc (changes-awaits id w.state.approvals row h.unique found, changed) in
        let there =
          kept.decided id row'
            (ground (
              arith,
              find-update (awaits id) (decide_row now (action_of req) actor pattern)
                  (λ (b : Approval). refl) id w.state.approvals,
              find-has_id id w.state.approvals row found,
              ==_iff row.id id,
            ))
            over in
        let answer = settle-answer g later id q v.state row' kept.sound.unique there in
        unfold final_answer status_of receipt in (ground (arith, answer), ground (arith, answer)))
      (resolves-Kept g w h now actor new_lease id req).sound
