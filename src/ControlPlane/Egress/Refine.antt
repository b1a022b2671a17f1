-- ===== src/ControlPlane/Egress/Refine.antt =====
-- What a card promises, and that the rows of `approvals` under control-plane/api_authorize.py and
-- `resolve` keep it: a card is raised once and decided once.
use dockade.Base.{
  ◌≡◌, refl, inl, inr, Bool, true, false, ◌||◌, not, Option, none, some, List, [], ◌∷◌, ◌++◌, arith,
  if◌then◌else◌, ◌==◌, find, any, Bool-cases, list_eq, nat_eq,
}
use dockade.Base.Table.{update}
use dockade.Base.Text.{Text, text}
use dockade.ControlPlane.Holds.{Time}
use dockade.ControlPlane.Holds.Orphans.{Approval}
use dockade.ControlPlane.Egress.{
  State, AuthorizeRequest, AuthorizeResponse, record_hold, insert_card, insert_row, with_rows,
  settle, final_answer, expire_card, expire_approval, awaits, has_id, write_line, abandon, new_row,
}
use dockade.ControlPlane.Egress.Rows.{HasUniqueIds, find-update}
use dockade.ControlPlane.Egress.Resolve.{decide_row}
use dockade.ControlPlane.Egress.Outcomes.{ask-IsAsked, resolve_rule, action_of}
use dockade.ControlPlane.Egress.Agreement.{settle-answer, settle-row}
use dockade.ControlPlane.Egress.Steps.{
  World, Settings, Step, asks, records, settles, fails, resolves,
}

-- The promise: a card is absent, then undecided, then decided with one answer.
pub data Card : Type 0 where
  absent undecided : Card
  decided : AuthorizeResponse → Card

pub data CardStep (c : Card) (d : Card) : Type 0 where
  same : c ≡ d → CardStep c d
  raise : c ≡ absent → d ≡ undecided → CardStep c d
  decide : (a : AuthorizeResponse) → c ≡ undecided → d ≡ decided a → CardStep c d

-- The card that a row shows.
unfoldable pub card_of_row : Option Approval → Card
card_of_row none = absent
card_of_row (some row) =
    if row.status == text "pending" then undecided else decided (final_answer (some row))

abbrev pub card_of : Text → World → Card
card_of id w = card_of_row (find (has_id id) w.state.approvals)

update-CardStep :
    (id j : Text) (f : Approval → Approval)
    → ((a : Approval) → (f a).id ≡ a.id)
    → ((a : Approval) → ((f a).status == text "pending") ≡ false)
    → (t : List Approval)
    → CardStep
        (card_of_row (find (has_id j) t))
        (card_of_row (find (has_id j) (update (awaits id) f t)))
update-CardStep id j f keeps decides t = by_row (find (has_id j) t) refl
  where
    by_row :
        (o : Option Approval)
        → find (has_id j) t ≡ o
        → CardStep (card_of_row o) (card_of_row (find (has_id j) (update (awaits id) f t)))
    by_row none h = rw (find-update (awaits id) f keeps j t, h) (same refl)
    by_row (some row) h = elim (Bool-cases (awaits id row)) [
      | inl hit ↦
          rw (find-update (awaits id) f keeps j t, h, hit)
            (decide (final_answer (some (f row))) (unfold card_of_row in ground arith)
              (unfold card_of_row in rw (decides row) refl))
      | inr miss ↦ rw (find-update (awaits id) f keeps j t, h, miss) (same refl)
    ]

find_append :
    (j : Text) (t : List Approval) (new : Approval)
    → find (has_id j) (t ++ new ∷ []) ≡ (elim (find (has_id j) t) [
      | none ↦ if new.id == j then some new else none
      | some a ↦ some a
    ])
unfolding find
find_append j [] new = refl
find_append j (a ∷ t) new = ground (arith, find_append j t new)

append-CardStep :
    (j : Text) (t : List Approval) (new : Approval)
    → (new.status == text "pending") ≡ true
    → CardStep (card_of_row (find (has_id j) t)) (card_of_row (find (has_id j) (t ++ new ∷ [])))
append-CardStep j t new waits = by_row (find (has_id j) t) refl
  where
    by_row :
        (o : Option Approval)
        → find (has_id j) t ≡ o
        → CardStep (card_of_row o) (card_of_row (find (has_id j) (t ++ new ∷ [])))
    by_row (some row) h = rw (find_append j t new, h) (same refl)
    by_row none h = elim (Bool-cases (new.id == j)) [
      | inl mine ↦
          rw (find_append j t new, h, mine)
            (raise (unfold card_of_row in refl) (unfold card_of_row in rw waits refl))
      | inr other ↦ rw (find_append j t new, h, other) (same refl)
    ]

record_hold-CardStep :
    (g : Settings) (disk_ok : Bool) (now : Time) (id j : Text) (q : AuthorizeRequest)
    (joined : Bool) (s : State)
    → CardStep (card_of_row (find (has_id j) s.approvals)) (
        card_of_row (
          find (has_id j) (record_hold g.parse_ip g.classes disk_ok now id q joined s).1.approvals))
unfolding record_hold insert_card
record_hold-CardStep g disk_ok now id j q true s = unfold with_rows write_line in same refl
record_hold-CardStep g disk_ok now id j q false s =
    by_test (not disk_ok || any (has_id id) s.approvals) refl
  where
    by_test :
        (b : Bool)
        → (not disk_ok || any (has_id id) s.approvals) ≡ b
        → CardStep (card_of_row (find (has_id j) s.approvals)) (
            card_of_row (
              find
                (has_id j)
                (with_rows g.parse_ip g.classes id q false
                  (insert_row disk_ok (new_row g.parse_ip g.classes now id q) s.approvals)
                  s).approvals))
    by_test true h = unfold insert_row in rw h (unfold with_rows abandon in same refl)
    by_test false h =
        unfold insert_row in
        rw h (unfold with_rows write_line in append-CardStep j s.approvals _ refl)

-- Every step of a worker or an operator is, on each card, a step of the promise: it leaves the card
-- as it is, raises one that was absent, or decides one that was undecided. A decided card keeps its
-- answer.
pub Step-CardStep :
    (g : Settings) (w v : World) (j : Text) → Step g w v → CardStep (card_of j w) (card_of j v)
Step-CardStep g w v j (asks now later id event q fresh e) =
    rw (e, (ask-IsAsked g.parse_ip g.classes g.caps now later id event q w.state).approvals)
      (same refl)
Step-CardStep g w v j (records disk_ok now id q joined there e) =
    rw e (record_hold-CardStep g disk_ok now id j q joined w.state)
Step-CardStep g w v j (settles now id q there e) = rw e (
    unfold settle write_line abandon expire_card in
    update-CardStep id j (expire_approval now) (λ a. refl) (λ a. refl) w.state.approvals)
Step-CardStep g w v j (fails id there e) = rw e (unfold abandon in same refl)
Step-CardStep g w v j (resolves now actor new_lease id req e) = rw e (
    resolve_rule g.parse_ip now g.lease_seconds actor new_lease id req w.state
      (λ out.
        CardStep (card_of_row (find (has_id j) w.state.approvals))
          (card_of_row (find (has_id j) out.1.approvals)))
      (λ why. same refl)
      (λ event row pattern a r c checks changed.
        update-CardStep id j (decide_row now (action_of req) actor pattern) (λ b. refl)
          (λ b. ground arith) w.state.approvals))

-- A waiter that settles on a card with a row is told the answer that the card is decided with.
pub settle-card :
    (g : Settings) (w : World) (id : Text) (row : Approval) (now : Time) (q : AuthorizeRequest)
    → HasUniqueIds w.state.approvals
    → find (has_id id) w.state.approvals ≡ some row
    → (let out = settle g.parse_ip g.classes now id q w.state in
        card_of_row (find (has_id id) out.1.approvals) ≡ decided out.0)
settle-card g w id row now q unique found =
    rw
      (
        settle-row g now id q w.state row unique found,
        settle-answer g now id q w.state row unique found,
      )
      (unfold card_of_row in
        elim (Bool-cases (row.status == text "pending")) [
          | inl waits ↦ rw waits refl
          | inr over ↦ rw (over, over) refl
        ])
