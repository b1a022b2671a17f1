-- ===== src/ControlPlane/Egress/Answers.antt =====
-- What a request to control-plane/api_authorize.py is answered at once, and what it waits for, by the
-- rows of the policy tables and the room in the registry of holds.
use mathlib.Core.List.{Memᴰ}
use dockade.Base.{
  ◌≡◌, ◌∙◌, refl, ◌≢◌, ◌⊎◌, inl, inr, Bool, true, false, ◌||◌, Option, none, some, [], ◌∷◌, ◌++◌,
  arith, if◌then◌else◌, any, Bool-cases, Option-cases, list_eq, nat_eq,
}
use dockade.Base.Text.{Text, text}
use dockade.ControlPlane.Holds.{Time, Event, Caps, Scope, Registry, HoldSlot, reserve_hold}
use dockade.ControlPlane.Holds.Invariant.{IsConsistent}
use dockade.ControlPlane.Holds.Outcomes.{HasWaiterRoom, HasCardRoom}
use dockade.ControlPlane.Holds.Joins.{IsRefusal, IsJoin, IsOpening, reserve_hold-Outcome}
use dockade.ControlPlane.Holds.Room.{room-unrefused, outcome-IsRefusal, outcome_reserved}
use dockade.ControlPlane.Policy.Hosts.{Address, ClientClasses, normalize_host, match}
use dockade.ControlPlane.Policy.Rules.{
  Lease, Decision, Ruling, allow, deny, hold, is_live_for, ruling,
}
use dockade.ControlPlane.Policy.Rules.Exact.{
  has_rule, by_rules, ruling_in-exact, ruling_in-lease_card, ruling_in-credited,
}
use dockade.ControlPlane.Egress.{
  State, AuditLine, AuthorizeRequest, AuthorizeResponse, Why, Asked, answered, reserved, ask,
  by_decision, by_slot, write_line, to_request, is_unencodable, unencodable_field, by_policy,
  over_cap, respond, class_for,
}

module _ (parse_ip : Text → Option Address) (classes : ClientClasses) (caps : Caps)
    (now later : Time) (id : Text) (event : Event) (q : AuthorizeRequest) (s : State) where
  abbrev pub out : Asked × State
  out = ask parse_ip classes caps now later id event q s

  -- The class of the client, and the host as the tables have hosts.
  abbrev pub cls : Text
  cls = class_for parse_ip classes q

  abbrev pub target : Text
  target = normalize_host q.host

  abbrev pub is_blocked : Bool
  is_blocked = has_rule (text "block") cls (match target) s.policy.rules

  abbrev pub is_allowed : Bool
  is_allowed = has_rule (text "allow") cls (match target) s.policy.rules

  abbrev pub is_leased : Bool
  is_leased = any (is_live_for target cls now) s.policy.leases

  -- An answer, given at once, of which the audit has one row more, crediting `card`.
  pub record IsTold (d : Decision) (card : Option Text) : Type 0 where
    pub answer : AuthorizeResponse
    pub line : AuditLine
    pub told : out.0 ≡ answered answer
    pub decision : answer.decision ≡ d
    pub logged : out.1.audit ≡ s.audit ++ line ∷ []
    pub same_request : line.request ≡ q
    pub same_class : line.client_class ≡ cls
    pub same_decision : line.decision ≡ d
    pub same_reason : line.reason ≡ answer.reason
    pub credited : line.approval_id ≡ card

  -- A card that is credited is that of a lease on this host for this class that has not expired, and
  -- no rule decides the host.
  abbrev pub IsCredit : Option Text → Type 0
  IsCredit card =
      (c : Text)
      → card ≡ some c
      → (is_allowed ≡ false)
        × ((l : Lease) × Memᴰ l s.policy.leases
            × (is_live_for target cls now l ≡ true)
            × (l.approval_id ≡ c))

  -- The four ways that a request can go.
  pub data IsAnswer : Type 0 where
    denied :
        (is_unencodable q ≡ true) ⊎ (is_blocked ≡ true)
        → IsTold deny none
        → out.1.registry ≡ s.registry
        → IsAnswer
    allowed :
        (card : Option Text)
        → is_unencodable q ≡ false
        → is_blocked ≡ false
        → (is_allowed || is_leased) ≡ true
        → IsTold allow card
        → IsCredit card
        → (is_allowed ≡ false → card ≢ none)
        → out.1.registry ≡ s.registry
        → IsAnswer
    over_a_cap :
        (slot : HoldSlot)
        → is_unencodable q ≡ false
        → is_blocked ≡ false
        → (is_allowed || is_leased) ≡ false
        → IsTold deny none
        → IsRefusal later (to_request q) s.registry (slot, out.1.registry)
        → (HasWaiterRoom caps (to_request q) s.registry
            → HasCardRoom caps (to_request q) s.registry
            → ⊥)
        → IsAnswer
    waits :
        (slot : HoldSlot)
        → is_unencodable q ≡ false
        → is_blocked ≡ false
        → (is_allowed || is_leased) ≡ false
        → out.0 ≡ reserved slot
        → out.1.audit ≡ s.audit
        → IsJoin (to_request q) s.registry (slot, out.1.registry)
          ⊎ IsOpening caps later id (to_request q) (slot, out.1.registry)
        → IsAnswer

  abbrev reservation : HoldSlot × Registry
  reservation = reserve_hold caps later id event (to_request q) s.registry

  abbrev ruled : Ruling
  ruled = ruling s.policy now q.host cls

  ruled-exact : ruled.decision ≡ (
      if is_blocked then deny else if is_allowed then allow else if is_leased then allow else hold)
  unfolding ruling
  ruled-exact = ruling_in-exact s.policy now target cls

  -- A card is credited where a lease decides alone.
  ruled-IsCredit : IsCredit ruled.lease_card
  unfolding ruling
  ruled-IsCredit c h =
      let (allows, no_rule, (l, there, live, same, longest)) =
        ruling_in-lease_card s.policy now target cls c h in
      (ground (arith, no_rule), (l, there, live, same))

  abbrev row_of : Decision → Why → Option Text → AuditLine
  row_of d why card = record {
    decision = d;
    request = q;
    client_class = cls;
    approval_id = card;
    actor = none;
    reason = why;
  }

  tell :
      (d : Decision) (why : Why) (card : Option Text)
      → out.0 ≡ answered (respond d why)
      → out.1.audit ≡ s.audit ++ row_of d why card ∷ []
      → IsTold d card
  tell d why card told logged = record {
    answer = respond d why;
    line = row_of d why card;
    told = told;
    decision = refl;
    logged = logged;
    same_request = refl;
    same_class = refl;
    same_decision = refl;
    same_reason = refl;
    credited = refl;
  }

  ruled_credited :
      by_rules cls (match target) s.policy.rules ≡ none → is_leased ≡ true → ruled.lease_card ≢ none
  unfolding ruling
  ruled_credited = ruling_in-credited s.policy now target cls

  by_slot-IsAnswer :
      IsConsistent s.registry
      → is_unencodable q ≡ false
      → is_blocked ≡ false
      → (is_allowed || is_leased) ≡ false
      → (o : Option Scope) → reservation.0.refused ≡ o
      → out ≡ by_slot q cls o reservation.0 (record s { registry = reservation.1 })
      → IsAnswer
  by_slot-IsAnswer c clean free unknown (some scope) h e =
      over_a_cap reservation.0 clean free unknown
        (tell deny (over_cap scope) none (rw e (unfold by_slot in refl))
          (rw e (unfold by_slot write_line in refl)))
        (rw e (
          unfold by_slot write_line in
          outcome-IsRefusal caps later id (to_request q) s.registry reservation scope
            (reserve_hold-Outcome caps later id event (to_request q) s.registry c) h))
        (λ waiters cards.
          cc (room-unrefused caps later id event (to_request q) s.registry waiters cards, h))
  by_slot-IsAnswer c clean free unknown none h e =
      waits reservation.0 clean free unknown (rw e (unfold by_slot in refl))
        (rw e (unfold by_slot in refl))
        (rw e (
          unfold by_slot in
          outcome_reserved caps later id (to_request q) s.registry reservation
            (reserve_hold-Outcome caps later id event (to_request q) s.registry c) h))

  -- What is told at once of a decision that is not a hold.
  at_once-IsTold :
      (d : Decision) (why : Why) (card : Option Text)
      → d ≢ hold
      → out ≡ by_decision caps later id event q cls d why card s
      → IsTold d card × (out.1.registry ≡ s.registry)
  at_once-IsTold hold why card now_told e = absurd (now_told refl)
  at_once-IsTold allow why card now_told e = (
    tell allow why card (rw e (unfold by_decision in refl))
        (rw e (unfold by_decision write_line in refl)),
    rw e (unfold by_decision write_line in refl),
  )
  at_once-IsTold deny why card now_told e = (
    tell deny why card (rw e (unfold by_decision in refl))
        (rw e (unfold by_decision write_line in refl)),
    rw e (unfold by_decision write_line in refl),
  )

  -- A card is credited with an allow alone.
  deny-uncredited : ruled.decision ≡ deny → ruled.lease_card ≡ none
  unfolding ruling
  deny-uncredited h = elim (Option-cases ruled.lease_card) [
    | inl e ↦ e
    | inr (c, e) ↦
        let allows = (ruling_in-lease_card s.policy now target cls c e).0 in absurd (cc (allows, h))
  ]

  by_ruling-IsAnswer :
      IsConsistent s.registry
      → is_unencodable q ≡ false
      → out
        ≡ by_decision caps later id event q cls ruled.decision
            (by_policy ruled.reason)
            ruled.lease_card
            s
      → IsAnswer
  by_ruling-IsAnswer c clean e = elim (Bool-cases is_blocked) [
    | inl blocks ↦
        let denies : ruled.decision ≡ deny = ground (arith, ruled-exact, blocks) in
        let (told, registry) =
          at_once-IsTold deny (by_policy ruled.reason) none (λ h. cc (h))
            (rw (denies, deny-uncredited denies) at e) in
        denied (inr blocks) told registry
    | inr free ↦ elim (Bool-cases (is_allowed || is_leased)) [
      | inl may ↦
          let allows : ruled.decision ≡ allow = ground (arith, ruled-exact, free, may) in
          let (told, registry) =
            at_once-IsTold allow (by_policy ruled.reason) ruled.lease_card (λ h. cc (h))
              (rw allows at e) in
          allowed ruled.lease_card clean free may told ruled-IsCredit
            (λ no_rule.
              ruled_credited (ground (arith, free, no_rule)) (ground (arith, may, no_rule)))
            registry
      | inr unknown ↦
          let holds : ruled.decision ≡ hold = ground (arith, ruled-exact, free, unknown) in
          by_slot-IsAnswer c clean free unknown _ refl (rw holds at e ∙ unfold by_decision in refl)
    ]
  ]

  -- On a consistent registry a request goes one of four ways. It is denied at once if it holds a lone
  -- surrogate or a rule of its client's class blocks its host. Otherwise it is allowed at once if a
  -- rule of the class allows the host or a lease of host and class has not expired; exactly where no
  -- rule allows it a card is credited, which is that of such a lease. Otherwise it is denied if the registry refuses a slot, which takes a full cap, and else it waits, on the card
  -- that its own key has or on a new one with a full window. An answer given at once has one audit
  -- row, of its decision and reason; a wait has none yet.
  pub ask-IsAnswer : IsConsistent s.registry → IsAnswer
  unfolding ask
  ask-IsAnswer c = elim (Bool-cases (is_unencodable q)) [
    | inl bad ↦
        let (told, registry) =
          at_once-IsTold deny unencodable_field none (λ h. cc (h)) (rw bad refl) in
        denied (inl bad) told registry
    | inr clean ↦ by_ruling-IsAnswer c clean (rw clean refl)
  ]
