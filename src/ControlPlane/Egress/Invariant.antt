-- ===== src/ControlPlane/Egress/Invariant.antt =====
-- What every order of steps of control-plane/api_authorize.py and `resolve` keeps: the registry is sound,
-- the ids of the rows are unique, and a card has a slot for each worker that waits on it.
use dockade.Base.{
  ℕ, ◌+◌, ◌-◌, ◌≡◌, refl, inl, inr, Bool, true, false, Option, none, some, List, [], ◌∷◌, arith,
  if◌then◌else◌, ◌==◌, ==_iff, list_eq, nat_eq,
}
use dockade.Base.Dict.{get, get-put, get-remove, get-none_of_keys}
use dockade.Base.Table.{changes}
use dockade.Base.Text.{Text}
use dockade.ControlPlane.Holds.{
  Time, Event, Caps, Registry, Request, or_zero, refuse, join_card, open_card, drop_card,
  reserve_hold, close_group, release_hold,
}
use dockade.ControlPlane.Holds.Outcomes.{reserve_rule}
use dockade.ControlPlane.Holds.Invariant.{IsConsistent}
use dockade.ControlPlane.Holds.Steps.{IsSound, Step-IsSound, reserve, close, release}
use dockade.ControlPlane.Holds.Orphans.{Approval}
use dockade.ControlPlane.Policy.Hosts.{is_some}
use dockade.ControlPlane.Egress.{
  AuthorizeRequest, Asked, answered, reserved, ask, to_request, record_hold, insert_card, with_rows,
  settle, abandon, write_line, expire_card, expire_approval, awaits,
}
use dockade.ControlPlane.Egress.Rows.{
  HasUniqueIds, KeepsDecided, update-HasUniqueIds, update-KeepsDecided, insert_row-HasUniqueIds,
  insert_row-KeepsDecided,
}
use dockade.ControlPlane.Egress.Resolve.{ResolveRequest, decide_row, resolve}
use dockade.ControlPlane.Egress.Outcomes.{ask-IsAsked, slot_of, resolve_rule, action_of}
use dockade.ControlPlane.Egress.Steps.{
  World, Settings, Step, Run, asks, records, settles, fails, resolves, done, next, enter, slot_id,
  leave, count,
}

count-leave :
    (j id : Text) (ws : List Text) → count j (leave id ws) ≡ count j ws - (if id == j then 1 else 0)
unfolding count leave
count-leave j id [] = ground arith
count-leave j id (w ∷ ws) =
    ground (arith, ==_iff w id, ==_iff w j, ==_iff id j, count-leave j id ws)

enter-slot_of : (a : Asked) (ws : List Text) → enter a ws ≡ slot_id (slot_of a) ws
unfolding enter
enter-slot_of (answered a) ws = refl
enter-slot_of (reserved slot) ws = refl

-- As many slots as workers.
abbrev pub HasSlots : Registry → List Text → Type 0
HasSlots r ws = (j : Text) → or_zero (get r.waiters j) ≡ count j ws

release_hold-HasSlots :
    (id : Text) (r : Registry) (ws : List Text)
    → HasSlots r ws
    → HasSlots (release_hold id r) (leave id ws)
unfolding release_hold drop_card close_group
release_hold-HasSlots id r ws h j = ground (
  arith,
  h j,
  h id,
  count-leave j id ws,
  get-put r.waiters id j (or_zero (get r.waiters id) - 1),
  get-remove r.waiters id j,
  ==_iff id j,
)

reserve_hold-HasSlots :
    (caps : Caps) (now : Time) (id : Text) (event : Event) (q : Request) (r : Registry)
    (ws : List Text)
    → get r.events id ≡ none
    → IsConsistent r
    → HasSlots r ws
    → HasSlots
        (reserve_hold caps now id event q r).1
        (slot_id (reserve_hold caps now id event q r).0.approval_id ws)
reserve_hold-HasSlots caps now id event q r ws fresh c h =
    reserve_rule caps now id event q r (λ out. HasSlots out.1 (slot_id out.0.approval_id ws))
      (λ scope. unfold refuse in h)
      (λ joined e found room j.
        unfold join_card count in
        ground (
          arith,
          h j,
          get-put r.waiters joined j (or_zero (get r.waiters joined) + 1),
          ==_iff joined j,
        ))
      (λ absent room cards j.
        unfold open_card count in
        ground (
          arith,
          h j,
          get-put r.waiters id j 1,
          get-none_of_keys r.events r.waiters id c.waiters_keys fresh,
          ==_iff id j,
        ))

-- What holds of the registry and the waiting workers.
pub record IsHeld (caps : Caps) (r : Registry) (ws : List Text) : Type 0 where
  pub sound : IsSound caps r
  pub slots : HasSlots r ws

release_hold-IsHeld :
    (caps : Caps) (id : Text) (r : Registry) (ws : List Text)
    → IsHeld caps r ws
    → IsHeld caps (release_hold id r) (leave id ws)
release_hold-IsHeld caps id r ws h = record {
  sound = Step-IsSound caps r (release_hold id r) (release id refl) h.sound;
  slots = release_hold-HasSlots id r ws h.slots;
}

close_group-IsHeld :
    (caps : Caps) (id : Text) (r : Registry) (ws : List Text)
    → IsHeld caps r ws
    → IsHeld caps (close_group id r) ws
close_group-IsHeld caps id r ws h = record {
  sound = Step-IsSound caps r (close_group id r) (close id refl) h.sound;
  slots = unfold close_group in h.slots;
}

reserve_hold-IsHeld :
    (caps : Caps) (now : Time) (id : Text) (event : Event) (q : Request) (r : Registry)
    (ws : List Text)
    → get r.events id ≡ none
    → IsHeld caps r ws
    → IsHeld caps
        (reserve_hold caps now id event q r).1
        (slot_id (reserve_hold caps now id event q r).0.approval_id ws)
reserve_hold-IsHeld caps now id event q r ws fresh h = record {
  sound = Step-IsSound caps r _ (reserve now id event q fresh refl) h.sound;
  slots = reserve_hold-HasSlots caps now id event q r ws fresh h.sound.consistent h.slots;
}

pub record IsSoundWorld (caps : Caps) (w : World) : Type 0 where
  pub held : IsHeld caps w.state.registry w.waiting
  pub unique : HasUniqueIds w.state.approvals

-- One step keeps the invariant, and every decided row as it is.
pub record Kept (caps : Caps) (w v : World) : Type 0 where
  pub sound : IsSoundWorld caps v
  pub decided : KeepsDecided w.state.approvals v.state.approvals

module _ (g : Settings) (w : World) (h : IsSoundWorld g.caps w) where
  asks-Kept :
      (now later : Time) (id : Text) (event : Event) (q : AuthorizeRequest)
      → get w.state.registry.events id ≡ none
      → (let out = ask g.parse_ip g.classes g.caps now later id event q w.state in
          Kept g.caps w (record { state = out.1; waiting = enter out.0 w.waiting }))
  asks-Kept now later id event q fresh =
      let out = ask g.parse_ip g.classes g.caps now later id event q w.state in
      let asked = ask-IsAsked g.parse_ip g.classes g.caps now later id event q w.state in
      record {
        sound = record {
          held = elim asked.registry [
            | inl (same, free) ↦ rw (enter-slot_of out.0 w.waiting, same, free) h.held
            | inr (taken, card) ↦
                rw (enter-slot_of out.0 w.waiting, taken, card)
                  (reserve_hold-IsHeld g.caps later id event (to_request q) w.state.registry
                    w.waiting fresh h.held)
          ];
          unique = rw asked.approvals h.unique;
        };
        decided = rw asked.approvals (λ j row found d. found);
      }

  records-Kept :
      (now : Time) (id : Text) (q : AuthorizeRequest) (joined : Bool) (o : Option (List Approval))
      → ((t : List Approval) → o ≡ some t → HasUniqueIds t × KeepsDecided w.state.approvals t)
      → Kept g.caps w (record {
        state = with_rows g.parse_ip g.classes id q joined o w.state;
        waiting = if is_some o then w.waiting else leave id w.waiting;
      })
  unfolding with_rows write_line abandon
  records-Kept now id q joined none rows = record {
    sound = record {
      held = release_hold-IsHeld g.caps id w.state.registry w.waiting h.held;
      unique = h.unique;
    };
    decided = λ j row found d. found;
  }
  records-Kept now id q joined (some t) rows = record {
    sound = record { held = h.held; unique = (rows t refl).0 };
    decided = (rows t refl).1;
  }

  insert_card-rows :
      (disk_ok : Bool) (now : Time) (id : Text) (q : AuthorizeRequest) (joined : Bool)
      (t : List Approval)
      → insert_card g.parse_ip g.classes disk_ok now id q joined w.state.approvals ≡ some t
      → HasUniqueIds t × KeepsDecided w.state.approvals t
  unfolding insert_card
  insert_card-rows disk_ok now id q true t e =
      let same : w.state.approvals ≡ t = cc in rw (← same) (h.unique, λ j row found d. found)
  insert_card-rows disk_ok now id q false t e = (
    insert_row-HasUniqueIds disk_ok _ w.state.approvals t e h.unique,
    insert_row-KeepsDecided disk_ok _ w.state.approvals t e,
  )

  pub settles-Kept :
      (now : Time) (id : Text) (q : AuthorizeRequest)
      → Kept g.caps w (record {
        state = (settle g.parse_ip g.classes now id q w.state).1;
        waiting = leave id w.waiting;
      })
  unfolding settle write_line abandon expire_card
  settles-Kept now id q = record {
    sound = record {
      held =
          release_hold-IsHeld g.caps id _ w.waiting
            (closed (changes (awaits id) w.state.approvals));
      unique =
          update-HasUniqueIds (awaits id) (expire_approval now) (λ a. refl) w.state.approvals
            h.unique;
    };
    decided = update-KeepsDecided id (expire_approval now) (λ a. refl) w.state.approvals;
  }
    where
      closed :
          (b : Bool)
          → IsHeld g.caps
              (if b then close_group id w.state.registry else w.state.registry)
              w.waiting
      closed true = close_group-IsHeld g.caps id w.state.registry w.waiting h.held
      closed false = h.held

  pub fails-Kept :
      (id : Text)
      → Kept g.caps w (record { state = abandon id w.state; waiting = leave id w.waiting })
  unfolding abandon
  fails-Kept id = record {
    sound = record {
      held = release_hold-IsHeld g.caps id w.state.registry w.waiting h.held;
      unique = h.unique;
    };
    decided = λ j row found d. found;
  }

  pub resolves-Kept :
      (now : Time) (actor : Text) (new_lease : ℕ) (id : Text) (req : ResolveRequest)
      → Kept g.caps w (record {
        state = (resolve g.parse_ip now g.lease_seconds actor new_lease id req w.state).1;
        waiting = w.waiting;
      })
  resolves-Kept now actor new_lease id req =
      resolve_rule g.parse_ip now g.lease_seconds actor new_lease id req w.state
        (λ out. Kept g.caps w (record { state = out.1; waiting = w.waiting }))
        (λ why. record { sound = h; decided = λ j row found d. found })
        (λ event row pattern a e r c changed. record {
          sound = record {
            held = close_group-IsHeld g.caps id w.state.registry w.waiting h.held;
            unique =
                update-HasUniqueIds (awaits id) (decide_row now (action_of req) actor pattern)
                  (λ b. refl) w.state.approvals h.unique;
          };
          decided =
              update-KeepsDecided id (decide_row now (action_of req) actor pattern) (λ b. refl)
                w.state.approvals;
        })

pub Step-Kept : (g : Settings) (w v : World) → IsSoundWorld g.caps w → Step g w v → Kept g.caps w v
unfolding record_hold
Step-Kept g w v h (asks now later id event q fresh e) =
    rw e (asks-Kept g w h now later id event q fresh)
Step-Kept g w v h (records disk_ok now id q joined there e) =
    rw e (records-Kept g w h now id q joined _ (insert_card-rows g w h disk_ok now id q joined))
Step-Kept g w v h (settles now id q there e) = rw e (settles-Kept g w h now id q)
Step-Kept g w v h (fails id there e) = rw e (fails-Kept g w h id)
Step-Kept g w v h (resolves now actor new_lease id req e) =
    rw e (resolves-Kept g w h now actor new_lease id req)

-- Every order of steps keeps the invariant and the decided rows.
pub Run-Kept : (g : Settings) {w v : World} → IsSoundWorld g.caps w → Run g w v → Kept g.caps w v
Run-Kept g h (done e) = rw (← e) (record { sound = h; decided = λ j row found d. found })
Run-Kept g h (next {w} {m} {v} before step) =
    let so_far = Run-Kept g h before in
    let last = Step-Kept g m v so_far.sound step in
    record {
      sound = last.sound;
      decided = λ j row found d. last.decided j row (so_far.decided j row found d) d;
    }
