-- ===== src/ControlPlane/Egress/Steps.antt =====
-- The workers of control-plane/api_authorize.py and the operators of control-plane/api_approvals.py, in
-- every order: each part between two waits is one step. What every reachable state keeps.
use dockade.Base.{
  ℕ, ◌+◌, ◌≡◌, Bool, true, Option, none, some, List, [], ◌∷◌, if◌then◌else◌, ◌==◌, contains,
  list_eq, nat_eq,
}
use dockade.Base.Dict.{get}
use dockade.Base.Text.{Text}
use dockade.ControlPlane.Holds.{Time, Event, Caps}
use dockade.ControlPlane.Policy.Hosts.{Address, ClientClasses}
use dockade.ControlPlane.Egress.{
  State, AuthorizeRequest, Asked, answered, reserved, ask, record_hold, settle, abandon,
}
use dockade.ControlPlane.Egress.Resolve.{ResolveRequest, resolve}

-- The state, with the workers that hold a slot, each as the id of its card.
pub record World : Type 0 where
  pub state : State
  pub waiting : List Text

unfoldable pub leave : Text → List Text → List Text
leave id [] = []
leave id (w ∷ ws) = let rest = leave id ws in if w == id then ws else w ∷ rest

abbrev pub slot_id : Option Text → List Text → List Text
slot_id none ws = ws
slot_id (some id) ws = id ∷ ws

unfoldable pub enter : Asked → List Text → List Text
enter (answered a) ws = ws
enter (reserved slot) ws = slot_id slot.approval_id ws

pub record Settings : Type 0 where
  pub parse_ip : Text → Option Address
  pub classes : ClientClasses
  pub caps : Caps
  pub lease_seconds : Time

-- A worker that waits on its card settles, fails, or is about to write its row.
pub data Step (g : Settings) (w : World) (v : World) : Type 0 where
  asks :
      (now later : Time) (id : Text) (event : Event) (q : AuthorizeRequest)
      → get w.state.registry.events id ≡ none
      → (let out = ask g.parse_ip g.classes g.caps now later id event q w.state in
          v ≡ record { state = out.1; waiting = enter out.0 w.waiting })
      → Step g w v
  records :
      (disk_ok : Bool) (now : Time) (id : Text) (q : AuthorizeRequest) (joined : Bool)
      → contains id w.waiting ≡ true
      → (let out = record_hold g.parse_ip g.classes disk_ok now id q joined w.state in
          v ≡ record { state = out.1; waiting = if out.0 then w.waiting else leave id w.waiting })
      → Step g w v
  settles :
      (now : Time) (id : Text) (q : AuthorizeRequest)
      → contains id w.waiting ≡ true
      → v ≡ record {
        state = (settle g.parse_ip g.classes now id q w.state).1;
        waiting = leave id w.waiting;
      }
      → Step g w v
  fails :
      (id : Text)
      → contains id w.waiting ≡ true
      → v ≡ record { state = abandon id w.state; waiting = leave id w.waiting }
      → Step g w v
  resolves :
      (now : Time) (actor : Text) (new_lease : ℕ) (id : Text) (req : ResolveRequest)
      → v ≡ record {
        state = (resolve g.parse_ip now g.lease_seconds actor new_lease id req w.state).1;
        waiting = w.waiting;
      }
      → Step g w v

-- Any number of steps.
pub data Run (g : Settings) : World → World → Type 0 where
  done : {w v : World} → w ≡ v → Run g w v
  next : {w m v : World} → Run g w m → Step g m v → Run g w v

-- How many workers wait on a card.
unfoldable pub count : Text → List Text → ℕ
count id [] = 0
count id (w ∷ ws) = (if w == id then 1 else 0) + count id ws
