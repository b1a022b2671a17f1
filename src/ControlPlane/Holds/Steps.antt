-- ===== src/ControlPlane/Holds/Steps.antt =====
-- Every history of the registry of control-plane/holds.py: its operations run under `_LOCK`, so the
-- interleavings of the workers are the sequences of whole operations.
use dockade.Base.{◌≡◌, none, list_eq, nat_eq}
use dockade.Base.Dict.{get}
use dockade.Base.Text.{Text}
use dockade.ControlPlane.Holds.{
  Time, Event, Caps, Registry, Request, reserve_hold, close_group, release_hold, empty_registry,
}
use dockade.ControlPlane.Holds.Invariant.{
  IsConsistent, empty_registry-IsConsistent, reserve_hold-IsConsistent, close_group-IsConsistent,
  release_hold-IsConsistent,
}
use dockade.ControlPlane.Holds.Bounds.{
  IsWithinCaps, empty_registry-IsWithinCaps, reserve_hold-IsWithinCaps, close_group-IsWithinCaps,
  release_hold-IsWithinCaps,
}

-- A fresh id is what `uuid.uuid4().hex` gives.
pub data Step (caps : Caps) (r : Registry) (s : Registry) : Type 0 where
  reserve :
      (now : Time) (id : Text) (event : Event) (q : Request)
      → get r.events id ≡ none
      → s ≡ (reserve_hold caps now id event q r).1
      → Step caps r s
  close : (id : Text) → s ≡ close_group id r → Step caps r s
  release : (id : Text) → s ≡ release_hold id r → Step caps r s

pub data Reach (caps : Caps) : Registry → Type 0 where
  start : {r : Registry} → r ≡ empty_registry → Reach caps r
  next : {r s : Registry} → Reach caps r → Step caps r s → Reach caps s

pub record IsSound (caps : Caps) (r : Registry) : Type 0 where
  pub consistent : IsConsistent r
  pub within_caps : IsWithinCaps caps r

pub Step-IsSound : (caps : Caps) (r s : Registry) → Step caps r s → IsSound caps r → IsSound caps s
Step-IsSound caps r s (reserve now id event q fresh e) h = rw e (record {
  consistent = reserve_hold-IsConsistent caps now id event q r fresh h.consistent;
  within_caps = reserve_hold-IsWithinCaps caps now id event q r fresh h.consistent h.within_caps;
})
Step-IsSound caps r s (close id e) h = rw e (record {
  consistent = close_group-IsConsistent id r h.consistent;
  within_caps = close_group-IsWithinCaps caps id r h.within_caps;
})
Step-IsSound caps r s (release id e) h = rw e (record {
  consistent = release_hold-IsConsistent id r h.consistent;
  within_caps = release_hold-IsWithinCaps caps id r h.within_caps;
})

-- Whatever the order of reservations, group closings and releases, from the empty registry on: the
-- dicts of the registry agree, a group names only a standing card of its own client, and none of
-- the four caps is passed (a per-client cap of 0 is off; the per-client waiter cap is stated for
-- a client whose address is not the empty text).
pub Reach-IsSound : (caps : Caps) {r : Registry} → Reach caps r → IsSound caps r
Reach-IsSound caps (start e) = rw e (record {
  consistent = empty_registry-IsConsistent;
  within_caps = empty_registry-IsWithinCaps caps;
})
Reach-IsSound caps (next {r} {s} before step) =
    Step-IsSound caps r s step (Reach-IsSound caps before)
