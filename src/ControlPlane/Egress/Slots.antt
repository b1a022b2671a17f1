-- ===== src/ControlPlane/Egress/Slots.antt =====
-- The slots of control-plane/api_authorize.py: each is given back on every way out of `_answer`.
use dockade.Base.{
  ◌≡◌, refl, sym, inl, inr, none, [], ◌∷◌, arith, ==_iff, list_eq, nat_eq, Eq, Option-cases,
}
use dockade.Base.Dict.{Dict, get, keys, get-none_of_keys}
use dockade.Base.Text.{Text}
use dockade.ControlPlane.Holds.{GroupKey, Registry, group_key_eq, empty_registry, or_zero}
use dockade.ControlPlane.Holds.Invariant.{IsConsistent}
use dockade.ControlPlane.Holds.Steps.{Reach-IsSound, start}
use dockade.ControlPlane.Egress.Rows.{HasUniqueIds}
use dockade.ControlPlane.Egress.Invariant.{IsSoundWorld, Run-Kept}
use dockade.ControlPlane.Egress.Steps.{World, Settings, Run, count}

-- Where a process starts: no hold is registered and no worker waits.
pub record IsStart (w : World) : Type 0 where
  pub registry : w.state.registry ≡ empty_registry
  pub waiting : w.waiting ≡ []
  pub unique : HasUniqueIds w.state.approvals

pub start-IsSoundWorld : (g : Settings) (w : World) → IsStart w → IsSoundWorld g.caps w
unfolding get count
start-IsSoundWorld g w h = record {
  held =
      rw (h.registry, h.waiting)
        (record { sound = Reach-IsSound g.caps (start refl); slots = λ j. refl });
  unique = h.unique;
}

absent-nil :
    {K : Type 0} {V : Type 0} ⦃e : Eq K⦄ (d : Dict K V) → ((k : K) → get d k ≡ none) → d ≡ []
unfolding get
absent-nil [] h = refl
absent-nil ((j, v) ∷ d) h = absurd (ground (arith, h j, ==_iff j j))

nil_of_keys :
    {V : Type 0} {W : Type 0} (d : Dict Text V) (f : Dict Text W)
    → keys d ≡ keys f
    → d ≡ []
    → f ≡ []
nil_of_keys d [] h e = refl
nil_of_keys [] (x ∷ f) h e = cc
nil_of_keys (y ∷ d) (x ∷ f) h e = absurd (cc)

-- No card, no waiter, no group and no deadline.
pub record IsIdle (r : Registry) : Type 0 where
  pub events : r.events ≡ []
  pub clients : r.clients ≡ []
  pub waiters : r.waiters ≡ []
  pub groups : r.groups ≡ []
  pub deadlines : r.deadlines ≡ []

no_group :
    (r : Registry) → IsConsistent r → r.events ≡ [] → (key : GroupKey) → get r.groups key ≡ none
unfolding get
no_group r c e key = elim (Option-cases (get r.groups key)) [
  | inl absent ↦ absent
  | inr (id, there) ↦ absurd (c.live key id there (rw e refl))
]

no_event :
    (r : Registry)
    → IsConsistent r
    → (id : Text) → or_zero (get r.waiters id) ≡ 0
    → get r.events id ≡ none
no_event r c id h = elim (Option-cases (get r.waiters id)) [
  | inl absent ↦ get-none_of_keys r.waiters r.events id (sym c.waiters_keys) absent
  | inr (n, there) ↦ absurd (ground (arith, c.waiting id n there))
]

-- No slot leaks, whether workers are answered, refused, timed out or stopped by a failed write: from
-- the start of the process on, when no worker waits any more the registry holds nothing.
pub Run-IsIdle :
    (g : Settings) (w v : World) → IsStart w → Run g w v → v.waiting ≡ [] → IsIdle v.state.registry
unfolding count
Run-IsIdle g w v begin run over =
    let held = (Run-Kept g (start-IsSoundWorld g w begin) run).sound.held in
    let c = held.sound.consistent in
    let r = v.state.registry in
    let events : r.events ≡ [] =
      absent-nil r.events (λ id. no_event r c id (rw (held.slots id, over) refl)) in
    record {
      events = events;
      clients = nil_of_keys r.events r.clients c.clients_keys events;
      waiters = nil_of_keys r.events r.waiters c.waiters_keys events;
      groups = absent-nil r.groups (no_group r c events);
      deadlines = nil_of_keys r.events r.deadlines c.deadlines_keys events;
    }
