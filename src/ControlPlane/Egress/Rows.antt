-- ===== src/ControlPlane/Egress/Rows.antt =====
-- The rows of `approvals` under the statements of control-plane/api_authorize.py and of `resolve` in
-- control-plane/api_approvals.py.
use dockade.Base.{
  ◌≡◌, refl, Bool, false, Option, none, some, List, [], ◌∷◌, ◌++◌, arith, if◌then◌else◌, ◌==◌,
  ==_iff, find, any, list_eq, nat_eq, inl, inr, Bool-cases,
}
use dockade.Base.Table.{update, changes, changes-any}
use dockade.Base.Text.{Text, text}
use dockade.ControlPlane.Holds.Orphans.{Approval}
use dockade.ControlPlane.Egress.{awaits, has_id, insert_row}

-- The id is the primary key.
abbrev pub HasUniqueIds : List Approval → Type 0
HasUniqueIds [] = Unit
HasUniqueIds (a ∷ t) = (any (has_id a.id) t ≡ false) × HasUniqueIds t

abbrev pub applied : (Approval → Bool) → (Approval → Approval) → Option Approval → Option Approval
applied p f none = none
applied p f (some a) = some (if p a then f a else a)

module _ (p : Approval → Bool) (f : Approval → Approval)
    (keeps : (a : Approval) → (f a).id ≡ a.id) where
  pub find-update :
      (id : Text) (t : List Approval)
      → find (has_id id) (update p f t) ≡ applied p f (find (has_id id) t)
  unfolding find update
  find-update id [] = refl
  find-update id (a ∷ t) = ground (arith, keeps a, find-update id t)

  has_id_kept : (id : Text) (t : List Approval) → any (has_id id) (update p f t) ≡ any (has_id id) t
  unfolding any update
  has_id_kept id [] = refl
  has_id_kept id (a ∷ t) = ground (arith, keeps a, has_id_kept id t)

  pub update-HasUniqueIds : (t : List Approval) → HasUniqueIds t → HasUniqueIds (update p f t)
  unfolding update
  update-HasUniqueIds [] u = tt
  update-HasUniqueIds (a ∷ t) u = (
    ground (arith, keeps a, has_id_kept a.id t, has_id_kept (if p a then f a else a).id t, u.0),
    update-HasUniqueIds t u.1,
  )

-- With no row of this id nothing awaits a decision under it.
any-awaits_none :
    (id : Text) (t : List Approval) → any (has_id id) t ≡ false → any (awaits id) t ≡ false
unfolding any
any-awaits_none id [] h = refl
any-awaits_none id (a ∷ t) h = ground (arith, any-awaits_none id t)

any-awaits :
    (id : Text) (t : List Approval) (row : Approval)
    → HasUniqueIds t
    → find (has_id id) t ≡ some row
    → any (awaits id) t ≡ (row.status == text "pending")
unfolding any find
any-awaits id [] row u h = cc
any-awaits id (a ∷ t) row u h = elim (Bool-cases (a.id == id)) [
  | inl e ↦ ground (arith, ==_iff a.id id, any-awaits_none a.id t u.0)
  | inr e ↦ ground (arith, any-awaits id t row u.1)
]

-- The statement finds its row exactly where the row awaits a decision.
pub changes-awaits :
    (id : Text) (t : List Approval) (row : Approval)
    → HasUniqueIds t
    → find (has_id id) t ≡ some row
    → changes (awaits id) t ≡ (row.status == text "pending")
changes-awaits id t row u h = ground (arith, changes-any (awaits id) t, any-awaits id t row u h)

pub find-has_id :
    (id : Text) (t : List Approval) (row : Approval) → find (has_id id) t ≡ some row → row.id ≡ id
unfolding find
find-has_id id [] row h = absurd (cc)
find-has_id id (a ∷ t) row h = ground (arith, ==_iff a.id id, find-has_id id t row)

find-append :
    (id : Text) (t : List Approval) (row new : Approval)
    → find (has_id id) t ≡ some row
    → find (has_id id) (t ++ new ∷ []) ≡ some row
unfolding find
find-append id [] row new h = absurd (cc)
find-append id (a ∷ t) row new h = ground (arith, find-append id t row new)

any-append :
    (id : Text) (t : List Approval) (new : Approval)
    → any (has_id id) t ≡ false
    → (new.id == id) ≡ false
    → any (has_id id) (t ++ new ∷ []) ≡ false
unfolding any
any-append id [] new h k = ground arith
any-append id (a ∷ t) new h k = ground (arith, any-append id t new)

append-HasUniqueIds :
    (t : List Approval) (new : Approval)
    → any (has_id new.id) t ≡ false
    → HasUniqueIds t
    → HasUniqueIds (t ++ new ∷ [])
unfolding any
append-HasUniqueIds [] new h u = (refl, tt)
append-HasUniqueIds (a ∷ t) new h u = (
  any-append a.id t new u.0 (ground (arith, ==_iff a.id new.id, ==_iff new.id a.id)),
  append-HasUniqueIds t new (ground arith) u.1,
)

-- A decided row is as it was.
abbrev pub KeepsDecided : List Approval → List Approval → Type 0
KeepsDecided t u =
    (id : Text) (row : Approval)
    → find (has_id id) t ≡ some row
    → (row.status == text "pending") ≡ false
    → find (has_id id) u ≡ some row

pub update-KeepsDecided :
    (id : Text) (f : Approval → Approval)
    → ((a : Approval) → (f a).id ≡ a.id)
    → (t : List Approval) → KeepsDecided t (update (awaits id) f t)
update-KeepsDecided id f keeps t j row h decided =
    ground (arith, find-update (awaits id) f keeps j t)

module _ (disk_ok : Bool) (new : Approval) (t u : List Approval) where
  pub insert_row-HasUniqueIds : insert_row disk_ok new t ≡ some u → HasUniqueIds t → HasUniqueIds u
  unfolding insert_row
  insert_row-HasUniqueIds h unique =
      let e : t ++ new ∷ [] ≡ u = ground arith in
      rw (← e) (append-HasUniqueIds t new (ground arith) unique)

  pub insert_row-KeepsDecided : insert_row disk_ok new t ≡ some u → KeepsDecided t u
  unfolding insert_row
  insert_row-KeepsDecided h id row found decided =
      let e : t ++ new ∷ [] ≡ u = ground arith in rw (← e) (find-append id t row new found)
