-- ===== src/ControlPlane/Holds/Orphans.antt =====
-- `_expire_orphaned_holds` of control-plane/holds.py: the cards that a previous process left pending.
use dockade.Base.{
  ℕ, ◌≡◌, refl, Bool, false, Option, some, List, [], ◌∷◌, arith, ◌==◌, any, filter, length, list_eq,
  nat_eq,
}
use dockade.Base.Table.{update}
use dockade.Base.Text.{Text, text}
use dockade.ControlPlane.Holds.{Time}

-- A row of `approvals`.
pub record Approval : Type 0 where
  pub id : Text
  pub ts : Time
  pub host : Text
  pub port : Option ℕ
  pub proto : Option Text
  pub client : Option Text
  pub client_class : Option Text
  pub method : Option Text
  pub url : Option Text
  pub status : Text
  pub resolved_at : Option Time
  pub resolved_by : Option Text
  pub mode : Option Text
  pub pattern : Option Text

abbrev pub is_left : Approval → Bool
is_left a = a.status == text "pending"

-- How many were retired, and the table.
unfoldable pub expire_orphaned_holds : Time → List Approval → ℕ × List Approval
expire_orphaned_holds now t = (
  length (filter is_left t),
  update is_left (λ a. record a { status = text "expired"; resolved_at = some now }) t,
)

-- After the sweep no card is pending.
pub expire_orphaned_holds-settled :
    (now : Time) (t : List Approval) → any is_left (expire_orphaned_holds now t).1 ≡ false
unfolding expire_orphaned_holds update any
expire_orphaned_holds-settled now [] = refl
expire_orphaned_holds-settled now (a ∷ t) = ground (arith, expire_orphaned_holds-settled now t)
