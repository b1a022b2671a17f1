-- ===== src/ControlPlane/Asks/Lookup.antt =====
-- The row of an id: `tool_approvals.id` is the primary key.
use dockade.Base.{
  ◌≡◌, refl, ◌∙◌, Bool, false, ◌&&◌, Option, none, some, [], ◌∷◌, ◌++◌, arith, ◌==◌, ==_iff,
  Bool-cases, inl, inr, nat_eq, list_eq, find, any, map,
}
use dockade.Base.Text.{Text}
use dockade.Base.Table.{changes, changes-any}
use dockade.ControlPlane.Asks.{Ask, Table}

abbrev pub lookup : Text → Table → Option Ask
lookup id t = find (λ r. r.id == id) t

-- No row has the id of another.
abbrev pub HasUniqueIds : Table → Type 0
HasUniqueIds [] = Unit
HasUniqueIds (r ∷ t) = (lookup r.id t ≡ none) × HasUniqueIds t

pub lookup-id : (id : Text) (t : Table) (r : Ask) → lookup id t ≡ some r → r.id ≡ id
unfolding find
lookup-id id [] r h = absurd (cc)
lookup-id id (x ∷ t) r h = ground (arith, lookup-id id t r, ==_iff x.id id)

abbrev pub map_found : (Ask → Ask) → Option Ask → Option Ask
map_found f none = none
map_found f (some r) = some (f r)

module _ (f : Ask → Ask) (same_id : (r : Ask) → (f r).id ≡ r.id) where
  pub lookup-map : (id : Text) (t : Table) → lookup id (map f t) ≡ map_found f (lookup id t)
  unfolding find
  lookup-map id [] = refl
  lookup-map id (r ∷ t) = ground (arith, lookup-map id t, same_id r)

  pub map-HasUniqueIds : (t : Table) → HasUniqueIds t → HasUniqueIds (map f t)
  map-HasUniqueIds [] u = tt
  map-HasUniqueIds (r ∷ t) (fresh, u) =
      (rw (same_id r, lookup-map r.id t, fresh) refl, map-HasUniqueIds t u)

pub lookup-append :
    (id : Text) (t u : Table)
    → lookup id (t ++ u) ≡ elim (lookup id t) [ none ↦ lookup id u | some r ↦ some r ]
unfolding find
lookup-append id [] u = refl
lookup-append id (r ∷ t) u = ground (arith, lookup-append id t u)

pub append-HasUniqueIds :
    (t : Table) (r : Ask) → HasUniqueIds t → lookup r.id t ≡ none → HasUniqueIds (t ++ r ∷ [])
unfolding find
append-HasUniqueIds [] r u fresh = (refl, tt)
append-HasUniqueIds (x ∷ t) r (other, u) fresh = (
  ground (arith, lookup-append x.id t (r ∷ []), ==_iff x.id r.id, ==_iff r.id x.id),
  append-HasUniqueIds t r u (ground arith),
)

module _ (id : Text) (p : Ask → Bool) where
  abbrev is_hit : Ask → Bool
  is_hit r = r.id == id && p r

  any-absent : (t : Table) → lookup id t ≡ none → any is_hit t ≡ false
  unfolding find any
  any-absent [] h = refl
  any-absent (r ∷ t) h = ground (arith, any-absent t)

  pub any-lookup :
      (t : Table)
      → HasUniqueIds t
      → any is_hit t ≡ elim (lookup id t) [ none ↦ false | some r ↦ p r ]
  unfolding find any
  any-lookup [] u = refl
  any-lookup (r ∷ t) (fresh, u) = elim (Bool-cases (r.id == id)) [
    | inl hit ↦
        let same : r.id ≡ id = (==_iff r.id id).0 hit in
        ground (arith, any-absent t (rw (← same) fresh))
    | inr miss ↦ rw miss (any-lookup t u)
  ]

  -- Whether the statement `… WHERE id = ? AND p` changes a row.
  pub changes-lookup :
      (t : Table)
      → HasUniqueIds t
      → changes is_hit t ≡ elim (lookup id t) [ none ↦ false | some r ↦ p r ]
  changes-lookup t u = changes-any is_hit t ∙ any-lookup t u
