-- ===== src/Base/Table.antt =====
-- SQL statements over a table as the list of its rows.
use dockade.Base.{
  ℕ, ◌≡◌, refl, Bool, false, List, [], ◌∷◌, arith, if◌then◌else◌, filter, length, any, ltb,
}

module _ {ℓ} {Row : Type ℓ} where
  -- `UPDATE … SET f WHERE p`
  unfoldable pub update : (Row → Bool) → (Row → Row) → List Row → List Row
  update p f [] = []
  update p f (r ∷ rs) = (if p r then f r else r) ∷ update p f rs

  -- The `rowcount` of that statement.
  unfoldable pub row_count : (Row → Bool) → List Row → ℕ
  row_count p rs = length (filter p rs)

  -- `rowcount > 0`, read before the statement ran.
  abbrev pub changes : (Row → Bool) → List Row → Bool
  changes p rs = ltb 0 (row_count p rs)

  pub changes-any : (p : Row → Bool) (rs : List Row) → changes p rs ≡ any p rs
  unfolding row_count filter any
  changes-any p [] = refl
  changes-any p (r ∷ rs) = ground (arith, changes-any p rs)

  pub update-missed :
      (p : Row → Bool) (f : Row → Row) (rs : List Row) → any p rs ≡ false → update p f rs ≡ rs
  unfolding update any
  update-missed p f [] h = refl
  update-missed p f (r ∷ rs) h = ground (arith, update-missed p f rs)
