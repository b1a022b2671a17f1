-- ===== src/Base/Weigh.antt =====
-- Sums over a dict: `sum(w(k, v) for k, v in d.items())`.
use dockade.Base.{ℕ, ◌+◌, ◌≡◌, refl, ◌≢◌, none, some, [], ◌∷◌, arith, Eq, ==_iff, length}
use dockade.Base.Dict.{Dict, get, put, remove, HasUniqueKeys, remove_absent}

module _ {ℓ κ} {K : Type ℓ} {V : Type κ} where
  unfoldable pub weigh : (K → V → ℕ) → Dict K V → ℕ
  weigh w [] = 0
  weigh w ((k, v) ∷ d) = w k v + weigh w d

  pub weigh-one : (d : Dict K V) → weigh (λ _ _. 1) d ≡ length d
  unfolding weigh
  weigh-one [] = refl
  weigh-one ((k, v) ∷ d) = omega (arith, weigh-one d)

module _ {ℓ κ} {K : Type ℓ} {V : Type κ} ⦃e : Eq K⦄ (w : K → V → ℕ) where
  pub weigh-put :
      (d : Dict K V) (k : K) (v : V) → get d k ≡ none → weigh w (put d k v) ≡ weigh w d + w k v
  unfolding weigh get put
  weigh-put [] k v h = omega arith
  weigh-put ((i, a) ∷ d) k v h = ground (arith, weigh-put d k v)

  pub weigh-put_over :
      (d : Dict K V) (k : K) (u v : V)
      → get d k ≡ some u
      → weigh w (put d k v) + w k u ≡ weigh w d + w k v
  unfolding weigh get put
  weigh-put_over [] k u v h = cc
  weigh-put_over ((i, a) ∷ d) k u v h = ground (arith, ==_iff i k, weigh-put_over d k u v)

  pub weigh-remove :
      (d : Dict K V) (k : K) (u : V)
      → HasUniqueKeys d
      → get d k ≡ some u
      → weigh w (remove d k) + w k u ≡ weigh w d
  unfolding weigh get remove
  weigh-remove [] k u q h = cc
  weigh-remove ((i, a) ∷ d) k u q h =
      ground (arith, ==_iff i k, remove_absent d k, weigh-remove d k u q.1)

module _ {ℓ κ} {K : Type ℓ} {V : Type κ} ⦃e : Eq K⦄ (w w' : K → V → ℕ) where
  -- Only the keys that are there count.
  pub weigh_congr :
      (d : Dict K V) → ((k : K) (v : V) → get d k ≢ none → w k v ≡ w' k v) → weigh w d ≡ weigh w' d
  unfolding weigh get
  weigh_congr [] h = refl
  weigh_congr ((i, a) ∷ d) h =
      omega
        (arith, h i a (ground (arith, ==_iff i i)), weigh_congr d (λ k v p. h k v (ground arith)))
