-- ===== src/Base/Dict.antt =====
-- Python's `dict`: an association list in insertion order. `put` replaces in place or appends.
use dockade.Base.{
  ◌≡◌, refl, ◌≢◌, inl, inr, Option, none, some, List, [], ◌∷◌, arith, if◌then◌else◌, Eq, ◌==◌,
  ==_iff, Bool-cases,
}

abbrev pub Dict {ℓ κ} : Type ℓ → Type κ → Type (ℓ ⊔ κ)
Dict K V = List (K × V)

module _ {ℓ κ} {K : Type ℓ} {V : Type κ} where
  abbrev pub keys : Dict K V → List K
  keys [] = []
  keys ((k, v) ∷ d) = k ∷ keys d

module _ {ℓ κ} {K : Type ℓ} {V : Type κ} ⦃e : Eq K⦄ where
  -- d.get(k)
  unfoldable pub get : Dict K V → K → Option V
  get [] k = none
  get ((j, v) ∷ d) k = if j == k then some v else get d k

  -- d[k] = v
  unfoldable pub put : Dict K V → K → V → Dict K V
  put [] k v = (k, v) ∷ []
  put ((j, w) ∷ d) k v = if j == k then (j, v) ∷ d else (j, w) ∷ put d k v

  -- d.pop(k, None)
  unfoldable pub remove : Dict K V → K → Dict K V
  remove [] k = []
  remove ((j, v) ∷ d) k = let rest = remove d k in if j == k then rest else (j, v) ∷ rest

  -- A dict holds each key once.
  abbrev pub HasUniqueKeys : Dict K V → Type κ
  HasUniqueKeys [] = Unit
  HasUniqueKeys ((k, v) ∷ d) = (get d k ≡ none) × HasUniqueKeys d

  pub get-put :
      (d : Dict K V) (k j : K) (v : V) → get (put d k v) j ≡ (if k == j then some v else get d j)
  unfolding get put
  get-put [] k j v = refl
  get-put ((i, w) ∷ d) k j v = ground (arith, ==_iff i k, ==_iff i j, ==_iff k j, get-put d k j v)

  pub get-remove :
      (d : Dict K V) (k j : K) → get (remove d k) j ≡ (if k == j then none else get d j)
  unfolding get remove
  get-remove [] k j = ground arith
  get-remove ((i, w) ∷ d) k j = ground (arith, ==_iff i k, ==_iff i j, ==_iff k j, get-remove d k j)

  pub get-put_self : (d : Dict K V) (k : K) (v : V) → get (put d k v) k ≡ some v
  get-put_self d k v = ground (arith, get-put d k k v, ==_iff k k)

  pub get-put_ne : (d : Dict K V) (k j : K) (v : V) → k ≢ j → get (put d k v) j ≡ get d j
  get-put_ne d k j v h = ground (arith, get-put d k j v, ==_iff k j)

  pub get-remove_self : (d : Dict K V) (k : K) → get (remove d k) k ≡ none
  get-remove_self d k = ground (arith, get-remove d k k, ==_iff k k)

  pub get-remove_ne : (d : Dict K V) (k j : K) → k ≢ j → get (remove d k) j ≡ get d j
  get-remove_ne d k j h = ground (arith, get-remove d k j, ==_iff k j)

  pub put-HasUniqueKeys :
      (d : Dict K V) (k : K) (v : V) → HasUniqueKeys d → HasUniqueKeys (put d k v)
  unfolding get put
  put-HasUniqueKeys [] k v u = (refl, tt)
  put-HasUniqueKeys ((i, w) ∷ d) k v u = elim (Bool-cases (i == k)) [
    | inl same ↦ rw same u
    | inr other ↦
        rw other
          (ground (arith, get-put d k i v, ==_iff k i, ==_iff i k), put-HasUniqueKeys d k v u.1)
  ]

  pub remove-HasUniqueKeys : (d : Dict K V) (k : K) → HasUniqueKeys d → HasUniqueKeys (remove d k)
  unfolding get remove
  remove-HasUniqueKeys [] k u = tt
  remove-HasUniqueKeys ((i, w) ∷ d) k u = elim (Bool-cases (i == k)) [
    | inl same ↦ rw same (remove-HasUniqueKeys d k u.1)
    | inr other ↦ rw other (ground (arith, get-remove d k i), remove-HasUniqueKeys d k u.1)
  ]

  -- An absent key is appended by `put`, and `remove` leaves the dict alone.
  pub remove_absent : (d : Dict K V) (k : K) → get d k ≡ none → remove d k ≡ d
  unfolding get remove
  remove_absent [] k h = refl
  remove_absent ((i, w) ∷ d) k h = elim (Bool-cases (i == k)) [
    | inl same ↦ ground arith
    | inr other ↦ rw other (ground (arith, remove_absent d k))
  ]

module _ {ℓ κ μ} {K : Type ℓ} {V : Type κ} {W : Type μ} ⦃e : Eq K⦄ where
  -- Two dicts with the same keys in the same order.
  pub get-none_of_keys :
      (d : Dict K V) (f : Dict K W) (k : K) → keys d ≡ keys f → get d k ≡ none → get f k ≡ none
  unfolding get
  get-none_of_keys [] [] k h n = refl
  get-none_of_keys [] ((j, w) ∷ f) k h n = cc
  get-none_of_keys ((i, v) ∷ d) [] k h n = cc
  get-none_of_keys ((i, v) ∷ d) ((j, w) ∷ f) k h n = ground (arith, get-none_of_keys d f k)

  pub keys-put :
      (d : Dict K V) (f : Dict K W) (k : K) (v : V) (w : W)
      → keys d ≡ keys f
      → keys (put d k v) ≡ keys (put f k w)
  unfolding put
  keys-put [] [] k v w h = refl
  keys-put [] (_ ∷ f) k v w h = cc
  keys-put (_ ∷ d) [] k v w h = cc
  keys-put ((i, a) ∷ d) ((j, b) ∷ f) k v w h = ground (arith, keys-put d f k v w)

  pub keys-remove :
      (d : Dict K V) (f : Dict K W) (k : K)
      → keys d ≡ keys f
      → keys (remove d k) ≡ keys (remove f k)
  unfolding remove
  keys-remove [] [] k h = refl
  keys-remove [] (_ ∷ f) k h = cc
  keys-remove (_ ∷ d) [] k h = cc
  keys-remove ((i, a) ∷ d) ((j, b) ∷ f) k h = ground (arith, keys-remove d f k)

  pub unique_of_keys :
      (d : Dict K V) (f : Dict K W) → keys d ≡ keys f → HasUniqueKeys d → HasUniqueKeys f
  unique_of_keys [] [] h u = tt
  unique_of_keys [] (_ ∷ f) h u = absurd (cc)
  unique_of_keys (_ ∷ d) [] h u = absurd (cc)
  unique_of_keys ((i, a) ∷ d) ((j, b) ∷ f) h u =
      let same : keys d ≡ keys f = cc in
      let head : i ≡ j = cc in
      (rw (← head) (get-none_of_keys d f i same u.0), unique_of_keys d f same u.1)

module _ {ℓ κ} {K : Type ℓ} {V : Type κ} ⦃e : Eq K⦄ where
  -- Writing a key that is there leaves the keys as they are.
  pub keys-put_present :
      (d : Dict K V) (k : K) (u v : V) → get d k ≡ some u → keys (put d k v) ≡ keys d
  unfolding get put
  keys-put_present [] k u v h = cc
  keys-put_present ((i, a) ∷ d) k u v h = ground (arith, keys-put_present d k u v)
