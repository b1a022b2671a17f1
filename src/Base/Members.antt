-- ===== src/Base/Members.antt =====
-- Membership against the Boolean functions on lists.
use mathlib.Core.List.{Memᴰ}
use dockade.Base.{
  ◌≡◌, refl, Bool, true, false, List, [], ◌∷◌, arith, filter, any, Bool-cases, inl, inr,
}

pub filter-nil_of_any {ℓ} :
    {A : Type ℓ} (p : A → Bool) (xs : List A) → any p xs ≡ false → filter p xs ≡ []
unfolding filter any
filter-nil_of_any p [] h = refl
filter-nil_of_any p (x ∷ xs) h = ground (arith, filter-nil_of_any p xs)

pub filter-cons_of_any {ℓ} :
    {A : Type ℓ} (p : A → Bool) (xs : List A)
    → any p xs ≡ true
    → (y : A) × (ys : List A) × (filter p xs ≡ y ∷ ys)
unfolding filter any
filter-cons_of_any p [] h = absurd (cc)
filter-cons_of_any p (x ∷ xs) h = elim (Bool-cases (p x)) [
  | inl hit ↦ (x, filter p xs, rw hit)
  | inr miss ↦ let (y, ys, e) = filter-cons_of_any p xs (rw miss at h) in (y, ys, rw miss e)
]

module _ {ℓ} {A : Type ℓ} (p : A → Bool) where
  pub mem_of_mem-filter : (xs : List A) (x : A) → Memᴰ x (filter p xs) → Memᴰ x xs × (p x ≡ true)
  unfolding filter
  mem_of_mem-filter [] x m = elim m [ ]
  mem_of_mem-filter (y ∷ xs) x m = elim (Bool-cases (p y)) [
    | inl hit ↦ split hit (λ r. mem_of_mem-filter xs x r) (rw hit at m)
    | inr miss ↦ let (deep, ok) = mem_of_mem-filter xs x (rw miss at m) in (Memᴰ.tail deep, ok)
  ]
    where
      split :
          p y ≡ true
          → (Memᴰ x (filter p xs) → Memᴰ x xs × (p x ≡ true))
          → Memᴰ x (y ∷ filter p xs)
          → Memᴰ x (y ∷ xs) × (p x ≡ true)
      split hit rest (Memᴰ.head e) = (Memᴰ.head e, rw e hit)
      split hit rest (Memᴰ.tail r) = let (deep, ok) = rest r in (Memᴰ.tail deep, ok)

  pub mem-filter_of_mem : (xs : List A) (x : A) → Memᴰ x xs → p x ≡ true → Memᴰ x (filter p xs)
  unfolding filter
  mem-filter_of_mem [] x m ok = elim m [ ]
  mem-filter_of_mem (y ∷ xs) x (Memᴰ.head e) ok = rw (rw e at ok) (Memᴰ.head e)
  mem-filter_of_mem (y ∷ xs) x (Memᴰ.tail m) ok = elim (Bool-cases (p y)) [
    | inl hit ↦ rw hit (Memᴰ.tail (mem-filter_of_mem xs x m ok))
    | inr miss ↦ rw miss (mem-filter_of_mem xs x m ok)
  ]

  pub any_of_mem : (xs : List A) (x : A) → Memᴰ x xs → p x ≡ true → any p xs ≡ true
  unfolding any
  any_of_mem [] x m ok = elim m [ ]
  any_of_mem (y ∷ xs) x (Memᴰ.head e) ok = rw (rw e at ok)
  any_of_mem (y ∷ xs) x (Memᴰ.tail m) ok = ground (arith, any_of_mem xs x m ok)

  pub mem_of_any : (xs : List A) → any p xs ≡ true → (x : A) × Memᴰ x xs × (p x ≡ true)
  unfolding any
  mem_of_any [] h = absurd (cc)
  mem_of_any (y ∷ xs) h = elim (Bool-cases (p y)) [
    | inl hit ↦ (y, Memᴰ.head refl, hit)
    | inr miss ↦ let (x, m, ok) = mem_of_any xs (rw miss at h) in (x, Memᴰ.tail m, ok)
  ]

-- Lists with the same members agree on `any`.
pub any-eq_of_members {ℓ} :
    {A : Type ℓ} (p : A → Bool) (xs ys : List A)
    → ((x : A) → Memᴰ x xs → Memᴰ x ys)
    → ((x : A) → Memᴰ x ys → Memᴰ x xs)
    → any p xs ≡ any p ys
any-eq_of_members p xs ys into back = elim (Bool-cases (any p xs)) [
  | inl hit ↦ let (x, m, ok) = mem_of_any p xs hit in rw (hit, any_of_mem p ys x (into x m) ok)
  | inr miss ↦ elim (Bool-cases (any p ys)) [
    | inl hit ↦
        let (y, m, ok) = mem_of_any p ys hit in absurd (cc (miss, any_of_mem p xs y (back y m) ok))
    | inr none ↦ rw (miss, none)
  ]
]

-- A filter that implies another may follow it.
pub filter-filter {ℓ} :
    {A : Type ℓ} (p q : A → Bool) (xs : List A)
    → ((x : A) → p x ≡ true → q x ≡ true)
    → filter p (filter q xs) ≡ filter p xs
unfolding filter
filter-filter p q [] h = refl
filter-filter p q (x ∷ xs) h = ground (arith, h x, filter-filter p q xs h)

pub any_congr {ℓ} :
    {A : Type ℓ} (p q : A → Bool) (xs : List A)
    → ((x : A) → Memᴰ x xs → p x ≡ q x)
    → any p xs ≡ any q xs
unfolding any
any_congr p q [] h = refl
any_congr p q (x ∷ xs) h =
    ground (arith, h x (Memᴰ.head refl), any_congr p q xs (λ y m. h y (Memᴰ.tail m)))
