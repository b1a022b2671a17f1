-- ===== src/ControlPlane/Policy/Rules/Leases.antt =====
-- Which lease control-plane/policy.py reads: expiry is enforced in the read.
use mathlib.Core.List.{Memᴰ}
use dockade.Base.{
  ◌≤◌, ◌≡◌, refl, true, false, none, some, List, [], ◌∷◌, arith, if◌then◌else◌, ltb, nat_eq,
  list_eq, filter, any, Bool-cases, Option-cases, inl, inr,
}
use dockade.Base.Members.{
  filter-nil_of_any, filter-cons_of_any, mem_of_mem-filter, mem-filter_of_mem,
}
use dockade.Base.Text.{Text}
use dockade.ControlPlane.Policy.Rules.{Time, Lease, is_live_for, longest_lived, live_lease}

longest_lived_cons : (l : Lease) (ls : List Lease) → (m : Lease) × (longest_lived (l ∷ ls) ≡ some m)
unfolding longest_lived
longest_lived_cons l ls = elim (Option-cases (longest_lived ls)) [
  | inl e ↦ (l, rw (e, longest_lived))
  | inr (m, e) ↦ (if ltb l.expires_at m.expires_at then m else l, ground arith)
]

-- `m` is one of `ls`, and none of them outlives it.
abbrev IsLongest : List Lease → Lease → Type 0
IsLongest ls m = Memᴰ m ls × ((l : Lease) → Memᴰ l ls → l.expires_at ≤ m.expires_at)

IsLongest-one : (l : Lease) → IsLongest (l ∷ []) l
IsLongest-one l = (Memᴰ.head refl, bound)
  where
    bound : (k : Lease) → Memᴰ k (l ∷ []) → k.expires_at ≤ l.expires_at
    bound k (Memᴰ.head e) = rw e (omega arith)
    bound k (Memᴰ.tail r) = elim r [ ]

IsLongest-old :
    (l m : Lease) (ls : List Lease)
    → l.expires_at ≤ m.expires_at
    → IsLongest ls m
    → IsLongest (l ∷ ls) m
IsLongest-old l m ls le (there, best) = (Memᴰ.tail there, bound)
  where
    bound : (k : Lease) → Memᴰ k (l ∷ ls) → k.expires_at ≤ m.expires_at
    bound k (Memᴰ.head e) = rw e le
    bound k (Memᴰ.tail r) = best k r

IsLongest-new :
    (l m : Lease) (ls : List Lease)
    → m.expires_at ≤ l.expires_at
    → IsLongest ls m
    → IsLongest (l ∷ ls) l
IsLongest-new l m ls le (there, best) = (Memᴰ.head refl, bound)
  where
    bound : (k : Lease) → Memᴰ k (l ∷ ls) → k.expires_at ≤ l.expires_at
    bound k (Memᴰ.head e) = rw e (omega arith)
    bound k (Memᴰ.tail r) = omega (arith, best k r)

longest_lived-nil : (ls : List Lease) → longest_lived ls ≡ none → ls ≡ []
longest_lived-nil [] h = refl
longest_lived-nil (l ∷ ls) h = let (m, e) = longest_lived_cons l ls in cc

longest_lived-IsLongest : (ls : List Lease) (m : Lease) → longest_lived ls ≡ some m → IsLongest ls m
unfolding longest_lived
longest_lived-IsLongest [] m h = absurd (cc)
longest_lived-IsLongest (l ∷ ls) m h = elim (Option-cases (longest_lived ls)) [
  | inl e ↦ let same : l ≡ m = ground arith in rw (longest_lived-nil ls e, ← same) (IsLongest-one l)
  | inr (k, e) ↦ elim (Bool-cases (ltb l.expires_at k.expires_at)) [
    | inl older ↦
        let same : k ≡ m = ground arith in
        rw (← same) (IsLongest-old l k ls (ground arith) (longest_lived-IsLongest ls k e))
    | inr newer ↦
        let same : l ≡ m = ground arith in
        rw (← same) (IsLongest-new l k ls (ground arith) (longest_lived-IsLongest ls k e))
  ]
]

module _ (leases : List Lease) (host client_class : Text) (now : Time) where
  pub live_lease-none :
      any (is_live_for host client_class now) leases ≡ false
      → live_lease leases host client_class now ≡ none
  unfolding live_lease longest_lived
  live_lease-none h = rw (filter-nil_of_any (is_live_for host client_class now) leases h)

  pub live_lease-some :
      any (is_live_for host client_class now) leases ≡ true
      → (l : Lease) × (live_lease leases host client_class now ≡ some l)
  unfolding live_lease
  live_lease-some h =
      let (l, ls, e) = filter-cons_of_any (is_live_for host client_class now) leases h in
      rw e (longest_lived_cons l ls)

  -- The lease that is read is in the table, is of the host and the class and has not expired, and
  -- no other such lease outlives it.
  pub live_lease_lem :
      (l : Lease)
      → live_lease leases host client_class now ≡ some l
      → Memᴰ l leases
        × (is_live_for host client_class now l ≡ true)
        × ((m : Lease)
            → Memᴰ m leases
            → is_live_for host client_class now m ≡ true
            → m.expires_at ≤ l.expires_at)
  unfolding live_lease
  live_lease_lem l h =
      let (there, best) =
        longest_lived-IsLongest (filter (is_live_for host client_class now) leases) l h in
      let (deep, ok) = mem_of_mem-filter (is_live_for host client_class now) leases l there in
      (
        deep,
        ok,
        λ m at live.
            best m (mem-filter_of_mem (is_live_for host client_class now) leases m at live),
      )
