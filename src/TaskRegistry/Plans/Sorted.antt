-- ===== src/TaskRegistry/Plans/Sorted.antt =====
-- `sorted` of task-registry/plans.py on positions that are each named once.
use dockade.Base.{
  ℕ, zero, suc, ◌+◌, ◌<◌, ◌≡◌, refl, sym, ap, subst, ◌∙◌, ◌↔◌, Bool, true, false, ◌&&◌, ◌||◌, List,
  [], ◌∷◌, arith, leb, ◌==◌, ==_iff, contains, nat_eq,
}
use dockade.TaskRegistry.Plans.{Choice, insert_sorted, sorted, is_distinct, assumed_from}

-- Each number is above the one before it, and the first is at least `b`.
unfoldable pub is_increasing : ℕ → List ℕ → Bool
is_increasing b [] = true
is_increasing b (n ∷ ns) = leb b n && is_increasing (suc n) ns

contains-insert_sorted :
    (j n : ℕ) (ns : List ℕ) → contains j (insert_sorted n ns) ≡ (j == n || contains j ns)
unfolding contains insert_sorted
contains-insert_sorted j n [] = refl
contains-insert_sorted j n (m ∷ ns) = ground (arith, contains-insert_sorted j n ns)

pub contains-sorted : (j : ℕ) (ns : List ℕ) → contains j (sorted ns) ≡ contains j ns
unfolding contains sorted
contains-sorted j [] = refl
contains-sorted j (n ∷ ns) =
    ground (arith, contains-insert_sorted j n (sorted ns), contains-sorted j ns)

is_increasing-insert_sorted :
    (b n : ℕ) (ns : List ℕ)
    → leb b n ≡ true
    → contains n ns ≡ false
    → is_increasing b ns ≡ true
    → is_increasing b (insert_sorted n ns) ≡ true
unfolding is_increasing insert_sorted contains
is_increasing-insert_sorted b n [] low new up = ground arith
is_increasing-insert_sorted b n (m ∷ ns) low new up =
    ground (arith, ==_iff n m, is_increasing-insert_sorted (suc m) n ns)

is_increasing-sorted : (ns : List ℕ) → is_distinct ns ≡ true → is_increasing 0 (sorted ns) ≡ true
unfolding is_increasing sorted is_distinct
is_increasing-sorted [] d = refl
is_increasing-sorted (n ∷ ns) d =
    is_increasing-insert_sorted 0 n (sorted ns) (ground arith)
      (ground (arith, contains-sorted n ns)) (is_increasing-sorted ns (ground arith))

-- Nothing below the bound is in the list.
contains_below : (b j : ℕ) (ns : List ℕ) → is_increasing b ns ≡ true → j < b → contains j ns ≡ false
unfolding is_increasing contains
contains_below b j [] up low = refl
contains_below b j (n ∷ ns) up low = ground (arith, ==_iff j n, contains_below (suc n) j ns)

same_first :
    (n m : ℕ) (ns ms : List ℕ)
    → is_increasing (suc n) ns ≡ true
    → is_increasing (suc m) ms ≡ true
    → ((j : ℕ) → contains j (n ∷ ns) ≡ contains j (m ∷ ms))
    → n ≡ m
unfolding contains
same_first n m ns ms up vp same = ground (
  arith,
  same n,
  same m,
  ==_iff n n,
  ==_iff m m,
  ==_iff n m,
  ==_iff m n,
  contains_below (suc n) m ns,
  contains_below (suc m) n ms,
)

same_rest :
    (n : ℕ) (ns ms : List ℕ)
    → is_increasing (suc n) ns ≡ true
    → is_increasing (suc n) ms ≡ true
    → (j : ℕ) → contains j (n ∷ ns) ≡ contains j (n ∷ ms)
    → contains j ns ≡ contains j ms
unfolding contains
same_rest n ns ms up vp j same =
    ground (arith, ==_iff j n, contains_below (suc n) j ns, contains_below (suc n) j ms)

pub same_members :
    (b : ℕ) (ns ms : List ℕ)
    → is_increasing b ns ≡ true
    → is_increasing b ms ≡ true
    → ((j : ℕ) → contains j ns ≡ contains j ms)
    → ns ≡ ms
unfolding is_increasing
same_members b [] [] up vp same = refl
same_members b [] (m ∷ ms) up vp same =
    absurd (unfold contains in ground (arith, same m, ==_iff m m))
same_members b (n ∷ ns) [] up vp same =
    absurd (unfold contains in ground (arith, same n, ==_iff n n))
same_members b (n ∷ ns) (m ∷ ms) up vp same =
    let first : n ≡ m = same_first n m ns ms (ground arith) (ground arith) same in
    let vp_n : is_increasing (suc n) ms ≡ true = ground (arith, first) in
    let agree : (j : ℕ) → contains j (n ∷ ns) ≡ contains j (n ∷ ms) =
      subst (λ x. (j : ℕ) → contains j (n ∷ ns) ≡ contains j (x ∷ ms)) (sym first) same in
    let rest : ns ≡ ms =
      same_members (suc n) ns ms (ground arith) vp_n
        (λ j. same_rest n ns ms (ground arith) vp_n j (agree j)) in
    cc (first, rest)

-- Whether the plan assumes the option at the position; there is none past the last.
unfoldable pub is_assumed_at : ℕ → List Choice → Bool
is_assumed_at j [] = false
is_assumed_at zero (c ∷ cs) = c.assumed
is_assumed_at (suc j) (c ∷ cs) = is_assumed_at j cs

is_increasing_weaker :
    (k : ℕ) (ns : List ℕ) → is_increasing (suc k) ns ≡ true → is_increasing k ns ≡ true
unfolding is_increasing
is_increasing_weaker k [] up = refl
is_increasing_weaker k (n ∷ ns) up = ground arith

is_increasing-assumed_from : (k : ℕ) (cs : List Choice) → is_increasing k (assumed_from k cs) ≡ true
unfolding is_increasing assumed_from
is_increasing-assumed_from k [] = refl
is_increasing-assumed_from k (c ∷ cs) =
    ground (
      arith,
      is_increasing-assumed_from (suc k) cs,
      is_increasing_weaker k (assumed_from (suc k) cs),
    )

contains-assumed_from :
    (k i : ℕ) (cs : List Choice) → contains (k + i) (assumed_from k cs) ≡ is_assumed_at i cs
unfolding contains assumed_from is_assumed_at
contains-assumed_from k i [] = refl
contains-assumed_from k zero (c ∷ cs) = ground (
  arith,
  ==_iff (k + zero) k,
  contains_below (suc k) (k + zero) (assumed_from (suc k) cs),
  is_increasing-assumed_from (suc k) cs,
)
contains-assumed_from k (suc i) (c ∷ cs) =
    let shift : suc k + i ≡ k + suc i = omega arith in
    let rest : contains (k + suc i) (assumed_from (suc k) cs) ≡ is_assumed_at i cs =
      rw (← shift) (contains-assumed_from (suc k) i cs) in
    ground (arith, ==_iff (k + suc i) k, rest)

contains-assumed : (j : ℕ) (cs : List Choice) → contains j (assumed_from 0 cs) ≡ is_assumed_at j cs
contains-assumed j cs =
    let same : 0 + j ≡ j = omega arith in
    subst (λ x. contains x (assumed_from 0 cs) ≡ is_assumed_at j cs) same
      (contains-assumed_from 0 j cs)

-- Positions named once each are, in order, those that the plan assumes exactly if they are the same
-- positions.
pub sorted-assumed_from :
    (ns : List ℕ) (cs : List Choice)
    → is_distinct ns ≡ true
    → (sorted ns ≡ assumed_from 0 cs) ↔ ((j : ℕ) → contains j ns ≡ is_assumed_at j cs)
sorted-assumed_from ns cs d = (
  λ e j. sym (contains-sorted j ns) ∙ ap (contains j) e ∙ contains-assumed j cs,
  λ h.
      same_members 0 (sorted ns) (assumed_from 0 cs) (is_increasing-sorted ns d)
        (is_increasing-assumed_from 0 cs)
        (λ j. contains-sorted j ns ∙ h j ∙ sym (contains-assumed j cs)),
)
