-- ===== src/TaskRegistry/Claims/Holders.antt =====
-- One holder at a time, and nobody past the expiry: the claims of task-registry/claims.py.
use mathlib.Core.List.{Memᴰ}
use dockade.Base.{
  ℕ, ◌≡◌, refl, sym, ◌∙◌, ap, Bool, true, ◌&&◌, not, none, some, List, [], ◌∷◌, arith, leb, ◌==◌,
  ==_iff, find, filter, any, nat_eq, list_eq, option_eq, Bool-cases, inl, inr,
}
use dockade.Base.Members.{any_of_mem, mem_of_any, mem_of_mem-filter, mem-filter_of_mem}
use dockade.TaskRegistry.Parents.{Time}
use dockade.TaskRegistry.Claims.{Claim, Registry, claim_on, is_live, end, bump, sweep_rows, sweep}

-- No task has two claims.
abbrev pub HasUniqueTasks : List Claim → Type 0
HasUniqueTasks [] = Unit
HasUniqueTasks (c ∷ cs) = (claim_on c.task_id cs ≡ none) × HasUniqueTasks cs

claim_on-filter-none :
    (p : Claim → Bool) (task : ℕ) (cs : List Claim)
    → claim_on task cs ≡ none
    → claim_on task (filter p cs) ≡ none
unfolding filter find
claim_on-filter-none p task [] h = refl
claim_on-filter-none p task (c ∷ cs) h = ground (arith, claim_on-filter-none p task cs)

pub filter-HasUniqueTasks :
    (p : Claim → Bool) (cs : List Claim) → HasUniqueTasks cs → HasUniqueTasks (filter p cs)
unfolding filter
filter-HasUniqueTasks p [] u = tt
filter-HasUniqueTasks p (c ∷ cs) (fresh, u) = elim (Bool-cases (p c)) [
  | inl e ↦ rw e (claim_on-filter-none p c.task_id cs fresh, filter-HasUniqueTasks p cs u)
  | inr e ↦ rw e (filter-HasUniqueTasks p cs u)
]

claim_on_of_mem :
    (cs : List Claim) (c : Claim) → HasUniqueTasks cs → Memᴰ c cs → claim_on c.task_id cs ≡ some c
unfolding find
claim_on_of_mem [] c u m = elim m [ ]
claim_on_of_mem (x ∷ cs) c u (Memᴰ.head e) = rw e (ground (arith, ==_iff x.task_id x.task_id))
claim_on_of_mem (x ∷ cs) c (fresh, u) (Memᴰ.tail m) =
    ground (arith, claim_on_of_mem cs c u m, ==_iff x.task_id c.task_id, fresh)

abbrev is_expired : Time → Claim → Bool
is_expired now c = leb c.expires_at now

filter_all : (cs : List Claim) → cs ≡ filter (λ c. true) cs
unfolding filter
filter_all [] = refl
filter_all (c ∷ cs) = ground (arith, filter_all cs)

filter_congr :
    (p q : Claim → Bool) (cs : List Claim)
    → ((c : Claim) → Memᴰ c cs → p c ≡ q c)
    → filter p cs ≡ filter q cs
unfolding filter
filter_congr p q [] h = refl
filter_congr p q (c ∷ cs) h =
    ground (arith, h c (Memᴰ.head refl), filter_congr p q cs (λ x m. h x (Memᴰ.tail m)))

filter_both :
    (p q : Claim → Bool) (cs : List Claim) → filter p (filter q cs) ≡ filter (λ c. q c && p c) cs
unfolding filter
filter_both p q [] = refl
filter_both p q (c ∷ cs) = ground (arith, filter_both p q cs)

-- What the sweep of the rows `ds` leaves.
abbrev spares : List Claim → Claim → Bool
spares ds c = not (any (λ d. c.task_id == d.task_id) ds)

spares-nil : (cs : List Claim) → cs ≡ filter (spares []) cs
unfolding any
spares-nil cs = filter_all cs

spares-cons :
    (d : Claim) (ds : List Claim) (c : Claim)
    → (not (c.task_id == d.task_id) && spares ds c) ≡ spares (d ∷ ds) c
unfolding any
spares-cons d ds c = ground arith

sweep_rows-claims :
    (now : Time) (ds : List Claim) (r : Registry)
    → (sweep_rows now ds r).claims ≡ filter (spares ds) r.claims
unfolding sweep_rows bump end
sweep_rows-claims now [] r = spares-nil r.claims
sweep_rows-claims now (d ∷ ds) r =
    sweep_rows-claims now ds (bump now d.task_id (end d.task_id r))
    ∙ filter_both (spares ds) (λ c. not (c.task_id == d.task_id)) r.claims
    ∙ filter_congr _ (spares (d ∷ ds)) r.claims (λ c m. spares-cons d ds c)

-- If no task has two claims, the sweep ends exactly the claims that have expired.
pub sweep-claims :
    (now : Time) (r : Registry)
    → HasUniqueTasks r.claims
    → (sweep now r).claims ≡ filter (is_live now) r.claims
unfolding sweep
sweep-claims now r u =
    sweep_rows-claims now dues r ∙ filter_congr (spares dues) (is_live now) r.claims agrees
  where
    dues : List Claim
    dues = filter (is_expired now) r.claims

    agrees : (c : Claim) → Memᴰ c r.claims → spares dues c ≡ is_live now c
    agrees c m = elim (Bool-cases (is_expired now c)) [
      | inl e ↦
          let found : any (λ d. c.task_id == d.task_id) dues ≡ true =
            any_of_mem (λ d. c.task_id == d.task_id) dues c
              (mem-filter_of_mem (is_expired now) r.claims c m e)
              ((==_iff c.task_id c.task_id).1 refl) in
          ground (arith, found)
      | inr e ↦ elim (Bool-cases (any (λ d. c.task_id == d.task_id) dues)) [
        | inr none_found ↦ ground (arith, none_found)
        | inl found ↦
            let (d, due, same) = mem_of_any (λ d. c.task_id == d.task_id) dues found in
            let (there, over) = mem_of_mem-filter (is_expired now) r.claims d due in
            let one : some c ≡ some d =
              sym (claim_on_of_mem r.claims c u m)
              ∙ ap (λ x. claim_on x r.claims) ((==_iff c.task_id d.task_id).0 same)
              ∙ claim_on_of_mem r.claims d u there in
            absurd (ground arith)
      ]
    ]
