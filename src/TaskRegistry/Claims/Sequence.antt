-- ===== src/TaskRegistry/Claims/Sequence.antt =====
-- The claims of task-registry/claims.py over time: the writes in any order, on a clock that does not
-- go back, each behind the check that its move makes.
use dockade.Base.{
  ℕ, ◌+◌, ◌≤◌, ◌≡◌, refl, Bool, ◌&&◌, not, Option, none, some, List, [], ◌∷◌, ◌++◌, arith, leb,
  if◌then◌else◌, ◌==◌, ==_iff, find, filter, nat_eq, list_eq, option_eq, Bool-cases, inl, inr,
}
use dockade.Base.Table.{update}
use dockade.Base.Text.{Text}
use dockade.TaskRegistry.Parents.{Time, Task}
use dockade.TaskRegistry.Claims.{
  Claim, Registry, claim_on, is_live, live, holds, lapsed, no_claim, held_by, wrong_token,
  check_row, check_found, check_holder, end, sweep, take, renew, coalesce, or_old,
}
use dockade.TaskRegistry.Claims.Holders.{HasUniqueTasks, filter-HasUniqueTasks, sweep-claims}

free_later :
    (now mid : Time) (task : ℕ) (cs : List Claim)
    → now ≤ mid
    → find (λ c. c.task_id == task && is_live now c) cs ≡ none
    → claim_on task (filter (is_live mid) cs) ≡ none
unfolding find filter
free_later now mid task [] le h = refl
free_later now mid task (c ∷ cs) le h = ground (arith, free_later now mid task cs le, le)

claim_on-append :
    (task : ℕ) (cs : List Claim) (new : Claim)
    → claim_on task cs ≡ none
    → claim_on task (cs ++ new ∷ []) ≡ (if new.task_id == task then some new else none)
unfolding find
claim_on-append task [] new h = refl
claim_on-append task (c ∷ cs) new h = ground (arith, claim_on-append task cs new)

append-HasUniqueTasks :
    (cs : List Claim) (new : Claim)
    → HasUniqueTasks cs
    → claim_on new.task_id cs ≡ none
    → HasUniqueTasks (cs ++ new ∷ [])
unfolding find
append-HasUniqueTasks [] new u fresh = (refl, tt)
append-HasUniqueTasks (c ∷ cs) new (other, u) fresh = (
  ground (
    arith,
    claim_on-append c.task_id cs new other,
    ==_iff c.task_id new.task_id,
    ==_iff new.task_id c.task_id,
  ),
  append-HasUniqueTasks cs new u (ground arith),
)

module _ (p : Claim → Bool) (f : Claim → Claim)
    (same : (c : Claim) → (f c).task_id ≡ c.task_id) where
  claim_on-update :
      (task : ℕ) (cs : List Claim) → claim_on task cs ≡ none → claim_on task (update p f cs) ≡ none
  unfolding find update
  claim_on-update task [] h = refl
  claim_on-update task (c ∷ cs) h = ground (arith, claim_on-update task cs, same c)

  update-HasUniqueTasks : (cs : List Claim) → HasUniqueTasks cs → HasUniqueTasks (update p f cs)
  unfolding update
  update-HasUniqueTasks [] u = tt
  update-HasUniqueTasks (c ∷ cs) (fresh, u) = elim (Bool-cases (p c)) [
    | inl e ↦ rw e (rw (same c) (claim_on-update c.task_id cs fresh), update-HasUniqueTasks cs u)
    | inr e ↦ rw e (claim_on-update c.task_id cs fresh, update-HasUniqueTasks cs u)
  ]

module _ (claim_seconds : ℕ) (hash : Text → Text) where
  -- `Run now r`: the registry can be `r` at the time `now`.
  pub data Run : Time → Registry → Type 0 where
    start : (now : Time) (tasks : List Task) → Run now (record { tasks = tasks; claims = [] })
    waits : {r : Registry} (now later : Time) → now ≤ later → Run now r → Run later r
    -- a claim move: the task is free when it is read
    took :
        {r : Registry} (now mid later : Time) (token : Text) (task : ℕ) (agent : Text)
        (branch : Option Text) (paths : List Text)
        → now ≤ mid
        → mid ≤ later
        → live now task r ≡ none
        → Run now r
        → Run later (take claim_seconds hash mid later token task agent branch paths r).1
    -- an update: the agent holds the claim
    renewed :
        {r : Registry} (now later : Time) (token : Text) (task : ℕ) (agent : Text) (held : Claim)
        (progress branch : Option Text) (paths : Option (List Text))
        → now ≤ later
        → check_holder hash now task agent token r ≡ holds held
        → Run now r
        → Run later (renew claim_seconds later task progress branch paths r).1
    ended : {r : Registry} (now : Time) (task : ℕ) → Run now r → Run now (end task r)
    swept : {r : Registry} (now : Time) → Run now r → Run now (sweep now r)

  taken-HasUniqueTasks :
      (now mid later : Time) (token : Text) (task : ℕ) (agent : Text) (branch : Option Text)
      (paths : List Text) (r : Registry)
      → now ≤ mid
      → live now task r ≡ none
      → HasUniqueTasks r.claims
      → HasUniqueTasks (take claim_seconds hash mid later token task agent branch paths r).1.claims
  unfolding take live
  taken-HasUniqueTasks now mid later token task agent branch paths r le free u =
      rw (sweep-claims mid r u) (
        append-HasUniqueTasks (filter (is_live mid) r.claims) _
          (filter-HasUniqueTasks (is_live mid) r.claims u)
          (free_later now mid task r.claims le free))

  -- Whatever the order of the writes, on a clock that does not go back and each behind the check
  -- that its move makes, no task ever has two claims.
  pub Run-HasUniqueTasks : (now : Time) (r : Registry) → Run now r → HasUniqueTasks r.claims
  unfolding end renew
  Run-HasUniqueTasks _ _ (start now tasks) = tt
  Run-HasUniqueTasks _ r (waits now later le run) = Run-HasUniqueTasks now r run
  Run-HasUniqueTasks _ _
        (took {r = r} now mid later token task agent branch paths le more free run) =
      taken-HasUniqueTasks now mid later token task agent branch paths r le free
        (Run-HasUniqueTasks now r run)
  Run-HasUniqueTasks _ _
        (renewed {r = r} now later token task agent held progress branch paths le held_by_it run) =
      update-HasUniqueTasks (λ c. c.task_id == task)
        (λ c. record c {
          progress = coalesce progress c.progress;
          branch = coalesce branch c.branch;
          footprint = or_old paths c.footprint;
          expires_at = later + claim_seconds;
        })
        (λ c. refl) r.claims (Run-HasUniqueTasks now r run)
  Run-HasUniqueTasks _ _ (ended {r = r} now task run) =
      filter-HasUniqueTasks (λ c. not (c.task_id == task)) r.claims (Run-HasUniqueTasks now r run)
  Run-HasUniqueTasks _ _ (swept {r = r} now run) =
      let u = Run-HasUniqueTasks now r run in
      rw (sweep-claims now r u) (filter-HasUniqueTasks (is_live now) r.claims u)

  -- Who holds a task that was free and has just been taken, at any moment `s` that follows: until
  -- its expiry the agent that took it, with its token and no other, and nobody from then on. No task
  -- has two claims before.
  pub take-check_holder :
      (now mid later s : Time) (token other_token : Text) (task : ℕ) (agent other : Text)
      (branch : Option Text) (paths : List Text) (r : Registry)
      → HasUniqueTasks r.claims
      → now ≤ mid
      → live now task r ≡ none
      → check_holder hash s task other other_token
          (take claim_seconds hash mid later token task agent branch paths r).1
        ≡ (if leb (later + claim_seconds) s
            then (if agent == other then lapsed else no_claim)
            else if not (agent == other)
            then held_by agent (later + claim_seconds)
            else if not (hash other_token == hash token)
            then wrong_token
            else holds (record {
              task_id = task;
              holder = agent;
              branch = branch;
              token_hash = hash token;
              footprint = paths;
              progress = none;
              claimed_at = later;
              expires_at = later + claim_seconds;
            }))
  unfolding take live check_holder check_found check_row
  take-check_holder now mid later s token other_token task agent other branch paths r u le free =
      rw
        (
          sweep-claims mid r u,
          claim_on-append task (filter (is_live mid) r.claims) _
              (free_later now mid task r.claims le free),
          (==_iff task task).1 refl,
        )
        refl
