-- ===== src/TaskRegistry/Claims.antt =====
-- task-registry/claims.py: the rows of `claims`, who holds one, and the plain writes. Each reading of
-- the clock is an argument, and so is the token that is minted; `hash` stands for SHA-256. A path is
-- in its normalized form, as `footprint` leaves it.
pub mod Holders
pub mod Sequence
pub mod Overlaps
pub mod Tests
use dockade.Base.{
  ℕ, suc, ◌+◌, ◌≡◌, Bool, true, false, ◌&&◌, ◌||◌, not, Option, none, some, List, [], ◌∷◌, ◌++◌,
  arith, ltb, leb, if◌then◌else◌, Eq, ◌==◌, find, filter, any, nat_eq, list_eq, option_eq,
}
use dockade.Base.Table.{update}
use dockade.Base.Text.{Text, text}
use dockade.TaskRegistry.Parents.{Time, Task}

pub record Claim : Type 0 where
  pub task_id : ℕ
  pub holder : Text
  pub branch : Option Text
  pub token_hash : Text
  pub footprint : List Text
  pub progress : Option Text
  pub claimed_at : Time
  pub expires_at : Time

pub record Registry : Type 0 where
  pub tasks : List Task
  pub claims : List Claim

abbrev pub claim_on : ℕ → List Claim → Option Claim
claim_on task cs = find (λ c. c.task_id == task) cs

abbrev pub is_live : Time → Claim → Bool
is_live now c = ltb now c.expires_at

unfoldable pub live : Time → ℕ → Registry → Option Claim
live now task r = find (λ c. c.task_id == task && is_live now c) r.claims

-- How `check_holder` answers: with the claim, or with what the refusal says.
pub data Holding : Type 0 where
  holds : Claim → Holding
  lapsed : Holding
  no_claim : Holding
  held_by : Text → Time → Holding
  wrong_token : Holding

unfoldable pub check_row : (Text → Text) → Text → Text → Claim → Holding
check_row hash agent token c =
    if not (c.holder == agent)
    then held_by c.holder c.expires_at
    else if not (hash token == c.token_hash)
    then wrong_token
    else holds c

unfoldable pub check_found : (Text → Text) → Time → Text → Text → Option Claim → Holding
check_found hash now agent token none = no_claim
check_found hash now agent token (some c) =
    if leb c.expires_at now
    then (if c.holder == agent then lapsed else no_claim)
    else check_row hash agent token c

unfoldable pub check_holder : (Text → Text) → Time → ℕ → Text → Text → Registry → Holding
check_holder hash now task agent token r = check_found hash now agent token (claim_on task r.claims)

-- `DELETE FROM claims WHERE task_id = ?`
unfoldable pub end : ℕ → Registry → Registry
end task r = record r { claims = filter (λ c. not (c.task_id == task)) r.claims }

-- `tasks.update` without changes: the revision is bumped.
unfoldable pub bump : Time → ℕ → Registry → Registry
bump now task r = record r {
  tasks =
      update (λ t. t.id == task) (λ t. record t { revision = t.revision + 1; updated_at = now })
        r.tasks;
}

unfoldable pub sweep_rows : Time → List Claim → Registry → Registry
sweep_rows now [] r = r
sweep_rows now (c ∷ cs) r = sweep_rows now cs (bump now c.task_id (end c.task_id r))

unfoldable pub sweep : Time → Registry → Registry
sweep now r = sweep_rows now (filter (λ c. leb c.expires_at now) r.claims) r

-- The row that is inserted, once the expired claims are swept.
unfoldable pub take :
    ℕ
    → (Text → Text)
    → Time
    → Time
    → Text
    → ℕ
    → Text
    → Option Text
    → List Text
    → Registry
    → Time × Registry
take claim_seconds hash now later token task agent branch paths r =
    let swept = sweep now r in
    (
      later + claim_seconds,
      record swept {
        claims =
            swept.claims
            ++ (record {
              task_id = task;
              holder = agent;
              branch = branch;
              token_hash = hash token;
              footprint = paths;
              progress = none;
              claimed_at = later;
              expires_at = later + claim_seconds;
            })
              ∷ [];
      },
    )

-- `COALESCE(?, column)`
abbrev pub coalesce {ℓ} : {A : Type ℓ} → Option A → Option A → Option A
coalesce none old = old
coalesce (some a) old = some a

abbrev pub or_old {ℓ} : {A : Type ℓ} → Option A → A → A
or_old none old = old
or_old (some a) old = a

unfoldable pub renew :
    ℕ → Time → ℕ → Option Text → Option Text → Option (List Text) → Registry → Time × Registry
renew claim_seconds now task progress branch paths r = (
  now + claim_seconds,
  record r {
    claims =
        update (λ c. c.task_id == task)
          (λ c. record c {
            progress = coalesce progress c.progress;
            branch = coalesce branch c.branch;
            footprint = or_old paths c.footprint;
            expires_at = now + claim_seconds;
          })
          r.claims;
  },
)
