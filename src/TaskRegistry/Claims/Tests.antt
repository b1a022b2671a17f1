-- ===== src/TaskRegistry/Claims/Tests.antt =====
-- Two agents and one task (task-registry/claims.py).
use dockade.Base.{◌≡◌, refl, some, [], ◌∷◌, arith, find, filter, any, list_eq, nat_eq}
use dockade.Base.Text.{starts_with, Text, text}
use dockade.TaskRegistry.Claims.{
  Registry, live, held_by, check_holder, check_found, check_row, take, sweep, sweep_rows,
}
use dockade.TaskRegistry.Claims.Holders.{HasUniqueTasks}
use dockade.TaskRegistry.Claims.Sequence.{Run, start, took, Run-HasUniqueTasks, take-check_holder}
use dockade.TaskRegistry.Claims.Overlaps.{shared, contains_path}

abbrev plain_hash : Text → Text
plain_hash t = t

abbrev no_claims : Registry
no_claims = record { tasks = []; claims = [] }

abbrev taken : Registry
taken =
    (take 3600 plain_hash 100 100 (text "k") 7 (text "claude-1") (some (text "fix"))
      (text "src" ∷ []) no_claims).1

-- What a run computes through: naming this opens all of it.
all_steps : Unit {0}
unfolding take sweep sweep_rows live find filter any check_holder check_found check_row shared
    contains_path starts_with
all_steps = tt

Run-taken : Run 3600 plain_hash 100 taken
Run-taken =
    took {r = no_claims} 100 100 100 (text "k") 7 (text "claude-1") (some (text "fix"))
      (text "src" ∷ []) (ground arith) (ground arith) (unfold all_steps in refl) (start 100 [])

Run-HasUniqueTasks_example : HasUniqueTasks taken.claims
Run-HasUniqueTasks_example = Run-HasUniqueTasks 3600 plain_hash 100 taken Run-taken

take-check_holder_example :
    check_holder plain_hash 200 7 (text "claude-2") (text "k") taken
    ≡ held_by (text "claude-1") 3700
take-check_holder_example =
    take-check_holder 3600 plain_hash 100 100 100 200 (text "k") (text "k") 7 (text "claude-1")
      (text "claude-2") (some (text "fix")) (text "src" ∷ []) no_claims tt (ground arith)
      (unfold all_steps in refl)
