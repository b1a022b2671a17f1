-- ===== src/TaskRegistry/Lifecycle/Sequence.antt =====
-- Any sequence of moves of task-registry/agent_moves.py and task-registry/operator_moves.py, each in
-- its own transaction.
use dockade.Base.{ℕ, ◌≡◌, subst, Option, List, []}
use dockade.Base.Text.{Text}
use dockade.TaskRegistry.Parents.{Time}
use dockade.TaskRegistry.Plans.{Decision, Answer}
use dockade.TaskRegistry.Plans.Rows.{PlanFields}
use dockade.TaskRegistry.Lifecycle.{Repo, Store, Readings, Moved, done}
use dockade.TaskRegistry.Lifecycle.Agents.{
  NewTask, propose, ClaimMove, ClaimSettings, Wanted, claim, EndMove, submit_plan_move, Ender,
  end_claim, submit_plan,
}
use dockade.TaskRegistry.Lifecycle.Operator.{create, move, approve, break_claim}
use dockade.TaskRegistry.Lifecycle.Kept.{IsSound, Leaves}
use dockade.TaskRegistry.Lifecycle.Moves.{claim-Leaves, end_claim-Leaves}
use dockade.TaskRegistry.Lifecycle.Planned.{submit_plan-Leaves}
use dockade.TaskRegistry.Lifecycle.Added.{propose-Leaves}
use dockade.TaskRegistry.Lifecycle.Operated.{create-Leaves, move-Leaves}
use dockade.TaskRegistry.Lifecycle.Approved.{approve-Leaves, break_claim-Leaves}

abbrev pub empty : List Repo → Store
empty repos = record {
  repos = repos;
  registry = record { tasks = []; claims = [] };
  edges = [];
  plans = [];
  last_id = 0;
}

-- One move that is done.
pub data Step (settings : ClaimSettings) : Moved → Store → Type 0 where
  proposes :
      {s : Store} (now : Time) (agent repo : Text) (given : NewTask)
      → Step settings (propose now agent repo given s) s
  creates :
      {s : Store} (now : Time) (repo state : Text) (given : NewTask)
      → Step settings (create now repo state given s) s
  claims :
      {s : Store} (now : Readings) (token : Text) (task : ℕ) (wanted : Wanted) (action : ClaimMove)
      → Step settings (claim settings now token task wanted action s) s
  ends :
      {s : Store} (now : Readings) (who : Ender) (action : EndMove) (note : Option Text)
      → (action ≡ submit_plan_move → ⊥)
      → Step settings (end_claim settings now who action note s) s
  submits :
      {s : Store} (now : Readings) (later : Time) (who : Ender) (fields : PlanFields)
      → (paths : List Text) (decisions : List Decision) (note : Option Text)
      → Step settings (submit_plan settings now later who fields paths decisions note s) s
  moves :
      {s : Store} (now : Readings) (task revision : ℕ) (state : Text)
      → Step settings (move now task revision state s) s
  approves :
      {s : Store} (now : Time) (task revision : ℕ) (answers : List Answer)
      → Step settings (approve now task revision answers s) s
  breaks :
      {s : Store} (now : Readings) (task revision : ℕ)
      → Step settings (break_claim now task revision s) s

-- A store that moves lead to from one without tasks.
pub data Run (settings : ClaimSettings) : Store → Type 0 where
  start : (repos : List Repo) → Run settings (empty repos)
  after :
      {s t : Store} {m : Moved} {revision : ℕ}
      → Run settings s
      → Step settings m s
      → m ≡ done revision t
      → Run settings t

empty-IsSound : (repos : List Repo) → IsSound (empty repos)
empty-IsSound repos = record {
  fit = λ t m. elim m [ ];
  row_below = λ t m. elim m [ ];
  plan_below = λ p m. elim m [ ];
}

module _ (settings : ClaimSettings) where
  Step-Leaves : {m : Moved} {s : Store} → Step settings m s → IsSound s → Leaves IsSound m
  Step-Leaves {s = s} (proposes now agent repo given) sound =
      propose-Leaves now agent repo given s sound
  Step-Leaves {s = s} (creates now repo state given) sound =
      create-Leaves now repo state given s sound
  Step-Leaves {s = s} (claims now token task wanted action) sound =
      claim-Leaves settings now token task wanted action s sound
  Step-Leaves {s = s} (ends now who action note other) sound =
      end_claim-Leaves settings now who action note s other sound
  Step-Leaves {s = s} (submits now later who fields paths decisions note) sound =
      submit_plan-Leaves settings now later who fields paths decisions note s sound
  Step-Leaves {s = s} (moves now task revision state) sound =
      move-Leaves now task revision state s sound
  Step-Leaves {s = s} (approves now task revision answers) sound =
      approve-Leaves now task revision answers s sound
  Step-Leaves {s = s} (breaks now task revision) sound =
      break_claim-Leaves now task revision s sound

  -- After any sequence of moves an open task has no decision of its plan unanswered, a refined task has
  -- a current plan and a proposed one has none; and no plan is of a task that is yet to come.
  pub Run-IsSound : (s : Store) → Run settings s → IsSound s
  Run-IsSound s (start repos) = empty-IsSound repos
  Run-IsSound s (after {s = before} run step e) =
      subst (Leaves IsSound) e (Step-Leaves step (Run-IsSound before run))
