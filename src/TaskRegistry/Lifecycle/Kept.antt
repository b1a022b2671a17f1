-- ===== src/TaskRegistry/Lifecycle/Kept.antt =====
-- A store whose tasks fit their plans, and the writes that keep it so (task-registry/tasks.py,
-- `update`; task-registry/claims.py, `sweep`, `take` and `end`).
use mathlib.Core.List.{Memᴰ}
use dockade.Base.{
  ℕ, ◌+◌, ◌≤◌, ◌≡◌, refl, ap, ◌∙◌, ◌⊎◌, inl, inr, Bool, true, false, Option, List, [], ◌∷◌, leb,
  if◌then◌else◌, ◌==◌, filter, nat_eq, list_eq, option_eq,
}
use dockade.Base.Table.{update}
use dockade.Base.Text.{Text}
use dockade.TaskRegistry.Parents.{Time, Task}
use dockade.TaskRegistry.Claims.{Claim, Registry, bump, end, sweep_rows, sweep, take}
use dockade.TaskRegistry.Plans.Rows.{Plan, current}
use dockade.TaskRegistry.Lifecycle.{Store, Moved, refused, done}
use dockade.TaskRegistry.Lifecycle.Fits.{fits}

pub record IsSound (s : Store) : Type 0 where
  pub fit : (t : Task) → Memᴰ t s.registry.tasks → fits t.state (current t.id s.plans) ≡ true
  pub row_below : (t : Task) → Memᴰ t s.registry.tasks → t.id ≤ s.last_id
  pub plan_below : (p : Plan) → Memᴰ p s.plans → p.task_id ≤ s.last_id

-- What a move leaves, if it is done.
abbrev pub Leaves : (Store → Type 0) → Moved → Type 0
Leaves P (refused why) = Unit
Leaves P (done revision s) = P s

module _ {ℓ} {Row : Type ℓ} (p : Row → Bool) (f : Row → Row) where
  -- The row is one that the statement left as it was, or what it made of one.
  abbrev pub IsUpdated : List Row → Row → Type ℓ
  IsUpdated rs r = (Memᴰ r rs × (p r ≡ false)) ⊎ ((q : Row) × Memᴰ q rs × (p q ≡ true) × (r ≡ f q))

  IsUpdated-tail : (x : Row) (rs : List Row) (r : Row) → IsUpdated rs r → IsUpdated (x ∷ rs) r
  IsUpdated-tail x rs r (inl k) = inl (Memᴰ.tail k.0, k.1)
  IsUpdated-tail x rs r (inr k) = inr (k.0, Memᴰ.tail k.1, k.2, k.3)

  mem_of_update_cons :
      (x : Row) (rs new : List Row) (r : Row) (b : Bool)
      → p x ≡ b
      → Memᴰ r ((if b then f x else x) ∷ new)
      → (Memᴰ r new → IsUpdated rs r)
      → IsUpdated (x ∷ rs) r
  mem_of_update_cons x rs new r true h (Memᴰ.head e) deep = inr (x, Memᴰ.head refl, h, e)
  mem_of_update_cons x rs new r false h (Memᴰ.head e) deep = inl (Memᴰ.head e, ap p e ∙ h)
  mem_of_update_cons x rs new r b h (Memᴰ.tail m) deep = IsUpdated-tail x rs r (deep m)

  pub mem_of_update : (rs : List Row) (r : Row) → Memᴰ r (update p f rs) → IsUpdated rs r
  unfolding update
  mem_of_update [] r m = elim m [ ]
  mem_of_update (x ∷ rs) r m =
      mem_of_update_cons x rs (update p f rs) r (p x) refl m (mem_of_update rs r)

-- Every row was there, with its id and its state.
abbrev pub IsFrom : List Task → List Task → Type 0
IsFrom old new =
    (t : Task) → Memᴰ t new → (u : Task) × Memᴰ u old × (t.id ≡ u.id) × (t.state ≡ u.state)

IsFrom-trans : (a b c : List Task) → IsFrom a b → IsFrom b c → IsFrom a c
IsFrom-trans a b c ab bc t m =
    let (u, mu, id, state) = bc t m in
    let (v, mv, id_v, state_v) = ab u mu in (v, mv, id ∙ id_v, state ∙ state_v)

bump-IsFrom : (now : Time) (task : ℕ) (r : Registry) → IsFrom r.tasks (bump now task r).tasks
unfolding bump
bump-IsFrom now task r t m =
    elim (mem_of_update (λ t. t.id == task)
      (λ t. record t { revision = t.revision + 1; updated_at = now }) r.tasks t m) [
        | inl k ↦ (t, k.0, refl, refl)
        | inr k ↦ (k.0, k.1, ap (λ (x : Task). x.id) k.3, ap (λ (x : Task). x.state) k.3)
      ]

sweep_rows-IsFrom :
    (now : Time) (cs : List Claim) (r : Registry) → IsFrom r.tasks (sweep_rows now cs r).tasks
unfolding sweep_rows
sweep_rows-IsFrom now [] r t m = (t, m, refl, refl)
sweep_rows-IsFrom now (c ∷ cs) r t m =
    let bumped : Registry = bump now c.task_id (end c.task_id r) in
    IsFrom-trans r.tasks bumped.tasks (sweep_rows now cs bumped).tasks
      (unfold end in bump-IsFrom now c.task_id (end c.task_id r)) (sweep_rows-IsFrom now cs bumped)
      t m

pub sweep-IsFrom : (now : Time) (r : Registry) → IsFrom r.tasks (sweep now r).tasks
unfolding sweep
sweep-IsFrom now r = sweep_rows-IsFrom now (filter (λ c. leb c.expires_at now) r.claims) r

pub end-IsFrom : (task : ℕ) (r : Registry) → IsFrom r.tasks (end task r).tasks
unfolding end
end-IsFrom task r t m = (t, m, refl, refl)

pub take-IsFrom :
    (claim_seconds : ℕ) (hash : Text → Text) (now later : Time) (token : Text) (task : ℕ)
    → (agent : Text) (branch : Option Text) (paths : List Text) (r : Registry)
    → IsFrom r.tasks (take claim_seconds hash now later token task agent branch paths r).1.tasks
unfolding take
take-IsFrom claim_seconds hash now later token task agent branch paths r = sweep-IsFrom now r

pub registry-IsSound :
    (s : Store) (r : Registry)
    → IsSound s
    → IsFrom s.registry.tasks r.tasks
    → IsSound (record s { registry = r })
registry-IsSound s r sound from = record {
  fit = λ t m.
      let (u, mu, id, state) = from t m in
      cc (sound.fit u mu, ap (λ x. current x s.plans) id, state);
  row_below = λ t m. let (u, mu, id, state) = from t m in rw id (sound.row_below u mu);
  plan_below = sound.plan_below;
}
