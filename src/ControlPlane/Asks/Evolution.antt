-- ===== src/ControlPlane/Asks/Evolution.antt =====
-- What the statements of control-plane/holds.py may do to a tool ask, row by row.
use dockade.Base.{
  ◌≡◌, refl, subst, ◌∙◌, ◌≢◌, ◌⊎◌, Option-cases, Bool, true, false, ◌&&◌, ◌||◌, none, some, [], ◌∷◌,
  ◌++◌, arith, if◌then◌else◌, map, ◌==◌, Bool-cases, inl, inr, nat_eq, list_eq, find,
}
use dockade.Base.Text.{Text}
use dockade.ControlPlane.Asks.Expiry.{expire_row, update-map, expire_tool_asks-map}
use dockade.Base.Table.{update, changes}
use dockade.ControlPlane.Holds.{Time}
use dockade.ControlPlane.Asks.{
  Ask, Table, Limits, Status, pending, allowed, denied, expired, withdrawn, status_eq, is_pending,
  expire_tool_asks, resolve_row, is_decision, resolve_tool_ask, claimable, claim_row,
  claim_tool_ask, withdraw_row, withdraw_tool_ask, get_tool_ask, ask_by_token,
}

-- From which status which may follow, in any number of steps.
abbrev pub may_become : Status → Status → Bool
may_become pending t = true
may_become allowed allowed = true
may_become allowed expired = true
may_become allowed withdrawn = true
may_become denied denied = true
may_become expired expired = true
may_become withdrawn withdrawn = true
may_become _ _ = false

-- `s` is the row `r` at a later time.
pub record Later (r s : Ask) : Type 0 where
  pub same_id : s.id ≡ r.id
  pub same_server : s.server ≡ r.server
  pub same_tool : s.tool ≡ r.tool
  pub same_args : s.args_json ≡ r.args_json
  pub same_digest : s.args_digest ≡ r.args_digest
  pub same_client : s.client ≡ r.client
  pub same_schema : s.schema_digest ≡ r.schema_digest
  pub same_token : s.resume_token ≡ r.resume_token
  pub same_deadline : s.deadline ≡ r.deadline
  pub status : may_become r.status s.status ≡ true
  -- a claim on an allowed row stays, and so does that status
  pub claim_kept :
      r.claimed_at ≢ none
      → r.status ≡ allowed
      → (s.claimed_at ≡ r.claimed_at) × (s.status ≡ allowed)
  -- and is made on an allowed row
  pub claim_allowed : r.claimed_at ≡ none → s.claimed_at ≢ none → s.status ≡ allowed

pub Later-refl : (r : Ask) → Later r r
Later-refl r = ground arith

may_become_trans :
    (s t u : Status) → may_become s t ≡ true → may_become t u ≡ true → may_become s u ≡ true
may_become_trans s t u h k = ground arith

pub Later-trans : (r s t : Ask) → Later r s → Later s t → Later r t
Later-trans r s t a b = record {
  same_id = b.same_id ∙ a.same_id;
  same_server = b.same_server ∙ a.same_server;
  same_tool = b.same_tool ∙ a.same_tool;
  same_args = b.same_args ∙ a.same_args;
  same_digest = b.same_digest ∙ a.same_digest;
  same_client = b.same_client ∙ a.same_client;
  same_schema = b.same_schema ∙ a.same_schema;
  same_token = b.same_token ∙ a.same_token;
  same_deadline = b.same_deadline ∙ a.same_deadline;
  status = may_become_trans r.status s.status t.status a.status b.status;
  claim_kept = λ h k. ground (arith, a.claim_kept h k, b.claim_kept);
  claim_allowed = λ h k. claim_trans h k (Option-cases s.claimed_at);
}
  where
    claim_trans :
        r.claimed_at ≡ none
        → t.claimed_at ≢ none
        → (s.claimed_at ≡ none) ⊎ ((at : Time) × (s.claimed_at ≡ some at))
        → t.status ≡ allowed
    claim_trans h k (inl unclaimed) = b.claim_allowed unclaimed k
    claim_trans h k (inr (at, there)) = (b.claim_kept (λ e. cc) (a.claim_allowed h (λ e. cc))).1

-- `u` is the table `t` at a later time: each row of `t` in its place, and rows that are new.
abbrev pub Evolves : Table → Table → Type 0
Evolves [] u = Unit
Evolves (r ∷ t) [] = ⊥
Evolves (r ∷ t) (s ∷ u) = Later r s × Evolves t u

pub Evolves-refl : (t : Table) → Evolves t t
Evolves-refl [] = tt
Evolves-refl (r ∷ t) = (Later-refl r, Evolves-refl t)

pub Evolves-trans : (t u v : Table) → Evolves t u → Evolves u v → Evolves t v
Evolves-trans [] u v a b = tt
Evolves-trans (r ∷ t) [] v a b = elim a [ ]
Evolves-trans (r ∷ t) (s ∷ u) [] a b = elim b [ ]
Evolves-trans (r ∷ t) (s ∷ u) (q ∷ v) (a, rest) (b, more) =
    (Later-trans r s q a b, Evolves-trans t u v rest more)

pub Evolves-append : (t u : Table) → Evolves t (t ++ u)
Evolves-append [] u = tt
Evolves-append (r ∷ t) u = (Later-refl r, Evolves-append t u)

pub Evolves-map : (f : Ask → Ask) (t : Table) → ((r : Ask) → Later r (f r)) → Evolves t (map f t)
Evolves-map f [] h = tt
Evolves-map f (r ∷ t) h = (h r, Evolves-map f t h)

pub Later-if : (b : Bool) (r s : Ask) → (b ≡ true → Later r s) → Later r (if b then s else r)
Later-if true r s h = h refl
Later-if false r s h = Later-refl r

pub Evolves-update :
    (p : Ask → Bool) (f : Ask → Ask) (t : Table)
    → ((r : Ask) → p r ≡ true → Later r (f r))
    → Evolves t (update p f t)
Evolves-update p f t h =
    rw (update-map p f t)
      (Evolves-map (λ r. if p r then f r else r) t (λ r. Later-if (p r) r (f r) (h r)))

pub expire_row-Later : (limits : Limits) (now : Time) (r : Ask) → Later r (expire_row limits now r)
expire_row-Later limits now r = record {
  same_id = ground arith;
  same_server = ground arith;
  same_tool = ground arith;
  same_args = ground arith;
  same_digest = ground arith;
  same_client = ground arith;
  same_schema = ground arith;
  same_token = ground arith;
  same_deadline = ground arith;
  status = ground arith;
  claim_kept = λ h k. ground arith;
  claim_allowed = λ h k. ground arith;
}

pub expire_tool_asks-Evolves :
    (limits : Limits) (now : Time) (t : Table) → Evolves t (expire_tool_asks limits now t)
expire_tool_asks-Evolves limits now t =
    rw (expire_tool_asks-map limits now t)
      (Evolves-map (expire_row limits now) t (expire_row-Later limits now))

pub resolve_row-Later :
    (decision : Status) (now : Time) (actor : Text) (r : Ask)
    → is_pending r ≡ true
    → Later r (resolve_row decision now actor r)
resolve_row-Later decision now actor r h = record {
  same_id = refl;
  same_server = refl;
  same_tool = refl;
  same_args = refl;
  same_digest = refl;
  same_client = refl;
  same_schema = refl;
  same_token = refl;
  same_deadline = refl;
  status = ground arith;
  claim_kept = λ k l. ground arith;
  claim_allowed = λ k l. absurd (l k);
}

pub claim_row-Later :
    (limits : Limits) (now : Time) (r : Ask)
    → claimable limits now r ≡ true
    → Later r (claim_row now r)
claim_row-Later limits now r h = record {
  same_id = refl;
  same_server = refl;
  same_tool = refl;
  same_args = refl;
  same_digest = refl;
  same_client = refl;
  same_schema = refl;
  same_token = refl;
  same_deadline = refl;
  status = ground arith;
  claim_kept = λ k l. ground arith;
  claim_allowed = λ k l. ground arith;
}

pub withdraw_row-Later :
    (limits : Limits) (now : Time) (r : Ask)
    → (is_pending r || claimable limits now r) ≡ true
    → Later r (withdraw_row now r)
withdraw_row-Later limits now r h = record {
  same_id = refl;
  same_server = refl;
  same_tool = refl;
  same_args = refl;
  same_digest = refl;
  same_client = refl;
  same_schema = refl;
  same_token = refl;
  same_deadline = refl;
  status = ground arith;
  claim_kept = λ k l. ground arith;
  claim_allowed = λ k l. absurd (l k);
}

pub resolve_tool_ask-Evolves :
    (now : Time) (id : Text) (decision : Status) (actor : Text) (t : Table)
    → Evolves t (resolve_tool_ask now id decision actor t).1
unfolding resolve_tool_ask
resolve_tool_ask-Evolves now id decision actor t = elim (Bool-cases (is_decision decision)) [
  | inl e ↦ rw e (
      Evolves-update (λ (r : Ask). r.id == id && is_pending r) (resolve_row decision now actor) t
        (λ r h. resolve_row-Later decision now actor r (ground arith)))
  | inr e ↦ rw e (Evolves-refl t)
]

module _ (limits : Limits) where
  pub get_tool_ask-Evolves :
      (now : Time) (id : Text) (t : Table) → Evolves t (get_tool_ask limits now id t).1
  unfolding get_tool_ask
  get_tool_ask-Evolves now id t = expire_tool_asks-Evolves limits now t

  pub withdraw_tool_ask-Evolves :
      (now later : Time) (id : Text) (t : Table)
      → Evolves t (withdraw_tool_ask limits now later id t).1
  unfolding withdraw_tool_ask
  withdraw_tool_ask-Evolves now later id t =
      Evolves-trans t (expire_tool_asks limits now t) _ (expire_tool_asks-Evolves limits now t) (
        Evolves-update (λ r. r.id == id && (is_pending r || claimable limits later r))
          (withdraw_row later) (expire_tool_asks limits now t)
          (λ r h. withdraw_row-Later limits later r (ground arith)))

  pub claim_tool_ask-Evolves :
      (now later last : Time) (id : Text) (t : Table)
      → Evolves t (claim_tool_ask limits now later last id t).1
  unfolding claim_tool_ask
  claim_tool_ask-Evolves now later last id t = elim (Bool-cases (changes hit t')) [
    | inl e ↦ rw e (Evolves-trans t claimed _ claims (get_tool_ask-Evolves last id claimed))
    | inr e ↦ rw e claims
  ]
    where
      t' : Table
      t' = expire_tool_asks limits now t

      hit : Ask → Bool
      hit r = r.id == id && claimable limits later r

      claimed : Table
      claimed = update hit (claim_row later) t'

      claims : Evolves t claimed
      claims = Evolves-trans t t' claimed (expire_tool_asks-Evolves limits now t) (
          Evolves-update hit (claim_row later) t'
            (λ r h. claim_row-Later limits later r (ground arith)))

-- The row that had the id `id` still has it.
pub find-Evolves :
    (id : Text) (t u : Table) (r : Ask)
    → Evolves t u
    → find (λ x. x.id == id) t ≡ some r
    → (s : Ask) × (find (λ x. x.id == id) u ≡ some s) × Later r s
unfolding find
find-Evolves id [] u r e h = absurd (cc)
find-Evolves id (x ∷ t) [] r e h = elim e [ ]
find-Evolves id (x ∷ t) (y ∷ u) r (e, rest) h = elim (Bool-cases (x.id == id)) [
  | inl hit ↦
      let same : x ≡ r = ground arith in
      (y, ground (arith, e.same_id), subst (λ z. Later z y) same e)
  | inr miss ↦
      let (s, there, later) = find-Evolves id t u r rest (ground arith) in
      (s, ground (arith, e.same_id), later)
]

module _ (limits : Limits) where
  pub ask_by_token-Evolves :
      (now : Time) (token : Text) (t : Table) → Evolves t (ask_by_token limits now token t).1
  unfolding ask_by_token
  ask_by_token-Evolves now token t = expire_tool_asks-Evolves limits now t
