-- ===== src/ControlPlane/Asks/Answers.antt =====
-- What `_register_tool_ask` of control-plane/holds.py answers, on every branch.
use mathlib.Core.List.{Memᴰ}
use dockade.Base.{
  ◌≡◌, refl, sym, ◌≢◌, ◌⊎◌, Bool, true, none, some, [], ◌∷◌, ◌++◌, arith, leb, ==_iff, Bool-cases,
  inl, inr, nat_eq, list_eq, option_eq, filter, find,
}
use dockade.Base.Members.{mem_of_mem-filter}
use dockade.Base.Text.{Text}
use dockade.ControlPlane.Holds.{Time, Saturation}
use dockade.ControlPlane.Asks.{Ask, Table, Limits, pending, status_eq, is_pending, expire_tool_asks}
use dockade.ControlPlane.Asks.Evolution.{
  Evolves, Evolves-refl, Evolves-append, Evolves-trans, expire_tool_asks-Evolves,
}
use dockade.ControlPlane.Asks.Register.{
  Call, register_tool_ask, join_ask, insert_ask, refuse_tool, new_ask, ToolAsk, is_same_call,
  sort_by_ts, insert_by_ts,
}
use dockade.ControlPlane.Asks.Registration.{register_rule, queue}

mem_of_find : (p : Ask → Bool) (t : Table) (r : Ask) → find p t ≡ some r → Memᴰ r t × (p r ≡ true)
unfolding find
mem_of_find p [] r h = absurd (cc)
mem_of_find p (x ∷ t) r h = elim (Bool-cases (p x)) [
  | inl hit ↦ let same : x ≡ r = ground arith in (Memᴰ.head (sym same), rw (← same) hit)
  | inr miss ↦ let (there, ok) = mem_of_find p t r (ground arith) in (Memᴰ.tail there, ok)
]

mem_cons : (b r : Ask) (xs ys : Table) → (Memᴰ r xs → Memᴰ r ys) → Memᴰ r (b ∷ xs) → Memᴰ r (b ∷ ys)
mem_cons b r xs ys f (Memᴰ.head h) = Memᴰ.head h
mem_cons b r xs ys f (Memᴰ.tail m) = Memᴰ.tail (f m)

mem_swap : (a b r : Ask) (t : Table) → Memᴰ r (b ∷ a ∷ t) → Memᴰ r (a ∷ b ∷ t)
mem_swap a b r t (Memᴰ.head h) = Memᴰ.tail (Memᴰ.head h)
mem_swap a b r t (Memᴰ.tail m) = mem_cons a r t (b ∷ t) (λ n. Memᴰ.tail n) m

mem_of_insert_by_ts : (a : Ask) (t : Table) (r : Ask) → Memᴰ r (insert_by_ts a t) → Memᴰ r (a ∷ t)
unfolding insert_by_ts
mem_of_insert_by_ts a [] r m = m
mem_of_insert_by_ts a (b ∷ t) r m = elim (Bool-cases (leb a.ts b.ts)) [
  | inl e ↦ (rw e at m)
  | inr e ↦
      mem_swap a b r t
        (mem_cons b r (insert_by_ts a t) (a ∷ t) (mem_of_insert_by_ts a t r) (rw e at m))
]

mem_of_sort_by_ts : (t : Table) (r : Ask) → Memᴰ r (sort_by_ts t) → Memᴰ r t
unfolding sort_by_ts
mem_of_sort_by_ts [] r m = m
mem_of_sort_by_ts (a ∷ t) r m =
    mem_cons a r (sort_by_ts t) t (mem_of_sort_by_ts t r) (mem_of_insert_by_ts a (sort_by_ts t) r m)

mem_last : (t : Table) (r : Ask) → Memᴰ r (t ++ r ∷ [])
mem_last [] r = Memᴰ.head refl
mem_last (x ∷ t) r = Memᴰ.tail (mem_last t r)

-- The answer names a pending row of `t`, and that row is an ask of this call.
pub record IsHandleOn (call : Call) (digest : Text) (a : ToolAsk) (t : Table) (r : Ask)
    : Type 0 where
  pub there : Memᴰ r t
  pub waits : r.status ≡ pending
  pub same_client : r.client ≡ call.client
  pub same_digest : r.args_digest ≡ digest
  pub same_schema : r.schema_digest ≡ call.schema_digest
  pub approval_id : a.approval_id ≡ some r.id
  pub resume_token : a.resume_token ≡ some r.resume_token
  pub deadline : a.deadline ≡ r.deadline
  pub admitted : a.refused ≡ none

abbrev pub IsRefusal : ToolAsk → Type 0
IsRefusal a = (a.approval_id ≡ none) × (a.resume_token ≡ none) × (a.refused ≢ none)

module _ (limits : Limits) (digest : Text → Text → Text → Text) (now later : Time) (id token : Text)
    (call : Call) (sat : Saturation) (t : Table) where
  abbrev named : Text
  named = digest call.server call.tool call.args_json

  -- The call is refused, or the answer is a handle on a pending ask of this very call in the table
  -- that is left. The table that is left has every row that there was, with what was asked for, by
  -- whom and under which token unchanged; an admitted call leaves the saturation account alone.
  pub register_tool_ask-Answer :
      let out : ToolAsk × Saturation × Table =
        register_tool_ask limits digest now later id token call sat t in
      (IsRefusal out.0 ⊎ ((r : Ask) × IsHandleOn call named out.0 out.2 r × (out.1 ≡ sat)))
      × Evolves t out.2
  register_tool_ask-Answer =
      register_rule limits digest now later id token call sat t
        (λ out.
          (IsRefusal out.0 ⊎ ((r : Ask) × IsHandleOn call named out.0 out.2 r × (out.1 ≡ sat)))
          × Evolves t out.2)
        (inl (refl, refl, λ e. cc), Evolves-refl t) (inl (refl, refl, λ e. cc), Evolves-refl t)
        (λ r h. (inr (r, joined r h, refl), expire_tool_asks-Evolves limits now t))
        (λ scope cooling.
          unfold refuse_tool in (inl (refl, refl, λ e. cc), expire_tool_asks-Evolves limits now t))
        (λ absent room. unfold insert_ask in (inr (new, inserted, refl), grown))
    where
      u : Table
      u = expire_tool_asks limits now t

      new : Ask
      new = new_ask limits later id token named call

      joined :
          (r : Ask)
          → find (is_same_call call named) (queue u) ≡ some r
          → IsHandleOn call named (join_ask r) u r
      joined r h =
          unfold join_ask in
          (let (there, ok) = mem_of_find (is_same_call call named) (queue u) r h in
            let (in_table, waits) =
              mem_of_mem-filter is_pending u r (mem_of_sort_by_ts (filter is_pending u) r there) in
            record {
              there = in_table;
              waits = ground arith;
              same_client = (==_iff r.client call.client).0 (ground arith);
              same_digest = (==_iff r.args_digest named).0 (ground arith);
              same_schema = (==_iff r.schema_digest call.schema_digest).0 (ground arith);
              approval_id = refl;
              resume_token = refl;
              deadline = refl;
              admitted = refl;
            })

      inserted :
          IsHandleOn call named
            (insert_ask limits later id token named call sat u).0
            (u ++ new ∷ [])
            new
      inserted =
          unfold insert_ask new_ask in
          record {
            there = mem_last u new;
            waits = refl;
            same_client = refl;
            same_digest = refl;
            same_schema = refl;
            approval_id = refl;
            resume_token = refl;
            deadline = refl;
            admitted = refl;
          }

      grown : Evolves t (u ++ new ∷ [])
      grown =
          Evolves-trans t u (u ++ new ∷ []) (expire_tool_asks-Evolves limits now t)
            (Evolves-append u (new ∷ []))
