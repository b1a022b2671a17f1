-- ===== src/ControlPlane/Asks/History/Caps.antt =====
-- The caps on the pending asks of control-plane/holds.py hold in every history.
use dockade.Base.{
  ℕ, suc, ◌≤◌, ◌<◌, ◌≡◌, refl, sym, ◌∙◌, Bool, true, ◌&&◌, Option, some, [], ◌∷◌, ◌++◌, arith,
  if◌then◌else◌, ◌==◌, ==_iff, Bool-cases, inl, inr, nat_eq, list_eq, option_eq, filter, map,
  length,
}
use dockade.Base.Text.{Text}
use dockade.Base.Table.{update, changes}
use dockade.ControlPlane.Holds.{Time, Saturation, over_client_cap}
use dockade.ControlPlane.Asks.{
  Ask, Table, Limits, Status, status_eq, is_pending, claimable, resolve_row, is_decision,
  expire_tool_asks, get_tool_ask, ask_by_token, resolve_tool_ask, claim_tool_ask, withdraw_tool_ask,
}
use dockade.ControlPlane.Asks.Expiry.{expire_row, update-map, expire_tool_asks-map}
use dockade.ControlPlane.Asks.Evolution.{
  Later, Evolves, expire_tool_asks-Evolves, resolve_tool_ask-Evolves, claim_tool_ask-Evolves,
  withdraw_tool_ask-Evolves,
}
use dockade.ControlPlane.Asks.Register.{
  Call, register_tool_ask, insert_ask, refuse_tool, new_ask, client_asks, sort_by_ts, insert_by_ts,
}
use dockade.ControlPlane.Asks.Registration.{register_rule, queue, HasRoom}
use dockade.ControlPlane.Asks.History.{
  Log, History, start, registered, read_by_id, read_by_token, resolved, claimed, withdrew,
}

abbrev pub count : (Ask → Bool) → Table → ℕ
count p t = length (filter p t)

count-insert_by_ts :
    (p : Ask → Bool) (a : Ask) (t : Table) → count p (insert_by_ts a t) ≡ count p (a ∷ t)
unfolding insert_by_ts filter
count-insert_by_ts p a [] = refl
count-insert_by_ts p a (b ∷ t) = ground (arith, count-insert_by_ts p a t)

pub count-sort_by_ts : (p : Ask → Bool) (t : Table) → count p (sort_by_ts t) ≡ count p t
unfolding sort_by_ts filter
count-sort_by_ts p [] = refl
count-sort_by_ts p (a ∷ t) =
    ground (arith, count-insert_by_ts p a (sort_by_ts t), count-sort_by_ts p t)

pub count-filter : (p q : Ask → Bool) (t : Table) → count p (filter q t) ≡ count (λ r. q r && p r) t
unfolding filter
count-filter p q [] = refl
count-filter p q (r ∷ t) = ground (arith, count-filter p q t)

count-all : (t : Table) → count (λ r. true) t ≡ length t
unfolding filter
count-all [] = refl
count-all (r ∷ t) = ground (arith, count-all t)

pub count-append :
    (p : Ask → Bool) (t : Table) (r : Ask)
    → count p (t ++ r ∷ []) ≡ (if p r then suc (count p t) else count p t)
unfolding filter
count-append p [] r = ground arith
count-append p (x ∷ t) r = ground (arith, count-append p t r)

-- The statements other than the insertion keep the rows that there are.
length-map : (f : Ask → Ask) (t : Table) → length (map f t) ≡ length t
length-map f [] = refl
length-map f (r ∷ t) = ground (arith, length-map f t)

length-update : (p : Ask → Bool) (f : Ask → Ask) (t : Table) → length (update p f t) ≡ length t
length-update p f t = rw (update-map p f t) (length-map (λ r. if p r then f r else r) t)

pub length-resolve :
    (now : Time) (id : Text) (decision : Status) (actor : Text) (t : Table)
    → length (resolve_tool_ask now id decision actor t).1 ≡ length t
unfolding resolve_tool_ask
length-resolve now id decision actor t = elim (Bool-cases (is_decision decision)) [
  | inl e ↦
      rw e (length-update (λ r. r.id == id && is_pending r) (resolve_row decision now actor) t)
  | inr e ↦ rw e refl
]

module _ (limits : Limits) where
  pub length-expire : (now : Time) (t : Table) → length (expire_tool_asks limits now t) ≡ length t
  length-expire now t =
      rw (expire_tool_asks-map limits now t) (length-map (expire_row limits now) t)

  pub length-withdraw :
      (now later : Time) (id : Text) (t : Table)
      → length (withdraw_tool_ask limits now later id t).1 ≡ length t
  unfolding withdraw_tool_ask
  length-withdraw now later id t =
      length-update _ _ (expire_tool_asks limits now t) ∙ length-expire now t

  pub length-claim :
      (now later last : Time) (id : Text) (t : Table)
      → length (claim_tool_ask limits now later last id t).1 ≡ length t
  unfolding claim_tool_ask get_tool_ask
  length-claim now later last id t =
      elim (Bool-cases
        (changes (λ r. r.id == id && claimable limits later r) (expire_tool_asks limits now t))) [
          | inl e ↦ rw e (
              length-expire last _
              ∙ length-update _ _ (expire_tool_asks limits now t)
              ∙ length-expire now t)
          | inr e ↦ rw e (length-update _ _ (expire_tool_asks limits now t) ∙ length-expire now t)
        ]

-- A condition that no row comes to meet holds of no more rows later.
pub count-Evolves :
    (p : Ask → Bool) (t u : Table)
    → ((r s : Ask) → Later r s → p s ≡ true → p r ≡ true)
    → length u ≡ length t
    → Evolves t u
    → count p u ≤ count p t
unfolding filter
count-Evolves p [] [] back same e = omega arith
count-Evolves p [] (s ∷ u) back same e = absurd (ground (arith, same))
count-Evolves p (r ∷ t) [] back same e = elim e [ ]
count-Evolves p (r ∷ t) (s ∷ u) back same (later, rest) =
    ground (arith, count-Evolves p t u back (ground (arith, same)) rest, back r s later)

-- The pending asks, all of them and those of one client.
abbrev is_pending_of : Option Text → Ask → Bool
is_pending_of client r = is_pending r && r.client == client

is_pending_back : (r s : Ask) → Later r s → is_pending s ≡ true → is_pending r ≡ true
is_pending_back r s later h = ground (arith, later.status)

is_pending_of_back :
    (client : Option Text) (r s : Ask)
    → Later r s
    → is_pending_of client s ≡ true
    → is_pending_of client r ≡ true
is_pending_of_back client r s later h = ground (arith, later.status, later.same_client)

length-queue : (t : Table) → length (queue t) ≡ count is_pending t
length-queue t =
    sym (count-all (queue t))
    ∙ count-sort_by_ts (λ r. true) (filter is_pending t)
    ∙ count-all (filter is_pending t)

client_asks-queue :
    (client : Option Text) (t : Table)
    → client_asks client (queue t) ≡ count (is_pending_of client) t
unfolding client_asks
client_asks-queue client t =
    count-sort_by_ts (λ r. r.client == client) (filter is_pending t)
    ∙ count-filter (λ r. r.client == client) is_pending t

-- No more asks are pending than the caps admit; a cap of 0 on one client is none.
pub record IsWithinCaps (limits : Limits) (t : Table) : Type 0 where
  pub global : length (queue t) ≤ limits.max_tool_pending
  pub of_client :
      (client : Text)
      → 0 < limits.max_tool_pending_per_client
      → client_asks (some client) (queue t) ≤ limits.max_tool_pending_per_client

module _ (limits : Limits) where
  kept-IsWithinCaps :
      (t u : Table)
      → length u ≡ length t
      → Evolves t u
      → IsWithinCaps limits t
      → IsWithinCaps limits u
  kept-IsWithinCaps t u same e c = record {
    global = omega (
      arith,
      length-queue t,
      length-queue u,
      count-Evolves is_pending t u is_pending_back same e,
      c.global,
    );
    of_client = λ client on. omega (
      arith,
      client_asks-queue (some client) t,
      client_asks-queue (some client) u,
      count-Evolves (is_pending_of (some client)) t u (is_pending_of_back (some client)) same e,
      c.of_client client on,
    );
  }

  expired-IsWithinCaps :
      (now : Time) (t : Table)
      → IsWithinCaps limits t
      → IsWithinCaps limits (expire_tool_asks limits now t)
  expired-IsWithinCaps now t =
      kept-IsWithinCaps t (expire_tool_asks limits now t) (length-expire limits now t)
        (expire_tool_asks-Evolves limits now t)

  insert-IsWithinCaps :
      (now : Time) (id token digest : Text) (call : Call) (t : Table)
      → HasRoom limits now call.client t
      → IsWithinCaps limits t
      → IsWithinCaps limits (t ++ new_ask limits now id token digest call ∷ [])
  unfolding over_client_cap new_ask
  insert-IsWithinCaps now id token digest call t room c = record {
    global = ground (
      arith,
      length-queue t,
      length-queue (t ++ new ∷ []),
      count-append is_pending t new,
      room.global,
    );
    of_client = λ client on. ground (
      arith,
      client_asks-queue (some client) t,
      client_asks-queue (some client) (t ++ new ∷ []),
      count-append (is_pending_of (some client)) t new,
      ==_iff call.client (some client),
      c.of_client client on,
      room.of_client,
    );
  }
    where
      new : Ask
      new = new_ask limits now id token digest call

  module _ (digest : Text → Text → Text → Text) where
    register-IsWithinCaps :
        (now later : Time) (id token : Text) (call : Call) (sat : Saturation) (t : Table)
        → IsWithinCaps limits t
        → IsWithinCaps limits (register_tool_ask limits digest now later id token call sat t).2
    register-IsWithinCaps now later id token call sat t c =
        register_rule limits digest now later id token call sat t (λ out. IsWithinCaps limits out.2)
          c c (λ r h. expired-IsWithinCaps now t c)
          (λ scope cooling. unfold refuse_tool in expired-IsWithinCaps now t c)
          (λ h room.
            unfold insert_ask in
            insert-IsWithinCaps later id token _ call (expire_tool_asks limits now t) room
              (expired-IsWithinCaps now t c))

    -- In any history the pending asks are within both caps, of all asks and of each client.
    pub History-IsWithinCaps :
        (log : Log) (sat : Saturation) (t : Table)
        → History limits digest log sat t
        → IsWithinCaps limits t
    unfolding get_tool_ask ask_by_token client_asks sort_by_ts filter
    History-IsWithinCaps log sat t (start s) = record {
      global = omega arith;
      of_client = λ client on. omega arith;
    }
    History-IsWithinCaps log sat t (registered {sat = s} {t = u} now later id token call h fresh) =
        register-IsWithinCaps now later id token call s u (History-IsWithinCaps log s u h)
    History-IsWithinCaps log sat t (read_by_id {t = u} now id h) =
        expired-IsWithinCaps now u (History-IsWithinCaps log sat u h)
    History-IsWithinCaps log sat t (read_by_token {t = u} now token h) =
        expired-IsWithinCaps now u (History-IsWithinCaps log sat u h)
    History-IsWithinCaps log sat t (resolved {log = old} {t = u} now id decision actor h) =
        kept-IsWithinCaps u _ (length-resolve now id decision actor u)
          (resolve_tool_ask-Evolves now id decision actor u) (History-IsWithinCaps old sat u h)
    History-IsWithinCaps log sat t (claimed {log = old} {t = u} now later last id h) =
        kept-IsWithinCaps u _ (length-claim limits now later last id u)
          (claim_tool_ask-Evolves limits now later last id u) (History-IsWithinCaps old sat u h)
    History-IsWithinCaps log sat t (withdrew {log = old} {t = u} now later id h) =
        kept-IsWithinCaps u _ (length-withdraw limits now later id u)
          (withdraw_tool_ask-Evolves limits now later id u) (History-IsWithinCaps old sat u h)
