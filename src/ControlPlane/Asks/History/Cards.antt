-- ===== src/ControlPlane/Asks/History/Cards.antt =====
-- Identical tool calls share one card of control-plane/holds.py: the join of `_register_tool_ask`.
use dockade.Base.{
  ◌≤◌, ◌≡◌, refl, sym, ◌∙◌, Bool, true, false, ◌&&◌, none, [], ◌∷◌, ◌++◌, arith, ==_iff, nat_eq,
  list_eq, option_eq, filter, find, length,
}
use dockade.Base.Text.{Text}
use dockade.ControlPlane.Holds.{Time, Saturation}
use dockade.ControlPlane.Asks.{
  Ask, Table, Limits, status_eq, is_pending, expire_tool_asks, get_tool_ask, ask_by_token,
}
use dockade.ControlPlane.Asks.Evolution.{
  Later, Evolves, expire_tool_asks-Evolves, resolve_tool_ask-Evolves, claim_tool_ask-Evolves,
  withdraw_tool_ask-Evolves,
}
use dockade.ControlPlane.Asks.Register.{
  Call, register_tool_ask, insert_ask, refuse_tool, new_ask, is_same_call,
}
use dockade.ControlPlane.Asks.Registration.{register_rule, queue}
use dockade.ControlPlane.Asks.History.{
  Log, History, start, registered, read_by_id, read_by_token, resolved, claimed, withdrew,
}
use dockade.ControlPlane.Asks.History.Caps.{
  count, count-append, count-filter, count-sort_by_ts, count-Evolves, length-expire, length-resolve,
  length-claim, length-withdraw,
}

-- The pending asks that a call with this digest would join.
abbrev pub is_card_of : Call → Text → Ask → Bool
is_card_of call digest r = is_pending r && is_same_call call digest r

is_card_of_back :
    (call : Call) (digest : Text) (r s : Ask)
    → Later r s
    → is_card_of call digest s ≡ true
    → is_card_of call digest r ≡ true
is_card_of_back call digest r s later h =
    ground (arith, later.status, later.same_client, later.same_digest, later.same_schema)

count_of_find : (p : Ask → Bool) (t : Table) → find p t ≡ none → count p t ≡ 0
unfolding find filter
count_of_find p [] h = refl
count_of_find p (r ∷ t) h = ground (arith, count_of_find p t)

count_congr : (p q : Ask → Bool) (t : Table) → ((r : Ask) → p r ≡ q r) → count p t ≡ count q t
unfolding filter
count_congr p q [] h = refl
count_congr p q (r ∷ t) h = ground (arith, count_congr p q t h, h r)

count-queue : (p : Ask → Bool) (t : Table) → count p (queue t) ≡ count (λ r. is_pending r && p r) t
count-queue p t = count-sort_by_ts p (filter is_pending t) ∙ count-filter p is_pending t

-- Every call has at most one card.
abbrev pub HasOneCards : Table → Type 0
HasOneCards t = (call : Call) (digest : Text) → length (filter (is_card_of call digest) t) ≤ 1

kept-HasOneCards : (t u : Table) → length u ≡ length t → Evolves t u → HasOneCards t → HasOneCards u
kept-HasOneCards t u same e c call digest = omega (
  arith,
  c call digest,
  count-Evolves (is_card_of call digest) t u (is_card_of_back call digest) same e,
)

module _ (limits : Limits) where
  expired-HasOneCards :
      (now : Time) (t : Table) → HasOneCards t → HasOneCards (expire_tool_asks limits now t)
  expired-HasOneCards now t =
      kept-HasOneCards t (expire_tool_asks limits now t) (length-expire limits now t)
        (expire_tool_asks-Evolves limits now t)

  insert-HasOneCards :
      (now : Time) (id token digest : Text) (call : Call) (t : Table)
      → find (is_same_call call digest) (queue t) ≡ none
      → HasOneCards t
      → HasOneCards (t ++ new_ask limits now id token digest call ∷ [])
  insert-HasOneCards now id token digest call t absent c other d =
      by_card (is_card_of other d new) refl
    where
      new : Ask
      new = new_ask limits now id token digest call

      none_yet : is_card_of other d new ≡ true → count (is_card_of other d) t ≡ 0
      none_yet alike =
          unfold new_ask in
          (let client : call.client ≡ other.client =
              (==_iff call.client other.client).0 (ground arith) in
            let schema : call.schema_digest ≡ other.schema_digest =
              (==_iff call.schema_digest other.schema_digest).0 (ground arith) in
            let same : digest ≡ d = (==_iff digest d).0 (ground arith) in
            rw (← same) (
              count_congr (is_card_of other digest) (is_card_of call digest) t
                (λ r. rw (client, schema) refl)
              ∙ sym (count-queue (is_same_call call digest) t)
              ∙ count_of_find (is_same_call call digest) (queue t) absent))

      by_card :
          (b : Bool) → is_card_of other d new ≡ b → count (is_card_of other d) (t ++ new ∷ []) ≤ 1
      by_card true alike =
          rw (count-append (is_card_of other d) t new, alike, none_yet alike) (omega arith)
      by_card false differs = rw (count-append (is_card_of other d) t new, differs) (c other d)

  module _ (digest : Text → Text → Text → Text) where
    register-HasOneCards :
        (now later : Time) (id token : Text) (call : Call) (sat : Saturation) (t : Table)
        → HasOneCards t
        → HasOneCards (register_tool_ask limits digest now later id token call sat t).2
    register-HasOneCards now later id token call sat t c =
        register_rule limits digest now later id token call sat t (λ out. HasOneCards out.2) c c
          (λ r h. expired-HasOneCards now t c)
          (λ scope cooling. unfold refuse_tool in expired-HasOneCards now t c)
          (λ absent room.
            unfold insert_ask in
            insert-HasOneCards later id token _ call (expire_tool_asks limits now t) absent
              (expired-HasOneCards now t c))

    -- In any history, at most one pending ask has a given client, payload digest and schema digest.
    pub History-HasOneCards :
        (log : Log) (sat : Saturation) (t : Table) → History limits digest log sat t → HasOneCards t
    unfolding get_tool_ask ask_by_token filter
    History-HasOneCards log sat t (start s) = λ call d. omega arith
    History-HasOneCards log sat t (registered {sat = s} {t = u} now later id token call h fresh) =
        register-HasOneCards now later id token call s u (History-HasOneCards log s u h)
    History-HasOneCards log sat t (read_by_id {t = u} now id h) =
        expired-HasOneCards now u (History-HasOneCards log sat u h)
    History-HasOneCards log sat t (read_by_token {t = u} now token h) =
        expired-HasOneCards now u (History-HasOneCards log sat u h)
    History-HasOneCards log sat t (resolved {log = old} {t = u} now id decision actor h) =
        kept-HasOneCards u _ (length-resolve now id decision actor u)
          (resolve_tool_ask-Evolves now id decision actor u) (History-HasOneCards old sat u h)
    History-HasOneCards log sat t (claimed {log = old} {t = u} now later last id h) =
        kept-HasOneCards u _ (length-claim limits now later last id u)
          (claim_tool_ask-Evolves limits now later last id u) (History-HasOneCards old sat u h)
    History-HasOneCards log sat t (withdrew {log = old} {t = u} now later id h) =
        kept-HasOneCards u _ (length-withdraw limits now later id u)
          (withdraw_tool_ask-Evolves limits now later id u) (History-HasOneCards old sat u h)
