-- ===== src/ControlPlane/Asks/History.antt =====
-- Histories of the tool asks: the operations of control-plane/holds.py in any order, each at any
-- reading of the clock, and what they let through.
pub mod Logged
pub mod Writes
pub mod Safety
pub mod Caps
pub mod Cards
use dockade.Base.{
  ℕ, ◌≡◌, Bool, true, false, Option, none, some, List, [], ◌∷◌, ◌==◌, if◌then◌else◌, list_eq,
  nat_eq, contains,
}
use dockade.Base.Text.{Text}
use dockade.ControlPlane.Holds.{Time, Saturation}
use dockade.ControlPlane.Asks.{
  Ask, Table, Limits, Status, allowed, get_tool_ask, ask_by_token, resolve_tool_ask, claim_tool_ask,
  withdraw_tool_ask,
}
use dockade.ControlPlane.Asks.Lookup.{lookup}
use dockade.ControlPlane.Asks.Register.{Call, register_tool_ask}

-- What has come back so far: the ids that were allowed, that were claimed and that were withdrawn.
pub record Log : Type 0 where
  pub grants : List Text
  pub claims : List Text
  pub withdrawals : List Text

abbrev pub log_resolved : Text → Option Status → Log → Log
log_resolved id (some allowed) log = record log { grants = id ∷ log.grants }
log_resolved id _ log = log

abbrev pub log_claimed : Text → Option Ask → Log → Log
log_claimed id (some r) log = record log { claims = id ∷ log.claims }
log_claimed id none log = log

abbrev pub log_withdrawn : Text → Bool → Log → Log
log_withdrawn id b log = if b then record log { withdrawals = id ∷ log.withdrawals } else log

module _ (limits : Limits) (digest : Text → Text → Text → Text) where
  pub data History : Log → Saturation → Table → Type 0 where
    start :
        (sat : Saturation) → History (record { grants = []; claims = []; withdrawals = [] }) sat []
    -- `id` is a new UUID
    registered :
        {log : Log} {sat : Saturation} {t : Table} (now later : Time) (id token : Text)
        (call : Call)
        → History log sat t
        → lookup id t ≡ none
        → History log
            (register_tool_ask limits digest now later id token call sat t).1
            (register_tool_ask limits digest now later id token call sat t).2
    read_by_id :
        {log : Log} {sat : Saturation} {t : Table} (now : Time) (id : Text)
        → History log sat t
        → History log sat (get_tool_ask limits now id t).1
    read_by_token :
        {log : Log} {sat : Saturation} {t : Table} (now : Time) (token : Text)
        → History log sat t
        → History log sat (ask_by_token limits now token t).1
    resolved :
        {log : Log} {sat : Saturation} {t : Table} (now : Time) (id : Text) (decision : Status)
        (actor : Text)
        → History log sat t
        → History
            (log_resolved id (resolve_tool_ask now id decision actor t).0 log)
            sat
            (resolve_tool_ask now id decision actor t).1
    claimed :
        {log : Log} {sat : Saturation} {t : Table} (now later last : Time) (id : Text)
        → History log sat t
        → History
            (log_claimed id (claim_tool_ask limits now later last id t).0 log)
            sat
            (claim_tool_ask limits now later last id t).1
    withdrew :
        {log : Log} {sat : Saturation} {t : Table} (now later : Time) (id : Text)
        → History log sat t
        → History
            (log_withdrawn id (withdraw_tool_ask limits now later id t).0 log)
            sat
            (withdraw_tool_ask limits now later id t).1

-- No id occurs twice.
abbrev pub HasNoRepeats : List Text → Type 0
HasNoRepeats [] = Unit
HasNoRepeats (id ∷ ids) = (contains id ids ≡ false) × HasNoRepeats ids
