-- ===== src/ControlPlane/Egress/Tests.antt =====
-- The egress authorization of control-plane/api_authorize.py and api_approvals.py: runs, and the theorems
-- at inputs.
use dockade.Base.{
  ◌≡◌, refl, ◌≢◌, true, false, none, some, Option, [], ◌∷◌, list_eq, nat_eq, ◌==◌, if◌then◌else◌,
  filter, find, any, all, contains,
}
use dockade.Base.Dict.{get, put, remove}
use dockade.Base.Table.{update, row_count}
use dockade.Base.Weigh.{weigh}
use dockade.Base.Text.{
  Text, text, lower, lower_char, is_space, strip, lstrip, rstrip, ends_with, split_on, join_dot,
  starts_with,
}
use dockade.ControlPlane.Holds.{
  group_key, client_of, refuse, joinable, join_card, open_card, reserve_card, reserve_hold,
  close_items, close_group, drop_card, release_hold, empty_registry, total_waiters,
  client_waiters_locked, client_cards, over_client_cap,
}
use dockade.ControlPlane.Holds.Invariant.{empty_registry-IsConsistent}
use dockade.ControlPlane.Holds.Orphans.{Approval}
use dockade.ControlPlane.Asks.Register.{unencodable}
use dockade.ControlPlane.Policy.Hosts.{
  Address, client_class, class_of, in_network, normalize_host, match, persist_candidates,
  exact_form, add_wildcard, last_labels,
}
use dockade.ControlPlane.Policy.Rules.{
  allow, deny, ruling, ruling_in, rule_pass, passes_over, live_lease, longest_lived, held,
  sorted_set, insert_sorted,
}
use dockade.ControlPlane.Egress.{
  AuthorizeRequest, ask, by_decision, by_slot, write_line, is_unencodable, record_hold, insert_card,
  insert_row, with_rows, abandon, settle, row_read, final_answer, status_of, decision_scope,
  expire_card, respond, no_decision, has_id,
}
use dockade.ControlPlane.Egress.Resolve.{
  ResolveRequest, Receipt, resolved, resolve, with_event, with_row, check_grant, check_pattern,
  check_existing, checked, decide_card, write_policy, write_lease, write_rule, receipt,
}
use dockade.ControlPlane.Egress.Steps.{
  World, Settings, Step, Run, asks, records, settles, resolves, done, next, enter, leave,
}
use dockade.ControlPlane.Egress.Invariant.{IsSoundWorld, Run-Kept}
use dockade.ControlPlane.Egress.Agreement.{
  settled, clicked, settle-agrees, settle-timeout, resolve-decides,
}
use dockade.ControlPlane.Egress.Grants.{IsGranted, Run-IsGranted}
use dockade.ControlPlane.Egress.Slots.{IsStart, IsIdle, Run-IsIdle, start-IsSoundWorld}
use dockade.ControlPlane.Egress.Refine.{CardStep, card_of, card_of_row, Step-CardStep}
use dockade.ControlPlane.Egress.Answers.{IsAnswer, ask-IsAnswer}

abbrev one_ip : Text → Option Address
one_ip t = if t == text "10.0.0.7" then some (record { version = 4; value = 167772167 }) else none

abbrev settings : Settings
settings = record {
  parse_ip = one_ip;
  classes = (text "sandbox", record { version = 4; base = 167772160; prefix_len = 24 }) ∷ [];
  caps = record {
    hold_timeout = 120;
    max_pending = 12;
    max_pending_per_client = 4;
    max_waiters = 16;
    max_waiters_per_client = 8;
  };
  lease_seconds = 900;
}

abbrev request : AuthorizeRequest
request = record {
  host = text "Api.example.com";
  port = some 443;
  proto = some (text "tls");
  client = some (text "10.0.0.7");
  method = some (text "CONNECT");
  url = none;
  stage = none;
}

abbrev at_start : World
at_start = record {
  state = record {
    registry = empty_registry;
    approvals = [];
    policy = record { rules = []; leases = [] };
    audit = [];
    woken = [];
  };
  waiting = [];
}

at_start-IsStart : IsStart at_start
at_start-IsStart = record { registry = refl; waiting = refl; unique = tt }

-- What a run computes through: naming this opens all of it.
all_steps : Unit {0}
unfolding reserve_hold reserve_card open_card join_card joinable group_key lower lower_char
    total_waiters client_waiters_locked client_cards over_client_cap client_of weigh get put remove
    release_hold drop_card close_group close_items refuse is_space strip lstrip rstrip ends_with
    split_on join_dot starts_with filter find any all contains update row_count unencodable
    client_class class_of in_network normalize_host match persist_candidates exact_form add_wildcard
    last_labels ruling ruling_in rule_pass passes_over live_lease longest_lived held sorted_set
    insert_sorted ask by_decision by_slot write_line is_unencodable record_hold insert_card
    insert_row with_rows abandon settle row_read final_answer status_of decision_scope expire_card
    resolve with_event with_row check_grant check_pattern check_existing checked decide_card
    write_policy write_lease write_rule receipt enter leave card_of_row
all_steps = tt

abbrev asked : World
asked =
    let out =
      ask one_ip settings.classes settings.caps 100 100 (text "a1") 1 request at_start.state in
    record { state = out.1; waiting = enter out.0 [] }

abbrev pending : World
pending =
    let out = record_hold one_ip settings.classes true 100 (text "a1") request false asked.state in
    record {
      state = out.1;
      waiting = if out.0 then asked.waiting else leave (text "a1") asked.waiting;
    }

asks-Step : Step settings at_start asked
unfolding get
asks-Step = asks 100 100 (text "a1") 1 request refl refl

records-Step : Step settings asked pending
records-Step = records true 100 (text "a1") request false (unfold all_steps in refl) refl

Run-pending : Run settings at_start pending
Run-pending = next (next (done refl) asks-Step) records-Step

pending-IsSoundWorld : IsSoundWorld settings.caps pending
pending-IsSoundWorld =
    (Run-Kept settings (start-IsSoundWorld settings at_start at_start-IsStart) Run-pending).sound

abbrev row : Approval
row = record {
  id = text "a1";
  ts = 100;
  host = text "Api.example.com";
  port = some 443;
  proto = some (text "tls");
  client = some (text "10.0.0.7");
  client_class = some (text "sandbox");
  method = some (text "CONNECT");
  url = none;
  status = text "pending";
  resolved_at = none;
  resolved_by = none;
  mode = none;
  pattern = none;
}

pending_row : find (has_id (text "a1")) pending.state.approvals ≡ some row
unfolding all_steps
pending_row = refl

-- The worker times out, and a second one that had joined is told the same.
settle-agrees_example :
    (settle one_ip settings.classes 230
      (text "a1")
      request
      (settled settings 220 (text "a1") request pending).state).0
    ≡ (settle one_ip settings.classes 220 (text "a1") request pending.state).0
settle-agrees_example =
    settle-agrees settings pending (settled settings 220 (text "a1") request pending) (text "a1")
      row 220 230 request request pending-IsSoundWorld pending_row (done refl)

abbrev click : ResolveRequest
click = record { action = text " Allow_Lease"; pattern = none }

settle-timeout_example :
    ((settle one_ip settings.classes 220 (text "a1") request pending.state).0
      ≡ respond deny no_decision)
    × ((r : Receipt)
        → (resolve one_ip 230 900
            (text "ui")
            1
            (text "a1")
            click
            (settled settings 220 (text "a1") request pending).state).0
          ≢ resolved r)
    × ((resolve one_ip 230 900
          (text "ui")
          1
          (text "a1")
          click
          (settled settings 220 (text "a1") request pending).state).1
        ≡ (settled settings 220 (text "a1") request pending).state)
settle-timeout_example =
    settle-timeout settings pending (settled settings 220 (text "a1") request pending) (text "a1")
      row 220 230 request (text "ui") 1 click pending-IsSoundWorld pending_row refl (done refl)

abbrev allowed : World
allowed = clicked settings 150 (text "ui") 1 (text "a1") click pending

abbrev lease_receipt : Receipt
lease_receipt = record {
  outcome = allow;
  persisted = false;
  already_present = false;
  pattern = none;
  lease_expires_at = some 1050;
  client_class = some (text "sandbox");
}

allowed_receipt :
    (resolve one_ip 150 900 (text "ui") 1 (text "a1") click pending.state).0
    ≡ resolved lease_receipt
unfolding all_steps
allowed_receipt = refl

resolve-decides_example :
    ((settle one_ip settings.classes 160 (text "a1") request allowed.state).0.decision ≡ allow)
    × ((settle one_ip settings.classes 160 (text "a1") request allowed.state).0.reason
        ≢ no_decision)
resolve-decides_example =
    resolve-decides settings pending allowed (text "a1") 150 160 (text "ui") 1 click request
      lease_receipt pending-IsSoundWorld allowed_receipt (done refl)

-- The lease lets the next request through with no card.
abbrev next_ask : World
next_ask =
    let out =
      ask one_ip settings.classes settings.caps 200 200 (text "b2") 2 request allowed.state in
    record { state = out.1; waiting = enter out.0 allowed.waiting }

lease_used : next_ask.waiting ≡ allowed.waiting
unfolding all_steps
lease_used = refl

Run-allowed : Run settings at_start allowed
Run-allowed = next Run-pending (resolves 150 (text "ui") 1 (text "a1") click refl)

at_start-IsGranted : IsGranted [] at_start.state
at_start-IsGranted = record { leases = λ l m. elim m [ ]; rules = λ r m. elim m [ ] }

Run-IsGranted_example : IsGranted [] allowed.state
Run-IsGranted_example =
    Run-IsGranted settings [] (start-IsSoundWorld settings at_start at_start-IsStart)
      at_start-IsGranted Run-allowed

abbrev over : World
over = settled settings 160 (text "a1") request allowed

settles-Step : Step settings allowed over
settles-Step = settles 160 (text "a1") request (unfold all_steps in refl) refl

Run-IsIdle_example : IsIdle over.state.registry
Run-IsIdle_example =
    Run-IsIdle settings at_start over at_start-IsStart (next Run-allowed settles-Step)
      (unfold all_steps in refl)

Step-CardStep_example : CardStep (card_of (text "a1") allowed) (card_of (text "a1") over)
Step-CardStep_example = Step-CardStep settings allowed over (text "a1") settles-Step

ask-IsAnswer_example :
    IsAnswer one_ip settings.classes settings.caps 100 100 (text "a1") 1 request at_start.state
ask-IsAnswer_example =
    ask-IsAnswer one_ip settings.classes settings.caps 100 100 (text "a1") 1 request at_start.state
      empty_registry-IsConsistent
