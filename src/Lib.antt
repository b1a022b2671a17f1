-- ===== src/Lib.antt =====
-- The decisions of dockade: the control plane that governs the egress and the tool calls of
-- sandboxed agents.
--
-- The program. A sandboxed agent reaches the network only through the egress proxy
-- (proxies/egress) and third-party tools only through the tool gateway (tool-gateway). Both ask the
-- control plane (control-plane) for every decision; an operator answers what it holds. The task
-- registry (task-registry) keeps the work that operators and agents share.
--
-- What is modelled, and where:
--   ControlPlane/Holds: control-plane/holds.py, the in-memory registry of held requests. A
--     `Registry` is the five dicts and the saturation account; `reserve_hold`, `close_group` and
--     `release_hold` are `_reserve_hold`, `_close_group` and `_release_hold`. They run under one
--     lock, so an interleaving of requests is a sequence of steps (Holds/Steps).
--   ControlPlane/Policy: the egress half of control-plane/policy.py. Hosts holds the client classes
--     (`_parse_client_classes`, `_client_class`), the matcher (`_match`, `_normalize_host`) and the
--     patterns (`_persist_candidates`, `_rule_error`); Rules holds the tables of rules and leases
--     and `_ruling_in`, `_live_lease`, `_held` and `_landing`.
--   ControlPlane/Asks: the tool asks of control-plane/holds.py. A `Table` is the rows of
--     `tool_approvals`; each operation is the sequence of its SQL statements (Base/Table has
--     `UPDATE … WHERE` and its `rowcount`): `register_tool_ask`, `expire_tool_asks`,
--     `get_tool_ask`, `ask_by_token`, `resolve_tool_ask`, `claim_tool_ask`, `withdraw_tool_ask`.
--     Asks/History has every order of them, with a log of what they answered.
--   ControlPlane/Tools: the tool half of control-plane/policy.py: `_pin_value`, `_parse_pins`,
--     `_pin_matches`, `_pins_met`, `_answering_pin` and `_tool_ruling`, over the tables of
--     servers, tool rules and pins.
--     Tools/Servers has what a registration is refused for.
--   ControlPlane/Asks/Ended and Banner and Orphans of ControlPlane/Holds: `_grant_lapsed`,
--     `_list_withdrawn`, `_saturation` and `_expire_orphaned_holds` of control-plane/holds.py.
--   ControlPlane/Pinned: `_resolve_tool_ask_pinned` of control-plane/holds.py, over the tables of
--     Asks and Tools.
--   ControlPlane/Egress: control-plane/api_authorize.py and `resolve` of control-plane/api_approvals.py.
--     A `State` is the registry of Holds with the tables and the audit. `ask`, `record_hold` and
--     `settle` are `_answer` cut at its waits, `abandon` its `finally` where a write fails, and
--     Resolve has `resolve` for a card of the proxy. Egress/Steps has them in every order; a click
--     is one step, where the source commits and closes the group at separate moments.
--   ControlPlane/Bridge: control-plane/api_tool.py, over the tables of Asks and Tools: `own_ask`,
--     `tool_authorize`, `tool_claim` and `tool_withdraw` are `_own_ask` and the handlers.
--   ControlPlane/Cards: `_pin_candidates` of control-plane/policy.py, and the tool half of `resolve`,
--     `_resolve_tool_ask_request` and `_allow_pinned` of control-plane/api_approvals.py.
--   TaskRegistry/Parents: `check_parent` and `insert` of task-registry/tasks.py and `reparent` of
--     task-registry/operator_moves.py. The loop over the ancestors runs on fuel, one unit more
--     than there are rows, and is proved never to run out.
--   TaskRegistry/Blockers: `check_blockers`, `_waits_on` and `set_blockers` of task-registry/tasks.py. A
--     round of the search takes one unit of fuel, and one for the task with one for each row are enough.
--   TaskRegistry/Claims: task-registry/claims.py. A `Registry` is the tasks and the claims;
--     `live`, `check_holder`, `take`, `renew`, `end` and `sweep` are its functions, `shared` and
--     `contains_path` the overlap of footprints. Claims/Sequence has their orders on a clock that
--     does not go back.
--   TaskRegistry/Fields: the checks on fields, state, repo and revision of task-registry/tasks.py.
--   TaskRegistry/Plans: the answers to a plan's decisions and the rows of task-registry/plans.py.
--   TaskRegistry/Lifecycle: `update` of task-registry/tasks.py and the moves of
--     task-registry/agent_moves.py (Agents) and task-registry/operator_moves.py (Operator). A `Store` is
--     the tables that the moves read; a move that is refused leaves it as it was. Neither the rows of
--     notes and history, which no move reads, nor the replies but for the revision are modelled.
--   Base: Python's lists, dicts and texts, and the tests of conditions.
--
-- How the model stands to the source:
--   The clock is a natural number of ticks. A function that reads it more than once takes each
--   reading as an argument, and no theorem needs the readings in order unless it says so. Identifiers
--   and tokens that the source mints are arguments; a theorem that needs a new one says so.
--   A text is the list of its code points; `lower` maps A to Z. The source lower-cases host names,
--   texts of ASCII letters in practice.
--   What Python's library decides is a parameter: `ipaddress` gives `parse_ip` and
--   `parse_network`, and SHA-256 gives `digest` and `hash`, arbitrary functions; `json` gives
--   `loads` and `dumps`.
--   Caps from the environment are natural numbers: a negative cap acts as 0 does. A reason or a
--   refusal is the data that its sentence is made of. SELECT with a LIMIT of one takes the first
--   row in the order given, rows that tie in the order of the table.
--   Every other loop is a recursion on the list that it runs over.
--
-- What is not modelled: HTTP routing, the rest of the task registry, the SQLite schema and its
-- migrations, the audit stream, the tool gateway, the egress proxy, the user interfaces, images and
-- scripts. Audit and history rows are output that no modelled decision reads.
pub mod Base
pub mod ControlPlane
pub mod TaskRegistry
