-- ===== src/Lib.antt =====
-- Verification of Planet Express: the durable state of its core (planet_express/core/store.py), the
-- engine that runs an approved runbook (planet_express/execution/engine.py), the setup wizard's apply
-- and undo (planet_express/setup/journal.py, apply.py, undo.py), and the order in which the stacks are
-- booted (planet_express/core/dependencies.py, planet_express/execution/boot_order.py).
--
-- A front end proposes an action, and the store keeps it as a pending approval with a deadline. An
-- operator's tap consumes the approval and creates its execution in one write. The engine then
-- records the steps of the runbook, reserves an attempt for each step that the limits count, and
-- runs the steps in order: each is dispatched, finished, and its attempt consumed or released. A
-- canary update opens a rollback window, which keeps a prune from removing the former image. The
-- dashboard's sign-in keeps its failure counters, locks, TOTP steps and device epochs in the same
-- database. Before any of this runs, the setup wizard applies a reviewed plan to the host step by
-- step, with a journal from which a run that died is resumed and an undo takes its evidence; and at
-- each boot the stacks are ordered by the dependencies that their compose files show. The policy
-- (planet_express/execution/policy.py) decides which runbooks run without a person and how often; what
-- a run has changed can be planned back; and a chat ticket asks the language model within a daily quota.
--
-- Prelude           lists, options and tests on numbers that the parts share: finding and updating
--                   rows, tables that evolve (Prelude/Lists), tables with a key (Prelude/Keys)
-- Store/Rows        one record for each row of `_SCHEMA_V5`, and `Db` for the whole database
-- Store/Tx          `Store._write` and `Store._event`; Store/Keeps has the rules for an invariant
-- Store/Approvals   `propose`, `propose_runbook`, `_expire_stale`
-- Store/Decisions   `consume`, `approve_and_create_execution`, `create_direct_execution`, ...
-- Store/Executions  `create_execution`, `set_execution_status`, `request_abort`, ...
-- Store/Steps       `create_steps`, `mark_step_dispatched`, `finish_step`, ...
-- Store/Attempts    `reserve_runbook_attempts`, `consume_attempt`, `release_attempts`, ...
-- Store/Candidates  `open_rollback_candidate`, `hold_rollback_candidate`, ...
-- Store/Auth        `record_auth_failure`, `record_auth_success`, `consume_totp_step`, ...
-- Store/Incidents   `reconcile_incidents`
-- Store/Chat        `create_chat_ticket`, `finish_chat_ticket`, `reserve_llm_call`, ...
-- Store/History     sequences of the operations that change approvals or executions
-- Engine/Runbook    `RunbookEngine.run` and `_abandon`
-- Engine/Scripts    `_Dispatch`, and the executors as scripts of what they do to the store;
--                   Engine/Programs is the sequence of write transactions
-- Engine/Executors  `_service_restart`, `_stack`, `_compose_write` and the other executors, as the
--                   scripts that the answers of the host lead to; Engine/Canary is `_canary`
-- Engine/Startup    `startup_reconcile` and `settle_crashed_execution`
-- Setup/Events      the journal's events and the records of steps that `Journal.steps` folds to
-- Setup/Journal     the journal's file: `Journal.append`, `events`, `_repair_torn_tail`, `save_plan`
-- Setup/Runs        the deeds of a run, in order, and what a handler (setup/handlers.py) answers
-- Setup/Apply       `apply`, `_run` and `_dry_run`; Setup/Undo has `undo` and `_undo`
-- Setup/Cells       how the record of one step follows from the deeds of a run
-- Deps/Graph        `DependencyGraph` with `ordering_violations` and `stack_precedence`
-- Deps/Order        `stable_topological_order`
-- Deps/Detect       `DependsOnDetector`, `NamespaceReferenceDetector` and `discover`
-- Deps/Boot         `order_stacks`
-- Policy/Catalogue  the step types of execution/runbook.py, with `risk` and `mutating_pairs`
-- Policy/Autonomy   `AutonomyConfig` (config_schema.py), the origins and what they may request
-- Policy/Decide     execution/policy.py: `decide_runbook` and `limit_refusal`
-- Policy/Limits     the history that application/command_service.py asks `limit_refusal` about
-- Rollback/Rows     what the rollback planning of the engine reads, and `_now_effect`
-- Rollback/Plan     `plan_rollback` and `rollback_preview`
-- Hosts             `locality` of core/hosts.py: which reported system is this machine
--
-- The children of a module hold its proofs, and the modules called Tests hold concrete inputs.
--
-- How the code is read. A text that is only stored and compared is a natural number; so is a JSON
-- value, and so is a time, in ticks of the injected clock. An operation takes the clock reading and
-- the fresh ids (`_new_id`) as arguments. A test such as `at > now - 900` is written without the
-- subtraction, as `now < at + 900`. A status is a constructor, so the errors on unknown statuses
-- have no counterpart. The primary keys, foreign keys and unique indexes that an operation can meet
-- are tests in its INSERT or UPDATE, with `integrity_error`. A list is in the order of the table. A
-- write that raises leaves the database as it was, and writes are serial (BEGIN IMMEDIATE), so a
-- history is a sequence of them. In the engine each call of the store is a transaction of its own,
-- and the run is the only writer of the rows of its execution, as it holds the mutation lock.
-- The limits of a run, which `run` computes from the origin and the configuration, the table of step
-- types, `validate_outputs` and `_clip` are fields of `Run`. What an executor asks of docker, of the
-- provider of the host and of the file system arrives as its arguments. There is no fuel: every loop
-- is over a list or a script.
--
-- In the setup a run is the list of its deeds, each a change of the host or an event written, and a
-- run that dies is a prefix of that list. The handlers are the table that `apply` and `undo` are
-- given; what a handler does is any list of changes, log lines and evidence, with an answer or an
-- exception. The redactor and the clock of the journal are parameters. A line of the file is the JSON
-- of an event or is not JSON, and what a crash tears stands behind the last newline. `save_plan` is an
-- operation on the file only.
-- In the graph a node is the pair of a stack and a service, whose names hold no slash, and a
-- `network_mode` is read up to its first colon. The sort has the length of the baseline as its fuel,
-- and places one name in each round. Sets and dictionaries are lists.
-- In the policy a step has the names that its parameters and its binding hold, 0 where one is absent,
-- and `is_network_guarded` is a parameter. The table has known risk classes only, so the refusal of an
-- unknown one has no counterpart. A ceiling can be overridden for the two direct origins, the only ones
-- that the validator takes.
-- In the rollback planning a host is a record of the readings that one row finds, so the rows of a plan
-- may find different ones; a plan that raises is `none`; and the validation of the runbook that is made
-- is a parameter.
-- In `locality` a name is a number, and the division by the size of the local set is a multiplication.
--
-- Not modelled: the schema migrations of the store; the texts of reasons; what the setup's handlers do
-- to the host and the trust in directories; the detectors of shared mounts, routers and environment
-- references, which only inform; `decide` for a single action and the validation of a runbook; and the
-- other files of the repository.
pub mod Prelude
pub mod Store
pub mod Engine
pub mod Setup
pub mod Deps
pub mod Policy
pub mod Rollback
pub mod Hosts
