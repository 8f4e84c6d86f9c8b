-- ===== src/Lib.antt =====
-- A model of the core of meta-agent: how the worker takes a task from its queue, runs its graph step
-- by step with a checkpoint behind each, pauses for an operator, resumes after a crash and finishes,
-- and how the calls, tools, prompts and notifications around it are guarded.
--
-- The parts and the files that model them:
--   Common, Dict, Format, Value   shared names, Python dictionaries, texts of numbers, JSON values
--   Errors, Exec        src/meta_agent/core/domain/errors.py; results, and calls that change a state
--                       and may raise
--   Context             src/meta_agent/infra/security/context.py, infra/persistence/_guard.py: the
--                       bound request context is an argument, `none` where none is bound
--   Task                core/domain/task.py, core/orchestration/result.py
--   TaskRepo            infra/persistence/task_repo.py: PgTaskRepository, statement by statement, on
--                       a list of rows; the children hold the table, the guards and the isolation
--   RunState, Graph     core/orchestration/state.py and graph.py: TaskRunState.advance, the building
--                       methods, compile, step and run
--   Gates               core/orchestration/human_gate.py and budget_gate.py
--   Db                  checkpoint_repo.py and outbox_repo.py of infra/persistence, and transactions
--   Approval            infra/persistence/approval_gateway.py: approve, reject, abort
--   Breaker             infra/circuitbreaker/in_memory.py
--   RateLimit           infra/ratelimit/in_memory.py
--   Webhook             core/domain/webhook.py, infra/persistence/webhook_repo.py and
--                       infra/webhook/dispatcher.py
--   Fanout              infra/webhook/fanout.py
--   Submitter           infra/persistence/task_submitter.py: PgTaskSubmitter.submit_follow_up
--   Chain, History      core/orchestration/chain.py and session_history.py
--   Worker              worker/runner.py: WorkerLoop. Worker holds its state and the audit; Load the
--                       state of a run and its steps (_load_state, _persist_step), Results the result
--                       (_build_result, _augment_with_cost), Export the trajectory, Run the graph run
--                       and the chain hook, Dispatch one message and its workspace, Serve the
--                       abandonment and run_once, Recover recover_in_flight
--   Tools               core/capabilities/registry.py and executor.py, and the data of
--                       core/ports/tools.py
--   Llm                 infra/llm/budget_enforcing.py (Budget, with
--                       infra/budget/llm_usage_aggregator.py), rate_limited.py and circuit_breaking.py
--                       (Limits, with the call of infra/circuitbreaker/redis_breaker.py), routing.py
--                       (Routes)
--   Permissions         infra/permission/in_memory.py
--   Cursor              api/cursor.py
--   Outbox              infra/persistence/outbox_dispatcher.py and the statements that it uses
--   Registry            core/orchestration/registry.py
--   Sweeper             worker/expiry_sweeper.py and the append of infra/persistence/audit_repo.py
--   Examples            the theorems applied to concrete inputs
-- Paths after the first are relative to src/meta_agent.
--
-- How they interact: Graph runs node functions, of which Gates builds two kinds; a paused run
-- waits in the table of TaskRepo until Approval resumes or aborts it or Sweeper expires it, and
-- all three go through the guarded statement transition_from_awaiting_approval. Approval writes
-- TaskRepo's table and the two of Db in one transaction. Outbox drains the events that it adds,
-- and Webhook the table that Fanout fills from the audit events. Registry builds the graphs and
-- hands the worker only such as compile. Worker uses them all: it reads the task from TaskRepo, loads
-- its state from the checkpoints of Db or builds it with History, steps the Graph, writes a checkpoint
-- and an audit (which Fanout turns into deliveries) after each step, completes the row of TaskRepo,
-- and asks Chain for a follow-up, which Submitter writes with its event in one transaction. Llm's
-- guards are functions from one client to another, so that they stack as the code stacks them.
--
-- Conventions: a method that changes an object takes its state and returns the new one beside the
-- result or the exception. A SQL statement is one atomic step on a list of rows, and a transaction
-- is undone as a whole by an exception; a critical section under an asyncio lock is one step too.
-- Times are whole microseconds without an upper end, clocks, fresh ids and the answers of HTTP
-- endpoints are arguments. Graph.run recurses on the steps that max_steps leaves, which is the
-- bound of the source; the decimal numeral of a number recurses on that number, which has at least
-- as many units as digits. The loop of the worker over the steps of a run has no bound in the
-- source, so Worker recurses on fuel and answers an error of its own when that is used up; fuel
-- for the steps that the run makes is enough. The clock and the ids of a worker are sequences, and
-- a call takes the next of them. An acknowledgement is an entry of a list, and a workspace manager
-- is a function of the calls made so far. A node of a graph is a function of the state: the
-- answers that its calls of models, tools and tables get in a run are in that function, and every
-- step of a run has a sequence number of its own; its effects outside the state are not modelled.
-- The texts of Python are those without lone surrogates, except that Tools has a test for the
-- texts that UTF-8 encodes. A state is written as JSON and read back by a function of Worker's
-- Formats, for states whose data have a JSON form. What a resumed worker seeds into the state, a
-- workspace's path and branch, is part of Load.
--
-- Not modelled: log lines, JSON encoding of rows, the connection pool, HTTP and its signatures,
-- the rounding of floats (but for the powers of the webhook backoff that no float holds), the HTTP
-- API but for its cursors, the command line, the prompts and tools of the task graphs, the poll
-- loops that repeat run_once until a stop event, an acknowledgement that fails, the closing of the
-- permission gate, the metering and the redaction of model calls, and the Redis variants of the
-- queue, the breaker (but for the order of its calls) and the permission gate.
pub mod Common
pub mod Dict
pub mod Format
pub mod Errors
pub mod Exec
pub mod Context
pub mod Value
pub mod Task
pub mod TaskRepo
pub mod RunState
pub mod Graph
pub mod Gates
pub mod Breaker
pub mod RateLimit
pub mod Db
pub mod Approval
pub mod Webhook
pub mod Chain
pub mod Submitter
pub mod History
pub mod Sweeper
pub mod Fanout
pub mod Outbox
pub mod Registry
pub mod Tools
pub mod Llm
pub mod Cursor
pub mod Permissions
pub mod Worker
pub mod Examples
