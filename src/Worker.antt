-- ===== src/Worker.antt =====
-- worker/runner.py: the loop that takes messages from the queue and runs graphs. What the loop keeps
-- outside the process is a world: the tables, the queue's acknowledgements, the calls of the workspace
-- manager, and how many ids and times were taken. An acknowledgement is taken to succeed; log lines,
-- the poll of `run_forever` and its stop event are not modelled.
pub mod Load
pub mod Results
pub mod Export
pub mod Run
pub mod Dispatch
pub mod Serve
pub mod Recover
pub mod Outcomes
pub mod Redelivery
pub mod Recovery
pub mod Fresh
pub mod Sequence
pub mod Resume
use meta_agent.Common.{ℕ, suc, String, Bool, true, false, Option, none, some, List, [], ◌∷◌, ◌++◌}
use meta_agent.Errors.{Error, Result, ok, err, illegal_transition, workspace_error}
use meta_agent.Exec.{Exec, pure, raise, ◌>>=◌, ◌>>◌}
use meta_agent.Context.{RequestContext}
use meta_agent.Dict.{Dict}
use meta_agent.Value.{Value}
use meta_agent.RunState.{TaskRunState}
use meta_agent.Task.{Task}
use meta_agent.Db.{Db}
use meta_agent.Sweeper.{AuditEvent, append_audit}
use meta_agent.Webhook.{WebhookSubscription, Deliveries}
use meta_agent.Fanout.{fanout}
use meta_agent.Registry.{GraphRegistry}
use meta_agent.Chain.{TaskChainRegistry}

-- core/ports/message.py
pub record MessageEnvelope : Type 0 where
  pub message_id : String
  pub topic : String
  pub tenant_id : String
  pub trace_id : String
  pub idempotency_key : String
  pub principal_id : Option String
  pub session_id : Option String
  pub task_id : Option String
  pub request_id : Option String
  pub aggregate_type : Option String
  pub aggregate_id : Option String
  pub event_type : String
  pub payload : Dict Value
  pub attempts : ℕ
  pub occurred_at : ℕ
  pub enqueued_at : ℕ

-- infra/queue/redis_consumer.py
pub record DeliveredMessage : Type 0 where
  pub entry_id : String
  pub envelope : MessageEnvelope
  pub delivery_count : ℕ

-- core/domain/workspace.py
pub record Workspace : Type 0 where
  pub workspace_id : String
  pub tenant_id : String
  pub task_id : String
  pub trace_id : String
  pub repo_url : Option String
  pub base_ref : Option String
  pub branch : String
  pub worktree_path : String
  pub created_at : ℕ

-- the calls of the workspace manager that returned
pub data WorkspaceCall : Type 0 where
  provisioned cleaned : Workspace → WorkspaceCall

-- the port of core/ports/workspace.py: what it answers may depend on the calls so far
pub record WorkspaceManager : Type 0 where
  pub provision :
      List WorkspaceCall → Task → String → Option String → Option String → Result Workspace
  pub cleanup : List WorkspaceCall → Workspace → Result (Unit {0})

-- a bucket that `aggregate_for_task` of core/ports/llm_usage.py answers
pub record UsageBucket : Type 0 where
  pub key : String
  pub tokens : ℕ
  pub cost_usd_micros : ℕ
  pub calls : ℕ

-- TrajectoryExportResult
pub record TrajectoryExport : Type 0 where
  pub trace_id : String
  pub observation_count : ℕ

-- the webhook fanout that the worker is wired with
pub record FanoutWiring : Type 0 where
  pub watched : List String
  pub subscriptions : List WebhookSubscription

-- what the standard library and the data classes answer: texts of exceptions and times, the names of
-- exception classes, the JSON form of a task, and what is read back of the JSON form of a state:
-- `TaskRunState.model_validate(s.model_dump(mode="json"))`, which need not be `s`
pub record Formats : Type 0 where
  pub text_of : Error → String
  pub type_name : Error → String
  pub isoformat : ℕ → String
  pub dump_task : Task → Dict Value
  pub snapshot : TaskRunState → TaskRunState

-- WorkerLoop: what `__init__` is given. `clock` and `id_factory` are the times and the ids in the
-- order in which they are taken; of the fanout's own, by the number of ids that the worker had taken.
pub record WorkerLoop (Deps : Type 0) : Type 0 where
  pub registry : GraphRegistry Deps
  pub workspaces : Option WorkspaceManager
  pub submitter : Bool
  pub chain_registry : Option TaskChainRegistry
  pub outbox : Bool
  pub task_topic : String
  pub webhook_fanout : Option FanoutWiring
  pub llm_usage : Option (String → String → Result (List UsageBucket))
  pub trajectory : Option (String → String → Result Value)
  pub trajectory_exporter : Option (String → Dict Value → Value → Result TrajectoryExport)
  pub clock : ℕ → ℕ
  pub id_factory : ℕ → String
  pub fanout_clock : ℕ → ℕ
  pub fanout_ids : ℕ → ℕ → String
  pub max_attempts : ℕ
  pub formats : Formats

pub record World : Type 0 where
  pub db : Db
  pub audits : List AuditEvent
  pub deliveries : Deliveries
  pub acked : List String
  pub calls : List WorkspaceCall
  pub minted : ℕ
  pub ticks : ℕ

abbrev pub on_db {ℓ} : {A : Type ℓ} → (Db → Result A × Db) → World → Result A × World
on_db m s = let (r, db) = m s.db in (r, record s { db = db })

-- stream.ack(entry_id)
abbrev pub ack : String → Exec World (Unit {0})
ack entry_id s = (ok tt, record s { acked = s.acked ++ entry_id ∷ [] })

-- `try: body except IllegalTaskTransitionError: handler; return`, and `rest` after it
abbrev pub settled :
    Result (Unit {0}) → Exec World (Unit {0}) → Exec World (Unit {0}) → Exec World (Unit {0})
settled (err illegal_transition) handler rest s = handler s
settled (err e) handler rest s = (err e, s)
settled (ok u) handler rest s = rest s

abbrev pub unless_illegal :
    Exec World (Unit {0}) → Exec World (Unit {0}) → Exec World (Unit {0}) → Exec World (Unit {0})
unless_illegal body handler rest s =
    let (answer, after) = body s in settled answer handler rest after

-- `try: body except Exception as exc: …`, as the answer that the code goes on with
abbrev pub attempt : {A : Type 0} → Exec World A → Exec World (Result A)
attempt body s = let (answer, after) = body s in (ok answer, after)

module _ {Deps : Type 0} (w : WorkerLoop Deps) where
  abbrev pub take_time : Exec World ℕ
  take_time s = (ok (w.clock s.ticks), record s { ticks = suc s.ticks })

  abbrev pub take_id : Exec World String
  take_id s = (ok (w.id_factory s.minted), record s { minted = suc s.minted })

  -- `self._webhook_fanout.fanout(event)`: its count is not used
  abbrev pub fanned : Option FanoutWiring → Option RequestContext → AuditEvent → World → Deliveries
  fanned none bound event s = s.deliveries
  fanned (some f) bound event s =
      (fanout bound w.formats.isoformat (w.fanout_ids s.minted) (w.fanout_clock s.minted) event
        f.watched f.subscriptions s.deliveries).1

  abbrev append : Option RequestContext → AuditEvent → Exec World (Unit {0})
  append bound event s =
      let (answer, audits) = append_audit bound event s.audits in
      (answer, record s { audits = audits })

  abbrev pub audit_event : RequestContext → String → Dict Value → String → ℕ → AuditEvent
  audit_event ctx action payload event_id occurred_at = record {
    event_id = event_id;
    tenant_id = ctx.tenant_id;
    principal_id = ctx.principal_id;
    session_id = ctx.session_id;
    task_id = ctx.task_id;
    trace_id = ctx.trace_id;
    action = action;
    payload = payload;
    occurred_at = occurred_at;
  }

  -- _audit, under the bound context
  unfoldable pub audit :
      Option RequestContext → RequestContext → String → Dict Value → Exec World (Unit {0})
  audit bound ctx action payload = do
    event_id ← take_id
    occurred_at ← take_time
    let event = audit_event ctx action payload event_id occurred_at
    append bound event
    λ s. (ok tt, record s { deliveries = fanned w.webhook_fanout bound event s })
