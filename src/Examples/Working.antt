-- ===== src/Examples/Working.antt =====
-- Examples for Worker.
use mathlib.Core.Path.{sym}
use meta_agent.Common.{
  ℕ, ◌≤◌, ◌<◌, ◌≡◌, refl, ap, ◌∙◌, ◌⊎◌, true, false, none, some, [], ◌∷◌, arith,
}
use meta_agent.Errors.{ok, err, value_error}
use meta_agent.Context.{check_tenant}
use meta_agent.Dict.{get, update}
use meta_agent.RunState.{TaskRunState, start_node, end_node, advance}
use meta_agent.Graph.{
  NodeFn, NodeResult, Graph, fixed, step, run, apply_result, resolve_next, follow_edge,
}
use meta_agent.Task.{Task, TaskState, TaskResult}
use meta_agent.TaskRepo.Rows.{Row, Tasks, at_key, find_row, count_where}
use meta_agent.TaskRepo.Guards.{IsKeyed}
use meta_agent.Registry.{no_graphs}
use meta_agent.Cursor.{pads, text_length}
use meta_agent.Db.{has_checkpoint_id}
use meta_agent.Sweeper.{has_audit}
use meta_agent.Cursor.Trips.{length-pads}
use meta_agent.Worker.{WorkerLoop, World, Formats, DeliveredMessage}
use meta_agent.Worker.Load.{run_steps}
use meta_agent.Worker.Results.{build_result, has_message}
use meta_agent.Worker.Serve.{handle}
use meta_agent.Worker.Recover.{recover_in_flight}
use meta_agent.Worker.Fresh.{IsFresh, IsInjective}
use meta_agent.Worker.Sequence.{all_before}
use meta_agent.Worker.Resume.{run_steps-run}
use meta_agent.Worker.Outcomes.{Closes, build_result_law}
use meta_agent.Worker.Redelivery.{Unmoved, handle-terminal}
use meta_agent.Worker.Recovery.{Added, recover_law}
use meta_agent.Examples.Data.{tenant, task, row, run_state}

abbrev pub formats : Formats
formats = record {
  text_of = λ e. "error";
  type_name = λ e. "Error";
  isoformat = λ n. "";
  snapshot = λ s. s;
  dump_task = λ t. [];
}

abbrev pub worker : WorkerLoop (Unit {0})
worker = record {
  registry = no_graphs (Unit {0});
  workspaces = none;
  submitter = false;
  chain_registry = none;
  outbox = true;
  task_topic = "task.commands";
  webhook_fanout = none;
  llm_usage = none;
  trajectory = none;
  trajectory_exporter = none;
  clock = λ n. n;
  id_factory = pads;
  fanout_clock = λ n. n;
  fanout_ids = λ n i. "";
  max_attempts = 3;
  formats = formats;
}

abbrev pub world : Tasks → World
world rows = record {
  db = record { tasks = rows; checkpoints = []; outbox = [] };
  audits = [];
  deliveries = [];
  acked = [];
  calls = [];
  minted = 0;
  ticks = 0;
}

pub unrepeated : IsInjective worker.id_factory
unrepeated i j same = sym (length-pads i) ∙ (ap text_length same ∙ length-pads j)

pub fresh : (rows : Tasks) → IsFresh worker (world rows)
unfolding has_checkpoint_id has_audit
fresh rows = record { no_checkpoint = λ i h. refl; no_audit = λ i h. refl }

-- a graph of two nodes
abbrev pub work_result : NodeResult
work_result = record { data_update = []; next_node = none; awaiting_approval = false; error = none }

abbrev pub work : NodeFn
work = λ s. ok work_result

abbrev pub two : Graph
two = record {
  graph_id = "two";
  nodes = ("plan", work) ∷ ("execute", work) ∷ [];
  edges = ("plan", fixed "execute") ∷ ("execute", fixed end_node) ∷ [];
  entry = some "plan";
}

abbrev pub planned : TaskRunState
planned = record (run_state "execute") { sequence = 1 }

abbrev pub executed : TaskRunState
executed = record (run_state end_node) { sequence = 2; finished = true }

first_step : step two (run_state start_node) ≡ ok planned
unfolding step apply_result resolve_next follow_edge get advance update
first_step = refl

second_step : step two planned ≡ ok executed
unfolding step apply_result resolve_next follow_edge get advance update
second_step = refl

abbrev pub the_task : Task
the_task = task "acme" "t1" TaskState.running

pub bound_tenant : check_tenant (some (tenant "acme")) "acme" ≡ ok tt
unfolding check_tenant
bound_tenant = refl

pub none_before : (n : ℕ) → all_before "t1" n [] ≡ true
unfolding all_before
none_before n = refl

ran : run 5 two (run_state start_node) ≡ ok executed
unfolding run step apply_result resolve_next follow_edge get advance update
ran = refl

run_steps-run_example :
    (run_steps worker (some (tenant "acme")) 5 the_task two (run_state start_node) (world [])).0
    ≡ ok executed
run_steps-run_example =
    run_steps-run worker (some (tenant "acme")) the_task two bound_tenant unrepeated 5
      (run_state start_node) executed (world []) ran (fresh []) (none_before 1)

-- a task that has ended, and a message for it
abbrev ended : Row
ended = row "acme" "t1" TaskState.succeeded

abbrev message : ℕ → DeliveredMessage
message count = record {
  entry_id = "1-0";
  envelope = record {
    message_id = "m1";
    topic = "task.commands";
    tenant_id = "acme";
    trace_id = "trace";
    idempotency_key = "k";
    principal_id = none;
    session_id = none;
    task_id = some "t1";
    request_id = none;
    aggregate_type = some "task";
    aggregate_id = some "t1";
    event_type = "task.commands";
    payload = [];
    attempts = 0;
    occurred_at = 0;
    enqueued_at = 0;
  };
  delivery_count = count;
}

one_row : IsKeyed (ended ∷ [])
unfolding count_where
one_row i = ground arith

found : find_row (at_key "acme" "t1") (ended ∷ []) ≡ some ended
unfolding find_row
found = refl

handle-terminal_example :
    Unmoved (world (ended ∷ [])) (handle worker 5 (message 9) (world (ended ∷ []))).1
handle-terminal_example =
    handle-terminal worker 5 (message 9) "t1" ended (world (ended ∷ [])) refl one_row found refl

build_result_law_example :
    ((r : TaskResult) × (terminal : TaskState) × (build_result the_task two executed 1 2
        ≡ ok (r, terminal))
      × Closes the_task two executed r terminal
      × (has_message none ≡ true)
      × (1 ≤ 2))
    ⊎ ((build_result the_task two executed 1 2 ≡ err value_error)
        × ((has_message none ≡ false) ⊎ (2 < 1)))
build_result_law_example = build_result_law the_task two executed 1 2

recover_law_example :
    (n : ℕ) × ((recover_in_flight worker 10 (world (row "acme" "t1" TaskState.running ∷ []))).0
      ≡ ok n)
    × (n ≤ 10)
    × Added n
        (world (row "acme" "t1" TaskState.running ∷ [])).db
        (recover_in_flight worker 10 (world (row "acme" "t1" TaskState.running ∷ []))).1.db
recover_law_example =
    recover_law worker 10 (world (row "acme" "t1" TaskState.running ∷ [])) unrepeated
      (fresh (row "acme" "t1" TaskState.running ∷ []))
