-- ===== src/Examples/Chaining.antt =====
-- Examples for Submitter, Chain and History.
use meta_agent.Common.{
  ◌*◌, ◌≤◌, String, ◌≡◌, refl, true, none, some, [], ◌∷◌, arith, length, if◌then◌else◌,
}
use meta_agent.Errors.{ok}
use meta_agent.Context.{check_tenant}
use meta_agent.Dict.{Dict, get}
use meta_agent.Value.{Value, str, bool}
use meta_agent.Task.{Task, TaskState, TaskType, TaskResult}
use meta_agent.TaskRepo.{upsert}
use meta_agent.TaskRepo.Rows.{Row, count_where}
use meta_agent.Db.{Db, enqueue_event, has_event, has_event_id}
use meta_agent.Submitter.{FollowUpSpec, child_task, submit_block, submit_follow_up}
use meta_agent.Submitter.Once.{submit_once}
use meta_agent.Chain.{bug_fix_to_auto_pr_policy, follow_up_for}
use meta_agent.Chain.Policies.{Follows, policy-Follows}
use meta_agent.History.{build_prior_messages}
use meta_agent.History.Turns.{turns, alternates, has_task}
use meta_agent.History.Thread.{listed, history_law}
use meta_agent.Examples.Data.{tenant, task, row, success}

abbrev spec : FollowUpSpec
spec = record {
  task_type = TaskType.auto_pr;
  input_payload = [];
  idempotency_key = "chain:t1:auto_pr";
  topic = "task.commands";
}

abbrev parent : Task
parent = task "acme" "t1" TaskState.succeeded

abbrev db : Db
db = record { tasks = row "acme" "t1" TaskState.succeeded ∷ []; checkpoints = []; outbox = [] }

abbrev submitted : Db
submitted = (submit_follow_up (some (tenant "acme")) parent spec 7 "t2" "e1" db).1

first :
    (submit_follow_up (some (tenant "acme")) parent spec 7 "t2" "e1" db).0
    ≡ ok (some (child_task parent spec 7 "t2"))
unfolding submit_follow_up submit_block upsert enqueue_event check_tenant has_event has_event_id
    count_where
first = refl

submit_once_example :
    submit_follow_up (some (tenant "acme")) parent spec 9 "t3" "e2" submitted ≡ (ok none, submitted)
submit_once_example =
    submit_once (some (tenant "acme")) parent parent spec spec 7 9 "t2" "e1" "t3" "e2" db
      (child_task parent spec 7 "t2") refl refl first

abbrev output : Dict Value
output =
    ("pushed", bool true)
    ∷ ("repo_url", str "https://example.com/r.git")
    ∷ ("head_commit_sha", str "abc")
    ∷ ("head_branch", str "agent/t1")
    ∷ ("base_ref", str "main")
    ∷ []

abbrev pushed : TaskResult
pushed = record success { output = some output }

abbrev line : String → String
line s = s

abbrev text : Value → String
text v = ""

abbrev pull_request : FollowUpSpec
pull_request =
    follow_up_for line text parent output "https://example.com/r.git" "abc" "agent/t1" "main"

spawned : bug_fix_to_auto_pr_policy line text parent pushed ≡ some pull_request
unfolding bug_fix_to_auto_pr_policy get
spawned = refl

policy-Follows_example : Follows line text parent pushed pull_request
policy-Follows_example = policy-Follows line text parent pushed pull_request spawned

abbrev in_session : Row
in_session = record (row "acme" "t0" TaskState.succeeded) {
  task = record (task "acme" "t0" TaskState.succeeded) {
    session_id = some "s";
    input_payload = ("user_prompt", str "hello") ∷ [];
  };
  result = some (record success { output = some (("assistant_message", str "hi") ∷ []) });
}

bound_tenant : check_tenant (some (tenant "acme")) "acme" ≡ ok tt
unfolding check_tenant
bound_tenant = refl

history_law_example :
    let tasks = listed "acme" "s" 21 (in_session ∷ []) in
    (build_prior_messages (some (tenant "acme")) "acme" "s" "t1" 20 (in_session ∷ [])
      ≡ (ok (turns (in_session ∷ []) "t1" tasks), in_session ∷ []))
    × (alternates (turns (in_session ∷ []) "t1" tasks) ≡ true)
    × (length (turns (in_session ∷ []) "t1" tasks) ≤ 2 * (if has_task "t1" tasks then 20 else 21))
history_law_example =
    history_law (some (tenant "acme")) "acme" "s" "t1" 20 (in_session ∷ []) (omega arith)
      bound_tenant
