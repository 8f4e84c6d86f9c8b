-- ===== src/Chain.antt =====
-- core/orchestration/chain.py: the policy that follows a bug fix by a pull request, and the registry
-- of policies. `first_line` is the standard library's `text.splitlines()[0].strip()` on a text that
-- is not empty, `to_text` its `str` on a JSON-like value.
pub mod Titles
pub mod Policies
use Prim.Native.String.{String as Text}
use meta_agent.Common.{
  ℕ, zero, suc, String, Bool, true, false, Option, none, some, [], ◌∷◌, ◌==◌, if◌then◌else◌,
}
use meta_agent.Dict.{Dict, get, put}
use meta_agent.Value.{Value, str, bool, or_null, to_bool}
use meta_agent.Format.{◌+++◌}
use meta_agent.Task.{Task, TaskType, TaskResult, TaskResultStatus, type_value}
use meta_agent.Submitter.{FollowUpSpec}

-- `text[:n]`, by code points
unfoldable pub take_text : ℕ → String → String
take_text zero s = ""
take_text (suc n) Text.[] = ""
take_text (suc n) (Text.◌∷◌ c s) = Text.◌∷◌ c (take_text n s)

-- `_MAX_ISSUE_TITLE_LEN`
abbrev pub max_issue_title_len : ℕ
max_issue_title_len = 72

-- `isinstance(v, str) and v`, with the text
abbrev pub nonempty_text : Value → Option String
nonempty_text (str s) = if s == "" then none else some s
nonempty_text _ = none

-- `v if isinstance(v, str) else ""`
abbrev pub text_or_empty : Option Value → String
text_or_empty (some (str s)) = s
text_or_empty _ = ""

-- `d.get(k, default)`
abbrev pub get_or : Dict Value → String → Value → Value
get_or d k default = elim (get d k) [ none ↦ default | some v ↦ v ]

abbrev pub is_bug_fix : TaskType → Bool
is_bug_fix TaskType.bug_fix = true
is_bug_fix _ = false

abbrev pub is_success : TaskResultStatus → Bool
is_success TaskResultStatus.succeeded = true
is_success TaskResultStatus.failed = false

abbrev pub or_bug_fix : String → String
or_bug_fix line = if line == "" then "bug fix" else line

module _ (first_line : String → String) where
  -- _derive_issue_title
  unfoldable pub derive_issue_title : String → String
  derive_issue_title issue_description =
      take_text max_issue_title_len
        (or_bug_fix (if issue_description == "" then "" else first_line issue_description))

module _ (first_line : String → String) (to_text : Value → String) where
  -- the payload and the spec of the follow-up
  unfoldable pub follow_up_for :
      Task → Dict Value → String → String → String → String → FollowUpSpec
  follow_up_for parent output repo_url head_commit_sha head_branch base_ref =
      let issue_description = text_or_empty (get parent.input_payload "issue_description") in
      record {
        task_type = TaskType.auto_pr;
        input_payload =
            ("repo_url", str repo_url)
            ∷ ("base_ref", str base_ref)
            ∷ ("head_branch", str head_branch)
            ∷ ("head_commit_sha", str head_commit_sha)
            ∷ ("verifier_passed", bool (to_bool (get_or output "verifier_passed" (bool false))))
            ∷ ("verifier_output", str (to_text (get_or output "verifier_output" (str ""))))
            ∷ ("diff_stat", str (to_text (get_or output "diff_stat" (str ""))))
            ∷ ("issue_title", str (derive_issue_title first_line issue_description))
            ∷ ("issue_description", str issue_description)
            ∷ ("_parent_task_id", str parent.task_id)
            ∷ [];
        idempotency_key = "chain:" +++ parent.task_id +++ ":auto_pr";
        topic = "task.commands";
      }

  -- the four checks on the output of a run that pushed
  abbrev pub checked_output :
      Task
      → Dict Value
      → Option String
      → Option String
      → Option String
      → Option String
      → Option FollowUpSpec
  checked_output parent output (some url) (some sha) (some branch) (some base) =
      some (follow_up_for parent output url sha branch base)
  checked_output parent output _ _ _ _ = none

  abbrev pub pushed_follow_up : Task → Option (Dict Value) → Option FollowUpSpec
  pushed_follow_up parent none = none
  pushed_follow_up parent (some output) =
      if to_bool (or_null (get output "pushed"))
      then checked_output parent output (nonempty_text (or_null (get output "repo_url")))
          (nonempty_text (or_null (get output "head_commit_sha")))
          (nonempty_text (or_null (get output "head_branch")))
          (nonempty_text (or_null (get output "base_ref")))
      else none

  -- bug_fix_to_auto_pr_policy
  unfoldable pub bug_fix_to_auto_pr_policy : Task → TaskResult → Option FollowUpSpec
  bug_fix_to_auto_pr_policy parent result =
      if is_bug_fix parent.task_type
      then (if is_success result.status then pushed_follow_up parent result.output else none)
      else none

abbrev pub TaskChainPolicy : Type 0
TaskChainPolicy = Task → TaskResult → Option FollowUpSpec

-- TaskChainRegistry: the policies by the values of their task types
abbrev pub TaskChainRegistry : Type 0
TaskChainRegistry = Dict TaskChainPolicy

unfoldable pub register_policy : TaskType → TaskChainPolicy → TaskChainRegistry → TaskChainRegistry
register_policy task_type policy policies = put policies (type_value task_type) policy

-- TaskChainRegistry.derive
unfoldable pub derive : TaskChainRegistry → TaskChainPolicy
derive policies parent result = elim (get policies (type_value parent.task_type)) [
  | none ↦ none
  | some policy ↦ policy parent result
]
