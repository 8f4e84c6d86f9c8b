-- ===== src/Chain/Policies.antt =====
-- What the policy of core/orchestration/chain.py spawns.
use meta_agent.Common.{
  ℕ, String, ◌≡◌, refl, sym, ap, ◌∙◌, ◌≢◌, true, false, Option, none, some, arith, ◌==◌, eq_iff,
  if◌then◌else◌, Bool-cases, inl, inr,
}
use meta_agent.Errors.{ok}
use meta_agent.Context.{RequestContext}
use meta_agent.Dict.{Dict, get}
use mathlib.Core.Path.{subst}
use meta_agent.Value.{Value, str, bool, to_bool, or_null}
use meta_agent.Format.{◌+++◌}
use meta_agent.Task.{Task, TaskType, TaskResult, TaskResultStatus}
use meta_agent.Db.{Db}
use meta_agent.Submitter.{FollowUpSpec, submit_follow_up}
use meta_agent.Submitter.Once.{submit_once}
use meta_agent.Chain.{
  nonempty_text, follow_up_for, bug_fix_to_auto_pr_policy, pushed_follow_up, is_bug_fix, is_success,
  checked_output,
}

-- the output has a text there that is not empty
abbrev Names : Dict Value → String → String → Type 0
Names output key text = (get output key ≡ some (str text)) × (text ≢ "")

named :
    (v : Option Value) (text : String)
    → nonempty_text (or_null v) ≡ some text
    → (v ≡ some (str text)) × (text ≢ "")
named none text h = absurd (cc h)
named (some (str s)) text h = elim (Bool-cases (s == "")) [
  | inl empty ↦ absurd (cc (rw empty at h))
  | inr full ↦
      let same : s ≡ text = cc (rw full at h) in
      (ap (λ x. some (str x)) same, ground (arith, same, full, eq_iff s "", eq_iff text ""))
]
named (some _) text h = absurd (cc h)

of_bug_fix_only :
    (t : TaskType) (rest : Option FollowUpSpec) {spec : FollowUpSpec}
    → (if is_bug_fix t then rest else none) ≡ some spec
    → (t ≡ TaskType.bug_fix) × (rest ≡ some spec)
of_bug_fix_only TaskType.bug_fix rest h = (refl, h)
of_bug_fix_only _ rest h = absurd (cc h)

of_success_only :
    (s : TaskResultStatus) (rest : Option FollowUpSpec) {spec : FollowUpSpec}
    → (if is_success s then rest else none) ≡ some spec
    → (s ≡ TaskResultStatus.succeeded) × (rest ≡ some spec)
of_success_only TaskResultStatus.succeeded rest h = (refl, h)
of_success_only TaskResultStatus.failed rest h = absurd (cc h)

module _ (first_line : String → String) (to_text : Value → String) where
  -- what a spec of the policy says of the run that it follows
  pub record Follows (parent : Task) (result : TaskResult) (spec : FollowUpSpec) : Type 0 where
    pub output : Dict Value
    pub url : String
    pub sha : String
    pub branch : String
    pub base : String
    pub of_bug_fix : parent.task_type ≡ TaskType.bug_fix
    pub of_success : result.status ≡ TaskResultStatus.succeeded
    pub of_output : result.output ≡ some output
    pub was_pushed : to_bool (or_null (get output "pushed")) ≡ true
    pub at_url : Names output "repo_url" url
    pub at_sha : Names output "head_commit_sha" sha
    pub at_branch : Names output "head_branch" branch
    pub at_base : Names output "base_ref" base
    pub of_type : spec.task_type ≡ TaskType.auto_pr
    pub of_topic : spec.topic ≡ "task.commands"
    pub of_key : spec.idempotency_key ≡ "chain:" +++ parent.task_id +++ ":auto_pr"
    pub has_url : get spec.input_payload "repo_url" ≡ some (str url)
    pub has_base : get spec.input_payload "base_ref" ≡ some (str base)
    pub has_branch : get spec.input_payload "head_branch" ≡ some (str branch)
    pub has_sha : get spec.input_payload "head_commit_sha" ≡ some (str sha)
    pub has_verdict :
        get spec.input_payload "verifier_passed"
        ≡ some (bool (to_bool (or_null (get output "verifier_passed"))))
    pub has_parent : get spec.input_payload "_parent_task_id" ≡ some (str parent.task_id)

  verdict-default :
      (v : Option Value) → to_bool (elim v [ none ↦ bool false | some u ↦ u ]) ≡ to_bool (or_null v)
  verdict-default none = refl
  verdict-default (some v) = refl

  follow_up-fields :
      (parent : Task) (output : Dict Value) (url sha branch base : String)
      → let spec = follow_up_for first_line to_text parent output url sha branch base in
        (spec.task_type ≡ TaskType.auto_pr)
        × (spec.topic ≡ "task.commands")
        × (spec.idempotency_key ≡ "chain:" +++ parent.task_id +++ ":auto_pr")
        × (get spec.input_payload "repo_url" ≡ some (str url))
        × (get spec.input_payload "base_ref" ≡ some (str base))
        × (get spec.input_payload "head_branch" ≡ some (str branch))
        × (get spec.input_payload "head_commit_sha" ≡ some (str sha))
        × (get spec.input_payload "verifier_passed"
            ≡ some (bool (to_bool (or_null (get output "verifier_passed")))))
        × (get spec.input_payload "_parent_task_id" ≡ some (str parent.task_id))
  unfolding follow_up_for get
  follow_up-fields parent output url sha branch base = (
    refl,
    refl,
    refl,
    refl,
    refl,
    refl,
    refl,
    ap (λ b. some (bool b)) (verdict-default (get output "verifier_passed")),
    refl,
  )

  checked_output-some :
      (parent : Task) (output : Dict Value) (url sha branch base : Option String)
      (spec : FollowUpSpec)
      → checked_output first_line to_text parent output url sha branch base ≡ some spec
      → (u : String) × (s : String) × (b : String) × (r : String) × (url ≡ some u)
        × (sha ≡ some s)
        × (branch ≡ some b)
        × (base ≡ some r)
        × (spec ≡ follow_up_for first_line to_text parent output u s b r)
  checked_output-some parent output (some u) (some s) (some b) (some r) spec h =
      (u, s, b, r, refl, refl, refl, refl, cc h)
  checked_output-some parent output _ _ _ _ spec h = absurd (cc h)

  of_some_output :
      (parent : Task) (output : Option (Dict Value)) (spec : FollowUpSpec)
      → pushed_follow_up first_line to_text parent output ≡ some spec
      → (d : Dict Value) × (output ≡ some d)
        × (pushed_follow_up first_line to_text parent (some d) ≡ some spec)
  of_some_output parent none spec h = absurd (cc h)
  of_some_output parent (some d) spec h = (d, refl, h)

  pushed-Follows :
      (parent : Task) (result : TaskResult) (spec : FollowUpSpec) (output : Dict Value)
      → parent.task_type ≡ TaskType.bug_fix
      → result.status ≡ TaskResultStatus.succeeded
      → result.output ≡ some output
      → pushed_follow_up first_line to_text parent (some output) ≡ some spec
      → Follows parent result spec
  pushed-Follows parent result spec output t s o h =
      elim (Bool-cases (to_bool (or_null (get output "pushed")))) [
        | inr off ↦ absurd (cc (rw off at h))
        | inl on ↦
            let (u, c, b, r, at_u, at_c, at_b, at_r, same) =
              checked_output-some parent output (nonempty_text (or_null (get output "repo_url")))
                (nonempty_text (or_null (get output "head_commit_sha")))
                (nonempty_text (or_null (get output "head_branch")))
                (nonempty_text (or_null (get output "base_ref"))) spec (rw on at h) in
            let made = follow_up-fields parent output u c b r in
            subst (Follows parent result) (sym same) (record {
              output = output;
              url = u;
              sha = c;
              branch = b;
              base = r;
              of_bug_fix = t;
              of_success = s;
              of_output = o;
              was_pushed = on;
              at_url = named _ u at_u;
              at_sha = named _ c at_c;
              at_branch = named _ b at_b;
              at_base = named _ r at_r;
              of_type = made.0;
              of_topic = made.1;
              of_key = made.2;
              has_url = made.3;
              has_base = made.4;
              has_branch = made.5;
              has_sha = made.6;
              has_verdict = made.7;
              has_parent = made.8;
            })
      ]

  -- A spec of the policy follows a bug fix that succeeded with an output that says it was pushed and
  -- that has, as texts which are not empty, the URL, the commit, the branch and the base. It asks for
  -- a pull request on the task topic under a key made of the parent's id alone; its payload has these
  -- four texts under the names that the output has them under, the parent's id, and whether the
  -- output says that the verifier passed, which may be false.
  pub policy-Follows :
      (parent : Task) (result : TaskResult) (spec : FollowUpSpec)
      → bug_fix_to_auto_pr_policy first_line to_text parent result ≡ some spec
      → Follows parent result spec
  unfolding bug_fix_to_auto_pr_policy
  policy-Follows parent result spec h =
      let (t, rest) = of_bug_fix_only parent.task_type _ h in
      let (s, rest') = of_success_only result.status _ rest in
      let (output, o, rest'') = of_some_output parent result.output spec rest' in
      pushed-Follows parent result spec output t s o rest''

  -- Whatever two runs of the same parent return, once the follow-up of the first was submitted and
  -- answered a child, the follow-up of the second is answered as a duplicate and changes no table.
  pub follow_up_once :
      (bound : Option RequestContext) (parent : Task) (result result' : TaskResult)
      (spec spec' : FollowUpSpec) (now now' : ℕ) (id id' event event' : String) (db : Db) (t : Task)
      → bug_fix_to_auto_pr_policy first_line to_text parent result ≡ some spec
      → bug_fix_to_auto_pr_policy first_line to_text parent result' ≡ some spec'
      → (submit_follow_up bound parent spec now id event db).0 ≡ ok (some t)
      → let after = (submit_follow_up bound parent spec now id event db).1 in
        submit_follow_up bound parent spec' now' id' event' after ≡ (ok none, after)
  follow_up_once bound parent result result' spec spec' now now' id id' event event' db t h h'
        sent =
      let first = policy-Follows parent result spec h in
      let second = policy-Follows parent result' spec' h' in
      submit_once bound parent parent spec spec' now now' id event id' event' db t refl
        (second.of_key ∙ sym first.of_key) sent
