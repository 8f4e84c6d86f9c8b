-- ===== src/History.antt =====
-- core/orchestration/session_history.py: the conversation of a session, from the rows of its tasks.
-- A message is its `user` or `assistant` text.
pub mod Turns
pub mod Thread
use meta_agent.Common.{
  ℕ, ◌+◌, String, Bool, true, false, Option, none, some, List, [], ◌∷◌, ◌==◌, eqb, if◌then◌else◌,
}
use meta_agent.Errors.{Result, ok, err, value_error}
use meta_agent.Exec.{Exec, pure, raise, continue, ◌>>=◌, ◌>>◌}
use meta_agent.Context.{RequestContext}
use meta_agent.Dict.{Dict, get}
use meta_agent.Value.{Value, Items, nil, cons, Fields, end, field, str, dict, or_null}
use meta_agent.Task.{Task, TaskState, TaskResult}
use meta_agent.TaskRepo.{list_by_session, get_result}
use meta_agent.TaskRepo.Rows.{Tasks}
use meta_agent.Chain.{nonempty_text}

pub data Message : Type 0 where
  user assistant : String → Message

abbrev pub is_succeeded : TaskState → Bool
is_succeeded TaskState.succeeded = true
is_succeeded _ = false

-- _user_prompt_of
unfoldable pub user_prompt_of : Task → Option String
user_prompt_of t = nonempty_text (or_null (get t.input_payload "user_prompt"))

abbrev pub message_in : Option (Dict Value) → Option String
message_in none = none
message_in (some output) = nonempty_text (or_null (get output "assistant_message"))

abbrev pub message_of : Option TaskResult → Option String
message_of none = none
message_of (some result) = message_in result.output

-- the two messages of a task, or none where one of the texts is missing
abbrev pub messages_of : Option String → Option String → List Message → List Message
messages_of (some asked) (some answered) rest = user asked ∷ assistant answered ∷ rest
messages_of _ _ rest = rest

-- the two `continue` tests of the loop
abbrev pub is_skipped : String → Task → Bool
is_skipped excluded prior =
    if prior.task_id == excluded then true else (if is_succeeded prior.state then false else true)

module _ (bound : Option RequestContext) where
  -- _assistant_message_of
  unfoldable pub assistant_message_of : Task → Exec Tasks (Option String)
  assistant_message_of t = do
    result ← get_result bound t.tenant_id t.task_id
    pure (message_of result)

  -- the loop over the listed tasks
  unfoldable pub thread : String → List Task → Exec Tasks (List Message)
  thread excluded [] = pure []
  thread excluded (prior ∷ rest) =
      let later = thread excluded rest in
      if is_skipped excluded prior then later else do
        answered ← assistant_message_of prior
        messages ← later
        pure (messages_of (user_prompt_of prior) answered messages)

  unfoldable pub build_prior_messages : String → String → String → ℕ → Exec Tasks (List Message)
  build_prior_messages tenant_id session_id excluded limit =
      if eqb limit 0
      then raise value_error
      else do tasks ← list_by_session bound tenant_id session_id (limit + 1); thread excluded tasks

-- the messages as the graph's data hold them
abbrev message_value : String → String → Value
message_value role content = dict (field "role" (str role) (field "content" (str content) end))

unfoldable pub message_items : List Message → Items
message_items [] = nil
message_items (user text ∷ rest) = cons (message_value "user" text) (message_items rest)
message_items (assistant text ∷ rest) = cons (message_value "assistant" text) (message_items rest)
