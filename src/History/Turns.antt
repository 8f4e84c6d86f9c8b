-- ===== src/History/Turns.antt =====
-- What the tasks of a session add to the thread of core/orchestration/session_history.py.
use meta_agent.Common.{
  ◌+◌, ◌≤◌, String, ◌≡◌, refl, Bool, true, false, Option, none, some, List, [], ◌∷◌, arith, length,
  eq_iff, if◌then◌else◌, ◌==◌, not, ◌&&◌, ◌||◌,
}
use meta_agent.Errors.{ok}
use meta_agent.Context.{RequestContext, check_tenant}
use meta_agent.Dict.{Dict, get}
use meta_agent.Value.{Value, str, or_null}
use meta_agent.Chain.{nonempty_text}
use meta_agent.Task.{Task, TaskResult}
use meta_agent.TaskRepo.{result_of}
use meta_agent.TaskRepo.Rows.{Tasks, at_key, find_row}
use meta_agent.History.{
  Message, user, assistant, is_skipped, user_prompt_of, message_of, message_in, messages_of,
}

-- what a task adds to the thread, read off the table
abbrev pub turn : Tasks → String → Task → List Message → List Message
turn rows excluded t rest =
    if is_skipped excluded t
    then rest
    else messages_of (user_prompt_of t)
        (message_of (result_of (find_row (at_key t.tenant_id t.task_id) rows))) rest

unfoldable pub turns : Tasks → String → List Task → List Message
turns rows excluded [] = []
turns rows excluded (t ∷ ts) = turn rows excluded t (turns rows excluded ts)

-- a task of the bound tenant
abbrev pub Reads : Option RequestContext → List Task → Type 0
Reads bound [] = Unit
Reads bound (t ∷ ts) = (check_tenant bound t.tenant_id ≡ ok tt) × Reads bound ts

unfoldable pub has_task : String → List Task → Bool
has_task task_id [] = false
has_task task_id (t ∷ ts) = t.task_id == task_id || has_task task_id ts

-- turns of a user and an assistant, none of them empty
unfoldable pub alternates : List Message → Bool
alternates [] = true
alternates (user asked ∷ assistant answered ∷ rest) =
    not (asked == "") && not (answered == "") && alternates rest
alternates _ = false

pub length-messages_of :
    (asked answered : Option String) (rest : List Message) (skipped : Bool)
    → length (if skipped then rest else messages_of asked answered rest) ≤ 2 + length rest
length-messages_of asked answered rest true = omega arith
length-messages_of none answered rest false = omega arith
length-messages_of (some x) none rest false = omega arith
length-messages_of (some x) (some y) rest false = omega arith

nonempty_text-ne : (v : Value) (text : String) → nonempty_text v ≡ some text → (text == "") ≡ false
nonempty_text-ne (str s) text h = ground (arith, eq_iff s "", eq_iff text "")
nonempty_text-ne _ text h = absurd (cc h)

pub alternate-messages_of :
    (asked answered : Option String) (rest : List Message) (skipped : Bool)
    → ((text : String) → asked ≡ some text → (text == "") ≡ false)
    → ((text : String) → answered ≡ some text → (text == "") ≡ false)
    → alternates rest ≡ true
    → alternates (if skipped then rest else messages_of asked answered rest) ≡ true
unfolding alternates
alternate-messages_of asked answered rest true a b h = h
alternate-messages_of none answered rest false a b h = h
alternate-messages_of (some x) none rest false a b h = h
alternate-messages_of (some x) (some y) rest false a b h = rw (a x refl, b y refl, h)

message_in-ne :
    (d : Option (Dict Value)) (text : String) → message_in d ≡ some text → (text == "") ≡ false
message_in-ne none text h = absurd (cc h)
message_in-ne (some d) text h = nonempty_text-ne (or_null (get d "assistant_message")) text h

pub message_of-ne :
    (r : Option TaskResult) (text : String) → message_of r ≡ some text → (text == "") ≡ false
message_of-ne none text h = absurd (cc h)
message_of-ne (some r) text h = message_in-ne r.output text h

pub user_prompt_of-ne :
    (t : Task) (text : String) → user_prompt_of t ≡ some text → (text == "") ≡ false
unfolding user_prompt_of
user_prompt_of-ne t text h = nonempty_text-ne (or_null (get t.input_payload "user_prompt")) text h
