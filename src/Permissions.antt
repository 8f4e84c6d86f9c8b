-- ===== src/Permissions.antt =====
-- infra/permission/in_memory.py: prompts that wait for a decision, and the queues of those who watch a
-- task. What happens between two awaits is one operation: opening a prompt, delivering a decision,
-- settling a wait (with the decision, or by the timeout where there is none), subscribing, receiving
-- and unsubscribing. A queue is known by the number of its subscription. `close` is not modelled.
pub mod Entries
pub mod Queues
pub mod Decisions
use meta_agent.Common.{
  ℕ, zero, suc, ◌+◌, String, Bool, true, false, not, ◌&&◌, Option, none, some, List, [], ◌∷◌, ◌++◌,
  ◌==◌, eqb, leb, ltb, length, if◌then◌else◌, is_some,
}
use meta_agent.Errors.{Error, Result, ok, err, value_error, key_error, permission_timeout}
use meta_agent.Dict.{Dict, get, has, put}
use meta_agent.Value.{Value}
use meta_agent.Format.{◌+++◌}

-- core/domain/permission.py
pub record PermissionPrompt : Type 0 where
  pub prompt_id : String
  pub tenant_id : String
  pub task_id : String
  pub tool_name : String
  pub summary : String
  pub payload : Dict Value
  pub created_at : ℕ

pub record PermissionDecision : Type 0 where
  pub prompt_id : String
  pub allow : Bool
  pub reason : Option String
  pub decided_at : ℕ

pub record Queue : Type 0 where
  pub id : ℕ
  pub waiting : List PermissionPrompt

-- a pending future is `none` until its result is set
pub record Gate : Type 0 where
  pub pending : Dict (Option PermissionDecision)
  pub channels : Dict (List Queue)
  pub dropped_prompt_count : ℕ
  pub subscriptions : ℕ

-- InMemoryPermissionGate.__init__
abbrev pub no_prompts : Gate
no_prompts = record { pending = []; channels = []; dropped_prompt_count = 0; subscriptions = 0 }

-- _channel_key
unfoldable pub channel_key : String → String → String
channel_key tenant_id task_id = tenant_id +++ "::" +++ task_id

-- d.pop(k, None)
unfoldable pub pop {ℓ} : {V : Type ℓ} → Dict V → String → Dict V
pop [] k = []
pop ((j, v) ∷ d) k = let rest = pop d k in if j == k then rest else (j, v) ∷ rest

abbrev pub or_no_queues : Option (List Queue) → List Queue
or_no_queues none = []
or_no_queues (some queues) = queues

-- `queue.get_nowait()`, where an empty queue changes nothing
abbrev pub rest_of : List PermissionPrompt → List PermissionPrompt
rest_of [] = []
rest_of (p ∷ ps) = ps

module _ (maxsize : ℕ) where
  abbrev pub is_full : Queue → Bool
  is_full q = leb maxsize (length q.waiting)

  -- a full queue loses its oldest prompt
  unfoldable pub offer : PermissionPrompt → Queue → Queue
  offer prompt q =
      if is_full q
      then record q { waiting = rest_of q.waiting ++ prompt ∷ [] }
      else record q { waiting = q.waiting ++ prompt ∷ [] }

  unfoldable pub offer_all : PermissionPrompt → List Queue → List Queue
  offer_all prompt [] = []
  offer_all prompt (q ∷ queues) = offer prompt q ∷ offer_all prompt queues

  unfoldable pub count_full : List Queue → ℕ
  count_full [] = 0
  count_full (q ∷ queues) = let n = count_full queues in if is_full q then suc n else n

  -- the fan-out behind a registration; a channel that nobody watches stays out of the map
  abbrev pub fanned : PermissionPrompt → Option (List Queue) → Gate → Gate
  fanned prompt none g = g
  fanned prompt (some queues) g = record g {
    channels =
        put g.channels (channel_key prompt.tenant_id prompt.task_id) (offer_all prompt queues);
    dropped_prompt_count = g.dropped_prompt_count + count_full queues;
  }

  -- `request`, up to its await
  unfoldable pub open_prompt : PermissionPrompt → Gate → Result (Unit {0}) × Gate
  open_prompt prompt g = if has g.pending prompt.prompt_id then (err value_error, g) else (
    ok tt,
    fanned prompt (get g.channels (channel_key prompt.tenant_id prompt.task_id))
        (record g { pending = put g.pending prompt.prompt_id none }),
  )

abbrev pub delivered : PermissionDecision → Option (Option PermissionDecision) → Gate → Gate
delivered d none g = g
delivered d (some (some earlier)) g = g
delivered d (some none) g = record g { pending = put g.pending d.prompt_id (some d) }

-- InMemoryPermissionGate.deliver
unfoldable pub deliver : PermissionDecision → Gate → Gate
deliver d g = delivered d (get g.pending d.prompt_id) g

-- what the await of `request` answers when it ends
abbrev pub answer_of : Option (Option PermissionDecision) → Result PermissionDecision
answer_of none = err key_error
answer_of (some none) = err permission_timeout
answer_of (some (some d)) = ok d

-- `request`, from its await on
unfoldable pub settle : String → Gate → Result PermissionDecision × Gate
settle prompt_id g =
    (answer_of (get g.pending prompt_id), record g { pending = pop g.pending prompt_id })

-- subscribe_prompts
unfoldable pub subscribe : String → String → Gate → Gate
subscribe tenant_id task_id g =
    let key = channel_key tenant_id task_id in
    record g {
      channels =
          put g.channels key (
            or_no_queues (get g.channels key)
            ++ record { id = g.subscriptions; waiting = [] } ∷ []);
      subscriptions = suc g.subscriptions;
    }

unfoldable pub taken : ℕ → List Queue → List Queue
taken id [] = []
taken id (q ∷ queues) =
    let rest = taken id queues in
    if eqb q.id id then record q { waiting = rest_of q.waiting } ∷ rest else q ∷ rest

unfoldable pub without : ℕ → List Queue → List Queue
without id [] = []
without id (q ∷ queues) = let rest = without id queues in if eqb q.id id then rest else q ∷ rest

abbrev pub received_in : Option (List Queue) → String → ℕ → Gate → Gate
received_in none key id g = g
received_in (some queues) key id g = record g { channels = put g.channels key (taken id queues) }

-- _PromptSubscription.__anext__
unfoldable pub receive : String → ℕ → Gate → Gate
receive key id g = received_in (get g.channels key) key id g

abbrev pub put_or_pop : Dict (List Queue) → String → List Queue → Dict (List Queue)
put_or_pop channels key [] = pop channels key
put_or_pop channels key (q ∷ queues) = put channels key (q ∷ queues)

abbrev pub unsubscribed_in : Option (List Queue) → String → ℕ → Gate → Gate
unsubscribed_in none key id g = g
unsubscribed_in (some queues) key id g = record g {
  channels = put_or_pop g.channels key (without id queues);
}

-- _unregister_prompt_subscriber
unfoldable pub unsubscribe : String → ℕ → Gate → Gate
unsubscribe key id g = unsubscribed_in (get g.channels key) key id g

-- the operations in the order in which the event loop runs them
pub data Op : Type 0 where
  opened : PermissionPrompt → Op
  decided : PermissionDecision → Op
  settled : String → Op
  subscribed : String → String → Op
  received unsubscribed : String → ℕ → Op

unfoldable pub apply : ℕ → Op → Gate → Gate
apply maxsize (opened prompt) g = (open_prompt maxsize prompt g).1
apply maxsize (decided d) g = deliver d g
apply maxsize (settled prompt_id) g = (settle prompt_id g).1
apply maxsize (subscribed tenant_id task_id) g = subscribe tenant_id task_id g
apply maxsize (received key id) g = receive key id g
apply maxsize (unsubscribed key id) g = unsubscribe key id g

unfoldable pub apply_all : ℕ → List Op → Gate → Gate
apply_all maxsize [] g = g
apply_all maxsize (op ∷ ops) g = apply_all maxsize ops (apply maxsize op g)
