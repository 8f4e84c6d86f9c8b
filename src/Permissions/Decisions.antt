-- ===== src/Permissions/Decisions.antt =====
-- The decisions of infra/permission/in_memory.py and the prompts that they answer.
use meta_agent.Common.{
  ℕ, String, ◌≡◌, refl, ap, Bool, true, false, not, ◌&&◌, Option, none, some, List, [], ◌∷◌, arith,
  ◌==◌, eq_iff, eq_refl, if◌then◌else◌, Bool-cases, inl, inr, is_some,
}
use meta_agent.Errors.{ok}
use meta_agent.Dict.{Dict, get, has, put, get-put, get-put_self}
use meta_agent.Permissions.{
  PermissionPrompt, PermissionDecision, Queue, Gate, no_prompts, open_prompt, fanned, deliver,
  delivered, settle, answer_of, subscribe, received_in, unsubscribed_in, receive, unsubscribe, Op,
  opened, decided, settled, subscribed, received, unsubscribed, apply, apply_all,
}
use meta_agent.Permissions.Entries.{
  all_entries, all_entries-put, all_entries-pop, all_entries-get, get-pop, left_of, right_of,
}

-- `key` waits, or its decision is one for it
abbrev pub answers : String → Option PermissionDecision → Bool
answers key none = true
answers key (some d) = d.prompt_id == key

-- every decision on record is one for its prompt
abbrev pub Matched : Gate → Type 0
Matched g = all_entries answers g.pending ≡ true

start : Matched no_prompts
unfolding all_entries
start = refl

abbrev is_waiting : Option (Option PermissionDecision) → Bool
is_waiting (some none) = true
is_waiting _ = false

answer-found :
    (future : Option (Option PermissionDecision)) (d : PermissionDecision)
    → answer_of future ≡ ok d
    → future ≡ some (some d)
answer-found none d h = absurd (cc h)
answer-found (some none) d h = absurd (cc h)
answer-found (some (some e)) d h = let same : e ≡ d = cc h in ap (λ x. some (some x)) same

chosen-entries :
    (b : Bool) (x y : Dict (Option PermissionDecision))
    → all_entries answers x ≡ true
    → all_entries answers y ≡ true
    → all_entries answers (if b then x else y) ≡ true
chosen-entries true x y hx hy = hx
chosen-entries false x y hx hy = hy

fanned-pending :
    (maxsize : ℕ) (prompt : PermissionPrompt) (queues : Option (List Queue)) (g : Gate)
    → (fanned maxsize prompt queues g).pending ≡ g.pending
fanned-pending maxsize prompt none g = refl
fanned-pending maxsize prompt (some queues) g = refl

received-pending :
    (queues : Option (List Queue)) (key : String) (id : ℕ) (g : Gate)
    → (received_in queues key id g).pending ≡ g.pending
received-pending none key id g = refl
received-pending (some queues) key id g = refl

unsubscribed-pending :
    (queues : Option (List Queue)) (key : String) (id : ℕ) (g : Gate)
    → (unsubscribed_in queues key id g).pending ≡ g.pending
unsubscribed-pending none key id g = refl
unsubscribed-pending (some queues) key id g = refl

open-pending :
    (maxsize : ℕ) (prompt : PermissionPrompt) (g : Gate)
    → (open_prompt maxsize prompt g).1.pending
      ≡ (if has g.pending prompt.prompt_id then g.pending else put g.pending prompt.prompt_id none)
unfolding open_prompt
open-pending maxsize prompt g = elim (Bool-cases (has g.pending prompt.prompt_id)) [
  | inl waiting ↦ rw waiting refl
  | inr free ↦ rw free (fanned-pending maxsize prompt _ _)
]

delivered-pending :
    (d : PermissionDecision) (future : Option (Option PermissionDecision)) (g : Gate)
    → (delivered d future g).pending
      ≡ (if is_waiting future then put g.pending d.prompt_id (some d) else g.pending)
delivered-pending d none g = refl
delivered-pending d (some none) g = refl
delivered-pending d (some (some e)) g = refl

apply-Matched : (maxsize : ℕ) (op : Op) (g : Gate) → Matched g → Matched (apply maxsize op g)
unfolding apply deliver settle subscribe receive unsubscribe
apply-Matched maxsize (opened prompt) g h = rw (open-pending maxsize prompt g) (
    chosen-entries (has g.pending prompt.prompt_id) g.pending _ h
      (all_entries-put answers g.pending prompt.prompt_id none h refl))
apply-Matched maxsize (decided d) g h = rw (delivered-pending d (get g.pending d.prompt_id) g) (
    chosen-entries (is_waiting (get g.pending d.prompt_id)) _ g.pending
      (all_entries-put answers g.pending d.prompt_id (some d) h (eq_refl d.prompt_id)) h)
apply-Matched maxsize (settled prompt_id) g h = all_entries-pop answers g.pending prompt_id h
apply-Matched maxsize (subscribed t i) g h = h
apply-Matched maxsize (received key id) g h = rw (received-pending (get g.channels key) key id g) h
apply-Matched maxsize (unsubscribed key id) g h =
    rw (unsubscribed-pending (get g.channels key) key id g) h

apply_all-Matched :
    (maxsize : ℕ) (ops : List Op) (g : Gate) → Matched g → Matched (apply_all maxsize ops g)
unfolding apply_all
apply_all-Matched maxsize [] g h = h
apply_all-Matched maxsize (op ∷ ops) g h =
    apply_all-Matched maxsize ops (apply maxsize op g) (apply-Matched maxsize op g h)

-- Whatever prompts, decisions, timeouts and subscribers come in whatever order, a wait that ends with
-- a decision ends with one for its own prompt, and the prompt no longer waits.
pub settle_law :
    (maxsize : ℕ) (ops : List Op) (prompt_id : String) (d : PermissionDecision)
    → (settle prompt_id (apply_all maxsize ops no_prompts)).0 ≡ ok d
    → (d.prompt_id ≡ prompt_id)
      × (get (settle prompt_id (apply_all maxsize ops no_prompts)).1.pending prompt_id ≡ none)
unfolding settle
settle_law maxsize ops prompt_id d h =
    let g = apply_all maxsize ops no_prompts in
    let found = answer-found (get g.pending prompt_id) d h in
    let own =
      all_entries-get answers g.pending prompt_id (some d)
        (apply_all-Matched maxsize ops no_prompts start) found in
    (
      ground (arith, own, eq_iff d.prompt_id prompt_id),
      rw (get-pop g.pending prompt_id prompt_id, eq_refl prompt_id) refl,
    )

-- an operation other than the end of the wait for `prompt_id`
abbrev pub leaves : String → Op → Bool
leaves prompt_id (settled other) = not (other == prompt_id)
leaves prompt_id _ = true

unfoldable pub all_leave : String → List Op → Bool
all_leave prompt_id [] = true
all_leave prompt_id (op ∷ ops) = leaves prompt_id op && all_leave prompt_id ops

apply-first :
    (maxsize : ℕ) (op : Op) (g : Gate) (prompt_id : String) (d : PermissionDecision)
    → leaves prompt_id op ≡ true
    → get g.pending prompt_id ≡ some (some d)
    → get (apply maxsize op g).pending prompt_id ≡ some (some d)
unfolding apply deliver settle subscribe receive unsubscribe
apply-first maxsize (opened prompt) g i d h first =
    rw (open-pending maxsize prompt g) (elim (Bool-cases (has g.pending prompt.prompt_id)) [
      | inl waiting ↦ rw waiting first
      | inr free ↦
          rw (free, get-put g.pending prompt.prompt_id i none)
            (elim (Bool-cases (prompt.prompt_id == i)) [
              | inl hit ↦
                  let same : prompt.prompt_id ≡ i =
                    ground (arith, hit, eq_iff prompt.prompt_id i) in
                  absurd (cc (ap (λ k. is_some (get g.pending k)) same, free, ap is_some first))
              | inr miss ↦ rw miss first
            ])
    ])
apply-first maxsize (decided e) g i d h first =
    rw (delivered-pending e (get g.pending e.prompt_id) g)
      (elim (Bool-cases (is_waiting (get g.pending e.prompt_id))) [
        | inr over ↦ rw over first
        | inl waits ↦
            rw (waits, get-put g.pending e.prompt_id i (some e))
              (elim (Bool-cases (e.prompt_id == i)) [
                | inl hit ↦
                    let same : e.prompt_id ≡ i = ground (arith, hit, eq_iff e.prompt_id i) in
                    absurd
                      (cc (ap (λ k. is_waiting (get g.pending k)) same, waits, ap is_waiting first))
                | inr miss ↦ rw miss first
              ])
      ])
apply-first maxsize (settled other) g i d h first =
    rw (get-pop g.pending other i) (ground (arith, h, first))
apply-first maxsize (subscribed t j) g i d h first = first
apply-first maxsize (received key id) g i d h first =
    rw (received-pending (get g.channels key) key id g) first
apply-first maxsize (unsubscribed key id) g i d h first =
    rw (unsubscribed-pending (get g.channels key) key id g) first

run-first :
    (maxsize : ℕ) (ops : List Op) (g : Gate) (prompt_id : String) (d : PermissionDecision)
    → all_leave prompt_id ops ≡ true
    → get g.pending prompt_id ≡ some (some d)
    → get (apply_all maxsize ops g).pending prompt_id ≡ some (some d)
unfolding all_leave apply_all
run-first maxsize [] g i d leave first = first
run-first maxsize (op ∷ ops) g i d leave first =
    run-first maxsize ops (apply maxsize op g) i d (right_of (leaves i op) _ leave)
      (apply-first maxsize op g i d (left_of (leaves i op) _ leave) first)

-- Once a decision has reached a prompt that waits, it is the one that the wait ends with: no later
-- decision, prompt, timeout of another prompt or subscriber takes its place.
pub first_wins :
    (maxsize : ℕ) (ops : List Op) (g : Gate) (d : PermissionDecision)
    → get g.pending d.prompt_id ≡ some none
    → all_leave d.prompt_id ops ≡ true
    → (settle d.prompt_id (apply_all maxsize ops (deliver d g))).0 ≡ ok d
unfolding settle deliver
first_wins maxsize ops g d waits leave =
    let reached : get (delivered d (get g.pending d.prompt_id) g).pending d.prompt_id
        ≡ some (some d) =
      rw waits (get-put_self g.pending d.prompt_id (some d)) in
    ap answer_of (
      run-first maxsize ops (delivered d (get g.pending d.prompt_id) g) d.prompt_id d leave reached)
