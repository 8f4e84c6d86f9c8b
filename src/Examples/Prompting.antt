-- ===== src/Examples/Prompting.antt =====
-- Examples for Cursor and Permissions.
use Prim.Native.Char.{Char}
use Prim.Native.String.{String as Text}
use meta_agent.Common.{
  ◌+◌, ◌%◌, String, ◌≡◌, refl, ap, sym, ◌∙◌, ◌≢◌, true, false, Bool, Option, none, some, List, [],
  ◌∷◌, arith,
}
use meta_agent.Errors.{ok}
use meta_agent.Dict.{get, put}
use meta_agent.Format.{◌+++◌}
use meta_agent.Cursor.{
  Codecs, encode_cursor, decode_cursor, rstrip_pad, strip_cons, text_length, pads, has_bar,
}
use meta_agent.Cursor.Trips.{Documented, decode-encode, cons_append, nil_append}
use meta_agent.Permissions.{
  PermissionPrompt, PermissionDecision, Gate, no_prompts, deliver, settle, Op, decided, settled,
  subscribe, offer_all, count_full, offer, opened, subscribed, subscribe, offer_all, count_full,
  offer, apply, apply_all, open_prompt, channel_key,
}
use meta_agent.Permissions.Decisions.{all_leave, settle_law, first_wins}
use meta_agent.Permissions.Entries.{all_entries}
use meta_agent.Permissions.Queues.{all_fit, Bounded, apply-Bounded}

-- codecs that write every character three times and close it by a letter
abbrev encode : String → String
encode Text.[] = ""
encode (Text.◌∷◌ c s) = Text.◌∷◌ c (Text.◌∷◌ c (Text.◌∷◌ c (Text.◌∷◌ "A" (encode s))))

abbrev prepend : Char → Option String → Option String
prepend c none = none
prepend c (some s) = some (Text.◌∷◌ c s)

abbrev decode : String → Option String
decode Text.[] = some ""
decode (Text.◌∷◌ c (Text.◌∷◌ d (Text.◌∷◌ e (Text.◌∷◌ f s)))) = prepend c (decode s)
decode _ = none

decode-encode_self : (s : String) → decode (encode s) ≡ some s
decode-encode_self Text.[] = refl
decode-encode_self (Text.◌∷◌ c s) = ap (prepend c) (decode-encode_self s)

aligned : (s : String) → (text_length (encode s) + 0) % 4 ≡ 0
unfolding text_length
aligned Text.[] = omega arith
aligned (Text.◌∷◌ c s) = omega (arith, aligned s)

closed : (s : String) → strip_cons "A" (encode s) ≡ Text.◌∷◌ "A" (encode s)
closed Text.[] = refl
closed (Text.◌∷◌ c s) = refl

unpadded : (s : String) → rstrip_pad (encode s) ≡ encode s
unfolding rstrip_pad
unpadded Text.[] = refl
unpadded (Text.◌∷◌ c s) =
    ap (λ r. strip_cons c (strip_cons c (strip_cons c (strip_cons "A" r)))) (unpadded s)
    ∙ ap (λ r. strip_cons c (strip_cons c (strip_cons c r))) (closed s)

append_nothing : (s : String) → s +++ "" ≡ s
append_nothing Text.[] = nil_append ""
append_nothing (Text.◌∷◌ c s) = cons_append c s "" ∙ ap (Text.◌∷◌ c) (append_nothing s)

no_pad : pads 0 ≡ ""
unfolding pads
no_pad = refl

abbrev is_blank : String → Bool
is_blank Text.[] = true
is_blank (Text.◌∷◌ c s) = false

encode-ne : (s : String) → s ≢ "" → encode s ≢ ""
encode-ne Text.[] h = h
encode-ne (Text.◌∷◌ c s) h = λ e. absurd (let no : false ≡ true = ap is_blank e in cc no)

abbrev codecs : Codecs (Unit {0})
codecs = record {
  encode64 = encode;
  decode64 = decode;
  isoformat = λ t. "2026";
  fromisoformat = λ s. some tt;
  is_aware = λ t. true;
}

year : has_bar "2026" ≡ false
unfolding has_bar
year = refl

codecs-Documented : Documented codecs
codecs-Documented = record {
  padded = λ text filled. record {
    body = encode text;
    pad = 0;
    joined = sym (ap (λ t. encode text +++ t) no_pad ∙ append_nothing (encode text));
    unpadded = unpadded text;
    few = omega arith;
    aligned = aligned text;
    some_body = encode-ne text filled;
  };
  decodes = decode-encode_self;
  iso = λ t. refl;
  no_bar = λ t. year;
}

abbrev cursor : String
cursor = rstrip_pad (encode ("2026" +++ "|" +++ "t1"))

cursor_made : encode_cursor codecs tt "t1" ≡ ok cursor
unfolding encode_cursor has_bar
cursor_made = refl

decode-encode_example : decode_cursor codecs cursor ≡ ok (tt, "t1")
decode-encode_example = decode-encode codecs tt "t1" cursor codecs-Documented cursor_made

abbrev prompt : PermissionPrompt
prompt = record {
  prompt_id = "p1";
  tenant_id = "acme";
  task_id = "t1";
  tool_name = "shell";
  summary = "run";
  payload = [];
  created_at = 1;
}

abbrev the_decision : PermissionDecision
the_decision = record { prompt_id = "p1"; allow = true; reason = none; decided_at = 2 }

-- a watched prompt, its decision, and a second one that comes too late
abbrev watched : List Op
watched =
    subscribed "acme" "t1"
    ∷ opened prompt
    ∷ decided the_decision
    ∷ decided (record the_decision { allow = false })
    ∷ []

decision_reached : (settle "p1" (apply_all 2 watched no_prompts)).0 ≡ ok the_decision
unfolding settle apply_all apply open_prompt deliver get put subscribe offer_all count_full offer
    channel_key
decision_reached = refl

settle_law_example :
    (the_decision.prompt_id ≡ "p1")
    × (get (settle "p1" (apply_all 2 watched no_prompts)).1.pending "p1" ≡ none)
settle_law_example = settle_law 2 watched "p1" the_decision decision_reached

abbrev waiting : Gate
waiting = record no_prompts { pending = ("p1", none) ∷ [] }

found_waiting : get waiting.pending the_decision.prompt_id ≡ some none
unfolding get
found_waiting = refl

abbrev late : List Op
late = decided (record the_decision { allow = false }) ∷ settled "p2" ∷ []

late-leaves : all_leave the_decision.prompt_id late ≡ true
unfolding all_leave
late-leaves = refl

first_wins_example :
    (settle "p1" (apply_all 2 late (deliver the_decision waiting))).0 ≡ ok the_decision
first_wins_example = first_wins 2 late waiting the_decision found_waiting late-leaves

-- a channel whose one queue is full
abbrev crowded : Gate
crowded = record no_prompts {
  channels = ("acme::t1", record { id = 0; waiting = prompt ∷ prompt ∷ [] } ∷ []) ∷ [];
}

crowded-Bounded : Bounded 2 crowded
unfolding all_entries all_fit
crowded-Bounded = refl

apply-Bounded_example : Bounded 2 (apply 2 (opened prompt) crowded)
apply-Bounded_example = apply-Bounded 2 (omega arith) (opened prompt) crowded crowded-Bounded
