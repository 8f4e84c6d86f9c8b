-- ===== src/Examples/Guarding.antt =====
-- Examples for Tools and Llm.
use meta_agent.Common.{
  suc, min, String, ◌≡◌, refl, ◌⊎◌, true, false, none, some, [], ◌∷◌, arith, ltb, if◌then◌else◌,
  Bool, not, ◌==◌,
}
use meta_agent.Errors.{
  unicode_encode_error, Result, Error, ok, err, budget_exceeded, breaker_backend,
}
use meta_agent.Exec.{Exec}
use meta_agent.Dict.{get, put}
use meta_agent.Tools.{
  ToolCategory, ToolCall, ToolContext, ToolResult, ToolRegistry, RegisteredTool, execute,
}
use meta_agent.Tools.Bounds.{ContentFits}
use meta_agent.Format.{◌+++◌}
use meta_agent.Tools.Answers.{is_tool_error, Observed, text_of, execute_law}
use meta_agent.Llm.{LlmRequest, BudgetUsage, BudgetDecision, World, Client, Guard}
use meta_agent.Llm.Budget.{Enforcer, still_valid, check_usage, check, check_after, budgeted}
use meta_agent.Llm.Limits.{redis_call, breaking_client}
use meta_agent.Llm.Verdicts.{Spared, over_budget, cached_law}
use meta_agent.Llm.Sends.{sent_twice}
use meta_agent.Cursor.{pads}
use meta_agent.Examples.Data.{tenant}

abbrev call : ToolCall
call = record { id = "c1"; name = "read"; arguments = [] }

abbrev tool_context : ToolContext
tool_context = record {
  tenant_id = "acme";
  task_id = "t1";
  trace_id = "trace";
  workspace_path = none;
  output_byte_cap = 4;
}

-- a tool whose answer is longer than the context allows
abbrev reader : RegisteredTool
reader = record {
  spec = record {
    name = "read";
    description = "";
    parameters = [];
    category = ToolCategory.filesystem;
  };
  handler = λ c ctx. ok record {
    call_id = c.id;
    name = c.name;
    content = "a long text";
    is_error = false;
    truncated = false;
    metadata = [];
  };
}

abbrev tools : ToolRegistry
tools = ("read", reader) ∷ []

abbrev encodes : String → Bool
encodes s = not (s == "a lone surrogate")

abbrev observed : Result ToolResult
observed = execute encodes (λ s. s) tools 65536 call tool_context

execute_law_example :
    ((get tools "read" ≡ none)
      × (((r : ToolResult) × (observed ≡ ok r)
            × ContentFits (min 65536 4) r
            × (r.is_error ≡ true)
            × (r.call_id ≡ "c1"))
          ⊎ ((observed ≡ err unicode_encode_error)
              × (encodes ("no tool registered under name " +++ "read") ≡ false))))
    ⊎ ((t : RegisteredTool) × (get tools "read" ≡ some t)
        × (((r : ToolResult) × (observed ≡ ok r)
              × ContentFits (min 65536 4) r
              × Observed (min 65536 4) call (t.handler call tool_context) r)
            ⊎ ((text : String) × (observed ≡ err unicode_encode_error)
                × (text_of (t.handler call tool_context) ≡ some text)
                × (encodes text ≡ false))
            ⊎ ((e : Error) × (observed ≡ err e)
                × (t.handler call tool_context ≡ err e)
                × (is_tool_error e ≡ false))))
execute_law_example = execute_law encodes (λ s. s) tools 65536 call tool_context

abbrev guard : Guard
guard = record {
  provider = "openrouter";
  fail_open = true;
  audit_sink = true;
  clock = λ n. n;
  id_factory = pads;
}

abbrev usage : BudgetUsage
usage = record { tokens_used = 100; cost_usd_micros_used = 5 }

abbrev enforcer : Enforcer
enforcer = record {
  aggregate_since = λ t since. ok usage;
  limit_tokens = some 100;
  month_start = λ n. n;
  now = λ n. n;
}

abbrev idle : World
idle = record { cache = []; buckets = []; audits = []; minted = 0; ticks = 0; sent = [] }

abbrev request : LlmRequest
request = record { model = none; step_kind = some "plan"; fields = [] }

-- a provider that answers and keeps the request
abbrev provider : Client String
provider = λ r s. (ok "answer", record s { sent = r ∷ s.sent })

not_cached : get idle.cache "acme" ≡ none
unfolding get
not_cached = refl

over_budget_example :
    let answer =
      budgeted guard 10
        (λ n. n)
        (check_usage enforcer)
        provider
        (some (tenant "acme"))
        request
        idle in
    (answer.0 ≡ err (budget_exceeded 100 (some 100))) × Spared idle answer.1
over_budget_example =
    over_budget guard 10 (λ n. n) enforcer provider (tenant "acme") request idle usage 100 refl
      not_cached refl refl (omega arith)

abbrev decision : BudgetDecision
decision = record { allowed = true; usage = usage; limit_tokens = none }

abbrev always : String → Exec World BudgetDecision
always = λ t s. (ok decision, s)

-- an entry that has expired, and a check of another tenant after the new one
abbrev stale : World
stale = record idle { cache = ("acme", record { expires_at = 0; decision = decision }) ∷ [] }

expired : still_valid (get stale.cache "acme") (stale.ticks) ≡ none
unfolding get
expired = refl

abbrev renewed : World
renewed = (check guard 10 (λ n. n) always "acme" stale).1

abbrev later : World
later = (check guard 10 (λ n. n) always "umbrella" renewed).1

untouched : get later.cache "acme" ≡ get renewed.cache "acme"
unfolding check get put
untouched = refl

cached_law_example : check guard 10 (λ n. n) (check_usage enforcer) "acme" later ≡ (
    if ltb later.ticks 10
    then (ok (some decision), record later { ticks = suc later.ticks })
    else check_after guard 10
        (λ n. n)
        (check_usage enforcer)
        "acme"
        later.ticks
        none
        (record later { ticks = suc later.ticks }))
cached_law_example =
    cached_law guard 10 (λ n. n) always (check_usage enforcer) "acme" stale later decision
      (record stale { ticks = 1 }) refl expired refl untouched

abbrev once : World
once = record idle { sent = request ∷ [] }

sent_twice_example :
    breaking_client guard provider none
      (redis_call (λ k s. (ok false, s)) (λ k a b c s. (err breaker_backend, s)))
      request
      idle
    ≡ provider request once
sent_twice_example =
    sent_twice guard (λ k s. (ok false, s)) (λ k a b c s. (err breaker_backend, s)) provider none
      request idle idle once once false "answer" refl refl refl refl
