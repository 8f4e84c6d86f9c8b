-- ===== src/Tools/Answers.antt =====
-- What core/capabilities/executor.py makes of every answer of a tool.
use meta_agent.Common.{
  ℕ, min, String, ◌≡◌, refl, ◌⊎◌, inl, inr, Bool, true, false, not, ◌||◌, none, some, Option, leb,
  Option-cases,
}
use meta_agent.Errors.{Error, Result, ok, err, tool_error, unicode_encode_error}
use meta_agent.Dict.{get}
use meta_agent.Format.{◌+++◌}
use meta_agent.Tools.{
  ToolCall, ToolContext, ToolResult, ToolRegistry, RegisteredTool, utf8_length, error_result,
  bound_result, answered, execute, get_tool, cut_utf8, error_of, bounded,
}
use meta_agent.Tools.Bounds.{starts, ContentFits, bound-fits, error-fits, truncate-cases}

-- the text of a ToolError, if an exception is one
abbrev pub is_tool_error : Error → Bool
is_tool_error (tool_error message) = true
is_tool_error _ = false

abbrev limit_of : ℕ → ToolContext → ℕ
limit_of max_result_bytes ctx = min max_result_bytes ctx.output_byte_cap

-- what the observation `r` shows of a handler's answer
abbrev pub Observed : ℕ → ToolCall → Result ToolResult → ToolResult → Type 0
Observed cap call (ok answer) r =
    (r.is_error ≡ answer.is_error)
    × (starts r.content answer.content ≡ true)
    × (r.truncated ≡ (answer.truncated || not (leb (utf8_length answer.content) cap)))
Observed cap call (err (tool_error message)) r = (r.is_error ≡ true) × (r.call_id ≡ call.id)
Observed cap call (err e) r = ⊥

-- the text that an observation is cut from
abbrev pub text_of : Result ToolResult → Option String
text_of (ok answer) = some answer.content
text_of (err (tool_error message)) = some message
text_of (err e) = none

module _ (encodes : String → Bool) (call : ToolCall) (cap : ℕ) where
  bound-law :
      (r : ToolResult)
      → ((b : ToolResult) × (bound_result encodes r cap ≡ ok b)
          × ContentFits cap b
          × Observed cap call (ok r) b)
        ⊎ ((bound_result encodes r cap ≡ err unicode_encode_error) × (encodes r.content ≡ false))
  unfolding bound_result
  bound-law r = elim (truncate-cases encodes r.content cap) [
    | inl cut ↦
        let (fits, begins, flag, kind) = bound-fits r cap in
        inl (bounded r (cut_utf8 r.content cap), rw cut refl, fits, (kind, begins, flag))
    | inr (raised, lost) ↦ inr (rw raised refl, lost)
  ]

  pub error-law :
      (m : String)
      → ((b : ToolResult) × (error_result encodes call m cap ≡ ok b)
          × ContentFits cap b
          × (b.is_error ≡ true)
          × (b.call_id ≡ call.id))
        ⊎ ((error_result encodes call m cap ≡ err unicode_encode_error) × (encodes m ≡ false))
  unfolding error_result
  error-law m = elim (truncate-cases encodes m cap) [
    | inl cut ↦
        let (fits, kind, id) = error-fits call m cap in
        inl (error_of call (cut_utf8 m cap), rw cut refl, fits, kind, id)
    | inr (raised, lost) ↦ inr (rw raised refl, lost)
  ]

  -- what is made of a handler's answer
  abbrev pub Answered : Result ToolResult → Type 0
  Answered answer =
      ((r : ToolResult) × (answered encodes call cap answer ≡ ok r)
        × ContentFits cap r
        × Observed cap call answer r)
      ⊎ ((text : String) × (answered encodes call cap answer ≡ err unicode_encode_error)
          × (text_of answer ≡ some text)
          × (encodes text ≡ false))
      ⊎ ((e : Error) × (answered encodes call cap answer ≡ err e)
          × (answer ≡ err e)
          × (is_tool_error e ≡ false))

  pub answered_lem : (answer : Result ToolResult) → Answered answer
  answered_lem (ok r) = elim (bound-law r) [
    | inl seen ↦ inl seen
    | inr (raised, lost) ↦ inr (inl (r.content, raised, refl, lost))
  ]
  answered_lem (err (tool_error m)) = elim (error-law m) [
    | inl (r, cut, fits, kind, id) ↦ inl (r, cut, fits, (kind, id))
    | inr (raised, lost) ↦ inr (inl (m, raised, refl, lost))
  ]
  answered_lem (err e) = inr (inr (e, refl, refl, refl))

module _ (encodes : String → Bool) (repr : String → String) (tools : ToolRegistry)
    (max_result_bytes : ℕ) (call : ToolCall) (ctx : ToolContext) where
  abbrev answer_of : Result ToolResult
  answer_of = execute encodes repr tools max_result_bytes call ctx

  -- Whatever tools are registered and whatever they answer: a call of no tool is answered with an error
  -- that has the call's id. A call of a tool is answered as the tool's answer says: where the tool
  -- returned, the observation is an error exactly if the answer is one, its text begins the answer's,
  -- and it is flagged exactly if the answer is, or was cut; where the tool raised a ToolError, it is an
  -- error with the call's id; and any other exception of the tool is raised. Every observation has at
  -- most the bytes that the executor and the context allow. Where the text of an observation cannot be
  -- encoded, UnicodeEncodeError may be raised in its place, though it is no ToolError and no tool
  -- raised it.
  pub execute_law :
      ((get tools call.name ≡ none)
        × (((r : ToolResult) × (answer_of ≡ ok r)
              × ContentFits (limit_of max_result_bytes ctx) r
              × (r.is_error ≡ true)
              × (r.call_id ≡ call.id))
            ⊎ ((answer_of ≡ err unicode_encode_error)
                × (encodes ("no tool registered under name " +++ repr call.name) ≡ false))))
      ⊎ ((t : RegisteredTool) × (get tools call.name ≡ some t)
          × (((r : ToolResult) × (answer_of ≡ ok r)
                × ContentFits (limit_of max_result_bytes ctx) r
                × Observed (limit_of max_result_bytes ctx) call (t.handler call ctx) r)
              ⊎ ((text : String) × (answer_of ≡ err unicode_encode_error)
                  × (text_of (t.handler call ctx) ≡ some text)
                  × (encodes text ≡ false))
              ⊎ ((e : Error) × (answer_of ≡ err e)
                  × (t.handler call ctx ≡ err e)
                  × (is_tool_error e ≡ false))))
  unfolding execute get_tool
  execute_law = elim (Option-cases (get tools call.name)) [
    | inl missing ↦
        rw missing (inl (refl, error-law encodes call (limit_of max_result_bytes ctx) _))
    | inr (t, found) ↦ rw found (
        inr
          (t, refl, answered_lem encodes call (limit_of max_result_bytes ctx) (t.handler call ctx)))
  ]
