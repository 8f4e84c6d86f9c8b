-- ===== src/Tools.antt =====
-- core/capabilities/registry.py and core/capabilities/executor.py: from the tool call of a model to a
-- bounded observation. `list_specs` sorts the specs and is not modelled. The encoding of a text in
-- UTF-8 is its code points with their widths. `repr` and `encodes` are the standard library's:
-- `text.encode("utf-8")` raises UnicodeEncodeError for a text with a lone surrogate, and `encodes` says
-- of which texts it does not.
pub mod Bounds
pub mod Answers
use Prim.Native.Char.{code}
use Prim.Native.String.{String as Text}
use meta_agent.Common.{
  ℕ, zero, suc, ◌+◌, ◌-◌, min, String, Bool, true, false, not, ◌&&◌, ◌||◌, Option, none, some, [],
  ◌∷◌, ◌==◌, ltb, leb, eqb, if◌then◌else◌,
}
use meta_agent.Errors.{
  Error, Result, ok, err, tool_error, unicode_encode_error, require, ◌>>=◌, ◌>>◌, expect,
}
use meta_agent.Dict.{Dict, get, has, put}
use meta_agent.Format.{◌+++◌}
use meta_agent.Value.{Value}

-- core/ports/tools.py
pub data ToolCategory : Type 0 where
  filesystem edit shell test web code_index : ToolCategory

pub record ToolSpec : Type 0 where
  pub name : String
  pub description : String
  pub parameters : Dict Value
  pub category : ToolCategory

pub record ToolCall : Type 0 where
  pub id : String
  pub name : String
  pub arguments : Dict Value

pub record ToolResult : Type 0 where
  pub call_id : String
  pub name : String
  pub content : String
  pub is_error : Bool
  pub truncated : Bool
  pub metadata : Dict String

pub record ToolContext : Type 0 where
  pub tenant_id : String
  pub task_id : String
  pub trace_id : String
  pub workspace_path : Option String
  pub output_byte_cap : ℕ

-- every subclass of ToolError is `tool_error` with its text
abbrev pub ToolHandler : Type 0
ToolHandler = ToolCall → ToolContext → Result ToolResult

pub record RegisteredTool : Type 0 where
  pub spec : ToolSpec
  pub handler : ToolHandler

-- ToolRegistry
abbrev pub ToolRegistry : Type 0
ToolRegistry = Dict RegisteredTool

module _ (repr : String → String) where
  -- ToolRegistry.register
  unfoldable pub register : ToolSpec → ToolHandler → ToolRegistry → Result ToolRegistry
  register spec handler tools = do
    require (not (has tools spec.name)) (
        tool_error (
          "tool "
          +++ repr spec.name
          +++ " is already registered; names must be unique within a registry"))
    ok (put tools spec.name (record { spec = spec; handler = handler }))

  -- ToolRegistry.get
  unfoldable pub get_tool : ToolRegistry → String → Result RegisteredTool
  get_tool tools name =
      expect (get tools name) (tool_error ("no tool registered under name " +++ repr name))

-- the bytes of a code point
abbrev pub width : ℕ → ℕ
width c = if ltb c 128 then 1 else (if ltb c 2048 then 2 else (if ltb c 65536 then 3 else 4))

-- len(text.encode("utf-8"))
unfoldable pub utf8_length : String → ℕ
utf8_length Text.[] = 0
utf8_length (Text.◌∷◌ c s) = width (code c) + utf8_length s

-- encoded[:n].decode("utf-8", errors="ignore"): the code points that fit whole
unfoldable pub utf8_prefix : ℕ → String → String
utf8_prefix n Text.[] = ""
utf8_prefix n (Text.◌∷◌ c s) =
    let rest = utf8_prefix (n - width (code c)) s in
    if leb (width (code c)) n then Text.◌∷◌ c rest else ""

-- what `_truncate_utf8` returns
unfoldable pub cut_utf8 : String → ℕ → String × Bool
cut_utf8 text max_bytes =
    if eqb max_bytes 0
    then ("", not (text == ""))
    else if leb (utf8_length text) max_bytes
    then (text, false)
    else (utf8_prefix max_bytes text, true)

abbrev pub error_of : ToolCall → String × Bool → ToolResult
error_of call (content, truncated) = record {
  call_id = call.id;
  name = call.name;
  content = content;
  is_error = true;
  truncated = truncated;
  metadata = [];
}

abbrev pub bounded : ToolResult → String × Bool → ToolResult
bounded result (content, truncated) =
    if not truncated && content == result.content
    then result
    else record result { content = content; truncated = result.truncated || truncated }

module _ (encodes : String → Bool) where
  -- _truncate_utf8: a text is encoded unless nothing of it is kept
  unfoldable pub truncate_utf8 : String → ℕ → Result (String × Bool)
  truncate_utf8 text max_bytes =
      if eqb max_bytes 0 || encodes text
      then ok (cut_utf8 text max_bytes)
      else err unicode_encode_error

  -- ToolExecutor._error_result
  unfoldable pub error_result : ToolCall → String → ℕ → Result ToolResult
  error_result call message cap = truncate_utf8 message cap >>= λ cut. ok (error_of call cut)

  -- ToolExecutor._bound
  unfoldable pub bound_result : ToolResult → ℕ → Result ToolResult
  bound_result result cap = truncate_utf8 result.content cap >>= λ cut. ok (bounded result cut)

  -- what `execute` makes of a handler's answer
  abbrev pub answered : ToolCall → ℕ → Result ToolResult → Result ToolResult
  answered call cap (ok result) = bound_result result cap
  answered call cap (err (tool_error message)) = error_result call message cap
  answered call cap (err e) = err e

  abbrev pub ran : ToolCall → ToolContext → ℕ → Result RegisteredTool → Result ToolResult
  ran call ctx cap (ok registered) = answered call cap (registered.handler call ctx)
  ran call ctx cap (err (tool_error message)) = error_result call message cap
  ran call ctx cap (err e) = err e

  -- ToolExecutor.execute
  unfoldable pub execute :
      (String → String) → ToolRegistry → ℕ → ToolCall → ToolContext → Result ToolResult
  execute repr tools max_result_bytes call ctx =
      ran call ctx (min max_result_bytes ctx.output_byte_cap) (get_tool repr tools call.name)
