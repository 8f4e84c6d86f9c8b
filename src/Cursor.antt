-- ===== src/Cursor.antt =====
-- api/cursor.py: the opaque position of a page. The two layers that the standard library gives, base64
-- in its URL-safe alphabet over UTF-8 and the ISO form of a timestamp, are parameters: a decoder
-- answers nothing where it raises. Every CursorError is `value_error`.
pub mod Trips
use Prim.Native.Char.{Char, code}
use Prim.Native.String.{String as Text}
use meta_agent.Common.{
  ℕ, zero, suc, ◌+◌, ◌-◌, ◌%◌, String, Bool, true, false, not, ◌&&◌, Option, none, some, eqb, ◌==◌,
  if◌then◌else◌,
}
use meta_agent.Errors.{Result, ok, err, value_error, require, expect, ◌>>=◌, ◌>>◌}
use meta_agent.Format.{◌+++◌}

-- text.partition("|"), where the text has the separator
abbrev pub is_bar : ℕ → Bool
is_bar c = eqb c 124

abbrev pub before_cons : Char → Option (String × String) → Option (String × String)
before_cons c none = none
before_cons c (some (a, b)) = some (Text.◌∷◌ c a, b)

unfoldable pub partition : String → Option (String × String)
partition Text.[] = none
partition (Text.◌∷◌ c s) =
    let rest = partition s in if is_bar (code c) then some ("", s) else before_cons c rest

-- `"|" in text`
unfoldable pub has_bar : String → Bool
has_bar Text.[] = false
has_bar (Text.◌∷◌ c s) = if is_bar (code c) then true else has_bar s

-- text.rstrip("=")
abbrev pub is_pad : ℕ → Bool
is_pad c = eqb c 61

abbrev pub strip_cons : Char → String → String
strip_cons c Text.[] = if is_pad (code c) then "" else Text.◌∷◌ c ""
strip_cons c (Text.◌∷◌ d s) = Text.◌∷◌ c (Text.◌∷◌ d s)

unfoldable pub rstrip_pad : String → String
rstrip_pad Text.[] = ""
rstrip_pad (Text.◌∷◌ c s) = strip_cons c (rstrip_pad s)

-- len(text)
unfoldable pub text_length : String → ℕ
text_length Text.[] = 0
text_length (Text.◌∷◌ c s) = suc (text_length s)

-- "=" * n
unfoldable pub pads : ℕ → String
pads zero = ""
pads (suc n) = "=" +++ pads n

-- `-n % 4`: the remainder of a negative number has the sign of the divisor
abbrev pub missing_pad : ℕ → ℕ
missing_pad n = (4 - n % 4) % 4

-- the standard library's codecs, and what a timestamp is
pub record Codecs (Stamp : Type 0) : Type 0 where
  pub encode64 : String → String
  pub decode64 : String → Option String
  pub isoformat : Stamp → String
  pub fromisoformat : String → Option Stamp
  pub is_aware : Stamp → Bool

module _ {Stamp : Type 0} (codecs : Codecs Stamp) where
  unfoldable pub encode_cursor : Stamp → String → Result String
  encode_cursor timestamp identifier = do
    require (codecs.is_aware timestamp) value_error
    require (not (identifier == "")) value_error
    require (not (has_bar identifier)) value_error
    ok (rstrip_pad (codecs.encode64 (codecs.isoformat timestamp +++ "|" +++ identifier)))

  unfoldable pub decode_cursor : String → Result (Stamp × String)
  decode_cursor cursor = do
    require (not (cursor == "")) value_error
    decoded ←
        expect (codecs.decode64 (cursor +++ pads (missing_pad (text_length cursor)))) value_error
    parts ← expect (partition decoded) value_error
    require (not (parts.1 == "")) value_error
    timestamp ← expect (codecs.fromisoformat parts.0) value_error
    require (codecs.is_aware timestamp) value_error
    ok (timestamp, parts.1)
