-- ===== src/Value.antt =====
-- The JSON-like values of Python dictionaries (`dict[str, object]`), and the tests that the code
-- makes on them. A value of any other class is `other`, with its
-- truth: a `0.0` is false.
use meta_agent.Common.{
  ℕ, String, Bool, true, false, Option, none, some, [], ◌∷◌, ◌==◌, eqb, ltb, if◌then◌else◌,
}
use meta_agent.Dict.{Dict}

-- `negsuc n` is -(n + 1).
pub data ℤ : Type 0 where
  pos : ℕ → ℤ
  negsuc : ℕ → ℤ

mutual
  pub data Value : Type 0 where
    null : Value
    bool : Bool → Value
    int : ℤ → Value
    str : String → Value
    arr : Items → Value
    dict : Fields → Value
    other : Bool → Value

  pub data Items : Type 0 where
    nil : Items
    cons : Value → Items → Items

  pub data Fields : Type 0 where
    end : Fields
    field : String → Value → Fields → Fields

abbrev pub to_fields : Dict Value → Fields
to_fields [] = end
to_fields ((k, v) ∷ d) = field k v (to_fields d)

-- `v == "text"`
abbrev pub is_text : Value → String → Bool
is_text (str s) t = s == t
is_text _ t = false

-- `d.get(k)`: a missing key gives `None`
abbrev pub or_null : Option Value → Value
or_null none = null
or_null (some v) = v

-- `bool(v)`
abbrev pub to_bool : Value → Bool
to_bool null = false
to_bool (bool b) = b
to_bool (int (pos n)) = if eqb n 0 then false else true
to_bool (int (negsuc n)) = true
to_bool (str s) = if s == "" then false else true
to_bool (arr nil) = false
to_bool (arr (cons v vs)) = true
to_bool (dict end) = false
to_bool (dict (field k v fs)) = true
to_bool (other truth) = truth

-- `isinstance(v, int) and v > 0`, with the number; `bool` is a subclass of `int`
abbrev pub positive : Value → Option ℕ
positive (int (pos n)) = if ltb 0 n then some n else none
positive (bool true) = some 1
positive _ = none
