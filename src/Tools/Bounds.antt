-- ===== src/Tools/Bounds.antt =====
-- The cut of a text in core/capabilities/executor.py, and the size of an observation.
use Prim.Native.Char.{Char, code}
use Prim.Native.String.{String as Text}
use meta_agent.Common.{
  ℕ, ◌+◌, ◌-◌, ◌≤◌, String, ◌≡◌, refl, sym, ap, ◌∙◌, ◌≢◌, ◌⊎◌, inl, inr, Bool, true, false, not,
  ◌&&◌, ◌||◌, arith, ◌==◌, eq_iff, eq_refl, leb, eqb, Bool-cases,
}
use mathlib.Core.Path.{subst}
use meta_agent.Errors.{ok, err, unicode_encode_error}
use meta_agent.Tools.{
  ToolCall, ToolResult, width, utf8_length, utf8_prefix, cut_utf8, truncate_utf8, error_of, bounded,
}

-- the text `p` begins the text `s`
unfoldable pub starts : String → String → Bool
starts Text.[] s = true
starts (Text.◌∷◌ c p) Text.[] = false
starts (Text.◌∷◌ c p) (Text.◌∷◌ d s) = eqb (code c) (code d) && starts p s

starts_refl : (s : String) → starts s s ≡ true
unfolding starts
starts_refl Text.[] = refl
starts_refl (Text.◌∷◌ c s) = ground (arith, starts_refl s)

prefix-le : (n : ℕ) (s : String) → utf8_length (utf8_prefix n s) ≤ n
unfolding utf8_prefix utf8_length
prefix-le n Text.[] = omega arith
prefix-le n (Text.◌∷◌ c s) = elim (Bool-cases (leb (width (code c)) n)) [
  | inl fits ↦ rw fits (ground (arith, fits, prefix-le (n - width (code c)) s))
  | inr over ↦ rw over (omega arith)
]

prefix-starts : (n : ℕ) (s : String) → starts (utf8_prefix n s) s ≡ true
unfolding utf8_prefix starts
prefix-starts n Text.[] = refl
prefix-starts n (Text.◌∷◌ c s) = elim (Bool-cases (leb (width (code c)) n)) [
  | inl fits ↦ rw fits (ground (arith, prefix-starts (n - width (code c)) s))
  | inr over ↦ rw over refl
]

width_ne : (c n : ℕ) → width c + n ≢ 0
width_ne c n = ground arith

width_gt : (c n : ℕ) → leb (width c + n) 0 ≡ false
width_gt c n = ground arith

cons_ne : (c : Char) (s : String) → Text.◌∷◌ c s ≢ ""
unfolding utf8_length
cons_ne c s = λ e. width_ne (code c) (utf8_length s) (ap utf8_length e)

length-pos : (text : String) → leb (utf8_length text) 0 ≡ (text == "")
unfolding utf8_length
length-pos Text.[] = refl
length-pos (Text.◌∷◌ c s) =
    width_gt (code c) (utf8_length s) ∙ sym (ground (arith, eq_iff (Text.◌∷◌ c s) "", cons_ne c s))

cut_all : (text : String) → (not (text == "") ≡ true) ⊎ ("" ≡ text)
cut_all text = elim (Bool-cases (text == "")) [
  | inl empty ↦ inr (ground (arith, empty, eq_iff text ""))
  | inr full ↦ inl (rw full refl)
]

-- A cut text has at most as many bytes as the cap and begins the text that was cut; it is flagged
-- exactly where that text has more bytes than the cap, and it is that text where it is not flagged.
truncate_law :
    (text : String) (cap : ℕ)
    → (utf8_length (cut_utf8 text cap).0 ≤ cap)
      × (starts (cut_utf8 text cap).0 text ≡ true)
      × ((cut_utf8 text cap).1 ≡ not (leb (utf8_length text) cap))
      × (((cut_utf8 text cap).1 ≡ true) ⊎ ((cut_utf8 text cap).0 ≡ text))
unfolding cut_utf8 utf8_length starts
truncate_law text cap = elim (Bool-cases (eqb cap 0)) [
  | inl empty ↦
      let none_left : cap ≡ 0 = ground (arith, empty) in
      rw empty (
        omega arith,
        refl,
        ap not (sym (length-pos text)) ∙ ap (λ n. not (leb (utf8_length text) n)) (sym none_left),
        cut_all text,
      )
  | inr some_cap ↦ elim (Bool-cases (leb (utf8_length text) cap)) [
    | inl fits ↦ rw (some_cap, fits) (ground (arith, fits), starts_refl text, refl, inr refl)
    | inr over ↦ rw (some_cap, over) (prefix-le cap text, prefix-starts cap text, refl, inl refl)
  ]
]

is_whole : {a b : String} (flag : Bool) → flag ≡ false → (flag ≡ true) ⊎ (a ≡ b) → a ≡ b
is_whole flag off (inl on) = absurd (cc (on, off))
is_whole flag off (inr same) = same

or_false : (b : Bool) → (b || false) ≡ b
or_false true = refl
or_false false = refl

abbrev pub ContentFits : ℕ → ToolResult → Type 0
ContentFits cap r = utf8_length r.content ≤ cap

pub bound-fits :
    (r : ToolResult) (cap : ℕ)
    → let b = bounded r (cut_utf8 r.content cap) in
      ContentFits cap b
      × (starts b.content r.content ≡ true)
      × (b.truncated ≡ (r.truncated || not (leb (utf8_length r.content) cap)))
      × (b.is_error ≡ r.is_error)
bound-fits r cap =
    let (fits, begins, flag, whole) = truncate_law r.content cap in
    elim (Bool-cases (cut_utf8 r.content cap).1) [
      | inl cut ↦ rw cut (fits, begins, ap (λ b. r.truncated || b) (sym cut ∙ flag), refl)
      | inr uncut ↦
          let same = is_whole (cut_utf8 r.content cap).1 uncut whole in
          rw (uncut, same, eq_refl r.content)
            (
              subst (λ t. utf8_length t ≤ cap) same fits,
              starts_refl r.content,
              sym (or_false r.truncated) ∙ ap (λ b. r.truncated || b) (sym uncut ∙ flag),
              refl,
            )
    ]

pub error-fits :
    (call : ToolCall) (message : String) (cap : ℕ)
    → let r = error_of call (cut_utf8 message cap) in
      ContentFits cap r × (r.is_error ≡ true) × (r.call_id ≡ call.id)
error-fits call message cap = ((truncate_law message cap).0, refl, refl)

-- a text is cut, or it cannot be encoded
pub truncate-cases :
    (encodes : String → Bool) (text : String) (cap : ℕ)
    → (truncate_utf8 encodes text cap ≡ ok (cut_utf8 text cap))
      ⊎ ((truncate_utf8 encodes text cap ≡ err unicode_encode_error) × (encodes text ≡ false))
unfolding truncate_utf8
truncate-cases encodes text cap = elim (Bool-cases (eqb cap 0 || encodes text)) [
  | inl kept ↦ inl (rw kept refl)
  | inr lost ↦ inr (rw lost refl, ground (arith, lost))
]
