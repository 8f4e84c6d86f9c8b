-- ===== src/Cursor/Trips.antt =====
-- The round trip of api/cursor.py.
use Prim.Native.Char.{Char, code}
use Prim.Native.String.{String as Text}
use Prim.Native.String.append
use meta_agent.Common.{
  ℕ, zero, suc, ◌+◌, ◌%◌, ◌≤◌, String, ◌≡◌, refl, ap, sym, ◌∙◌, ◌≢◌, false, not, some, arith, ◌==◌,
  eq_iff, Bool-cases, inl, inr,
}
use meta_agent.Errors.{ok, require, value_error, >>=-ok}
use meta_agent.Format.{◌+++◌}
use meta_agent.Cursor.{
  partition, has_bar, rstrip_pad, strip_cons, text_length, pads, missing_pad, Codecs, encode_cursor,
  decode_cursor, is_bar,
}

-- base64 as RFC 4648 describes it: a body that does not end in a pad, at most two pads, together a
-- multiple of four characters, and at least one for a text that is not empty
pub record Padded (encoded : String) : Type 0 where
  pub body : String
  pub pad : ℕ
  pub joined : encoded ≡ body +++ pads pad
  pub unpadded : rstrip_pad body ≡ body
  pub few : pad ≤ 2
  pub aligned : (text_length body + pad) % 4 ≡ 0
  pub some_body : body ≢ ""

-- what the code relies on of the standard library
pub record Documented {Stamp : Type 0} (codecs : Codecs Stamp) : Type 0 where
  pub padded : (text : String) → text ≢ "" → Padded (codecs.encode64 text)
  pub decodes : (text : String) → codecs.decode64 (codecs.encode64 text) ≡ some text
  pub iso : (t : Stamp) → codecs.fromisoformat (codecs.isoformat t) ≡ some t
  pub no_bar : (t : Stamp) → has_bar (codecs.isoformat t) ≡ false

pub cons_append : (c : Char) (s t : String) → Text.◌∷◌ c s +++ t ≡ Text.◌∷◌ c (s +++ t)
cons_append c s t = λ i. append.cons c s t i

pub nil_append : (t : String) → "" +++ t ≡ t
nil_append t = λ i. append.nil t i

partition-join : (a b : String) → has_bar a ≡ false → partition (a +++ "|" +++ b) ≡ some (a, b)
unfolding partition has_bar
partition-join Text.[] b h = rw (nil_append ("|" +++ b), cons_append "|" "" b, nil_append b) refl
partition-join (Text.◌∷◌ c a) b h = elim (Bool-cases (is_bar (code c))) [
  | inl bar ↦ absurd (cc (rw bar at h))
  | inr plain ↦
      rw (cons_append c a ("|" +++ b)) (rw (plain, partition-join a b (rw plain at h)) refl)
]

length-append : (s t : String) → text_length (s +++ t) ≡ text_length s + text_length t
unfolding text_length
length-append Text.[] t = rw (nil_append t) (omega arith)
length-append (Text.◌∷◌ c s) t = rw (cons_append c s t) (omega (arith, length-append s t))

-- pads are stripped off a text that does not end in one
rstrip-pads : (n : ℕ) → rstrip_pad (pads n) ≡ ""
unfolding rstrip_pad pads
rstrip-pads zero = refl
rstrip-pads (suc n) =
    rw (cons_append "=" "" (pads n), nil_append (pads n)) (rw (rstrip-pads n) refl)

rstrip-append : (s : String) (n : ℕ) → rstrip_pad (s +++ pads n) ≡ rstrip_pad s
unfolding rstrip_pad
rstrip-append Text.[] n = rw (nil_append (pads n)) (rstrip-pads n)
rstrip-append (Text.◌∷◌ c s) n =
    rw (cons_append c s (pads n)) (ap (strip_cons c) (rstrip-append s n))

-- the pads that were stripped are the ones that are missing
pad_count : (n p : ℕ) → p ≤ 2 → (n + p) % 4 ≡ 0 → missing_pad n ≡ p
pad_count n p few aligned = omega (arith, few, aligned)

not_empty : (text : String) → text ≢ "" → (text == "") ≡ false
not_empty text h = ground (arith, eq_iff text "", h)

joined-ne : (raw : String) (parts : String × String) → partition raw ≡ some parts → raw ≢ ""
unfolding partition
joined-ne raw parts split = λ empty. absurd (cc (ap partition empty, split))

pub length-pads : (n : ℕ) → text_length (pads n) ≡ n
unfolding text_length pads
length-pads zero = refl
length-pads (suc n) = rw (cons_append "=" "" (pads n), nil_append (pads n)) (ap suc (length-pads n))

module _ {Stamp : Type 0} (codecs : Codecs Stamp) where
  -- With the documented behaviour of the standard library, every cursor that `encode_cursor` answers
  -- is decoded to the timestamp and the identifier that it was made of.
  pub decode-encode :
      (t : Stamp) (identifier cursor : String)
      → Documented codecs
      → encode_cursor codecs t identifier ≡ ok cursor
      → decode_cursor codecs cursor ≡ ok (t, identifier)
  unfolding encode_cursor decode_cursor
  decode-encode t identifier cursor lib h =
      let raw = codecs.isoformat t +++ "|" +++ identifier in
      let (u, aware, h1) = >>=-ok (require (codecs.is_aware t) value_error) _ h in
      let (v, named, h2) = >>=-ok (require (not (identifier == "")) value_error) _ h1 in
      let (x, plain, h3) = >>=-ok (require (not (has_bar identifier)) value_error) _ h2 in
      let split = partition-join (codecs.isoformat t) identifier (lib.no_bar t) in
      let made : cursor ≡ rstrip_pad (codecs.encode64 raw) = cc h3 in
      let p = lib.padded raw (joined-ne raw _ split) in
      let body : cursor ≡ p.body =
        made ∙ (ap rstrip_pad p.joined ∙ (rstrip-append p.body p.pad ∙ p.unpadded)) in
      let whole : cursor +++ pads (missing_pad (text_length cursor)) ≡ codecs.encode64 raw =
        ap (λ c. c +++ pads (missing_pad (text_length c))) body
        ∙ (ap (λ n. p.body +++ pads n) (pad_count (text_length p.body) p.pad p.few p.aligned)
            ∙ sym p.joined) in
      let filled = not_empty cursor (λ e. p.some_body (sym body ∙ e)) in
      rw (filled, whole) (rw (lib.decodes raw, split) (rw (named, lib.iso t) (rw aware refl)))
