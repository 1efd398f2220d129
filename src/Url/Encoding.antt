-- ===== src/Url/Encoding.antt =====
-- utils::url: percent-encoding and its inverse.
use mathlib.Core.Option
use medialibrary.Common.{
  ℕ, zero, suc, ◌+◌, ◌*◌, ◌/◌, ◌%◌, ◌<◌, ◌==◌, ==_iff, ◌≡◌, refl, ap, ◌∙◌, inl, inr, Bool, true,
  false, ◌&&◌, ◌||◌, Option, none, some, [], ◌∷◌, ◌++◌, Bytes, All, All-append, arith, Bool-cases,
  length, get_elem?,
}
use medialibrary.Url.{
  is_plain, hex_digit, encode_char, encode_segment, char_to_val, decode, hex_digits, or_zero,
}

abbrev pub IsByte : ℕ → Type 0
IsByte c = c < 256

-- A test on each digit of a table and the value that it stands for.
checks_digits : (ℕ → ℕ → Bool) → Bytes → Bool
checks_digits test [] = true
checks_digits test (d ∷ ds) = test 0 d && checks_digits (λ value. test (suc value)) ds

checks_digits_sound :
    (test : ℕ → ℕ → Bool) (ds : Bytes) (n : ℕ)
    → checks_digits test ds ≡ true
    → n < length ds
    → test n (or_zero (get_elem? ds n)) ≡ true
unfolding checks_digits
checks_digits_sound test [] n h lt = absurd (omega arith)
checks_digits_sound test (d ∷ ds) zero h lt = ground arith
checks_digits_sound test (d ∷ ds) (suc n) h lt =
    checks_digits_sound (λ value. test (suc value)) ds n (ground arith) (omega arith)

abbrev gives : ℕ → Option ℕ → Bool
gives n none = false
gives n (some v) = v == n

gives_sound : (n : ℕ) (o : Option ℕ) → gives n o ≡ true → o ≡ some n
gives_sound n none h = cc
gives_sound n (some v) h = ground arith

digits_decode : checks_digits (λ n d. gives n (char_to_val d)) hex_digits ≡ true
unfolding checks_digits char_to_val
digits_decode = refl

char_to_val-hex_digit : (n : ℕ) → n < 16 → char_to_val (hex_digit n) ≡ some n
unfolding hex_digit
char_to_val-hex_digit n h =
    gives_sound n _
      (checks_digits_sound (λ n d. gives n (char_to_val d)) hex_digits n digits_decode h)

decode-cons :
    (c : ℕ) (cs : Bytes) → (c == b'%') ≡ false → decode (c ∷ cs) ≡ Option.map (◌∷◌ c) (decode cs)
unfolding decode
decode-cons c [] h = rw h
decode-cons c (d ∷ []) h = rw h
decode-cons c (d ∷ e ∷ cs) h = rw h

plain_ne :
    (extra : Bytes) (c : ℕ)
    → is_plain extra b'%' ≡ false
    → is_plain extra c ≡ true
    → (c == b'%') ≡ false
plain_ne extra c p h = elim (Bool-cases (c == b'%')) [
  | inl same ↦ cc ((==_iff c b'%').0 same)
  | inr other ↦ other
]

decode_escape :
    (d e v w : ℕ) (rest : Bytes)
    → char_to_val d ≡ some v
    → char_to_val e ≡ some w
    → decode (b'%' ∷ d ∷ e ∷ rest) ≡ Option.map (◌∷◌ (v * 16 + w)) (decode rest)
unfolding decode
decode_escape d e v w rest f g = rw (f, g)

decode-encode_char :
    (extra : Bytes) (c : ℕ) (rest : Bytes)
    → is_plain extra b'%' ≡ false
    → IsByte c
    → decode (encode_char extra c ++ rest) ≡ Option.map (◌∷◌ c) (decode rest)
unfolding encode_char
decode-encode_char extra c rest p h = elim (Bool-cases (is_plain extra c)) [
  | inl plain ↦ rw plain (decode-cons c rest (plain_ne extra c p plain))
  | inr escaped ↦
      let high = char_to_val-hex_digit (c / 16) (omega arith) in
      let low = char_to_val-hex_digit (c % 16) (omega arith) in
      let whole : c / 16 * 16 + c % 16 ≡ c = omega arith in
      rw escaped (
        decode_escape _ _ (c / 16) (c % 16) rest high low
        ∙ ap (λ v. Option.map (◌∷◌ v) (decode rest)) whole)
]

decode-nil : decode [] ≡ some []
unfolding decode
decode-nil = refl

map-some :
    (f : Bytes → Bytes) (o : Option Bytes) (s : Bytes) → o ≡ some s → Option.map f o ≡ some (f s)
map-some f o s e = rw e

-- Decoding takes back the encoding of any bytes, whatever further characters are copied, unless
-- the percent sign is one of them.
pub decode-encode_segment :
    (extra s : Bytes)
    → is_plain extra b'%' ≡ false
    → All IsByte s
    → decode (encode_segment extra s) ≡ some s
unfolding encode_segment
decode-encode_segment extra [] p h = decode-nil
decode-encode_segment extra (c ∷ cs) p h =
    decode-encode_char extra c (encode_segment extra cs) p h.0
    ∙ map-some (◌∷◌ c) _ cs (decode-encode_segment extra cs p h.1)

-- The bytes that may stand in an encoded segment.
abbrev IsSent : Bytes → ℕ → Type 0
IsSent extra c = (c == b'%' || is_plain extra c) ≡ true

digits_plain : checks_digits (λ n d. is_plain [] d) hex_digits ≡ true
unfolding checks_digits is_plain
digits_plain = refl

hex_digit-plain : (n : ℕ) → n < 16 → is_plain [] (hex_digit n) ≡ true
unfolding hex_digit
hex_digit-plain n h = checks_digits_sound (λ n d. is_plain [] d) hex_digits n digits_plain h

is_plain_more : (extra : Bytes) (c : ℕ) → is_plain [] c ≡ true → is_plain extra c ≡ true
unfolding is_plain
is_plain_more extra c h = ground arith

encode_char-IsSent : (extra : Bytes) (c : ℕ) → IsByte c → All (IsSent extra) (encode_char extra c)
unfolding encode_char
encode_char-IsSent extra c h =
    let high = is_plain_more extra _ (hex_digit-plain (c / 16) (omega arith)) in
    let low = is_plain_more extra _ (hex_digit-plain (c % 16) (omega arith)) in
    ground (arith, high, low)

-- Of any bytes, the encoding of a segment has only percent signs and characters that are copied
-- unencoded.
pub encode_segment-IsSent :
    (extra s : Bytes) → All IsByte s → All (IsSent extra) (encode_segment extra s)
unfolding encode_segment
encode_segment-IsSent extra [] h = tt
encode_segment-IsSent extra (c ∷ cs) h =
    All-append (IsSent extra) (encode_char extra c) (encode_segment extra cs)
      (encode_segment-IsSent extra cs h.1) (encode_char-IsSent extra c h.0)
