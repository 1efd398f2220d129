-- ===== src/Utf8/Counting.antt =====
-- utils::utf8::nbChars, on texts that are well-formed.
use medialibrary.Common.{
  ℕ, zero, suc, ◌+◌, ◌%◌, ◌≤◌, ◌<◌, ◌≡◌, refl, ◌∙◌, some, List, [], ◌∷◌, ◌++◌, Bytes, length, All,
  arith, take, drop, ◌-◌, length-append,
}
use medialibrary.Utf8.{
  shift, skip_continuation, after_char, count_chars, nb_chars, count_bytes, nb_bytes,
}

-- A character by the number of its bytes.
pub data Utf8Char : Type 0 where
  one : ℕ → Utf8Char
  two : ℕ → ℕ → Utf8Char
  three : ℕ → ℕ → ℕ → Utf8Char
  four : ℕ → ℕ → ℕ → ℕ → Utf8Char

abbrev pub IsContinuation : ℕ → Type 0
IsContinuation b = (128 ≤ b) × (b < 192)

abbrev pub IsWellFormed : Utf8Char → Type 0
IsWellFormed (one c) = c < 128
IsWellFormed (two c d) = (192 ≤ c) × (c < 224) × IsContinuation d
IsWellFormed (three c d e) = (224 ≤ c) × (c < 240) × IsContinuation d × IsContinuation e
IsWellFormed (four c d e f) =
    (240 ≤ c) × (c < 248) × IsContinuation d × IsContinuation e × IsContinuation f

-- A text of characters.
abbrev pub text : List Utf8Char → Bytes
text [] = []
text (one c ∷ cs) = c ∷ text cs
text (two c d ∷ cs) = c ∷ d ∷ text cs
text (three c d e ∷ cs) = c ∷ d ∷ e ∷ text cs
text (four c d e f ∷ cs) = c ∷ d ∷ e ∷ f ∷ text cs

skip_step :
    (bits c b : ℕ) (rest : Bytes)
    → 128 ≤ c % 256
    → IsContinuation b
    → skip_continuation (suc bits) c (b ∷ rest) ≡ skip_continuation bits (shift c) rest
unfolding skip_continuation
skip_step bits c b rest h k = ground arith

skip_stop :
    (bits c : ℕ) (rest : Bytes) → c % 256 < 128 → skip_continuation (suc bits) c rest ≡ some rest
unfolding skip_continuation
skip_stop bits c [] h = ground arith
skip_stop bits c (b ∷ rest) h = ground arith

after_one : (c : ℕ) (rest : Bytes) → c < 128 → after_char c rest ≡ some rest
unfolding after_char
after_one c rest h = ground arith

after_more :
    (c : ℕ) (rest : Bytes) → 128 ≤ c % 256 → after_char c rest ≡ skip_continuation 8 (shift c) rest
unfolding after_char
after_more c rest h = ground arith

after_two : (c d : ℕ) (rest : Bytes) → IsWellFormed (two c d) → after_char c (d ∷ rest) ≡ some rest
after_two c d rest h =
    after_more c (d ∷ rest) (omega arith)
    ∙ skip_step 7 _ d rest (omega arith) h.2
    ∙ skip_stop 6 _ rest (omega arith)

after_three :
    (c d e : ℕ) (rest : Bytes)
    → IsWellFormed (three c d e)
    → after_char c (d ∷ e ∷ rest) ≡ some rest
after_three c d e rest h =
    after_more c (d ∷ e ∷ rest) (omega arith)
    ∙ skip_step 7 _ d (e ∷ rest) (omega arith) h.2
    ∙ skip_step 6 _ e rest (omega arith) h.3
    ∙ skip_stop 5 _ rest (omega arith)

after_four :
    (c d e f : ℕ) (rest : Bytes)
    → IsWellFormed (four c d e f)
    → after_char c (d ∷ e ∷ f ∷ rest) ≡ some rest
after_four c d e f rest h =
    after_more c (d ∷ e ∷ f ∷ rest) (omega arith)
    ∙ skip_step 7 _ d (e ∷ f ∷ rest) (omega arith) h.2
    ∙ skip_step 6 _ e (f ∷ rest) (omega arith) h.3
    ∙ skip_step 5 _ f rest (omega arith) h.4
    ∙ skip_stop 4 _ rest (omega arith)

-- One character, in front of a text with `k` of them.
count_chars-cons :
    (fuel n c k : ℕ) (bytes rest : Bytes)
    → after_char c bytes ≡ some rest
    → length bytes < fuel
    → length rest ≤ length bytes
    → ((m : ℕ) → length rest ≤ m → count_chars m (suc n) rest ≡ suc n + k)
    → count_chars fuel n (c ∷ bytes) ≡ n + suc k
unfolding count_chars
count_chars-cons zero n c k bytes rest e l s h = absurd (omega arith)
count_chars-cons (suc fuel) n c k bytes rest e l s h =
    rw (e, count_chars) (omega (arith, h fuel (omega arith)))

count_chars-nil : (fuel n : ℕ) → count_chars fuel n [] ≡ n + 0
unfolding count_chars
count_chars-nil zero n = omega arith
count_chars-nil (suc fuel) n = omega arith

count_chars-text :
    (cs : List Utf8Char) (n fuel : ℕ)
    → All IsWellFormed cs
    → length (text cs) ≤ fuel
    → count_chars fuel n (text cs) ≡ n + length cs
count_chars-text [] n fuel h l = count_chars-nil fuel n
count_chars-text (one c ∷ cs) n fuel h l =
    count_chars-cons fuel n c (length cs) _ (text cs) (after_one c (text cs) h.0) (omega arith)
      (omega arith) (λ m. count_chars-text cs (suc n) m h.1)
count_chars-text (two c d ∷ cs) n fuel h l =
    count_chars-cons fuel n c (length cs) _ (text cs) (after_two c d (text cs) h.0) (omega arith)
      (omega arith) (λ m. count_chars-text cs (suc n) m h.1)
count_chars-text (three c d e ∷ cs) n fuel h l =
    count_chars-cons fuel n c (length cs) _ (text cs) (after_three c d e (text cs) h.0)
      (omega arith) (omega arith) (λ m. count_chars-text cs (suc n) m h.1)
count_chars-text (four c d e f ∷ cs) n fuel h l =
    count_chars-cons fuel n c (length cs) _ (text cs) (after_four c d e f (text cs) h.0)
      (omega arith) (omega arith) (λ m. count_chars-text cs (suc n) m h.1)

-- Of a text of well-formed characters `nbChars` is the number of the characters.
pub nb_chars-text : (cs : List Utf8Char) → All IsWellFormed cs → nb_chars (text cs) ≡ length cs
unfolding nb_chars
nb_chars-text cs h = omega (arith, count_chars-text cs 0 (length (text cs)) h (omega arith))

count_bytes-cons :
    (n res c total : ℕ) (bytes rest : Bytes)
    → after_char c bytes ≡ some rest
    → ((start : ℕ) → count_bytes n start rest ≡ start + total)
    → count_bytes (suc n) res (c ∷ bytes) ≡ res + (suc (length bytes - length rest) + total)
unfolding count_bytes
count_bytes-cons n res c total bytes rest e h =
    rw (e, count_bytes) (omega (arith, h (res + suc (length bytes - length rest))))

count_bytes-zero : (res : ℕ) (bytes : Bytes) → count_bytes 0 res bytes ≡ res + 0
unfolding count_bytes
count_bytes-zero res bytes = omega arith

count_bytes-text :
    (n : ℕ) (cs : List Utf8Char) (res : ℕ)
    → All IsWellFormed cs
    → count_bytes n res (text cs) ≡ res + length (text (take n cs))
unfolding count_bytes
count_bytes-text zero cs res h = count_bytes-zero res (text cs)
count_bytes-text (suc n) [] res h = omega arith
count_bytes-text (suc n) (one c ∷ cs) res h = omega (
  arith,
  count_bytes-cons n res c _ _ (text cs) (after_one c (text cs) h.0)
      (λ start. count_bytes-text n cs start h.1),
)
count_bytes-text (suc n) (two c d ∷ cs) res h = omega (
  arith,
  count_bytes-cons n res c _ _ (text cs) (after_two c d (text cs) h.0)
      (λ start. count_bytes-text n cs start h.1),
)
count_bytes-text (suc n) (three c d e ∷ cs) res h = omega (
  arith,
  count_bytes-cons n res c _ _ (text cs) (after_three c d e (text cs) h.0)
      (λ start. count_bytes-text n cs start h.1),
)
count_bytes-text (suc n) (four c d e f ∷ cs) res h = omega (
  arith,
  count_bytes-cons n res c _ _ (text cs) (after_four c d e f (text cs) h.0)
      (λ start. count_bytes-text n cs start h.1),
)

pub drop-length : (front back : Bytes) → drop (length front) (front ++ back) ≡ back
drop-length [] back = refl
drop-length (c ∷ front) back = drop-length front back

text-take-nil : (n : ℕ) → length (text (take n [])) ≡ 0
text-take-nil zero = refl
text-take-nil (suc n) = refl

-- Behind any front part, `nbBytes` is the number of the bytes of the first `n` characters of the
-- well-formed characters that follow, or of all of them where they are fewer.
pub nb_bytes-text :
    (front : Bytes) (cs : List Utf8Char) (n : ℕ)
    → All IsWellFormed cs
    → nb_bytes (front ++ text cs) (length front) n ≡ length (text (take n cs))
unfolding nb_bytes
nb_bytes-text front cs n h = grind (
  arith,
  length-append front (text cs),
  drop-length front (text cs),
  count_bytes-text n cs 0 h,
  text-take-nil n,
)
