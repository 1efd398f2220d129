-- ===== src/Utf8/Patterns/Chars.antt =====
-- What it is that two texts start with the same character, and that commonPattern finds it.
use medialibrary.Common.{
  ℕ, zero, suc, ◌+◌, ◌-◌, ◌%◌, ◌≤◌, ◌<◌, ◌≡◌, ◌⊎◌, ltb, ◌==◌, if◌then◌else◌, true, not, ◌&&◌, none,
  some, [], ◌∷◌, Bytes, arith, Option-cases, Bool-cases, if-given, inl, inr,
}
use medialibrary.Utf8.{shift, high_bit}
use medialibrary.Utf8.Patterns.{lower, common_bytes, common_char}

-- The number of bytes of a character, by its first byte.
abbrev pub width : ℕ → ℕ
width c =
    if ltb c 192
    then 1
    else if ltb c 224
    then 2
    else if ltb c 240
    then 3
    else if ltb c 248
    then 4
    else if ltb c 252
    then 5
    else if ltb c 254
    then 6
    else if ltb c 255
    then 7
    else 8

-- The second is the small letter of the first.
abbrev pub IsSmall : ℕ → ℕ → Type 0
IsSmall x y = (b'A' ≤ x) × (x ≤ b'Z') × (y ≡ x + 32)

-- The same `n` bytes, which continue a character.
abbrev pub IsContinued : ℕ → Bytes → Bytes → Type 0
IsContinued zero lhs rhs = Unit
IsContinued (suc n) (x ∷ lhs) (y ∷ rhs) = (128 ≤ x % 256) × (x ≡ y) × IsContinued n lhs rhs
IsContinued (suc n) _ _ = ⊥

-- Both texts start with the same character, of `n` bytes: an ASCII character, where the case of a
-- letter does not matter, or the same bytes.
abbrev pub IsSameChar : ℕ → Bytes → Bytes → Type 0
IsSameChar n (x ∷ lhs) (y ∷ rhs) =
    ((n ≡ 1) × (x % 256 < 128) × (y % 256 < 128) × ((x ≡ y) ⊎ (IsSmall x y ⊎ IsSmall y x)))
    ⊎ ((n ≡ width (x % 256))
        × (128 ≤ x % 256)
        × (x ≡ y)
        × IsContinued (width (x % 256) - 1) lhs rhs)
IsSameChar n _ _ = ⊥

-- `bits` leading bits of `c` that are looked at, of which `n` are set before the first that is not.
abbrev Ones : ℕ → ℕ → ℕ → Type 0
Ones zero c n = n ≡ 0
Ones (suc bits) c zero = c % 256 < 128
Ones (suc bits) c (suc n) = (128 ≤ c % 256) × Ones bits (shift c) n

-- The range of a byte tells how many of its leading bits are set.
none_set : (bits c : ℕ) → c % 256 < 128 → Ones (suc bits) c 0
none_set bits c h = h

one_set : (bits c : ℕ) → 128 ≤ c % 256 → c % 256 < 192 → Ones (suc (suc bits)) c 1
one_set bits c l u = (omega arith, none_set bits (shift c) (omega arith))

two_set : (bits c : ℕ) → 192 ≤ c % 256 → c % 256 < 224 → Ones (suc (suc (suc bits))) c 2
two_set bits c l u = (omega arith, one_set bits (shift c) (omega arith) (omega arith))

three_set : (bits c : ℕ) → 224 ≤ c % 256 → c % 256 < 240 → Ones (suc (suc (suc (suc bits)))) c 3
three_set bits c l u = (omega arith, two_set bits (shift c) (omega arith) (omega arith))

four_set :
    (bits c : ℕ) → 240 ≤ c % 256 → c % 256 < 248 → Ones (suc (suc (suc (suc (suc bits))))) c 4
four_set bits c l u = (omega arith, three_set bits (shift c) (omega arith) (omega arith))

five_set :
    (bits c : ℕ) → 248 ≤ c % 256 → c % 256 < 252 → Ones (suc (suc (suc (suc (suc (suc bits)))))) c 5
five_set bits c l u = (omega arith, four_set bits (shift c) (omega arith) (omega arith))

six_set :
    (bits c : ℕ)
    → 252 ≤ c % 256
    → c % 256 < 254
    → Ones (suc (suc (suc (suc (suc (suc (suc bits))))))) c 6
six_set bits c l u = (omega arith, five_set bits (shift c) (omega arith) (omega arith))

seven_set :
    (bits c : ℕ)
    → 254 ≤ c % 256
    → c % 256 < 255
    → Ones (suc (suc (suc (suc (suc (suc (suc (suc bits)))))))) c 7
seven_set bits c l u = (omega arith, six_set bits (shift c) (omega arith) (omega arith))

width-Ones : (x : ℕ) → 128 ≤ x % 256 → Ones 8 (shift x) (width (x % 256) - 1)
width-Ones x h =
    if-given (λ n. Ones 8 (shift x) (n - 1)) (ltb (x % 256) 192) 1 _
      (λ e1. none_set 7 (shift x) (ground (arith, e1)))
      (λ e1.
        if-given (λ n. Ones 8 (shift x) (n - 1)) (ltb (x % 256) 224) 2 _
          (λ e2. one_set 6 (shift x) (ground (arith, e1, e2)) (ground (arith, e1, e2)))
          (λ e2.
            if-given (λ n. Ones 8 (shift x) (n - 1)) (ltb (x % 256) 240) 3 _
              (λ e3. two_set 5 (shift x) (ground (arith, e1, e2, e3)) (ground (arith, e1, e2, e3)))
              (λ e3.
                if-given (λ n. Ones 8 (shift x) (n - 1)) (ltb (x % 256) 248) 4 _
                  (λ e4.
                    three_set 4 (shift x) (ground (arith, e1, e2, e3, e4))
                      (ground (arith, e1, e2, e3, e4)))
                  (λ e4.
                    if-given (λ n. Ones 8 (shift x) (n - 1)) (ltb (x % 256) 252) 5 _
                      (λ e5.
                        four_set 3 (shift x) (ground (arith, e1, e2, e3, e4, e5))
                          (ground (arith, e1, e2, e3, e4, e5)))
                      (λ e5.
                        if-given (λ n. Ones 8 (shift x) (n - 1)) (ltb (x % 256) 254) 6 _
                          (λ e6.
                            five_set 2 (shift x) (ground (arith, e1, e2, e3, e4, e5, e6))
                              (ground (arith, e1, e2, e3, e4, e5, e6)))
                          (λ e6.
                            if-given (λ n. Ones 8 (shift x) (n - 1)) (ltb (x % 256) 255) 7 _
                              (λ e7.
                                six_set 1 (shift x) (ground (arith, e1, e2, e3, e4, e5, e6, e7))
                                  (ground (arith, e1, e2, e3, e4, e5, e6, e7)))
                              (λ e7.
                                seven_set 0 (shift x) (ground (arith, e1, e2, e3, e4, e5, e6, e7))
                                  (ground (arith, e1, e2, e3, e4, e5, e6, e7)))))))))

common_bytes-some :
    (bits c k : ℕ) (lhs rhs : Bytes) (n : ℕ)
    → Ones bits c k
    → common_bytes bits c lhs rhs ≡ some n
    → (n ≡ k) × IsContinued k lhs rhs
unfolding common_bytes
common_bytes-some zero c zero lhs rhs n o e = (ground (arith, e), tt)
common_bytes-some zero c (suc k) lhs rhs n o e = absurd (omega (arith, o))
common_bytes-some (suc bits) c zero [] rhs n o e = (ground (arith, e, o), tt)
common_bytes-some (suc bits) c zero (x ∷ lhs) [] n o e = (ground (arith, e, o), tt)
common_bytes-some (suc bits) c zero (x ∷ lhs) (y ∷ rhs) n o e = (ground (arith, e, o), tt)
common_bytes-some (suc bits) c (suc k) [] rhs n o e = absurd (ground (arith, e, o))
common_bytes-some (suc bits) c (suc k) (x ∷ lhs) [] n o e = absurd (ground (arith, e, o))
common_bytes-some (suc bits) c (suc k) (x ∷ lhs) (y ∷ rhs) zero o e = absurd (ground (arith, e, o))
common_bytes-some (suc bits) c (suc k) (x ∷ lhs) (y ∷ rhs) (suc n) o e =
    let ih = common_bytes-some bits (shift c) k lhs rhs n o.1 (ground (arith, e, o)) in
    (omega (arith, ih.0), (ground (arith, e, o), ground (arith, e, o), ih.1))

common_bytes-none :
    (bits c k : ℕ) (lhs rhs : Bytes)
    → Ones bits c k
    → common_bytes bits c lhs rhs ≡ none
    → IsContinued k lhs rhs
    → ⊥
unfolding common_bytes
common_bytes-none zero c k lhs rhs o e s = cc
common_bytes-none (suc bits) c zero [] rhs o e s = ground (arith, e, o)
common_bytes-none (suc bits) c zero (x ∷ lhs) [] o e s = ground (arith, e, o)
common_bytes-none (suc bits) c zero (x ∷ lhs) (y ∷ rhs) o e s = ground (arith, e, o)
common_bytes-none (suc bits) c (suc k) [] rhs o e s = s
common_bytes-none (suc bits) c (suc k) (x ∷ lhs) [] o e s = s
common_bytes-none (suc bits) c (suc k) (x ∷ lhs) (y ∷ rhs) o e (h, same, s) =
    common_bytes-none bits (shift c) k lhs rhs o.1 (ground (arith, e, o, h, same)) s

lower-same : (x y : ℕ) → (lower x == lower y) ≡ true → (x ≡ y) ⊎ (IsSmall x y ⊎ IsSmall y x)
lower-same x y e = elim (Bool-cases (x == y)) [
  | inl s ↦ inl (ground (arith, s))
  | inr s ↦ inr (elim (Bool-cases (ltb x y)) [
    | inl l ↦ inl (ground (arith, e, s, l), ground (arith, e, s, l), ground (arith, e, s, l))
    | inr l ↦ inr (ground (arith, e, s, l), ground (arith, e, s, l), ground (arith, e, s, l))
  ])
]

same-lower : (x y : ℕ) → (x ≡ y) ⊎ (IsSmall x y ⊎ IsSmall y x) → (lower x == lower y) ≡ true
same-lower x y (inl e) = ground (arith, e)
same-lower x y (inr (inl (a, z, e))) = ground (arith, a, z, e)
same-lower x y (inr (inr (a, z, e))) = ground (arith, a, z, e)

width-positive : (c : ℕ) → 0 < width c
width-positive c = ground arith

-- A character has a byte at least.
pub same_char-positive : (n : ℕ) (lhs rhs : Bytes) → IsSameChar n lhs rhs → 0 < n
same_char-positive n [] rhs h = absurd h
same_char-positive n (x ∷ lhs) [] h = absurd h
same_char-positive n (x ∷ lhs) (y ∷ rhs) (inl (one, a, b, s)) = omega (arith, one)
same_char-positive n (x ∷ lhs) (y ∷ rhs) (inr (w, high, same, s)) =
    omega (arith, w, width-positive (x % 256))

pub common_char-some :
    (x y : ℕ) (lhs rhs : Bytes) (n : ℕ)
    → common_char x lhs y rhs ≡ some n
    → IsSameChar n (x ∷ lhs) (y ∷ rhs)
unfolding common_char
common_char-some x y lhs rhs n e = elim (Bool-cases (not (high_bit x) && not (high_bit y))) [
  | inl a ↦ inl (
    ground (arith, e, a),
    ground (arith, a),
    ground (arith, a),
    lower-same x y (ground (arith, e, a)),
  )
  | inr a ↦ elim (Option-cases (common_bytes 8 (shift x) lhs rhs)) [
    | inl z ↦ absurd (ground (arith, e, a, z))
    | inr (k, z) ↦
        let high : 128 ≤ x % 256 = ground (arith, e, a) in
        let found = common_bytes-some 8 (shift x) _ lhs rhs k (width-Ones x high) z in
        let whole : n ≡ suc k = ground (arith, e, a, z) in
        inr (
          omega (arith, whole, found.0, width-positive (x % 256)),
          high,
          ground (arith, e, a),
          found.1,
        )
  ]
]

pub common_char-none :
    (x y : ℕ) (lhs rhs : Bytes) (n : ℕ)
    → common_char x lhs y rhs ≡ none
    → ¬ IsSameChar n (x ∷ lhs) (y ∷ rhs)
unfolding common_char
common_char-none x y lhs rhs n e (inl (one, a, b, s)) =
    let same = same-lower x y s in ground (arith, e, a, b, same)
common_char-none x y lhs rhs n e (inr (w, high, same, s)) =
    common_bytes-none 8 (shift x) _ lhs rhs (width-Ones x high) (ground (arith, e, high, same)) s
