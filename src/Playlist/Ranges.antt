-- ===== src/Playlist/Ranges.antt =====
-- Playlists: ranges of a list, taken out and put in.
use medialibrary.Common.{
  ℕ, zero, suc, ◌+◌, ◌-◌, ◌≤◌, ◌<◌, ◌==◌, ltb, ◌≡◌, refl, ap, if◌then◌else◌, some, List, [], ◌∷◌,
  ◌++◌, length, take, drop, get_elem?, All, All-append, arith, length-append, length-take,
  length-drop, take-append-drop,
}

abbrev pub insert_at : ℕ → ℕ → List ℕ → List ℕ
insert_at p m xs = take p xs ++ m ∷ drop p xs

pub length-insert_at : (p m : ℕ) (xs : List ℕ) → length (insert_at p m xs) ≡ suc (length xs)
length-insert_at zero m xs = refl
length-insert_at (suc p) m [] = refl
length-insert_at (suc p) m (x ∷ xs) = ap suc (length-insert_at p m xs)

pub get-insert_at :
    (p m q : ℕ) (xs : List ℕ)
    → p ≤ length xs
    → get_elem? (insert_at p m xs) q
      ≡ (if ltb q p then get_elem? xs q else if q == p then some m else get_elem? xs (q - 1))
get-insert_at zero m zero xs h = refl
get-insert_at zero m (suc q) xs h = let e : suc q - 1 ≡ q = omega arith in rw e (ground arith)
get-insert_at (suc p) m q [] h = absurd (omega arith)
get-insert_at (suc p) m zero (x ∷ xs) h = ground arith
get-insert_at (suc p) m (suc zero) (x ∷ xs) h = ground (arith, get-insert_at p m 0 xs)
get-insert_at (suc p) m (suc (suc q)) (x ∷ xs) h =
    let e : suc (suc q) - 1 ≡ suc q = omega arith in
    let e' : suc q - 1 ≡ q = omega arith in
    rw e (ground (arith, rw e' at (get-insert_at p m (suc q) xs)))

abbrev pub insert_all : ℕ → List ℕ → List ℕ → List ℕ
insert_all p ids xs = take p xs ++ (ids ++ drop p xs)

pub insert_all-insert_at :
    (p m : ℕ) (ids xs : List ℕ)
    → p ≤ length xs
    → insert_all (suc p) ids (insert_at p m xs) ≡ insert_all p (m ∷ ids) xs
insert_all-insert_at zero m ids xs h = refl
insert_all-insert_at (suc p) m ids [] h = absurd (omega arith)
insert_all-insert_at (suc p) m ids (x ∷ xs) h =
    ap (◌∷◌ x) (insert_all-insert_at p m ids xs (omega arith))

abbrev pub remove_at : ℕ → List ℕ → List ℕ
remove_at p xs = take p xs ++ drop (suc p) xs

abbrev pub remove_range : ℕ → ℕ → List ℕ → List ℕ
remove_range first n xs = take first xs ++ drop (first + n) xs

pub length-remove_at :
    (p : ℕ) (xs : List ℕ) → p < length xs → suc (length (remove_at p xs)) ≡ length xs
length-remove_at p [] h = absurd (omega arith)
length-remove_at zero (x ∷ xs) h = refl
length-remove_at (suc p) (x ∷ xs) h = ap suc (length-remove_at p xs (omega arith))

pub get-remove_at :
    (p q : ℕ) (xs : List ℕ)
    → p < length xs
    → get_elem? (remove_at p xs) q ≡ (if ltb q p then get_elem? xs q else get_elem? xs (suc q))
get-remove_at p q [] h = absurd (omega arith)
get-remove_at zero q (x ∷ xs) h = ground arith
get-remove_at (suc p) zero (x ∷ xs) h = ground arith
get-remove_at (suc p) (suc q) (x ∷ xs) h = ground (arith, get-remove_at p q xs)

pub take-remove_at : (n p : ℕ) (xs : List ℕ) → n ≤ p → take n (remove_at p xs) ≡ take n xs
take-remove_at zero p xs h = refl
take-remove_at (suc n) zero xs h = absurd (omega arith)
take-remove_at (suc n) (suc p) [] h = refl
take-remove_at (suc n) (suc p) (x ∷ xs) h = ap (◌∷◌ x) (take-remove_at n p xs (omega arith))

pub drop-remove_at :
    (n p : ℕ) (xs : List ℕ) → p ≤ n → p < length xs → drop n (remove_at p xs) ≡ drop (suc n) xs
drop-remove_at n p [] h l = absurd (omega arith)
drop-remove_at n zero (x ∷ xs) h l = refl
drop-remove_at zero (suc p) (x ∷ xs) h l = absurd (omega arith)
drop-remove_at (suc n) (suc p) (x ∷ xs) h l = drop-remove_at n p xs (omega arith) (omega arith)

pub remove_range_none : (first : ℕ) (xs : List ℕ) → remove_range first 0 xs ≡ xs
remove_range_none first xs =
    let e : first + 0 ≡ first = omega arith in rw e (take-append-drop first xs)

pub remove_range-step :
    (p first k : ℕ) (xs : List ℕ)
    → first ≤ p
    → p < first + suc k
    → first + suc k ≤ length xs
    → remove_range first k (remove_at p xs) ≡ remove_range first (suc k) xs
remove_range-step p first k xs l h f =
    let e : first + suc k ≡ suc (first + k) = omega arith in
    rw (take-remove_at first p xs l, drop-remove_at (first + k) p xs (omega arith) (omega arith), e)
      refl

pub drop-drop : (m n : ℕ) (xs : List ℕ) → drop m (drop n xs) ≡ drop (n + m) xs
drop-drop m zero xs = let e : 0 + m ≡ m = omega arith in rw e refl
drop-drop zero (suc n) [] = let e : suc n + 0 ≡ suc n = omega arith in rw e refl
drop-drop (suc m) (suc n) [] = let e : suc n + suc m ≡ suc (n + suc m) = omega arith in rw e refl
drop-drop m (suc n) (x ∷ xs) =
    let e : suc n + m ≡ suc (n + m) = omega arith in rw e (drop-drop m n xs)

pub drop-all {ℓ} : {A : Type ℓ} (p : ℕ) (xs : List A) → length xs ≤ p → drop p xs ≡ []
drop-all zero [] h = refl
drop-all zero (x ∷ xs) h = absurd (omega arith)
drop-all (suc p) [] h = refl
drop-all (suc p) (x ∷ xs) h = drop-all p xs (omega arith)

module _ (P : ℕ → Type 0) where
  pub All-take : (n : ℕ) (xs : List ℕ) → All P xs → All P (take n xs)
  All-take zero xs a = tt
  All-take (suc n) [] a = tt
  All-take (suc n) (x ∷ xs) a = (a.0, All-take n xs a.1)

  pub All-drop : (n : ℕ) (xs : List ℕ) → All P xs → All P (drop n xs)
  All-drop zero xs a = a
  All-drop (suc n) [] a = tt
  All-drop (suc n) (x ∷ xs) a = All-drop n xs a.1

  pub All-insert_all :
      (p : ℕ) (ids xs : List ℕ) → All P ids → All P xs → All P (insert_all p ids xs)
  All-insert_all p ids xs a b =
      All-append P (take p xs) (ids ++ drop p xs) (All-append P ids (drop p xs) (All-drop p xs b) a)
        (All-take p xs b)

  pub All-remove_range : (p n : ℕ) (xs : List ℕ) → All P xs → All P (remove_range p n xs)
  All-remove_range p n xs a =
      All-append P (take p xs) (drop (p + n) xs) (All-drop (p + n) xs a) (All-take p xs a)

pub length-insert_all :
    (p : ℕ) (ids xs : List ℕ) → length (insert_all p ids xs) ≡ length xs + length ids
length-insert_all p ids xs = omega (
  arith,
  length-append (take p xs) (ids ++ drop p xs),
  length-append ids (drop p xs),
  length-take p xs,
  length-drop p xs,
)

pub length-remove_range :
    (p n : ℕ) (xs : List ℕ) → p + n ≤ length xs → length (remove_range p n xs) + n ≡ length xs
length-remove_range p n xs h =
    omega
      (arith, length-append (take p xs) (drop (p + n) xs), length-take p xs, length-drop (p + n) xs)
