-- ===== src/Utf8/Trimming.antt =====
-- utils::str::trim.
use mathlib.Core.List.{reverse, reverse-append, reverse-reverse}
use medialibrary.Common.{
  ◌≡◌, refl, sym, ap, ◌∙◌, subst, true, false, inl, inr, [], ◌∷◌, ◌++◌, Bytes, All, All-append,
  Bool-cases,
}
use medialibrary.Utf8.{is_space, trim_start, trim}

abbrev pub AreSpaces : Bytes → Type 0
AreSpaces = All (λ c. is_space c ≡ true)

-- The text does not start with a space.
abbrev pub StartsPlain : Bytes → Type 0
StartsPlain [] = Unit
StartsPlain (c ∷ cs) = is_space c ≡ false

trim_start_lem :
    (value : Bytes)
    → (front : Bytes) × (value ≡ front ++ trim_start value)
      × AreSpaces front
      × StartsPlain (trim_start value)
unfolding trim_start
trim_start_lem [] = ([], refl, tt, tt)
trim_start_lem (c ∷ cs) = elim (Bool-cases (is_space c)) [
  | inl space ↦
      let (front, e, a, s) = trim_start_lem cs in rw space (c ∷ front, ap (◌∷◌ c) e, (space, a), s)
  | inr plain ↦ rw plain ([], refl, tt, plain)
]

AreSpaces-reverse : (cs : Bytes) → AreSpaces cs → AreSpaces (reverse cs)
AreSpaces-reverse [] h = tt
AreSpaces-reverse (c ∷ cs) h =
    subst AreSpaces (sym (reverse-append (c ∷ []) cs)) (
      All-append (λ c. is_space c ≡ true) (reverse cs) (c ∷ []) (h.0, tt)
        (AreSpaces-reverse cs h.1))

StartsPlain-append : (cs back : Bytes) → StartsPlain (cs ++ back) → StartsPlain cs
StartsPlain-append [] back h = tt
StartsPlain-append (c ∷ cs) back h = h

-- `trim` takes spaces only, from both ends, and leaves none there.
pub trim_lem :
    (value : Bytes)
    → (front back : Bytes) × (value ≡ front ++ (trim value ++ back))
      × AreSpaces front
      × AreSpaces back
      × StartsPlain (trim value)
      × StartsPlain (reverse (trim value))
unfolding trim
trim_lem value =
    let (front, e, a, s) = trim_start_lem value in
    let (back, e', a', s') = trim_start_lem (reverse (trim_start value)) in
    let inner : trim_start value ≡ trim value ++ reverse back =
      sym (reverse-reverse (trim_start value))
      ∙ ap reverse e'
      ∙ reverse-append back (trim_start (reverse (trim_start value))) in
    (
      front,
      reverse back,
      e ∙ ap (λ x. front ++ x) inner,
      a,
      AreSpaces-reverse back a',
      StartsPlain-append (trim value) (reverse back) (subst StartsPlain inner s),
      subst StartsPlain (sym (reverse-reverse (trim_start (reverse (trim_start value))))) s',
    )
