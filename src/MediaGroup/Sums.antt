-- ===== src/MediaGroup/Sums.antt =====
-- What the counters of a group are to be: sums over its media.
use medialibrary.Common.{
  MediaType, video, audio, unknown, ℕ, ◌+◌, ◌==◌, ◌≤◌, ◌≡◌, refl, ap, if◌then◌else◌, Option, none,
  some, List, [], ◌∷◌, arith, Bool-cases, inl, inr,
}
use mathlib.Core.Option.{some-injective}
use medialibrary.MediaGroup.{
  ImportType, internal, external, stream, Medium, Counter, nb_video, nb_audio, nb_unknown,
  nb_external, nb_seen, nb_present_video, nb_present_audio, nb_present_unknown, nb_present_seen,
  Group, is_internal, by_type, by_import, lookup_medium, replace, without,
}

-- What a medium of a group counts: a medium that is not internal is counted as external only.
abbrev pub meant : Counter → Medium → ℕ
meant k m = if is_internal m then by_type k m else by_import k m

abbrev pub total : Counter → ℕ → List Medium → ℕ
total k g [] = 0
total k g (m ∷ media) = (if m.group == g then meant k m else 0) + total k g media

abbrev pub nb : Counter → Option Group → ℕ
nb k none = 0
nb k (some g) = g.counters k

abbrev pub basic : (Counter → ℕ) → ℕ
basic c = c nb_video + (c nb_audio + (c nb_unknown + c nb_external))

-- Each medium counts once in the four counters of all media.
pub meant-basic : (m : Medium) → basic (λ k. meant k m) ≡ 1
meant-basic m = type_of m.type m.import_type refl refl
  where
    type_of :
        (t : MediaType) (i : ImportType)
        → m.type ≡ t
        → m.import_type ≡ i
        → basic (λ k. meant k m) ≡ 1
    type_of video internal e f = rw (e, f) refl
    type_of audio internal e f = rw (e, f) refl
    type_of unknown internal e f = rw (e, f) refl
    type_of t external e f = rw f refl
    type_of t stream e f = rw f refl

meant-bound : (k : Counter) (m : Medium) → meant k m ≤ 1
meant-bound nb_video m = ground arith
meant-bound nb_audio m = ground arith
meant-bound nb_unknown m = ground arith
meant-bound nb_external m = ground arith
meant-bound nb_seen m = ground arith
meant-bound nb_present_video m = ground arith
meant-bound nb_present_audio m = ground arith
meant-bound nb_present_unknown m = ground arith
meant-bound nb_present_seen m = ground arith

pub total-basic :
    (k : Counter) (g : ℕ) (media : List Medium) → total k g media ≤ basic (λ c. total c g media)
total-basic k g [] = omega arith
total-basic k g (m ∷ media) = elim (Bool-cases (m.group == g)) [
  | inl e ↦ rw e (omega (arith, total-basic k g media, meant-basic m, meant-bound k m))
  | inr e ↦ rw e (omega (arith, total-basic k g media))
]

-- The total without a medium, and with another one in its place.
abbrev pub weight_in : Counter → ℕ → Medium → ℕ
weight_in k g m = if m.group == g then meant k m else 0

pub total-without :
    (k : Counter) (g id : ℕ) (old : Medium) (media : List Medium)
    → lookup_medium id media ≡ some old
    → total k g media ≡ weight_in k g old + total k g (without id media)
total-without k g id old [] e = cc
total-without k g id old (m ∷ media) e = elim (Bool-cases (m.id == id)) [
  | inl s ↦
      let same : m ≡ old = some-injective m old (rw s at e) in
      rw s (ap (λ x. weight_in k g x + total k g media) same)
  | inr s ↦ rw s (omega (arith, total-without k g id old media (rw s at e)))
]

pub total-replace :
    (k : Counter) (g id : ℕ) (old new : Medium) (media : List Medium)
    → lookup_medium id media ≡ some old
    → total k g (replace id new media) ≡ weight_in k g new + total k g (without id media)
total-replace k g id old new [] e = cc
total-replace k g id old new (m ∷ media) e = elim (Bool-cases (m.id == id)) [
  | inl s ↦ rw s refl
  | inr s ↦ rw s (omega (arith, total-replace k g id old new media (rw s at e)))
]
