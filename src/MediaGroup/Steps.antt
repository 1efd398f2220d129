-- ===== src/MediaGroup/Steps.antt =====
-- The updates that a trigger makes: the counters stay the sums, and a group with media stays.
use medialibrary.Common.{
  ℕ, ◌+◌, ◌-◌, ◌==◌, ◌≤◌, ==_iff, ==-refl, ◌≡◌, refl, sym, ap, subst, ◌∙◌, Bool, true, false, not,
  ◌&&◌, ◌||◌, Option, none, some, List, ◌∷◌, arith, Bool-cases, inl, inr,
}
use medialibrary.MediaGroup.{
  Medium, Counter, nb_video, nb_audio, nb_unknown, nb_external, nb_seen, nb_present_video,
  nb_present_audio, nb_present_unknown, nb_present_seen, Group, unless_empty, plus_row, minus_row,
  plus, minus,
}
use medialibrary.MediaGroup.Sums.{meant, total, nb, basic, total-basic}

abbrev pub is_seen : Counter → Bool
is_seen nb_seen = true
is_seen nb_present_seen = true
is_seen nb_video = false
is_seen nb_audio = false
is_seen nb_unknown = false
is_seen nb_external = false
is_seen nb_present_video = false
is_seen nb_present_audio = false
is_seen nb_present_unknown = false

-- The counters of each group are the sums over its media; those of the media that were seen only where
-- `seen` asks for them.
abbrev pub IsCountedBy : Bool → List Medium → (ℕ → Option Group) → Type 0
IsCountedBy seen media groups =
    (k : Counter) (g : ℕ)
    → (seen || not (is_seen k)) ≡ true
    → (g == 0) ≡ false
    → nb k (groups g) ≡ total k g media

nb-unless_empty :
    (k : Counter) (g : Group)
    → g.counters k ≤ basic g.counters
    → nb k (unless_empty g) ≡ g.counters k
nb-unless_empty k g b =
    elim (Bool-cases (
      g.counters nb_video == 0
      && (g.counters nb_audio == 0
          && (g.counters nb_unknown == 0 && g.counters nb_external == 0)))) [
            | inl e ↦ rw e (ground (arith, e, b))
            | inr e ↦ rw e refl
          ]

-- The row becomes `sum`, if the counters that are tracked do and those of all media are among them.
abbrev BecomesSum : Bool → (Counter → ℕ) → (Counter → ℕ) → Type 0
BecomesSum seen c sum = (k : Counter) → (seen || not (is_seen k)) ≡ true → c k ≡ sum k

basic-sum : (seen : Bool) (c sum : Counter → ℕ) → BecomesSum seen c sum → basic c ≡ basic sum
basic-sum seen c sum h =
    let always : (seen || true) ≡ true = ground arith in
    omega (arith, h nb_video always, h nb_audio always, h nb_unknown always, h nb_external always)

nb-plus_row :
    (seen : Bool) (k : Counter) (w sum : Counter → ℕ) (o : Option Group) (g : Group)
    → o ≡ some g
    → (seen || not (is_seen k)) ≡ true
    → sum k ≤ basic sum
    → BecomesSum seen (λ c. nb c o + w c) sum
    → nb k (plus_row w o) ≡ sum k
nb-plus_row seen k w sum none g e t b h = cc
nb-plus_row seen k w sum (some r) g e t b h =
    let after : Counter → ℕ = λ c. r.counters c + w c in
    nb-unless_empty k (record r { counters = after })
      (omega (arith, b, h k t, basic-sum seen after sum h))
    ∙ h k t

nb-minus_row :
    (seen : Bool) (k : Counter) (w sum : Counter → ℕ) (o : Option Group)
    → (seen || not (is_seen k)) ≡ true
    → sum k ≤ basic sum
    → BecomesSum seen (λ c. nb c o - w c) sum
    → nb k (minus_row w o) ≡ sum k
nb-minus_row seen k w sum none t b h = omega (arith, h k t)
nb-minus_row seen k w sum (some r) t b h =
    let after : Counter → ℕ = λ c. r.counters c - w c in
    nb-unless_empty k (record r { counters = after })
      (omega (arith, b, h k t, basic-sum seen after sum h))
    ∙ h k t

-- A weight that is what is meant, where it is asked for.
abbrev pub IsMeant : Bool → (Counter → Medium → ℕ) → Medium → Type 0
IsMeant seen w m = (k : Counter) → (seen || not (is_seen k)) ≡ true → w k m ≡ meant k m

pub total-cons :
    (k : Counter) (m : Medium) (media : List Medium)
    → total k m.group (m ∷ media) ≡ meant k m + total k m.group media
total-cons k m media = rw (==-refl m.group) refl

pub plus-IsCountedBy :
    (seen : Bool) (w : Counter → Medium → ℕ) (m : Medium) (g : Group) (media : List Medium)
    (groups : ℕ → Option Group)
    → IsMeant seen w m
    → ((m.group == 0) ≡ false → groups m.group ≡ some g)
    → IsCountedBy seen media groups
    → IsCountedBy seen (m ∷ media) (plus w m groups)
plus-IsCountedBy seen w m row media groups same found v k g tracked real =
    elim (Bool-cases (m.group == 0)) [
      | inl z ↦
          let apart : (m.group == g) ≡ false = ground (arith, z, real) in
          rw (z, apart) (omega (arith, v k g tracked real))
      | inr z ↦ elim (Bool-cases (g == m.group)) [
        | inr n ↦
            let apart : (m.group == g) ≡ false = ground (arith, n) in
            rw (z, n, apart) (omega (arith, v k g tracked real))
        | inl e ↦
            rw (z, e)
              (subst (λ h. nb k (plus_row (λ c. w c m) (groups m.group)) ≡ total k h (m ∷ media))
                (sym ((==_iff g m.group).0 e))
                (nb-plus_row seen k (λ c. w c m) (λ c. total c m.group (m ∷ media)) (groups m.group)
                  row (found z) tracked (total-basic k m.group (m ∷ media))
                  (λ c t.
                    ap (λ x. x + w c m) (v c m.group t z)
                    ∙ omega (arith, same c t, total-cons c m media))))
      ]
    ]

pub minus-IsCountedBy :
    (seen : Bool) (w : Counter → Medium → ℕ) (m : Medium) (media : List Medium)
    (groups : ℕ → Option Group)
    → IsMeant seen w m
    → IsCountedBy seen (m ∷ media) groups
    → IsCountedBy seen media (minus w m groups)
minus-IsCountedBy seen w m media groups same v k g tracked real = elim (Bool-cases (m.group == 0)) [
  | inl z ↦
      let apart : (m.group == g) ≡ false = ground (arith, z, real) in
      rw z (v k g tracked real ∙ rw apart (omega arith))
  | inr z ↦ elim (Bool-cases (g == m.group)) [
    | inr n ↦
        let apart : (m.group == g) ≡ false = ground (arith, n) in
        rw (z, n) (v k g tracked real ∙ rw apart (omega arith))
    | inl e ↦
        rw (z, e)
          (subst (λ h. nb k (minus_row (λ c. w c m) (groups m.group)) ≡ total k h media)
            (sym ((==_iff g m.group).0 e))
            (nb-minus_row seen k (λ c. w c m) (λ c. total c m.group media) (groups m.group) tracked
              (total-basic k m.group media)
              (λ c t. omega (arith, same c t, v c m.group t z, total-cons c m media))))
  ]
]
