-- ===== src/MediaGroup/Presence.antt =====
-- The counters of the media that are present when a medium appears or disappears.
use medialibrary.Common.{
  ℕ, ◌+◌, ◌-◌, ◌==◌, ==_iff, ◌≡◌, refl, sym, ap, subst, ◌∙◌, if◌then◌else◌, Bool, true, false, not,
  ◌&&◌, Option, none, some, List, ◌∷◌, arith, Bool-cases, inl, inr, if-given,
}
use medialibrary.MediaGroup.{
  Medium, Counter, nb_video, nb_audio, nb_unknown, nb_external, nb_seen, nb_present_video,
  nb_present_audio, nb_present_unknown, nb_present_seen, Group, is_internal, by_type, by_presence,
  present_row, set_group, same_presence, on_presence,
}
use medialibrary.MediaGroup.Sums.{meant, total, nb}
use medialibrary.MediaGroup.Steps.{IsCountedBy, total-cons}

presence-weight :
    (k : Counter) (m : Medium)
    → by_type k (record m { is_present = true })
      ≡ by_type k (record m { is_present = false }) + by_presence k m
presence-weight nb_video m = omega arith
presence-weight nb_audio m = omega arith
presence-weight nb_unknown m = omega arith
presence-weight nb_external m = omega arith
presence-weight nb_seen m = omega arith
presence-weight nb_present_video m = ground arith
presence-weight nb_present_audio m = ground arith
presence-weight nb_present_unknown m = ground arith
presence-weight nb_present_seen m = ground arith

by_presence-same :
    (k : Counter) (m : Medium) (b : Bool)
    → by_presence k (record m { is_present = b }) ≡ by_presence k m
by_presence-same nb_video m b = refl
by_presence-same nb_audio m b = refl
by_presence-same nb_unknown m b = refl
by_presence-same nb_external m b = refl
by_presence-same nb_seen m b = refl
by_presence-same nb_present_video m b = refl
by_presence-same nb_present_audio m b = refl
by_presence-same nb_present_unknown m b = refl
by_presence-same nb_present_seen m b = refl

meant-internal : (k : Counter) (m : Medium) → is_internal m ≡ true → meant k m ≡ by_type k m
meant-internal k m e = rw e refl

nb-present_row :
    (k : Counter) (new : Medium) (o : Option Group) (row : Group)
    → o ≡ some row
    → nb k (present_row new o)
      ≡ (if new.is_present then nb k o + by_presence k new else nb k o - by_presence k new)
nb-present_row k new none row e = cc
nb-present_row k new (some r) row e = refl

-- The row of the medium's group, where the medium appears or disappears.
row-present :
    (k : Counter) (m : Medium) (b : Bool) (n rest : ℕ)
    → is_internal m ≡ true
    → n ≡ meant k (record m { is_present = not b }) + rest
    → (if b then n + by_presence k m else n - by_presence k m)
      ≡ meant k (record m { is_present = b }) + rest
row-present k m true n rest i e =
    let with_it = meant-internal k (record m { is_present = true }) i in
    let without_it = meant-internal k (record m { is_present = false }) i in
    omega (arith, e, presence-weight k m, with_it, without_it)
row-present k m false n rest i e =
    let with_it = meant-internal k (record m { is_present = true }) i in
    let without_it = meant-internal k (record m { is_present = false }) i in
    omega (arith, e, presence-weight k m, with_it, without_it)

same_presence_only : (a b : Bool) → same_presence a b ≡ true → a ≡ b
same_presence_only true true e = refl
same_presence_only true false e = cc
same_presence_only false true e = cc
same_presence_only false false e = refl

other_presence_only : (a b : Bool) → same_presence a b ≡ false → a ≡ not b
other_presence_only true true e = cc
other_presence_only true false e = refl
other_presence_only false true e = refl
other_presence_only false false e = cc

pub presence-IsCountedBy :
    (seen : Bool) (old : Medium) (b : Bool) (row : Group) (rest : List Medium)
    (groups : ℕ → Option Group)
    → is_internal old ≡ true
    → ((old.group == 0) ≡ false → groups old.group ≡ some row)
    → IsCountedBy seen (old ∷ rest) groups
    → IsCountedBy seen
        (record old { is_present = b } ∷ rest)
        (on_presence old (record old { is_present = b }) groups)
unfolding on_presence
presence-IsCountedBy seen old b row rest groups i found v =
    let new : Medium = record old { is_present = b } in
    if-given (IsCountedBy seen (new ∷ rest))
      (not (same_presence old.is_present b) && not (old.group == 0))
      (set_group old.group (present_row new (groups old.group)) groups) groups
      (λ c k g t z. elim (Bool-cases (g == old.group)) [
        | inr n ↦
            let apart : (old.group == g) ≡ false = ground (arith, n) in
            rw n (v k g t z ∙ rw apart refl)
        | inl e ↦
            let real : (old.group == 0) ≡ false = ground (arith, c) in
            let was : old.is_present ≡ not b =
              other_presence_only old.is_present b (ground (arith, c)) in
            let before : nb k (groups old.group)
                ≡ meant k (record old { is_present = not b }) + total k old.group rest =
              v k old.group t real
              ∙ total-cons k old rest
              ∙ ap (λ (p : Bool). meant k (record old { is_present = p }) + total k old.group rest)
                  was in
            rw e (
              subst (λ h. nb k (present_row new (groups old.group)) ≡ total k h (new ∷ rest))
                (sym ((==_iff g old.group).0 e))
                (nb-present_row k new (groups old.group) row (found real)
                  ∙ ap (λ x. if b then nb k (groups old.group) + x else nb k (groups old.group) - x)
                      (by_presence-same k old b)
                  ∙ row-present k old b (nb k (groups old.group)) (total k old.group rest) i before
                  ∙ sym (total-cons k new rest)))
      ])
      (λ c k g t z. elim (Bool-cases (old.group == 0)) [
        | inl o ↦
            let apart : (old.group == g) ≡ false = ground (arith, o, z) in v k g t z ∙ rw apart refl
        | inr o ↦
            subst (λ (m : Medium). nb k (groups g) ≡ total k g (m ∷ rest))
              (ap (λ (p : Bool). record old { is_present = p })
                (same_presence_only old.is_present b (ground (arith, c, o))))
              (v k g t z)
      ])
