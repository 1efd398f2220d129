-- ===== src/MediaGroup/Counted.antt =====
-- The counters under any changes of the media.
use medialibrary.Common.{
  ℕ, ◌+◌, ◌==◌, ◌≡◌, refl, sym, ap, subst, ◌∙◌, Bool, true, false, not, ◌&&◌, ◌||◌, Option, some,
  List, ◌∷◌, arith, Bool-cases, inl, inr, if-given,
}
use medialibrary.MediaGroup.{
  Medium, Counter, nb_video, nb_audio, nb_unknown, nb_external, nb_seen, nb_present_video,
  nb_present_audio, nb_present_unknown, nb_present_seen, Group, same_type, same_import, is_internal,
  by_type, by_import, plus, minus, per_type, on_import, on_presence,
}
use medialibrary.MediaGroup.Sums.{total, weight_in}
use medialibrary.MediaGroup.Steps.{IsCountedBy, IsMeant, plus-IsCountedBy, minus-IsCountedBy}

pub by_type-IsMeant : (seen : Bool) (m : Medium) → is_internal m ≡ true → IsMeant seen by_type m
by_type-IsMeant seen m e k t = rw e refl

pub by_import-IsMeant : (m : Medium) → IsMeant false by_import m
by_import-IsMeant m nb_video t = ground arith
by_import-IsMeant m nb_audio t = ground arith
by_import-IsMeant m nb_unknown t = ground arith
by_import-IsMeant m nb_external t = ground arith
by_import-IsMeant m nb_seen t = cc
by_import-IsMeant m nb_present_video t = ground arith
by_import-IsMeant m nb_present_audio t = ground arith
by_import-IsMeant m nb_present_unknown t = ground arith
by_import-IsMeant m nb_present_seen t = cc

pub outside-IsMeant : (seen : Bool) (m : Medium) → is_internal m ≡ false → IsMeant seen by_import m
outside-IsMeant seen m e k t = rw e refl

swap : (a b c : ℕ) → a + (b + c) ≡ b + (a + c)
swap a b c = omega arith

-- One trigger with its two updates, on the media that stay.
moved-IsCountedBy :
    (seen : Bool) (w : Counter → Medium → ℕ) (old new : Medium) (row : Group) (rest : List Medium)
    (groups : ℕ → Option Group)
    → IsMeant seen w old
    → IsMeant seen w new
    → ((new.group == 0) ≡ false → groups new.group ≡ some row)
    → IsCountedBy seen (old ∷ rest) groups
    → IsCountedBy seen (new ∷ rest) (minus w old (plus w new groups))
moved-IsCountedBy seen w old new row rest groups so sn found v =
    minus-IsCountedBy seen w old (new ∷ rest) (plus w new groups) so (λ k g t z.
      plus-IsCountedBy seen w new row (old ∷ rest) groups sn found v k g t z
      ∙ swap (weight_in k g new) (weight_in k g old) (total k g rest))

abbrev pub type_changes : Medium → Medium → Bool
type_changes old new =
    (not (old.group == new.group)
      || (not (same_type old.type new.type) || not (old.play_count == new.play_count)))
    && is_internal new

abbrev pub import_changes : Medium → Medium → Bool
import_changes old new =
    (not (old.group == new.group) && not (is_internal new))
    || not (same_import old.import_type new.import_type)

per_type-IsCountedBy :
    (seen : Bool) (old new : Medium) (row : Group) (rest : List Medium) (groups : ℕ → Option Group)
    → is_internal old ≡ true
    → is_internal new ≡ true
    → ((new.group == 0) ≡ false → groups new.group ≡ some row)
    → IsCountedBy seen (old ∷ rest) groups
    → (type_changes old new ≡ false → IsCountedBy seen (new ∷ rest) groups)
    → IsCountedBy seen (new ∷ rest) (per_type old new groups)
unfolding per_type
per_type-IsCountedBy seen old new row rest groups io in_ found v same =
    if-given (IsCountedBy seen (new ∷ rest)) (type_changes old new)
      (minus by_type old (plus by_type new groups)) groups
      (λ c.
        moved-IsCountedBy seen by_type old new row rest groups (by_type-IsMeant seen old io)
          (by_type-IsMeant seen new in_) found v)
      same

pub on_import-IsCountedBy :
    (seen : Bool) (old new : Medium) (row : Group) (rest : List Medium) (groups : ℕ → Option Group)
    → IsMeant seen by_import old
    → IsMeant seen by_import new
    → ((new.group == 0) ≡ false → groups new.group ≡ some row)
    → IsCountedBy seen (old ∷ rest) groups
    → (import_changes old new ≡ false → IsCountedBy seen (new ∷ rest) groups)
    → IsCountedBy seen (new ∷ rest) (on_import old new groups)
unfolding on_import
on_import-IsCountedBy seen old new row rest groups so sn found v same =
    if-given (IsCountedBy seen (new ∷ rest)) (import_changes old new)
      (minus by_import old (plus by_import new groups)) groups
      (λ c. moved-IsCountedBy seen by_import old new row rest groups so sn found v) same

pub presence_still :
    (old new : Medium) (groups : ℕ → Option Group)
    → old.is_present ≡ new.is_present
    → on_presence old new groups ≡ groups
unfolding on_presence
presence_still old new groups e =
    rw e (elim (Bool-cases new.is_present) [ inl p ↦ rw p refl | inr p ↦ rw p refl ])

pub import_still :
    (old new : Medium) (groups : ℕ → Option Group)
    → is_internal new ≡ true
    → same_import old.import_type new.import_type ≡ true
    → on_import old new groups ≡ groups
unfolding on_import
import_still old new groups i s =
    if-given (λ (x : ℕ → Option Group). x ≡ groups) (import_changes old new)
      (minus by_import old (plus by_import new groups)) groups (λ c. ground (arith, c, i, s))
      (λ c. refl)

pub type_outside :
    (old new : Medium) (groups : ℕ → Option Group)
    → is_internal new ≡ false
    → per_type old new groups ≡ groups
unfolding per_type
type_outside old new groups i =
    if-given (λ (x : ℕ → Option Group). x ≡ groups) (type_changes old new)
      (minus by_type old (plus by_type new groups)) groups (λ c. ground (arith, c, i)) (λ c. refl)

pub type_still :
    (old new : Medium) (groups : ℕ → Option Group)
    → type_changes old new ≡ false
    → per_type old new groups ≡ groups
unfolding per_type
type_still old new groups i =
    if-given (λ (x : ℕ → Option Group). x ≡ groups) (type_changes old new)
      (minus by_type old (plus by_type new groups)) groups (λ c. ground (arith, c, i)) (λ c. refl)

pub type_fires :
    (old new : Medium) (groups : ℕ → Option Group)
    → type_changes old new ≡ true
    → per_type old new groups ≡ minus by_type old (plus by_type new groups)
unfolding per_type
type_fires old new groups i = rw i refl

pub import_fires :
    (old new : Medium) (groups : ℕ → Option Group)
    → import_changes old new ≡ true
    → on_import old new groups ≡ minus by_import old (plus by_import new groups)
unfolding on_import
import_fires old new groups i = rw i refl

-- The triggers of an update, and what they are to do.
abbrev pub triggers : Medium → Medium → (ℕ → Option Group) → ℕ → Option Group
triggers old new groups = on_presence old new (on_import old new (per_type old new groups))

pub inside-IsCountedBy :
    (seen : Bool) (old new : Medium) (row : Group) (rest : List Medium) (groups : ℕ → Option Group)
    → is_internal old ≡ true
    → is_internal new ≡ true
    → old.is_present ≡ new.is_present
    → same_import old.import_type new.import_type ≡ true
    → ((new.group == 0) ≡ false → groups new.group ≡ some row)
    → IsCountedBy seen (old ∷ rest) groups
    → (type_changes old new ≡ false → IsCountedBy seen (new ∷ rest) groups)
    → IsCountedBy seen (new ∷ rest) (triggers old new groups)
inside-IsCountedBy seen old new row rest groups io in_ p s found v same =
    let after = per_type old new groups in
    subst (IsCountedBy seen (new ∷ rest))
      (sym (presence_still old new (on_import old new after) p ∙ import_still old new after in_ s))
      (per_type-IsCountedBy seen old new row rest groups io in_ found v same)

pub outside-IsCountedBy :
    (seen : Bool) (old new : Medium) (row : Group) (rest : List Medium) (groups : ℕ → Option Group)
    → IsMeant seen by_import old
    → IsMeant seen by_import new
    → is_internal new ≡ false
    → old.is_present ≡ new.is_present
    → ((new.group == 0) ≡ false → groups new.group ≡ some row)
    → IsCountedBy seen (old ∷ rest) groups
    → (import_changes old new ≡ false → IsCountedBy seen (new ∷ rest) groups)
    → IsCountedBy seen (new ∷ rest) (triggers old new groups)
outside-IsCountedBy seen old new row rest groups so sn i p found v same =
    subst (IsCountedBy seen (new ∷ rest))
      (sym (
        presence_still old new (on_import old new (per_type old new groups)) p
        ∙ ap (on_import old new) (type_outside old new groups i)))
      (on_import-IsCountedBy seen old new row rest groups so sn found v same)
