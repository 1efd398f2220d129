-- ===== src/MediaGroup/Doubled.antt =====
-- Where the counters are wrong: an external medium that becomes internal with another type, and one that
-- is deleted.
use medialibrary.Common.{
  video, ℕ, ◌+◌, ◌-◌, ◌==◌, ==-refl, ltb, ◌≡◌, refl, sym, ap, ◌∙◌, Bool, true, false, ◌&&◌, ◌||◌,
  Option, none, some, ◌∷◌, arith, if-given,
}
use medialibrary.MediaGroup.{
  internal, Medium, Counter, nb_video, nb_audio, nb_unknown, nb_external, Group, Tables, same_type,
  is_internal, by_type, by_import, plus, minus, plus_row, minus_row, unless_empty, per_type,
  on_import, on_presence, on_deletion, lookup_medium, replace, without, update_medium,
  delete_medium, becomes_internal, leaves, apply_change,
}
use medialibrary.MediaGroup.Sums.{total, nb, total-without, total-replace}
use medialibrary.MediaGroup.Steps.{IsCountedBy, total-cons}
use medialibrary.MediaGroup.Counted.{presence_still, type_fires, import_fires}
use medialibrary.MediaGroup.Attributes.{IsCounted, find_row}

-- A row with a video, or with an external medium, stays.
abbrev keeps_row : Group → Bool
keeps_row g = ltb 0 (g.counters nb_video) || ltb 0 (g.counters nb_external)

kept_row : (g : Group) → keeps_row g ≡ true → unless_empty g ≡ some g
kept_row g h =
    if-given (λ o. o ≡ some g)
      (g.counters nb_video == 0
        && (g.counters nb_audio == 0
            && (g.counters nb_unknown == 0 && g.counters nb_external == 0)))
      none (some g) (λ e. ground (arith, e, h)) (λ e. refl)

-- The four updates of the two triggers on the row.
abbrev row_after : Medium → Medium → Option Group → Option Group
row_after old new o =
    minus_row (λ k. by_import k old)
      (plus_row (λ k. by_import k new)
        (minus_row (λ k. by_type k old) (plus_row (λ k. by_type k new) o)))

twice :
    (old new : Medium) (g : Group)
    → same_type old.type video ≡ false
    → new.type ≡ video
    → is_internal old ≡ false
    → is_internal new ≡ true
    → nb nb_video (row_after old new (some g)) ≡ 2 + g.counters nb_video
twice old new g o n io in_ =
    let first : Group = record g { counters = λ k. g.counters k + by_type k new } in
    let second : Group = record g { counters = λ k. first.counters k - by_type k old } in
    let third : Group = record g { counters = λ k. second.counters k + by_import k new } in
    let fourth : Group = record g { counters = λ k. third.counters k - by_import k old } in
    let is_video : same_type new.type video ≡ true = ap (λ t. same_type t video) n in
    let s1 = kept_row first (ground (arith, is_video)) in
    let s2 = kept_row second (ground (arith, is_video, o)) in
    let s3 = kept_row third (ground (arith, is_video, o, in_)) in
    let s4 = kept_row fourth (ground (arith, is_video, o, in_, io)) in
    ap
      (λ x. nb nb_video (
        minus_row (λ k. by_import k old)
          (plus_row (λ k. by_import k new) (minus_row (λ k. by_type k old) x))))
      s1
    ∙ ap (λ x. nb nb_video (minus_row (λ k. by_import k old) (plus_row (λ k. by_import k new) x)))
        s2
    ∙ ap (λ x. nb nb_video (minus_row (λ k. by_import k old) x)) s3
    ∙ ap (nb nb_video) s4
    ∙ ground (arith, is_video, o, in_, io)

at_plus :
    (w : Counter → Medium → ℕ) (m : Medium) (groups : ℕ → Option Group)
    → (m.group == 0) ≡ false
    → plus w m groups m.group ≡ plus_row (λ k. w k m) (groups m.group)
at_plus w m groups z = rw (z, ==-refl m.group) refl

at_minus :
    (w : Counter → Medium → ℕ) (m : Medium) (groups : ℕ → Option Group)
    → (m.group == 0) ≡ false
    → minus w m groups m.group ≡ minus_row (λ k. w k m) (groups m.group)
at_minus w m groups z = rw (z, ==-refl m.group) refl

abbrev as_video : Medium → Medium
as_video m = record m { type = video; import_type = internal }

-- The trigger on the type fires, and so does the one on the import type.
both_fire :
    (old : Medium) (groups : ℕ → Option Group)
    → (old.group == 0) ≡ false
    → is_internal old ≡ false
    → same_type old.type video ≡ false
    → on_presence old
        (as_video old)
        (on_import old (as_video old) (per_type old (as_video old) groups))
        old.group
      ≡ row_after old (as_video old) (groups old.group)
both_fire old groups z io o =
    let new = as_video old in
    let typed = minus by_type old (plus by_type new groups) in
    let one : per_type old new groups ≡ typed = type_fires old new groups (ground (arith, o)) in
    let two : on_import old new typed ≡ minus by_import old (plus by_import new typed) =
      import_fires old new typed (ground (arith, io)) in
    ap (λ x. x old.group)
      (presence_still old new (on_import old new (per_type old new groups)) refl
        ∙ ap (on_import old new) one
        ∙ two)
    ∙ at_minus by_import old (plus by_import new typed) z
    ∙ ap (minus_row (λ k. by_import k old)) (at_plus by_import new typed z)
    ∙ ap (λ x. minus_row (λ k. by_import k old) (plus_row (λ k. by_import k new) x))
        (at_minus by_type old (plus by_type new groups) z
          ∙ ap (minus_row (λ k. by_type k old)) (at_plus by_type new groups z))

-- If the counters are right, and an external medium in a group becomes an internal video, though it had
-- another type, it is counted twice among the videos of its group.
pub becomes_internal-doubled :
    (id : ℕ) (old : Medium) (t : Tables)
    → IsCounted false t
    → lookup_medium id t.media ≡ some old
    → (old.group == 0) ≡ false
    → is_internal old ≡ false
    → same_type old.type video ≡ false
    → nb nb_video ((apply_change (becomes_internal id video) t).groups old.group)
      ≡ 1 + total nb_video old.group (apply_change (becomes_internal id video) t).media
unfolding apply_change update_medium
becomes_internal-doubled id old t v e z io o =
    let rest = without id t.media in
    let counted : IsCountedBy false (old ∷ rest) t.groups =
      λ c h r w. v c h r w ∙ total-without c h id old t.media e in
    let row = find_row false old rest t.groups counted in
    let before : row.0.counters nb_video ≡ total nb_video old.group rest =
      ap (nb nb_video) (sym (row.1 z))
      ∙ counted nb_video old.group refl z
      ∙ total-cons nb_video old rest
      ∙ rw io (omega arith) in
    let after : total nb_video old.group (replace id (as_video old) t.media)
        ≡ 1 + total nb_video old.group rest =
      total-replace nb_video old.group id old (as_video old) t.media e
      ∙ rw (==-refl old.group) refl in
    rw e (
      ap (nb nb_video) (both_fire old t.groups z io o ∙ ap (row_after old (as_video old)) (row.1 z))
      ∙ twice old (as_video old) row.0 o refl io refl
      ∙ omega (arith, before, after))

-- If the counters are right, and an external medium in a group is deleted, it stays counted as external,
-- so that the group is not deleted with it.
pub leaves-external :
    (id : ℕ) (old : Medium) (t : Tables)
    → IsCounted false t
    → lookup_medium id t.media ≡ some old
    → (old.group == 0) ≡ false
    → is_internal old ≡ false
    → nb nb_external ((apply_change (leaves id) t).groups old.group)
      ≡ 1 + total nb_external old.group (apply_change (leaves id) t).media
unfolding apply_change delete_medium on_deletion
leaves-external id old t v e z io =
    let rest = without id t.media in
    let counted : IsCountedBy false (old ∷ rest) t.groups =
      λ c h r w. v c h r w ∙ total-without c h id old t.media e in
    let row = find_row false old rest t.groups counted in
    let before : row.0.counters nb_external ≡ 1 + total nb_external old.group rest =
      ap (nb nb_external) (sym (row.1 z))
      ∙ counted nb_external old.group refl z
      ∙ total-cons nb_external old rest
      ∙ rw io refl in
    let after : Group = record row.0 { counters = λ k. row.0.counters k - by_type k old } in
    rw e (
      ap (nb nb_external) (
        at_minus by_type old t.groups z
        ∙ ap (minus_row (λ k. by_type k old)) (row.1 z)
        ∙ kept_row after (ground (arith, before)))
      ∙ omega (arith, before))
