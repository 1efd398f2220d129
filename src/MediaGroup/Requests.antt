-- ===== src/MediaGroup/Requests.antt =====
-- The requests on one medium keep the counters of the groups.
use medialibrary.Common.{
  MediaType, ℕ, ◌==◌, ==_iff, ◌≡◌, refl, sym, ap, subst, ◌∙◌, Bool, true, false, not, ◌&&◌, Option,
  none, some, ◌∷◌, arith,
}
use medialibrary.MediaGroup.{
  ImportType, internal, external, Medium, Group, Tables, same_type, is_internal, by_type, per_type,
  on_import, lookup_medium, without, update_medium, delete_found, delete_medium,
}
use medialibrary.MediaGroup.Sums.{total-without}
use medialibrary.MediaGroup.Steps.{IsCountedBy, minus-IsCountedBy}
use medialibrary.MediaGroup.Counted.{
  by_type-IsMeant, by_import-IsMeant, outside-IsCountedBy, type_still, presence_still,
  on_import-IsCountedBy,
}
use medialibrary.MediaGroup.Attributes.{
  IsCounted, no_row, find_row, update-IsCounted, same_update, same_type_only, same_import_only,
  attribute-IsCountedBy,
}

abbrev pub has_group : ℕ → Tables → Bool
has_group g t =
    not (g == 0)
    && (elim (t.groups g) as (λ (o : Option Group). Bool) [ none ↦ false | some r ↦ true ])

abbrev pub found_so : (Medium → Bool) → Option Medium → Bool
found_so test none = true
found_so test (some m) = test m

pub regroup-IsCounted :
    (seen : Bool) (id g : ℕ) (t : Tables)
    → has_group g t ≡ true
    → IsCounted seen t
    → IsCounted seen (update_medium id (λ m. record m { group = g }) t)
regroup-IsCounted seen id g t a v =
    update-IsCounted seen id (λ m. record m { group = g }) t v
      (λ old rest e w.
        let new : Medium = record old { group = g } in
        attribute-IsCountedBy seen old new (row_at (t.groups g)) rest t.groups refl refl
          (λ z. row_there (t.groups g) (ground (arith, a)))
          (λ c i.
            ap (λ (h : ℕ). record old { group = h })
              ((==_iff old.group g).0 (ground (arith, c, i))))
          w)
  where
    row_at : Option Group → Group
    row_at none = no_row
    row_at (some r) = r

    row_there :
        (o : Option Group)
        → (elim o as (λ (x : Option Group). Bool) [ none ↦ false | some r ↦ true ]) ≡ true
        → o ≡ some (row_at o)
    row_there none h = cc
    row_there (some r) h = refl

pub retype-IsCounted :
    (seen : Bool) (id : ℕ) (type : MediaType) (t : Tables)
    → IsCounted seen t
    → IsCounted seen (update_medium id (λ m. record m { type = type }) t)
retype-IsCounted seen id type t v =
    update-IsCounted seen id (λ m. record m { type = type }) t v
      (λ old rest e w.
        let new : Medium = record old { type = type } in
        let row = find_row seen old rest t.groups w in
        attribute-IsCountedBy seen old new row.0 rest t.groups refl refl row.1
          (λ c i.
            ap (λ (x : MediaType). record old { type = x })
              (same_type_only old.type type (ground (arith, c, i))))
          w)

pub play-IsCounted :
    (seen : Bool) (id count : ℕ) (t : Tables)
    → IsCounted seen t
    → IsCounted seen (update_medium id (λ m. record m { play_count = count }) t)
play-IsCounted seen id count t v =
    update-IsCounted seen id (λ m. record m { play_count = count }) t v
      (λ old rest e w.
        let new : Medium = record old { play_count = count } in
        let row = find_row seen old rest t.groups w in
        attribute-IsCountedBy seen old new row.0 rest t.groups refl refl row.1
          (λ c i.
            ap (λ (n : ℕ). record old { play_count = n })
              ((==_iff old.play_count count).0 (ground (arith, c, i))))
          w)

pub to_external-IsCounted :
    (id : ℕ) (t : Tables)
    → IsCounted false t
    → IsCounted false (update_medium id (λ m. record m { import_type = external }) t)
to_external-IsCounted id t v =
    update-IsCounted false id (λ m. record m { import_type = external }) t v
      (λ old rest e w.
        let new : Medium = record old { import_type = external } in
        let row = find_row false old rest t.groups w in
        outside-IsCountedBy false old new row.0 rest t.groups (by_import-IsMeant old)
          (by_import-IsMeant new) refl refl row.1 w
          (λ c.
            same_update false old new rest t.groups
              (ap (λ (x : ImportType). record old { import_type = x })
                (same_import_only old.import_type external (ground (arith, c))))
              w))

pub to_internal-IsCounted :
    (id : ℕ) (type : MediaType) (t : Tables)
    → found_so (λ m. same_type m.type type) (lookup_medium id t.media) ≡ true
    → IsCounted false t
    → IsCounted false (update_medium id (λ m. record m { type = type; import_type = internal }) t)
to_internal-IsCounted id type t a v =
    update-IsCounted false id (λ m. record m { type = type; import_type = internal }) t v
      (λ old rest e w.
        let new : Medium = record old { type = type; import_type = internal } in
        let row = find_row false old rest t.groups w in
        let same : same_type old.type type ≡ true =
          subst (λ o. found_so (λ m. same_type m.type type) o ≡ true) e a in
        let still = type_still old new t.groups (ground (arith, same)) in
        subst (IsCountedBy false (new ∷ rest))
          (sym (
            presence_still old new (on_import old new (per_type old new t.groups)) refl
            ∙ ap (on_import old new) still))
          (on_import-IsCountedBy false old new row.0 rest t.groups (by_import-IsMeant old)
            (by_import-IsMeant new) row.1 w
            (λ c.
              same_update false old new rest t.groups
                (ap (λ (x : MediaType). record old { type = x }) (same_type_only old.type type same)
                  ∙ ap (λ (x : ImportType). record old { type = type; import_type = x })
                      (same_import_only old.import_type internal (ground (arith, c))))
                w)))

pub delete-IsCounted :
    (seen : Bool) (id : ℕ) (t : Tables)
    → found_so is_internal (lookup_medium id t.media) ≡ true
    → IsCounted seen t
    → IsCounted seen (delete_medium id t)
unfolding delete_medium
delete-IsCounted seen id t a v = by_lookup (lookup_medium id t.media) refl
  where
    by_lookup :
        (o : Option Medium) → lookup_medium id t.media ≡ o → IsCounted seen (delete_found id o t)
    by_lookup none e = v
    by_lookup (some old) e =
        minus-IsCountedBy seen by_type old (without id t.media) t.groups
          (by_type-IsMeant seen old (subst (λ o. found_so is_internal o ≡ true) e a))
          (λ c h r z. v c h r z ∙ total-without c h id old t.media e)
