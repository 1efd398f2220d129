-- ===== src/MediaGroup/Attributes.antt =====
-- An update of one medium, and what it counts by its attributes.
use medialibrary.Common.{
  MediaType, video, audio, unknown, ℕ, ◌+◌, ◌==◌, ==_iff, ◌≡◌, refl, sym, ap, subst, ◌∙◌,
  if◌then◌else◌, Bool, true, false, not, ◌||◌, Option, none, some, List, [], ◌∷◌, arith, Bool-cases,
  Option-cases, inl, inr,
}
use medialibrary.MediaGroup.{
  ImportType, internal, external, stream, Medium, Counter, nb_video, nb_audio, nb_unknown,
  nb_external, nb_seen, nb_present_video, nb_present_audio, nb_present_unknown, nb_present_seen,
  Group, Tables, same_type, same_import, is_internal, lookup_medium, without, update_found,
  update_medium,
}
use medialibrary.MediaGroup.Sums.{
  meant, total, nb, meant-basic, weight_in, total-without, total-replace,
}
use medialibrary.MediaGroup.Steps.{is_seen, IsCountedBy, total-cons}
use medialibrary.MediaGroup.Counted.{
  outside-IsMeant, type_changes, triggers, inside-IsCountedBy, outside-IsCountedBy,
}

-- The counters of all groups are the sums over the media, and a group that has media is there.
abbrev pub IsCounted : Bool → Tables → Type 0
IsCounted seen t = IsCountedBy seen t.media t.groups

abbrev pub no_row : Group
no_row = record { name = []; user_interacted = false; forced_singleton = false; counters = λ k. 0 }

pub find_row :
    (seen : Bool) (m : Medium) (rest : List Medium) (groups : ℕ → Option Group)
    → IsCountedBy seen (m ∷ rest) groups
    → (row : Group) × ((m.group == 0) ≡ false → groups m.group ≡ some row)
find_row seen m rest groups v = elim (Option-cases (groups m.group)) [
  | inr (row, e) ↦ (row, λ z. e)
  | inl e ↦ (no_row, λ z. absurd (impossible e z))
]
  where
    impossible : groups m.group ≡ none → (m.group == 0) ≡ false → ⊥
    impossible e z =
        let always : (seen || true) ≡ true = ground arith in
        let at : (c : Counter)
            → (seen || not (is_seen c)) ≡ true
            → 0 ≡ meant c m + total c m.group rest =
          λ c t. ap (nb c) (sym e) ∙ v c m.group t z ∙ total-cons c m rest in
        absurd (
          omega (
            arith,
            meant-basic m,
            at nb_video always,
            at nb_audio always,
            at nb_unknown always,
            at nb_external always,
          ))

pub update-IsCounted :
    (seen : Bool) (id : ℕ) (f : Medium → Medium) (t : Tables)
    → IsCounted seen t
    → ((old : Medium) (rest : List Medium)
        → lookup_medium id t.media ≡ some old
        → IsCountedBy seen (old ∷ rest) t.groups
        → IsCountedBy seen (f old ∷ rest) (triggers old (f old) t.groups))
    → IsCounted seen (update_medium id f t)
unfolding update_medium
update-IsCounted seen id f t v step = by_lookup (lookup_medium id t.media) refl
  where
    by_lookup :
        (o : Option Medium) → lookup_medium id t.media ≡ o → IsCounted seen (update_found id f o t)
    by_lookup none e = v
    by_lookup (some old) e = λ k g tracked real.
        step old (without id t.media) e (λ c h r z. v c h r z ∙ total-without c h id old t.media e)
          k g tracked real
        ∙ sym (total-replace k g id old (f old) t.media e)

-- An update without an effect on what its medium counts.
pub same_update :
    (seen : Bool) (old new : Medium) (rest : List Medium) (groups : ℕ → Option Group)
    → old ≡ new
    → IsCountedBy seen (old ∷ rest) groups
    → IsCountedBy seen (new ∷ rest) groups
same_update seen old new rest groups e v = subst (λ m. IsCountedBy seen (m ∷ rest) groups) e v

pub same_type_only : (s t : MediaType) → same_type s t ≡ true → s ≡ t
same_type_only video video e = refl
same_type_only video audio e = cc
same_type_only video unknown e = cc
same_type_only audio video e = cc
same_type_only audio audio e = refl
same_type_only audio unknown e = cc
same_type_only unknown video e = cc
same_type_only unknown audio e = cc
same_type_only unknown unknown e = refl

pub same_type_refl : (t : MediaType) → same_type t t ≡ true
same_type_refl video = refl
same_type_refl audio = refl
same_type_refl unknown = refl

pub same_import_refl : (i : ImportType) → same_import i i ≡ true
same_import_refl internal = refl
same_import_refl external = refl
same_import_refl stream = refl

pub same_import_only : (i j : ImportType) → same_import i j ≡ true → i ≡ j
same_import_only internal internal e = refl
same_import_only internal external e = cc
same_import_only internal stream e = cc
same_import_only external internal e = cc
same_import_only external external e = refl
same_import_only external stream e = cc
same_import_only stream internal e = cc
same_import_only stream external e = cc
same_import_only stream stream e = refl

abbrev outside_only : Counter → ℕ
outside_only nb_external = 1
outside_only nb_video = 0
outside_only nb_audio = 0
outside_only nb_unknown = 0
outside_only nb_seen = 0
outside_only nb_present_video = 0
outside_only nb_present_audio = 0
outside_only nb_present_unknown = 0
outside_only nb_present_seen = 0

pub meant-outside : (k : Counter) (m : Medium) → is_internal m ≡ false → meant k m ≡ outside_only k
meant-outside nb_external m e = rw e refl
meant-outside nb_video m e = rw e refl
meant-outside nb_audio m e = rw e refl
meant-outside nb_unknown m e = rw e refl
meant-outside nb_seen m e = rw e refl
meant-outside nb_present_video m e = rw e refl
meant-outside nb_present_audio m e = rw e refl
meant-outside nb_present_unknown m e = rw e refl
meant-outside nb_present_seen m e = rw e refl

pub outside-weight :
    (k : Counter) (g : ℕ) (old new : Medium)
    → is_internal old ≡ false
    → is_internal new ≡ false
    → (old.group == new.group) ≡ true
    → weight_in k g old ≡ weight_in k g new
outside-weight k g old new io in_ e =
    ap (λ h. if h == g then meant k old else 0) ((==_iff old.group new.group).0 e)
    ∙ ap (λ x. if new.group == g then x else 0)
        (meant-outside k old io ∙ sym (meant-outside k new in_))

-- An update of the group, the type or the play count: it is counted inside, and matters for the group
-- alone outside.
pub attribute-IsCountedBy :
    (seen : Bool) (old new : Medium) (row : Group) (rest : List Medium) (groups : ℕ → Option Group)
    → old.import_type ≡ new.import_type
    → old.is_present ≡ new.is_present
    → ((new.group == 0) ≡ false → groups new.group ≡ some row)
    → (type_changes old new ≡ false → is_internal new ≡ true → old ≡ new)
    → IsCountedBy seen (old ∷ rest) groups
    → IsCountedBy seen (new ∷ rest) (triggers old new groups)
attribute-IsCountedBy seen old new row rest groups i p found same v =
    let origin : is_internal old ≡ is_internal new = ap (λ x. same_import x internal) i in
    let kept : same_import old.import_type new.import_type ≡ true =
      ap (λ x. same_import x new.import_type) i ∙ same_import_refl new.import_type in
    elim (Bool-cases (is_internal new)) [
      | inl e ↦
          inside-IsCountedBy seen old new row rest groups (origin ∙ e) e p kept found v
            (λ c. same_update seen old new rest groups (same c e) v)
      | inr e ↦
          outside-IsCountedBy seen old new row rest groups (outside-IsMeant seen old (origin ∙ e))
            (outside-IsMeant seen new e) e p found v
            (λ c k g t z.
              v k g t z
              ∙ ap (λ x. x + total k g rest)
                  (outside-weight k g old new (origin ∙ e) e (ground (arith, c, e, kept))))
    ]
