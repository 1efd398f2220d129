-- ===== src/MediaGroup/Runs.antt =====
-- Any sequence of requests keeps the counters of the groups.
use medialibrary.Common.{
  ℕ, ◌≡◌, sym, ap, subst, ◌∙◌, Bool, true, false, not, ◌&&◌, List, [], ◌∷◌, arith,
}
use medialibrary.MediaGroup.{
  Medium, Tables, same_type, is_internal, per_type, on_import, on_presence, lookup_medium,
  update_medium, Change, regroups, retypes, plays, appears, becomes_external, becomes_internal,
  leaves, apply_change, apply_changes,
}
use medialibrary.MediaGroup.Steps.{IsCountedBy}
use medialibrary.MediaGroup.Counted.{type_still, import_still}
use medialibrary.MediaGroup.Presence.{presence-IsCountedBy}
use medialibrary.MediaGroup.Attributes.{
  IsCounted, find_row, update-IsCounted, same_type_refl, same_import_refl,
}
use medialibrary.MediaGroup.Requests.{
  has_group, found_so, regroup-IsCounted, retype-IsCounted, play-IsCounted, to_external-IsCounted,
  to_internal-IsCounted, delete-IsCounted,
}

-- What is asked of a request: a group that is there, a medium that is internal, or the same type as
-- before; the counters of seen media are only kept where no medium changes between internal and external.
abbrev pub is_allowed : Bool → Change → Tables → Bool
is_allowed seen (regroups id g) t = has_group g t
is_allowed seen (retypes id type) t = true
is_allowed seen (plays id count) t = true
is_allowed seen (appears id b) t = found_so is_internal (lookup_medium id t.media)
is_allowed seen (becomes_external id) t = not seen
is_allowed seen (becomes_internal id type) t =
    not seen && found_so (λ m. same_type m.type type) (lookup_medium id t.media)
is_allowed seen (leaves id) t = found_so is_internal (lookup_medium id t.media)

appear-IsCounted :
    (seen : Bool) (id : ℕ) (b : Bool) (t : Tables)
    → found_so is_internal (lookup_medium id t.media) ≡ true
    → IsCounted seen t
    → IsCounted seen (update_medium id (λ m. record m { is_present = b }) t)
appear-IsCounted seen id b t a v =
    update-IsCounted seen id (λ m. record m { is_present = b }) t v
      (λ old rest e w.
        let new : Medium = record old { is_present = b } in
        let row = find_row seen old rest t.groups w in
        let i : is_internal old ≡ true = subst (λ o. found_so is_internal o ≡ true) e a in
        let still : per_type old new t.groups ≡ t.groups =
          type_still old new t.groups (ground (arith, same_type_refl old.type)) in
        let kept : on_import old new t.groups ≡ t.groups =
          import_still old new t.groups i (same_import_refl old.import_type) in
        subst (IsCountedBy seen (new ∷ rest))
          (sym (
            ap (λ x. on_presence old new (on_import old new x)) still
            ∙ ap (on_presence old new) kept))
          (presence-IsCountedBy seen old b row.0 rest t.groups i row.1 w))

apply_change-IsCounted :
    (seen : Bool) (c : Change) (t : Tables)
    → is_allowed seen c t ≡ true
    → IsCounted seen t
    → IsCounted seen (apply_change c t)
unfolding apply_change
apply_change-IsCounted seen (regroups id g) t a v = regroup-IsCounted seen id g t a v
apply_change-IsCounted seen (retypes id type) t a v = retype-IsCounted seen id type t v
apply_change-IsCounted seen (plays id n) t a v = play-IsCounted seen id n t v
apply_change-IsCounted seen (appears id b) t a v = appear-IsCounted seen id b t a v
apply_change-IsCounted false (becomes_external id) t a v = to_external-IsCounted id t v
apply_change-IsCounted true (becomes_external id) t a v = cc
apply_change-IsCounted false (becomes_internal id type) t a v = to_internal-IsCounted id type t a v
apply_change-IsCounted true (becomes_internal id type) t a v = cc
apply_change-IsCounted seen (leaves id) t a v = delete-IsCounted seen id t a v

abbrev pub are_allowed : Bool → List Change → Tables → Bool
are_allowed seen [] t = true
are_allowed seen (c ∷ changes) t =
    is_allowed seen c t && are_allowed seen changes (apply_change c t)

-- After any sequence of allowed requests the counters of each group are the numbers of its media, by
-- type, presence and play count, and each group with a medium is there, if that is so at first. Internal
-- media are deleted and change their presence; where media become external or internal again, of the
-- same type, the counters of seen media are left aside.
pub apply_changes-IsCounted :
    (seen : Bool) (changes : List Change) (t : Tables)
    → are_allowed seen changes t ≡ true
    → IsCounted seen t
    → IsCounted seen (apply_changes changes t)
unfolding apply_changes
apply_changes-IsCounted seen [] t a v = v
apply_changes-IsCounted seen (c ∷ changes) t a v =
    apply_changes-IsCounted seen changes (apply_change c t) (ground (arith, a))
      (apply_change-IsCounted seen c t (ground (arith, a)) v)
