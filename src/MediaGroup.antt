-- ===== src/MediaGroup.antt =====
-- src/MediaGroup.cpp: the groups of media, with the triggers of the last model of the database that count
-- what is in a group and delete an empty one.
mod Sums
mod Steps
mod Counted
mod Presence
mod Attributes
mod Requests
mod Runs
mod Naming
mod Prefix
mod Longest
mod Joined
mod Assigned
mod Doubled
mod Tests
use medialibrary.Common.{
  ℕ, ◌+◌, ◌-◌, ◌==◌, ltb, if◌then◌else◌, Bool, true, false, not, ◌&&◌, ◌||◌, Option, none, some,
  MediaType, video, audio, unknown, List, [], ◌∷◌, ◌++◌, map, Bytes,
}

pub data ImportType : Type 0 where
  internal external stream : ImportType

-- A row of the media; its group is 0 where it has none.
pub record Medium : Type 0 where
  pub id : ℕ
  pub title : Bytes
  pub group : ℕ
  pub type : MediaType
  pub import_type : ImportType
  pub is_present : Bool
  pub play_count : ℕ

pub data Counter : Type 0 where
  nb_video nb_audio nb_unknown nb_external nb_seen : Counter
  nb_present_video nb_present_audio nb_present_unknown nb_present_seen : Counter

-- A row of the groups. A counter below 0 is left out.
pub record Group : Type 0 where
  pub name : Bytes
  pub user_interacted : Bool
  pub forced_singleton : Bool
  pub counters : Counter → ℕ

pub record Tables : Type 0 where
  pub media : List Medium
  pub groups : ℕ → Option Group
  pub next_group : ℕ

abbrev pub same_type : MediaType → MediaType → Bool
same_type video t = elim t [ video ↦ true | audio ↦ false | unknown ↦ false ]
same_type audio t = elim t [ video ↦ false | audio ↦ true | unknown ↦ false ]
same_type unknown t = elim t [ video ↦ false | audio ↦ false | unknown ↦ true ]

abbrev pub same_import : ImportType → ImportType → Bool
same_import internal i = elim i [ internal ↦ true | external ↦ false | stream ↦ false ]
same_import external i = elim i [ internal ↦ false | external ↦ true | stream ↦ false ]
same_import stream i = elim i [ internal ↦ false | external ↦ false | stream ↦ true ]

abbrev pub is_internal : Medium → Bool
is_internal m = same_import m.import_type internal

abbrev pub one_if : Bool → ℕ
one_if b = if b then 1 else 0

-- What a medium counts in `UpdateNbMediaPerType`, and in `DecrementNbMediaOnDeletion`.
abbrev pub by_type : Counter → Medium → ℕ
by_type nb_video m = one_if (same_type m.type video)
by_type nb_audio m = one_if (same_type m.type audio)
by_type nb_unknown m = one_if (same_type m.type unknown)
by_type nb_external m = 0
by_type nb_seen m = one_if (ltb 0 m.play_count)
by_type nb_present_video m = one_if (m.is_present && same_type m.type video)
by_type nb_present_audio m = one_if (m.is_present && same_type m.type audio)
by_type nb_present_unknown m = one_if (m.is_present && same_type m.type unknown)
by_type nb_present_seen m = one_if (ltb 0 m.play_count && m.is_present)

-- What it counts in `UpdateNbMediaOnImportTypeChange`.
abbrev pub by_import : Counter → Medium → ℕ
by_import nb_seen m = 0
by_import nb_present_seen m = 0
by_import nb_external m = one_if (not (is_internal m))
by_import nb_video m = if is_internal m then by_type nb_video m else 0
by_import nb_audio m = if is_internal m then by_type nb_audio m else 0
by_import nb_unknown m = if is_internal m then by_type nb_unknown m else 0
by_import nb_present_video m = if is_internal m then by_type nb_present_video m else 0
by_import nb_present_audio m = if is_internal m then by_type nb_present_audio m else 0
by_import nb_present_unknown m = if is_internal m then by_type nb_present_unknown m else 0

-- What it counts in `UpdateMediaCountOnPresenceChange`, which only has the counters of those present.
abbrev pub by_presence : Counter → Medium → ℕ
by_presence nb_video m = 0
by_presence nb_audio m = 0
by_presence nb_unknown m = 0
by_presence nb_external m = 0
by_presence nb_seen m = 0
by_presence nb_present_video m = by_type nb_video m
by_presence nb_present_audio m = by_type nb_audio m
by_presence nb_present_unknown m = by_type nb_unknown m
by_presence nb_present_seen m = by_type nb_seen m

abbrev pub set_group : ℕ → Option Group → (ℕ → Option Group) → ℕ → Option Group
set_group id group groups h = if h == id then group else groups h

-- `DeleteEmptyGroups`.
abbrev pub unless_empty : Group → Option Group
unless_empty g =
    if g.counters nb_video == 0
      && (g.counters nb_audio == 0 && (g.counters nb_unknown == 0 && g.counters nb_external == 0))
    then none
    else some g

abbrev pub plus_row : (Counter → ℕ) → Option Group → Option Group
plus_row weight none = none
plus_row weight (some g) = unless_empty (record g { counters = λ k. g.counters k + weight k })

abbrev pub minus_row : (Counter → ℕ) → Option Group → Option Group
minus_row weight none = none
minus_row weight (some g) = unless_empty (record g { counters = λ k. g.counters k - weight k })

-- The two updates of a trigger, on the group of a medium as it is and as it was; group 0 is no row.
abbrev pub plus : (Counter → Medium → ℕ) → Medium → (ℕ → Option Group) → ℕ → Option Group
plus weight m groups =
    if m.group == 0
    then groups
    else set_group m.group (plus_row (λ k. weight k m) (groups m.group)) groups

abbrev pub minus : (Counter → Medium → ℕ) → Medium → (ℕ → Option Group) → ℕ → Option Group
minus weight m groups =
    if m.group == 0
    then groups
    else set_group m.group (minus_row (λ k. weight k m) (groups m.group)) groups

unfoldable pub per_type : Medium → Medium → (ℕ → Option Group) → ℕ → Option Group
per_type old new groups =
    if (not (old.group == new.group)
        || (not (same_type old.type new.type) || not (old.play_count == new.play_count)))
      && is_internal new
    then minus by_type old (plus by_type new groups)
    else groups

unfoldable pub on_import : Medium → Medium → (ℕ → Option Group) → ℕ → Option Group
on_import old new groups =
    if (not (old.group == new.group) && not (is_internal new))
      || not (same_import old.import_type new.import_type)
    then minus by_import old (plus by_import new groups)
    else groups

-- The counters of this trigger do not wake `DeleteEmptyGroups`.
abbrev pub present_row : Medium → Option Group → Option Group
present_row new none = none
present_row new (some g) = some (record g {
  counters = λ k.
      if new.is_present then g.counters k + by_presence k new else g.counters k - by_presence k new;
})

abbrev pub same_presence : Bool → Bool → Bool
same_presence true b = b
same_presence false b = not b

unfoldable pub on_presence : Medium → Medium → (ℕ → Option Group) → ℕ → Option Group
on_presence old new groups =
    if not (same_presence old.is_present new.is_present) && not (new.group == 0)
    then set_group new.group (present_row new (groups new.group)) groups
    else groups

unfoldable pub on_deletion : Medium → (ℕ → Option Group) → ℕ → Option Group
on_deletion old groups = minus by_type old groups

abbrev pub lookup_medium : ℕ → List Medium → Option Medium
lookup_medium id [] = none
lookup_medium id (m ∷ media) = if m.id == id then some m else lookup_medium id media

abbrev pub replace : ℕ → Medium → List Medium → List Medium
replace id new [] = []
replace id new (m ∷ media) = if m.id == id then new ∷ media else m ∷ replace id new media

abbrev pub without : ℕ → List Medium → List Medium
without id [] = []
without id (m ∷ media) = if m.id == id then media else m ∷ without id media

-- A request that updates one medium, with its triggers.
abbrev pub update_found : ℕ → (Medium → Medium) → Option Medium → Tables → Tables
update_found id f none t = t
update_found id f (some old) t = record t {
  media = replace id (f old) t.media;
  groups = on_presence old (f old) (on_import old (f old) (per_type old (f old) t.groups));
}

unfoldable pub update_medium : ℕ → (Medium → Medium) → Tables → Tables
unfolding per_type on_import on_presence
update_medium id f t = update_found id f (lookup_medium id t.media) t

abbrev pub delete_found : ℕ → Option Medium → Tables → Tables
delete_found id none t = t
delete_found id (some old) t = record t {
  media = without id t.media;
  groups = on_deletion old t.groups;
}

unfoldable pub delete_medium : ℕ → Tables → Tables
unfolding on_deletion
delete_medium id t = delete_found id (lookup_medium id t.media) t

-- The requests on media that wake the triggers: `setMediaGroup`, `setType`, the play count, the presence of
-- the device, `convertToExternal`, `markAsInternal`, and the deletion.
pub data Change : Type 0 where
  regroups : ℕ → ℕ → Change
  retypes : ℕ → MediaType → Change
  plays : ℕ → ℕ → Change
  appears : ℕ → Bool → Change
  becomes_external : ℕ → Change
  becomes_internal : ℕ → MediaType → Change
  leaves : ℕ → Change

unfoldable pub apply_change : Change → Tables → Tables
unfolding update_medium delete_medium
apply_change (regroups id group) t = update_medium id (λ m. record m { group = group }) t
apply_change (retypes id type) t = update_medium id (λ m. record m { type = type }) t
apply_change (plays id count) t = update_medium id (λ m. record m { play_count = count }) t
apply_change (appears id is_present) t =
    update_medium id (λ m. record m { is_present = is_present }) t
apply_change (becomes_external id) t = update_medium id (λ m. record m { import_type = external }) t
apply_change (becomes_internal id type) t =
    update_medium id (λ m. record m { type = type; import_type = internal }) t
apply_change (leaves id) t = delete_medium id t

unfoldable pub apply_changes : List Change → Tables → Tables
unfolding apply_change
apply_changes [] t = t
apply_changes (c ∷ changes) t = apply_changes changes (apply_change c t)
