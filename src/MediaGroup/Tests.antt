-- ===== src/MediaGroup/Tests.antt =====
-- A group with two videos, and one more medium; and titles.
use medialibrary.Common.{
  video, audio, unknown, ℕ, ◌+◌, ◌==◌, ==_iff, ◌≡◌, refl, sym, subst, inl, inr, Bool-cases, arith,
  true, false, if◌then◌else◌, Option, none, some, List, [], ◌∷◌,
}
use medialibrary.MediaGroup.{
  internal, external, Medium, Counter, nb_video, nb_audio, nb_unknown, nb_external, nb_seen,
  nb_present_video, nb_present_audio, nb_present_unknown, nb_present_seen, Group, Tables, Change,
  regroups, retypes, plays, appears, becomes_internal, leaves, apply_change, apply_changes,
}
use medialibrary.Common.{Bytes, codes, map, bytes_eq}
use medialibrary.Utf8.{nb_bytes, count_bytes, after_char, nb_chars, count_chars}
use medialibrary.Utf8.Patterns.{common_pattern, common_start, common_char}
use medialibrary.Utf8.Counting.{Utf8Char, one}
use medialibrary.MediaGroup.Naming.{
  has_article, prefix, group_pattern, fetch_matching, longest_match, add, assign_to_group,
}
use medialibrary.MediaGroup.Prefix.{prefix-text}
use medialibrary.MediaGroup.Longest.{IsLongest, IsChosen, longest_match_lem}
use medialibrary.MediaGroup.Joined.{IsAssigned}
use medialibrary.MediaGroup.Assigned.{group_for, Succeeds, assign_to_group_lem}
use medialibrary.MediaGroup.Sums.{total, nb}
use medialibrary.MediaGroup.Attributes.{IsCounted}
use medialibrary.MediaGroup.Runs.{apply_changes-IsCounted}
use medialibrary.MediaGroup.Doubled.{becomes_internal-doubled, leaves-external}

abbrev film : ℕ → ℕ → Medium
film id group = record {
  id = id;
  title = codes "Sherlock 2";
  group = group;
  type = video;
  import_type = internal;
  is_present = true;
  play_count = 0;
}

abbrev clip : Medium
clip = record (film 9 1) { type = unknown; import_type = external }

abbrev counters_of : ℕ → ℕ → Counter → ℕ
counters_of videos others nb_video = videos
counters_of videos others nb_present_video = videos
counters_of videos others nb_external = others
counters_of videos others nb_audio = 0
counters_of videos others nb_unknown = 0
counters_of videos others nb_seen = 0
counters_of videos others nb_present_audio = 0
counters_of videos others nb_present_unknown = 0
counters_of videos others nb_present_seen = 0

abbrev row : ℕ → ℕ → Group
row videos others = record {
  name = codes "Sherlock 1";
  user_interacted = false;
  forced_singleton = false;
  counters = counters_of videos others;
}

abbrev groups_of : Group → ℕ → Option Group
groups_of g id = if id == 1 then some g else none

abbrev films : Tables
films = record {
  media = film 5 1 ∷ film 6 1 ∷ film 7 0 ∷ [];
  groups = groups_of (row 2 0);
  next_group = 2;
}

abbrev mixed : Tables
mixed = record { media = film 5 1 ∷ clip ∷ []; groups = groups_of (row 1 1); next_group = 2 }

abbrev evening : List Change
evening = plays 5 3 ∷ appears 6 false ∷ regroups 7 1 ∷ leaves 6 ∷ retypes 7 audio ∷ []

-- The group counts two media at the end, one of them seen.
evening_seen : nb nb_present_seen ((apply_changes evening films).groups 1) ≡ 1
unfolding apply_changes
evening_seen = refl

films_row : (k : Counter) → nb k (some (row 2 0)) ≡ total k 1 films.media
films_row nb_video = refl
films_row nb_audio = refl
films_row nb_unknown = refl
films_row nb_external = refl
films_row nb_seen = refl
films_row nb_present_video = refl
films_row nb_present_audio = refl
films_row nb_present_unknown = refl
films_row nb_present_seen = refl

mixed_row : (k : Counter) → nb k (some (row 1 1)) ≡ total k 1 mixed.media
mixed_row nb_video = refl
mixed_row nb_audio = refl
mixed_row nb_unknown = refl
mixed_row nb_external = refl
mixed_row nb_seen = refl
mixed_row nb_present_video = refl
mixed_row nb_present_audio = refl
mixed_row nb_present_unknown = refl
mixed_row nb_present_seen = refl

films-IsCounted : IsCounted true films
films-IsCounted k g t z = elim (Bool-cases (g == 1)) [
  | inl e ↦
      subst (λ h. nb k (films.groups h) ≡ total k h films.media) (sym ((==_iff g 1).0 e))
        (films_row k)
  | inr n ↦
      let apart : (1 == g) ≡ false = ground (arith, n) in
      let real : (0 == g) ≡ false = ground (arith, z) in rw (n, apart, real) refl
]

mixed-IsCounted : IsCounted false mixed
mixed-IsCounted k g t z = elim (Bool-cases (g == 1)) [
  | inl e ↦
      subst (λ h. nb k (mixed.groups h) ≡ total k h mixed.media) (sym ((==_iff g 1).0 e))
        (mixed_row k)
  | inr n ↦ let apart : (1 == g) ≡ false = ground (arith, n) in rw (n, apart) refl
]

apply_changes-IsCounted_example : IsCounted true (apply_changes evening films)
unfolding apply_change
apply_changes-IsCounted_example = apply_changes-IsCounted true evening films refl films-IsCounted

becomes_internal-doubled_example :
    nb nb_video ((apply_change (becomes_internal 9 video) mixed).groups 1)
    ≡ 1 + total nb_video 1 (apply_change (becomes_internal 9 video) mixed).media
becomes_internal-doubled_example =
    becomes_internal-doubled 9 clip mixed mixed-IsCounted refl refl refl refl

leaves-external_example :
    nb nb_external ((apply_change (leaves 9) mixed).groups 1)
    ≡ 1 + total nb_external 1 (apply_change (leaves 9) mixed).media
leaves-external_example = leaves-external 9 clip mixed mixed-IsCounted refl refl refl

-- The prefix of "The Sherlock" is longer than six characters.
abbrev sherlock : List Utf8Char
sherlock = map one (codes "Sherlock")

prefix-text_example : prefix (codes "The Sherlock") ≡ codes "Sherlock"
unfolding has_article bytes_eq
prefix-text_example = prefix-text (codes "The ") sherlock (ground arith) refl

abbrev two_rows : List (ℕ × Group)
two_rows = (1, row 1 0) ∷ (2, record (row 1 0) { name = codes "Sherlock 2, part 1" }) ∷ []

two_rows_test :
    (longest_match (codes "Sherlock 2, part 2") two_rows none []).1 ≡ codes "Sherlock 2, part "
unfolding longest_match group_pattern common_pattern common_start has_article bytes_eq common_char
two_rows_test = refl

longest_match_lem_example :
    IsLongest
      (codes "Sherlock 2, part 2")
      two_rows
      []
      (longest_match (codes "Sherlock 2, part 2") two_rows none [])
    × IsChosen
        (codes "Sherlock 2, part 2")
        two_rows
        (none, [])
        (longest_match (codes "Sherlock 2, part 2") two_rows none [])
longest_match_lem_example = longest_match_lem (codes "Sherlock 2, part 2") two_rows

-- The medium without a group gets the group of the other two, which gets a new name.
abbrev name_of : Option Group → Bytes
name_of none = []
name_of (some g) = g.name

assigned_name : name_of ((assign_to_group (film 7 0) films).1.groups 1) ≡ codes "Sherlock "
unfolding assign_to_group nb_bytes has_article bytes_eq count_bytes after_char nb_chars count_chars
    longest_match common_pattern common_start common_char add
assigned_name = refl

assign_to_group_lem_example :
    IsAssigned true 7
      (group_for (film 7 0) (fetch_matching (prefix (codes "Sherlock 2")) films) films)
      (assign_to_group (film 7 0) films)
    × Succeeds
        (film 7 0)
        (fetch_matching (prefix (codes "Sherlock 2")) films)
        (assign_to_group (film 7 0) films)
assign_to_group_lem_example = assign_to_group_lem true (film 7 0) films refl refl films-IsCounted
