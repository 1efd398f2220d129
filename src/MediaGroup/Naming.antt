-- ===== src/MediaGroup/Naming.antt =====
-- assignToGroup of src/MediaGroup.cpp: the group that a medium without one gets, by its title, and the
-- name of that group. The rows are read in the order of their identifiers; the names are well-formed
-- UTF-8, so that SUBSTR takes characters as `nbBytes` counts them.
use medialibrary.Common.{
  ℕ, zero, suc, ◌+◌, ltb, if◌then◌else◌, Bool, true, false, Option, none, some, List, [], ◌∷◌, ◌++◌,
  map, Bytes, bytes_eq, codes, length, take, drop, keep,
}
use medialibrary.Utf8.{nb_chars, nb_bytes}
use medialibrary.Utf8.Patterns.{lower, common_pattern}
use medialibrary.MediaGroup.{Medium, Group, Tables, set_group, update_medium}

abbrev pub automatic_group_prefix_size : ℕ
automatic_group_prefix_size = 6

-- `strncasecmp( title.c_str(), "the ", 4 ) == 0`
unfoldable pub has_article : Bytes → Bool
has_article title = bytes_eq (map lower (take 4 title)) (codes "the ")

abbrev pub article_size : Bytes → ℕ
article_size title = if has_article title then 4 else 0

unfoldable pub prefix : Bytes → Bytes
prefix title =
    let offset = article_size title in
    let size = nb_bytes title offset automatic_group_prefix_size in
    take (size + offset) (drop offset title)

-- `MediaGroup::commonPattern`; an exception, which the offsets rule out, is no pattern.
unfoldable pub group_pattern : Bytes → Bytes → Bytes
group_pattern group_name new_title =
    elim (common_pattern group_name (article_size group_name) new_title (article_size new_title)
      automatic_group_prefix_size) [ none ↦ [] | some pattern ↦ pattern ]

-- `SUBSTR(name, 1, nbChar) = prefix COLLATE NOCASE`, for a group that is no forced singleton.
abbrev pub is_matching : Bytes → Group → Bool
is_matching start g =
    if g.forced_singleton
    then false
    else bytes_eq (map lower (take (nb_bytes g.name 0 (nb_chars start)) g.name)) (map lower start)

-- The rows with identifiers up to a number.
abbrev pub rows_up_to : ℕ → (ℕ → Option Group) → List (ℕ × Group)
rows_up_to zero groups = []
rows_up_to (suc n) groups =
    rows_up_to n groups ++ (elim (groups (suc n)) [ none ↦ [] | some g ↦ (suc n, g) ∷ [] ])

unfoldable pub fetch_matching : Bytes → Tables → List (ℕ × Group)
fetch_matching start t =
    if ltb (length start) automatic_group_prefix_size
    then []
    else keep (λ r. is_matching start r.1) (rows_up_to t.next_group t.groups)

-- The loop over the groups that match: the target so far, and the longest pattern.
unfoldable pub longest_match :
    Bytes → List (ℕ × Group) → Option (ℕ × Group) → Bytes → Option (ℕ × Group) × Bytes
unfolding group_pattern
longest_match title [] target longest = (target, longest)
longest_match title (r ∷ rows) target longest =
    let pattern = group_pattern r.1.name title in
    let kept = longest_match title rows target longest in
    let taken = longest_match title rows (some r) pattern in
    if ltb (length longest) (length pattern) then taken else kept

-- `rename` with `userInitiated` false; the flag is whether it succeeds.
abbrev pub rename : ℕ → Group → Bytes → Tables → Bool × Tables
rename id g [] t = (false, t)
rename id g name t =
    if g.forced_singleton
    then (false, t)
    else if bytes_eq name g.name
    then (true, t)
    else (true, record t { groups = set_group id (some (record g { name = name })) t.groups })

-- `create` for one title, with the counters of the schema.
abbrev pub new_group : Bytes → Group
new_group title = record {
  name = title;
  user_interacted = false;
  forced_singleton = false;
  counters = λ k. 0;
}

abbrev pub create : Bytes → Tables → Tables
create title t = record t {
  groups = set_group t.next_group (some (new_group title)) t.groups;
  next_group = suc t.next_group;
}

-- `add`, of a group that is no forced singleton: it sets the group twice.
unfoldable pub add : ℕ → ℕ → Tables → Tables
unfolding update_medium
add group id t =
    update_medium id (λ m. record m { group = group })
      (update_medium id (λ m. record m { group = group }) t)

abbrev pub join_target : ℕ → Option (ℕ × Group) × Bytes → Tables → Bool × Tables
join_target id (none, longest) t = (false, t)
join_target id (some (group, g), longest) t =
    if g.user_interacted
    then (true, add group id t)
    else (let (renamed, t') = rename group g longest t in
        if renamed then (true, add group id t') else (false, t'))

-- What is done with the groups that match.
abbrev pub assign_to : Medium → List (ℕ × Group) → Tables → Bool × Tables
assign_to m [] t = (true, add t.next_group m.id (create (drop (article_size m.title) m.title) t))
assign_to m (r ∷ rows) t = join_target m.id (longest_match m.title (r ∷ rows) none []) t

unfoldable pub assign_to_group : Medium → Tables → Bool × Tables
unfolding fetch_matching prefix
assign_to_group m t = assign_to m (fetch_matching (prefix m.title) t) t
