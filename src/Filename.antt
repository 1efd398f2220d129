-- ===== src/Filename.antt =====
-- src/utils/Filename.cpp, on a system whose separator is '/'. A text is its list of bytes, and an
-- index that is `npos` is `none`.
pub mod Folders
pub mod Parts
mod Tests
use medialibrary.Common.{
  ℕ, zero, suc, ◌+◌, ◌-◌, Bool, true, false, Bytes, bytes_eq, Option, none, some, List, [], ◌∷◌,
  ◌++◌, ◌==◌, ltb, length, take, drop, if◌then◌else◌,
}
use mathlib.Core.Option

abbrev pub slash : ℕ
slash = b'/'

-- `text.find_last_of( c )`.
unfoldable pub find_last_of : ℕ → Bytes → Option ℕ
find_last_of c [] = none
find_last_of c (x ∷ xs) = elim (find_last_of c xs) [
  | some i ↦ some (suc i)
  | none ↦ if x == c then some 0 else none
]

-- `text.find_first_of( c )`.
unfoldable pub find_first_of : ℕ → Bytes → Option ℕ
find_first_of c [] = none
find_first_of c (x ∷ xs) =
    let rest = Option.map suc (find_first_of c xs) in if x == c then some 0 else rest

-- `text.find_first_not_of( c )`.
unfoldable pub find_first_not_of : ℕ → Bytes → Option ℕ
find_first_not_of c [] = none
find_first_not_of c (x ∷ xs) =
    let rest = Option.map suc (find_first_not_of c xs) in if x == c then rest else some 0

unfoldable pub extension : Bytes → Bytes
unfolding find_last_of
extension file_name = elim (find_last_of b'.' file_name) [
  | none ↦ []
  | some pos ↦ drop (suc pos) file_name
]

unfoldable pub strip_extension : Bytes → Bytes
unfolding find_last_of
strip_extension file_name = elim (find_last_of b'.' file_name) [
  | none ↦ file_name
  | some pos ↦ take pos file_name
]

unfoldable pub directory : Bytes → Bytes
unfolding find_last_of
directory file_path = elim (find_last_of slash file_path) [
  | none ↦ []
  | some pos ↦ take (suc pos) file_path
]

-- The last part of `directoryName`, on the path with its last separator popped.
abbrev popped_name : Bytes → Bytes
popped_name path = elim (find_last_of slash path) [ none ↦ path | some pos ↦ drop (suc pos) path ]

unfoldable pub directory_name : Bytes → Bytes
unfolding find_last_of
directory_name path = elim (find_last_of slash path) [
  | none ↦ path
  | some pos ↦
      if pos == 0
      then drop 1 path
      else if suc pos == length path
      then popped_name (take pos path)
      else drop (suc pos) path
]

-- Where `parentDirectory` searches again: up to `pos - 1`, which is `npos` at the first character.
abbrev pub search_before : ℕ → Bytes → Option ℕ
search_before pos path =
    if pos == 0 then find_last_of slash path else find_last_of slash (take pos path)

unfoldable pub parent_directory : Bytes → Bytes
unfolding find_last_of
parent_directory path = elim (find_last_of slash path) [
  | none ↦ []
  | some pos ↦ elim (if suc pos == length path then search_before pos path else some pos) [
    | none ↦ []
    | some parent ↦ take (suc parent) path
  ]
]

unfoldable pub file_name : Bytes → Bytes
unfolding find_last_of
file_name file_path = elim (find_last_of slash file_path) [
  | none ↦ file_path
  | some pos ↦ drop (suc pos) file_path
]

-- The search for the separator starts at the offset; at `npos` it finds nothing.
unfoldable pub first_folder : Bytes → Bytes
unfolding find_first_of find_first_not_of
first_folder path = elim (find_first_not_of slash path) [
  | none ↦ []
  | some offset ↦ elim (find_first_of slash (drop offset path)) [
    | none ↦ []
    | some len ↦ take len (drop offset path)
  ]
]

-- `a.find( b )`: the first place at which `b` stands in `a`.
unfoldable pub is_prefix : Bytes → Bytes → Bool
is_prefix [] ys = true
is_prefix (x ∷ xs) [] = false
is_prefix (x ∷ xs) (y ∷ ys) = if x == y then is_prefix xs ys else false

unfoldable pub find_text : Bytes → Bytes → Option ℕ
unfolding is_prefix
find_text b [] = if is_prefix b [] then some 0 else none
find_text b (x ∷ xs) =
    let rest = Option.map suc (find_text b xs) in if is_prefix b (x ∷ xs) then some 0 else rest

-- The loop that skips over duplicated separators.
unfoldable pub skip_slashes : Bytes → Bytes
skip_slashes [] = []
skip_slashes (c ∷ cs) = let rest = skip_slashes cs in if c == slash then rest else c ∷ cs

unfoldable pub remove_path : Bytes → Bytes → Bytes
unfolding find_text skip_slashes
remove_path full_path to_remove =
    if length to_remove == 0
    then full_path
    else if ltb (length full_path) (length to_remove)
    then full_path
    else elim (find_text to_remove full_path) [
      | none ↦ full_path
      | some pos ↦ skip_slashes (drop (pos + length to_remove) full_path)
    ]

-- `*path.crbegin()`, which is undefined on the empty text.
abbrev pub get_last? : Bytes → Option ℕ
get_last? [] = none
get_last? (c ∷ []) = some c
get_last? (c ∷ d ∷ cs) = get_last? (d ∷ cs)

-- `none` where the source reads the last character of an empty text.
unfoldable pub to_folder_path : Bytes → Option Bytes
to_folder_path path = elim (get_last? path) [
  | none ↦ none
  | some c ↦ some (if c == slash then path else path ++ slash ∷ [])
]

-- The loop of `splitPath` on fuel: the stack, and whether the loop ended.
unfoldable pub split_loop : ℕ → Bytes → Bytes → List Bytes → Option (List Bytes)
unfolding directory_name parent_directory
split_loop zero first path stack = none
split_loop (suc fuel) first path stack =
    let name = directory_name path in
    let rest = split_loop fuel first (parent_directory path) (name ∷ stack) in
    if bytes_eq name first then some (name ∷ stack) else rest

-- `splitPath` with fuel for the loop; the head of the list is the top of the stack.
unfoldable pub split_path : ℕ → Bytes → Bool → Option (List Bytes)
unfolding split_loop first_folder directory file_name to_folder_path bytes_eq
split_path fuel path false =
    split_loop fuel (first_folder path) (directory path) (file_name path ∷ [])
split_path fuel path true = elim (to_folder_path path) [
  | none ↦ none
  | some folder ↦ split_loop fuel (first_folder path) folder []
]
