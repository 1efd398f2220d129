-- ===== src/FsDiscoverer.antt =====
-- src/discoverer/FsDiscoverer.cpp: what is found in a folder of the file system, against what the
-- database knows of it.
pub mod Files
pub mod Folders
pub mod Walk
pub mod Traversal
pub mod Roots
pub mod Check
mod Tests
use medialibrary.Common.{
  ℕ, zero, suc, ◌+◌, ◌-◌, ◌==◌, ltb, if◌then◌else◌, Bool, true, false, not, ◌&&◌, ◌||◌, Option,
  none, some, List, [], ◌∷◌, ◌++◌, map, Bytes, bytes_eq,
}
use medialibrary.Filename.{file_name}
use medialibrary.Parser.Task.{FileType, main, subtitles, soundtrack, playlist, unknown}

pub data LinkedFileType : Type 0 where
  no_link links_subtitles links_soundtrack : LinkedFileType

-- A file of the file system.
pub record FileFs : Type 0 where
  pub name : Bytes
  pub extension : Bytes
  pub linked_type : LinkedFileType
  pub last_modification : ℕ
  pub size : ℕ

-- A file of the database.
pub record File : Type 0 where
  pub mrl : Bytes
  pub last_modification : ℕ
  pub size : ℕ
  pub type : FileType
  pub has_media : Bool

-- What is done with a file.
pub data Change : Type 0 where
  updates_info : File → ℕ → ℕ → Change
  destroys : File → Change
  removes_from_media : File → Change
  refreshes : File → FileFs → Change
  discovers : FileFs → FileType → Change
  discovers_linked : FileFs → FileType → Change

-- The lists that the first loop fills, and the files that it updates at once.
pub record Plan : Type 0 where
  pub updated : List Change
  pub to_add : List Change
  pub linked_to_add : List Change
  pub to_refresh : List Change

abbrev pub no_plan : Plan
no_plan = record { updated = []; to_add = []; linked_to_add = []; to_refresh = [] }

-- `std::find_if` on the name of the file, and the erasure of what it finds.
unfoldable pub take_file : Bytes → List File → Option (File × List File)
unfolding file_name
take_file name [] = none
take_file name (f ∷ files) =
    let rest = take_file name files in
    if bytes_eq (file_name f.mrl) name
    then some (f, files)
    else elim rest [ none ↦ none | some (found, others) ↦ some (found, f ∷ others) ]

abbrev is_playlist : FileType → Bool
is_playlist playlist = true
is_playlist _ = false

-- A file that is not found on the file system.
abbrev pub removal : File → Change
removal f =
    if is_playlist f.type
    then destroys f
    else if f.has_media
    then removes_from_media f
    else destroys f

-- Each of the other loops, up to the interruption.
unfoldable pub run_loop : ℕ → List Change → List Change × ℕ
run_loop checks [] = ([], checks)
run_loop zero (c ∷ cs) = ([], zero)
run_loop (suc checks) (c ∷ cs) = let (done, left) = run_loop checks cs in (c ∷ done, left)

-- Which extensions are supported.
module _ (is_media_extension is_playlist_extension : Bytes → Bool) where
  abbrev pub file_type : Bytes → FileType
  file_type extension =
      if is_media_extension extension
      then main
      else if is_playlist_extension extension
      then playlist
      else unknown

  abbrev pub add_if_known : FileFs → FileType → Plan → Plan
  add_if_known x unknown plan = plan
  add_if_known x type plan = record plan { to_add = plan.to_add ++ discovers x type ∷ [] }

  -- A file that the database does not know.
  abbrev pub plan_new : LinkedFileType → FileFs → Plan → Plan
  plan_new no_link x plan = add_if_known x (file_type x.extension) plan
  plan_new links_subtitles x plan = record plan {
    linked_to_add = plan.linked_to_add ++ discovers_linked x subtitles ∷ [];
  }
  plan_new links_soundtrack x plan = record plan {
    linked_to_add = plan.linked_to_add ++ discovers_linked x soundtrack ∷ [];
  }

  -- A file that it knows. Sizes of 32 bits were truncated once.
  abbrev pub plan_known : File → FileFs → Plan → Plan
  plan_known f x plan =
      if not (x.last_modification == f.last_modification)
      then record plan { to_refresh = plan.to_refresh ++ refreshes f x ∷ [] }
      else if not (x.size == f.size) && ltb 4294967295 x.size
      then record plan { updated = plan.updated ++ updates_info f x.last_modification x.size ∷ [] }
      else plan

  -- One file of the first loop.
  unfoldable pub plan_file : FileFs → List File × Plan → List File × Plan
  unfolding take_file
  plan_file x (files, plan) = elim (take_file x.name files) [
    | none ↦ (files, plan_new x.linked_type x plan)
    | some (f, others) ↦ (others, plan_known f x plan)
  ]

  -- The first loop, with the number of tests of the interruption that still pass. The flag tells
  -- whether the loop came to its end.
  unfoldable pub plan_files : ℕ → List FileFs → List File × Plan → (List File × Plan) × (ℕ × Bool)
  unfolding plan_file
  plan_files checks [] s = (s, (checks, true))
  plan_files zero (x ∷ xs) s = (s, (zero, false))
  plan_files (suc checks) (x ∷ xs) s = plan_files checks xs (plan_file x s)

  -- `checkFiles`: the changes that it makes, in order.
  unfoldable pub check_files : ℕ → List FileFs → List File → List Change
  unfolding plan_files run_loop
  check_files checks xs files =
      let ((left, plan), (checks, ended)) = plan_files checks xs (files, no_plan) in
      let (removed, checks) = run_loop checks (map removal left) in
      let (refreshed, checks) = run_loop checks plan.to_refresh in
      let (added, checks) = run_loop checks plan.to_add in
      let (linked, checks) = run_loop checks plan.linked_to_add in
      if ended then plan.updated ++ (removed ++ (refreshed ++ (added ++ linked))) else plan.updated
