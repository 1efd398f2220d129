-- ===== src/FsDiscoverer/Roots.antt =====
-- FsDiscoverer: the reload of a known folder.
use medialibrary.Common.{
  ℕ, ◌≤◌, ◌≡◌, ap, Bool, true, false, Option, none, some, List, [], ◌∷◌, if◌then◌else◌,
}
use medialibrary.FsDiscoverer.Folders.{
  absent, Dir, dir, Database, Visit, removes, Fate, device_removed, Walk, check_folder,
}
use medialibrary.FsDiscoverer.Walk.{size, walk_dir}
use medialibrary.FsDiscoverer.Traversal.{check_folder_lem}

-- What a reload comes to; it is undefined where a folder is used that could not be made.
pub data Result : Type 0 where
  reloaded failed undefined : Result

-- What the factory answers for an MRL: the folder, unless it throws, and whether the device is removable,
-- if there is one.
pub record Answers : Type 0 where
  pub directory : Option Dir
  pub device : Option Bool

abbrev pub has_device : Dir → Bool
has_device (dir mrl hidden (absent d) subfolders) = false
has_device (dir mrl hidden d subfolders) = true

abbrev pub result_of : Fate → Result
result_of device_removed = failed
result_of f = reloaded

abbrev pub outcome_of : Walk → List Visit × Result
outcome_of w = (w.visits, result_of w.fate)

-- `reloadFolder`.
unfoldable pub reload_folder : Database → ℕ → Answers → ℕ → List Visit × Result
unfolding check_folder
reload_folder db checks a id = elim a.directory [
  | some d ↦
      if has_device d
      then outcome_of (
          check_folder db checks true
            (record { folder_fs = d; entity = some id; parent = none } ∷ []))
      else ([], failed)
  | none ↦ elim a.device [
    | none ↦ (removes id ∷ [], failed)
    | some is_removable ↦ if is_removable then ([], undefined) else (removes id ∷ [], failed)
  ]
]

-- What is known of a folder that is to be reloaded.
pub data KnownRoot : Type 0 where
  no_factory not_found not_present : KnownRoot
  present : ℕ → KnownRoot

-- `reload` of one root: its own result does not tell that of the folder.
unfoldable pub reload_root : Database → ℕ → Answers → KnownRoot → List Visit × Bool
unfolding reload_folder
reload_root db checks a no_factory = ([], false)
reload_root db checks a not_found = ([], false)
reload_root db checks a not_present = ([], false)
reload_root db checks a (present id) = ((reload_folder db checks a id).0, true)

-- The reload of a folder whose device is there is its walk, and fails where that finds the device removed.
pub reload_folder_lem :
    (db : Database) (checks : ℕ) (d : Dir) (device : Option Bool) (id : ℕ)
    → size d ≤ checks
    → has_device d ≡ true
    → reload_folder db checks (record { directory = some d; device = device }) id
      ≡ outcome_of (walk_dir db true d (some id) none)
unfolding reload_folder
reload_folder_lem db checks d device id h e =
    rw e (ap outcome_of (check_folder_lem db checks true d (some id) none h))
