-- ===== src/FsDiscoverer/Folders.antt =====
-- FsDiscoverer: checkFolder, the walk over the folders below one. The folders of the file system are
-- a finite tree. The database's part is what it answers: the known subfolders of a folder, which are
-- read once for each, and the identifier of a folder that is added.
use medialibrary.Common.{
  ℕ, zero, suc, if◌then◌else◌, Bool, true, false, Option, none, some, List, [], ◌∷◌, ◌++◌, map,
  Bytes, bytes_eq,
}
use medialibrary.Filename.{directory_name}
use medialibrary.Url.{decode}

-- What is known of the device of a folder: one that is not removable, a removable one and whether it
-- is present after the refresh, or none, and what the refresh finds.
pub data Device : Type 0 where
  fixed : Device
  removable : Bool → Device
  absent : Option Bool → Device

mutual
  -- A folder with its MRL, the answer to the search for `.nomedia` (`none` is the error of the
  -- system), its device and its subfolders.
  pub data Dir : Type 0 where
    dir : Bytes → Option Bool → Device → Dirs → Dir

  pub data Dirs : Type 0 where
    no_dirs : Dirs
    more_dirs : Dir → Dirs → Dirs

-- A known subfolder: its name and its identifier.
abbrev pub Known : Type 0
Known = Bytes × ℕ

pub record Database : Type 0 where
  pub folders : ℕ → List Known
  pub add_folder : Bytes → Option ℕ → Option ℕ

-- A folder to look at, its entity if it is known, and the entity of its parent.
pub record Current : Type 0 where
  pub folder_fs : Dir
  pub entity : Option ℕ
  pub parent : Option ℕ

pub data Visit : Type 0 where
  removes : ℕ → Visit
  adds : Bytes → ℕ → Visit
  progresses : Bytes → Visit
  checks_files : Bytes → ℕ → Visit

pub data Fate : Type 0 where
  finished interrupted device_removed : Fate

pub record Walk : Type 0 where
  pub visits : List Visit
  pub fate : Fate

-- `checkRemovedDevices`: the exception, or whether the folder is removed.
pub data Removal : Type 0 where
  throws keeps deletes : Removal

abbrev pub present_device : Bool → Bool → Removal
present_device false root_folder = throws
present_device true root_folder = if root_folder then keeps else deletes

unfoldable pub check_removed_devices : Device → Bool → Removal
check_removed_devices fixed root_folder = deletes
check_removed_devices (removable present) root_folder = present_device present root_folder
check_removed_devices (absent none) root_folder = throws
check_removed_devices (absent (some present)) root_folder = present_device present root_folder

-- The known folder that a subfolder is, and the others. The MRLs of the file system can be decoded;
-- of another one the source throws, and nothing is found here.
unfoldable pub take_known : Bytes → List Known → Option (ℕ × List Known)
unfolding directory_name decode bytes_eq
take_known mrl [] = none
take_known mrl ((name, id) ∷ known) =
    let rest = take_known mrl known in
    elim (decode (directory_name mrl)) [
      | none ↦ none
      | some wanted ↦
          if bytes_eq name wanted
          then some (id, known)
          else elim rest [ none ↦ none | some (found, others) ↦ some (found, (name, id) ∷ others) ]
    ]

abbrev pub mrl_of : Dir → Bytes
mrl_of (dir mrl hidden device subfolders) = mrl

-- One subfolder: its entity, and the known folders that are left.
abbrev pub match_known : Dir → List Known → Option ℕ × List Known
match_known d known = elim (take_known (mrl_of d) known) [
  | none ↦ (none, known)
  | some (id, others) ↦ (some id, others)
]

-- The loop over the subfolders pushes each; the top of the stack is the head of the list.
unfoldable pub push_dirs : Dirs → List Known → ℕ → List Current → List Current × List Known
unfolding take_known
push_dirs no_dirs known parent stack = (stack, known)
push_dirs (more_dirs d ds) known parent stack =
    let (entity, others) = match_known d known in
    push_dirs ds others parent
      (record { folder_fs = d; entity = entity; parent = some parent } ∷ stack)

abbrev pub with_visits : List Visit → Walk → Walk
with_visits vs w = record w { visits = vs ++ w.visits }

abbrev pub removals : List Known → List Visit
removals known = map (λ (k : Known). removes k.1) known

-- The entity of a readable folder: added where it is not known, `none` where that fails.
abbrev pub entity_of : Database → Bytes → Option ℕ → Option ℕ → Option (ℕ × List Visit)
entity_of db mrl (some id) parent = some (id, [])
entity_of db mrl none parent = elim (db.add_folder mrl parent) [
  | none ↦ none
  | some id ↦ some (id, adds mrl id ∷ [])
]

-- `checkFolder`, with the number of tests of the interruption that still pass.
unfoldable pub check_folder : Database → ℕ → Bool → List Current → Walk
unfolding check_removed_devices push_dirs
check_folder db checks root_folder [] = record { visits = []; fate = finished }
check_folder db zero root_folder (c ∷ stack) = record { visits = []; fate = interrupted }
check_folder db (suc checks) root_folder (c ∷ stack) = elim c.folder_fs [
  | dir mrl hidden device subfolders ↦ elim hidden [
    | none ↦ elim c.entity [
      | none ↦ check_folder db checks root_folder stack
      | some id ↦ elim (check_removed_devices device root_folder) [
        | throws ↦ record { visits = []; fate = device_removed }
        | keeps ↦ check_folder db checks root_folder stack
        | deletes ↦ with_visits (removes id ∷ []) (check_folder db checks root_folder stack)
      ]
    ]
    | some has_no_media ↦ elim has_no_media [
      | true ↦ elim c.entity [
        | none ↦ check_folder db checks false stack
        | some id ↦ with_visits (removes id ∷ []) (check_folder db checks false stack)
      ]
      | false ↦ elim (entity_of db mrl c.entity c.parent) [
        | none ↦ check_folder db checks false stack
        | some (id, added) ↦
            let (pushed, gone) = push_dirs subfolders (db.folders id) id stack in
            with_visits (added ++ (progresses mrl ∷ (removals gone ++ checks_files mrl id ∷ [])))
              (check_folder db checks false pushed)
      ]
    ]
  ]
]
