-- ===== src/FsDiscoverer/Walk.antt =====
-- FsDiscoverer: a recursive walk over a tree of folders.
use medialibrary.Common.{
  ℕ, suc, ◌+◌, ◌≡◌, refl, ap, Bool, true, false, Option, none, some, List, [], ◌∷◌, ◌++◌,
  append-nil, append_assoc,
}
use medialibrary.FsDiscoverer.Folders.{
  Dir, Dirs, dir, no_dirs, more_dirs, Known, Database, Current, Visit, removes, progresses,
  checks_files, Fate, finished, interrupted, device_removed, Walk, Removal, throws, keeps, deletes,
  check_removed_devices, match_known, removals, entity_of,
}

-- One walk after another, unless the first one was aborted.
abbrev after_fate : Fate → Walk → Walk → Walk
after_fate finished a b = record { visits = a.visits ++ b.visits; fate = b.fate }
after_fate interrupted a b = a
after_fate device_removed a b = a

abbrev pub then_walk : Walk → Walk → Walk
then_walk a b = after_fate a.fate a b

abbrev pub done : List Visit → Walk
done vs = record { visits = vs; fate = finished }

-- A known folder that cannot be read.
abbrev pub unreadable : Removal → ℕ → Walk
unreadable throws id = record { visits = []; fate = device_removed }
unreadable keeps id = done []
unreadable deletes id = done (removes id ∷ [])

abbrev pub left_over : Dirs → List Known → List Known
left_over no_dirs known = known
left_over (more_dirs d ds) known = left_over ds (match_known d known).1

module _ (db : Database) where
  unfoldable mutual
    -- The walk of a folder whose parent is handled.
    pub walk_dir : Bool → Dir → Option ℕ → Option ℕ → Walk
    walk_dir root_folder (dir mrl none device subfolders) none parent = done []
    walk_dir root_folder (dir mrl none device subfolders) (some id) parent =
        unreadable (check_removed_devices device root_folder) id
    walk_dir root_folder (dir mrl (some true) device subfolders) none parent = done []
    walk_dir root_folder (dir mrl (some true) device subfolders) (some id) parent =
        done (removes id ∷ [])
    walk_dir root_folder (dir mrl (some false) device subfolders) entity parent =
        elim (entity_of db mrl entity parent) [
          | none ↦ done []
          | some (id, added) ↦
              then_walk
                (done (
                  added
                  ++ (progresses mrl
                      ∷ (removals (left_over subfolders (db.folders id))
                          ++ checks_files mrl id ∷ []))))
                (walk_dirs subfolders (db.folders id) id)
        ]

    -- The subfolders, the last one first; each takes its entity out of those that are known.
    pub walk_dirs : Dirs → List Known → ℕ → Walk
    walk_dirs no_dirs known id = done []
    walk_dirs (more_dirs d ds) known id =
        let (entity, others) = match_known d known in
        then_walk (walk_dirs ds others id) (walk_dir false d entity (some id))

  unfoldable pub walk_stack : List Current → Walk
  walk_stack [] = done []
  walk_stack (c ∷ stack) =
      then_walk (walk_dir false c.folder_fs c.entity c.parent) (walk_stack stack)

-- How many folders there are.
unfoldable mutual
  pub size : Dir → ℕ
  size (dir mrl hidden device subfolders) = suc (sizes subfolders)

  pub sizes : Dirs → ℕ
  sizes no_dirs = 0
  sizes (more_dirs d ds) = size d + sizes ds

unfoldable pub total : List Current → ℕ
total [] = 0
total (c ∷ stack) = size c.folder_fs + total stack

pub then_walk_assoc : (a b c : Walk) → then_walk (then_walk a b) c ≡ then_walk a (then_walk b c)
then_walk_assoc a b c = by_fates a.visits b.visits a.fate b.fate
  where
    by_fates :
        (v w : List Visit) (f g : Fate)
        → then_walk
            (then_walk (record { visits = v; fate = f }) (record { visits = w; fate = g }))
            c
          ≡ then_walk
              (record { visits = v; fate = f })
              (then_walk (record { visits = w; fate = g }) c)
    by_fates v w finished finished =
        ap (λ vs. record { visits = vs; fate = c.fate }) (append_assoc v w c.visits)
    by_fates v w finished interrupted = refl
    by_fates v w finished device_removed = refl
    by_fates v w interrupted g = refl
    by_fates v w device_removed g = refl

pub then_walk-done : (a : Walk) → then_walk a (done []) ≡ a
then_walk-done a = by_fate a.visits a.fate
  where
    by_fate :
        (v : List Visit) (f : Fate)
        → then_walk (record { visits = v; fate = f }) (done []) ≡ record { visits = v; fate = f }
    by_fate v finished = ap (λ vs. record { visits = vs; fate = finished }) (append-nil v)
    by_fate v interrupted = refl
    by_fate v device_removed = refl
