-- ===== src/FsDiscoverer/Traversal.antt =====
-- FsDiscoverer::checkFolder is a recursive walk: each folder is handled when it is reached, and its
-- subfolders after it, the last one first, before anything that was pushed earlier.
use medialibrary.Common.{
  ℕ, zero, suc, ◌+◌, ◌≤◌, ◌≡◌, refl, sym, ap, ◌∙◌, Bool, true, false, Option, none, some, List, [],
  ◌∷◌, ◌++◌, arith,
}
use medialibrary.FsDiscoverer.Folders.{
  Dir, Dirs, dir, no_dirs, more_dirs, Known, Database, Current, Visit, removes, progresses,
  checks_files, device_removed, Removal, throws, keeps, deletes, check_removed_devices, match_known,
  push_dirs, with_visits, removals, entity_of, check_folder,
}
use medialibrary.FsDiscoverer.Walk.{
  then_walk, done, unreadable, left_over, walk_dir, walk_dirs, walk_stack, size, sizes, total,
  then_walk_assoc, then_walk-done,
}

-- The subfolders on the stack are walked before what the stack holds already.
walk_stack-push_dirs :
    (db : Database) (ds : Dirs) (known : List Known) (id : ℕ) (stack : List Current)
    → walk_stack db (push_dirs ds known id stack).0
      ≡ then_walk (walk_dirs db ds known id) (walk_stack db stack)
unfolding push_dirs walk_dir walk_stack
walk_stack-push_dirs db no_dirs known id stack = refl
walk_stack-push_dirs db (more_dirs d ds) known id stack =
    walk_stack-push_dirs db ds (match_known d known).1 id
      (record { folder_fs = d; entity = (match_known d known).0; parent = some id } ∷ stack)
    ∙ sym (
        then_walk_assoc (walk_dirs db ds (match_known d known).1 id)
          (walk_dir db false d (match_known d known).0 (some id)) (walk_stack db stack))

left_over-push_dirs :
    (ds : Dirs) (known : List Known) (id : ℕ) (stack : List Current)
    → (push_dirs ds known id stack).1 ≡ left_over ds known
unfolding push_dirs
left_over-push_dirs no_dirs known id stack = refl
left_over-push_dirs (more_dirs d ds) known id stack =
    left_over-push_dirs ds (match_known d known).1 id
      (record { folder_fs = d; entity = (match_known d known).0; parent = some id } ∷ stack)

size-positive : (d : Dir) → 1 ≤ size d
unfolding size
size-positive (dir mrl hidden device ds) = omega arith

total-push_dirs :
    (ds : Dirs) (known : List Known) (id : ℕ) (stack : List Current)
    → total (push_dirs ds known id stack).0 ≡ sizes ds + total stack
unfolding push_dirs size total
total-push_dirs no_dirs known id stack = omega arith
total-push_dirs (more_dirs d ds) known id stack =
    let below =
      total-push_dirs ds (match_known d known).1 id
        (record { folder_fs = d; entity = (match_known d known).0; parent = some id } ∷ stack) in
    omega (arith, below)

-- One folder of the stack, when the rest is as it should be.
check_folder-step :
    (db : Database) (checks : ℕ) (root_folder : Bool) (d : Dir) (entity parent : Option ℕ)
    (stack : List Current)
    → ((s : List Current) → total s ≤ checks → check_folder db checks false s ≡ walk_stack db s)
    → check_folder db checks root_folder stack ≡ walk_stack db stack
    → size d + total stack ≤ suc checks
    → check_folder db
        (suc checks)
        root_folder
        (record { folder_fs = d; entity = entity; parent = parent } ∷ stack)
      ≡ then_walk (walk_dir db root_folder d entity parent) (walk_stack db stack)
unfolding check_folder walk_dir size
check_folder-step db checks r (dir mrl none device ds) none parent stack ih same h = same
check_folder-step db checks r (dir mrl none device ds) (some id) parent stack ih same h =
    by_removal (check_removed_devices device r)
  where
    by_removal :
        (x : Removal)
        → elim x [
          | throws ↦ record { visits = []; fate = device_removed }
          | keeps ↦ check_folder db checks r stack
          | deletes ↦ with_visits (removes id ∷ []) (check_folder db checks r stack)
        ]
          ≡ then_walk (unreadable x id) (walk_stack db stack)
    by_removal throws = refl
    by_removal keeps = same
    by_removal deletes = ap (with_visits (removes id ∷ [])) same
check_folder-step db checks r (dir mrl (some true) device ds) none parent stack ih same h =
    ih stack (omega arith)
check_folder-step db checks r (dir mrl (some true) device ds) (some id) parent stack ih same h =
    ap (with_visits (removes id ∷ [])) (ih stack (omega arith))
check_folder-step db checks r (dir mrl (some false) device ds) entity parent stack ih same h =
    by_entity (entity_of db mrl entity parent)
  where
    first : ℕ → List Visit → List Visit
    first id added =
        added
        ++ (progresses mrl ∷ (removals (left_over ds (db.folders id)) ++ checks_files mrl id ∷ []))

    pushed : ℕ → List Current
    pushed id = (push_dirs ds (db.folders id) id stack).0

    below :
        (id : ℕ)
        → check_folder db checks false (pushed id)
          ≡ then_walk (walk_dirs db ds (db.folders id) id) (walk_stack db stack)
    below id =
        ih (pushed id) (omega (arith, total-push_dirs ds (db.folders id) id stack))
        ∙ walk_stack-push_dirs db ds (db.folders id) id stack

    handled :
        (id : ℕ) (added : List Visit)
        → with_visits
            (added
              ++ (progresses mrl
                  ∷ (removals (push_dirs ds (db.folders id) id stack).1
                      ++ checks_files mrl id ∷ [])))
            (check_folder db checks false (pushed id))
          ≡ then_walk
              (then_walk (done (first id added)) (walk_dirs db ds (db.folders id) id))
              (walk_stack db stack)
    handled id added =
        rw (left_over-push_dirs ds (db.folders id) id stack, below id)
          (sym (
            then_walk_assoc (done (first id added)) (walk_dirs db ds (db.folders id) id)
              (walk_stack db stack)))

    by_entity :
        (x : Option (ℕ × List Visit))
        → elim x [
          | none ↦ check_folder db checks false stack
          | some (id, added) ↦
              let (later, gone) = push_dirs ds (db.folders id) id stack in
              with_visits
                (added ++ (progresses mrl ∷ (removals gone ++ checks_files mrl id ∷ [])))
                (check_folder db checks false later)
        ]
          ≡ then_walk
              (elim x [
                | none ↦ done []
                | some (id, added) ↦
                    then_walk
                      (done (
                        added
                        ++ (progresses mrl
                            ∷ (removals (left_over ds (db.folders id))
                                ++ checks_files mrl id ∷ []))))
                      (walk_dirs db ds (db.folders id) id)
              ])
              (walk_stack db stack)
    by_entity none = ih stack (omega arith)
    by_entity (some (id, added)) = handled id added

check_folder-walk_stack :
    (db : Database) (checks : ℕ) (stack : List Current)
    → total stack ≤ checks
    → check_folder db checks false stack ≡ walk_stack db stack
unfolding check_folder walk_stack total
check_folder-walk_stack db checks [] h = refl
check_folder-walk_stack db zero (c ∷ stack) h = absurd (omega (arith, size-positive c.folder_fs))
check_folder-walk_stack db (suc checks) (c ∷ stack) h =
    check_folder-step db checks false c.folder_fs c.entity c.parent stack
      (check_folder-walk_stack db checks)
      (check_folder-walk_stack db checks stack (omega (arith, size-positive c.folder_fs))) h

-- With a test of the interruption that passes for each folder below the first one, `checkFolder` is
-- the recursive walk: a folder that is handled is followed by its subfolders, the last one first,
-- each with all that is below it before the next, and the walk ends where a device is found removed.
pub check_folder_lem :
    (db : Database) (checks : ℕ) (root_folder : Bool) (d : Dir) (entity parent : Option ℕ)
    → size d ≤ checks
    → check_folder db checks root_folder
        (record { folder_fs = d; entity = entity; parent = parent } ∷ [])
      ≡ walk_dir db root_folder d entity parent
unfolding check_folder total walk_stack
check_folder_lem db zero root_folder d entity parent h = absurd (omega (arith, size-positive d))
check_folder_lem db (suc checks) root_folder d entity parent h =
    check_folder-step db checks root_folder d entity parent [] (check_folder-walk_stack db checks)
      refl (omega arith)
    ∙ then_walk-done (walk_dir db root_folder d entity parent)
