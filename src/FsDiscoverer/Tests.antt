-- ===== src/FsDiscoverer/Tests.antt =====
-- A folder with three files, and a tree of four folders.
use medialibrary.Common.{
  ℕ, zero, suc, ◌≡◌, refl, Bool, true, false, none, some, List, [], ◌∷◌, ◌++◌, map, Bytes, bytes_eq,
  codes, arith,
}
use medialibrary.Filename.{file_name}
use medialibrary.Parser.Task.{main, playlist}
use medialibrary.FsDiscoverer.{no_link, links_subtitles, FileFs, File, removal, check_files}
use medialibrary.FsDiscoverer.Files.{missing, decide_all}
use medialibrary.FsDiscoverer.Check.{check_files_lem}
use medialibrary.FsDiscoverer.Folders.{
  fixed, Dir, dir, no_dirs, more_dirs, Database, removes, adds, progresses, checks_files,
  check_folder, take_known, push_dirs, check_removed_devices,
}
use medialibrary.FsDiscoverer.Walk.{size, walk_dir}
use medialibrary.FsDiscoverer.Traversal.{check_folder_lem}

abbrev media_extension : Bytes → Bool
media_extension extension = bytes_eq extension (codes "mkv")

abbrev playlist_extension : Bytes → Bool
playlist_extension extension = bytes_eq extension (codes "m3u")

abbrev on_disk : List FileFs
on_disk =
    record {
      name = codes "a.mkv";
      extension = codes "mkv";
      linked_type = no_link;
      last_modification = 2;
      size = 7;
    }
    ∷ record {
      name = codes "b.mkv";
      extension = codes "mkv";
      linked_type = no_link;
      last_modification = 1;
      size = 7;
    }
    ∷ record {
      name = codes "b.srt";
      extension = codes "srt";
      linked_type = links_subtitles;
      last_modification = 1;
      size = 7;
    }
    ∷ []

abbrev known_files : List File
known_files =
    record {
      mrl = codes "file:///c.m3u";
      last_modification = 1;
      size = 7;
      type = playlist;
      has_media = false;
    }
    ∷ record {
      mrl = codes "file:///a.mkv";
      last_modification = 1;
      size = 7;
      type = main;
      has_media = true;
    }
    ∷ []

check_files_lem_example :
    let plan = decide_all media_extension playlist_extension known_files on_disk in
    check_files media_extension playlist_extension 8 on_disk known_files
    ≡ plan.updated
      ++ (map removal (missing on_disk known_files)
          ++ (plan.to_refresh ++ (plan.to_add ++ plan.linked_to_add)))
unfolding bytes_eq file_name
check_files_lem_example =
    check_files_lem media_extension playlist_extension 8 on_disk known_files (omega arith)
      (refl, (refl, (refl, tt))) (refl, (refl, tt))

-- The root has a folder that is known, which has a new one below it, and a folder that is new. Another
-- known folder is gone.
abbrev tree : Dir
tree = dir (codes "file:///m/") (some false) fixed (
    more_dirs
      (dir (codes "file:///m/a/") (some false) fixed
        (more_dirs (dir (codes "file:///m/a/b/") (some false) fixed no_dirs) no_dirs))
      (more_dirs (dir (codes "file:///m/c/") (some false) fixed no_dirs) no_dirs))

abbrev database : Database
database = record { folders = λ id. if_root id; add_folder = λ mrl parent. some 9 }
  where
    if_root : ℕ → List (Bytes × ℕ)
    if_root (suc zero) = (codes "a", 2) ∷ (codes "d", 3) ∷ []
    if_root _ = []

check_folder_test :
    (check_folder database 4 true
      (record { folder_fs = tree; entity = some 1; parent = none } ∷ [])).visits
    ≡ progresses (codes "file:///m/")
      ∷ removes 3
      ∷ checks_files (codes "file:///m/") 1
      ∷ adds (codes "file:///m/c/") 9
      ∷ progresses (codes "file:///m/c/")
      ∷ checks_files (codes "file:///m/c/") 9
      ∷ progresses (codes "file:///m/a/")
      ∷ checks_files (codes "file:///m/a/") 2
      ∷ adds (codes "file:///m/a/b/") 9
      ∷ progresses (codes "file:///m/a/b/")
      ∷ checks_files (codes "file:///m/a/b/") 9
      ∷ []
unfolding check_folder push_dirs take_known check_removed_devices
check_folder_test = refl

check_folder_lem_example :
    check_folder database 4 true (record { folder_fs = tree; entity = some 1; parent = none } ∷ [])
    ≡ walk_dir database true tree (some 1) none
unfolding size
check_folder_lem_example = check_folder_lem database 4 true tree (some 1) none (omega arith)
