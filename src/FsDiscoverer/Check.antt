-- ===== src/FsDiscoverer/Check.antt =====
-- FsDiscoverer::checkFiles as a whole, when nothing interrupts it.
use medialibrary.Common.{
  ℕ, zero, suc, ◌+◌, ◌-◌, ◌≤◌, ◌≡◌, refl, ap, ◌∙◌, Bool, true, false, Option, none, some, List, [],
  ◌∷◌, ◌++◌, map, Bytes, bytes_eq_comm, length, length-append, arith, Option-cases, inl, inr,
}
use medialibrary.FsDiscoverer.{
  FileFs, File, Change, Plan, no_plan, take_file, plan_file, plan_files, removal, run_loop,
  check_files,
}
use medialibrary.FsDiscoverer.Files.{
  lookup, others, AreDistinct, others-absent, take_file-lookup, lookup-others, others-AreDistinct,
  is_on_disk, AreDistinctFs, missing, missing-nil, missing-cons, join, join-none, join_assoc,
  decide, decide_all, plan_new-join, plan_known-join,
}

run_loop-enough :
    (checks : ℕ) (cs : List Change)
    → length cs ≤ checks
    → run_loop checks cs ≡ (cs, checks - length cs)
unfolding run_loop
run_loop-enough checks [] h = ground arith
run_loop-enough zero (c ∷ cs) h = absurd (omega arith)
run_loop-enough (suc checks) (c ∷ cs) h = ground (arith, run_loop-enough checks cs)

length-others : (name : Bytes) (files : List File) → length (others name files) ≤ length files
length-others name [] = omega arith
length-others name (f ∷ files) = ground (arith, length-others name files)

length-missing : (xs : List FileFs) (files : List File) → length (missing xs files) ≤ length files
length-missing xs [] = omega arith
length-missing xs (f ∷ files) = ground (arith, length-missing xs files)

length-map : (files : List File) → length (map removal files) ≡ length files
length-map [] = refl
length-map (f ∷ files) = ap suc (length-map files)

module _ (is_media_extension is_playlist_extension : Bytes → Bool) where
  plan_file-lem :
      (x : FileFs) (files : List File) (plan : Plan)
      → AreDistinct files
      → plan_file is_media_extension is_playlist_extension x (files, plan) ≡ (
        others x.name files,
        join plan (decide is_media_extension is_playlist_extension x (lookup x.name files)),
      )
  unfolding plan_file
  plan_file-lem x files plan d = elim (Option-cases (lookup x.name files)) [
    | inl e ↦
        let taken : take_file x.name files ≡ none = take_file-lookup x.name files d ∙ rw e refl in
        rw (taken, plan_file, e)
          (ground (
            arith,
            others-absent x.name files e,
            plan_new-join is_media_extension is_playlist_extension x x.linked_type plan,
          ))
    | inr (f, e) ↦
        let taken : take_file x.name files ≡ some (f, others x.name files) =
          take_file-lookup x.name files d ∙ rw e refl in
        rw (taken, plan_file, e)
          (ground (arith, plan_known-join is_media_extension is_playlist_extension x f plan))
  ]

  -- A file that is decided on does not matter for the others.
  decide_all-others :
      (name : Bytes) (files : List File) (xs : List FileFs)
      → is_on_disk xs name ≡ false
      → decide_all is_media_extension is_playlist_extension (others name files) xs
        ≡ decide_all is_media_extension is_playlist_extension files xs
  decide_all-others name files [] h = refl
  decide_all-others name files (x ∷ xs) h =
      let same : lookup x.name (others name files) ≡ lookup x.name files =
        ground (arith, h, lookup-others x.name name files, bytes_eq_comm x.name name) in
      rw (same, decide_all-others name files xs (ground (arith, h))) refl

  plan_files-lem :
      (checks : ℕ) (xs : List FileFs) (files : List File) (plan : Plan)
      → length xs ≤ checks
      → AreDistinctFs xs
      → AreDistinct files
      → plan_files is_media_extension is_playlist_extension checks xs (files, plan) ≡ (
        (
          missing xs files,
          join plan (decide_all is_media_extension is_playlist_extension files xs),
        ),
        (checks - length xs, true),
      )
  unfolding plan_files
  plan_files-lem checks [] files plan h u d = ground (arith, missing-nil files, join-none plan)
  plan_files-lem zero (x ∷ xs) files plan h u d = absurd (omega arith)
  plan_files-lem (suc checks) (x ∷ xs) files plan h u d =
      let files' = others x.name files in
      let one = decide is_media_extension is_playlist_extension x (lookup x.name files) in
      let left : suc checks - suc (length xs) ≡ checks - length xs = omega arith in
      rw (plan_file-lem x files plan d) (
        plan_files-lem checks xs files' (join plan one) (omega arith) u.1
          (others-AreDistinct x.name files d)
        ∙ rw
            (
              missing-cons x xs files,
              decide_all-others x.name files xs u.0,
              left,
              join_assoc plan one (decide_all is_media_extension is_playlist_extension files xs),
            )
            refl)

  abbrev queued : Plan → ℕ
  queued p = length p.to_refresh + (length p.to_add + length p.linked_to_add)

  queued-decide :
      (x : FileFs) (o : Option File)
      → queued (decide is_media_extension is_playlist_extension x o) ≤ 1
  queued-decide x none = ground arith
  queued-decide x (some f) = ground arith

  queued-decide_all :
      (files : List File) (xs : List FileFs)
      → queued (decide_all is_media_extension is_playlist_extension files xs) ≤ length xs
  queued-decide_all files [] = omega arith
  queued-decide_all files (x ∷ xs) =
      let one = decide is_media_extension is_playlist_extension x (lookup x.name files) in
      let more = decide_all is_media_extension is_playlist_extension files xs in
      omega (
        arith,
        queued-decide x (lookup x.name files),
        queued-decide_all files xs,
        length-append one.to_refresh more.to_refresh,
        length-append one.to_add more.to_add,
        length-append one.linked_to_add more.linked_to_add,
      )

  -- With distinct names in the folder and in the database, and enough tests of the interruption that
  -- pass, `checkFiles` updates, then removes exactly the files of the database that the folder does
  -- not have, then refreshes, adds and links what is decided for each file of the folder by itself,
  -- in the order of the folder.
  pub check_files_lem :
      (checks : ℕ) (xs : List FileFs) (files : List File)
      → length xs + (length files + length xs) ≤ checks
      → AreDistinctFs xs
      → AreDistinct files
      → let plan = decide_all is_media_extension is_playlist_extension files xs in
        check_files is_media_extension is_playlist_extension checks xs files
        ≡ plan.updated
          ++ (map removal (missing xs files)
              ++ (plan.to_refresh ++ (plan.to_add ++ plan.linked_to_add)))
  unfolding check_files
  check_files_lem checks xs files h u d =
      let plan = decide_all is_media_extension is_playlist_extension files xs in
      let gone = map removal (missing xs files) in
      let few = queued-decide_all files xs in
      let shorter : length gone ≤ length files =
        omega (arith, length-map (missing xs files), length-missing xs files) in
      let c1 = checks - length xs in
      let c2 = c1 - length gone in
      let c3 = c2 - length plan.to_refresh in
      rw
        (
          plan_files-lem checks xs files no_plan (omega arith) u d,
          run_loop-enough c1 gone (omega arith),
          run_loop-enough c2 plan.to_refresh (omega arith),
          run_loop-enough c3 plan.to_add (omega arith),
          run_loop-enough (c3 - length plan.to_add) plan.linked_to_add (omega arith),
        )
        refl
