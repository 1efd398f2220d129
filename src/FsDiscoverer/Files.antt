-- ===== src/FsDiscoverer/Files.antt =====
-- FsDiscoverer::checkFiles: without an interruption, each file of the folder is decided on by itself,
-- and every file of the database that is not in the folder is removed.
use medialibrary.Common.{
  ◌≡◌, refl, sym, ap, ◌∙◌, if◌then◌else◌, Bool, true, false, not, ◌||◌, Option, none, some, List,
  [], ◌∷◌, ◌++◌, append-nil, append_assoc, Bytes, bytes_eq, bytes_eq_sound, bytes_eq_refl, keep,
  arith, Bool-cases, inl, inr,
}
use medialibrary.Filename.{file_name}
use medialibrary.Parser.Task.{FileType, unknown}
use medialibrary.FsDiscoverer.{
  LinkedFileType, no_link, links_subtitles, links_soundtrack, FileFs, File, Plan, no_plan,
  take_file, file_type, add_if_known, plan_new, plan_known,
}

abbrev pub name_of : File → Bytes
name_of f = file_name f.mrl

-- The file of the database with a name.
abbrev pub lookup : Bytes → List File → Option File
lookup name [] = none
lookup name (f ∷ files) = if bytes_eq (name_of f) name then some f else lookup name files

abbrev pub others : Bytes → List File → List File
others name = keep (λ f. not (bytes_eq (name_of f) name))

-- No two files of the folder have the same name in the database.
abbrev pub AreDistinct : List File → Type 0
AreDistinct [] = Unit
AreDistinct (f ∷ files) = (lookup (name_of f) files ≡ none) × AreDistinct files

pub others-absent :
    (name : Bytes) (files : List File) → lookup name files ≡ none → others name files ≡ files
others-absent name [] e = refl
others-absent name (f ∷ files) e = ground (arith, e, others-absent name files)

lookup_same :
    (a b : Bytes) (files : List File) → bytes_eq a b ≡ true → lookup a files ≡ lookup b files
lookup_same a b files h = rw (bytes_eq_sound a b h) refl

pub take_file-lookup :
    (name : Bytes) (files : List File)
    → AreDistinct files
    → take_file name files ≡ elim (lookup name files) as (λ o. Option (File × List File)) [
      | none ↦ none
      | some f ↦ some (f, others name files)
    ]
unfolding take_file
take_file-lookup name [] d = refl
take_file-lookup name (f ∷ files) d = elim (Bool-cases (bytes_eq (name_of f) name)) [
  | inl e ↦
      let gone : lookup name files ≡ none = sym (lookup_same (name_of f) name files e) ∙ d.0 in
      rw e (ground (arith, others-absent name files gone))
  | inr e ↦ rw e (ground (arith, take_file-lookup name files d.1))
]

pub lookup-others :
    (m n : Bytes) (files : List File)
    → lookup m (others n files) ≡ (if bytes_eq m n then none else lookup m files)
lookup-others m n [] = ground arith
lookup-others m n (f ∷ files) = ground (
  arith,
  lookup-others m n files,
  bytes_eq_sound (name_of f) n,
  bytes_eq_sound (name_of f) m,
  bytes_eq_refl m,
)

pub others-AreDistinct :
    (name : Bytes) (files : List File) → AreDistinct files → AreDistinct (others name files)
others-AreDistinct name [] d = tt
others-AreDistinct name (f ∷ files) d =
    ground (arith, others-AreDistinct name files d.1, lookup-others (name_of f) name files, d.0)

-- Whether the folder of the file system has a file with a name.
abbrev pub is_on_disk : List FileFs → Bytes → Bool
is_on_disk [] name = false
is_on_disk (x ∷ xs) name = bytes_eq name x.name || is_on_disk xs name

-- The names in a folder are distinct.
abbrev pub AreDistinctFs : List FileFs → Type 0
AreDistinctFs [] = Unit
AreDistinctFs (x ∷ xs) = (is_on_disk xs x.name ≡ false) × AreDistinctFs xs

-- The files of the database that are not in the folder.
abbrev pub missing : List FileFs → List File → List File
missing xs = keep (λ f. not (is_on_disk xs (name_of f)))

pub missing-nil : (files : List File) → missing [] files ≡ files
missing-nil [] = refl
missing-nil (f ∷ files) = ap (◌∷◌ f) (missing-nil files)

pub missing-cons :
    (x : FileFs) (xs : List FileFs) (files : List File)
    → missing xs (others x.name files) ≡ missing (x ∷ xs) files
missing-cons x xs [] = refl
missing-cons x xs (f ∷ files) = ground (arith, missing-cons x xs files)

abbrev pub join : Plan → Plan → Plan
join a b = record {
  updated = a.updated ++ b.updated;
  to_add = a.to_add ++ b.to_add;
  linked_to_add = a.linked_to_add ++ b.linked_to_add;
  to_refresh = a.to_refresh ++ b.to_refresh;
}

pub join-none : (a : Plan) → join a no_plan ≡ a
join-none a = ground (
  arith,
  append-nil a.updated,
  append-nil a.to_add,
  append-nil a.linked_to_add,
  append-nil a.to_refresh,
)

pub join_assoc : (a b c : Plan) → join (join a b) c ≡ join a (join b c)
join_assoc a b c = ground (
  arith,
  append_assoc a.updated b.updated c.updated,
  append_assoc a.to_add b.to_add c.to_add,
  append_assoc a.linked_to_add b.linked_to_add c.linked_to_add,
  append_assoc a.to_refresh b.to_refresh c.to_refresh,
)

module _ (is_media_extension is_playlist_extension : Bytes → Bool) where
  -- What is planned for one file of the folder, by the file that the database knows.
  abbrev pub decide : FileFs → Option File → Plan
  decide x none = plan_new is_media_extension is_playlist_extension x.linked_type x no_plan
  decide x (some f) = plan_known is_media_extension is_playlist_extension f x no_plan

  abbrev pub decide_all : List File → List FileFs → Plan
  decide_all files [] = no_plan
  decide_all files (x ∷ xs) = join (decide x (lookup x.name files)) (decide_all files xs)

  add_if_known-join :
      (x : FileFs) (type : FileType) (plan : Plan)
      → add_if_known is_media_extension is_playlist_extension x type plan
        ≡ join plan (add_if_known is_media_extension is_playlist_extension x type no_plan)
  add_if_known-join x unknown plan = sym (join-none plan)
  add_if_known-join x _ plan =
      ground
        (arith, append-nil plan.updated, append-nil plan.linked_to_add, append-nil plan.to_refresh)

  pub plan_new-join :
      (x : FileFs) (linked : LinkedFileType) (plan : Plan)
      → plan_new is_media_extension is_playlist_extension linked x plan
        ≡ join plan (plan_new is_media_extension is_playlist_extension linked x no_plan)
  plan_new-join x no_link plan =
      add_if_known-join x (file_type is_media_extension is_playlist_extension x.extension) plan
  plan_new-join x links_subtitles plan =
      ground (arith, append-nil plan.updated, append-nil plan.to_add, append-nil plan.to_refresh)
  plan_new-join x links_soundtrack plan =
      ground (arith, append-nil plan.updated, append-nil plan.to_add, append-nil plan.to_refresh)

  pub plan_known-join :
      (x : FileFs) (f : File) (plan : Plan)
      → plan_known is_media_extension is_playlist_extension f x plan
        ≡ join plan (plan_known is_media_extension is_playlist_extension f x no_plan)
  plan_known-join x f plan = ground (
    arith,
    append-nil plan.updated,
    append-nil plan.to_add,
    append-nil plan.linked_to_add,
    append-nil plan.to_refresh,
  )
