-- ===== src/Filename/Tests.antt =====
-- Paths taken apart.
use medialibrary.Common.{◌≡◌, refl, false, some, [], ◌∷◌, ◌++◌, codes, bytes_eq}
use medialibrary.Filename.{
  slash, find_last_of, find_first_of, find_first_not_of, find_text, is_prefix, skip_slashes,
  extension, directory, directory_name, parent_directory, file_name, first_folder, remove_path,
  split_loop, split_path,
}
use medialibrary.Common.{none, ◌++◌}
use medialibrary.Filename.Parts.{directory-file_name}

extension_test : extension (codes "/a/b.tar.gz") ≡ codes "gz"
unfolding extension find_last_of
extension_test = refl

directory_name_test : directory_name (codes "/a/b/") ≡ codes "b"
unfolding directory_name find_last_of
directory_name_test = refl

parent_directory_test : parent_directory (codes "/a/b/") ≡ codes "/a/"
unfolding parent_directory find_last_of
parent_directory_test = refl

remove_path_test : remove_path (codes "/a//b/c") (codes "/a/") ≡ codes "b/c"
unfolding remove_path find_text is_prefix skip_slashes
remove_path_test = refl

split_path_test :
    split_path 4 (codes "/a/b/c") false ≡ some (codes "a" ∷ codes "b" ∷ codes "c" ∷ [])
unfolding split_path split_loop first_folder directory file_name directory_name parent_directory
    find_last_of find_first_of find_first_not_of bytes_eq
split_path_test = refl

directory-file_name_example :
    (directory (codes "/a/b.c") ++ file_name (codes "/a/b.c") ≡ codes "/a/b.c")
    × (find_last_of slash (file_name (codes "/a/b.c")) ≡ none)
directory-file_name_example = directory-file_name (codes "/a/b.c")
