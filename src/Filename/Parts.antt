-- ===== src/Filename/Parts.antt =====
-- utils::file: a path is taken apart into its directory, its name and its extension.
use medialibrary.Common.{
  ℕ, zero, suc, ◌≡◌, ◌≢◌, refl, none, some, Bytes, [], ◌∷◌, ◌++◌, take, drop, take-append-drop,
  arith, Option-cases, inl, inr,
}
use medialibrary.Filename.{slash, find_last_of, extension, strip_extension, directory, file_name}

-- Behind the last place of a character it does not occur.
find_last_of-drop :
    (c : ℕ) (xs : Bytes) (i : ℕ)
    → find_last_of c xs ≡ some i
    → find_last_of c (drop (suc i) xs) ≡ none
unfolding find_last_of
find_last_of-drop c [] i e = cc
find_last_of-drop c (x ∷ xs) zero e = ground (arith)
find_last_of-drop c (x ∷ xs) (suc i) e = ground (arith, find_last_of-drop c xs i)

-- The text around the last place of a character.
find_last_of-split :
    (c : ℕ) (xs : Bytes) (i : ℕ)
    → find_last_of c xs ≡ some i
    → take i xs ++ c ∷ drop (suc i) xs ≡ xs
unfolding find_last_of
find_last_of-split c [] i e = cc
find_last_of-split c (x ∷ xs) zero e = ground (arith)
find_last_of-split c (x ∷ xs) (suc i) e = ground (arith, find_last_of-split c xs i)

-- The directory of a path and its file name, put together, are the path, and no separator stands in
-- the file name.
pub directory-file_name :
    (path : Bytes)
    → (directory path ++ file_name path ≡ path) × (find_last_of slash (file_name path) ≡ none)
unfolding directory file_name
directory-file_name path = elim (Option-cases (find_last_of slash path)) [
  | inl e ↦ rw (e, directory, file_name) (refl, e)
  | inr (i, e) ↦
      rw (e, directory, file_name) (take-append-drop (suc i) path, find_last_of-drop slash path i e)
]

-- A name with a dot is its stripped form, a dot and its extension, and no dot stands in the
-- extension; a name without one is its own stripped form.
pub strip_extension-extension :
    (name : Bytes)
    → (find_last_of b'.' name ≢ none
        → (strip_extension name ++ b'.' ∷ extension name ≡ name)
          × (find_last_of b'.' (extension name) ≡ none))
      × (find_last_of b'.' name ≡ none → strip_extension name ≡ name)
unfolding strip_extension extension
strip_extension-extension name = elim (Option-cases (find_last_of b'.' name)) [
  | inl e ↦ rw (e, strip_extension, extension) ((λ h. absurd (h refl)), (λ h. refl))
  | inr (i, e) ↦
      rw (e, strip_extension, extension)
        ((λ h. (find_last_of-split b'.' name i e, find_last_of-drop b'.' name i e)), (λ h. cc))
]
