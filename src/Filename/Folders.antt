-- ===== src/Filename/Folders.antt =====
-- utils::file::toFolderPath.
use medialibrary.Common.{
  ℕ, ◌≡◌, ◌≢◌, refl, ◌⊎◌, inl, inr, some, Bytes, [], ◌∷◌, ◌++◌, arith, Option-cases,
}
use medialibrary.Filename.{slash, get_last?, to_folder_path}

get_last?-cons : (c : ℕ) (cs : Bytes) → (d : ℕ) × (get_last? (c ∷ cs) ≡ some d)
get_last?-cons c [] = (c, refl)
get_last?-cons c (x ∷ cs) = get_last?-cons x cs

get_last?-concat : (cs : Bytes) (d : ℕ) → get_last? (cs ++ d ∷ []) ≡ some d
get_last?-concat [] d = refl
get_last?-concat (c ∷ []) d = refl
get_last?-concat (c ∷ x ∷ cs) d = get_last?-concat (x ∷ cs) d

-- The folder path of a path that is not empty is defined, ends with the separator, and is the
-- path itself or the path and one separator.
pub to_folder_path_lem :
    (path : Bytes)
    → path ≢ []
    → (folder : Bytes) × (to_folder_path path ≡ some folder)
      × (get_last? folder ≡ some slash)
      × ((folder ≡ path) ⊎ (folder ≡ path ++ slash ∷ []))
unfolding to_folder_path
to_folder_path_lem [] h = absurd (h refl)
to_folder_path_lem (c ∷ cs) h =
    let (d, e) = get_last?-cons c cs in
    elim (Option-cases (to_folder_path (c ∷ cs))) [
      | inl undefined ↦ ground (arith, undefined, e)
      | inr (folder, defined) ↦
          (folder, defined, ground (arith, e, get_last?-concat (c ∷ cs) slash), ground (arith, e))
    ]

-- Asking twice adds no second separator.
pub to_folder_path_idem :
    (path folder : Bytes) → to_folder_path path ≡ some folder → to_folder_path folder ≡ some folder
unfolding to_folder_path
to_folder_path_idem [] folder e = cc
to_folder_path_idem (c ∷ cs) folder e =
    let (d, last) = get_last?-cons c cs in ground (arith, last, get_last?-concat (c ∷ cs) slash)
