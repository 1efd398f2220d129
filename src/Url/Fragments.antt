-- ===== src/Url/Fragments.antt =====
-- utils::url::encode and the fragment of an MRL.
use medialibrary.Common.{◌≡◌, ◌≢◌, refl, false, [], ◌∷◌, Bytes, bytes_eq, codes}
use medialibrary.Url.{Parts, is_empty, encode_parts}

not_empty : (text : Bytes) → text ≢ [] → is_empty text ≡ false
not_empty [] h = absurd (h refl)
not_empty (c ∷ cs) h = refl

-- Of an MRL with a scheme other than that of files and a fragment that is not empty, the encoding
-- does not depend on what the fragment says: any other that is not empty gives the same text.
pub encode_parts_fragments :
    (p : Parts) (fragments : Bytes)
    → p.scheme ≢ []
    → bytes_eq p.scheme (codes "file") ≡ false
    → p.fragments ≢ []
    → fragments ≢ []
    → encode_parts (record p { fragments = fragments }) ≡ encode_parts p
unfolding encode_parts
encode_parts_fragments p fragments s l f g = rw (not_empty fragments g, not_empty p.fragments f)
