-- ===== src/Url/RoundTrip.antt =====
-- A local path as an MRL and back: utils::file::toMrl and utils::url::toLocalPath.
use medialibrary.Common.{◌≡◌, refl, none, some, false, [], Bytes, All, bytes_eq}
use medialibrary.Filename.{find_text}
use medialibrary.Url.{
  is_plain, encode_segment, split, encode_parts, encode, no_parts, scheme_mark, to_mrl,
  to_local_path,
}
use medialibrary.Url.Encoding.{IsByte, decode-encode_segment}

split-local :
    (path : Bytes)
    → find_text scheme_mark path ≡ none
    → split path ≡ record no_parts { path = path }
unfolding split
split-local path e = rw (e, split)

encode-local :
    (path : Bytes) → find_text scheme_mark path ≡ none → encode path ≡ encode_segment [] path
unfolding encode encode_parts bytes_eq
encode-local path e = rw (split-local path e)

no_percent : is_plain [] b'%' ≡ false
unfolding is_plain
no_percent = refl

-- A path of bytes in which no "://" stands comes back from its MRL unchanged.
pub to_local_path-to_mrl :
    (path : Bytes)
    → find_text scheme_mark path ≡ none
    → All IsByte path
    → to_local_path (to_mrl path) ≡ some path
unfolding to_local_path to_mrl bytes_eq
to_local_path-to_mrl path e h =
    rw (encode-local path e) (decode-encode_segment [] path no_percent h)
