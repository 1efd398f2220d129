-- ===== src/Url/Tests.antt =====
-- MRLs and paths, encoded and split.
use medialibrary.Common.{◌≡◌, refl, true, some, Bytes, bytes_eq, codes, arith}
use medialibrary.Filename.{find_text, is_prefix}
use medialibrary.Url.{
  Parts, no_parts, is_plain, hex_digit, encode_char, encode_segment, decode, find, query_begin,
  authority_end, split_authority, split_rest, split_remote, split, encode_parts, to_mrl,
  to_local_path,
}
use medialibrary.Url.Encoding.{decode-encode_segment}
use medialibrary.Url.RoundTrip.{to_local_path-to_mrl}

abbrev remote : Parts
remote = record no_parts {
  scheme = codes "http";
  host = codes "host";
  path = codes "/a b";
  query = codes "q=1";
  fragments = codes "top";
}

split-remote_test : split (codes "http://host/a b?q=1#top") ≡ remote
unfolding split find_text is_prefix split_remote bytes_eq authority_end split_authority split_rest
    query_begin find
split-remote_test = refl

split_authority_test : split (codes "http://me@host:80/x") ≡ record no_parts {
  scheme = codes "http";
  user_info = codes "me";
  host_marker = true;
  host = codes "host";
  port = codes "80";
  path = codes "/x";
}
unfolding split find_text is_prefix split_remote bytes_eq authority_end split_authority split_rest
    query_begin find
split_authority_test = refl

-- The fragment of the encoding is the query.
encode_remote_test : encode_parts remote ≡ codes "http://host/a%20b?q=1#q=1"
unfolding encode_parts encode_segment encode_char is_plain hex_digit bytes_eq
encode_remote_test = refl

abbrev song : Bytes
song = codes "/music/100%.mp3"

decode-encode_segment_example : decode (encode_segment (codes "+") song) ≡ some song
unfolding is_plain
decode-encode_segment_example = decode-encode_segment (codes "+") song refl (omega arith)

to_local_path-to_mrl_example : to_local_path (to_mrl song) ≡ some song
unfolding find_text is_prefix
to_local_path-to_mrl_example = to_local_path-to_mrl song refl (omega arith)
