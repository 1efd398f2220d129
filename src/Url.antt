-- ===== src/Url.antt =====
-- src/utils/Url.cpp and Url.h, and toMrl of src/utils/Filename.cpp, on a system other than Windows.
-- A text is its list of bytes; a position in it is a number, and its end is its length.
pub mod Encoding
pub mod RoundTrip
pub mod Fragments
mod Tests
use mathlib.Core.Option
use medialibrary.Common.{
  ℕ, zero, suc, ◌+◌, ◌-◌, ◌*◌, ◌/◌, ◌%◌, ◌==◌, ltb, leb, if◌then◌else◌, Bool, true, false, not,
  ◌&&◌, ◌||◌, Option, none, some, List, [], ◌∷◌, ◌++◌, Bytes, bytes_eq, codes, length, get_elem?,
  take, drop,
}
use medialibrary.Filename.{find_text, is_prefix, find_first_of, first_folder, remove_path}

-- `strchr( chars, c ) != nullptr`, for a character that is not 0.
unfoldable pub is_in : Bytes → ℕ → Bool
is_in [] c = false
is_in (x ∷ xs) c = x == c || is_in xs c

abbrev pub safe_chars : Bytes
safe_chars = codes ".-_~/"

-- The characters that `encodeSegment` copies.
unfoldable pub is_plain : Bytes → ℕ → Bool
unfolding is_in
is_plain extra c =
    (leb 32 c && leb c 126)
    && ((leb b'a' c && leb c b'z')
        || (leb b'A' c && leb c b'Z')
        || (leb b'0' c && leb c b'9')
        || is_in safe_chars c
        || is_in extra c)

abbrev pub hex_digits : Bytes
hex_digits = codes "0123456789ABCDEF"

abbrev pub or_zero : Option ℕ → ℕ
or_zero none = 0
or_zero (some d) = d

unfoldable pub hex_digit : ℕ → ℕ
hex_digit n = or_zero (get_elem? hex_digits n)

unfoldable pub encode_char : Bytes → ℕ → Bytes
encode_char extra c =
    if is_plain extra c then c ∷ [] else b'%' ∷ hex_digit (c / 16) ∷ hex_digit (c % 16) ∷ []

unfoldable pub encode_segment : Bytes → Bytes → Bytes
encode_segment extra [] = []
encode_segment extra (c ∷ cs) = encode_char extra c ++ encode_segment extra cs

-- `none` is the exception.
unfoldable pub char_to_val : ℕ → Option ℕ
char_to_val c =
    if leb b'0' c && leb c b'9'
    then some (c - b'0')
    else if leb b'a' c && leb c b'f'
    then some (c - b'a' + 10)
    else if leb b'A' c && leb c b'F'
    then some (c - b'A' + 10)
    else none

abbrev hex_pair : Option ℕ → Option ℕ → Option ℕ
hex_pair none d = none
hex_pair (some c) none = none
hex_pair (some c) (some d) = some (c * 16 + d)

-- A sequence that the text breaks off meets the terminating 0, which is no digit.
unfoldable pub decode : Bytes → Option Bytes
decode [] = some []
decode (c ∷ []) = if c == b'%' then none else some (c ∷ [])
decode (c ∷ d ∷ []) =
    let rest = decode (d ∷ []) in if c == b'%' then none else Option.map (◌∷◌ c) rest
decode (c ∷ d ∷ e ∷ cs) =
    let decoded = decode cs in
    let rest = decode (d ∷ e ∷ cs) in
    if c == b'%'
    then elim (hex_pair (char_to_val d) (char_to_val e)) [
      | none ↦ none
      | some v ↦ Option.map (◌∷◌ v) decoded
    ]
    else Option.map (◌∷◌ c) rest

pub record Parts : Type 0 where
  pub scheme : Bytes
  pub user_info : Bytes
  pub host_marker : Bool
  pub host : Bytes
  pub port : Bytes
  pub path : Bytes
  pub query : Bytes
  pub fragments : Bytes

abbrev pub no_parts : Parts
no_parts = record {
  scheme = [];
  user_info = [];
  host_marker = false;
  host = [];
  port = [];
  path = [];
  query = [];
  fragments = [];
}

-- `std::find`: the position of the character, or the end.
unfoldable pub find : ℕ → Bytes → ℕ
find c [] = 0
find c (x ∷ xs) = let rest = suc (find c xs) in if x == c then 0 else rest

-- The text between two positions.
abbrev pub between : ℕ → ℕ → Bytes → Bytes
between a b text = drop a (take b text)

-- The query only counts in front of the fragment.
unfoldable pub query_begin : Bytes → ℕ
query_begin rest =
    let end = length rest in
    let query = find b'?' rest in
    let fragment = find b'#' rest in
    if not (fragment == end) && not (query == end) && ltb fragment query then end else query

unfoldable pub authority_end : Bytes → ℕ
authority_end rest =
    let end = length rest in
    let query = query_begin rest in
    let fragment = find b'#' rest in
    let slash = find b'/' rest in
    if slash == end
    then (if not (query == end) then query else fragment)
    else let first = if not (query == end) && ltb query slash then query else slash in
      if not (fragment == end) && ltb fragment first then fragment else first

-- The user, the host and the port of the authority.
unfoldable pub split_authority : Bytes → Parts → Parts
split_authority authority p =
    let at = find b'@' authority in
    let marked = not (at == length authority) in
    let server = if marked then drop (suc at) authority else authority in
    let colon = find b':' server in
    record p {
      user_info = if marked then take at authority else [];
      host_marker = marked;
      host = take colon server;
      port = if colon == length server then [] else drop (suc colon) server;
    }

-- What follows the authority, at the position at which that ends.
unfoldable pub split_rest : Bytes → ℕ → Parts → Parts
split_rest rest start p =
    let end = length rest in
    let query = query_begin rest in
    let fragment = find b'#' rest in
    record p {
      path = between start (if not (query == end) then query else fragment) rest;
      query =
          if not (query == end)
          then between (suc query) (if not (fragment == end) then fragment else end) rest
          else [];
      fragments = if not (fragment == end) then drop (suc fragment) rest else [];
    }

unfoldable pub split_remote : Bytes → Parts → Parts
split_remote rest p =
    let stop = authority_end rest in
    let named = split_authority (take stop rest) p in
    if stop == length rest then named else split_rest rest stop named

abbrev pub scheme_mark : Bytes
scheme_mark = codes "://"

unfoldable pub split : Bytes → Parts
split url = elim (find_text scheme_mark url) [
  | none ↦ record no_parts { path = url }
  | some pos ↦
      let named = record no_parts { scheme = take pos url } in
      let rest = drop (pos + 3) url in
      if bytes_eq named.scheme (codes "file")
      then record named { path = rest }
      else split_remote rest named
]

abbrev pub is_empty : Bytes → Bool
is_empty [] = true
is_empty (c ∷ cs) = false

abbrev pub sub_delims : Bytes
sub_delims = codes "!$&'()*+,;=:"

abbrev pub path_chars : Bytes
path_chars = codes "!$&'()*+,;=:@"

abbrev pub query_chars : Bytes
query_chars = codes "!$&'()*+,;=:@?"

-- `encode` on the parts.
unfoldable pub encode_parts : Parts → Bytes
encode_parts p =
    if bytes_eq p.scheme (codes "file") || is_empty p.scheme
    then (if is_empty p.scheme then [] else codes "file://") ++ encode_segment [] p.path
    else encode_segment (codes "+") p.scheme
      ++ scheme_mark
      ++ (if is_empty p.user_info then [] else encode_segment sub_delims p.user_info)
      ++ (if p.host_marker then b'@' ∷ [] else [])
      ++ encode_segment (codes "[]") p.host
      ++ (if is_empty p.port then [] else b':' ∷ p.port)
      ++ encode_segment path_chars p.path
      ++ (if is_empty p.query then [] else b'?' ∷ encode_segment query_chars p.query)
      ++ (if is_empty p.fragments then [] else b'#' ∷ encode_segment query_chars p.query)

unfoldable pub encode : Bytes → Bytes
encode str = encode_parts (split str)

-- `none` is the exception `UnhandledScheme`.
unfoldable pub strip_scheme : Bytes → Option Bytes
unfolding find_text
strip_scheme mrl = Option.map (λ pos. drop (pos + 3) mrl) (find_text scheme_mark mrl)

unfoldable pub scheme_of : Bytes → Option Bytes
unfolding find_text
scheme_of mrl = Option.map (λ pos. take (pos + 3) mrl) (find_text scheme_mark mrl)

abbrev pub file_scheme : Bytes
file_scheme = codes "file://"

unfoldable pub to_local_path : Bytes → Option Bytes
to_local_path mrl = if bytes_eq (take 7 mrl) file_scheme then decode (drop 7 mrl) else none

unfoldable pub scheme_is : Bytes → Bytes → Bool
unfolding bytes_eq
scheme_is scheme mrl = bytes_eq (take (length scheme) mrl) scheme

unfoldable pub path_of : Bytes → Option Bytes
unfolding strip_scheme
path_of mrl = Option.map (λ rest. remove_path rest (first_folder rest)) (strip_scheme mrl)

-- `utils::file::toMrl`.
unfoldable pub to_mrl : Bytes → Bytes
to_mrl path = file_scheme ++ encode path
