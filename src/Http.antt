-- ===== src/Http.antt =====
-- The characters of a URI in codes/libevent-2.0.21-stable/http.c: evhttp_uriencode and evhttp_uridecode.
-- A string is the list of its bytes, without the zero at its end.
pub mod RoundTrip
mod Examples
use test_codes.Prelude.Memory.{c_string}
use test_codes.Prelude.{
  ℕ, zero, suc, ◌+◌, ◌-◌, ◌*◌, ◌/◌, ◌%◌, Bool, true, false, ◌&&◌, ◌||◌, List, [], ◌∷◌, ◌++◌, Option,
  none, some, ltb, leb, ◌==◌, if◌then◌else◌,
}

abbrev between : ℕ → ℕ → ℕ → Bool
between low high c = leb low c && leb c high

-- CHAR_IS_UNRESERVED, by the table uri_chars.
pub char_is_unreserved : ℕ → Bool
char_is_unreserved c =
    c == b'-'
    || c == b'.'
    || between b'0' b'9' c
    || between b'A' b'Z' c
    || c == b'_'
    || between b'a' b'z' c
    || c == b'~'

-- A digit of "%02X".
abbrev pub hex_digit : ℕ → ℕ
hex_digit n = if ltb n 10 then b'0' + n else b'A' + (n - 10)

-- What evhttp_uriencode adds to its buffer for a character.
pub encode_char : Bool → ℕ → List ℕ
unfolding char_is_unreserved
encode_char space_as_plus c =
    if char_is_unreserved c
    then c ∷ []
    else if c == b' ' && space_as_plus
    then b'+' ∷ []
    else b'%' ∷ hex_digit (c / 16 % 16) ∷ hex_digit (c % 16) ∷ []

pub encode_loop : Bool → List ℕ → List ℕ
unfolding encode_char
encode_loop space_as_plus [] = []
encode_loop space_as_plus (c ∷ uri) = encode_char space_as_plus c ++ encode_loop space_as_plus uri

-- evhttp_uriencode of the characters up to `end`, with whether memory is left.
pub evhttp_uriencode : Bool → List ℕ → Bool → Option (List ℕ)
unfolding encode_loop
evhttp_uriencode memory uri space_as_plus =
    if memory then some (encode_loop space_as_plus uri) else none

abbrev pub evhttp_encode_uri : Bool → List ℕ → Option (List ℕ)
evhttp_encode_uri memory str = evhttp_uriencode memory (c_string str) false

-- EVUTIL_ISXDIGIT
pub is_xdigit : ℕ → Bool
is_xdigit c = between b'0' b'9' c || between b'A' b'F' c || between b'a' b'f' c

-- The value of a digit in `strtol(tmp, NULL, 16)`.
abbrev pub digit_value : ℕ → ℕ
digit_value c = if leb b'a' c then c - b'a' + 10 else if leb b'A' c then c - b'A' + 10 else c - b'0'

-- The character that the two behind a '%' stand for; behind the last one is the zero, which is no digit.
pub escaped : List ℕ → Option ℕ
unfolding is_xdigit
escaped [] = none
escaped (a ∷ []) = none
escaped (a ∷ b ∷ uri) =
    if is_xdigit a && is_xdigit b then some (digit_value a * 16 + digit_value b) else none

-- `decode_plus_ctl`: 0, 1 and -1.
pub data DecodePlus : Type 0 where
  never always after_query : DecodePlus

abbrev pub is_always : DecodePlus → Bool
is_always never = false
is_always always = true
is_always after_query = false

abbrev pub plus_after : DecodePlus → Bool → Bool
plus_after never plus = plus
plus_after always plus = plus
plus_after after_query plus = true

-- A round of evhttp_decode_uri_internal at a character, where `behind` is what stands behind it: the character to
-- write, `decode_plus`, and how many characters the round skips.
pub decode_char : DecodePlus → Bool → ℕ → Option ℕ → ℕ × Bool × ℕ
decode_char ctl plus c none =
    if c == b'?'
    then (c, plus_after ctl plus, 0)
    else if c == b'+' && plus
    then (b' ', plus, 0)
    else (c, plus, 0)
decode_char ctl plus c (some d) =
    if c == b'?'
    then (c, plus_after ctl plus, 0)
    else if c == b'+' && plus
    then (b' ', plus, 0)
    else if c == b'%'
    then (d, plus, 2)
    else (c, plus, 0)

pub decode_loop : DecodePlus → Bool → ℕ → List ℕ → List ℕ
unfolding decode_char escaped
decode_loop ctl plus skip [] = []
decode_loop ctl plus (suc skip) (c ∷ uri) = decode_loop ctl plus skip uri
decode_loop ctl plus zero (c ∷ uri) =
    let (d, plus', skip) = decode_char ctl plus c (escaped uri) in
    d ∷ decode_loop ctl plus' skip uri

-- The characters that evhttp_decode_uri_internal writes to `ret`.
pub evhttp_decode_uri_internal : List ℕ → DecodePlus → List ℕ
unfolding decode_loop
evhttp_decode_uri_internal uri ctl = decode_loop ctl (is_always ctl) 0 uri

-- evhttp_uridecode, with whether memory is left: the characters that the caller finds in the result, by its size.
pub evhttp_uridecode : Bool → List ℕ → Bool → Option (List ℕ)
unfolding evhttp_decode_uri_internal
evhttp_uridecode memory uri decode_plus =
    if memory
    then some (evhttp_decode_uri_internal uri (if decode_plus then always else never))
    else none

-- evhttp_decode_uri
pub evhttp_decode_uri : Bool → List ℕ → Option (List ℕ)
unfolding evhttp_decode_uri_internal
evhttp_decode_uri memory uri =
    if memory then some (evhttp_decode_uri_internal uri after_query) else none
