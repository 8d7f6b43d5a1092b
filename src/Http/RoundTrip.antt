-- ===== src/Http/RoundTrip.antt =====
-- What evhttp_uriencode has written is read back.
use test_codes.Prelude.Memory.{c_string}
use test_codes.Prelude.{
  ℕ, ◌+◌, ◌*◌, ◌/◌, ◌%◌, ◌<◌, ◌≡◌, refl, ap, ◌∙◌, inl, inr, Bool, true, false, ◌&&◌, List, [], ◌∷◌,
  ◌++◌, Option, none, some, ◌==◌, if◌then◌else◌, Bool-cases, if_intro, arith, ◌>>=◌,
}
use test_codes.Http.{
  char_is_unreserved, hex_digit, encode_char, encode_loop, evhttp_uriencode, evhttp_encode_uri,
  is_xdigit, digit_value, escaped, DecodePlus, never, always, after_query, decode_char, decode_loop,
  evhttp_decode_uri_internal, evhttp_uridecode, evhttp_decode_uri,
}

unfoldable pub AllBytes : List ℕ → Type 0
AllBytes [] = Unit
AllBytes (c ∷ cs) = (c < 256) × AllBytes cs

digit_lem : (n : ℕ) → n < 16 → (is_xdigit (hex_digit n) ≡ true) × (digit_value (hex_digit n) ≡ n)
unfolding is_xdigit
digit_lem n h = (ground arith, ground arith)

escaped_lem :
    (c : ℕ) (rest : List ℕ)
    → c < 256
    → escaped (hex_digit (c / 16 % 16) ∷ hex_digit (c % 16) ∷ rest) ≡ some c
unfolding escaped
escaped_lem c rest h =
    let (a, x) = digit_lem (c / 16 % 16) (omega arith) in
    let (b, y) = digit_lem (c % 16) (omega arith) in
    let whole : c / 16 % 16 * 16 + c % 16 ≡ c = omega arith in rw (a, b, x, y, whole) refl

decode_char-unreserved :
    (ctl : DecodePlus) (plus : Bool) (c : ℕ) (o : Option ℕ)
    → char_is_unreserved c ≡ true
    → decode_char ctl plus c o ≡ (c, plus, 0)
unfolding decode_char char_is_unreserved
decode_char-unreserved ctl plus c o h =
    let query : c == b'?' ≡ false = ground (arith, h) in
    let sum : c == b'+' ≡ false = ground (arith, h) in
    let percent : c == b'%' ≡ false = ground (arith, h) in go o query sum percent
  where
    go :
        (o : Option ℕ)
        → c == b'?' ≡ false
        → c == b'+' ≡ false
        → c == b'%' ≡ false
        → decode_char ctl plus c o ≡ (c, plus, 0)
    go none q s p = rw (q, s) refl
    go (some d) q s p = rw (q, s, p) refl

decode_char-plus : (ctl : DecodePlus) (o : Option ℕ) → decode_char ctl true b'+' o ≡ (b' ', true, 0)
unfolding decode_char
decode_char-plus ctl none = refl
decode_char-plus ctl (some d) = refl

decode_loop-decode_char :
    (ctl : DecodePlus) (plus plus' : Bool) (c d skip : ℕ) (uri : List ℕ)
    → decode_char ctl plus c (escaped uri) ≡ (d, plus', skip)
    → decode_loop ctl plus 0 (c ∷ uri) ≡ d ∷ decode_loop ctl plus' skip uri
unfolding decode_loop
decode_loop-decode_char ctl plus plus' c d skip uri h =
    ap (λ (r : ℕ × Bool × ℕ). r.0 ∷ decode_loop ctl r.1 r.2 uri) h

decode_char-percent :
    (ctl : DecodePlus) (plus : Bool) (d : ℕ) → decode_char ctl plus b'%' (some d) ≡ (d, plus, 2)
unfolding decode_char
decode_char-percent ctl plus d = refl

-- One character, and what follows it.
decode_loop-encode_char :
    (ctl : DecodePlus) (space_as_plus plus : Bool) (c : ℕ) (rest : List ℕ)
    → c < 256
    → (space_as_plus ≡ true → plus ≡ true)
    → decode_loop ctl plus 0 (encode_char space_as_plus c ++ rest) ≡ c ∷ decode_loop ctl plus 0 rest
unfolding encode_char
decode_loop-encode_char ctl space_as_plus plus c rest h k =
    elim (Bool-cases (char_is_unreserved c)) [
      | inl plain ↦ rw plain (
          decode_loop-decode_char ctl plus plus c c 0 rest
            (decode_char-unreserved ctl plus c (escaped rest) plain))
      | inr reserved ↦ elim (Bool-cases (c == b' ' && space_as_plus)) [
        | inl space ↦
            let on : plus ≡ true = k (ground arith) in
            let blank : c ≡ b' ' = ground arith in
            rw (reserved, space, on, blank)
              (decode_loop-decode_char ctl true true b'+' b' ' 0 rest
                (decode_char-plus ctl (escaped rest)))
        | inr other ↦
            let digits = hex_digit (c / 16 % 16) ∷ hex_digit (c % 16) ∷ rest in
            rw (reserved, other)
              (decode_loop-decode_char ctl plus plus b'%' c 2 digits (
                  ap (decode_char ctl plus b'%') (escaped_lem c rest h)
                  ∙ decode_char-percent ctl plus c)
                ∙ unfold decode_loop in refl)
      ]
    ]

decode_loop-encode_loop :
    (ctl : DecodePlus) (space_as_plus plus : Bool) (uri : List ℕ)
    → AllBytes uri
    → (space_as_plus ≡ true → plus ≡ true)
    → decode_loop ctl plus 0 (encode_loop space_as_plus uri) ≡ uri
unfolding encode_loop AllBytes decode_loop
decode_loop-encode_loop ctl space_as_plus plus [] h k = refl
decode_loop-encode_loop ctl space_as_plus plus (c ∷ uri) h k =
    decode_loop-encode_char ctl space_as_plus plus c (encode_loop space_as_plus uri) h.0 k
    ∙ ap (◌∷◌ c) (decode_loop-encode_loop ctl space_as_plus plus uri h.1 k)

internal-encode_loop :
    (space_as_plus decode_plus : Bool) (uri : List ℕ)
    → AllBytes uri
    → (space_as_plus ≡ true → decode_plus ≡ true)
    → evhttp_decode_uri_internal
        (encode_loop space_as_plus uri)
        (if decode_plus then always else never)
      ≡ uri
unfolding evhttp_decode_uri_internal
internal-encode_loop space_as_plus true uri h k =
    decode_loop-encode_loop always space_as_plus true uri h k
internal-encode_loop space_as_plus false uri h k =
    decode_loop-encode_loop never space_as_plus false uri h k

c_string-AllBytes : (uri : List ℕ) → AllBytes uri → AllBytes (c_string uri)
unfolding AllBytes c_string
c_string-AllBytes [] h = tt
c_string-AllBytes (x ∷ xs) (small, h) =
    if_intro AllBytes (x == 0) (λ zero. tt) (λ other. (small, c_string-AllBytes xs h))

-- What evhttp_uriencode makes of any bytes comes back from evhttp_uridecode, if that is to decode '+' at least where
-- the first was to write it for a blank; and what evhttp_encode_uri makes of them comes back, as far as the first zero byte, from
-- evhttp_decode_uri, which decodes '+' only behind a '?'. All have memory.
pub evhttp_uridecode-evhttp_uriencode :
    (space_as_plus decode_plus : Bool) (uri : List ℕ)
    → AllBytes uri
    → (space_as_plus ≡ true → decode_plus ≡ true)
    → ((evhttp_uriencode true uri space_as_plus >>= λ s. evhttp_uridecode true s decode_plus)
        ≡ some uri)
      × ((evhttp_encode_uri true uri >>= λ s. evhttp_decode_uri true s) ≡ some (c_string uri))
unfolding evhttp_uriencode evhttp_uridecode evhttp_decode_uri evhttp_decode_uri_internal
evhttp_uridecode-evhttp_uriencode space_as_plus decode_plus uri h k = (
  ap some (internal-encode_loop space_as_plus decode_plus uri h k),
  ap some (
      decode_loop-encode_loop after_query false false (c_string uri) (c_string-AllBytes uri h)
        (λ e. cc)),
)
