-- ===== src/Http/Examples.antt =====
-- The theorems on http.c at concrete inputs.
use test_codes.Prelude.Memory.{c_string}
use test_codes.Prelude.{ℕ, ◌≡◌, refl, true, List, [], ◌∷◌, some, ◌>>=◌, arith}
use test_codes.Http.{
  evhttp_uriencode, evhttp_encode_uri, evhttp_uridecode, evhttp_decode_uri, encode_loop,
}
use test_codes.Http.RoundTrip.{AllBytes, evhttp_uridecode-evhttp_uriencode}

-- "a +" and a byte that is no ASCII character
abbrev text : List ℕ
text = b'a' ∷ b' ' ∷ b'+' ∷ 200 ∷ []

text-AllBytes : AllBytes text
unfolding AllBytes
text-AllBytes = (omega arith, (omega arith, (omega arith, (omega arith, tt))))

encoded_text : encode_loop true text ≡ b'a' ∷ b'+' ∷ b'%' ∷ b'2' ∷ b'B' ∷ b'%' ∷ b'C' ∷ b'8' ∷ []
unfolding encode_loop
encoded_text = refl

evhttp_uridecode-evhttp_uriencode_example :
    ((evhttp_uriencode true text true >>= λ s. evhttp_uridecode true s true) ≡ some text)
    × ((evhttp_encode_uri true text >>= λ s. evhttp_decode_uri true s) ≡ some (c_string text))
evhttp_uridecode-evhttp_uriencode_example =
    evhttp_uridecode-evhttp_uriencode true true text text-AllBytes (λ e. refl)
