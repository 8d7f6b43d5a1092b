-- ===== src/Tagging/Message/RoundTrip.antt =====
-- Messages of event_tagging.c: what the evtag_unmarshal calls make of what the evtag_marshal calls
-- wrote.
use test_codes.Prelude.{
  ℕ, zero, suc, ◌+◌, ◌%◌, ◌^◌, ◌≤◌, ◌<◌, ◌≡◌, ◌≢◌, refl, ap, true, false, List, [], ◌∷◌, ◌++◌, ltb,
  leb, ◌==◌, length, take, drop, append_assoc, length-append, length-take, arith,
}
use native.Mathlib.Nat.{mod-eq_of_lt}
use test_codes.Tagging.{
  Buffer, done, failed, IsU32, has_length, evbuffer_drain, encode_int_internal,
  encode_int64_internal, evtag_encode_int, evtag_encode_tag, decode_tag_internal,
}
use test_codes.Tagging.Nibbles.{
  decode_int_internal-encode_int_internal, decode_int64_internal-encode_int64_internal,
  length-encode_int_internal, length-encode_int64_internal,
}
use test_codes.Tagging.Tag.{decode_tag_internal-evtag_encode_tag}
use test_codes.Tagging.Message.{
  evtag_decode_int, evtag_marshal, evtag_marshal_int, evtag_marshal_int64, evtag_marshal_timeval,
  evtag_unmarshal_header, evtag_consume, evtag_unmarshal, finish_int, unmarshal_int_header,
  evtag_unmarshal_int, evtag_unmarshal_int64, timeval_body, drain_after, evtag_unmarshal_timeval,
}

drop-append : (xs ys : List ℕ) → drop (length xs) (xs ++ ys) ≡ ys
drop-append [] ys = refl
drop-append (x ∷ xs) ys = drop-append xs ys

take-append : (xs ys : List ℕ) → take (length xs) (xs ++ ys) ≡ xs
take-append [] ys = refl
take-append (x ∷ xs) ys = ap (◌∷◌ x) (take-append xs ys)

take_whole : (xs : List ℕ) → take (length xs) xs ≡ xs
take_whole [] = refl
take_whole (x ∷ xs) = ap (◌∷◌ x) (take_whole xs)

read_tag :
    (t : ℕ) (rest : List ℕ)
    → IsU32 t
    → decode_tag_internal true (evtag_encode_tag [] t ++ rest)
      ≡ (done (length (evtag_encode_tag [] t), t), rest)
read_tag t rest h = (decode_tag_internal-evtag_encode_tag t rest h).0

read_int :
    (n : ℕ) (rest : List ℕ)
    → IsU32 n
    → evtag_decode_int (encode_int_internal n ++ rest) ≡ (done n, rest)
unfolding evtag_decode_int evbuffer_drain
read_int n rest h = rw (decode_int_internal-encode_int_internal n [] rest h, drop-append) refl

encode_tag_split : (b : Buffer) (t : ℕ) → evtag_encode_tag b t ≡ b ++ evtag_encode_tag [] t
unfolding evtag_encode_tag
encode_tag_split b t = refl

encode_int_split : (b : Buffer) (n : ℕ) → evtag_encode_int b n ≡ b ++ encode_int_internal n
unfolding evtag_encode_int
encode_int_split b n = refl

-- evtag_unmarshal_header reads back the tag and the length of a message of evtag_marshal, and
-- leaves the data and what follows, if the data is at hand and its length an `int`.
pub evtag_unmarshal_header-evtag_marshal :
    (tag len : ℕ) (bytes rest : List ℕ)
    → IsU32 tag
    → len < 2 ^ 31
    → len ≤ length bytes
    → evtag_unmarshal_header (evtag_marshal [] tag bytes len ++ rest)
      ≡ (done (tag, len), take len bytes ++ rest)
unfolding evtag_unmarshal_header evtag_marshal evtag_encode_int has_length
evtag_unmarshal_header-evtag_marshal tag len bytes rest ht hl hb =
    let enough : leb len (length (take len bytes ++ rest)) ≡ true =
      ground (arith, length-append (take len bytes) rest, length-take len bytes) in
    let is_int : ltb len (2 ^ 31) ≡ true = ground arith in
    rw (append_assoc, append_assoc, read_tag tag _ ht, read_int len _ (omega arith), enough, is_int)
      refl

drop-take_append : (n : ℕ) (xs rest : List ℕ) → n ≤ length xs → drop n (take n xs ++ rest) ≡ rest
drop-take_append zero xs rest h = refl
drop-take_append (suc n) [] rest h = absurd (omega arith)
drop-take_append (suc n) (x ∷ xs) rest h = drop-take_append n xs rest (omega arith)

take-take_append :
    (n : ℕ) (xs rest : List ℕ) → n ≤ length xs → take n (take n xs ++ rest) ≡ take n xs
take-take_append zero xs rest h = refl
take-take_append (suc n) [] rest h = absurd (omega arith)
take-take_append (suc n) (x ∷ xs) rest h = ap (◌∷◌ x) (take-take_append n xs rest (omega arith))

-- evtag_unmarshal gives the tag and the data that evtag_marshal was given, and evtag_consume skips
-- them; both drain exactly the message.
pub evtag_unmarshal-evtag_marshal :
    (tag len : ℕ) (bytes rest : List ℕ)
    → IsU32 tag
    → len < 2 ^ 31
    → len ≤ length bytes
    → (evtag_unmarshal true (evtag_marshal [] tag bytes len ++ rest)
        ≡ (done (tag, take len bytes), rest))
      × (evtag_consume (evtag_marshal [] tag bytes len ++ rest) ≡ (done tt, rest))
unfolding evtag_unmarshal evtag_consume evbuffer_drain
evtag_unmarshal-evtag_marshal tag len bytes rest ht hl hb =
    rw
      (
        evtag_unmarshal_header-evtag_marshal tag len bytes rest ht hl hb,
        drop-take_append len bytes rest hb,
        take-take_append len bytes rest hb,
      )
      (refl, refl)

read_int_header :
    (tag : ℕ) (bytes rest : List ℕ)
    → IsU32 tag
    → length bytes ≤ 9
    → unmarshal_int_header tag
        (evtag_encode_int (evtag_encode_tag [] tag) (length bytes) ++ bytes ++ rest)
      ≡ (done (length bytes), bytes ++ rest)
unfolding unmarshal_int_header has_length
read_int_header tag bytes rest ht hb =
    let enough : leb (length bytes) (length (bytes ++ rest)) ≡ true =
      ground (arith, length-append bytes rest) in
    let same : (tag == tag) ≡ true = ground arith in
    rw
      (
        append_assoc,
        encode_int_split (evtag_encode_tag [] tag) (length bytes),
        append_assoc,
        read_tag tag _ ht,
        same,
        read_int (length bytes) _ (omega arith),
        enough,
      )
      refl

finish_int_lem :
    (bytes rest : List ℕ) (n : ℕ)
    → finish_int (length bytes) (done (length bytes, n)) (bytes ++ rest)
      ≡ (done (length bytes, n), rest)
unfolding finish_int
finish_int_lem bytes rest n =
    let fits : ltb (length bytes) (length bytes) ≡ false = ground arith in
    rw (fits, drop-append) refl

evtag_unmarshal_int-evtag_marshal_int :
    (tag n : ℕ) (rest : List ℕ)
    → IsU32 tag
    → IsU32 n
    → evtag_unmarshal_int tag (evtag_marshal_int [] tag n ++ rest)
      ≡ (done (length (encode_int_internal n), n), rest)
unfolding evtag_unmarshal_int evtag_marshal_int
evtag_unmarshal_int-evtag_marshal_int tag n rest ht hn =
    let short : length (encode_int_internal n) ≤ 9 =
      omega (arith, length-encode_int_internal n hn) in
    rw
      (
        read_int_header tag (encode_int_internal n) rest ht short,
        decode_int_internal-encode_int_internal n [] rest hn,
      )
      (finish_int_lem (encode_int_internal n) rest n)

evtag_unmarshal_int64-evtag_marshal_int64 :
    (tag n : ℕ) (rest : List ℕ)
    → IsU32 tag
    → n < 2 ^ 64
    → evtag_unmarshal_int64 tag (evtag_marshal_int64 [] tag n ++ rest)
      ≡ (done (length (encode_int64_internal n), n), rest)
unfolding evtag_unmarshal_int64 evtag_marshal_int64
evtag_unmarshal_int64-evtag_marshal_int64 tag n rest ht hn =
    rw
      (
        read_int_header tag (encode_int64_internal n) rest ht (length-encode_int64_internal n hn).1,
        decode_int64_internal-encode_int64_internal n [] rest hn,
      )
      (finish_int_lem (encode_int64_internal n) rest n)

-- A message under another tag is refused: only its tag is drained.
pub evtag_unmarshal_int-other_tag :
    (tag need_tag n : ℕ) (rest : List ℕ)
    → IsU32 tag
    → need_tag ≢ tag
    → evtag_unmarshal_int need_tag (evtag_encode_tag [] tag ++ rest) ≡ (failed, rest)
unfolding evtag_unmarshal_int unmarshal_int_header
evtag_unmarshal_int-other_tag tag need_tag n rest ht ne =
    let other : (need_tag == tag) ≡ false = ground arith in rw (read_tag tag rest ht, other) refl

timeval_body_lem :
    (tag sec usec : ℕ) (rest : List ℕ)
    → IsU32 sec
    → IsU32 usec
    → let bytes = encode_int_internal sec ++ encode_int_internal usec in
      timeval_body tag tag (length bytes) (bytes ++ rest) ≡ (done (sec, usec), bytes ++ rest)
unfolding timeval_body
timeval_body_lem tag sec usec rest hs hu =
    let same : (tag == tag) ≡ true = ground arith in
    let a = encode_int_internal sec in
    let b = encode_int_internal usec in
    let fits : leb (length a + length b) (length (a ++ b)) ≡ true =
      ground (arith, length-append a b) in
    rw
      (
        same,
        append_assoc,
        decode_int_internal-encode_int_internal sec [] (b ++ rest) hs,
        decode_int_internal-encode_int_internal usec a rest hu,
        fits,
      )
      refl

evtag_unmarshal_timeval-evtag_marshal_timeval :
    (tag sec usec : ℕ) (rest : List ℕ)
    → IsU32 tag
    → IsU32 sec
    → IsU32 usec
    → evtag_unmarshal_timeval tag (evtag_marshal_timeval [] tag sec usec ++ rest)
      ≡ (done (sec, usec), rest)
unfolding evtag_unmarshal_timeval evtag_marshal_timeval drain_after
evtag_unmarshal_timeval-evtag_marshal_timeval tag sec usec rest ht hs hu =
    let bytes = encode_int_internal sec ++ encode_int_internal usec in
    let short : length bytes ≤ 10 = omega (
      arith,
      length-append (encode_int_internal sec) (encode_int_internal usec),
      length-encode_int_internal sec hs,
      length-encode_int_internal usec hu,
    ) in
    let header =
      evtag_unmarshal_header-evtag_marshal tag (length bytes) bytes rest ht (omega arith)
        (omega arith) in
    let whole : take (length bytes) bytes ≡ bytes = take_whole bytes in
    let s : sec % 2 ^ 32 ≡ sec = mod-eq_of_lt hs in
    let u : usec % 2 ^ 32 ≡ usec = mod-eq_of_lt hu in
    rw (s, u, header, whole, timeval_body_lem tag sec usec rest hs hu, drop-append) refl

-- What was marshalled under a tag comes back, and exactly the message is drained: a 32-bit integer by
-- evtag_unmarshal_int and a 64-bit integer by evtag_unmarshal_int64, each with its encoded length, and
-- seconds and microseconds, both 32-bit numbers, by evtag_unmarshal_timeval.
pub evtag_unmarshal_numbers :
    (tag n big sec usec : ℕ) (rest : List ℕ)
    → IsU32 tag
    → IsU32 n
    → big < 2 ^ 64
    → IsU32 sec
    → IsU32 usec
    → (evtag_unmarshal_int tag (evtag_marshal_int [] tag n ++ rest)
        ≡ (done (length (encode_int_internal n), n), rest))
      × (evtag_unmarshal_int64 tag (evtag_marshal_int64 [] tag big ++ rest)
          ≡ (done (length (encode_int64_internal big), big), rest))
      × (evtag_unmarshal_timeval tag (evtag_marshal_timeval [] tag sec usec ++ rest)
          ≡ (done (sec, usec), rest))
evtag_unmarshal_numbers tag n big sec usec rest ht hn hb hs hu = (
  evtag_unmarshal_int-evtag_marshal_int tag n rest ht hn,
  evtag_unmarshal_int64-evtag_marshal_int64 tag big rest ht hb,
  evtag_unmarshal_timeval-evtag_marshal_timeval tag sec usec rest ht hs hu,
)
