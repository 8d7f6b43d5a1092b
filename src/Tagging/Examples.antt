-- ===== src/Tagging/Examples.antt =====
-- The theorems on event_tagging.c at concrete inputs, and runs.
use test_codes.Prelude.{
  ℕ, ◌≤◌, ◌<◌, ◌≡◌, ◌↔◌, refl, true, false, List, [], ◌∷◌, ◌++◌, length, take, arith,
}
use test_codes.Tagging.{
  done, failed, fault, set_low, set_high, put_nibble, encode_loop, encode_finish, encode_int,
  encode_int_internal, encode_int64_internal, encode_tag_loop, evtag_encode_tag,
  decode_tag_internal, decode_int_internal, decode_int64_internal,
}
use test_codes.Tagging.Nibbles.{
  decode_int_internal-encode_int_internal, decode_int64_internal-encode_int64_internal,
}
use test_codes.Tagging.Tag.{AllHigh, decode_tag_internal-evtag_encode_tag, decode_tag_internal_ends}
use test_codes.Tagging.Message.{
  evtag_marshal, evtag_marshal_int, evtag_marshal_int64, evtag_marshal_timeval, evtag_unmarshal,
  evtag_consume, evtag_unmarshal_int, evtag_unmarshal_int64, evtag_unmarshal_timeval,
}
use test_codes.Tagging.Message.RoundTrip.{evtag_unmarshal-evtag_marshal, evtag_unmarshal_numbers}

encode_0xaf0 : encode_int_internal 0xaf0 ≡ 0x20 ∷ 0xfa ∷ []
unfolding encode_int_internal encode_int encode_finish encode_loop put_nibble set_low set_high
encode_0xaf0 = refl

-- The comment in the source gives [82 66] for this tag.
encode_tag_0x166 : evtag_encode_tag [] 0x166 ≡ 0xe6 ∷ 0x02 ∷ []
unfolding evtag_encode_tag encode_tag_loop
encode_tag_0x166 = refl

decode_int_internal-encode_int_internal_example :
    decode_int_internal 1 (7 ∷ (encode_int_internal 0xaf0 ++ (9 ∷ []))) ≡ (
      done (length (encode_int_internal 0xaf0), 0xaf0),
      7 ∷ (encode_int_internal 0xaf0 ++ (9 ∷ [])),
    )
decode_int_internal-encode_int_internal_example =
    decode_int_internal-encode_int_internal 0xaf0 (7 ∷ []) (9 ∷ []) (omega arith)

decode_int64_internal-encode_int64_internal_example :
    decode_int64_internal 1 (7 ∷ (encode_int64_internal 0xaf0 ++ (9 ∷ []))) ≡ (
      done (length (encode_int64_internal 0xaf0), 0xaf0),
      7 ∷ (encode_int64_internal 0xaf0 ++ (9 ∷ [])),
    )
decode_int64_internal-encode_int64_internal_example =
    decode_int64_internal-encode_int64_internal 0xaf0 (7 ∷ []) (9 ∷ []) (omega arith)

decode_tag_internal-evtag_encode_tag_example :
    (decode_tag_internal true (evtag_encode_tag [] 0x166 ++ (5 ∷ []))
      ≡ (done (length (evtag_encode_tag [] 0x166), 0x166), 5 ∷ []))
    × (decode_tag_internal false (evtag_encode_tag [] 0x166 ++ (5 ∷ []))
        ≡ (done (length (evtag_encode_tag [] 0x166), 0x166), evtag_encode_tag [] 0x166 ++ (5 ∷ [])))
decode_tag_internal-evtag_encode_tag_example =
    decode_tag_internal-evtag_encode_tag 0x166 (5 ∷ []) (omega arith)

abbrev long_tag : List ℕ
long_tag = 128 ∷ 129 ∷ 130 ∷ 131 ∷ 132 ∷ 1 ∷ []

decode_tag_internal_ends_example :
    ((decode_tag_internal true long_tag ≡ (fault, long_tag))
      ↔ ((5 < length long_tag) × AllHigh (take 5 long_tag)))
    × ((decode_tag_internal true long_tag ≡ (failed, long_tag))
        ↔ ((length long_tag ≤ 5) × AllHigh long_tag))
decode_tag_internal_ends_example = decode_tag_internal_ends true long_tag

evtag_unmarshal-evtag_marshal_example :
    (evtag_unmarshal true (evtag_marshal [] 4 (1 ∷ 2 ∷ 3 ∷ []) 2 ++ (9 ∷ []))
      ≡ (done (4, 1 ∷ 2 ∷ []), 9 ∷ []))
    × (evtag_consume (evtag_marshal [] 4 (1 ∷ 2 ∷ 3 ∷ []) 2 ++ (9 ∷ [])) ≡ (done tt, 9 ∷ []))
evtag_unmarshal-evtag_marshal_example =
    evtag_unmarshal-evtag_marshal 4 2 (1 ∷ 2 ∷ 3 ∷ []) (9 ∷ []) (omega arith) (omega arith)
      (omega arith)

evtag_unmarshal_numbers_example :
    (evtag_unmarshal_int 4 (evtag_marshal_int [] 4 77 ++ (9 ∷ []))
      ≡ (done (length (encode_int_internal 77), 77), 9 ∷ []))
    × (evtag_unmarshal_int64 4 (evtag_marshal_int64 [] 4 78 ++ (9 ∷ []))
        ≡ (done (length (encode_int64_internal 78), 78), 9 ∷ []))
    × (evtag_unmarshal_timeval 4 (evtag_marshal_timeval [] 4 1000 79 ++ (9 ∷ []))
        ≡ (done (1000, 79), 9 ∷ []))
evtag_unmarshal_numbers_example =
    evtag_unmarshal_numbers 4 77 78 1000 79 (9 ∷ []) (omega arith) (omega arith) (omega arith)
      (omega arith) (omega arith)
