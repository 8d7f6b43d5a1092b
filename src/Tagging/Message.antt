-- ===== src/Tagging/Message.antt =====
-- The marshalling calls of event_tagging.c: a tag, the length of the data, and the data.
-- `pinteger`, `ptag` and the like are results here. mm_malloc in evtag_unmarshal_string succeeds or
-- not by the argument `malloc_ok`.
pub mod RoundTrip
use test_codes.Prelude.{
  ℕ, ◌+◌, ◌-◌, ◌%◌, ◌^◌, Bool, true, false, List, [], ◌++◌, ltb, leb, ◌==◌, if◌then◌else◌, length,
  take, drop,
}
use test_codes.Tagging.{
  Buffer, Outcome, M, done, failed, fault, and_then, ◌>>=◌, ◌>>◌, pure, guard, has_length,
  evbuffer_drain, encode_int_internal, encode_int64_internal, evtag_encode_int, evtag_encode_tag,
  decode_tag_internal, decode_int_internal, decode_int64_internal,
}

-- A length becomes an `int`. -1 is the failure that every caller tests for; the model stops at any
-- other negative number.
pub to_int : ℕ → M ℕ
to_int len b =
    if ltb len (2 ^ 31) then (done len, b) else (if len == 2 ^ 32 - 1 then failed else fault, b)

pub evtag_decode_int : M ℕ
evtag_decode_int = do (res, number) ← decode_int_internal 0; evbuffer_drain res; pure number

pub evtag_decode_int64 : M ℕ
evtag_decode_int64 = do (res, number) ← decode_int64_internal 0; evbuffer_drain res; pure number

-- `len` bytes of the array `bytes`.
pub evtag_marshal : Buffer → ℕ → List ℕ → ℕ → Buffer
evtag_marshal b tag bytes len = evtag_encode_int (evtag_encode_tag b tag) len ++ take len bytes

-- Gives the buffer, and what is left of the source buffer: evbuffer_add_buffer moves all of it.
pub evtag_marshal_buffer : Buffer → ℕ → Buffer → Buffer × Buffer
evtag_marshal_buffer b tag source =
    (evtag_encode_int (evtag_encode_tag b tag) (length source % 2 ^ 32) ++ source, [])

pub evtag_marshal_int : Buffer → ℕ → ℕ → Buffer
evtag_marshal_int b tag integer =
    let bytes = encode_int_internal integer in
    evtag_encode_int (evtag_encode_tag b tag) (length bytes) ++ bytes

pub evtag_marshal_int64 : Buffer → ℕ → ℕ → Buffer
evtag_marshal_int64 b tag integer =
    let bytes = encode_int64_internal integer in
    evtag_encode_int (evtag_encode_tag b tag) (length bytes) ++ bytes

-- The string is the list of its bytes before the terminating 0.
pub evtag_marshal_string : Buffer → ℕ → List ℕ → Buffer
unfolding evtag_marshal
evtag_marshal_string b tag string = evtag_marshal b tag string (length string % 2 ^ 32)

-- `tv_sec` and `tv_usec` become 32-bit numbers.
pub evtag_marshal_timeval : Buffer → ℕ → ℕ → ℕ → Buffer
unfolding evtag_marshal
evtag_marshal_timeval b tag sec usec =
    let bytes = encode_int_internal (sec % 2 ^ 32) ++ encode_int_internal (usec % 2 ^ 32) in
    evtag_marshal b tag bytes (length bytes)

-- The length of the whole message: `*plength += res + len`, a 32-bit sum.
pub evtag_peek_length : M ℕ
evtag_peek_length = do
  (len, tag) ← decode_tag_internal false
  (res, number) ← decode_int_internal len
  pure ((number + (res + len)) % 2 ^ 32)

pub evtag_payload_length : M ℕ
evtag_payload_length = do
  (len, tag) ← decode_tag_internal false
  (res, number) ← decode_int_internal len
  pure number

-- Gives the tag and the length.
pub evtag_unmarshal_header : M (ℕ × ℕ)
unfolding evtag_decode_int to_int
evtag_unmarshal_header = do
  (count, tag) ← decode_tag_internal true
  len ← evtag_decode_int
  has_length len
  n ← to_int len
  pure (tag, n)

pub evtag_consume : M (Unit {0})
unfolding evtag_unmarshal_header
evtag_consume = do (tag, len) ← evtag_unmarshal_header; evbuffer_drain len

-- evbuffer_remove: the first `len` bytes, which it drains.
pub evbuffer_remove : ℕ → M (List ℕ)
evbuffer_remove len b = (done (take len b), drop len b)

-- Gives the tag and the bytes that it adds to `dst`, where evbuffer_add succeeds if `add_ok`.
pub evtag_unmarshal : Bool → M (ℕ × List ℕ)
unfolding evtag_unmarshal_header evbuffer_remove
evtag_unmarshal add_ok = do
  (tag, len) ← evtag_unmarshal_header
  guard add_ok
  bytes ← evbuffer_remove len
  pure (tag, bytes)

-- The end of evtag_unmarshal_int, with the encoded length and the number: `len` bytes are drained, whether the number was read or not.
pub finish_int : ℕ → Outcome (ℕ × ℕ) → M (ℕ × ℕ)
finish_int len (done (result, number)) b =
    (if ltb len result then failed else done (result, number), drop len b)
finish_int len failed b = (failed, drop len b)
finish_int len fault b = (fault, b)

-- The tag and the length before an integer, with the tests on both.
pub unmarshal_int_header : ℕ → M ℕ
unfolding evtag_decode_int
unmarshal_int_header need_tag = do
  (count, tag) ← decode_tag_internal true
  guard (need_tag == tag)
  len ← evtag_decode_int
  has_length len
  pure len

pub evtag_unmarshal_int : ℕ → M (ℕ × ℕ)
unfolding unmarshal_int_header finish_int
evtag_unmarshal_int need_tag = do
  len ← unmarshal_int_header need_tag
  λ b. finish_int len (decode_int_internal 0 b).0 b

pub evtag_unmarshal_int64 : ℕ → M (ℕ × ℕ)
unfolding unmarshal_int_header finish_int
evtag_unmarshal_int64 need_tag = do
  len ← unmarshal_int_header need_tag
  λ b. finish_int len (decode_int64_internal 0 b).0 b

pub evtag_unmarshal_fixed : ℕ → ℕ → M (List ℕ)
unfolding evtag_unmarshal_header evbuffer_remove
evtag_unmarshal_fixed need_tag len = do
  (tag, tag_len) ← evtag_unmarshal_header
  guard (tag == need_tag)
  guard (tag_len == len)
  evbuffer_remove len

pub evtag_unmarshal_string : Bool → ℕ → M (List ℕ)
unfolding evtag_unmarshal_header evbuffer_remove
evtag_unmarshal_string malloc_ok need_tag = do
  (tag, tag_len) ← evtag_unmarshal_header
  guard (tag == need_tag)
  guard malloc_ok
  evbuffer_remove tag_len

-- From the test of the tag to `done:`.
pub timeval_body : ℕ → ℕ → ℕ → M (ℕ × ℕ)
timeval_body need_tag tag len = do
  guard (tag == need_tag)
  (offset, sec) ← decode_int_internal 0
  (offset2, usec) ← decode_int_internal offset
  guard (leb (offset + offset2) len)
  pure (sec, usec)

-- `done: evbuffer_drain(evbuf, len)` on every way out.
pub drain_after : ℕ → Outcome (ℕ × ℕ) → M (ℕ × ℕ)
drain_after len fault b = (fault, b)
drain_after len (done tv) b = (done tv, drop len b)
drain_after len failed b = (failed, drop len b)

pub evtag_unmarshal_timeval : ℕ → M (ℕ × ℕ)
evtag_unmarshal_timeval need_tag = do
  (tag, len) ← evtag_unmarshal_header
  λ b. drain_after len (timeval_body need_tag tag len b).0 b
