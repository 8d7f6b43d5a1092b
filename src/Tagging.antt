-- ===== src/Tagging.antt =====
-- The wire format of codes/libevent-2.0.21-stable/event_tagging.c.
-- An evbuffer is the list of its bytes, as its interface shows it: evbuffer_add appends,
-- evbuffer_drain drops, evbuffer_get_length is `length`, and evbuffer_pullup gives the first bytes.
-- A bit mask is written as arithmetic: `x & 0x0f` is `x % 16`, `x >> 4` is `x / 16`, and an `|` of
-- numbers with no bit in common is `+`.
pub mod Nibbles
pub mod Tag
pub mod Message
mod Examples
use test_codes.Prelude.{
  ℕ, zero, suc, ◌+◌, ◌-◌, ◌*◌, ◌/◌, ◌%◌, ◌^◌, ◌<◌, Bool, true, false, ◌||◌, List, [], ◌∷◌, ◌++◌,
  ltb, leb, ◌==◌, if◌then◌else◌, length, get_or, set, take, drop, replicate, min,
}

abbrev pub Buffer : Type 0
Buffer = List ℕ

abbrev pub IsU32 : ℕ → Type 0
IsU32 n = n < 2 ^ 32

-- How a call ends: with a value, with -1, or where the model stops: the code reads bytes that
-- evbuffer_pullup has not made contiguous, or returns a length that is negative as an `int`.
pub data Outcome {ℓ} (A : Type ℓ) : Type ℓ where
  done : A → Outcome A
  failed : Outcome A
  fault : Outcome A

-- A call that works on an evbuffer. What it drained stays drained when it fails.
abbrev pub M : Type 0 → Type 0
M A = Buffer → Outcome A × Buffer

abbrev pub and_then : {A B : Type 0} → Outcome A × Buffer → (A → M B) → Outcome B × Buffer
and_then (done a, b) f = f a b
and_then (failed, b) f = (failed, b)
and_then (fault, b) f = (fault, b)

infixl 5 ◌>>=◌ ◌>>◌
abbrev pub ◌>>=◌ : {A B : Type 0} → M A → (A → M B) → M B
◌>>=◌ m f b = and_then (m b) f

abbrev pub ◌>>◌ : {B : Type 0} → M (Unit {0}) → M B → M B
◌>>◌ m k = m >>= λ _. k

abbrev pub pure : {A : Type 0} → A → M A
pure a b = (done a, b)

-- `return (-1)` where the source tests `ok`.
abbrev pub guard : Bool → M (Unit {0})
guard true b = (done tt, b)
guard false b = (failed, b)

-- `if (evbuffer_get_length(evbuf) < len) return (-1);`
pub has_length : ℕ → M (Unit {0})
has_length len b = guard (leb len (length b)) b

pub evbuffer_drain : ℕ → M (Unit {0})
evbuffer_drain n b = (done tt, drop n b)

-- `data[off/2] = (data[off/2] & 0xf0) | (number & 0x0f)`
pub set_low : List ℕ → ℕ → ℕ → List ℕ
set_low bytes i number = set bytes i (get_or bytes i 0 / 16 * 16 + number % 16)

-- `data[off/2] = (data[off/2] & 0x0f) | ((number & 0x0f) << 4)`
pub set_high : List ℕ → ℕ → ℕ → List ℕ
set_high bytes i number = set bytes i (get_or bytes i 0 % 16 + number % 16 * 16)

pub put_nibble : List ℕ → ℕ → ℕ → List ℕ
put_nibble bytes off number =
    if off % 2 == 1 then set_low bytes (off / 2) number else set_high bytes (off / 2) number

-- `while (number) { ... number >>= 4; off++; }`, with the bytes, `off` and `number` at its end.
pub encode_loop : ℕ → List ℕ → ℕ → ℕ → List ℕ × ℕ × ℕ
encode_loop zero bytes off number = (bytes, off, number)
encode_loop (suc fuel) bytes off number =
    let rest = encode_loop fuel (put_nibble bytes off number) (off + 1) (number / 16) in
    if number == 0 then (bytes, off, number) else rest

-- ENCODE_INT_INTERNAL from the end of its loop: the bytes of `data` up to the returned length.
pub encode_finish : List ℕ × ℕ × ℕ → List ℕ
encode_finish (bytes, off, number) =
    let nibbles = if ltb 2 off then off - 2 else 0 in
    take ((off + 1) / 2) (set_high bytes 0 nibbles)

-- ENCODE_INT_INTERNAL(data, number) for a number of `size` bytes: at most two nibbles a byte.
pub encode_int : ℕ → ℕ → List ℕ
encode_int size number = encode_finish (encode_loop (2 * size) (replicate (size + 1) 0) 1 number)

pub encode_int_internal : ℕ → List ℕ
encode_int_internal number = encode_int 4 number

pub encode_int64_internal : ℕ → List ℕ
encode_int64_internal number = encode_int 8 number

pub evtag_encode_int : Buffer → ℕ → Buffer
evtag_encode_int b number = b ++ encode_int_internal number

pub evtag_encode_int64 : Buffer → ℕ → Buffer
evtag_encode_int64 b number = b ++ encode_int64_internal number

-- `do { ... } while (tag)` over the five bytes of `data`.
pub encode_tag_loop : ℕ → ℕ → List ℕ
encode_tag_loop zero tag = []
encode_tag_loop (suc room) tag =
    let rest = encode_tag_loop room (tag / 128) in
    if tag / 128 == 0 then (tag % 128) ∷ [] else (tag % 128 + 128) ∷ rest

pub evtag_encode_tag : Buffer → ℕ → Buffer
evtag_encode_tag b tag = b ++ encode_tag_loop 5 tag

-- `while (count++ < len)`: the list is what evbuffer_pullup made contiguous and `data` has not
-- passed. The bits of `number` lie below `shift`, so its `|=` is `+`.
pub decode_tag_loop : List ℕ → ℕ → ℕ → ℕ → ℕ → Outcome (ℕ × ℕ)
decode_tag_loop [] len number shift count = if ltb count len then fault else failed
decode_tag_loop (lower ∷ bytes) len number shift count =
    let number' = number + lower % 128 * 2 ^ shift % 2 ^ 32 in
    let rest = decode_tag_loop bytes len number' (shift + 7) (count + 1) in
    if ltb count len then if ltb lower 128 then done (count + 1, number') else rest else failed

drain_tag : Bool → Outcome (ℕ × ℕ) → M (ℕ × ℕ)
drain_tag dodrain (done (count, number)) b =
    (done (count, number), if dodrain then drop count b else b)
drain_tag dodrain failed b = (failed, b)
drain_tag dodrain fault b = (fault, b)

-- Gives the count of bytes and the tag. A `count` above INT_MAX is out of reach: it is at most 5.
pub decode_tag_internal : Bool → M (ℕ × ℕ)
unfolding drain_tag
decode_tag_internal dodrain b =
    drain_tag dodrain (decode_tag_loop (take (min (length b) 5) b) (length b) 0 0 0) b

pub evtag_decode_tag : M (ℕ × ℕ)
evtag_decode_tag = decode_tag_internal true

pub evtag_peek : M (ℕ × ℕ)
evtag_peek = decode_tag_internal false

-- `while (nibbles > 0)`: `data[nibbles >> 1]` is read by its low nibble where `nibbles` is odd.
pub nibble_at : List ℕ → ℕ → ℕ
nibble_at bytes i = if i % 2 == 1 then get_or bytes (i / 2) 0 % 16 else get_or bytes (i / 2) 0 / 16

pub decode_loop : ℕ → List ℕ → ℕ → ℕ → ℕ
unfolding nibble_at
decode_loop width bytes zero number = number
decode_loop width bytes (suc nibbles) number =
    decode_loop width bytes nibbles (number * 16 % 2 ^ width + nibble_at bytes (suc nibbles))

-- DECODE_INT_INTERNAL(number, maxnibbles, pnumber, evbuf, offset): the encoded length and the
-- number. The buffer stays as it is.
pub decode_int_at : ℕ → ℕ → ℕ → Buffer → Outcome (ℕ × ℕ)
decode_int_at width maxnibbles offset b =
    let bytes = drop offset b in
    let nibbles = get_or bytes 0 0 / 16 % 16 + 1 in
    if leb (length b) offset
    then failed
    else if ltb maxnibbles nibbles || ltb (length b - offset) (nibbles / 2 + 1)
    then failed
    else done (nibbles / 2 + 1, decode_loop width bytes nibbles 0)

pub decode_int_internal : ℕ → M (ℕ × ℕ)
decode_int_internal offset b = (decode_int_at 32 8 offset b, b)

pub decode_int64_internal : ℕ → M (ℕ × ℕ)
decode_int64_internal offset b = (decode_int_at 64 16 offset b, b)
