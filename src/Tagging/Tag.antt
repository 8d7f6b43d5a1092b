-- ===== src/Tagging/Tag.antt =====
-- The tags of event_tagging.c: evtag_encode_tag and decode_tag_internal.
use test_codes.Prelude.{
  ℕ, zero, suc, ◌+◌, ◌-◌, ◌*◌, ◌/◌, ◌%◌, ◌^◌, ◌≤◌, ◌<◌, ◌≡◌, refl, ap, ◌≢◌, inl, inr, ◌↔◌, Bool,
  true, false, List, [], ◌∷◌, ◌++◌, ltb, if◌then◌else◌, Bool-cases, length, take, drop,
  length-append, length-take, min, arith,
}
use native.Mathlib.Numerals.{towards_suc}
use native.Mathlib.Nat.{div-add-mod, sub-zero}
use test_codes.Tagging.{
  Outcome, done, failed, fault, IsU32, encode_tag_loop, evtag_encode_tag, decode_tag_loop,
  decode_tag_internal, drain_tag,
}

shift_seven : (s : ℕ) → 2 ^ (s + 7) ≡ 128 * 2 ^ s
shift_seven s = simp towards_suc (omega arith)

split_group : (t s : ℕ) → t * 2 ^ s ≡ t % 128 * 2 ^ s + t / 128 * 2 ^ (s + 7)
split_group t s = omega (
  arith,
  ap (λ (x : ℕ). x * 2 ^ s) (div-add-mod t 128),
  ap (λ (x : ℕ). t / 128 * x) (shift_seven s),
)

pub length-encode_tag_loop : (room t : ℕ) → length (encode_tag_loop room t) ≤ room
unfolding encode_tag_loop
length-encode_tag_loop zero t = omega arith
length-encode_tag_loop (suc room) t = ground (arith, length-encode_tag_loop room (t / 128))

decode_tag_loop-encode :
    (room t : ℕ) (more : List ℕ) (len number shift count : ℕ)
    → t < 128 ^ suc room
    → number + t * 2 ^ shift < 2 ^ 32
    → count + length (encode_tag_loop (suc room) t) ≤ len
    → decode_tag_loop (encode_tag_loop (suc room) t ++ more) len number shift count
      ≡ done (count + length (encode_tag_loop (suc room) t), number + t * 2 ^ shift)
unfolding decode_tag_loop encode_tag_loop
decode_tag_loop-encode zero t more len number shift count h fits room = ground arith
decode_tag_loop-encode (suc room) t more len number shift count h fits enough = ground (
  arith,
  split_group t shift,
  decode_tag_loop-encode room (t / 128) more len (number + t % 128 * 2 ^ shift) (shift + 7)
      (count + 1) (omega arith),
)

take-append :
    (n : ℕ) (xs ys : List ℕ) → length xs ≤ n → take n (xs ++ ys) ≡ xs ++ take (n - length xs) ys
take-append n [] ys h = rw sub-zero
take-append zero (x ∷ xs) ys h = absurd (omega arith)
take-append (suc n) (x ∷ xs) ys h =
    let less : suc n - suc (length xs) ≡ n - length xs = omega arith in
    rw less (ap (◌∷◌ x) (take-append n xs ys (omega arith)))

drop-append : (xs ys : List ℕ) → drop (length xs) (xs ++ ys) ≡ ys
drop-append [] ys = refl
drop-append (x ∷ xs) ys = drop-append xs ys

-- evtag_decode_tag and evtag_peek read back the tag that evtag_encode_tag wrote, with the count of
-- its bytes, whatever stands behind it. The first drains those bytes, and the second nothing.
pub decode_tag_internal-evtag_encode_tag :
    (t : ℕ) (rest : List ℕ)
    → IsU32 t
    → (decode_tag_internal true (evtag_encode_tag [] t ++ rest)
        ≡ (done (length (evtag_encode_tag [] t), t), rest))
      × (decode_tag_internal false (evtag_encode_tag [] t ++ rest)
          ≡ (done (length (evtag_encode_tag [] t), t), evtag_encode_tag [] t ++ rest))
unfolding decode_tag_internal evtag_encode_tag
decode_tag_internal-evtag_encode_tag t rest h =
    let bytes = encode_tag_loop 5 t in
    let short = length-encode_tag_loop 5 t in
    let len = length (bytes ++ rest) in
    let total = length-append bytes rest in
    let pulled = take-append (min len 5) bytes rest (omega arith) in
    let more = take (min len 5 - length bytes) rest in
    let whole =
      decode_tag_loop-encode 4 t more len 0 0 0 (omega arith) (omega arith) (omega arith) in
    let size : 0 + length bytes ≡ length bytes = omega arith in
    let value : 0 + t * 1 ≡ t = omega arith in
    rw (pulled, whole, size, value, drop-append) (refl, refl)

-- Every byte has its high bit set, so the tag goes on.
abbrev pub AllHigh : List ℕ → Type 0
AllHigh [] = Unit
AllHigh (x ∷ xs) = (128 ≤ x) × AllHigh xs

module _ (len : ℕ) where
  decode_tag_loop-AllHigh :
      (bytes : List ℕ) (number shift count : ℕ)
      → AllHigh bytes
      → count + length bytes ≤ len
      → decode_tag_loop bytes len number shift count
        ≡ (if ltb (count + length bytes) len then fault else failed)
  unfolding decode_tag_loop
  decode_tag_loop-AllHigh [] number shift count a h = ground arith
  decode_tag_loop-AllHigh (b ∷ bytes) number shift count (high, a) h = ground (
    arith,
    decode_tag_loop-AllHigh bytes (number + b % 128 * 2 ^ shift % 2 ^ 32) (shift + 7) (count + 1) a,
  )

  AllHigh-of_ne_done :
      (bytes : List ℕ) (number shift count : ℕ)
      → count + length bytes ≤ len
      → ((r : ℕ × ℕ) → decode_tag_loop bytes len number shift count ≢ done r)
      → AllHigh bytes
  unfolding decode_tag_loop
  AllHigh-of_ne_done [] number shift count h n = tt
  AllHigh-of_ne_done (b ∷ bytes) number shift count h n = elim (Bool-cases (ltb b 128)) [
    | inl low ↦ absurd (n (count + 1, number + b % 128 * 2 ^ shift % 2 ^ 32) (ground arith))
    | inr high ↦
        let ih =
          AllHigh-of_ne_done bytes (number + b % 128 * 2 ^ shift % 2 ^ 32) (shift + 7) (count + 1)
            (omega arith) (λ r e. n r (ground arith)) in
        (ground arith, ih)
  ]

take-min : (b : List ℕ) (n : ℕ) → take (min (length b) n) b ≡ take n b
take-min [] zero = refl
take-min [] (suc n) = let e : min 0 (suc n) ≡ 0 = omega arith in rw e refl
take-min (x ∷ b) zero = let e : min (suc (length b)) 0 ≡ 0 = omega arith in rw e refl
take-min (x ∷ b) (suc n) =
    let e : min (suc (length b)) (suc n) ≡ suc (min (length b) n) = omega arith in
    rw e (ap (◌∷◌ x) (take-min b n))

take_all : (b : List ℕ) (n : ℕ) → length b ≤ n → take n b ≡ b
take_all [] zero h = refl
take_all [] (suc n) h = refl
take_all (x ∷ b) zero h = absurd (omega arith)
take_all (x ∷ b) (suc n) h = ap (◌∷◌ x) (take_all b n (omega arith))

drain_tag-fault :
    (d : Bool) (v : Outcome (ℕ × ℕ)) (b : List ℕ) → drain_tag d v b ≡ (fault, b) → v ≡ fault
unfolding drain_tag
drain_tag-fault d (done (c, n)) b e = cc
drain_tag-fault d failed b e = cc
drain_tag-fault d fault b e = refl

drain_tag-failed :
    (d : Bool) (v : Outcome (ℕ × ℕ)) (b : List ℕ) → drain_tag d v b ≡ (failed, b) → v ≡ failed
unfolding drain_tag
drain_tag-failed d (done (c, n)) b e = cc
drain_tag-failed d failed b e = refl
drain_tag-failed d fault b e = cc

-- decode_tag_internal reads past the five bytes that it made contiguous exactly when those have
-- their high bits set and the buffer is longer, and returns -1 exactly when the buffer holds no
-- more than five bytes and each has its high bit set. In both cases it drains nothing.
pub decode_tag_internal_ends :
    (dodrain : Bool) (b : List ℕ)
    → ((decode_tag_internal dodrain b ≡ (fault, b)) ↔ ((5 < length b) × AllHigh (take 5 b)))
      × ((decode_tag_internal dodrain b ≡ (failed, b)) ↔ ((length b ≤ 5) × AllHigh b))
unfolding decode_tag_internal drain_tag
decode_tag_internal_ends dodrain b =
    let v = decode_tag_loop (take 5 b) (length b) 0 0 0 in
    let size = length-take 5 b in
    let ends = decode_tag_loop-AllHigh (length b) (take 5 b) 0 0 0 in
    let high = AllHigh-of_ne_done (length b) (take 5 b) 0 0 0 (omega arith) in
    rw take-min (
      (
        (λ e.
            let f = drain_tag-fault dodrain v b e in
            let a = high (λ r g. cc) in (ground (arith, ends a), a)),
        λ (long, a). let f : v ≡ fault = ground (arith, ends a) in rw f refl,
      ),
      (
        (λ e.
            let f = drain_tag-failed dodrain v b e in
            let a = high (λ r g. cc) in
            let short : length b ≤ 5 = ground (arith, ends a) in
            (short, rw (take_all b 5 short) at a)),
        λ (short, a).
            let f : v ≡ failed =
              ground (arith, ends (rw (take_all b 5 short) a), take_all b 5 short) in
            rw f refl,
      ),
    )
