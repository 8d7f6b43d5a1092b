-- ===== src/Tagging/Nibbles.antt =====
-- The integers of event_tagging.c: ENCODE_INT_INTERNAL and DECODE_INT_INTERNAL, nibble by nibble.
use test_codes.Prelude.{
  ℕ, zero, suc, ◌+◌, ◌-◌, ◌*◌, ◌/◌, ◌%◌, ◌^◌, ◌≤◌, ◌<◌, ◌≡◌, refl, ◌∙◌, inl, inr, List, [], ◌∷◌,
  ◌++◌, ltb, ◌==◌, if◌then◌else◌, Bool-cases, length, get_or, set, take, drop, replicate,
  length-set, length-append, length-take, length-replicate, arith,
}
use native.Mathlib.Numerals.{add-one}
use native.Mathlib.Nat.{add-zero, zero-add, mod-eq_of_lt}
use test_codes.Tagging.{
  set_low, set_high, put_nibble, encode_loop, encode_finish, encode_int, nibble_at, decode_loop,
  decode_int_at, done, IsU32, decode_int_internal, decode_int64_internal, encode_int_internal,
  encode_int64_internal,
}

get_or-set :
    (xs : List ℕ) (i j v : ℕ)
    → i < length xs
    → get_or (set xs i v) j 0 ≡ (if i == j then v else get_or xs j 0)
get_or-set [] i j v h = absurd (omega arith)
get_or-set (x ∷ xs) zero zero v h = refl
get_or-set (x ∷ xs) (suc i) (suc j) v h = ground (arith, get_or-set xs i j v)
get_or-set (x ∷ xs) i j v h = ground arith

get_or-take_append :
    (n : ℕ) (xs ys : List ℕ) (i : ℕ)
    → i < n
    → n ≤ length xs
    → get_or (take n xs ++ ys) i 0 ≡ get_or xs i 0
get_or-take_append zero xs ys i h k = absurd (omega arith)
get_or-take_append (suc n) [] ys i h k = absurd (omega arith)
get_or-take_append (suc n) (x ∷ xs) ys zero h k = refl
get_or-take_append (suc n) (x ∷ xs) ys (suc i) h k =
    get_or-take_append n xs ys i (omega arith) (omega arith)

get_or-replicate : (n i z : ℕ) → get_or (replicate n z) i z ≡ z
get_or-replicate zero i z = refl
get_or-replicate (suc n) zero z = refl
get_or-replicate (suc n) (suc i) z = get_or-replicate n i z

-- What is left of `m` after `k` nibbles.
shift_nibbles : ℕ → ℕ → ℕ
shift_nibbles m zero = m
shift_nibbles m (suc k) = shift_nibbles m k / 16

length-put_nibble : (xs : List ℕ) (off v : ℕ) → length (put_nibble xs off v) ≡ length xs
unfolding put_nibble set_low set_high
length-put_nibble xs off v = ground (
  arith,
  length-set xs (off / 2) (get_or xs (off / 2) 0 / 16 * 16 + v % 16),
  length-set xs (off / 2) (get_or xs (off / 2) 0 % 16 + v % 16 * 16),
)

-- A nibble that is put is the one that is read there, and no other changes.
nibble_at-put_nibble :
    (xs : List ℕ) (off v j : ℕ)
    → off / 2 < length xs
    → nibble_at (put_nibble xs off v) j ≡ (if off == j then v % 16 else nibble_at xs j)
unfolding nibble_at put_nibble set_low set_high
nibble_at-put_nibble xs off v j h = ground (
  arith,
  get_or-set xs (off / 2) (j / 2) (get_or xs (off / 2) 0 / 16 * 16 + v % 16) h,
  get_or-set xs (off / 2) (j / 2) (get_or xs (off / 2) 0 % 16 + v % 16 * 16) h,
)

-- The nibbles 1 .. j of `xs` are the lowest of `m`, and those after them are 0.
abbrev Digits : List ℕ → ℕ → ℕ → Type 0
Digits xs m j = (i : ℕ) → nibble_at xs (i + 1) ≡ (if ltb i j then shift_nibbles m i % 16 else 0)

-- The loop has ended with `number` at 0 and `k` nibbles put.
record Encoded (m : ℕ) (limit size : ℕ) (r : List ℕ × ℕ × ℕ) : Type 0 where
  k : ℕ
  off : r.1 ≡ k + 1
  ended : r.2 ≡ 0
  used_up : shift_nibbles m k ≡ 0
  bounded : k ≤ limit
  kept : length r.0 ≡ size
  digits : Digits r.0 m k

put_nibble-Digits :
    (xs : List ℕ) (m j : ℕ)
    → (j + 1) / 2 < length xs
    → Digits xs m j
    → Digits (put_nibble xs (j + 1) (shift_nibbles m j)) m (j + 1)
put_nibble-Digits xs m j h d i =
    ground (arith, d i, nibble_at-put_nibble xs (j + 1) (shift_nibbles m j) (i + 1) h)

shift_nibbles_step : (m j : ℕ) → shift_nibbles m (j + 1) ≡ shift_nibbles m j / 16
unfolding shift_nibbles
shift_nibbles_step m j = rw add-one refl

encode_loop-Encoded :
    (fuel : ℕ) (xs : List ℕ) (m j : ℕ)
    → Digits xs m j
    → shift_nibbles m (j + fuel) ≡ 0
    → (j + fuel) / 2 < length xs
    → Encoded m (j + fuel) (length xs) (encode_loop fuel xs (j + 1) (shift_nibbles m j))
unfolding encode_loop
encode_loop-Encoded zero xs m j d e h =
    let e' : shift_nibbles m j ≡ 0 = rw add-zero at e in
    record {
      k = j;
      off = refl;
      ended = e';
      used_up = e';
      bounded = omega arith;
      kept = refl;
      digits = d;
    }
encode_loop-Encoded (suc fuel) xs m j d e h = elim (Bool-cases (shift_nibbles m j == 0)) [
  | inl last ↦ rw last (record {
    k = j;
    off = refl;
    ended = ground arith;
    used_up = ground arith;
    bounded = omega arith;
    kept = refl;
    digits = d;
  })
  | inr more ↦
      let xs' = put_nibble xs (j + 1) (shift_nibbles m j) in
      let size : length xs' ≡ length xs = length-put_nibble xs (j + 1) (shift_nibbles m j) in
      let move : j + 1 + fuel ≡ j + suc fuel = omega arith in
      let ih =
        encode_loop-Encoded fuel xs' m (j + 1) (put_nibble-Digits xs m j (omega arith) d)
          (rw move e) (omega arith) in
      rw (more, ← shift_nibbles_step, ← move, ← size) ih
]

shift_nibbles-le : (m j : ℕ) → shift_nibbles m j ≤ m
unfolding shift_nibbles
shift_nibbles-le m zero = omega arith
shift_nibbles-le m (suc j) = omega (arith, shift_nibbles-le m j)

shift_nibbles-zero : (m k d : ℕ) → shift_nibbles m k ≡ 0 → shift_nibbles m (k + d) ≡ 0
shift_nibbles-zero m k zero h = rw add-zero h
shift_nibbles-zero m k (suc d) h =
    let move : k + suc d ≡ k + d + 1 = omega arith in
    rw (move, shift_nibbles_step) (omega (arith, shift_nibbles-zero m k d h))

-- Reading the nibbles from the highest down gives the number back.
decode_loop-digits :
    (width : ℕ) (bytes : List ℕ) (n m : ℕ)
    → m < 2 ^ width
    → ((i : ℕ) → i < n → nibble_at bytes (i + 1) ≡ shift_nibbles m i % 16)
    → decode_loop width bytes n (shift_nibbles m n) ≡ m
unfolding decode_loop shift_nibbles
decode_loop-digits width bytes zero m h d = refl
decode_loop-digits width bytes (suc n) m h d =
    let q = shift_nibbles m n in
    let room : q / 16 * 16 < 2 ^ width = omega (arith, shift_nibbles-le m n) in
    let digit : nibble_at bytes (suc n) ≡ q % 16 = rw add-one at (d n (omega arith)) in
    let next : q / 16 * 16 % 2 ^ width + nibble_at bytes (suc n) ≡ q =
      rw (mod-eq_of_lt room, digit) (omega arith) in
    rw next (decode_loop-digits width bytes n m h (λ i hi. d i (omega arith)))

-- What ENCODE_INT_INTERNAL made of a number with `n + 1` nibbles, with `rest` behind it, as
-- DECODE_INT_INTERNAL reads it.
record Code (m limit : ℕ) (bytes rest : List ℕ) : Type 0 where
  n : ℕ
  bounded : n + 1 ≤ limit
  used_up : shift_nibbles m (n + 1) ≡ 0
  size : length bytes ≡ (n + 1) / 2 + 1
  count : get_or (bytes ++ rest) 0 0 / 16 % 16 ≡ n
  digits : (i : ℕ) → i < n + 1 → nibble_at (bytes ++ rest) (i + 1) ≡ shift_nibbles m i % 16

nibble_at-take_append :
    (n : ℕ) (xs ys : List ℕ) (j : ℕ)
    → j / 2 < n
    → n ≤ length xs
    → nibble_at (take n xs ++ ys) j ≡ nibble_at xs j
unfolding nibble_at
nibble_at-take_append n xs ys j h k = rw (get_or-take_append n xs ys (j / 2) h k)

encode_finish_lem :
    (xs : List ℕ) (k z : ℕ)
    → encode_finish (xs, k + 1, z) ≡ take ((k + 2) / 2) (put_nibble xs 0 (k - 1))
unfolding encode_finish put_nibble
encode_finish_lem xs k z =
    let count : (if ltb 2 (k + 1) then k + 1 - 2 else 0) ≡ k - 1 = ground arith in
    let width : k + 1 + 1 ≡ k + 2 = omega arith in rw (count, width) refl

module _ (m size : ℕ) (xs : List ℕ) (k : ℕ) (rest : List ℕ) (small : size ≤ 8)
    (some_room : 1 ≤ size) (room : k ≤ 2 * size) (len : length xs ≡ size + 1)
    (used : shift_nibbles m k ≡ 0) (d : Digits xs m k) where
  abbrev tagged : List ℕ
  tagged = put_nibble xs 0 (k - 1)

  length-tagged : length tagged ≡ size + 1
  length-tagged = length-put_nibble xs 0 (k - 1) ∙ len

  nibble_at-tagged :
      (j : ℕ)
      → j / 2 < (k + 2) / 2
      → nibble_at (take ((k + 2) / 2) tagged ++ rest) j ≡ (if 0 == j then k - 1 else nibble_at xs j)
  nibble_at-tagged j h =
      nibble_at-take_append ((k + 2) / 2) tagged rest j h (omega (arith, length-tagged))
      ∙ nibble_at-put_nibble xs 0 (k - 1) j (omega arith)
      ∙ ground arith

  tagged-Code : Code m (2 * size) (take ((k + 2) / 2) tagged) rest
  unfolding shift_nibbles
  tagged-Code = record {
    n = k - 1;
    bounded = omega arith;
    used_up = ground (arith, shift_nibbles-zero m k 1 used);
    size = omega (arith, length-take ((k + 2) / 2) tagged, length-tagged);
    count = unfold nibble_at in ground (arith, nibble_at-tagged 0 (omega arith));
    digits = λ i hi. ground (arith, nibble_at-tagged (i + 1) (omega arith), d i);
  }

Encoded-Code :
    (m size : ℕ) (r : List ℕ × ℕ × ℕ) (rest : List ℕ)
    → size ≤ 8
    → 1 ≤ size
    → Encoded m (2 * size) (size + 1) r
    → Code m (2 * size) (encode_finish r) rest
Encoded-Code m size (xs, off, z) rest small pos e =
    rw (e.off, encode_finish_lem xs e.k z)
      (tagged-Code m size xs e.k rest small pos e.bounded e.kept e.used_up e.digits)

encode_int-Code :
    (m size : ℕ) (rest : List ℕ)
    → size ≤ 8
    → 1 ≤ size
    → shift_nibbles m (2 * size) ≡ 0
    → Code m (2 * size) (encode_int size m) rest
unfolding encode_int shift_nibbles
encode_int-Code m size rest small pos e =
    let xs : List ℕ = replicate (size + 1) 0 in
    let zero_bytes : length xs ≡ size + 1 = length-replicate (size + 1) 0 in
    let zeros : Digits xs m 0 =
      λ i. unfold nibble_at in ground (arith, get_or-replicate (size + 1) ((i + 1) / 2) 0) in
    let loop =
      encode_loop-Encoded (2 * size) xs m 0 zeros (rw zero-add e) (omega (arith, zero_bytes)) in
    Encoded-Code m size _ rest small pos (rw (zero-add, zero_bytes) at loop)

drop-append : (xs ys : List ℕ) → drop (length xs) (xs ++ ys) ≡ ys
drop-append [] ys = refl
drop-append (x ∷ xs) ys = drop-append xs ys

-- DECODE_INT_INTERNAL, at the offset where ENCODE_INT_INTERNAL wrote, gives back the number and the
-- length that was written, whatever stands before and behind it.
decode_int_at-encode_int :
    (width size m : ℕ) (before rest : List ℕ)
    → size ≤ 8
    → 1 ≤ size
    → m < 2 ^ width
    → shift_nibbles m (2 * size) ≡ 0
    → decode_int_at width (2 * size) (length before) (before ++ (encode_int size m ++ rest))
      ≡ done (length (encode_int size m), m)
unfolding decode_int_at
decode_int_at-encode_int width size m before rest small pos fits e =
    let bytes = encode_int size m in
    let c = encode_int-Code m size rest small pos e in
    let total : length (before ++ (bytes ++ rest)) ≡ length before + (length bytes + length rest) =
      omega (arith, length-append before (bytes ++ rest), length-append bytes rest) in
    let value = decode_loop-digits width (bytes ++ rest) (c.n + 1) m fits c.digits in
    let from_zero = rw c.used_up at value in
    rw (drop-append, c.count) (ground (arith, total, c.size, c.bounded, from_zero))

-- A 32-bit number comes back from the offset where it was written.
pub decode_int_internal-encode_int_internal :
    (m : ℕ) (before rest : List ℕ)
    → IsU32 m
    → decode_int_internal (length before) (before ++ (encode_int_internal m ++ rest))
      ≡ (done (length (encode_int_internal m), m), before ++ (encode_int_internal m ++ rest))
unfolding decode_int_internal encode_int_internal shift_nibbles
decode_int_internal-encode_int_internal m before rest h =
    rw (decode_int_at-encode_int 32 4 m before rest (omega arith) (omega arith) h (omega arith))
      refl

-- So does a 64-bit number.
pub decode_int64_internal-encode_int64_internal :
    (m : ℕ) (before rest : List ℕ)
    → m < 2 ^ 64
    → decode_int64_internal (length before) (before ++ (encode_int64_internal m ++ rest))
      ≡ (done (length (encode_int64_internal m), m), before ++ (encode_int64_internal m ++ rest))
unfolding decode_int64_internal encode_int64_internal shift_nibbles
decode_int64_internal-encode_int64_internal m before rest h =
    rw (decode_int_at-encode_int 64 8 m before rest (omega arith) (omega arith) h (omega arith))
      refl

-- A 32-bit number takes 1 to 5 bytes, and a 64-bit number 1 to 9.
pub length-encode_int_internal :
    (m : ℕ) → IsU32 m → (1 ≤ length (encode_int_internal m)) × (length (encode_int_internal m) ≤ 5)
unfolding encode_int_internal shift_nibbles
length-encode_int_internal m h =
    let c = encode_int-Code m 4 [] (omega arith) (omega arith) (omega arith) in
    omega (arith, c.size, c.bounded)

pub length-encode_int64_internal :
    (m : ℕ)
    → m < 2 ^ 64
    → (1 ≤ length (encode_int64_internal m)) × (length (encode_int64_internal m) ≤ 9)
unfolding encode_int64_internal shift_nibbles
length-encode_int64_internal m h =
    let c = encode_int-Code m 8 [] (omega arith) (omega arith) (omega arith) in
    omega (arith, c.size, c.bounded)
