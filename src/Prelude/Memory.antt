-- ===== src/Prelude/Memory.antt =====
-- Memory as a function of the offset, the copies of the C library, and the bytes that they leave.
use test_codes.Prelude.{
  ℕ, zero, suc, ◌+◌, ◌-◌, ◌≤◌, ◌<◌, ◌≡◌, refl, sym, ap, ◌∙◌, true, ◌&&◌, List, [], ◌∷◌, ◌++◌,
  if◌then◌else◌, ltb, leb, ◌==◌, length, get_or, take, drop, arith,
}

-- `memcpy(mem + at, xs, ...)`
unfoldable pub memcpy : (ℕ → ℕ) → ℕ → List ℕ → ℕ → ℕ
memcpy mem at xs j = if leb at j && ltb j (at + length xs) then get_or xs (j - at) 0 else mem j

-- `memmove(mem, mem + from, n)`
unfoldable pub memmove : (ℕ → ℕ) → ℕ → ℕ → ℕ → ℕ
memmove mem from n j = if ltb j n then mem (from + j) else mem j

-- The `n` bytes from `mem + i` on.
unfoldable pub slice : (ℕ → ℕ) → ℕ → ℕ → List ℕ
slice mem i zero = []
slice mem i (suc n) = mem i ∷ slice mem (i + 1) n

pub slice_cong :
    (f g : ℕ → ℕ) (i n : ℕ) → ((j : ℕ) → i ≤ j → j < i + n → f j ≡ g j) → slice f i n ≡ slice g i n
unfolding slice
slice_cong f g i zero h = refl
slice_cong f g i (suc n) h =
    rw
      (
        h i (omega arith) (omega arith),
        slice_cong f g (i + 1) n (λ j a b. h j (omega arith) (omega arith)),
      )
      refl

pub slice-append : (f : ℕ → ℕ) (i m n : ℕ) → slice f i (m + n) ≡ slice f i m ++ slice f (i + m) n
unfolding slice
slice-append f i zero n =
    let e : 0 + n ≡ n = omega arith in let k : i + 0 ≡ i = omega arith in rw (e, k) refl
slice-append f i (suc m) n =
    let e : suc m + n ≡ suc (m + n) = omega arith in
    let k : i + suc m ≡ i + 1 + m = omega arith in
    rw (e, k, slice) (ap (λ (t : List ℕ). f i ∷ t) (slice-append f (i + 1) m n))

pub length-slice : (f : ℕ → ℕ) (i n : ℕ) → length (slice f i n) ≡ n
unfolding slice
length-slice f i zero = refl
length-slice f i (suc n) = ap suc (length-slice f (i + 1) n)

pub take-slice : (f : ℕ → ℕ) (i n k : ℕ) → k ≤ n → take k (slice f i n) ≡ slice f i k
unfolding slice
take-slice f i n zero h = refl
take-slice f i zero (suc k) h = absurd (omega arith)
take-slice f i (suc n) (suc k) h =
    ap (λ (t : List ℕ). f i ∷ t) (take-slice f (i + 1) n k (omega arith))

pub drop-slice : (f : ℕ → ℕ) (i n k : ℕ) → k ≤ n → drop k (slice f i n) ≡ slice f (i + k) (n - k)
unfolding slice
drop-slice f i n zero h =
    let e : i + 0 ≡ i = omega arith in let d : n - 0 ≡ n = omega arith in rw (e, d) refl
drop-slice f i zero (suc k) h = absurd (omega arith)
drop-slice f i (suc n) (suc k) h =
    let e : i + suc k ≡ i + 1 + k = omega arith in
    let d : suc n - suc k ≡ n - k = omega arith in
    rw (e, d) (drop-slice f (i + 1) n k (omega arith))

slice_list :
    (f : ℕ → ℕ) (i : ℕ) (xs : List ℕ)
    → ((j : ℕ) → j < length xs → f (i + j) ≡ get_or xs j 0)
    → slice f i (length xs) ≡ xs
unfolding slice
slice_list f i [] h = refl
slice_list f i (x ∷ xs) h =
    let e : i + 0 ≡ i = omega arith in
    let first : f i ≡ x = ap f (sym e) ∙ h 0 (omega arith) in
    rw
      (
        first,
        slice_list f (i + 1) xs (λ j k.
            let a : i + 1 + j ≡ i + suc j = omega arith in ap f a ∙ h (suc j) (omega arith)),
      )
      refl

-- What memcpy wrote.
pub slice-memcpy : (f : ℕ → ℕ) (at : ℕ) (xs : List ℕ) → slice (memcpy f at xs) at (length xs) ≡ xs
unfolding memcpy
slice-memcpy f at xs = slice_list (memcpy f at xs) at xs (λ j k.
    let e : at + j - at ≡ j = omega arith in
    let in_range : leb at (at + j) && ltb (at + j) (at + length xs) ≡ true = ground arith in
    rw (in_range, e) refl)

-- What memcpy left alone, before and behind.
pub slice-memcpy_before :
    (f : ℕ → ℕ) (at i n : ℕ) (xs : List ℕ) → i + n ≤ at → slice (memcpy f at xs) i n ≡ slice f i n
unfolding memcpy
slice-memcpy_before f at i n xs h = slice_cong _ f i n (λ j a b. ground arith)

slice_shift :
    (f g : ℕ → ℕ) (i k n : ℕ)
    → ((j : ℕ) → j < n → f (i + j) ≡ g (k + j))
    → slice f i n ≡ slice g k n
unfolding slice
slice_shift f g i k zero h = refl
slice_shift f g i k (suc n) h =
    let a : i + 0 ≡ i = omega arith in
    let b : k + 0 ≡ k = omega arith in
    let first : f i ≡ g k = ap f (sym a) ∙ h 0 (omega arith) ∙ ap g b in
    rw
      (
        first,
        slice_shift f g (i + 1) (k + 1) n (λ j l.
            let c : i + 1 + j ≡ i + suc j = omega arith in
            let d : k + suc j ≡ k + 1 + j = omega arith in
            ap f c ∙ h (suc j) (omega arith) ∙ ap g d),
      )
      refl

pub slice-memmove : (f : ℕ → ℕ) (from n : ℕ) → slice (memmove f from n) 0 n ≡ slice f from n
unfolding memmove
slice-memmove f from n =
    slice_shift (memmove f from n) f 0 from n
      (λ j k. let e : 0 + j ≡ j = omega arith in ground arith)

-- The bytes `xs` stand at `i`.
abbrev pub Holds : (ℕ → ℕ) → ℕ → List ℕ → Type 0
Holds f i xs = slice f i (length xs) ≡ xs

pub Holds-cons :
    (f : ℕ → ℕ) (i x : ℕ) (xs : List ℕ) → Holds f i (x ∷ xs) → (f i ≡ x) × Holds f (i + 1) xs
unfolding slice
Holds-cons f i x xs h = (cc, cc)

pub cons-Holds :
    (f : ℕ → ℕ) (i x : ℕ) (xs : List ℕ) → f i ≡ x → Holds f (i + 1) xs → Holds f i (x ∷ xs)
unfolding slice
cons-Holds f i x xs e h = cc

pub Holds-append :
    (f : ℕ → ℕ) (i : ℕ) (xs ys : List ℕ)
    → Holds f i (xs ++ ys)
    → Holds f i xs × Holds f (i + length xs) ys
Holds-append f i [] ys h = let e : i + 0 ≡ i = omega arith in (unfold slice in refl, rw e h)
Holds-append f i (x ∷ xs) ys h =
    let (first, rest) = Holds-cons f i x (xs ++ ys) h in
    let (a, b) = Holds-append f (i + 1) xs ys rest in
    let e : i + suc (length xs) ≡ i + 1 + length xs = omega arith in
    (cons-Holds f i x xs first a, rw e b)

pub append-Holds :
    (f : ℕ → ℕ) (i : ℕ) (xs ys : List ℕ)
    → Holds f i xs
    → Holds f (i + length xs) ys
    → Holds f i (xs ++ ys)
append-Holds f i [] ys h k = let e : i + 0 ≡ i = omega arith in rw e at k
append-Holds f i (x ∷ xs) ys h k =
    let (first, rest) = Holds-cons f i x xs h in
    let e : i + suc (length xs) ≡ i + 1 + length xs = omega arith in
    cons-Holds f i x (xs ++ ys) first (append-Holds f (i + 1) xs ys rest (rw e at k))

pub Holds-cong :
    (f g : ℕ → ℕ) (i : ℕ) (xs : List ℕ)
    → ((j : ℕ) → i ≤ j → j < i + length xs → g j ≡ f j)
    → Holds f i xs
    → Holds g i xs
Holds-cong f g i xs same h = slice_cong g f i (length xs) same ∙ h

pub Holds-get_or :
    (f : ℕ → ℕ) (i k : ℕ) (xs : List ℕ) → Holds f i xs → k < length xs → f (i + k) ≡ get_or xs k 0
Holds-get_or f i k [] h l = absurd (omega arith)
Holds-get_or f i zero (x ∷ xs) h l =
    let e : i + 0 ≡ i = omega arith in rw e (Holds-cons f i x xs h).0
Holds-get_or f i (suc k) (x ∷ xs) h l =
    let e : i + suc k ≡ i + 1 + k = omega arith in
    rw e (Holds-get_or f (i + 1) k xs (Holds-cons f i x xs h).1 (omega arith))

-- The characters of a C string, before the first zero.
unfoldable pub c_string : List ℕ → List ℕ
c_string [] = []
c_string (c ∷ cs) = let rest = c_string cs in if c == 0 then [] else c ∷ rest
