-- ===== src/Dns/Parse.antt =====
-- name_parse ends, stays within its buffer, and returns nothing that is not in the packet.
use test_codes.Prelude.{
  ℕ, zero, suc, ◌+◌, ◌-◌, ◌*◌, ◌/◌, ◌%◌, ◌≤◌, ◌<◌, ◌≡◌, refl, sym, ap, inl, inr, Bool, true, false,
  not, ◌&&◌, List, [], ◌∷◌, ◌++◌, Option, none, some, ltb, leb, ◌==◌, if◌then◌else◌, length,
  length-append, Bool-cases, if_intro, Then, arith,
}
use mathlib.Core.Path.{subst}
use test_codes.Prelude.Memory.{slice, slice_cong, length-slice}
use test_codes.Dns.{
  dot, Parsing, Result, ok, failed, end_index, finish_name, follow, copy_label, continue,
  parse_loop, name_parse,
}

abbrev pub IfOk {ℓ} : {A : Type ℓ} → (A → Type 0) → Result A → Type 0
IfOk P failed = Unit
IfOk P (ok a) = P a

-- Where a label has been copied.
record Copied (name_out_len label_len : ℕ) (p q : Parsing) : Type 0 where
  longer : length p.out + label_len ≤ length q.out
  fits : length q.out < name_out_len
  index : q.j ≡ p.j + label_len
  same_end : q.name_end ≡ p.name_end
  same_count : q.ptr_count ≡ p.ptr_count

copy_label-Copied :
    (packet : ℕ → ℕ) (n k : ℕ) (p : Parsing) → IfOk (Copied n k p) (copy_label packet n k p)
unfolding copy_label
copy_label-Copied packet n k p =
    let begun = not (length p.out == 0) in
    let out : List ℕ = if begun then p.out ++ dot ∷ [] else p.out in
    let P = IfOk (Copied n k p) in
    let more : length p.out ≤ length out =
      if_intro (λ (t : List ℕ). length p.out ≤ length t) begun
        (λ b. omega (arith, length-append p.out (dot ∷ []))) (λ b. omega arith) in
    if_intro P (ltb 63 k) (λ long. tt)
      (λ short.
        if_intro P (begun && leb n (length p.out + 1)) (λ full. tt)
          (λ room.
            if_intro P (leb n (length out + k)) (λ full'. tt)
              (λ fits.
                let len = length-append out (slice packet p.j k) in
                let len' = length-slice packet p.j k in
                record {
                  longer = omega (arith, len, len', more);
                  fits = ground (arith, len, len');
                  index = refl;
                  same_end = refl;
                  same_count = refl;
                })))

-- Where a pointer has been followed.
record Followed (len : ℕ) (p q : Parsing) : Type 0 where
  count : q.ptr_count ≡ p.ptr_count + 1
  few : q.ptr_count ≤ len
  same_out : q.out ≡ p.out
  end : q.name_end ≡ some (end_index p.name_end (p.j + 1))
  inside : p.j < len

follow-Followed :
    (packet : ℕ → ℕ) (len k : ℕ) (p : Parsing) → IfOk (Followed len p) (follow packet len k p)
unfolding follow
follow-Followed packet len k p =
    let P = IfOk (Followed len p) in
    if_intro P (leb len p.j) (λ out. tt)
      (λ inside.
        if_intro P (leb len (k % 64 * 256 + packet p.j)) (λ out. tt)
          (λ target.
            if_intro P (ltb len (p.ptr_count + 1)) (λ many. tt)
              (λ few. record {
                count = refl;
                few = ground arith;
                same_out = refl;
                end = refl;
                inside = ground arith;
              })))

-- The results of name_parse on a packet of `len` bytes, for a buffer of `n` characters.
abbrev pub Named : ℕ → ℕ → Result (List ℕ × ℕ) → Type 0
Named len n failed = Unit
Named len n (ok (name, idx)) = (length name < n) × (idx ≤ len)

abbrev InPacket : ℕ → Option ℕ → Type 0
InPacket len none = Unit
InPacket len (some k) = k ≤ len

end_index-le : (len j : ℕ) (o : Option ℕ) → InPacket len o → j ≤ len → end_index o j ≤ len
end_index-le len j none h k = k
end_index-le len j (some i) h k = h

continue-Named :
    (len n : ℕ) (P : Parsing → Type 0) (r : Result Parsing)
    (next : Parsing → Option (Result (List ℕ × ℕ)))
    → IfOk P r
    → ((q : Parsing) → P q → Then (Named len n) (next q))
    → Then (Named len n) (continue r next)
continue-Named len n P failed next h k = tt
continue-Named len n P (ok q) next h k = k q h

parse_loop-Named :
    (fuel : ℕ) (packet : ℕ → ℕ) (len n : ℕ) (p : Parsing)
    → (n - length p.out) + (len - p.ptr_count) < fuel
    → InPacket len p.name_end
    → Then (Named len n) (parse_loop fuel packet len n p)
unfolding parse_loop finish_name
parse_loop-Named zero packet len n p h e = absurd (omega arith)
parse_loop-Named (suc fuel) packet len n p h e =
    let k = packet p.j in
    let read : Parsing = record p { j = p.j + 1 } in
    let P = Then (Named len n) in
    if_intro P (leb len p.j) (λ out. tt)
      (λ inside.
        if_intro P (k == 0)
          (λ ends.
            if_intro (Named len n) (leb n (length p.out)) (λ full. tt)
              (λ fits. (ground arith, end_index-le len (p.j + 1) p.name_end e (ground arith))))
          (λ more.
            if_intro (λ (r : Result Parsing). P (continue r (parse_loop fuel packet len n)))
              (k / 64 == 0)
              (λ label.
                continue-Named len n (Copied n k read) (copy_label packet n k read)
                  (parse_loop fuel packet len n) (copy_label-Copied packet n k read)
                  (λ q c.
                    parse_loop-Named fuel packet len n q
                      (ground (arith, c.longer, c.fits, c.same_count))
                      (subst (InPacket len) (sym c.same_end) e)))
              (λ pointer.
                continue-Named len n (Followed len read) (follow packet len k read)
                  (parse_loop fuel packet len n) (follow-Followed packet len k read)
                  (λ q c.
                    parse_loop-Named fuel packet len n q
                      (omega (arith, ap length c.same_out, c.count, c.few))
                      (subst (InPacket len) (sym c.end)
                        (end_index-le len (p.j + 1 + 1) p.name_end e (omega (arith, c.inside))))))))

-- name_parse ends, whatever the packet is, also where its pointers form a loop: a name that it returns
-- is shorter than the buffer that it is given, so the zero behind it fits too, and the index that it
-- leaves is in the packet or just behind it.
pub name_parse-Named :
    (packet : ℕ → ℕ) (len idx n : ℕ) → Then (Named len n) (name_parse packet len idx n)
unfolding name_parse
name_parse-Named packet len idx n = parse_loop-Named (n + len + 1) packet len n _ (omega arith) tt

outside :
    (fuel : ℕ) (f g : ℕ → ℕ) (len n : ℕ) (p q : Parsing)
    → len ≤ p.j
    → len ≤ q.j
    → parse_loop fuel f len n p ≡ parse_loop fuel g len n q
unfolding parse_loop
outside zero f g len n p q h k = refl
outside (suc fuel) f g len n p q h k =
    let a : leb len p.j ≡ true = ground arith in
    let b : leb len q.j ≡ true = ground arith in rw (a, b) refl

abbrev Next : Type 0
Next = Parsing → Option (Result (List ℕ × ℕ))

guarded_cong :
    (a b c : Bool) (q q' : Parsing) (F G : Next)
    → F q ≡ G q'
    → continue (if a then failed else if b then failed else if c then failed else ok q) F
      ≡ continue (if a then failed else if b then failed else if c then failed else ok q') G
guarded_cong true b c q q' F G h = refl
guarded_cong false true c q q' F G h = refl
guarded_cong false false true q q' F G h = refl
guarded_cong false false false q q' F G h = h

continue_cong :
    (r : Result Parsing) (F G : Next) → ((q : Parsing) → F q ≡ G q) → continue r F ≡ continue r G
continue_cong failed F G h = refl
continue_cong (ok q) F G h = h q

-- Two packets that hold the same bytes.
module _ (f g : ℕ → ℕ) (len n : ℕ) (same : (i : ℕ) → i < len → f i ≡ g i) where
  follow_same : (k : ℕ) (p : Parsing) → follow f len k p ≡ follow g len k p
  unfolding follow
  follow_same k p = elim (Bool-cases (leb len p.j)) [
    | inl out ↦ rw out refl
    | inr inside ↦ rw (same p.j (ground arith)) refl
  ]

  -- A label that reaches beyond the packet is copied with what stands there, and the next round fails.
  copy_label_same :
      (fuel k : ℕ) (p : Parsing)
      → ((q : Parsing) → parse_loop fuel f len n q ≡ parse_loop fuel g len n q)
      → continue (copy_label f n k p) (parse_loop fuel f len n)
        ≡ continue (copy_label g n k p) (parse_loop fuel g len n)
  unfolding copy_label
  copy_label_same fuel k p h =
      let out : List ℕ = if not (length p.out == 0) then p.out ++ dot ∷ [] else p.out in
      let after : (ℕ → ℕ) → Parsing =
        λ (m : ℕ → ℕ). record p { j = p.j + k; out = out ++ slice m p.j k } in
      guarded_cong (ltb 63 k) (not (length p.out == 0) && leb n (length p.out + 1))
        (leb n (length out + k)) (after f) (after g) (parse_loop fuel f len n)
        (parse_loop fuel g len n)
        (elim (Bool-cases (leb (p.j + k) len)) [
          | inl inside ↦
              let e : slice f p.j k ≡ slice g p.j k =
                slice_cong f g p.j k (λ j a b. same j (ground arith)) in
              rw e (h (after g))
          | inr beyond ↦ outside fuel f g len n (after f) (after g) (ground arith) (ground arith)
        ])

  parse_loop_same : (fuel : ℕ) (p : Parsing) → parse_loop fuel f len n p ≡ parse_loop fuel g len n p
  unfolding parse_loop
  parse_loop_same zero p = refl
  parse_loop_same (suc fuel) p = elim (Bool-cases (leb len p.j)) [
    | inl out ↦ rw out refl
    | inr inside ↦
        let e : f p.j ≡ g p.j = same p.j (ground arith) in
        let k = g p.j in
        let read : Parsing = record p { j = p.j + 1 } in
        rw (e, inside)
          (elim (Bool-cases (k == 0)) [
            | inl ends ↦ rw ends refl
            | inr more ↦ elim (Bool-cases (k / 64 == 0)) [
              | inl label ↦ rw (more, label) (copy_label_same fuel k read (parse_loop_same fuel))
              | inr pointer ↦
                  rw (more, pointer, follow_same k read)
                    (continue_cong (follow g len k read) (parse_loop fuel f len n)
                      (parse_loop fuel g len n) (parse_loop_same fuel))
            ]
          ])
  ]

-- name_parse returns the same on two packets with the same bytes, whatever the arrays hold behind them:
-- although it copies a label without looking whether it lies in the packet, no byte from behind
-- the packet gets into a name.
pub name_parse_same :
    (f g : ℕ → ℕ) (len idx n : ℕ)
    → ((i : ℕ) → i < len → f i ≡ g i)
    → name_parse f len idx n ≡ name_parse g len idx n
unfolding name_parse
name_parse_same f g len idx n same = parse_loop_same f g len n same (n + len + 1) _
