-- ===== src/Dns/RoundTrip.antt =====
-- name_parse reads back what dnsname_to_labels writes.
use test_codes.Prelude.{
  ℕ, zero, suc, ◌+◌, ◌/◌, ◌≤◌, ◌<◌, ◌≡◌, refl, sym, ap, ◌∙◌, Bool, true, false, List, [], ◌∷◌, ◌++◌,
  Option, none, some, ltb, leb, ◌==◌, length, length-append, append_assoc, arith,
}
use mathlib.Core.Path.{subst}
use test_codes.Prelude.Memory.{Holds, Holds-cons, Holds-append}
use test_codes.Dns.{
  dot, Parsing, ok, finish_name, copy_label, parse_loop, name_parse, Writing, dnsname_to_labels,
}
use test_codes.Dns.Labels.{
  IsLabel, AllLabels, join, encoded, length-encoded, count-join, Wrote, Done, Done-map,
  dnsname_to_labels-Wrote,
}

-- What name_parse has written once it has read a name behind `out`.
abbrev behind : List ℕ → List ℕ → List ℕ
behind [] name = name
behind (c ∷ cs) name = (c ∷ cs) ++ dot ∷ name

length-behind : (out name : List ℕ) → length (behind out name) ≤ length out + 1 + length name
length-behind [] name = omega arith
length-behind (c ∷ cs) name = omega (arith, length-append (c ∷ cs) (dot ∷ name))

behind-append :
    (out l r : List ℕ) → 0 < length l → behind (behind out l) r ≡ behind out (l ++ dot ∷ r)
behind-append [] [] r h = absurd (omega arith)
behind-append [] (x ∷ l) r h = refl
behind-append (c ∷ cs) l r h = append_assoc (c ∷ cs) (dot ∷ l) (dot ∷ r)

abbrev at : ℕ → Option ℕ → ℕ → List ℕ → Parsing
at j name_end ptr_count out = record {
  j = j;
  name_end = name_end;
  ptr_count = ptr_count;
  out = out;
}

copy_label-behind :
    (packet : ℕ → ℕ) (n : ℕ) (l : List ℕ) (j : ℕ) (e : Option ℕ) (c : ℕ) (out : List ℕ)
    → IsLabel l
    → Holds packet j l
    → length out + 1 + length l < n
    → copy_label packet n (length l) (at j e c out) ≡ ok (at (j + length l) e c (behind out l))
unfolding copy_label
copy_label-behind packet n l j e c [] h held room =
    let short : ltb 63 (length l) ≡ false = ground (arith, h.short) in
    let fits : leb n (0 + length l) ≡ false = ground (arith, room) in rw (short, fits, held) refl
copy_label-behind packet n l j e c (x ∷ out) h held room =
    let short : ltb 63 (length l) ≡ false = ground (arith, h.short) in
    let len = length-append (x ∷ out) (dot ∷ []) in
    let begun : length (x ∷ out) == 0 ≡ false = ground arith in
    let full : leb n (length (x ∷ out) + 1) ≡ false = ground (arith, room, h.some_chars) in
    let fits : leb n (length ((x ∷ out) ++ dot ∷ []) + length l) ≡ false =
      ground (arith, room, len) in
    rw (short, begun, full, fits, held)
      (ap (λ (t : List ℕ). ok (at (j + length l) e c t)) (append_assoc (x ∷ out) (dot ∷ []) l))

parse_loop-encoded :
    (fuel : ℕ) (packet : ℕ → ℕ) (len n : ℕ) (l : List ℕ) (ms : List (List ℕ)) (j c : ℕ)
    (out : List ℕ)
    → length ms + 1 < fuel
    → IsLabel l
    → AllLabels ms
    → Holds packet j (encoded l ms ++ 0 ∷ [])
    → j + length (join l ms) + 2 ≤ len
    → length out + 1 + length (join l ms) < n
    → parse_loop fuel packet len n (at j none c out)
      ≡ some (ok (behind out (join l ms), j + length (join l ms) + 2))
unfolding parse_loop encoded join AllLabels finish_name
parse_loop-encoded zero packet len n l ms j c out f h hs held inside room = absurd (omega arith)
parse_loop-encoded (suc zero) packet len n l ms j c out f h hs held inside room =
    absurd (omega arith)
parse_loop-encoded (suc (suc fuel)) packet len n l [] j c out f h hs held inside room =
    let (size, rest) = Holds-cons packet j (length l) (l ++ 0 ∷ []) held in
    let (label, zeros) = Holds-append packet (j + 1) l (0 ∷ []) rest in
    let final : packet (j + 1 + length l) ≡ 0 =
      (Holds-cons packet (j + 1 + length l) 0 [] zeros).0 in
    let at_label : leb len j ≡ false = ground arith in
    let at_zero : leb len (j + 1 + length l) ≡ false = ground arith in
    let more : length l == 0 ≡ false = ground (arith, h.some_chars) in
    let short : length l / 64 == 0 ≡ true = ground (arith, h.short) in
    let fits : leb n (length (behind out l)) ≡ false = ground (arith, length-behind out l, room) in
    rw
      (
        size,
        at_label,
        more,
        short,
        copy_label-behind packet n l (j + 1) none c out h label room,
        at_zero,
        final,
        fits,
      )
      (ap (λ k. some (ok (behind out l, k))) (omega arith))
parse_loop-encoded (suc (suc fuel)) packet len n l (m ∷ ms) j c out f h hs held inside room =
    let name = join m ms in
    let jl = length-append l (dot ∷ name) in
    let bytes = append_assoc l (encoded m ms) (0 ∷ []) in
    let (size, rest) = Holds-cons packet j (length l) ((l ++ encoded m ms) ++ 0 ∷ []) held in
    let (label, others) =
      Holds-append packet (j + 1) l (encoded m ms ++ 0 ∷ [])
        (subst (Holds packet (j + 1)) bytes rest) in
    let at_label : leb len j ≡ false = ground (arith, jl) in
    let more : length l == 0 ≡ false = ground (arith, h.some_chars) in
    let short : length l / 64 == 0 ≡ true = ground (arith, h.short) in
    rw
      (
        size,
        at_label,
        more,
        short,
        copy_label-behind packet n l (j + 1) none c out h label (omega (arith, jl, room)),
      )
      (parse_loop-encoded (suc fuel) packet len n m ms (j + 1 + length l) c (behind out l)
          (omega arith) hs.0 hs.1 others (omega (arith, jl))
          (omega (arith, jl, room, length-behind out l))
        ∙ ap (λ (t : List ℕ). some (ok (t, j + 1 + length l + length name + 2)))
            (behind-append out l name h.some_chars)
        ∙ ap (λ k. some (ok (behind out (l ++ dot ∷ name), k))) (omega (arith, jl)))

-- name_parse of a packet that holds the bytes of a name.
pub parse-encoded :
    (packet : ℕ → ℕ) (len n j : ℕ) (l : List ℕ) (ms : List (List ℕ))
    → IsLabel l
    → AllLabels ms
    → Holds packet j (encoded l ms ++ 0 ∷ [])
    → j + length (join l ms) + 2 ≤ len
    → length (join l ms) + 1 < n
    → name_parse packet len j n ≡ some (ok (join l ms, j + length (join l ms) + 2))
unfolding name_parse
parse-encoded packet len n j l ms h hs held inside room =
    parse_loop-encoded (n + len + 1) packet len n l ms j 0 [] (omega (arith, count-join l ms)) h hs
      held inside (omega arith)

-- A name of labels of 1 to 63 characters each, at most 255 characters long, is read back: where there is room
-- in the buffer and no table, dnsname_to_labels writes one byte more than the characters and the zero,
-- leaves what stands before alone, and name_parse, on a packet that holds these bytes, into a buffer that
-- is longer than the name by two, returns the name and the index behind it.
pub name_parse-dnsname_to_labels :
    (memory : Bool) (buf_len len n : ℕ) (l : List ℕ) (ms : List (List ℕ)) (w : Writing)
    → w.table ≡ none
    → IsLabel l
    → AllLabels ms
    → length (join l ms) ≤ 255
    → w.j + length (join l ms) + 2 ≤ buf_len
    → buf_len ≤ len
    → length (join l ms) + 1 < n
    → Done
        (λ w'.
          (w'.j ≡ w.j + length (join l ms) + 2)
          × ((i : ℕ) → i < w.j → w'.buf i ≡ w.buf i)
          × (name_parse w'.buf len w.j n ≡ some (ok (join l ms, w'.j))))
        (dnsname_to_labels memory buf_len (join l ms) w)
name_parse-dnsname_to_labels memory buf_len len n l ms w e h hs short room inside big =
    Done-map (Wrote w (encoded l ms ++ 0 ∷ [])) _ (dnsname_to_labels memory buf_len (join l ms) w)
      (dnsname_to_labels-Wrote memory buf_len l ms w e h hs short (omega arith))
      (λ w' k.
        let next : w'.j ≡ w.j + length (join l ms) + 2 =
          omega (arith, k.index, length-append (encoded l ms) (0 ∷ []), length-encoded l ms) in
        (
          next,
          k.before,
          parse-encoded w'.buf len n w.j l ms h hs k.written (omega arith) (omega arith)
              ∙ ap (λ (i : ℕ). some (ok (join l ms, i))) (sym next),
        ))
