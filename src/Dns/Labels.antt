-- ===== src/Dns/Labels.antt =====
-- dnsname_to_labels writes the labels of a name, each behind its length.
use test_codes.Prelude.{
  ℕ, zero, suc, ◌+◌, ◌-◌, ◌≤◌, ◌<◌, ◌≡◌, refl, sym, ap, ◌∙◌, Bool, false, not, ◌||◌, List, [], ◌∷◌,
  ◌++◌, Option, none, some, ltb, ◌==◌, length, length-append, get_or, append_assoc, if_intro, arith,
}
use mathlib.Core.Path.{subst}
use test_codes.Prelude.Memory.{memcpy, slice-memcpy, Holds, append-Holds, Holds-cong, Holds-get_or}
use test_codes.Dns.{
  dot, LabelTable, split_dot, Writing, Encoded, done, too_long, overflow, known, put_label,
  terminate, after_label, label_round, label_loop, dnsname_to_labels,
}

-- Characters of a C string that are no dots.
unfoldable pub NoDot : List ℕ → Type 0
NoDot [] = Unit
NoDot (c ∷ cs) = (0 < c) × (c == dot ≡ false) × NoDot cs

pub record IsLabel (l : List ℕ) : Type 0 where
  pub some_chars : 0 < length l
  pub short : length l ≤ 63
  pub chars : NoDot l

unfoldable pub AllLabels : List (List ℕ) → Type 0
AllLabels [] = Unit
AllLabels (l ∷ ls) = IsLabel l × AllLabels ls

-- The name of a label and of those behind it, and the bytes that stand for them.
unfoldable pub join : List ℕ → List (List ℕ) → List ℕ
join l [] = l
join l (m ∷ ms) = l ++ dot ∷ join m ms

unfoldable pub encoded : List ℕ → List (List ℕ) → List ℕ
encoded l [] = length l ∷ l
encoded l (m ∷ ms) = length l ∷ (l ++ encoded m ms)

pub length-encoded :
    (l : List ℕ) (ms : List (List ℕ)) → length (encoded l ms) ≡ length (join l ms) + 1
unfolding encoded join
length-encoded l [] = omega arith
length-encoded l (m ∷ ms) =
    omega (
      arith,
      length-append l (encoded m ms),
      length-append l (dot ∷ join m ms),
      length-encoded m ms,
    )

pub count-join : (l : List ℕ) (ms : List (List ℕ)) → length ms ≤ length (join l ms)
unfolding join
count-join l [] = omega arith
count-join l (m ∷ ms) = omega (arith, length-append l (dot ∷ join m ms), count-join m ms)

split_dot-last : (l : List ℕ) → NoDot l → split_dot l ≡ (l, none)
unfolding split_dot NoDot
split_dot-last [] h = refl
split_dot-last (c ∷ l) h = rw (split_dot-last l h.2, h.1) refl

split_dot-next : (l r : List ℕ) → NoDot l → split_dot (l ++ dot ∷ r) ≡ (l, some r)
unfolding split_dot NoDot
split_dot-next [] r h = refl
split_dot-next (c ∷ l) r h = rw (split_dot-next l r h.2, h.1) refl

NoDot-get_or : (l : List ℕ) (k : ℕ) → NoDot l → k < length l → 0 < get_or l k 0
unfolding NoDot
NoDot-get_or [] k h i = absurd (omega arith)
NoDot-get_or (c ∷ l) zero h i = h.0
NoDot-get_or (c ∷ l) (suc k) h i = NoDot-get_or l k h.2 (omega arith)

-- The bytes `xs` have been written.
pub record Wrote (w : Writing) (xs : List ℕ) (w' : Writing) : Type 0 where
  pub written : Holds w'.buf w.j xs
  pub before : (i : ℕ) → i < w.j → w'.buf i ≡ w.buf i
  pub index : w'.j ≡ w.j + length xs
  pub no_table : w'.table ≡ none

pub Wrote-append :
    (w v u : Writing) (xs ys : List ℕ) → Wrote w xs v → Wrote v ys u → Wrote w (xs ++ ys) u
Wrote-append w v u xs ys h k = record {
  written =
      append-Holds u.buf w.j xs ys
        (Holds-cong v.buf u.buf w.j xs (λ i a b. k.before i (omega (arith, h.index))) h.written)
        (subst (λ i. Holds u.buf i ys) h.index k.written);
  before = λ i a. k.before i (omega (arith, h.index)) ∙ h.before i a;
  index = omega (arith, h.index, k.index, length-append xs ys);
  no_table = k.no_table;
}

pub memcpy-Wrote :
    (w : Writing) (xs : List ℕ)
    → w.table ≡ none
    → Wrote w xs (record w { buf = memcpy w.buf w.j xs; j = w.j + length xs })
unfolding memcpy
memcpy-Wrote w xs e = record {
  written = slice-memcpy w.buf w.j xs;
  before = λ i a. ground arith;
  index = refl;
  no_table = e;
}

abbrev pub Done : (Writing → Type 0) → Encoded → Type 0
Done P (done w) = P w
Done P too_long = ⊥
Done P overflow = ⊥

after_label-Done :
    (P Q : Writing → Type 0) (e : Encoded) (next : Writing → Encoded)
    → Done P e
    → ((w : Writing) → P w → Done Q (next w))
    → Done Q (after_label e next)
after_label-Done P Q (done w) next h k = k w h
after_label-Done P Q too_long next h k = h
after_label-Done P Q overflow next h k = h

put_label-Wrote :
    (memory : Bool) (n : ℕ) (start l : List ℕ) (w : Writing)
    → w.table ≡ none
    → IsLabel l
    → w.j + length l + 1 ≤ n
    → Done (Wrote w (length l ∷ l)) (put_label memory n start l w)
unfolding put_label
put_label-Wrote memory n start l w none_used h room =
    let P = Done (Wrote w (length l ∷ l)) in
    if_intro P (ltb 63 (length l)) (λ long. absurd (ground (arith, h.short)))
      (λ short.
        if_intro P (ltb n (w.j + length l + 1)) (λ full. absurd (ground arith))
          (λ fits.
            let m = memcpy-Wrote w (length l ∷ l) none_used in
            record {
              written = m.written;
              before = m.before;
              index = omega arith;
              no_table = rw none_used refl;
            }))

last-pos : (l : List ℕ) (n : ℕ) → NoDot l → 0 < length l → 0 < get_or (n ∷ l) (length l) 0
last-pos [] n h k = absurd (omega arith)
last-pos (x ∷ xs) n h k = NoDot-get_or (x ∷ xs) (length xs) h (omega arith)

-- Behind a label the byte is not zero, and the zero is written.
terminate-Wrote :
    (w v : Writing) (l : List ℕ)
    → IsLabel l
    → Wrote w (length l ∷ l) v
    → Wrote v (0 ∷ []) (terminate v)
unfolding terminate
terminate-Wrote w v l h k =
    let at : v.j - 1 ≡ w.j + length l = omega (arith, k.index, h.some_chars) in
    let last : v.buf (w.j + length l) ≡ get_or (length l ∷ l) (length l) 0 =
      Holds-get_or v.buf w.j (length l) (length l ∷ l) k.written (omega arith) in
    let pos : 0 < get_or (length l ∷ l) (length l) 0 = last-pos l (length l) h.chars h.some_chars in
    let m = memcpy-Wrote v (0 ∷ []) k.no_table in
    if_intro (Wrote v (0 ∷ [])) (v.j == 0 || not (v.buf (v.j - 1) == 0)) (λ ends. m)
      (λ ended. absurd (ground (arith, last, pos, ap v.buf at)))

known-none : (o : Option LabelTable) (name : List ℕ) → o ≡ none → known o name ≡ none
known-none none name e = refl
known-none (some t) name e = cc

pub Done-map :
    (P Q : Writing → Type 0) (e : Encoded) → Done P e → ((w : Writing) → P w → Q w) → Done Q e
Done-map P Q (done w) h k = k w h
Done-map P Q too_long h k = h
Done-map P Q overflow h k = h

label_loop-Wrote :
    (fuel : ℕ) (memory : Bool) (n : ℕ) (l : List ℕ) (ms : List (List ℕ)) (w : Writing)
    → length ms < fuel
    → w.table ≡ none
    → IsLabel l
    → AllLabels ms
    → w.j + length (join l ms) + 1 ≤ n
    → Done (Wrote w (encoded l ms ++ 0 ∷ [])) (label_loop fuel memory n (join l ms) w)
unfolding label_loop label_round join encoded AllLabels
label_loop-Wrote zero memory n l ms w f e h hs room = absurd (omega arith)
label_loop-Wrote (suc fuel) memory n l [] w f e h hs room =
    rw (split_dot-last l h.chars, known-none w.table l e)
      (after_label-Done _ _ (put_label memory n l l w) _ (put_label-Wrote memory n l l w e h room)
        (λ v k.
          Wrote-append w v (terminate v) (length l ∷ l) (0 ∷ []) k (terminate-Wrote w v l h k)))
label_loop-Wrote (suc fuel) memory n l (m ∷ ms) w f e h hs room =
    let rest = join m ms in
    let len = length-append l (dot ∷ rest) in
    rw (split_dot-next l rest h.chars, known-none w.table (l ++ dot ∷ rest) e)
      (after_label-Done _ _ (put_label memory n (l ++ dot ∷ rest) l w) _
        (put_label-Wrote memory n (l ++ dot ∷ rest) l w e h (omega (arith, len)))
        (λ v k.
          let fits : v.j + length (join m ms) + 1 ≤ n = omega (arith, k.index, len) in
          let deeper =
            label_loop-Wrote fuel memory n m ms v (omega arith) k.no_table hs.0 hs.1 fits in
          Done-map (Wrote v (encoded m ms ++ 0 ∷ [])) _ (label_loop fuel memory n rest v) deeper
            (λ u d.
              subst (λ (t : List ℕ). Wrote w t u)
                (sym (ap (λ (t : List ℕ). length l ∷ t) (append_assoc l (encoded m ms) (0 ∷ []))))
                (Wrote-append w v u (length l ∷ l) (encoded m ms ++ 0 ∷ []) k d))))

pub dnsname_to_labels-Wrote :
    (memory : Bool) (n : ℕ) (l : List ℕ) (ms : List (List ℕ)) (w : Writing)
    → w.table ≡ none
    → IsLabel l
    → AllLabels ms
    → length (join l ms) ≤ 255
    → w.j + length (join l ms) + 1 ≤ n
    → Done (Wrote w (encoded l ms ++ 0 ∷ [])) (dnsname_to_labels memory n (join l ms) w)
unfolding dnsname_to_labels
dnsname_to_labels-Wrote memory n l ms w e h hs short room =
    if_intro (Done (Wrote w (encoded l ms ++ 0 ∷ []))) (ltb 255 (length (join l ms)))
      (λ long. absurd (ground arith))
      (λ fits.
        label_loop-Wrote (length (join l ms) + 1) memory n l ms w (omega (arith, count-join l ms)) e
          h hs room)
