-- ===== src/Buffer/Move/Part.antt =====
-- evbuffer_remove_buffer moves the first bytes of one buffer to another.
use test_codes.Prelude.Memory.{length-slice, slice, take-slice}
use test_codes.Prelude.{
  ℕ, zero, suc, ◌+◌, ◌-◌, ◌≤◌, ◌<◌, ◌≡◌, inl, inr, refl, sym, ap, ◌∙◌, Bool, true, false, not, ◌&&◌,
  ◌||◌, List, [], ◌∷◌, ◌++◌, Option, none, some, leb, ◌==◌, if◌then◌else◌, length, take, drop, min,
  take_all, drop_all, take-append_behind, take-append_within, drop-append_behind,
  drop-append_within, append-nil, append_assoc, if_intro, Then, Then-bind, arith,
}
use test_codes.Buffer.{Chain, Evbuffer, split_victims, evbuffer_invoke_callbacks}
use test_codes.Buffer.Chains.{
  bytes, contents, size, AllFit, AllWritable, EndsIn-AtLast, AtLast-EndsIn, contents-append,
  size-append, AllFit-append, length-contents, IsBuffer, Became, Changed,
  evbuffer_invoke_callbacks-Became,
}
use test_codes.Buffer.Add.{
  last_chain, Addable, AddedTo, evbuffer_add, evbuffer_add-AddedTo, IsBuffer-Changed,
}
use test_codes.Buffer.Drain.{skip, skip-bytes, AtLast-skip, unchanged-Became}
use test_codes.Buffer.Move.{
  Cut, cut_chains, take_over, cut_off, finish_part, move_part, evbuffer_add_buffer,
  evbuffer_remove_buffer,
}
use test_codes.Buffer.Move.Whole.{MovedAll, evbuffer_add_buffer-MovedAll, empty_contents}
use test_codes.Buffer.Move.Split.{
  EndsOrNone, EndsOrNone-none, IsCut, cut_chains-IsCut, advance-AtLast, split_victims-IsKept,
}

AllWritable-append : (xs ys : List Chain) → AllWritable xs → AllWritable ys → AllWritable (xs ++ ys)
unfolding AllWritable
AllWritable-append [] ys h g = g
AllWritable-append (c ∷ xs) ys h g = (h.0, AllWritable-append xs ys h.1 g)

AllWritable-Addable : (cs : List Chain) (xs : List ℕ) → AllWritable cs → Addable cs xs
unfolding AllWritable last_chain
AllWritable-Addable [] xs h c last im = cc
AllWritable-Addable (d ∷ []) xs h c last im =
    let same : d ≡ c = cc in let w : c.immutable ≡ false = ap Chain.immutable (sym same) ∙ h.0 in cc
AllWritable-Addable (d ∷ e ∷ cs) xs h c last im = AllWritable-Addable (e ∷ cs) xs h.1 c last im

split_victims-AllWritable :
    (l : ℕ) (cs : List Chain) → AllWritable cs → AllWritable (split_victims l cs).0
unfolding AllWritable split_victims
split_victims-AllWritable l [] h = tt
split_victims-AllWritable zero (c ∷ cs) h =
    if_intro (λ (r : List Chain × List Chain). AllWritable r.0) (c.off == 0) (λ empty. tt)
      (λ full. (h.0, split_victims-AllWritable zero cs h.1))
split_victims-AllWritable (suc l) (c ∷ cs) h = (h.0, split_victims-AllWritable l cs h.1)

-- The destination once it has the chains, with the writing still to come.
record TookOver (dst : Evbuffer) (moved : List Chain) (d : Evbuffer) : Type 0 where
  changed : Changed dst (contents dst.chains ++ contents moved) (size moved) 0 d
  writable : AllWritable d.chains

module _ (dst : Evbuffer) (moved : List Chain) (s : IsBuffer dst) where
  take_over-TookOver :
      AllWritable dst.chains
      → AllWritable moved
      → AllFit moved
      → EndsOrNone moved
      → Then (TookOver dst moved) (take_over dst moved)
  unfolding take_over
  take_over-TookOver wd wm fits ends =
      let k = split_victims-IsKept dst.last_with_datap dst.chains s.fits s.at_last in
      let kept = (split_victims dst.last_with_datap dst.chains).0 in
      if_intro (Then (TookOver dst moved)) (size moved == 0)
        (λ nothing.
          let none_there : size moved ≡ 0 = ground arith in
          record {
            changed =
                rw (empty_contents moved none_there, none_there, append-nil (contents dst.chains))
                  (IsBuffer-Changed dst s);
            writable = wd;
          })
        (λ something. rw (k.victims) (record {
          changed = record {
            fits = AllFit-append kept moved k.kept_fits fits;
            total = omega (arith, size-append kept moved, k.kept_size, s.total);
            at_last = advance-AtLast dst.last_with_datap kept moved k.kept_data ends (ground arith);
            content =
                contents-append kept moved
                ∙ ap (λ (t : List ℕ). t ++ contents moved) k.kept_content;
            n_add = omega (arith, s.no_add);
            n_del = s.no_del;
            balance = omega (arith, size-append kept moved, k.kept_size);
            reports = refl;
            same_callbacks = refl;
            same_freeze_start = refl;
            same_freeze_end = refl;
          };
          writable =
              AllWritable-append kept moved
                (split_victims-AllWritable dst.last_with_datap dst.chains wd) wm;
        }))

again-Became :
    (b c : Evbuffer) (xs : List ℕ) (n k : ℕ)
    → Became b xs n k c
    → Became b xs n k (evbuffer_invoke_callbacks c)
unfolding evbuffer_invoke_callbacks
again-Became b c xs n k h =
    let quiet : c.has_callbacks && not (c.n_add_for_cb == 0 && c.n_del_for_cb == 0) ≡ false =
      ground (arith, h.is_buffer.no_add, h.is_buffer.no_del) in
    rw quiet (record {
      is_buffer = record {
        fits = h.is_buffer.fits;
        total = h.is_buffer.total;
        at_last = h.is_buffer.at_last;
        no_add = refl;
        no_del = refl;
      };
      content = h.content;
      reported = h.reported;
      same_callbacks = h.same_callbacks;
      same_freeze_start = h.same_freeze_start;
      same_freeze_end = h.same_freeze_end;
    })

-- The results of evbuffer_remove_buffer.
abbrev pub MovedPart : Evbuffer → Evbuffer → ℕ → Option ℕ × Evbuffer × Evbuffer → Type 0
MovedPart src dst n (none, src', dst') =
    (dst.freeze_end || src.freeze_start ≡ true) × (src' ≡ src) × (dst' ≡ dst)
MovedPart src dst n (some k, src', dst') =
    (k ≡ min n (size src.chains))
    × Became src (drop n (contents src.chains)) 0 k src'
    × Became dst (contents dst.chains ++ take n (contents src.chains)) k 0 dst'

module _ (src dst : Evbuffer) (n : ℕ) (r : Cut) (s : IsBuffer src)
    (cut : IsCut src.chains n r) where
  moved_part :
      take n (contents src.chains) ≡ contents r.moved ++ slice r.head.buffer r.head.misalign r.left
  unfolding contents
  moved_part =
      let head = length-slice r.head.buffer r.head.misalign r.head.off in
      let len = length-contents r.moved in
      let behind : n - length (contents r.moved) ≡ r.left = omega (arith, cut.count, len) in
      ap (take n) cut.content
      ∙ take-append_behind n (contents r.moved) _ (omega (arith, cut.count, len))
      ∙ ap (λ k. contents r.moved ++ take k (bytes r.head ++ contents r.behind)) behind
      ∙ ap (λ (t : List ℕ). contents r.moved ++ t)
          (take-append_within r.left (bytes r.head) (contents r.behind)
              (omega (arith, cut.inside, head))
            ∙ take-slice r.head.buffer r.head.misalign r.head.off r.left
                (omega (arith, cut.inside)))

  kept_part : drop n (contents src.chains) ≡ contents (skip r.left r.head ∷ r.behind)
  unfolding contents
  kept_part =
      let head = length-slice r.head.buffer r.head.misalign r.head.off in
      let len = length-contents r.moved in
      let behind : n - length (contents r.moved) ≡ r.left = omega (arith, cut.count, len) in
      ap (drop n) cut.content
      ∙ drop-append_behind n (contents r.moved) _ (omega (arith, cut.count, len))
      ∙ ap (λ k. drop k (bytes r.head ++ contents r.behind)) behind
      ∙ drop-append_within r.left (bytes r.head) (contents r.behind)
          (omega (arith, cut.inside, head))
      ∙ ap (λ (t : List ℕ). t ++ contents r.behind)
          (sym (skip-bytes r.left r.head (omega (arith, cut.inside))))

  kept_chains :
      (if size r.moved == 0
        then r.moved ++ skip r.left r.head ∷ r.behind
        else skip r.left r.head ∷ r.behind)
      ≡ skip r.left r.head ∷ r.behind
  kept_chains =
      if_intro (λ (t : List Chain). t ≡ skip r.left r.head ∷ r.behind) (size r.moved == 0)
        (λ nothing.
          ap (λ (t : List Chain). t ++ skip r.left r.head ∷ r.behind)
            (EndsOrNone-none r.moved cut.moved_data (ground arith)))
        (λ something. refl)

  kept_last :
      (if size r.moved == 0 && not (r.last_with_datap == 0)
        then length r.moved + r.last_with_datap
        else r.last_with_datap)
      ≡ r.last_with_datap
  kept_last =
      if_intro (λ (l : ℕ). l ≡ r.last_with_datap)
        (size r.moved == 0 && not (r.last_with_datap == 0))
        (λ nothing.
          omega (arith, ap length (EndsOrNone-none r.moved cut.moved_data (ground arith))))
        (λ something. refl)

  cut_off-Changed : Changed src (drop n (contents src.chains)) 0 n (cut_off src r n)
  unfolding AllFit size
  cut_off-Changed =
      rw (kept_chains, kept_last)
        (record {
          fits = (omega (arith, cut.fits_rest.0, cut.inside), cut.fits_rest.1);
          total = omega (arith, s.total, cut.sizes, cut.count, cut.inside);
          at_last =
              AtLast-skip r.last_with_datap r.left r.head r.behind cut.inside
                (EndsIn-AtLast _ _ cut.at_last);
          content = sym kept_part;
          n_add = s.no_add;
          n_del = omega (arith, s.no_del);
          balance = omega (arith, cut.sizes, cut.count, cut.inside);
          reports = refl;
          same_callbacks = refl;
          same_freeze_start = refl;
          same_freeze_end = refl;
        })

  finish_part-MovedPart :
      (mem : ℕ → ℕ) (d : Evbuffer) (a : Bool × Evbuffer)
      → TookOver dst r.moved d
      → AddedTo dst
          (contents dst.chains ++ contents r.moved)
          (size r.moved)
          (some mem)
          d
          (slice r.head.buffer r.head.misalign r.left)
          a
      → dst.freeze_end ≡ false
      → 0 < n
      → n < size src.chains
      → MovedPart src dst n (finish_part src r a.1)
  unfolding finish_part
  finish_part-MovedPart mem d (true, e) took (same, inl frozen) open_end pos short =
      let thawed = took.changed.same_freeze_end ∙ open_end in cc
  finish_part-MovedPart mem d (true, e) took (same, inr no_memory) open_end pos short = cc
  finish_part-MovedPart mem d (false, e) took (thawed, became) open_end pos short =
      let last_len = length-slice r.head.buffer r.head.misalign r.left in
      let some_bytes : n == 0 ≡ false = ground arith in
      let shorter : min n (size src.chains) ≡ n = omega (arith, short) in
      let content =
        append_assoc (contents dst.chains) (contents r.moved)
          (slice r.head.buffer r.head.misalign r.left)
        ∙ ap (λ (t : List ℕ). contents dst.chains ++ t) (sym moved_part) in
      let count : size r.moved + length (slice r.head.buffer r.head.misalign r.left) ≡ n =
        omega (arith, last_len, cut.count) in
      let now : Became dst (contents dst.chains ++ take n (contents src.chains)) n 0 e =
        rw (content, count) at became in
      rw (cut.count, some_bytes)
        (
          sym shorter,
          evbuffer_invoke_callbacks-Became src _ _ _ _ cut_off-Changed,
          again-Became dst e _ _ _ now,
        )

  move_part-MovedPart :
      (mem : ℕ → ℕ)
      → IsBuffer dst
      → AllWritable dst.chains
      → dst.freeze_end ≡ false
      → 0 < n
      → n < size src.chains
      → Then (MovedPart src dst n) (move_part (some mem) src dst r)
  unfolding move_part
  move_part-MovedPart mem t w open_end pos short =
      let last_bytes = slice r.head.buffer r.head.misalign r.left in
      Then-bind _ _ (take_over dst r.moved) _
        (take_over-TookOver dst r.moved t w cut.writable cut.fits_moved cut.moved_data)
        (λ d took.
          Then-bind _ _ (evbuffer_add (some mem) d last_bytes) _
            (evbuffer_add-AddedTo dst _ (size r.moved) (some mem) d last_bytes took.changed
              (AllWritable-Addable d.chains last_bytes took.writable))
            (λ a added. finish_part-MovedPart mem d a took added open_end pos short))

-- evbuffer_add_buffer in evbuffer_remove_buffer, where neither is frozen.
whole-MovedPart :
    (src dst : Evbuffer) (n k : ℕ) (r : Bool × Evbuffer × Evbuffer)
    → size src.chains ≡ k
    → dst.freeze_end || src.freeze_start ≡ false
    → size src.chains ≤ n
    → MovedAll dst src
        (dst.freeze_end || src.freeze_start)
        (contents dst.chains ++ contents src.chains)
        r
    → MovedPart src dst n (some k, r.2, r.1)
whole-MovedPart src dst n k (true, d, c) s thawed h (frozen, same, kept) =
    absurd (ground (arith, thawed, frozen))
whole-MovedPart src dst n k (false, d, c) s thawed h (free, grown, emptied) =
    let len = length-contents src.chains in
    let all : take n (contents src.chains) ≡ contents src.chains =
      take_all n (contents src.chains) (omega (arith, len, h)) in
    let gone : drop n (contents src.chains) ≡ [] =
      drop_all n (contents src.chains) (omega (arith, len, h)) in
    (omega (arith, s, h), rw gone (rw s at emptied), rw all (rw s at grown))

-- evbuffer_remove_buffer, between two different well-formed buffers of chains that are not immutable and with
-- memory, meets no failed assertion. It moves the first `n` bytes of the source, all where there are
-- fewer, behind those of the destination, returns how many, and leaves both buffers well-formed, with
-- the callbacks of both told once; it returns -1 only where the end of the destination or the front
-- of the source is frozen, and changes nothing then.
pub evbuffer_remove_buffer-MovedPart :
    (mem : ℕ → ℕ) (src dst : Evbuffer) (n : ℕ)
    → IsBuffer src
    → IsBuffer dst
    → AllWritable src.chains
    → AllWritable dst.chains
    → Then (MovedPart src dst n) (evbuffer_remove_buffer (some mem) src dst n)
unfolding evbuffer_remove_buffer
evbuffer_remove_buffer-MovedPart mem src dst n s t ws wd =
    let P = MovedPart src dst n in
    if_intro (Then P) (n == 0)
      (λ nothing.
        let zero_there : n ≡ 0 = ground arith in
        rw zero_there (
          omega arith,
          unchanged-Became src _ 0 s refl refl,
          unchanged-Became dst _ 0 t (sym (append-nil (contents dst.chains))) refl,
        ))
      (λ something.
        if_intro (Then P) (dst.freeze_end || src.freeze_start) (λ frozen. (frozen, refl, refl))
          (λ thawed.
            if_intro (Then P) (leb src.total_len n)
              (λ whole.
                whole-MovedPart src dst n src.total_len (evbuffer_add_buffer dst src) (sym s.total)
                  thawed (ground (arith, s.total)) (evbuffer_add_buffer-MovedAll dst src t s))
              (λ part.
                let short : n < size src.chains = ground (arith, s.total) in
                let ends =
                  AtLast-EndsIn src.last_with_datap src.chains s.at_last (omega (arith, short)) in
                Then-bind _ _ (cut_chains true n src.chains src.last_with_datap) _
                  (cut_chains-IsCut true n src.chains src.last_with_datap s.fits ws ends short)
                  (λ r cut.
                    move_part-MovedPart src dst n r s cut mem t wd (ground arith) (ground arith)
                      short))))
