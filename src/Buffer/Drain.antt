-- ===== src/Buffer/Drain.antt =====
-- evbuffer_drain, evbuffer_copyout and evbuffer_remove of buffer.c.
pub mod Remove
use test_codes.Prelude.Memory.{drop-slice, length-slice, slice, take-slice}
use test_codes.Prelude.{
  ℕ, zero, suc, ◌+◌, ◌-◌, ◌≤◌, ◌<◌, ◌≡◌, inl, inr, refl, sym, ap, ◌∙◌, Bool, true, false, List, [],
  ◌∷◌, ◌++◌, Option, none, some, ltb, leb, ◌&&◌, ◌==◌, if◌then◌else◌, ◌>>=◌, length, take, drop,
  min, length-take, drop-append_behind, drop-append_within, take-append_behind, take-append_within,
  drop_all, drop_nil, take-min, drop-min, take-append-drop, ==_iff, append-nil, Bool-cases,
  if_intro, Then, Then-map, Then-bind, arith,
}
use mathlib.Core.Path.{subst}
use test_codes.Buffer.{Chain, Evbuffer, evbuffer_invoke_callbacks}
use test_codes.Buffer.Chains.{
  bytes, contents, size, AllFit, EndsIn, AtLast, EndsIn-AtLast, IsBuffer, told, Became,
  evbuffer_invoke_callbacks-Became, length-contents,
}

-- The front of a chain is drained.
abbrev pub skip : ℕ → Chain → Chain
skip n c = record c { misalign = c.misalign + n; off = c.off - n }

-- The loop of evbuffer_drain, which frees chains, with what follows it. last_with_datap becomes
-- &buf->first when its chain, or the chain that it stands in, is freed; else one chain less stands
-- before it.
pub drain_chains : ℕ → List Chain → ℕ → Option (List Chain × ℕ)
drain_chains remaining [] l = none
drain_chains remaining (c ∷ cs) l =
    if leb c.off remaining
    then drain_chains (remaining - c.off) cs (l - 1)
    else some (skip remaining c ∷ cs, l)

pub drained : Evbuffer → ℕ → List Chain × ℕ → Evbuffer
drained b len (chains, l) = evbuffer_invoke_callbacks (record b {
  chains = chains;
  last_with_datap = l;
  total_len = b.total_len - len;
  n_del_for_cb = b.n_del_for_cb + len;
})

-- evbuffer_drain: whether the result is -1, and the buffer.
pub evbuffer_drain : Evbuffer → ℕ → Option (Bool × Evbuffer)
unfolding drain_chains drained
evbuffer_drain b len =
    if b.total_len == 0
    then some (false, b)
    else if b.freeze_start
    then some (true, b)
    else if leb b.total_len len
    then some (false, drained b b.total_len ([], 0))
    else (drain_chains len b.chains b.last_with_datap >>= λ r. some (false, drained b len r))

-- The loop of evbuffer_copyout.
pub copy_chains : ℕ → List Chain → Option (List ℕ)
copy_chains datlen [] = if datlen == 0 then some [] else none
copy_chains datlen (c ∷ cs) =
    if datlen == 0
    then some []
    else if leb c.off datlen
    then (copy_chains (datlen - c.off) cs >>= λ rest. some (bytes c ++ rest))
    else some (slice c.buffer c.misalign datlen)

-- evbuffer_copyout: `none` for -1, and the bytes that it copies.
pub evbuffer_copyout : Evbuffer → ℕ → Option (Option (List ℕ))
unfolding copy_chains
evbuffer_copyout b datlen =
    let n = if leb b.total_len datlen then b.total_len else datlen in
    if n == 0
    then some (some [])
    else if b.freeze_start
    then some none
    else (copy_chains n b.chains >>= λ xs. some (some xs))

pub drain_copied : Evbuffer → Option (List ℕ) → Option (Option (List ℕ) × Evbuffer)
unfolding evbuffer_drain
drain_copied b none = some (none, b)
drain_copied b (some []) = some (some [], b)
drain_copied b (some (x ∷ xs)) = do
  (failing, b') ← evbuffer_drain b (length (x ∷ xs))
  some (if failing then none else some (x ∷ xs), b')

-- evbuffer_remove, of which the result is the bytes, or `none` for -1.
pub evbuffer_remove : Evbuffer → ℕ → Option (Option (List ℕ) × Evbuffer)
unfolding evbuffer_copyout drain_copied
evbuffer_remove b datlen = evbuffer_copyout b datlen >>= drain_copied b

record Rest (cs : List Chain) (n : ℕ) (r : List Chain × ℕ) : Type 0 where
  fits : AllFit r.0
  at_last : AtLast r.1 r.0
  content : contents r.0 ≡ drop n (contents cs)
  sizes : size r.0 + n ≡ size cs

pub skip-bytes : (n : ℕ) (c : Chain) → n ≤ c.off → bytes (skip n c) ≡ drop n (bytes c)
skip-bytes n c h = sym (drop-slice c.buffer c.misalign c.off n h)

pub AtLast-skip :
    (l n : ℕ) (c : Chain) (cs : List Chain)
    → n < c.off
    → AtLast l (c ∷ cs)
    → AtLast l (skip n c ∷ cs)
unfolding AtLast EndsIn
AtLast-skip l n c [] h at = at
AtLast-skip zero n c (d ∷ cs) h at = at
AtLast-skip (suc l) n c (d ∷ cs) h at = (omega (arith, h), at.1)

pub AtLast-tail : (l : ℕ) (c : Chain) (cs : List Chain) → AtLast l (c ∷ cs) → AtLast (l - 1) cs
unfolding AtLast EndsIn
AtLast-tail l c [] at = omega (arith, at)
AtLast-tail zero c (d ∷ cs) at = absurd at
AtLast-tail (suc l) c (d ∷ cs) at =
    let e : l ≡ suc l - 1 = omega arith in
    subst (λ k. AtLast k (d ∷ cs)) e (EndsIn-AtLast l (d ∷ cs) at.1)

drain_chains-Rest :
    (n : ℕ) (cs : List Chain) (l : ℕ)
    → AllFit cs
    → AtLast l cs
    → n < size cs
    → Then (Rest cs n) (drain_chains n cs l)
unfolding drain_chains AllFit contents size
drain_chains-Rest n [] l fits at k = absurd (omega arith)
drain_chains-Rest n (c ∷ cs) l fits at k =
    let len = length-slice c.buffer c.misalign c.off in
    elim (Bool-cases (leb c.off n)) [
      | inl whole ↦ rw whole (
          Then-map _ _ (drain_chains (n - c.off) cs (l - 1))
            (drain_chains-Rest (n - c.off) cs (l - 1) fits.1 (AtLast-tail l c cs at) (ground arith))
            (λ r h. record {
              fits = h.fits;
              at_last = h.at_last;
              content =
                  h.content
                  ∙ sym (
                      drop-append_behind n (bytes c) (contents cs) (ground (arith, len))
                      ∙ ap (λ k. drop (n - k) (contents cs)) len);
              sizes = ground (arith, h.sizes);
            }))
      | inr part ↦
          let inside : n < c.off = ground arith in
          rw part (record {
            fits = (omega (arith, fits.0), fits.1);
            at_last = AtLast-skip l n c cs inside at;
            content =
                ap (λ (t : List ℕ). t ++ contents cs) (skip-bytes n c (omega arith))
                ∙ sym (drop-append_within n (bytes c) (contents cs) (omega (arith, len)));
            sizes = omega arith;
          })
    ]

pub copy_chains-take :
    (n : ℕ) (cs : List Chain) → n ≤ size cs → copy_chains n cs ≡ some (take n (contents cs))
unfolding copy_chains contents size
copy_chains-take n [] h = let e : n ≡ 0 = omega arith in rw e refl
copy_chains-take n (c ∷ cs) h =
    let len = length-slice c.buffer c.misalign c.off in
    elim (Bool-cases (n == 0)) [
      | inl stop ↦ let e : n ≡ 0 = ground arith in rw e refl
      | inr more ↦ elim (Bool-cases (leb c.off n)) [
        | inl whole ↦
            rw (more, whole, copy_chains-take (n - c.off) cs (ground arith))
              (ap some (
                sym (
                  take-append_behind n (bytes c) (contents cs) (ground (arith, len))
                  ∙ ap (λ k. bytes c ++ take (n - k) (contents cs)) len)))
        | inr part ↦
            rw (more, part)
              (ap some (
                sym (
                  take-append_within n (bytes c) (contents cs) (ground (arith, len))
                  ∙ take-slice c.buffer c.misalign c.off n (ground arith))))
      ]
    ]

-- Whether the frozen front keeps a call from taking `k` bytes, of which there are some.
abbrev pub blocked : Evbuffer → ℕ → Bool
blocked b k = b.freeze_start && ltb 0 k

-- The two results of evbuffer_drain, -1 first.
abbrev pub Drained : Evbuffer → ℕ → Bool × Evbuffer → Type 0
Drained b len (true, c) = (c ≡ b) × (blocked b (size b.chains) ≡ true)
Drained b len (false, c) =
    (blocked b (size b.chains) ≡ false)
    × Became b (drop len (contents b.chains)) 0 (min len (size b.chains)) c

pub told_nothing : (b : Evbuffer) (orig : ℕ) → told b orig 0 0 ≡ []
told_nothing b orig = ground arith

-- A buffer that a call leaves as it is.
pub unchanged-Became :
    (b : Evbuffer) (xs : List ℕ) (n : ℕ)
    → IsBuffer b
    → contents b.chains ≡ xs
    → n ≡ 0
    → Became b xs 0 n b
unchanged-Became b xs n s same none_gone = record {
  is_buffer = s;
  content = same;
  reported = rw none_gone (rw (told_nothing b (size b.chains)) (sym (append-nil b.reports)));
  same_callbacks = refl;
  same_freeze_start = refl;
  same_freeze_end = refl;
}

drained-Became :
    (b : Evbuffer) (len : ℕ) (r : List Chain × ℕ)
    → IsBuffer b
    → Rest b.chains len r
    → Became b (drop len (contents b.chains)) 0 len (drained b len r)
unfolding drained
drained-Became b len (cs, l) s h = evbuffer_invoke_callbacks-Became b _ _ _ _ (record {
  fits = h.fits;
  total = omega (arith, s.total, h.sizes);
  at_last = h.at_last;
  content = h.content;
  n_add = s.no_add;
  n_del = omega (arith, s.no_del);
  balance = omega (arith, h.sizes);
  reports = refl;
  same_callbacks = refl;
  same_freeze_start = refl;
  same_freeze_end = refl;
})

all-Rest : (cs : List Chain) → Rest cs (size cs) ([], 0)
unfolding AllFit AtLast
all-Rest cs = record {
  fits = tt;
  at_last = refl;
  content =
      (unfold contents in
        sym (drop_all (size cs) (contents cs) (omega (arith, length-contents cs))));
  sizes = (unfold size in omega arith);
}

pub evbuffer_drain-Drained :
    (b : Evbuffer) (len : ℕ) → IsBuffer b → Then (Drained b len) (evbuffer_drain b len)
unfolding evbuffer_drain
evbuffer_drain-Drained b len s =
    let total = s.total in
    let len_all = length-contents b.chains in
    if_intro (Then (Drained b len)) (b.total_len == 0)
      (λ empty.
        let no_bytes : drop len (contents b.chains) ≡ contents b.chains =
          drop_nil len (contents b.chains) (ground (arith, total, len_all)) in
        (
          ground (arith, total, empty),
          unchanged-Became b _ _ s (sym no_bytes) (ground (arith, total)),
        ))
      (λ some_bytes.
        if_intro (Then (Drained b len)) b.freeze_start (λ frozen. (refl, ground (arith, total)))
          (λ thawed.
            let free : blocked b (size b.chains) ≡ false = ground (arith, thawed) in
            if_intro (Then (Drained b len)) (leb b.total_len len)
              (λ whole.
                let gone : min len (size b.chains) ≡ b.total_len = ground (arith, total) in
                let none_left : drop len (contents b.chains)
                    ≡ drop b.total_len (contents b.chains) =
                  drop_all len (contents b.chains) (ground (arith, total, len_all))
                  ∙ sym
                      (drop_all b.total_len (contents b.chains) (ground (arith, total, len_all))) in
                rw (gone, none_left)
                  (free, drained-Became b b.total_len ([], 0) s (rw total (all-Rest b.chains))))
              (λ part.
                let gone : min len (size b.chains) ≡ len = ground (arith, total) in
                Then-bind _ _ (drain_chains len b.chains b.last_with_datap) _
                  (drain_chains-Rest len b.chains b.last_with_datap s.fits s.at_last
                    (ground (arith, total)))
                  (λ r h. rw gone (free, drained-Became b len r s h)))))
