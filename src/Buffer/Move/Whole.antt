-- ===== src/Buffer/Move/Whole.antt =====
-- evbuffer_add_buffer and evbuffer_prepend_buffer move all bytes.
use test_codes.Prelude.{
  ℕ, ◌+◌, ◌<◌, ◌≡◌, refl, sym, ap, ◌∙◌, Bool, true, false, ◌&&◌, ◌||◌, ltb, List, [], ◌∷◌, ◌++◌,
  leb, ◌==◌, length, append-nil, if_intro, arith,
}
use test_codes.Buffer.{Chain, Evbuffer, zero_chain}
use test_codes.Buffer.Chains.{
  contents, size, AllFit, EndsIn, AtLast, EndsIn-AtLast, AtLast-EndsIn, EndsIn-append,
  length-EndsIn, contents-append, size-append, AllFit-append, length-contents, IsBuffer, Became,
  Changed, evbuffer_invoke_callbacks-Became,
}
use test_codes.Buffer.Drain.{unchanged-Became}
use test_codes.Buffer.Move.{
  copy_chain, append_chain, prepend_chain, moved_all, evbuffer_add_buffer, evbuffer_prepend_buffer,
}

-- The results of a call that moves all bytes of `inbuf`, so that `outbuf` comes to hold `xs`; -1
-- first, which `frozen` brings about.
abbrev pub MovedAll : Evbuffer → Evbuffer → Bool → List ℕ → Bool × Evbuffer × Evbuffer → Type 0
MovedAll outbuf inbuf frozen xs (true, out', in') =
    (frozen && ltb 0 (size inbuf.chains) ≡ true) × (out' ≡ outbuf) × (in' ≡ inbuf)
MovedAll outbuf inbuf frozen xs (false, out', in') =
    (frozen && ltb 0 (size inbuf.chains) ≡ false)
    × Became outbuf xs (size inbuf.chains) 0 out'
    × Became inbuf [] 0 (size inbuf.chains) in'

pub empty_contents : (cs : List Chain) → size cs ≡ 0 → contents cs ≡ []
empty_contents cs h = no_length (contents cs) (length-contents cs ∙ h)
  where
    no_length : (xs : List ℕ) → length xs ≡ 0 → xs ≡ []
    no_length [] e = refl
    no_length (x ∷ xs) e = absurd (omega (arith, e))

zeroed-Changed :
    (b : Evbuffer)
    → IsBuffer b
    → Changed b [] 0
        (size b.chains)
        (record (zero_chain b) { n_del_for_cb = b.n_del_for_cb + b.total_len })
unfolding AllFit AtLast contents size
zeroed-Changed b s = record {
  fits = tt;
  total = refl;
  at_last = refl;
  content = refl;
  n_add = s.no_add;
  n_del = omega (arith, s.no_del, s.total);
  balance = omega arith;
  reports = refl;
  same_callbacks = refl;
  same_freeze_start = refl;
  same_freeze_end = refl;
}

module _ (outbuf inbuf : Evbuffer) (s : IsBuffer outbuf) (t : IsBuffer inbuf)
    (some_bytes : 0 < size inbuf.chains) where
  -- What is left to show of the buffer that gets the chains.
  record Joined (xs : List ℕ) (c : Evbuffer) : Type 0 where
    fits : AllFit c.chains
    at_last : AtLast c.last_with_datap c.chains
    content : contents c.chains ≡ xs
    sizes : size c.chains ≡ size outbuf.chains + size inbuf.chains
    total : c.total_len ≡ outbuf.total_len + inbuf.total_len
    rest : c ≡ record outbuf {
      chains = c.chains;
      last_with_datap = c.last_with_datap;
      total_len = c.total_len;
    }

  moved_all-MovedAll :
      (frozen : Bool) (xs : List ℕ) (c : Evbuffer)
      → frozen ≡ false
      → Joined xs c
      → MovedAll outbuf inbuf frozen xs (moved_all c inbuf)
  unfolding moved_all
  moved_all-MovedAll frozen xs c thawed j = (
    rw thawed refl,
    evbuffer_invoke_callbacks-Became outbuf _ _ _ _ (record {
      fits = j.fits;
      total = omega (arith, j.total, j.sizes, s.total, t.total);
      at_last = j.at_last;
      content = j.content;
      n_add = omega (arith, ap Evbuffer.n_add_for_cb j.rest, s.no_add, t.total);
      n_del = ap Evbuffer.n_del_for_cb j.rest ∙ s.no_del;
      balance = omega (arith, j.sizes);
      reports = ap Evbuffer.reports j.rest;
      same_callbacks = ap Evbuffer.has_callbacks j.rest;
      same_freeze_start = ap Evbuffer.freeze_start j.rest;
      same_freeze_end = ap Evbuffer.freeze_end j.rest;
    }),
    evbuffer_invoke_callbacks-Became inbuf _ _ _ _ (zeroed-Changed inbuf t),
  )

  copied-Joined : size outbuf.chains ≡ 0 → Joined (contents inbuf.chains) (copy_chain outbuf inbuf)
  copied-Joined empty = record {
    fits = t.fits;
    at_last = t.at_last;
    content = refl;
    sizes = omega (arith, empty);
    total = omega (arith, s.total, empty);
    rest = refl;
  }

  in-EndsIn : EndsIn inbuf.last_with_datap inbuf.chains
  in-EndsIn = AtLast-EndsIn inbuf.last_with_datap inbuf.chains t.at_last some_bytes

  module _ (held : 0 < size outbuf.chains) where
    out-EndsIn : EndsIn outbuf.last_with_datap outbuf.chains
    out-EndsIn = AtLast-EndsIn outbuf.last_with_datap outbuf.chains s.at_last held

    appended-Joined :
        Joined (contents outbuf.chains ++ contents inbuf.chains) (append_chain outbuf inbuf)
    appended-Joined = record {
      fits = AllFit-append outbuf.chains inbuf.chains s.fits t.fits;
      at_last = EndsIn-AtLast _ _ (
          EndsIn-append outbuf.last_with_datap inbuf.last_with_datap outbuf.chains inbuf.chains
            out-EndsIn in-EndsIn);
      content = contents-append outbuf.chains inbuf.chains;
      sizes = size-append outbuf.chains inbuf.chains;
      total = refl;
      rest = refl;
    }

    prepended-Joined :
        Joined (contents inbuf.chains ++ contents outbuf.chains) (prepend_chain outbuf inbuf)
    prepended-Joined =
        let there : leb (length outbuf.chains) outbuf.last_with_datap ≡ false =
          ground (arith, length-EndsIn outbuf.last_with_datap outbuf.chains out-EndsIn) in
        record {
          fits = AllFit-append inbuf.chains outbuf.chains t.fits s.fits;
          at_last = rw there (
              EndsIn-AtLast _ _ (
                EndsIn-append inbuf.last_with_datap outbuf.last_with_datap inbuf.chains
                  outbuf.chains in-EndsIn out-EndsIn));
          content = contents-append inbuf.chains outbuf.chains;
          sizes = omega (arith, size-append inbuf.chains outbuf.chains);
          total = refl;
          rest = refl;
        }

no_and : (x : Bool) → x && false ≡ false
no_and x = ground arith

-- Where there is nothing to move.
nothing-MovedAll :
    (outbuf inbuf : Evbuffer) (frozen : Bool) (xs : List ℕ)
    → IsBuffer outbuf
    → IsBuffer inbuf
    → size inbuf.chains ≡ 0
    → contents outbuf.chains ≡ xs
    → MovedAll outbuf inbuf frozen xs (false, outbuf, inbuf)
nothing-MovedAll outbuf inbuf frozen xs s t none_there same = rw none_there (
  no_and frozen,
  unchanged-Became outbuf xs 0 s same refl,
  unchanged-Became inbuf [] 0 t (empty_contents inbuf.chains none_there) refl,
)

pub evbuffer_add_buffer-MovedAll :
    (outbuf inbuf : Evbuffer)
    → IsBuffer outbuf
    → IsBuffer inbuf
    → MovedAll outbuf inbuf
        (outbuf.freeze_end || inbuf.freeze_start)
        (contents outbuf.chains ++ contents inbuf.chains)
        (evbuffer_add_buffer outbuf inbuf)
unfolding evbuffer_add_buffer
evbuffer_add_buffer-MovedAll outbuf inbuf s t =
    let frozen = outbuf.freeze_end || inbuf.freeze_start in
    let xs = contents outbuf.chains ++ contents inbuf.chains in
    let P = MovedAll outbuf inbuf frozen xs in
    if_intro P (inbuf.total_len == 0)
      (λ empty.
        let none_there : size inbuf.chains ≡ 0 = ground (arith, t.total) in
        nothing-MovedAll outbuf inbuf frozen xs s t none_there
          (rw (empty_contents inbuf.chains none_there) (sym (append-nil (contents outbuf.chains)))))
      (λ more.
        if_intro P frozen (λ yes_frozen. (ground (arith, yes_frozen, t.total, more), refl, refl))
          (λ thawed.
            let some_bytes : 0 < size inbuf.chains = ground (arith, t.total) in
            moved_all-MovedAll outbuf inbuf s t some_bytes frozen xs _ thawed (
              if_intro (Joined outbuf inbuf s t some_bytes xs) (outbuf.total_len == 0)
                (λ fresh.
                  let none_there : size outbuf.chains ≡ 0 = ground (arith, s.total) in
                  rw (empty_contents outbuf.chains none_there)
                    (copied-Joined outbuf inbuf s t some_bytes none_there))
                (λ held. appended-Joined outbuf inbuf s t some_bytes (ground (arith, s.total))))))

evbuffer_prepend_buffer-MovedAll :
    (outbuf inbuf : Evbuffer)
    → IsBuffer outbuf
    → IsBuffer inbuf
    → MovedAll outbuf inbuf
        (outbuf.freeze_start || inbuf.freeze_start)
        (contents inbuf.chains ++ contents outbuf.chains)
        (evbuffer_prepend_buffer outbuf inbuf)
unfolding evbuffer_prepend_buffer
evbuffer_prepend_buffer-MovedAll outbuf inbuf s t =
    let frozen = outbuf.freeze_start || inbuf.freeze_start in
    let xs = contents inbuf.chains ++ contents outbuf.chains in
    let P = MovedAll outbuf inbuf frozen xs in
    if_intro P (inbuf.total_len == 0)
      (λ empty.
        let none_there : size inbuf.chains ≡ 0 = ground (arith, t.total) in
        nothing-MovedAll outbuf inbuf frozen xs s t none_there
          (rw (empty_contents inbuf.chains none_there) refl))
      (λ more.
        if_intro P frozen (λ yes_frozen. (ground (arith, yes_frozen, t.total, more), refl, refl))
          (λ thawed.
            let some_bytes : 0 < size inbuf.chains = ground (arith, t.total) in
            moved_all-MovedAll outbuf inbuf s t some_bytes frozen xs _ thawed (
              if_intro (Joined outbuf inbuf s t some_bytes xs) (outbuf.total_len == 0)
                (λ fresh.
                  let none_there : size outbuf.chains ≡ 0 = ground (arith, s.total) in
                  rw (empty_contents outbuf.chains none_there, append-nil (contents inbuf.chains))
                    (copied-Joined outbuf inbuf s t some_bytes none_there))
                (λ held. prepended-Joined outbuf inbuf s t some_bytes (ground (arith, s.total))))))

-- evbuffer_add_buffer and evbuffer_prepend_buffer, on two different well-formed buffers, move all bytes of
-- `inbuf` behind those of `outbuf`, or before them, and leave both well-formed, with the callbacks of both
-- told. They return -1 exactly where there are bytes to move and the end of `outbuf` that they come to, or the front
-- of `inbuf`, is frozen, and change nothing then.
pub evbuffer_buffer-MovedAll :
    (outbuf inbuf : Evbuffer)
    → IsBuffer outbuf
    → IsBuffer inbuf
    → MovedAll outbuf inbuf
        (outbuf.freeze_end || inbuf.freeze_start)
        (contents outbuf.chains ++ contents inbuf.chains)
        (evbuffer_add_buffer outbuf inbuf)
      × MovedAll outbuf inbuf
          (outbuf.freeze_start || inbuf.freeze_start)
          (contents inbuf.chains ++ contents outbuf.chains)
          (evbuffer_prepend_buffer outbuf inbuf)
evbuffer_buffer-MovedAll outbuf inbuf s t = (
  evbuffer_add_buffer-MovedAll outbuf inbuf s t,
  evbuffer_prepend_buffer-MovedAll outbuf inbuf s t,
)
