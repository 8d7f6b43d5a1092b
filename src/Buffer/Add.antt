-- ===== src/Buffer/Add.antt =====
-- evbuffer_add of buffer.c.
use test_codes.Prelude.Memory.{
  memcpy, slice, slice-append, slice-memcpy, slice-memcpy_before, slice-memmove,
}
use test_codes.Prelude.{
  ℕ, zero, suc, ◌+◌, ◌-◌, ◌*◌, ◌≤◌, ◌<◌, ◌≡◌, ◌⊎◌, inl, inr, refl, sym, ap, ◌∙◌, Bool, true, false,
  not, ◌&&◌, List, [], ◌∷◌, ◌++◌, Option, none, some, ltb, leb, ◌==◌, if◌then◌else◌, ◌>>=◌, length,
  take, drop, length-take, length-drop, take-append-drop, append-nil, append_assoc, Bool-cases,
  if_intro, Option-cases, Then, Then-bind, arith,
}
use test_codes.Buffer.{
  Chain, Evbuffer, Malloc, evbuffer_chain_new, evbuffer_chain_insert, evbuffer_invoke_callbacks,
  evbuffer_chain_should_realign, evbuffer_chain_align,
}
use test_codes.Buffer.Chains.{
  bytes, contents, size, Fits, AllFit, EndsIn, AtLast, IsBuffer, Became, Changed,
  evbuffer_invoke_callbacks-Became, IsFresh, evbuffer_chain_new-Fresh,
  evbuffer_chain_insert-Inserted,
}

-- `buf->last`
unfoldable pub last_chain : List Chain → Option Chain
last_chain [] = none
last_chain (c ∷ []) = some c
last_chain (c ∷ d ∷ cs) = last_chain (d ∷ cs)

pub set_last : List Chain → Chain → List Chain
set_last [] v = []
set_last (c ∷ []) v = v ∷ []
set_last (c ∷ d ∷ cs) v = c ∷ set_last (d ∷ cs) v

-- The memcpy to CHAIN_SPACE_PTR, with `off` raised.
pub append_bytes : Chain → List ℕ → Chain
append_bytes c xs = record c {
  buffer = memcpy c.buffer (c.misalign + c.off) xs;
  off = c.off + length xs;
}

-- The bytes go into the last chain, which has been `from` and is `chain` by now.
pub fill_last : Evbuffer → Chain → List ℕ → Evbuffer
unfolding append_bytes
fill_last b chain xs = record b {
  chains = set_last b.chains (append_bytes chain xs);
  total_len = b.total_len + length xs;
  n_add_for_cb = b.n_add_for_cb + length xs;
}

-- The chain is not immutable, and has room behind its data: `remain`.
abbrev pub room : Chain → ℕ
room chain = if chain.immutable then 0 else chain.buffer_len - chain.misalign - chain.off

-- "we need to add another chain", with EVBUFFER_CHAIN_MAX_AUTO_SIZE.
abbrev pub next_size : Chain → ℕ → ℕ
next_size chain datlen =
    let doubled = if leb chain.buffer_len 2048 then chain.buffer_len * 2 else chain.buffer_len in
    if ltb doubled datlen then datlen else doubled

-- The rest of the data goes into a new chain.
pub add_chain : Evbuffer → Chain → List ℕ → Chain → Option (Bool × Evbuffer)
unfolding fill_last append_bytes
add_chain b chain xs tmp =
    let remain = room chain in
    do
      b' ←
          evbuffer_chain_insert (fill_last b chain (take remain xs))
            (append_bytes tmp (drop remain xs))
      some (
        false,
        evbuffer_invoke_callbacks
            (record b' { n_add_for_cb = b'.n_add_for_cb + length (drop remain xs) }),
      )

-- evbuffer_add once there is a last chain.
pub add_to_last : Malloc → Evbuffer → Chain → List ℕ → Option (Bool × Evbuffer)
add_to_last m b chain xs =
    let grown : Option (Bool × Evbuffer) =
      elim (evbuffer_chain_new m (next_size chain (length xs))) [
        | none ↦ some (true, b)
        | some tmp ↦ add_chain b chain xs tmp
      ] in
    if not chain.immutable && leb (length xs) (room chain)
    then some (false, evbuffer_invoke_callbacks (fill_last b chain xs))
    else if not chain.immutable && evbuffer_chain_should_realign chain (length xs)
    then some (false, evbuffer_invoke_callbacks (fill_last b (evbuffer_chain_align chain) xs))
    else grown

-- The first chain of a buffer that has none.
pub add_first : Malloc → Evbuffer → List ℕ → Option Chain → Option (Bool × Evbuffer)
unfolding add_to_last
add_first m b xs none = some (true, b)
add_first m b xs (some chain) = do b' ← evbuffer_chain_insert b chain; add_to_last m b' chain xs

-- evbuffer_add: whether the result is -1, and the buffer.
pub evbuffer_add : Malloc → Evbuffer → List ℕ → Option (Bool × Evbuffer)
unfolding add_first add_to_last last_chain
evbuffer_add m b xs = if b.freeze_end then some (true, b) else elim (last_chain b.chains) [
  | none ↦ add_first m b xs (evbuffer_chain_new m (length xs))
  | some chain ↦ add_to_last m b chain xs
]

-- The buffer's last chain `c`, grown to `v`, which has `xs` behind the data of `c`.
record Grown (cs : List Chain) (v : Chain) (xs : List ℕ) : Type 0 where
  content : contents (set_last cs v) ≡ contents cs ++ xs
  sizes : size (set_last cs v) ≡ size cs + length xs
  fits : AllFit (set_last cs v)

set_last-Grown :
    (cs : List Chain) (c v : Chain) (xs : List ℕ)
    → last_chain cs ≡ some c
    → bytes v ≡ bytes c ++ xs
    → v.off ≡ c.off + length xs
    → Fits v
    → AllFit cs
    → Grown cs v xs
unfolding last_chain set_last contents size AllFit
set_last-Grown [] c v xs last e o fit fits = cc
set_last-Grown (d ∷ []) c v xs last e o fit fits =
    let same : d ≡ c = cc in
    record {
      content =
          append-nil (bytes v)
          ∙ e
          ∙ ap (λ (t : Chain). bytes t ++ xs) (sym same)
          ∙ ap (λ (t : List ℕ). t ++ xs) (sym (append-nil (bytes d)));
      sizes = omega (arith, o, ap Chain.off same);
      fits = (fit, tt);
    }
set_last-Grown (d ∷ f ∷ cs) c v xs last e o fit fits =
    let g = set_last-Grown (f ∷ cs) c v xs last e o fit fits.1 in
    record {
      content =
          ap (λ (t : List ℕ). bytes d ++ t) g.content
          ∙ sym (append_assoc (bytes d) (contents (f ∷ cs)) xs);
      sizes = omega (arith, g.sizes);
      fits = (fits.0, g.fits);
    }

set_last-EndsIn :
    (l : ℕ) (cs : List Chain) (c v : Chain)
    → last_chain cs ≡ some c
    → c.off ≤ v.off
    → EndsIn l cs
    → EndsIn l (set_last cs v)
unfolding last_chain set_last EndsIn
set_last-EndsIn l [] c v last k ends = absurd ends
set_last-EndsIn zero (d ∷ []) c v last k ends =
    let same : d ≡ c = cc in omega (arith, ap Chain.off same)
set_last-EndsIn (suc l) (d ∷ []) c v last k ends = absurd ends.1
set_last-EndsIn zero (d ∷ f ∷ cs) c v last k ends = absurd ends
set_last-EndsIn (suc l) (d ∷ f ∷ []) c v last k ends =
    (ends.0, set_last-EndsIn l (f ∷ []) c v last k ends.1)
set_last-EndsIn (suc l) (d ∷ f ∷ g ∷ cs) c v last k ends =
    (ends.0, set_last-EndsIn l (f ∷ g ∷ cs) c v last k ends.1)

set_last-AtLast :
    (l : ℕ) (cs : List Chain) (c v : Chain)
    → last_chain cs ≡ some c
    → c.off ≤ v.off
    → AtLast l cs
    → AtLast l (set_last cs v)
unfolding last_chain set_last AtLast
set_last-AtLast l [] c v last k at = at
set_last-AtLast l (d ∷ []) c v last k at = at
set_last-AtLast l (d ∷ f ∷ []) c v last k at = set_last-EndsIn l (d ∷ f ∷ []) c v last k at
set_last-AtLast l (d ∷ f ∷ g ∷ cs) c v last k at = set_last-EndsIn l (d ∷ f ∷ g ∷ cs) c v last k at

append_bytes-bytes : (c : Chain) (xs : List ℕ) → bytes (append_bytes c xs) ≡ bytes c ++ xs
unfolding append_bytes
append_bytes-bytes c xs =
    let f = memcpy c.buffer (c.misalign + c.off) xs in
    slice-append f c.misalign c.off (length xs)
    ∙ ap (λ (t : List ℕ). t ++ slice f (c.misalign + c.off) (length xs))
        (slice-memcpy_before c.buffer (c.misalign + c.off) c.misalign c.off xs (omega arith))
    ∙ ap (λ (t : List ℕ). bytes c ++ t) (slice-memcpy c.buffer (c.misalign + c.off) xs)

align-bytes : (c : Chain) → bytes (evbuffer_chain_align c) ≡ bytes c
unfolding evbuffer_chain_align
align-bytes c = slice-memmove c.buffer c.misalign c.off

AllFit-last_chain : (cs : List Chain) (c : Chain) → AllFit cs → last_chain cs ≡ some c → Fits c
unfolding last_chain AllFit
AllFit-last_chain [] c fits last = cc
AllFit-last_chain (d ∷ []) c fits last = let same : d ≡ c = cc in rw (← same) fits.0
AllFit-last_chain (d ∷ f ∷ cs) c fits last = AllFit-last_chain (f ∷ cs) c fits.1 last

-- The results of evbuffer_add, -1 first, in a call on `b0` that has already added `n` bytes and come
-- to hold `ys`.
abbrev pub AddedTo : Evbuffer → List ℕ → ℕ → Malloc → Evbuffer → List ℕ → Bool × Evbuffer → Type 0
AddedTo b0 ys n m b xs (true, c) = (c ≡ b) × ((b.freeze_end ≡ true) ⊎ (m ≡ none))
AddedTo b0 ys n m b xs (false, c) =
    (b.freeze_end ≡ false) × Became b0 (ys ++ xs) (n + length xs) 0 c

chains_of_none : (cs : List Chain) → last_chain cs ≡ none → cs ≡ []
unfolding last_chain
chains_of_none [] h = refl
chains_of_none (c ∷ []) h = cc
chains_of_none (c ∷ d ∷ cs) h = let e = chains_of_none (d ∷ cs) h in cc

-- The buffer with one fresh chain.
abbrev with_chain : Evbuffer → Chain → Evbuffer
with_chain b c = record b { chains = c ∷ []; total_len = b.total_len + c.off }

module _ (b0 : Evbuffer) (ys : List ℕ) (n : ℕ) (m : Malloc) (b : Evbuffer)
    (h : Changed b0 ys n 0 b) where
  -- fill_last with a chain `v` for the last chain `c`, that holds the same bytes and has room.
  fill_last-Changed :
      (c v : Chain) (xs : List ℕ)
      → last_chain b.chains ≡ some c
      → bytes v ≡ bytes c
      → v.off ≡ c.off
      → v.misalign + v.off + length xs ≤ v.buffer_len
      → Changed b0 (ys ++ xs) (n + length xs) 0 (fill_last b v xs)
  unfolding fill_last
  fill_last-Changed c v xs last same_bytes same_off room =
      let w = append_bytes v xs in
      let off : w.off ≡ c.off + length xs = unfold append_bytes in omega (arith, same_off) in
      let fit : Fits w = unfold append_bytes in omega (arith, room) in
      let g =
        set_last-Grown b.chains c w xs last
          (append_bytes-bytes v xs ∙ ap (λ (t : List ℕ). t ++ xs) same_bytes) off fit h.fits in
      record {
        fits = g.fits;
        total = omega (arith, g.sizes, h.total);
        at_last =
            set_last-AtLast b.last_with_datap b.chains c w last (omega (arith, off)) h.at_last;
        content = g.content ∙ ap (λ (t : List ℕ). t ++ xs) h.content;
        n_add = omega (arith, h.n_add);
        n_del = h.n_del;
        balance = omega (arith, g.sizes, h.balance);
        reports = h.reports;
        same_callbacks = h.same_callbacks;
        same_freeze_start = h.same_freeze_start;
        same_freeze_end = h.same_freeze_end;
      }

  add_chain-Added :
      (c tmp : Chain) (xs : List ℕ)
      → b.freeze_end ≡ false
      → last_chain b.chains ≡ some c
      → room c < length xs
      → IsFresh (length xs) tmp
      → Then (AddedTo b0 ys n m b xs) (add_chain b c xs tmp)
  unfolding add_chain
  add_chain-Added c tmp xs open_end last short fresh =
      let remain = room c in
      let all = length-take remain xs in
      let left = length-drop remain xs in
      let k = append_bytes tmp (drop remain xs) in
      let koff : k.off ≡ length (drop remain xs) =
        unfold append_bytes in omega (arith, fresh.empty) in
      let kfit : Fits k =
        unfold append_bytes in omega (arith, fresh.empty, fresh.at_start, fresh.room, left) in
      let kbytes : bytes k ≡ drop remain xs =
        append_bytes-bytes tmp (drop remain xs)
        ∙ ap (λ (n : ℕ). slice tmp.buffer tmp.misalign n ++ drop remain xs) fresh.empty
        ∙ (unfold slice in refl) in
      let b' = fill_last b c (take remain xs) in
      let f =
        fill_last-Changed c c (take remain xs) last refl refl
          (ground (arith, all, AllFit-last_chain b.chains c h.fits last)) in
      Then-bind _ _ (evbuffer_chain_insert b' k) _
        (evbuffer_chain_insert-Inserted b' k f.fits f.at_last kfit
          (omega (arith, koff, left, short)))
        (λ d i. (
          open_end,
          evbuffer_invoke_callbacks-Became b0 _ _ _ _ (record {
            fits = i.fits;
            total = omega (arith, ap Evbuffer.total_len i.rest, f.total, i.sizes);
            at_last = i.at_last;
            content =
                i.content
                ∙ ap (λ (t : List ℕ). t ++ bytes k) f.content
                ∙ ap (λ (t : List ℕ). (ys ++ take remain xs) ++ t) kbytes
                ∙ append_assoc ys (take remain xs) (drop remain xs)
                ∙ ap (λ (t : List ℕ). ys ++ t) (take-append-drop remain xs);
            n_add = omega (arith, ap Evbuffer.n_add_for_cb i.rest, f.n_add, all, left);
            n_del = ap Evbuffer.n_del_for_cb i.rest ∙ f.n_del;
            balance = omega (arith, i.sizes, f.balance, koff, all, left);
            reports = ap Evbuffer.reports i.rest ∙ f.reports;
            same_callbacks = ap Evbuffer.has_callbacks i.rest ∙ f.same_callbacks;
            same_freeze_start = ap Evbuffer.freeze_start i.rest ∙ f.same_freeze_start;
            same_freeze_end = ap Evbuffer.freeze_end i.rest ∙ f.same_freeze_end;
          }),
        ))

  add_to_last-Added :
      (c : Chain) (xs : List ℕ)
      → b.freeze_end ≡ false
      → last_chain b.chains ≡ some c
      → (c.immutable ≡ true → 0 < length xs)
      → Then (AddedTo b0 ys n m b xs) (add_to_last m b c xs)
  unfolding add_to_last
  add_to_last-Added c xs open_end last some_bytes =
      let fit = AllFit-last_chain b.chains c h.fits last in
      elim (Bool-cases (not c.immutable && leb (length xs) (room c))) [
        | inl fits ↦ rw fits (
          open_end,
          evbuffer_invoke_callbacks-Became b0 _ _ _ _
              (fill_last-Changed c c xs last refl refl (ground (arith, fit))),
        )
        | inr short ↦
            elim (Bool-cases (not c.immutable && evbuffer_chain_should_realign c (length xs))) [
              | inl realigns ↦
                  rw (short, realigns)
                    (
                      open_end,
                      evbuffer_invoke_callbacks-Became b0 _ _ _ _ (
                          fill_last-Changed c (evbuffer_chain_align c) xs last (align-bytes c)
                            (unfold evbuffer_chain_align in refl)
                            (unfold evbuffer_chain_align in ground (arith, fit))),
                    )
              | inr stays ↦
                  let k = next_size c (length xs) in
                  let fresh = evbuffer_chain_new-Fresh m k in
                  elim (Option-cases (evbuffer_chain_new m k)) [
                    | inl none_left ↦
                        rw (short, stays, none_left) (refl, inr (rw none_left at fresh))
                    | inr (tmp, got) ↦
                        let f : IsFresh k tmp = rw got at fresh in
                        let f' : IsFresh (length xs) tmp = record {
                          at_start = f.at_start;
                          empty = f.empty;
                          room = ground (arith, f.room);
                          writable = f.writable;
                        } in
                        rw (short, stays, got)
                          (add_chain-Added c tmp xs open_end last (ground (arith, some_bytes)) f')
                  ]
            ]
      ]

  first_insert : (c : Chain) → b.chains ≡ [] → evbuffer_chain_insert b c ≡ some (with_chain b c)
  unfolding evbuffer_chain_insert AtLast
  first_insert c none_there =
      let at : b.last_with_datap ≡ 0 = rw none_there at h.at_last in
      let long : leb (length b.chains) b.last_with_datap ≡ true = rw (none_there, at) refl in
      let zero_there : b.last_with_datap == 0 ≡ true = rw at refl in rw (long, zero_there) refl

with_chain-Changed :
    (b0 : Evbuffer) (ys : List ℕ) (n : ℕ) (b : Evbuffer) (c : Chain) (k : ℕ)
    → Changed b0 ys n 0 b
    → b.chains ≡ []
    → IsFresh k c
    → Changed b0 ys n 0 (with_chain b c)
unfolding AllFit AtLast size contents
with_chain-Changed b0 ys n b c k h none_there f = record {
  fits = (omega (arith, f.at_start, f.empty), tt);
  total = omega (arith, h.total, ap size none_there);
  at_last = rw none_there at h.at_last;
  content =
      ap (λ (k : ℕ). slice c.buffer c.misalign k ++ []) f.empty
      ∙ (unfold slice in rw none_there at h.content);
  n_add = h.n_add;
  n_del = h.n_del;
  balance = omega (arith, h.balance, ap size none_there, f.empty);
  reports = h.reports;
  same_callbacks = h.same_callbacks;
  same_freeze_start = h.same_freeze_start;
  same_freeze_end = h.same_freeze_end;
}

add_first-Added :
    (b0 : Evbuffer) (ys : List ℕ) (n : ℕ) (m : Malloc) (b : Evbuffer) (xs : List ℕ)
    → Changed b0 ys n 0 b
    → b.freeze_end ≡ false
    → b.chains ≡ []
    → Then (AddedTo b0 ys n m b xs) (add_first m b xs (evbuffer_chain_new m (length xs)))
unfolding add_first add_to_last last_chain
add_first-Added b0 ys n m b xs h open_end none_there =
    let fresh = evbuffer_chain_new-Fresh m (length xs) in
    elim (Option-cases (evbuffer_chain_new m (length xs))) [
      | inl none_left ↦ rw none_left (refl, inr (rw none_left at fresh))
      | inr (c, got) ↦
          let f : IsFresh (length xs) c = rw got at fresh in
          let fits : not c.immutable && leb (length xs) (room c) ≡ true =
            ground (arith, f.writable, f.room, f.at_start, f.empty) in
          let g =
            fill_last-Changed b0 ys n m (with_chain b c)
              (with_chain-Changed b0 ys n b c (length xs) h none_there f) c c xs refl refl refl
              (omega (arith, f.room, f.at_start, f.empty)) in
          rw (got, first_insert b0 ys n m b h c none_there, fits)
            (open_end, evbuffer_invoke_callbacks-Became b0 _ _ _ _ g)
    ]

-- A chain that evbuffer_add may not write to gets no empty chain behind it.
abbrev pub Addable : List Chain → List ℕ → Type 0
Addable cs xs = (c : Chain) → last_chain cs ≡ some c → c.immutable ≡ true → 0 < length xs

pub evbuffer_add-AddedTo :
    (b0 : Evbuffer) (ys : List ℕ) (n : ℕ) (m : Malloc) (b : Evbuffer) (xs : List ℕ)
    → Changed b0 ys n 0 b
    → Addable b.chains xs
    → Then (AddedTo b0 ys n m b xs) (evbuffer_add m b xs)
unfolding evbuffer_add
evbuffer_add-AddedTo b0 ys n m b xs h addable =
    if_intro (Then (AddedTo b0 ys n m b xs)) b.freeze_end (λ frozen. (refl, inl frozen))
      (λ open_end. elim (Option-cases (last_chain b.chains)) [
        | inr (c, last) ↦
            rw last (add_to_last-Added b0 ys n m b h c xs open_end last (addable c last))
        | inl no_chain ↦
            rw no_chain
              (add_first-Added b0 ys n m b xs h open_end (chains_of_none b.chains no_chain))
      ])

pub IsBuffer-Changed : (b : Evbuffer) → IsBuffer b → Changed b (contents b.chains) 0 0 b
IsBuffer-Changed b s = record {
  fits = s.fits;
  total = s.total;
  at_last = s.at_last;
  content = refl;
  n_add = s.no_add;
  n_del = s.no_del;
  balance = refl;
  reports = refl;
  same_callbacks = refl;
  same_freeze_start = refl;
  same_freeze_end = refl;
}

-- The two results of evbuffer_add, -1 first.
abbrev pub Added : Malloc → Evbuffer → List ℕ → Bool × Evbuffer → Type 0
Added m b xs r = AddedTo b (contents b.chains) 0 m b xs r

-- On a well-formed buffer evbuffer_add, of at least one byte if the last chain is immutable, meets no failed assertion. It
-- returns -1 only where the end of the buffer is frozen or there is no memory, and changes nothing
-- then; else the bytes stand behind those of the buffer, which is well-formed again, and the
-- callbacks, if there are any, have heard of just these bytes.
pub evbuffer_add-Added :
    (m : Malloc) (b : Evbuffer) (xs : List ℕ)
    → IsBuffer b
    → Addable b.chains xs
    → Then (Added m b xs) (evbuffer_add m b xs)
evbuffer_add-Added m b xs s addable =
    evbuffer_add-AddedTo b (contents b.chains) 0 m b xs (IsBuffer-Changed b s) addable
