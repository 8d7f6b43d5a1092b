-- ===== src/Buffer/Move.antt =====
-- evbuffer_add_buffer, evbuffer_prepend_buffer and evbuffer_remove_buffer of buffer.c, on two
-- different buffers.
pub mod Whole
pub mod Split
pub mod Part
use test_codes.Prelude.Memory.{slice}
use test_codes.Prelude.{
  ℕ, zero, suc, ◌+◌, ◌-◌, Bool, true, false, not, ◌&&◌, ◌||◌, List, [], ◌∷◌, ◌++◌, Option, none,
  some, ltb, leb, ◌==◌, if◌then◌else◌, ◌>>=◌, length,
}
use test_codes.Buffer.{
  Chain, Evbuffer, Malloc, zero_chain, split_victims, evbuffer_chains_all_empty,
  evbuffer_invoke_callbacks,
}
use test_codes.Buffer.Chains.{size}
use test_codes.Buffer.Add.{evbuffer_add}
use test_codes.Buffer.Drain.{skip}

-- COPY_CHAIN
abbrev pub copy_chain : Evbuffer → Evbuffer → Evbuffer
copy_chain dst src = record dst {
  chains = src.chains;
  last_with_datap = src.last_with_datap;
  total_len = src.total_len;
}

-- APPEND_CHAIN
abbrev pub append_chain : Evbuffer → Evbuffer → Evbuffer
append_chain dst src = record dst {
  chains = dst.chains ++ src.chains;
  last_with_datap = length dst.chains + src.last_with_datap;
  total_len = dst.total_len + src.total_len;
}

-- PREPEND_CHAIN
abbrev pub prepend_chain : Evbuffer → Evbuffer → Evbuffer
prepend_chain dst src = record dst {
  chains = src.chains ++ dst.chains;
  last_with_datap =
      if leb (length dst.chains) dst.last_with_datap
      then src.last_with_datap
      else length src.chains + dst.last_with_datap;
  total_len = dst.total_len + src.total_len;
}

-- The end of both calls, with RESTORE_PINNED: the input is empty, and the callbacks are invoked.
pub moved_all : Evbuffer → Evbuffer → Bool × Evbuffer × Evbuffer
moved_all outbuf inbuf = (
  false,
  evbuffer_invoke_callbacks
      (record outbuf { n_add_for_cb = outbuf.n_add_for_cb + inbuf.total_len }),
  evbuffer_invoke_callbacks
      (record (zero_chain inbuf) { n_del_for_cb = inbuf.n_del_for_cb + inbuf.total_len }),
)

-- evbuffer_add_buffer: whether the result is -1, and the buffers `outbuf` and `inbuf`.
pub evbuffer_add_buffer : Evbuffer → Evbuffer → Bool × Evbuffer × Evbuffer
unfolding moved_all
evbuffer_add_buffer outbuf inbuf =
    if inbuf.total_len == 0
    then (false, outbuf, inbuf)
    else if outbuf.freeze_end || inbuf.freeze_start
    then (true, outbuf, inbuf)
    else moved_all
        (if outbuf.total_len == 0 then copy_chain outbuf inbuf else append_chain outbuf inbuf) inbuf

pub evbuffer_prepend_buffer : Evbuffer → Evbuffer → Bool × Evbuffer × Evbuffer
unfolding moved_all
evbuffer_prepend_buffer outbuf inbuf =
    if inbuf.total_len == 0
    then (false, outbuf, inbuf)
    else if outbuf.freeze_start || inbuf.freeze_start
    then (true, outbuf, inbuf)
    else moved_all
        (if outbuf.total_len == 0 then copy_chain outbuf inbuf else prepend_chain outbuf inbuf)
        inbuf

-- What the loop of evbuffer_remove_buffer finds: the chains that move whole, the chain where it stops,
-- those behind it, last_with_datap for the chains that stay, and the bytes still to move.
pub record Cut : Type 0 where
  pub moved : List Chain
  pub head : Chain
  pub behind : List Chain
  pub last_with_datap : ℕ
  pub left : ℕ

-- `chain != *src->last_with_datap` is asserted. The pointer is reset to &src->first, which still holds
-- the first chain, before the loop comes to the chain that it leads to: behind the front the assertion
-- holds.
pub cut_chains : Bool → ℕ → List Chain → ℕ → Option Cut
cut_chains front datlen [] l = none
cut_chains front datlen (c ∷ cs) l =
    let rest : Option Cut =
      if front && l == 0 then none else cut_chains false (datlen - c.off) cs (l - 1) in
    if leb c.off datlen
    then (rest >>= λ r. some (record r { moved = c ∷ r.moved }))
    else some (record { moved = []; head = c; behind = cs; last_with_datap = l; left = datlen })

-- How often advance_last_with_data steps on, over the chains from the one behind on.
pub lead_data : List Chain → ℕ
lead_data [] = 0
lead_data (c ∷ cs) = let more = lead_data cs in if c.off == 0 then 0 else suc more

-- advance_last_with_data
pub advance_last_with_data : ℕ → List Chain → ℕ
unfolding lead_data
advance_last_with_data l [] = l
advance_last_with_data zero (c ∷ cs) = lead_data cs
advance_last_with_data (suc l) (c ∷ cs) = suc (advance_last_with_data l cs)

-- `if (nread) ...`, with evbuffer_free_trailing_empty_chains.
pub take_over : Evbuffer → List Chain → Option Evbuffer
unfolding advance_last_with_data
take_over dst moved =
    let (kept, victims) = split_victims dst.last_with_datap dst.chains in
    let nread = size moved in
    if nread == 0
    then some dst
    else if evbuffer_chains_all_empty victims
    then some (record dst {
      chains = kept ++ moved;
      last_with_datap = advance_last_with_data dst.last_with_datap (kept ++ moved);
      total_len = dst.total_len + nread;
      n_add_for_cb = dst.n_add_for_cb + nread;
    })
    else none

-- What stays in the source. Chains without data that the loop has passed stay, if it found no data.
abbrev pub cut_off : Evbuffer → Cut → ℕ → Evbuffer
cut_off src r nread = record src {
  chains =
      if size r.moved == 0
      then r.moved ++ skip r.left r.head ∷ r.behind
      else skip r.left r.head ∷ r.behind;
  last_with_datap =
      if size r.moved == 0 && not (r.last_with_datap == 0)
      then length r.moved + r.last_with_datap
      else r.last_with_datap;
  total_len = src.total_len - nread;
  n_del_for_cb = src.n_del_for_cb + nread;
}

-- The end of evbuffer_remove_buffer.
pub finish_part : Evbuffer → Cut → Evbuffer → Option ℕ × Evbuffer × Evbuffer
finish_part src r dst =
    let nread = size r.moved + r.left in
    let src' = cut_off src r nread in
    if nread == 0
    then (some nread, src', dst)
    else (some nread, evbuffer_invoke_callbacks src', evbuffer_invoke_callbacks dst)

-- evbuffer_remove_buffer behind its loop. The result of evbuffer_add is not looked at.
pub move_part : Malloc → Evbuffer → Evbuffer → Cut → Option (Option ℕ × Evbuffer × Evbuffer)
unfolding take_over finish_part
move_part m src dst r = do
  dst1 ← take_over dst r.moved
  (failing, dst2) ← evbuffer_add m dst1 (slice r.head.buffer r.head.misalign r.left)
  some (finish_part src r dst2)

-- evbuffer_remove_buffer: the count of bytes moved, or `none` for -1, and `src` and `dst`.
pub evbuffer_remove_buffer :
    Malloc → Evbuffer → Evbuffer → ℕ → Option (Option ℕ × Evbuffer × Evbuffer)
unfolding cut_chains move_part
evbuffer_remove_buffer m src dst datlen =
    if datlen == 0
    then some (some 0, src, dst)
    else if dst.freeze_end || src.freeze_start
    then some (none, src, dst)
    else if leb src.total_len datlen
    then (let (failing, dst', src') = evbuffer_add_buffer dst src in
        some (some src.total_len, src', dst'))
    else (cut_chains true datlen src.chains src.last_with_datap >>= move_part m src dst)
