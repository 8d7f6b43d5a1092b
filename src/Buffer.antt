-- ===== src/Buffer.antt =====
-- The evbuffer of codes/libevent-2.0.21-stable/buffer.c and evbuffer-internal.h: a queue of bytes in
-- a list of chains.
-- A chain's memory is a function of the offset, and what lies beyond `buffer_len` is never used.
-- `last_with_datap` is the number of chains before the `next` pointer that it points at.
-- No chain is pinned: buffer_iocp.c alone pins, on Windows. The callbacks of a buffer are enabled and
-- not deferred, and leave the buffer as it is; what they are told stands in `reports`.
-- `none` is an assertion that fails, or a null pointer that is followed.
pub mod Chains
pub mod Add
pub mod Drain
pub mod Move
mod Examples
use test_codes.Prelude.Memory.{memmove}
use test_codes.Prelude.{
  ℕ, zero, suc, ◌+◌, ◌-◌, ◌*◌, ◌/◌, ◌≤◌, Bool, true, false, not, ◌&&◌, ◌||◌, List, [], ◌∷◌, ◌++◌,
  Option, none, some, ltb, leb, ◌==◌, if◌then◌else◌, ◌>>=◌, length, get_or, take, drop, min,
}

-- `struct evbuffer_chain`, with EVBUFFER_IMMUTABLE of its flags.
pub record Chain : Type 0 where
  pub buffer : ℕ → ℕ
  pub buffer_len : ℕ
  pub misalign : ℕ
  pub off : ℕ
  pub immutable : Bool

-- `struct evbuffer_cb_info`
pub record Info : Type 0 where
  pub orig_size : ℕ
  pub n_added : ℕ
  pub n_deleted : ℕ

-- `struct evbuffer`
pub record Evbuffer : Type 0 where
  pub chains : List Chain
  pub last_with_datap : ℕ
  pub total_len : ℕ
  pub n_add_for_cb : ℕ
  pub n_del_for_cb : ℕ
  pub freeze_start : Bool
  pub freeze_end : Bool
  pub has_callbacks : Bool
  pub reports : List Info

-- What mm_malloc returns during a call: nothing, or memory with some contents.
abbrev pub Malloc : Type 0
Malloc = Option (ℕ → ℕ)

-- EVBUFFER_CHAIN_SIZE and MIN_BUFFER_SIZE where a pointer has eight bytes.
abbrev pub evbuffer_chain_size : ℕ
evbuffer_chain_size = 48

abbrev pub min_buffer_size : ℕ
min_buffer_size = 1024

-- `while (to_alloc < size) to_alloc <<= 1;` each round adds one at least.
pub double_alloc : ℕ → ℕ → ℕ → ℕ
double_alloc zero to_alloc size = to_alloc
double_alloc (suc fuel) to_alloc size =
    let rest = double_alloc fuel (to_alloc * 2) size in if ltb to_alloc size then rest else to_alloc

pub evbuffer_chain_new : Malloc → ℕ → Option Chain
evbuffer_chain_new none size = none
evbuffer_chain_new (some mem) size =
    let needed = size + evbuffer_chain_size in
    some (record {
      buffer = mem;
      buffer_len = double_alloc needed min_buffer_size needed - evbuffer_chain_size;
      misalign = 0;
      off = 0;
      immutable = false;
    })

-- CHAIN_SPACE_LEN
abbrev pub chain_space_len : Chain → ℕ
chain_space_len c = if c.immutable then 0 else c.buffer_len - (c.misalign + c.off)

pub evbuffer_chains_all_empty : List Chain → Bool
evbuffer_chains_all_empty [] = true
evbuffer_chains_all_empty (c ∷ cs) = if c.off == 0 then evbuffer_chains_all_empty cs else false

-- The chains before the first victim of evbuffer_chain_insert, which it looks for from
-- last_with_datap on, and those from there on.
pub split_victims : ℕ → List Chain → List Chain × List Chain
split_victims l [] = ([], [])
split_victims zero (c ∷ cs) =
    let (kept, victims) = split_victims zero cs in
    if c.off == 0 then ([], c ∷ cs) else (c ∷ kept, victims)
split_victims (suc l) (c ∷ cs) = let (kept, victims) = split_victims l cs in (c ∷ kept, victims)

-- `if (*ch == NULL) ... else ...` in evbuffer_chain_insert.
pub replace_victims : Evbuffer → Chain → List Chain × List Chain → Option Evbuffer
replace_victims b chain (kept, []) = some (record b {
  chains = b.chains ++ chain ∷ [];
  last_with_datap = if chain.off == 0 then b.last_with_datap else length b.chains;
  total_len = b.total_len + chain.off;
})
replace_victims b chain (kept, v ∷ victims) =
    if evbuffer_chains_all_empty (v ∷ victims)
    then some (record b { chains = kept ++ chain ∷ []; total_len = b.total_len + chain.off })
    else none

pub evbuffer_chain_insert : Evbuffer → Chain → Option Evbuffer
unfolding split_victims replace_victims
evbuffer_chain_insert b chain =
    if leb (length b.chains) b.last_with_datap
    then if b.last_with_datap == 0
      then some (record b { chains = chain ∷ []; total_len = b.total_len + chain.off })
      else none
    else replace_victims b chain (split_victims b.last_with_datap b.chains)

pub evbuffer_new : Evbuffer
evbuffer_new = record {
  chains = [];
  last_with_datap = 0;
  total_len = 0;
  n_add_for_cb = 0;
  n_del_for_cb = 0;
  freeze_start = false;
  freeze_end = false;
  has_callbacks = false;
  reports = [];
}

-- evbuffer_invoke_callbacks with evbuffer_run_callbacks.
pub evbuffer_invoke_callbacks : Evbuffer → Evbuffer
evbuffer_invoke_callbacks b =
    let quiet : Evbuffer = record b { n_add_for_cb = 0; n_del_for_cb = 0 } in
    let info : Info = record {
      orig_size = b.total_len + b.n_del_for_cb - b.n_add_for_cb;
      n_added = b.n_add_for_cb;
      n_deleted = b.n_del_for_cb;
    } in
    if b.has_callbacks && not (b.n_add_for_cb == 0 && b.n_del_for_cb == 0)
    then record quiet { reports = b.reports ++ info ∷ [] }
    else quiet

-- ZERO_CHAIN
abbrev pub zero_chain : Evbuffer → Evbuffer
zero_chain b = record b { chains = []; last_with_datap = 0; total_len = 0 }

-- evbuffer_chain_should_realign, with MAX_TO_REALIGN_IN_EXPAND
abbrev pub evbuffer_chain_should_realign : Chain → ℕ → Bool
evbuffer_chain_should_realign c datlen =
    leb datlen (c.buffer_len - c.off) && ltb c.off (c.buffer_len / 2) && leb c.off 2048

pub evbuffer_chain_align : Chain → Chain
evbuffer_chain_align c = record c { buffer = memmove c.buffer c.misalign c.off; misalign = 0 }

-- evbuffer_freeze and evbuffer_unfreeze, of the front for `start`.
pub evbuffer_freeze : Bool → Evbuffer → Evbuffer
evbuffer_freeze true b = record b { freeze_start = true }
evbuffer_freeze false b = record b { freeze_end = true }

pub evbuffer_unfreeze : Bool → Evbuffer → Evbuffer
evbuffer_unfreeze true b = record b { freeze_start = false }
evbuffer_unfreeze false b = record b { freeze_end = false }
