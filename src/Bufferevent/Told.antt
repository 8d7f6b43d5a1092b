-- ===== src/Bufferevent/Told.antt =====
-- What be_ops have been told follows from what is enabled and what is suspended.
use test_codes.Prelude.{
  ℕ, ◌≡◌, inl, inr, refl, Bool, true, false, not, ◌&&◌, Option, none, some, ltb, leb, ◌==◌,
  if◌then◌else◌, Option-cases, if_intro, arith,
}
use test_codes.Bufferevent.{
  Why, wm, bw, bw_group, lookup, filt_read, Suspended, any, mark, Side, Bufferevent, suspend,
  unsuspend, bufferevent_suspend_read, bufferevent_unsuspend_read, bufferevent_suspend_write,
  bufferevent_unsuspend_write, enable_side, bufferevent_enable, disable_side, bufferevent_disable,
  bufferevent_disable_hard, bufferevent_inbuf_wm_cb, watched, settle_watermark, set_read_watermark,
  bufferevent_setwatermark,
}

abbrev pub IsTold : Side → Type 0
IsTold s = s.told ≡ s.enabled && not (any s.suspended)

unfoldable pub BothTold : Bufferevent → Type 0
BothTold b = IsTold b.reads × IsTold b.writes

any-mark : (why : Why) (s : Suspended) → any (mark why true s) ≡ true
unfolding mark
any-mark wm s = refl
any-mark bw s = ground arith
any-mark bw_group s = ground arith
any-mark lookup s = ground arith
any-mark filt_read s = ground arith

pub suspend-IsTold : (why : Why) (s : Side) → IsTold s → IsTold (suspend why s)
unfolding suspend
suspend-IsTold why s h = rw (any-mark why s.suspended) (ground (arith, h))

pub unsuspend-IsTold : (why : Why) (s : Side) → IsTold s → IsTold (unsuspend why s)
unfolding unsuspend
unsuspend-IsTold wm s h = unfold mark in ground (arith, h)
unsuspend-IsTold bw s h = unfold mark in ground (arith, h)
unsuspend-IsTold bw_group s h = unfold mark in ground (arith, h)
unsuspend-IsTold lookup s h = unfold mark in ground (arith, h)
unsuspend-IsTold filt_read s h = unfold mark in ground (arith, h)

enable_side-IsTold : (event : Bool) (s : Side) → IsTold s → IsTold (enable_side event s)
unfolding enable_side
enable_side-IsTold event s h = ground (arith, h)

disable_side-IsTold : (event : Bool) (s : Side) → IsTold s → IsTold (disable_side event s)
unfolding disable_side
disable_side-IsTold event s h = ground (arith, h)

bufferevent_inbuf_wm_cb-BothTold :
    (b : Bufferevent) (size : ℕ) → BothTold b → BothTold (bufferevent_inbuf_wm_cb b size)
unfolding bufferevent_inbuf_wm_cb BothTold
bufferevent_inbuf_wm_cb-BothTold b size h =
    if_intro BothTold (leb b.read_high size) (λ full. (suspend-IsTold wm b.reads h.0, h.1))
      (λ room. (unsuspend-IsTold wm b.reads h.0, h.1))

settle_watermark-BothTold :
    (b : Bufferevent) (size highmark : ℕ) → BothTold b → BothTold (settle_watermark b size highmark)
unfolding settle_watermark BothTold
settle_watermark-BothTold b size highmark h =
    if_intro BothTold (ltb highmark size) (λ over. (suspend-IsTold wm b.reads h.0, h.1))
      (λ not_over.
        if_intro BothTold (ltb size highmark) (λ under. (unsuspend-IsTold wm b.reads h.0, h.1))
          (λ same. h))

-- The result of bufferevent_setwatermark, which crashes only without memory.
abbrev pub ToldOrNoMemory : Bool → Option Bufferevent → Type 0
ToldOrNoMemory memory none = memory ≡ false
ToldOrNoMemory memory (some b) = BothTold b

set_read_watermark-Told :
    (memory : Bool) (b : Bufferevent) (size low high : ℕ)
    → BothTold b
    → ToldOrNoMemory memory (set_read_watermark memory b size low high)
unfolding set_read_watermark BothTold
set_read_watermark-Told memory b size low high h =
    if_intro (ToldOrNoMemory memory) (high == 0) (λ off. (unsuspend-IsTold wm b.reads h.0, h.1))
      (λ on. elim (Option-cases (watched memory b.read_watermarks_cb)) [
        | inl crashed ↦ rw crashed (no_memory memory b.read_watermarks_cb crashed)
        | inr (flag, made) ↦ rw made (settle_watermark-BothTold _ size high h)
      ])
  where
    no_memory : (m : Bool) (o : Option Bool) → watched m o ≡ none → m ≡ false
    no_memory false none e = refl
    no_memory true none e = cc
    no_memory m (some f) e = cc

-- The bufferevent after each operation.
pub record KeepsTold (b : Bufferevent) (why : Why) (succeeds read write memory : Bool)
    (size low high : ℕ) : Type 0 where
  pub suspend_read : BothTold (bufferevent_suspend_read b why)
  pub suspend_write : BothTold (bufferevent_suspend_write b why)
  pub unsuspend_read : BothTold (bufferevent_unsuspend_read b why)
  pub unsuspend_write : BothTold (bufferevent_unsuspend_write b why)
  pub enable : BothTold (bufferevent_enable succeeds b read write).1
  pub disable : BothTold (bufferevent_disable succeeds b read write).1
  pub disable_hard : BothTold (bufferevent_disable_hard succeeds b read write).1
  pub watermark_cb : BothTold (bufferevent_inbuf_wm_cb b size)
  pub setwatermark :
      ToldOrNoMemory memory (bufferevent_setwatermark memory b size read write low high)

-- Where the last word to be_ops on reading was to enable it exactly if reading is enabled and nothing
-- suspends it, and so for writing, this holds again after suspending, resuming, enabling, disabling,
-- a change of the watermarks and the callback of the watermark, whatever be_ops answer and whatever
-- other reasons to suspend there are; bufferevent_setwatermark crashes only without memory.
pub bufferevent-KeepsTold :
    (b : Bufferevent) (why : Why) (succeeds read write memory : Bool) (size low high : ℕ)
    → BothTold b
    → KeepsTold b why succeeds read write memory size low high
unfolding BothTold bufferevent_suspend_read bufferevent_unsuspend_read bufferevent_suspend_write
    bufferevent_unsuspend_write bufferevent_enable bufferevent_disable bufferevent_disable_hard
    bufferevent_setwatermark
bufferevent-KeepsTold b why succeeds read write memory size low high h = record {
  suspend_read = (suspend-IsTold why b.reads h.0, h.1);
  suspend_write = (h.0, suspend-IsTold why b.writes h.1);
  unsuspend_read = (unsuspend-IsTold why b.reads h.0, h.1);
  unsuspend_write = (h.0, unsuspend-IsTold why b.writes h.1);
  enable = (enable_side-IsTold read b.reads h.0, enable_side-IsTold write b.writes h.1);
  disable = (disable_side-IsTold read b.reads h.0, disable_side-IsTold write b.writes h.1);
  disable_hard = (disable_side-IsTold read b.reads h.0, disable_side-IsTold write b.writes h.1);
  watermark_cb = bufferevent_inbuf_wm_cb-BothTold b size h;
  setwatermark =
      let b' : Bufferevent = if write then record b { write_low = low; write_high = high } else b in
      let h' : BothTold b' = if_intro BothTold write (λ marks. h) (λ leaves. h) in
      if_intro (ToldOrNoMemory memory) read
        (λ r. set_read_watermark-Told memory b' size low high h') (λ r. h');
}
