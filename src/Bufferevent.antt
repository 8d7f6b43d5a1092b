-- ===== src/Bufferevent.antt =====
-- Suspending and resuming in codes/libevent-2.0.21-stable/bufferevent.c, and its watermarks.
-- Reading and writing are the two sides of a bufferevent. What its be_ops are told to enable and to
-- disable stands in `told`.
pub mod Told
pub mod Limit
mod Examples
use test_codes.Prelude.{
  ℕ, ◌≡◌, Bool, true, false, not, ◌&&◌, ◌||◌, Option, none, some, ltb, leb, ◌==◌, if◌then◌else◌,
}
use test_codes.Event.Time.{Timeval}
use test_codes.Ratelim.{Bucket}

-- BEV_SUSPEND_WM, BEV_SUSPEND_BW, BEV_SUSPEND_BW_GROUP, BEV_SUSPEND_LOOKUP, BEV_SUSPEND_FILT_READ
pub data Why : Type 0 where
  wm : Why
  bw : Why
  bw_group : Why
  lookup : Why
  filt_read : Why

-- The bits of `read_suspended` and of `write_suspended`.
pub record Suspended : Type 0 where
  pub by_wm : Bool
  pub by_bw : Bool
  pub by_bw_group : Bool
  pub by_lookup : Bool
  pub by_filt_read : Bool

abbrev pub any : Suspended → Bool
any s = s.by_wm || s.by_bw || s.by_bw_group || s.by_lookup || s.by_filt_read

unfoldable pub mark : Why → Bool → Suspended → Suspended
mark wm v s = record s { by_wm = v }
mark bw v s = record s { by_bw = v }
mark bw_group v s = record s { by_bw_group = v }
mark lookup v s = record s { by_lookup = v }
mark filt_read v s = record s { by_filt_read = v }

-- A side: its bit of `enabled`, what be_ops were last told of it, and why it is suspended.
pub record Side : Type 0 where
  pub enabled : Bool
  pub told : Bool
  pub suspended : Suspended

-- `struct bufferevent_rate_limit` without its group: `cfg` is a pointer, and `refill` is whether
-- refill_bucket_event is pending.
pub record Limiting : Type 0 where
  pub limit : Bucket
  pub cfg : Option ℕ
  pub refill : Bool

pub record Bufferevent : Type 0 where
  pub reads : Side
  pub writes : Side
  pub read_low : ℕ
  pub read_high : ℕ
  pub write_low : ℕ
  pub write_high : ℕ
  pub read_watermarks_cb : Option Bool
  pub connecting : Bool
  pub rate_limiting : Option Limiting

-- bufferevent_suspend_read and bufferevent_suspend_write, on their side.
unfoldable pub suspend : Why → Side → Side
unfolding mark
suspend why s = record s {
  told = if any s.suspended then s.told else false;
  suspended = mark why true s.suspended;
}

-- bufferevent_unsuspend_read and bufferevent_unsuspend_write, on their side.
unfoldable pub unsuspend : Why → Side → Side
unfolding mark
unsuspend why s = record s {
  told = if not (any (mark why false s.suspended)) && s.enabled then true else s.told;
  suspended = mark why false s.suspended;
}

unfoldable pub bufferevent_suspend_read : Bufferevent → Why → Bufferevent
bufferevent_suspend_read b why = record b { reads = suspend why b.reads }

unfoldable pub bufferevent_unsuspend_read : Bufferevent → Why → Bufferevent
bufferevent_unsuspend_read b why = record b { reads = unsuspend why b.reads }

unfoldable pub bufferevent_suspend_write : Bufferevent → Why → Bufferevent
bufferevent_suspend_write b why = record b { writes = suspend why b.writes }

unfoldable pub bufferevent_unsuspend_write : Bufferevent → Why → Bufferevent
bufferevent_unsuspend_write b why = record b { writes = unsuspend why b.writes }

-- What bufferevent_enable does to a side, of which `event` has the bit or not.
pub enable_side : Bool → Side → Side
enable_side event s = record s {
  enabled = s.enabled || event;
  told = if event && not (any s.suspended) then true else s.told;
}

-- bufferevent_enable of reading and of writing, with the answer of be_ops, whether it succeeds:
-- whether the result is -1, and the bufferevent.
pub bufferevent_enable : Bool → Bufferevent → Bool → Bool → Bool × Bufferevent
unfolding enable_side
bufferevent_enable succeeds b read write =
    let impl_events =
      (read && not (any b.reads.suspended)) || (write && not (any b.writes.suspended)) in
    (
      impl_events && not succeeds,
      record b { reads = enable_side read b.reads; writes = enable_side write b.writes },
    )

-- What bufferevent_disable does to a side.
pub disable_side : Bool → Side → Side
disable_side event s = record s { enabled = s.enabled && not event; told = s.told && not event }

pub bufferevent_disable : Bool → Bufferevent → Bool → Bool → Bool × Bufferevent
unfolding disable_side
bufferevent_disable succeeds b read write = (
  not succeeds,
  record b { reads = disable_side read b.reads; writes = disable_side write b.writes },
)

pub bufferevent_disable_hard : Bool → Bufferevent → Bool → Bool → Bool × Bufferevent
unfolding disable_side
bufferevent_disable_hard succeeds b read write = (
  not succeeds,
  record b {
    reads = disable_side read b.reads;
    writes = disable_side write b.writes;
    connecting = false;
  },
)

-- bufferevent_inbuf_wm_cb, on an input of `size` bytes.
pub bufferevent_inbuf_wm_cb : Bufferevent → ℕ → Bufferevent
unfolding bufferevent_suspend_read bufferevent_unsuspend_read
bufferevent_inbuf_wm_cb b size =
    if leb b.read_high size then bufferevent_suspend_read b wm else bufferevent_unsuspend_read b wm

-- The callback on the input, which evbuffer_add_cb makes if there is memory, and a null pointer else.
abbrev pub watched : Bool → Option Bool → Option Bool
watched memory none = if memory then some true else none
watched memory (some on) = some true

-- What a new high-water mark for read does.
pub settle_watermark : Bufferevent → ℕ → ℕ → Bufferevent
unfolding bufferevent_suspend_read bufferevent_unsuspend_read
settle_watermark b size highmark =
    if ltb highmark size
    then bufferevent_suspend_read b wm
    else if ltb size highmark
    then bufferevent_unsuspend_read b wm
    else b

abbrev pub unwatched : Option Bool → Option Bool
unwatched none = none
unwatched (some on) = some false

-- `if (events & EV_READ)` in bufferevent_setwatermark.
pub set_read_watermark : Bool → Bufferevent → ℕ → ℕ → ℕ → Option Bufferevent
unfolding settle_watermark bufferevent_unsuspend_read
set_read_watermark memory b size lowmark highmark =
    let marked : Bufferevent = record b { read_low = lowmark; read_high = highmark } in
    if highmark == 0
    then some (
        bufferevent_unsuspend_read
          (record marked { read_watermarks_cb = unwatched b.read_watermarks_cb }) wm)
    else elim (watched memory b.read_watermarks_cb) [
      | none ↦ none
      | some on ↦
          some (settle_watermark (record marked { read_watermarks_cb = some on }) size highmark)
    ]

-- bufferevent_setwatermark for reading and for writing, on an input of `size` bytes; `none` is a null
-- pointer that is followed.
pub bufferevent_setwatermark : Bool → Bufferevent → ℕ → Bool → Bool → ℕ → ℕ → Option Bufferevent
unfolding set_read_watermark
bufferevent_setwatermark memory b size read write lowmark highmark =
    let b' : Bufferevent =
      if write then record b { write_low = lowmark; write_high = highmark } else b in
    if read then set_read_watermark memory b' size lowmark highmark else some b'
