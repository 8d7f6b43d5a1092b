-- ===== src/Ratelim.antt =====
-- The token buckets of codes/libevent-2.0.21-stable/bufferevent_ratelim.c and ratelim-internal.h.
-- A limit is signed, and stands here as its 64-bit word, of which the numbers from 2 ^ 63 on are
-- negative. size_t has 64 bits, and unsigned 32.
pub mod Refill
pub mod Bounds
mod Examples
use test_codes.Prelude.{
  ℕ, ◌+◌, ◌-◌, ◌*◌, ◌/◌, ◌%◌, ◌^◌, Bool, true, false, ◌||◌, Option, none, some, ltb, leb, ◌==◌,
  if◌then◌else◌,
}
use test_codes.Prelude.Int.{ℤ, pos_part, neg_part}
use test_codes.Event.Time.{Timeval}

-- `struct ev_token_bucket_cfg`
pub record Cfg : Type 0 where
  pub read_rate : ℕ
  pub read_maximum : ℕ
  pub write_rate : ℕ
  pub write_maximum : ℕ
  pub tick_timeout : Timeval
  pub msec_per_tick : ℕ

-- `struct ev_token_bucket`
pub record Bucket : Type 0 where
  pub read_limit : ℕ
  pub write_limit : ℕ
  pub last_updated : ℕ

-- A signed word, raised by 2 ^ 63: the order of these is the order of signed numbers.
abbrev pub level : ℕ → ℕ
level w = (w + 2 ^ 63) % 2 ^ 64

-- `if (limit > (ev_int64_t) maximum) limit = maximum;`
pub clip : ℕ → ℕ → ℕ
clip maximum limit = if ltb (level maximum) (level limit) then maximum else limit

-- ev_token_bucket_init
pub ev_token_bucket_init : Bucket → Cfg → ℕ → Bool → Bucket
unfolding clip
ev_token_bucket_init b cfg current_tick reinitialize =
    if reinitialize
    then record b {
      read_limit = clip cfg.read_maximum b.read_limit;
      write_limit = clip cfg.write_maximum b.write_limit;
    }
    else record {
      read_limit = cfg.read_rate;
      write_limit = cfg.write_rate;
      last_updated = current_tick;
    }

-- `current_tick - bucket->last_updated`
abbrev pub ticks_since : ℕ → ℕ → ℕ
ticks_since last_updated current_tick = (current_tick + 2 ^ 32 - last_updated) % 2 ^ 32

-- What `n_ticks` ticks add to a limit.
pub refill : ℕ → ℕ → ℕ → ℕ → ℕ
refill maximum rate n_ticks limit =
    if ltb ((maximum + 2 ^ 64 - limit) % 2 ^ 64 / n_ticks) rate
    then maximum
    else (limit + n_ticks * rate % 2 ^ 64) % 2 ^ 64

-- ev_token_bucket_update: whether the result is 1, and the bucket.
pub ev_token_bucket_update : Bucket → Cfg → ℕ → Bool × Bucket
unfolding refill
ev_token_bucket_update b cfg current_tick =
    let n_ticks = ticks_since b.last_updated current_tick in
    if n_ticks == 0 || ltb (2 ^ 31 - 1) n_ticks then (false, b) else (
      true,
      record {
        read_limit = refill cfg.read_maximum cfg.read_rate n_ticks b.read_limit;
        write_limit = refill cfg.write_maximum cfg.write_rate n_ticks b.write_limit;
        last_updated = current_tick;
      },
    )

-- ev_token_bucket_get_tick; `none` is a division by zero.
pub ev_token_bucket_get_tick : Timeval → Cfg → Option ℕ
ev_token_bucket_get_tick tv cfg =
    let msec = (tv.sec * 1000 + tv.usec / 1000) % 2 ^ 64 in
    if cfg.msec_per_tick == 0 then none else some (msec / cfg.msec_per_tick % 2 ^ 32)

-- `if (! tick_len) ...`
abbrev pub tick_or_second : Option Timeval → Timeval
tick_or_second none = record { sec = 1; usec = 0 }
tick_or_second (some t) = t

-- ev_token_bucket_cfg_new, with whether memory is left, and EV_RATE_LIMIT_MAX.
pub ev_token_bucket_cfg_new : Bool → ℕ → ℕ → ℕ → ℕ → Option Timeval → Option Cfg
ev_token_bucket_cfg_new memory read_rate read_burst write_rate write_burst tick_len =
    let t = tick_or_second tick_len in
    let most = 2 ^ 63 - 1 in
    if ltb read_burst read_rate || ltb write_burst write_rate || ltb read_rate 1 || ltb write_rate 1
    then none
    else if ltb most read_rate || ltb most write_rate || ltb most read_burst || ltb most write_burst
    then none
    else if memory
    then some (record {
      read_rate = read_rate;
      read_maximum = read_burst;
      write_rate = write_rate;
      write_maximum = write_burst;
      tick_timeout = t;
      msec_per_tick = (t.sec * 1000 + t.usec % 2 ^ 20 / 1000) % 2 ^ 32;
    })
    else none

-- `limit -= n`, for a signed `n`.
abbrev pub lowered : ℕ → ℤ → ℕ
lowered limit n = (limit + neg_part n + 2 ^ 64 - pos_part n) % 2 ^ 64

-- ev_token_bucket_decrement_read and ev_token_bucket_decrement_write; a negative `n` refills the bucket.
unfoldable pub ev_token_bucket_decrement_read : Bucket → ℤ → Bucket
ev_token_bucket_decrement_read b n = record b { read_limit = lowered b.read_limit n }

unfoldable pub ev_token_bucket_decrement_write : Bucket → ℤ → Bucket
ev_token_bucket_decrement_write b n = record b { write_limit = lowered b.write_limit n }
