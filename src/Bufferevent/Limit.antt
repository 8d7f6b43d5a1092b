-- ===== src/Bufferevent/Limit.antt =====
-- The rate limit of one bufferevent, in bufferevent_ratelim.c. The clock is what
-- event_base_gettimeofday_cached gives, and event_add of the refill event succeeds or not.
-- `none` is a failed assertion, or a division by zero.
pub mod Free
pub mod Stuck
use test_codes.Prelude.{
  ℕ, ◌+◌, ◌-◌, ◌^◌, ◌%◌, Bool, true, false, not, ◌&&◌, ◌||◌, Option, none, some, ltb, leb, ◌==◌,
  if◌then◌else◌, ◌>>=◌,
}
use test_codes.Event.Time.{Timeval}
use test_codes.Prelude.Int.{ℤ}
use test_codes.Ratelim.{
  Cfg, Bucket, level, ev_token_bucket_init, ev_token_bucket_update, ev_token_bucket_get_tick,
  ev_token_bucket_decrement_read, ev_token_bucket_decrement_write,
}
use test_codes.Bufferevent.{
  Why, bw, Suspended, Side, Limiting, Bufferevent, bufferevent_suspend_read,
  bufferevent_unsuspend_read, bufferevent_suspend_write, bufferevent_unsuspend_write, suspend,
  unsuspend,
}

-- `limit > 0` of a signed limit.
abbrev pub positive : ℕ → Bool
positive w = ltb (2 ^ 63) (level w)

-- What the code asks of others: the configurations in memory, the clock, and event_add.
pub record Host : Type 0 where
  pub cfgs : ℕ → Cfg
  pub now : Timeval
  pub adds : Bool

abbrev pub with_limit : Bufferevent → Limiting → Bufferevent
with_limit b l = record b { rate_limiting = some l }

-- `bev->rate_limiting`, with its configuration, if there are both.
abbrev pub with_cfg : Limiting → Option ℕ → Option (Limiting × ℕ)
with_cfg l none = none
with_cfg l (some p) = some (l, p)

abbrev pub limiting_of : Option Limiting → Option (Limiting × ℕ)
limiting_of none = none
limiting_of (some l) = with_cfg l l.cfg

unfoldable pub limit_of : Bufferevent → Option (Limiting × ℕ)
limit_of b = limiting_of b.rate_limiting

-- `if (bev->rate_limiting && bev->rate_limiting->cfg)`
unfoldable pub on_limit {ℓ} : {B : Type ℓ} → B → (Limiting → ℕ → B) → Option (Limiting × ℕ) → B
on_limit other f none = other
on_limit other f (some (l, p)) = f l p

-- event_add of the refill event: whether it fails, and the limit.
abbrev pub add_refill : Host → Limiting → Limiting
add_refill h l = record l { refill = l.refill || h.adds }

-- ev_token_bucket_get_tick and ev_token_bucket_update with the configuration at `p`.
pub update_limit : Host → Limiting → ℕ → Option Limiting
update_limit h l p = do
  tick ← ev_token_bucket_get_tick h.now (h.cfgs p)
  some (record l { limit = (ev_token_bucket_update l.limit (h.cfgs p) tick).1 })

-- bufferevent_update_buckets
pub bufferevent_update_buckets : Host → Limiting → ℕ → Option Limiting
bufferevent_update_buckets h l p = do
  tick ← ev_token_bucket_get_tick h.now (h.cfgs p)
  some (
      if tick == l.limit.last_updated
      then l
      else record l { limit = (ev_token_bucket_update l.limit (h.cfgs p) tick).1 })

-- The second half of bufferevent_decrement_read_limit, with the limit before and after.
pub settle_read : Host → Bufferevent → Limiting → Bool → Bool × Bufferevent
settle_read h b l old =
    if old && not (positive l.limit.read_limit)
    then (not h.adds, bufferevent_suspend_read (with_limit b (add_refill h l)) bw)
    else if not old && positive l.limit.read_limit
    then (
      false,
      bufferevent_unsuspend_read
          (with_limit b (if not b.writes.suspended.by_bw then record l { refill = false } else l))
          bw,
    )
    else (false, with_limit b l)

pub settle_write : Host → Bufferevent → Limiting → Bool → Bool × Bufferevent
settle_write h b l old =
    if old && not (positive l.limit.write_limit)
    then (not h.adds, bufferevent_suspend_write (with_limit b (add_refill h l)) bw)
    else if not old && positive l.limit.write_limit
    then (
      false,
      bufferevent_unsuspend_write
          (with_limit b (if not b.reads.suspended.by_bw then record l { refill = false } else l))
          bw,
    )
    else (false, with_limit b l)

-- bufferevent_decrement_read_limit, by a signed number of bytes: whether the result is -1, and the bufferevent.
pub bufferevent_decrement_read_limit : Host → Bufferevent → ℤ → Option (Bool × Bufferevent)
unfolding settle_read
bufferevent_decrement_read_limit h b decr =
    on_limit none
      (λ l p. some (
        settle_read h b (record l { limit = ev_token_bucket_decrement_read l.limit decr })
          (positive l.limit.read_limit)))
      (limit_of b)

pub bufferevent_decrement_write_limit : Host → Bufferevent → ℤ → Option (Bool × Bufferevent)
unfolding settle_write
bufferevent_decrement_write_limit h b decr =
    on_limit none
      (λ l p. some (
        settle_write h b (record l { limit = ev_token_bucket_decrement_write l.limit decr })
          (positive l.limit.write_limit)))
      (limit_of b)

-- _bev_refill_callback once the bucket is up to date.
pub resume_refilled : Host → Bufferevent → Limiting → Bufferevent
resume_refilled h b l =
    let again =
      (b.reads.suspended.by_bw && not (positive l.limit.read_limit))
      || (b.writes.suspended.by_bw && not (positive l.limit.write_limit)) in
    record b {
      reads =
          if b.reads.suspended.by_bw && positive l.limit.read_limit
          then unsuspend bw b.reads
          else b.reads;
      writes =
          if b.writes.suspended.by_bw && positive l.limit.write_limit
          then unsuspend bw b.writes
          else b.writes;
      rate_limiting = some (if again then add_refill h l else l);
    }

-- _bev_refill_callback, for which the event loop has taken the event off its queues.
pub bev_refill_callback : Host → Bufferevent → Option Bufferevent
unfolding resume_refilled update_limit
bev_refill_callback h b =
    on_limit (some b) (λ l p. (update_limit h l p >>= λ l'. some (resume_refilled h b l')))
      (limit_of b)

-- The sides, and the refill event, of a bufferevent that gets a limit.
pub start_limit : Host → Bufferevent → Limiting → Bufferevent
start_limit h b l =
    let suspended = not (positive l.limit.read_limit) || not (positive l.limit.write_limit) in
    record b {
      reads = if positive l.limit.read_limit then unsuspend bw b.reads else suspend bw b.reads;
      writes = if positive l.limit.write_limit then unsuspend bw b.writes else suspend bw b.writes;
      rate_limiting = some (if suspended then add_refill h l else l);
    }

-- `rlim->cfg != NULL`
abbrev pub has_cfg : Option ℕ → Bool
has_cfg none = false
has_cfg (some p) = true

-- `rlim` gets the configuration at `p`. event_del or evtimer_assign leaves the event not pending.
abbrev pub new_limit : Host → Limiting → ℕ → ℕ → Limiting
new_limit h l p tick = record {
  limit = ev_token_bucket_init l.limit (h.cfgs p) tick (has_cfg l.cfg);
  cfg = some p;
  refill = false;
}

abbrev pub empty_limit : Limiting
empty_limit = record {
  limit = record { read_limit = 0; write_limit = 0; last_updated = 0 };
  cfg = none;
  refill = false;
}

-- bufferevent_set_rate_limit with NULL.
pub clear_rate_limit : Bufferevent → Option Limiting → Bufferevent
clear_rate_limit b none = b
clear_rate_limit b (some l) = record b {
  reads = unsuspend bw b.reads;
  writes = unsuspend bw b.writes;
  rate_limiting = some (record l { cfg = none; refill = false });
}

abbrev pub same_cfg : Option ℕ → ℕ → Bool
same_cfg none p = false
same_cfg (some q) p = q == p

-- bufferevent_set_rate_limit with the configuration at `p`, which has got to the tick `tick`.
pub place_limit : Host → Bool → Bufferevent → ℕ → ℕ → Option Limiting → Bool × Bufferevent
unfolding start_limit
place_limit h memory b p tick none =
    if memory then (false, start_limit h b (new_limit h empty_limit p tick)) else (true, b)
place_limit h memory b p tick (some l) =
    (false, if same_cfg l.cfg p then b else start_limit h b (new_limit h l p tick))

-- bufferevent_set_rate_limit, with whether memory is left: whether the result is -1, and the
-- bufferevent.
pub bufferevent_set_rate_limit : Host → Bool → Bufferevent → Option ℕ → Option (Bool × Bufferevent)
unfolding clear_rate_limit place_limit
bufferevent_set_rate_limit h memory b none = some (false, clear_rate_limit b b.rate_limiting)
bufferevent_set_rate_limit h memory b (some p) = do
  tick ← ev_token_bucket_get_tick h.now (h.cfgs p)
  some (place_limit h memory b p tick b.rate_limiting)

-- bufferevent_get_read_limit and bufferevent_get_write_limit, with EV_SSIZE_MAX.
pub bufferevent_get_read_limit : Host → Bufferevent → Option (ℕ × Bufferevent)
unfolding bufferevent_update_buckets
bufferevent_get_read_limit h b =
    on_limit (some (2 ^ 63 - 1, b))
      (λ l p.
        (bufferevent_update_buckets h l p >>= λ l'. some (l'.limit.read_limit, with_limit b l')))
      (limit_of b)

pub bufferevent_get_write_limit : Host → Bufferevent → Option (ℕ × Bufferevent)
unfolding bufferevent_update_buckets
bufferevent_get_write_limit h b =
    on_limit (some (2 ^ 63 - 1, b))
      (λ l p.
        (bufferevent_update_buckets h l p >>= λ l'. some (l'.limit.write_limit, with_limit b l')))
      (limit_of b)
