-- ===== src/Ratelim/Bounds.antt =====
-- The limits of a token bucket stay within their bounds, and its configuration.
use test_codes.Prelude.{
  ℕ, ◌+◌, ◌-◌, ◌^◌, ◌≤◌, ◌<◌, ◌≡◌, ◌⊎◌, inl, inr, refl, Bool, true, false, ◌||◌, Option, none, some,
  ltb, ◌==◌, if_intro, Then, arith,
}
use test_codes.Prelude.Int.{ℤ, pos, negsuc, pos_part, neg_part}
use test_codes.Event.Time.{Timeval}
use test_codes.Ratelim.{
  Cfg, Bucket, level, lowered, clip, ev_token_bucket_init, ev_token_bucket_update,
  ev_token_bucket_cfg_new, ev_token_bucket_get_tick, ev_token_bucket_decrement_read,
  ev_token_bucket_decrement_write,
}
use test_codes.Ratelim.Refill.{IsLimit, IsRate, IsCfg, IsBucket, ev_token_bucket_update-IsBucket}

-- The configuration that ev_token_bucket_cfg_new makes, or none: memory runs out, or the limits that
-- are asked for are none.
abbrev pub MadeCfg : Bool → ℕ → ℕ → ℕ → ℕ → Option Cfg → Type 0
MadeCfg memory read_rate read_burst write_rate write_burst none =
    (memory ≡ false) ⊎ ¬ (IsRate read_burst read_rate × IsRate write_burst write_rate)
MadeCfg memory read_rate read_burst write_rate write_burst (some cfg) =
    IsCfg cfg
    × (cfg.read_rate ≡ read_rate)
    × (cfg.read_maximum ≡ read_burst)
    × (cfg.write_rate ≡ write_rate)
    × (cfg.write_maximum ≡ write_burst)

-- ev_token_bucket_cfg_new, with memory, makes a configuration of the limits that it is given exactly
-- where both rates are at least one and at most their bursts, which are signed numbers.
pub ev_token_bucket_cfg_new-MadeCfg :
    (memory : Bool) (read_rate read_burst write_rate write_burst : ℕ) (tick_len : Option Timeval)
    → MadeCfg memory read_rate read_burst write_rate write_burst
        (ev_token_bucket_cfg_new memory read_rate read_burst write_rate write_burst tick_len)
unfolding ev_token_bucket_cfg_new
ev_token_bucket_cfg_new-MadeCfg memory read_rate read_burst write_rate write_burst tick_len =
    let P = MadeCfg memory read_rate read_burst write_rate write_burst in
    if_intro P
      (ltb read_burst read_rate
        || ltb write_burst write_rate
        || ltb read_rate 1
        || ltb write_rate 1)
      (λ bad. inr (λ h. ground (arith, h.0, h.1)))
      (λ good.
        if_intro P
          (ltb (2 ^ 63 - 1) read_rate
            || ltb (2 ^ 63 - 1) write_rate
            || ltb (2 ^ 63 - 1) read_burst
            || ltb (2 ^ 63 - 1) write_burst)
          (λ large. inr (λ h. ground (arith, h.0, h.1)))
          (λ small.
            if_intro P memory
              (λ there. (
                record {
                  reads = (ground arith, ground arith, ground arith);
                  writes = (ground arith, ground arith, ground arith);
                },
                refl,
                refl,
                refl,
                refl,
              ))
              (λ gone. inl gone)))

clip-IsLimit :
    (maximum limit : ℕ) → maximum < 2 ^ 63 → limit < 2 ^ 64 → IsLimit maximum (clip maximum limit)
unfolding clip
clip-IsLimit maximum limit small word =
    if_intro (IsLimit maximum) (ltb (level maximum) (level limit))
      (λ over. (omega arith, omega arith)) (λ under. (word, ground arith))

-- A signed number of bytes that a limit can be lowered by: it does not overflow, and it does not rise above its maximum.
abbrev pub Allowed : ℕ → ℕ → ℤ → Type 0
Allowed maximum limit n = (pos_part n ≤ level limit) × (level limit + neg_part n ≤ level maximum)

lowered-IsLimit :
    (maximum limit : ℕ) (n : ℤ)
    → IsLimit maximum limit
    → Allowed maximum limit n
    → IsLimit maximum (lowered limit n)
      × (level (lowered limit n) + pos_part n ≡ level limit + neg_part n)
lowered-IsLimit maximum limit (pos n) (word, low) (fits, under) =
    ((omega arith, omega arith), omega arith)
lowered-IsLimit maximum limit (negsuc n) (word, low) (fits, under) =
    ((omega arith, omega arith), omega arith)

pub fresh-IsBucket :
    (cfg : Cfg) (b : Bucket) (t : ℕ)
    → IsCfg cfg
    → t < 2 ^ 32
    → IsBucket cfg (ev_token_bucket_init b cfg t false)
unfolding ev_token_bucket_init
fresh-IsBucket cfg b t c small = record {
  reads = (omega (arith, c.reads.1, c.reads.2), omega (arith, c.reads.1, c.reads.2));
  writes = (omega (arith, c.writes.1, c.writes.2), omega (arith, c.writes.1, c.writes.2));
  tick = small;
}

-- The buckets that the operations make.
pub record InBounds (cfg old : Cfg) (b : Bucket) (t : ℕ) (n m : ℤ) : Type 0 where
  pub init : IsBucket cfg (ev_token_bucket_init b cfg t false)
  pub reinit : IsBucket cfg (ev_token_bucket_init b cfg t true)
  pub update : IsBucket old (ev_token_bucket_update b old t).1
  pub read : IsBucket old (ev_token_bucket_decrement_read b n)
  pub wrote : IsBucket old (ev_token_bucket_decrement_write b m)
  pub read_spent :
      level (ev_token_bucket_decrement_read b n).read_limit + pos_part n
      ≡ level b.read_limit + neg_part n
  pub write_spent :
      level (ev_token_bucket_decrement_write b m).write_limit + pos_part m
      ≡ level b.write_limit + neg_part m

-- The limits of a bucket stay at most their maxima, and its fields words of their size, after ev_token_bucket_init,
-- afresh and with a new configuration, after ev_token_bucket_update, and after the two decrements by signed numbers of
-- bytes. A decrement takes just the bytes that it is given, or adds just those of a negative number. It is not to overflow
-- the signed limit, and a negative number is not to lift the limit above its maximum.
pub ev_token_bucket-InBounds :
    (cfg old : Cfg) (b : Bucket) (t : ℕ) (n m : ℤ)
    → IsCfg cfg
    → IsCfg old
    → IsBucket old b
    → t < 2 ^ 32
    → Allowed old.read_maximum b.read_limit n
    → Allowed old.write_maximum b.write_limit m
    → InBounds cfg old b t n m
unfolding ev_token_bucket_init ev_token_bucket_update ev_token_bucket_decrement_read
    ev_token_bucket_decrement_write
ev_token_bucket-InBounds cfg old b t n m c d h small hn hm =
    let dr = lowered-IsLimit old.read_maximum b.read_limit n h.reads hn in
    let dw = lowered-IsLimit old.write_maximum b.write_limit m h.writes hm in
    record {
      init = fresh-IsBucket cfg b t c small;
      reinit = record {
        reads = clip-IsLimit cfg.read_maximum b.read_limit c.reads.2 h.reads.0;
        writes = clip-IsLimit cfg.write_maximum b.write_limit c.writes.2 h.writes.0;
        tick = h.tick;
      };
      update = ev_token_bucket_update-IsBucket old b t d h small;
      read = record { reads = dr.0; writes = h.writes; tick = h.tick };
      wrote = record { reads = h.reads; writes = dw.0; tick = h.tick };
      read_spent = dr.1;
      write_spent = dw.1;
    }

pub ev_token_bucket_get_tick_word :
    (tv : Timeval) (cfg : Cfg)
    → 0 < cfg.msec_per_tick
    → Then (λ t. t < 2 ^ 32) (ev_token_bucket_get_tick tv cfg)
unfolding ev_token_bucket_get_tick
ev_token_bucket_get_tick_word tv cfg h =
    if_intro (Then (λ t. t < 2 ^ 32)) (cfg.msec_per_tick == 0) (λ crashes. absurd (ground arith))
      (λ fine. omega arith)
