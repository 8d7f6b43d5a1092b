-- ===== src/Ratelim/Refill.antt =====
-- A token bucket holds what has been saved, and no more than its maximum.
use test_codes.Prelude.{
  ℕ, ◌+◌, ◌-◌, ◌*◌, ◌/◌, ◌%◌, ◌^◌, ◌≤◌, ◌<◌, ◌≡◌, ◌⊎◌, inl, inr, refl, sym, ap, ◌∙◌, Bool, true,
  false, ◌||◌, ltb, ◌==◌, min, Bool-cases, if_intro, arith,
}
use mathlib.Core.Path.{subst}
use native.Mathlib.Nat.{div-lt_iff_lt-mul}
use test_codes.Ratelim.{Cfg, Bucket, level, ticks_since, refill, ev_token_bucket_update}

-- A limit that is a word, and at most the maximum.
abbrev pub IsLimit : ℕ → ℕ → Type 0
IsLimit maximum limit = (limit < 2 ^ 64) × (level limit ≤ maximum + 2 ^ 63)

-- A rate that is at least one, and at most its maximum, which is a signed number.
abbrev pub IsRate : ℕ → ℕ → Type 0
IsRate maximum rate = (0 < rate) × (rate ≤ maximum) × (maximum < 2 ^ 63)

-- A configuration as ev_token_bucket_cfg_new makes it.
pub record IsCfg (cfg : Cfg) : Type 0 where
  pub reads : IsRate cfg.read_maximum cfg.read_rate
  pub writes : IsRate cfg.write_maximum cfg.write_rate

pub record IsBucket (cfg : Cfg) (b : Bucket) : Type 0 where
  pub reads : IsLimit cfg.read_maximum b.read_limit
  pub writes : IsLimit cfg.write_maximum b.write_limit
  pub tick : b.last_updated < 2 ^ 32

-- A limit after `n` ticks.
record IsRefilled (maximum rate n limit v : ℕ) : Type 0 where
  word : v < 2 ^ 64
  full_or_more : level v ≡ min (maximum + 2 ^ 63) (level limit + n * rate)

refill-IsRefilled :
    (maximum rate n limit : ℕ)
    → IsRate maximum rate
    → IsLimit maximum limit
    → 0 < n
    → IsRefilled maximum rate n limit (refill maximum rate n limit)
unfolding refill
refill-IsRefilled maximum rate n limit r h some_ticks =
    let room = (maximum + 2 ^ 64 - limit) % 2 ^ 64 in
    let rooms : room + level limit ≡ maximum + 2 ^ 63 = omega (arith, r.2, h.0, h.1) in
    let iff = div-lt_iff_lt-mul {k = n} {x = room} {y = rate} some_ticks in
    if_intro (λ (v : ℕ). IsRefilled maximum rate n limit v) (ltb (room / n) rate)
      (λ over.
        let short : room < rate * n = iff.0 (ground arith) in
        record { word = omega (arith, r.2); full_or_more = omega (arith, r.2, rooms, short) })
      (λ under.
        let enough : rate * n ≤ room = ground (arith, iff.1) in
        record { word = omega arith; full_or_more = omega (arith, r.2, rooms, enough) })

-- The bucket at the tick `t`, that was `b` before.
record Ticked (cfg : Cfg) (b : Bucket) (t : ℕ) (c : Bucket) : Type 0 where
  reads :
      IsRefilled cfg.read_maximum cfg.read_rate
        (ticks_since b.last_updated t)
        b.read_limit
        c.read_limit
  writes :
      IsRefilled cfg.write_maximum cfg.write_rate
        (ticks_since b.last_updated t)
        b.write_limit
        c.write_limit
  tick : c.last_updated ≡ t

still-IsRefilled :
    (maximum rate n limit : ℕ)
    → n ≡ 0
    → IsLimit maximum limit
    → IsRefilled maximum rate n limit limit
still-IsRefilled maximum rate n limit none_gone h = record {
  word = h.0;
  full_or_more = rw none_gone (omega (arith, h.1));
}

ev_token_bucket_update-Ticked :
    (cfg : Cfg) (b : Bucket) (t : ℕ)
    → IsCfg cfg
    → IsBucket cfg b
    → t < 2 ^ 32
    → ticks_since b.last_updated t < 2 ^ 31
    → Ticked cfg b t (ev_token_bucket_update b cfg t).1
unfolding ev_token_bucket_update
ev_token_bucket_update-Ticked cfg b t c h small forward =
    let n = ticks_since b.last_updated t in
    if_intro (λ (r : Bool × Bucket). Ticked cfg b t r.1) (n == 0 || ltb (2 ^ 31 - 1) n)
      (λ still.
        let none_gone : n ≡ 0 = ground (arith, forward) in
        record {
          reads = still-IsRefilled _ _ n _ none_gone h.reads;
          writes = still-IsRefilled _ _ n _ none_gone h.writes;
          tick = omega (arith, none_gone, h.tick);
        })
      (λ moved. record {
        reads = refill-IsRefilled _ _ n _ c.reads h.reads (ground arith);
        writes = refill-IsRefilled _ _ n _ c.writes h.writes (ground arith);
        tick = refl;
      })

Ticked-IsBucket :
    (cfg : Cfg) (b : Bucket) (t : ℕ) (c : Bucket) → t < 2 ^ 32 → Ticked cfg b t c → IsBucket cfg c
Ticked-IsBucket cfg b t c small k = record {
  reads = (k.reads.word, omega (arith, k.reads.full_or_more));
  writes = (k.writes.word, omega (arith, k.writes.full_or_more));
  tick = omega (arith, k.tick);
}

-- The results of ev_token_bucket_update, 0 first.
abbrev pub Updated : Cfg → Bucket → ℕ → Bool × Bucket → Type 0
Updated cfg b t (false, c) =
    (c ≡ b) × ((b.last_updated ≡ t) ⊎ (2 ^ 31 ≤ ticks_since b.last_updated t))
Updated cfg b t (true, c) =
    let n = ticks_since b.last_updated t in
    (0 < n)
    × (n < 2 ^ 31)
    × (level c.read_limit
        ≡ min (cfg.read_maximum + 2 ^ 63) (level b.read_limit + n * cfg.read_rate))
    × (level c.write_limit
        ≡ min (cfg.write_maximum + 2 ^ 63) (level b.write_limit + n * cfg.write_rate))
    × (c.last_updated ≡ t)

-- ev_token_bucket_update of a bucket whose limits are at most their maxima computes the naive formula,
-- although its words wrap around: with the limits as signed numbers, here raised by 2 ^ 63, each new
-- limit is the smaller one of its maximum and of the old limit with the rate for each tick gone by. The
-- count of ticks wraps around at 2 ^ 32. It returns 0 and changes nothing where no tick has gone by,
-- or 2 ^ 31 or more.
pub ev_token_bucket_update-Updated :
    (cfg : Cfg) (b : Bucket) (t : ℕ)
    → IsCfg cfg
    → IsBucket cfg b
    → t < 2 ^ 32
    → Updated cfg b t (ev_token_bucket_update b cfg t)
unfolding ev_token_bucket_update
ev_token_bucket_update-Updated cfg b t c h small =
    let n = ticks_since b.last_updated t in
    if_intro (Updated cfg b t) (n == 0 || ltb (2 ^ 31 - 1) n)
      (λ still. (
        refl,
        elim (Bool-cases (n == 0)) [
          | inl none_gone ↦ inl (ground (arith, h.tick))
          | inr some_gone ↦ inr (ground arith)
        ],
      ))
      (λ moved.
        let some_ticks : 0 < n = ground arith in
        let reads = refill-IsRefilled _ _ n _ c.reads h.reads some_ticks in
        let writes = refill-IsRefilled _ _ n _ c.writes h.writes some_ticks in
        (some_ticks, ground arith, reads.full_or_more, writes.full_or_more, refl))

-- Refilled twice.
IsRefilled-twice :
    (maximum rate n k limit v w : ℕ)
    → IsRefilled maximum rate n limit v
    → IsRefilled maximum rate k v w
    → IsRefilled maximum rate (n + k) limit w
IsRefilled-twice maximum rate n k limit v w g h = record {
  word = h.word;
  full_or_more = omega (arith, g.full_or_more, h.full_or_more);
}

IsRefilled-unique :
    (maximum rate n limit v w : ℕ)
    → IsRefilled maximum rate n limit v
    → IsRefilled maximum rate n limit w
    → v ≡ w
IsRefilled-unique maximum rate n limit v w g h =
    omega (arith, g.word, h.word, g.full_or_more, h.full_or_more)

-- Two updates in a row, with fewer than 2 ^ 31 ticks over both, are as good as the second one alone:
-- no tokens are lost or gained by updating more often.
pub ev_token_bucket_update_twice :
    (cfg : Cfg) (b : Bucket) (t u : ℕ)
    → IsCfg cfg
    → IsBucket cfg b
    → t < 2 ^ 32
    → u < 2 ^ 32
    → ticks_since b.last_updated t + ticks_since t u < 2 ^ 31
    → (ev_token_bucket_update (ev_token_bucket_update b cfg t).1 cfg u).1
      ≡ (ev_token_bucket_update b cfg u).1
ev_token_bucket_update_twice cfg b t u c h small small' forward =
    let n = ticks_since b.last_updated t in
    let k = ticks_since t u in
    let both : ticks_since b.last_updated u ≡ n + k = omega (arith, h.tick) in
    let first = ev_token_bucket_update-Ticked cfg b t c h small (omega arith) in
    let b' = (ev_token_bucket_update b cfg t).1 in
    let at : ticks_since b'.last_updated u ≡ k = ap (λ l. ticks_since l u) first.tick in
    let second =
      ev_token_bucket_update-Ticked cfg b' u c (Ticked-IsBucket cfg b t b' small first) small'
        (omega (arith, at)) in
    let once = ev_token_bucket_update-Ticked cfg b u c h small' (omega (arith, both)) in
    let c1 = (ev_token_bucket_update b' cfg u).1 in
    let c2 = (ev_token_bucket_update b cfg u).1 in
    same_bucket c1 c2
      (IsRefilled-unique _ _ (n + k) b.read_limit _ _
        (IsRefilled-twice _ _ n k _ _ _ first.reads (
          subst (λ m. IsRefilled cfg.read_maximum cfg.read_rate m b'.read_limit c1.read_limit) at
            second.reads))
        (subst (λ m. IsRefilled cfg.read_maximum cfg.read_rate m b.read_limit c2.read_limit) both
          once.reads))
      (IsRefilled-unique _ _ (n + k) b.write_limit _ _
        (IsRefilled-twice _ _ n k _ _ _ first.writes (
          subst (λ m. IsRefilled cfg.write_maximum cfg.write_rate m b'.write_limit c1.write_limit)
            at second.writes))
        (subst (λ m. IsRefilled cfg.write_maximum cfg.write_rate m b.write_limit c2.write_limit)
          both once.writes))
      (second.tick ∙ sym once.tick)
  where
    same_bucket :
        (c d : Bucket)
        → c.read_limit ≡ d.read_limit
        → c.write_limit ≡ d.write_limit
        → c.last_updated ≡ d.last_updated
        → c ≡ d
    same_bucket c d r w l =
        ap
          (λ x. record {
            read_limit = x;
            write_limit = c.write_limit;
            last_updated = c.last_updated;
          })
          r
        ∙ ap
            (λ x. record {
              read_limit = d.read_limit;
              write_limit = x;
              last_updated = c.last_updated;
            })
            w
        ∙ ap
            (λ x. record {
              read_limit = d.read_limit;
              write_limit = d.write_limit;
              last_updated = x;
            })
            l

pub ev_token_bucket_update-IsBucket :
    (cfg : Cfg) (b : Bucket) (t : ℕ)
    → IsCfg cfg
    → IsBucket cfg b
    → t < 2 ^ 32
    → IsBucket cfg (ev_token_bucket_update b cfg t).1
unfolding ev_token_bucket_update
ev_token_bucket_update-IsBucket cfg b t c h small =
    let n = ticks_since b.last_updated t in
    if_intro (λ (r : Bool × Bucket). IsBucket cfg r.1) (n == 0 || ltb (2 ^ 31 - 1) n) (λ still. h)
      (λ moved. Ticked-IsBucket cfg b t _ small (record {
        reads = refill-IsRefilled _ _ n _ c.reads h.reads (ground arith);
        writes = refill-IsRefilled _ _ n _ c.writes h.writes (ground arith);
        tick = refl;
      }))
