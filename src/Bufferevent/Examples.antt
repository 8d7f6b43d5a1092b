-- ===== src/Bufferevent/Examples.antt =====
-- The theorems on bufferevents at concrete inputs.
use test_codes.Prelude.{◌-◌, ◌^◌, ◌≡◌, ap, true, false, none, some, refl, arith}
use test_codes.Prelude.Int.{pos, negsuc}
use test_codes.Ratelim.{Cfg, level}
use test_codes.Ratelim.Bounds.{Allowed}
use test_codes.Bufferevent.{bw, Suspended, Limiting, Bufferevent}
use test_codes.Bufferevent.Told.{BothTold, KeepsTold, bufferevent-KeepsTold}
use test_codes.Bufferevent.Limit.{Host}
use test_codes.Bufferevent.Limit.Free.{GoodHost, IsFree}
use test_codes.Bufferevent.Limit.Stuck.{NeverStuck, bufferevent-NeverStuck}

abbrev going : Suspended
going = record {
  by_wm = false;
  by_bw = false;
  by_bw_group = false;
  by_lookup = false;
  by_filt_read = false;
}

-- 300 bytes too many have been read, and 20 may be written.
abbrev limiting : Limiting
limiting = record {
  limit = record { read_limit = 2 ^ 64 - 300; write_limit = 20; last_updated = 5 };
  cfg = some 0;
  refill = true;
}

abbrev stopped_reading : Bufferevent
stopped_reading = record {
  reads = record { enabled = true; told = false; suspended = record going { by_bw = true } };
  writes = record { enabled = true; told = true; suspended = going };
  read_low = 0;
  read_high = 0;
  write_low = 0;
  write_high = 0;
  read_watermarks_cb = none;
  connecting = false;
  rate_limiting = some limiting;
}

stopped_reading-BothTold : BothTold stopped_reading
unfolding BothTold
stopped_reading-BothTold = (refl, refl)

bufferevent-KeepsTold_example : KeepsTold stopped_reading bw true true true true 100 0 50
bufferevent-KeepsTold_example =
    bufferevent-KeepsTold stopped_reading bw true true true true 100 0 50 stopped_reading-BothTold

abbrev kilobyte_a_second : Cfg
kilobyte_a_second = record {
  read_rate = 1000;
  read_maximum = 4000;
  write_rate = 500;
  write_maximum = 500;
  tick_timeout = record { sec = 1; usec = 0 };
  msec_per_tick = 1000;
}

abbrev host : Host
host = record { cfgs = λ p. kilobyte_a_second; now = record { sec = 7; usec = 0 }; adds = true }

host-GoodHost : GoodHost host
host-GoodHost = record {
  cfgs = λ p. record {
    reads = (omega arith, omega arith, omega arith);
    writes = (omega arith, omega arith, omega arith);
  };
  ticks = λ p. omega arith;
  adds = refl;
}

stopped_reading-IsFree : IsFree host stopped_reading
unfolding IsFree
stopped_reading-IsFree = record {
  bucket = record {
    reads = (omega arith, omega arith);
    writes = (omega arith, omega arith);
    tick = omega arith;
  };
  reads = ground arith;
  writes = ground arith;
  read_refill = refl;
  write_refill = refl;
}

-- 800 bytes are given back to the side that reads, which goes on, and 20 bytes are written.
bufferevent-NeverStuck_example : NeverStuck host stopped_reading true (some 1) (negsuc 799) (pos 20)
bufferevent-NeverStuck_example =
    bufferevent-NeverStuck host stopped_reading true (some 1) (negsuc 799) (pos 20) host-GoodHost
      stopped_reading-IsFree (λ l p e f. refilled l e) (λ l p e f. written l e)
  where
    refilled :
        (l : Limiting) → some limiting ≡ some l → Allowed 4000 l.limit.read_limit (negsuc 799)
    refilled l e =
        let same : limiting ≡ l = cc in
        let held = ap (λ (x : Limiting). level x.limit.read_limit) same in
        (omega arith, omega (arith, held))

    written : (l : Limiting) → some limiting ≡ some l → Allowed 500 l.limit.write_limit (pos 20)
    written l e =
        let same : limiting ≡ l = cc in
        let held = ap (λ (x : Limiting). level x.limit.write_limit) same in
        (omega (arith, held), omega (arith, held))
