-- ===== src/Ratelim/Examples.antt =====
-- The theorems on token buckets at concrete inputs.
use test_codes.Prelude.{◌^◌, ◌-◌, ◌≡◌, arith}
use test_codes.Prelude.Int.{pos, negsuc}
use test_codes.Ratelim.{Cfg, Bucket, ev_token_bucket_update}
use test_codes.Ratelim.Refill.{
  IsCfg, IsBucket, Updated, ev_token_bucket_update-Updated, ev_token_bucket_update_twice,
}
use test_codes.Ratelim.Bounds.{InBounds, ev_token_bucket-InBounds}

abbrev kilobyte_a_second : Cfg
kilobyte_a_second = record {
  read_rate = 1000;
  read_maximum = 4000;
  write_rate = 500;
  write_maximum = 500;
  tick_timeout = record { sec = 1; usec = 0 };
  msec_per_tick = 1000;
}

-- 300 bytes too many have been read, and the ticks are about to wrap around.
abbrev overdrawn : Bucket
overdrawn = record { read_limit = 2 ^ 64 - 300; write_limit = 20; last_updated = 2 ^ 32 - 1 }

kilobyte_a_second-IsCfg : IsCfg kilobyte_a_second
kilobyte_a_second-IsCfg = record {
  reads = (omega arith, omega arith, omega arith);
  writes = (omega arith, omega arith, omega arith);
}

overdrawn-IsBucket : IsBucket kilobyte_a_second overdrawn
overdrawn-IsBucket = record {
  reads = (omega arith, omega arith);
  writes = (omega arith, omega arith);
  tick = omega arith;
}

ev_token_bucket_update-Updated_example :
    Updated kilobyte_a_second overdrawn 1 (ev_token_bucket_update overdrawn kilobyte_a_second 1)
ev_token_bucket_update-Updated_example =
    ev_token_bucket_update-Updated kilobyte_a_second overdrawn 1 kilobyte_a_second-IsCfg
      overdrawn-IsBucket (omega arith)

ev_token_bucket_update_twice_example :
    (ev_token_bucket_update
      (ev_token_bucket_update overdrawn kilobyte_a_second 1).1
      kilobyte_a_second
      3).1
    ≡ (ev_token_bucket_update overdrawn kilobyte_a_second 3).1
ev_token_bucket_update_twice_example =
    ev_token_bucket_update_twice kilobyte_a_second overdrawn 1 3 kilobyte_a_second-IsCfg
      overdrawn-IsBucket (omega arith) (omega arith) (omega arith)

-- 700 bytes more are read, and 30 bytes are given back to the side that writes.
ev_token_bucket-InBounds_example :
    InBounds kilobyte_a_second kilobyte_a_second overdrawn 1 (pos 700) (negsuc 29)
ev_token_bucket-InBounds_example =
    ev_token_bucket-InBounds kilobyte_a_second kilobyte_a_second overdrawn 1 (pos 700) (negsuc 29)
      kilobyte_a_second-IsCfg kilobyte_a_second-IsCfg overdrawn-IsBucket (omega arith)
      (omega arith, omega arith) (omega arith, omega arith)
