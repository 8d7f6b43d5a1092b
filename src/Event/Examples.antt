-- ===== src/Event/Examples.antt =====
-- The theorems on times at concrete inputs.
use test_codes.Prelude.{◌+◌, ◌<◌, ◌≡◌, ltb, leb, arith}
use test_codes.Event.Time.{
  Timeval, micros, million, time_lt, time_le, evutil_timeradd, evutil_timersub, timeval_arithmetic,
}

abbrev early : Timeval
early = record { sec = 3; usec = 600_000 }

abbrev late : Timeval
late = record { sec = 7; usec = 500_000 }

timeval_arithmetic_example :
    (micros (evutil_timeradd late early) ≡ micros late + micros early)
    × ((evutil_timeradd late early).usec < million)
    × (evutil_timersub (evutil_timeradd late early) early ≡ late)
    × (time_lt late early ≡ ltb (micros late) (micros early))
    × (time_le late early ≡ leb (micros late) (micros early))
timeval_arithmetic_example = timeval_arithmetic late early (omega arith) (omega arith)
