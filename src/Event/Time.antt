-- ===== src/Event/Time.antt =====
-- The timeval macros of include/event2/util.h, and their use as one number of microseconds.
use test_codes.Prelude.{ℕ, ◌+◌, ◌-◌, ◌*◌, ◌<◌, ◌≡◌, Bool, ltb, leb, ◌==◌, if◌then◌else◌, arith}

-- `struct timeval`, for times that are not negative.
pub record Timeval : Type 0 where
  pub sec : ℕ
  pub usec : ℕ

abbrev pub million : ℕ
million = 1_000_000

-- A time as the kernel gives it.
pub record IsTime (t : Timeval) : Type 0 where
  pub small : t.usec < million

abbrev pub zero_time : Timeval
zero_time = record { sec = 0; usec = 0 }

-- evutil_timercmp with <, with > (by the swapped arguments) and with <=.
unfoldable pub time_lt : Timeval → Timeval → Bool
time_lt a b = if a.sec == b.sec then ltb a.usec b.usec else ltb a.sec b.sec

unfoldable pub time_le : Timeval → Timeval → Bool
time_le a b = if a.sec == b.sec then leb a.usec b.usec else leb a.sec b.sec

unfoldable pub evutil_timeradd : Timeval → Timeval → Timeval
evutil_timeradd a b =
    let usec = a.usec + b.usec in
    if leb million usec
    then record { sec = a.sec + b.sec + 1; usec = usec - million }
    else record { sec = a.sec + b.sec; usec = usec }

-- For `b` no later than `a`: the borrow is taken before the subtraction, which on ℕ stops at 0.
unfoldable pub evutil_timersub : Timeval → Timeval → Timeval
evutil_timersub a b =
    if ltb a.usec b.usec
    then record { sec = a.sec - b.sec - 1; usec = a.usec + million - b.usec }
    else record { sec = a.sec - b.sec; usec = a.usec - b.usec }

-- The time in microseconds.
abbrev pub micros : Timeval → ℕ
micros t = t.sec * million + t.usec

pub time_lt-micros : (a b : Timeval) → IsTime a → IsTime b → time_lt a b ≡ ltb (micros a) (micros b)
unfolding time_lt
time_lt-micros a b ha hb = ground arith

-- Timeval arithmetic on normal times is arithmetic on microseconds: the sum is normal and is the sum
-- of the microseconds, taking one of its two times away gives the other, and the comparisons are
-- those of the microseconds.
pub timeval_arithmetic :
    (a b : Timeval)
    → IsTime a
    → IsTime b
    → (micros (evutil_timeradd a b) ≡ micros a + micros b)
      × ((evutil_timeradd a b).usec < million)
      × (evutil_timersub (evutil_timeradd a b) b ≡ a)
      × (time_lt a b ≡ ltb (micros a) (micros b))
      × (time_le a b ≡ leb (micros a) (micros b))
unfolding time_lt time_le evutil_timeradd evutil_timersub
timeval_arithmetic a b ha hb =
    (ground arith, ground arith, ground arith, ground arith, ground arith)
