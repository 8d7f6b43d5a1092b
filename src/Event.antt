-- ===== src/Event.antt =====
-- Event flags and times: EV_READ and the like of include/event2/event.h, and the timeval macros of
-- include/event2/util.h, of codes/libevent-2.0.21-stable.
pub mod Time
mod Examples
use test_codes.Prelude.{ℕ, Bool, true, false, ◌&&◌, ◌||◌, ◌==◌, if◌then◌else◌}

-- A set of EV_ bits, each a Boolean.
pub record What : Type 0 where
  pub timeout : Bool
  pub read : Bool
  pub write : Bool
  pub signal : Bool
  pub persist : Bool
  pub et : Bool

abbrev pub no_events : What
no_events = record {
  timeout = false;
  read = false;
  write = false;
  signal = false;
  persist = false;
  et = false;
}

-- `a | b` and `a & b`.
abbrev pub or_what : What → What → What
or_what a b = record {
  timeout = a.timeout || b.timeout;
  read = a.read || b.read;
  write = a.write || b.write;
  signal = a.signal || b.signal;
  persist = a.persist || b.persist;
  et = a.et || b.et;
}

abbrev pub and_what : What → What → What
and_what a b = record {
  timeout = a.timeout && b.timeout;
  read = a.read && b.read;
  write = a.write && b.write;
  signal = a.signal && b.signal;
  persist = a.persist && b.persist;
  et = a.et && b.et;
}

abbrev pub is_empty : What → Bool
is_empty a = if a.timeout || a.read || a.write || a.signal || a.persist || a.et then false else true
