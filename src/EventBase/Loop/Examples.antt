-- ===== src/EventBase/Loop/Examples.antt =====
-- The theorems on the loop at concrete inputs.
use test_codes.Prelude.{
  ◌≢◌, refl, true, false, [], ◌∷◌, none, some, ◌==◌, if◌then◌else◌, inl, inr, Bool-cases, arith,
  Then,
}
use test_codes.Event.{no_events}
use test_codes.Event.Time.{zero_time}
use test_codes.Evmap.{evmap_io_initmap, crashed}
use test_codes.Evmap.Io.{count}
use test_codes.Evmap.Signal.{evmap_signal_initmap}
use test_codes.MinHeap.{min_heap_ctor}
use test_codes.EventBase.{persist_closure, no_closure, Event, EventBase, World}
use test_codes.EventBase.Queues.{InStep}
use test_codes.EventBase.Calls.{evmap_add}
use test_codes.EventBase.Loop.{Looping, User, event_process_active, event_persist_closure}
use test_codes.EventBase.Loop.Rounds.{LoopFlags, Round, event_base_loop}
use test_codes.EventBase.Loop.Quiet.{IsQuiet, IsPlain, ActivePlain, count_visible}
use test_codes.EventBase.Loop.Order.{Ordered, event_process_active-Ordered}
use test_codes.EventBase.Loop.Persist.{CalledAfter, event_persist_closure-Rescheduled}
use test_codes.EventBase.Loop.Ends.{IfSome, Ends, event_base_loop-Ends}

abbrev world : World
world = record {
  now = record { sec = 100; usec = 0 };
  heap_ok = true;
  host = record {
    realloc_ok = true;
    calloc_ok = true;
    add_ok = λ fd old e. true;
    del_ok = λ fd old e. true;
  };
  signal_host = record {
    realloc_ok = true;
    calloc_ok = true;
    add_ok = λ sig. true;
    del_ok = λ sig. true;
  };
}

-- A persistent event with an interval of two seconds, which came due to its timeout at 99 seconds.
abbrev ticking : Event
ticking = record {
  ev_fd = none;
  ev_events = record no_events { persist = true };
  ev_res = record no_events { timeout = true };
  ev_ncalls = 0;
  ev_pncalls = false;
  ev_pri = 1;
  ev_closure = persist_closure;
  ev_timeout = record { sec = 99; usec = 0 };
  ev_io_timeout = record { sec = 2; usec = 0 };
  on_timeout = false;
  on_inserted = false;
  on_active = false;
  internal = false;
  init = true;
}

-- An event that has been activated with event_active.
abbrev activated : Event
activated = record ticking {
  ev_events = no_events;
  ev_res = record no_events { read = true };
  ev_closure = no_closure;
  on_active = true;
}

-- Events 9 and 8 are active with priority 1.
abbrev two_active : EventBase
two_active = record {
  events = λ e. if e == 8 then activated else if e == 9 then activated else ticking;
  eventqueue = [];
  activequeues = λ pri. if pri == 1 then 9 ∷ 8 ∷ [] else [];
  nactivequeues = 3;
  event_count = 2;
  event_count_active = 2;
  timeheap = min_heap_ctor;
  io = evmap_io_initmap;
  sigmap = evmap_signal_initmap;
  event_running_priority = none;
  event_continue = false;
  event_break = false;
  loop_ncalls = 0;
  need_notify = false;
  notified = false;
}

two_active-InStep : InStep two_active
unfolding count
two_active-InStep = record {
  queued = λ e. ground arith;
  activated = λ e q. ground arith;
  timed = λ e. ground arith;
  heap = record {
    placed = λ i k. absurd (omega arith);
    found_below = λ e i f. absurd (ground arith);
    found_at = λ e i f. absurd (ground arith);
    ordered = λ c a b. absurd (omega arith);
  };
  times = λ e. record { small = ground arith };
}

activated-IsPlain : IsPlain activated
activated-IsPlain = record { off_maps = λ once. refl; simple = tt }

two_active-ActivePlain : ActivePlain two_active
two_active-ActivePlain e on = elim (Bool-cases (e == 8)) [
  | inl eighth ↦ rw eighth activated-IsPlain
  | inr not_eighth ↦ elim (Bool-cases (e == 9)) [
    | inl ninth ↦ rw (not_eighth, ninth) activated-IsPlain
    | inr neither ↦ absurd (ground (arith, on))
  ]
]

abbrev start : Looping
start = record {
  base = two_active;
  event_gotterm = false;
  running_loop = false;
  defer_queue = 4 ∷ [];
  calls = [];
}

-- Callbacks that ask the loop to exit.
abbrev asks_to_exit : User
asks_to_exit = record {
  callback = λ e what l. record l { event_gotterm = true };
  deferred = λ cb l. l;
}

asks_to_exit-IsQuiet : IsQuiet asks_to_exit
asks_to_exit-IsQuiet = record {
  base = λ e what l. refl;
  calls = λ e what l. refl;
  deferred_base = λ cb l. refl;
  deferred_calls = λ cb l. refl;
}

event_process_active-Ordered_example :
    Then (Ordered 1 (9 ∷ 8 ∷ []) start) (event_process_active 3 asks_to_exit world start)
unfolding count_visible
event_process_active-Ordered_example =
    event_process_active-Ordered asks_to_exit asks_to_exit-IsQuiet 3 world 1 start two_active-InStep
      two_active-ActivePlain refl refl (omega arith) (λ q low. ground arith) (omega arith)
      (omega arith)

ticking_alive :
    (evmap_add world evmap_io_initmap evmap_signal_initmap 5 ticking.ev_events ticking.ev_fd).0
    ≢ crashed
unfolding evmap_add
ticking_alive e = cc

event_persist_closure-Rescheduled_example :
    Then (CalledAfter asks_to_exit world 5 start) (event_persist_closure asks_to_exit world 5 start)
event_persist_closure-Rescheduled_example =
    event_persist_closure-Rescheduled asks_to_exit world 5 start two_active-InStep
      (record { small = omega arith }) (record { small = omega arith }) (omega arith) refl
      ticking_alive

-- A round in which the backend finds nothing.
abbrev quiet_round : Round
quiet_round = record {
  before = some (record { sec = 100; usec = 0 });
  tv = zero_time;
  virtual = 0;
  dispatch = λ tv b. some b;
  after = world;
  fuel = 3;
}

abbrev only_once : LoopFlags
only_once = record { once = true; nonblock = false }

event_base_loop-Ends_example :
    IfSome
      (Ends only_once start)
      (event_base_loop (quiet_round ∷ quiet_round ∷ []) asks_to_exit only_once start)
event_base_loop-Ends_example =
    event_base_loop-Ends (quiet_round ∷ quiet_round ∷ []) asks_to_exit only_once start
