-- ===== src/EventBase/Examples.antt =====
-- The theorems on the event base at concrete inputs.
use test_codes.Prelude.{
  ◌||◌, ◌≢◌, refl, true, false, [], ◌∷◌, none, some, ◌==◌, if◌then◌else◌, arith, Bool, ◌≡◌, Then,
}
use test_codes.Event.{no_events}
use test_codes.Event.Time.{Timeval, zero_time}
use test_codes.Evmap.{
  remove, commit_slot, evmap_io_del, io_del_slot, no_longer_watched, slot_removed, crashed, update,
  evmap_io_add, io_add_at, evmap_make_space, get_slot_and_ctor, io_add_slot, slot_added,
  newly_watched,
}
use test_codes.Evmap.Io.{count}
use test_codes.MinHeap.{min_heap_ctor}
use test_codes.EventBase.{
  no_closure, Event, EventBase, World, timeouts, event_queue_insert, event_queue_remove,
}
use test_codes.EventBase.Queues.{InStep, event_queue_insert-InStep, event_queue_remove-InStep}
use test_codes.EventBase.Setup.{
  cleared, Assigned, event_assign, event_assign-Assigned, Prioritized, event_priority_set,
  event_priority_set-Prioritized, event_pending, event_pending-event_del_internal, IsCounted,
  Initialized, event_base_priority_init, event_base_priority_init-Initialized,
}
use test_codes.EventBase.Timers.{
  Waits, timeout_next, timeout_next-Waits, IsTimers, InRange, Expired, timeout_process,
  timeout_process-Expired,
}
use test_codes.EventBase.Calls.Add.{Added, event_add_internal-Added}
use test_codes.EventBase.Calls.{
  evmap_add, event_add_internal, evmap_del, event_del_internal, event_active_nolock,
}
use test_codes.EventBase.Calls.Del.{Deleted, event_del_internal-Deleted}
use test_codes.EventBase.Calls.Active.{Activated, event_active_nolock-Activated}

abbrev world : World
world = record {
  now = record { sec = 100; usec = 0 };
  heap_ok = true;
  host = record {
    realloc_ok = true;
    calloc_ok = true;
    add_ok = λ fd old e. true;
    del_ok = λ fd old e. true;
  };
  signal_host = record {
    realloc_ok = true;
    calloc_ok = true;
    add_ok = λ sig. true;
    del_ok = λ sig. true;
  };
}

abbrev idle : Event
idle = record {
  ev_fd = some 3;
  ev_events = record no_events { read = true };
  ev_res = no_events;
  ev_ncalls = 0;
  ev_pncalls = false;
  ev_pri = 1;
  ev_closure = no_closure;
  ev_timeout = zero_time;
  ev_io_timeout = zero_time;
  on_timeout = false;
  on_inserted = false;
  on_active = false;
  internal = false;
  init = true;
}

-- Event 8 waits to read descriptor 3, is active, and has a timeout.
abbrev busy : Event
busy = record idle { on_timeout = true; on_inserted = true; on_active = true }

abbrev busy_base : EventBase
busy_base = record {
  events = λ e. if e == 8 then busy else idle;
  eventqueue = 8 ∷ [];
  activequeues = λ pri. if pri == 1 then 8 ∷ [] else [];
  nactivequeues = 3;
  event_count = 3;
  event_count_active = 1;
  timeheap = record {
    p = λ i. 8;
    n = 1;
    a = 8;
    min_heap_idx = λ e. if e == 8 then some 0 else none;
  };
  io = record {
    nentries = 32;
    entries = update (λ fd. none) 3 (some (record { events = 8 ∷ []; nread = 1; nwrite = 0 }));
    calls = [];
  };
  sigmap = record { nentries = 0; entries = λ sig. none; calls = [] };
  event_running_priority = none;
  event_continue = false;
  event_break = false;
  loop_ncalls = 0;
  need_notify = true;
  notified = false;
}

busy_base-InStep : InStep busy_base
unfolding count
busy_base-InStep = record {
  queued = λ e. ground arith;
  activated = λ e q. ground arith;
  timed = λ e. ground arith;
  heap = record {
    placed = λ i k. ground arith;
    found_below = λ e i f. ground arith;
    found_at = λ e i f. ground arith;
    ordered = λ c a b. absurd (omega arith);
  };
  times = λ e. record { small = ground arith };
}

event_queue_insert-InStep_example : Then InStep (event_queue_insert world busy_base 5 timeouts)
event_queue_insert-InStep_example =
    event_queue_insert-InStep world busy_base 5 timeouts busy_base-InStep refl refl (λ full. refl)

event_queue_remove-InStep_example : Then InStep (event_queue_remove busy_base 8 timeouts)
event_queue_remove-InStep_example =
    event_queue_remove-InStep busy_base 8 timeouts busy_base-InStep refl

busy_base_alive :
    (evmap_del world busy_base.io busy_base.sigmap 8 busy.ev_events busy.ev_fd).0 ≢ crashed
unfolding evmap_del evmap_io_del io_del_slot commit_slot no_longer_watched slot_removed remove
busy_base_alive e = cc

event_del_internal-Deleted_example : Then (Deleted 8 busy) (event_del_internal world busy_base 8)
event_del_internal-Deleted_example =
    event_del_internal-Deleted world busy_base 8 busy_base-InStep (λ on. busy_base_alive)

event_active_nolock-Activated_example :
    Then
      (Activated 8 busy (record no_events { timeout = true }))
      (event_active_nolock world busy_base 8 (record no_events { timeout = true }) 1)
event_active_nolock-Activated_example =
    event_active_nolock-Activated world busy_base 8 (record no_events { timeout = true }) 1
      busy_base-InStep (omega arith)

idle_alive : (evmap_add world busy_base.io busy_base.sigmap 5 idle.ev_events idle.ev_fd).0 ≢ crashed
unfolding evmap_add evmap_io_add io_add_at evmap_make_space get_slot_and_ctor io_add_slot slot_added
    newly_watched commit_slot
idle_alive e = cc

abbrev two_seconds : Timeval
two_seconds = record { sec = 2; usec = 0 }

event_add_internal-Added_example :
    Then
      (Added world 5 (some two_seconds) false busy_base)
      (event_add_internal world busy_base 5 (some two_seconds) false)
event_add_internal-Added_example =
    event_add_internal-Added world busy_base 5 (some two_seconds) false busy_base-InStep
      (record { small = ground arith }) (record { small = ground arith }) refl idle_alive

-- Nobody has set up event 5, whose memory says that it is active and first in the heap.
abbrev garbage_base : EventBase
garbage_base = record busy_base {
  events = λ e. if e == 8 then busy else record idle { on_active = e == 5 };
  timeheap = record busy_base.timeheap {
    min_heap_idx = λ e. if e == 8 || e == 5 then some 0 else none;
  };
}

garbage_base-InStep : InStep (cleared garbage_base 5)
unfolding count
garbage_base-InStep = record {
  queued = λ e. ground arith;
  activated = λ e q. ground arith;
  timed = λ e. ground arith;
  heap = record {
    placed = λ i k. ground arith;
    found_below = λ e i f. ground arith;
    found_at = λ e i f. ground arith;
    ordered = λ c a b. absurd (omega arith);
  };
  times = λ e. record { small = ground arith };
}

event_assign-Assigned_example :
    Assigned garbage_base 5
      (some 4)
      (record no_events { write = true; persist = true })
      (event_assign garbage_base 5 (some 4) (record no_events { write = true; persist = true }))
event_assign-Assigned_example =
    event_assign-Assigned garbage_base 5 (some 4)
      (record no_events { write = true; persist = true }) garbage_base-InStep

event_priority_set-Prioritized_example :
    Prioritized busy_base 5 (some 2) (event_priority_set busy_base 5 (some 2))
event_priority_set-Prioritized_example =
    event_priority_set-Prioritized busy_base 5 (some 2) busy_base-InStep

event_pending-event_del_internal_example :
    Then
      (λ (r : Bool × EventBase).
        event_pending zero_time (r.1.events 8) (record no_events { read = true; timeout = true })
        ≡ (no_events, none))
      (event_del_internal world busy_base 8)
event_pending-event_del_internal_example =
    event_pending-event_del_internal world busy_base 8 zero_time
      (record no_events { read = true; timeout = true }) busy_base-InStep (λ on. busy_base_alive)

abbrev quiet_base : EventBase
quiet_base = record busy_base {
  events = λ e. idle;
  eventqueue = [];
  activequeues = λ pri. [];
  event_count = 0;
  event_count_active = 0;
  timeheap = min_heap_ctor;
}

quiet_base-InStep : InStep quiet_base
unfolding count
quiet_base-InStep = record {
  queued = λ e. refl;
  activated = λ e q. refl;
  timed = λ e. refl;
  heap = record {
    placed = λ i k. absurd (omega arith);
    found_below = λ e i f. ground arith;
    found_at = λ e i f. ground arith;
    ordered = λ c a b. absurd (omega arith);
  };
  times = λ e. record { small = ground arith };
}

quiet_base-IsCounted : IsCounted quiet_base
quiet_base-IsCounted e on = cc

event_base_priority_init-Initialized_example :
    Initialized quiet_base 5 (event_base_priority_init true 0 quiet_base 5)
event_base_priority_init-Initialized_example =
    event_base_priority_init-Initialized true 0 quiet_base 5 quiet_base-InStep quiet_base-IsCounted

timeout_next-Waits_example :
    Waits busy_base two_seconds (timeout_next busy_base (some two_seconds) zero_time)
timeout_next-Waits_example =
    timeout_next-Waits busy_base two_seconds zero_time busy_base-InStep
      (record { small = ground arith })

-- Event 8 is a timer that is due.
abbrev timer_base : EventBase
timer_base = record quiet_base {
  events = λ e. if e == 8 then record idle { on_timeout = true } else idle;
  timeheap = busy_base.timeheap;
}

timer_base-InStep : InStep timer_base
unfolding count
timer_base-InStep = record {
  queued = λ e. ground arith;
  activated = λ e q. ground arith;
  timed = λ e. ground arith;
  heap = record {
    placed = λ i k. ground arith;
    found_below = λ e i f. ground arith;
    found_at = λ e i f. ground arith;
    ordered = λ c a b. absurd (omega arith);
  };
  times = λ e. record { small = ground arith };
}

timer_base-IsTimers : IsTimers timer_base
timer_base-IsTimers e on = ground arith

timer_base-InRange : InRange timer_base
timer_base-InRange e = ground arith

timeout_process-Expired_example : Then (Expired world timer_base) (timeout_process world timer_base)
timeout_process-Expired_example =
    timeout_process-Expired world timer_base timer_base-InStep timer_base-IsTimers
      timer_base-InRange (record { small = ground arith })
