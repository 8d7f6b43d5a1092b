-- ===== src/EventBase.antt =====
-- The event base of codes/libevent-2.0.21-stable/event.c: its queues, and event_add, event_del and
-- event_active on them.
-- Events are numbers, and the base holds the `struct event` of each. The EVLIST_ bits are Booleans.
-- The base has no common timeouts, and its caller is the only thread: no call waits for another.
-- `none` is the end of the program in event_errx, or an assertion of evmap.c that fails.
pub mod Queues
pub mod Calls
pub mod Setup
pub mod Timers
pub mod Loop
mod Examples
use test_codes.Prelude.{
  ℕ, zero, suc, ◌+◌, ◌-◌, Bool, true, false, not, ◌&&◌, ◌||◌, List, [], ◌∷◌, ◌++◌, Option, none,
  some, ltb, leb, ◌==◌, if◌then◌else◌, ◌>>=◌,
}
use test_codes.Event.{What, no_events, or_what, and_what}
use test_codes.Event.Time.{Timeval, zero_time, time_lt, time_le, evutil_timeradd}
use test_codes.Evmap.{
  IoMap, Host, Status, failed, unchanged, changed, crashed, update, remove, evmap_io_add,
  evmap_io_del,
}
use test_codes.Evmap.Signal.{SignalMap, SignalHost, evmap_signal_add, evmap_signal_del}
use test_codes.MinHeap.{
  MinHeap, min_heap_reserve, min_heap_push, min_heap_erase, min_heap_elt_is_top,
}

-- EV_CLOSURE_NONE, EV_CLOSURE_SIGNAL, EV_CLOSURE_PERSIST
pub data Closure : Type 0 where
  no_closure signal_closure persist_closure : Closure

-- `struct event`; the last five fields are EVLIST_TIMEOUT, _INSERTED, _ACTIVE, _INTERNAL and _INIT.
pub record Event : Type 0 where
  pub ev_fd : Option ℕ
  pub ev_events : What
  pub ev_res : What
  pub ev_ncalls : ℕ
  pub ev_pncalls : Bool
  pub ev_pri : ℕ
  pub ev_closure : Closure
  pub ev_timeout : Timeval
  pub ev_io_timeout : Timeval
  pub on_timeout : Bool
  pub on_inserted : Bool
  pub on_active : Bool
  pub internal : Bool
  pub init : Bool

-- `struct event_base`. `loop_ncalls` is the counter of the signal loop that ev_pncalls points to;
-- `event_running_priority` is `none` for -1. The active queues from nactivequeues on are not there: event_queue_insert
-- does not put an event on them.
pub record EventBase : Type 0 where
  pub events : ℕ → Event
  pub eventqueue : List ℕ
  pub activequeues : ℕ → List ℕ
  pub nactivequeues : ℕ
  pub event_count : ℕ
  pub event_count_active : ℕ
  pub timeheap : MinHeap
  pub io : IoMap
  pub sigmap : SignalMap
  pub event_running_priority : Option ℕ
  pub event_continue : Bool
  pub event_break : Bool
  pub loop_ncalls : ℕ
  pub need_notify : Bool
  pub notified : Bool

-- What the world answers during a call: the time, the allocator and the backends.
pub record World : Type 0 where
  pub now : Timeval
  pub heap_ok : Bool
  pub host : Host
  pub signal_host : SignalHost

-- EVLIST_TIMEOUT, EVLIST_INSERTED, EVLIST_ACTIVE
pub data Queue : Type 0 where
  timeouts inserted active : Queue

abbrev pub has_flag : Queue → Event → Bool
has_flag timeouts ev = ev.on_timeout
has_flag inserted ev = ev.on_inserted
has_flag active ev = ev.on_active

abbrev pub set_flag : Queue → Bool → Event → Event
set_flag timeouts v ev = record ev { on_timeout = v }
set_flag inserted v ev = record ev { on_inserted = v }
set_flag active v ev = record ev { on_active = v }

abbrev pub modify : EventBase → ℕ → (Event → Event) → EventBase
modify b e f = record b { events = update b.events e (f (b.events e)) }

-- min_heap_elem_greater
abbrev pub greater : (ℕ → Event) → ℕ → ℕ → Bool
greater events a c = time_lt (events c).ev_timeout (events a).ev_timeout

-- The result of min_heap_push is not looked at: event_add_internal has reserved the room.
pub push_timeout : World → EventBase → ℕ → MinHeap
push_timeout w b e = elim (min_heap_push (greater b.events) w.heap_ok b.timeheap e) [
  | some heap ↦ heap
  | none ↦ b.timeheap
]

-- The `switch` of event_queue_insert.
pub enqueue : World → Queue → ℕ → EventBase → EventBase
enqueue w timeouts e b = record b { timeheap = push_timeout w b e }
enqueue w inserted e b = record b { eventqueue = b.eventqueue ++ e ∷ [] }
enqueue w active e b =
    let pri = (b.events e).ev_pri in
    record b {
      event_count_active = b.event_count_active + 1;
      activequeues = update b.activequeues pri (b.activequeues pri ++ e ∷ []);
    }

abbrev pub is_active : Queue → Bool
is_active active = true
is_active timeouts = false
is_active inserted = false

-- `if (~ev->ev_flags & EVLIST_INTERNAL)`
abbrev pub visible : Event → ℕ
visible ev = if ev.internal then 0 else 1

-- Whether a queue is there: `activequeues` is an array of nactivequeues queues, and a write behind it is the end of the
-- program here. An event that is active stands in the array: it shrinks only while no event is active.
abbrev pub in_array : Queue → ℕ → EventBase → Bool
in_array timeouts e b = true
in_array inserted e b = true
in_array active e b = ltb (b.events e).ev_pri b.nactivequeues

pub event_queue_insert : World → EventBase → ℕ → Queue → Option EventBase
event_queue_insert w b e q =
    let counted : EventBase = record b { event_count = b.event_count + visible (b.events e) } in
    if has_flag q (b.events e)
    then if is_active q then some b else none
    else if in_array q e b
    then some (enqueue w q e (modify counted e (set_flag q true)))
    else none

-- The `switch` of event_queue_remove.
pub dequeue : Queue → ℕ → EventBase → EventBase
dequeue timeouts e b = record b { timeheap = (min_heap_erase (greater b.events) b.timeheap e).1 }
dequeue inserted e b = record b { eventqueue = remove e b.eventqueue }
dequeue active e b =
    let pri = (b.events e).ev_pri in
    record b {
      event_count_active = b.event_count_active - 1;
      activequeues = update b.activequeues pri (remove e (b.activequeues pri));
    }

pub event_queue_remove : EventBase → ℕ → Queue → Option EventBase
event_queue_remove b e q =
    let counted : EventBase = record b { event_count = b.event_count - visible (b.events e) } in
    if has_flag q (b.events e)
    then some (dequeue q e (modify counted e (set_flag q false)))
    else none

-- `if (ev->ev_flags & EVLIST_...) event_queue_remove(...)`
pub remove_if_on : Queue → ℕ → EventBase → Option EventBase
remove_if_on q e b = if has_flag q (b.events e) then event_queue_remove b e q else some b
