-- ===== src/EventBase/Setup.antt =====
-- The calls of event.c that set up events and priorities, and event_pending.
use test_codes.Prelude.{
  ℕ, ◌+◌, ◌/◌, ◌<◌, ◌≡◌, ◌≢◌, inl, inr, refl, sym, ◌∙◌, Bool, true, false, not, ◌&&◌, ◌||◌, [],
  Option, none, some, ltb, leb, ◌==◌, if◌then◌else◌, Bool-cases, arith, Then, Then-map,
}
use test_codes.Event.{What, no_events, or_what, and_what}
use test_codes.Event.Time.{Timeval, zero_time, evutil_timeradd}
use test_codes.Evmap.{crashed, update}
use test_codes.Evmap.Io.{count}
use test_codes.MinHeap.{forget}
use test_codes.EventBase.{
  Closure, no_closure, signal_closure, persist_closure, Event, EventBase, World, modify, greater,
}
use test_codes.EventBase.Queues.{InStep, rekey-IsHeap, key}
use test_codes.EventBase.Calls.{evmap_del, event_del_internal}
use test_codes.EventBase.Calls.Del.{IsOff, event_del_internal-Deleted}

-- The fields that event_assign sets before it looks at the events.
abbrev fresh : Option ℕ → What → Event → Event
fresh fd events ev = record ev {
  ev_fd = fd;
  ev_events = events;
  ev_res = no_events;
  ev_ncalls = 0;
  ev_pncalls = false;
  on_timeout = false;
  on_inserted = false;
  on_active = false;
  internal = false;
  init = true;
}

abbrev closure_for : What → Closure
closure_for events =
    if events.signal then signal_closure else if events.persist then persist_closure else no_closure

-- The fields that it sets after that.
abbrev settled : ℕ → What → Event → Event
settled nactivequeues events ev = record ev {
  ev_closure = closure_for events;
  ev_io_timeout = if not events.signal && events.persist then zero_time else ev.ev_io_timeout;
  ev_pri = nactivequeues / 2;
}

-- event_assign on a base: whether the result is -1, and the base. The callback and its argument are
-- not in the model.
unfoldable pub event_assign : EventBase → ℕ → Option ℕ → What → Bool × EventBase
event_assign b e fd events =
    let b' : EventBase = record b { timeheap = forget (greater b.events) b.timeheap e } in
    if events.signal && (events.read || events.write)
    then (true, modify b e (fresh fd events))
    else (false, modify b' e (λ v. settled b.nactivequeues events (fresh fd events v)))

-- event_priority_set: whether the result is -1, and the base. A negative priority is `none`.
unfoldable pub event_priority_set : EventBase → ℕ → Option ℕ → Bool × EventBase
event_priority_set b e none = (true, b)
event_priority_set b e (some pri) =
    if (b.events e).on_active || leb b.nactivequeues pri
    then (true, b)
    else (false, modify b e (λ v. record v { ev_pri = pri }))

-- event_base_priority_init, where mm_calloc succeeds if `ok` and `deferred` callbacks wait: whether
-- the result is -1, and the base. A negative count of priorities is as 0.
unfoldable pub event_base_priority_init : Bool → ℕ → EventBase → ℕ → Bool × EventBase
event_base_priority_init ok deferred b npriorities =
    let freed : EventBase = record b { activequeues = λ pri. []; nactivequeues = 0 } in
    if ltb 0 (b.event_count_active + deferred) || ltb npriorities 1 || leb 256 npriorities
    then (true, b)
    else if npriorities == b.nactivequeues
    then (false, b)
    else if ok
    then (false, record freed { nactivequeues = npriorities })
    else (true, freed)

-- The flags that event_pending collects.
abbrev pending_flags : Event → What
pending_flags ev =
    let watched = record no_events { read = true; write = true; signal = true } in
    or_what
      (or_what (if ev.on_inserted then and_what ev.ev_events watched else no_events)
        (if ev.on_active then ev.ev_res else no_events))
      (record no_events { timeout = ev.on_timeout })

-- event_pending: the flags, and the time for `tv`; `clock_diff` is what tells real time from the
-- monotonic clock.
unfoldable pub event_pending : Timeval → Event → What → What × Option Timeval
event_pending clock_diff ev event =
    let asked = record event { persist = false; et = false } in
    let flags = and_what (pending_flags ev) asked in
    (flags, if flags.timeout then some (evutil_timeradd clock_diff ev.ev_timeout) else none)

-- event_haveevents, where `virtual` is the count of virtual events.
abbrev pub event_haveevents : ℕ → EventBase → Bool
event_haveevents virtual b = ltb 0 virtual || ltb 0 b.event_count

-- The base as it is apart from what the memory of an event that has not been set up may hold: flags,
-- and a place in the heap.
abbrev pub cleared : EventBase → ℕ → EventBase
cleared b e = record b {
  events =
      update b.events e
        (record (b.events e) { on_timeout = false; on_inserted = false; on_active = false });
  timeheap = forget (greater b.events) b.timeheap e;
}

-- What the event holds after event_assign, whatever it held before.
pub record Fresh (fd : Option ℕ) (events : What) (v : Event) : Type 0 where
  pub descriptor : v.ev_fd ≡ fd
  pub kinds : v.ev_events ≡ events
  pub result : v.ev_res ≡ no_events
  pub calls : (v.ev_ncalls ≡ 0) × (v.ev_pncalls ≡ false)
  pub off : IsOff v
  pub flags : (v.internal ≡ false) × (v.init ≡ true)

-- How the event will be run.
pub record HasClosure (events : What) (v : Event) : Type 0 where
  pub signal : events.signal ≡ true → v.ev_closure ≡ signal_closure
  pub persist :
      events.signal ≡ false
      → events.persist ≡ true
      → (v.ev_closure ≡ persist_closure) × (v.ev_io_timeout ≡ zero_time)
  pub once : events.signal ≡ false → events.persist ≡ false → v.ev_closure ≡ no_closure

-- The two results of event_assign, -1 first.
abbrev pub Assigned : EventBase → ℕ → Option ℕ → What → Bool × EventBase → Type 0
Assigned b e fd events (true, c) =
    (events.signal && (events.read || events.write) ≡ true)
    × Fresh fd events (c.events e)
    × ((j : ℕ) → e == j ≡ false → c.events j ≡ b.events j)
    × InStep (cleared c e)
Assigned b e fd events (false, c) =
    (events.signal && (events.read || events.write) ≡ false)
    × Fresh fd events (c.events e)
    × ((j : ℕ) → e == j ≡ false → c.events j ≡ b.events j)
    × InStep c
    × HasClosure events (c.events e)
    × (c.timeheap.min_heap_idx e ≡ none)
    × ((c.events e).ev_pri ≡ c.nactivequeues / 2)
    × (0 < b.nactivequeues → (c.events e).ev_pri < c.nactivequeues)

-- Flags and queues do not depend on the other fields of the events.
same_queues-InStep :
    (b : EventBase) (evs : ℕ → Event)
    → InStep b
    → ((j : ℕ) → (evs j).on_inserted ≡ (b.events j).on_inserted)
    → ((j q : ℕ)
        → (evs j).on_active && (evs j).ev_pri == q
          ≡ (b.events j).on_active && (b.events j).ev_pri == q)
    → ((j : ℕ) → (evs j).on_timeout ≡ (b.events j).on_timeout)
    → ((j : ℕ) → (evs j).ev_timeout ≡ (b.events j).ev_timeout)
    → InStep (record b { events = evs })
same_queues-InStep b evs s inserted active timed time = record {
  queued = λ j. rw (inserted j) (s.queued j);
  activated = λ j q. rw (active j q) (s.activated j q);
  timed = λ j. s.timed j ∙ sym (timed j);
  heap = rekey-IsHeap (key b.events) _ b.timeheap (λ x c. rw (time x) refl) s.heap;
  times = λ j. rw (time j) (s.times j);
}

fresh-Fresh : (fd : Option ℕ) (events : What) (ev : Event) → Fresh fd events (fresh fd events ev)
fresh-Fresh fd events ev = record {
  descriptor = refl;
  kinds = refl;
  result = refl;
  calls = (refl, refl);
  off = (refl, refl, refl);
  flags = (refl, refl);
}

settled-Fresh :
    (n : ℕ) (fd : Option ℕ) (events : What) (ev : Event)
    → Fresh fd events (settled n events (fresh fd events ev))
settled-Fresh n fd events ev = record {
  descriptor = refl;
  kinds = refl;
  result = refl;
  calls = (refl, refl);
  off = (refl, refl, refl);
  flags = (refl, refl);
}

closure_for-HasClosure :
    (n : ℕ) (events : What) (ev : Event) → HasClosure events (settled n events ev)
closure_for-HasClosure n events ev = record {
  signal = λ s. rw s refl;
  persist = λ s p. rw (s, p) (refl, refl);
  once = λ s p. rw (s, p) refl;
}

-- event_assign of an event that is on no queue, whatever its memory holds as flags and as its place
-- in the heap, sets the descriptor and the events that are given and clears the result, the count
-- of calls and the flags; no other event changes. It fails exactly for a signal event that is to
-- read or write. Else flags and queues are in step, the event has no place in the heap, it will be
-- run as a signal, as a persistent event, whose interval is then zero, or once, and it has the
-- middle priority, which is one that the base has, if it has any.
pub event_assign-Assigned :
    (b : EventBase) (e : ℕ) (fd : Option ℕ) (events : What)
    → InStep (cleared b e)
    → Assigned b e fd events (event_assign b e fd events)
unfolding event_assign
event_assign-Assigned b e fd events s =
    let hit : e == e ≡ true = ground arith in
    elim (Bool-cases (events.signal && (events.read || events.write))) [
      | inl both ↦
          rw (both, hit)
            (
              both,
              fresh-Fresh fd events (b.events e),
              (λ j other. rw other refl),
              same_queues-InStep (cleared b e) _ s (λ j. ground arith) (λ j q. ground arith)
                  (λ j. ground arith) (λ j. ground arith),
            )
      | inr fine ↦
          rw (fine, hit)
            (
              fine,
              settled-Fresh b.nactivequeues fd events (b.events e),
              (λ j other. rw other refl),
              same_queues-InStep (cleared b e) _ s (λ j. ground arith) (λ j q. ground arith)
                  (λ j. ground arith) (λ j. ground arith),
              closure_for-HasClosure b.nactivequeues events (fresh fd events (b.events e)),
              refl,
              refl,
              (λ some_queue. omega arith),
            )
    ]

-- The two results of event_priority_set, -1 first.
abbrev pub Prioritized : EventBase → ℕ → Option ℕ → Bool × EventBase → Type 0
Prioritized b e none r = (r.0 ≡ true) × (r.1 ≡ b)
Prioritized b e (some pri) (true, c) =
    ((b.events e).on_active || leb b.nactivequeues pri ≡ true) × (c ≡ b)
Prioritized b e (some pri) (false, c) =
    (pri < c.nactivequeues) × InStep c × ((c.events e).ev_pri ≡ pri)

-- event_priority_set gives the event a priority of the base and keeps flags and queues in step, or
-- changes nothing and returns -1: where the event is active, or the base has no such priority.
pub event_priority_set-Prioritized :
    (b : EventBase) (e : ℕ) (pri : Option ℕ)
    → InStep b
    → Prioritized b e pri (event_priority_set b e pri)
unfolding event_priority_set
event_priority_set-Prioritized b e none s = (refl, refl)
event_priority_set-Prioritized b e (some pri) s =
    let hit : e == e ≡ true = ground arith in
    elim (Bool-cases ((b.events e).on_active || leb b.nactivequeues pri)) [
      | inl refused ↦ rw refused (refused, refl)
      | inr fine ↦
          rw (fine, hit)
            (
              ground arith,
              record {
                queued = λ j. ground (arith, s.queued j);
                activated = λ j q. ground (arith, s.activated j q);
                timed = λ j. ground (arith, s.timed j);
                heap = rekey-IsHeap (key b.events) _ b.timeheap (λ x c. ground arith) s.heap;
                times = λ j. ground (arith, s.times j);
              },
              refl,
            )
    ]

-- After event_del_internal of an event whose removal from the map does not crash, if it is in one, event_pending
-- reports no flag and no time, whatever it is asked for.
pub event_pending-event_del_internal :
    (w : World) (b : EventBase) (e : ℕ) (clock_diff : Timeval) (event : What)
    → InStep b
    → ((b.events e).on_inserted ≡ true
        → (evmap_del w b.io b.sigmap e (b.events e).ev_events (b.events e).ev_fd).0 ≢ crashed)
    → Then
        (λ (r : Bool × EventBase).
          event_pending clock_diff (r.1.events e) event ≡ (no_events, none))
        (event_del_internal w b e)
unfolding event_pending
event_pending-event_del_internal w b e clock_diff event s alive =
    Then-map _ _ (event_del_internal w b e) (event_del_internal-Deleted w b e s alive) (λ r d.
      let (in_step, off, events, pri, kind) = d in
      let (timeout, insert, active) = off in rw (timeout, insert, active) refl)

-- An event that is active counts.
abbrev pub IsCounted : EventBase → Type 0
IsCounted b = (e : ℕ) → (b.events e).on_active ≡ true → 0 < b.event_count_active

abbrev pub Initialized : EventBase → ℕ → Bool × EventBase → Type 0
Initialized b npriorities (true, c) = InStep c × (c.events ≡ b.events)
Initialized b npriorities (false, c) =
    InStep c
    × (c.events ≡ b.events)
    × (c.nactivequeues ≡ npriorities)
    × (0 < npriorities)
    × (npriorities < 256)

-- On a base that counts its active events, event_base_priority_init keeps flags and queues in step
-- and the events as they are, also where memory runs out; where it does not return -1 the base has
-- the number of priorities that was asked for, from 1 to 255.
pub event_base_priority_init-Initialized :
    (ok : Bool) (deferred : ℕ) (b : EventBase) (npriorities : ℕ)
    → InStep b
    → IsCounted b
    → Initialized b npriorities (event_base_priority_init ok deferred b npriorities)
unfolding event_base_priority_init
event_base_priority_init-Initialized ok deferred b npriorities s counted =
    elim (Bool-cases
      (ltb 0 (b.event_count_active + deferred) || ltb npriorities 1 || leb 256 npriorities)) [
        | inl refused ↦ rw refused (s, refl)
        | inr fine ↦
            let idle : (e : ℕ) → (b.events e).on_active ≡ false = λ e. ground (arith, counted e) in
            let emptied : (n : ℕ)
                → InStep (record b { activequeues = λ pri. []; nactivequeues = n }) =
              λ n. record {
                queued = s.queued;
                activated = λ e q. rw (idle e) (unfold count in refl);
                timed = s.timed;
                heap = s.heap;
                times = s.times;
              } in
            elim (Bool-cases (npriorities == b.nactivequeues)) [
              | inl same ↦ rw (fine, same) (s, refl, ground arith, ground arith, ground arith)
              | inr other ↦ elim (Bool-cases ok) [
                | inl got ↦
                    rw (fine, other, got)
                      (emptied npriorities, refl, refl, ground arith, ground arith)
                | inr no_memory ↦ rw (fine, other, no_memory) (emptied 0, refl)
              ]
            ]
      ]
