-- ===== src/EventBase/Calls.antt =====
-- event_add_internal, event_del_internal and event_active_nolock of event.c, on one event base.
pub mod Steps
pub mod Del
pub mod Active
pub mod Add
pub mod Frames
use test_codes.Prelude.{
  ℕ, zero, suc, ◌+◌, ◌-◌, Bool, true, false, not, ◌&&◌, ◌||◌, List, [], ◌∷◌, ◌++◌, Option, none,
  some, ltb, leb, ◌==◌, if◌then◌else◌, ◌>>=◌,
}
use test_codes.Event.{What, no_events, or_what, and_what}
use test_codes.Event.Time.{Timeval, zero_time, time_lt, time_le, evutil_timeradd}
use test_codes.Evmap.{
  IoMap, Host, Status, failed, unchanged, changed, crashed, update, evmap_io_add, evmap_io_del,
}
use test_codes.Evmap.Signal.{SignalMap, SignalHost, evmap_signal_add, evmap_signal_del}
use test_codes.MinHeap.{MinHeap, min_heap_reserve, min_heap_elt_is_top}
use test_codes.EventBase.{
  Closure, no_closure, signal_closure, persist_closure, Event, EventBase, World, Queue, timeouts,
  inserted, active, has_flag, modify, event_queue_insert, event_queue_remove, remove_if_on,
}

-- `if (notify && EVBASE_NEED_NOTIFY(base)) evthread_notify_base(base);`
unfoldable pub notify_base : Bool → EventBase → EventBase
notify_base notify b = record b { notified = b.notified || notify && b.need_notify }

-- The two maps, and the result of a call on one of them.
abbrev pub Maps : Type 0
Maps = Status × IoMap × SignalMap

abbrev pub io_maps : SignalMap → Status × IoMap → Maps
io_maps sigmap (st, io) = (st, io, sigmap)

abbrev pub signal_maps : IoMap → Status × SignalMap → Maps
signal_maps io (st, sigmap) = (st, io, sigmap)

-- `evmap_signal_add(base, (int)ev->ev_fd, ev)`: a negative signal number is out of the array.
unfoldable pub add_signal : World → IoMap → SignalMap → ℕ → Option ℕ → Maps
add_signal w io sigmap e none = (crashed, io, sigmap)
add_signal w io sigmap e (some sig) = signal_maps io (evmap_signal_add w.signal_host sigmap sig e)

unfoldable pub del_signal : World → IoMap → SignalMap → ℕ → Option ℕ → Maps
del_signal w io sigmap e none = (crashed, io, sigmap)
del_signal w io sigmap e (some sig) = signal_maps io (evmap_signal_del w.signal_host sigmap sig e)

-- The choice between the two maps in event_add_internal and in event_del_internal, by the ev_events
-- and the ev_fd of the event.
unfoldable pub evmap_add : World → IoMap → SignalMap → ℕ → What → Option ℕ → Maps
evmap_add w io sigmap e what fd =
    if what.read || what.write
    then io_maps sigmap (evmap_io_add w.host io fd e what)
    else if what.signal
    then add_signal w io sigmap e fd
    else (unchanged, io, sigmap)

unfoldable pub evmap_del : World → IoMap → SignalMap → ℕ → What → Option ℕ → Maps
evmap_del w io sigmap e what fd =
    if what.read || what.write
    then io_maps sigmap (evmap_io_del w.host io fd e what)
    else del_signal w io sigmap e fd

-- Whether the result is -1, whether it is 1, and the base with the new maps; `none` where the
-- program ends.
unfoldable pub with_maps : EventBase → Maps → Option (Bool × Bool × EventBase)
with_maps b (failed, io, sigmap) = some (true, false, record b { io = io; sigmap = sigmap })
with_maps b (unchanged, io, sigmap) = some (false, false, record b { io = io; sigmap = sigmap })
with_maps b (changed, io, sigmap) = some (false, true, record b { io = io; sigmap = sigmap })
with_maps b (crashed, io, sigmap) = none

unfoldable pub del_from_maps : World → EventBase → ℕ → Option (Bool × Bool × EventBase)
del_from_maps w b e =
    with_maps b (evmap_del w b.io b.sigmap e (b.events e).ev_events (b.events e).ev_fd)

unfoldable pub add_to_maps : World → EventBase → ℕ → Option (Bool × Bool × EventBase)
add_to_maps w b e =
    with_maps b (evmap_add w b.io b.sigmap e (b.events e).ev_events (b.events e).ev_fd)

-- `if (ev->ev_ncalls && ev->ev_pncalls) *ev->ev_pncalls = 0;`, for a signal event.
unfoldable pub abort_loop : EventBase → ℕ → EventBase
abort_loop b e =
    let ev = b.events e in
    record b {
      loop_ncalls =
          if ev.ev_events.signal && ltb 0 ev.ev_ncalls && ev.ev_pncalls then 0 else b.loop_ncalls;
    }

-- The end of event_del_internal.
unfoldable pub finish_del : Bool × Bool × EventBase → Bool × EventBase
finish_del (is_failed, notify, b) = (is_failed, notify_base (not is_failed && notify) b)

-- `if (ev->ev_flags & EVLIST_INSERTED)` in event_del_internal, with the event's own flag.
unfoldable pub del_inserted : World → ℕ → Bool → EventBase → Option (Bool × EventBase)
del_inserted w e false b = some (false, b)
del_inserted w e true b = do
  b' ← event_queue_remove b e inserted
  r ← del_from_maps w b' e
  some (finish_del r)

-- event_del_internal: whether the result is -1, and the base.
unfoldable pub event_del_internal : World → EventBase → ℕ → Option (Bool × EventBase)
event_del_internal w b e = do
  b1 ← remove_if_on timeouts e (abort_loop b e)
  b2 ← remove_if_on active e b1
  del_inserted w e (b2.events e).on_inserted b2

-- event_active_nolock, once it has found the event not active.
unfoldable pub activate : EventBase → ℕ → What → ℕ → EventBase
activate b e res ncalls =
    let ev = b.events e in
    let urgent : Bool = elim b.event_running_priority [
      | some running ↦ ltb ev.ev_pri running
      | none ↦ false
    ] in
    let set = λ (v : Event). record v {
      ev_res = res;
      ev_ncalls = if v.ev_events.signal then ncalls else v.ev_ncalls;
      ev_pncalls = if v.ev_events.signal then false else v.ev_pncalls;
    } in
    record b { events = update b.events e (set ev); event_continue = b.event_continue || urgent }

unfoldable pub event_active_nolock : World → EventBase → ℕ → What → ℕ → Option EventBase
event_active_nolock w b e res ncalls =
    if (b.events e).on_active
    then some (modify b e (λ v. record v { ev_res = or_what v.ev_res res }))
    else do b' ← event_queue_insert w (activate b e res ncalls) e active; some (notify_base true b')

-- `if (res != -1) event_queue_insert(base, ev, EVLIST_INSERTED);`, with -1 passed on.
unfoldable pub insert_added : World → ℕ → Bool × Bool × EventBase → Option (Bool × Bool × EventBase)
insert_added w e (true, notify, b) = some (true, notify, b)
insert_added w e (false, notify, b) = do
  b' ← event_queue_insert w b e inserted
  some (false, notify, b')

-- The first half of event_add_internal: the event goes into its map and the queue of events.
unfoldable pub add_to_queue : World → EventBase → ℕ → Option (Bool × Bool × EventBase)
add_to_queue w b e =
    let ev = b.events e in
    let watches = ev.ev_events.read || ev.ev_events.write || ev.ev_events.signal in
    if watches && not (ev.on_inserted || ev.on_active)
    then add_to_maps w b e >>= insert_added w e
    else some (false, false, b)

-- `if (ev->ev_closure == EV_CLOSURE_PERSIST && !tv_is_absolute) ev->ev_io_timeout = *tv;`
unfoldable pub keep_interval : Closure → Bool → Timeval → Event → Event
keep_interval persist_closure false tv ev = record ev { ev_io_timeout = tv }
keep_interval persist_closure true tv ev = ev
keep_interval no_closure absolute tv ev = ev
keep_interval signal_closure absolute tv ev = ev

-- An event that is active due to its timeout leaves the active queue.
unfoldable pub drop_timed_out : ℕ → EventBase → Option EventBase
drop_timed_out e b =
    let ev = b.events e in
    if ev.on_active && ev.ev_res.timeout
    then event_queue_remove (abort_loop b e) e active
    else some b

-- The second half of event_add_internal: the timeout is set, and the event goes into the heap. The
-- result is whether the loop has to be told.
unfoldable pub add_timeout : World → EventBase → ℕ → Timeval → Bool → Option (Bool × EventBase)
add_timeout w b e tv absolute =
    let kept = modify b e (λ v. keep_interval v.ev_closure absolute tv v) in
    let was_top = (b.events e).on_timeout && min_heap_elt_is_top b.timeheap e in
    do
      b1 ← remove_if_on timeouts e kept
      b2 ← drop_timed_out e b1
      let at = if absolute then tv else evutil_timeradd w.now tv
      b3 ← event_queue_insert w (modify b2 e (λ v. record v { ev_timeout = at })) e timeouts
      some (was_top || min_heap_elt_is_top b3.timeheap e, b3)

-- What event_add_internal does after the first half, with the timeout if one is given.
unfoldable pub finish_add :
    World → ℕ → Option Timeval → Bool → Bool × Bool × EventBase → Option (Bool × EventBase)
finish_add w e tv absolute (true, notify, b) = some (true, b)
finish_add w e none absolute (false, notify, b) = some (false, notify_base notify b)
finish_add w e (some tv) absolute (false, notify, b) = do
  (sooner, b') ← add_timeout w b e tv absolute
  some (false, notify_base (notify || sooner) b')

-- min_heap_reserve, for a timeout that does not replace one.
unfoldable pub reserve_timeout : World → EventBase → ℕ → Option Timeval → Option EventBase
reserve_timeout w b e none = some b
reserve_timeout w b e (some tv) = if (b.events e).on_timeout then some b else do
  heap ← min_heap_reserve w.heap_ok b.timeheap (1 + b.timeheap.n)
  some (record b { timeheap = heap })

unfoldable pub add_reserved :
    World → EventBase → ℕ → Option Timeval → Bool → Option EventBase → Option (Bool × EventBase)
add_reserved w b e tv absolute none = some (true, b)
add_reserved w b e tv absolute (some b') = add_to_queue w b' e >>= finish_add w e tv absolute

-- event_add_internal: whether the result is -1, and the base.
unfoldable pub event_add_internal :
    World → EventBase → ℕ → Option Timeval → Bool → Option (Bool × EventBase)
event_add_internal w b e tv absolute = add_reserved w b e tv absolute (reserve_timeout w b e tv)
