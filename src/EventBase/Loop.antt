-- ===== src/EventBase/Loop.antt =====
-- The loop of event.c: the closures that call back, event_process_active and event_base_loop, for a clock
-- that does not go back. Callbacks are a parameter.
pub mod Taken
pub mod Quiet
pub mod Queue
pub mod Order
pub mod Persist
pub mod Rounds
pub mod Ends
mod Examples
use test_codes.Prelude.{
  ℕ, zero, suc, ◌+◌, ◌-◌, Bool, true, false, not, ◌&&◌, ◌||◌, List, [], ◌∷◌, ◌++◌, Option, none,
  some, ltb, ◌==◌, if◌then◌else◌, ◌>>=◌, length,
}
use test_codes.Event.{What}
use test_codes.Event.Time.{Timeval, zero_time, time_lt, evutil_timeradd}
use test_codes.EventBase.{
  Closure, no_closure, signal_closure, persist_closure, Event, EventBase, World, active, modify,
  visible, event_queue_remove,
}
use test_codes.Evmap.Signal.{is_nil}
use test_codes.EventBase.Calls.{event_add_internal, event_del_internal}
use test_codes.EventBase.Setup.{event_haveevents}
use test_codes.EventBase.Timers.{timeout_next, timeout_process}

-- The base with what only the loop uses: event_gotterm, running_loop and the deferred callbacks that wait;
-- `calls` are the callbacks of events that have run so far, each with the ev_res that it was given.
pub record Looping : Type 0 where
  pub base : EventBase
  pub event_gotterm : Bool
  pub running_loop : Bool
  pub defer_queue : List ℕ
  pub calls : List (ℕ × What)

-- What the callbacks of events and the deferred callbacks do; they may call the library. None of them changes
-- the number of priorities.
pub record User : Type 0 where
  pub callback : ℕ → What → Looping → Looping
  pub deferred : ℕ → Looping → Looping

-- `(*ev->ev_callback)(ev->ev_fd, ev->ev_res, ev->ev_arg);`
pub call_back : User → ℕ → Looping → Looping
call_back u e l =
    let res = (l.base.events e).ev_res in
    u.callback e res (record l { calls = l.calls ++ (e, res) ∷ [] })

abbrev pub modify_event : ℕ → (Event → Event) → Looping → Looping
modify_event e f l = record l { base = modify l.base e f }

-- A round of event_signal_closure up to the callback; `ncalls` is the field loop_ncalls of the base.
signal_round : User → ℕ → Looping → Looping
signal_round u e l =
    let ncalls = l.base.loop_ncalls - 1 in
    let counted : Looping = record l { base = record (l.base) { loop_ncalls = ncalls } } in
    call_back u e (
      modify_event e
        (λ v. record v { ev_ncalls = ncalls; ev_pncalls = not (ncalls == 0) && v.ev_pncalls })
        counted)

-- The loop of event_signal_closure, which a callback that deletes the event ends by setting the counter to 0.
pub signal_loop : ℕ → User → ℕ → Looping → Looping
unfolding signal_round
signal_loop zero u e l = l
signal_loop (suc fuel) u e l =
    let called = signal_round u e l in
    let rest = signal_loop fuel u e called in
    if l.base.loop_ncalls == 0
    then l
    else if called.base.event_break
    then modify_event e
        (λ v. record v { ev_pncalls = called.base.loop_ncalls == 0 && v.ev_pncalls }) called
    else rest

pub event_signal_closure : User → ℕ → Looping → Looping
unfolding signal_loop
event_signal_closure u e l =
    let ncalls = (l.base.events e).ev_ncalls in
    let counted : Looping = record l { base = record (l.base) { loop_ncalls = ncalls } } in
    signal_loop ncalls u e
      (modify_event e (λ v. record v { ev_pncalls = not (ncalls == 0) || v.ev_pncalls }) counted)

-- The `run_at` of event_persist_closure.
pub run_at : Timeval → Event → Timeval
run_at now ev =
    let relative_to = if ev.ev_res.timeout then ev.ev_timeout else now in
    let at = evutil_timeradd relative_to ev.ev_io_timeout in
    if time_lt at now then evutil_timeradd now ev.ev_io_timeout else at

pub event_persist_closure : User → World → ℕ → Looping → Option Looping
event_persist_closure u w e l =
    let ev = l.base.events e in
    if ev.ev_io_timeout.sec == 0 && ev.ev_io_timeout.usec == 0 then some (call_back u e l) else do
      (failing, b) ← event_add_internal w l.base e (some (run_at w.now ev)) true
      some (call_back u e (record l { base = b }))

-- `switch (ev->ev_closure)`
pub run_closure : User → World → ℕ → Looping → Closure → Option Looping
unfolding event_signal_closure
run_closure u w e l signal_closure = some (event_signal_closure u e l)
run_closure u w e l persist_closure = event_persist_closure u w e l
run_closure u w e l no_closure = some (call_back u e l)

-- An event that is about to run leaves the active queue, or all queues.
pub take_off : World → EventBase → ℕ → Option EventBase
take_off w b e =
    if (b.events e).ev_events.persist
    then event_queue_remove b e active
    else do (failing, b') ← event_del_internal w b e; some b'

-- What follows the callback in event_process_active_single_queue; `none` in the pair is -1.
abbrev pub after_callback :
    (ℕ → Looping → Option (Option ℕ × Looping)) → ℕ → Looping → Option (Option ℕ × Looping)
after_callback next count l =
    if l.base.event_break
    then some (none, l)
    else if l.base.event_continue
    then some (some count, l)
    else next count l

-- A round of event_process_active_single_queue, on the queue.
pub process_first :
    (ℕ → Looping → Option (Option ℕ × Looping))
    → User
    → World
    → ℕ
    → Looping
    → List ℕ
    → Option (Option ℕ × Looping)
process_first next u w count l [] = some (some count, l)
process_first next u w count l (e ∷ queue) = do
  b ← take_off w l.base e
  l' ← run_closure u w e (record l { base = b }) (b.events e).ev_closure
  after_callback next (count + visible (b.events e)) l'

-- Callbacks that keep activating events can go on for ever: `none` is also the end of the rounds.
pub process_queue : ℕ → User → World → ℕ → ℕ → Looping → Option (Option ℕ × Looping)
process_queue zero u w pri count l = none
process_queue (suc fuel) u w pri count l =
    process_first (process_queue fuel u w pri) u w count l (l.base.activequeues pri)

abbrev pub event_process_active_single_queue :
    ℕ → User → World → ℕ → Looping → Option (Option ℕ × Looping)
event_process_active_single_queue fuel u w pri l = process_queue fuel u w pri 0 l

-- event_process_deferred_callbacks, with MAX_DEFERRED rounds. Its result is not used.
pub deferred_round : (Looping → Looping) → User → Looping → List ℕ → Looping
deferred_round next u l [] = l
deferred_round next u l (cb ∷ queue) =
    let called = u.deferred cb (record l { defer_queue = queue }) in
    if called.base.event_break then called else next called

pub deferred_loop : ℕ → User → Looping → Looping
deferred_loop zero u l = l
deferred_loop (suc count) u l = deferred_round (deferred_loop count u) u l l.defer_queue

abbrev pub event_process_deferred_callbacks : User → Looping → Looping
event_process_deferred_callbacks = deferred_loop 16

abbrev pub with_priority : Option ℕ → Looping → Looping
with_priority pri l = record l { base = record (l.base) { event_running_priority = pri } }

-- What event_process_active does with the result of a queue: it goes on only if no event has been counted.
pub after_queue :
    User
    → (Looping → Option (Option ℕ × Looping))
    → Option ℕ × Looping
    → Option (Option ℕ × Looping)
after_queue u next (none, l) = some (none, with_priority none l)
after_queue u next (some zero, l) = next l
after_queue u next (some (suc c), l) =
    some (some (suc c), with_priority none (event_process_deferred_callbacks u l))

-- The loop of event_process_active over the `n` priorities from `pri` on.
pub process_priorities : ℕ → ℕ → User → World → ℕ → Looping → Option (Option ℕ × Looping)
process_priorities fuel zero u w pri l =
    some (some 0, with_priority none (event_process_deferred_callbacks u l))
process_priorities fuel (suc n) u w pri l =
    let rest = process_priorities fuel n u w (pri + 1) in
    if is_nil (l.base.activequeues pri)
    then rest l
    else event_process_active_single_queue fuel u w pri (with_priority (some pri) l)
      >>= after_queue u rest

-- event_process_active, with `fuel` rounds for each queue.
abbrev pub event_process_active : ℕ → User → World → Looping → Option (Option ℕ × Looping)
event_process_active fuel u w l = process_priorities fuel l.base.nactivequeues u w 0 l
