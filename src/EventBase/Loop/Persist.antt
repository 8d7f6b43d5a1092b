-- ===== src/EventBase/Loop/Persist.antt =====
-- When a persistent event with an interval comes again.
use test_codes.Prelude.{
  ℕ, ◌+◌, ◌<◌, ◌≡◌, ◌≢◌, refl, ap, ◌∙◌, ◌≤◌, ◌⊎◌, inl, inr, Bool, true, false, ◌&&◌, some, ◌==◌,
  if◌then◌else◌, ltb, arith, Then, Then-bind,
}
use test_codes.Event.Time.{Timeval, IsTime, micros, time_lt, evutil_timeradd}
use test_codes.Evmap.{failed, crashed}
use test_codes.EventBase.{Event, EventBase, World}
use test_codes.EventBase.Queues.{InStep}
use test_codes.EventBase.Calls.{evmap_add, event_add_internal}
use test_codes.EventBase.Calls.Add.{Added, map_status, event_add_internal-Added}
use test_codes.EventBase.Loop.{Looping, User, call_back, run_at, event_persist_closure}

-- When an event that has run comes again, in microseconds: one interval after it was due, if it came due to its
-- timeout, or one interval from now on, also if the first is past.
abbrev pub next_due : ℕ → Event → ℕ
next_due now ev =
    let start = if ev.ev_res.timeout then micros ev.ev_timeout else now in
    let at = start + micros ev.ev_io_timeout in
    if ltb at now then now + micros ev.ev_io_timeout else at

run_at-micros :
    (now : Timeval) (ev : Event)
    → IsTime now
    → IsTime ev.ev_timeout
    → IsTime ev.ev_io_timeout
    → (micros (run_at now ev) ≡ next_due (micros now) ev) × IsTime (run_at now ev)
unfolding run_at time_lt evutil_timeradd
run_at-micros now ev hn ht hi = (ground arith, record { small = ground arith })

-- The base that the callback of an event with an interval finds: nothing is set, as the map has failed, or the event
-- comes again.
abbrev pub Rescheduled : World → ℕ → EventBase → EventBase → Type 0
Rescheduled w e b c =
    ((c.events ≡ b.events) × (map_status w b e ≡ failed))
    ⊎ (((c.events e).on_timeout ≡ true)
        × (micros (c.events e).ev_timeout ≡ next_due (micros w.now) (b.events e))
        × (micros w.now ≤ micros (c.events e).ev_timeout))

Added-Rescheduled :
    (w : World) (e : ℕ) (b : EventBase) (r : Bool × EventBase)
    → InStep b
    → IsTime w.now
    → IsTime (b.events e).ev_io_timeout
    → Added w e (some (run_at w.now (b.events e))) true b r
    → InStep r.1 × Rescheduled w e b r.1
Added-Rescheduled w e b (true, c) s now interval (in_step, same, queued, refused) =
    (in_step, inl (same, refused))
Added-Rescheduled w e b (false, c) s now interval (in_step, queued, (on, at)) =
    let due = ap micros at ∙ (run_at-micros w.now (b.events e) now (s.times e) interval).0 in
    (in_step, inr (on, due, ground (arith, due)))

-- What the callback of an event with an interval finds: a base in step, in which the event comes again.
pub record CalledAfter (u : User) (w : World) (e : ℕ) (l l' : Looping) : Type 0 where
  pub found : EventBase
  pub in_step : InStep found
  pub rescheduled : Rescheduled w e l.base found
  pub last : l' ≡ call_back u e (record l { base = found })

-- event_persist_closure of an event with an interval, with memory for the heap and where the map does not crash, does
-- not end the program. Whatever the callback does, it runs once, and last, on a base in which the event is in the heap
-- again: one interval after it was due if it came due to its timeout, and one interval from now on if that is past
-- or if it came due to something else, so it is never due before now; or in which no event has changed, as the map
-- has failed. Flags and queues of that base are in step.
pub event_persist_closure-Rescheduled :
    (u : User) (w : World) (e : ℕ) (l : Looping)
    → InStep l.base
    → IsTime w.now
    → IsTime (l.base.events e).ev_io_timeout
    → 0 < micros (l.base.events e).ev_io_timeout
    → w.heap_ok ≡ true
    → (evmap_add w l.base.io l.base.sigmap e (l.base.events e).ev_events (l.base.events e).ev_fd).0
      ≢ crashed
    → Then (CalledAfter u w e l) (event_persist_closure u w e l)
unfolding event_persist_closure
event_persist_closure-Rescheduled u w e l s now interval some_time ok alive =
    let ev = l.base.events e in
    let timed : (ev.ev_io_timeout.sec == 0 && ev.ev_io_timeout.usec == 0) ≡ false = ground arith in
    let at = run_at-micros w.now ev now (s.times e) interval in
    rw timed (
      Then-bind _ _ (event_add_internal w l.base e (some (run_at w.now ev)) true) _
        (event_add_internal-Added w l.base e (some (run_at w.now ev)) true s now at.1 ok alive)
        (λ r a.
          let (in_step, set) = Added-Rescheduled w e l.base r s now interval a in
          record { found = r.1; in_step = in_step; rescheduled = set; last = refl }))
