-- ===== src/EventBase/Calls/Steps.antt =====
-- The steps of the calls in event.c that leave flags and queues in step.
use test_codes.Prelude.{
  ℕ, ◌-◌, ◌≡◌, inl, inr, refl, ap, ◌∙◌, true, false, ◌==◌, Bool-cases, arith, Then,
}
use test_codes.Event.Time.{Timeval, IsTime, micros}
use test_codes.Evmap.{update}
use test_codes.EventBase.{
  Event, EventBase, Queue, timeouts, inserted, active, has_flag, set_flag, modify, dequeue,
  event_queue_remove, visible, remove_if_on,
}
use test_codes.EventBase.Queues.{InStep, rekey-IsHeap, key, event_queue_remove-InStep}

-- A base with the same events and queues.
pub same-InStep :
    (b c : EventBase)
    → c.events ≡ b.events
    → c.eventqueue ≡ b.eventqueue
    → c.activequeues ≡ b.activequeues
    → c.timeheap ≡ b.timeheap
    → InStep b
    → InStep c
same-InStep b c e q a t s = record {
  queued = λ j. rw (e, q) (s.queued j);
  activated = λ j k. rw (e, a) (s.activated j k);
  timed = λ j. rw (e, t) (s.timed j);
  heap = rw (e, t) s.heap;
  times = λ j. rw e (s.times j);
}

-- The event of a base changed in what the queues do not see.
pub touch-InStep :
    (b : EventBase) (e : ℕ) (v : Event)
    → InStep b
    → v.on_timeout ≡ (b.events e).on_timeout
    → v.on_inserted ≡ (b.events e).on_inserted
    → v.on_active ≡ (b.events e).on_active
    → v.ev_pri ≡ (b.events e).ev_pri
    → v.ev_timeout ≡ (b.events e).ev_timeout
    → InStep (record b { events = update b.events e v })
touch-InStep b e v s t i a p at = record {
  queued = λ j. ground (arith, s.queued j);
  activated = λ j q. ground (arith, s.activated j q);
  timed = λ j. ground (arith, s.timed j);
  heap = rekey-IsHeap (key b.events) _ b.timeheap (λ x c. ground (arith, ap micros at)) s.heap;
  times = λ j. elim (Bool-cases (e == j)) [
    | inl same ↦ rw same (rw at (s.times e))
    | inr other ↦ rw other (s.times j)
  ];
}

-- The time of an event that is not in the heap changes.
pub settime-InStep :
    (b : EventBase) (e : ℕ) (at : Timeval)
    → InStep b
    → (b.events e).on_timeout ≡ false
    → IsTime at
    → InStep (modify b e (λ v. record v { ev_timeout = at }))
settime-InStep b e at s off normal = record {
  queued = λ j. ground (arith, s.queued j);
  activated = λ j q. ground (arith, s.activated j q);
  timed = λ j. ground (arith, s.timed j);
  heap = rekey-IsHeap (key b.events) _ b.timeheap (λ x c. ground (arith, s.timed x)) s.heap;
  times = λ j. elim (Bool-cases (e == j)) [
    | inl same ↦ rw same normal
    | inr other ↦ rw other (s.times j)
  ];
}

-- What taking the event off a queue changes.
pub record Removed (q : Queue) (e : ℕ) (b c : EventBase) : Type 0 where
  pub in_step : InStep c
  pub event : c.events e ≡ set_flag q false (b.events e)
  pub io : c.io ≡ b.io
  pub sigmap : c.sigmap ≡ b.sigmap

set_flag-off : (q : Queue) (ev : Event) → has_flag q ev ≡ false → ev ≡ set_flag q false ev
set_flag-off timeouts ev h = λ i. record ev { on_timeout = h i }
set_flag-off inserted ev h = λ i. record ev { on_inserted = h i }
set_flag-off active ev h = λ i. record ev { on_active = h i }

pub dequeue_keeps :
    (q : Queue) (e : ℕ) (b : EventBase)
    → ((dequeue q e b).events ≡ b.events)
      × ((dequeue q e b).io ≡ b.io)
      × ((dequeue q e b).sigmap ≡ b.sigmap)
unfolding dequeue
dequeue_keeps timeouts e b = (refl, refl, refl)
dequeue_keeps inserted e b = (refl, refl, refl)
dequeue_keeps active e b = (refl, refl, refl)

pub event_queue_remove-Removed :
    (q : Queue) (e : ℕ) (b : EventBase)
    → InStep b
    → has_flag q (b.events e) ≡ true
    → Then (Removed q e b) (event_queue_remove b e q)
unfolding event_queue_remove
event_queue_remove-Removed q e b s on =
    let s' = event_queue_remove-InStep b e q s on in
    let counted : EventBase = record b { event_count = b.event_count - visible (b.events e) } in
    let (events, io, sigmap) = dequeue_keeps q e (modify counted e (set_flag q false)) in
    let hit : e == e ≡ true = ground arith in
    rw on (record {
      in_step = rw on at s';
      event = ap (λ (f : ℕ → Event). f e) events ∙ rw hit refl;
      io = io;
      sigmap = sigmap;
    })

pub remove_if_on-Removed :
    (q : Queue) (e : ℕ) (b : EventBase) → InStep b → Then (Removed q e b) (remove_if_on q e b)
unfolding remove_if_on
remove_if_on-Removed q e b s = elim (Bool-cases (has_flag q (b.events e))) [
  | inl on ↦ rw on (event_queue_remove-Removed q e b s on)
  | inr off ↦
      rw off
        (record { in_step = s; event = set_flag-off q (b.events e) off; io = refl; sigmap = refl })
]
