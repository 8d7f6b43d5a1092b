-- ===== src/EventBase/Calls/Add.antt =====
-- event_add_internal of event.c queues an event and sets its timeout.
use test_codes.Prelude.{
  ℕ, ◌+◌, ◌≡◌, ◌≢◌, inl, inr, refl, ap, ◌∙◌, Bool, true, false, not, ◌&&◌, ◌||◌, Option, none, some,
  ltb, ◌==◌, if◌then◌else◌, ◌>>=◌, Bool-cases, Option-cases, arith, Then, Then-bind, Then-map,
  Then-both,
}
use mathlib.Core.Path.{subst}
use test_codes.Event.Time.{Timeval, IsTime, timeval_arithmetic, evutil_timeradd}
use test_codes.Evmap.{Status, failed, unchanged, changed, crashed}
use test_codes.MinHeap.{min_heap_reserve}
use test_codes.EventBase.{
  Closure, no_closure, signal_closure, persist_closure, Event, EventBase, World, Queue, timeouts,
  inserted, active, has_flag, set_flag, modify, enqueue, in_array, event_queue_insert,
  event_queue_remove, remove_if_on,
}
use test_codes.EventBase.Queues.{InStep, event_queue_insert-InStep}
use test_codes.EventBase.Calls.{
  Maps, notify_base, evmap_add, with_maps, add_to_maps, abort_loop, insert_added, add_to_queue,
  keep_interval, drop_timed_out, add_timeout, finish_add, reserve_timeout, add_reserved,
  event_add_internal,
}
use test_codes.EventBase.Calls.Steps.{
  same-InStep, touch-InStep, settime-InStep, event_queue_remove-Removed, remove_if_on-Removed,
}
use test_codes.EventBase.Calls.Del.{with_maps-same, abort_loop-InStep}

-- event_add_internal puts the event into the queue of events.
abbrev to_queue : Event → Bool
to_queue ev =
    (ev.ev_events.read || ev.ev_events.write || ev.ev_events.signal)
    && not (ev.on_inserted || ev.on_active)

-- When the event times out.
abbrev HasTimeout : World → Option Timeval → Bool → Event → Event → Type 0
HasTimeout w none absolute ev v = (v.on_timeout ≡ ev.on_timeout) × (v.ev_timeout ≡ ev.ev_timeout)
HasTimeout w (some tv) absolute ev v =
    (v.on_timeout ≡ true) × (v.ev_timeout ≡ (if absolute then tv else evutil_timeradd w.now tv))

-- What the map answers to event_add_internal.
abbrev pub map_status : World → EventBase → ℕ → Status
map_status w b e = (evmap_add w b.io b.sigmap e (b.events e).ev_events (b.events e).ev_fd).0

-- The two results of event_add_internal, -1 first.
abbrev AddedTo :
    World → ℕ → Option Timeval → Bool → Status → (ℕ → Event) → Bool × EventBase → Type 0
AddedTo w e tv absolute status events (true, c) =
    InStep c × (c.events ≡ events) × (to_queue (events e) ≡ true) × (status ≡ failed)
AddedTo w e tv absolute status events (false, c) =
    InStep c
    × ((c.events e).on_inserted ≡ (events e).on_inserted || to_queue (events e))
    × HasTimeout w tv absolute (events e) (c.events e)

abbrev pub Added : World → ℕ → Option Timeval → Bool → EventBase → Bool × EventBase → Type 0
Added w e tv absolute b r = AddedTo w e tv absolute (map_status w b e) b.events r

-- A heap with more room.
room-InStep :
    (b : EventBase) (a : ℕ)
    → InStep b
    → InStep (record b { timeheap = record b.timeheap { a = a } })
room-InStep b a s = record {
  queued = s.queued;
  activated = s.activated;
  timed = s.timed;
  heap = record {
    placed = s.heap.placed;
    found_below = s.heap.found_below;
    found_at = s.heap.found_at;
    ordered = s.heap.ordered;
  };
  times = s.times;
}

record Reserved (b c : EventBase) : Type 0 where
  in_step : InStep c
  same_events : c.events ≡ b.events
  same_io : c.io ≡ b.io
  same_sigmap : c.sigmap ≡ b.sigmap

reserve_timeout-Reserved :
    (w : World) (b : EventBase) (e : ℕ) (tv : Option Timeval)
    → InStep b
    → w.heap_ok ≡ true
    → Then (Reserved b) (reserve_timeout w b e tv)
unfolding reserve_timeout min_heap_reserve
reserve_timeout-Reserved w b e none s ok = record {
  in_step = s;
  same_events = refl;
  same_io = refl;
  same_sigmap = refl;
}
reserve_timeout-Reserved w b e (some tv) s ok = elim (Bool-cases (b.events e).on_timeout) [
  | inl on ↦ rw on (record { in_step = s; same_events = refl; same_io = refl; same_sigmap = refl })
  | inr off ↦ elim (Bool-cases (ltb b.timeheap.a (1 + b.timeheap.n))) [
    | inl full ↦
        rw (off, full, ok)
          (record {
            in_step = room-InStep b _ s;
            same_events = refl;
            same_io = refl;
            same_sigmap = refl;
          })
    | inr room ↦
        rw (off, room)
          (record {
            in_step = room-InStep b _ s;
            same_events = refl;
            same_io = refl;
            same_sigmap = refl;
          })
  ]
]

enqueue-events :
    (w : World) (q : Queue) (e : ℕ) (b : EventBase) → (enqueue w q e b).events ≡ b.events
unfolding enqueue
enqueue-events w timeouts e b = refl
enqueue-events w inserted e b = refl
enqueue-events w active e b = refl

record Inserted (q : Queue) (e : ℕ) (b c : EventBase) : Type 0 where
  in_step : InStep c
  event : c.events e ≡ set_flag q true (b.events e)

event_queue_insert-Inserted :
    (w : World) (b : EventBase) (e : ℕ) (q : Queue)
    → InStep b
    → has_flag q (b.events e) ≡ false
    → in_array q e b ≡ true
    → w.heap_ok ≡ true
    → Then (Inserted q e b) (event_queue_insert w b e q)
unfolding event_queue_insert
event_queue_insert-Inserted w b e q s off there ok =
    let s' = event_queue_insert-InStep w b e q s off there (λ full. ok) in
    let hit : e == e ≡ true = ground arith in
    rw (off, there)
      (record {
        in_step = rw (off, there) at s';
        event = ap (λ (f : ℕ → Event). f e) (enqueue-events w q e _) ∙ rw hit refl;
      })

-- What the first half of event_add_internal leaves.
Queued : World → ℕ → EventBase → Bool × Bool × EventBase → Type 0
Queued w e b (true, notify, c) =
    InStep c × (c.events ≡ b.events) × (to_queue (b.events e) ≡ true) × (map_status w b e ≡ failed)
Queued w e b (false, notify, c) =
    InStep c
    × (c.events e
        ≡ set_flag inserted ((b.events e).on_inserted || to_queue (b.events e)) (b.events e))

with_maps-failed :
    (b : EventBase) (m : Maps)
    → m.0 ≢ crashed
    → Then (λ (r : Bool × Bool × EventBase). r.0 ≡ true → m.0 ≡ failed) (with_maps b m)
unfolding with_maps
with_maps-failed b (failed, io, sigmap) h = λ k. refl
with_maps-failed b (unchanged, io, sigmap) h = λ k. cc
with_maps-failed b (changed, io, sigmap) h = λ k. cc
with_maps-failed b (crashed, io, sigmap) h = h refl

insert_added-Queued :
    (w : World) (e : ℕ) (b : EventBase) (r : Bool × Bool × EventBase)
    → InStep r.2
    → r.2.events ≡ b.events
    → to_queue (b.events e) ≡ true
    → (b.events e).on_inserted ≡ false
    → w.heap_ok ≡ true
    → (r.0 ≡ true → map_status w b e ≡ failed)
    → Then (Queued w e b) (insert_added w e r)
unfolding insert_added Queued
insert_added-Queued w e b (true, notify, c) s same new off ok refused = (s, same, new, refused refl)
insert_added-Queued w e b (false, notify, c) s same new off ok refused =
    let event = ap (λ (f : ℕ → Event). f e) same in
    let queued : true ≡ (b.events e).on_inserted || to_queue (b.events e) = ground arith in
    Then-bind _ _ (event_queue_insert w c e inserted) _
      (event_queue_insert-Inserted w c e inserted s (rw event off) refl ok)
      (λ d r. (
        r.in_step,
        r.event
            ∙ ap (set_flag inserted true) event
            ∙ ap (λ x. set_flag inserted x (b.events e)) queued,
      ))

add_to_queue-Queued :
    (w : World) (b : EventBase) (e : ℕ)
    → InStep b
    → (evmap_add w b.io b.sigmap e (b.events e).ev_events (b.events e).ev_fd).0 ≢ crashed
    → w.heap_ok ≡ true
    → Then (Queued w e b) (add_to_queue w b e)
unfolding add_to_queue add_to_maps Queued
add_to_queue-Queued w b e s alive ok = elim (Bool-cases (to_queue (b.events e))) [
  | inl new ↦
      let m = evmap_add w b.io b.sigmap e (b.events e).ev_events (b.events e).ev_fd in
      rw new (
        Then-bind _ _ (with_maps b m) _
          (Then-both _ _ (with_maps b m) (with_maps-same b m alive) (with_maps-failed b m alive))
          (λ r k.
            let (events, queue, actives, heap) = k.0 in
            insert_added-Queued w e b r (same-InStep b r.2 events queue actives heap s) events new
              (ground arith) ok k.1))
  | inr old ↦
      let ev = b.events e in
      let same : ev.on_inserted ≡ ev.on_inserted || to_queue ev = ground arith in
      rw old (s, λ i. record ev { on_inserted = same i })
]

-- keep_interval changes nothing that the queues see.
keep_interval-InStep :
    (b : EventBase) (e : ℕ) (k : Closure) (absolute : Bool) (tv : Timeval)
    → InStep b
    → InStep (modify b e (keep_interval k absolute tv))
unfolding keep_interval
keep_interval-InStep b e persist_closure false tv s = touch-InStep b e _ s refl refl refl refl refl
keep_interval-InStep b e persist_closure true tv s = touch-InStep b e _ s refl refl refl refl refl
keep_interval-InStep b e no_closure absolute tv s = touch-InStep b e _ s refl refl refl refl refl
keep_interval-InStep b e signal_closure absolute tv s =
    touch-InStep b e _ s refl refl refl refl refl

keep_interval-on_inserted :
    (k : Closure) (absolute : Bool) (tv : Timeval) (v : Event)
    → (keep_interval k absolute tv v).on_inserted ≡ v.on_inserted
unfolding keep_interval
keep_interval-on_inserted persist_closure false tv v = refl
keep_interval-on_inserted persist_closure true tv v = refl
keep_interval-on_inserted no_closure absolute tv v = refl
keep_interval-on_inserted signal_closure absolute tv v = refl

-- The event is in step, with its timeout off, and inserted or not as it was.
record Untimed (e : ℕ) (was : Bool) (c : EventBase) : Type 0 where
  in_step : InStep c
  off : (c.events e).on_timeout ≡ false
  same : (c.events e).on_inserted ≡ was

drop_timed_out-Untimed :
    (e : ℕ) (was : Bool) (b : EventBase)
    → Untimed e was b
    → Then (Untimed e was) (drop_timed_out e b)
unfolding drop_timed_out abort_loop
drop_timed_out-Untimed e was b u =
    elim (Bool-cases ((b.events e).on_active && (b.events e).ev_res.timeout)) [
      | inr stays ↦ rw stays u
      | inl drops ↦ rw drops (
          Then-map _ _ (event_queue_remove (abort_loop b e) e active)
            (event_queue_remove-Removed active e (abort_loop b e) (abort_loop-InStep b e u.in_step)
              (ground arith))
            (λ c r. record {
              in_step = r.in_step;
              off = rw r.event u.off;
              same = rw r.event u.same;
            }))
    ]

-- A given timeout is normal.
abbrev pub IsTimeout : Option Timeval → Type 0
IsTimeout none = Unit
IsTimeout (some tv) = IsTime tv

deadline-IsTime :
    (w : World) (tv : Timeval) (absolute : Bool)
    → IsTime w.now
    → IsTime tv
    → IsTime (if absolute then tv else evutil_timeradd w.now tv)
deadline-IsTime w tv true now h = h
deadline-IsTime w tv false now h = record { small = (timeval_arithmetic w.now tv now h).1 }

-- What the second half of event_add_internal leaves.
record Timed (w : World) (e : ℕ) (tv : Timeval) (absolute was : Bool) (c : EventBase) : Type 0 where
  in_step : InStep c
  on : (c.events e).on_timeout ≡ true
  at : (c.events e).ev_timeout ≡ (if absolute then tv else evutil_timeradd w.now tv)
  same : (c.events e).on_inserted ≡ was

insert_timeout-Timed :
    (w : World) (e : ℕ) (tv : Timeval) (absolute was : Bool) (b : EventBase)
    → IsTime w.now
    → IsTime tv
    → w.heap_ok ≡ true
    → Untimed e was b
    → Then (Timed w e tv absolute was) (
        event_queue_insert w
          (modify b e
            (λ v. record v { ev_timeout = if absolute then tv else evutil_timeradd w.now tv }))
          e
          timeouts)
insert_timeout-Timed w e tv absolute was b now h ok u =
    let at = if absolute then tv else evutil_timeradd w.now tv in
    let c = modify b e (λ v. record v { ev_timeout = at }) in
    let hit : e == e ≡ true = ground arith in
    let s = settime-InStep b e at u.in_step u.off (deadline-IsTime w tv absolute now h) in
    Then-map _ _ (event_queue_insert w c e timeouts)
      (event_queue_insert-Inserted w c e timeouts s (rw hit u.off) refl ok)
      (λ d r. record {
        in_step = r.in_step;
        on = rw r.event refl;
        at = rw (r.event, hit) refl;
        same = rw (r.event, hit) u.same;
      })

add_timeout-Timed :
    (w : World) (b : EventBase) (e : ℕ) (tv : Timeval) (absolute : Bool)
    → InStep b
    → IsTime w.now
    → IsTime tv
    → w.heap_ok ≡ true
    → Then
        (λ (r : Bool × EventBase). Timed w e tv absolute (b.events e).on_inserted r.1)
        (add_timeout w b e tv absolute)
unfolding add_timeout
add_timeout-Timed w b e tv absolute s now h ok =
    let ev = b.events e in
    let kept = modify b e (keep_interval ev.ev_closure absolute tv) in
    let hit : e == e ≡ true = ground arith in
    let same : (kept.events e).on_inserted ≡ ev.on_inserted =
      rw hit (keep_interval-on_inserted ev.ev_closure absolute tv ev) in
    Then-bind _ _ (remove_if_on timeouts e kept) _
      (remove_if_on-Removed timeouts e kept (keep_interval-InStep b e ev.ev_closure absolute tv s))
      (λ c r.
        let untimed : Untimed e ev.on_inserted c = record {
          in_step = r.in_step;
          off = rw r.event refl;
          same = ap (λ (v : Event). v.on_inserted) r.event ∙ same;
        } in
        Then-bind _ _ (drop_timed_out e c) _ (drop_timed_out-Untimed e ev.on_inserted c untimed)
          (λ d u.
            Then-bind _ _ (event_queue_insert w _ e timeouts) _
              (insert_timeout-Timed w e tv absolute ev.on_inserted d now h ok u) (λ f t. t)))

finish_add-Added :
    (w : World) (b : EventBase) (e : ℕ) (tv : Option Timeval) (absolute : Bool)
    (r : Bool × Bool × EventBase)
    → IsTime w.now
    → IsTimeout tv
    → w.heap_ok ≡ true
    → Queued w e b r
    → Then (Added w e tv absolute b) (finish_add w e tv absolute r)
unfolding finish_add Queued notify_base
finish_add-Added w b e tv absolute (true, notify, c) now h ok k = k
finish_add-Added w b e none absolute (false, notify, c) now h ok (s, event) = (
  same-InStep c _ refl refl refl refl s,
  ap (λ (v : Event). v.on_inserted) event,
  (ap (λ (v : Event). v.on_timeout) event, ap (λ (v : Event). v.ev_timeout) event),
)
finish_add-Added w b e (some tv) absolute (false, notify, c) now h ok (s, event) =
    Then-bind _ _ (add_timeout w c e tv absolute) _ (add_timeout-Timed w c e tv absolute s now h ok)
      (λ r t. (
        same-InStep r.1 _ refl refl refl refl t.in_step,
        t.same ∙ ap (λ (v : Event). v.on_inserted) event,
        (t.on, t.at),
      ))

-- With memory for the heap, and if the map does not crash, event_add_internal does not end the
-- program. If it returns -1, the event was to be queued and its map has failed, and no event of the base has changed; else the event is in the queue of
-- events, if it watches something and is not active alone, and a timeout that is given is set, from
-- now on or absolute; one that was set stays if none is given. Flags and queues stay in step.
pub event_add_internal-Added :
    (w : World) (b : EventBase) (e : ℕ) (tv : Option Timeval) (absolute : Bool)
    → InStep b
    → IsTime w.now
    → IsTimeout tv
    → w.heap_ok ≡ true
    → (evmap_add w b.io b.sigmap e (b.events e).ev_events (b.events e).ev_fd).0 ≢ crashed
    → Then (Added w e tv absolute b) (event_add_internal w b e tv absolute)
unfolding event_add_internal add_reserved
event_add_internal-Added w b e tv absolute s now h ok alive =
    let m = reserve_timeout w b e tv in
    elim (Option-cases m) [
      | inl no_room ↦ absurd (rw no_room at (reserve_timeout-Reserved w b e tv s ok))
      | inr (c, is_some) ↦
          let r : Reserved b c = rw is_some at (reserve_timeout-Reserved w b e tv s ok) in
          let alive' : (evmap_add w c.io c.sigmap e (c.events e).ev_events (c.events e).ev_fd).0
              ≢ crashed =
            rw (r.same_events, r.same_io, r.same_sigmap) alive in
          let status : map_status w c e ≡ map_status w b e =
            rw (r.same_events, r.same_io, r.same_sigmap) refl in
          let added =
            Then-bind _ (Added w e tv absolute c) (add_to_queue w c e) (finish_add w e tv absolute)
              (add_to_queue-Queued w c e r.in_step alive' ok)
              (λ q k. finish_add-Added w c e tv absolute q now h ok k) in
          rw is_some (
            subst
              (λ events.
                Then (AddedTo w e tv absolute (map_status w b e) events)
                  (add_to_queue w c e >>= finish_add w e tv absolute))
              r.same_events
              (subst
                (λ s.
                  Then (AddedTo w e tv absolute s c.events)
                    (add_to_queue w c e >>= finish_add w e tv absolute))
                status added))
    ]
