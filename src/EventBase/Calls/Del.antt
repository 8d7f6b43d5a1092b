-- ===== src/EventBase/Calls/Del.antt =====
-- event_del_internal of event.c takes an event off every queue.
use test_codes.Prelude.{
  ℕ, ◌≡◌, ◌≢◌, inl, inr, refl, ap, ◌∙◌, Bool, false, Bool-cases, true, Then, Then-bind,
}
use test_codes.Evmap.{IoMap, failed, unchanged, changed, crashed}
use test_codes.Evmap.Signal.{SignalMap}
use test_codes.EventBase.{
  Event, EventBase, World, timeouts, inserted, active, set_flag, remove_if_on, event_queue_remove,
}
use test_codes.EventBase.Queues.{InStep}
use test_codes.EventBase.Calls.{
  Maps, notify_base, evmap_del, with_maps, del_from_maps, abort_loop, finish_del, del_inserted,
  event_del_internal,
}
use test_codes.EventBase.Calls.Steps.{same-InStep, event_queue_remove-Removed, remove_if_on-Removed}

-- The event is on no queue.
abbrev pub IsOff : Event → Type 0
IsOff ev = (ev.on_timeout ≡ false) × (ev.on_inserted ≡ false) × (ev.on_active ≡ false)

-- A result of event_del_internal: flags and queues in step, the event on no queue, and what the user
-- asked for unchanged.
abbrev pub Deleted : ℕ → Event → Bool × EventBase → Type 0
Deleted e ev r =
    InStep r.1
    × IsOff (r.1.events e)
    × ((r.1.events e).ev_events ≡ ev.ev_events)
    × ((r.1.events e).ev_pri ≡ ev.ev_pri)
    × ((r.1.events e).internal ≡ ev.internal)

pub with_maps-same :
    (b : EventBase) (m : Maps)
    → m.0 ≢ crashed
    → Then
        (λ (r : Bool × Bool × EventBase).
          (r.2.events ≡ b.events)
          × (r.2.eventqueue ≡ b.eventqueue)
          × (r.2.activequeues ≡ b.activequeues)
          × (r.2.timeheap ≡ b.timeheap))
        (with_maps b m)
unfolding with_maps
with_maps-same b (failed, io, sigmap) h = (refl, refl, refl, refl)
with_maps-same b (unchanged, io, sigmap) h = (refl, refl, refl, refl)
with_maps-same b (changed, io, sigmap) h = (refl, refl, refl, refl)
with_maps-same b (crashed, io, sigmap) h = h refl

pub abort_loop-InStep : (b : EventBase) (e : ℕ) → InStep b → InStep (abort_loop b e)
unfolding abort_loop
abort_loop-InStep b e s = same-InStep b _ refl refl refl refl s

-- finish_del changes no event and no queue.
finish_del-InStep : (r : Bool × Bool × EventBase) → InStep r.2 → InStep (finish_del r).1
unfolding finish_del notify_base
finish_del-InStep (failing, notify, b) s = same-InStep b _ refl refl refl refl s

finish_del-events : (r : Bool × Bool × EventBase) → (finish_del r).1.events ≡ r.2.events
unfolding finish_del notify_base
finish_del-events (failing, notify, b) = refl

-- The event is off the queues but for the queue of events, and else as `ev`.
record Halfway (io : IoMap) (sigmap : SignalMap) (e : ℕ) (ev : Event) (b : EventBase) : Type 0 where
  in_step : InStep b
  event : b.events e ≡ set_flag active false (set_flag timeouts false ev)
  same_io : b.io ≡ io
  same_sigmap : b.sigmap ≡ sigmap

del_inserted-Deleted :
    (w : World) (io : IoMap) (sigmap : SignalMap) (e : ℕ) (ev : Event) (b : EventBase)
    → Halfway io sigmap e ev b
    → (ev.on_inserted ≡ true → (evmap_del w io sigmap e ev.ev_events ev.ev_fd).0 ≢ crashed)
    → Then (Deleted e ev) (del_inserted w e (b.events e).on_inserted b)
unfolding del_inserted del_from_maps
del_inserted-Deleted w io sigmap e ev b h ok = elim (Bool-cases (b.events e).on_inserted) [
  | inr off ↦ rw off (
    h.in_step,
    rw h.event (refl, rw h.event at off, refl),
    rw h.event refl,
    rw h.event refl,
    rw h.event refl,
  )
  | inl on ↦ rw on (
      Then-bind _ _ (event_queue_remove b e inserted) _
        (event_queue_remove-Removed inserted e b h.in_step on)
        (λ c r.
          let whole : c.events e
              ≡ set_flag inserted false (set_flag active false (set_flag timeouts false ev)) =
            r.event ∙ ap (set_flag inserted false) h.event in
          let alive : (evmap_del w c.io c.sigmap e (c.events e).ev_events (c.events e).ev_fd).0
              ≢ crashed =
            rw (whole, r.io, r.sigmap, h.same_io, h.same_sigmap) (ok (rw h.event at on)) in
          Then-bind _ _
            (with_maps c (evmap_del w c.io c.sigmap e (c.events e).ev_events (c.events e).ev_fd)) _
            (with_maps-same c _ alive)
            (λ d same.
              let (events, queue, actives, heap) = same in
              let event = ap (λ f. f e) (finish_del-events d ∙ events) ∙ whole in
              (
                finish_del-InStep d (same-InStep c d.2 events queue actives heap r.in_step),
                rw event (refl, refl, refl),
                rw event refl,
                rw event refl,
                rw event refl,
              ))))
]

-- Of an event whose removal from the map does not crash, if it is in one, event_del_internal does not end the
-- program, and takes it off every queue: the flags and the queues stay in step, for every event,
-- also when the backend refuses the removal. What the user asked for with the event is unchanged.
pub event_del_internal-Deleted :
    (w : World) (b : EventBase) (e : ℕ)
    → InStep b
    → ((b.events e).on_inserted ≡ true
        → (evmap_del w b.io b.sigmap e (b.events e).ev_events (b.events e).ev_fd).0 ≢ crashed)
    → Then (Deleted e (b.events e)) (event_del_internal w b e)
unfolding event_del_internal abort_loop
event_del_internal-Deleted w b e s ok =
    let ev = b.events e in
    Then-bind _ _ (remove_if_on timeouts e (abort_loop b e)) _
      (remove_if_on-Removed timeouts e _ (abort_loop-InStep b e s))
      (λ c r.
        Then-bind _ _ (remove_if_on active e c) _ (remove_if_on-Removed active e c r.in_step)
          (λ d t.
            let half : Halfway b.io b.sigmap e ev d = record {
              in_step = t.in_step;
              event = t.event ∙ ap (set_flag active false) r.event;
              same_io = t.io ∙ r.io;
              same_sigmap = t.sigmap ∙ r.sigmap;
            } in
            del_inserted-Deleted w b.io b.sigmap e ev d half ok))
