-- ===== src/EventBase/Loop/Taken.antt =====
-- How event_process_active takes an event off the active queue before it runs it.
use test_codes.Prelude.{
  ℕ, ◌≡◌, inl, inr, refl, ap, ◌∙◌, Bool, true, false, List, ◌==◌, Bool-cases, arith, Then,
  Then-bind, Then-both, Then-map,
}
use test_codes.Evmap.{update, remove}
use test_codes.EventBase.{
  Event, EventBase, World, Queue, timeouts, inserted, active, has_flag, dequeue, event_queue_remove,
  remove_if_on,
}
use test_codes.EventBase.Queues.{InStep}
use test_codes.EventBase.Calls.{abort_loop, del_inserted, event_del_internal}
use test_codes.EventBase.Calls.Steps.{event_queue_remove-Removed, remove_if_on-Removed}
use test_codes.EventBase.Calls.Del.{abort_loop-InStep}
use test_codes.EventBase.Calls.Frames.{SameOthers, remove_if_on-SameOthers}
use test_codes.EventBase.Loop.{take_off}

-- The active queues without an event that is on one of them.
abbrev pub without_active : ℕ → EventBase → ℕ → List ℕ
without_active e b =
    let pri = (b.events e).ev_pri in update b.activequeues pri (remove e (b.activequeues pri))

abbrev queues_after : Queue → ℕ → EventBase → ℕ → List ℕ
queues_after timeouts e b = b.activequeues
queues_after inserted e b = b.activequeues
queues_after active e b = without_active e b

-- The active queues, and that nothing has asked the loop to stop or to start again.
abbrev Left : (ℕ → List ℕ) → EventBase → EventBase → Type 0
Left queues b c =
    (c.activequeues ≡ queues)
    × (c.event_break ≡ b.event_break)
    × (c.event_continue ≡ b.event_continue)

event_queue_remove-Left :
    (q : Queue) (e : ℕ) (b : EventBase)
    → has_flag q (b.events e) ≡ true
    → Then (Left (queues_after q e b) b) (event_queue_remove b e q)
unfolding event_queue_remove dequeue
event_queue_remove-Left timeouts e b on = rw on (refl, refl, refl)
event_queue_remove-Left inserted e b on = rw on (refl, refl, refl)
event_queue_remove-Left active e b on =
    let hit : e == e ≡ true = ground arith in rw (on, hit) (refl, refl, refl)

remove_timeout-Left :
    (e : ℕ) (b : EventBase) → Then (Left b.activequeues b) (remove_if_on timeouts e b)
unfolding remove_if_on
remove_timeout-Left e b = elim (Bool-cases (b.events e).on_timeout) [
  | inl on ↦ rw on (event_queue_remove-Left timeouts e b on)
  | inr off ↦ rw off (refl, refl, refl)
]

remove_active-Left :
    (e : ℕ) (b : EventBase)
    → (b.events e).on_active ≡ true
    → Then (Left (without_active e b) b) (remove_if_on active e b)
unfolding remove_if_on
remove_active-Left e b on = rw on (event_queue_remove-Left active e b on)

-- The base `c` after the event has been taken off.
pub record Taken (e : ℕ) (b c : EventBase) : Type 0 where
  pub in_step : InStep c
  pub others : SameOthers e b c
  pub gone : (c.events e).on_active ≡ false
  pub event :
      ((c.events e).ev_res ≡ (b.events e).ev_res)
      × ((c.events e).ev_closure ≡ (b.events e).ev_closure)
      × ((c.events e).ev_io_timeout ≡ (b.events e).ev_io_timeout)
      × ((c.events e).internal ≡ (b.events e).internal)
  pub left : Left (without_active e b) b c

persistent-Taken :
    (e : ℕ) (b : EventBase)
    → InStep b
    → (b.events e).on_active ≡ true
    → Then (Taken e b) (event_queue_remove b e active)
persistent-Taken e b s on =
    let call = event_queue_remove b e active in
    let same : remove_if_on active e b ≡ call = unfold remove_if_on in (rw on refl) in
    let frame : Then (SameOthers e b) call = rw same at (remove_if_on-SameOthers active e b) in
    Then-map _ _ call
      (Then-both _ _ call (event_queue_remove-Removed active e b s on)
        (Then-both _ _ call frame (event_queue_remove-Left active e b on)))
      (λ c (r, (others, left)). record {
        in_step = r.in_step;
        others = others;
        gone = ap (λ (v : Event). v.on_active) r.event;
        event = rw r.event (refl, refl, refl, refl);
        left = left;
      })

deleted-Taken :
    (w : World) (e : ℕ) (b : EventBase)
    → InStep b
    → (b.events e).on_active ≡ true
    → (b.events e).on_inserted ≡ false
    → Then (λ (r : Bool × EventBase). Taken e b r.1) (event_del_internal w b e)
unfolding event_del_internal abort_loop del_inserted
deleted-Taken w e b s on out =
    let a = abort_loop b e in
    let sa = abort_loop-InStep b e s in
    let first = Then-both _ _ (remove_if_on timeouts e a) (remove_if_on-Removed timeouts e a sa) (
      Then-both _ _ (remove_if_on timeouts e a) (remove_if_on-SameOthers timeouts e a)
        (remove_timeout-Left e a)) in
    Then-bind _ _ (remove_if_on timeouts e a) _ first (λ c (r, (frame, left)).
      let still : (c.events e).on_active ≡ true = ap (λ (v : Event). v.on_active) r.event ∙ on in
      let second =
        Then-both _ _ (remove_if_on active e c) (remove_if_on-Removed active e c r.in_step) (
          Then-both _ _ (remove_if_on active e c) (remove_if_on-SameOthers active e c)
            (remove_active-Left e c still)) in
      Then-bind _ _ (remove_if_on active e c) _ second (λ d (t, (frame', left')).
        let off : (d.events e).on_inserted ≡ false = rw (t.event, r.event) out in
        let pri : (c.events e).ev_pri ≡ (b.events e).ev_pri =
          ap (λ (v : Event). v.ev_pri) r.event in
        rw off (record {
          in_step = t.in_step;
          others = λ j other. frame' j other ∙ frame j other;
          gone = ap (λ (v : Event). v.on_active) t.event;
          event = rw (t.event, r.event) (refl, refl, refl, refl);
          left = (left'.0 ∙ rw (pri, left.0) refl, left'.1 ∙ left.1, left'.2 ∙ left.2);
        })))

-- An event that is active, and, if it is not persistent, waits for no descriptor or signal, is taken off.
pub take_off-Taken :
    (w : World) (e : ℕ) (b : EventBase)
    → InStep b
    → (b.events e).on_active ≡ true
    → ((b.events e).ev_events.persist ≡ false → (b.events e).on_inserted ≡ false)
    → Then (Taken e b) (take_off w b e)
unfolding take_off
take_off-Taken w e b s on out = elim (Bool-cases (b.events e).ev_events.persist) [
  | inl persistent ↦ rw persistent (persistent-Taken e b s on)
  | inr once ↦
      rw once (
        Then-bind _ _ (event_del_internal w b e) _ (deleted-Taken w e b s on (out once)) (λ r t. t))
]
