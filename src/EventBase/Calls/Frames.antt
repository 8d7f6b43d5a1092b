-- ===== src/EventBase/Calls/Frames.antt =====
-- What event_del_internal and event_active_nolock leave of the other events and of the heap.
use test_codes.Prelude.{
  ℕ, ◌+◌, ◌-◌, ◌≡◌, inl, inr, refl, ap, ◌∙◌, Bool, true, false, ltb, ◌==◌, Bool-cases, arith, Then,
  Then-bind, Then-both,
}
use test_codes.Event.{What}
use test_codes.EventBase.{
  Event, EventBase, World, Queue, timeouts, inserted, active, has_flag, set_flag, modify, dequeue,
  enqueue, visible, event_queue_insert, event_queue_remove, remove_if_on,
}
use test_codes.EventBase.Queues.{InStep, remove-timeouts-size}
use test_codes.EventBase.Calls.{
  notify_base, abort_loop, del_inserted, activate, event_del_internal, event_active_nolock,
}
use test_codes.EventBase.Calls.Steps.{dequeue_keeps, remove_if_on-Removed}
use test_codes.EventBase.Calls.Del.{abort_loop-InStep}

-- The events but for `e` are as they were.
abbrev pub SameOthers : ℕ → EventBase → EventBase → Type 0
SameOthers e b c = (j : ℕ) → e == j ≡ false → c.events j ≡ b.events j

pub remove_if_on-SameOthers :
    (q : Queue) (e : ℕ) (b : EventBase) → Then (SameOthers e b) (remove_if_on q e b)
unfolding event_queue_remove remove_if_on
remove_if_on-SameOthers q e b = elim (Bool-cases (has_flag q (b.events e))) [
  | inr off ↦ rw off (λ j other. refl)
  | inl on ↦
      let counted : EventBase = record b { event_count = b.event_count - visible (b.events e) } in
      let (events, io, sigmap) = dequeue_keeps q e (modify counted e (set_flag q false)) in
      rw on (λ j other. ap (λ (f : ℕ → Event). f j) events ∙ rw other refl)
]

remove_timeout-size :
    (e : ℕ) (b : EventBase)
    → InStep b
    → (b.events e).on_timeout ≡ true
    → Then (λ (c : EventBase). c.timeheap.n + 1 ≡ b.timeheap.n) (remove_if_on timeouts e b)
unfolding event_queue_remove remove_if_on
remove_timeout-size e b s on = rw on (remove-timeouts-size b e s _ on)

dequeue-timeheap : (e : ℕ) (b : EventBase) → (dequeue active e b).timeheap ≡ b.timeheap
unfolding dequeue
dequeue-timeheap e b = refl

remove_active-timeheap :
    (e : ℕ) (b : EventBase)
    → Then (λ (c : EventBase). c.timeheap ≡ b.timeheap) (remove_if_on active e b)
unfolding event_queue_remove remove_if_on
remove_active-timeheap e b = elim (Bool-cases (b.events e).on_active) [
  | inr off ↦ rw off refl
  | inl on ↦ rw on (dequeue-timeheap e _)
]

remove_if_on-nactivequeues :
    (q : Queue) (e : ℕ) (b : EventBase)
    → Then (λ (c : EventBase). c.nactivequeues ≡ b.nactivequeues) (remove_if_on q e b)
unfolding event_queue_remove remove_if_on dequeue
remove_if_on-nactivequeues timeouts e b = elim (Bool-cases (b.events e).on_timeout) [
  | inr off ↦ rw off refl
  | inl on ↦ rw on refl
]
remove_if_on-nactivequeues inserted e b = elim (Bool-cases (b.events e).on_inserted) [
  | inr off ↦ rw off refl
  | inl on ↦ rw on refl
]
remove_if_on-nactivequeues active e b = elim (Bool-cases (b.events e).on_active) [
  | inr off ↦ rw off refl
  | inl on ↦ rw on refl
]

-- A heap with one event less, and the other events as they were.
abbrev pub Shorter : ℕ → EventBase → EventBase → Type 0
Shorter e b c =
    SameOthers e b c × (c.timeheap.n + 1 ≡ b.timeheap.n) × (c.nactivequeues ≡ b.nactivequeues)

-- event_del_internal of an event that has a timeout and waits for nothing else.
pub event_del_internal-Shorter :
    (w : World) (b : EventBase) (e : ℕ)
    → InStep b
    → (b.events e).on_timeout ≡ true
    → (b.events e).on_inserted ≡ false
    → Then (λ (r : Bool × EventBase). Shorter e b r.1) (event_del_internal w b e)
unfolding event_del_internal abort_loop del_inserted
event_del_internal-Shorter w b e s on out =
    let a = abort_loop b e in
    let sa = abort_loop-InStep b e s in
    let first = Then-both _ _ (remove_if_on timeouts e a) (remove_if_on-Removed timeouts e a sa) (
      Then-both _ _ (remove_if_on timeouts e a) (remove_if_on-SameOthers timeouts e a) (
        Then-both _ _ (remove_if_on timeouts e a) (remove_timeout-size e a sa on)
          (remove_if_on-nactivequeues timeouts e a))) in
    Then-bind _ _ (remove_if_on timeouts e a) _ first (λ c (r, (frame, (size, many))).
      let second =
        Then-both _ _ (remove_if_on active e c) (remove_if_on-Removed active e c r.in_step) (
          Then-both _ _ (remove_if_on active e c) (remove_if_on-SameOthers active e c) (
            Then-both _ _ (remove_if_on active e c) (remove_active-timeheap e c)
              (remove_if_on-nactivequeues active e c))) in
      Then-bind _ _ (remove_if_on active e c) _ second (λ d (t, (frame', (heap, many'))).
        let off : (d.events e).on_inserted ≡ false = rw (t.event, r.event) out in
        rw off ((λ j other. frame' j other ∙ frame j other), rw heap size, many' ∙ many)))

enqueue-timeheap :
    (w : World) (e : ℕ) (b : EventBase)
    → ((enqueue w active e b).timeheap ≡ b.timeheap)
      × ((enqueue w active e b).events ≡ b.events)
      × ((enqueue w active e b).nactivequeues ≡ b.nactivequeues)
unfolding enqueue
enqueue-timeheap w e b = (refl, refl, refl)

insert_active-frame :
    (w : World) (b : EventBase) (e : ℕ)
    → (b.events e).on_active ≡ false
    → ltb (b.events e).ev_pri b.nactivequeues ≡ true
    → Then
        (λ (c : EventBase).
          SameOthers e b c × (c.timeheap ≡ b.timeheap) × (c.nactivequeues ≡ b.nactivequeues))
        (event_queue_insert w b e active)
unfolding event_queue_insert
insert_active-frame w b e off there =
    let (heap, events, many) = enqueue-timeheap w e _ in
    rw (off, there) ((λ j other. ap (λ (f : ℕ → Event). f j) events ∙ rw other refl), heap, many)

activate-frame :
    (b : EventBase) (e : ℕ) (res : What) (ncalls : ℕ)
    → SameOthers e b (activate b e res ncalls)
      × ((activate b e res ncalls).timeheap ≡ b.timeheap)
      × (((activate b e res ncalls).events e).on_active ≡ (b.events e).on_active)
      × (((activate b e res ncalls).events e).ev_pri ≡ (b.events e).ev_pri)
      × ((activate b e res ncalls).nactivequeues ≡ b.nactivequeues)
unfolding activate
activate-frame b e res ncalls =
    let hit : e == e ≡ true = ground arith in
    ((λ j other. rw other refl), refl, rw hit refl, rw hit refl, refl)

-- event_active_nolock of an event that is not active.
pub event_active_nolock-frame :
    (w : World) (b : EventBase) (e : ℕ) (res : What) (ncalls : ℕ)
    → (b.events e).on_active ≡ false
    → ltb (b.events e).ev_pri b.nactivequeues ≡ true
    → Then
        (λ (c : EventBase).
          SameOthers e b c × (c.timeheap ≡ b.timeheap) × (c.nactivequeues ≡ b.nactivequeues))
        (event_active_nolock w b e res ncalls)
unfolding event_active_nolock notify_base
event_active_nolock-frame w b e res ncalls off there =
    let (frame, heap, still, pri, many) = activate-frame b e res ncalls in
    let a = activate b e res ncalls in
    rw off (
      Then-bind _ _ (event_queue_insert w a e active) _
        (insert_active-frame w a e (still ∙ off) (rw (pri, many) there))
        (λ c k. ((λ j other. k.0 j other ∙ frame j other), k.1 ∙ heap, k.2 ∙ many)))
