-- ===== src/EventBase/Calls/Active.antt =====
-- event_active_nolock of event.c puts an event on the active queue of its priority.
use test_codes.Prelude.{
  ℕ, ◌<◌, ◌≡◌, ltb, inl, inr, refl, sym, ap, ◌∙◌, true, false, ◌==◌, if◌then◌else◌, Bool-cases,
  arith, Then, Then-bind,
}
use test_codes.Event.{What, or_what}
use test_codes.EventBase.{Event, EventBase, World, active, set_flag, enqueue, event_queue_insert}
use test_codes.EventBase.Queues.{InStep, insert-active}
use test_codes.EventBase.Calls.{notify_base, activate, event_active_nolock}
use test_codes.EventBase.Calls.Steps.{same-InStep, touch-InStep}

-- A base after the activation of `e`: flags and queues in step, the event active, with `res` for its
-- callback, also where an earlier result waits for it.
abbrev pub Activated : ℕ → Event → What → EventBase → Type 0
Activated e ev res c =
    InStep c
    × ((c.events e).on_active ≡ true)
    × ((c.events e).ev_res ≡ (if ev.on_active then or_what ev.ev_res res else res))
    × ((c.events e).on_timeout ≡ ev.on_timeout)
    × ((c.events e).on_inserted ≡ ev.on_inserted)
    × ((c.events e).ev_pri ≡ ev.ev_pri)

activate-InStep :
    (b : EventBase) (e : ℕ) (res : What) (ncalls : ℕ) → InStep b → InStep (activate b e res ncalls)
unfolding activate
activate-InStep b e res ncalls s =
    same-InStep _ _ refl refl refl refl (touch-InStep b e _ s refl refl refl refl refl)

enqueue-events : (w : World) (e : ℕ) (b : EventBase) → (enqueue w active e b).events ≡ b.events
unfolding enqueue
enqueue-events w e b = refl

insert_active_lem :
    (w : World) (b : EventBase) (e : ℕ)
    → InStep b
    → (b.events e).on_active ≡ false
    → ltb (b.events e).ev_pri b.nactivequeues ≡ true
    → Then
        (λ (c : EventBase). InStep c × (c.events e ≡ set_flag active true (b.events e)))
        (event_queue_insert w b e active)
unfolding event_queue_insert
insert_active_lem w b e s off there =
    let hit : e == e ≡ true = ground arith in
    let event = ap (λ (f : ℕ → Event). f e) (enqueue-events w e _) ∙ rw hit refl in
    rw (off, there) (insert-active b e s w _ off, event)

activate-event :
    (b : EventBase) (e : ℕ) (res : What) (ncalls : ℕ)
    → ((activate b e res ncalls).events e).ev_res ≡ res
unfolding activate
activate-event b e res ncalls = let hit : e == e ≡ true = ground arith in rw hit refl

-- event_active_nolock of an event of a priority that the base has does not end the program, and leaves the event
-- active: the flags and the queues stay in step, also if it was active before, where its results are only combined.
pub event_active_nolock-Activated :
    (w : World) (b : EventBase) (e : ℕ) (res : What) (ncalls : ℕ)
    → InStep b
    → (b.events e).ev_pri < b.nactivequeues
    → Then (Activated e (b.events e) res) (event_active_nolock w b e res ncalls)
unfolding event_active_nolock notify_base
event_active_nolock-Activated w b e res ncalls s small =
    let hit : e == e ≡ true = ground arith in
    elim (Bool-cases (b.events e).on_active) [
      | inl on ↦ rw on (
        touch-InStep b e _ s refl refl (sym on) refl refl,
        rw hit refl,
        rw hit refl,
        rw hit refl,
        rw hit refl,
        rw hit refl,
      )
      | inr off ↦
          let c = activate b e res ncalls in
          let off' : (c.events e).on_active ≡ false = unfold activate in rw hit off in
          let kept : ((c.events e).on_timeout ≡ (b.events e).on_timeout)
              × ((c.events e).on_inserted ≡ (b.events e).on_inserted)
              × ((c.events e).ev_pri ≡ (b.events e).ev_pri) =
            unfold activate in rw hit (refl, refl, refl) in
          let there : ltb (c.events e).ev_pri c.nactivequeues ≡ true =
            unfold activate in rw hit (ground (arith, small)) in
          rw off (
            Then-bind _ _ (event_queue_insert w c e active) _
              (insert_active_lem w c e (activate-InStep b e res ncalls s) off' there)
              (λ d r. (
                same-InStep d _ refl refl refl refl r.0,
                rw r.1 refl,
                rw r.1 (activate-event b e res ncalls),
                rw r.1 kept.0,
                rw r.1 kept.1,
                rw r.1 kept.2,
              )))
    ]
