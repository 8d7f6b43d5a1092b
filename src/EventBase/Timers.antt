-- ===== src/EventBase/Timers.antt =====
-- timeout_next and timeout_process of event.c: how long the loop may wait, and what it activates
-- after that.
use test_codes.Prelude.{
  ℕ, zero, suc, ◌-◌, ◌≤◌, ◌≡◌, inl, inr, refl, Bool, true, false, Option, none, some, ◌==◌, not,
  ◌&&◌, if◌then◌else◌, ◌>>=◌, Bool-cases, Option-cases, arith, ◌<◌, ◌+◌, sym, ◌∙◌, ap, Then,
  Then-bind, Then-both, Then-map,
}
use mathlib.Core.Path.{subst}
use test_codes.Event.{What, no_events}
use test_codes.Event.Time.{
  Timeval, IsTime, micros, zero_time, time_lt, time_le, evutil_timersub, time_lt-micros,
}
use test_codes.MinHeap.{min_heap_top}
use test_codes.MinHeap.Sift.{contains}
use test_codes.MinHeap.Ops.{root_least_below}
use test_codes.EventBase.{Event, EventBase, World, greater}
use test_codes.EventBase.Queues.{InStep, key, greater-key}
use test_codes.EventBase.Calls.Del.{Deleted, event_del_internal-Deleted}
use test_codes.EventBase.Calls.Active.{event_active_nolock-Activated}
use test_codes.EventBase.Calls.Frames.{
  SameOthers, Shorter, event_del_internal-Shorter, event_active_nolock-frame,
}
use test_codes.EventBase.Calls.{event_del_internal, event_active_nolock}

-- timeout_next, with the time if gettime gives it: whether the result is -1, and the time that the
-- loop may wait, `none` for no limit.
unfoldable pub timeout_next : EventBase → Option Timeval → Timeval → Bool × Option Timeval
timeout_next b none tv = if b.timeheap.n == 0 then (false, none) else (true, some tv)
timeout_next b (some now) tv =
    let at = (b.events (b.timeheap.p 0)).ev_timeout in
    if b.timeheap.n == 0
    then (false, none)
    else (false, some (if time_le at now then zero_time else evutil_timersub at now))

-- The loop of timeout_process; each round takes an event off the heap.
unfoldable pub timeout_loop : ℕ → World → EventBase → Option EventBase
timeout_loop zero w b = some b
timeout_loop (suc fuel) w b = elim (min_heap_top b.timeheap) [
  | none ↦ some b
  | some e ↦ if time_lt w.now (b.events e).ev_timeout then some b else do
    (failing, b1) ← event_del_internal w b e
    b2 ← event_active_nolock w b1 e (record no_events { timeout = true }) 1
    timeout_loop fuel w b2
]

abbrev pub timeout_process : World → EventBase → Option EventBase
timeout_process w b = timeout_loop b.timeheap.n w b

-- No event of the heap is earlier than its root.
least :
    (b : EventBase) (e : ℕ)
    → InStep b
    → contains b.timeheap e ≡ true
    → key b.events (b.timeheap.p 0) ≤ key b.events e
least b e s held = elim (Option-cases (b.timeheap.min_heap_idx e)) [
  | inl out ↦ absurd (ground arith)
  | inr (i, found) ↦ rw (s.heap.found_at e i found) at (
      root_least_below (greater b.events) (key b.events) (greater-key b s) i b.timeheap i s.heap
        (omega arith) (s.heap.found_below e i found))
]

-- The results of timeout_next where the time is known.
abbrev pub Waits : EventBase → Timeval → Bool × Option Timeval → Type 0
Waits b now (failing, none) = (failing ≡ false) × (b.timeheap.n ≡ 0)
Waits b now (failing, some tv) =
    (failing ≡ false)
    × (contains b.timeheap (b.timeheap.p 0) ≡ true)
    × (micros tv ≡ key b.events (b.timeheap.p 0) - micros now)
    × ((e : ℕ) → contains b.timeheap e ≡ true → micros tv ≤ key b.events e - micros now)

-- If it gets the time, timeout_next lets the loop wait for just as long as some event in the heap
-- has still to wait, and no event in the heap has less to wait; there is no limit only if the heap is
-- empty.
pub timeout_next-Waits :
    (b : EventBase) (now tv : Timeval)
    → InStep b
    → IsTime now
    → Waits b now (timeout_next b (some now) tv)
unfolding timeout_next
timeout_next-Waits b now tv s normal = elim (Bool-cases (b.timeheap.n == 0)) [
  | inl empty ↦ rw empty (refl, ground arith)
  | inr more ↦
      let top = b.timeheap.p 0 in
      let at = s.times top in
      let waits : micros (
            if time_le (b.events top).ev_timeout now
            then zero_time
            else evutil_timersub (b.events top).ev_timeout now)
          ≡ key b.events top - micros now =
        unfold time_le evutil_timersub in ground (arith, at, normal) in
      rw more (
        refl,
        ground (arith, s.heap.placed 0),
        waits,
        λ e held. omega (arith, waits, least b e s held),
      )
]

-- No event with a timeout waits for a descriptor or a signal too.
abbrev pub IsTimers : EventBase → Type 0
IsTimers b = (e : ℕ) → (b.events e).on_timeout ≡ true → (b.events e).on_inserted ≡ false

-- Each event has a priority that the base has.
abbrev pub InRange : EventBase → Type 0
InRange b = (e : ℕ) → (b.events e).ev_pri < b.nactivequeues

-- Whether an event has a timeout whose time has come.
abbrev pub due : World → Event → Bool
due w ev = ev.on_timeout && not (time_lt w.now ev.ev_timeout)

-- What becomes of an event: one that is due has left the heap and is active with EV_TIMEOUT, the others are as they were.
abbrev pub Fate : Bool → Event → Event → Type 0
Fate false ev v = v ≡ ev
Fate true ev v = (v.on_timeout ≡ false) × (v.on_active ≡ true) × (v.ev_res.timeout ≡ true)

-- The base `c` that timeout_process makes of `b`.
pub record Expired (w : World) (b c : EventBase) : Type 0 where
  pub in_step : InStep c
  pub timers : IsTimers c
  pub in_range : InRange c
  pub nothing_due : (e : ℕ) → contains c.timeheap e ≡ true → micros w.now < key c.events e
  pub fates : (e : ℕ) → Fate (due w (b.events e)) (b.events e) (c.events e)

not_empty : (b : EventBase) (e : ℕ) → InStep b → contains b.timeheap e ≡ true → 0 < b.timeheap.n
not_empty b e s held = elim (Option-cases (b.timeheap.min_heap_idx e)) [
  | inl out ↦ absurd (ground arith)
  | inr (i, found) ↦ omega (arith, s.heap.found_below e i found)
]

-- Where every event of the heap has still to wait.
waiting-Expired :
    (w : World) (b : EventBase)
    → InStep b
    → IsTimers b
    → InRange b
    → IsTime w.now
    → ((e : ℕ) → contains b.timeheap e ≡ true → micros w.now < key b.events e)
    → Expired w b b
waiting-Expired w b s timers range now later = record {
  in_step = s;
  timers = timers;
  in_range = range;
  nothing_due = later;
  fates = λ e.
      let order = time_lt-micros w.now (b.events e).ev_timeout now (s.times e) in
      let wait : due w (b.events e) ≡ false = elim (Bool-cases (b.events e).on_timeout) [
        | inr off ↦ ground (arith, off)
        | inl on ↦ ground (arith, order, later e (s.timed e ∙ on))
      ] in
      subst (λ t. Fate t (b.events e) (b.events e)) (sym wait) refl;
}

due_lem :
    (w : World) (b : EventBase) (e : ℕ)
    → InStep b
    → IsTimers b
    → (b.events e).on_timeout ≡ true
    → Then
        (λ (r : Bool × EventBase). Deleted e (b.events e) r × Shorter e b r.1)
        (event_del_internal w b e)
due_lem w b e s timers on =
    let out = timers e on in
    Then-both _ _ (event_del_internal w b e)
      (event_del_internal-Deleted w b e s (λ in_map. absurd (ground arith)))
      (event_del_internal-Shorter w b e s on out)

-- One round of the loop on an event that is due.
record Round (e : ℕ) (b c : EventBase) : Type 0 where
  in_step : InStep c
  timers : IsTimers c
  in_range : InRange c
  size : c.timeheap.n + 1 ≡ b.timeheap.n
  others : SameOthers e b c
  fate : Fate true (b.events e) (c.events e)

round_lem :
    (w : World) (b : EventBase) (e : ℕ) (d : Bool × EventBase)
    → IsTimers b
    → InRange b
    → Deleted e (b.events e) d
    → Shorter e b d.1
    → Then (Round e b) (event_active_nolock w d.1 e (record no_events { timeout = true }) 1)
round_lem w b e d timers range (s, off, what, pri, kind) (frame, size, many) =
    let due = record no_events { timeout = true } in
    let call = event_active_nolock w d.1 e due 1 in
    let (no_timeout, no_insert, no_active) = off in
    let small : (d.1.events e).ev_pri < d.1.nactivequeues = rw (pri, many) (range e) in
    Then-map _ _ call
      (Then-both _ _ call (event_active_nolock-Activated w d.1 e due 1 s small)
        (event_active_nolock-frame w d.1 e due 1 no_active (ground (arith, small))))
      (λ c k.
        let ((in_step, on, res, timeout, insert, same_pri), (frame', heap, many')) = k in
        let same : SameOthers e b c = λ j other. frame' j other ∙ frame j other in
        let res' : (c.events e).ev_res ≡ due = rw no_active at res in
        record {
          in_step = in_step;
          timers = λ j has. elim (Bool-cases (e == j)) [
            | inl equal ↦
                let q : e ≡ j = ground arith in
                ap (λ x. (c.events x).on_inserted) (sym q) ∙ insert ∙ no_insert
            | inr other ↦
                let was = same j other in
                ap (λ (v : Event). v.on_inserted) was
                ∙ timers j (sym (ap (λ (v : Event). v.on_timeout) was) ∙ has)
          ];
          in_range = λ j. elim (Bool-cases (e == j)) [
            | inl equal ↦
                let q : e ≡ j = ground arith in
                subst (λ x. (c.events x).ev_pri < c.nactivequeues) q (rw (same_pri, many') small)
            | inr other ↦
                omega (arith, ap (λ (v : Event). v.ev_pri) (same j other), many, many', range j)
          ];
          size = rw heap size;
          others = same;
          fate = (timeout ∙ no_timeout, on, ap What.timeout res');
        })

-- A round and what follows it.
Round-Expired :
    (w : World) (e : ℕ) (b c d : EventBase)
    → due w (b.events e) ≡ true
    → Round e b c
    → Expired w c d
    → Expired w b d
Round-Expired w e b c d is_due r x = record {
  in_step = x.in_step;
  timers = x.timers;
  in_range = x.in_range;
  nothing_due = x.nothing_due;
  fates = λ j. elim (Bool-cases (e == j)) [
    | inl equal ↦
        let q : e ≡ j = ground arith in
        let off : due w (c.events e) ≡ false = ground (arith, r.fate.0) in
        let left : d.events e ≡ c.events e =
          subst (λ t. Fate t (c.events e) (d.events e)) off (x.fates e) in
        subst (λ k. Fate (due w (b.events k)) (b.events k) (d.events k)) q
          (subst (λ t. Fate t (b.events e) (d.events e)) (sym is_due)
            (subst (λ (v : Event). Fate true (b.events e) v) (sym left) r.fate))
    | inr other ↦
        subst (λ (v : Event). Fate (due w v) v (d.events j)) (r.others j other) (x.fates j)
  ];
}

timeout_loop-Expired :
    (fuel : ℕ) (w : World) (b : EventBase)
    → InStep b
    → IsTimers b
    → InRange b
    → IsTime w.now
    → b.timeheap.n ≤ fuel
    → Then (Expired w b) (timeout_loop fuel w b)
unfolding timeout_loop
timeout_loop-Expired zero w b s timers range now k =
    waiting-Expired w b s timers range now
      (λ e held. absurd (omega (arith, not_empty b e s held, k)))
timeout_loop-Expired (suc fuel) w b s timers range now k = elim (Bool-cases (b.timeheap.n == 0)) [
  | inl empty ↦
      rw (empty, Then)
        (waiting-Expired w b s timers range now
          (λ e held. absurd (ground (arith, not_empty b e s held, empty))))
  | inr more ↦
      let e = b.timeheap.p 0 in
      let order = time_lt-micros w.now (b.events e).ev_timeout now (s.times e) in
      elim (Bool-cases (time_lt w.now (b.events e).ev_timeout)) [
        | inl later ↦
            rw (more, later, Then)
              (waiting-Expired w b s timers range now
                (λ j held. ground (arith, order, later, least b j s held)))
        | inr come ↦
            let on : (b.events e).on_timeout ≡ true = ground (arith, s.timed e, s.heap.placed 0) in
            let is_due : due w (b.events e) ≡ true = ground (arith, on, come) in
            rw (more, come, Then)
              (Then-bind _ _ (event_del_internal w b e) _ (due_lem w b e s timers on) (λ d k1.
                Then-bind _ _ (event_active_nolock w d.1 e (record no_events { timeout = true }) 1)
                  _ (round_lem w b e d timers range k1.0 k1.1)
                  (λ c r.
                    Then-map (Expired w c) (Expired w b) (timeout_loop fuel w c)
                      (timeout_loop-Expired fuel w c r.in_step r.timers r.in_range now
                        (omega (arith, r.size, k)))
                      (λ d x. Round-Expired w e b c d is_due r x))))
      ]
]

-- On a base where no event with a timeout waits for a descriptor or a signal too, and where each event has a priority
-- that the base has, timeout_process does not end the program. Each event whose time has come has left the heap and is
-- active with EV_TIMEOUT; every other event, one that has still to wait among them, is as it was; and no event that is
-- left in the heap has a time that is past. Its rounds are no more than the events in the heap, and flags and queues
-- stay in step.
pub timeout_process-Expired :
    (w : World) (b : EventBase)
    → InStep b
    → IsTimers b
    → InRange b
    → IsTime w.now
    → Then (Expired w b) (timeout_process w b)
timeout_process-Expired w b s timers range now =
    timeout_loop-Expired b.timeheap.n w b s timers range now (omega arith)
