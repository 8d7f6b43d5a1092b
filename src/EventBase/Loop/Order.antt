-- ===== src/EventBase/Loop/Order.antt =====
-- event_process_active runs the events of one priority, in the order in which they were activated.
use test_codes.Prelude.{
  ℕ, zero, suc, ◌+◌, ◌≤◌, ◌<◌, ◌≡◌, inl, inr, refl, sym, ap, ◌∙◌, true, false, List, [], ◌∷◌, ◌++◌,
  Option, none, some, ltb, ◌==◌, ◌>>=◌, length, if_intro, Bool-cases, arith, Then, Then-bind,
}
use mathlib.Core.Path.{subst}
use test_codes.EventBase.{Event, EventBase, World}
use test_codes.Evmap.Signal.{is_nil}
use test_codes.EventBase.Queues.{InStep}
use test_codes.EventBase.Calls.Steps.{same-InStep}
use test_codes.EventBase.Loop.{
  Looping, User, process_queue, deferred_round, deferred_loop, with_priority, after_queue,
  process_priorities, event_process_active,
}
use test_codes.EventBase.Loop.Quiet.{ActivePlain, IsQuiet, in_order, count_visible}
use test_codes.EventBase.Loop.Queue.{Counted, Before, process_queue-Ran}

-- The result of event_process_active, where `pri` is the priority that it runs and `xs` the queue of it.
pub record Ordered (pri : ℕ) (xs : List ℕ) (l : Looping) (r : Option ℕ × Looping) : Type 0 where
  pub counted : r.0 ≡ some (count_visible l.base.events xs)
  pub in_step : InStep r.1.base
  pub emptied : r.1.base.activequeues pri ≡ []
  pub others : (q : ℕ) → pri == q ≡ false → r.1.base.activequeues q ≡ l.base.activequeues q
  pub calls : r.1.calls ≡ l.calls ++ in_order l.base.events xs

prioritized-Before :
    (b : EventBase) (pri : Option ℕ) → Before b → Before (record b { event_running_priority = pri })
prioritized-Before b pri h = record {
  in_step = same-InStep b _ refl refl refl refl h.in_step;
  plain = h.plain;
  no_break = h.no_break;
  no_continue = h.no_continue;
}

not_here :
    (b : EventBase) (at pri : ℕ)
    → is_nil (b.activequeues at) ≡ true
    → 0 < count_visible b.events (b.activequeues pri)
    → at == pri ≡ false
unfolding count_visible
not_here b at pri nothing shown = elim (Bool-cases (at == pri)) [
  | inr other ↦ other
  | inl same ↦
      let q : at ≡ pri = ground arith in
      absurd (
        hidden b.events (b.activequeues pri)
          (subst (λ k. is_nil (b.activequeues k) ≡ true) q nothing) shown)
]
  where
    hidden : (events : ℕ → Event) (xs : List ℕ) → is_nil xs ≡ true → ¬ (0 < count_visible events xs)
    hidden events [] h k = absurd (omega (arith, k))
    hidden events (x ∷ xs) h k = cc

here :
    (b : EventBase) (at pri : ℕ)
    → is_nil (b.activequeues at) ≡ false
    → at ≤ pri
    → ((q : ℕ) → at ≤ q → q < pri → b.activequeues q ≡ [])
    → at ≡ pri
here b at pri more low empty = elim (Bool-cases (ltb at pri)) [
  | inr not_lower ↦ ground arith
  | inl lower ↦
      let nothing : is_nil (b.activequeues at) ≡ true =
        ap is_nil (empty at (omega arith) (ground arith)) in
      absurd (ground arith)
]

module _ (u : User) (quiet : IsQuiet u) where
  deferred_round_lem :
      (next : Looping → Looping) (l : Looping) (queue : List ℕ)
      → ((l' : Looping) → ((next l').base ≡ l'.base) × ((next l').calls ≡ l'.calls))
      → ((deferred_round next u l queue).base ≡ l.base)
        × ((deferred_round next u l queue).calls ≡ l.calls)
  unfolding deferred_round
  deferred_round_lem next l [] h = (refl, refl)
  deferred_round_lem next l (cb ∷ queue) h =
      let shorter : Looping = record l { defer_queue = queue } in
      let base = quiet.deferred_base cb shorter in
      let calls = quiet.deferred_calls cb shorter in
      if_intro (λ (l' : Looping). (l'.base ≡ l.base) × (l'.calls ≡ l.calls))
        (u.deferred cb shorter).base.event_break (λ stop. (base, calls))
        (λ go_on. let (b, c) = h (u.deferred cb shorter) in (b ∙ base, c ∙ calls))

  deferred_lem :
      (n : ℕ) (l : Looping)
      → ((deferred_loop n u l).base ≡ l.base) × ((deferred_loop n u l).calls ≡ l.calls)
  unfolding deferred_loop
  deferred_lem zero l = (refl, refl)
  deferred_lem (suc n) l = deferred_round_lem (deferred_loop n u) l l.defer_queue (deferred_lem n)

  after_queue-Ordered :
      (next : Looping → Option (Option ℕ × Looping)) (pri : ℕ) (xs : List ℕ) (l : Looping)
      (r : Option ℕ × Looping)
      → 0 < count_visible l.base.events xs
      → Counted pri xs 0 (with_priority (some pri) l) r
      → Then (Ordered pri xs l) (after_queue u next r)
  unfolding after_queue
  after_queue-Ordered next pri xs l (none, l') some_shown (e, ran) = absurd (ground arith)
  after_queue-Ordered next pri xs l (some zero, l') some_shown (e, ran) = absurd (ground arith)
  after_queue-Ordered next pri xs l (some (suc c), l') some_shown (e, ran) =
      let (base, calls) = deferred_lem 16 l' in
      record {
        counted = e ∙ ap some (omega arith);
        in_step =
            same-InStep l'.base _ (ap EventBase.events base) (ap EventBase.eventqueue base)
              (ap EventBase.activequeues base) (ap EventBase.timeheap base) ran.in_step;
        emptied = ap (λ (d : EventBase). d.activequeues pri) base ∙ ran.emptied;
        others = λ j other. ap (λ (d : EventBase). d.activequeues j) base ∙ ran.others j other;
        calls = calls ∙ ran.calls;
      }

  process_priorities-Ordered :
      (n fuel : ℕ) (w : World) (at pri : ℕ) (l : Looping)
      → Before l.base
      → at ≤ pri
      → pri < at + n
      → ((q : ℕ) → at ≤ q → q < pri → l.base.activequeues q ≡ [])
      → 0 < count_visible l.base.events (l.base.activequeues pri)
      → length (l.base.activequeues pri) < fuel
      → Then (Ordered pri (l.base.activequeues pri) l) (process_priorities fuel n u w at l)
  unfolding process_priorities
  process_priorities-Ordered zero fuel w at pri l h low high empty shown k = absurd (omega arith)
  process_priorities-Ordered (suc n) fuel w at pri l h low high empty shown k =
      elim (Bool-cases (is_nil (l.base.activequeues at))) [
        | inl nothing ↦ rw nothing (
            process_priorities-Ordered n fuel w (at + 1) pri l h
              (ground (arith, not_here l.base at pri nothing shown)) (omega arith)
              (λ q a b. empty q (omega arith) b) shown k)
        | inr more ↦
            let same : at ≡ pri = here l.base at pri more low empty in
            let queue = l.base.activequeues pri in
            rw more (
              subst
                (λ (p : ℕ). Then (Ordered pri queue l) (
                  process_queue fuel u w p 0 (with_priority (some p) l)
                  >>= after_queue u (process_priorities fuel n u w (p + 1))))
                (sym same)
                (Then-bind _ _ (process_queue fuel u w pri 0 (with_priority (some pri) l)) _
                  (process_queue-Ran u quiet queue fuel w pri 0 (with_priority (some pri) l)
                    (prioritized-Before l.base (some pri) h) refl k)
                  (λ r c.
                    after_queue-Ordered (process_priorities fuel n u w (pri + 1)) pri queue l r
                      shown c)))
      ]

  -- Take a program of which the callbacks leave the base to the loop, and a base, not asked to stop, in which each
  -- active event is no signal, has no interval, and is in no map if it is not persistent. If `pri` is the first
  -- priority with active events, and not all of them are internal, event_process_active ends: it runs the callback of
  -- each event of that priority once, in the order in which they were activated, with its ev_res, and no other,
  -- returns how many of them are not internal, and leaves the other priorities as they were. Flags and queues stay in step.
  pub event_process_active-Ordered :
      (fuel : ℕ) (w : World) (pri : ℕ) (l : Looping)
      → InStep l.base
      → ActivePlain l.base
      → l.base.event_break ≡ false
      → l.base.event_continue ≡ false
      → pri < l.base.nactivequeues
      → ((q : ℕ) → q < pri → l.base.activequeues q ≡ [])
      → 0 < count_visible l.base.events (l.base.activequeues pri)
      → length (l.base.activequeues pri) < fuel
      → Then (Ordered pri (l.base.activequeues pri) l) (event_process_active fuel u w l)
  event_process_active-Ordered fuel w pri l s plain stop again inside empty shown k =
      process_priorities-Ordered l.base.nactivequeues fuel w 0 pri l
        (record { in_step = s; plain = plain; no_break = stop; no_continue = again }) (omega arith)
        (omega arith) (λ q a b. empty q b) shown k
