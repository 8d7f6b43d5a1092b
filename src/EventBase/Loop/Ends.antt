-- ===== src/EventBase/Loop/Ends.antt =====
-- Why event_base_loop ends.
use test_codes.Prelude.{
  ℕ, zero, suc, ◌≡◌, ◌⊎◌, refl, inl, inr, true, false, not, ◌&&◌, ◌||◌, List, [], ◌∷◌, Option, none,
  some, ◌==◌, ◌>>=◌, if_intro, arith,
}
use test_codes.EventBase.{EventBase}
use test_codes.EventBase.Setup.{event_haveevents}
use test_codes.EventBase.Timers.{timeout_process}
use test_codes.EventBase.Loop.{Looping, User, event_process_active}
use test_codes.EventBase.Loop.Rounds.{
  LoopFlags, Round, Ended, stopped, no_events_left, dispatch_failed, reentrant, still,
  n_active_callbacks, done_once, processed, process_round, dispatched, loop_rounds, finish_loop,
  event_base_loop,
}

-- What holds of a result, where the program has not ended before it.
abbrev pub IfSome {ℓ} : {A : Type ℓ} → (A → Type 0) → Option A → Type 0
IfSome P none = Unit
IfSome P (some a) = P a

IfSome-bind {ℓ κ} :
    {A : Type ℓ} {B : Type κ} (Q : B → Type 0) (m : Option A) (f : A → Option B)
    → ((a : A) → IfSome Q (f a))
    → IfSome Q (m >>= f)
IfSome-bind Q none f h = tt
IfSome-bind Q (some a) f h = h a

IfSome-then {ℓ κ} :
    {A : Type ℓ} {B : Type κ} (P : A → Type 0) (Q : B → Type 0) (m : Option A) (f : A → B)
    → IfSome P m
    → ((a : A) → P a → Q (f a))
    → IfSome Q (m >>= λ a. some (f a))
IfSome-then P Q none f p h = tt
IfSome-then P Q (some a) f p h = h a p

-- The state in which the loop stops, by what it returns.
abbrev pub Why : LoopFlags → Ended → Looping → Type 0
Why flags stopped l =
    (l.event_gotterm || l.base.event_break ≡ true)
    ⊎ ((n_active_callbacks l ≡ 0) × (flags.once || flags.nonblock ≡ true))
Why flags no_events_left l = (l.base.event_count ≡ 0) × (n_active_callbacks l ≡ 0)
Why flags dispatch_failed l = Unit
Why flags still l = Unit
Why flags reentrant l = ⊥

abbrev WhyPair : LoopFlags → Ended × Looping → Type 0
WhyPair flags (end, l) = Why flags end l

module _ (u : User) (flags : LoopFlags) where
  abbrev Next : Type 0
  Next = Looping → Option (Ended × Looping)

  done_once-Why : (n : Option ℕ) (l : Looping) → done_once flags n l ≡ true → Why flags stopped l
  done_once-Why none l h = inr (ground (arith, h), ground (arith, h))
  done_once-Why (some zero) l h = absurd (ground (arith, h))
  done_once-Why (some (suc c)) l h = inr (ground (arith, h), ground (arith, h))

  processed-Why :
      (next : Next) (q : Option ℕ × Looping)
      → ((l' : Looping) → IfSome (WhyPair flags) (next l'))
      → IfSome (WhyPair flags) (processed flags next q)
  unfolding processed
  processed-Why next (n, l) h =
      if_intro (IfSome (WhyPair flags)) (done_once flags n l) (done_once-Why n l) (λ more. h l)

  process_round-Why :
      (r : Round) (next : Next) (l : Looping)
      → ((l' : Looping) → IfSome (WhyPair flags) (next l'))
      → IfSome (WhyPair flags) (process_round u flags r next l)
  unfolding process_round
  process_round-Why r next l h =
      let P = IfSome (WhyPair flags) in
      if_intro P (n_active_callbacks l == 0)
        (λ idle.
          if_intro P flags.nonblock
            (λ nonblock. inr (ground (arith, idle), ground (arith, nonblock))) (λ blocks. h l))
        (λ busy.
          IfSome-bind (WhyPair flags) (event_process_active r.fuel u r.after l) _
            (λ q. processed-Why next q h))

  dispatched-Why :
      (r : Round) (next : Next) (l : Looping) (o : Option EventBase)
      → ((l' : Looping) → IfSome (WhyPair flags) (next l'))
      → IfSome (WhyPair flags) (dispatched u flags r next l o)
  unfolding dispatched
  dispatched-Why r next l none h = tt
  dispatched-Why r next l (some b) h =
      IfSome-bind (WhyPair flags) (timeout_process r.after b) _ (λ b'. process_round-Why r next _ h)

  loop_rounds-Why :
      (rounds : List Round) (l : Looping) → IfSome (WhyPair flags) (loop_rounds rounds u flags l)
  unfolding loop_rounds
  loop_rounds-Why [] l = tt
  loop_rounds-Why (r ∷ rounds) l =
      let P = IfSome (WhyPair flags) in
      let begun : Looping = record l { base = record (l.base) { event_continue = false } } in
      if_intro P (l.event_gotterm || l.base.event_break) (λ asked. inl asked)
        (λ goes_on.
          if_intro P (not (event_haveevents r.virtual begun.base) && n_active_callbacks begun == 0)
            (λ nothing. (ground arith, ground arith))
            (λ more.
              dispatched-Why r (loop_rounds rounds u flags) begun _ (loop_rounds-Why rounds)))

-- What event_base_loop returns, and how it leaves the loop.
abbrev pub Ends : LoopFlags → Looping → Ended × Looping → Type 0
Ends flags l (reentrant, l') = (l.running_loop ≡ true) × (l' ≡ l)
Ends flags l (still, l') = l.running_loop ≡ false
Ends flags l (stopped, l') =
    (l.running_loop ≡ false) × (l'.running_loop ≡ false) × Why flags stopped l'
Ends flags l (no_events_left, l') =
    (l.running_loop ≡ false) × (l'.running_loop ≡ false) × Why flags no_events_left l'
Ends flags l (dispatch_failed, l') = (l.running_loop ≡ false) × (l'.running_loop ≡ false)

finish_loop-Ends :
    (flags : LoopFlags) (l : Looping) (r : Ended × Looping)
    → l.running_loop ≡ false
    → WhyPair flags r
    → Ends flags l (finish_loop r)
unfolding finish_loop
finish_loop-Ends flags l (stopped, l') h why = (h, refl, why)
finish_loop-Ends flags l (no_events_left, l') h why = (h, refl, why)
finish_loop-Ends flags l (dispatch_failed, l') h why = (h, refl)
finish_loop-Ends flags l (reentrant, l') h why = absurd why
finish_loop-Ends flags l (still, l') h why = h

-- Whatever the callbacks and the backend do: if event_base_loop returns 0, it has been asked to exit or to break, or it
-- has EVLOOP_ONCE or EVLOOP_NONBLOCK and leaves no active event and no deferred callback; if it returns 1, no event
-- is registered or active and no deferred callback waits. In both cases, and if the backend fails, a new loop may run.
-- If one runs already, it returns -1 and changes nothing. This holds of each run in which no call ends the program.
pub event_base_loop-Ends :
    (rounds : List Round) (u : User) (flags : LoopFlags) (l : Looping)
    → IfSome (Ends flags l) (event_base_loop rounds u flags l)
unfolding event_base_loop
event_base_loop-Ends rounds u flags l =
    let started : Looping = record l {
      running_loop = true;
      event_gotterm = false;
      base = record (l.base) { event_break = false };
    } in
    if_intro (IfSome (Ends flags l)) l.running_loop (λ running. (running, refl))
      (λ free.
        IfSome-then (WhyPair flags) (Ends flags l) (loop_rounds rounds u flags started) finish_loop
          (loop_rounds-Why u flags rounds started) (λ r. finish_loop-Ends flags l r free))
