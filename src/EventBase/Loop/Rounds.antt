-- ===== src/EventBase/Loop/Rounds.antt =====
-- event_base_loop of event.c, with the answers of the world for each of its rounds.
use test_codes.Prelude.{
  ℕ, zero, suc, ◌+◌, Bool, true, false, not, ◌&&◌, ◌||◌, List, [], ◌∷◌, Option, none, some, ◌==◌,
  if◌then◌else◌, ◌>>=◌, length,
}
use test_codes.Event.Time.{Timeval, zero_time}
use test_codes.EventBase.{EventBase, World}
use test_codes.EventBase.Setup.{event_haveevents}
use test_codes.EventBase.Timers.{timeout_next, timeout_process}
use test_codes.EventBase.Loop.{Looping, User, event_process_active}

-- EVLOOP_ONCE and EVLOOP_NONBLOCK
pub record LoopFlags : Type 0 where
  pub once : Bool
  pub nonblock : Bool

-- What the world does in a round of the loop: the time before the backend is asked, if gettime gives it,
-- what `tv` holds if it does not, the count of virtual events, the backend's dispatch, which activates
-- events, or returns -1, and what holds after it. `fuel` bounds the callbacks of a queue.
pub record Round : Type 0 where
  pub before : Option Timeval
  pub tv : Timeval
  pub virtual : ℕ
  pub dispatch : Option Timeval → EventBase → Option EventBase
  pub after : World
  pub fuel : ℕ

-- How event_base_loop ends: with 0 since it was asked to, with 1 since no events are left, with -1 since
-- the backend failed, or since it runs already. `still` is a loop that goes on behind the rounds given.
pub data Ended : Type 0 where
  stopped no_events_left dispatch_failed reentrant still : Ended

-- N_ACTIVE_CALLBACKS
abbrev pub n_active_callbacks : Looping → ℕ
n_active_callbacks l = l.base.event_count_active + length l.defer_queue

-- `(flags & EVLOOP_ONCE) && N_ACTIVE_CALLBACKS(base) == 0 && n != 0`
abbrev pub done_once : LoopFlags → Option ℕ → Looping → Bool
done_once flags none l = flags.once && n_active_callbacks l == 0
done_once flags (some zero) l = false
done_once flags (some (suc c)) l = flags.once && n_active_callbacks l == 0

-- The result of event_process_active in a round.
unfoldable pub processed :
    LoopFlags → (Looping → Option (Ended × Looping)) → Option ℕ × Looping → Option (Ended × Looping)
processed flags next (n, l) = if done_once flags n l then some (stopped, l) else next l

-- What follows timeout_process in a round: the callbacks, and whether the loop is done.
unfoldable pub process_round :
    User
    → LoopFlags
    → Round
    → (Looping → Option (Ended × Looping))
    → Looping
    → Option (Ended × Looping)
process_round u flags r next l =
    if n_active_callbacks l == 0
    then if flags.nonblock then some (stopped, l) else next l
    else (event_process_active r.fuel u r.after l >>= processed flags next)

-- A round, once the backend has answered.
unfoldable pub dispatched :
    User
    → LoopFlags
    → Round
    → (Looping → Option (Ended × Looping))
    → Looping
    → Option EventBase
    → Option (Ended × Looping)
dispatched u flags r next l none = some (dispatch_failed, l)
dispatched u flags r next l (some b) = do
  b' ← timeout_process r.after b
  process_round u flags r next (record l { base = b' })

-- The time that the backend may wait.
unfoldable pub wait_time : LoopFlags → Round → Looping → Option Timeval
wait_time flags r l =
    if n_active_callbacks l == 0 && not flags.nonblock
    then (timeout_next l.base r.before r.tv).1
    else some zero_time

unfoldable pub loop_rounds : List Round → User → LoopFlags → Looping → Option (Ended × Looping)
loop_rounds [] u flags l = some (still, l)
loop_rounds (r ∷ rounds) u flags l =
    let begun : Looping = record l { base = record (l.base) { event_continue = false } } in
    if l.event_gotterm || l.base.event_break
    then some (stopped, begun)
    else if not (event_haveevents r.virtual begun.base) && n_active_callbacks begun == 0
    then some (no_events_left, begun)
    else dispatched u flags r (loop_rounds rounds u flags) begun
        (r.dispatch (wait_time flags r begun) begun.base)

-- `done:`
unfoldable pub finish_loop : Ended × Looping → Ended × Looping
finish_loop (still, l) = (still, l)
finish_loop (stopped, l) = (stopped, record l { running_loop = false })
finish_loop (no_events_left, l) = (no_events_left, record l { running_loop = false })
finish_loop (dispatch_failed, l) = (dispatch_failed, record l { running_loop = false })
finish_loop (reentrant, l) = (reentrant, l)

unfoldable pub event_base_loop : List Round → User → LoopFlags → Looping → Option (Ended × Looping)
event_base_loop rounds u flags l =
    if l.running_loop
    then some (reentrant, l)
    else (loop_rounds rounds u flags (record l {
      running_loop = true;
      event_gotterm = false;
      base = record (l.base) { event_break = false };
    })
        >>= λ r. some (finish_loop r))
