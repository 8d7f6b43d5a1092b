-- ===== src/EventBase/Loop/Quiet.antt =====
-- The events and the callbacks that leave event_process_active alone.
use test_codes.Prelude.{ℕ, ◌+◌, ◌≡◌, refl, true, false, ◌&&◌, List, [], ◌∷◌, ◌==◌, arith}
use test_codes.Event.{What}
use test_codes.Event.Time.{Timeval}
use test_codes.Evmap.Io.{count}
use test_codes.EventBase.{
  Closure, no_closure, signal_closure, persist_closure, Event, EventBase, visible,
}
use test_codes.EventBase.Queues.{count_of}
use test_codes.EventBase.Calls.Frames.{SameOthers}
use test_codes.EventBase.Loop.{Looping, User}

abbrev pub IsSimple : Closure → Timeval → Type 0
IsSimple no_closure interval = Unit
IsSimple persist_closure interval = interval.sec == 0 && interval.usec == 0 ≡ true
IsSimple signal_closure interval = ⊥

-- An event that is no signal and has no interval, and is not in the maps if it runs only once.
pub record IsPlain (ev : Event) : Type 0 where
  pub off_maps : ev.ev_events.persist ≡ false → ev.on_inserted ≡ false
  pub simple : IsSimple ev.ev_closure ev.ev_io_timeout

abbrev pub ActivePlain : EventBase → Type 0
ActivePlain b = (e : ℕ) → (b.events e).on_active ≡ true → IsPlain (b.events e)

-- Callbacks that leave the base to the loop; they may defer callbacks and ask the loop to exit.
pub record IsQuiet (u : User) : Type 0 where
  pub base : (e : ℕ) (what : What) (l : Looping) → (u.callback e what l).base ≡ l.base
  pub calls : (e : ℕ) (what : What) (l : Looping) → (u.callback e what l).calls ≡ l.calls
  pub deferred_base : (cb : ℕ) (l : Looping) → (u.deferred cb l).base ≡ l.base
  pub deferred_calls : (cb : ℕ) (l : Looping) → (u.deferred cb l).calls ≡ l.calls

-- The callbacks of the events of a queue, in its order, each with the ev_res of its event.
unfoldable pub in_order : (ℕ → Event) → List ℕ → List (ℕ × What)
in_order events [] = []
in_order events (e ∷ queue) = (e, (events e).ev_res) ∷ in_order events queue

-- How many events of a queue are not internal.
unfoldable pub count_visible : (ℕ → Event) → List ℕ → ℕ
count_visible events [] = 0
count_visible events (e ∷ queue) = visible (events e) + count_visible events queue

pub same_queue :
    (b c : EventBase) (e : ℕ) (xs : List ℕ)
    → count_of e xs ≡ 0
    → SameOthers e b c
    → (in_order c.events xs ≡ in_order b.events xs)
      × (count_visible c.events xs ≡ count_visible b.events xs)
unfolding in_order count_visible count
same_queue b c e [] h same = (refl, refl)
same_queue b c e (x ∷ xs) h same =
    let other : e == x ≡ false = ground arith in
    let (order, many) = same_queue b c e xs (ground arith) same in
    rw (same x other, order, many) (refl, refl)
