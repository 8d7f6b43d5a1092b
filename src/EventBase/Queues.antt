-- ===== src/EventBase/Queues.antt =====
-- event_queue_insert and event_queue_remove of event.c keep the flags of the events and the queues of
-- the base in step.
use test_codes.Prelude.{
  ℕ, ◌+◌, ◌-◌, ◌/◌, ◌≤◌, ◌<◌, ◌≡◌, inl, inr, sym, ap, ◌∙◌, Bool, true, false, ◌&&◌, List, [], ◌∷◌,
  ◌++◌, none, ltb, ◌==◌, Bool-cases, Option-cases, arith, Then,
}
use test_codes.Event.Time.{IsTime, micros, time_lt-micros}
use test_codes.Evmap.{remove, bit}
use test_codes.Evmap.Io.{count, contains, count-append, count-remove}
use test_codes.MinHeap.{MinHeap, min_heap_push, min_heap_erase}
use test_codes.MinHeap.Order.{IsHeap}
use test_codes.MinHeap.Sift
use test_codes.MinHeap.Ops.{Pushed, min_heap_push-Pushed, min_heap_erase-Erased}
use test_codes.EventBase.{
  Event, EventBase, World, Queue, timeouts, inserted, active, has_flag, set_flag, modify, greater,
  push_timeout, enqueue, in_array, event_queue_insert, dequeue, event_queue_remove,
}

-- The time of an event in microseconds, by which the heap is ordered.
abbrev pub key : (ℕ → Event) → ℕ → ℕ
key events e = micros (events e).ev_timeout

-- How often an event stands in a list.
abbrev pub count_of : ℕ → List ℕ → ℕ
count_of e xs = count (λ x. x == e) xs

-- Each event stands in each queue as often as its flag says: once or not at all, and in the active
-- queue of its priority only; and the timeouts are a heap.
pub record InStep (b : EventBase) : Type 0 where
  pub queued : (e : ℕ) → count_of e b.eventqueue ≡ bit (b.events e).on_inserted
  pub activated :
      (e q : ℕ)
      → count_of e (b.activequeues q) ≡ bit ((b.events e).on_active && (b.events e).ev_pri == q)
  pub timed : (e : ℕ) → Sift.contains b.timeheap e ≡ (b.events e).on_timeout
  pub heap : IsHeap (key b.events) b.timeheap
  pub times : (e : ℕ) → IsTime (b.events e).ev_timeout

pub rekey-IsHeap :
    (f g : ℕ → ℕ) (s : MinHeap)
    → ((x : ℕ) → Sift.contains s x ≡ true → g x ≡ f x)
    → IsHeap f s
    → IsHeap g s
rekey-IsHeap f g s same h = record {
  placed = h.placed;
  found_below = h.found_below;
  found_at = h.found_at;
  ordered = λ c a k.
      let up : g (s.p ((c - 1) / 2)) ≡ f (s.p ((c - 1) / 2)) =
        same _ (ground (arith, h.placed ((c - 1) / 2))) in
      let down : g (s.p c) ≡ f (s.p c) = same _ (ground (arith, h.placed c)) in
      omega (arith, up, down, h.ordered c a k);
}

pub greater-key :
    (b : EventBase)
    → InStep b
    → (a c : ℕ) → greater b.events a c ≡ ltb (key b.events c) (key b.events a)
greater-key b s a c = time_lt-micros _ _ (s.times c) (s.times a)

count_of-append : (e j : ℕ) (xs : List ℕ) → count_of j (xs ++ e ∷ []) ≡ count_of j xs + bit (e == j)
count_of-append e j xs = count-append (λ x. x == j) xs e

contains_of_count : (e : ℕ) (xs : List ℕ) → 0 < count_of e xs → contains e xs ≡ true
unfolding count contains
contains_of_count e [] h = absurd (omega arith)
contains_of_count e (x ∷ xs) h = ground (arith, contains_of_count e xs)

count_of-remove :
    (e j : ℕ) (xs : List ℕ)
    → 0 < count_of e xs
    → count_of j (remove e xs) + bit (e == j) ≡ count_of j xs
count_of-remove e j xs h = count-remove (λ x. x == j) xs e (contains_of_count e xs h)

module _ (b : EventBase) (e : ℕ) (s : InStep b) where
  abbrev flagged : Queue → Bool → ℕ → EventBase
  flagged q v n = record (modify b e (set_flag q v)) { event_count = n }

  insert-inserted :
      (w : World) (n : ℕ)
      → (b.events e).on_inserted ≡ false
      → InStep (enqueue w inserted e (flagged inserted true n))
  unfolding enqueue
  insert-inserted w n off = record {
    queued = λ j. ground (arith, s.queued j, count_of-append e j b.eventqueue);
    activated = λ j q. ground (arith, s.activated j q);
    timed = λ j. ground (arith, s.timed j);
    heap = rekey-IsHeap (key b.events) _ b.timeheap (λ x c. ground arith) s.heap;
    times = λ j. ground (arith, s.times j);
  }

  pub insert-active :
      (w : World) (n : ℕ)
      → (b.events e).on_active ≡ false
      → InStep (enqueue w active e (flagged active true n))
  unfolding enqueue
  insert-active w n off =
      let pri = (b.events e).ev_pri in
      record {
        queued = λ j. ground (arith, s.queued j);
        activated = λ j q.
            ground
              (arith, s.activated j q, s.activated j pri, count_of-append e j (b.activequeues pri));
        timed = λ j. ground (arith, s.timed j);
        heap = rekey-IsHeap (key b.events) _ b.timeheap (λ x c. ground arith) s.heap;
        times = λ j. ground (arith, s.times j);
      }

  remove-inserted :
      (n : ℕ)
      → (b.events e).on_inserted ≡ true
      → InStep (dequeue inserted e (flagged inserted false n))
  unfolding dequeue
  remove-inserted n on = record {
    queued = λ j. ground (arith, s.queued j, s.queued e, count_of-remove e j b.eventqueue);
    activated = λ j q. ground (arith, s.activated j q);
    timed = λ j. ground (arith, s.timed j);
    heap = rekey-IsHeap (key b.events) _ b.timeheap (λ x c. ground arith) s.heap;
    times = λ j. ground (arith, s.times j);
  }

  remove-active :
      (n : ℕ) → (b.events e).on_active ≡ true → InStep (dequeue active e (flagged active false n))
  unfolding dequeue
  remove-active n on =
      let pri = (b.events e).ev_pri in
      record {
        queued = λ j. ground (arith, s.queued j);
        activated = λ j q. ground (
          arith,
          s.activated j q,
          s.activated j pri,
          s.activated e pri,
          count_of-remove e j (b.activequeues pri),
        );
        timed = λ j. ground (arith, s.timed j);
        heap = rekey-IsHeap (key b.events) _ b.timeheap (λ x c. ground arith) s.heap;
        times = λ j. ground (arith, s.times j);
      }

  flagged-greater :
      (v : Bool) (n : ℕ) (a c : ℕ)
      → greater (flagged timeouts v n).events a c
        ≡ ltb (key (flagged timeouts v n).events c) (key (flagged timeouts v n).events a)
  flagged-greater v n a c =
      time_lt-micros _ _ (ground (arith, s.times c)) (ground (arith, s.times a))

  flagged-IsHeap : (v : Bool) (n : ℕ) → IsHeap (key (flagged timeouts v n).events) b.timeheap
  flagged-IsHeap v n = rekey-IsHeap (key b.events) _ b.timeheap (λ x c. ground arith) s.heap

  push_timeout-Pushed :
      (w : World) (n : ℕ)
      → (b.events e).on_timeout ≡ false
      → (b.timeheap.a ≤ b.timeheap.n → w.heap_ok ≡ true)
      → Pushed
          (greater (flagged timeouts true n).events)
          (key (flagged timeouts true n).events)
          (flagged-greater true n)
          b.timeheap
          e
          (push_timeout w (flagged timeouts true n) e)
  unfolding push_timeout
  push_timeout-Pushed w n off room =
      let events = (flagged timeouts true n).events in
      let o = min_heap_push (greater events) w.heap_ok b.timeheap e in
      let absent : b.timeheap.min_heap_idx e ≡ none = ground (arith, s.timed e) in
      let p =
        min_heap_push-Pushed (greater events) (key events) (flagged-greater true n) w.heap_ok
          b.timeheap e (flagged-IsHeap true n) absent in
      elim (Option-cases o) [
        | inl is_none ↦ let q = rw is_none at p in absurd (ground (arith, q, room q.0))
        | inr (t, is_some) ↦ rw (is_some, push_timeout) (rw is_some at p)
      ]

  insert-timeouts :
      (w : World) (n : ℕ)
      → (b.events e).on_timeout ≡ false
      → (b.timeheap.a ≤ b.timeheap.n → w.heap_ok ≡ true)
      → InStep (enqueue w timeouts e (flagged timeouts true n))
  unfolding enqueue
  insert-timeouts w n off room =
      let p = push_timeout-Pushed w n off room in
      record {
        queued = λ j. ground (arith, s.queued j);
        activated = λ j q. ground (arith, s.activated j q);
        timed = λ j. elim (Bool-cases (e == j)) [
          | inl same ↦
              let q : e ≡ j = ground arith in
              rw same
                (ap (Sift.contains (push_timeout w (flagged timeouts true n) e)) (sym q) ∙ p.has)
          | inr other ↦ rw other (p.others j (ground arith) ∙ s.timed j)
        ];
        heap = p.heap;
        times = λ j. ground (arith, s.times j);
      }

  remove-timeouts :
      (n : ℕ)
      → (b.events e).on_timeout ≡ true
      → InStep (dequeue timeouts e (flagged timeouts false n))
  unfolding dequeue
  remove-timeouts n on = elim (Option-cases (b.timeheap.min_heap_idx e)) [
    | inl out ↦ absurd (ground (arith, s.timed e))
    | inr (i, at) ↦
        let events = (flagged timeouts false n).events in
        let (found, p) =
          min_heap_erase-Erased (greater events) (key events) (flagged-greater false n) b.timeheap e
            i (flagged-IsHeap false n) at in
        record {
          queued = λ j. ground (arith, s.queued j);
          activated = λ j q. ground (arith, s.activated j q);
          timed = λ j. elim (Bool-cases (e == j)) [
            | inl same ↦
                let q : e ≡ j = ground arith in
                rw same (
                  ap (Sift.contains (min_heap_erase (greater events) b.timeheap e).1) (sym q)
                  ∙ p.gone)
            | inr other ↦ rw other (p.others j (ground arith) ∙ s.timed j)
          ];
          heap = p.heap;
          times = λ j. ground (arith, s.times j);
        }
  ]

  pub remove-timeouts-size :
      (n : ℕ)
      → (b.events e).on_timeout ≡ true
      → (dequeue timeouts e (flagged timeouts false n)).timeheap.n + 1 ≡ b.timeheap.n
  unfolding dequeue
  remove-timeouts-size n on = elim (Option-cases (b.timeheap.min_heap_idx e)) [
    | inl out ↦ absurd (ground (arith, s.timed e))
    | inr (i, at) ↦
        let events = (flagged timeouts false n).events in
        let (found, p) =
          min_heap_erase-Erased (greater events) (key events) (flagged-greater false n) b.timeheap e
            i (flagged-IsHeap false n) at in
        p.size
  ]

-- event_queue_insert of an event that is not on the queue, and for the active queues of a priority that the base has,
-- does not end the program, and keeps flags and queues in step; the heap has room, or can have.
pub event_queue_insert-InStep :
    (w : World) (b : EventBase) (e : ℕ) (q : Queue)
    → InStep b
    → has_flag q (b.events e) ≡ false
    → in_array q e b ≡ true
    → (b.timeheap.a ≤ b.timeheap.n → w.heap_ok ≡ true)
    → Then InStep (event_queue_insert w b e q)
unfolding event_queue_insert
event_queue_insert-InStep w b e timeouts s off there room =
    rw off (insert-timeouts b e s w _ off room)
event_queue_insert-InStep w b e inserted s off there room = rw off (insert-inserted b e s w _ off)
event_queue_insert-InStep w b e active s off there room =
    rw (off, there) (insert-active b e s w _ off)

-- event_queue_remove of an event that is on the queue does so too.
pub event_queue_remove-InStep :
    (b : EventBase) (e : ℕ) (q : Queue)
    → InStep b
    → has_flag q (b.events e) ≡ true
    → Then InStep (event_queue_remove b e q)
unfolding event_queue_remove
event_queue_remove-InStep b e timeouts s on = rw on (remove-timeouts b e s _ on)
event_queue_remove-InStep b e inserted s on = rw on (remove-inserted b e s _ on)
event_queue_remove-InStep b e active s on = rw on (remove-active b e s _ on)
