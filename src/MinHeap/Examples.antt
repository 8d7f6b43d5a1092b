-- ===== src/MinHeap/Examples.antt =====
-- The theorems on minheap-internal.h at concrete inputs.
use test_codes.Prelude.{ℕ, ◌≡◌, refl, Bool, true, none, some, ltb, ◌==◌, if◌then◌else◌, arith}
use test_codes.MinHeap.{MinHeap, min_heap_push, min_heap_pop, min_heap_erase}
use test_codes.MinHeap.Order.{IsHeap}
use test_codes.MinHeap.Ops.{
  PushedOrFailed, min_heap_push-Pushed, Erased, min_heap_erase-Erased, Popped, min_heap_pop-Popped,
}

abbrev number : ℕ → ℕ
number e = e

abbrev later : ℕ → ℕ → Bool
later a b = ltb b a

later-number : (a b : ℕ) → later a b ≡ ltb (number b) (number a)
later-number a b = refl

abbrev three_timers : MinHeap
three_timers = record {
  p = λ i. if i == 0 then 5 else if i == 1 then 9 else 7;
  n = 3;
  a = 8;
  min_heap_idx =
      λ e. if e == 5 then some 0 else if e == 9 then some 1 else if e == 7 then some 2 else none;
}

three_timers-IsHeap : IsHeap number three_timers
three_timers-IsHeap = record {
  placed = λ i k. ground arith;
  found_below = λ e i f. ground arith;
  found_at = λ e i f. ground arith;
  ordered = λ c a b. ground arith;
}

min_heap_push-Pushed_example :
    PushedOrFailed later number later-number true three_timers 3
      (min_heap_push later true three_timers 3)
min_heap_push-Pushed_example =
    min_heap_push-Pushed later number later-number true three_timers 3 three_timers-IsHeap refl

min_heap_erase-Erased_example :
    ((min_heap_erase later three_timers 9).0 ≡ true)
    × Erased later number later-number three_timers 9 (min_heap_erase later three_timers 9).1
min_heap_erase-Erased_example =
    min_heap_erase-Erased later number later-number three_timers 9 1 three_timers-IsHeap refl

min_heap_pop-Popped_example :
    Popped later number later-number three_timers (min_heap_pop later three_timers)
min_heap_pop-Popped_example =
    min_heap_pop-Popped later number later-number three_timers three_timers-IsHeap
