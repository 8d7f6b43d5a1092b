-- ===== src/MinHeap.antt =====
-- The heap of timeouts of codes/libevent-2.0.21-stable/minheap-internal.h.
-- An event is a number. Its min_heap_idx stands in the heap's record: `none` is -1. `p` is a function,
-- of which the code reads and writes the entries below `n`; a hole moves through it.
pub mod Order
pub mod Sift
pub mod Ops
mod Examples
use test_codes.Prelude.{
  ℕ, zero, suc, ◌+◌, ◌-◌, ◌*◌, ◌/◌, Bool, true, false, not, ◌&&◌, ◌||◌, Option, none, some, ltb,
  leb, ◌==◌, if◌then◌else◌,
}

pub record MinHeap : Type 0 where
  pub p : ℕ → ℕ
  pub n : ℕ
  pub a : ℕ
  pub min_heap_idx : ℕ → Option ℕ

abbrev pub update {ℓ} : {A : Type ℓ} → (ℕ → A) → ℕ → A → ℕ → A
update f i v j = if i == j then v else f j

abbrev pub parent : ℕ → ℕ
parent i = (i - 1) / 2

-- min_heap_ctor, for events that min_heap_elem_init has been called on.
abbrev pub min_heap_ctor : MinHeap
min_heap_ctor = record { p = λ i. 0; n = 0; a = 0; min_heap_idx = λ e. none }

-- min_heap_reserve, where mm_realloc succeeds if `ok`. The allocated size has no wrap-around here.
unfoldable pub min_heap_reserve : Bool → MinHeap → ℕ → Option MinHeap
min_heap_reserve ok s n =
    let a = if s.a == 0 then 8 else s.a * 2 in
    if ltb s.a n
    then if ok then some (record s { a = if ltb a n then n else a }) else none
    else some s

-- `(s->p[hole_index] = e)->ev_timeout_pos.min_heap_idx = hole_index`
abbrev pub place : MinHeap → ℕ → ℕ → MinHeap
place s hole e = record s {
  p = update s.p hole e;
  min_heap_idx = update s.min_heap_idx e (some hole);
}

abbrev pub min_heap_top : MinHeap → Option ℕ
min_heap_top s = if s.n == 0 then none else some (s.p 0)

abbrev pub min_heap_elt_is_top : MinHeap → ℕ → Bool
min_heap_elt_is_top s e = elim (s.min_heap_idx e) [ some i ↦ i == 0 | none ↦ false ]

-- min_heap_elem_greater is a parameter: the times stand in the events.
module _ (greater : ℕ → ℕ → Bool) where
  -- The loop of min_heap_shift_up_; each round lessens the hole's index.
  pub shift_up_loop : ℕ → MinHeap → ℕ → ℕ → MinHeap
  shift_up_loop zero s hole e = place s hole e
  shift_up_loop (suc fuel) s hole e =
      let rest = shift_up_loop fuel (place s hole (s.p (parent hole))) (parent hole) e in
      if not (hole == 0) && greater (s.p (parent hole)) e then rest else place s hole e

  pub min_heap_shift_up : MinHeap → ℕ → ℕ → MinHeap
  min_heap_shift_up s hole e = shift_up_loop hole s hole e

  -- `min_child -= min_child == s->n || min_heap_elem_greater(...)`
  pub min_child : MinHeap → ℕ → ℕ
  min_child s hole =
      let right = 2 * (hole + 1) in
      if right == s.n || greater (s.p right) (s.p (right - 1)) then right - 1 else right

  -- The loop of min_heap_shift_down_; each round raises the hole's index, which stays below `n`.
  pub shift_down_loop : ℕ → MinHeap → ℕ → ℕ → MinHeap
  unfolding min_child
  shift_down_loop zero s hole e = place s hole e
  shift_down_loop (suc fuel) s hole e =
      let child = min_child s hole in
      let rest = shift_down_loop fuel (place s hole (s.p child)) child e in
      if leb (2 * (hole + 1)) s.n && greater e (s.p child) then rest else place s hole e

  pub min_heap_shift_down : MinHeap → ℕ → ℕ → MinHeap
  min_heap_shift_down s hole e = shift_down_loop s.n s hole e

  pub push_reserved : ℕ → Option MinHeap → Option MinHeap
  push_reserved e none = none
  push_reserved e (some s) = some (min_heap_shift_up (record s { n = s.n + 1 }) s.n e)

  -- `none` for the result -1.
  pub min_heap_push : Bool → MinHeap → ℕ → Option MinHeap
  min_heap_push ok s e = push_reserved e (min_heap_reserve ok s (s.n + 1))

  -- `e->ev_timeout_pos.min_heap_idx = -1`
  abbrev pub forget : MinHeap → ℕ → MinHeap
  forget s e = record s { min_heap_idx = update s.min_heap_idx e none }

  pub min_heap_pop : MinHeap → Option ℕ × MinHeap
  min_heap_pop s =
      let s' : MinHeap = record s { n = s.n - 1 } in
      if s.n == 0
      then (none, s)
      else (some (s.p 0), forget (min_heap_shift_down s' 0 (s.p (s.n - 1))) (s.p 0))

  pub erase_at : MinHeap → ℕ → Option ℕ → Bool × MinHeap
  erase_at s e none = (false, s)
  erase_at s e (some i) =
      let s' : MinHeap = record s { n = s.n - 1 } in
      let last = s.p (s.n - 1) in
      (
        true,
        forget
            (if ltb 0 i && greater (s.p (parent i)) last
              then min_heap_shift_up s' i last
              else min_heap_shift_down s' i last)
            e,
      )

  -- `false` for the result -1.
  pub min_heap_erase : MinHeap → ℕ → Bool × MinHeap
  unfolding erase_at
  min_heap_erase s e = erase_at s e (s.min_heap_idx e)
