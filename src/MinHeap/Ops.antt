-- ===== src/MinHeap/Ops.antt =====
-- min_heap_push, min_heap_pop and min_heap_erase keep the heap, and change it by one event.
use test_codes.Prelude.{
  ℕ, zero, suc, ◌+◌, ◌-◌, ◌*◌, ◌≤◌, ◌<◌, ◌≡◌, ◌≢◌, inl, inr, refl, ap, ◌∙◌, Bool, true, false, ◌&&◌,
  Option, none, some, ltb, leb, ◌==◌, Bool-cases, Option-cases, arith,
}
use test_codes.MinHeap.{
  MinHeap, parent, place, min_heap_reserve, min_heap_shift_up, shift_down_loop, min_heap_shift_down,
  push_reserved, min_heap_push, forget, min_heap_pop, erase_at, min_heap_erase,
}
use test_codes.MinHeap.Order.{IsHeap, IsHollow}
use test_codes.MinHeap.Sift.{contains, Filled, min_heap_shift_up-Filled, min_heap_shift_down-Filled}

module _ (greater : ℕ → ℕ → Bool) (key : ℕ → ℕ)
    (by_key : (a b : ℕ) → greater a b ≡ ltb (key b) (key a)) where
  nobody : ℕ → Bool
  nobody x = false

  push-IsHollow :
      (s : MinHeap) (e a : ℕ)
      → IsHeap key s
      → s.min_heap_idx e ≡ none
      → IsHollow key nobody (record s { n = s.n + 1; a = a }) s.n e
  unfolding nobody
  push-IsHollow s e a h new = record {
    inside = omega arith;
    coming = refl;
    alive = λ i k d. refl;
    placed = λ i k d. h.placed i (omega arith);
    absent = λ i k d. ground (arith, h.placed i, ap s.min_heap_idx);
    found_below = λ x i d g f. omega (arith, h.found_below x i f);
    found_off = λ x i d g f. omega (arith, h.found_below x i f);
    found_at = λ x i d g f. h.found_at x i f;
    ordered = λ c a b d f. h.ordered c a (omega arith);
    bridged = λ c a b d f. absurd (omega arith);
  }

  -- What min_heap_push leaves: a heap with `e` and what it held, within the allocated size.
  pub record Pushed (s : MinHeap) (e : ℕ) (t : MinHeap) : Type 0 where
    pub heap : IsHeap key t
    pub size : t.n ≡ s.n + 1
    pub room : t.n ≤ t.a
    pub has : contains t e ≡ true
    pub others : (x : ℕ) → x ≢ e → contains t x ≡ contains s x

  -- The two ways out of min_heap_push.
  abbrev pub PushedOrFailed : Bool → MinHeap → ℕ → Option MinHeap → Type 0
  PushedOrFailed ok s e none = (s.a ≤ s.n) × (ok ≡ false)
  PushedOrFailed ok s e (some t) = Pushed s e t

  push_reserved-Pushed :
      (s : MinHeap) (e a : ℕ)
      → IsHeap key s
      → s.min_heap_idx e ≡ none
      → s.n + 1 ≤ a
      → Pushed s e (min_heap_shift_up greater (record s { n = s.n + 1; a = a }) s.n e)
  push_reserved-Pushed s e a h new fits =
      let f =
        min_heap_shift_up-Filled greater key by_key nobody (record s { n = s.n + 1; a = a }) s.n e
          (push-IsHollow s e a h new) (λ c a b d. absurd (omega arith)) in
      let kept = f.heap in
      record {
        heap = record {
          placed = kept.placed;
          found_below = λ x i g. kept.found_below x i (unfold nobody in refl) g;
          found_at = λ x i g. kept.found_at x i (unfold nobody in refl) g;
          ordered = kept.ordered;
        };
        size = f.size;
        room = omega (arith, f.size, f.allocated, fits);
        has = f.has;
        others = f.others;
      }

  -- min_heap_push of an event that is not in the heap leaves a heap of the same events and the new
  -- one, no more than the array that it has allocated has room for; it fails only where the array is full and memory runs out.
  pub min_heap_push-Pushed :
      (ok : Bool) (s : MinHeap) (e : ℕ)
      → IsHeap key s
      → s.min_heap_idx e ≡ none
      → PushedOrFailed ok s e (min_heap_push greater ok s e)
  unfolding min_heap_push push_reserved min_heap_reserve
  min_heap_push-Pushed ok s e h new = elim (Bool-cases (ltb s.a (s.n + 1))) [
    | inr room ↦ rw room (push_reserved-Pushed s e s.a h new (ground (arith, room)))
    | inl full ↦ elim (Bool-cases ok) [
      | inl got ↦ rw (full, got) (push_reserved-Pushed s e _ h new (ground (arith, full)))
      | inr no_memory ↦ rw (full, no_memory) (ground arith, refl)
    ]
  ]

  -- The heap without its last entry, with a hole at `i`, for the event of the last entry.
  erase-IsHollow :
      (s : MinHeap) (e i m : ℕ)
      → IsHeap key s
      → s.n ≡ m + 1
      → s.min_heap_idx e ≡ some i
      → i ≢ m
      → IsHollow key (λ x. x == e) (record s { n = m }) i (s.p m)
  erase-IsHollow s e i m h size at ne =
      let here = h.found_at e i at in
      let below = h.found_below e i at in
      record {
        inside = omega arith;
        coming = ground (arith, h.placed m, ap s.min_heap_idx);
        alive = λ j k d. ground (arith, h.placed j, ap s.min_heap_idx);
        placed = λ j k d. h.placed j (omega arith);
        absent = λ j k d. ground (arith, h.placed j, h.placed m, ap s.min_heap_idx);
        found_below = λ x j d g f. ground (arith, h.found_below x j f, h.found_at x j f);
        found_off = λ x j d g f. ground (arith, h.found_at x j f);
        found_at = λ x j d g f. h.found_at x j f;
        ordered = λ c a b d f. h.ordered c a (omega arith);
        bridged = λ c a b d f. ground (arith, h.ordered c, h.ordered i);
      }

  -- A heap without `e`, and with all else that it held.
  pub record Erased (s : MinHeap) (e : ℕ) (t : MinHeap) : Type 0 where
    pub heap : IsHeap key t
    pub size : t.n + 1 ≡ s.n
    pub gone : contains t e ≡ false
    pub others : (x : ℕ) → x ≢ e → contains t x ≡ contains s x

  forget-Erased :
      (s : MinHeap) (e i m : ℕ) (t : MinHeap)
      → IsHeap key s
      → s.n ≡ m + 1
      → s.min_heap_idx e ≡ some i
      → i ≢ m
      → Filled greater key by_key (λ x. x == e) (record s { n = m }) (s.p m) t
      → Erased s e (forget greater t e)
  forget-Erased s e i m t h size at ne f =
      let kept = f.heap in
      let last : s.min_heap_idx (s.p m) ≡ some m = h.placed m (omega arith) in
      let same = f.size in
      record {
        heap = record {
          placed = λ j k. ground (arith, kept.placed j, kept.alive j);
          found_below = λ x j g. ground (arith, kept.found_below x j);
          found_at = λ x j g. ground (arith, kept.found_at x j);
          ordered = kept.ordered;
        };
        size = omega arith;
        gone = ground arith;
        others = λ x d. elim (Bool-cases (x == s.p m)) [
          | inl is_last ↦
              let q : x ≡ s.p m = ground arith in
              ground (arith, f.has, last, ap s.min_heap_idx q, ap t.min_heap_idx q)
          | inr other ↦ ground (arith, f.others x)
        ];
      }

  -- The event of the last entry leaves the rest as it is.
  last-Erased :
      (s : MinHeap) (e m : ℕ)
      → IsHeap key s
      → s.n ≡ m + 1
      → s.min_heap_idx e ≡ some m
      → Erased s e (forget greater (place (record s { n = m }) m (s.p m)) e)
  last-Erased s e m h size at =
      let here = h.found_at e m at in
      record {
        heap = record {
          placed = λ j k. ground (arith, h.placed j, ap s.min_heap_idx);
          found_below = λ x j g. ground (arith, h.found_below x j, h.found_at x j);
          found_at = λ x j g. ground (arith, h.found_at x j, h.found_below x j);
          ordered = λ c a b. ground (arith, h.ordered c);
        };
        size = omega arith;
        gone = ground arith;
        others = λ x d. ground arith;
      }

  -- A hole at the end is filled at once.
  shift_down_leaf :
      (fuel : ℕ) (s : MinHeap) (hole e : ℕ)
      → s.n ≤ hole
      → shift_down_loop greater fuel s hole e ≡ place s hole e
  unfolding shift_down_loop
  shift_down_leaf zero s hole e h = refl
  shift_down_leaf (suc fuel) s hole e h =
      let leaf : leb (2 * (hole + 1)) s.n ≡ false = ground arith in rw leaf refl

  shift_down-place :
      (s : MinHeap) (hole e : ℕ)
      → s.n ≤ hole
      → min_heap_shift_down greater s hole e ≡ place s hole e
  unfolding min_heap_shift_down
  shift_down-place s hole e h = shift_down_leaf s.n s hole e h

  module _ (s : MinHeap) (e i m : ℕ) (h : IsHeap key s) (size : s.n ≡ m + 1)
      (at : s.min_heap_idx e ≡ some i) where
    down-Erased :
        (i ≢ m → 0 < i → key (s.p (parent i)) ≤ key (s.p m))
        → Erased s e (forget greater (min_heap_shift_down greater (record s { n = m }) i (s.p m)) e)
    down-Erased above = elim (Bool-cases (i == m)) [
      | inl is_last ↦
          let q : i ≡ m = ground arith in
          let at' : s.min_heap_idx e ≡ some m = at ∙ ap some q in
          rw (q, shift_down-place (record s { n = m }) m (s.p m) (omega arith))
            (last-Erased s e m h size at')
      | inr other ↦
          let ne : i ≢ m = ground arith in
          forget-Erased s e i m _ h size at ne (
            min_heap_shift_down-Filled greater key by_key (λ x. x == e) (record s { n = m }) i
              (s.p m) (erase-IsHollow s e i m h size at ne) (above ne))
    ]

    up-Erased :
        0 < i
        → key (s.p m) < key (s.p (parent i))
        → Erased s e (forget greater (min_heap_shift_up greater (record s { n = m }) i (s.p m)) e)
    up-Erased pos later =
        let ne : i ≢ m = λ q. absurd (ground (arith, h.ordered i, h.found_below e i at)) in
        forget-Erased s e i m _ h size at ne (
          min_heap_shift_up-Filled greater key by_key (λ x. x == e) (record s { n = m }) i (s.p m)
            (erase-IsHollow s e i m h size at ne)
            (λ c a b d. ground (arith, h.ordered c, h.ordered i)))

  -- min_heap_erase takes an event out of a heap that holds it, and nothing else, and leaves a heap.
  pub min_heap_erase-Erased :
      (s : MinHeap) (e i : ℕ)
      → IsHeap key s
      → s.min_heap_idx e ≡ some i
      → ((min_heap_erase greater s e).0 ≡ true) × Erased s e (min_heap_erase greater s e).1
  unfolding min_heap_erase
  min_heap_erase-Erased s e i h at =
      let m = s.n - 1 in
      let size : s.n ≡ m + 1 = omega (arith, h.found_below e i at) in
      let order = by_key (s.p (parent i)) (s.p m) in
      rw (at, erase_at)
        (elim (Bool-cases (ltb 0 i && greater (s.p (parent i)) (s.p m))) [
          | inl up ↦
              rw up (refl, up-Erased s e i m h size at (ground arith) (ground (arith, order)))
          | inr down ↦
              rw down (refl, down-Erased s e i m h size at (λ ne pos. ground (arith, order)))
        ])

  pub root_least_below :
      (fuel : ℕ) (s : MinHeap) (i : ℕ)
      → IsHeap key s
      → i ≤ fuel
      → i < s.n
      → key (s.p 0) ≤ key (s.p i)
  root_least_below fuel s zero h k l = omega arith
  root_least_below zero s (suc i) h k l = absurd (omega arith)
  root_least_below (suc fuel) s (suc i) h k l =
      ground (arith, h.ordered (suc i), root_least_below fuel s (parent (suc i)) h)

  -- The two ways out of min_heap_pop.
  abbrev pub Popped : MinHeap → Option ℕ × MinHeap → Type 0
  Popped s (none, t) = (s.n ≡ 0) × (t ≡ s)
  Popped s (some e, t) =
      (contains s e ≡ true) × ((x : ℕ) → contains s x ≡ true → key e ≤ key x) × Erased s e t

  -- min_heap_pop on a heap that is not empty returns an event that no event of the heap is earlier
  -- than, and leaves a heap of the others; on an empty heap it returns nothing and changes nothing.
  pub min_heap_pop-Popped : (s : MinHeap) → IsHeap key s → Popped s (min_heap_pop greater s)
  unfolding min_heap_pop
  min_heap_pop-Popped s h = elim (Bool-cases (s.n == 0)) [
    | inl empty ↦ rw empty (ground arith, refl)
    | inr more ↦
        let m = s.n - 1 in
        let size : s.n ≡ m + 1 = ground arith in
        let top = h.placed 0 (omega arith) in
        rw more (
          ground arith,
          (λ x c. elim (Option-cases (s.min_heap_idx x)) [
            | inl out ↦ absurd (ground arith)
            | inr (j, at) ↦
                rw (h.found_at x j at) at
                  (root_least_below j s j h (omega arith) (h.found_below x j at))
          ]),
          down-Erased s (s.p 0) 0 m h size top (λ ne pos. absurd (omega arith)),
        )
  ]
