-- ===== src/MinHeap/Sift.antt =====
-- min_heap_shift_up_ and min_heap_shift_down_ fill the hole and restore the order.
use test_codes.Prelude.{
  ℕ, zero, suc, ◌+◌, ◌-◌, ◌*◌, ◌≤◌, ◌<◌, ◌≡◌, ◌≢◌, ◌⊎◌, inl, inr, refl, Bool, true, false, not,
  ◌&&◌, ◌||◌, none, some, ltb, leb, ◌==◌, Bool-cases, arith,
}
use test_codes.MinHeap.{
  MinHeap, parent, place, shift_up_loop, min_heap_shift_up, min_child, shift_down_loop,
  min_heap_shift_down,
}
use test_codes.MinHeap.Order.{IsHeapBut, IsHollow, place-IsHeap, move-IsHollow}

-- Whether an event is in the heap.
abbrev pub contains : MinHeap → ℕ → Bool
contains s x = elim (s.min_heap_idx x) [ some i ↦ true | none ↦ false ]

module _ (greater : ℕ → ℕ → Bool) (key : ℕ → ℕ)
    (by_key : (a b : ℕ) → greater a b ≡ ltb (key b) (key a)) (dead : ℕ → Bool) where
  -- What filling the hole with `e` leaves: a heap of the same size with `e` and what it held.
  pub record Filled (s : MinHeap) (e : ℕ) (t : MinHeap) : Type 0 where
    pub heap : IsHeapBut key dead t
    pub size : t.n ≡ s.n
    pub allocated : t.a ≡ s.a
    pub has : contains t e ≡ true
    pub others : (x : ℕ) → x ≢ e → contains t x ≡ contains s x

  fill :
      (s : MinHeap) (hole e : ℕ)
      → IsHollow key dead s hole e
      → (0 < hole → key (s.p (parent hole)) ≤ key e)
      → ((c : ℕ) → 0 < c → c < s.n → parent c ≡ hole → key e ≤ key (s.p c))
      → Filled s e (place s hole e)
  fill s hole e h above below = record {
    heap = place-IsHeap key dead s hole e h above below;
    size = refl;
    allocated = refl;
    has = ground arith;
    others = λ x d. ground arith;
  }

  moved :
      (s : MinHeap) (hole to e : ℕ) (t : MinHeap)
      → IsHollow key dead s hole e
      → to < s.n
      → to ≢ hole
      → Filled (place s hole (s.p to)) e t
      → Filled s e t
  moved s hole to e t h k ne f = record {
    heap = f.heap;
    size = f.size;
    allocated = f.allocated;
    has = f.has;
    others = λ x d. ground (arith, f.others x d, h.placed to);
  }

  -- Nothing under the hole is earlier than `e`.
  Floor : MinHeap → ℕ → ℕ → Type 0
  Floor s hole e = (c : ℕ) → 0 < c → c < s.n → parent c ≡ hole → key e ≤ key (s.p c)

  shift_up_loop-Filled :
      (fuel : ℕ) (s : MinHeap) (hole e : ℕ)
      → hole ≤ fuel
      → IsHollow key dead s hole e
      → Floor s hole e
      → Filled s e (shift_up_loop greater fuel s hole e)
  unfolding shift_up_loop Floor
  shift_up_loop-Filled zero s hole e k h below = fill s hole e h (λ pos. absurd (omega arith)) below
  shift_up_loop-Filled (suc fuel) s hole e k h below =
      let up = parent hole in
      elim (Bool-cases (not (hole == 0) && greater (s.p up) e)) [
        | inr stop ↦ rw stop (fill s hole e h (λ pos. ground (arith, by_key (s.p up) e)) below)
        | inl go ↦
            let pos : 0 < hole = ground arith in
            let later : key e < key (s.p up) = ground (arith, by_key (s.p up) e) in
            let hollow =
              move-IsHollow key dead s hole up e h (omega (arith, h.inside)) (omega arith)
                (λ c a b d f. ground (arith, h.ordered c, h.bridged c))
                (λ c a b d f. ground (arith, h.ordered c, h.ordered up)) in
            rw go (
              moved s hole up e _ h (omega (arith, h.inside)) (omega arith) (
                shift_up_loop-Filled fuel (place s hole (s.p up)) up e (omega arith) hollow
                  (λ c a b d. ground (arith, h.ordered c))))
      ]

  -- The child that min_heap_shift_down_ compares with is one, and no child is earlier.
  record IsChild (s : MinHeap) (hole m : ℕ) : Type 0 where
    inside : m < s.n
    below : 2 * hole < m
    child : parent m ≡ hole
    least : (c : ℕ) → 0 < c → c < s.n → parent c ≡ hole → key (s.p m) ≤ key (s.p c)

  min_child-IsChild :
      (s : MinHeap) (hole : ℕ) → 2 * (hole + 1) ≤ s.n → IsChild s hole (min_child greater s hole)
  unfolding min_child
  min_child-IsChild s hole k =
      let right = 2 * (hole + 1) in
      let order = by_key (s.p right) (s.p (right - 1)) in
      let pick = λ (c : ℕ) (e : parent c ≡ hole) (z : 0 < c).
        let two : (c ≡ right - 1) ⊎ (c ≡ right) = omega arith in two in
      elim (Bool-cases (right == s.n || greater (s.p right) (s.p (right - 1)))) [
        | inl left ↦ rw left (record {
          inside = omega arith;
          below = omega arith;
          child = omega arith;
          least = λ c a b d. elim (pick c d a) [
            | inl e ↦ rw e (omega arith)
            | inr e ↦ rw e (ground (arith, order))
          ];
        })
        | inr other ↦ rw other (record {
          inside = ground arith;
          below = omega arith;
          child = omega arith;
          least = λ c a b d. elim (pick c d a) [
            | inl e ↦ rw e (ground (arith, order))
            | inr e ↦ rw e (omega arith)
          ];
        })
      ]

  shift_down_loop-Filled :
      (fuel : ℕ) (s : MinHeap) (hole e : ℕ)
      → s.n ≤ hole + fuel
      → IsHollow key dead s hole e
      → (0 < hole → key (s.p (parent hole)) ≤ key e)
      → Filled s e (shift_down_loop greater fuel s hole e)
  unfolding shift_down_loop
  shift_down_loop-Filled zero s hole e k h above = absurd (omega (arith, h.inside))
  shift_down_loop-Filled (suc fuel) s hole e k h above =
      let m = min_child greater s hole in
      let order = by_key e (s.p m) in
      elim (Bool-cases (leb (2 * (hole + 1)) s.n && greater e (s.p m))) [
        | inr stop ↦ elim (Bool-cases (leb (2 * (hole + 1)) s.n)) [
          | inr leaf ↦ rw stop (fill s hole e h above (λ c a b d. absurd (ground arith)))
          | inl inner ↦
              let child = min_child-IsChild s hole (ground arith) in
              rw stop (fill s hole e h above (λ c a b d. ground (arith, order, child.least c)))
        ]
        | inl go ↦
            let child = min_child-IsChild s hole (ground arith) in
            let sooner : key (s.p m) < key e = ground (arith, order) in
            let hollow =
              move-IsHollow key dead s hole m e h child.inside (omega (arith, child.below))
                (λ c a b d f.
                  ground (arith, h.ordered c, h.bridged m, child.least c, child.child, child.below))
                (λ c a b d f. ground (arith, h.ordered c, child.child, child.below)) in
            rw go (
              moved s hole m e _ h child.inside (omega (arith, child.below)) (
                shift_down_loop-Filled fuel (place s hole (s.p m)) m e (omega (arith, child.below))
                  hollow (λ pos. ground (arith, child.child))))
      ]

  pub min_heap_shift_up-Filled :
      (s : MinHeap) (hole e : ℕ)
      → IsHollow key dead s hole e
      → ((c : ℕ) → 0 < c → c < s.n → parent c ≡ hole → key e ≤ key (s.p c))
      → Filled s e (min_heap_shift_up greater s hole e)
  unfolding min_heap_shift_up Floor
  min_heap_shift_up-Filled s hole e h below =
      shift_up_loop-Filled hole s hole e (omega arith) h below

  pub min_heap_shift_down-Filled :
      (s : MinHeap) (hole e : ℕ)
      → IsHollow key dead s hole e
      → (0 < hole → key (s.p (parent hole)) ≤ key e)
      → Filled s e (min_heap_shift_down greater s hole e)
  unfolding min_heap_shift_down
  min_heap_shift_down-Filled s hole e h above =
      shift_down_loop-Filled s.n s hole e (omega arith) h above
