-- ===== src/MinHeap/Order.antt =====
-- The heap order of minheap-internal.h, and the one edge that a hole leaves open.
use test_codes.Prelude.{ℕ, ◌≤◌, ◌<◌, ◌≡◌, ◌≢◌, Bool, false, some, arith}
use test_codes.MinHeap.{MinHeap, update, parent, place}

module _ (key : ℕ → ℕ) where
  -- Each event knows its place, and no parent is later than its child.
  pub record IsHeap (s : MinHeap) : Type 0 where
    pub placed : (i : ℕ) → i < s.n → s.min_heap_idx (s.p i) ≡ some i
    pub found_below : (e i : ℕ) → s.min_heap_idx e ≡ some i → i < s.n
    pub found_at : (e i : ℕ) → s.min_heap_idx e ≡ some i → s.p i ≡ e
    pub ordered : (c : ℕ) → 0 < c → c < s.n → key (s.p (parent c)) ≤ key (s.p c)

  -- The same, but for the index of events that are on their way out of the heap.
  pub record IsHeapBut (dead : ℕ → Bool) (s : MinHeap) : Type 0 where
    pub placed : (i : ℕ) → i < s.n → s.min_heap_idx (s.p i) ≡ some i
    pub alive : (i : ℕ) → i < s.n → dead (s.p i) ≡ false
    pub found_below : (e i : ℕ) → dead e ≡ false → s.min_heap_idx e ≡ some i → i < s.n
    pub found_at : (e i : ℕ) → dead e ≡ false → s.min_heap_idx e ≡ some i → s.p i ≡ e
    pub ordered : (c : ℕ) → 0 < c → c < s.n → key (s.p (parent c)) ≤ key (s.p c)

  -- And but for the hole, which is kept for `e`.
  pub record IsHollow (dead : ℕ → Bool) (s : MinHeap) (hole e : ℕ) : Type 0 where
    pub inside : hole < s.n
    pub coming : dead e ≡ false
    pub alive : (i : ℕ) → i < s.n → i ≢ hole → dead (s.p i) ≡ false
    pub placed : (i : ℕ) → i < s.n → i ≢ hole → s.min_heap_idx (s.p i) ≡ some i
    pub absent : (i : ℕ) → i < s.n → i ≢ hole → s.p i ≢ e
    pub found_below : (x i : ℕ) → x ≢ e → dead x ≡ false → s.min_heap_idx x ≡ some i → i < s.n
    pub found_off : (x i : ℕ) → x ≢ e → dead x ≡ false → s.min_heap_idx x ≡ some i → i ≢ hole
    pub found_at : (x i : ℕ) → x ≢ e → dead x ≡ false → s.min_heap_idx x ≡ some i → s.p i ≡ x
    pub ordered :
        (c : ℕ) → 0 < c → c < s.n → c ≢ hole → parent c ≢ hole → key (s.p (parent c)) ≤ key (s.p c)
    pub bridged :
        (c : ℕ)
        → 0 < c
        → c < s.n
        → parent c ≡ hole
        → 0 < hole
        → key (s.p (parent hole)) ≤ key (s.p c)

  -- A hole is filled where the order allows it.
  pub place-IsHeap :
      (dead : ℕ → Bool) (s : MinHeap) (hole e : ℕ)
      → IsHollow dead s hole e
      → (0 < hole → key (s.p (parent hole)) ≤ key e)
      → ((c : ℕ) → 0 < c → c < s.n → parent c ≡ hole → key e ≤ key (s.p c))
      → IsHeapBut dead (place s hole e)
  place-IsHeap dead s hole e h above below = record {
    alive = λ i k. ground (arith, h.alive i, h.coming);
    placed = λ i k. ground (arith, h.placed i, h.absent i);
    found_below = λ x i d f. ground (arith, h.found_below x i, h.inside);
    found_at = λ x i d f. ground (arith, h.found_at x i, h.found_off x i);
    ordered = λ c pos k. ground (arith, h.ordered c, above, below c);
  }

  -- The hole moves to `to`, a neighbour, whose event fills it.
  pub move-IsHollow :
      (dead : ℕ → Bool) (s : MinHeap) (hole to e : ℕ)
      → IsHollow dead s hole e
      → to < s.n
      → to ≢ hole
      → ((c : ℕ)
          → 0 < c
          → c < s.n
          → c ≢ to
          → parent c ≢ to
          → key (update s.p hole (s.p to) (parent c)) ≤ key (update s.p hole (s.p to) c))
      → ((c : ℕ)
          → 0 < c
          → c < s.n
          → parent c ≡ to
          → 0 < to
          → key (update s.p hole (s.p to) (parent to)) ≤ key (update s.p hole (s.p to) c))
      → IsHollow dead (place s hole (s.p to)) to e
  move-IsHollow dead s hole to e h k ne ordered bridged = record {
    inside = k;
    coming = h.coming;
    alive = λ i l m. ground (arith, h.alive i, h.alive to);
    placed = λ i l m. ground (arith, h.placed i, h.placed to);
    absent = λ i l m. ground (arith, h.absent i, h.absent to);
    found_below = λ x i d g f. ground (arith, h.found_below x i, h.inside);
    found_off = λ x i d g f. ground (arith, h.found_at x i, h.found_off x i);
    found_at = λ x i d g f. ground (arith, h.found_at x i, h.found_off x i);
    ordered = ordered;
    bridged = bridged;
  }
