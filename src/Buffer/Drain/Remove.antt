-- ===== src/Buffer/Drain/Remove.antt =====
-- What evbuffer_drain and evbuffer_remove take off a buffer.
use test_codes.Prelude.{
  ℕ, ◌≡◌, refl, sym, ap, ◌∙◌, Bool, true, false, List, [], ◌∷◌, ◌++◌, Option, none, some, leb, ◌==◌,
  if◌then◌else◌, length, take, drop, min, length-take, take-min, drop-min, take-append-drop, ==_iff,
  if_intro, Then, Then-bind, arith,
}
use test_codes.Buffer.{Evbuffer}
use test_codes.Buffer.Chains.{contents, size, IsBuffer, Became, length-contents}
use test_codes.Buffer.Drain.{
  blocked, Drained, unchanged-Became, copy_chains-take, evbuffer_copyout, drain_copied,
  evbuffer_drain, evbuffer_remove, evbuffer_drain-Drained,
}

-- The results of evbuffer_copyout: -1, or bytes.
abbrev pub Copied : Evbuffer → ℕ → Option (List ℕ) → Type 0
Copied b n none = blocked b (min n (size b.chains)) ≡ true
Copied b n (some xs) =
    (blocked b (min n (size b.chains)) ≡ false) × (xs ≡ take n (contents b.chains))

evbuffer_copyout-Copied :
    (b : Evbuffer) (n : ℕ) → IsBuffer b → Then (Copied b n) (evbuffer_copyout b n)
unfolding evbuffer_copyout
evbuffer_copyout-Copied b n s =
    let k = if leb b.total_len n then b.total_len else n in
    let len_all = length-contents b.chains in
    let same : take k (contents b.chains) ≡ take n (contents b.chains) =
      take-min n k (contents b.chains) (ground (arith, s.total)) in
    if_intro (Then (Copied b n)) (k == 0)
      (λ nothing. (
        ground (arith, s.total, nothing),
        ap (λ m. take m (contents b.chains)) (sym (zero_lem nothing)) ∙ same,
      ))
      (λ something.
        if_intro (Then (Copied b n)) b.freeze_start
          (λ frozen. ground (arith, s.total, something, frozen))
          (λ thawed.
            rw (copy_chains-take k b.chains (ground (arith, s.total)))
              (ground (arith, thawed), same)))
  where
    zero_lem :
        (if leb b.total_len n then b.total_len else n) == 0 ≡ true
        → (if leb b.total_len n then b.total_len else n) ≡ 0
    zero_lem h = (==_iff _ 0).0 h

-- The results of evbuffer_remove.
abbrev pub RemovedBytes : Evbuffer → ℕ → Option (List ℕ) × Evbuffer → Type 0
RemovedBytes b n (none, c) = (c ≡ b) × (blocked b (min n (size b.chains)) ≡ true)
RemovedBytes b n (some xs, c) =
    (blocked b (min n (size b.chains)) ≡ false)
    × (xs ≡ take n (contents b.chains))
    × Became b (drop n (contents b.chains)) 0 (length xs) c

finish_remove :
    (b : Evbuffer) (n x : ℕ) (xs : List ℕ) (r : Bool × Evbuffer)
    → Copied b n (some (x ∷ xs))
    → Drained b (length (x ∷ xs)) r
    → RemovedBytes b n (if r.0 then none else some (x ∷ xs), r.1)
finish_remove b n x xs (true, c) (free, h) (same, held) =
    let len = ap length h ∙ length-take n (contents b.chains) in
    absurd (ground (arith, len, length-contents b.chains, free, held))
finish_remove b n x xs (false, c) (free, h) (thawed, d) =
    let len : length (x ∷ xs) ≡ min n (length (contents b.chains)) =
      ap length h ∙ length-take n (contents b.chains) in
    let gone : min (length (x ∷ xs)) (size b.chains) ≡ length (x ∷ xs) =
      omega (arith, len, length-contents b.chains) in
    (free, h, rw (drop-min n (length (x ∷ xs)) (contents b.chains) len, gone) at d)

drain_copied-RemovedBytes :
    (b : Evbuffer) (n : ℕ) (o : Option (List ℕ))
    → IsBuffer b
    → Copied b n o
    → Then (RemovedBytes b n) (drain_copied b o)
unfolding drain_copied
drain_copied-RemovedBytes b n none s h = (refl, h)
drain_copied-RemovedBytes b n (some []) s (free, h) = (
  free,
  h,
  unchanged-Became b _ _ s
      (sym (take-append-drop n (contents b.chains))
        ∙ ap (λ t. t ++ drop n (contents b.chains)) (sym h))
      refl,
)
drain_copied-RemovedBytes b n (some (x ∷ xs)) s h =
    Then-bind _ _ (evbuffer_drain b (length (x ∷ xs))) _
      (evbuffer_drain-Drained b (length (x ∷ xs)) s) (λ r d. finish_remove b n x xs r h d)

evbuffer_remove-RemovedBytes :
    (b : Evbuffer) (n : ℕ) → IsBuffer b → Then (RemovedBytes b n) (evbuffer_remove b n)
unfolding evbuffer_remove
evbuffer_remove-RemovedBytes b n s =
    Then-bind _ _ (evbuffer_copyout b n) _ (evbuffer_copyout-Copied b n s)
      (λ o h. drain_copied-RemovedBytes b n o s h)

-- On a well-formed buffer evbuffer_drain and evbuffer_remove meet no failed assertion. The first returns -1 exactly where
-- the front is frozen and the buffer is not empty, and changes nothing then; else the first `n` bytes, or all where there
-- are fewer, are gone, the buffer is well-formed, and the callbacks have heard how many. The second returns -1 exactly where
-- the front is frozen and there are bytes to take, and changes nothing then; else it returns the first `n` bytes, or all where
-- there are fewer, and drains just these in the same way.
pub Drained-RemovedBytes :
    (b : Evbuffer) (n : ℕ)
    → IsBuffer b
    → Then (Drained b n) (evbuffer_drain b n) × Then (RemovedBytes b n) (evbuffer_remove b n)
Drained-RemovedBytes b n s = (evbuffer_drain-Drained b n s, evbuffer_remove-RemovedBytes b n s)
