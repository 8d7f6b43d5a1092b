-- ===== src/Buffer/Move/Split.antt =====
-- How evbuffer_remove_buffer cuts the source and finds the end of the destination.
use test_codes.Prelude.Memory.{slice}
use test_codes.Prelude.{
  ℕ, zero, suc, ◌+◌, ◌-◌, ◌≤◌, ◌<◌, ◌≡◌, ◌⊎◌, inl, inr, refl, sym, ap, ◌∙◌, Bool, true, false, ◌&&◌,
  List, [], ◌∷◌, ◌++◌, leb, ◌==◌, length, append_assoc, Bool-cases, Then, Then-bind, arith,
}
use test_codes.Buffer.{Chain, split_victims, evbuffer_chains_all_empty}
use test_codes.Buffer.Chains.{
  bytes, contents, size, AllFit, AllWritable, EndsIn, AtLast, EndsIn-AtLast, EndsIn-append,
  length-EndsIn, split_victims-EndsIn,
}
use test_codes.Buffer.Move.{Cut, cut_chains, lead_data, advance_last_with_data}

-- No chain, or chains that all have data.
unfoldable pub EndsOrNone : List Chain → Type 0
EndsOrNone [] = Unit
EndsOrNone (c ∷ cs) = EndsIn (length cs) (c ∷ cs)

EndsOrNone-cons : (c : Chain) (cs : List Chain) → 0 < c.off → EndsOrNone cs → EndsOrNone (c ∷ cs)
unfolding EndsOrNone EndsIn
EndsOrNone-cons c [] h e = h
EndsOrNone-cons c (d ∷ cs) h e = (h, e)

pub EndsOrNone-EndsIn : (cs : List Chain) → EndsOrNone cs → 0 < size cs → (m : ℕ) × EndsIn m cs
unfolding EndsOrNone size
EndsOrNone-EndsIn [] e h = absurd (omega arith)
EndsOrNone-EndsIn (c ∷ cs) e h = (length cs, e)

pub EndsOrNone-none : (cs : List Chain) → EndsOrNone cs → size cs ≡ 0 → cs ≡ []
unfolding EndsOrNone EndsIn size
EndsOrNone-none [] e h = refl
EndsOrNone-none (c ∷ []) e h = absurd (omega (arith, e))
EndsOrNone-none (c ∷ d ∷ cs) e h = absurd (omega (arith, e.0))

pub record IsCut (cs : List Chain) (n : ℕ) (r : Cut) : Type 0 where
  pub fits_moved : AllFit r.moved
  pub writable : AllWritable r.moved
  pub fits_rest : AllFit (r.head ∷ r.behind)
  pub moved_data : EndsOrNone r.moved
  pub at_last : EndsIn r.last_with_datap (r.head ∷ r.behind)
  pub inside : r.left < r.head.off
  pub content : contents cs ≡ contents r.moved ++ contents (r.head ∷ r.behind)
  pub count : size r.moved + r.left ≡ n
  pub sizes : size cs ≡ size r.moved + size (r.head ∷ r.behind)

stop-IsCut :
    (n : ℕ) (c : Chain) (cs : List Chain) (l : ℕ)
    → AllFit (c ∷ cs)
    → EndsIn l (c ∷ cs)
    → n < c.off
    → IsCut (c ∷ cs) n (record { moved = []; head = c; behind = cs; last_with_datap = l; left = n })
unfolding AllFit AllWritable EndsOrNone contents size
stop-IsCut n c cs l fits ends h = record {
  fits_moved = tt;
  writable = tt;
  fits_rest = fits;
  moved_data = tt;
  at_last = ends;
  inside = h;
  content = refl;
  count = omega arith;
  sizes = omega arith;
}

pub cut_chains-IsCut :
    (front : Bool) (n : ℕ) (cs : List Chain) (l : ℕ)
    → AllFit cs
    → AllWritable cs
    → EndsIn l cs
    → n < size cs
    → Then (IsCut cs n) (cut_chains front n cs l)
unfolding cut_chains EndsIn AllFit AllWritable size contents
cut_chains-IsCut front n [] l fits w ends h = absurd ends
cut_chains-IsCut front n (c ∷ []) zero fits w ends h =
    let part : leb c.off n ≡ false = ground arith in
    rw part (stop-IsCut n c [] zero fits ends (omega arith))
cut_chains-IsCut front n (c ∷ d ∷ cs) zero fits w ends h = absurd ends
cut_chains-IsCut front n (c ∷ cs) (suc l) fits w ends h = elim (Bool-cases (leb c.off n)) [
  | inr part ↦ rw part (stop-IsCut n c cs (suc l) fits ends (ground arith))
  | inl whole ↦
      let more : front && suc l == 0 ≡ false = ground arith in
      let before : suc l - 1 ≡ l = omega arith in
      rw (whole, more, before)
        (Then-bind _ _ (cut_chains false (n - c.off) cs l) _
          (cut_chains-IsCut false (n - c.off) cs l fits.1 w.1 ends.1 (ground arith))
          (λ r k. record {
            fits_moved = (fits.0, k.fits_moved);
            writable = (w.0, k.writable);
            fits_rest = k.fits_rest;
            moved_data = EndsOrNone-cons c r.moved ends.0 k.moved_data;
            at_last = k.at_last;
            inside = k.inside;
            content =
                ap (λ (t : List ℕ). bytes c ++ t) k.content
                ∙ sym (append_assoc (bytes c) (contents r.moved) (contents (r.head ∷ r.behind)));
            count = ground (arith, k.count);
            sizes = omega (arith, k.sizes);
          }))
]

lead_data-EndsIn : (m : ℕ) (cs : List Chain) → EndsIn m cs → lead_data cs ≡ suc m
unfolding lead_data EndsIn
lead_data-EndsIn m [] h = absurd h
lead_data-EndsIn zero (c ∷ []) h = ground arith
lead_data-EndsIn zero (c ∷ d ∷ cs) h = absurd h
lead_data-EndsIn (suc m) (c ∷ cs) h =
    let full : c.off == 0 ≡ false = ground arith in rw full (ap suc (lead_data-EndsIn m cs h.1))

pub advance-EndsIn :
    (l m : ℕ) (cs : List Chain) → EndsIn m cs → l ≤ m → advance_last_with_data l cs ≡ m
unfolding advance_last_with_data EndsIn lead_data
advance-EndsIn l m [] h k = absurd h
advance-EndsIn zero zero (c ∷ []) h k = refl
advance-EndsIn zero zero (c ∷ d ∷ cs) h k = absurd h
advance-EndsIn zero (suc m) (c ∷ cs) h k = lead_data-EndsIn m cs h.1
advance-EndsIn (suc l) zero cs h k = absurd (omega arith)
advance-EndsIn (suc l) (suc m) (c ∷ cs) h k = ap suc (advance-EndsIn l m cs h.1 (omega arith))

-- What evbuffer_free_trailing_empty_chains keeps holds all bytes.
pub record IsKept (l : ℕ) (cs : List Chain) (r : List Chain × List Chain) : Type 0 where
  pub kept_content : contents r.0 ≡ contents cs
  pub kept_size : size r.0 ≡ size cs
  pub kept_fits : AllFit r.0
  pub kept_data : ((r.0 ≡ []) × (l ≡ 0)) ⊎ EndsIn l r.0
  pub victims : evbuffer_chains_all_empty r.1 ≡ true

pub split_victims-IsKept :
    (l : ℕ) (cs : List Chain) → AllFit cs → AtLast l cs → IsKept l cs (split_victims l cs)
unfolding AllFit AtLast split_victims evbuffer_chains_all_empty contents size
split_victims-IsKept l [] fits at = record {
  kept_content = refl;
  kept_size = refl;
  kept_fits = tt;
  kept_data = inl (refl, at);
  victims = refl;
}
split_victims-IsKept zero (c ∷ []) fits at = elim (Bool-cases (c.off == 0)) [
  | inl empty ↦
      let zero_there : c.off ≡ 0 = ground arith in
      rw empty (record {
        kept_content = rw zero_there (unfold slice in refl);
        kept_size = omega arith;
        kept_fits = tt;
        kept_data = inl (refl, refl);
        victims = rw empty refl;
      })
  | inr full ↦ rw full (record {
    kept_content = refl;
    kept_size = refl;
    kept_fits = fits;
    kept_data = inr (unfold EndsIn in ground arith);
    victims = refl;
  })
]
split_victims-IsKept (suc l) (c ∷ []) fits at = absurd (omega (arith, at))
split_victims-IsKept l (c ∷ d ∷ cs) fits at = rw (split_victims-EndsIn l (c ∷ d ∷ cs) at) (record {
  kept_content = refl;
  kept_size = refl;
  kept_fits = fits;
  kept_data = inr at;
  victims = refl;
})

-- last_with_datap of the destination, once it has the chains.
pub advance-AtLast :
    (l : ℕ) (kept moved : List Chain)
    → ((kept ≡ []) × (l ≡ 0)) ⊎ EndsIn l kept
    → EndsOrNone moved
    → 0 < size moved
    → AtLast (advance_last_with_data l (kept ++ moved)) (kept ++ moved)
advance-AtLast l kept moved (inl (none_kept, start)) ends held =
    let (m, at) = EndsOrNone-EndsIn moved ends held in
    rw (none_kept, advance-EndsIn l m moved at (omega (arith, start))) (EndsIn-AtLast m moved at)
advance-AtLast l kept moved (inr k) ends held =
    let (m, at) = EndsOrNone-EndsIn moved ends held in
    let all = EndsIn-append l m kept moved k at in
    rw
      (advance-EndsIn l (length kept + m) (kept ++ moved) all
        (omega (arith, length-EndsIn l kept k)))
      (EndsIn-AtLast (length kept + m) (kept ++ moved) all)
