-- ===== src/Buffer/Chains.antt =====
-- The bytes of an evbuffer and its well-formedness, and evbuffer_chain_insert on a well-formed one.
use test_codes.Prelude.Memory.{length-slice, slice}
use test_codes.Prelude.{
  ℕ, zero, suc, ◌+◌, ◌-◌, ◌*◌, ◌≤◌, ◌<◌, ◌≡◌, inl, inr, refl, sym, ap, ◌∙◌, true, false, not, ◌&&◌,
  List, [], ◌∷◌, ◌++◌, Option, none, some, leb, ◌==◌, if◌then◌else◌, length, length-append,
  append-nil, append_assoc, Bool-cases, arith, Then,
}
use test_codes.Buffer.{
  double_alloc, Chain, Info, Evbuffer, Malloc, evbuffer_chain_size, min_buffer_size,
  evbuffer_chain_new, evbuffer_chains_all_empty, split_victims, replace_victims,
  evbuffer_chain_insert, evbuffer_invoke_callbacks,
}

double_alloc_lem :
    (fuel to_alloc size : ℕ)
    → 0 < to_alloc
    → size ≤ to_alloc + fuel
    → size ≤ double_alloc fuel to_alloc size
unfolding double_alloc
double_alloc_lem zero to_alloc size pos h = omega arith
double_alloc_lem (suc fuel) to_alloc size pos h =
    ground (arith, double_alloc_lem fuel (to_alloc * 2) size)

abbrev pub bytes : Chain → List ℕ
bytes c = slice c.buffer c.misalign c.off

unfoldable pub contents : List Chain → List ℕ
contents [] = []
contents (c ∷ cs) = bytes c ++ contents cs

unfoldable pub size : List Chain → ℕ
size [] = 0
size (c ∷ cs) = c.off + size cs

pub length-contents : (cs : List Chain) → length (contents cs) ≡ size cs
unfolding contents size
length-contents [] = refl
length-contents (c ∷ cs) = omega (
  arith,
  length-append (bytes c) (contents cs),
  length-slice c.buffer c.misalign c.off,
  length-contents cs,
)

pub contents-append : (xs ys : List Chain) → contents (xs ++ ys) ≡ contents xs ++ contents ys
unfolding contents
contents-append [] ys = refl
contents-append (c ∷ xs) ys =
    rw (contents-append xs ys) (sym (append_assoc (bytes c) (contents xs) (contents ys)))

pub size-append : (xs ys : List Chain) → size (xs ++ ys) ≡ size xs + size ys
unfolding size
size-append [] ys = omega arith
size-append (c ∷ xs) ys = omega (arith, size-append xs ys)

-- The data of a chain lies in its memory.
abbrev pub Fits : Chain → Type 0
Fits c = c.misalign + c.off ≤ c.buffer_len

unfoldable pub AllFit : List Chain → Type 0
AllFit [] = Unit
AllFit (c ∷ cs) = Fits c × AllFit cs

pub AllFit-append : (xs ys : List Chain) → AllFit xs → AllFit ys → AllFit (xs ++ ys)
unfolding AllFit
AllFit-append [] ys f g = g
AllFit-append (c ∷ xs) ys f g = (f.0, AllFit-append xs ys f.1 g)

-- No chain is immutable, as evbuffer_add_reference and evbuffer_add_file make them.
unfoldable pub AllWritable : List Chain → Type 0
AllWritable [] = Unit
AllWritable (c ∷ cs) = (c.immutable ≡ false) × AllWritable cs

-- The chain at `l` is the last one, and every chain has data.
unfoldable pub EndsIn : ℕ → List Chain → Type 0
EndsIn l [] = ⊥
EndsIn zero (c ∷ []) = 0 < c.off
EndsIn zero (c ∷ d ∷ cs) = ⊥
EndsIn (suc l) (c ∷ cs) = (0 < c.off) × EndsIn l cs

-- last_with_datap points to the last chain, and every chain has data, but for one that stands alone:
-- no chain that evbuffer_expand adds in advance stands behind the data.
unfoldable pub AtLast : ℕ → List Chain → Type 0
AtLast l [] = l ≡ 0
AtLast l (c ∷ []) = l ≡ 0
AtLast l (c ∷ d ∷ cs) = EndsIn l (c ∷ d ∷ cs)

-- A buffer between two calls.
pub record IsBuffer (b : Evbuffer) : Type 0 where
  pub fits : AllFit b.chains
  pub total : b.total_len ≡ size b.chains
  pub at_last : AtLast b.last_with_datap b.chains
  pub no_add : b.n_add_for_cb ≡ 0
  pub no_del : b.n_del_for_cb ≡ 0

pub EndsIn-AtLast : (l : ℕ) (cs : List Chain) → EndsIn l cs → AtLast l cs
unfolding EndsIn AtLast
EndsIn-AtLast l [] h = absurd h
EndsIn-AtLast zero (c ∷ []) h = refl
EndsIn-AtLast (suc l) (c ∷ []) h = absurd h.1
EndsIn-AtLast l (c ∷ d ∷ cs) h = h

pub EndsIn-append :
    (l k : ℕ) (cs ds : List Chain) → EndsIn l cs → EndsIn k ds → EndsIn (length cs + k) (cs ++ ds)
unfolding EndsIn
EndsIn-append l k [] ds h g = absurd h
EndsIn-append zero k (c ∷ []) ds h g = let e : 1 + k ≡ suc k = omega arith in rw e (h, g)
EndsIn-append zero k (c ∷ d ∷ cs) ds h g = absurd h
EndsIn-append (suc l) k (c ∷ cs) ds h g =
    let e : suc (length cs) + k ≡ suc (length cs + k) = omega arith in
    rw e (h.0, EndsIn-append l k cs ds h.1 g)

pub EndsIn-snoc :
    (l : ℕ) (cs : List Chain) (c : Chain)
    → EndsIn l cs
    → 0 < c.off
    → EndsIn (length cs) (cs ++ c ∷ [])
EndsIn-snoc l cs c h g =
    let e : length cs + 0 ≡ length cs = omega arith in
    rw e at (EndsIn-append l 0 cs (c ∷ []) h (unfold EndsIn in g))

-- A buffer with data.
pub AtLast-EndsIn : (l : ℕ) (cs : List Chain) → AtLast l cs → 0 < size cs → EndsIn l cs
unfolding AtLast size EndsIn
AtLast-EndsIn l [] h k = absurd (omega arith)
AtLast-EndsIn zero (c ∷ []) h k = omega arith
AtLast-EndsIn (suc l) (c ∷ []) h k = absurd (omega (arith, h))
AtLast-EndsIn l (c ∷ d ∷ cs) h k = h

pub length-EndsIn : (l : ℕ) (cs : List Chain) → EndsIn l cs → length cs ≡ suc l
unfolding EndsIn
length-EndsIn l [] h = absurd h
length-EndsIn zero (c ∷ []) h = refl
length-EndsIn zero (c ∷ d ∷ cs) h = absurd h
length-EndsIn (suc l) (c ∷ cs) h = ap suc (length-EndsIn l cs h.1)

pub split_victims-EndsIn : (l : ℕ) (cs : List Chain) → EndsIn l cs → split_victims l cs ≡ (cs, [])
unfolding EndsIn split_victims
split_victims-EndsIn l [] h = absurd h
split_victims-EndsIn zero (c ∷ []) h = let full : c.off == 0 ≡ false = ground arith in rw full refl
split_victims-EndsIn zero (c ∷ d ∷ cs) h = absurd h
split_victims-EndsIn (suc l) (c ∷ cs) h = rw (split_victims-EndsIn l cs h.1) refl

-- What a call has told the callbacks: nothing, if it changed nothing.
abbrev pub told : Evbuffer → ℕ → ℕ → ℕ → List Info
told b orig added deleted =
    if b.has_callbacks && not (added == 0 && deleted == 0)
    then record { orig_size = orig; n_added = added; n_deleted = deleted } ∷ []
    else []

-- The buffer after a call that has left these bytes, and has told its callbacks what it did.
pub record Became (b : Evbuffer) (xs : List ℕ) (added deleted : ℕ) (c : Evbuffer) : Type 0 where
  pub is_buffer : IsBuffer c
  pub content : contents c.chains ≡ xs
  pub reported : c.reports ≡ b.reports ++ told b (size b.chains) added deleted
  pub same_callbacks : c.has_callbacks ≡ b.has_callbacks
  pub same_freeze_start : c.freeze_start ≡ b.freeze_start
  pub same_freeze_end : c.freeze_end ≡ b.freeze_end

-- A chain that evbuffer_chain_new makes is empty and has the room that was asked for.
pub record IsFresh (n : ℕ) (c : Chain) : Type 0 where
  pub at_start : c.misalign ≡ 0
  pub empty : c.off ≡ 0
  pub room : n ≤ c.buffer_len
  pub writable : c.immutable ≡ false

abbrev pub FreshOrNone : Malloc → ℕ → Option Chain → Type 0
FreshOrNone m n none = m ≡ none
FreshOrNone m n (some c) = IsFresh n c

pub evbuffer_chain_new-Fresh : (m : Malloc) (n : ℕ) → FreshOrNone m n (evbuffer_chain_new m n)
unfolding evbuffer_chain_new
evbuffer_chain_new-Fresh none n = refl
evbuffer_chain_new-Fresh (some mem) n = record {
  at_start = refl;
  empty = refl;
  room = omega (
    arith,
    double_alloc_lem (n + evbuffer_chain_size) min_buffer_size (n + evbuffer_chain_size)
        (omega arith) (omega arith),
  );
  writable = refl;
}

-- What evbuffer_chain_insert does to the buffer.
pub record Inserted (b : Evbuffer) (chain : Chain) (c : Evbuffer) : Type 0 where
  pub content : contents c.chains ≡ contents b.chains ++ bytes chain
  pub sizes : size c.chains ≡ size b.chains + chain.off
  pub fits : AllFit c.chains
  pub at_last : AtLast c.last_with_datap c.chains
  pub rest : c ≡ record b {
    chains = c.chains;
    last_with_datap = c.last_with_datap;
    total_len = b.total_len + chain.off;
  }

append-Inserted :
    (b : Evbuffer) (chain : Chain) (l : ℕ)
    → AllFit b.chains
    → EndsIn l b.chains
    → b.last_with_datap ≡ l
    → Fits chain
    → 0 < chain.off
    → Then (Inserted b chain) (evbuffer_chain_insert b chain)
unfolding evbuffer_chain_insert replace_victims
append-Inserted b chain l fits ends at fit held =
    let long : leb (length b.chains) b.last_with_datap ≡ false =
      ground (arith, length-EndsIn l b.chains ends) in
    let split : split_victims b.last_with_datap b.chains ≡ (b.chains, []) =
      rw at (split_victims-EndsIn l b.chains ends) in
    let full : chain.off == 0 ≡ false = ground arith in
    rw (long, split, full)
      (record {
        content =
            contents-append b.chains (chain ∷ [])
            ∙ ap (λ (t : List ℕ). contents b.chains ++ t)
                (unfold contents in append-nil (bytes chain));
        sizes = size-append b.chains (chain ∷ []) ∙ (unfold size in omega arith);
        fits = AllFit-append b.chains (chain ∷ []) fits (unfold AllFit in (fit, tt));
        at_last =
            EndsIn-AtLast (length b.chains) (b.chains ++ chain ∷ [])
              (EndsIn-snoc l b.chains chain ends held);
        rest = refl;
      })

-- A chain with data goes behind the data of the buffer; an empty chain that stands alone is freed.
insert_cases :
    (b : Evbuffer) (chain : Chain) (l : ℕ) (cs : List Chain)
    → b.chains ≡ cs
    → b.last_with_datap ≡ l
    → AllFit cs
    → AtLast l cs
    → Fits chain
    → 0 < chain.off
    → Then (Inserted b chain) (evbuffer_chain_insert b chain)
unfolding AtLast evbuffer_chain_insert split_victims replace_victims evbuffer_chains_all_empty
insert_cases b chain l [] same at fits last fit held =
    rw (same, at, last)
      (record {
        content = unfold contents in append-nil (bytes chain);
        sizes = unfold size in omega arith;
        fits = unfold AllFit in (fit, tt);
        at_last = refl;
        rest = refl;
      })
insert_cases b chain l (c ∷ []) same at fits last fit held = elim (Bool-cases (c.off == 0)) [
  | inr full ↦
      append-Inserted b chain zero (rw same fits) (rw same (unfold EndsIn in ground arith))
        (at ∙ last) fit held
  | inl empty ↦
      let none_there : c.off ≡ 0 = ground arith in
      let no_bytes : bytes c ≡ [] = rw none_there (unfold slice in refl) in
      let zero_there : b.last_with_datap ≡ 0 = at ∙ last in
      let long : leb (length b.chains) b.last_with_datap ≡ false = rw (same, zero_there) refl in
      let split : split_victims b.last_with_datap b.chains ≡ ([], c ∷ []) =
        rw (same, zero_there) (rw empty refl) in
      let all_empty : evbuffer_chains_all_empty (c ∷ []) ≡ true = rw empty refl in
      rw (long, split, all_empty)
        (record {
          content = unfold contents in rw same (rw no_bytes (append-nil (bytes chain)));
          sizes = unfold size in rw same (omega arith);
          fits = unfold AllFit in (fit, tt);
          at_last = zero_there;
          rest = refl;
        })
]
insert_cases b chain l (c ∷ d ∷ cs) same at fits last fit held =
    append-Inserted b chain l (rw same fits) (rw same last) at fit held

pub evbuffer_chain_insert-Inserted :
    (b : Evbuffer) (chain : Chain)
    → AllFit b.chains
    → AtLast b.last_with_datap b.chains
    → Fits chain
    → 0 < chain.off
    → Then (Inserted b chain) (evbuffer_chain_insert b chain)
evbuffer_chain_insert-Inserted b chain fits last fit held =
    insert_cases b chain b.last_with_datap b.chains refl refl fits last fit held

-- The buffer after a call, before it invokes the callbacks.
pub record Changed (b : Evbuffer) (xs : List ℕ) (added deleted : ℕ) (c : Evbuffer) : Type 0 where
  pub fits : AllFit c.chains
  pub total : c.total_len ≡ size c.chains
  pub at_last : AtLast c.last_with_datap c.chains
  pub content : contents c.chains ≡ xs
  pub n_add : c.n_add_for_cb ≡ added
  pub n_del : c.n_del_for_cb ≡ deleted
  pub balance : size c.chains + deleted ≡ size b.chains + added
  pub reports : c.reports ≡ b.reports
  pub same_callbacks : c.has_callbacks ≡ b.has_callbacks
  pub same_freeze_start : c.freeze_start ≡ b.freeze_start
  pub same_freeze_end : c.freeze_end ≡ b.freeze_end

pub evbuffer_invoke_callbacks-Became :
    (b c : Evbuffer) (xs : List ℕ) (added deleted : ℕ)
    → Changed b xs added deleted c
    → Became b xs added deleted (evbuffer_invoke_callbacks c)
unfolding evbuffer_invoke_callbacks
evbuffer_invoke_callbacks-Became b c xs added deleted h =
    let orig : c.total_len + c.n_del_for_cb - c.n_add_for_cb ≡ size b.chains =
      omega (arith, h.total, h.n_add, h.n_del, h.balance) in
    let test : c.has_callbacks && not (c.n_add_for_cb == 0 && c.n_del_for_cb == 0)
        ≡ b.has_callbacks && not (added == 0 && deleted == 0) =
      rw (h.same_callbacks, h.n_add, h.n_del) refl in
    elim (Bool-cases (b.has_callbacks && not (added == 0 && deleted == 0))) [
      | inl tells ↦ rw (test ∙ tells) (record {
        is_buffer = record {
          fits = h.fits;
          total = h.total;
          at_last = h.at_last;
          no_add = refl;
          no_del = refl;
        };
        content = h.content;
        reported = rw (orig, h.n_add, h.n_del, h.reports, tells) refl;
        same_callbacks = h.same_callbacks;
        same_freeze_start = h.same_freeze_start;
        same_freeze_end = h.same_freeze_end;
      })
      | inr quiet ↦ rw (test ∙ quiet) (record {
        is_buffer = record {
          fits = h.fits;
          total = h.total;
          at_last = h.at_last;
          no_add = refl;
          no_del = refl;
        };
        content = h.content;
        reported = rw quiet (h.reports ∙ sym (append-nil b.reports));
        same_callbacks = h.same_callbacks;
        same_freeze_start = h.same_freeze_start;
        same_freeze_end = h.same_freeze_end;
      })
    ]
