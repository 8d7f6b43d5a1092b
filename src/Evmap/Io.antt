-- ===== src/Evmap/Io.antt =====
-- The counts of evmap.c agree with the lists of events, after every evmap_io_add and evmap_io_del.
use test_codes.Prelude.{
  ℕ, zero, suc, ◌+◌, ◌*◌, ◌≤◌, ◌<◌, ◌≡◌, ◌≢◌, refl, sym, ◌∙◌, inl, inr, Bool, true, false, ◌||◌,
  List, [], ◌∷◌, ◌++◌, Option, none, some, ltb, leb, ◌==◌, if◌then◌else◌, Bool-cases, Option-cases,
  if_intro, arith,
}
use mathlib.Core.Path.{subst}
use test_codes.Event.{What}
use test_codes.Evmap.{
  EvmapIo, IoMap, Host, Call, Status, failed, unchanged, changed, crashed, update, remove,
  double_until, grown, evmap_make_space, evmap_io_init, evmap_io_initmap, get_slot_and_ctor, bit,
  commit_slot, slot_added, slot_removed, io_add_slot, io_add_at, evmap_io_add, io_del_slot,
  evmap_io_del,
}

-- How many events of a list have a flag, by the flag of each event.
unfoldable pub count : (ℕ → Bool) → List ℕ → ℕ
count f [] = 0
count f (x ∷ xs) = bit (f x) + count f xs

unfoldable pub contains : ℕ → List ℕ → Bool
contains e [] = false
contains e (x ∷ xs) = x == e || contains e xs

pub count-append :
    (f : ℕ → Bool) (xs : List ℕ) (e : ℕ) → count f (xs ++ e ∷ []) ≡ count f xs + bit (f e)
unfolding count
count-append f [] e = omega arith
count-append f (x ∷ xs) e = omega (arith, count-append f xs e)

pub count-remove :
    (f : ℕ → Bool) (xs : List ℕ) (e : ℕ)
    → contains e xs ≡ true
    → count f (remove e xs) + bit (f e) ≡ count f xs
unfolding count contains remove
count-remove f [] e h = cc
count-remove f (x ∷ xs) e h = elim (Bool-cases (x == e)) [
  | inl same ↦ rw same (let s : x ≡ e = ground arith in rw s (omega arith))
  | inr other ↦ rw other (ground (arith, count-remove f xs e))
]

pub unchanged-ne-crashed : unchanged ≢ crashed
unchanged-ne-crashed e = cc

pub changed-ne-crashed : changed ≢ crashed
changed-ne-crashed e = cc

pub failed-ne-crashed : failed ≢ crashed
failed-ne-crashed e = cc

module _ (what : ℕ → What) where
  -- The counts are those of the events in the list, and fit 16 bits.
  pub record IsSlot (ctx : EvmapIo) : Type 0 where
    pub readers : ctx.nread ≡ count (λ e. (what e).read) ctx.events
    pub writers : ctx.nwrite ≡ count (λ e. (what e).write) ctx.events
    pub nread_fits : ctx.nread ≤ 0xffff
    pub nwrite_fits : ctx.nwrite ≤ 0xffff

  pub record IsValid (m : IoMap) : Type 0 where
    pub slots : (fd : ℕ) (ctx : EvmapIo) → m.entries fd ≡ some ctx → IsSlot ctx
    pub beyond : (fd : ℕ) → m.nentries ≤ fd → m.entries fd ≡ none

  -- The map is valid, and the call did not crash.
  abbrev pub Good : Status × IoMap → Type 0
  Good r = IsValid r.1 × (r.0 ≢ crashed)

  init-IsSlot : IsSlot evmap_io_init
  unfolding count
  init-IsSlot = record {
    readers = refl;
    writers = refl;
    nread_fits = omega arith;
    nwrite_fits = omega arith;
  }

  put-IsValid :
      (m : IoMap) (fd : ℕ) (ctx : EvmapIo) (calls : List Call)
      → IsValid m
      → IsSlot ctx
      → fd < m.nentries
      → IsValid (record m { entries = update m.entries fd (some ctx); calls = calls })
  put-IsValid m fd ctx calls v s h = record {
    slots = λ j c e. elim (Bool-cases (fd == j)) [
      | inl same ↦ let w : ctx ≡ c = cc in subst IsSlot w s
      | inr other ↦ v.slots j c (rw other at e)
    ];
    beyond = λ j k. ground (arith, v.beyond j);
  }

  commit_slot-Good :
      (empty ok : Bool) (m : IoMap) (fd : ℕ) (ctx : EvmapIo) (call : Call)
      → IsValid m
      → IsSlot ctx
      → fd < m.nentries
      → Good (commit_slot empty ok m fd ctx call)
  unfolding commit_slot
  commit_slot-Good true ok m fd ctx call v s k =
      (put-IsValid m fd ctx m.calls v s k, unchanged-ne-crashed)
  commit_slot-Good false true m fd ctx call v s k =
      (put-IsValid m fd ctx (call ∷ m.calls) v s k, changed-ne-crashed)
  commit_slot-Good false false m fd ctx call v s k = (v, failed-ne-crashed)

  io_add_slot-Good :
      (h : Host) (m : IoMap) (fd ev : ℕ) (ctx : EvmapIo)
      → IsValid m
      → IsSlot ctx
      → fd < m.nentries
      → Good (io_add_slot h m fd ev (what ev) ctx)
  unfolding io_add_slot slot_added
  io_add_slot-Good h m fd ev ctx v s k =
      let ctx' = slot_added ctx ev (what ev) in
      elim (Bool-cases (ltb 0xffff ctx'.nread || ltb 0xffff ctx'.nwrite)) [
        | inl e ↦ rw e (v, failed-ne-crashed)
        | inr e ↦
            let s' : IsSlot ctx' = record {
              readers = omega (arith, count-append (λ e. (what e).read) ctx.events ev);
              writers = omega (arith, count-append (λ e. (what e).write) ctx.events ev);
              nread_fits = ground arith;
              nwrite_fits = ground arith;
            } in
            rw e (commit_slot-Good _ _ m fd ctx' _ v s' k)
      ]

  -- The assertions of evmap_io_del hold for an event that is in the list.
  io_del_slot-Good :
      (h : Host) (m : IoMap) (fd ev : ℕ) (ctx : EvmapIo)
      → IsValid m
      → IsSlot ctx
      → fd < m.nentries
      → contains ev ctx.events ≡ true
      → Good (io_del_slot h m fd ev (what ev) ctx)
  unfolding io_del_slot slot_removed
  io_del_slot-Good h m fd ev ctx v s k c =
      let reads = count-remove (λ e. (what e).read) ctx.events ev c in
      let writes = count-remove (λ e. (what e).write) ctx.events ev c in
      let s' : IsSlot (slot_removed ctx ev (what ev)) = record {
        readers = omega (arith, reads);
        writers = omega (arith, writes);
        nread_fits = omega arith;
        nwrite_fits = omega arith;
      } in
      elim (Bool-cases
        (ltb ctx.nread (bit (what ev).read) || ltb ctx.nwrite (bit (what ev).write))) [
          | inl e ↦ absurd (ground (arith, reads, writes))
          | inr e ↦ rw e (commit_slot-Good _ _ m fd _ _ v s' k)
        ]

  double_until-le :
      (fuel n slot : ℕ)
      → 1 ≤ n
      → slot < n + fuel
      → (slot < double_until fuel n slot) × (n ≤ double_until fuel n slot)
  unfolding double_until
  double_until-le zero n slot h k = omega arith
  double_until-le (suc fuel) n slot h k = ground (arith, double_until-le fuel (n * 2) slot)

  pub grown-lt : (n slot : ℕ) → n ≤ slot → (slot < grown n slot) × (n ≤ grown n slot)
  unfolding grown
  grown-lt n slot h = ground (arith, double_until-le slot (if n == 0 then 32 else n) slot)

  -- After evmap_make_space succeeds, the slot is in the array.
  pub evmap_make_space_lem :
      (h : Host) (m : IoMap) (slot : ℕ)
      → IsValid m
      → IsValid (evmap_make_space h m slot).1
        × ((evmap_make_space h m slot).0 ≡ true → slot < (evmap_make_space h m slot).1.nentries)
        × ((fd : ℕ) → (evmap_make_space h m slot).1.entries fd ≡ m.entries fd)
  unfolding evmap_make_space
  evmap_make_space_lem h m slot v =
      let Grown = λ (r : Bool × IoMap).
        IsValid r.1
        × (r.0 ≡ true → slot < r.1.nentries)
        × ((fd : ℕ) → r.1.entries fd ≡ m.entries fd) in
      let same : (fd : ℕ) → (if leb m.nentries fd then none else m.entries fd) ≡ m.entries fd =
        λ fd. ground (arith, v.beyond fd) in
      if_intro Grown (leb m.nentries slot)
        (λ small.
          let bound = grown-lt m.nentries slot (ground arith) in
          if_intro Grown h.realloc_ok
            (λ e. (
              record {
                slots = λ fd ctx f. v.slots fd ctx (sym (same fd) ∙ f);
                beyond = λ fd f. same fd ∙ v.beyond fd (omega (arith, bound));
              },
              λ f. bound.0,
              same,
            ))
            (λ e. (v, (λ f. cc), λ fd. refl)))
        (λ big. (v, (λ f. ground arith), λ fd. refl))

  io_add_at-Good :
      (h : Host) (fd ev : ℕ) (r : Bool × IoMap)
      → IsValid r.1
      → (r.0 ≡ true → fd < r.1.nentries)
      → Good (io_add_at h fd ev (what ev) r)
  unfolding io_add_at get_slot_and_ctor
  io_add_at-Good h fd ev (false, m) v k = (v, failed-ne-crashed)
  io_add_at-Good h fd ev (true, m) v k = elim (Option-cases (m.entries fd)) [
    | inl null ↦ elim (Bool-cases h.calloc_ok) [
      | inl got ↦
          rw (null, io_add_at, get_slot_and_ctor, got)
            (io_add_slot-Good h _ fd ev evmap_io_init
              (put-IsValid m fd evmap_io_init m.calls v init-IsSlot (k refl)) init-IsSlot (k refl))
      | inr no_memory ↦ rw (null, io_add_at, get_slot_and_ctor, no_memory) (v, failed-ne-crashed)
    ]
    | inr (ctx, there) ↦
        rw (there, io_add_at, get_slot_and_ctor)
          (io_add_slot-Good h m fd ev ctx v (v.slots fd ctx there) (k refl))
  ]

  -- evmap_io_add keeps every count equal to the number of events that it counts, and below 2 ^ 16,
  -- on each way out, the failures included, and it never crashes.
  pub evmap_io_add-Good :
      (h : Host) (m : IoMap) (fd : Option ℕ) (ev : ℕ)
      → IsValid m
      → Good (evmap_io_add h m fd ev (what ev))
  unfolding evmap_io_add
  evmap_io_add-Good h m none ev v = (v, unchanged-ne-crashed)
  evmap_io_add-Good h m (some fd) ev v =
      let (v', inside, same) = evmap_make_space_lem h m fd v in
      io_add_at-Good h fd ev (evmap_make_space h m fd) v' inside

  -- evmap_io_del does so too, for an event that is in the list of its descriptor: its assertions
  -- hold and it follows no null pointer.
  pub evmap_io_del-Good :
      (h : Host) (m : IoMap) (fd ev : ℕ) (ctx : EvmapIo)
      → IsValid m
      → m.entries fd ≡ some ctx
      → contains ev ctx.events ≡ true
      → Good (evmap_io_del h m (some fd) ev (what ev))
  unfolding evmap_io_del
  evmap_io_del-Good h m fd ev ctx v there c = elim (Bool-cases (leb m.nentries fd)) [
    | inl beyond ↦ rw beyond (v, failed-ne-crashed)
    | inr inside ↦
        rw (inside, there)
          (io_del_slot-Good h m fd ev ctx v (v.slots fd ctx there) (ground arith) c)
  ]

  -- What a program comes to by calls that add an event to its descriptor, or take one off that is in the
  -- list of it, from the map that evmap_io_initmap leaves; each call has its own answers of the host.
  pub data IoRuns : Status × IoMap → Type 0 where
    start : IoRuns (unchanged, evmap_io_initmap)
    added :
        {r : Status × IoMap} (h : Host) (fd : Option ℕ) (ev : ℕ)
        → IoRuns r
        → IoRuns (evmap_io_add h r.1 fd ev (what ev))
    deleted :
        {r : Status × IoMap} (h : Host) (fd ev : ℕ) (ctx : EvmapIo)
        → IoRuns r
        → r.1.entries fd ≡ some ctx
        → contains ev ctx.events ≡ true
        → IoRuns (evmap_io_del h r.1 (some fd) ev (what ev))

  pub evmap_io-Good : {r : Status × IoMap} → IoRuns r → Good r
  evmap_io-Good start = (
    record { slots = λ fd ctx e. absurd (ground arith); beyond = λ fd h. refl },
    unchanged-ne-crashed,
  )
  evmap_io-Good (added {r} h fd ev before) = evmap_io_add-Good h r.1 fd ev (evmap_io-Good before).0
  evmap_io-Good (deleted {r} h fd ev ctx before e c) =
      evmap_io_del-Good h r.1 fd ev ctx (evmap_io-Good before).0 e c
