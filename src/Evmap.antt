-- ===== src/Evmap.antt =====
-- The map from file descriptors to events of codes/libevent-2.0.21-stable/evmap.c, built as an
-- array (EVMAP_USE_HT is for Windows), with event debug mode off.
-- An event is a number, and `what` gives its ev_events. A `struct evmap_io *` that is NULL is `none`.
pub mod Io
pub mod Sync
pub mod Signal
pub mod Changelist
mod Examples
use test_codes.Prelude.{
  ℕ, zero, suc, ◌+◌, ◌-◌, ◌*◌, ◌<◌, Bool, true, false, ◌&&◌, ◌||◌, List, [], ◌∷◌, ◌++◌, Option,
  none, some, ltb, leb, ◌==◌, if◌then◌else◌,
}
use test_codes.Event.{What, no_events, or_what, is_empty}

-- `struct evmap_io`; `fds` in `struct event_signal_map` share the array code.
pub record EvmapIo : Type 0 where
  pub events : List ℕ
  pub nread : ℕ
  pub nwrite : ℕ

-- A call `evsel->add(base, fd, old, events, extra)` or `evsel->del(...)` that succeeded.
pub record Call : Type 0 where
  pub adding : Bool
  pub fd : ℕ
  pub old : What
  pub events : What

-- `struct event_io_map`, with the successful calls of the backend, the last one first.
pub record IoMap : Type 0 where
  pub nentries : ℕ
  pub entries : ℕ → Option EvmapIo
  pub calls : List Call

-- What the allocator and the backend answer.
pub record Host : Type 0 where
  pub realloc_ok : Bool
  pub calloc_ok : Bool
  pub add_ok : ℕ → What → What → Bool
  pub del_ok : ℕ → What → What → Bool

-- The results -1, 0 and 1, and an assertion that fails or a null pointer that is followed.
pub data Status : Type 0 where
  failed unchanged changed crashed : Status

abbrev pub update {ℓ} : {A : Type ℓ} → (ℕ → A) → ℕ → A → ℕ → A
update f i v j = if i == j then v else f j

-- TAILQ_REMOVE, on a list in which the event stands once.
unfoldable pub remove : ℕ → List ℕ → List ℕ
remove e [] = []
remove e (x ∷ xs) = if x == e then xs else x ∷ remove e xs

-- `while (nentries <= slot) nentries <<= 1;`
pub double_until : ℕ → ℕ → ℕ → ℕ
double_until zero nentries slot = nentries
double_until (suc fuel) nentries slot =
    let rest = double_until fuel (nentries * 2) slot in if leb nentries slot then rest else nentries

-- The new number of entries: each round of the loop adds 32 at least, so `slot` rounds are enough.
pub grown : ℕ → ℕ → ℕ
grown nentries slot = double_until slot (if nentries == 0 then 32 else nentries) slot

-- evmap_make_space: entries past the old end become NULL.
unfoldable pub evmap_make_space : Host → IoMap → ℕ → Bool × IoMap
unfolding grown
evmap_make_space h m slot =
    if leb m.nentries slot
    then if h.realloc_ok
      then (
        true,
        record m {
          nentries = grown m.nentries slot;
          entries = λ i. if leb m.nentries i then none else m.entries i;
        },
      )
      else (false, m)
    else (true, m)

-- evmap_io_init
abbrev pub evmap_io_init : EvmapIo
evmap_io_init = record { events = []; nread = 0; nwrite = 0 }

-- evmap_io_initmap
abbrev pub evmap_io_initmap : IoMap
evmap_io_initmap = record { nentries = 0; entries = λ fd. none; calls = [] }

-- GET_IO_SLOT_AND_CTOR: `none` where mm_calloc fails.
unfoldable pub get_slot_and_ctor : Host → IoMap → ℕ → Option (EvmapIo × IoMap)
get_slot_and_ctor h m fd = elim (m.entries fd) [
  | some ctx ↦ some (ctx, m)
  | none ↦
      if h.calloc_ok
      then some (evmap_io_init, record m { entries = update m.entries fd (some evmap_io_init) })
      else none
]

-- `if (nread) old |= EV_READ; if (nwrite) old |= EV_WRITE;`
abbrev pub watched : EvmapIo → What
watched ctx = record no_events { read = ltb 0 ctx.nread; write = ltb 0 ctx.nwrite }

abbrev pub bit : Bool → ℕ
bit true = 1
bit false = 0

-- The end of evmap_io_add and of evmap_io_del: `if (res)`, the call to the backend with its answer
-- `ok`, and the new slot. `calls` grows by a call that succeeds.
unfoldable pub commit_slot : Bool → Bool → IoMap → ℕ → EvmapIo → Call → Status × IoMap
commit_slot true ok m fd ctx call =
    (unchanged, record m { entries = update m.entries fd (some ctx) })
commit_slot false true m fd ctx call =
    (changed, record m { entries = update m.entries fd (some ctx); calls = call ∷ m.calls })
commit_slot false false m fd ctx call = (failed, m)

-- What the slot of `fd` is with the event in it, and `res`, what the backend has to watch anew.
unfoldable pub slot_added : EvmapIo → ℕ → What → EvmapIo
slot_added ctx ev what = record {
  events = ctx.events ++ (ev ∷ []);
  nread = ctx.nread + bit what.read;
  nwrite = ctx.nwrite + bit what.write;
}

unfoldable pub newly_watched : EvmapIo → What → What
newly_watched ctx what = record no_events {
  read = what.read && ctx.nread + bit what.read == 1;
  write = what.write && ctx.nwrite + bit what.write == 1;
}

-- evmap_io_add from `nread = ctx->nread` on.
unfoldable pub io_add_slot : Host → IoMap → ℕ → ℕ → What → EvmapIo → Status × IoMap
unfolding commit_slot slot_added newly_watched
io_add_slot h m fd ev what ctx =
    let ctx' = slot_added ctx ev what in
    let res = newly_watched ctx what in
    let events = record res { et = what.et } in
    let call : Call = record { adding = true; fd = fd; old = watched ctx; events = events } in
    if ltb 0xffff ctx'.nread || ltb 0xffff ctx'.nwrite
    then (failed, m)
    else commit_slot (is_empty res) (h.add_ok fd (watched ctx) events) m fd ctx' call

-- What follows evmap_make_space.
unfoldable pub io_add_at : Host → ℕ → ℕ → What → Bool × IoMap → Status × IoMap
unfolding get_slot_and_ctor io_add_slot
io_add_at h fd ev what (false, m) = (failed, m)
io_add_at h fd ev what (true, m) = elim (get_slot_and_ctor h m fd) [
  | none ↦ (failed, m)
  | some (ctx, m') ↦ io_add_slot h m' fd ev what ctx
]

-- evmap_io_add. A negative descriptor is `none`.
unfoldable pub evmap_io_add : Host → IoMap → Option ℕ → ℕ → What → Status × IoMap
unfolding evmap_make_space io_add_at
evmap_io_add h m none ev what = (unchanged, m)
evmap_io_add h m (some fd) ev what = io_add_at h fd ev what (evmap_make_space h m fd)

unfoldable pub slot_removed : EvmapIo → ℕ → What → EvmapIo
unfolding remove
slot_removed ctx ev what = record {
  events = remove ev ctx.events;
  nread = ctx.nread - bit what.read;
  nwrite = ctx.nwrite - bit what.write;
}

unfoldable pub no_longer_watched : EvmapIo → What → What
no_longer_watched ctx what = record no_events {
  read = what.read && ctx.nread - bit what.read == 0;
  write = what.write && ctx.nwrite - bit what.write == 0;
}

-- evmap_io_del from `nread = ctx->nread` on. The assertions `nread >= 0` and `nwrite >= 0` fail where
-- there is nothing to count down.
unfoldable pub io_del_slot : Host → IoMap → ℕ → ℕ → What → EvmapIo → Status × IoMap
unfolding commit_slot slot_removed no_longer_watched
io_del_slot h m fd ev what ctx =
    let res = no_longer_watched ctx what in
    let call : Call = record { adding = false; fd = fd; old = watched ctx; events = res } in
    if ltb ctx.nread (bit what.read) || ltb ctx.nwrite (bit what.write)
    then (crashed, m)
    else commit_slot (is_empty res) (h.del_ok fd (watched ctx) res) m fd (slot_removed ctx ev what)
        call

unfoldable pub evmap_io_del : Host → IoMap → Option ℕ → ℕ → What → Status × IoMap
unfolding io_del_slot
evmap_io_del h m none ev what = (unchanged, m)
evmap_io_del h m (some fd) ev what =
    if leb m.nentries fd
    then (failed, m)
    else elim (m.entries fd) [ none ↦ (crashed, m) | some ctx ↦ io_del_slot h m fd ev what ctx ]
