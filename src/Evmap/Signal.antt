-- ===== src/Evmap/Signal.antt =====
-- The signal half of codes/libevent-2.0.21-stable/evmap.c: which signals the backend watches.
use test_codes.Prelude.{
  ℕ, ◌≤◌, ◌≡◌, refl, Bool, true, false, not, List, [], ◌∷◌, ◌++◌, Option, none, some, leb, ◌==◌,
  if◌then◌else◌,
}
use test_codes.Evmap.{Status, failed, unchanged, changed, crashed, update, remove, grown}
use test_codes.Evmap.Io.{contains}

-- `struct event_signal_map`, where an entry is the list of a `struct evmap_signal`, with the calls
-- of `evsigsel` that succeeded, the last one first: whether it was `add`, and the signal.
pub record SignalMap : Type 0 where
  pub nentries : ℕ
  pub entries : ℕ → Option (List ℕ)
  pub calls : List (Bool × ℕ)

abbrev pub evmap_signal_initmap : SignalMap
evmap_signal_initmap = record { nentries = 0; entries = λ sig. none; calls = [] }

-- What the allocator and `evsigsel` answer.
pub record SignalHost : Type 0 where
  pub realloc_ok : Bool
  pub calloc_ok : Bool
  pub add_ok : ℕ → Bool
  pub del_ok : ℕ → Bool

abbrev pub is_nil : List ℕ → Bool
is_nil [] = true
is_nil (x ∷ xs) = false

-- `TAILQ_FIRST(l) == TAILQ_LAST(l)`: no element, or one.
abbrev pub at_most_one : List ℕ → Bool
at_most_one [] = true
at_most_one (x ∷ xs) = is_nil xs

-- evmap_make_space, on the array of signals.
unfoldable pub make_signal_space : SignalHost → SignalMap → ℕ → Bool × SignalMap
unfolding grown
make_signal_space h m slot =
    if leb m.nentries slot
    then if h.realloc_ok
      then (
        true,
        record m {
          nentries = grown m.nentries slot;
          entries = λ i. if leb m.nentries i then none else m.entries i;
        },
      )
      else (false, m)
    else (true, m)

unfoldable pub put : SignalMap → ℕ → List ℕ → SignalMap
put m sig events = record m { entries = update m.entries sig (some events) }

-- The rest of evmap_signal_add, from `if (TAILQ_EMPTY(&ctx->events))` on.
unfoldable pub signal_add_slot : SignalHost → SignalMap → ℕ → ℕ → List ℕ → Status × SignalMap
unfolding put
signal_add_slot h m sig ev events =
    if is_nil events
    then if h.add_ok sig
      then (changed, put (record m { calls = (true, sig) ∷ m.calls }) sig (events ++ ev ∷ []))
      else (failed, m)
    else (changed, put m sig (events ++ ev ∷ []))

-- GET_SIGNAL_SLOT_AND_CTOR: an entry that is NULL becomes an empty list, if there is memory.
unfoldable pub signal_add_entry :
    SignalHost → SignalMap → ℕ → ℕ → Option (List ℕ) → Status × SignalMap
unfolding signal_add_slot
signal_add_entry h m sig ev (some events) = signal_add_slot h m sig ev events
signal_add_entry h m sig ev none =
    if h.calloc_ok then signal_add_slot h (put m sig []) sig ev [] else (failed, m)

unfoldable pub signal_add_at : SignalHost → ℕ → ℕ → Bool × SignalMap → Status × SignalMap
signal_add_at h sig ev (false, m) = (failed, m)
signal_add_at h sig ev (true, m) = signal_add_entry h m sig ev (m.entries sig)

unfoldable pub evmap_signal_add : SignalHost → SignalMap → ℕ → ℕ → Status × SignalMap
evmap_signal_add h m sig ev = signal_add_at h sig ev (make_signal_space h m sig)

pub signal_del_entry : SignalHost → SignalMap → ℕ → ℕ → Option (List ℕ) → Status × SignalMap
unfolding put remove
signal_del_entry h m sig ev none = (crashed, m)
signal_del_entry h m sig ev (some events) =
    if at_most_one events
    then if h.del_ok sig
      then (changed, put (record m { calls = (false, sig) ∷ m.calls }) sig (remove ev events))
      else (failed, m)
    else (changed, put m sig (remove ev events))

pub evmap_signal_del : SignalHost → SignalMap → ℕ → ℕ → Status × SignalMap
evmap_signal_del h m sig ev =
    if leb m.nentries sig then (failed, m) else signal_del_entry h m sig ev (m.entries sig)

-- Whether the backend watches a signal: the last call on it decides.
unfoldable pub registered : List (Bool × ℕ) → ℕ → Bool
registered [] sig = false
registered ((adding, s) ∷ calls) sig = if s == sig then adding else registered calls sig

abbrev pub waiting : Option (List ℕ) → Bool
waiting none = false
waiting (some events) = not (is_nil events)

pub record InSync (m : SignalMap) : Type 0 where
  pub sync : (sig : ℕ) → registered m.calls sig ≡ waiting (m.entries sig)
  pub beyond : (sig : ℕ) → m.nentries ≤ sig → m.entries sig ≡ none

append-not_nil : (xs : List ℕ) (e : ℕ) → is_nil (xs ++ e ∷ []) ≡ false
append-not_nil [] e = refl
append-not_nil (x ∷ xs) e = refl

-- What a program comes to by calls that add a signal event, or take one off that is in its list,
-- from the map that evmap_signal_initmap leaves; each call has its own answers of the host.
pub data SignalRuns : Status × SignalMap → Type 0 where
  start : SignalRuns (unchanged, evmap_signal_initmap)
  added :
      {r : Status × SignalMap} (h : SignalHost) (sig ev : ℕ)
      → SignalRuns r
      → SignalRuns (evmap_signal_add h r.1 sig ev)
  deleted :
      {r : Status × SignalMap} (h : SignalHost) (sig ev : ℕ) (events : List ℕ)
      → SignalRuns r
      → r.1.entries sig ≡ some events
      → contains ev events ≡ true
      → SignalRuns (evmap_signal_del h r.1 sig ev)
