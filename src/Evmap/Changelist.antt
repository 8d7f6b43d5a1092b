-- ===== src/Evmap/Changelist.antt =====
-- The changelist of codes/libevent-2.0.21-stable/evmap.c, with which a backend such as epoll puts off
-- its system calls, for the descriptors (a signal's entry in the other map is not modelled).
pub mod Net
use test_codes.Prelude.{
  ℕ, zero, suc, ◌+◌, ◌-◌, ◌*◌, ◌≤◌, ◌<◌, ◌≡◌, ◌≢◌, inl, inr, refl, sym, ◌∙◌, Bool, true, false,
  ◌&&◌, ◌||◌, not, Option, none, some, ltb, leb, ◌==◌, if◌then◌else◌, Bool-cases, arith,
}
use test_codes.Event.{What, no_events, or_what, and_what}
use test_codes.Evmap.{update}

-- A `read_change` or `write_change`: 0, EV_CHANGE_ADD with the bits EV_ET, EV_PERSIST and EV_SIGNAL of
-- the event, or EV_CHANGE_DEL.
pub data Delta : Type 0 where
  keep : Delta
  adding : What → Delta
  deleting : Delta

-- `struct event_change`
pub record Change : Type 0 where
  pub fd : ℕ
  pub old_events : What
  pub read_change : Delta
  pub write_change : Delta

-- `struct event_changelist`, with the `idxplus1` of each descriptor.
pub record Changelist : Type 0 where
  pub changes : ℕ → Change
  pub n_changes : ℕ
  pub changes_size : ℕ
  pub idxplus1 : ℕ → ℕ

abbrev pub event_changelist_init : Changelist
event_changelist_init = record {
  changes = λ i. record { fd = 0; old_events = no_events; read_change = keep; write_change = keep };
  n_changes = 0;
  changes_size = 0;
  idxplus1 = λ fd. 0;
}

-- event_changelist_grow, where mm_realloc succeeds if `ok`.
pub event_changelist_grow : Bool → Changelist → Option Changelist
event_changelist_grow false l = none
event_changelist_grow true l =
    some (record l { changes_size = if ltb l.changes_size 64 then 64 else l.changes_size * 2 })

-- The construction of a new entry, which becomes the last one.
pub construct : Changelist → ℕ → What → Changelist
construct l fd old = record l {
  changes =
      update l.changes l.n_changes
        (record { fd = fd; old_events = old; read_change = keep; write_change = keep });
  n_changes = l.n_changes + 1;
  idxplus1 = update l.idxplus1 fd (l.n_changes + 1);
}

-- The list after `construct`, if there is room or memory for it.
pub construct_in : ℕ → What → Option Changelist → Option (ℕ × Changelist)
unfolding construct
construct_in fd old none = none
construct_in fd old (some l) = some (l.n_changes, construct l fd old)

-- event_changelist_get_or_construct: the index of the entry, and the list; `none` for NULL.
pub get_or_construct : Bool → Changelist → ℕ → What → Option (ℕ × Changelist)
unfolding construct_in event_changelist_grow
get_or_construct ok l fd old =
    if l.idxplus1 fd == 0
    then construct_in fd old
        (if l.n_changes == l.changes_size then event_changelist_grow ok l else some l)
    else some (l.idxplus1 fd - 1, l)

-- `events & (EV_ET|EV_PERSIST|EV_SIGNAL)`
abbrev pub kept_bits : What → What
kept_bits e = record no_events { et = e.et; persist = e.persist; signal = e.signal }

pub add_change : What → Change → Change
add_change e c = record c {
  read_change = if e.read || e.signal then adding (kept_bits e) else c.read_change;
  write_change = if e.write then adding (kept_bits e) else c.write_change;
}

abbrev pub is_adding : Delta → Bool
is_adding (adding e) = true
is_adding keep = false
is_adding deleting = false

pub del_change : What → Change → Change
del_change e c = record c {
  read_change =
      if e.read || e.signal
      then if not (c.old_events.read || c.old_events.signal) && is_adding c.read_change
        then keep
        else deleting
      else c.read_change;
  write_change =
      if e.write
      then if not c.old_events.write && is_adding c.write_change then keep else deleting
      else c.write_change;
}

-- The entry at an index, changed.
pub change_at : (Change → Change) → Option (ℕ × Changelist) → Option Changelist
change_at f none = none
change_at f (some (i, l)) = some (record l { changes = update l.changes i (f (l.changes i)) })

-- `none` for the result -1.
pub event_changelist_add : Bool → Changelist → ℕ → What → What → Option Changelist
event_changelist_add ok l fd old events =
    change_at (add_change events) (get_or_construct ok l fd old)

pub event_changelist_del : Bool → Changelist → ℕ → What → What → Option Changelist
event_changelist_del ok l fd old events =
    change_at (del_change events) (get_or_construct ok l fd old)

-- The loop of event_changelist_remove_all, over the entries below `i`.
pub reset_below : ℕ → Changelist → Changelist
reset_below zero l = l
reset_below (suc i) l =
    let l' = reset_below i l in record l' { idxplus1 = update l'.idxplus1 (l'.changes i).fd 0 }

pub event_changelist_remove_all : Changelist → Changelist
unfolding reset_below
event_changelist_remove_all l = record (reset_below l.n_changes l) { n_changes = 0 }

-- What a backend watches for, after a change is applied.
abbrev pub applied : Delta → Bool → Bool
applied keep b = b
applied (adding e) b = true
applied deleting b = false

-- The set of descriptors watched for reading and for writing, as a function.
abbrev pub Interest : Type 0
Interest = ℕ → Bool × Bool

-- `kernel` is what the kernel watches, and `wanted` what the events on each descriptor ask for:
-- each entry remembers what the kernel watches, and leads from there to what is wanted; and where
-- there is no entry, the kernel watches what is wanted.
pub record Leads (kernel wanted : Interest) (l : Changelist) : Type 0 where
  pub absent : (fd : ℕ) → l.idxplus1 fd ≡ 0 → kernel fd ≡ wanted fd
  pub inside : (fd : ℕ) → l.idxplus1 fd ≤ l.n_changes
  pub room : l.n_changes ≤ l.changes_size
  pub named : (fd i : ℕ) → l.idxplus1 fd ≡ i + 1 → (l.changes i).fd ≡ fd
  pub old_read : (fd i : ℕ) → l.idxplus1 fd ≡ i + 1 → (l.changes i).old_events.read ≡ (kernel fd).0
  pub old_write :
      (fd i : ℕ) → l.idxplus1 fd ≡ i + 1 → (l.changes i).old_events.write ≡ (kernel fd).1
  pub no_signal : (fd i : ℕ) → l.idxplus1 fd ≡ i + 1 → (l.changes i).old_events.signal ≡ false
  pub read_leads :
      (fd i : ℕ)
      → l.idxplus1 fd ≡ i + 1
      → applied (l.changes i).read_change (kernel fd).0 ≡ (wanted fd).0
  pub write_leads :
      (fd i : ℕ)
      → l.idxplus1 fd ≡ i + 1
      → applied (l.changes i).write_change (kernel fd).1 ≡ (wanted fd).1
  pub reverse : (i : ℕ) → i < l.n_changes → l.idxplus1 (l.changes i).fd ≡ i + 1
