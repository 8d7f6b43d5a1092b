-- ===== src/Evmap/Changelist/Net.antt =====
-- What the entries of a changelist of evmap.c lead to.
use test_codes.Prelude.{
  ℕ, zero, suc, ◌+◌, ◌*◌, ◌≤◌, ◌<◌, ◌≡◌, inl, inr, refl, sym, ap, ◌∙◌, Bool, true, false, ◌&&◌,
  ◌||◌, not, Option, none, some, ltb, leb, ◌==◌, if◌then◌else◌, Bool-cases, arith,
}
use test_codes.Event.{What}
use test_codes.Evmap.{update}
use test_codes.Evmap.Changelist.{
  Change, Changelist, event_changelist_init, construct, construct_in, get_or_construct, add_change,
  del_change, change_at, event_changelist_add, event_changelist_del, reset_below,
  event_changelist_remove_all, applied, Interest, Leads,
}

-- A descriptor is watched for what its event asks for, besides what it was watched for, or without it.
abbrev pub with : Interest → ℕ → What → Interest
with w fd e = update w fd ((w fd).0 || e.read, (w fd).1 || e.write)

abbrev pub without : Interest → ℕ → What → Interest
without w fd e = update w fd ((w fd).0 && not e.read, (w fd).1 && not e.write)

module _ (k w : Interest) (l : Changelist) (leads : Leads k w l) where
  construct-Leads :
      (fd : ℕ) (old : What)
      → l.idxplus1 fd ≡ 0
      → l.n_changes < l.changes_size
      → old.read ≡ (w fd).0
      → old.write ≡ (w fd).1
      → old.signal ≡ false
      → Leads k w (construct l fd old)
  unfolding construct
  construct-Leads fd old none_yet room r wr sg = record {
    absent = λ j e. ground (arith, leads.absent j, leads.absent fd);
    inside = λ j. ground (arith, leads.inside j);
    room = omega arith;
    named = λ j i e. ground (arith, leads.named j i, leads.inside j);
    old_read = λ j i e. ground (
      arith,
      leads.old_read j i,
      leads.inside j,
      ap (λ (p : Bool × Bool). p.0) (leads.absent fd none_yet),
    );
    old_write = λ j i e. ground (
      arith,
      leads.old_write j i,
      leads.inside j,
      ap (λ (p : Bool × Bool). p.1) (leads.absent fd none_yet),
    );
    no_signal = λ j i e. ground (arith, leads.no_signal j i, leads.inside j);
    read_leads = λ j i e. ground (
      arith,
      leads.read_leads j i,
      leads.inside j,
      ap (λ (p : Bool × Bool). p.0) (leads.absent fd none_yet),
    );
    write_leads = λ j i e. ground (
      arith,
      leads.write_leads j i,
      leads.inside j,
      ap (λ (p : Bool × Bool). p.1) (leads.absent fd none_yet),
    );
    reverse = λ i h. ground (arith, leads.reverse i, leads.inside fd);
  }

  module _ (fd i : ℕ) (c : Change) (new : Bool × Bool) (at : l.idxplus1 fd ≡ i + 1)
      (same_fd : c.fd ≡ (l.changes i).fd) (same_old : c.old_events ≡ (l.changes i).old_events)
      (r : applied c.read_change (k fd).0 ≡ new.0)
      (wr : applied c.write_change (k fd).1 ≡ new.1) where
    apart : (j n : ℕ) → l.idxplus1 j ≡ n + 1 → i ≡ n → fd ≡ j
    apart j n e s =
        sym (leads.named fd i at) ∙ ap (λ (m : ℕ). (l.changes m).fd) s ∙ leads.named j n e

    change-Leads : Leads k (update w fd new) (record l { changes = update l.changes i c })
    change-Leads = record {
      absent = λ j e. ground (arith, leads.absent j);
      inside = leads.inside;
      room = leads.room;
      named = λ j n e. ground (arith, leads.named j n e);
      old_read = λ j n e. ground (arith, leads.old_read j n e, ap (λ (o : What). o.read) same_old);
      old_write =
          λ j n e. ground (arith, leads.old_write j n e, ap (λ (o : What). o.write) same_old);
      no_signal =
          λ j n e. ground (arith, leads.no_signal j n e, ap (λ (o : What). o.signal) same_old);
      read_leads = λ j n e. elim (Bool-cases (i == n)) [
        | inl same ↦
            let here : fd ≡ j = apart j n e (ground arith) in
            let hit : fd == j ≡ true = ground arith in rw (same, hit) (rw here at r)
        | inr other ↦
            let miss : fd == j ≡ false = ground (arith, ap l.idxplus1) in
            rw (other, miss) (leads.read_leads j n e)
      ];
      write_leads = λ j n e. elim (Bool-cases (i == n)) [
        | inl same ↦
            let here : fd ≡ j = apart j n e (ground arith) in
            let hit : fd == j ≡ true = ground arith in rw (same, hit) (rw here at wr)
        | inr other ↦
            let miss : fd == j ≡ false = ground (arith, ap l.idxplus1) in
            rw (other, miss) (leads.write_leads j n e)
      ];
      reverse = λ n h. ground (arith, leads.reverse n);
    }

-- The entry of the descriptor is the one at the index.
abbrev Entered : Interest → Interest → ℕ → Option (ℕ × Changelist) → Type 0
Entered k w fd none = Unit
Entered k w fd (some (i, l)) = Leads k w l × (l.idxplus1 fd ≡ i + 1)

larger-Leads :
    (k w : Interest) (l : Changelist) (size : ℕ)
    → Leads k w l
    → l.changes_size ≤ size
    → Leads k w (record l { changes_size = size })
larger-Leads k w l size leads h = record {
  absent = leads.absent;
  inside = leads.inside;
  room = omega (arith, leads.room);
  named = leads.named;
  old_read = leads.old_read;
  old_write = leads.old_write;
  no_signal = leads.no_signal;
  read_leads = leads.read_leads;
  write_leads = leads.write_leads;
  reverse = leads.reverse;
}

module _ (k w : Interest) (fd : ℕ) (old : What) (r : old.read ≡ (w fd).0)
    (wr : old.write ≡ (w fd).1) (sg : old.signal ≡ false) where
  construct-Entered :
      (l : Changelist)
      → Leads k w l
      → l.idxplus1 fd ≡ 0
      → l.n_changes < l.changes_size
      → Entered k w fd (construct_in fd old (some l))
  unfolding construct_in
  construct-Entered l leads e room =
      (construct-Leads k w l leads fd old e room r wr sg, unfold construct in ground arith)

  get_or_construct-Entered :
      (ok : Bool) (l : Changelist) → Leads k w l → Entered k w fd (get_or_construct ok l fd old)
  unfolding get_or_construct
  get_or_construct-Entered ok l leads = elim (Bool-cases (l.idxplus1 fd == 0)) [
    | inr there ↦ rw there (leads, ground arith)
    | inl none_yet ↦ elim (Bool-cases (l.n_changes == l.changes_size)) [
      | inr room ↦
          rw (none_yet, room)
            (construct-Entered l leads (ground arith) (ground (arith, leads.room)))
      | inl full ↦ elim (Bool-cases ok) [
        | inr no_memory ↦ rw (none_yet, full, no_memory) tt
        | inl got ↦
            let size = if ltb l.changes_size 64 then 64 else l.changes_size * 2 in
            let l' : Changelist = record l { changes_size = size } in
            rw (none_yet, full, got)
              (construct-Entered l' (larger-Leads k w l size leads (ground arith)) (ground arith)
                (ground arith))
      ]
    ]
  ]

-- The list that a call leaves, if it succeeds, leads to the new interest.
abbrev pub LeadsIfDone : Interest → Interest → Option Changelist → Type 0
LeadsIfDone k w none = Unit
LeadsIfDone k w (some l) = Leads k w l

change_at-Leads :
    (k w : Interest) (fd : ℕ) (f : Change → Change) (new : Bool × Bool)
    (o : Option (ℕ × Changelist))
    → ((c : Change) → ((f c).fd ≡ c.fd) × ((f c).old_events ≡ c.old_events))
    → ((c : Change)
        → c.old_events.read ≡ (k fd).0
        → c.old_events.write ≡ (k fd).1
        → c.old_events.signal ≡ false
        → applied c.read_change (k fd).0 ≡ (w fd).0
        → applied c.write_change (k fd).1 ≡ (w fd).1
        → (applied (f c).read_change (k fd).0 ≡ new.0)
          × (applied (f c).write_change (k fd).1 ≡ new.1))
    → Entered k w fd o
    → LeadsIfDone k (update w fd new) (change_at f o)
unfolding change_at
change_at-Leads k w fd f new none same net e = tt
change_at-Leads k w fd f new (some (i, l)) same net (leads, at) =
    let c = l.changes i in
    let (r, wr) =
      net c (leads.old_read fd i at) (leads.old_write fd i at) (leads.no_signal fd i at)
        (leads.read_leads fd i at) (leads.write_leads fd i at) in
    change-Leads k w l leads fd i (f c) new at (same c).0 (same c).1 r wr

event_changelist-Leads :
    (ok : Bool) (k w : Interest) (l : Changelist) (fd : ℕ) (old events : What)
    → Leads k w l
    → old.read ≡ (w fd).0
    → old.write ≡ (w fd).1
    → old.signal ≡ false
    → events.signal ≡ false
    → LeadsIfDone k (with w fd events) (event_changelist_add ok l fd old events)
      × LeadsIfDone k (without w fd events) (event_changelist_del ok l fd old events)
unfolding event_changelist_add event_changelist_del add_change del_change
event_changelist-Leads ok k w l fd old events leads r wr sg es =
    let entered = get_or_construct-Entered k w fd old r wr sg ok l leads in
    (
      change_at-Leads k w fd (add_change events) _ _ (λ c. (refl, refl))
          (λ c a b s d e. (ground arith, ground arith)) entered,
      change_at-Leads k w fd (del_change events) _ _ (λ c. (refl, refl))
          (λ c a b s d e. (ground arith, ground arith)) entered,
    )

reset_below-changes : (i : ℕ) (l : Changelist) → (reset_below i l).changes ≡ l.changes
unfolding reset_below
reset_below-changes zero l = refl
reset_below-changes (suc i) l = reset_below-changes i l

reset_below-idxplus1 :
    (k w : Interest) (l : Changelist)
    → Leads k w l
    → (i fd : ℕ) → i ≤ l.n_changes
    → (reset_below i l).idxplus1 fd ≡ (if leb (l.idxplus1 fd) i then 0 else l.idxplus1 fd)
unfolding reset_below
reset_below-idxplus1 k w l leads zero fd h = ground arith
reset_below-idxplus1 k w l leads (suc i) fd h =
    let ih = reset_below-idxplus1 k w l leads i fd (omega arith) in
    let same : ((reset_below i l).changes i).fd ≡ (l.changes i).fd =
      ap (λ (f : ℕ → Change). (f i).fd) (reset_below-changes i l) in
    elim (Bool-cases (((reset_below i l).changes i).fd == fd)) [
      | inl hit ↦
          let e : (l.changes i).fd ≡ fd = ground arith in
          let at : l.idxplus1 fd ≡ i + 1 = rw e at (leads.reverse i (omega arith)) in
          rw hit (ground arith)
      | inr miss ↦ rw miss (ground (arith, ih, leads.named fd i, same))
    ]

event_changelist_remove_all-Leads :
    (k w : Interest) (l : Changelist)
    → Leads k w l
    → Leads w w (event_changelist_remove_all l) × Leads w w event_changelist_init
unfolding event_changelist_remove_all
event_changelist_remove_all-Leads k w l leads =
    let none_left : (fd : ℕ) → (reset_below l.n_changes l).idxplus1 fd ≡ 0 = λ fd.
      reset_below-idxplus1 k w l leads l.n_changes fd (omega arith)
      ∙ ground (arith, leads.inside fd) in
    (
      record {
        absent = λ fd e. refl;
        inside = λ fd. omega (arith, none_left fd);
        room = omega arith;
        named = λ fd i e. absurd (omega (arith, none_left fd));
        old_read = λ fd i e. absurd (omega (arith, none_left fd));
        old_write = λ fd i e. absurd (omega (arith, none_left fd));
        no_signal = λ fd i e. absurd (omega (arith, none_left fd));
        read_leads = λ fd i e. absurd (omega (arith, none_left fd));
        write_leads = λ fd i e. absurd (omega (arith, none_left fd));
        reverse = λ i h. absurd (omega arith);
      },
      record {
        absent = λ fd e. refl;
        inside = λ fd. omega arith;
        room = omega arith;
        named = λ fd i e. absurd (omega arith);
        old_read = λ fd i e. absurd (omega arith);
        old_write = λ fd i e. absurd (omega arith);
        no_signal = λ fd i e. absurd (omega arith);
        read_leads = λ fd i e. absurd (omega arith);
        write_leads = λ fd i e. absurd (omega arith);
        reverse = λ i h. absurd (omega arith);
      },
    )

-- After event_changelist_add and event_changelist_del of events that are no signals, called with the
-- events that were wanted before, the changelist leads the kernel from what it watches to what is
-- wanted now, however adds and deletes of one descriptor have met in it. event_changelist_remove_all, which
-- follows the system calls, leaves a list that leads the kernel from what is wanted to just that; so does
-- event_changelist_init.
pub changelist-Leads :
    (ok : Bool) (k w : Interest) (l : Changelist) (fd : ℕ) (old events : What)
    → Leads k w l
    → old.read ≡ (w fd).0
    → old.write ≡ (w fd).1
    → old.signal ≡ false
    → events.signal ≡ false
    → LeadsIfDone k (with w fd events) (event_changelist_add ok l fd old events)
      × LeadsIfDone k (without w fd events) (event_changelist_del ok l fd old events)
      × Leads w w (event_changelist_remove_all l)
      × Leads w w event_changelist_init
changelist-Leads ok k w l fd old events leads r wr sg es =
    let (added, deleted) = event_changelist-Leads ok k w l fd old events leads r wr sg es in
    let (emptied, initial) = event_changelist_remove_all-Leads k w l leads in
    (added, deleted, emptied, initial)
