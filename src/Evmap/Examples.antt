-- ===== src/Evmap/Examples.antt =====
-- The theorems on evmap.c at concrete inputs.
use test_codes.Prelude.{ℕ, refl, true, false, [], ◌∷◌, arith}
use test_codes.Event.{What, no_events}
use test_codes.Evmap.{EvmapIo, Host, Status}
use test_codes.Evmap.Signal
use test_codes.Evmap.Changelist.{
  Interest, Leads, event_changelist_init, event_changelist_add, event_changelist_del,
  event_changelist_remove_all,
}
use test_codes.Evmap.Changelist.Net.{with, without, LeadsIfDone, changelist-Leads}

abbrev host : Host
host = record {
  realloc_ok = true;
  calloc_ok = true;
  add_ok = λ fd old e. true;
  del_ok = λ fd old e. true;
}

abbrev to_read : What
to_read = record no_events { read = true }

abbrev reading_event : ℕ → What
reading_event e = to_read

abbrev one_slot : EvmapIo
one_slot = record { events = 8 ∷ []; nread = 1; nwrite = 0 }

abbrev signal_host : Signal.SignalHost
signal_host = record {
  realloc_ok = true;
  calloc_ok = true;
  add_ok = λ sig. true;
  del_ok = λ sig. true;
}

abbrev after_signals : Status × Signal.SignalMap
after_signals =
    Signal.evmap_signal_del signal_host
      (Signal.evmap_signal_add signal_host Signal.evmap_signal_initmap 2 8).1 2 8

abbrev nothing : Interest
nothing fd = (false, false)

init-Leads : Leads nothing nothing event_changelist_init
init-Leads = record {
  absent = λ fd e. refl;
  inside = λ fd. omega arith;
  room = omega arith;
  named = λ fd i e. absurd (omega arith);
  old_read = λ fd i e. absurd (omega arith);
  old_write = λ fd i e. absurd (omega arith);
  no_signal = λ fd i e. absurd (omega arith);
  read_leads = λ fd i e. absurd (omega arith);
  write_leads = λ fd i e. absurd (omega arith);
  reverse = λ i h. absurd (omega arith);
}

changelist-Leads_example :
    LeadsIfDone nothing
      (with nothing 3 to_read)
      (event_changelist_add true event_changelist_init 3 no_events to_read)
    × LeadsIfDone nothing
        (without nothing 3 to_read)
        (event_changelist_del true event_changelist_init 3 no_events to_read)
    × Leads nothing nothing (event_changelist_remove_all event_changelist_init)
    × Leads nothing nothing event_changelist_init
changelist-Leads_example =
    changelist-Leads true nothing nothing event_changelist_init 3 no_events to_read init-Leads refl
      refl refl refl
