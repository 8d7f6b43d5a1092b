-- ===== src/Evmap/Sync.antt =====
-- The backend watches what the map of evmap.c counts: the calls that evmap_io_add and evmap_io_del
-- made to it, replayed, agree with the counts.
use test_codes.Prelude.{
  ℕ, ◌≡◌, Bool, false, ◌&&◌, List, [], ◌∷◌, Option, none, some, ltb, ◌==◌, if◌then◌else◌,
}
use test_codes.Event.{What}
use test_codes.Evmap.{EvmapIo, IoMap, Call}

-- Whether the backend watches a descriptor for the events of a flag: the last call on it decides.
unfoldable pub registered : (What → Bool) → List Call → ℕ → Bool
registered f [] fd = false
registered f (c ∷ calls) fd = if c.fd == fd && f c.events then c.adding else registered f calls fd

abbrev pub reading : Option EvmapIo → Bool
reading none = false
reading (some ctx) = ltb 0 ctx.nread

abbrev pub writing : Option EvmapIo → Bool
writing none = false
writing (some ctx) = ltb 0 ctx.nwrite

abbrev pub reads : What → Bool
reads w = w.read

abbrev pub writes : What → Bool
writes w = w.write

pub record InSync (m : IoMap) : Type 0 where
  pub read_sync : (fd : ℕ) → registered reads m.calls fd ≡ reading (m.entries fd)
  pub write_sync : (fd : ℕ) → registered writes m.calls fd ≡ writing (m.entries fd)
