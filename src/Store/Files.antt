-- ===== src/Store/Files.antt =====
-- `appendJSONLines` and `writeManifestLocked` of internal/store/store.go.
use coragent.Base.{
  ◌≡◌, ◌⊎◌, arith, zero, Bool, true, false, ◌&&◌, ◌||◌, none, some, List, [], ◌∷◌, ◌++◌, map, take,
  length, ltb,
}
use coragent.Errors.{ok, err, io_failure}
use coragent.Transcript.{Record}
use coragent.Event.{Event}
use coragent.Exec.{Exec}
use coragent.Store.{LogFile, ManifestFile, stored, Io, done, failed, Store}

abbrev pub next_io : List Io → Io
next_io [] = done
next_io (o ∷ rest) = o

abbrev pub later_io : List Io → List Io
later_io [] = []
later_io (o ∷ rest) = rest

-- Complete lines written at the end of a file, and perhaps a partial one. A partial line that is
-- there already swallows the first of them, which then does not decode.
unfoldable pub write_lines : {A : Type 0} → LogFile A → List A → Bool → LogFile A
write_lines f [] partial = record f { torn = f.torn || partial }
write_lines f (v ∷ vs) false = elim f.torn [
  | true ↦ record { lines = f.lines ++ (none ∷ map some vs); torn = false }
  | false ↦ record { lines = f.lines ++ (some v ∷ map some vs); torn = false }
]
write_lines f (v ∷ vs) true = elim f.torn [
  | true ↦ record { lines = f.lines ++ (none ∷ map some vs); torn = true }
  | false ↦ record { lines = f.lines ++ (some v ∷ map some vs); torn = true }
]

-- What `appendJSONLines` leaves in the file, by how it ends.
unfoldable pub append_lines : {A : Type 0} → LogFile A → List A → Io → LogFile A
unfolding write_lines
append_lines f values done = write_lines f values false
append_lines f values (failed n partial) =
    write_lines f (take n values) (partial && ltb n (length values))

-- What `writeManifestLocked` leaves: the old file or the new one, never a mixture.
unfoldable pub replace_manifest : ManifestFile → ManifestFile → Io → ManifestFile
replace_manifest old new done = new
replace_manifest old new (failed zero partial) = old
replace_manifest old new (failed _ partial) = new

abbrev pub ending : Io → Exec Store (Unit {0})
ending done s = (ok tt, s)
ending (failed n partial) s = (err io_failure, s)

-- `appendJSONLines(transcript.jsonl, …)`: an empty list is not written.
unfoldable pub append_transcript_log : List Record → Exec Store (Unit {0})
unfolding append_lines
append_transcript_log [] s = (ok tt, s)
append_transcript_log (r ∷ rs) s = ending (next_io s.io) (record s {
  disk = record s.disk {
    transcript_file = append_lines s.disk.transcript_file (r ∷ rs) (next_io s.io);
  };
  io = later_io s.io;
})

-- `appendJSONLines(events.jsonl, …)` of one event.
unfoldable pub append_event_log : Event → Exec Store (Unit {0})
unfolding append_lines
append_event_log e s = ending (next_io s.io) (record s {
  disk = record s.disk { events_file = append_lines s.disk.events_file (e ∷ []) (next_io s.io) };
  io = later_io s.io;
})

-- `writeManifestLocked`.
unfoldable pub write_manifest : Exec Store (Unit {0})
unfolding replace_manifest
write_manifest s = ending (next_io s.io) (record s {
  disk = record s.disk {
    manifest_file = replace_manifest s.disk.manifest_file (stored s.manifest) (next_io s.io);
  };
  io = later_io s.io;
})

-- The parts of the state that a replacement of the manifest leaves alone, and what it does to its file.
pub record Replaced (s t : Store) : Type 0 where
  pub manifest : t.manifest ≡ s.manifest
  pub transcript : t.transcript ≡ s.transcript
  pub events : t.events ≡ s.events
  pub transcript_file : t.disk.transcript_file ≡ s.disk.transcript_file
  pub events_file : t.disk.events_file ≡ s.disk.events_file

pub write_manifest-Replaced : (s : Store) → Replaced s (write_manifest s).1
unfolding write_manifest
write_manifest-Replaced s = record {
  manifest = ground arith;
  transcript = ground arith;
  events = ground arith;
  transcript_file = ground arith;
  events_file = ground arith;
}

pub write_manifest_file :
    (s : Store)
    → ((write_manifest s).1.disk.manifest_file ≡ s.disk.manifest_file)
      ⊎ ((write_manifest s).1.disk.manifest_file ≡ stored s.manifest)
unfolding write_manifest
write_manifest_file s = ground arith

pub write_manifest_returned :
    (s : Store)
    → (write_manifest s).0 ≡ ok tt
    → (write_manifest s).1.disk.manifest_file ≡ stored s.manifest
unfolding write_manifest
write_manifest_returned s h = ground arith
