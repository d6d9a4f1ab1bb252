-- ===== src/Store/Durable.antt =====
-- What `Open` needs of the files, and that it then returns what they hold.
use coragent.Base.{
  ℕ, ◌≤◌, Bool, true, false, ◌≡◌, refl, some, List, [], ◌∷◌, map, Bytes, le→leb, length, All,
}
use coragent.Errors.{ok}
use coragent.Transcript.{Record}
use coragent.Transcript.Validate.{validate_records}
use coragent.Event.{Event}
use coragent.Store.{Manifest, LogFile, stored, Disk, Io, Store}
use coragent.Store.Open.{
  Codec, is_format_version, manifest_valid, active_run_valid, validate_session_id, read_lines,
  read_log, events_from, load, open_session, directory,
}

-- A file of complete lines.
abbrev pub whole : {A : Type 0} → List A → LogFile A
whole vs = record { lines = map some vs; torn = false }

module _ (codec : Codec) (id : Bytes) where
  -- A manifest that `Open` accepts beside logs of these lengths.
  pub record IsSound (m : Manifest) (records events : ℕ) : Type 0 where
    pub version : is_format_version m.format_version ≡ true
    pub identity : manifest_valid codec id m ≡ true
    pub active : active_run_valid m m.active_run ≡ true
    pub transcript_mark : m.transcript_seq ≤ records
    pub event_mark : m.event_cursor ≤ events

  -- Logs that `Open` accepts.
  pub record IsReadable (records : List Record) (events : List Event) : Type 0 where
    pub log : validate_records records ≡ ok tt
    pub facts : events_from id 1 events ≡ true
    pub short_records : All (λ r. codec.long_record r ≡ false) records
    pub short_events : All (λ e. codec.long_event e ≡ false) events

  -- The files of a session that can be opened again.
  pub record Holds (disk : Disk) (m : Manifest) (records : List Record) (events : List Event)
      : Type 0 where
    pub manifest_file : disk.manifest_file ≡ stored m
    pub transcript_file : disk.transcript_file ≡ whole records
    pub events_file : disk.events_file ≡ whole events
    pub sound : IsSound m (length records) (length events)
    pub readable : IsReadable records events

  -- A session whose files are as its memory.
  pub record IsDurable (s : Store) : Type 0 where
    pub holds : Holds s.disk s.manifest s.transcript s.events
    pub transcript_count : s.manifest.transcript_seq ≡ length s.transcript
    pub event_count : s.manifest.event_cursor ≡ length s.events
    pub session_name : validate_session_id id ≡ ok tt

read_lines-whole :
    {A : Type 0} (long : A → Bool) (vs : List A)
    → All (λ v. long v ≡ false) vs
    → read_lines long (map some vs) ≡ ok vs
unfolding read_lines
read_lines-whole long [] h = refl
read_lines-whole long (v ∷ vs) (h, hs) = rw (read_lines-whole long vs hs, h)

read_log-whole :
    {A : Type 0} (long : A → Bool) (f : LogFile A) (vs : List A)
    → f ≡ whole vs
    → All (λ v. long v ≡ false) vs
    → read_log long f ≡ ok vs
unfolding read_log
read_log-whole long f vs e h = rw e (rw (read_lines-whole long vs h))

-- The session that `Open` returns: the high-water marks are those of the logs.
abbrev pub reopened : Disk → List Io → Manifest → List Record → List Event → Store
reopened disk io m records events = record {
  manifest = record m { transcript_seq = length records; event_cursor = length events };
  transcript = records;
  events = events;
  disk = disk;
  io = io;
}

module _ (codec : Codec) (id : Bytes) where
  pub open_session-Holds :
      (disk : Disk) (m : Manifest) (records : List Record) (events : List Event) (io : List Io)
      → validate_session_id id ≡ ok tt
      → Holds codec id disk m records events
      → open_session codec id io (directory disk) ≡ ok (reopened disk io m records events)
  unfolding open_session load
  open_session-Holds disk m records events io v h =
      rw (v, h.manifest_file)
        (rw
          (
            h.sound.version,
            h.sound.identity,
            h.sound.active,
            read_log-whole codec.long_record disk.transcript_file records h.transcript_file
                h.readable.short_records,
            h.readable.log,
            read_log-whole codec.long_event disk.events_file events h.events_file
                h.readable.short_events,
            h.readable.facts,
          )
          (rw (le→leb _ _ h.sound.transcript_mark, le→leb _ _ h.sound.event_mark)))

  -- Let the files of a session be as its memory. Then opening them returns the same manifest, transcript and
  -- events.
  pub open_session-IsDurable :
      (s : Store) (io : List Io)
      → IsDurable codec id s
      → open_session codec id io (directory s.disk) ≡ ok (record s { io = io })
  open_session-IsDurable s io d =
      rw (open_session-Holds s.disk s.manifest s.transcript s.events io d.session_name d.holds)
        (rw (← d.transcript_count, ← d.event_count))
