-- ===== src/Store/Facts.antt =====
-- `AppendEvent` on a durable session.
use coragent.Base.{
  ℕ, zero, suc, ◌+◌, true, false, ◌≡◌, ◌≢◌, refl, ◌⊎◌, inl, inr, List, [], ◌∷◌, ◌++◌, Bytes, arith,
  length, length-append, ◌∙◌, append-nil, ap, sym, same, same_iff, All-append,
}
use coragent.Errors.{ok}
use coragent.Transcript.{Record}
use coragent.Event
use coragent.Event.{Event}
use coragent.Store.{Manifest, stored, Disk, Io, done, Store}
use coragent.Store.Files.{append_lines, append_event_log, write_manifest, next_io}
use coragent.Store.Session.{append_event}
use coragent.Store.Open.{Codec, events_from, manifest_valid}
use coragent.Store.Durable.{IsSound, Holds, IsDurable, whole}
use coragent.Store.Rewrites.{
  is_ok, manifest_valid-Reworked, write_manifest-Holds, write_manifest-IsDurable,
}
use coragent.Store.Promises.{active_run-budgets}
use coragent.Store.Appends.{Survival, take-nil, append_lines-whole, append_lines-done}

-- What an append to the events leaves alone, and how it ends.
record EventAppended (s t : Store) (e : Event) (o : Io) : Type 0 where
  manifest : t.manifest ≡ s.manifest
  transcript : t.transcript ≡ s.transcript
  events : t.events ≡ s.events
  manifest_file : t.disk.manifest_file ≡ s.disk.manifest_file
  transcript_file : t.disk.transcript_file ≡ s.disk.transcript_file
  events_file : t.disk.events_file ≡ append_lines s.disk.events_file (e ∷ []) o

append_event_log-EventAppended :
    (s : Store) (e : Event) → EventAppended s (append_event_log e s).1 e (next_io s.io)
unfolding append_event_log
append_event_log-EventAppended s e = record {
  manifest = ground arith;
  transcript = ground arith;
  events = ground arith;
  manifest_file = ground arith;
  transcript_file = ground arith;
  events_file = ground arith;
}

append_event_log-done :
    (s : Store) (e : Event) → (append_event_log e s).0 ≡ ok tt → next_io s.io ≡ done
unfolding append_event_log
append_event_log-done s e h = ground arith

-- The memory of `AppendEvent` before it writes the manifest.
abbrev reported : Event → Store → Store
reported e s = record s {
  events = s.events ++ e ∷ [];
  manifest = record s.manifest { event_cursor = e.cursor; updated_at = e.time };
}

-- The check of `AppendEvent`, before anything is written.
abbrev InTurn : Event → Store → Type 0
InTurn e s =
    (same e.session_id s.manifest.session_id ≡ true) × (e.cursor ≡ s.manifest.event_cursor + 1)

append_event-cases :
    (e : Event) (s : Store)
    → ((is_ok (append_event e s).0 ≡ false) × ((append_event e s).1 ≡ s))
      ⊎ (InTurn e s
          × (((is_ok (append_event e s).0 ≡ false)
                × ((append_event e s).1 ≡ (append_event_log e s).1))
              ⊎ (((append_event_log e s).0 ≡ ok tt)
                  × ((append_event e s).1
                      ≡ (write_manifest (reported e (append_event_log e s).1)).1)
                  × (is_ok (append_event e s).0 ≡ true
                      → (write_manifest (reported e (append_event_log e s).1)).0 ≡ ok tt))))
unfolding append_event
append_event-cases e s = ground arith

events_from-append :
    (id : Bytes) (cursor : ℕ) (es : List Event) (e : Event)
    → events_from id cursor es ≡ true
    → Event.validate e ≡ ok tt
    → same e.session_id id ≡ true
    → e.cursor ≡ cursor + length es
    → events_from id cursor (es ++ e ∷ []) ≡ true
unfolding events_from
events_from-append id cursor [] e h v s c = ground arith
events_from-append id cursor (x ∷ es) e h v s c =
    ground (arith, events_from-append id (cursor + 1) es e)

validate-time : (e : Event) → Event.validate e ≡ ok tt → e.time ≢ 0
validate-time e h = unfold Event.validate in ground arith

module _ (codec : Codec) (id : Bytes) where
  session_id-eq : (m : Manifest) → manifest_valid codec id m ≡ true → same m.session_id id ≡ true
  unfolding manifest_valid
  session_id-eq m h = ground arith

  -- The files once the event has reached its log.
  with_event :
      (disk : Disk) (e : Event) (s : Store)
      → IsDurable codec id s
      → InTurn e s
      → Event.validate e ≡ ok tt
      → codec.long_event e ≡ false
      → disk.manifest_file ≡ stored s.manifest
      → disk.transcript_file ≡ whole s.transcript
      → disk.events_file ≡ whole (s.events ++ e ∷ [])
      → Holds codec id disk s.manifest s.transcript (s.events ++ e ∷ [])
  with_event disk e s d (session, turn) v short m t f = record {
    manifest_file = m;
    transcript_file = t;
    events_file = f;
    sound = record {
      version = d.holds.sound.version;
      identity = d.holds.sound.identity;
      active = d.holds.sound.active;
      transcript_mark = d.holds.sound.transcript_mark;
      event_mark = omega (arith, d.event_count, length-append s.events (e ∷ []));
    };
    readable = record {
      log = d.holds.readable.log;
      facts =
          events_from-append id 1 s.events e d.holds.readable.facts v
            (ground (
              arith,
              session_id-eq s.manifest d.holds.sound.identity,
              same_iff e.session_id s.manifest.session_id,
              same_iff s.manifest.session_id id,
              same_iff e.session_id id,
            ))
            (omega (arith, turn, d.event_count));
      short_records = d.holds.readable.short_records;
      short_events = All-append _ s.events (e ∷ []) d.holds.readable.short_events (short, tt);
    };
  }

  -- However the append of the event ends.
  append_event_log-survives :
      (e : Event) (s : Store)
      → IsDurable codec id s
      → InTurn e s
      → Event.validate e ≡ ok tt
      → codec.long_event e ≡ false
      → ((append_event_log e s).1.disk.events_file.torn ≡ true)
        ⊎ Survival codec id s (append_event_log e s).1.disk [] (e ∷ [])
  append_event_log-survives e s d turn v short =
      let l = append_event_log-EventAppended s e in
      let disk = (append_event_log e s).1.disk in
      elim (append_lines-whole s.disk.events_file s.events (e ∷ []) (next_io s.io)
        d.holds.events_file) [
          | inl torn ↦ inl (rw l.events_file torn)
          | inr (zero, kept) ↦ inr (record {
            kept_records = 0;
            kept_events = 0;
            manifest = s.manifest;
            holds =
                rw (append-nil, append-nil)
                  (record {
                    manifest_file = l.manifest_file ∙ d.holds.manifest_file;
                    transcript_file = l.transcript_file ∙ d.holds.transcript_file;
                    events_file = l.events_file ∙ kept ∙ ap whole (append-nil s.events);
                    sound = d.holds.sound;
                    readable = d.holds.readable;
                  });
          })
          | inr (suc k, kept) ↦ inr (record {
            kept_records = 0;
            kept_events = 1;
            manifest = s.manifest;
            holds = rw append-nil (
                with_event disk e s d turn v short (l.manifest_file ∙ d.holds.manifest_file)
                  (l.transcript_file ∙ d.holds.transcript_file)
                  (l.events_file ∙ kept ∙ ap (λ z. whole (s.events ++ e ∷ z)) (take-nil k)));
          })
        ]

  reported-IsSound :
      (e : Event) (s t : Store)
      → IsDurable codec id s
      → InTurn e s
      → Event.validate e ≡ ok tt
      → t.manifest ≡ s.manifest
      → IsSound codec id (reported e t).manifest (length s.transcript) (length (s.events ++ e ∷ []))
  reported-IsSound e s t d turn v m =
      let m' = (reported e s).manifest in
      rw m (record {
        version = d.holds.sound.version;
        identity =
            manifest_valid-Reworked codec id s.manifest m' d.holds.sound.identity
              (validate-time e v) refl;
        active =
            active_run-budgets codec id s.manifest m' s.manifest.active_run (λ k h. h)
              d.holds.sound.active;
        transcript_mark = d.holds.sound.transcript_mark;
        event_mark = omega (arith, turn.1, d.event_count, length-append s.events (e ∷ []));
      })

  write_reported :
      (e : Event) (s : Store)
      → IsDurable codec id s
      → InTurn e s
      → Event.validate e ≡ ok tt
      → codec.long_event e ≡ false
      → (append_event_log e s).0 ≡ ok tt
      → let u = reported e (append_event_log e s).1 in
        ((write_manifest u).0 ≡ ok tt → IsDurable codec id (write_manifest u).1)
        × Survival codec id s (write_manifest u).1.disk [] (e ∷ [])
  write_reported e s d turn v short o =
      let t = (append_event_log e s).1 in
      let u = reported e t in
      let l = append_event_log-EventAppended s e in
      let all = append_lines-done s.disk.events_file s.events (e ∷ []) d.holds.events_file in
      let sound : IsSound codec id u.manifest (length s.transcript) (length (s.events ++ e ∷ [])) =
        reported-IsSound e s t d turn v l.manifest in
      let files : Holds codec id t.disk s.manifest s.transcript (s.events ++ e ∷ []) =
        with_event t.disk e s d turn v short (l.manifest_file ∙ d.holds.manifest_file)
          (l.transcript_file ∙ d.holds.transcript_file)
          (l.events_file
            ∙ ap (append_lines s.disk.events_file (e ∷ [])) (append_event_log-done s e o)
            ∙ all) in
      let holds : Holds codec id u.disk s.manifest u.transcript u.events =
        rw (l.transcript, l.events) files in
      let (m, written) =
        write_manifest-Holds codec id u s.manifest s.transcript (s.events ++ e ∷ []) files sound in
      (
        (λ r.
            write_manifest-IsDurable codec id u s.manifest holds (rw (l.transcript, l.events) sound)
              (ap (λ (m : Manifest). m.transcript_seq) l.manifest
                ∙ (d.transcript_count ∙ ap length (sym l.transcript)))
              (rw l.events (omega (arith, turn.1, d.event_count, length-append s.events (e ∷ []))))
              d.session_name r),
        record { kept_records = 0; kept_events = 1; manifest = m; holds = rw append-nil written },
      )

  idle-Survival :
      (s : Store) (records : List Record) (es : List Event)
      → IsDurable codec id s
      → Survival codec id s s.disk records es
  idle-Survival s records es d = record {
    kept_records = 0;
    kept_events = 0;
    manifest = s.manifest;
    holds = rw (append-nil, append-nil) d.holds;
  }

  -- Let the event of `AppendEvent` on a durable session be valid, and fit a line. However the disk operations end: if
  -- the call returns, the session is durable; and always the events end in a partial line, or the files hold
  -- the log, all events, and perhaps the new one.
  pub append_event-IsDurable :
      (e : Event) (s : Store)
      → IsDurable codec id s
      → Event.validate e ≡ ok tt
      → codec.long_event e ≡ false
      → (is_ok (append_event e s).0 ≡ true → IsDurable codec id (append_event e s).1)
        × (((append_event e s).1.disk.events_file.torn ≡ true)
            ⊎ Survival codec id s (append_event e s).1.disk [] (e ∷ []))
  append_event-IsDurable e s d v short = elim (append_event-cases e s) [
    | inl refused ↦ ((λ r. cc refused.0), inr (rw refused.1 (idle-Survival s [] (e ∷ []) d)))
    | inr (turn, inl stopped) ↦
        ((λ r. cc stopped.0), rw stopped.1 (append_event_log-survives e s d turn v short))
    | inr (turn, inr wrote) ↦
        let (returned, survived) = write_reported e s d turn v short wrote.0 in
        ((λ r. rw wrote.1 (returned (wrote.2 r))), inr (rw wrote.1 survived))
  ]
