-- ===== src/Store/Transcripts.antt =====
-- `AppendTranscript` on a durable session.
use coragent.Base.{
  ℕ, true, ◌≡◌, ◌≢◌, refl, ◌⊎◌, inl, inr, List, [], ◌++◌, Bytes, arith, length, length-append, ◌∙◌,
  take, append-nil, ap, sym,
}
use coragent.Errors.{ok}
use coragent.Transcript.{Record}
use coragent.Store.{Manifest, Store}
use coragent.Store.Files.{append_transcript_log, write_manifest}
use coragent.Store.Session.{assign, last_time, append_transcript}
use coragent.Store.Open.{Codec}
use coragent.Store.Durable.{IsSound, Holds, IsDurable}
use coragent.Store.Rewrites.{
  is_ok, manifest_valid-Reworked, updated_at-ne-zero, write_manifest-Holds,
  write_manifest-IsDurable,
}
use coragent.Store.Promises.{active_run-budgets}
use coragent.Store.Appends.{
  MayFollow, Survival, append_transcript_log-survives, append_transcript_log-ok,
  append_transcript-cases, appended, last_time-assign, take-length,
}

module _ (codec : Codec) (id : Bytes) where
  appended-IsSound :
      (s t : Store) (assigned : List Record)
      → IsDurable codec id s
      → t.manifest ≡ s.manifest
      → last_time s.manifest.updated_at assigned ≢ 0
      → IsSound codec id
          (appended assigned t).manifest
          (length (s.transcript ++ assigned))
          (length s.events)
  appended-IsSound s t assigned d e n = rw e (record {
    version = d.holds.sound.version;
    identity =
        manifest_valid-Reworked codec id s.manifest (appended assigned s).manifest
          d.holds.sound.identity n refl;
    active =
        active_run-budgets codec id s.manifest (appended assigned s).manifest s.manifest.active_run
          (λ k h. h) d.holds.sound.active;
    transcript_mark = omega (arith, d.transcript_count, length-append s.transcript assigned);
    event_mark = d.holds.sound.event_mark;
  })

  -- The manifest is written once all of the records have reached the log.
  write_appended :
      (s : Store) (assigned : List Record)
      → IsDurable codec id s
      → MayFollow codec id s assigned
      → last_time s.manifest.updated_at assigned ≢ 0
      → (append_transcript_log assigned s).0 ≡ ok tt
      → let u = appended assigned (append_transcript_log assigned s).1 in
        ((write_manifest u).0 ≡ ok tt → IsDurable codec id (write_manifest u).1)
        × Survival codec id s (write_manifest u).1.disk assigned []
  write_appended s assigned d f n o =
      let t = (append_transcript_log assigned s).1 in
      let u = appended assigned t in
      let (h, em, et, ee) = append_transcript_log-ok codec id s assigned d f o in
      let sound : IsSound codec id u.manifest (length (s.transcript ++ assigned))
          (length s.events) =
        appended-IsSound s t assigned d em n in
      let holds : Holds codec id u.disk s.manifest u.transcript u.events = rw (et, ee) h in
      let (m, written) =
        write_manifest-Holds codec id u s.manifest (s.transcript ++ assigned) s.events h sound in
      (
        (λ r.
            write_manifest-IsDurable codec id u s.manifest holds (rw (et, ee) sound)
              (rw (em, et) (omega (arith, d.transcript_count, length-append s.transcript assigned)))
              (ap (λ (m : Manifest). m.event_cursor) em ∙ (d.event_count ∙ ap length (sym ee)))
              d.session_name r),
        record {
          kept_records = length assigned;
          kept_events = 0;
          manifest = m;
          holds = rw (take-length assigned, append-nil) written;
        },
      )

  -- Let a durable session number the records of `AppendTranscript` on, and let the numbered records be such as may
  -- follow its log. However the disk operations end: if the call returns, the session is durable; and always
  -- the transcript ends in a partial line, or the files hold the log, the first of the records, and all events.
  pub append_transcript-IsDurable :
      (records assigned : List Record) (s : Store)
      → IsDurable codec id s
      → assign s.manifest.transcript_seq records ≡ ok assigned
      → MayFollow codec id s assigned
      → (is_ok (append_transcript records s).0 ≡ true
          → IsDurable codec id (append_transcript records s).1)
        × (((append_transcript records s).1.disk.transcript_file.torn ≡ true)
            ⊎ Survival codec id s (append_transcript records s).1.disk assigned [])
  append_transcript-IsDurable records assigned s d e f =
      elim (append_transcript-cases records assigned s e) [
        | inl stopped ↦ (
          (λ r. cc stopped.0),
          rw stopped.1 (stop (append_transcript_log-survives codec id s assigned d f)),
        )
        | inr wrote ↦
            let (returned, survived) =
              write_appended s assigned d f
                (last_time-assign _ _ records assigned e
                  (updated_at-ne-zero codec id s.manifest d.holds.sound.identity))
                wrote.0 in
            ((λ r. rw wrote.1 (returned (wrote.2 r))), inr (rw wrote.1 survived))
      ]
    where
      stop :
          (((append_transcript_log assigned s).1.disk.transcript_file.torn ≡ true)
            ⊎ ((k : ℕ) × Holds codec id
                  (append_transcript_log assigned s).1.disk
                  s.manifest
                  (s.transcript ++ take k assigned)
                  s.events))
          → ((append_transcript_log assigned s).1.disk.transcript_file.torn ≡ true)
            ⊎ Survival codec id s (append_transcript_log assigned s).1.disk assigned []
      stop (inl t) = inl t
      stop (inr (k, h)) = inr (record {
        kept_records = k;
        kept_events = 0;
        manifest = s.manifest;
        holds = rw append-nil h;
      })
