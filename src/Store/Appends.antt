-- ===== src/Store/Appends.antt =====
-- The appends of a durable session, whatever their disk operations do: what returns leaves files that
-- are as the memory, and what fails leaves a partial line, which `Open` rejects, or files that hold all
-- that was there and some of the new records.
use coragent.Base.{
  ℕ, zero, suc, ◌+◌, true, false, ◌≡◌, ◌≢◌, refl, ◌⊎◌, inl, inr, List, [], ◌∷◌, ◌++◌, Bytes, arith,
  length, length-append, ◌∙◌, take, drop, take-append-drop, All, All-append, All-take, append-nil,
  append_assoc, map-append, ap, sym, subst, ltb, ◌&&◌, Bool-cases,
}
use coragent.Errors
use coragent.Errors.{Result, ok, err, ok-injective}
use coragent.Transcript.{Record, validate}
use coragent.Transcript.Validate.{validate_records}
use coragent.Transcript.Pairing.{validate_records-init, validate-time}
use coragent.Event.{Event}
use coragent.Store.{Manifest, LogFile, Io, done, failed, stored, Disk, Store}
use coragent.Store.Files.{write_lines, append_lines, append_transcript_log, write_manifest, next_io}
use coragent.Store.Session.{assign, last_time, append_transcript}
use coragent.Store.Open.{Codec}
use coragent.Store.Durable.{IsReadable, Holds, IsDurable, whole}
use coragent.Store.Rewrites.{is_ok}

pub take-length : {A : Type 0} (xs : List A) → take (length xs) xs ≡ xs
take-length [] = refl
take-length (x ∷ xs) = rw (take-length xs)

pub take-nil : {A : Type 0} (k : ℕ) → take {A = A} k [] ≡ []
take-nil zero = refl
take-nil (suc k) = refl

write_lines-whole :
    {A : Type 0} (vs ws : List A) → write_lines (whole vs) ws false ≡ whole (vs ++ ws)
unfolding write_lines
write_lines-whole vs [] = rw append-nil
write_lines-whole vs (w ∷ ws) = rw map-append

write_lines-partial :
    {A : Type 0} (f : LogFile A) (ws : List A) → (write_lines f ws true).torn ≡ true
unfolding write_lines
write_lines-partial f [] = ground arith
write_lines-partial f (w ∷ ws) = ground arith

-- An append to a file of complete lines leaves a partial line, or a file of complete lines again.
pub append_lines-whole :
    {A : Type 0} (f : LogFile A) (vs ws : List A) (o : Io)
    → f ≡ whole vs
    → ((append_lines f ws o).torn ≡ true)
      ⊎ ((k : ℕ) × (append_lines f ws o ≡ whole (vs ++ take k ws)))
unfolding append_lines
append_lines-whole f vs ws done e =
    inr
      (length ws, rw e (write_lines-whole vs ws ∙ ap (λ z. whole (vs ++ z)) (sym (take-length ws))))
append_lines-whole f vs ws (failed n p) e = elim (Bool-cases (p && ltb n (length ws))) [
  | inl cut ↦ inl (rw cut (write_lines-partial f (take n ws)))
  | inr clean ↦ inr (n, rw clean (rw e (write_lines-whole vs (take n ws))))
]

pub append_lines-done :
    {A : Type 0} (f : LogFile A) (vs ws : List A)
    → f ≡ whole vs
    → append_lines f ws done ≡ whole (vs ++ ws)
unfolding append_lines
append_lines-done f vs ws e = rw e (write_lines-whole vs ws)

-- What an append to the transcript leaves alone, and how it ends.
pub record LogAppended (s t : Store) (records : List Record) (o : Io) : Type 0 where
  pub manifest : t.manifest ≡ s.manifest
  pub transcript : t.transcript ≡ s.transcript
  pub events : t.events ≡ s.events
  pub manifest_file : t.disk.manifest_file ≡ s.disk.manifest_file
  pub transcript_file : t.disk.transcript_file ≡ append_lines s.disk.transcript_file records o
  pub events_file : t.disk.events_file ≡ s.disk.events_file

pub append_transcript_log-LogAppended :
    (s : Store) (r : Record) (rs : List Record)
    → LogAppended s (append_transcript_log (r ∷ rs) s).1 (r ∷ rs) (next_io s.io)
unfolding append_transcript_log
append_transcript_log-LogAppended s r rs = record {
  manifest = ground arith;
  transcript = ground arith;
  events = ground arith;
  manifest_file = ground arith;
  transcript_file = ground arith;
  events_file = ground arith;
}

append_transcript_log-done :
    (s : Store) (r : Record) (rs : List Record)
    → (append_transcript_log (r ∷ rs) s).0 ≡ ok tt
    → next_io s.io ≡ done
unfolding append_transcript_log
append_transcript_log-done s r rs h = ground arith

-- The memory of `AppendTranscript` before it writes the manifest.
abbrev pub appended : List Record → Store → Store
appended records s = record s {
  transcript = s.transcript ++ records;
  manifest = record s.manifest {
    transcript_seq = s.manifest.transcript_seq + length records;
    updated_at = last_time s.manifest.updated_at records;
  };
}

pub append_transcript-cases :
    (records assigned : List Record) (s : Store)
    → assign s.manifest.transcript_seq records ≡ ok assigned
    → ((is_ok (append_transcript records s).0 ≡ false)
        × ((append_transcript records s).1 ≡ (append_transcript_log assigned s).1))
      ⊎ (((append_transcript_log assigned s).0 ≡ ok tt)
          × ((append_transcript records s).1
              ≡ (write_manifest (appended assigned (append_transcript_log assigned s).1)).1)
          × (is_ok (append_transcript records s).0 ≡ true
              → (write_manifest (appended assigned (append_transcript_log assigned s).1)).0
                ≡ ok tt))
append_transcript-cases records assigned s e = unfold append_transcript in rw e (ground arith)

abbrev pub numbered : ℕ → Record → Record
numbered seq r = record r { seq = seq + 1 }

-- The parts of an accepted numbering.
pub assign-cons :
    (seq : ℕ) (r : Record) (rs : List Record) {assigned : List Record}
    → assign seq (r ∷ rs) ≡ ok assigned
    → (rest : List Record) × (validate (numbered seq r) ≡ ok tt)
      × (assign (seq + 1) rs ≡ ok rest)
      × (assigned ≡ numbered seq r ∷ rest)
unfolding assign
assign-cons seq r rs {assigned} h =
    let (_, v, a) =
      Errors.>>=-eq-ok (validate (numbered seq r))
        (λ _. Errors.◌>>=◌ (assign (seq + 1) rs) λ rest. ok (numbered seq r ∷ rest)) h in
    let (rest, e, f) =
      Errors.>>=-eq-ok (assign (seq + 1) rs) (λ rest. ok (numbered seq r ∷ rest)) a in
    (rest, v, e, sym (ok-injective f))

assign-nil : (seq : ℕ) {assigned : List Record} → assign seq [] ≡ ok assigned → assigned ≡ []
unfolding assign
assign-nil seq h = cc

-- The numbered records are valid, so the time of the last one is set.
pub last_time-assign :
    (seq t : ℕ) (records assigned : List Record)
    → assign seq records ≡ ok assigned
    → t ≢ 0
    → last_time t assigned ≢ 0
unfolding last_time
last_time-assign seq t [] assigned h n = rw (assign-nil seq h) n
last_time-assign seq t (r ∷ rs) assigned h n =
    let (rest, v, e, f) = assign-cons seq r rs h in
    rw f (last_time-assign (seq + 1) r.time rs rest e (validate-time (numbered seq r) v))

module _ (codec : Codec) (id : Bytes) where
  -- Records that may follow a log: the whole is accepted, and each fits a line.
  pub record MayFollow (s : Store) (records : List Record) : Type 0 where
    pub log : validate_records (s.transcript ++ records) ≡ ok tt
    pub short : All (λ r. codec.long_record r ≡ false) records

  -- The files hold all that was there, and the first of the new records and events.
  pub record Survival (s : Store) (disk : Disk) (records : List Record) (events : List Event)
      : Type 0 where
    pub kept_records : ℕ
    pub kept_events : ℕ
    pub manifest : Manifest
    pub holds :
        Holds codec id disk manifest
          (s.transcript ++ take kept_records records)
          (s.events ++ take kept_events events)

  MayFollow-IsReadable :
      (s : Store) (records : List Record) (k : ℕ)
      → IsReadable codec id s.transcript s.events
      → MayFollow s records
      → IsReadable codec id (s.transcript ++ take k records) s.events
  MayFollow-IsReadable s records k h f = record {
    log =
        validate_records-init (s.transcript ++ take k records) (drop k records)
          (rw (append_assoc, take-append-drop k records) f.log);
    facts = h.facts;
    short_records =
        All-append _ s.transcript (take k records) h.short_records (All-take _ k records f.short);
    short_events = h.short_events;
  }

  -- The files after the first `k` of the records have reached the log.
  pub extended :
      (disk : Disk) (k : ℕ) (records : List Record) (s : Store)
      → IsDurable codec id s
      → MayFollow s records
      → disk.manifest_file ≡ stored s.manifest
      → disk.transcript_file ≡ whole (s.transcript ++ take k records)
      → disk.events_file ≡ whole s.events
      → Holds codec id disk s.manifest (s.transcript ++ take k records) s.events
  extended disk k records s d f m t e = record {
    manifest_file = m;
    transcript_file = t;
    events_file = e;
    sound = record {
      version = d.holds.sound.version;
      identity = d.holds.sound.identity;
      active = d.holds.sound.active;
      transcript_mark =
          omega (arith, d.transcript_count, length-append s.transcript (take k records));
      event_mark = d.holds.sound.event_mark;
    };
    readable = MayFollow-IsReadable s records k d.holds.readable f;
  }

  pub append_transcript_log-survives :
      (s : Store) (records : List Record)
      → IsDurable codec id s
      → MayFollow s records
      → let t = (append_transcript_log records s).1 in
        (t.disk.transcript_file.torn ≡ true)
        ⊎ ((k : ℕ) × Holds codec id t.disk s.manifest (s.transcript ++ take k records) s.events)
  append_transcript_log-survives s [] d f =
      inr (0, unfold append_transcript_log in rw append-nil d.holds)
  append_transcript_log-survives s (r ∷ rs) d f =
      let l = append_transcript_log-LogAppended s r rs in
      elim (append_lines-whole s.disk.transcript_file s.transcript (r ∷ rs) (next_io s.io)
        d.holds.transcript_file) [
          | inl torn ↦ inl (rw l.transcript_file torn)
          | inr kept ↦ inr (
            kept.0,
            extended (append_transcript_log (r ∷ rs) s).1.disk kept.0 (r ∷ rs) s d f
                (l.manifest_file ∙ d.holds.manifest_file) (l.transcript_file ∙ kept.1)
                (l.events_file ∙ d.holds.events_file),
          )
        ]

  -- If the append returns, all of the records have reached the log, and the memory is as before.
  pub append_transcript_log-ok :
      (s : Store) (records : List Record)
      → IsDurable codec id s
      → MayFollow s records
      → (append_transcript_log records s).0 ≡ ok tt
      → let t = (append_transcript_log records s).1 in
        Holds codec id t.disk s.manifest (s.transcript ++ records) s.events
        × (t.manifest ≡ s.manifest)
        × (t.transcript ≡ s.transcript)
        × (t.events ≡ s.events)
  append_transcript_log-ok s [] d f r =
      unfold append_transcript_log in (rw append-nil d.holds, refl, refl, refl)
  append_transcript_log-ok s (x ∷ xs) d f r =
      let l = append_transcript_log-LogAppended s x xs in
      let all =
        append_lines-done s.disk.transcript_file s.transcript (x ∷ xs) d.holds.transcript_file in
      let e = append_transcript_log-done s x xs r in
      (
        subst
            (λ z.
              Holds codec id (append_transcript_log (x ∷ xs) s).1.disk s.manifest
                (s.transcript ++ z) s.events)
            (take-length (x ∷ xs))
            (extended (append_transcript_log (x ∷ xs) s).1.disk (length (x ∷ xs)) (x ∷ xs) s d f
              (l.manifest_file ∙ d.holds.manifest_file)
              (l.transcript_file
                ∙ ap (append_lines s.disk.transcript_file (x ∷ xs)) e
                ∙ all
                ∙ ap (λ z. whole (s.transcript ++ z)) (sym (take-length (x ∷ xs))))
              (l.events_file ∙ d.holds.events_file)),
        l.manifest,
        l.transcript,
        l.events,
      )
