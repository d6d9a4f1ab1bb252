-- ===== src/Store/Crash.antt =====
-- Crash consistency: any sequence of calls, with any failures of the disk, up to the first call that fails;
-- then the process ends, and `Open` reads the files.
use coragent.Base.{
  ℕ, true, false, ◌≡◌, ◌≢◌, refl, ◌⊎◌, inl, inr, List, [], ◌∷◌, ◌++◌, Bytes, take, append-nil, ap,
  subst,
}
use coragent.Base.Int.{ℤ}
use coragent.Errors.{Result, ok, err}
use coragent.Transcript.{Record}
use coragent.Event
use coragent.Event.{Event}
use coragent.Exec.{Exec}
use coragent.Store.{Disk, Io, Store, Manifest}
use coragent.Store.Session.{
  assign, append_transcript, append_event, begin_run, record_command, finish_run, close,
  reserve_budget, BudgetCounter,
}
use coragent.Store.Open.{Codec, open_session, directory}
use coragent.Store.Durable.{Holds, IsDurable, open_session-Holds, reopened}
use coragent.Store.Rewrites.{is_ok}
use coragent.Store.Promises.{
  Promise, begin_run-Promise, record_command-Promise, finish_run-Promise, close-Promise,
  reserve_budget-Promise,
}
use coragent.Store.Appends.{MayFollow, Survival}
use coragent.Store.Transcripts.{append_transcript-IsDurable}
use coragent.Store.Facts.{append_event-IsDurable}

-- The calls of the engine on a store.
pub data Call : Type 0 where
  records : List Record → Call
  fact : Event → Call
  begin : Bytes → ℕ → Call
  command : Bytes → ℕ → Call
  finish : Bytes → ℕ → Call
  close_at : ℕ → Call
  reserve : Bytes → BudgetCounter → ℤ → Call

abbrev pub void : {A : Type 0} → Result A → Result (Unit {0})
void (ok a) = ok tt
void (err e) = err e

-- One call, without its result.
abbrev pub perform : Call → Exec Store (Unit {0})
perform (records rs) s = (void (append_transcript rs s).0, (append_transcript rs s).1)
perform (fact e) s = append_event e s
perform (begin c now) s = (void (begin_run c now s).0, (begin_run c now s).1)
perform (command c now) s = record_command c now s
perform (finish r now) s = finish_run r now s
perform (close_at now) s = close now s
perform (reserve r k a) s = (void (reserve_budget r k a s).0, (reserve_budget r k a s).1)

module _ (codec : Codec) (id : Bytes) where
  -- What the engine has to respect: records continue the log, events are valid, and clocks are set.
  pub data Admissible (s : Store) : Call → Type 0 where
    records_ok :
        {rs as' : List Record}
        → assign s.manifest.transcript_seq rs ≡ ok as'
        → MayFollow codec id s as'
        → Admissible s (records rs)
    fact_ok :
        {e : Event} → Event.validate e ≡ ok tt → codec.long_event e ≡ false → Admissible s (fact e)
    begin_ok : {c : Bytes} {now : ℕ} → now ≢ 0 → Admissible s (begin c now)
    command_ok : {c : Bytes} {now : ℕ} → now ≢ 0 → Admissible s (command c now)
    finish_ok : {r : Bytes} {now : ℕ} → now ≢ 0 → Admissible s (finish r now)
    close_ok : {now : ℕ} → now ≢ 0 → Admissible s (close_at now)
    reserve_ok : {r : Bytes} {k : BudgetCounter} {a : ℤ} → Admissible s (reserve r k a)

  -- The files end in a partial line, or they can be opened, and hold all records and events of the session.
  pub record Reopens (s : Store) (disk : Disk) : Type 0 where
    pub more_records : List Record
    pub more_events : List Event
    pub manifest : Manifest
    pub opened :
        (io : List Io)
        → open_session codec id io (directory disk)
          ≡ ok (reopened disk io manifest (s.transcript ++ more_records) (s.events ++ more_events))

  abbrev pub IsTorn : Disk → Type 0
  IsTorn disk = (disk.transcript_file.torn ≡ true) ⊎ (disk.events_file.torn ≡ true)

  -- Calls that all return, one after the other.
  pub data Runs (s : Store) : Store → Type 0 where
    nothing : Runs s s
    returns :
        {t u : Store} (c : Call) → Runs s t → Admissible t c → perform c t ≡ (ok tt, u) → Runs s u

  reopens :
      (s : Store) (disk : Disk) (rs : List Record) (es : List Event)
      → IsDurable codec id s
      → Survival codec id s disk rs es
      → Reopens s disk
  reopens s disk rs es d v = record {
    more_records = take v.kept_records rs;
    more_events = take v.kept_events es;
    manifest = v.manifest;
    opened = λ io. open_session-Holds codec id disk v.manifest _ _ io d.session_name v.holds;
  }

  kept :
      (s : Store) (disk : Disk)
      → IsDurable codec id s
      → ((m : Manifest) × Holds codec id disk m s.transcript s.events)
      → Reopens s disk
  kept s disk d (m, h) = record {
    more_records = [];
    more_events = [];
    manifest = m;
    opened = λ io.
        rw (append-nil, append-nil) (open_session-Holds codec id disk m _ _ io d.session_name h);
  }

  -- What one call leaves, on the way to the two theorems below.
  abbrev Left : Store → Call → Type 0
  Left s c =
      (is_ok (perform c s).0 ≡ true → IsDurable codec id (perform c s).1)
      × (IsTorn (perform c s).1.disk ⊎ Reopens s (perform c s).1.disk)

  is_ok-void : {A : Type 0} (r : Result A) → is_ok (void r) ≡ true → is_ok r ≡ true
  is_ok-void (ok a) h = refl
  is_ok-void (err e) h = h

  promised :
      {A : Type 0} (call : Exec Store A) (s : Store)
      → IsDurable codec id s
      → Promise codec id s call
      → (is_ok (call s).0 ≡ true → IsDurable codec id (call s).1)
        × (IsTorn (call s).1.disk ⊎ Reopens s (call s).1.disk)
  promised call s d p = (p.returned, inr (kept s (call s).1.disk d p.survived))

  perform-Left : (s : Store) (c : Call) → IsDurable codec id s → Admissible s c → Left s c
  perform-Left s (records rs) d (records_ok {as' = assigned} e f) =
      let (r, v) = append_transcript-IsDurable codec id rs assigned s d e f in
      ((λ k. r (is_ok-void _ k)), torn_or v)
    where
      torn_or :
          (((append_transcript rs s).1.disk.transcript_file.torn ≡ true)
            ⊎ Survival codec id s (append_transcript rs s).1.disk assigned [])
          → IsTorn (append_transcript rs s).1.disk ⊎ Reopens s (append_transcript rs s).1.disk
      torn_or (inl t) = inl (inl t)
      torn_or (inr v) = inr (reopens s _ assigned [] d v)
  perform-Left s (fact e) d (fact_ok v short) =
      let (r, w) = append_event-IsDurable codec id e s d v short in (r, torn_or w)
    where
      torn_or :
          (((append_event e s).1.disk.events_file.torn ≡ true)
            ⊎ Survival codec id s (append_event e s).1.disk [] (e ∷ []))
          → IsTorn (append_event e s).1.disk ⊎ Reopens s (append_event e s).1.disk
      torn_or (inl t) = inl (inr t)
      torn_or (inr v) = inr (reopens s _ [] (e ∷ []) d v)
  perform-Left s (begin c now) d (begin_ok n) =
      let (r, v) = promised (begin_run c now) s d (begin_run-Promise codec id c now s n d) in
      ((λ k. r (is_ok-void _ k)), v)
  perform-Left s (command c now) d (command_ok n) =
      promised (record_command c now) s d (record_command-Promise codec id c now s n d)
  perform-Left s (finish c now) d (finish_ok n) =
      promised (finish_run c now) s d (finish_run-Promise codec id c now s n d)
  perform-Left s (close_at now) d (close_ok n) =
      promised (close now) s d (close-Promise codec id now s n d)
  perform-Left s (reserve r k a) d reserve_ok =
      let (x, v) =
        promised (reserve_budget r k a) s d (reserve_budget-Promise codec id r k a s d) in
      ((λ z. x (is_ok-void _ z)), v)

  -- Admissible calls that all return keep a durable session durable.
  pub Runs-IsDurable : {s t : Store} → IsDurable codec id s → Runs s t → IsDurable codec id t
  Runs-IsDurable d nothing = d
  Runs-IsDurable d (returns {t = t} c r a e) =
      let before = Runs-IsDurable d r in
      subst (λ z. IsDurable codec id z) (ap (λ z. z.1) e)
        ((perform-Left t c before a).0 (ap (λ z. is_ok z.0) e))

  -- Let admissible calls on a durable session return, and let one more admissible call be made, whatever its disk
  -- operations do. Then the files end in a partial line, or `Open` returns a session that holds every
  -- record and every event from before the last call, in order.
  pub crash_consistent :
      {s t : Store} (c : Call)
      → IsDurable codec id s
      → Runs s t
      → Admissible t c
      → IsTorn (perform c t).1.disk ⊎ Reopens t (perform c t).1.disk
  crash_consistent {t = t} c d r a = (perform-Left t c (Runs-IsDurable d r) a).1
