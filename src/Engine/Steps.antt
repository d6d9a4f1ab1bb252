-- ===== src/Engine/Steps.antt =====
-- What the steps of a fact leave when they return: the helpers of internal/engine/session.go.
use coragent.Base.{
  ℕ, ◌+◌, ◌≡◌, refl, inl, inr, Option-cases, length, subst, none, some, List, [], ◌∷◌, ◌++◌, Bytes,
  arith, ap, ◌∙◌, sym,
}
use coragent.Errors.{Result, ok, Result-cases, ok-injective, >>=-eq-ok, require, unknown_event_kind}
use mathlib.Core.Option.{some-injective}
use coragent.Exec.{err-ne-ok}
use coragent.Transcript.{Record, Kind, Payload, new_record}
use coragent.Event
use coragent.Event.{registered, Event, EventKind, EventPayload, new_event}
use coragent.Store.{Store, stored}
use coragent.Store.Files.{write_manifest}
use coragent.Store.Session.{append_transcript, append_event, assign}
use coragent.Store.Session as Durable
use coragent.Engine.{Session}
use coragent.Engine.Facts.{
  append_payload, append_records, persist_event, read_clock, durably, numbered,
}
use coragent.Engine.Terminal.{finish_durably}

new_record-fields :
    (run_id : Bytes) (at : ℕ) (k : Kind) (p : Payload) (r : Record)
    → new_record run_id at k p ≡ ok r
    → (r.kind ≡ k) × (r.run_id ≡ run_id)
unfolding new_record
new_record-fields run_id at k p r h = ground arith

abbrev made_event : Bytes → Bytes → ℕ → ℕ → EventKind → EventPayload → Event
made_event id run_id cursor at k p = record {
  session_id = id;
  run_id = run_id;
  cursor = cursor;
  time = at;
  kind = k;
  payload = p;
}

new_event-fields :
    (id run_id : Bytes) (cursor at : ℕ) (k : EventKind) (p : EventPayload) (e : Event)
    → new_event id run_id cursor at k p ≡ ok e
    → (e.kind ≡ k) × (e.run_id ≡ run_id) × (e.cursor ≡ cursor) × (e.payload ≡ p)
unfolding new_event
new_event-fields id run_id cursor at k p e h =
    let (_, known, checked) = >>=-eq-ok (require (registered k) unknown_event_kind) _ h in
    let (_, valid, made) =
      >>=-eq-ok (Event.validate (made_event id run_id cursor at k p)) _ checked in
    let same : made_event id run_id cursor at k p ≡ e = ok-injective made in
    (
      ap (λ x. x.kind) (sym same),
      ap (λ x. x.run_id) (sym same),
      ap (λ x. x.cursor) (sym same),
      ap (λ x. x.payload) (sym same),
    )

-- The records that `AppendTranscript` returns are those it numbered.
append_transcript-assigned :
    (rs got : List Record) (d : Store)
    → (append_transcript rs d).0 ≡ ok got
    → assign d.manifest.transcript_seq rs ≡ ok got
append_transcript-assigned rs got d h = elim (Result-cases (assign d.manifest.transcript_seq rs)) [
  | inl f ↦ unfold append_transcript in cc (rw f.1 at h)
  | inr f ↦ unfold append_transcript in (let k = rw f.1 at h in f.1 ∙ ground arith)
]

assign-one :
    (n : ℕ) (r : Record) (got : List Record)
    → assign n (r ∷ []) ≡ ok got
    → got ≡ record r { seq = n + 1 } ∷ []
unfolding assign
assign-one n r got h = ground arith

append_records-one :
    (r : Record) (s t : Session)
    → append_records (r ∷ []) s ≡ (ok tt, t)
    → (n : ℕ) × (t.records ≡ s.records ++ record r { seq = n } ∷ []) × (t.history ≡ s.history)
unfolding append_records durably numbered
append_records-one r s t h = elim (Option-cases s.durable) [
  | inl e ↦ (
    length s.records + 1,
    ap (λ x. x.1.records) (sym (rw e at h)),
    ap (λ x. x.1.history) (sym (rw e at h)),
  )
  | inr (d, e) ↦ elim (Result-cases (append_transcript (r ∷ []) d).0) [
    | inl (x, f) ↦ absurd (err-ne-ok x (rw (e, f) at h))
    | inr (got, f) ↦
        let one = assign-one _ r got (append_transcript-assigned (r ∷ []) got d f) in
        (
          d.manifest.transcript_seq + 1,
          ap (λ x. x.1.records) (sym (rw (e, f, one) at h)),
          ap (λ x. x.1.history) (sym (rw (e, f, one) at h)),
        )
  ]
]

-- The session after a fact of the run has been appended.
pub record IsAppended (run_id : Bytes) (k : Kind) (s t : Session) : Type 0 where
  pub fact : Record
  pub kind : fact.kind ≡ k
  pub owner : fact.run_id ≡ run_id
  pub extended : t.records ≡ s.records ++ fact ∷ []
  pub history : t.history ≡ s.history

pub append_payload-IsAppended :
    (run_id : Bytes) (k : Kind) (p : Payload) (s t : Session)
    → append_payload run_id k p s ≡ (ok tt, t)
    → IsAppended run_id k s t
unfolding append_payload read_clock
append_payload-IsAppended run_id k p s t h =
    elim (Result-cases (new_record run_id (s.now s.ticks) k p)) [
      | inl (x, f) ↦ absurd (err-ne-ok x (rw f at h))
      | inr (r, f) ↦
          let (kind, owner) = new_record-fields run_id (s.now s.ticks) k p r f in
          let (n, extended, history) =
            append_records-one r (record s { ticks = s.ticks + 1 }) t (rw f at h) in
          record {
            fact = record r { seq = n };
            kind = kind;
            owner = owner;
            extended = extended;
            history = history;
          }
    ]

-- The event that was persisted; it is not published yet.
pub record IsPersisted (run_id : Bytes) (k : EventKind) (p : EventPayload) (s t : Session)
    (ev : Event) : Type 0 where
  pub kind : ev.kind ≡ k
  pub owner : ev.run_id ≡ run_id
  pub content : ev.payload ≡ p
  pub place : ev.cursor ≡ s.cursor + 1
  pub counted : t.cursor ≡ s.cursor + 1
  pub records : t.records ≡ s.records
  pub history : t.history ≡ s.history

persisted :
    (run_id : Bytes) (k : EventKind) (p : EventPayload) (s u t : Session) (e ev : Event)
    → (e.kind ≡ k) × (e.run_id ≡ run_id) × (e.cursor ≡ s.cursor + 1) × (e.payload ≡ p)
    → (u.cursor ≡ s.cursor + 1) × (u.records ≡ s.records) × (u.history ≡ s.history)
    → ◌≡◌ {A = Result Event × Session} (ok e, u) (ok ev, t)
    → IsPersisted run_id k p s t ev
persisted run_id k p s u t e ev (kind, owner, place, content) (counted, records, history) q =
    let event : ev ≡ e = sym (ok-injective (ap (λ x. x.0) q)) in
    let there : t ≡ u = sym (ap (λ x. x.1) q) in
    record {
      kind = ap (λ x. x.kind) event ∙ kind;
      owner = ap (λ x. x.run_id) event ∙ owner;
      content = ap (λ x. x.payload) event ∙ content;
      place = ap (λ x. x.cursor) event ∙ place;
      counted = ap (λ x. x.cursor) there ∙ counted;
      records = ap (λ x. x.records) there ∙ records;
      history = ap (λ x. x.history) there ∙ history;
    }

pub persist_event-IsPersisted :
    (run_id : Bytes) (k : EventKind) (p : EventPayload) (s t : Session) (ev : Event)
    → persist_event run_id k p s ≡ (ok ev, t)
    → IsPersisted run_id k p s t ev
unfolding persist_event read_clock durably
persist_event-IsPersisted run_id k p s t ev h =
    elim (Result-cases (new_event s.id run_id (s.cursor + 1) (s.now s.ticks) k p)) [
      | inl (x, f) ↦ absurd (err-ne-ok x (rw f at h))
      | inr (e, f) ↦
          let fields = new_event-fields s.id run_id (s.cursor + 1) (s.now s.ticks) k p e f in
          elim (Option-cases s.durable) [
            | inl g ↦ persisted run_id k p s _ t e ev fields (refl, refl, refl) (rw (f, g) at h)
            | inr (d, g) ↦ elim (Result-cases (append_event e d).0) [
              | inl (x, b) ↦ absurd (err-ne-ok x (rw (f, g, b) at h))
              | inr (_, b) ↦
                  persisted run_id k p s _ t e ev fields (refl, refl, refl) (rw (f, g, b) at h)
            ]
          ]
    ]

-- No run is active, neither in memory nor in the manifest on the disk.
abbrev pub IsInactive : Store → Type 0
IsInactive d = (d.manifest.active_run ≡ none) × (d.disk.manifest_file ≡ stored d.manifest)

finish_run-IsInactive :
    (run_id : Bytes) (now : ℕ) (d : Store)
    → (Durable.finish_run run_id now d).0 ≡ ok tt
    → IsInactive (Durable.finish_run run_id now d).1
unfolding Durable.finish_run write_manifest
finish_run-IsInactive run_id now d h = ground arith

-- The durable end of the run: the manifest has no active run.
pub finish_durably-lem :
    (run_id : Bytes) (s t : Session)
    → finish_durably run_id s ≡ (ok tt, t)
    → (t.records ≡ s.records)
      × (t.history ≡ s.history)
      × ((d : Store) → t.durable ≡ some d → IsInactive d)
unfolding durably read_clock
finish_durably-lem run_id s t h = elim (Option-cases s.durable) [
  | inl g ↦
      let there : t ≡ record s { durable = none } = sym (ap (λ x. x.1) (rw g at h)) in
      (
        ap (λ x. x.records) there,
        ap (λ x. x.history) there,
        λ d e. cc (ap (λ x. x.durable) there, e),
      )
  | inr (d, g) ↦ elim (Result-cases (Durable.finish_run run_id (s.now s.ticks) d).0) [
    | inl (x, b) ↦ absurd (err-ne-ok x (rw (g, b) at h))
    | inr (_, b) ↦
        let there = sym (ap (λ x. x.1) (rw (g, b) at h)) in
        (
          ap (λ x. x.records) there,
          ap (λ x. x.history) there,
          λ d' e.
              subst IsInactive (some-injective _ _ (sym (ap (λ x. x.durable) there) ∙ e))
                (finish_run-IsInactive run_id (s.now s.ticks) d b),
        )
  ]
]
