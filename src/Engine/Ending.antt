-- ===== src/Engine/Ending.antt =====
-- What `finishRun` leaves: internal/engine/session.go.
use coragent.Base.{
  ◌≡◌, refl, ◌⊎◌, inl, inr, append-nil, none, some, List, [], ◌∷◌, ◌++◌, Bytes, ap, ◌∙◌, sym,
}
use coragent.Errors.{ok, Result-cases, ok-injective}
use coragent.Exec
use coragent.Exec.{Exec, err-ne-ok}
use coragent.Transcript.{
  Record, Kind, Payload, RunOutcome, FailureCause, new_record, validate, run_outcome, outcome,
  cancellation_boundary, run_cancelled,
}
use coragent.Transcript
use coragent.Event.{Event}
use coragent.Store.{Store}
use coragent.Engine.{Session, idle, faulted}
use coragent.Engine.Facts.{append_payload, persist_event, publish_event, fault_session}
use coragent.Engine.Terminal.{
  finish_run, finish_durably, cancellation_step, terminal_steps, settle, terminal_kind,
  terminal_payload,
}
use coragent.Engine.Steps.{
  IsInactive, append_payload-IsAppended, persist_event-IsPersisted, finish_durably-lem,
}

-- A run that ended: its outcome is the last record, its terminal event the last event, and no run is active
-- in memory or in the manifest on the disk.
pub record IsEnded (run_id : Bytes) (o : RunOutcome) (s t : Session) : Type 0 where
  pub idle_again : t.state ≡ idle
  pub prior : List Record
  pub fact : Record
  pub fact_kind : fact.kind ≡ run_outcome
  pub fact_run : fact.run_id ≡ run_id
  pub records : t.records ≡ (s.records ++ prior) ++ fact ∷ []
  pub terminal : Event
  pub terminal_is : terminal.kind ≡ terminal_kind o
  pub terminal_run : terminal.run_id ≡ run_id
  pub history : t.history ≡ s.history ++ terminal ∷ []
  pub inactive : (d : Store) → t.durable ≡ some d → IsInactive d

cancellation_step-records :
    (run_id : Bytes) (o : RunOutcome) (s t : Session)
    → cancellation_step run_id o s ≡ (ok tt, t)
    → (prior : List Record) × (t.records ≡ s.records ++ prior) × (t.history ≡ s.history)
cancellation_step-records run_id run_cancelled s t h =
    let a = append_payload-IsAppended run_id cancellation_boundary Transcript.empty_object s t h in
    (a.fact ∷ [], a.extended, a.history)
cancellation_step-records run_id _ s t h =
    let there : t ≡ s = sym (ap (λ x. x.1) h) in
    ([], ap (λ x. x.records) there ∙ sym (append-nil s.records), ap (λ x. x.history) there)

-- The steps of `finishRun`, from the last one.
abbrev last_step : Bytes → Event → Exec Session Event
last_step run_id ev = Exec.◌>>◌ (finish_durably run_id) (Exec.pure ev)

abbrev event_step : Bytes → RunOutcome → FailureCause → Exec Session Event
event_step run_id o c =
    Exec.◌>>=◌ (persist_event run_id (terminal_kind o) (terminal_payload o c)) (last_step run_id)

abbrev outcome_payload : RunOutcome → FailureCause → Payload
outcome_payload o c = outcome (record { outcome = o; cause = c })

abbrev outcome_step : Bytes → RunOutcome → FailureCause → Exec Session Event
outcome_step run_id o c =
    Exec.◌>>◌ (append_payload run_id run_outcome (outcome_payload o c)) (event_step run_id o c)

terminal_steps-IsEnded :
    (run_id : Bytes) (o : RunOutcome) (c : FailureCause) (s t : Session) (ev : Event)
    → terminal_steps run_id o c s ≡ (ok ev, t)
    → IsEnded run_id o s (settle (ok ev) t)
unfolding terminal_steps settle publish_event
terminal_steps-IsEnded run_id o c s t ev h =
    let (_, s1, h1, k1) =
      Exec.>>=-eq-ok (cancellation_step run_id o) (λ _. outcome_step run_id o c) s h in
    let (_, s2, h2, k2) =
      Exec.>>=-eq-ok (append_payload run_id run_outcome (outcome_payload o c))
        (λ _. event_step run_id o c) s1 k1 in
    let (e, s3, h3, k3) =
      Exec.>>=-eq-ok (persist_event run_id (terminal_kind o) (terminal_payload o c))
        (last_step run_id) s2 k2 in
    let (_, s4, h4, k4) = Exec.>>=-eq-ok (finish_durably run_id) (λ _. Exec.pure e) s3 k3 in
    let (prior, before, silent) = cancellation_step-records run_id o s s1 h1 in
    let a = append_payload-IsAppended run_id run_outcome (outcome_payload o c) s1 s2 h2 in
    let b = persist_event-IsPersisted run_id (terminal_kind o) (terminal_payload o c) s2 s3 e h3 in
    let (kept, quiet, inactive) = finish_durably-lem run_id s3 s4 h4 in
    let event : ev ≡ e = sym (ok-injective (ap (λ x. x.0) k4)) in
    let there : t ≡ s4 = sym (ap (λ x. x.1) k4) in
    record {
      idle_again = refl;
      prior = prior;
      fact = a.fact;
      fact_kind = a.kind;
      fact_run = a.owner;
      records =
          ap (λ x. x.records) there
          ∙ kept
          ∙ b.records
          ∙ a.extended
          ∙ ap (λ z. z ++ a.fact ∷ []) before;
      terminal = ev;
      terminal_is = ap (λ x. x.kind) event ∙ b.kind;
      terminal_run = ap (λ x. x.run_id) event ∙ b.owner;
      history =
          ap (λ z. z ++ ev ∷ [])
            (ap (λ x. x.history) there ∙ quiet ∙ b.history ∙ a.history ∙ silent);
      inactive = λ d e. inactive d (sym (ap (λ x. x.durable) there) ∙ e);
    }

pub finish_run-ends :
    (run_id : Bytes) (o : RunOutcome) (c : FailureCause) (s : Session)
    → let t = finish_run run_id o c s in
      IsEnded run_id o s t ⊎ ((t.state ≡ faulted) × (t.subs ≡ []) × (t.run_cancel ≡ none))
unfolding finish_run
finish_run-ends run_id o c s = elim (Result-cases (terminal_steps run_id o c s).0) [
  | inl (x, f) ↦ inr (unfold settle fault_session in rw f (refl, refl, refl))
  | inr (ev, f) ↦ inl (
      rw f (
        terminal_steps-IsEnded run_id o c s (terminal_steps run_id o c s).1 ev
          (λ i. (f i, (terminal_steps run_id o c s).1))))
]
