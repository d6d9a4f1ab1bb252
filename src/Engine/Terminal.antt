-- ===== src/Engine/Terminal.antt =====
-- How a run ends: `finishRun`, `faultRunLocked` and `reconcileInterrupted` of internal/engine/session.go.
use coragent.Base.{
  Bool, true, false, ◌&&◌, ◌||◌, none, some, List, [], ◌∷◌, Bytes, codes, same, if◌then◌else◌,
}
use coragent.Errors.{Result, ok, err}
use coragent.Exec.{Exec, pure, lift, gets, ◌>>=◌, ◌>>◌}
use coragent.Transcript
use coragent.Transcript.{
  Record, RunOutcome, FailureCause, ToolCallPayload, tool_result, run_outcome,
  cancellation_boundary, run_completed, run_failed, run_cancelled, run_interrupted,
  unknown_run_outcome, cause_interrupted, interrupted, result, outcome,
}
use coragent.Transcript.Validate.{open_tool_calls_for_run, validate_transcript}
use coragent.Event
use coragent.Event.{Event, EventKind, EventPayload}
use coragent.Store.Session as Durable
use coragent.Engine.{Session, idle}
use coragent.Engine.Facts.{
  read_clock, durably, append_payload, persist_event, publish_event, emit, fault_session,
}

-- The terminal event of an outcome.
abbrev pub terminal_kind : RunOutcome → EventKind
terminal_kind run_cancelled = Event.run_cancelled
terminal_kind run_failed = Event.run_failed
terminal_kind run_interrupted = Event.run_failed
terminal_kind _ = Event.run_completed

abbrev pub terminal_payload : RunOutcome → FailureCause → EventPayload
terminal_payload run_failed c = Event.cause c
terminal_payload run_interrupted c = Event.cause c
terminal_payload _ c = Event.empty_object

abbrev pub cancellation_step : Bytes → RunOutcome → Exec Session (Unit {0})
cancellation_step run_id run_cancelled =
    append_payload run_id cancellation_boundary Transcript.empty_object
cancellation_step run_id _ = pure tt

-- `s.durable.FinishRun(runID, s.now())`
abbrev pub finish_durably : Bytes → Exec Session (Unit {0})
finish_durably run_id s = elim s.durable [
  | none ↦ (ok tt, s)
  | some d ↦ (do at ← read_clock; durably (Durable.finish_run run_id at) (pure tt)) s
]

-- The steps of `finishRun` up to the first error.
unfoldable pub terminal_steps : Bytes → RunOutcome → FailureCause → Exec Session Event
unfolding append_payload persist_event durably read_clock
terminal_steps run_id o c = do
  cancellation_step run_id o
  append_payload run_id run_outcome (outcome (record { outcome = o; cause = c }))
  ev ← persist_event run_id (terminal_kind o) (terminal_payload o c)
  finish_durably run_id
  pure ev

-- The end of `finishRun`: the event is published only now.
unfoldable pub settle : Result Event → Session → Session
unfolding publish_event fault_session
settle (ok ev) s = record (publish_event ev s) {
  state = idle;
  terminal_err = none;
  run_cancel = none;
  partial = [];
  active_tool = none;
}
settle (err e) s = fault_session e s

-- `finishRun`.
unfoldable pub finish_run : Bytes → RunOutcome → FailureCause → Session → Session
unfolding terminal_steps settle
finish_run run_id o c s = let (r, t) = terminal_steps run_id o c s in settle r t

abbrev pub is_outcome_of : Bytes → Record → Bool
is_outcome_of run_id r = same r.run_id run_id && elim r.kind [ run_outcome ↦ true | _ ↦ false ]

unfoldable pub has_outcome : Bytes → List Record → Bool
has_outcome run_id [] = false
has_outcome run_id (r ∷ rs) = is_outcome_of run_id r || has_outcome run_id rs

-- `isTerminal`.
unfoldable pub is_terminal : EventKind → Bool
is_terminal Event.run_completed = true
is_terminal Event.run_failed = true
is_terminal Event.run_cancelled = true
is_terminal _ = false

unfoldable pub has_terminal : Bytes → List Event → Bool
unfolding is_terminal
has_terminal run_id [] = false
has_terminal run_id (e ∷ es) = same e.run_id run_id && is_terminal e.kind || has_terminal run_id es

abbrev pub interrupted_result : ToolCallPayload → Transcript.Payload
interrupted_result c = result (record {
  call_id = c.call_id;
  outcome = interrupted;
  content = codes "read-only tool call interrupted by process exit; not repeated automatically";
})

-- A result for each open call.
unfoldable pub append_interrupted : Bytes → List ToolCallPayload → Exec Session (Unit {0})
unfolding append_payload
append_interrupted run_id [] = pure tt
append_interrupted run_id (c ∷ cs) = do
  append_payload run_id tool_result (interrupted_result c)
  append_interrupted run_id cs

-- The facts of a run that has no outcome.
unfoldable pub interrupt_run : Bytes → Exec Session (Unit {0})
unfolding append_interrupted
interrupt_run run_id = do
  rs ← gets (λ s. s.records)
  calls ← lift (open_tool_calls_for_run rs run_id)
  append_interrupted run_id calls
  append_payload run_id run_outcome
      (outcome (record { outcome = run_interrupted; cause = cause_interrupted }))

-- `reconcileInterrupted`.
unfoldable pub reconcile_interrupted : Bytes → Exec Session (Unit {0})
unfolding has_outcome has_terminal interrupt_run emit read_clock durably
reconcile_interrupted run_id = do
  rs ← gets (λ s. s.records)
  if has_outcome run_id rs then pure tt else interrupt_run run_id
  es ← gets (λ s. s.history)
  if has_terminal run_id es
      then pure tt
      else emit run_id Event.run_failed (Event.cause cause_interrupted)
  at ← read_clock
  durably (Durable.finish_run run_id at) (pure tt)
  all ← gets (λ s. s.records)
  lift (validate_transcript all)
