-- ===== src/Engine/Tests.antt =====
-- A small session for internal/engine: its calls run, and the theorems apply to them.
use coragent.Base.{
  ◌+◌, ◌≡◌, refl, Bool, true, false, Option, some, none, List, [], ◌∷◌, Bytes, codes, arith, same,
}
use coragent.Base.Dict.{get, put}
use coragent.Base.Decimal.{decimal}
use coragent.Errors.{Result, ok, err, corrupt, duplicate_command, run_active, sensitive_prompt}
use coragent.Transcript
use coragent.Transcript.Tests.{read_call, run_1}
use coragent.Event
use coragent.Event.{EventKind, warning, session_resumed, code}
use coragent.Store.{Store, Io, failed}
use coragent.Store.Session.{append_transcript}
use coragent.Store.Rewrites.{is_ok}
use coragent.Store.Open.{open_session, directory}
use coragent.Store.Tests.{session_id, flat_codec, new_session}
use coragent.SessionCommand
use coragent.SessionCommand.{Command, new_submit, new_cancel}
use coragent.Engine.{Session, idle, running, Subscriber}
use coragent.Base.{blank}
use coragent.Transcript.{document}
use coragent.Provider.{ToolCall}
use coragent.Engine.Calls.{validate_tool_calls, holds, ids, validate_tool_calls-apart}
use coragent.Engine.Facts.{append_tool_calls}
use coragent.Engine.Apply.{apply}
use coragent.Engine.Start.{initial}
use coragent.Engine.Observe.{observe, subscriber}
use coragent.Engine.Observers.{Later, Emission, emissions, observe-emissions}
use coragent.Engine.Retry.{retry_delay_of}
use coragent.Engine.Retry.Delay.{retry_delay_of-min}

abbrev secret : Bytes → Bool
secret p = same p (codes "key")

abbrev fresh : List Io → Session
fresh io = initial session_id [] secret (λ n. n + 5) (some (new_session io))

abbrev hello : Command
hello = new_submit (codes "c1") (codes "hello")

abbrev started : Session
started = (apply false none hello (fresh [])).1

submit_starts : ((apply false none hello (fresh [])).0 ≡ ok tt) × (started.state ≡ running)
unfolding apply SessionCommand.validate new_submit Transcript.validate Event.validate get put same
    decimal initial coragent.Store.Session.begin_run Transcript.new_record append_transcript
    coragent.Store.Session.assign coragent.Store.Files.append_transcript_log Event.new_event
    coragent.Store.Session.append_event coragent.Store.Files.append_event_log
submit_starts = (refl, refl)

second_submit_refused :
    (apply false none (new_submit (codes "c2") (codes "again")) started).0 ≡ err run_active
unfolding apply SessionCommand.validate new_submit Transcript.validate Event.validate get put same
    decimal initial coragent.Store.Session.begin_run Transcript.new_record append_transcript
    coragent.Store.Session.assign coragent.Store.Files.append_transcript_log Event.new_event
    coragent.Store.Session.append_event coragent.Store.Files.append_event_log
second_submit_refused = refl

same_id_refused : (apply false none (new_cancel (codes "c1")) started).0 ≡ err duplicate_command
unfolding apply SessionCommand.validate new_submit new_cancel Transcript.validate Event.validate get
    put same decimal initial coragent.Store.Session.begin_run Transcript.new_record
    append_transcript coragent.Store.Session.assign coragent.Store.Files.append_transcript_log
    Event.new_event coragent.Store.Session.append_event coragent.Store.Files.append_event_log
same_id_refused = refl

credential_refused :
    let (r, t) = apply false none (new_submit (codes "c3") (codes "key")) (fresh []) in
    (r ≡ err sensitive_prompt) × (t.state ≡ idle) × (t.records ≡ [])
unfolding apply SessionCommand.validate new_submit Transcript.validate Event.validate get put same
    decimal initial coragent.Store.Session.record_command Event.new_event
    coragent.Store.Session.append_event coragent.Store.Files.append_event_log
credential_refused = (refl, refl, refl)

-- A provider that uses a call ID again in a later response: the record is written, and the session cannot be
-- opened again.
abbrev called_once : Session
called_once = (append_tool_calls run_1 (read_call ∷ []) (fresh [])).1

abbrev called_twice : Session
called_twice = (append_tool_calls run_1 (read_call ∷ []) called_once).1

reused_id_accepted : (append_tool_calls run_1 (read_call ∷ []) called_once).0 ≡ ok tt
unfolding append_tool_calls Transcript.validate get put same initial Transcript.new_record
    append_transcript coragent.Store.Session.assign coragent.Store.Files.append_transcript_log
    coragent.Store.Files.write_manifest
reused_id_accepted = refl

abbrev reopening : Option Store → Result Store
reopening none = err corrupt
reopening (some d) = open_session flat_codec session_id [] (directory d.disk)

reused_id_corrupts :
    (is_ok (reopening called_once.durable) ≡ true) × (reopening called_twice.durable ≡ err corrupt)
unfolding append_tool_calls Transcript.validate get put same initial open_session
    Transcript.new_record append_transcript coragent.Store.Session.assign
    coragent.Store.Files.append_transcript_log coragent.Store.Files.write_manifest
    coragent.Store.Session.last_time
reused_id_corrupts = (refl, refl)

abbrev two_warnings : List Emission
two_warnings = ([], (warning, code (codes "w1"))) ∷ ([], (warning, code (codes "w2"))) ∷ []

observe-emissions_example :
    let t = emissions two_warnings (observe 0 (fresh [])).1 in
    (q : Subscriber) × (subscriber 0 t.subs ≡ some q) × Later 0 t.history q.queued
unfolding subscriber initial
observe-emissions_example = observe-emissions 0 two_warnings (fresh []) refl (omega arith)

retry_delay_of-min_example : retry_delay_of 3 ≡ 4000000000
retry_delay_of-min_example = retry_delay_of-min 3

abbrev read_file : Bytes → ToolCall
read_file id = record { id = id; name = codes "read"; arguments = document (codes "{}") }

two_calls_valid :
    validate_tool_calls (λ d. true) (read_file (codes "a") ∷ read_file (codes "b") ∷ []) ≡ true
unfolding validate_tool_calls same
two_calls_valid = refl

same_call_refused :
    validate_tool_calls (λ d. true) (read_file (codes "a") ∷ read_file (codes "a") ∷ []) ≡ false
unfolding validate_tool_calls same
same_call_refused = refl

validate_tool_calls-apart_example :
    (holds (codes "b") (ids (read_file (codes "a") ∷ [])) ≡ false) × (blank (codes "b") ≡ false)
validate_tool_calls-apart_example =
    validate_tool_calls-apart (λ d. true) (read_file (codes "a") ∷ []) (read_file (codes "b")) []
      two_calls_valid
