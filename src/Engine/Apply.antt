-- ===== src/Engine/Apply.antt =====
-- `Apply` of internal/engine/session.go. A call holds the lock from the first look at the state, so it is one
-- step. `context_done` is `ctx.Err() != nil`; `fresh` is what the instruction source returns in this call, `none`
-- where the session has no source.
use coragent.Base.{
  Bool, true, false, not, ◌||◌, Option, none, some, List, [], ◌∷◌, Bytes, codes, blank, same,
  if◌then◌else◌, is_some,
}
use coragent.Base.Dict.{get}
use coragent.Errors.{
  Result, ok, err, duplicate_command, session_closed, run_active, session_mismatch, session_faulted,
  sensitive_prompt, context_done, unsupported_command,
}
use coragent.Exec.{Exec, pure, raise, lift, gets, modify, ensure, ◌>>=◌, ◌>>◌}
use coragent.Transcript
use coragent.Prompt.{Instruction, sources_of}
use coragent.Transcript.{user_message, instructions_loaded, text, instructions}
use coragent.Event
use coragent.Event.{run_started, warning, session_resumed}
use coragent.Store.Session as Durable
use coragent.SessionCommand
use coragent.SessionCommand.{Command, submit, cancel, resume, close, unknown_kind, decode_submit}
use coragent.Engine.{Session, State, running, closed, faulted, RunHandle}
use coragent.Engine.Facts.{
  read_clock, durably, append_payload, emit, fault_session, record_command, begin_run,
}

unfoldable pub faulted_by : {A : Type 0} → Result A → Session → Session
unfolding fault_session
faulted_by (ok a) s = s
faulted_by (err e) s = fault_session e s

-- An error of the operation faults the session.
unfoldable pub or_fault : {A : Type 0} → Exec Session A → Exec Session A
unfolding faulted_by
or_fault op s = ((op s).0, faulted_by (op s).0 (op s).1)

unfoldable pub refused_by : Result Bytes → Session → Session
unfolding fault_session
refused_by (ok a) s = s
refused_by (err duplicate_command) s = s
refused_by (err session_closed) s = s
refused_by (err e) s = fault_session e s

-- A refused command ID and a closed session do not fault.
unfoldable pub or_fault_start : Exec Session Bytes → Exec Session Bytes
unfolding refused_by
or_fault_start op s = ((op s).0, refused_by (op s).0 (op s).1)

abbrev pub is_closed : State → Bool
is_closed closed = true
is_closed _ = false

abbrev pub is_running : State → Bool
is_running running = true
is_running _ = false

abbrev pub is_faulted : State → Bool
is_faulted faulted = true
is_faulted _ = false

abbrev load_docs : Option (Result (List Instruction)) → Exec Session (Unit {0})
load_docs none = pure tt
load_docs (some (ok docs)) = modify (λ s. record s { docs = docs })
load_docs (some (err e)) = raise e

-- The provenance of the instructions, if there are any.
abbrev append_docs : Bytes → List Instruction → Exec Session (Unit {0})
append_docs run_id [] = pure tt
append_docs run_id (d ∷ ds) =
    append_payload run_id instructions_loaded (instructions (sources_of (d ∷ ds)))

-- A prompt with a credential: the command counts, and a warning is emitted.
unfoldable pub refuse_prompt : Bytes → Exec Session (Unit {0})
unfolding or_fault record_command emit
refuse_prompt command_id = do
  record_command command_id
  or_fault (emit [] warning (Event.code (codes "detected_credential_in_prompt")))
  raise sensitive_prompt

-- A run starts: its facts, and then its goroutine.
unfoldable pub start_run :
    Option (Result (List Instruction)) → Bytes → Bytes → Exec Session (Unit {0})
unfolding or_fault or_fault_start begin_run append_payload emit
start_run fresh command_id prompt = do
  load_docs fresh
  run_id ← or_fault_start (begin_run command_id)
  docs ← gets (λ s. s.docs)
  or_fault (append_payload run_id user_message (text prompt))
  or_fault (append_docs run_id docs)
  or_fault (emit run_id run_started (Event.prompt prompt))
  modify (λ s. record s {
    run_cancel = some (record { run_id = run_id; goal = prompt; cancelled = false });
    state = running;
  })

-- `KindSubmit`.
unfoldable pub apply_submit : Option (Result (List Instruction)) → Command → Exec Session (Unit {0})
unfolding refuse_prompt start_run
apply_submit fresh c = do
  st ← gets (λ s. s.state)
  ensure (not (is_closed st)) session_closed
  ensure (not (is_running st)) run_active
  prompt ← lift (decode_submit c)
  detects ← gets (λ s. s.detects)
  if detects prompt then refuse_prompt c.id else start_run fresh c.id prompt

-- `s.runCancel()`
abbrev pub cancel_run : Option RunHandle → Option RunHandle
cancel_run none = none
cancel_run (some r) = some (record r { cancelled = true })

-- `KindCancel`.
unfoldable pub apply_cancel : Command → Exec Session (Unit {0})
unfolding record_command
apply_cancel c = do
  record_command c.id
  modify (λ s. if is_running s.state then record s { run_cancel = cancel_run s.run_cancel } else s)

-- `KindResume`.
unfoldable pub apply_resume : Command → Exec Session (Unit {0})
unfolding record_command or_fault emit
apply_resume c = do
  st ← gets (λ s. s.state)
  ensure (not (is_closed st)) session_closed
  ensure (not (is_running st)) run_active
  record_command c.id
  or_fault (emit [] session_resumed Event.empty_object)

-- The close fact, the durable close, and the event.
unfoldable pub close_open : Exec Session (Unit {0})
unfolding or_fault append_payload emit durably read_clock
close_open = do
  or_fault (append_payload [] Transcript.session_closed Transcript.empty_object)
  or_fault (λ s. elim s.durable [
    | none ↦ (ok tt, s)
    | some d ↦ (do at ← read_clock; durably (Durable.close at) (pure tt)) s
  ])
  modify (λ s. record s { state = closed })
  or_fault (emit [] Event.session_closed Event.empty_object)

-- `KindClose`.
unfoldable pub apply_close : Command → Exec Session (Unit {0})
unfolding record_command close_open
apply_close c = do
  st ← gets (λ s. s.state)
  ensure (not (is_running st)) run_active
  record_command c.id
  if is_closed st then pure tt else close_open

-- `Apply`.
unfoldable pub apply : Bool → Option (Result (List Instruction)) → Command → Exec Session (Unit {0})
unfolding apply_submit apply_cancel apply_resume apply_close
apply ctx_done fresh c = do
  ensure (not ctx_done) context_done
  lift (SessionCommand.validate c)
  id ← gets (λ s. s.id)
  ensure (blank c.session_id || same c.session_id id) session_mismatch
  st ← gets (λ s. s.state)
  ensure (not (is_faulted st)) session_faulted
  seen ← gets (λ s. s.seen)
  ensure (not (is_some (get seen c.id))) duplicate_command
  elim c.kind [
    | submit ↦ apply_submit fresh c
    | cancel ↦ apply_cancel c
    | resume ↦ apply_resume c
    | close ↦ apply_close c
    | unknown_kind k ↦ raise unsupported_command
  ]
