-- ===== src/Engine/Run.antt =====
-- The run loop of internal/engine/session.go: `run` and `buildRequest`. The provider, the sleep and the tools are
-- parameters, and what other goroutines do between two steps of a run is left out, but for the end of its context.
use coragent.Base.{
  ℕ, zero, suc, ◌+◌, Bool, true, false, not, ◌&&◌, ◌||◌, Option, none, some, List, [], ◌∷◌, map,
  Bytes, blank, same, if◌then◌else◌,
}
use coragent.Base.Int.{ℤ, pos}
use coragent.Errors.{Err, Result, ok, err}
use coragent.Exec
use coragent.Exec.{Exec}
use coragent.Transcript.{
  RunOutcome, FailureCause, ToolCallPayload, ToolResultPayload, run_completed, run_failed,
  run_cancelled, no_cause, engine_invariant, context_limit, cause_budget_exhausted,
  provider_output_limit, provider_protocol, sensitive_content_blocked, assistant_block, tool_result,
  text, result,
}
use coragent.Event
use coragent.Dataproj.Lines.{StreamRedactor}
use coragent.Provider.{ToolCall, ToolDefinition, TerminalReason, length, Request, Response}
use coragent.Prompt.{Config, build}
use coragent.Action.{Broker, project_call, skipped_result, blocked_result, execute, is_success}
use coragent.Store.Session.{logical_model_call}
use coragent.Engine.{Session}
use coragent.Engine.Facts.{append_payload, append_tool_calls, emit, fault_session}
use coragent.Engine.Retry.{reserve}
use coragent.Engine.Calls.{validate_tool_calls}
use coragent.Engine.Terminal.{finish_run}
use coragent.Engine.Stream.{Delivery, Turn, answered, unanswered, turn}

-- How `run` returns: by `finishRun`, or by `faultRun`.
pub data Exit : Type 0 where
  finishes : RunOutcome → FailureCause → Exit
  faults : Err → Exit

pub data Stage (A : Type 0) : Type 0 where
  leave : Exit → Stage A
  goes : A → Stage A

-- A part of the body of the loop, which may return from it.
abbrev pub Phase : Type 0 → Type 0
Phase A = Session → Stage A × Session

module _ {A B : Type 0} where
  abbrev pub then_stage : (A → Phase B) → Session → Stage A → Stage B × Session
  then_stage next s (leave e) = (leave e, s)
  then_stage next s (goes a) = next a s

  infixl 5 ◌>>=◌
  abbrev pub ◌>>=◌ : Phase A → (A → Phase B) → Phase B
  ◌>>=◌ m next s = then_stage next (m s).1 (m s).0

infixl 5 ◌>>◌
abbrev pub ◌>>◌ : {B : Type 0} → Phase (Unit {0}) → Phase B → Phase B
◌>>◌ m rest = m >>= λ done. rest

abbrev pub continue : {A : Type 0} → A → Phase A
continue a s = (goes a, s)

abbrev pub leave_if : Bool → Exit → Phase (Unit {0})
leave_if b e s = (if b then leave e else goes tt, s)

abbrev staged : {A : Type 0} → (Err → Exit) → Result A → Stage A
staged f (ok a) = goes a
staged f (err e) = leave (f e)

-- `if err != nil { …; return }`
abbrev pub or_leave : {A : Type 0} → (Err → Exit) → Exec Session A → Phase A
or_leave f op s = (staged f (op s).0, (op s).1)

abbrev pub failing : FailureCause → Err → Exit
failing c e = finishes run_failed c

abbrev pub is_length : TerminalReason → Bool
is_length length = true
is_length _ = false

abbrev pub no_calls : List ToolCall → Bool
no_calls [] = true
no_calls (c ∷ cs) = false

abbrev pub clear_partial : Session → Session
clear_partial s = record s { partial = [] }

abbrev cleared : {A : Type 0} → Exec Session A → Exec Session A
cleared op s = ((op s).0, clear_partial (op s).1)

-- A response that was cut off before any call.
abbrev pub cut_off : Bool → Phase (Unit {0})
cut_off true s = (leave (finishes run_failed provider_output_limit), clear_partial s)
cut_off false s = (goes tt, s)

-- The text of the response in the log and as an event, unless the response was cut off.
unfoldable pub record_text : Bytes → TerminalReason → Bytes → Phase (Unit {0})
unfolding append_payload emit
record_text run_id reason projected =
    if blank projected
    then continue tt
    else if is_length reason
    then or_leave (failing engine_invariant) (Exec.modify clear_partial)
    else or_leave (failing engine_invariant) (
        cleared (
          Exec.◌>>◌ (append_payload run_id assistant_block (text projected))
            (emit run_id Event.assistant_text (Event.text projected))))

abbrev pub payload_of : ToolCall → ToolCallPayload
payload_of c = record { call_id = c.id; name = c.name; arguments = c.arguments }

abbrev pub safe_payload : ToolCall × Bool → ToolCallPayload
safe_payload c = payload_of c.0

-- `buildRequest`
unfoldable pub build_request : Option Config → List ToolDefinition → Bytes → Exec Session Request
unfolding build
build_request none catalog goal s = (
  ok (record {
    prompt = goal;
    stable_prompt = [];
    dynamic_prompt = [];
    messages = [];
    tools = [];
    max_output = pos 0;
  }),
  s,
)
build_request (some cfg) catalog goal s = (build cfg goal s.docs s.records catalog, s)

-- The result of one call that is not skipped and not blocked: its start is an event first.
unfoldable pub start_tool : Bytes → ToolCall → Exec Session (Unit {0})
unfolding emit
start_tool run_id c =
    Exec.◌>>◌
      (Exec.modify
        (λ s. record s { active_tool = some (record { call_id = c.id; name = c.name }) }))
      (emit run_id Event.tool_started (Event.start c.id c.name))

abbrev idle_tool : {A : Type 0} → Exec Session A → Exec Session A
idle_tool op s = ((op s).0, record (op s).1 { active_tool = none })

-- The result in the log and as an event.
unfoldable pub record_result : Bytes → ToolCall → ToolResultPayload → Exec Session (Unit {0})
unfolding append_payload emit
record_result run_id c r =
    Exec.◌>>◌ (idle_tool (append_payload run_id tool_result (result r)))
      (emit run_id Event.tool_finished (Event.finish c.id r.outcome))

module _ (broker : Broker) (done : ℕ → Bool) where
  -- `s.broker.ProjectCalls`
  abbrev pub project_calls : List ToolCall → List (ToolCall × Bool)
  project_calls calls = map (project_call broker) calls

  -- The result of one call.
  unfoldable pub run_call :
      Bytes → ℕ → (stopped sensitive : Bool) → ToolCall → Phase ToolResultPayload
  unfolding start_tool
  run_call run_id n true sensitive c = continue (skipped_result broker c.id)
  run_call run_id n false true c = continue (blocked_result broker c.id)
  run_call run_id n false false c =
      or_leave faults (start_tool run_id c) >>= λ _. continue (execute broker (done n) c).0

  -- The loop over the calls: whether one of them was blocked.
  unfoldable pub run_calls :
      Bytes → ℕ → (stopped blocked : Bool) → List (ToolCall × Bool) → Phase Bool
  unfolding run_call record_result
  run_calls run_id n stopped blocked [] = continue blocked
  run_calls run_id n stopped blocked ((c, sensitive) ∷ cs) = do
    r ← run_call run_id n stopped sensitive c
    or_leave faults (record_result run_id c r)
    run_calls run_id (n + 1) (stopped || not (is_success r.outcome))
        (blocked || not stopped && sensitive) cs

-- What a run is given: the assembler of requests, if there is one, the broker and its catalog, the verdict of
-- `json.Unmarshal` on arguments, the projection of text,
-- the redactor of a new stream, the attempts of each round, and the context at each point where it is looked at.
pub record World : Type 0 where
  pub assembler : Option Config
  pub catalog : List ToolDefinition
  pub broker : Broker
  pub unmarshals : Bytes → Bool
  pub project_text : Bytes → Bytes
  pub redactor : StreamRedactor
  pub deliver : ℕ → ℕ → Request → Delivery
  pub jitter : ℕ → ℕ → ℕ → ℤ
  pub sleep : ℕ → ℕ → ℕ → Result (Unit {0})
  pub done_before : ℕ → Bool
  pub done_answered : ℕ → Bool
  pub done_at_call : ℕ → ℕ → Bool
  pub done_after : ℕ → Bool

abbrev pub cancelled : Exit
cancelled = finishes run_cancelled no_cause

abbrev pub answer : Turn → Phase (Response × Bytes)
answer (answered r streamed) = continue (r, streamed)
answer (unanswered c) = λ s. (leave (finishes run_failed c), s)

module _ (w : World) (run_id goal : Bytes) where
  -- One model call: the request, its reservation, the stream, and the checks of the context after them.
  unfoldable pub ask : ℕ → Phase (Response × Bytes)
  unfolding build_request reserve turn
  ask n = do
    leave_if (w.done_before n) cancelled
    req ← or_leave (failing context_limit) (build_request w.assembler w.catalog goal)
    or_leave (failing cause_budget_exhausted) (reserve run_id logical_model_call (pos 0))
    t ← (λ s.
        let (t, u) = turn w.redactor (w.deliver n) (w.jitter n) (w.sleep n) run_id req s in
        (goes t, u))
    leave_if (w.done_answered n) cancelled
    answer t

  -- The tool calls of a response.
  unfoldable pub act : ℕ → List ToolCall → Phase (Unit {0})
  unfolding validate_tool_calls append_tool_calls run_calls
  act n calls = do
    leave_if (not (validate_tool_calls w.unmarshals calls)) (finishes run_failed provider_protocol)
    or_leave faults (
        append_tool_calls run_id
          (map safe_payload (project_calls w.broker (w.done_at_call n) calls)))
    blocked ←
        run_calls w.broker (w.done_at_call n) run_id 0 false false
          (project_calls w.broker (w.done_at_call n) calls)
    leave_if (w.done_after n) cancelled
    leave_if blocked (finishes run_failed sensitive_content_blocked)

  -- What a round does with the response, and the text that was let out.
  unfoldable pub respond : ℕ → Response → Bytes → Phase (Unit {0})
  unfolding act record_text
  respond n r streamed = do
    leave_if (not (blank streamed) && not (same streamed (w.project_text r.text)))
        (finishes run_failed engine_invariant)
    cut_off (is_length r.reason && no_calls r.calls)
    record_text run_id r.reason (w.project_text r.text)
    leave_if (no_calls r.calls) (finishes run_completed no_cause)
    act n r.calls

  -- The body of the loop.
  unfoldable pub round : ℕ → Phase (Unit {0})
  unfolding ask respond
  round n = ask n >>= λ a. respond n a.0 a.1

  unfoldable pub exit_run : Exit → Session → Session
  unfolding finish_run fault_session
  exit_run (finishes o c) s = finish_run run_id o c s
  exit_run (faults e) s = fault_session e s

  -- `run`, with the rounds left: `none` if they do not suffice.
  unfoldable pub run_from : (left n : ℕ) → Session → Option Session
  unfolding round exit_run
  run_from zero n s = none
  run_from (suc left) n s = elim (round n s).0 [
    | leave e ↦ some (exit_run e (round n s).1)
    | goes _ ↦ run_from left (n + 1) (round n s).1
  ]

  -- `run`: 65 rounds suffice, since every round but the last one reserves a model call and 64 may be reserved.
  unfoldable pub run : Session → Option Session
  unfolding run_from
  run s = run_from 65 0 s
