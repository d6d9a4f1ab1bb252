-- ===== src/Event.antt =====
-- internal/event/event.go: the event envelope, its kinds and its checks. Causes and tool outcomes have
-- the wire values of internal/transcript, so they are the same types here.
use coragent.Base.{
  ℕ, zero, suc, Bool, true, false, not, ◌&&◌, [], Bytes, blank, ◌==◌, if◌then◌else◌,
}
use coragent.Base.Int.{ℤ, pos, negsuc}
use coragent.Errors.{Result, ok, err, ◌>>=◌, ◌>>◌, require, unknown_event_kind, invalid_event}
use coragent.Transcript.{FailureCause, ToolResultOutcome, no_cause, unknown_cause, unknown_outcome}

pub data EventKind : Type 0 where
  run_started run_completed run_failed run_cancelled assistant_text assistant_delta : EventKind
  tool_started tool_finished warning retry_scheduled session_resumed session_closed : EventKind
  unknown_kind : Bytes → EventKind

-- The documents that the strict decoder accepts for some kind, and `malformed` for the others.
pub data EventPayload : Type 0 where
  prompt : Bytes → EventPayload
  cause : FailureCause → EventPayload
  text : Bytes → EventPayload
  start : (call_id name : Bytes) → EventPayload
  finish : (call_id : Bytes) → (outcome : ToolResultOutcome) → EventPayload
  code : Bytes → EventPayload
  retry : (attempt delay_millis : ℤ) → (class : Bytes) → EventPayload
  empty_object : EventPayload
  malformed : EventPayload

pub record Event : Type 0 where
  pub session_id : Bytes
  pub run_id : Bytes
  pub cursor : ℕ
  pub time : ℕ
  pub kind : EventKind
  pub payload : EventPayload

unfoldable pub registered : EventKind → Bool
registered (unknown_kind k) = false
registered _ = true

-- `DecodePayload`: an absent field keeps its zero value.
unfoldable pub decode_payload : EventKind → EventPayload → Result EventPayload
decode_payload run_started (prompt p) = ok (prompt p)
decode_payload run_started empty_object = ok (prompt [])
decode_payload run_completed empty_object = ok empty_object
decode_payload run_failed (cause c) = ok (cause c)
decode_payload run_failed empty_object = ok (cause no_cause)
decode_payload run_cancelled empty_object = ok empty_object
decode_payload assistant_text (text t) = ok (text t)
decode_payload assistant_text empty_object = ok (text [])
decode_payload assistant_delta (text t) = ok (text t)
decode_payload assistant_delta empty_object = ok (text [])
decode_payload tool_started (start c n) = ok (start c n)
decode_payload tool_started empty_object = ok (start [] [])
decode_payload tool_finished (finish c o) = ok (finish c o)
decode_payload tool_finished empty_object = ok (finish [] (unknown_outcome []))
decode_payload warning (code c) = ok (code c)
decode_payload warning empty_object = ok (code [])
decode_payload retry_scheduled (retry a d c) = ok (retry a d c)
decode_payload retry_scheduled empty_object = ok (retry (pos 0) (pos 0) [])
decode_payload session_resumed empty_object = ok empty_object
decode_payload session_closed empty_object = ok empty_object
decode_payload _ _ = err invalid_event

unfoldable pub valid_failure_cause : FailureCause → Bool
valid_failure_cause no_cause = false
valid_failure_cause (unknown_cause c) = false
valid_failure_cause _ = true

unfoldable pub valid_tool_outcome : ToolResultOutcome → Bool
valid_tool_outcome (unknown_outcome o) = false
valid_tool_outcome _ = true

abbrev pub is_positive : ℤ → Bool
is_positive (pos zero) = false
is_positive (pos (suc n)) = true
is_positive (negsuc n) = false

abbrev pub is_negative : ℤ → Bool
is_negative (pos n) = false
is_negative (negsuc n) = true

-- The `switch` on the decoded payload in `Validate`.
unfoldable pub payload_valid : EventPayload → Bool
unfolding valid_failure_cause valid_tool_outcome
payload_valid (prompt p) = not (blank p)
payload_valid (cause c) = valid_failure_cause c
payload_valid (text t) = not (blank t)
payload_valid (start c n) = not (blank c) && not (blank n)
payload_valid (finish c o) = not (blank c) && valid_tool_outcome o
payload_valid (code c) = not (blank c)
payload_valid (retry a d c) = is_positive a && not (is_negative d) && not (blank c)
payload_valid _ = true

-- `runFact`: the kinds that belong to a run.
unfoldable pub run_fact : EventKind → Bool
run_fact warning = false
run_fact session_resumed = false
run_fact session_closed = false
run_fact _ = true

-- `Event.Validate`.
unfoldable pub validate : Event → Result (Unit {0})
unfolding registered decode_payload payload_valid run_fact
validate e = do
  require (not (blank e.session_id) && not (e.cursor == 0) && not (e.time == 0)) invalid_event
  require (registered e.kind) unknown_event_kind
  payload ← decode_payload e.kind e.payload
  require (if run_fact e.kind then not (blank e.run_id) else blank e.run_id) invalid_event
  require (payload_valid payload) invalid_event

-- `event.New`.
unfoldable pub new_event : Bytes → Bytes → ℕ → ℕ → EventKind → EventPayload → Result Event
unfolding validate
new_event session_id run_id cursor at kind payload = do
  require (registered kind) unknown_event_kind
  let ev : Event = record {
    session_id = session_id;
    run_id = run_id;
    cursor = cursor;
    time = at;
    kind = kind;
    payload = payload;
  }
  validate ev
  ok ev
