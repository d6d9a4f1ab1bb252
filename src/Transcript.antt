-- ===== src/Transcript.antt =====
-- internal/transcript/transcript.go: the record kinds, their payloads, and the checks of one record.
-- A `json.RawMessage` payload is the document that the strict decoder reads: the fields it holds, or
-- `malformed` where no payload struct accepts the document. Times are instants, 0 the zero time.
pub mod Validate
pub mod Steps
pub mod Repair
pub mod Recovery
pub mod Pairing
pub mod Tests
use coragent.Base.{
  ℕ, Bool, true, false, not, ◌&&◌, ◌||◌, Option, none, some, List, [], ◌∷◌, Bytes, blank, ◌==◌,
  if◌then◌else◌,
}
use coragent.Errors.{
  Result, ok, err, ◌>>=◌, ◌>>◌, require, unknown_record_kind, invalid_record, decode_failure,
  marshal_failure,
}

pub data Kind : Type 0 where
  user_message assistant_block tool_call tool_result cancellation_boundary : Kind
  run_outcome instructions_loaded session_closed : Kind
  unknown_kind : Bytes → Kind

-- A raw JSON value inside a payload: the bytes, with the verdict of `json.Valid`.
pub data RawMessage : Type 0 where
  document : Bytes → RawMessage
  invalid : Bytes → RawMessage

pub record ToolCallPayload : Type 0 where
  pub call_id : Bytes
  pub name : Bytes
  pub arguments : RawMessage

pub data ToolResultOutcome : Type 0 where
  success error cancelled skipped interrupted blocked : ToolResultOutcome
  unknown_outcome : Bytes → ToolResultOutcome

pub record ToolResultPayload : Type 0 where
  pub call_id : Bytes
  pub outcome : ToolResultOutcome
  pub content : Bytes

-- `no_cause` is the empty string.
pub data FailureCause : Type 0 where
  no_cause provider_permanent provider_protocol provider_transient_exhausted : FailureCause
  engine_invariant cause_budget_exhausted context_limit provider_output_limit : FailureCause
  cause_interrupted sensitive_content_blocked : FailureCause
  unknown_cause : Bytes → FailureCause

pub data RunOutcome : Type 0 where
  run_completed run_failed run_cancelled run_interrupted : RunOutcome
  unknown_run_outcome : Bytes → RunOutcome

pub record RunOutcomePayload : Type 0 where
  pub outcome : RunOutcome
  pub cause : FailureCause

pub record InstructionSource : Type 0 where
  pub sources : List Bytes
  pub scope : Bytes
  pub sha256 : Bytes
  pub precedence : ℕ

pub data Payload : Type 0 where
  text : Bytes → Payload
  call : ToolCallPayload → Payload
  result : ToolResultPayload → Payload
  outcome : RunOutcomePayload → Payload
  instructions : List InstructionSource → Payload
  empty_object : Payload
  malformed : Payload

pub record Record : Type 0 where
  pub seq : ℕ
  pub time : ℕ
  pub run_id : Bytes
  pub kind : Kind
  pub payload : Payload

-- The keys of `payloadFactories`.
unfoldable pub registered : Kind → Bool
registered (unknown_kind k) = false
registered _ = true

-- `DecodePayload` into the struct of the kind: an absent field keeps its zero value, and a document
-- with a field that the struct lacks is refused.
unfoldable pub decode_payload : Kind → Payload → Result Payload
decode_payload user_message (text t) = ok (text t)
decode_payload user_message empty_object = ok (text [])
decode_payload assistant_block (text t) = ok (text t)
decode_payload assistant_block empty_object = ok (text [])
decode_payload tool_call (call p) = ok (call p)
decode_payload tool_call empty_object =
    ok (call (record { call_id = []; name = []; arguments = invalid [] }))
decode_payload tool_result (result p) = ok (result p)
decode_payload tool_result empty_object =
    ok (result (record { call_id = []; outcome = unknown_outcome []; content = [] }))
decode_payload cancellation_boundary empty_object = ok empty_object
decode_payload run_outcome (outcome p) = ok (outcome p)
decode_payload run_outcome empty_object =
    ok (outcome (record { outcome = unknown_run_outcome []; cause = no_cause }))
decode_payload instructions_loaded (instructions s) = ok (instructions s)
decode_payload instructions_loaded empty_object = ok (instructions [])
decode_payload session_closed empty_object = ok empty_object
decode_payload _ _ = err decode_failure

unfoldable pub json_valid : RawMessage → Bool
json_valid (document d) = true
json_valid (invalid d) = false

unfoldable pub known_outcome : ToolResultOutcome → Bool
known_outcome (unknown_outcome o) = false
known_outcome _ = true

unfoldable pub valid_failure_cause : FailureCause → Bool
valid_failure_cause no_cause = false
valid_failure_cause (unknown_cause c) = false
valid_failure_cause _ = true

abbrev pub is_no_cause : FailureCause → Bool
is_no_cause no_cause = true
is_no_cause _ = false

-- The cause that an outcome of a run admits: one to explain a failure, none otherwise.
unfoldable pub cause_fits : RunOutcome → FailureCause → Bool
unfolding valid_failure_cause
cause_fits run_completed c = is_no_cause c
cause_fits run_cancelled c = is_no_cause c
cause_fits run_failed c = valid_failure_cause c
cause_fits run_interrupted c = valid_failure_cause c
cause_fits (unknown_run_outcome o) c = false

abbrev pub any_source : List Bytes → Bool
any_source [] = false
any_source (b ∷ bs) = true

unfoldable pub complete_sources : List InstructionSource → Bool
complete_sources [] = true
complete_sources (s ∷ rest) =
    any_source s.sources && not (blank s.scope) && not (blank s.sha256) && complete_sources rest

-- The `switch` on the decoded payload in `Validate`.
unfoldable pub payload_valid : Payload → Bool
unfolding json_valid known_outcome cause_fits complete_sources
payload_valid (text t) = not (blank t)
payload_valid (call p) = not (blank p.call_id) && not (blank p.name) && json_valid p.arguments
payload_valid (result p) = not (blank p.call_id) && known_outcome p.outcome
payload_valid (outcome p) = cause_fits p.outcome p.cause
payload_valid (instructions []) = false
payload_valid (instructions (s ∷ rest)) = complete_sources (s ∷ rest)
payload_valid _ = true

abbrev pub is_session_closed : Kind → Bool
is_session_closed session_closed = true
is_session_closed _ = false

-- `session_closed` has no run ID, and every other kind has one.
unfoldable pub run_id_fits : Kind → Bytes → Bool
run_id_fits k id = if is_session_closed k then blank id else not (blank id)

-- `Record.Validate`.
unfoldable pub validate : Record → Result (Unit {0})
unfolding registered decode_payload run_id_fits payload_valid
validate r = do
  require (not (r.time == 0)) invalid_record
  require (registered r.kind) unknown_record_kind
  payload ← decode_payload r.kind r.payload
  require (run_id_fits r.kind r.run_id) invalid_record
  require (payload_valid payload) invalid_record

-- `json.Marshal` of a payload: an empty raw message is written as `null`, and one that is not JSON is
-- refused.
unfoldable pub marshal : Payload → Result Payload
marshal (call p) = elim p.arguments [
  | document d ↦ ok (call p)
  | invalid d ↦
      if blank d
      then ok (call (record p { arguments = document (b'n' ∷ b'u' ∷ b'l' ∷ b'l' ∷ []) }))
      else err marshal_failure
]
marshal p = ok p

-- `transcript.New`: the sequence number is left zero, for the store to assign.
unfoldable pub new_record : Bytes → ℕ → Kind → Payload → Result Record
unfolding registered marshal
new_record run_id at kind payload = do
  require (registered kind) unknown_record_kind
  raw ← marshal payload
  let rec : Record = record { seq = 0; time = at; run_id = run_id; kind = kind; payload = raw }
  validate rec
  ok rec
