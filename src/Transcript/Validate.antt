-- ===== src/Transcript/Validate.antt =====
-- internal/transcript/validate.go: the checks of a whole log, and the open tool calls.
use coragent.Base.{
  ℕ, ◌+◌, Bool, true, false, not, ◌&&◌, ◌||◌, Option, none, some, List, [], ◌∷◌, Bytes, blank, same,
  ◌==◌, if◌then◌else◌, is_some,
}
use coragent.Base.Dict.{Dict, get, put}
use coragent.Errors.{
  Err, Result, ok, err, ◌>>=◌, ◌>>◌, require, record_sequence, unpaired_tool_call,
  duplicate_tool_result, duplicate_tool_call, orphan_tool_result, tool_run_mismatch,
  terminal_with_open_call, duplicate_session_close, records_after_close,
}
use coragent.Transcript.{
  Kind, tool_call, tool_result, run_outcome, Payload, call, result, ToolCallPayload, Record,
  decode_payload, is_session_closed, validate,
}

-- The maps of `toolPairs`.
pub record Pairs : Type 0 where
  pub calls : Dict ℕ
  pub results : Dict ℕ
  pub call_runs : Dict Bytes

abbrev pub no_pairs : Pairs
no_pairs = record { calls = []; results = []; call_runs = [] }

-- `KindToolCall` in `toolPairs`. A `case` on the payload stands for the decoding into its struct.
unfoldable pub add_call : Pairs → Record → Payload → Result Pairs
add_call p r (call c) = do
  require (not (is_some (get p.calls c.call_id))) duplicate_tool_call
  ok (record p {
    calls = put p.calls c.call_id r.seq;
    call_runs = put p.call_runs c.call_id r.run_id;
  })
add_call p r _ = ok p

abbrev pub has_run : Option Bytes → Bytes → Bool
has_run none run = blank run
has_run (some owner) run = same owner run

-- `KindToolResult` in `toolPairs`.
unfoldable pub add_result : Pairs → Record → Payload → Result Pairs
add_result p r (result t) = do
  require (is_some (get p.calls t.call_id)) orphan_tool_result
  require (not (is_some (get p.results t.call_id))) duplicate_tool_result
  require (has_run (get p.call_runs t.call_id) r.run_id) tool_run_mismatch
  ok (record p { results = put p.results t.call_id r.seq })
add_result p r _ = ok p

-- Every call of the run has a result.
unfoldable pub settled : Dict Bytes → Dict ℕ → Bytes → Bool
settled [] results run = true
settled ((id, owner) ∷ rest) results run =
    (if same owner run then is_some (get results id) else true) && settled rest results run

-- One round of the loop of `toolPairs`.
unfoldable pub add_record : Pairs → Record → Result Pairs
unfolding add_call add_result settled
add_record p r = elim r.kind [
  | tool_call ↦ decode_payload r.kind r.payload >>= add_call p r
  | tool_result ↦ decode_payload r.kind r.payload >>= add_result p r
  | run_outcome ↦
      if settled p.call_runs p.results r.run_id then ok p else err terminal_with_open_call
  | _ ↦ ok p
]

unfoldable pub pairs_from : Pairs → List Record → Result Pairs
pairs_from p [] = ok p
pairs_from p (r ∷ rs) = add_record p r >>= λ q. pairs_from q rs

abbrev pub tool_pairs : List Record → Result Pairs
tool_pairs = pairs_from no_pairs

abbrev pub after_close : Kind → Err
after_close k = if is_session_closed k then duplicate_session_close else records_after_close

-- The loop of `ValidateRecords`: `want` is the next sequence number.
unfoldable pub records_from : ℕ → Bool → List Record → Result (Unit {0})
records_from want closed [] = ok tt
records_from want closed (r ∷ rs) = do
  require (r.seq == want) record_sequence
  validate r
  require (not closed) (after_close r.kind)
  records_from (want + 1) (closed || is_session_closed r.kind) rs

-- `ValidateRecords`.
unfoldable pub validate_records : List Record → Result (Unit {0})
unfolding records_from pairs_from add_record
validate_records rs = do records_from 1 false rs; _ ← tool_pairs rs; ok tt

-- Every call has a result.
unfoldable pub paired : Dict ℕ → Dict ℕ → Bool
paired [] results = true
paired ((id, seq) ∷ rest) results = is_some (get results id) && paired rest results

-- `ValidateTranscript`.
unfoldable pub validate_transcript : List Record → Result (Unit {0})
unfolding validate_records paired
validate_transcript rs = do
  validate_records rs
  p ← tool_pairs rs
  require (paired p.calls p.results) unpaired_tool_call

-- The calls of a log with no result, in order. `owned` tells whether the caller takes an open call of
-- that run; it is asked about no other call.
unfoldable pub open_call :
    Dict ℕ → (Bytes → Bool) → Bytes → Payload → List ToolCallPayload → Result (List ToolCallPayload)
open_call results owned run (call c) rest =
    if is_some (get results c.call_id)
    then ok rest
    else if owned run
    then ok (c ∷ rest)
    else err unpaired_tool_call
open_call results owned run _ rest = ok rest

unfoldable pub open_from : Dict ℕ → (Bytes → Bool) → List Record → Result (List ToolCallPayload)
unfolding open_call
open_from results owned [] = ok []
open_from results owned (r ∷ rs) = open_from results owned rs >>= λ rest. elim r.kind [
  | tool_call ↦ decode_payload r.kind r.payload >>= λ p. open_call results owned r.run_id p rest
  | _ ↦ ok rest
]

-- `OpenToolCalls`.
unfoldable pub open_tool_calls : List Record → Result (List ToolCallPayload)
unfolding open_from validate_records
open_tool_calls rs = do validate_records rs; p ← tool_pairs rs; open_from p.results (λ run. true) rs

-- `OpenToolCallsForRun`: an open call of another run is refused.
unfoldable pub open_tool_calls_for_run : List Record → Bytes → Result (List ToolCallPayload)
unfolding open_from validate_records
open_tool_calls_for_run rs run_id = do
  require (not (blank run_id)) unpaired_tool_call
  validate_records rs
  p ← tool_pairs rs
  open_from p.results (λ run. same run run_id) rs
