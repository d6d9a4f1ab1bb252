-- ===== src/Transcript/Tests.antt =====
-- Small logs for internal/transcript: the checks run on them, and the theorems apply to them.
use coragent.Base.{ℕ, ◌+◌, ◌≡◌, ◌≤◌, refl, false, List, [], ◌∷◌, ◌++◌, Bytes, codes, length}
use coragent.Base.{same}
use coragent.Base.Dict.{get, put}
use coragent.Errors.{
  ok, err, unpaired_tool_call, duplicate_tool_result, orphan_tool_result, records_after_close,
}
use coragent.Transcript.{
  Record, user_message, tool_call, tool_result, run_outcome, session_closed, text, call, result,
  outcome, document, interrupted, ToolCallPayload, run_interrupted, cause_interrupted, empty_object,
  validate, decode_payload,
}
use coragent.Transcript.Validate.{
  records_from, validate_records, validate_transcript, open_tool_calls, open_tool_calls_for_run,
}
use coragent.Transcript.Recovery.{closed_after, repair}
use coragent.Transcript.Pairing.{
  count_calls, count_results, validate_transcript-counts, validate_records-prefix,
  validate_records-at,
}

abbrev pub run_1 : Bytes
run_1 = codes "run-1"

abbrev pub read_call : ToolCallPayload
read_call = record { call_id = codes "c1"; name = codes "read"; arguments = document (codes "{}") }

abbrev pub question : Record
question = record {
  seq = 1;
  time = 5;
  run_id = run_1;
  kind = user_message;
  payload = text (codes "hello");
}

abbrev pub asked : Record
asked = record { seq = 2; time = 6; run_id = run_1; kind = tool_call; payload = call read_call }

abbrev pub answer : ℕ → Record
answer n = record {
  seq = n;
  time = 7;
  run_id = run_1;
  kind = tool_result;
  payload = result (record { call_id = codes "c1"; outcome = interrupted; content = [] });
}

abbrev pub ended : ℕ → Record
ended n = record {
  seq = n;
  time = 8;
  run_id = run_1;
  kind = run_outcome;
  payload = outcome (record { outcome = run_interrupted; cause = cause_interrupted });
}

abbrev closing : ℕ → Record
closing n = record { seq = n; time = 9; run_id = []; kind = session_closed; payload = empty_object }

abbrev pub cut_log : List Record
cut_log = question ∷ asked ∷ []

abbrev pub full_log : List Record
full_log = question ∷ asked ∷ answer 3 ∷ ended 4 ∷ []

cut_log_open : open_tool_calls cut_log ≡ ok (read_call ∷ [])
unfolding open_tool_calls validate get put same
cut_log_open = refl

cut_log_unpaired : validate_transcript cut_log ≡ err unpaired_tool_call
unfolding validate_transcript validate get put same
cut_log_unpaired = refl

two_answers_refused :
    validate_records (question ∷ asked ∷ answer 3 ∷ answer 4 ∷ []) ≡ err duplicate_tool_result
unfolding validate_records validate get put same
two_answers_refused = refl

answer_first_refused : validate_records (question ∷ answer 2 ∷ []) ≡ err orphan_tool_result
unfolding validate_records validate get put same
answer_first_refused = refl

late_record_refused : validate_records (closing 1 ∷ ended 2 ∷ []) ≡ err records_after_close
unfolding validate_records validate get put same
late_record_refused = refl

full_log_valid : validate_transcript full_log ≡ ok tt
unfolding validate_transcript validate get put same
full_log_valid = refl

full_log_records : validate_records full_log ≡ ok tt
unfolding validate_records validate get put same
full_log_records = refl

-- The log of a run that was cut in a tool call, recovered.
repair_example : validate_transcript (cut_log ++ ((answer 3 ∷ []) ++ ended 4 ∷ [])) ≡ ok tt
unfolding open_tool_calls_for_run records_from validate decode_payload get put same
repair_example =
    repair cut_log run_1 {cs = read_call ∷ []} refl refl (answer 3 ∷ []) (ended 4)
      (
        record {
          payload = record { call_id = codes "c1"; outcome = interrupted; content = [] };
          kind = refl;
          owner = refl;
          decoded = refl;
          answers = refl;
        },
        tt,
      )
      refl refl

validate_transcript-counts_example :
    (count_results (codes "c1") full_log ≡ count_calls (codes "c1") full_log)
    × (count_calls (codes "c1") full_log ≤ 1)
validate_transcript-counts_example = validate_transcript-counts full_log (codes "c1") full_log_valid

validate_records-prefix_example :
    (count_results (codes "c1") cut_log ≤ count_calls (codes "c1") cut_log)
    × (count_calls (codes "c1") cut_log ≤ 1)
validate_records-prefix_example =
    validate_records-prefix cut_log (answer 3 ∷ ended 4 ∷ []) (codes "c1") full_log_records

validate_records-at_example :
    ((answer 3).seq ≡ length cut_log + 1)
    × (validate (answer 3) ≡ ok tt)
    × (closed_after false cut_log ≡ false)
validate_records-at_example = validate_records-at cut_log (answer 3) (ended 4 ∷ []) full_log_records
