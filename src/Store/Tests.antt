-- ===== src/Store/Tests.antt =====
-- A small session for internal/store: its calls run with and without failures of the disk, and the theorems
-- apply to them.
use coragent.Base.{
  ℕ, zero, suc, same, ◌≡◌, refl, true, false, ◌⊎◌, ap, some, none, List, [], ◌∷◌, ◌++◌, Bytes,
  codes, arith,
}
use coragent.Base.Int.{pos, negsuc, ◌+ℤ◌}
use coragent.Base.Decimal.{decimal}
use coragent.Base.Dict.{get, put}
use coragent.Errors.{ok, err, duplicate_command, budget_exhausted}
use coragent.Transcript
use coragent.Transcript.{Record}
use coragent.Transcript.Validate.{validate_records}
use coragent.Transcript.Tests.{cut_log}
use coragent.Event
use coragent.Event.{Event, session_resumed}
use coragent.Store.{Store, RunBudget, Manifest, ProviderBinding, Io, done, failed, stored}
use coragent.Store.Session.{
  assign, append_transcript, append_event, begin_run, record_command, reserved, logical_model_call,
  transport_attempt, retry_delay,
}
use coragent.Store.Create.{Resolved, create, create-IsDurable}
use coragent.Store.Open.{Codec, validate_session_id, manifest_valid, active_run_valid, events_from}
use coragent.Store.Durable.{IsDurable, whole}
use coragent.Store.Rewrites.{is_ok}
use coragent.Store.Appends.{MayFollow, Survival}
use coragent.Store.Transcripts.{append_transcript-IsDurable}
use coragent.Store.Facts.{append_event-IsDurable}
use coragent.Store.Crash.{
  Call, begin, fact, perform, begin_ok, fact_ok, Runs, nothing, returns, IsTorn, Reopens,
  Runs-IsDurable, crash_consistent,
}
use coragent.Store.Manifests.{performs}
use coragent.Store.Budgets.{AllWithin, performs-AllWithin, reserved_exact}
use coragent.Store.Commands.{NamesUpTo, record_command_once, begin_run_once, begin_run-fresh}

abbrev repeated : ℕ → Bytes → Bytes
repeated zero s = []
repeated (suc n) s = s ++ repeated n s

-- 64 hexadecimal digits.
abbrev some_digest : Bytes
some_digest = repeated 64 (codes "a")

abbrev pub flat_codec : Codec
flat_codec = record { hash = λ b. some_digest; long_record = λ r. false; long_event = λ e. false }

abbrev pub binding : ProviderBinding
binding = record {
  digest = some_digest;
  adapter = codes "openai";
  wire_protocol = codes "chat";
  endpoint_sha256 = some_digest;
  credential_source_sha256 = some_digest;
  model = codes "m";
  context_window = pos 1000;
  max_output_tokens = pos 100;
  temperature = none;
  seed = none;
  tool_choice = codes "auto";
  user_preferences_sha256 = some_digest;
  prompt_version = codes "p1";
}

abbrev pub session_id : Bytes
session_id = codes "s1"

abbrev manifest : Manifest
manifest = record {
  format_version = pos 2;
  session_id = session_id;
  workspace = codes "/w";
  workspace_identity = codes "w";
  created_at = 1;
  updated_at = 1;
  closed = false;
  projection_version = codes "v1";
  provider_binding = binding;
  authority = record { workspace_read = true };
  transcript_seq = 0;
  event_cursor = 0;
  next_run = 0;
  seen_commands = [];
  budgets = [];
  active_run = none;
}

abbrev pub new_session : List Io → Store
new_session io = record {
  manifest = manifest;
  transcript = [];
  events = [];
  disk = record {
    manifest_file = stored manifest;
    transcript_file = whole [];
    events_file = whole [];
  };
  io = io;
}

pub new_session-IsDurable : (io : List Io) → IsDurable flat_codec session_id (new_session io)
new_session-IsDurable io = record {
  holds = record {
    manifest_file = refl;
    transcript_file = refl;
    events_file = refl;
    sound = record {
      version = refl;
      identity = unfold manifest_valid same in refl;
      active = unfold active_run_valid in refl;
      transcript_mark = omega arith;
      event_mark = omega arith;
    };
    readable = record {
      log = unfold validate_records in refl;
      facts = unfold events_from in refl;
      short_records = tt;
      short_events = tt;
    };
  };
  transcript_count = refl;
  event_count = refl;
  session_name = unfold validate_session_id same in refl;
}

-- The second line of this append is cut.
abbrev cut_write : List Io
cut_write = failed 1 true ∷ []

cut_log-MayFollow : (io : List Io) → MayFollow flat_codec session_id (new_session io) cut_log
cut_log-MayFollow io = record {
  log = unfold validate_records Transcript.validate get put same in refl;
  short = (refl, (refl, tt));
}

cut_log_assigned : assign 0 cut_log ≡ ok cut_log
unfolding assign Transcript.validate
cut_log_assigned = refl

append_transcript-IsDurable_example :
    let t = append_transcript cut_log (new_session cut_write) in
    (is_ok t.0 ≡ true → IsDurable flat_codec session_id t.1)
    × ((t.1.disk.transcript_file.torn ≡ true)
        ⊎ Survival flat_codec session_id (new_session cut_write) t.1.disk cut_log [])
append_transcript-IsDurable_example =
    append_transcript-IsDurable flat_codec session_id cut_log cut_log (new_session cut_write)
      (new_session-IsDurable cut_write) cut_log_assigned (cut_log-MayFollow cut_write)

abbrev pub resumed : Event
resumed = record {
  session_id = session_id;
  run_id = [];
  cursor = 1;
  time = 4;
  kind = session_resumed;
  payload = Event.empty_object;
}

resumed_valid : Event.validate resumed ≡ ok tt
unfolding Event.validate
resumed_valid = refl

append_event-IsDurable_example :
    let t = append_event resumed (new_session cut_write) in
    (is_ok t.0 ≡ true → IsDurable flat_codec session_id t.1)
    × ((t.1.disk.events_file.torn ≡ true)
        ⊎ Survival flat_codec session_id (new_session cut_write) t.1.disk [] (resumed ∷ []))
append_event-IsDurable_example =
    append_event-IsDurable flat_codec session_id resumed (new_session cut_write)
      (new_session-IsDurable cut_write) resumed_valid refl

-- A run begins, and the events say so; the disk then cuts an append.
abbrev pub first_io : List Io
first_io = done ∷ failed 1 true ∷ []

abbrev pub first_run : Call
first_run = begin (codes "cmd") 3

abbrev running : Store
running = (perform first_run (new_session first_io)).1

running-Runs : Runs flat_codec session_id (new_session first_io) running
unfolding begin_run get
running-Runs = returns first_run nothing (begin_ok (omega arith)) refl

Runs-IsDurable_example : IsDurable flat_codec session_id running
Runs-IsDurable_example =
    Runs-IsDurable flat_codec session_id (new_session-IsDurable first_io) running-Runs

crash_consistent_example :
    IsTorn flat_codec session_id (perform (fact resumed) running).1.disk
    ⊎ Reopens flat_codec session_id running (perform (fact resumed) running).1.disk
crash_consistent_example =
    crash_consistent flat_codec session_id (fact resumed) (new_session-IsDurable first_io)
      running-Runs (fact_ok resumed_valid refl)

performs-AllWithin_example : AllWithin (performs (first_run ∷ []) (new_session [])).manifest.budgets
performs-AllWithin_example =
    performs-AllWithin (first_run ∷ []) (new_session []) (λ k b e. unfold get in cc)

abbrev almost_spent : RunBudget
almost_spent = record {
  logical_model_calls = 63;
  transport_attempts = 96;
  retry_delay = pos 599999999999;
}

reserved_exact_example :
    (reserved almost_spent logical_model_call (pos 2)
      ≡ ok (record almost_spent { logical_model_calls = 64 }))
    × (reserved almost_spent transport_attempt (pos 2) ≡ err budget_exhausted)
    × (reserved almost_spent retry_delay (pos 2) ≡ err budget_exhausted)
    × (reserved almost_spent retry_delay (negsuc 2) ≡ err budget_exhausted)
unfolding ◌+ℤ◌
reserved_exact_example = reserved_exact almost_spent 2

record_command_once_example :
    let t =
      performs (first_run ∷ []) (record_command (codes "cancel") 3 (new_session cut_write)).1 in
    (record_command (codes "cancel") 9 t ≡ (err duplicate_command, t))
    × (is_ok (begin_run (codes "cancel") 9 t).0 ≡ false)
    × ((begin_run (codes "cancel") 9 t).1 ≡ t)
record_command_once_example =
    record_command_once (codes "cancel") 3 (new_session cut_write) (first_run ∷ []) 9

begin_run_returns : (begin_run (codes "cmd") 3 (new_session [])).0 ≡ ok (codes "run-1")
unfolding begin_run get decimal
begin_run_returns = refl

begin_run_once_example :
    let t = performs (fact resumed ∷ []) (begin_run (codes "cmd") 3 (new_session [])).1 in
    (record_command (codes "cmd") 9 t ≡ (err duplicate_command, t))
    × (is_ok (begin_run (codes "cmd") 9 t).0 ≡ false)
    × ((begin_run (codes "cmd") 9 t).1 ≡ t)
begin_run_once_example =
    begin_run_once (codes "cmd") 3 (new_session []) (fact resumed ∷ []) 9
      (ap is_ok begin_run_returns)

begin_run-fresh_example :
    let t = (begin_run (codes "cmd") 3 (new_session [])).1 in
    (get (new_session []).manifest.budgets (codes "run-1") ≡ none)
    × (get t.manifest.budgets (codes "run-1")
        ≡ some (record { logical_model_calls = 0; transport_attempts = 0; retry_delay = pos 0 }))
    × (t.manifest.active_run ≡ some (record { id = codes "run-1"; started_at = 3 }))
    × NamesUpTo t.manifest.next_run t.manifest.budgets
begin_run-fresh_example =
    begin_run-fresh (codes "cmd") 3 (new_session []) (λ k h. unfold get in cc) (omega arith)
      begin_run_returns

abbrev pub here : Resolved
here = record { path = codes "/w"; identity = codes "w" }

pub created :
    create flat_codec
      (codes "/r")
      session_id
      (codes "w")
      (codes "v1")
      binding
      1
      (ok here)
      (ok tt)
      []
    ≡ ok (new_session [])
unfolding create same
created = refl

create-IsDurable_example : IsDurable flat_codec session_id (new_session [])
create-IsDurable_example =
    create-IsDurable flat_codec (codes "/r") session_id (codes "w") (codes "v1") binding 1 here
      (ok tt) [] (new_session []) refl refl refl (omega arith) created
