-- ===== src/Store/Session.antt =====
-- The methods of `store.Session` in internal/store/store.go.
use coragent.Base.{
  ℕ, ◌+◌, Bool, true, false, not, ◌&&◌, ◌||◌, Option, none, some, List, [], ◌∷◌, ◌++◌, Bytes, codes,
  same, leb, ◌==◌, if◌then◌else◌, is_some, length,
}
use coragent.Base.Int.{ℤ, pos, ◌-ℤ◌, ◌+ℤ◌, ltb_ℤ}
use coragent.Base.Decimal.{decimal}
use coragent.Base.Dict.{get, put}
use coragent.Errors.{
  Result, ok, err, corrupt, session_closed, duplicate_command, active_run_exists, budget_exhausted,
  close_active_session, unknown_counter,
}
use coragent.Errors
use coragent.Transcript
use coragent.Transcript.{Record}
use coragent.Event.{Event}
use coragent.Exec.{Exec, pure, lift, gets, modify, ensure, ◌>>=◌, ◌>>◌}
use coragent.Store.{Store, Manifest, RunBudget, ActiveRun, u64}
use coragent.Store.Files.{append_transcript_log, append_event_log, write_manifest}

abbrev pub update_manifest : (Manifest → Manifest) → Exec Store (Unit {0})
update_manifest f = modify (λ s. record s { manifest = f s.manifest })

-- The loop of `AppendTranscript`: records are numbered on and validated, in order.
unfoldable pub assign : ℕ → List Record → Result (List Record)
assign seq [] = ok []
assign seq (r ∷ rs) =
    let r' : Record = record r { seq = seq + 1 } in
    Errors.◌>>=◌ (Transcript.validate r')
      λ _. Errors.◌>>=◌ (assign (seq + 1) rs) λ rest. ok (r' ∷ rest)

-- The time of the last record, if there is one.
unfoldable pub last_time : ℕ → List Record → ℕ
last_time t [] = t
last_time t (r ∷ rs) = last_time r.time rs

-- `AppendTranscript`.
unfoldable pub append_transcript : List Record → Exec Store (List Record)
append_transcript records = do
  seq ← gets (λ s. s.manifest.transcript_seq)
  assigned ← lift (assign seq records)
  append_transcript_log assigned
  modify (λ s. record s { transcript = s.transcript ++ assigned })
  update_manifest λ m. record m {
    transcript_seq = m.transcript_seq + length assigned;
    updated_at = last_time m.updated_at assigned;
  }
  write_manifest
  pure assigned

-- `AppendEvent`.
unfoldable pub append_event : Event → Exec Store (Unit {0})
append_event ev = do
  m ← gets (λ s. s.manifest)
  ensure (same ev.session_id m.session_id && ev.cursor == m.event_cursor + 1) corrupt
  append_event_log ev
  modify (λ s. record s { events = s.events ++ ev ∷ [] })
  update_manifest λ m. record m { event_cursor = ev.cursor; updated_at = ev.time }
  write_manifest

-- `m.SeenCommands[id]`: a missing key is false.
abbrev pub seen : Option Bool → Bool
seen none = false
seen (some b) = b

abbrev pub run_name : ℕ → Bytes
run_name n = codes "run-" ++ decimal n

-- The change of `BeginRun` to the manifest.
unfoldable pub begun : Bytes → ℕ → Manifest → Manifest
begun command_id now m =
    let next = u64 (m.next_run + 1) in
    record m {
      seen_commands = put m.seen_commands command_id true;
      next_run = next;
      budgets =
          put m.budgets (run_name next)
            (record { logical_model_calls = 0; transport_attempts = 0; retry_delay = pos 0 });
      active_run = some (record { id = run_name next; started_at = now });
      updated_at = now;
    }

-- `BeginRun`.
unfoldable pub begin_run : Bytes → ℕ → Exec Store Bytes
unfolding begun write_manifest
begin_run command_id now = do
  m ← gets (λ s. s.manifest)
  ensure (not m.closed) session_closed
  ensure (not (seen (get m.seen_commands command_id))) duplicate_command
  ensure (not (is_some m.active_run)) active_run_exists
  update_manifest (begun command_id now)
  write_manifest
  gets (λ s. run_name s.manifest.next_run)

-- `RecordCommand`.
unfoldable pub record_command : Bytes → ℕ → Exec Store (Unit {0})
unfolding write_manifest
record_command command_id now = do
  m ← gets (λ s. s.manifest)
  ensure (not (seen (get m.seen_commands command_id))) duplicate_command
  update_manifest
      λ m. record m { seen_commands = put m.seen_commands command_id true; updated_at = now }
  write_manifest

abbrev pub is_active : Option ActiveRun → Bytes → Bool
is_active none run_id = false
is_active (some r) run_id = same r.id run_id

-- `FinishRun`; `ReconcileRun` is the same call.
unfoldable pub finish_run : Bytes → ℕ → Exec Store (Unit {0})
unfolding write_manifest
finish_run run_id now = do
  m ← gets (λ s. s.manifest)
  ensure (is_active m.active_run run_id) corrupt
  update_manifest λ m. record m { active_run = none; updated_at = now }
  write_manifest

-- `Close`: a second call does nothing.
unfoldable pub close : ℕ → Exec Store (Unit {0})
unfolding write_manifest
close now s =
    if s.manifest.closed
    then (ok tt, s)
    else (do
      m ← gets (λ s. s.manifest)
      ensure (not (is_some m.active_run)) close_active_session
      update_manifest λ m. record m { closed = true; updated_at = now }
      write_manifest)
        s

pub data BudgetCounter : Type 0 where
  logical_model_call transport_attempt retry_delay : BudgetCounter
  unknown_counter_name : Bytes → BudgetCounter

abbrev pub max_logical_model_calls : ℕ
max_logical_model_calls = 64

abbrev pub max_transport_attempts : ℕ
max_transport_attempts = 96

-- Ten minutes, in nanoseconds.
abbrev pub max_retry_delay : ℤ
max_retry_delay = pos 600000000000

-- The `switch` of `ReserveBudget`. The test keeps the sum in range, so int64 does not wrap.
unfoldable pub reserved : RunBudget → BudgetCounter → ℤ → Result RunBudget
reserved b logical_model_call amount =
    if leb max_logical_model_calls b.logical_model_calls
    then err budget_exhausted
    else ok (record b { logical_model_calls = b.logical_model_calls + 1 })
reserved b transport_attempt amount =
    if leb max_transport_attempts b.transport_attempts
    then err budget_exhausted
    else ok (record b { transport_attempts = b.transport_attempts + 1 })
reserved b retry_delay amount =
    if ltb_ℤ amount (pos 0) || ltb_ℤ (max_retry_delay -ℤ amount) b.retry_delay
    then err budget_exhausted
    else ok (record b { retry_delay = b.retry_delay +ℤ amount })
reserved b (unknown_counter_name c) amount = err unknown_counter

abbrev pub known_budget : Option RunBudget → Result RunBudget
known_budget none = err corrupt
known_budget (some b) = ok b

-- `ReserveBudget`.
unfoldable pub reserve_budget : Bytes → BudgetCounter → ℤ → Exec Store RunBudget
unfolding reserved write_manifest
reserve_budget run_id counter amount = do
  m ← gets (λ s. s.manifest)
  b ← lift (known_budget (get m.budgets run_id))
  b' ← lift (reserved b counter amount)
  update_manifest λ m. record m { budgets = put m.budgets run_id b' }
  write_manifest
  pure b'
