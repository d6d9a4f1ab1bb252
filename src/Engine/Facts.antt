-- ===== src/Engine/Facts.antt =====
-- The helpers of internal/engine/session.go that write facts: records, events, commands, runs and budgets.
use coragent.Base.{ℕ, ◌+◌, none, some, List, [], ◌∷◌, ◌++◌, map, Bytes, length}
use coragent.Base.Int.{pos}
use coragent.Base.Dict.{put}
use coragent.Errors.{Err, ok}
use coragent.Exec.{Exec, pure, lift, gets, modify, ◌>>=◌, ◌>>◌}
use coragent.Transcript.{Record, Kind, Payload, tool_call, call, ToolCallPayload, new_record}
use coragent.Event.{Event, EventKind, EventPayload, new_event}
use coragent.Store.{Store, u64}
use coragent.Store.Session as Durable
use coragent.Store.Session.{append_transcript, append_event, reserved, BudgetCounter, run_name}
use coragent.Engine.{Session, faulted, Subscriber}

-- `s.now()`
unfoldable pub read_clock : Exec Session ℕ
read_clock s = (ok (s.now s.ticks), record s { ticks = s.ticks + 1 })

-- A call of the durable session, or else a step of the session in memory.
unfoldable pub durably : {A : Type 0} → Exec Store A → Exec Session A → Exec Session A
durably op otherwise s = elim s.durable [
  | none ↦ otherwise s
  | some d ↦ ((op d).0, record s { durable = some (op d).1 })
]

-- The sequence numbers in memory.
unfoldable pub numbered : ℕ → List Record → List Record
numbered seq [] = []
numbered seq (r ∷ rs) = record r { seq = seq + 1 } ∷ numbered (seq + 1) rs

-- The end of `appendPayloadLocked` and of `appendToolCalls`.
unfoldable pub append_records : List Record → Exec Session (Unit {0})
unfolding durably numbered
append_records new = do
  assigned ← durably (append_transcript new) (gets (λ s. numbered (length s.records) new))
  modify (λ s. record s { records = s.records ++ assigned })

-- `appendPayloadLocked`.
unfoldable pub append_payload : Bytes → Kind → Payload → Exec Session (Unit {0})
unfolding read_clock append_records
append_payload run_id kind payload = do
  at ← read_clock
  rec ← lift (new_record run_id at kind payload)
  append_records (rec ∷ [])

-- The loop of `appendToolCalls`: each record reads the clock.
unfoldable pub call_records : Bytes → List ToolCallPayload → Exec Session (List Record)
unfolding read_clock
call_records run_id [] = pure []
call_records run_id (c ∷ cs) = do
  at ← read_clock
  rec ← lift (new_record run_id at tool_call (call c))
  rest ← call_records run_id cs
  pure (rec ∷ rest)

-- `appendToolCalls`.
unfoldable pub append_tool_calls : Bytes → List ToolCallPayload → Exec Session (Unit {0})
unfolding call_records append_records
append_tool_calls run_id calls = do new ← call_records run_id calls; append_records new

-- `persistEventLocked`: the cursor goes back where the event is not persisted.
unfoldable pub persist_event : Bytes → EventKind → EventPayload → Exec Session Event
unfolding read_clock durably
persist_event run_id kind payload s =
    (do
      at ← read_clock
      ev ← lift (new_event s.id run_id (s.cursor + 1) at kind payload)
      durably (append_event ev) (pure tt)
      modify (λ t. record t { cursor = s.cursor + 1 })
      pure ev)
      s

unfoldable pub enqueue : Event → Subscriber → Subscriber
enqueue ev sub = record sub { queued = sub.queued ++ ev ∷ [] }

-- `publishEventLocked`.
unfoldable pub publish_event : Event → Session → Session
unfolding enqueue
publish_event ev s = record s { history = s.history ++ ev ∷ []; subs = map (enqueue ev) s.subs }

-- `emitLocked`.
unfoldable pub emit : Bytes → EventKind → EventPayload → Exec Session (Unit {0})
unfolding persist_event publish_event
emit run_id kind payload = do ev ← persist_event run_id kind payload; modify (publish_event ev)

-- `faultSessionLocked`: every subscriber is closed.
unfoldable pub fault_session : Err → Session → Session
fault_session e s = record s {
  state = faulted;
  terminal_err = some e;
  subs = [];
  run_cancel = none;
  partial = [];
  active_tool = none;
}

abbrev remember : Bytes → Exec Session (Unit {0})
remember command_id = modify (λ s. record s { seen = put s.seen command_id tt })

-- `recordCommandLocked`. The clock is read only where there is a durable session.
unfoldable pub record_command : Bytes → Exec Session (Unit {0})
unfolding durably read_clock
record_command command_id s = elim s.durable [
  | none ↦ remember command_id s
  | some d ↦
      (do
        at ← read_clock
        durably (Durable.record_command command_id at) (pure tt)
        remember command_id)
        s
]

-- `beginRunLocked`.
unfoldable pub begin_run : Bytes → Exec Session Bytes
unfolding durably read_clock
begin_run command_id s = elim s.durable [
  | none ↦
      (do
        at ← read_clock
        modify λ s. record s {
          runs = u64 (s.runs + 1);
          memory_budget =
              put s.memory_budget (run_name (u64 (s.runs + 1)))
                (record { logical_model_calls = 0; transport_attempts = 0; retry_delay = pos 0 });
        }
        remember command_id
        gets (λ s. run_name s.runs))
        s
  | some d ↦
      (do
        at ← read_clock
        run_id ← durably (Durable.begin_run command_id at) (pure [])
        modify (λ s. record s {
          runs = elim s.durable [ none ↦ s.runs | some d ↦ d.manifest.next_run ];
        })
        remember command_id
        pure run_id)
        s
]
