-- ===== src/Engine/Start.antt =====
-- `NewSession` of internal/engine/session.go, for a durable session and in memory.
use coragent.Base.{
  ℕ, ◌+◌, Bool, true, false, not, ◌&&◌, ◌||◌, Option, none, some, List, [], ◌∷◌, map, Bytes, blank,
  same, ltb, ◌==◌, if◌then◌else◌, is_some,
}
use coragent.Base.Dict.{Dict}
use coragent.Errors.{
  Result, ok, err, require, corrupt, session_mismatch, missing_session_id, inconsistent_close,
}
use coragent.Errors
use coragent.Exec.{Exec, pure, modify, ensure, ◌>>=◌, ◌>>◌}
use coragent.Transcript
use coragent.Transcript.{Record}
use coragent.Prompt.{Instruction}
use coragent.Event
use coragent.Event.{Event, EventKind}
use coragent.Store.{Store, Manifest, ActiveRun}
use coragent.Store.Session as Durable
use coragent.Engine.{Session, idle, closed}
use coragent.Engine.Facts.{read_clock, durably, emit}
use coragent.Engine.Terminal.{reconcile_interrupted}

abbrev pub is_close_event : EventKind → Bool
is_close_event Event.session_closed = true
is_close_event _ = false

-- `closedFacts`
unfoldable pub close_records : List Record → ℕ
close_records [] = 0
close_records (r ∷ rs) = (if Transcript.is_session_closed r.kind then 1 else 0) + close_records rs

-- `closedEvents`
unfoldable pub close_events : List Event → ℕ
close_events [] = 0
close_events (e ∷ es) = (if is_close_event e.kind then 1 else 0) + close_events es

-- The close facts of the record log, the events and the manifest agree.
unfoldable pub close_facts_agree : ℕ → ℕ → Manifest → Bool
close_facts_agree facts events m = not (
    ltb 1 facts
    || ltb 1 events
    || m.closed && not (facts == 1)
    || ltb 0 events && not (facts == 1)
    || facts == 1 && is_some m.active_run)

abbrev seen_of : Dict Bool → Dict (Unit {0})
seen_of seen = map (λ e. (e.0, tt)) seen

-- A session in its first state, before it looks at the durable facts.
unfoldable pub initial :
    Bytes → List Instruction → (Bytes → Bool) → (ℕ → ℕ) → Option Store → Session
initial id docs detects now durable = record {
  id = id;
  docs = docs;
  detects = detects;
  durable = durable;
  now = now;
  ticks = 0;
  state = idle;
  seen = elim durable [ none ↦ [] | some d ↦ seen_of d.manifest.seen_commands ];
  cursor = elim durable [ none ↦ 0 | some d ↦ d.manifest.event_cursor ];
  runs = elim durable [ none ↦ 0 | some d ↦ d.manifest.next_run ];
  history = elim durable [ none ↦ [] | some d ↦ d.events ];
  records = elim durable [ none ↦ [] | some d ↦ d.transcript ];
  subs = [];
  next_sub = 0;
  partial = [];
  active_tool = none;
  memory_budget = [];
  run_cancel = none;
  terminal_err = none;
}

abbrev reconcile_active : Option ActiveRun → Exec Session (Unit {0})
reconcile_active none = pure tt
reconcile_active (some r) = reconcile_interrupted r.id

-- A log with a close fact: the manifest and the event may be missing still.
unfoldable pub finish_close : Manifest → ℕ → Exec Session (Unit {0})
unfolding read_clock durably emit
finish_close m events = do
  if m.closed then pure tt else (do at ← read_clock; durably (Durable.close at) (pure tt))
  modify (λ s. record s { state = closed })
  if events == 0 then emit [] Event.session_closed Event.empty_object else pure tt

unfoldable pub recover : Store → Exec Session (Unit {0})
unfolding reconcile_interrupted finish_close close_records close_events close_facts_agree
recover d = do
  ensure (close_facts_agree (close_records d.transcript) (close_events d.events) d.manifest)
      inconsistent_close
  reconcile_active d.manifest.active_run
  if close_records d.transcript == 1
      then finish_close d.manifest (close_events d.events)
      else pure tt

-- An empty ID is that of the durable session.
unfoldable pub session_name : Bytes → Option Store → Result Bytes
session_name id none = Errors.◌>>◌ (require (not (blank id)) missing_session_id) (ok id)
session_name id (some d) =
    let name = if blank id then d.manifest.session_id else id in
    Errors.◌>>◌ (require (same name d.manifest.session_id) session_mismatch)
      (Errors.◌>>◌ (require (not (blank name)) missing_session_id) (ok name))

abbrev recover_durable : Option Store → Exec Session (Unit {0})
recover_durable none = pure tt
recover_durable (some d) = recover d

-- `NewSession`: also the session as an error leaves it, whose files may have changed.
unfoldable pub new_session :
    Bytes
    → List Instruction
    → (Bytes → Bool)
    → (ℕ → ℕ)
    → Option Store
    → Result (Result (Unit {0}) × Session)
unfolding session_name initial recover
new_session id docs detects now durable =
    Errors.◌>>=◌ (session_name id durable)
      λ name. ok (recover_durable durable (initial name docs detects now durable))
