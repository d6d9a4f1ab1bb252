-- ===== src/Engine/Observe.antt =====
-- `Observe` and `Subscribe` of internal/engine/session.go, and the way of an event to a subscriber.
use coragent.Base.{ℕ, ◌+◌, Option, none, some, List, [], ◌∷◌, ◌++◌, Bytes, ltb, ◌==◌, if◌then◌else◌}
use coragent.Transcript.{Record}
use coragent.Event.{Event}
use coragent.Engine.{Session, State, ActiveTool, Subscriber}

-- `Snapshot`
pub record Snapshot : Type 0 where
  pub session_id : Bytes
  pub state : State
  pub cursor : ℕ
  pub transcript : List Record
  pub partial_assistant : Bytes
  pub active_tool : Option ActiveTool

-- The events after a cursor.
unfoldable pub events_after : ℕ → List Event → List Event
events_after cursor [] = []
events_after cursor (e ∷ es) =
    let rest = events_after cursor es in if ltb cursor e.cursor then e ∷ rest else rest

-- `Observe`: the snapshot, the key of the new subscriber, and the session with it.
unfoldable pub observe : ℕ → Session → (Snapshot × ℕ) × Session
unfolding events_after
observe cursor s = (
  (
    record {
      session_id = s.id;
      state = s.state;
      cursor = s.cursor;
      transcript = s.records;
      partial_assistant = s.partial;
      active_tool = s.active_tool;
    },
    s.next_sub,
  ),
  record s {
    subs = s.subs ++ record { sub_id = s.next_sub; queued = events_after cursor s.history } ∷ [];
    next_sub = s.next_sub + 1;
  },
)

-- `Subscribe`
unfoldable pub subscribe : Session → (Snapshot × ℕ) × Session
unfolding observe
subscribe s = observe s.cursor s

-- `s.subs[id]`
unfoldable pub subscriber : ℕ → List Subscriber → Option Subscriber
subscriber id [] = none
subscriber id (sub ∷ subs) = if sub.sub_id == id then some sub else subscriber id subs

unfoldable pub remove : ℕ → List Subscriber → List Subscriber
remove id [] = []
remove id (sub ∷ subs) = let rest = remove id subs in if sub.sub_id == id then rest else sub ∷ rest

-- The function that `Observe` returns.
unfoldable pub unsubscribe : ℕ → Session → Session
unfolding remove
unsubscribe id s = record s { subs = remove id s.subs }
