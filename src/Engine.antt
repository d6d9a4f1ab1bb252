-- ===== src/Engine.antt =====
-- internal/engine/session.go: the state machine of a session. The mutex makes each call one step. The hooks are nil
-- outside tests, and logging is left out.
pub mod Facts
pub mod Apply
pub mod Terminal
pub mod Start
pub mod Observe
pub mod Retry
pub mod Calls
pub mod Steps
pub mod Ending
pub mod Observers
pub mod Stream
pub mod Run
pub mod Budget
pub mod Turns
pub mod Rounds
pub mod Deltas
pub mod Termination
mod RunTests
mod Tests
use coragent.Base.{ℕ, ◌+◌, Bool, Option, List, Bytes}
use coragent.Base.Dict.{Dict}
use coragent.Errors.{Err}
use coragent.Transcript.{Record}
use coragent.Prompt.{Instruction}
use coragent.Event.{Event}
use coragent.Store.{Store, RunBudget}

pub data State : Type 0 where
  idle running closed faulted : State

pub record ActiveTool : Type 0 where
  pub call_id : Bytes
  pub name : Bytes

-- `subscriber`: the events that were queued for it, delivered or not. Its goroutine sends them in order.
pub record Subscriber : Type 0 where
  pub sub_id : ℕ
  pub queued : List Event

-- `runCancel` with the context that it cancels, and the run whose goroutine holds the context.
pub record RunHandle : Type 0 where
  pub run_id : Bytes
  pub goal : Bytes
  pub cancelled : Bool

-- `Session`. `now` gives the readings of the clock in turn, `ticks` counts them. `detects` is the
-- projector's detector of credentials in a prompt, and `docs` the instructions.
pub record Session : Type 0 where
  pub id : Bytes
  pub docs : List Instruction
  pub detects : Bytes → Bool
  pub durable : Option Store
  pub now : ℕ → ℕ
  pub ticks : ℕ
  pub state : State
  pub seen : Dict (Unit {0})
  pub cursor : ℕ
  pub runs : ℕ
  pub history : List Event
  pub records : List Record
  pub subs : List Subscriber
  pub next_sub : ℕ
  pub partial : Bytes
  pub active_tool : Option ActiveTool
  pub memory_budget : Dict RunBudget
  pub run_cancel : Option RunHandle
  pub terminal_err : Option Err
