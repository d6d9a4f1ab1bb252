-- ===== src/Store.antt =====
-- internal/store/store.go: one opened durable session, its files, and the calls that change them.
-- A write may fail: the schedule `io` tells how each disk operation ends. Times are instants (`UTC()`
-- keeps the instant). `TranscriptSeq` and `EventCursor` count the records of a slice in memory, so
-- their uint64 sums are exact; `NextRun` may come from the manifest, so its increment wraps.
pub mod Files
pub mod Session
pub mod Open
pub mod Durable
pub mod Create
pub mod Rewrites
pub mod Promises
pub mod Appends
pub mod Transcripts
pub mod Facts
pub mod Crash
pub mod Reopen
pub mod Manifests
pub mod Budgets
pub mod Commands
pub mod Listing
pub mod Newest
mod ListTests
mod ReopenTests
pub mod Tests
use coragent.Base.{ℕ, ◌+◌, ◌%◌, ◌^◌, Bool, Option, List, Bytes}
use coragent.Base.Int.{ℤ}
use coragent.Base.Dict.{Dict}
use coragent.Transcript.{Record}
use coragent.Event.{Event}

-- `Authority`.
pub record Authority : Type 0 where
  pub workspace_read : Bool

-- `RunBudget`: the delay is a signed number of nanoseconds.
pub record RunBudget : Type 0 where
  pub logical_model_calls : ℕ
  pub transport_attempts : ℕ
  pub retry_delay : ℤ

pub record ActiveRun : Type 0 where
  pub id : Bytes
  pub started_at : ℕ

-- `ProviderBinding`; the temperature is its JSON numeral.
pub record ProviderBinding : Type 0 where
  pub digest : Bytes
  pub adapter : Bytes
  pub wire_protocol : Bytes
  pub endpoint_sha256 : Bytes
  pub credential_source_sha256 : Bytes
  pub model : Bytes
  pub context_window : ℤ
  pub max_output_tokens : ℤ
  pub temperature : Option Bytes
  pub seed : Option ℤ
  pub tool_choice : Bytes
  pub user_preferences_sha256 : Bytes
  pub prompt_version : Bytes

pub record Manifest : Type 0 where
  pub format_version : ℤ
  pub session_id : Bytes
  pub workspace : Bytes
  pub workspace_identity : Bytes
  pub created_at : ℕ
  pub updated_at : ℕ
  pub closed : Bool
  pub projection_version : Bytes
  pub provider_binding : ProviderBinding
  pub authority : Authority
  pub transcript_seq : ℕ
  pub event_cursor : ℕ
  pub next_run : ℕ
  pub seen_commands : Dict Bool
  pub budgets : Dict RunBudget
  pub active_run : Option ActiveRun

-- A log file: its complete lines, `none` where a line does not decode, and whether a partial line
-- follows them.
pub record LogFile (A : Type 0) : Type 0 where
  pub lines : List (Option A)
  pub torn : Bool

-- manifest.json: a rename replaces it whole.
pub data ManifestFile : Type 0 where
  absent undecodable : ManifestFile
  stored : Manifest → ManifestFile

-- The files of a session directory. A log that is absent reads as an empty one.
pub record Disk : Type 0 where
  pub manifest_file : ManifestFile
  pub transcript_file : LogFile Record
  pub events_file : LogFile Event

-- How a disk operation ends. A failed append has written some complete lines, and perhaps a part of
-- the next; a failed replacement of the manifest has happened if its count is not 0.
pub data Io : Type 0 where
  done : Io
  failed : (written : ℕ) → (partial : Bool) → Io

-- `store.Session`, with the files behind it and the schedule of its disk operations. Where the
-- schedule ends, operations succeed.
pub record Store : Type 0 where
  pub manifest : Manifest
  pub transcript : List Record
  pub events : List Event
  pub disk : Disk
  pub io : List Io

-- uint64
abbrev pub u64 : ℕ → ℕ
u64 n = n % 2 ^ 64
