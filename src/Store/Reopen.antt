-- ===== src/Store/Reopen.antt =====
-- The way of a session through internal/store/store.go: `Create`, the calls of the engine, and `Open`.
use coragent.Base.{ℕ, true, false, ◌≡◌, ◌≢◌, List, Bytes, blank}
use coragent.Errors.{Result, ok}
use coragent.Store.{ProviderBinding, Io, Store}
use coragent.Store.Open.{Codec, open_session, directory, is_abs}
use coragent.Store.Durable.{open_session-IsDurable}
use coragent.Store.Create.{Resolved, create, create-IsDurable}
use coragent.Store.Crash.{Runs, Runs-IsDurable}

-- Let the file system answer with an absolute path and a name for the workspace, and let the projection version and
-- the time be given. If `Create` returns a session and admissible calls on it return, one after the other, then
-- `Open` of its files returns that very session: the same manifest, records and events.
pub create-open_session :
    (codec : Codec) (root id workspace projection_version : Bytes) (binding : ProviderBinding)
    (now : ℕ) (place : Resolved) (made : Result (Unit {0})) (io again : List Io) (s t : Store)
    → is_abs place.path ≡ true
    → blank place.identity ≡ false
    → blank projection_version ≡ false
    → now ≢ 0
    → create codec root id workspace projection_version binding now (ok place) made io ≡ ok s
    → Runs codec id s t
    → open_session codec id again (directory t.disk) ≡ ok (record t { io = again })
create-open_session codec root id workspace version binding now place made io again s t p i v n h
      r =
    let durable =
      create-IsDurable codec root id workspace version binding now place made io s p i v n h in
    open_session-IsDurable codec id t again (Runs-IsDurable codec id durable r)
