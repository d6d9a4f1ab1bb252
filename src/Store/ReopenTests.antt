-- ===== src/Store/ReopenTests.antt =====
-- A session that is created, runs once, and is opened again.
use coragent.Base.{[], codes, ◌≡◌, refl, arith}
use coragent.Errors.{ok}
use coragent.Base.Dict.{get}
use coragent.Store.{Store}
use coragent.Store.Session.{begin_run}
use coragent.Store.Open.{open_session, directory}
use coragent.Store.Crash.{Runs, nothing, returns, begin_ok, perform}
use coragent.Store.Reopen.{create-open_session}
use coragent.Store.Tests.{flat_codec, session_id, new_session, binding, here, created, first_run}

abbrev once_run : Store
once_run = (perform first_run (new_session [])).1

once_run-Runs : Runs flat_codec session_id (new_session []) once_run
unfolding begin_run get
once_run-Runs = returns first_run nothing (begin_ok (omega arith)) refl

create-open_session_example :
    open_session flat_codec session_id [] (directory once_run.disk)
    ≡ ok (record once_run { io = [] })
create-open_session_example =
    create-open_session flat_codec (codes "/r") session_id (codes "w") (codes "v1") binding 1 here
      (ok tt) [] [] (new_session []) once_run refl refl refl (omega arith) created once_run-Runs
