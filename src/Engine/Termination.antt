-- ===== src/Engine/Termination.antt =====
-- `run` of internal/engine/session.go ends.
use coragent.Base.{ℕ, zero, suc, ◌+◌, ◌<◌, ◌≤◌, ◌≡◌, refl, ◌⊎◌, inl, inr, some, Bytes, arith}
use coragent.Transcript.{RunOutcome}
use coragent.Engine.{Session, faulted}
use coragent.Engine.Facts.{fault_session}
use coragent.Engine.Budget.{used}
use coragent.Engine.Ending.{IsEnded, finish_run-ends}
use coragent.Engine.Run.{Exit, finishes, faults, World, round, run_from, run, exit_run}
use coragent.Engine.Rounds.{Stage-cases, round-Counts}

module _ (run_id : Bytes) (w : World) (goal : Bytes) where
  -- A session in which the run is over: its outcome and its terminal event are the last facts and no run is active in memory
  -- or on the disk, or the session is faulted.
  abbrev pub IsOver : Session → Type 0
  IsOver t = ((o : RunOutcome) × (u : Session) × IsEnded run_id o u t) ⊎ (t.state ≡ faulted)

  exit_run-IsOver : (e : Exit) (s : Session) → IsOver (exit_run w run_id goal e s)
  unfolding exit_run
  exit_run-IsOver (finishes o c) s = elim (finish_run-ends run_id o c s) [
    | inl ended ↦ inl (o, s, ended)
    | inr (f, _, _) ↦ inr f
  ]
  exit_run-IsOver (faults e) s = inr (unfold fault_session in refl)

  run_from-ends :
      (left n : ℕ) (s : Session)
      → 0 < left
      → 65 ≤ left + used run_id s
      → (t : Session) × (run_from w run_id goal left n s ≡ some t) × IsOver t
  unfolding run_from
  run_from-ends zero n s p h = ground arith
  run_from-ends (suc left) n s p h = elim (Stage-cases (round w run_id goal n s).0) [
    | inl (e, f) ↦ rw (f, run_from) (_, refl, exit_run-IsOver e (round w run_id goal n s).1)
    | inr (a, f) ↦
        let (more, low) = round-Counts run_id w goal n s a f in
        rw (f, run_from)
          (run_from-ends left (n + 1) (round w run_id goal n s).1 (omega (arith, more, low))
            (omega (arith, more, low)))
  ]

  -- Every run ends, whatever the provider and the tools return and however the disk operations end: the loop needs
  -- at most 65 rounds. Then the outcome of the run is the last record, its terminal event is the last event and the
  -- session is idle with no run active in memory or in the manifest on the disk, or else the session is faulted.
  pub run-ends : (s : Session) → (t : Session) × (run w run_id goal s ≡ some t) × IsOver t
  unfolding run
  run-ends s = run_from-ends 65 0 s (omega arith) (omega arith)
