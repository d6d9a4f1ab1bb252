-- ===== src/Store/Manifests.antt =====
-- What each call does to the manifest in memory, however its disk operations end.
use coragent.Base.{
  ℕ, Bool, true, ◌≡◌, refl, ◌⊎◌, inl, inr, some, List, [], ◌∷◌, Bytes, arith, ◌∙◌, ap,
}
use coragent.Base.Int.{ℤ}
use coragent.Base.Dict.{Dict, get, put}
use coragent.Errors.{ok, Result-cases}
use coragent.Transcript.{Record}
use coragent.Event.{Event}
use coragent.Exec.{Exec}
use coragent.Store.{Store, Manifest, RunBudget}
use coragent.Store.Files.{
  append_transcript_log, append_event_log, write_manifest, write_manifest-Replaced,
}
use coragent.Store.Session.{
  assign, append_transcript, append_event, begin_run, begun, record_command, finish_run, close,
  reserve_budget, reserved, BudgetCounter,
}
use coragent.Store.Rewrites.{
  Rewrites, begin_run-Rewrites, recorded, record_command-Rewrites, finished, finish_run-Rewrites,
  closing, close-Rewrites, rebudgeted, reserve_budget-Rewrites,
}
use coragent.Store.Crash.{Call, records, fact, begin, command, finish, close_at, reserve, perform}

abbrev pub Same : Manifest → Manifest → Type 0
Same m m' =
    (m'.budgets ≡ m.budgets) × (m'.seen_commands ≡ m.seen_commands) × (m'.next_run ≡ m.next_run)

pub append_event-Same : (e : Event) (s : Store) → Same s.manifest (append_event e s).1.manifest
unfolding append_event append_event_log write_manifest
append_event-Same e s = ground arith

append_transcript_log-manifest :
    (rs : List Record) (s : Store) → (append_transcript_log rs s).1.manifest ≡ s.manifest
unfolding append_transcript_log
append_transcript_log-manifest [] s = refl
append_transcript_log-manifest (r ∷ rs) s = ground arith

pub append_transcript-Same :
    (rs : List Record) (s : Store) → Same s.manifest (append_transcript rs s).1.manifest
append_transcript-Same rs s = elim (Result-cases (assign s.manifest.transcript_seq rs)) [
  | inl f ↦ unfold append_transcript in rw f.1 (refl, refl, refl)
  | inr f ↦
      unfold append_transcript write_manifest in
      rw f.1 (ground (arith, append_transcript_log-manifest f.0 s))
]

-- A call that rewrites the manifest sets it, or leaves it.
pub manifest_of :
    {A : Type 0} (call : Exec Store A) (s : Store) (m : Manifest)
    → Rewrites call s m
    → ((call s).1.manifest ≡ s.manifest) ⊎ ((call s).1.manifest ≡ m)
manifest_of call s m (inl idle) = inl (ap (λ (t : Store). t.manifest) idle)
manifest_of call s m (inr wrote) = inr (
    ap (λ (t : Store). t.manifest) wrote.0
    ∙ (write_manifest-Replaced (record s { manifest = m })).manifest)

-- The calls made one after the other, whether they return or fail.
pub performs : List Call → Store → Store
performs [] s = s
performs (c ∷ cs) s = performs cs (perform c s).1

-- A property of the budgets, the commands and the number of runs, from what begins a run, records a command
-- or reserves a budget.
module _ {ℓ} (P : Dict RunBudget → Dict Bool → ℕ → Type ℓ)
    (begins : (c : Bytes) (now : ℕ) (m : Manifest)
      → P m.budgets m.seen_commands m.next_run
      → P (begun c now m).budgets (begun c now m).seen_commands (begun c now m).next_run)
    (records_command : (c : Bytes) (m : Manifest)
      → P m.budgets m.seen_commands m.next_run
      → P m.budgets (put m.seen_commands c true) m.next_run)
    (reserves : (r : Bytes) (k : BudgetCounter) (a : ℤ) (b b' : RunBudget) (m : Manifest)
      → get m.budgets r ≡ some b
      → reserved b k a ≡ ok b'
      → P m.budgets m.seen_commands m.next_run
      → P (put m.budgets r b') m.seen_commands m.next_run) where
  abbrev Of : Manifest → Type ℓ
  Of m = P m.budgets m.seen_commands m.next_run

  kept_parts : (m m' : Manifest) → Same m m' → Of m → Of m'
  kept_parts m m' (b, c, n) h = rw (b, c, n) h

  rewritten_parts :
      {A : Type 0} (call : Exec Store A) (s : Store) (m : Manifest)
      → Rewrites call s m
      → Of s.manifest
      → Of m
      → Of (call s).1.manifest
  rewritten_parts call s m r h k = elim (manifest_of call s m r) [ inl e ↦ rw e h | inr e ↦ rw e k ]

  -- Every call keeps the property, whether it returns or fails.
  pub perform_keeps : (c : Call) (s : Store) → Of s.manifest → Of (perform c s).1.manifest
  perform_keeps (records rs) s h =
      kept_parts s.manifest (append_transcript rs s).1.manifest (append_transcript-Same rs s) h
  perform_keeps (fact e) s h =
      kept_parts s.manifest (append_event e s).1.manifest (append_event-Same e s) h
  perform_keeps (begin c now) s h =
      rewritten_parts (begin_run c now) s (begun c now s.manifest) (begin_run-Rewrites c now s) h
        (begins c now s.manifest h)
  perform_keeps (command c now) s h =
      rewritten_parts (record_command c now) s (recorded c now s.manifest)
        (record_command-Rewrites c now s) h (records_command c s.manifest h)
  perform_keeps (finish r now) s h =
      rewritten_parts (finish_run r now) s (finished now s.manifest) (finish_run-Rewrites r now s) h
        h
  perform_keeps (close_at now) s h =
      rewritten_parts (close now) s (closing now s.manifest) (close-Rewrites now s) h h
  perform_keeps (reserve r k a) s h = elim (reserve_budget-Rewrites r k a s) [
    | inl idle ↦ rw idle h
    | inr (b, b', e, f, wrote) ↦
        rewritten_parts (reserve_budget r k a) s (rebudgeted r b' s.manifest) wrote h
          (reserves r k a b b' s.manifest e f h)
  ]

  pub performs_keeps : (cs : List Call) (s : Store) → Of s.manifest → Of (performs cs s).manifest
  unfolding performs
  performs_keeps [] s h = h
  performs_keeps (c ∷ cs) s h = performs_keeps cs (perform c s).1 (perform_keeps c s h)
