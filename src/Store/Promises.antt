-- ===== src/Store/Promises.antt =====
-- Every call that changes only the manifest of a durable session, whatever its disk operations do: what
-- returns leaves files that are as the memory, and what fails leaves files that hold all of it.
use coragent.Base.{
  ℕ, ◌+◌, true, ◌≡◌, ◌≢◌, refl, inl, inr, Option, none, some, Bytes, arith, length, ◌∙◌, is_some,
  same_refl,
}
use coragent.Base.Int.{ℤ}
use coragent.Base.Dict.{get, get-put}
use coragent.Exec.{Exec}
use coragent.Store.{Manifest, Store, ActiveRun, u64}
use coragent.Store.Session.{
  begin_run, begun, record_command, finish_run, close, reserve_budget, BudgetCounter, run_name,
}
use coragent.Store.Open.{Codec, active_run_valid}
use coragent.Store.Durable.{IsSound, Holds, IsDurable}
use coragent.Store.Rewrites.{
  Rewrites, is_ok, Reworked, manifest_valid-Reworked, updated_at-ne-zero, write_manifest-Holds,
  write_manifest-IsDurable, begin_run-Rewrites, recorded, record_command-Rewrites, finished,
  finish_run-Rewrites, closing, close-Rewrites, rebudgeted, reserve_budget-Rewrites,
}

-- What a call promises of a durable session: it never damages the files, and where it returns, they are
-- as the memory.
pub record Promise (codec : Codec) (id : Bytes) (s : Store) {A : Type 0} (call : Exec Store A)
    : Type 0 where
  pub returned : is_ok (call s).0 ≡ true → IsDurable codec id (call s).1
  pub survived : (m : Manifest) × Holds codec id (call s).1.disk m s.transcript s.events

module _ (codec : Codec) (id : Bytes) where
  rewritten :
      {A : Type 0} (call : Exec Store A) (s : Store) (m : Manifest)
      → IsDurable codec id s
      → IsSound codec id m (length s.transcript) (length s.events)
      → m.transcript_seq ≡ s.manifest.transcript_seq
      → m.event_cursor ≡ s.manifest.event_cursor
      → Rewrites call s m
      → Promise codec id s call
  rewritten call s m d k seq cursor r = elim r [
    | inl idle ↦ record { returned = λ _. rw idle d; survived = (s.manifest, rw idle d.holds) }
    | inr wrote ↦
        let t = record s { manifest = m } in
        record {
          returned = λ e. rw (wrote.0) (
              write_manifest-IsDurable codec id t s.manifest d.holds k (seq ∙ d.transcript_count)
                (cursor ∙ d.event_count) d.session_name (wrote.1 e));
          survived =
              rw (wrote.0)
                (write_manifest-Holds codec id t s.manifest s.transcript s.events d.holds k);
        }
  ]

  Reworked-IsSound :
      (s : Store) (m : Manifest)
      → IsDurable codec id s
      → Reworked s.manifest m
      → m.updated_at ≢ 0
      → active_run_valid m m.active_run ≡ true
      → m.transcript_seq ≡ s.manifest.transcript_seq
      → m.event_cursor ≡ s.manifest.event_cursor
      → IsSound codec id m (length s.transcript) (length s.events)
  Reworked-IsSound s m d e n a seq cursor = record {
    version = rw e d.holds.sound.version;
    identity = manifest_valid-Reworked codec id s.manifest m d.holds.sound.identity n e;
    active = a;
    transcript_mark = omega (arith, d.transcript_count);
    event_mark = omega (arith, d.event_count);
  }

  -- The change of a call to the manifest, with what has to be checked of it.
  module _ {A : Type 0} (call : Exec Store A) (s : Store) (m : Manifest)
      (d : IsDurable codec id s) where
    reworked :
        Rewrites call s m
        → Reworked s.manifest m
        → m.transcript_seq ≡ s.manifest.transcript_seq
        → m.event_cursor ≡ s.manifest.event_cursor
        → m.updated_at ≢ 0
        → active_run_valid m m.active_run ≡ true
        → Promise codec id s call
    reworked r e seq cursor n a =
        rewritten call s m d (Reworked-IsSound s m d e n a seq cursor) seq cursor r

  active_run-begun :
      (c : Bytes) (now : ℕ) (m : Manifest)
      → now ≢ 0
      → active_run_valid (begun c now m) (begun c now m).active_run ≡ true
  unfolding begun active_run_valid
  active_run-begun c now m n =
      let run = run_name (u64 (m.next_run + 1)) in simp (get-put, same_refl) (ground arith)

  pub active_run-budgets :
      (m m' : Manifest) (a : Option ActiveRun)
      → ((k : Bytes) → is_some (get m.budgets k) ≡ true → is_some (get m'.budgets k) ≡ true)
      → active_run_valid m a ≡ true
      → active_run_valid m' a ≡ true
  unfolding active_run_valid
  active_run-budgets m m' none keep h = refl
  active_run-budgets m m' (some r) keep h = ground (arith, keep r.id)

  pub begin_run-Promise :
      (c : Bytes) (now : ℕ) (s : Store)
      → now ≢ 0
      → IsDurable codec id s
      → Promise codec id s (begin_run c now)
  begin_run-Promise c now s n d =
      let m = begun c now s.manifest in
      reworked (begin_run c now) s m d (begin_run-Rewrites c now s) (unfold begun in refl)
        (unfold begun in refl) (unfold begun in refl) (unfold begun in n)
        (active_run-begun c now s.manifest n)

  pub record_command-Promise :
      (c : Bytes) (now : ℕ) (s : Store)
      → now ≢ 0
      → IsDurable codec id s
      → Promise codec id s (record_command c now)
  record_command-Promise c now s n d =
      reworked (record_command c now) s (recorded c now s.manifest) d
        (record_command-Rewrites c now s) refl refl refl n
        (active_run-budgets s.manifest (recorded c now s.manifest) s.manifest.active_run (λ k h. h)
          d.holds.sound.active)

  pub finish_run-Promise :
      (r : Bytes) (now : ℕ) (s : Store)
      → now ≢ 0
      → IsDurable codec id s
      → Promise codec id s (finish_run r now)
  finish_run-Promise r now s n d =
      reworked (finish_run r now) s (finished now s.manifest) d (finish_run-Rewrites r now s) refl
        refl refl n (unfold active_run_valid in refl)

  pub close-Promise :
      (now : ℕ) (s : Store) → now ≢ 0 → IsDurable codec id s → Promise codec id s (close now)
  close-Promise now s n d =
      reworked (close now) s (closing now s.manifest) d (close-Rewrites now s) refl refl refl n (
        active_run-budgets s.manifest (closing now s.manifest) s.manifest.active_run (λ k h. h)
          d.holds.sound.active)

  pub reserve_budget-Promise :
      (run : Bytes) (counter : BudgetCounter) (amount : ℤ) (s : Store)
      → IsDurable codec id s
      → Promise codec id s (reserve_budget run counter amount)
  reserve_budget-Promise run counter amount s d =
      elim (reserve_budget-Rewrites run counter amount s) [
        | inl idle ↦ record { returned = λ _. rw idle d; survived = (s.manifest, rw idle d.holds) }
        | inr (b, b', _, _, wrote) ↦
            reworked (reserve_budget run counter amount) s (rebudgeted run b' s.manifest) d wrote
              refl refl refl (updated_at-ne-zero codec id s.manifest d.holds.sound.identity)
              (active_run-budgets s.manifest (rebudgeted run b' s.manifest) s.manifest.active_run
                (λ k h. ground (arith, get-put s.manifest.budgets run k b')) d.holds.sound.active)
      ]
