-- ===== src/Store/Rewrites.antt =====
-- Every call on a durable session, whatever its disk operations do: what returns leaves files that are
-- as the memory, and what fails leaves files that hold all that was there.
use coragent.Base.{
  ℕ, Bool, true, false, ◌≡◌, ◌≢◌, ◌⊎◌, inl, inr, none, some, List, Bytes, arith, length,
  Option-cases, ◌∙◌,
}
use coragent.Base.Int.{ℤ}
use coragent.Base.Dict.{get, put}
use coragent.Errors.{Result, ok, err, Result-cases}
use coragent.Transcript.{Record}
use coragent.Event.{Event}
use coragent.Exec.{Exec}
use coragent.Store.{Manifest, Store, RunBudget}
use coragent.Store.Files.{
  write_manifest, write_manifest-Replaced, write_manifest_file, write_manifest_returned,
}
use coragent.Store.Session.{
  begin_run, begun, record_command, finish_run, close, reserve_budget, BudgetCounter, reserved,
}
use coragent.Store.Open.{Codec, manifest_valid, validate_session_id}
use coragent.Store.Durable.{IsSound, Holds, IsDurable}

module _ (codec : Codec) (id : Bytes) where
  -- The manifest on disk is the old one or the new one.
  pub write_manifest-Holds :
      (s : Store) (m : Manifest) (records : List Record) (events : List Event)
      → Holds codec id s.disk m records events
      → IsSound codec id s.manifest (length records) (length events)
      → (m' : Manifest) × Holds codec id (write_manifest s).1.disk m' records events
  write_manifest-Holds s m records events h k =
      let u = write_manifest-Replaced s in
      elim (write_manifest_file s) [
        | inl old ↦ (
          m,
          record {
            manifest_file = old ∙ h.manifest_file;
            transcript_file = u.transcript_file ∙ h.transcript_file;
            events_file = u.events_file ∙ h.events_file;
            sound = h.sound;
            readable = h.readable;
          },
        )
        | inr new ↦ (
          s.manifest,
          record {
            manifest_file = new;
            transcript_file = u.transcript_file ∙ h.transcript_file;
            events_file = u.events_file ∙ h.events_file;
            sound = k;
            readable = h.readable;
          },
        )
      ]

  write_manifest-ok-Holds :
      (s : Store) (m : Manifest) (records : List Record) (events : List Event)
      → Holds codec id s.disk m records events
      → IsSound codec id s.manifest (length records) (length events)
      → (write_manifest s).0 ≡ ok tt
      → Holds codec id (write_manifest s).1.disk s.manifest records events
  write_manifest-ok-Holds s m records events h k r =
      let u = write_manifest-Replaced s in
      record {
        manifest_file = write_manifest_returned s r;
        transcript_file = u.transcript_file ∙ h.transcript_file;
        events_file = u.events_file ∙ h.events_file;
        sound = k;
        readable = h.readable;
      }

  pub write_manifest-IsDurable :
      (s : Store) (m : Manifest)
      → Holds codec id s.disk m s.transcript s.events
      → IsSound codec id s.manifest (length s.transcript) (length s.events)
      → s.manifest.transcript_seq ≡ length s.transcript
      → s.manifest.event_cursor ≡ length s.events
      → validate_session_id id ≡ ok tt
      → (write_manifest s).0 ≡ ok tt
      → IsDurable codec id (write_manifest s).1
  write_manifest-IsDurable s m h k seq cursor name r =
      let u = write_manifest-Replaced s in
      record {
        holds =
            rw (u.manifest, u.transcript, u.events)
              (write_manifest-ok-Holds s m s.transcript s.events h k r);
        transcript_count = rw (u.manifest, u.transcript) seq;
        event_count = rw (u.manifest, u.events) cursor;
        session_name = name;
      }

-- The fields of a manifest that say whose session it is.
abbrev pub Reworked : Manifest → Manifest → Type 0
Reworked m m' = m' ≡ record m {
  closed = m'.closed;
  updated_at = m'.updated_at;
  transcript_seq = m'.transcript_seq;
  event_cursor = m'.event_cursor;
  next_run = m'.next_run;
  seen_commands = m'.seen_commands;
  budgets = m'.budgets;
  active_run = m'.active_run;
}

module _ (codec : Codec) (id : Bytes) where
  pub manifest_valid-Reworked :
      (m m' : Manifest)
      → manifest_valid codec id m ≡ true
      → m'.updated_at ≢ 0
      → Reworked m m'
      → manifest_valid codec id m' ≡ true
  unfolding manifest_valid
  manifest_valid-Reworked m m' h n e = ground arith

  pub updated_at-ne-zero : (m : Manifest) → manifest_valid codec id m ≡ true → m.updated_at ≢ 0
  unfolding manifest_valid
  updated_at-ne-zero m h = ground arith

abbrev pub is_ok : {A : Type 0} → Result A → Bool
is_ok (ok a) = true
is_ok (err e) = false

-- A call that changes only the manifest: it changes nothing, or it sets the manifest and
-- writes it.
abbrev pub Rewrites : {A : Type 0} → Exec Store A → Store → Manifest → Type 0
Rewrites call s m =
    ((call s).1 ≡ s)
    ⊎ (((call s).1 ≡ (write_manifest (record s { manifest = m })).1)
        × (is_ok (call s).0 ≡ true → (write_manifest (record s { manifest = m })).0 ≡ ok tt))

pub begin_run-Rewrites :
    (c : Bytes) (now : ℕ) (s : Store) → Rewrites (begin_run c now) s (begun c now s.manifest)
unfolding begin_run
begin_run-Rewrites c now s = ground arith

abbrev pub recorded : Bytes → ℕ → Manifest → Manifest
recorded c now m = record m { seen_commands = put m.seen_commands c true; updated_at = now }

pub record_command-Rewrites :
    (c : Bytes) (now : ℕ) (s : Store)
    → Rewrites (record_command c now) s (recorded c now s.manifest)
unfolding record_command
record_command-Rewrites c now s = ground arith

abbrev pub finished : ℕ → Manifest → Manifest
finished now m = record m { active_run = none; updated_at = now }

pub finish_run-Rewrites :
    (r : Bytes) (now : ℕ) (s : Store) → Rewrites (finish_run r now) s (finished now s.manifest)
unfolding finish_run
finish_run-Rewrites r now s = ground arith

abbrev pub closing : ℕ → Manifest → Manifest
closing now m = record m { closed = true; updated_at = now }

pub close-Rewrites : (now : ℕ) (s : Store) → Rewrites (close now) s (closing now s.manifest)
unfolding close
close-Rewrites now s = ground arith

abbrev pub rebudgeted : Bytes → RunBudget → Manifest → Manifest
rebudgeted run b m = record m { budgets = put m.budgets run b }

pub reserve_budget-Rewrites :
    (run : Bytes) (counter : BudgetCounter) (amount : ℤ) (s : Store)
    → ((reserve_budget run counter amount s).1 ≡ s)
      ⊎ ((b b' : RunBudget) × (get s.manifest.budgets run ≡ some b)
          × (reserved b counter amount ≡ ok b')
          × Rewrites (reserve_budget run counter amount) s (rebudgeted run b' s.manifest))
reserve_budget-Rewrites run counter amount s = elim (Option-cases (get s.manifest.budgets run)) [
  | inl e ↦ inl (unfold reserve_budget in rw e)
  | inr (b, e) ↦ elim (Result-cases (reserved b counter amount)) [
    | inl g ↦ inl (unfold reserve_budget in rw (e, g.1))
    | inr (b', f) ↦ inr (b, b', e, f, unfold reserve_budget in rw (e, f) (ground arith))
  ]
]
