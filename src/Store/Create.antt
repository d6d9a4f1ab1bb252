-- ===== src/Store/Create.antt =====
-- `Create` of internal/store/store.go, and that a session that it returns can be opened.
use coragent.Base.{
  ℕ, true, false, not, ◌&&◌, ◌≡◌, ◌≢◌, refl, none, List, [], ◌∷◌, sym, subst, Bytes, blank,
  same_refl, arith,
}
use coragent.Base.Int.{pos}
use coragent.Errors.{
  Result, ok, err, ◌>>=◌, ◌>>◌, require, invalid_session_id, corrupt, >>=-eq-ok, require-eq-ok,
  ok-injective,
}
use coragent.Store.{ProviderBinding, Manifest, Io, done, failed, Store, absent, stored}
use coragent.Transcript.Validate.{validate_records}
use coragent.Store.Files.{write_manifest}
use coragent.Store.Open.{
  Codec, binding_valid, validate_session_id, manifest_valid, active_run_valid, events_from,
  is_format_version, is_abs,
}
use coragent.Store.Durable.{IsDurable, whole}

-- A workspace as the file system resolves it: its absolute path and its identity.
pub record Resolved : Type 0 where
  pub path : Bytes
  pub identity : Bytes

-- The first manifest.
unfoldable pub first_manifest : Bytes → Resolved → Bytes → ProviderBinding → ℕ → Manifest
first_manifest id workspace projection_version binding now = record {
  format_version = pos 2;
  session_id = id;
  workspace = workspace.path;
  workspace_identity = workspace.identity;
  created_at = now;
  updated_at = now;
  closed = false;
  projection_version = projection_version;
  provider_binding = binding;
  authority = record { workspace_read = true };
  transcript_seq = 0;
  event_cursor = 0;
  next_run = 0;
  seen_commands = [];
  budgets = [];
  active_run = none;
}

-- A session in a directory without files.
abbrev pub unwritten : Manifest → List Io → Store
unwritten m io = record {
  manifest = m;
  transcript = [];
  events = [];
  disk = record { manifest_file = absent; transcript_file = whole []; events_file = whole [] };
  io = io;
}

abbrev written : Result (Unit {0}) → Store → Result Store
written (ok u) s = ok s
written (err e) s = err e

first_write :
    (m : Manifest) (io : List Io) (s : Store)
    → written (write_manifest (unwritten m io)).0 (write_manifest (unwritten m io)).1 ≡ ok s
    → (later : List Io) × (s ≡ record (unwritten m later) {
      disk = record {
        manifest_file = stored m;
        transcript_file = whole [];
        events_file = whole [];
      };
    })
unfolding write_manifest
first_write m [] s h = ([], sym (ok-injective h))
first_write m (done ∷ io) s h = (io, sym (ok-injective h))
first_write m (failed k p ∷ io) s h = cc

module _ (codec : Codec) where
  -- `Create`. What the file system answers is a parameter: `resolved` for the workspace, `made` for the root and
  -- the new directory.
  unfoldable pub create :
      (root id workspace projection_version : Bytes)
      → ProviderBinding
      → (now : ℕ) → Result Resolved
      → Result (Unit {0})
      → List Io
      → Result Store
  unfolding binding_valid validate_session_id first_manifest write_manifest
  create root id workspace projection_version binding now resolved made io = do
    require (not (blank root) && not (blank id) && not (blank workspace)) invalid_session_id
    require (binding_valid codec binding) corrupt
    place ← resolved
    validate_session_id id
    made
    let s : Store = unwritten (first_manifest id place projection_version binding now) io
    written (write_manifest s).0 (write_manifest s).1

  abs-ne-blank : (p : Bytes) → is_abs p ≡ true → blank p ≡ false
  abs-ne-blank [] h = cc
  abs-ne-blank (c ∷ p) h = refl

  first_manifest-valid :
      (id : Bytes) (place : Resolved) (projection_version : Bytes) (binding : ProviderBinding)
      (now : ℕ)
      → binding_valid codec binding ≡ true
      → is_abs place.path ≡ true
      → blank place.identity ≡ false
      → blank projection_version ≡ false
      → now ≢ 0
      → manifest_valid codec id (first_manifest id place projection_version binding now) ≡ true
  unfolding manifest_valid first_manifest
  first_manifest-valid id place projection_version binding now b p i v n =
      ground (arith, same_refl id, abs-ne-blank place.path p)

  -- The files after the first manifest has been written.
  new_session-IsDurable :
      (id : Bytes) (m : Manifest) (io : List Io)
      → is_format_version m.format_version ≡ true
      → manifest_valid codec id m ≡ true
      → m.active_run ≡ none
      → m.transcript_seq ≡ 0
      → m.event_cursor ≡ 0
      → validate_session_id id ≡ ok tt
      → IsDurable codec id (record (unwritten m io) {
        disk = record {
          manifest_file = stored m;
          transcript_file = whole [];
          events_file = whole [];
        };
      })
  unfolding validate_records events_from active_run_valid
  new_session-IsDurable id m io f v a t e name = record {
    holds = record {
      manifest_file = refl;
      transcript_file = refl;
      events_file = refl;
      sound = record {
        version = f;
        identity = v;
        active = rw a refl;
        transcript_mark = omega (arith, t);
        event_mark = omega (arith, e);
      };
      readable = record { log = refl; facts = refl; short_records = tt; short_events = tt };
    };
    transcript_count = t;
    event_count = e;
    session_name = name;
  }

  -- Let the file system answer with an absolute path and a name for the workspace, and let the projection version
  -- and the time be given. Then a session that `Create` returns has files that are as its memory.
  pub create-IsDurable :
      (root id workspace projection_version : Bytes) (binding : ProviderBinding) (now : ℕ)
      (place : Resolved) (made : Result (Unit {0})) (io : List Io) (s : Store)
      → is_abs place.path ≡ true
      → blank place.identity ≡ false
      → blank projection_version ≡ false
      → now ≢ 0
      → create root id workspace projection_version binding now (ok place) made io ≡ ok s
      → IsDurable codec id s
  unfolding create
  create-IsDurable root id workspace projection_version binding now place made io s p i v n h =
      let m = first_manifest id place projection_version binding now in
      let (_, _, k1) =
        >>=-eq-ok
          (require (not (blank root) && not (blank id) && not (blank workspace)) invalid_session_id)
          _ h in
      let (_, bound, k2) = >>=-eq-ok (require (binding_valid codec binding) corrupt) _ k1 in
      let (_, name, k3) = >>=-eq-ok (validate_session_id id) _ k2 in
      let (_, _, k4) = >>=-eq-ok made _ k3 in
      let valid =
        first_manifest-valid id place projection_version binding now (require-eq-ok _ _ bound) p i v
          n in
      let (later, there) = first_write m io s k4 in
      subst (λ z. IsDurable codec id z) (sym there)
        (unfold first_manifest in new_session-IsDurable id m later refl valid refl refl refl name)
