-- ===== src/Store/Open.antt =====
-- `Open`, `ProviderBinding.Validate` and the identifier checks of internal/store/store.go. The JSON encoding and
-- SHA-256 of a binding, and the length of an encoded line, are the parameters of `Codec`.
use coragent.Base.{
  ℕ, ◌+◌, Bool, true, false, not, ◌&&◌, ◌||◌, Option, none, some, List, [], ◌∷◌, Bytes, codes,
  blank, same, leb, ◌==◌, if◌then◌else◌, is_some, length,
}
use coragent.Base.Int.{ℤ, pos, negsuc, ltb_ℤ}
use coragent.Base.Dict.{get}
use coragent.Errors.{
  Result, ok, err, ◌>>=◌, ◌>>◌, require, corrupt, not_found, unsupported_format, invalid_session_id,
}
use coragent.Transcript.{Record}
use coragent.Transcript.Validate.{validate_records}
use coragent.Event
use coragent.Event.{Event}
use coragent.Store.{
  ProviderBinding, Manifest, ActiveRun, LogFile, absent, undecodable, stored, Disk, Io, Store,
}

-- `hash` is the hexadecimal SHA-256 of the JSON of a binding. A line is `long` if it does not fit the
-- scanner's buffer of 4 MiB.
pub record Codec : Type 0 where
  pub hash : ProviderBinding → Bytes
  pub long_record : Record → Bool
  pub long_event : Event → Bool

abbrev is_lower : ℕ → Bool
is_lower c = leb b'a' c && leb c b'z'

abbrev is_upper : ℕ → Bool
is_upper c = leb b'A' c && leb c b'Z'

abbrev is_digit : ℕ → Bool
is_digit c = leb b'0' c && leb c b'9'

-- The loop of `validateSessionID`. A separator is no such character, so it also decides the tests of
-- `filepath.Base` and `strings.ContainsAny`.
unfoldable pub id_chars : Bytes → Bool
id_chars [] = true
id_chars (c ∷ s) =
    (is_lower c || is_upper c || is_digit c || c == b'-' || c == b'_' || c == b'.') && id_chars s

-- `validateSessionID`.
unfoldable pub validate_session_id : Bytes → Result (Unit {0})
unfolding id_chars
validate_session_id id = do
  require (not (blank id) && not (same id (codes ".")) && not (same id (codes "..")))
      invalid_session_id
  require (id_chars id) invalid_session_id

unfoldable pub hex_chars : Bytes → Bool
hex_chars [] = true
hex_chars (c ∷ s) = (is_digit c || leb b'a' c && leb c b'f') && hex_chars s

-- `validSHA256`.
unfoldable pub valid_sha256 : Bytes → Bool
unfolding hex_chars
valid_sha256 s = length s == 64 && hex_chars s

-- `filepath.IsAbs`
abbrev pub is_abs : Bytes → Bool
is_abs [] = false
is_abs (c ∷ s) = c == b'/'

-- Every line of a log, in order: each has to decode and to fit the buffer.
unfoldable pub read_lines : {A : Type 0} → (A → Bool) → List (Option A) → Result (List A)
read_lines long [] = ok []
read_lines long (none ∷ ls) = err corrupt
read_lines long (some v ∷ ls) =
    read_lines long ls >>= λ vs. if long v then err corrupt else ok (v ∷ vs)

-- `readJSONLines`: a partial final line is rejected.
unfoldable pub read_log : {A : Type 0} → (A → Bool) → LogFile A → Result (List A)
unfolding read_lines
read_log long f = do vs ← read_lines long f.lines; require (not f.torn) corrupt; ok vs

-- The loop of `Open` over the events.
unfoldable pub events_from : Bytes → ℕ → List Event → Bool
events_from id cursor [] = true
events_from id cursor (e ∷ es) =
    elim (Event.validate e) [ ok _ ↦ same e.session_id id && e.cursor == cursor | err _ ↦ false ]
    && events_from id (cursor + 1) es

-- `m.FormatVersion == FormatVersion`
abbrev pub is_format_version : ℤ → Bool
is_format_version (pos n) = n == 2
is_format_version (negsuc n) = false

-- Any error of the log is `ErrCorrupt`.
abbrev pub as_corrupt : Result (Unit {0}) → Result (Unit {0})
as_corrupt (ok u) = ok u
as_corrupt (err e) = err corrupt

-- What the path of the session names, by `os.Lstat`.
pub data Entry : Type 0 where
  missing other_file : Entry
  directory : Disk → Entry

-- The test of the active run: it has a budget, a name and a start.
unfoldable pub active_run_valid : Manifest → Option ActiveRun → Bool
active_run_valid m none = true
active_run_valid m (some r) =
    is_some (get m.budgets r.id) && not (blank r.id) && not (r.started_at == 0)

module _ (codec : Codec) where
  -- `ComputeDigest`: the digest covers every field but itself.
  unfoldable pub compute_digest : ProviderBinding → Bytes
  compute_digest b = codec.hash (record b { digest = [] })

  -- `ProviderBinding.Validate`.
  unfoldable pub binding_valid : ProviderBinding → Bool
  unfolding compute_digest valid_sha256
  binding_valid b =
      not (blank b.adapter)
      && not (blank b.wire_protocol)
      && not (blank b.model)
      && ltb_ℤ (pos 0) b.context_window
      && ltb_ℤ (pos 0) b.max_output_tokens
      && not (blank b.tool_choice)
      && not (blank b.prompt_version)
      && valid_sha256 b.endpoint_sha256
      && valid_sha256 b.credential_source_sha256
      && valid_sha256 b.user_preferences_sha256
      && valid_sha256 b.digest
      && same b.digest (compute_digest b)

  -- The identity test of `Open`.
  unfoldable pub manifest_valid : Bytes → Manifest → Bool
  unfolding binding_valid
  manifest_valid id m =
      same m.session_id id
      && not (blank m.workspace)
      && is_abs m.workspace
      && not (blank m.workspace_identity)
      && not (m.created_at == 0)
      && not (m.updated_at == 0)
      && not (blank m.projection_version)
      && m.authority.workspace_read
      && binding_valid m.provider_binding

  -- `Open` from the decoded manifest on.
  unfoldable pub load : Bytes → Disk → List Io → Manifest → Result Store
  unfolding manifest_valid active_run_valid read_log validate_records events_from
  load id disk io m = do
    require (is_format_version m.format_version) unsupported_format
    require (manifest_valid id m) corrupt
    require (active_run_valid m m.active_run) corrupt
    records ← read_log codec.long_record disk.transcript_file
    as_corrupt (validate_records records)
    events ← read_log codec.long_event disk.events_file
    require (events_from id 1 events) corrupt
    require (leb m.transcript_seq (length records) && leb m.event_cursor (length events)) corrupt
    ok (record {
      manifest = record m { transcript_seq = length records; event_cursor = length events };
      transcript = records;
      events = events;
      disk = disk;
      io = io;
    })

  unfoldable pub open_directory : Bytes → List Io → Disk → Result Store
  unfolding load
  open_directory id io disk = elim disk.manifest_file [
    | absent ↦ err not_found
    | undecodable ↦ err corrupt
    | stored m ↦ load id disk io m
  ]

  -- `Open`.
  unfoldable pub open_session : Bytes → List Io → Entry → Result Store
  unfolding validate_session_id open_directory
  open_session id io entry = do
    validate_session_id id
    elim entry [
      | missing ↦ err not_found
      | other_file ↦ err corrupt
      | directory disk ↦ open_directory id io disk
    ]
