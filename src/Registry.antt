-- ===== src/Registry.antt =====
-- internal/engine/engine.go: the creation of an engine, and of its sessions or their loading. The digests, the detector,
-- the workspace, the discovery of instructions, the construction of the broker and `store.Create` are parameters.
mod Tests
use coragent.Base.{
  ℕ, zero, suc, ◌+◌, Bool, true, false, not, ◌&&◌, ◌||◌, ◌≡◌, refl, sym, ap, ◌∙◌, Option, none,
  some, List, [], ◌∷◌, Bytes, blank, same, same_eq, arith, if◌then◌else◌, inl, inr, Bool-cases,
}
use coragent.Base.Int.{ℤ, pos, negsuc, leb_ℤ}
use coragent.Errors.{
  Err, Result, ok, err, ◌>>=◌, ◌>>◌, require, >>=-eq-ok, require-eq-ok, incomplete_engine,
  binding_mismatch, no_session_id, exists, context_done, sensitive_prompt, Result-cases,
}
use coragent.Store.{Store, ProviderBinding}
use coragent.Store.Open.{Codec, compute_digest, binding_valid}
use coragent.Prompt.{Instruction, prompt_version}
use coragent.Engine.{Session}
use coragent.Engine.Start.{new_session}

-- `provider.Identity`
pub record Identity : Type 0 where
  pub adapter : Bytes
  pub wire_protocol : Bytes
  pub endpoint_sha256 : Bytes
  pub credential_source_sha256 : Bytes
  pub model : Bytes
  pub context_window : ℤ
  pub max_output_tokens : ℤ
  pub temperature : Option Bytes
  pub seed : Option ℤ
  pub tool_choice : Bytes

-- `EngineConfig`; a provider without an identity, and none, have no identity.
pub record EngineConfig : Type 0 where
  pub store_root : Bytes
  pub identity : Option Identity
  pub context_window : ℤ
  pub max_output_tokens : ℤ
  pub user_preferences : Bytes

abbrev pub is_zero : ℤ → Bool
is_zero (pos zero) = true
is_zero _ = false

abbrev pub same_number : ℤ → ℤ → Bool
same_number a b = leb_ℤ a b && leb_ℤ b a

abbrev complete : Identity → Bool
complete i = not (
    blank i.adapter
    || blank i.wire_protocol
    || blank i.endpoint_sha256
    || blank i.credential_source_sha256
    || blank i.model)

-- A limit of the provider, where it has one, is that of the configuration.
abbrev limits_agree : EngineConfig → Identity → Bool
limits_agree cfg i =
    (is_zero i.context_window || same_number i.context_window cfg.context_window)
    && (is_zero i.max_output_tokens || same_number i.max_output_tokens cfg.max_output_tokens)

abbrev require_identity : Option Identity → Result Identity
require_identity none = err incomplete_engine
require_identity (some i) = ok i

module _ (codec : Codec) (sha256 : Bytes → Bytes) where
  abbrev unsigned_binding : EngineConfig → Identity → ProviderBinding
  unsigned_binding cfg i = record {
    digest = [];
    adapter = i.adapter;
    wire_protocol = i.wire_protocol;
    endpoint_sha256 = i.endpoint_sha256;
    credential_source_sha256 = i.credential_source_sha256;
    model = i.model;
    context_window = cfg.context_window;
    max_output_tokens = cfg.max_output_tokens;
    temperature = i.temperature;
    seed = i.seed;
    tool_choice = i.tool_choice;
    user_preferences_sha256 = sha256 cfg.user_preferences;
    prompt_version = prompt_version;
  }

  unfoldable pub signed_binding : EngineConfig → Identity → ProviderBinding
  unfolding compute_digest
  signed_binding cfg i =
      let b = unsigned_binding cfg i in record b { digest = compute_digest codec b }

  -- `New`: the binding of the engine.
  unfoldable pub new_engine : EngineConfig → Result ProviderBinding
  unfolding signed_binding binding_valid
  new_engine cfg = do
    require (not (blank cfg.store_root)) incomplete_engine
    i ← require_identity cfg.identity
    require (not (leb_ℤ cfg.context_window (pos 0) || leb_ℤ cfg.max_output_tokens (pos 0)))
        incomplete_engine
    require (complete i) incomplete_engine
    require (limits_agree cfg i) incomplete_engine
    require (binding_valid codec (signed_binding cfg i)) incomplete_engine
    ok (signed_binding cfg i)

-- What `workspace.Open` gives.
pub record Workspace : Type 0 where
  pub name : Bytes
  pub identity : Result Bytes

-- What `createOrLoad` is given besides the engine.
pub record World : Type 0 where
  pub context_done : Bool
  pub workspace : Result Workspace
  pub projection_version : Bytes
  pub contains : Bytes → Bool
  pub docs : Result (List Instruction)
  pub broker : Result (Unit {0})
  pub fresh_id : ℕ → Result Bytes
  pub create : Bytes → Result Store
  pub now : ℕ → ℕ

-- The checks of a session that is loaded.
unfoldable pub check_durable : World → ProviderBinding → Workspace → Store → Result (Unit {0})
check_durable world b w d = do
  require (same w.name d.manifest.workspace) binding_mismatch
  identity ← w.identity
  require (same identity d.manifest.workspace_identity) binding_mismatch
  require (same d.manifest.projection_version world.projection_version) binding_mismatch
  require (same d.manifest.provider_binding.digest b.digest) binding_mismatch

abbrev check_loaded : World → ProviderBinding → Workspace → Option Store → Result (Unit {0})
check_loaded world b w none = ok tt
check_loaded world b w (some d) = check_durable world b w d

abbrev retried : Bytes → Result Store → Result (Bytes × Store) → Result (Bytes × Store)
retried id (ok d) again = ok (id, d)
retried id (err exists) again = again
retried id (err e) again = err e

-- The attempts to find an ID that is free.
unfoldable pub allocate : World → (left n : ℕ) → Result (Bytes × Store)
allocate world zero n = err no_session_id
allocate world (suc left) n =
    let again = allocate world left (n + 1) in
    world.fresh_id n >>= λ id. retried id (world.create id) again

unfoldable pub allocated : World → Bytes → Option Store → Result (Bytes × Store)
unfolding allocate
allocated world id none = allocate world 8 0
allocated world id (some d) = ok (id, d)

-- `createOrLoad`, with the limits that `NewAssembler` tests.
unfoldable pub create_or_load :
    World
    → EngineConfig
    → ProviderBinding
    → Bytes
    → Option Store
    → Result (Result (Unit {0}) × Session)
unfolding check_durable allocated new_session
create_or_load world cfg b id durable = do
  require (not world.context_done) context_done
  w ← world.workspace
  check_loaded world b w durable
  require (not (world.contains w.name)) sensitive_prompt
  require (blank cfg.user_preferences || not (world.contains cfg.user_preferences)) sensitive_prompt
  docs ← world.docs
  world.broker
  require
      (not
        (blank w.name || leb_ℤ cfg.context_window (pos 0) || leb_ℤ cfg.max_output_tokens (pos 0)))
      incomplete_engine
  found ← allocated world id durable
  new_session found.0 docs world.contains world.now (some found.1)

-- The session that a load may continue: it is of this workspace, of this projection and of this provider.
pub record Continues (world : World) (b : ProviderBinding) (d : Store) : Type 0 where
  pub place : Workspace
  pub opened : world.workspace ≡ ok place
  pub named : place.name ≡ d.manifest.workspace
  pub identity : place.identity ≡ ok d.manifest.workspace_identity
  pub projection : d.manifest.projection_version ≡ world.projection_version
  pub binding : d.manifest.provider_binding.digest ≡ b.digest
  pub clean : world.contains place.name ≡ false

-- `if !b { return err }` before the rest.
require-parts :
    {A : Type 0}
    → (b : Bool) (e : Err) (rest : Result A) (a : A) → (require b e >> rest) ≡ ok a
    → (b ≡ true) × (rest ≡ ok a)
require-parts false e rest a h = cc
require-parts true e rest a h = (refl, h)

check_durable-parts :
    (world : World) (b : ProviderBinding) (w : Workspace) (d : Store)
    → check_durable world b w d ≡ ok tt
    → (w.name ≡ d.manifest.workspace)
      × (w.identity ≡ ok d.manifest.workspace_identity)
      × (d.manifest.projection_version ≡ world.projection_version)
      × (d.manifest.provider_binding.digest ≡ b.digest)
unfolding check_durable
check_durable-parts world b w d h =
    let last = require (same d.manifest.provider_binding.digest b.digest) binding_mismatch in
    let (named, h1) = require-parts (same w.name d.manifest.workspace) binding_mismatch _ tt h in
    let (i, found, h2) =
      >>=-eq-ok w.identity
        (λ i.
          require (same i d.manifest.workspace_identity) binding_mismatch
          >> (require (same d.manifest.projection_version world.projection_version) binding_mismatch
              >> last))
        h1 in
    let (same_place, h3) =
      require-parts (same i d.manifest.workspace_identity) binding_mismatch _ tt h2 in
    let (projection, h4) =
      require-parts (same d.manifest.projection_version world.projection_version) binding_mismatch
        last tt h3 in
    (
      same_eq w.name d.manifest.workspace named,
      found ∙ ap ok (same_eq i d.manifest.workspace_identity same_place),
      same_eq d.manifest.projection_version world.projection_version projection,
      same_eq d.manifest.provider_binding.digest b.digest
          (require-eq-ok (same d.manifest.provider_binding.digest b.digest) binding_mismatch h4),
    )

-- A stored session is loaded only into its own workspace, by path and by identity on the file system, with the same
-- version of the projection, by an engine whose provider binding has the digest of the session's, and if the path of the
-- workspace holds no credential.
pub create_or_load-Continues :
    (world : World) (cfg : EngineConfig) (b : ProviderBinding) (id : Bytes) (d : Store)
    (made : Result (Unit {0}) × Session)
    → create_or_load world cfg b id (some d) ≡ ok made
    → Continues world b d
unfolding create_or_load
create_or_load-Continues world cfg b id d made h =
    let (fresh, h1) = require-parts (not world.context_done) context_done _ made h in
    let (w, opened, h2) = >>=-eq-ok world.workspace _ h1 in
    let (_, checks, h3) = >>=-eq-ok (check_durable world b w d) _ h2 in
    let (clean, h4) = require-parts (not (world.contains w.name)) sensitive_prompt _ made h3 in
    let (named, identity, projection, binding) = check_durable-parts world b w d checks in
    record {
      place = w;
      opened = opened;
      named = named;
      identity = identity;
      projection = projection;
      binding = binding;
      clean = ground (arith, clean);
    }
