-- ===== src/Registry/Tests.antt =====
-- A session that the engine of internal/engine/engine.go loads again, and attempts that find no free ID.
use coragent.Base.{ℕ, ◌+◌, Option, none, some, List, [], ◌∷◌, Bytes, codes, false, ◌≡◌, refl}
use coragent.Base.Int.{pos}
use coragent.Errors.{ok, err, exists, no_session_id}
use coragent.Store.{Store}
use coragent.Store.Tests.{session_id, new_session}
use coragent.Registry.{
  EngineConfig, World, Continues, allocate, create_or_load, create_or_load-Continues,
}

abbrev stored : Store
stored = new_session []

abbrev world : World
world = record {
  context_done = false;
  workspace = ok (record {
    name = stored.manifest.workspace;
    identity = ok stored.manifest.workspace_identity;
  });
  projection_version = stored.manifest.projection_version;
  contains = λ s. false;
  docs = ok [];
  broker = ok tt;
  fresh_id = λ n. ok session_id;
  create = λ id. err exists;
  now = λ n. n + 5;
}

abbrev config : EngineConfig
config = record {
  store_root = codes "/r";
  identity = none;
  context_window = pos 100;
  max_output_tokens = pos 10;
  user_preferences = [];
}

allocate_test : allocate world 8 0 ≡ err no_session_id
unfolding allocate
allocate_test = refl

create_or_load-Continues_example : Continues world stored.manifest.provider_binding stored
unfolding create_or_load coragent.Base.same
create_or_load-Continues_example =
    create_or_load-Continues world config stored.manifest.provider_binding session_id stored _ refl
