-- ===== src/Action/Tests.antt =====
-- A small broker for internal/action: a batch runs, and the theorems apply to it.
use coragent.Base.{
  ◌≡◌, ◌≤◌, refl, false, true, some, Bool, [], ◌∷◌, ◌++◌, Bytes, codes, same, length, All,
}
use coragent.Base.Dict.{get}
use coragent.Transcript.{success, document, invalid, ToolResultPayload}
use coragent.Provider.{ToolCall}
use coragent.Action.{Broker, Tool, prepared, refused, read, execute, execute_batch}
use coragent.Openai.Wire.{valid_tools}
use coragent.Action.Catalog.{Offered, new_broker, catalog, catalog-valid}
use coragent.Action.Authority.{Allowed, execute_batch-Allowed}
use coragent.Action.Batch.{execute_batch-bounds, execute_batch-stops, all_skipped}

abbrev read_tool : Tool
read_tool = record {
  prepare = λ arguments.
      prepared
        (record { tool = codes "read"; arguments = arguments; paths = []; effects = read ∷ [] });
  execute = λ p. record { outcome = success; content = codes "text" };
}

abbrev small_broker : Broker
small_broker = record {
  tools = (codes "read", read_tool) ∷ [];
  project_text = λ s. record { content = s; redacted_count = 0 };
  raw = invalid;
  short_digest = λ s. s;
  quote = λ s. s;
}

abbrev call_of : Bytes → Bytes → ToolCall × Bool
call_of id name = (record { id = id; name = name; arguments = document (codes "{}") }, false)

abbrev reading : ToolCall × Bool
reading = call_of (codes "a") (codes "read")

abbrev writing : ToolCall × Bool
writing = call_of (codes "b") (codes "write")

-- A result of each call, none of them long.
execute_batch-bounds_example :
    (length (execute_batch small_broker (reading ∷ writing ∷ reading ∷ [])).0 ≡ 3)
    × All
        (λ (r : ToolResultPayload). length r.content ≤ 65536)
        (execute_batch small_broker (reading ∷ writing ∷ reading ∷ [])).0
execute_batch-bounds_example = execute_batch-bounds small_broker (reading ∷ writing ∷ reading ∷ [])

-- The unknown tool stops the batch.
execute_batch-stops_example :
    execute_batch small_broker ((reading ∷ []) ++ writing ∷ reading ∷ []) ≡ (
      (execute_batch small_broker (reading ∷ [])).0
          ++ (execute small_broker false writing.0).0 ∷ all_skipped small_broker (reading ∷ []),
      (execute_batch small_broker (reading ∷ [])).1 ++ (execute small_broker false writing.0).1,
    )
unfolding execute_batch get same
execute_batch-stops_example =
    execute_batch-stops small_broker (reading ∷ []) writing.0 false (reading ∷ []) (refl, tt) refl

one_use_test : length (execute_batch small_broker (reading ∷ writing ∷ reading ∷ [])).1 ≡ 2
unfolding execute_batch get same
one_use_test = refl

execute_batch-Allowed_example :
    All (Allowed small_broker) (execute_batch small_broker (reading ∷ writing ∷ reading ∷ [])).1
execute_batch-Allowed_example =
    execute_batch-Allowed small_broker (reading ∷ writing ∷ reading ∷ [])

abbrev listing : Offered
listing = record {
  definition = record { name = codes "list"; description = []; schema = codes "{}" };
  tool = record {
    prepare = λ raw. refused (codes "no");
    execute = λ p. record { outcome = success; content = [] };
  };
}

catalog-valid_example :
    (valid_tools (λ s. true) (catalog ((codes "list", listing) ∷ [])) ≡ true)
    × (length (catalog ((codes "list", listing) ∷ [])) ≡ 1)
unfolding new_broker get coragent.Base.Dict.put
catalog-valid_example =
    catalog-valid (λ s. true) (some listing ∷ []) ((codes "list", listing) ∷ []) refl
