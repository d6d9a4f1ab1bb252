-- ===== src/Action.antt =====
-- internal/action/broker.go: the broker of tool calls. The projector, the digest of an ID and the tools are parameters.
-- Catalog has `NewBroker` and `Catalog`.
pub mod Authority
pub mod Batch
pub mod Catalog
mod Tests
use coragent.Base.{
  ℕ, zero, suc, ◌+◌, ◌-◌, Bool, true, false, not, ◌&&◌, ◌||◌, Option, none, some, List, [], ◌∷◌,
  ◌++◌, take, Bytes, codes, same, ltb, leb, ◌==◌, length, if◌then◌else◌,
}
use coragent.Base.Dict.{Dict, get}
use coragent.Transcript.{
  ToolResultOutcome, ToolResultPayload, success, error, cancelled, skipped, blocked,
  unknown_outcome, RawMessage, document, invalid,
}
use coragent.Provider.{ToolCall}

-- `dataproj.Text` of a projected content.
pub record Projection : Type 0 where
  pub content : Bytes
  pub redacted_count : ℕ

pub data Effect : Type 0 where
  read : Effect
  other_effect : Bytes → Effect

pub record Prepared : Type 0 where
  pub tool : Bytes
  pub arguments : RawMessage
  pub effects : List Effect
  pub paths : List Bytes

-- What `Prepare` returns: the text is that of its error.
pub data Preparation : Type 0 where
  prepared : Prepared → Preparation
  refused : Bytes → Preparation

pub record Execution : Type 0 where
  pub outcome : ToolResultOutcome
  pub content : Bytes

pub record Tool : Type 0 where
  pub prepare : RawMessage → Preparation
  pub execute : Prepared → Execution

-- A call of a tool's method, with the name of the tool.
pub data ToolUse : Type 0 where
  prepares : Bytes → RawMessage → ToolUse
  executes : Bytes → Prepared → ToolUse

-- `Broker`. `raw` is the verdict of `json.Valid` on bytes, and `short_digest` the first eight bytes of the
-- SHA-256 of an ID, in hexadecimal, and `quote` the verb `%q`.
pub record Broker : Type 0 where
  pub tools : Dict Tool
  pub project_text : Bytes → Projection
  pub raw : Bytes → RawMessage
  pub short_digest : Bytes → Bytes
  pub quote : Bytes → Bytes

abbrev pub raw_bytes : RawMessage → Bytes
raw_bytes (document d) = d
raw_bytes (invalid d) = d

abbrev pub max_bytes : ℕ
max_bytes = 65536

abbrev pub marker : Bytes
marker = codes "\n[truncated=true; narrow or continue the read-only request]"

-- `utf8.RuneStart`
abbrev pub rune_start : ℕ → Bool
rune_start c = not (leb 128 c && ltb c 192)

abbrev pub starts_rune : Option ℕ → Bool
starts_rune none = true
starts_rune (some c) = rune_start c

unfoldable pub byte_at : Bytes → ℕ → Option ℕ
byte_at [] n = none
byte_at (c ∷ s) zero = some c
byte_at (c ∷ s) (suc n) = byte_at s n

-- The loop of `project`.
unfoldable pub cut_at : Bytes → ℕ → ℕ
unfolding byte_at
cut_at s zero = zero
cut_at s (suc n) = let back = cut_at s n in if starts_rune (byte_at s (suc n)) then suc n else back

abbrev pub is_success : ToolResultOutcome → Bool
is_success success = true
is_success _ = false

abbrev pub only_read : List Effect → Bool
only_read (read ∷ []) = true
only_read _ = false

module _ (b : Broker) where
  -- `project`.
  unfoldable pub project : ToolResultPayload → ToolResultPayload
  project r =
      let content = (b.project_text r.content).content in
      if ltb max_bytes (length content)
      then record r {
        content = take (cut_at content (max_bytes - length marker)) content ++ marker;
      }
      else record r { content = content }

  -- One call of `ProjectCalls`, and whether it is blocked.
  unfoldable pub project_call : ToolCall → ToolCall × Bool
  project_call c =
      let id = b.project_text c.id in
      let name = b.project_text c.name in
      let arguments = b.project_text (raw_bytes c.arguments) in
      (
        record {
          id =
              if ltb 0 id.redacted_count
              then codes "redacted-call-" ++ b.short_digest c.id
              else c.id;
          name = if ltb 0 name.redacted_count then name.content else c.name;
          arguments =
              if ltb 0 arguments.redacted_count then b.raw arguments.content else c.arguments;
        },
        ltb 0 id.redacted_count || ltb 0 name.redacted_count || ltb 0 arguments.redacted_count,
      )

  unfoldable pub blocked_result : Bytes → ToolResultPayload
  unfolding project
  blocked_result id = project (record {
    call_id = id;
    outcome = blocked;
    content =
        codes
          "tool call blocked because detected credential material appeared in its identity or arguments";
  })

  unfoldable pub skipped_result : Bytes → ToolResultPayload
  unfolding project
  skipped_result id = project (record {
    call_id = id;
    outcome = skipped;
    content = codes "skipped because an earlier tool call did not succeed";
  })

  abbrev failed_result : Bytes → Bytes → ToolResultPayload
  failed_result id content = record { call_id = id; outcome = error; content = content }

  abbrev is_empty : ToolResultOutcome → Bool
  is_empty (unknown_outcome []) = true
  is_empty _ = false

  -- An empty outcome is an error.
  abbrev executed : Bytes → Execution → ToolResultPayload
  executed id e =
      if is_empty e.outcome
      then failed_result id (codes "tool returned an invalid empty outcome")
      else record { call_id = id; outcome = e.outcome; content = e.content }

  -- `Execute` from the authority test on: the result, and the uses of tools that it makes.
  abbrev pub run_prepared : ToolCall → Tool → Preparation → ToolResultPayload × List ToolUse
  run_prepared c tool (refused text) =
      (failed_result c.id (codes "invalid tool arguments: " ++ text), [])
  run_prepared c tool (prepared p) =
      if same p.tool c.name && only_read p.effects
      then (executed c.id (tool.execute p), executes c.name p ∷ [])
      else (failed_result c.id (codes "tool blocked by immutable M1 read-only authority"), [])

  abbrev pub run_tool : Bool → ToolCall → Option Tool → ToolResultPayload × List ToolUse
  run_tool done c none = (
    failed_result c.id
        (codes "unknown tool " ++ b.quote c.name ++ codes "; available tools are read-only"),
    [],
  )
  run_tool done c (some tool) =
      if done
      then (
        record {
          call_id = c.id;
          outcome = cancelled;
          content = codes "tool call cancelled before preparation";
        },
        [],
      )
      else (let (r, uses) = run_prepared c tool (tool.prepare c.arguments) in
          (r, prepares c.name c.arguments ∷ uses))

  -- `Execute`, of a call that `ProjectCalls` has projected.
  unfoldable pub execute_safe : Bool → ToolCall → Bool → ToolResultPayload × List ToolUse
  unfolding project blocked_result
  execute_safe done c is_blocked =
      if is_blocked
      then (blocked_result c.id, [])
      else (let (r, uses) = run_tool done c (get b.tools c.name) in (project r, uses))

  -- `Execute`. `done` tells whether the context is done when it is looked at.
  unfoldable pub execute : Bool → ToolCall → ToolResultPayload × List ToolUse
  unfolding execute_safe project_call
  execute done c = let (safe, is_blocked) = project_call c in execute_safe done safe is_blocked

  -- The loop of `ExecuteBatch`, over the calls and the state of the context at each.
  unfoldable pub execute_from :
      (stopped : Bool) → List (ToolCall × Bool) → List ToolResultPayload × List ToolUse
  unfolding execute skipped_result
  execute_from stopped [] = ([], [])
  execute_from true ((c, done) ∷ cs) =
      let (rs, uses) = execute_from true cs in (skipped_result c.id ∷ rs, uses)
  execute_from false ((c, done) ∷ cs) =
      let (r, uses) = execute done c in
      let (rs, more) = execute_from (not (is_success r.outcome)) cs in (r ∷ rs, uses ++ more)

  -- `ExecuteBatch`: the results, and the uses of tools in their order.
  unfoldable pub execute_batch : List (ToolCall × Bool) → List ToolResultPayload × List ToolUse
  unfolding execute_from
  execute_batch calls = execute_from false calls
