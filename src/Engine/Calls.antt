-- ===== src/Engine/Calls.antt =====
-- `validateToolCalls` of internal/engine/session.go, and the records of the calls it accepts.
use coragent.Base.{
  Bool, true, false, not, ◌&&◌, ◌≡◌, List, [], ◌∷◌, ◌++◌, Bytes, arith, blank, same, if◌then◌else◌,
}
use coragent.Transcript.{RawMessage, document, invalid}
use coragent.Provider.{ToolCall}

-- `seen[id]`
unfoldable pub holds : Bytes → List Bytes → Bool
holds id [] = false
holds id (x ∷ seen) = if same x id then true else holds id seen

-- `unmarshals` is the verdict of `json.Unmarshal` on bytes that are JSON, which refuses numbers out of range.
module _ (unmarshals : Bytes → Bool) where
  -- `jsonValid`: an empty message is refused, and bytes that are no JSON or do not unmarshal.
  unfoldable pub json_valid : RawMessage → Bool
  json_valid (document d) = not (blank d) && unmarshals d
  json_valid (invalid d) = false

  unfoldable pub valid_from : List Bytes → List ToolCall → Bool
  unfolding json_valid holds
  valid_from seen [] = true
  valid_from seen (c ∷ cs) =
      not (blank c.id)
      && not (blank c.name)
      && json_valid c.arguments
      && not (holds c.id seen)
      && valid_from (c.id ∷ seen) cs

  -- `validateToolCalls`
  unfoldable pub validate_tool_calls : List ToolCall → Bool
  unfolding valid_from
  validate_tool_calls calls = valid_from [] calls

-- The IDs of calls.
unfoldable pub ids : List ToolCall → List Bytes
ids [] = []
ids (c ∷ cs) = c.id ∷ ids cs

last_test : (a b c d e : Bool) → (a && b && c && d && e) ≡ true → e ≡ true
last_test a b c d e h = ground arith

module _ (unmarshals : Bytes → Bool) where
  valid_from-apart :
      (seen : List Bytes) (before : List ToolCall) (c : ToolCall) (after : List ToolCall)
      → valid_from unmarshals seen (before ++ c ∷ after) ≡ true
      → (holds c.id seen ≡ false) × (holds c.id (ids before) ≡ false) × (blank c.id ≡ false)
  unfolding valid_from holds ids
  valid_from-apart seen [] c after h = ground arith
  valid_from-apart seen (b ∷ before) c after h =
      let rest =
        last_test (not (blank b.id)) (not (blank b.name)) (json_valid unmarshals b.arguments)
          (not (holds b.id seen)) (valid_from unmarshals (b.id ∷ seen) (before ++ c ∷ after)) h in
      let (x, y, z) = valid_from-apart (b.id ∷ seen) before c after rest in ground (arith, x, y, z)

  -- In a response whose calls are accepted, every call has an ID, and no call before it has the same.
  pub validate_tool_calls-apart :
      (before : List ToolCall) (c : ToolCall) (after : List ToolCall)
      → validate_tool_calls unmarshals (before ++ c ∷ after) ≡ true
      → (holds c.id (ids before) ≡ false) × (blank c.id ≡ false)
  unfolding validate_tool_calls
  validate_tool_calls-apart before c after h =
      let (_, apart, named) = valid_from-apart [] before c after h in (apart, named)
