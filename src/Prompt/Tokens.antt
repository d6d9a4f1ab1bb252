-- ===== src/Prompt/Tokens.antt =====
-- What `Build` of internal/prompt/assembler.go estimates: the tokens of a request, from its texts.
use coragent.Base.{ℕ, ◌+◌, ◌*◌, ◌/◌, ◌≡◌, refl, List, [], ◌∷◌, ◌++◌, Bytes, length, arith}
use coragent.Provider.{Request, ToolDefinition, Message, ToolCall}
use coragent.Prompt.{
  estimated, estimate_tokens, estimate_calls, estimate_messages, estimate_tools, raw_bytes,
}

-- Every text of a request, as one list.
unfoldable pub call_texts : List ToolCall → List Bytes
call_texts [] = []
call_texts (c ∷ cs) = c.name ∷ raw_bytes c.arguments ∷ call_texts cs

unfoldable pub message_texts : List Message → List Bytes
unfolding call_texts
message_texts [] = []
message_texts (m ∷ ms) = m.content ∷ call_texts m.calls ++ message_texts ms

unfoldable pub tool_texts : List ToolDefinition → List Bytes
tool_texts [] = []
tool_texts (t ∷ ts) = t.name ∷ t.description ∷ t.schema ∷ tool_texts ts

abbrev pub texts : Request → List Bytes
texts req =
    req.stable_prompt ∷ req.dynamic_prompt ∷ message_texts req.messages ++ tool_texts req.tools

-- One token for each three bytes of a text, the last of them perhaps not full.
unfoldable pub thirds : List Bytes → ℕ
thirds [] = 0
thirds (s ∷ ss) = (length s + 2) / 3 + thirds ss

-- How many messages and calls there are.
unfoldable pub entries : List Message → ℕ
entries [] = 0
entries (m ∷ ms) = 1 + length m.calls + entries ms

-- The tokens of the texts, and 16 for each message and each call.
abbrev pub tokens : Request → ℕ
tokens req = thirds (texts req) + 16 * entries req.messages

thirds-append : (xs ys : List Bytes) → thirds (xs ++ ys) ≡ thirds xs + thirds ys
unfolding thirds
thirds-append [] ys = omega arith
thirds-append (x ∷ xs) ys = omega (arith, thirds-append xs ys)

estimate_tokens-lem : (s : Bytes) → estimate_tokens s ≡ (length s + 2) / 3
unfolding estimate_tokens
estimate_tokens-lem [] = refl
estimate_tokens-lem (c ∷ s) = refl

estimate_calls-lem :
    (cs : List ToolCall) → estimate_calls cs ≡ thirds (call_texts cs) + 16 * length cs
unfolding estimate_calls thirds call_texts
estimate_calls-lem [] = refl
estimate_calls-lem (c ∷ cs) = omega (
  arith,
  estimate_calls-lem cs,
  estimate_tokens-lem c.name,
  estimate_tokens-lem (raw_bytes c.arguments),
)

estimate_messages-lem :
    (ms : List Message) → estimate_messages ms ≡ thirds (message_texts ms) + 16 * entries ms
unfolding estimate_messages thirds message_texts entries
estimate_messages-lem [] = refl
estimate_messages-lem (m ∷ ms) = omega (
  arith,
  estimate_messages-lem ms,
  estimate_calls-lem m.calls,
  estimate_tokens-lem m.content,
  thirds-append (call_texts m.calls) (message_texts ms),
)

estimate_tools-lem : (ts : List ToolDefinition) → estimate_tools ts ≡ thirds (tool_texts ts)
unfolding estimate_tools thirds tool_texts
estimate_tools-lem [] = refl
estimate_tools-lem (t ∷ ts) = omega (
  arith,
  estimate_tools-lem ts,
  estimate_tokens-lem t.name,
  estimate_tokens-lem t.description,
  estimate_tokens-lem t.schema,
)

pub estimated-tokens : (req : Request) → estimated req ≡ tokens req
unfolding estimated thirds
estimated-tokens req = omega (
  arith,
  estimate_tokens-lem req.stable_prompt,
  estimate_tokens-lem req.dynamic_prompt,
  estimate_messages-lem req.messages,
  estimate_tools-lem req.tools,
  thirds-append (message_texts req.messages) (tool_texts req.tools),
)
