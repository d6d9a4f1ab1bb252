-- ===== src/Openai/Wire.antt =====
-- internal/provider/openai/adapter.go: the request on the wire, and the failures that an HTTP status stands for. The test of
-- a schema, the search for a context limit in a body and the parsing of a header are parameters.
use coragent.Base.{
  ℕ, ◌-◌, ◌*◌, ◌%◌, ◌^◌, Bool, true, false, not, ◌&&◌, ◌||◌, Option, none, some, List, [], ◌∷◌,
  ◌++◌, Bytes, codes, blank, ltb, leb, ◌==◌, if◌then◌else◌,
}
use coragent.Base.Int.{ℤ, pos, negsuc, ltb_ℤ}
use coragent.Transcript.{RawMessage, document, invalid}
use coragent.Provider.{
  ToolCall, ToolDefinition, Message, Role, user, assistant, tool, Request, Failure, FailureClass,
  permanent, rate_limit, overloaded, transient, context_overflow,
}

-- `wireToolCall`, whose type is always `function`.
pub record WireCall : Type 0 where
  pub id : Bytes
  pub name : Bytes
  pub arguments : Bytes

pub record WireMessage : Type 0 where
  pub role : Bytes
  pub content : Bytes
  pub call_id : Bytes
  pub calls : List WireCall

-- `wireRequest`, of a stream with token counts.
pub record WireRequest : Type 0 where
  pub model : Bytes
  pub messages : List WireMessage
  pub tools : List ToolDefinition
  pub tool_choice : Bytes
  pub max_tokens : ℤ
  pub temperature : Option Bytes
  pub seed : Option ℤ

-- `Adapter`, of which a request takes these.
pub record Adapter : Type 0 where
  pub model : Bytes
  pub max_output_tokens : ℤ
  pub temperature : Option Bytes
  pub seed : Option ℤ
  pub tool_choice : Bytes

abbrev pub role_name : Role → Bytes
role_name user = codes "user"
role_name assistant = codes "assistant"
role_name tool = codes "tool"

abbrev plain : Bytes → Bytes → WireMessage
plain role content = record { role = role; content = content; call_id = []; calls = [] }

-- `json.Valid` of the arguments.
abbrev pub json_of : RawMessage → Option Bytes
json_of (document d) = some d
json_of (invalid d) = none

abbrev wire_call : ToolCall → Option Bytes → Option WireCall
wire_call c none = none
wire_call c (some arguments) =
    if blank c.id || blank c.name
    then none
    else some (record { id = c.id; name = c.name; arguments = arguments })

abbrev cons_call : Option WireCall → Option (List WireCall) → Option (List WireCall)
cons_call (some c) (some cs) = some (c ∷ cs)
cons_call _ _ = none

unfoldable pub wire_calls : List ToolCall → Option (List WireCall)
wire_calls [] = some []
wire_calls (c ∷ cs) = cons_call (wire_call c (json_of c.arguments)) (wire_calls cs)

abbrev cons_message :
    Message → Option (List WireCall) → Option (List WireMessage) → Option (List WireMessage)
cons_message m (some calls) (some ms) = some (
    record { role = role_name m.role; content = m.content; call_id = m.call_id; calls = calls }
    ∷ ms)
cons_message m _ _ = none

unfoldable pub wire_messages : List Message → Option (List WireMessage)
unfolding wire_calls
wire_messages [] = some []
wire_messages (m ∷ ms) = cons_message m (wire_calls m.calls) (wire_messages ms)

abbrev pub no_messages : List Message → Bool
no_messages [] = true
no_messages (m ∷ ms) = false

abbrev system : Bytes → List WireMessage
system content = if blank content then [] else plain (codes "system") content ∷ []

-- The messages before those of the request.
unfoldable pub leading : Request → List WireMessage
leading req =
    system req.stable_prompt
    ++ system req.dynamic_prompt
    ++ (if no_messages req.messages && not (blank req.prompt)
        then plain (codes "user") req.prompt ∷ []
        else [])

abbrev pub no_wire_messages : List WireMessage → Bool
no_wire_messages [] = true
no_wire_messages (m ∷ ms) = false

abbrev pub no_tools : List ToolDefinition → Bool
no_tools [] = true
no_tools (t ∷ ts) = false

module _ (valid : Bytes → Bool) where
  unfoldable pub valid_tools : List ToolDefinition → Bool
  valid_tools [] = true
  valid_tools (t ∷ ts) = not (blank t.name) && valid t.schema && valid_tools ts

  abbrev pub request_with : Adapter → Request → List WireMessage → WireRequest
  request_with a req messages = record {
    model = a.model;
    messages = messages;
    tools = req.tools;
    tool_choice = if no_tools req.tools then [] else a.tool_choice;
    max_tokens =
        if ltb_ℤ (pos 0) req.max_output && ltb_ℤ req.max_output a.max_output_tokens
        then req.max_output
        else a.max_output_tokens;
    temperature = a.temperature;
    seed = a.seed;
  }

  abbrev pub checked : Adapter → Request → Option (List WireMessage) → Option WireRequest
  checked a req none = none
  checked a req (some ms) =
      if valid_tools req.tools && not (no_wire_messages (leading req ++ ms))
      then some (request_with a req (leading req ++ ms))
      else none

  -- `buildRequest`: `none` is its error.
  unfoldable pub build_request : Adapter → Request → Option WireRequest
  unfolding wire_messages leading valid_tools
  build_request a req = checked a req (wire_messages req.messages)

-- int64
abbrev wrap : ℕ → ℤ
wrap n = let m = n % 2 ^ 64 in if ltb m (2 ^ 63) then pos m else negsuc (2 ^ 64 - m - 1)

-- `Retry-After`: a number of seconds, a date that lies so many nanoseconds after now, or neither.
pub data RetryAfter : Type 0 where
  without : RetryAfter
  seconds : ℤ → RetryAfter
  from_now : ℤ → RetryAfter

-- `parseRetryAfter`
unfoldable pub parse_retry_after : RetryAfter → ℤ
parse_retry_after without = pos 0
parse_retry_after (seconds (pos n)) = wrap (n * 1000000000)
parse_retry_after (seconds (negsuc n)) = pos 0
parse_retry_after (from_now d) = if ltb_ℤ (pos 0) d then d else pos 0

abbrev pub status_class : ℕ → FailureClass
status_class status =
    if status == 401 || status == 403 || status == 400 || status == 404 || status == 422
    then permanent
    else if status == 429
    then rate_limit
    else if status == 503
    then overloaded
    else if leb 500 status
    then transient
    else permanent

-- `classifyHTTP`, and whether `contextLimitError` holds of the body.
unfoldable pub classify_http : ℕ → RetryAfter → Bool → Failure
unfolding parse_retry_after
classify_http status header context_limit =
    if status == 400 && context_limit
    then record { class = context_overflow; retry_after = pos 0 }
    else record { class = status_class status; retry_after = parse_retry_after header }
