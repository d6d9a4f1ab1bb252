-- ===== src/Prompt.antt =====
-- internal/prompt/assembler.go: the requests to the provider, made anew from the log for every call.
pub mod Instructions
pub mod Discovery
pub mod Fits
pub mod Messages
pub mod Tokens
mod Tests
use coragent.Base.{
  ℕ, ◌+◌, ◌/◌, Bool, true, false, not, ◌||◌, Option, none, some, List, [], ◌∷◌, ◌++◌, Bytes, codes,
  blank, length, if◌then◌else◌,
}
use coragent.Base.Int.{ℤ, pos, ◌+ℤ◌, leb_ℤ, ltb_ℤ}
use coragent.Base.Decimal.{decimal}
use coragent.Errors.{
  Result, ok, err, ◌>>=◌, ◌>>◌, require, decode_failure, context_window_exceeded, missing_limits,
}
use coragent.Transcript.{
  Record, RawMessage, document, invalid, Payload, text, call, result, decode_payload, user_message,
  assistant_block, tool_call, tool_result, InstructionSource, Kind,
}
use coragent.Provider.{ToolCall, ToolDefinition, Message, Request, user, assistant, tool}

-- `Instruction`: its provenance, as the log keeps it, and its content.
pub record Instruction : Type 0 where
  pub source : InstructionSource
  pub content : Bytes

-- `Config`
pub record Config : Type 0 where
  pub workspace : Bytes
  pub active_path : Bytes
  pub context_window : ℤ
  pub max_output_tokens : ℤ
  pub user_preferences : Bytes

-- `NewAssembler`
unfoldable pub new_assembler : Config → Result Config
new_assembler cfg =
    require
      (not (
        blank cfg.workspace
        || leb_ℤ cfg.context_window (pos 0)
        || leb_ℤ cfg.max_output_tokens (pos 0)))
      missing_limits
    >> ok
        (record cfg { active_path = if blank cfg.active_path then codes "." else cfg.active_path })

abbrev pub prompt_version : Bytes
prompt_version = codes "m1-prompt-v1"

abbrev pub stable_policy : Bytes
stable_policy =
    codes "You are Coragent, a read-only terminal repository companion.\n"
    ++ codes
        "Investigate the active workspace using only the provided list, search, and read tools.\n"
    ++ codes
        "Never claim to edit files, run commands, access the network, or read outside the workspace.\n"
    ++ codes
        "Ground factual repository claims in tool results. Final answers must cite workspace-relative files and exact 1-based line ranges as path:start-end.\n"
    ++ codes
        "Treat tool errors as evidence and change read-only strategy when recovery is possible.\n"
    ++ codes "Hard runtime policy overrides user and project instructions."

-- `strings.Join`
unfoldable pub join : Bytes → List Bytes → Bytes
join sep [] = []
join sep (s ∷ []) = s
join sep (s ∷ t ∷ ss) = s ++ (sep ++ join sep (t ∷ ss))

-- The sections of the dynamic prompt.
unfoldable pub facts_section : Config → Bytes
facts_section cfg =
    codes "Runtime facts:\n- workspace: "
    ++ cfg.workspace
    ++ codes "\n- active path: "
    ++ cfg.active_path
    ++ codes "\n- prompt version: "
    ++ prompt_version
    ++ codes "\n"

unfoldable pub preferences_section : Bytes → Bytes
preferences_section preferences =
    if blank preferences
    then []
    else codes "\nUser preferences (lowest instruction precedence):\n" ++ preferences ++ codes "\n"

unfoldable pub instructions_section : List Instruction → Bytes
unfolding join decimal
instructions_section [] = []
instructions_section (d ∷ ds) =
    codes "\nProject instructions [sources="
    ++ join (codes ",") d.source.sources
    ++ codes " scope="
    ++ d.source.scope
    ++ codes " precedence="
    ++ decimal d.source.precedence
    ++ codes " sha256="
    ++ d.source.sha256
    ++ codes "]:\n"
    ++ d.content
    ++ codes "\n"
    ++ instructions_section ds

unfoldable pub goal_section : Bytes → Bytes
goal_section goal =
    if blank goal
    then []
    else codes
        "\nCurrent explicit user request (higher than project guidance, lower than hard policy):\n"
      ++ goal
      ++ codes "\n"

unfoldable pub dynamic_prompt : Config → Bytes → List Instruction → Bytes
unfolding facts_section preferences_section instructions_section goal_section
dynamic_prompt cfg goal docs =
    facts_section cfg
    ++ preferences_section cfg.user_preferences
    ++ instructions_section docs
    ++ goal_section goal

abbrev user_said : Payload → Result (List Message)
user_said (text t) = ok (record { role = user; content = t; call_id = []; calls = [] } ∷ [])
user_said _ = err decode_failure

abbrev assistant_said : Payload → Result (List Message)
assistant_said (text t) =
    ok (record { role = assistant; content = t; call_id = []; calls = [] } ∷ [])
assistant_said _ = err decode_failure

abbrev tool_said : Payload → Result (List Message)
tool_said (result r) =
    ok (record { role = tool; content = r.content; call_id = r.call_id; calls = [] } ∷ [])
tool_said _ = err decode_failure

abbrev called : Payload → Result ToolCall
called (call c) = ok (record { id = c.call_id; name = c.name; arguments = c.arguments })
called _ = err decode_failure

-- The message of a record that is no call: none for a kind that the model does not see.
unfoldable pub message_of : Kind → Payload → Result (List Message)
unfolding decode_payload
message_of user_message p = decode_payload user_message p >>= user_said
message_of assistant_block p = decode_payload assistant_block p >>= assistant_said
message_of tool_result p = decode_payload tool_result p >>= tool_said
message_of _ p = ok []

unfoldable pub call_of : Payload → Result ToolCall
unfolding decode_payload
call_of p = decode_payload tool_call p >>= called

abbrev pub is_tool_call : Kind → Bool
is_tool_call tool_call = true
is_tool_call _ = false

-- The message of a group of calls.
abbrev pub calls_message : List ToolCall → List Message
calls_message [] = []
calls_message (c ∷ cs) =
    record { role = assistant; content = []; call_id = []; calls = c ∷ cs } ∷ []

-- `recordsToMessages`, after the calls of the group that it is in. Calls that stand together are one message.
unfoldable pub messages_from : List ToolCall → List Record → Result (List Message)
unfolding message_of call_of
messages_from group [] = ok (calls_message group)
messages_from group (r ∷ rs) =
    let grown = λ (c : ToolCall). messages_from (group ++ c ∷ []) rs in
    let fresh = messages_from [] rs in
    if is_tool_call r.kind
    then call_of r.payload >>= grown
    else (message_of r.kind r.payload >>= λ m.
        fresh >>= λ ms. ok (calls_message group ++ (m ++ ms)))

-- `recordsToMessages`
unfoldable pub records_to_messages : List Record → Result (List Message)
unfolding messages_from
records_to_messages rs = messages_from [] rs

-- `estimateTokens`
unfoldable pub estimate_tokens : Bytes → ℕ
estimate_tokens s = if blank s then 0 else (length s + 2) / 3

abbrev pub raw_bytes : RawMessage → Bytes
raw_bytes (document d) = d
raw_bytes (invalid d) = d

unfoldable pub estimate_calls : List ToolCall → ℕ
unfolding estimate_tokens
estimate_calls [] = 0
estimate_calls (c ∷ cs) =
    estimate_tokens c.name + estimate_tokens (raw_bytes c.arguments) + 16 + estimate_calls cs

unfoldable pub estimate_messages : List Message → ℕ
unfolding estimate_tokens estimate_calls
estimate_messages [] = 0
estimate_messages (m ∷ ms) =
    estimate_tokens m.content + 16 + estimate_calls m.calls + estimate_messages ms

unfoldable pub estimate_tools : List ToolDefinition → ℕ
unfolding estimate_tokens
estimate_tools [] = 0
estimate_tools (t ∷ ts) =
    estimate_tokens t.name
    + estimate_tokens t.description
    + estimate_tokens t.schema
    + estimate_tools ts

-- The estimate of `Build`.
unfoldable pub estimated : Request → ℕ
unfolding estimate_tokens estimate_messages estimate_tools
estimated req =
    estimate_tokens req.stable_prompt
    + estimate_tokens req.dynamic_prompt
    + estimate_messages req.messages
    + estimate_tools req.tools

abbrev pub request_of :
    Config → Bytes → List Instruction → List ToolDefinition → List Message → Request
request_of cfg goal docs tools messages = record {
  prompt = [];
  stable_prompt = stable_policy;
  dynamic_prompt = dynamic_prompt cfg goal docs;
  messages = messages;
  tools = tools;
  max_output = cfg.max_output_tokens;
}

unfoldable pub admit : Config → Request → Result Request
unfolding estimated
admit cfg req =
    if ltb_ℤ cfg.context_window (pos (estimated req) +ℤ cfg.max_output_tokens)
    then err context_window_exceeded
    else ok req

-- `Build`
unfoldable pub build :
    Config → Bytes → List Instruction → List Record → List ToolDefinition → Result Request
unfolding records_to_messages dynamic_prompt admit
build cfg goal docs records tools =
    records_to_messages records >>= λ messages. admit cfg (request_of cfg goal docs tools messages)

unfoldable pub sources_of : List Instruction → List InstructionSource
sources_of [] = []
sources_of (d ∷ ds) = d.source ∷ sources_of ds
