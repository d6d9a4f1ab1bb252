-- ===== src/Provider.antt =====
-- internal/provider/provider.go: the calls, responses and failures of a provider. A provider itself is a parameter.
use coragent.Base.{List, Bytes}
use coragent.Base.Int.{ℤ}
use coragent.Transcript.{RawMessage}

-- `ToolCall`
pub record ToolCall : Type 0 where
  pub id : Bytes
  pub name : Bytes
  pub arguments : RawMessage

-- `TerminalReason`; a response that gives none has the empty one.
pub data TerminalReason : Type 0 where
  stop tool_calls length other no_reason : TerminalReason

-- `Response`, without its token counts.
pub record Response : Type 0 where
  pub text : Bytes
  pub calls : List ToolCall
  pub reason : TerminalReason

pub data FailureClass : Type 0 where
  permanent protocol rate_limit transient overloaded context_overflow output_limit cancelled :
      FailureClass

-- `Failure`, without its message. `retry_after` is a number of nanoseconds.
pub record Failure : Type 0 where
  pub class : FailureClass
  pub retry_after : ℤ

pub data Role : Type 0 where
  user assistant tool : Role

-- `Message`
pub record Message : Type 0 where
  pub role : Role
  pub content : Bytes
  pub call_id : Bytes
  pub calls : List ToolCall

-- `ToolDefinition`, with the bytes of its schema.
pub record ToolDefinition : Type 0 where
  pub name : Bytes
  pub description : Bytes
  pub schema : Bytes

-- `Request`
pub record Request : Type 0 where
  pub prompt : Bytes
  pub stable_prompt : Bytes
  pub dynamic_prompt : Bytes
  pub messages : List Message
  pub tools : List ToolDefinition
  pub max_output : ℤ
