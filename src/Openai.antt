-- ===== src/Openai.antt =====
-- internal/provider/openai/adapter.go: the decoding of a stream of chunks into a response, and the limits on it. The JSON
-- decoder, `strings.TrimSpace` and the callback of a text delta are parameters. The limits stay far below the int range.
pub mod Kept
pub mod Limits
pub mod Wire
pub mod Accepts
mod Tests
use coragent.Base.{
  ℕ, zero, suc, ◌+◌, ◌-◌, ◌*◌, ◌/◌, Bool, true, false, not, ◌&&◌, ◌||◌, Option, none, some, List,
  [], ◌∷◌, ◌++◌, Bytes, codes, blank, same, ltb, leb, ◌==◌, length, drop, if◌then◌else◌,
}
use coragent.Base.Int.{ℤ, pos, negsuc, ltb_ℤ, leb_ℤ}
use coragent.Errors.{Err, context_done}
use coragent.Provider
use coragent.Provider.{ToolCall, Response, TerminalReason, FailureClass, protocol, output_limit}
use coragent.Transcript.{RawMessage, document, invalid}

abbrev pub max_stream_bytes : ℕ
max_stream_bytes = 33554432

abbrev pub max_tool_calls : ℕ
max_tool_calls = 128

abbrev pub max_tool_call_id : ℕ
max_tool_call_id = 1024

abbrev pub max_tool_name : ℕ
max_tool_name = 256

-- `responseByteLimit`
unfoldable pub response_byte_limit : ℤ → ℤ
response_byte_limit (pos n) =
    if ltb (max_stream_bytes / 8) n then pos max_stream_bytes else pos (n * 8)
response_byte_limit (negsuc n) = negsuc (n * 8 + 7)

-- `streamByteLimit`
unfoldable pub stream_byte_limit : ℕ → ℕ
stream_byte_limit limit =
    let wide = limit * 4 + 1048576 in
    if ltb max_stream_bytes wide || ltb wide limit then max_stream_bytes else wide

-- `wireChunk`, without the token counts: the parts of calls, and the choices.
pub record Part : Type 0 where
  pub index : ℤ
  pub id : Bytes
  pub name : Bytes
  pub arguments : Bytes

pub record Choice : Type 0 where
  pub content : Bytes
  pub parts : List Part
  pub finish_reason : Option Bytes

-- `callBuilder`
pub record Builder : Type 0 where
  pub id : Bytes
  pub name : Bytes
  pub arguments : Bytes

-- Why `decodeStream` fails: a failure of the provider, or another error.
pub data Refusal : Type 0 where
  failing : FailureClass → Refusal
  erring : Err → Refusal

-- How a step ends: the next one follows, the loop is left, or `decodeStream` returns an error.
pub data Flow : Type 0 where
  going leaving : Flow
  refusing : Refusal → Flow

-- The variables of `decodeStream`, with the texts that `onText` was called with.
pub record Decoding : Type 0 where
  pub text : Bytes
  pub sent : List Bytes
  pub builders : List (ℕ × Builder)
  pub reason : TerminalReason
  pub saw_data : Bool
  pub total : ℕ

-- `encoding/json` on a chunk and on arguments, `strings.TrimSpace`, and `onText` after the texts before.
pub record Reader : Type 0 where
  pub parse : Bytes → Option (List Choice)
  pub raw : Bytes → RawMessage
  pub trim_space : Bytes → Bytes
  pub on_text : List Bytes → Bytes → Option Err

abbrev pub Step : Type 0
Step = Decoding → Flow × Decoding

abbrev pub next : Step → Decoding → Flow → Flow × Decoding
next b s going = b s
next b s leaving = (leaving, s)
next b s (refusing r) = (refusing r, s)

infixl 5 ◌>>◌
abbrev pub ◌>>◌ : Step → Step → Step
◌>>◌ a b s = next b (a s).1 (a s).0

abbrev pub skip : Step
skip s = (going, s)

abbrev pub require : Bool → FailureClass → Step
require b c s = (if b then going else refusing (failing c), s)

abbrev pub change : (Decoding → Decoding) → Step
change f s = (going, f s)

abbrev flow_of : Option Err → Flow
flow_of none = going
flow_of (some e) = refusing (erring e)

-- `mapReason`
unfoldable pub map_reason : Bytes → TerminalReason
map_reason reason =
    if same reason (codes "stop")
    then Provider.stop
    else if same reason (codes "tool_calls") || same reason (codes "function_call")
    then Provider.tool_calls
    else if same reason (codes "length")
    then Provider.length
    else Provider.other

-- `builders[i]`
unfoldable pub builder_at : List (ℕ × Builder) → ℕ → Option Builder
builder_at [] i = none
builder_at ((j, b) ∷ bs) i = if j == i then some b else builder_at bs i

unfoldable pub set_builder : List (ℕ × Builder) → ℕ → Builder → List (ℕ × Builder)
set_builder [] i b = (i, b) ∷ []
set_builder ((j, c) ∷ bs) i b = if j == i then (i, b) ∷ bs else (j, c) ∷ set_builder bs i b

abbrev pub no_builder : Builder
no_builder = record { id = []; name = []; arguments = [] }

abbrev pub builder_or_new : Option Builder → Builder
builder_or_new none = no_builder
builder_or_new (some b) = b

abbrev pub index_of : ℤ → ℕ
index_of (pos n) = n
index_of (negsuc n) = 0

abbrev pub is_new : Option Builder → Bool
is_new none = true
is_new (some b) = false

-- The builder with what a part adds.
abbrev pub extended : Builder → Part → Builder
extended b p = record {
  id = if blank p.id then b.id else p.id;
  name = b.name ++ p.name;
  arguments = b.arguments ++ p.arguments;
}

pub data Decoded : Type 0 where
  decoded : Response → Decoded
  refused : Refusal → Decoded

module _ (r : Reader) (limit : ℕ) where
  -- A delta of text.
  unfoldable pub text_step : Bytes → Step
  text_step content s =
      if blank content
      then (going, s)
      else if ltb limit (length s.text + length content)
      then (refusing (failing output_limit), s)
      else (
        flow_of (r.on_text s.sent content),
        record s { text = s.text ++ content; sent = s.sent ++ content ∷ [] },
      )

  -- A part of a call, for the builder that is there.
  unfoldable pub extend_step : Part → Option Builder → Step
  unfolding set_builder
  extend_step p found =
      let b = builder_or_new found in
      let e = extended b p in
      (λ s. require (not (is_new found && leb max_tool_calls (length s.builders))) output_limit s)
      >> require (blank p.id || blank b.id || same b.id p.id) protocol
      >> require
          (not (
            ltb max_tool_call_id (length e.id)
            || ltb max_tool_name (length b.name + length p.name)
            || ltb limit (length b.arguments + length p.arguments)))
          output_limit
      >> change (λ s. record s { builders = set_builder s.builders (index_of p.index) e })

  unfoldable pub part_step : Part → Step
  unfolding extend_step builder_at
  part_step p =
      require (leb_ℤ (pos 0) p.index && ltb_ℤ p.index (pos max_tool_calls)) protocol
      >> (λ s. extend_step p (builder_at s.builders (index_of p.index)) s)

  unfoldable pub parts_step : List Part → Step
  unfolding part_step
  parts_step [] = skip
  parts_step (p ∷ ps) = part_step p >> parts_step ps

  abbrev pub finish_step : Option Bytes → Step
  finish_step none = skip
  finish_step (some reason) = change (λ s. record s { reason = map_reason reason })

  unfoldable pub choices_step : List Choice → Step
  unfolding text_step parts_step map_reason
  choices_step [] = skip
  choices_step (c ∷ cs) =
      text_step c.content >> parts_step c.parts >> finish_step c.finish_reason >> choices_step cs

  abbrev pub starts : Bytes → Bytes → Bool
  starts [] s = true
  starts (c ∷ p) [] = false
  starts (c ∷ p) (d ∷ s) = c == d && starts p s

  abbrev pub seen_data : Decoding → Decoding
  seen_data s = record s { saw_data = true }

  abbrev pub chunk_step : Option (List Choice) → Step
  chunk_step none = require false protocol
  chunk_step (some choices) = change seen_data >> choices_step choices

  -- The data of a line.
  unfoldable pub data_step : Bytes → Step
  unfolding choices_step
  data_step text =
      if same text (codes "[DONE]")
      then (λ s. (leaving, seen_data s))
      else chunk_step (r.parse text)

  abbrev pub unless_done : Bool → Step
  unless_done done s = (if done then refusing (erring context_done) else going, s)

  abbrev pub field_step : Bytes → Step
  field_step line =
      if blank line || starts (codes ":") line
      then skip
      else (require (starts (codes "data:") line) protocol
          >> data_step (r.trim_space (drop 5 line)))

  -- A line of the stream, and whether the context is done when it is read.
  unfoldable pub line_step : Bytes → Bool → Step
  unfolding stream_byte_limit data_step
  line_step line done =
      unless_done done
      >> change (λ s. record s { total = s.total + length line + 1 })
      >> (λ s. require (leb s.total (stream_byte_limit limit)) output_limit s)
      >> field_step line

  unfoldable pub lines_step : List (Bytes × Bool) → Step
  unfolding line_step
  lines_step [] = skip
  lines_step ((line, done) ∷ lines) = line_step line done >> lines_step lines

  abbrev pub complete : Builder → Bool
  complete b =
      not (blank b.id)
      && not (blank b.name)
      && (elim (r.raw b.arguments) [ document d ↦ true | invalid d ↦ false ])

  abbrev pub call_of : Builder → ToolCall
  call_of b = record { id = b.id; name = b.name; arguments = r.raw b.arguments }

  abbrev pub add_call : Option Builder → Option (List ToolCall) → Option (List ToolCall)
  add_call none rest = none
  add_call (some b) none = none
  add_call (some b) (some cs) = if complete b then some (call_of b ∷ cs) else none

  -- The loop over the builders, from the index `i` on.
  unfoldable pub calls_from : List (ℕ × Builder) → (left i : ℕ) → Option (List ToolCall)
  unfolding builder_at
  calls_from bs zero i = some []
  calls_from bs (suc left) i = add_call (builder_at bs i) (calls_from bs left (i + 1))

  abbrev pub with_calls : Decoding → Option (List ToolCall) → Decoded
  with_calls s none = refused (failing protocol)
  with_calls s (some calls) = decoded (record { text = s.text; calls = calls; reason = s.reason })

  -- The end of the stream: whether the scanner failed, and whether the context is done then.
  abbrev pub conclude_going : Bool → Bool → Decoding → Decoded
  conclude_going true done s = refused (if done then erring context_done else failing protocol)
  conclude_going false done s =
      if s.saw_data
      then with_calls s (calls_from s.builders (length s.builders) 0)
      else refused (failing protocol)

  abbrev pub conclude : Bool → Bool → Decoding → Flow → Decoded
  conclude scan_failed done s (refusing e) = refused e
  conclude scan_failed done s going = conclude_going scan_failed done s
  conclude scan_failed done s leaving = conclude_going scan_failed done s

  abbrev pub fresh : Decoding
  fresh = record {
    text = [];
    sent = [];
    builders = [];
    reason = Provider.no_reason;
    saw_data = false;
    total = 0;
  }

  -- `decodeStream` with a positive limit: what `onText` was called with, and the response.
  unfoldable pub decode_lines : List (Bytes × Bool) → Bool → Bool → List Bytes × Decoded
  unfolding lines_step calls_from
  decode_lines lines scan_failed done =
      let (flow, s) = lines_step lines fresh in (s.sent, conclude scan_failed done s flow)
