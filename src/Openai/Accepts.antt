-- ===== src/Openai/Accepts.antt =====
-- internal/provider/openai/adapter.go: the requests it accepts, and the retries it asks for.
use coragent.Base.{
  ℕ, ◌*◌, ◌≤◌, ◌<◌, Bool, true, false, ◌&&◌, ◌||◌, ◌≡◌, refl, subst, inl, inr, Bool-cases, Option,
  none, some, List, [], ◌∷◌, ◌++◌, Bytes, blank, leb, ◌==◌, arith, All, All-append, is_some, ◌⊎◌,
}
use coragent.Base.Int.{pos, negsuc, ◌≤ℤ◌}
use coragent.Errors.{Result, ok, err, ◌>>=◌, >>=-eq-ok, ok-injective}
use coragent.Transcript.{Record, Kind, Payload, tool_call, validate}
use coragent.Prompt.{
  Config, Instruction, build, admit, request_of, records_to_messages, messages_from, message_of,
  call_of, is_tool_call, calls_message,
}
use coragent.Prompt.Messages.{is_tool_call-eq}
use coragent.Engine.Run.{no_calls}
use coragent.Provider.{ToolCall, ToolDefinition, Message, Request}
use coragent.Engine.Retry.{retryable}
use coragent.Openai.Wire.{
  WireCall, WireMessage, Adapter, role_name, json_of, wire_calls, wire_messages, leading,
  valid_tools, build_request, request_with, RetryAfter, seconds, parse_retry_after, classify_http,
}

-- A failure of an HTTP status is retried exactly if the status is 429 or at least 500, whatever the header and the body.
pub classify_http-retryable :
    (status : ℕ) (header : RetryAfter) (context_limit : Bool)
    → retryable (classify_http status header context_limit).class
      ≡ (status == 429 || leb 500 status)
unfolding classify_http retryable
classify_http-retryable status header context_limit = ground arith

-- A number of seconds up to 9223372036 is taken exactly; from there to 18446744073 it wraps to a negative delay.
pub parse_retry_after-seconds :
    (n : ℕ)
    → ((n ≤ 9223372036) × (parse_retry_after (seconds (pos n)) ≡ pos (n * 1000000000)))
      ⊎ ((9223372036 < n) × (n ≤ 18446744073) × (parse_retry_after (seconds (pos n)) ≤ℤ negsuc 0))
      ⊎ (18446744073 < n)
unfolding parse_retry_after
parse_retry_after-seconds n = elim (Bool-cases (leb n 9223372036)) [
  | inl e ↦ inl (ground arith, ground arith)
  | inr e ↦ elim (Bool-cases (leb n 18446744073)) [
    | inl f ↦ inr (inl (ground arith, ground arith, ground arith))
    | inr f ↦ inr (inr (ground arith))
  ]
]

-- A call that can stand in a request.
abbrev Usable : ToolCall → Type 0
Usable c = (blank c.id ≡ false) × (blank c.name ≡ false) × (is_some (json_of c.arguments) ≡ true)

abbrev AllUsable : List Message → Type 0
AllUsable = All (λ (m : Message). All Usable m.calls)

call_of-Usable :
    (r : Record) (c : ToolCall)
    → validate r ≡ ok tt
    → r.kind ≡ tool_call
    → call_of r.payload ≡ ok c
    → Usable c
unfolding validate call_of
call_of-Usable r c h k e = ground (arith, h, k, e)

no_calls-Usable : (cs : List ToolCall) → no_calls cs ≡ true → All Usable cs
no_calls-Usable [] h = tt
no_calls-Usable (c ∷ cs) h = cc

is_some-parts : {A : Type 0} → (o : Option A) → is_some o ≡ true → (a : A) × (o ≡ some a)
is_some-parts none h = cc
is_some-parts (some a) h = (a, refl)

admit-same : (cfg : Config) (req got : Request) → admit cfg req ≡ ok got → req ≡ got
unfolding admit
admit-same cfg req got h = ground (arith, h)

abbrev all_plain : List Message → Bool
all_plain [] = true
all_plain (m ∷ ms) = no_calls m.calls && all_plain ms

abbrev plain_result : Result (List Message) → Bool
plain_result (ok ms) = all_plain ms
plain_result (err e) = true

message_of-plain : (k : Kind) (x : Payload) → plain_result (message_of k x) ≡ true
unfolding message_of
message_of-plain k x = ground arith

all_plain-Usable : (ms : List Message) → all_plain ms ≡ true → AllUsable ms
all_plain-Usable [] h = tt
all_plain-Usable (m ∷ ms) h =
    (no_calls-Usable m.calls (ground (arith, h)), all_plain-Usable ms (ground (arith, h)))

calls_message-Usable : (cs : List ToolCall) → All Usable cs → AllUsable (calls_message cs)
calls_message-Usable [] h = tt
calls_message-Usable (c ∷ cs) h = (h, tt)

messages_from-Usable :
    (group : List ToolCall) (rs : List Record) (ms : List Message)
    → All Usable group
    → All (λ (r : Record). validate r ≡ ok tt) rs
    → messages_from group rs ≡ ok ms
    → AllUsable ms
unfolding messages_from
messages_from-Usable group [] ms g v h =
    subst AllUsable (ok-injective h) (calls_message-Usable group g)
messages_from-Usable group (r ∷ rs) ms g (v, vs) h = elim (Bool-cases (is_tool_call r.kind)) [
  | inl e ↦
      let (c, f, rest) =
        >>=-eq-ok (call_of r.payload) (λ c. messages_from (group ++ c ∷ []) rs) (rw e at h) in
      messages_from-Usable (group ++ c ∷ []) rs ms
        (All-append Usable group (c ∷ []) g (call_of-Usable r c v (is_tool_call-eq r.kind e) f, tt))
        vs rest
  | inr e ↦
      let (m, f, more) =
        >>=-eq-ok (message_of r.kind r.payload)
          (λ m. messages_from [] rs >>= λ ns. ok (calls_message group ++ (m ++ ns))) (rw e at h) in
      let (ns, i, end) =
        >>=-eq-ok (messages_from [] rs) (λ ns. ok (calls_message group ++ (m ++ ns))) more in
      subst AllUsable (ok-injective end) (
        All-append _ (calls_message group) (m ++ ns) (calls_message-Usable group g) (
          All-append _ m ns (all_plain-Usable m (rw f at (message_of-plain r.kind r.payload)))
            (messages_from-Usable [] rs ns tt vs i)))
]

wire_calls-some :
    (cs : List ToolCall) → All Usable cs → (ws : List WireCall) × (wire_calls cs ≡ some ws)
unfolding wire_calls
wire_calls-some [] h = ([], refl)
wire_calls-some (c ∷ cs) ((i, n, a), h) =
    let (ws, e) = wire_calls-some cs h in
    let (json, f) = is_some-parts (json_of c.arguments) a in
    (record { id = c.id; name = c.name; arguments = json } ∷ ws, rw (e, f, i, n) refl)

wire_messages-some :
    (ms : List Message) → AllUsable ms → (ws : List WireMessage) × (wire_messages ms ≡ some ws)
unfolding wire_messages
wire_messages-some [] h = ([], refl)
wire_messages-some (m ∷ ms) (c, h) =
    let (ws, e) = wire_messages-some ms h in
    let (cs, f) = wire_calls-some m.calls c in
    (
      record { role = role_name m.role; content = m.content; call_id = m.call_id; calls = cs } ∷ ws,
      rw (e, f) refl,
    )

-- A request that the assembler returns for a log of valid records is never refused by the adapter, where the tools have
-- names and valid schemas.
pub build-build_request :
    (valid : Bytes → Bool) (a : Adapter) (cfg : Config) (goal : Bytes) (docs : List Instruction)
    (rs : List Record) (tools : List ToolDefinition) (req : Request)
    → All (λ (r : Record). validate r ≡ ok tt) rs
    → valid_tools valid tools ≡ true
    → build cfg goal docs rs tools ≡ ok req
    → (ms : List WireMessage) × (build_request valid a req
        ≡ some (request_with valid a req (leading req ++ ms)))
unfolding build admit records_to_messages build_request
build-build_request valid a cfg goal docs rs tools req v t h =
    let (ms, f, admitted) =
      >>=-eq-ok (messages_from [] rs) (λ ms. admit cfg (request_of cfg goal docs tools ms)) h in
    let same_request : request_of cfg goal docs tools ms ≡ req =
      admit-same cfg (request_of cfg goal docs tools ms) req admitted in
    let (ws, e) = wire_messages-some ms (messages_from-Usable [] rs ms tt v f) in
    subst
      (λ (q : Request).
        (ms : List WireMessage) × (build_request valid a q
          ≡ some (request_with valid a q (leading q ++ ms))))
      same_request (ws, unfold leading in rw (e, t) refl)
