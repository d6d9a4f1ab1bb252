-- ===== src/Openai/Tests.antt =====
-- Runs of internal/provider/openai/adapter.go on a short stream and a short log.
use coragent.Base.{
  ℕ, ◌+◌, ◌*◌, ◌≤◌, ◌<◌, Bool, true, false, Option, none, some, List, [], ◌∷◌, ◌++◌, Bytes, codes,
  same, ◌≡◌, ◌⊎◌, ◌||◌, ◌==◌, leb, length, refl, if◌then◌else◌, All,
}
use coragent.Base.Int.{ℤ, pos, negsuc, ◌≤ℤ◌}
use coragent.Transcript.{Record, text, user_message, document, validate}
use coragent.Prompt
use coragent.Provider
use coragent.Provider.{Response, ToolDefinition, Request}
use coragent.Dataproj.Stream.{joined}
use coragent.Engine.Retry.{retryable}
use coragent.Prompt.{Config, build, stable_policy}
use coragent.Openai.{Reader, Choice, decode_lines, decoded}
use coragent.Openai.Limits.{Sound, decode_lines-Sound}
use coragent.Openai.Wire.{
  Adapter, WireMessage, valid_tools, build_request, request_with, leading, seconds, without,
  parse_retry_after, classify_http,
}
use coragent.Openai.Accepts.{
  classify_http-retryable, parse_retry_after-seconds, build-build_request,
}

-- Every line is a part of one call, in two halves, and a text.
abbrev halves : Bytes → List Choice
halves s =
    record {
      content = s;
      parts = record { index = pos 0; id = codes "c1"; name = s; arguments = codes "1" } ∷ [];
      finish_reason = none;
    }
    ∷ []

abbrev reader : Reader
reader = record {
  parse = λ s. some (halves s);
  raw = document;
  trim_space = λ s. s;
  on_text = λ before s. none;
}

abbrev lines : List (Bytes × Bool)
lines =
    (codes "data:re", false)
    ∷ (codes ": a comment", false)
    ∷ (codes "data:ad", false)
    ∷ (codes "data:[DONE]", false)
    ∷ []

abbrev response : Response
response = record {
  text = codes "read";
  calls = record { id = codes "c1"; name = codes "read"; arguments = document (codes "11") } ∷ [];
  reason = Provider.no_reason;
}

decode_test :
    decode_lines reader 100 lines false false ≡ (codes "re" ∷ codes "ad" ∷ [], decoded response)
unfolding decode_lines same
decode_test = refl

decode_lines-Sound_example :
    (response.text ≡ joined (decode_lines reader 100 lines false false).0)
    × (length response.text ≤ 100)
    × (length response.calls ≤ 128)
    × All (Sound reader 100) response.calls
unfolding decode_lines same
decode_lines-Sound_example = decode_lines-Sound reader 100 lines false false response refl

classify_http-retryable_example :
    retryable (classify_http 503 without false).class ≡ (503 == 429 || leb 500 503)
classify_http-retryable_example = classify_http-retryable 503 without false

parse_retry_after-seconds_example :
    ((9223372037 ≤ 9223372036)
      × (parse_retry_after (seconds (pos 9223372037)) ≡ pos (9223372037 * 1000000000)))
    ⊎ ((9223372036 < 9223372037)
        × (9223372037 ≤ 18446744073)
        × (parse_retry_after (seconds (pos 9223372037)) ≤ℤ negsuc 0))
    ⊎ (18446744073 < 9223372037)
parse_retry_after-seconds_example = parse_retry_after-seconds 9223372037

abbrev adapter : Adapter
adapter = record {
  model = codes "m";
  max_output_tokens = pos 10;
  temperature = none;
  seed = none;
  tool_choice = codes "auto";
}

abbrev config : Config
config = record {
  workspace = codes "w";
  active_path = codes ".";
  context_window = pos 1000;
  max_output_tokens = pos 10;
  user_preferences = [];
}

abbrev log : List Record
log =
    record {
      seq = 1;
      time = 5;
      run_id = codes "run-1";
      kind = user_message;
      payload = text (codes "look");
    }
    ∷ []

abbrev list_tool : List ToolDefinition
list_tool = record { name = codes "list"; description = []; schema = codes "{}" } ∷ []

abbrev accepts_all : Bytes → Bool
accepts_all s = true

abbrev asked : Request
asked =
    Prompt.request_of config [] [] list_tool
      (record { role = Provider.user; content = codes "look"; call_id = []; calls = [] } ∷ [])

build-build_request_example :
    (ms : List WireMessage) × (build_request accepts_all adapter asked
      ≡ some (request_with accepts_all adapter asked (leading asked ++ ms)))
unfolding validate valid_tools build coragent.Base.Int.◌+ℤ◌
build-build_request_example =
    build-build_request accepts_all adapter config [] [] log list_tool asked (refl, tt) refl refl
