-- ===== src/Prompt/Tests.antt =====
-- Runs of internal/prompt on a short log and on two files of instructions.
use coragent.Base.{
  ℕ, ◌+◌, ◌≤◌, List, [], ◌∷◌, ◌++◌, Bytes, codes, same, ◌≡◌, refl, true, if◌then◌else◌, All,
}
use coragent.Base
use coragent.Base.Int.{pos}
use coragent.Errors.{ok}
use coragent.Transcript.{
  Record, Kind, Payload, text, call, result, user_message, tool_call, tool_result, document,
  success,
}
use coragent.Provider.{Message}
use coragent.Prompt.{Config, Instruction, records_to_messages}
use coragent.Prompt.Instructions.{Reading, absent, bytes, discover, scope_dirs}
use coragent.Prompt.Discovery.{Ascends, Distinct, FromFile, discover-lem}
use coragent.Prompt.Fits.{Fits}

abbrev fact : ℕ → Kind → Payload → Record
fact n kind payload = record {
  seq = n;
  time = 5;
  run_id = codes "run-1";
  kind = kind;
  payload = payload;
}

abbrev log : List Record
log =
    fact 1 user_message (text (codes "look"))
    ∷ fact 2 tool_call (
        call
          (record { call_id = codes "a"; name = codes "read"; arguments = document (codes "{}") }))
    ∷ fact 3 tool_call (
        call
          (record { call_id = codes "b"; name = codes "list"; arguments = document (codes "{}") }))
    ∷ fact 4 tool_result
        (result (record { call_id = codes "a"; outcome = success; content = codes "x" }))
    ∷ []

abbrev config : Config
config = record {
  workspace = codes "w";
  active_path = codes ".";
  context_window = pos 1000;
  max_output_tokens = pos 10;
  user_preferences = [];
}

grouped_test : (ms : List Message) × (records_to_messages log ≡ ok ms) × (Base.length ms ≡ 3)
unfolding records_to_messages
grouped_test = (_, refl, refl)

scope_dirs_test : scope_dirs (codes "a/b") ≡ codes "." ∷ codes "a" ∷ codes "a/b" ∷ []
unfolding scope_dirs same
scope_dirs_test = refl

abbrev read : Bytes → Reading
read rel = if same rel (codes "a/AGENTS.md") then bytes (codes "be brief") else absent

abbrev digest : Bytes → Bytes
digest raw = codes "d" ++ raw

abbrev docs : List Instruction
docs =
    record {
      source = record {
        sources = codes "a/AGENTS.md" ∷ [];
        scope = codes "a";
        sha256 = codes "dbe brief";
        precedence = 13;
      };
      content = codes "be brief";
    }
    ∷ []

discover-lem_example : Ascends 0 docs × Distinct docs × All (FromFile read digest (λ raw. raw)) docs
unfolding discover same
discover-lem_example = discover-lem read digest (λ raw. raw) (codes "a") docs refl
