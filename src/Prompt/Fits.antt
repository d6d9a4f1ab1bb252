-- ===== src/Prompt/Fits.antt =====
-- `Build` of internal/prompt/assembler.go: what a request holds, and when it fits the context window.
use coragent.Base.{◌≡◌, List, ◌++◌, Bytes, codes, All}
use coragent.Base.Decimal.{decimal}
use coragent.Base.Int.{pos, ◌+ℤ◌, ◌≤ℤ◌}
use coragent.Transcript.{Record}
use coragent.Provider.{Request, ToolDefinition}
use coragent.Prompt.{Config, Instruction, dynamic_prompt, stable_policy, join}
use coragent.Prompt.Tokens.{tokens}
use coragent.Prompt.Messages.{items_in, items_from}

-- A text stands in another one.
abbrev pub Within : Bytes → Bytes → Type 0
Within s t = (a b : Bytes) × (t ≡ a ++ (s ++ b))

-- What stands before the content of an instruction.
abbrev heading : Instruction → Bytes
heading d =
    codes "\nProject instructions [sources="
    ++ join (codes ",") d.source.sources
    ++ codes " scope="
    ++ d.source.scope
    ++ codes " precedence="
    ++ decimal d.source.precedence
    ++ codes " sha256="
    ++ d.source.sha256
    ++ codes "]:\n"

-- What a request is to hold: the whole log, every tool, the policy, the goal, the preferences and the content of every
-- instruction, and the room for the output.
pub record Carries (cfg : Config) (goal : Bytes) (docs : List Instruction) (records : List Record)
    (tools : List ToolDefinition) (req : Request) : Type 0 where
  pub history : items_in req.messages ≡ items_from records
  pub all_tools : req.tools ≡ tools
  pub room : req.max_output ≡ cfg.max_output_tokens
  pub policy : req.stable_prompt ≡ stable_policy
  pub asked : Within goal req.dynamic_prompt
  pub preferences : Within cfg.user_preferences req.dynamic_prompt
  pub instructions : All (λ (d : Instruction). Within d.content req.dynamic_prompt) docs

-- The tokens of a request and the room for its output fit the context window.
abbrev pub Fits : Config → Request → Type 0
Fits cfg req = pos (tokens req) +ℤ cfg.max_output_tokens ≤ℤ cfg.context_window
