-- ===== src/Action/Authority.antt =====
-- Which tools the broker of internal/action/broker.go uses, and on what arguments.
use coragent.Base.{
  Bool, true, false, not, ◌&&◌, ◌≡◌, refl, inl, inr, Bool-cases, Option, none, some, List, [], ◌∷◌,
  Bytes, arith, same, same_iff, All, All-append,
}
use coragent.Base.Dict.{get}
use coragent.Transcript.{RawMessage}
use coragent.Provider.{ToolCall}
use coragent.Action.{
  Broker, Tool, ToolUse, prepares, executes, Effect, read, Preparation, prepared, refused,
  raw_bytes, only_read, run_prepared, run_tool, project_call, execute_safe, execute, execute_from,
  execute_batch, is_success,
}

only_read-eq : (es : List Effect) → only_read es ≡ true → es ≡ read ∷ []
only_read-eq es h = ground arith

module _ (b : Broker) where
  -- The projection finds nothing to redact in the text.
  abbrev pub Clean : Bytes → Type 0
  Clean s = (b.project_text s).redacted_count ≡ 0

  -- The use is of a registered tool. It prepares arguments without credentials, or executes what the tool itself
  -- prepared from such arguments, under its own name and with the effect of reading only.
  abbrev pub Allowed : ToolUse → Type 0
  Allowed (prepares name raw) =
      (tool : Tool) × (get b.tools name ≡ some tool) × Clean name × Clean (raw_bytes raw)
  Allowed (executes name p) =
      (tool : Tool) × (raw : RawMessage) × (get b.tools name ≡ some tool)
      × Clean (raw_bytes raw)
      × (tool.prepare raw ≡ prepared p)
      × (p.tool ≡ name)
      × (p.effects ≡ read ∷ [])

  -- A call that is not blocked is the one that was projected, and holds no credentials.
  project_call-Clean :
      (c : ToolCall)
      → (project_call b c).1 ≡ false
      → Clean (project_call b c).0.name × Clean (raw_bytes (project_call b c).0.arguments)
  unfolding project_call
  project_call-Clean c h = ground arith

  run_prepared-Allowed :
      (c : ToolCall) (tool : Tool) (p : Preparation)
      → get b.tools c.name ≡ some tool
      → Clean (raw_bytes c.arguments)
      → tool.prepare c.arguments ≡ p
      → All Allowed (run_prepared b c tool p).1
  run_prepared-Allowed c tool (refused text) g clean e = tt
  run_prepared-Allowed c tool (prepared p) g clean e =
      elim (Bool-cases (same p.tool c.name && only_read p.effects)) [
        | inl f ↦
            let (named, reads) = both (same p.tool c.name) (only_read p.effects) f in
            rw f (
              (
                tool,
                c.arguments,
                g,
                clean,
                e,
                (same_iff p.tool c.name).0 named,
                only_read-eq p.effects reads,
              ),
              tt,
            )
        | inr f ↦ rw f tt
      ]
    where
      both : (x y : Bool) → (x && y) ≡ true → (x ≡ true) × (y ≡ true)
      both x y h = ground arith

  run_tool-Allowed :
      (done : Bool) (c : ToolCall) (found : Option Tool)
      → get b.tools c.name ≡ found
      → Clean c.name
      → Clean (raw_bytes c.arguments)
      → All Allowed (run_tool b done c found).1
  run_tool-Allowed done c none g named clean = tt
  run_tool-Allowed true c (some tool) g named clean = tt
  run_tool-Allowed false c (some tool) g named clean =
      ((tool, g, named, clean), run_prepared-Allowed c tool (tool.prepare c.arguments) g clean refl)

  execute-Allowed : (done : Bool) (c : ToolCall) → All Allowed (execute b done c).1
  unfolding execute execute_safe
  execute-Allowed done c = elim (Bool-cases (project_call b c).1) [
    | inl e ↦ rw e tt
    | inr e ↦
        let (named, clean) = project_call-Clean c e in
        let safe = (project_call b c).0 in
        rw e (run_tool-Allowed done safe (get b.tools safe.name) refl named clean)
  ]

  execute_from-Allowed :
      (stopped : Bool) (cs : List (ToolCall × Bool)) → All Allowed (execute_from b stopped cs).1
  unfolding execute_from
  execute_from-Allowed stopped [] = tt
  execute_from-Allowed true ((c, done) ∷ cs) = execute_from-Allowed true cs
  execute_from-Allowed false ((c, done) ∷ cs) =
      All-append _ (execute b done c).1 _ (execute-Allowed done c)
        (execute_from-Allowed (not (is_success (execute b done c).0.outcome)) cs)

  -- Whatever calls the model makes and whatever the tools answer, the batch prepares arguments with registered tools
  -- only, where the projection finds no credential in the name or the arguments, and executes only what the named tool
  -- itself prepared from such arguments under its own name, with reading as its one effect.
  pub execute_batch-Allowed : (cs : List (ToolCall × Bool)) → All Allowed (execute_batch b cs).1
  unfolding execute_batch
  execute_batch-Allowed cs = execute_from-Allowed false cs
