-- ===== src/Engine/Rounds.antt =====
-- A round of `run` in internal/engine/session.go reserves one model call.
use coragent.Base.{
  ℕ, ◌+◌, ◌<◌, Bool, true, false, not, ◌&&◌, ◌||◌, ◌≡◌, refl, ◌∙◌, ◌⊎◌, inl, inr, Bool-cases,
  Option, none, some, List, [], ◌∷◌, map, Bytes, arith, blank, same,
}
use coragent.Base.Int.{pos}
use coragent.Errors.{Err, Result-cases}
use coragent.Exec.{Exec}
use coragent.Transcript.{RunOutcome, tool_result, result, ToolResultPayload, assistant_block, text}
use coragent.Event
use coragent.Provider.{Request, Response, ToolCall, TerminalReason}
use coragent.Action.{Broker, execute, is_success}
use coragent.Store.Session.{logical_model_call}
use coragent.Engine.{Session}
use coragent.Engine.Facts.{append_payload, append_tool_calls, emit}
use coragent.Engine.Retry.{reserve}
use coragent.Engine.Budget.{
  used, Keeps, Keeps->>=, append_payload-Keeps, emit-Keeps, append_tool_calls-Keeps, reserve-counts,
}
use coragent.Engine.Turns.{turn-Keeps}
use coragent.Engine.Calls.{validate_tool_calls}
use coragent.Engine.Stream
use coragent.Engine.Stream.{turn}
use coragent.Prompt
use coragent.Provider
use coragent.Transcript
use coragent.Engine.Run
use coragent.Engine.Run.{
  Stage, leave, goes, Phase, Exit, finishes, faults, leave_if, or_leave, World, run_call, run_calls,
  record_result, record_text, start_tool, ask, cut_off, act, respond, round, run_from, run,
  exit_run, answer, build_request,
}

pub Stage-cases :
    {A : Type 0} → (st : Stage A) → ((e : Exit) × (st ≡ leave e)) ⊎ ((a : A) × (st ≡ goes a))
Stage-cases (leave e) = inl (e, refl)
Stage-cases (goes a) = inr (a, refl)

leave-ne-goes : {A : Type 0} → (e : Exit) (a : A) → ◌≡◌ {A = Stage A} (leave e) (goes a) → ⊥
leave-ne-goes e a h = cc

-- A phase that goes on has reserved one model call.
abbrev pub Counts : {A : Type 0} → Bytes → Phase A → Type 0
Counts {A} run_id m =
    (s : Session) (a : A)
    → (m s).0 ≡ goes a
    → (used run_id (m s).1 ≡ used run_id s + 1) × (used run_id s < 64)

module _ (run_id : Bytes) where
  phase-Keeps :
      {A B : Type 0} (m : Phase A) (f : A → Phase B)
      → Keeps run_id m
      → ((a : A) → Keeps run_id (f a))
      → Keeps run_id (Run.◌>>=◌ m f)
  phase-Keeps m f h k s = elim (Stage-cases (m s).0) [
    | inl (e, g) ↦ rw g (h s)
    | inr (a, g) ↦ rw g (k a (m s).1 ∙ h s)
  ]

  before-Counts :
      {A B : Type 0} (m : Phase A) (f : A → Phase B)
      → Keeps run_id m
      → ((a : A) → Counts run_id (f a))
      → Counts run_id (Run.◌>>=◌ m f)
  before-Counts m f h k s b e = elim (Stage-cases (m s).0) [
    | inl (x, g) ↦ absurd (leave-ne-goes x b (rw g at e))
    | inr (a, g) ↦ rw g (
        let (more, low) = k a (m s).1 b (rw g at e) in
        (omega (arith, more, h s), omega (arith, low, h s)))
  ]

  after-Counts :
      {A B : Type 0} (m : Phase A) (f : A → Phase B)
      → Counts run_id m
      → ((a : A) → Keeps run_id (f a))
      → Counts run_id (Run.◌>>=◌ m f)
  after-Counts m f h k s b e = elim (Stage-cases (m s).0) [
    | inl (x, g) ↦ absurd (leave-ne-goes x b (rw g at e))
    | inr (a, g) ↦ rw g (let (more, low) = h s a g in (omega (arith, more, k a (m s).1), low))
  ]

  reserve-Counts :
      (f : Err → Exit) → Counts run_id (or_leave f (reserve run_id logical_model_call (pos 0)))
  reserve-Counts f s a e = elim (Result-cases (reserve run_id logical_model_call (pos 0) s).0) [
    | inl (x, g) ↦ absurd (leave-ne-goes (f x) a (rw g at e))
    | inr (_, g) ↦ reserve-counts run_id (pos 0) s g
  ]

  start_tool-Keeps : (c : ToolCall) → Keeps run_id (start_tool run_id c)
  unfolding start_tool
  start_tool-Keeps c s =
      emit-Keeps run_id Event.tool_started (Event.start c.id c.name)
        (record s { active_tool = some (record { call_id = c.id; name = c.name }) })
      ∙ (unfold used in refl)

  record_result-Keeps :
      (c : ToolCall) (r : ToolResultPayload) → Keeps run_id (record_result run_id c r)
  unfolding record_result used
  record_result-Keeps c r =
      let append : Exec Session (Unit {0}) = append_payload run_id tool_result (result r) in
      Keeps->>= run_id (λ s. ((append s).0, record (append s).1 { active_tool = none }))
        (λ _. emit run_id Event.tool_finished (Event.finish c.id r.outcome))
        (append_payload-Keeps run_id tool_result (result r))
        (λ _. emit-Keeps run_id Event.tool_finished (Event.finish c.id r.outcome))

  module _ (broker : Broker) (done : ℕ → Bool) where
    run_call-Keeps :
        (n : ℕ) (stopped sensitive : Bool) (c : ToolCall)
        → Keeps run_id (run_call broker done run_id n stopped sensitive c)
    unfolding run_call
    run_call-Keeps n true sensitive c = λ s. refl
    run_call-Keeps n false true c = λ s. refl
    run_call-Keeps n false false c =
        phase-Keeps (or_leave faults (start_tool run_id c))
          (λ _. Run.continue (execute broker (done n) c).0) (start_tool-Keeps c) (λ _ s. refl)

    run_calls-Keeps :
        (n : ℕ) (stopped blocked : Bool) (cs : List (ToolCall × Bool))
        → Keeps run_id (run_calls broker done run_id n stopped blocked cs)
    unfolding run_calls
    run_calls-Keeps n stopped blocked [] = λ s. refl
    run_calls-Keeps n stopped blocked ((c, sensitive) ∷ cs) =
        let rest : ToolResultPayload → Phase Bool = λ r.
          run_calls broker done run_id (n + 1) (stopped || not (is_success r.outcome))
            (blocked || not stopped && sensitive) cs in
        phase-Keeps (run_call broker done run_id n stopped sensitive c)
          (λ r. Run.◌>>=◌ (or_leave faults (record_result run_id c r)) (λ _. rest r))
          (run_call-Keeps n stopped sensitive c)
          (λ r.
            phase-Keeps (or_leave faults (record_result run_id c r)) (λ _. rest r)
              (record_result-Keeps c r)
              (λ _.
                run_calls-Keeps (n + 1) (stopped || not (is_success r.outcome))
                  (blocked || not stopped && sensitive) cs))

  record_text-Keeps :
      (reason : TerminalReason) (projected : Bytes)
      → Keeps run_id (record_text run_id reason projected)
  unfolding record_text used
  record_text-Keeps reason projected s = elim (Bool-cases (blank projected)) [
    | inl e ↦ rw e refl
    | inr e ↦ elim (Bool-cases (Run.is_length reason)) [
      | inl f ↦ rw (e, f) refl
      | inr f ↦
          rw (e, f)
            (Keeps->>= run_id (append_payload run_id assistant_block (text projected))
              (λ _. emit run_id Event.assistant_text (Event.text projected))
              (append_payload-Keeps run_id assistant_block (text projected))
              (λ _. emit-Keeps run_id Event.assistant_text (Event.text projected)) s)
    ]
  ]

  cut_off-Keeps : (b : Bool) → Keeps run_id (cut_off b)
  unfolding used
  cut_off-Keeps true s = refl
  cut_off-Keeps false s = refl

  answer-Keeps : (t : Stream.Turn) → Keeps run_id (answer t)
  answer-Keeps (Stream.answered r streamed) s = refl
  answer-Keeps (Stream.unanswered c) s = refl

  build_request-Keeps :
      (a : Option Prompt.Config) (tools : List Provider.ToolDefinition) (goal : Bytes)
      → Keeps run_id (build_request a tools goal)
  unfolding build_request
  build_request-Keeps none tools goal s = refl
  build_request-Keeps (some cfg) tools goal s = refl

  module _ (w : World) (goal : Bytes) where
    -- The model call of a round: its parts from the last one.
    ask-Counts : (n : ℕ) → Counts run_id (ask w run_id goal n)
    unfolding ask
    ask-Counts n =
        let turned : Request → Phase Stream.Turn = λ req s.
          let (t, u) = turn w.redactor (w.deliver n) (w.jitter n) (w.sleep n) run_id req s in
          (goes t, u) in
        let finished : Stream.Turn → Phase (Response × Bytes) =
          λ t. Run.◌>>◌ (leave_if (w.done_answered n) Run.cancelled) (answer t) in
        let finished-Keeps : (t : Stream.Turn) → Keeps run_id (finished t) = λ t.
          phase-Keeps (leave_if (w.done_answered n) Run.cancelled) (λ _. answer t) (λ s. refl)
            (λ _. answer-Keeps t) in
        let called : Request → Phase (Response × Bytes) = λ req. Run.◌>>=◌ (turned req) finished in
        let called-Keeps : (req : Request) → Keeps run_id (called req) = λ req.
          phase-Keeps (turned req) finished
            (turn-Keeps run_id w.redactor (w.deliver n) (w.jitter n) (w.sleep n) req)
            finished-Keeps in
        let reserved : Phase (Unit {0}) =
          or_leave (Run.failing Transcript.cause_budget_exhausted)
            (reserve run_id logical_model_call (pos 0)) in
        let request : Phase Request =
          or_leave (Run.failing Transcript.context_limit)
            (build_request w.assembler w.catalog goal) in
        before-Counts (leave_if (w.done_before n) Run.cancelled)
          (λ _. Run.◌>>=◌ request (λ req. Run.◌>>◌ reserved (called req))) (λ s. refl)
          (λ _.
            before-Counts request (λ req. Run.◌>>◌ reserved (called req))
              (build_request-Keeps w.assembler w.catalog goal)
              (λ req.
                after-Counts reserved (λ _. called req)
                  (reserve-Counts (Run.failing Transcript.cause_budget_exhausted))
                  (λ _. called-Keeps req)))

    act-Keeps : (n : ℕ) (calls : List ToolCall) → Keeps run_id (act w run_id goal n calls)
    unfolding act
    act-Keeps n calls =
        let safe = Run.project_calls w.broker (w.done_at_call n) calls in
        let append : Phase (Unit {0}) =
          or_leave faults (append_tool_calls run_id (map Run.safe_payload safe)) in
        let results : Phase Bool =
          run_calls w.broker (w.done_at_call n) run_id 0 false false safe in
        let checked : Bool → Phase (Unit {0}) = λ blocked.
          Run.◌>>◌ (leave_if (w.done_after n) Run.cancelled) (
            leave_if blocked
              (finishes Transcript.run_failed Transcript.sensitive_content_blocked)) in
        phase-Keeps
          (leave_if (not (validate_tool_calls w.unmarshals calls))
            (finishes Transcript.run_failed Transcript.provider_protocol))
          (λ _. Run.◌>>◌ append (Run.◌>>=◌ results checked)) (λ s. refl)
          (λ _.
            phase-Keeps append (λ _. Run.◌>>=◌ results checked)
              (append_tool_calls-Keeps run_id (map Run.safe_payload safe))
              (λ _.
                phase-Keeps results checked
                  (run_calls-Keeps w.broker (w.done_at_call n) 0 false false safe)
                  (λ blocked s.
                    phase-Keeps (leave_if (w.done_after n) Run.cancelled)
                      (λ _.
                        leave_if blocked
                          (finishes Transcript.run_failed Transcript.sensitive_content_blocked))
                      (λ s. refl) (λ _ s. refl) s)))

    -- The part of a round after the model call.
    respond-Keeps :
        (n : ℕ) (r : Response) (streamed : Bytes)
        → Keeps run_id (respond w run_id goal n r streamed)
    unfolding respond
    respond-Keeps n r streamed =
        let projected = w.project_text r.text in
        let stale : Phase (Unit {0}) =
          leave_if (not (blank streamed) && not (same streamed projected))
            (finishes Transcript.run_failed Transcript.engine_invariant) in
        let short : Phase (Unit {0}) = cut_off (Run.is_length r.reason && Run.no_calls r.calls) in
        let recorded : Phase (Unit {0}) = record_text run_id r.reason projected in
        let finished : Phase (Unit {0}) =
          leave_if (Run.no_calls r.calls) (finishes Transcript.run_completed Transcript.no_cause) in
        let acted : Phase (Unit {0}) = act w run_id goal n r.calls in
        let ended : Phase (Unit {0}) = Run.◌>>◌ finished acted in
        let written : Phase (Unit {0}) = Run.◌>>◌ recorded ended in
        phase-Keeps stale (λ _. Run.◌>>◌ short written) (λ s. refl)
          (λ _.
            phase-Keeps short (λ _. written)
              (cut_off-Keeps (Run.is_length r.reason && Run.no_calls r.calls))
              (λ _.
                phase-Keeps recorded (λ _. ended) (record_text-Keeps r.reason projected)
                  (λ _. phase-Keeps finished (λ _. acted) (λ s. refl) (λ _. act-Keeps n r.calls))))

    pub round-Counts : (n : ℕ) → Counts run_id (round w run_id goal n)
    unfolding round
    round-Counts n =
        after-Counts (ask w run_id goal n) (λ a. respond w run_id goal n a.0 a.1) (ask-Counts n)
          (λ a. respond-Keeps n a.0 a.1)
