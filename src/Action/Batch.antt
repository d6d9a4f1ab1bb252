-- ===== src/Action/Batch.antt =====
-- What `ExecuteBatch` of internal/action/broker.go returns.
use coragent.Base.{
  ℕ, zero, suc, ◌-◌, ◌≤◌, Bool, true, false, not, ◌≡◌, refl, List, [], ◌∷◌, ◌++◌, take, Bytes,
  arith, ltb, length, length-append, append-nil, append_assoc, All, inl, inr, Bool-cases,
}
use coragent.Transcript.{ToolResultPayload}
use coragent.Provider.{ToolCall}
use coragent.Action.{
  Broker, project, blocked_result, skipped_result, execute, execute_safe, execute_from,
  execute_batch, cut_at, max_bytes, marker, is_success, project_call,
}

cut_at-le : (s : Bytes) (n : ℕ) → cut_at s n ≤ n
unfolding cut_at
cut_at-le s zero = omega arith
cut_at-le s (suc n) = ground (arith, cut_at-le s n)

length-take-le : {A : Type 0} (n : ℕ) (xs : List A) → length (take n xs) ≤ n
length-take-le zero xs = omega arith
length-take-le (suc n) [] = omega arith
length-take-le (suc n) (x ∷ xs) = omega (arith, length-take-le n xs)

-- A content that is cut keeps room for the marker.
marked :
    (content : Bytes) (k : ℕ)
    → k ≤ max_bytes - length marker
    → length (take k content ++ marker) ≤ max_bytes
marked content k h = omega (arith, length-append (take k content) marker, length-take-le k content)

module _ (b : Broker) where
  project-bound : (r : ToolResultPayload) → length (project b r).content ≤ max_bytes
  unfolding project
  project-bound r =
      let content = (b.project_text r.content).content in
      elim (Bool-cases (ltb max_bytes (length content))) [
        | inl e ↦ rw e (marked content _ (cut_at-le content (max_bytes - length marker)))
        | inr e ↦ rw e (ground arith)
      ]

  execute-bound : (done : Bool) (c : ToolCall) → length (execute b done c).0.content ≤ max_bytes
  unfolding execute execute_safe blocked_result
  execute-bound done c = elim (Bool-cases (project_call b c).1) [
    | inl e ↦ rw e (project-bound _)
    | inr e ↦ rw e (project-bound _)
  ]

  skipped_result-bound : (id : Bytes) → length (skipped_result b id).content ≤ max_bytes
  unfolding skipped_result
  skipped_result-bound id = project-bound _

  execute_from-bounds :
      (stopped : Bool) (cs : List (ToolCall × Bool))
      → (length (execute_from b stopped cs).0 ≡ length cs)
        × All
            (λ (r : ToolResultPayload). length r.content ≤ max_bytes)
            (execute_from b stopped cs).0
  unfolding execute_from
  execute_from-bounds stopped [] = (refl, tt)
  execute_from-bounds true ((c, done) ∷ cs) =
      let (n, rest) = execute_from-bounds true cs in
      (omega (arith, n), (skipped_result-bound c.id, rest))
  execute_from-bounds false ((c, done) ∷ cs) =
      let (n, rest) = execute_from-bounds (not (is_success (execute b done c).0.outcome)) cs in
      (omega (arith, n), (execute-bound done c, rest))

  -- A batch has one result for each call, and no result has more than 64 KiB, whatever the tools return.
  pub execute_batch-bounds :
      (cs : List (ToolCall × Bool))
      → (length (execute_batch b cs).0 ≡ length cs)
        × All (λ (r : ToolResultPayload). length r.content ≤ 65536) (execute_batch b cs).0
  unfolding execute_batch
  execute_batch-bounds cs = execute_from-bounds false cs

  abbrev pub all_skipped : List (ToolCall × Bool) → List ToolResultPayload
  all_skipped [] = []
  all_skipped ((c, done) ∷ cs) = skipped_result b c.id ∷ all_skipped cs

  execute_from-stopped :
      (cs : List (ToolCall × Bool)) → execute_from b true cs ≡ (all_skipped cs, [])
  unfolding execute_from
  execute_from-stopped [] = refl
  execute_from-stopped ((c, done) ∷ cs) = rw (execute_from-stopped cs)

  execute_from-stops :
      (before : List (ToolCall × Bool)) (c : ToolCall) (done : Bool)
      (after : List (ToolCall × Bool))
      → All (λ (r : ToolResultPayload). is_success r.outcome ≡ true) (execute_from b false before).0
      → is_success (execute b done c).0.outcome ≡ false
      → execute_from b false (before ++ (c, done) ∷ after) ≡ (
        (execute_from b false before).0 ++ (execute b done c).0 ∷ all_skipped after,
        (execute_from b false before).1 ++ (execute b done c).1,
      )
  unfolding execute_from
  execute_from-stops [] c done after all failing =
      rw (failing, execute_from-stopped after) (rw (append-nil (execute b done c).1))
  execute_from-stops ((x, d) ∷ before) c done after (first, all) failing = rw first (
      rw (
        execute_from-stops before c done after (rw first at all) failing,
        append_assoc (execute b d x).1 (execute_from b false before).1 (execute b done c).1,
      ))

  -- Let the calls before one succeed, and let that one not succeed. Then its result follows theirs, every call after
  -- it has the skipped result, and the batch uses no tool but for the calls before it and for that call.
  pub execute_batch-stops :
      (before : List (ToolCall × Bool)) (c : ToolCall) (done : Bool)
      (after : List (ToolCall × Bool))
      → All (λ (r : ToolResultPayload). is_success r.outcome ≡ true) (execute_batch b before).0
      → is_success (execute b done c).0.outcome ≡ false
      → execute_batch b (before ++ (c, done) ∷ after) ≡ (
        (execute_batch b before).0 ++ (execute b done c).0 ∷ all_skipped after,
        (execute_batch b before).1 ++ (execute b done c).1,
      )
  unfolding execute_batch
  execute_batch-stops before c done after all failing =
      execute_from-stops before c done after all failing
