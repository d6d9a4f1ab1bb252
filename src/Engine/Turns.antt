-- ===== src/Engine/Turns.antt =====
-- A turn of the model reserves no model call: `completeWithRetry` and the stream in internal/engine/session.go.
use coragent.Base.{
  ℕ, zero, suc, ◌+◌, not, ◌||◌, refl, ◌∙◌, inl, inr, Bool-cases, List, [], ◌∷◌, ◌++◌, Bytes, blank,
}
use coragent.Base.Int.{ℤ, pos}
use coragent.Errors.{Result, ok, err}
use coragent.Exec.{Exec}
use coragent.Exec
use coragent.Event
use coragent.Dataproj.Lines.{StreamRedactor, write, close}
use coragent.Provider.{Request, Response, Failure}
use coragent.Store.Session.{transport_attempt, retry_delay}
use coragent.Engine.{Session}
use coragent.Engine.Retry.{
  Streamed, Attempt, completed, failed, broken, Completion, response, failure, stopped,
  schedule_retry, complete_from, complete_with_retry, reserve, delay_for, retryable, announce_retry,
  last_attempt, after_attempt,
}
use coragent.Engine.Budget.{used, Keeps, Keeps->>=, emit-Keeps, reserve-Keeps}
use coragent.Engine.Facts.{emit}
use coragent.Engine.Stream.{
  Delivery, delta, attempted, concluded, on_text, stream_chunks, reset_stream, finish_stream,
  attempt, complete, turn,
}

module _ (run_id : Bytes) where
  Keeps-then :
      {B : Type 0} (m : Exec Session (Unit {0})) (rest : Exec Session B)
      → Keeps run_id m
      → Keeps run_id rest
      → Keeps run_id (Exec.◌>>◌ m rest)
  Keeps-then m rest h k = Keeps->>= run_id m (λ _. rest) h (λ _. k)

  delta-Keeps : (safe : Bytes) → Keeps run_id (delta run_id safe)
  delta-Keeps safe =
      Keeps-then (Exec.modify (λ (s : Session). record s { partial = s.partial ++ safe }))
        (emit run_id Event.assistant_delta (Event.text safe)) (λ s. unfold used in refl)
        (emit-Keeps run_id Event.assistant_delta (Event.text safe))

  Keeps-pure :
      {A B : Type 0} (m : Exec Session A) (a : B)
      → Keeps run_id m
      → Keeps run_id (Exec.◌>>=◌ m (λ _. Exec.pure a))
  Keeps-pure m a h = Keeps->>= run_id m (λ _. Exec.pure a) h (λ _ s. refl)

  on_text-Keeps : (st : Streamed) (raw : Bytes) → Keeps run_id (on_text run_id st raw)
  unfolding on_text
  on_text-Keeps st raw s =
      let (safe, redactor) = write st.redactor raw in
      let next : Streamed = record { redactor = redactor; text = st.text ++ safe } in
      elim (Bool-cases (blank safe)) [
        | inl e ↦ rw e refl
        | inr e ↦ rw e (Keeps-pure (delta run_id safe) next (delta-Keeps safe) s)
      ]

  stream_chunks-Keeps :
      (st : Streamed) (chunks : List Bytes) → Keeps run_id (stream_chunks run_id st chunks)
  unfolding stream_chunks
  stream_chunks-Keeps st [] = λ s. refl
  stream_chunks-Keeps st (raw ∷ chunks) =
      Keeps->>= run_id (on_text run_id st raw) (λ next. stream_chunks run_id next chunks)
        (on_text-Keeps st raw) (λ next. stream_chunks-Keeps next chunks)

  finish_stream-Keeps : (r : Response) (st : Streamed) → Keeps run_id (finish_stream run_id r st)
  unfolding finish_stream
  finish_stream-Keeps r st s =
      let (trailing, last) = close st.redactor in
      let end : Response × Bytes = (r, st.text ++ trailing) in
      elim (Bool-cases (blank trailing)) [
        | inl e ↦ rw e refl
        | inr e ↦ rw e (Keeps-pure (delta run_id trailing) end (delta-Keeps trailing) s)
      ]

  module _ (attempts : ℕ → Exec Session Attempt) (jitter : ℕ → ℕ → ℤ)
      (sleep : ℕ → ℕ → Result (Unit {0})) (reset : Exec Session (Unit {0}))
      (attempts-Keeps : (n : ℕ) → Keeps run_id (attempts n))
      (reset-Keeps : Keeps run_id reset) where
    schedule_retry-Keeps :
        (f : Failure) (n : ℕ) → Keeps run_id (schedule_retry attempts jitter sleep reset run_id f n)
    unfolding schedule_retry
    schedule_retry-Keeps f n =
        let delay = delay_for (jitter n) f n in
        let pause : Exec Session (Unit {0}) = Exec.lift (sleep n delay) in
        let announce : Exec Session (Unit {0}) = announce_retry run_id f n delay in
        let rest : Exec Session (Unit {0}) = Exec.◌>>◌ announce pause in
        Keeps-then (reserve run_id retry_delay (pos delay)) (Exec.◌>>◌ reset rest)
          (reserve-Keeps run_id retry_delay (pos delay) refl)
          (Keeps-then reset rest reset-Keeps
            (Keeps-then announce pause (emit-Keeps run_id Event.retry_scheduled _) (λ s. refl)))

    last_attempt-Keeps : (a : Attempt) → Keeps run_id (last_attempt a)
    last_attempt-Keeps (completed r st) s = refl
    last_attempt-Keeps (failed f context_done) s = refl
    last_attempt-Keeps (broken e) s = refl

    after_attempt-Keeps :
        (again : Exec Session Completion) (n : ℕ) (a : Attempt)
        → Keeps run_id again
        → Keeps run_id (after_attempt attempts jitter sleep reset again run_id n a)
    after_attempt-Keeps again n (completed r st) h s = refl
    after_attempt-Keeps again n (failed f context_done) h s =
        elim (Bool-cases (context_done || not (retryable f.class))) [
          | inl e ↦ rw e refl
          | inr e ↦ rw e (
              Keeps-then (schedule_retry attempts jitter sleep reset run_id f n) again
                (schedule_retry-Keeps f n) h s)
        ]
    after_attempt-Keeps again n (broken e) h s = refl

    complete_from-Keeps :
        (left n : ℕ) → Keeps run_id (complete_from attempts jitter sleep reset left n run_id)
    unfolding complete_from
    complete_from-Keeps zero n =
        Keeps-then (reserve run_id transport_attempt (pos 0)) (Exec.◌>>=◌ (attempts n) last_attempt)
          (reserve-Keeps run_id transport_attempt (pos 0) refl)
          (Keeps->>= run_id (attempts n) last_attempt (attempts-Keeps n) last_attempt-Keeps)
    complete_from-Keeps (suc left) n =
        let again = complete_from attempts jitter sleep reset left (n + 1) run_id in
        let decide : Attempt → Exec Session Completion =
          after_attempt attempts jitter sleep reset again run_id n in
        Keeps-then (reserve run_id transport_attempt (pos 0)) (Exec.◌>>=◌ (attempts n) decide)
          (reserve-Keeps run_id transport_attempt (pos 0) refl)
          (Keeps->>= run_id (attempts n) decide (attempts-Keeps n)
            (λ a. after_attempt-Keeps again n a (complete_from-Keeps left (n + 1))))

  module _ (start : StreamRedactor) (deliver : ℕ → Request → Delivery) (jitter : ℕ → ℕ → ℤ)
      (sleep : ℕ → ℕ → Result (Unit {0})) where
    attempt-Keeps :
        (req : Request) (n : ℕ) → Keeps run_id (attempt start deliver jitter sleep run_id req n)
    unfolding attempt
    attempt-Keeps req n =
        Keeps->>= run_id
          (stream_chunks run_id (record { redactor = start; text = [] }) (deliver n req).chunks)
          (λ st. Exec.pure (attempted (deliver n req) st))
          (stream_chunks-Keeps (record { redactor = start; text = [] }) (deliver n req).chunks)
          (λ st s. refl)

    concluded-Keeps :
        (res : Result Completion) → Keeps run_id (concluded start deliver jitter sleep run_id res)
    concluded-Keeps (err e) s = refl
    concluded-Keeps (ok (failure f)) s = refl
    concluded-Keeps (ok (stopped e)) s = refl
    concluded-Keeps (ok (response r st)) s = finish_stream-Keeps r st s

    pub turn-Keeps : (req : Request) → Keeps run_id (turn start deliver jitter sleep run_id req)
    unfolding turn complete complete_with_retry
    turn-Keeps req s =
        let res =
          complete_from (attempt start deliver jitter sleep run_id req) jitter sleep reset_stream 8
            0 run_id s in
        concluded-Keeps res.0 res.1
        ∙ complete_from-Keeps (attempt start deliver jitter sleep run_id req) jitter sleep
            reset_stream (attempt-Keeps req) (λ t. unfold reset_stream used in refl) 8 0 s
