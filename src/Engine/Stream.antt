-- ===== src/Engine/Stream.antt =====
-- The stream of an attempt in `run` of internal/engine/session.go: `onText`, `resetStream`, and the end of the stream.
use coragent.Base.{ℕ, Bool, List, [], ◌∷◌, ◌++◌, Bytes, blank, if◌then◌else◌}
use coragent.Base.Int.{ℤ}
use coragent.Errors.{Err, Result, ok, err}
use coragent.Exec.{Exec, pure, modify, ◌>>=◌, ◌>>◌}
use coragent.Transcript.{FailureCause}
use coragent.Event
use coragent.Dataproj.Lines.{StreamRedactor, write, close}
use coragent.Provider.{Request, Response, Failure}
use coragent.Engine.{Session}
use coragent.Engine.Facts.{emit}
use coragent.Engine.Retry.{
  Streamed, Attempt, completed, failed, broken, Completion, response, failure, stopped,
  complete_with_retry, cause_of_error, cause_of_failure,
}

-- How a call of the provider ends, once it has streamed its chunks.
pub data Reply : Type 0 where
  replied : Response → Reply
  refused : Failure → Reply
  errored : Err → Reply

-- An attempt: the chunks in order, the reply, and whether the context is done by then. A provider that does
-- not stream has no chunks. An error of `onText` ends the stream.
pub record Delivery : Type 0 where
  pub chunks : List Bytes
  pub reply : Reply
  pub context_done : Bool

abbrev pub delta : Bytes → Bytes → Exec Session (Unit {0})
delta run_id safe = do
  modify (λ s. record s { partial = s.partial ++ safe })
  emit run_id Event.assistant_delta (Event.text safe)

-- `onText`
unfoldable pub on_text : Bytes → Streamed → Bytes → Exec Session Streamed
unfolding write emit
on_text run_id st raw =
    let (safe, redactor) = write st.redactor raw in
    if blank safe
    then pure (record st { redactor = redactor })
    else (delta run_id safe >>= λ _. pure (record { redactor = redactor; text = st.text ++ safe }))

unfoldable pub stream_chunks : Bytes → Streamed → List Bytes → Exec Session Streamed
unfolding on_text
stream_chunks run_id st [] = pure st
stream_chunks run_id st (raw ∷ chunks) = do
  next ← on_text run_id st raw
  stream_chunks run_id next chunks

-- `resetStream`, of the session: the next attempt starts with a new redactor and no text.
unfoldable pub reset_stream : Exec Session (Unit {0})
reset_stream = modify (λ s. record s { partial = [] })

abbrev pub attempted : Delivery → Streamed → Attempt
attempted d st = elim d.reply [
  | replied r ↦ completed r st
  | refused f ↦ failed f d.context_done
  | errored e ↦ broken e
]

-- The end of the stream: what the redactor still holds is let out.
unfoldable pub finish_stream : Bytes → Response → Streamed → Exec Session (Response × Bytes)
unfolding close emit
finish_stream run_id r st =
    let (trailing, last) = close st.redactor in
    if blank trailing
    then pure (r, st.text)
    else (delta run_id trailing >>= λ _. pure (r, st.text ++ trailing))

-- What a turn of the model comes to: the response and the text that was let out, or the cause of a failure.
pub data Turn : Type 0 where
  answered : Response → Bytes → Turn
  unanswered : FailureCause → Turn

unfoldable pub turn_of : Result (Response × Bytes) → Turn
unfolding cause_of_error
turn_of (ok (r, streamed)) = answered r streamed
turn_of (err e) = unanswered (cause_of_error e)

-- The parameters are the redactor that a stream starts with, the attempts, the jitter and the sleep.
module _ (start : StreamRedactor) (deliver : ℕ → Request → Delivery) (jitter : ℕ → ℕ → ℤ)
    (sleep : ℕ → ℕ → Result (Unit {0})) where
  unfoldable pub attempt : Bytes → Request → ℕ → Exec Session Attempt
  unfolding stream_chunks
  attempt run_id req retry = do
    st ← stream_chunks run_id (record { redactor = start; text = [] }) (deliver retry req).chunks
    pure (attempted (deliver retry req) st)

  unfoldable pub complete : Bytes → Request → Exec Session Completion
  unfolding attempt complete_with_retry reset_stream
  complete run_id req = complete_with_retry (attempt run_id req) jitter sleep reset_stream run_id

  abbrev pub concluded : Bytes → Result Completion → Session → Turn × Session
  concluded run_id (err e) s = (unanswered (cause_of_error e), s)
  concluded run_id (ok (failure f)) s = (unanswered (cause_of_failure f.class), s)
  concluded run_id (ok (stopped e)) s = (unanswered (cause_of_error e), s)
  concluded run_id (ok (response r st)) s =
      let (res, t) = finish_stream run_id r st s in (turn_of res, t)

  -- `completeWithRetry` and the end of its stream.
  unfoldable pub turn : Bytes → Request → Session → Turn × Session
  unfolding complete finish_stream turn_of cause_of_error cause_of_failure
  turn run_id req s = let (res, t) = complete run_id req s in concluded run_id res t
