-- ===== src/Engine/Retry.antt =====
-- Retries and budgets: `completeWithRetry`, `retryDelay`, `retryable`, `reserve` and `failureCause` of
-- internal/engine/session.go. Delays are in nanoseconds.
pub mod Delay
use coragent.Base.{
  ℕ, zero, suc, ◌+◌, ◌*◌, ◌/◌, Bool, true, false, not, ◌&&◌, ◌||◌, Option, none, some, List, [],
  ◌∷◌, Bytes, codes, ltb, leb, if◌then◌else◌,
}
use coragent.Base.Int.{ℤ, pos, negsuc, ltb_ℤ}
use coragent.Base.Dict.{get, put}
use coragent.Errors.{Err, Result, ok, err, budget_exhausted, context_window_exceeded}
use coragent.Exec.{Exec, pure, raise, lift, gets, modify, ensure, ◌>>=◌, ◌>>◌}
use coragent.Transcript
use coragent.Transcript.{FailureCause}
use coragent.Event
use coragent.Store.{RunBudget}
use coragent.Store.Session.{
  BudgetCounter, logical_model_call, transport_attempt, retry_delay, unknown_counter_name, reserved,
  reserve_budget,
}
use coragent.Dataproj.Lines.{StreamRedactor}
use coragent.Provider.{
  Response, Failure, FailureClass, permanent, protocol, rate_limit, transient, overloaded,
  context_overflow, output_limit, cancelled,
}
use coragent.Engine.{Session}
use coragent.Engine.Facts.{durably, emit}

-- `m[id]`: a missing budget is zero.
abbrev pub budget_or_zero : Option RunBudget → RunBudget
budget_or_zero none = record {
  logical_model_calls = 0;
  transport_attempts = 0;
  retry_delay = pos 0;
}
budget_or_zero (some b) = b

-- The `switch` of `reserve`: an unknown counter changes nothing, and the rest is as in the store.
abbrev pub counted : RunBudget → BudgetCounter → ℤ → Result RunBudget
counted b (unknown_counter_name c) amount = ok b
counted b counter amount = reserved b counter amount

abbrev reserve_memory : Bytes → BudgetCounter → ℤ → Exec Session (Unit {0})
reserve_memory run_id counter amount = do
  budgets ← gets (λ s. s.memory_budget)
  b ← lift (counted (budget_or_zero (get budgets run_id)) counter amount)
  modify (λ s. record s { memory_budget = put s.memory_budget run_id b })

-- `reserve`.
unfoldable pub reserve : Bytes → BudgetCounter → ℤ → Exec Session (Unit {0})
unfolding durably
reserve run_id counter amount =
    durably (reserve_budget run_id counter amount >>= λ b. pure tt)
      (reserve_memory run_id counter amount)

-- `retryable`.
unfoldable pub retryable : FailureClass → Bool
retryable rate_limit = true
retryable transient = true
retryable overloaded = true
retryable _ = false

abbrev pub first_delay : ℕ
first_delay = 500000000

abbrev pub longest_delay : ℕ
longest_delay = 30000000000

-- The loop of `retryDelay`, with the rounds left.
unfoldable pub delay_from : ℕ → ℕ → ℕ
delay_from zero delay = if ltb longest_delay delay then longest_delay else delay
delay_from (suc rounds) delay =
    let later = delay_from rounds (delay * 2) in
    if leb longest_delay delay then longest_delay else later

-- `retryDelay`.
unfoldable pub retry_delay_of : ℕ → ℕ
unfolding delay_from
retry_delay_of retry = delay_from retry first_delay

-- `Retry-After` is taken up to 120 s.
abbrev pub longest_retry_after : ℤ
longest_retry_after = pos 120000000000

-- The delay of a retry: never negative.
unfoldable pub delay_for : (ℕ → ℤ) → Failure → ℕ → ℕ
unfolding retry_delay_of
delay_for jitter failure retry =
    let delay =
      if ltb_ℤ (pos 0) failure.retry_after
      then (if ltb_ℤ longest_retry_after failure.retry_after
          then longest_retry_after
          else failure.retry_after)
      else jitter (retry_delay_of retry) in
    elim delay [ pos n ↦ n | negsuc n ↦ 0 ]

abbrev pub class_name : FailureClass → Bytes
class_name permanent = codes "permanent"
class_name protocol = codes "protocol"
class_name rate_limit = codes "rate_limit"
class_name transient = codes "transient"
class_name overloaded = codes "overloaded"
class_name context_overflow = codes "context_overflow"
class_name output_limit = codes "output_limit"
class_name cancelled = codes "cancelled"

-- What `run` keeps of the stream of an attempt: the redactor, and the text that was let out.
pub record Streamed : Type 0 where
  pub redactor : StreamRedactor
  pub text : Bytes

-- What the engine sees when a transport attempt ends: the result, and whether the context is done.
pub data Attempt : Type 0 where
  completed : Response → Streamed → Attempt
  failed : Failure → (context_done : Bool) → Attempt
  broken : Err → Attempt

-- How a call to the provider ends.
pub data Completion : Type 0 where
  response : Response → Streamed → Completion
  failure : Failure → Completion
  stopped : Err → Completion

-- The event of a retry.
abbrev pub announce_retry : Bytes → Failure → ℕ → ℕ → Exec Session (Unit {0})
announce_retry run_id f retry delay =
    emit run_id Event.retry_scheduled
      (Event.retry (pos (retry + 1)) (pos (delay / 1000000)) (class_name f.class))

-- What follows the last attempt.
abbrev pub last_attempt : Attempt → Exec Session Completion
last_attempt (completed r s) = pure (response r s)
last_attempt (failed f context_done) = pure (failure f)
last_attempt (broken e) = pure (stopped e)

-- The parameters are the provider with its stream, the jitter, the sleep, and the reset of the stream.
module _ (attempt : ℕ → Exec Session Attempt) (jitter : ℕ → ℕ → ℤ)
    (sleep : ℕ → ℕ → Result (Unit {0})) (reset : Exec Session (Unit {0})) where
  -- The pause before the next attempt.
  unfoldable pub schedule_retry : Bytes → Failure → ℕ → Exec Session (Unit {0})
  unfolding reserve delay_for emit
  schedule_retry run_id f retry = do
    reserve run_id retry_delay (pos (delay_for (jitter retry) f retry))
    reset
    announce_retry run_id f retry (delay_for (jitter retry) f retry)
    lift (sleep retry (delay_for (jitter retry) f retry))

  -- What follows an attempt: a retryable failure is retried while the context is not done.
  abbrev pub after_attempt : Exec Session Completion → Bytes → ℕ → Attempt → Exec Session Completion
  after_attempt again run_id retry (completed r s) = pure (response r s)
  after_attempt again run_id retry (failed f context_done) =
      if context_done || not (retryable f.class)
      then pure (failure f)
      else (schedule_retry run_id f retry >>= λ _. again)
  after_attempt again run_id retry (broken e) = pure (stopped e)

  -- The loop of `completeWithRetry`: `left` is 8 less the number of retries made, so `retry >= 8` is `left = 0`.
  unfoldable pub complete_from : (left retry : ℕ) → Bytes → Exec Session Completion
  unfolding reserve retryable schedule_retry
  complete_from zero retry run_id = do
    reserve run_id transport_attempt (pos 0)
    a ← attempt retry
    last_attempt a
  complete_from (suc left) retry run_id =
      let again = complete_from left (retry + 1) run_id in
      (do
        reserve run_id transport_attempt (pos 0)
        a ← attempt retry
        after_attempt again run_id retry a)

  -- `completeWithRetry`.
  unfoldable pub complete_with_retry : Bytes → Exec Session Completion
  unfolding complete_from
  complete_with_retry run_id = complete_from 8 0 run_id

-- `failureCause`, of an error that is no failure of the provider.
unfoldable pub cause_of_error : Err → FailureCause
cause_of_error budget_exhausted = Transcript.cause_budget_exhausted
cause_of_error context_window_exceeded = Transcript.context_limit
cause_of_error _ = Transcript.engine_invariant

-- `failureCause`, of a failure of the provider.
unfoldable pub cause_of_failure : FailureClass → FailureCause
cause_of_failure permanent = Transcript.provider_permanent
cause_of_failure protocol = Transcript.provider_protocol
cause_of_failure context_overflow = Transcript.context_limit
cause_of_failure output_limit = Transcript.provider_output_limit
cause_of_failure rate_limit = Transcript.provider_transient_exhausted
cause_of_failure transient = Transcript.provider_transient_exhausted
cause_of_failure overloaded = Transcript.provider_transient_exhausted
cause_of_failure cancelled = Transcript.engine_invariant
