-- ===== src/Store/Budgets.antt =====
-- The durable budgets of runs: `ReserveBudget` of internal/store/store.go.
use coragent.Base.{
  ℕ, ◌+◌, ◌≤◌, ◌≡◌, some, List, Bytes, arith, same, if◌then◌else◌, sym, ◌∙◌, subst, ltb, Bool-cases,
  inl, inr,
}
use mathlib.Core.Option.{some-injective}
use coragent.Base.Int.{ℤ, pos, negsuc, leb_ℤ, ◌≤ℤ◌, ◌+ℤ◌, +ℤ_parts, -ℤ_parts}
use coragent.Base.Dict.{Dict, get, put, get-put}
use coragent.Errors.{ok, err, budget_exhausted}
use coragent.Store.{Store, RunBudget}
use coragent.Store.Session.{
  begun, reserved, BudgetCounter, logical_model_call, transport_attempt, retry_delay,
  unknown_counter_name, max_logical_model_calls, max_transport_attempts, max_retry_delay,
}
use coragent.Store.Manifests.{performs, performs_keeps}
use coragent.Store.Crash.{Call}

-- The limits of a run.
pub record IsWithin (b : RunBudget) : Type 0 where
  pub calls : b.logical_model_calls ≤ max_logical_model_calls
  pub attempts : b.transport_attempts ≤ max_transport_attempts
  pub delay : b.retry_delay ≤ℤ max_retry_delay

-- The budget `b'` is no smaller than `b`.
pub record Grows (b b' : RunBudget) : Type 0 where
  pub calls : b.logical_model_calls ≤ b'.logical_model_calls
  pub attempts : b.transport_attempts ≤ b'.transport_attempts
  pub delay : b.retry_delay ≤ℤ b'.retry_delay

reserved-IsWithin :
    (b b' : RunBudget) (counter : BudgetCounter) (amount : ℤ)
    → reserved b counter amount ≡ ok b'
    → IsWithin b
    → IsWithin b' × Grows b b'
unfolding reserved
reserved-IsWithin b b' logical_model_call amount h w = ground arith
reserved-IsWithin b b' transport_attempt amount h w = ground arith
reserved-IsWithin b b' retry_delay amount h w =
    ground (arith, +ℤ_parts b.retry_delay amount, -ℤ_parts max_retry_delay amount)
reserved-IsWithin b b' (unknown_counter_name c) amount h w = cc

-- Every run is within its limits.
abbrev pub AllWithin : Dict RunBudget → Type 0
AllWithin m = (k : Bytes) (b : RunBudget) → get m k ≡ some b → IsWithin b

AllWithin-put :
    (m : Dict RunBudget) (k : Bytes) (b : RunBudget)
    → AllWithin m
    → IsWithin b
    → AllWithin (put m k b)
AllWithin-put m k b h w j c e =
    let f : (if same k j then some b else get m j) ≡ some c = sym (get-put m k j b) ∙ e in
    elim (Bool-cases (same k j)) [
      | inl here ↦ subst IsWithin (some-injective b c (rw here at f)) w
      | inr there ↦ h j c (rw there at f)
    ]

abbrev fresh_budget : RunBudget
fresh_budget = record { logical_model_calls = 0; transport_attempts = 0; retry_delay = pos 0 }

-- In every sequence of calls, returning or failing, from a session whose budgets are within the limits, every run
-- stays within 64 model calls, 96 transport attempts and ten minutes of retry delay.
pub performs-AllWithin :
    (cs : List Call) (s : Store)
    → AllWithin s.manifest.budgets
    → AllWithin (performs cs s).manifest.budgets
performs-AllWithin =
    performs_keeps (λ budgets _ _. AllWithin budgets)
      (λ c now m w. unfold begun in AllWithin-put m.budgets _ fresh_budget w (omega arith))
      (λ c m w. w)
      (λ r k a b b' m e f w.
        AllWithin-put m.budgets r b' w (reserved-IsWithin b b' k a f (w r b e)).0)

-- A reservation is refused exactly when it would pass a limit, or is a negative delay; an accepted one raises its own
-- counter, by one or by the delay, and no other.
pub reserved_exact :
    (b : RunBudget) (n : ℕ)
    → (reserved b logical_model_call (pos n) ≡ (
        if ltb b.logical_model_calls 64
        then ok (record b { logical_model_calls = b.logical_model_calls + 1 })
        else err budget_exhausted))
      × (reserved b transport_attempt (pos n) ≡ (
          if ltb b.transport_attempts 96
          then ok (record b { transport_attempts = b.transport_attempts + 1 })
          else err budget_exhausted))
      × (reserved b retry_delay (pos n) ≡ (
          if leb_ℤ (b.retry_delay +ℤ pos n) max_retry_delay
          then ok (record b { retry_delay = b.retry_delay +ℤ pos n })
          else err budget_exhausted))
      × (reserved b retry_delay (negsuc n) ≡ err budget_exhausted)
unfolding reserved
reserved_exact b n = (
  ground arith,
  ground arith,
  ground (arith, +ℤ_parts b.retry_delay (pos n), -ℤ_parts max_retry_delay (pos n)),
  ground arith,
)
