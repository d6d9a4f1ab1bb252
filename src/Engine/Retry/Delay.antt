-- ===== src/Engine/Retry/Delay.antt =====
-- `retryDelay` in closed form.
use coragent.Base.{ℕ, zero, suc, ◌*◌, ◌^◌, ◌≤◌, ◌≡◌, arith, leb, if◌then◌else◌}
use native.Mathlib.Omega.{pow_step}
use native.Mathlib.Nat.{mul_assoc}
use coragent.Engine.Retry.{first_delay, longest_delay, delay_from, retry_delay_of}

doubled : (rounds delay : ℕ) → delay * 2 * 2 ^ rounds ≡ delay * 2 ^ suc rounds
doubled rounds delay = rw (pow_step 2 rounds) (mul_assoc delay 2 (2 ^ rounds))

grown : (rounds delay : ℕ) → delay ≤ delay * 2 ^ rounds
grown zero delay = omega arith
grown (suc rounds) delay = omega (arith, grown rounds (delay * 2), doubled rounds delay)

delay_from-min :
    (rounds delay : ℕ)
    → delay_from rounds delay
      ≡ (if leb (delay * 2 ^ rounds) longest_delay then delay * 2 ^ rounds else longest_delay)
unfolding delay_from
delay_from-min zero delay = ground arith
delay_from-min (suc rounds) delay =
    ground
      (arith, delay_from-min rounds (delay * 2), doubled rounds delay, grown rounds (delay * 2))

-- The delay of a retry doubles from half a second, up to thirty seconds.
pub retry_delay_of-min :
    (retry : ℕ)
    → retry_delay_of retry
      ≡ (if leb (500000000 * 2 ^ retry) 30000000000 then 500000000 * 2 ^ retry else 30000000000)
unfolding retry_delay_of
retry_delay_of-min retry = delay_from-min retry first_delay
