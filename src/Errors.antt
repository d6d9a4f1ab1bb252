-- ===== src/Errors.antt =====
-- The sentinel errors of internal/transcript, internal/event, internal/store and internal/engine, and
-- the results of fallible code. Message texts are not modelled: callers only test `errors.Is`.
use coragent.Base.{◌≡◌, refl, ◌⊎◌, inl, inr, Bool, true, false}

pub data Err : Type 0 where
  -- internal/transcript
  unknown_record_kind invalid_record decode_failure marshal_failure : Err
  record_sequence unpaired_tool_call duplicate_tool_result duplicate_tool_call : Err
  orphan_tool_result tool_run_mismatch terminal_with_open_call : Err
  duplicate_session_close records_after_close : Err
  -- internal/event
  unknown_event_kind invalid_event : Err
  -- internal/store
  exists not_found unsupported_format corrupt duplicate_command session_closed : Err
  budget_exhausted active_run_exists unknown_counter invalid_session_id io_failure : Err
  close_active_session : Err
  -- internal/engine
  run_active session_mismatch session_faulted sensitive_prompt invalid_command : Err
  unsupported_command invalid_tool_call context_done instructions_failed : Err
  missing_session_id inconsistent_close : Err
  -- internal/prompt
  context_window_exceeded missing_limits unreadable_instruction : Err
  -- internal/settings
  unreadable_settings settings_authority incomplete_settings : Err
  -- internal/engine/engine.go
  incomplete_engine binding_mismatch no_session_id : Err
  -- internal/action
  invalid_tool : Err

-- The pair of a value and an `error`, of which Go code uses one.
pub data Result {ℓ} (A : Type ℓ) : Type ℓ where
  err : (e : Err) → Result A
  ok : (value : A) → Result A

infixl 5 ◌>>◌
module _ {ℓ κ} {A : Type ℓ} {B : Type κ} where
  infixl 5 ◌>>=◌
  -- `if err != nil { return err }` between two calls.
  abbrev pub ◌>>=◌ : Result A → (A → Result B) → Result B
  ◌>>=◌ (err e) next = err e
  ◌>>=◌ (ok value) next = next value

  -- The parts of a successful sequence.
  pub >>=-eq-ok :
      (r : Result A) (next : A → Result B) {b : B}
      → (r >>= next) ≡ ok b
      → (value : A) × (r ≡ ok value) × (next value ≡ ok b)
  >>=-eq-ok (err e) next h = cc
  >>=-eq-ok (ok value) next h = (value, refl, h)

abbrev pub ◌>>◌ {ℓ} : {B : Type ℓ} → Result (Unit {0}) → Result B → Result B
◌>>◌ check rest = check >>= λ done. rest

-- `if !b { return e }`
abbrev pub require : Bool → Err → Result (Unit {0})
require b e = elim b [ false ↦ err e | true ↦ ok tt ]

pub require-eq-ok : (b : Bool) (e : Err) → require b e ≡ ok tt → b ≡ true
require-eq-ok false e h = cc
require-eq-ok true e h = refl

pub ok-injective {ℓ} : {A : Type ℓ} {a b : A} → ok a ≡ ok b → a ≡ b
ok-injective h = cc

pub Result-cases {ℓ} :
    {A : Type ℓ} (m : Result A) → ((e : Err) × (m ≡ err e)) ⊎ ((a : A) × (m ≡ ok a))
Result-cases (ok a) = inr (a, refl)
Result-cases (err e) = inl (e, refl)
