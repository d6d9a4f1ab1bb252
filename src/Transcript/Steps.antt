-- ===== src/Transcript/Steps.antt =====
-- What one accepted record does to the maps of `toolPairs`, and to the list of open calls.
use coragent.Base.{
  ℕ, Bool, true, false, ◌≡◌, refl, ◌⊎◌, inl, inr, none, List, [], ◌∷◌, Bytes, arith, is_some, ap,
  subst, sym, ◌∙◌, ◌≢◌, same_iff,
}
use coragent.Base.Dict.{Dict, get, put, get-put}
use coragent.Errors.{Result, ok, ◌>>=◌, >>=-eq-ok}
use coragent.Transcript.{
  Kind, tool_call, tool_result, run_outcome, Payload, call, result, ToolCallPayload, Record,
  decode_payload, empty_object, text, outcome, instructions, malformed, invalid,
}
use coragent.Transcript.Validate.{Pairs, add_call, add_result, add_record, open_call, open_from}

abbrev pub is_tool_call : Kind → Bool
is_tool_call tool_call = true
is_tool_call _ = false

-- The record is a call with an ID that no earlier call has.
pub record CallStep (p : Pairs) (r : Record) (q : Pairs) : Type 0 where
  pub payload : ToolCallPayload
  pub kind : r.kind ≡ tool_call
  pub decoded : decode_payload r.kind r.payload ≡ ok (call payload)
  pub fresh : get p.calls payload.call_id ≡ none
  pub calls : q.calls ≡ put p.calls payload.call_id r.seq
  pub call_runs : q.call_runs ≡ put p.call_runs payload.call_id r.run_id
  pub results : q.results ≡ p.results

-- The record is no call; a result may have been added.
pub record OtherStep (p : Pairs) (r : Record) (q : Pairs) : Type 0 where
  pub kind : is_tool_call r.kind ≡ false
  pub calls : q.calls ≡ p.calls
  pub call_runs : q.call_runs ≡ p.call_runs

-- A document decodes to the struct of its kind.
decoded_call :
    (raw : Payload) {d : Payload}
    → decode_payload tool_call raw ≡ ok d
    → (c : ToolCallPayload) × (d ≡ call c)
unfolding decode_payload
decoded_call (call c) h = (c, cc)
decoded_call empty_object h = (record { call_id = []; name = []; arguments = invalid [] }, cc)
decoded_call (text t) h = cc
decoded_call (result t) h = cc
decoded_call (outcome t) h = cc
decoded_call (instructions t) h = cc
decoded_call malformed h = cc

add_call-CallStep :
    (p q : Pairs) (r : Record) (c : ToolCallPayload)
    → r.kind ≡ tool_call
    → decode_payload r.kind r.payload ≡ ok (call c)
    → add_call p r (call c) ≡ ok q
    → CallStep p r q
unfolding add_call
add_call-CallStep p q r c k e h = record {
  payload = c;
  kind = k;
  decoded = e;
  fresh = ground arith;
  calls = ground arith;
  call_runs = ground arith;
  results = ground arith;
}

tool_call_step :
    (p q : Pairs) (r : Record)
    → r.kind ≡ tool_call
    → (decode_payload r.kind r.payload >>= add_call p r) ≡ ok q
    → CallStep p r q
tool_call_step p q r k h =
    let (d, e, a) = >>=-eq-ok (decode_payload r.kind r.payload) (add_call p r) h in
    let (c, f) =
      decoded_call r.payload {d = d} (subst (λ z. decode_payload z r.payload ≡ ok d) k e) in
    add_call-CallStep p q r c k (rw e (ap ok f)) (rw (← f) a)

tool_result_step :
    (p q : Pairs) (r : Record) (d : Payload)
    → add_result p r d ≡ ok q
    → (q.calls ≡ p.calls) × (q.call_runs ≡ p.call_runs)
unfolding add_result
tool_result_step p q r (result t) h = ground arith
tool_result_step p q r _ h = ground arith

pub add_record-tool_call :
    (p : Pairs) (r : Record)
    → r.kind ≡ tool_call
    → add_record p r ≡ (decode_payload r.kind r.payload >>= add_call p r)
unfolding add_record
add_record-tool_call p r k = ground arith

pub add_record-tool_result :
    (p : Pairs) (r : Record)
    → r.kind ≡ tool_result
    → add_record p r ≡ (decode_payload r.kind r.payload >>= add_result p r)
unfolding add_record
add_record-tool_result p r k = ground arith

result_step :
    (p q : Pairs) (r : Record)
    → r.kind ≡ tool_result
    → (decode_payload r.kind r.payload >>= add_result p r) ≡ ok q
    → OtherStep p r q
result_step p q r k h =
    let (d, e, a) = >>=-eq-ok (decode_payload r.kind r.payload) (add_result p r) h in
    let (same_calls, same_runs) = tool_result_step p q r d a in
    record { kind = ground arith; calls = same_calls; call_runs = same_runs }

other_step :
    (p q : Pairs) (r : Record)
    → is_tool_call r.kind ≡ false
    → r.kind ≢ tool_result
    → add_record p r ≡ ok q
    → OtherStep p r q
unfolding add_record
other_step p q r k n h = ground arith

pub step_cases :
    (p q : Pairs) (r : Record) → add_record p r ≡ ok q → CallStep p r q ⊎ OtherStep p r q
step_cases p q r h = by_kind r.kind refl
  where
    by_kind : (k : Kind) → r.kind ≡ k → CallStep p r q ⊎ OtherStep p r q
    by_kind tool_call e = inl (tool_call_step p q r e (sym (add_record-tool_call p r e) ∙ h))
    by_kind tool_result e = inr (result_step p q r e (sym (add_record-tool_result p r e) ∙ h))
    by_kind run_outcome e = inr (other_step p q r (cc) (λ z. cc) h)
    by_kind _ e = inr (other_step p q r (ground arith) (λ z. cc) h)

-- A call keeps what earlier records put in the maps, and so does every record.
pub calls_kept :
    (p q : Pairs) (r : Record) (k : Bytes)
    → add_record p r ≡ ok q
    → is_some (get p.calls k) ≡ true
    → (is_some (get q.calls k) ≡ true) × (get q.call_runs k ≡ get p.call_runs k)
calls_kept p q r k h known = elim (step_cases p q r h) [
  | inl s ↦
      rw (s.calls, s.call_runs)
        (ground (
          arith,
          s.fresh,
          get-put p.calls s.payload.call_id k r.seq,
          get-put p.call_runs s.payload.call_id k r.run_id,
          same_iff s.payload.call_id k,
        ))
  | inr s ↦ rw (s.calls, s.call_runs) (known, refl)
]

-- What a record adds to the open calls of the records after it.
pub record OpenStep (results : Dict ℕ) (owned : Bytes → Bool) (r : Record)
    (rest opened : List ToolCallPayload) : Type 0 where
  pub skip : is_tool_call r.kind ≡ false → opened ≡ rest
  pub take :
      (c : ToolCallPayload)
      → r.kind ≡ tool_call
      → decode_payload r.kind r.payload ≡ ok (call c)
      → ((is_some (get results c.call_id) ≡ true) × (opened ≡ rest))
        ⊎ ((is_some (get results c.call_id) ≡ false)
            × (owned r.run_id ≡ true)
            × (opened ≡ c ∷ rest))

abbrev open_head :
    Dict ℕ → (Bytes → Bool) → Record → List ToolCallPayload → Result (List ToolCallPayload)
open_head results owned r rest = elim r.kind [
  | tool_call ↦ decode_payload r.kind r.payload >>= λ p. open_call results owned r.run_id p rest
  | _ ↦ ok rest
]

open_head-OpenStep :
    (results : Dict ℕ) (owned : Bytes → Bool) (r : Record) (rest opened : List ToolCallPayload)
    → open_head results owned r rest ≡ ok opened
    → OpenStep results owned r rest opened
unfolding open_call
open_head-OpenStep results owned r rest opened h = record {
  skip = λ k. ground arith;
  take = λ c k e. ground arith;
}

pub open_from-OpenStep :
    (results : Dict ℕ) (owned : Bytes → Bool) (r : Record) (rs : List Record)
    {opened : List ToolCallPayload}
    → open_from results owned (r ∷ rs) ≡ ok opened
    → (rest : List ToolCallPayload) × (open_from results owned rs ≡ ok rest)
      × OpenStep results owned r rest opened
unfolding open_from
open_from-OpenStep results owned r rs {opened} h =
    let (rest, e, a) = >>=-eq-ok (open_from results owned rs) (open_head results owned r) h in
    (rest, e, open_head-OpenStep results owned r rest opened a)
