-- ===== src/Transcript/Pairing.antt =====
-- What an accepted log promises: calls and results counted record by record, with no map.
use coragent.Base.{
  ℕ, ◌+◌, ◌≤◌, Bool, true, false, ◌||◌, ◌≡◌, refl, Option, none, some, List, [], ◌∷◌, ◌++◌, Bytes,
  same, same_iff, arith, if◌then◌else◌, sym, ◌∙◌, subst, length, ◌≢◌,
}
use coragent.Base.Dict.{Dict, get, get-put}
use coragent.Errors.{Result, ok, ◌>>=◌, >>=-eq-ok, require, require-eq-ok, unpaired_tool_call}
use coragent.Transcript.{
  Kind, tool_call, tool_result, run_outcome, call, result, Payload, Record, decode_payload,
  validate, is_session_closed,
}
use coragent.Transcript.Validate.{
  Pairs, no_pairs, add_call, add_result, add_record, pairs_from, tool_pairs, paired, records_from,
  validate_records, validate_transcript,
}
use coragent.Transcript.Steps.{add_record-tool_call, add_record-tool_result}
use coragent.Transcript.Recovery.{
  closed_after, Checked, records_from-cons, records_from-accept, pairs_from-append,
  validate_records-passes, validate_records_of,
}

abbrev call_has : Bytes → Result Payload → ℕ
call_has id (ok (call c)) = if same c.call_id id then 1 else 0
call_has id _ = 0

abbrev result_has : Bytes → Result Payload → ℕ
result_has id (ok (result t)) = if same t.call_id id then 1 else 0
result_has id _ = 0

-- 1 if the record is a tool call with this ID.
abbrev is_call : Bytes → Record → ℕ
is_call id r = elim r.kind [ tool_call ↦ call_has id (decode_payload tool_call r.payload) | _ ↦ 0 ]

-- 1 if the record is a tool result for this ID.
abbrev is_result : Bytes → Record → ℕ
is_result id r = elim r.kind [
  | tool_result ↦ result_has id (decode_payload tool_result r.payload)
  | _ ↦ 0
]

unfoldable pub count_calls : Bytes → List Record → ℕ
count_calls id [] = 0
count_calls id (r ∷ rs) = is_call id r + count_calls id rs

unfoldable pub count_results : Bytes → List Record → ℕ
count_results id [] = 0
count_results id (r ∷ rs) = is_result id r + count_results id rs

abbrev bit : {A : Type 0} → Option A → ℕ
bit none = 0
bit (some a) = 1

bit-le-one : {A : Type 0} (o : Option A) → bit o ≤ 1
bit-le-one none = omega arith
bit-le-one (some a) = omega arith

-- Every answered call is recorded.
abbrev Tied : Pairs → Bytes → Type 0
Tied p id = bit (get p.results id) ≤ bit (get p.calls id)

module _ (id : Bytes) where
  -- How an accepted step moves the two maps at an ID.
  abbrev Moves : Pairs → Pairs → ℕ → ℕ → Type 0
  Moves p q n k =
      (bit (get q.calls id) ≡ bit (get p.calls id) + n)
      × (bit (get q.results id) ≡ bit (get p.results id) + k)
      × (Tied p id → Tied q id)

  add_call-Moves :
      (p q : Pairs) (r : Record) (d : Payload)
      → add_call p r d ≡ ok q
      → Moves p q (call_has id (ok d)) 0
  unfolding add_call
  add_call-Moves p q r (call c) h =
      ground (arith, get-put p.calls c.call_id id r.seq, same_iff c.call_id id)
  add_call-Moves p q r _ h = ground arith

  add_result-Moves :
      (p q : Pairs) (r : Record) (d : Payload)
      → add_result p r d ≡ ok q
      → Moves p q 0 (result_has id (ok d))
  unfolding add_result
  add_result-Moves p q r (result t) h =
      ground (arith, get-put p.results t.call_id id r.seq, same_iff t.call_id id)
  add_result-Moves p q r _ h = ground arith

  decoded-Moves :
      (p q : Pairs) (r : Record) → add_record p r ≡ ok q → Moves p q (is_call id r) (is_result id r)
  decoded-Moves p q r h = by_kind r.kind refl
    where
      by_kind : (k : Kind) → r.kind ≡ k → Moves p q (is_call id r) (is_result id r)
      by_kind tool_call e =
          let (d, f, a) =
            >>=-eq-ok (decode_payload r.kind r.payload) (add_call p r)
              (sym (add_record-tool_call p r e) ∙ h) in
          let moved = add_call-Moves p q r d a in ground (arith, e, f, moved)
      by_kind tool_result e =
          let (d, f, a) =
            >>=-eq-ok (decode_payload r.kind r.payload) (add_result p r)
              (sym (add_record-tool_result p r e) ∙ h) in
          let moved = add_result-Moves p q r d a in ground (arith, e, f, moved)
      by_kind run_outcome e = unfold add_record in ground arith
      by_kind _ e = unfold add_record in ground arith

  pairs_from-Moves :
      (p q : Pairs) (rs : List Record)
      → pairs_from p rs ≡ ok q
      → Moves p q (count_calls id rs) (count_results id rs)
  unfolding pairs_from count_calls count_results
  pairs_from-Moves p q [] h = ground arith
  pairs_from-Moves p q (r ∷ rs) h =
      let (m, e, a) = >>=-eq-ok (add_record p r) (λ m. pairs_from m rs) h in
      let (c, t, w) = decoded-Moves p m r e in
      let (c', t', w') = pairs_from-Moves m q rs a in (omega arith, omega arith, λ z. w' (w z))

  no_pairs-Moves :
      (q : Pairs) (rs : List Record)
      → tool_pairs rs ≡ ok q
      → (bit (get q.calls id) ≡ count_calls id rs)
        × (bit (get q.results id) ≡ count_results id rs)
        × Tied q id
  unfolding get
  no_pairs-Moves q rs h =
      let (c, t, w) = pairs_from-Moves no_pairs q rs h in
      (omega arith, omega arith, w (omega arith))

  paired-get :
      (calls results : Dict ℕ)
      → paired calls results ≡ true
      → bit (get calls id) ≤ bit (get results id)
  unfolding paired get
  paired-get [] results h = omega arith
  paired-get ((j, s) ∷ rest) results h = ground (arith, same_iff j id, paired-get rest results)

-- If `ValidateTranscript` accepts a log, then for every call ID the log holds as many results as calls, and
-- at most one call.
pub validate_transcript-counts :
    (rs : List Record) (id : Bytes)
    → validate_transcript rs ≡ ok tt
    → (count_results id rs ≡ count_calls id rs) × (count_calls id rs ≤ 1)
unfolding validate_transcript
validate_transcript-counts rs id h =
    let (_, v, a) =
      >>=-eq-ok (validate_records rs)
        (λ _. tool_pairs rs >>= λ p. require (paired p.calls p.results) unpaired_tool_call) h in
    let (p, t, b) =
      >>=-eq-ok (tool_pairs rs) (λ p. require (paired p.calls p.results) unpaired_tool_call) a in
    let all = paired-get id p.calls p.results (require-eq-ok _ _ b) in
    let (c, r, tied) = no_pairs-Moves id p rs t in
    (omega arith, omega (arith, bit-le-one (get p.calls id)))

-- In a log that `ValidateRecords` accepts, every prefix holds at most one call of an ID, and at most as many
-- results as calls: a result follows its call, and is the only one.
pub validate_records-prefix :
    (xs ys : List Record) (id : Bytes)
    → validate_records (xs ++ ys) ≡ ok tt
    → (count_results id xs ≤ count_calls id xs) × (count_calls id xs ≤ 1)
validate_records-prefix xs ys id h =
    let (q, _, t) = validate_records-passes (xs ++ ys) h in
    let (p, e, _) =
      >>=-eq-ok (tool_pairs xs) (λ p. pairs_from p ys)
        (sym (pairs_from-append no_pairs xs ys) ∙ t) in
    let (c, r, tied) = no_pairs-Moves id p xs e in
    (omega arith, omega (arith, bit-le-one (get p.calls id)))

records_from-at :
    (n : ℕ) (c : Bool) (xs : List Record) (r : Record) (ys : List Record)
    → records_from n c (xs ++ r ∷ ys) ≡ ok tt
    → Checked (n + length xs) (closed_after c xs) r
records_from-at n c [] r ys h =
    subst (λ m. Checked m c r) (omega arith) (records_from-cons n c r ys h).0
records_from-at n c (x ∷ xs) r ys h =
    let (_, a) = records_from-cons n c x (xs ++ r ∷ ys) h in
    subst (λ m. Checked m (closed_after c (x ∷ xs)) r) (omega arith)
      (records_from-at (n + 1) (c || is_session_closed x.kind) xs r ys a)

-- In a log that `ValidateRecords` accepts, the record at position n (from 0) has the sequence number n + 1 and is
-- valid by itself, and no record before it closes the session.
pub validate_records-at :
    (xs : List Record) (r : Record) (ys : List Record)
    → validate_records (xs ++ r ∷ ys) ≡ ok tt
    → (r.seq ≡ length xs + 1) × (validate r ≡ ok tt) × (closed_after false xs ≡ false)
validate_records-at xs r ys h =
    let (_, e, _) = validate_records-passes (xs ++ r ∷ ys) h in
    let c : Checked (1 + length xs) (closed_after false xs) r = records_from-at 1 false xs r ys e in
    (omega (arith, c.place), c.valid, c.open_log)

records_from-init :
    (n : ℕ) (c : Bool) (xs ys : List Record)
    → records_from n c (xs ++ ys) ≡ ok tt
    → records_from n c xs ≡ ok tt
records_from-init n c [] ys h = unfold records_from in refl
records_from-init n c (x ∷ xs) ys h =
    let (checked, a) = records_from-cons n c x (xs ++ ys) h in
    records_from-accept n c x xs checked
      (records_from-init (n + 1) (c || is_session_closed x.kind) xs ys a)

-- A prefix of an accepted log is accepted.
pub validate_records-init :
    (xs ys : List Record) → validate_records (xs ++ ys) ≡ ok tt → validate_records xs ≡ ok tt
validate_records-init xs ys h =
    let (q, r, t) = validate_records-passes (xs ++ ys) h in
    let (p, e, _) =
      >>=-eq-ok (tool_pairs xs) (λ p. pairs_from p ys)
        (sym (pairs_from-append no_pairs xs ys) ∙ t) in
    validate_records_of xs (records_from-init 1 false xs ys r) e

pub validate-time : (r : Record) → validate r ≡ ok tt → r.time ≢ 0
unfolding validate
validate-time r h = ground arith
