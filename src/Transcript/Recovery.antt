-- ===== src/Transcript/Recovery.antt =====
-- Startup recovery of a log: one result for each open call, then the outcome of the run.
use coragent.Base.{
  ℕ, ◌+◌, Bool, true, false, not, ◌||◌, ◌≡◌, refl, inl, inr, List, [], ◌∷◌, ◌++◌, Bytes, blank,
  same, same_iff, arith, is_some, All, subst, length,
}
use coragent.Base.Dict.{Dict, get, put, get-put, Keys}
use coragent.Errors.{ok, ◌>>=◌, ◌>>◌, >>=-eq-ok, Result-cases, require, unpaired_tool_call}
use coragent.Transcript.{
  tool_result, run_outcome, result, ToolCallPayload, ToolResultPayload, Record, decode_payload,
  validate, is_session_closed,
}
use coragent.Transcript.Validate.{
  Pairs, no_pairs, add_result, add_record, pairs_from, tool_pairs, open_from, settled, paired,
  records_from, validate_records, validate_transcript, open_tool_calls_for_run,
}
use coragent.Transcript.Repair.{
  InRun, Unmatched, Distinct, open_from-InRun, open_from-Distinct, open_from-unanswered,
  pairs_from-Keys,
}

-- The record is a result of the call, in the run.
pub record IsAnswer (run : Bytes) (c : ToolCallPayload) (r : Record) : Type 0 where
  pub payload : ToolResultPayload
  pub kind : r.kind ≡ tool_result
  pub owner : r.run_id ≡ run
  pub decoded : decode_payload tool_result r.payload ≡ ok (result payload)
  pub answers : payload.call_id ≡ c.call_id

-- One result for each call, in the same order.
abbrev pub Answers : Bytes → List ToolCallPayload → List Record → Type 0
Answers run [] [] = Unit
Answers run [] (r ∷ rs) = ⊥
Answers run (c ∷ cs) [] = ⊥
Answers run (c ∷ cs) (r ∷ rs) = IsAnswer run c r × Answers run cs rs

module _ {ℓ κ} {A : Type ℓ} {P Q R : A → Type κ} where
  All-zip : (xs : List A) → ((x : A) → P x → Q x → R x) → All P xs → All Q xs → All R xs
  All-zip [] f h k = tt
  All-zip (x ∷ xs) f (h, hs) (k, ks) = (f x h k, All-zip xs f hs ks)

abbrev Answered : Pairs → Bytes → Type 0
Answered p id = is_some (get p.results id) ≡ true

abbrev answer : Pairs → Record → ToolCallPayload → Pairs
answer p r c = record p { results = put p.results c.call_id r.seq }

add_record-answer :
    (p : Pairs) (run : Bytes) (c : ToolCallPayload) (r : Record)
    → IsAnswer run c r
    → InRun p run c.call_id
    → is_some (get p.results c.call_id) ≡ false
    → add_record p r ≡ ok (answer p r c)
unfolding add_record add_result
add_record-answer p run c r a h u = ground (arith, same_iff run run)

-- The results of the calls are all accepted, and add nothing else.
record Closed (p : Pairs) (cs : List ToolCallPayload) (rs : List Record) : Type 0 where
  final : Pairs
  accepted : pairs_from p rs ≡ ok final
  calls : final.calls ≡ p.calls
  call_runs : final.call_runs ≡ p.call_runs
  kept : (id : Bytes) → Answered p id → Answered final id
  closed : All (λ c. Answered final c.call_id) cs

closing_results :
    (run : Bytes) (p : Pairs) (cs : List ToolCallPayload) (rs : List Record)
    → Answers run cs rs
    → All (λ c. InRun p run c.call_id) cs
    → All (λ c. is_some (get p.results c.call_id) ≡ false) cs
    → Distinct cs
    → Closed p cs rs
unfolding pairs_from
closing_results run p [] [] a i u d = record {
  final = p;
  accepted = refl;
  calls = refl;
  call_runs = refl;
  kept = λ id h. h;
  closed = tt;
}
closing_results run p [] (r ∷ rs) a i u d = elim a [ ]
closing_results run p (c ∷ cs) [] a i u d = elim a [ ]
closing_results run p (c ∷ cs) (r ∷ rs) (a, later) (i, is) (u, us) (d, ds) =
    let m = answer p r c in
    let got = λ (id : Bytes). get-put p.results c.call_id id r.seq in
    let still : All (λ e. is_some (get m.results e.call_id) ≡ false) cs =
      All-zip {P = λ e. is_some (get p.results e.call_id) ≡ false} {Q = Unmatched c.call_id} cs
        (λ e o n. ground (arith, got e.call_id)) us d in
    let rest : Closed m cs rs = closing_results run m cs rs later is still ds in
    record {
      final = rest.final;
      accepted = rw (add_record-answer p run c r a i u) rest.accepted;
      calls = rest.calls;
      call_runs = rest.call_runs;
      kept = λ id h. rest.kept id (ground (arith, got id, h));
      closed = (
        rest.kept c.call_id (ground (arith, got c.call_id, same_iff c.call_id c.call_id)),
        rest.closed,
      );
    }

-- Whether a closing record stands in the log.
abbrev pub closed_after : Bool → List Record → Bool
closed_after c [] = c
closed_after c (r ∷ rs) = closed_after (c || is_session_closed r.kind) rs

-- What `ValidateRecords` checks of a record at its place.
pub record Checked (n : ℕ) (c : Bool) (r : Record) : Type 0 where
  pub place : r.seq ≡ n
  pub valid : validate r ≡ ok tt
  pub open_log : c ≡ false

pub records_from-cons :
    (n : ℕ) (c : Bool) (r : Record) (rs : List Record)
    → records_from n c (r ∷ rs) ≡ ok tt
    → Checked n c r × (records_from (n + 1) (c || is_session_closed r.kind) rs ≡ ok tt)
unfolding records_from
records_from-cons n c r rs h =
    (record { place = ground arith; valid = ground arith; open_log = ground arith }, ground arith)

pub records_from-accept :
    (n : ℕ) (c : Bool) (r : Record) (rs : List Record)
    → Checked n c r
    → records_from (n + 1) (c || is_session_closed r.kind) rs ≡ ok tt
    → records_from n c (r ∷ rs) ≡ ok tt
unfolding records_from
records_from-accept n c r rs h k = ground arith

pub records_from-append :
    (n : ℕ) (c : Bool) (xs ys : List Record)
    → records_from n c xs ≡ ok tt
    → records_from (n + length xs) (closed_after c xs) ys ≡ ok tt
    → records_from n c (xs ++ ys) ≡ ok tt
unfolding records_from
records_from-append n c [] ys h k = subst (λ m. records_from m c ys ≡ ok tt) (omega arith) k
records_from-append n c (x ∷ xs) ys h k =
    let (checked, a) = records_from-cons n c x xs h in
    records_from-accept n c x (xs ++ ys) checked (
      records_from-append (n + 1) (c || is_session_closed x.kind) xs ys a (
        subst (λ m. records_from m (closed_after (c || is_session_closed x.kind) xs) ys ≡ ok tt)
          (omega arith) k))

pub pairs_from-append :
    (p : Pairs) (xs ys : List Record)
    → pairs_from p (xs ++ ys) ≡ (pairs_from p xs >>= λ q. pairs_from q ys)
unfolding pairs_from
pairs_from-append p [] ys = refl
pairs_from-append p (x ∷ xs) ys = elim (Result-cases (add_record p x)) [
  | inl f ↦ rw f.1
  | inr f ↦ rw f.1 (pairs_from-append f.0 xs ys)
]

settled_lem :
    (runs : Dict Bytes) (results : Dict ℕ) (run : Bytes)
    → Keys (λ id. is_some (get results id) ≡ true) runs
    → settled runs results run ≡ true
unfolding settled
settled_lem [] results run h = refl
settled_lem ((id, owner) ∷ rest) results run (h, hs) =
    ground (arith, settled_lem rest results run hs)

paired_lem :
    (calls : Dict ℕ) (results : Dict ℕ)
    → Keys (λ id. is_some (get results id) ≡ true) calls
    → paired calls results ≡ true
unfolding paired
paired_lem [] results h = refl
paired_lem ((id, seq) ∷ rest) results (h, hs) = ground (arith, paired_lem rest results hs)

-- The two passes of `ValidateRecords`.
pub validate_records-passes :
    (rs : List Record)
    → validate_records rs ≡ ok tt
    → (p : Pairs) × (records_from 1 false rs ≡ ok tt) × (tool_pairs rs ≡ ok p)
unfolding validate_records
validate_records-passes rs h =
    let (_, e, a) = >>=-eq-ok (records_from 1 false rs) (λ _. tool_pairs rs >>= λ _. ok tt) h in
    let (p, f, _) = >>=-eq-ok (tool_pairs rs) (λ _. ok tt) a in (p, e, f)

pub validate_records_of :
    (rs : List Record) {p : Pairs}
    → records_from 1 false rs ≡ ok tt
    → tool_pairs rs ≡ ok p
    → validate_records rs ≡ ok tt
validate_records_of rs h k = unfold validate_records in rw (h, k)

add_record-outcome :
    (p : Pairs) (r : Record)
    → r.kind ≡ run_outcome
    → settled p.call_runs p.results r.run_id ≡ true
    → add_record p r ≡ ok p
unfolding add_record
add_record-outcome p r k h = ground arith

-- The parts of an accepted search for the open calls of a run.
open_tool_calls_for_run-parts :
    (rs : List Record) (run : Bytes) {cs : List ToolCallPayload}
    → open_tool_calls_for_run rs run ≡ ok cs
    → (p : Pairs) × (records_from 1 false rs ≡ ok tt)
      × (tool_pairs rs ≡ ok p)
      × (open_from p.results (λ r. same r run) rs ≡ ok cs)
unfolding open_tool_calls_for_run
open_tool_calls_for_run-parts rs run {cs} h =
    let found = λ (p : Pairs). open_from p.results (λ r. same r run) rs in
    let (_, _, v) =
      >>=-eq-ok (require (not (blank run)) unpaired_tool_call)
        (λ _. validate_records rs >> (tool_pairs rs >>= found)) h in
    let (_, e, w) = >>=-eq-ok (validate_records rs) (λ _. tool_pairs rs >>= found) v in
    let (p, f, o) = >>=-eq-ok (tool_pairs rs) found w in (p, (validate_records-passes rs e).1, f, o)

-- Recovery's records are accepted after the log, and settle every call of it.
all_answered :
    (rs : List Record) (run : Bytes) {p : Pairs} {cs : List ToolCallPayload} (answers : List Record)
    → tool_pairs rs ≡ ok p
    → open_from p.results (λ r. same r run) rs ≡ ok cs
    → Answers run cs answers
    → (q : Pairs) × (pairs_from p answers ≡ ok q)
      × Keys (λ id. is_some (get q.results id) ≡ true) q.calls
      × Keys (λ id. is_some (get q.results id) ≡ true) q.call_runs
all_answered rs run {p} {cs} answers t o a =
    let owned = λ (r : Bytes). same r run in
    let c : Closed p cs answers =
      closing_results run p cs answers a
        (open_from-InRun p.results owned run (λ r. (same_iff r run).0) no_pairs p rs t o)
        (open_from-unanswered p.results owned no_pairs p rs t o)
        (open_from-Distinct p.results owned no_pairs p rs t o) in
    let keys =
      pairs_from-Keys p.results owned (Answered c.final) c.kept no_pairs p rs t o c.closed
        (tt, tt) in
    (c.final, c.accepted, rw c.calls keys.0, rw c.call_runs keys.1)

-- Let a log hold no close fact, and let `OpenToolCallsForRun` return the open calls of a run. Append one
-- result in that run for each of them, in order, and then an outcome of a run, such that the new
-- records are valid and numbered on from the log. Then `ValidateTranscript` accepts the whole.
pub repair :
    (rs : List Record) (run : Bytes) {cs : List ToolCallPayload}
    → open_tool_calls_for_run rs run ≡ ok cs
    → closed_after false rs ≡ false
    → (answers : List Record) (outcome : Record) → Answers run cs answers
    → outcome.kind ≡ run_outcome
    → records_from (1 + length rs) false (answers ++ outcome ∷ []) ≡ ok tt
    → validate_transcript (rs ++ (answers ++ outcome ∷ [])) ≡ ok tt
repair rs run {cs} o nc answers outcome a k numbered =
    let (p, e, t, found) = open_tool_calls_for_run-parts rs run o in
    let (q, accepted, calls, runs) = all_answered rs run answers t found a in
    let end =
      add_record-outcome q outcome k (settled_lem q.call_runs q.results outcome.run_id runs) in
    let pairs : tool_pairs (rs ++ (answers ++ outcome ∷ [])) ≡ ok q =
      rw (pairs_from-append no_pairs rs, t)
        (rw (pairs_from-append p answers, accepted) (unfold pairs_from in rw end)) in
    let records : records_from 1 false (rs ++ (answers ++ outcome ∷ [])) ≡ ok tt =
      records_from-append 1 false rs (answers ++ outcome ∷ []) e (rw nc numbered) in
    unfold validate_transcript in
    rw (validate_records_of _ records pairs, pairs, paired_lem q.calls q.results calls)
