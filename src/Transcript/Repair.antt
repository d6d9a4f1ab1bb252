-- ===== src/Transcript/Repair.antt =====
-- What is known of the open calls of a log that `toolPairs` accepts.
use coragent.Base.{
  ℕ, Bool, true, false, ◌≡◌, ◌⊎◌, inl, inr, some, List, [], ◌∷◌, Bytes, same, same_iff, arith,
  is_some, All, All-map, sym, ◌∙◌, ap, subst,
}
use coragent.Base.Dict.{Dict, get, get-put, Keys, Keys-put}
use coragent.Errors.{ok, >>=-eq-ok, ok-injective}
use coragent.Transcript.{ToolCallPayload, Record}
use coragent.Transcript.Validate.{Pairs, add_record, pairs_from, open_from}
use coragent.Transcript.Steps.{CallStep, step_cases, calls_kept, OpenStep, open_from-OpenStep}

-- The call is recorded, in a run.
abbrev pub InRun : Pairs → Bytes → Bytes → Type 0
InRun p run id = (is_some (get p.calls id) ≡ true) × (get p.call_runs id ≡ some run)

pub pairs_from-kept :
    (p q : Pairs) (rs : List Record) (k : Bytes)
    → pairs_from p rs ≡ ok q
    → is_some (get p.calls k) ≡ true
    → (is_some (get q.calls k) ≡ true) × (get q.call_runs k ≡ get p.call_runs k)
unfolding pairs_from
pairs_from-kept p q [] k h known = ground arith
pairs_from-kept p q (r ∷ rs) k h known =
    let (m, e, a) = >>=-eq-ok (add_record p r) (λ m. pairs_from m rs) h in
    let (here, run) = calls_kept p m r k e known in
    let (there, run') = pairs_from-kept m q rs k a here in (there, run' ∙ run)

-- The record opens a call: the call is new, belongs to an owned run, and has no result.
record Opens (results : Dict ℕ) (owned : Bytes → Bool) (p : Pairs) (r : Record) (m : Pairs)
    (rest opened : List ToolCallPayload) : Type 0 where
  step : CallStep p r m
  unanswered : is_some (get results step.payload.call_id) ≡ false
  owner : owned r.run_id ≡ true
  head : opened ≡ step.payload ∷ rest

abbrev pub Unmatched : Bytes → ToolCallPayload → Type 0
Unmatched k c = same k c.call_id ≡ false

-- Pairwise different IDs.
abbrev pub Distinct : List ToolCallPayload → Type 0
Distinct [] = Unit
Distinct (c ∷ cs) = All (Unmatched c.call_id) cs × Distinct cs

module _ (results : Dict ℕ) (owned : Bytes → Bool) where
  head_cases :
      (p m : Pairs) (r : Record) (rest opened : List ToolCallPayload)
      → add_record p r ≡ ok m
      → OpenStep results owned r rest opened
      → (opened ≡ rest) ⊎ Opens results owned p r m rest opened
  head_cases p m r rest opened e o = elim (step_cases p m r e) [
    | inr s ↦ inl (o.skip s.kind)
    | inl s ↦ elim (o.take s.payload s.kind s.decoded) [
      | inl t ↦ inl t.1
      | inr t ↦ inr (record { step = s; unanswered = t.0; owner = t.1; head = t.2 })
    ]
  ]

  open_from-nil :
      {opened : List ToolCallPayload} → open_from results owned [] ≡ ok opened → [] ≡ opened
  unfolding open_from
  open_from-nil h = cc

  -- A property of the open calls, from what holds where a call is opened.
  module _ (Q : Pairs → ToolCallPayload → Type 0) (q : Pairs)
      (opens : (p m : Pairs) (r : Record) (rs : List Record) (s : CallStep p r m)
        → owned r.run_id ≡ true
        → is_some (get results s.payload.call_id) ≡ false
        → pairs_from m rs ≡ ok q
        → Q p s.payload)
      (back : (p m : Pairs) (r : Record) (c : ToolCallPayload)
        → add_record p r ≡ ok m
        → Q m c
        → Q p c) where
    pub opened_induction :
        (p : Pairs) (rs : List Record) {opened : List ToolCallPayload}
        → pairs_from p rs ≡ ok q
        → open_from results owned rs ≡ ok opened
        → All (Q p) opened
    unfolding pairs_from
    opened_induction p [] {opened} h o = subst (All (Q p)) (open_from-nil o) tt
    opened_induction p (r ∷ rs) {opened} h o =
        let (m, e, a) = >>=-eq-ok (add_record p r) (λ m. pairs_from m rs) h in
        let (rest, f, os) = open_from-OpenStep results owned r rs o in
        let later : All (Q p) rest =
          All-map rest (λ c. back p m r c e) (opened_induction m rs a f) in
        elim (head_cases p m r rest opened e os) [
          | inl t ↦ subst (All (Q p)) (sym t) later
          | inr t ↦
              subst (All (Q p)) (sym t.head) (opens p m r rs t.step t.owner t.unanswered a, later)
        ]

  -- No open call of later records has the ID of an earlier call.
  open_from-fresh :
      (p q : Pairs) (rs : List Record) (k : Bytes) {opened : List ToolCallPayload}
      → pairs_from p rs ≡ ok q
      → open_from results owned rs ≡ ok opened
      → is_some (get p.calls k) ≡ true
      → All (Unmatched k) opened
  open_from-fresh p q rs k {opened} h o known =
      All-map opened (λ c f. f known)
        (opened_induction (λ p c. is_some (get p.calls k) ≡ true → Unmatched k c) q
          (λ p m r rs s _ _ _ kn. ground (arith, s.fresh, same_iff k s.payload.call_id))
          (λ p m r c e f kn. f (calls_kept p m r k e kn).0) p rs h o)

  pub open_from-unanswered :
      (p q : Pairs) (rs : List Record) {opened : List ToolCallPayload}
      → pairs_from p rs ≡ ok q
      → open_from results owned rs ≡ ok opened
      → All (λ c. is_some (get results c.call_id) ≡ false) opened
  open_from-unanswered p q rs h o =
      opened_induction (λ p c. is_some (get results c.call_id) ≡ false) q (λ p m r rs s _ u _. u)
        (λ p m r c e f. f) p rs h o

  CallStep-InRun :
      {p m : Pairs} {r : Record} (s : CallStep p r m) → InRun m r.run_id s.payload.call_id
  CallStep-InRun {p} {m} {r} s =
      let id = s.payload.call_id in
      rw (s.calls, s.call_runs)
        (ground
          (arith, get-put p.calls id id r.seq, get-put p.call_runs id id r.run_id, same_iff id id))

  pub open_from-InRun :
      (run : Bytes)
      → ((r : Bytes) → owned r ≡ true → r ≡ run)
      → (p q : Pairs) (rs : List Record) {opened : List ToolCallPayload} → pairs_from p rs ≡ ok q
      → open_from results owned rs ≡ ok opened
      → All (λ c. InRun q run c.call_id) opened
  open_from-InRun run own p q rs h o =
      opened_induction (λ p c. InRun q run c.call_id) q
        (λ p m r rs s w _ a.
          let (known, at) = CallStep-InRun s in
          let (known', at') = pairs_from-kept m q rs s.payload.call_id a known in
          (known', at' ∙ at ∙ ap some (own r.run_id w)))
        (λ p m r c e f. f) p rs h o

  pub open_from-Distinct :
      (p q : Pairs) (rs : List Record) {opened : List ToolCallPayload}
      → pairs_from p rs ≡ ok q
      → open_from results owned rs ≡ ok opened
      → Distinct opened
  unfolding pairs_from
  open_from-Distinct p q [] {opened} h o = subst Distinct (open_from-nil o) tt
  open_from-Distinct p q (r ∷ rs) {opened} h o =
      let (m, e, a) = >>=-eq-ok (add_record p r) (λ m. pairs_from m rs) h in
      let (rest, f, os) = open_from-OpenStep results owned r rs o in
      let later : Distinct rest = open_from-Distinct m q rs a f in
      elim (head_cases p m r rest opened e os) [
        | inl t ↦ subst Distinct (sym t) later
        | inr t ↦
            subst Distinct (sym t.head)
              (open_from-fresh m q rs t.step.payload.call_id a f (CallStep-InRun t.step).0, later)
      ]

  -- Whatever holds of the answered calls and of the open ones holds of every recorded call.
  module _ (P : Bytes → Type 0)
      (answered : (id : Bytes) → is_some (get results id) ≡ true → P id) where
    abbrev KeysOf : Pairs → Type 0
    KeysOf p = Keys P p.calls × Keys P p.call_runs

    CallStep-Keys :
        (p m : Pairs) (r : Record) (s : CallStep p r m) → P s.payload.call_id → KeysOf p → KeysOf m
    CallStep-Keys p m r s here (k, l) =
        let id = s.payload.call_id in
        rw (s.calls, s.call_runs)
          (Keys-put P p.calls id r.seq here k, Keys-put P p.call_runs id r.run_id here l)

    step-Keys :
        (p m : Pairs) (r : Record) (rest opened : List ToolCallPayload)
        → add_record p r ≡ ok m
        → OpenStep results owned r rest opened
        → All (λ c. P c.call_id) opened
        → KeysOf p
        → All (λ c. P c.call_id) rest × (Keys P m.calls × Keys P m.call_runs)
    step-Keys p m r rest opened e o all keys = elim (step_cases p m r e) [
      | inr s ↦ (subst (All (λ c. P c.call_id)) (o.skip s.kind) all, rw (s.calls, s.call_runs) keys)
      | inl s ↦ elim (o.take s.payload s.kind s.decoded) [
        | inl t ↦
            (subst (All (λ c. P c.call_id)) t.1 all, CallStep-Keys p m r s (answered _ t.0) keys)
        | inr t ↦
            let (here, later) = subst (All (λ c. P c.call_id)) t.2 all in
            (later, CallStep-Keys p m r s here keys)
      ]
    ]

    pub pairs_from-Keys :
        (p q : Pairs) (rs : List Record) {opened : List ToolCallPayload}
        → pairs_from p rs ≡ ok q
        → open_from results owned rs ≡ ok opened
        → All (λ c. P c.call_id) opened
        → KeysOf p
        → KeysOf q
    unfolding pairs_from
    pairs_from-Keys p q [] h o all keys = subst KeysOf (ok-injective h) keys
    pairs_from-Keys p q (r ∷ rs) {opened} h o all keys =
        let (m, e, a) = >>=-eq-ok (add_record p r) (λ m. pairs_from m rs) h in
        let (rest, f, os) = open_from-OpenStep results owned r rs o in
        let (all', keys') = step-Keys p m r rest opened e os all keys in
        pairs_from-Keys m q rs a f all' keys'
