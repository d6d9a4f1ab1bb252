-- ===== src/Engine/Budget.antt =====
-- The model calls that a run has reserved, in internal/engine/session.go: what the steps of a run do to their number.
use coragent.Base.{
  ℕ, ◌+◌, ◌<◌, ◌≡◌, refl, ap, ◌∙◌, ◌⊎◌, inl, inr, none, some, Option-cases, List, [], ◌∷◌, ◌++◌,
  length, Bytes, arith, same_refl,
}
use coragent.Base.Int.{ℤ}
use coragent.Base.Dict.{Dict, get, put, get-put}
use coragent.Errors.{Err, Result, ok, err, Result-cases, corrupt}
use coragent.Exec.{Exec}
use coragent.Exec
use coragent.Transcript.{Record, Kind, Payload, new_record, ToolCallPayload, tool_call, call}
use coragent.Event.{EventKind, EventPayload, new_event}
use coragent.Store.{Store, RunBudget}
use coragent.Store.Session.{
  append_transcript, append_event, BudgetCounter, reserved, reserve_budget, logical_model_call,
  transport_attempt, retry_delay, unknown_counter_name,
}
use coragent.Store.Manifests.{append_event-Same, append_transcript-Same}
use coragent.Store.Files.{write_manifest, write_manifest-Replaced}
use coragent.Engine.{Session}
use coragent.Engine.Facts.{
  durably, append_records, append_payload, read_clock, persist_event, emit, publish_event, numbered,
  call_records, append_tool_calls,
}
use coragent.Engine.Retry.{budget_or_zero, counted, reserve}

-- The budgets of the session: those on disk, or in memory.
abbrev pub budgets_of : Session → Dict RunBudget
budgets_of s = elim s.durable [ none ↦ s.memory_budget | some d ↦ d.manifest.budgets ]

abbrev calls_in : Dict RunBudget → Bytes → ℕ
calls_in budgets run_id = (budget_or_zero (get budgets run_id)).logical_model_calls

-- The model calls that a run has reserved.
unfoldable pub used : Bytes → Session → ℕ
used run_id s = calls_in (budgets_of s) run_id

-- A step leaves this number.
abbrev pub Keeps : {X : Type 0} → Bytes → (Session → X × Session) → Type 0
Keeps run_id op = (s : Session) → used run_id (op s).1 ≡ used run_id s

module _ (run_id : Bytes) where
  pub Keeps->>= :
      {A B : Type 0} (m : Exec Session A) (f : A → Exec Session B)
      → Keeps run_id m
      → ((a : A) → Keeps run_id (f a))
      → Keeps run_id (Exec.◌>>=◌ m f)
  Keeps->>= m f h k s = elim (Result-cases (m s).0) [
    | inl (e, g) ↦ rw g (h s)
    | inr (a, g) ↦ rw g (k a (m s).1 ∙ h s)
  ]

  Keeps-durably :
      {A : Type 0} (op : Exec Store A) (otherwise : Exec Session A)
      → ((d : Store) → (op d).1.manifest.budgets ≡ d.manifest.budgets)
      → Keeps run_id otherwise
      → Keeps run_id (durably op otherwise)
  unfolding durably used
  Keeps-durably op otherwise h k s = elim (Option-cases s.durable) [
    | inl e ↦ rw e (k (record s { durable = none }))
    | inr (d, e) ↦ rw e (ap (λ b. calls_in b run_id) (h d))
  ]

  append_records-Keeps : (rs : List Record) → Keeps run_id (append_records rs)
  unfolding append_records used
  append_records-Keeps rs =
      Keeps->>=
        (durably (append_transcript rs)
          (Exec.gets (λ (s : Session). numbered (length s.records) rs)))
        (λ assigned. Exec.modify (λ (s : Session). record s { records = s.records ++ assigned }))
        (Keeps-durably (append_transcript rs)
          (Exec.gets (λ (s : Session). numbered (length s.records) rs))
          (λ d. (append_transcript-Same rs d).0) (λ s. refl))
        (λ a s. refl)

  pub append_payload-Keeps : (k : Kind) (p : Payload) → Keeps run_id (append_payload run_id k p)
  unfolding append_payload read_clock used
  append_payload-Keeps k p s = elim (Result-cases (new_record run_id (s.now s.ticks) k p)) [
    | inl (e, f) ↦ rw f refl
    | inr (r, f) ↦ rw f (append_records-Keeps (r ∷ []) (record s { ticks = s.ticks + 1 }))
  ]

  persist_event-Keeps : (k : EventKind) (p : EventPayload) → Keeps run_id (persist_event run_id k p)
  unfolding persist_event read_clock used
  persist_event-Keeps k p s =
      elim (Result-cases (new_event s.id run_id (s.cursor + 1) (s.now s.ticks) k p)) [
        | inl (e, f) ↦ rw f refl
        | inr (ev, f) ↦ rw f (
            Keeps->>= (durably (append_event ev) (Exec.pure tt))
              (λ _ (t : Session). (ok ev, record t { cursor = s.cursor + 1 }))
              (Keeps-durably (append_event ev) (Exec.pure tt) (λ d. (append_event-Same ev d).0)
                (λ t. refl))
              (λ a t. refl) (record s { ticks = s.ticks + 1 }))
      ]

  pub emit-Keeps : (k : EventKind) (p : EventPayload) → Keeps run_id (emit run_id k p)
  unfolding emit publish_event used
  emit-Keeps k p =
      Keeps->>= (persist_event run_id k p) (λ ev. Exec.modify (publish_event ev))
        (persist_event-Keeps k p) (λ a s. refl)

  call_records-Keeps : (cs : List ToolCallPayload) → Keeps run_id (call_records run_id cs)
  unfolding call_records read_clock used
  call_records-Keeps [] s = refl
  call_records-Keeps (c ∷ cs) s =
      elim (Result-cases (new_record run_id (s.now s.ticks) tool_call (call c))) [
        | inl (e, f) ↦ rw f refl
        | inr (r, f) ↦ rw f (
            Keeps->>= (call_records run_id cs) (λ rest. Exec.pure (r ∷ rest))
              (call_records-Keeps cs) (λ a t. refl) (record s { ticks = s.ticks + 1 }))
      ]

  pub append_tool_calls-Keeps :
      (cs : List ToolCallPayload) → Keeps run_id (append_tool_calls run_id cs)
  unfolding append_tool_calls
  append_tool_calls-Keeps cs =
      Keeps->>= (call_records run_id cs) append_records (call_records-Keeps cs) append_records-Keeps

-- What a counter adds to the number of model calls, and where it may.
abbrev pub weight : BudgetCounter → ℕ
weight logical_model_call = 1
weight _ = 0

abbrev pub Below : BudgetCounter → ℕ → Type 0
Below logical_model_call n = n < 64
Below _ n = Unit

-- A reservation that was counted.
abbrev Adds : BudgetCounter → ℕ → ℕ → Type 0
Adds c n m = (m ≡ n + weight c) × Below c n

reserved-Adds :
    (c : BudgetCounter) (b b' : RunBudget) (amount : ℤ)
    → reserved b c amount ≡ ok b'
    → Adds c b.logical_model_calls b'.logical_model_calls
unfolding reserved
reserved-Adds logical_model_call b b' amount h = ground arith
reserved-Adds transport_attempt b b' amount h = ground arith
reserved-Adds retry_delay b b' amount h = ground arith
reserved-Adds (unknown_counter_name c) b b' amount h = cc

counted-Adds :
    (c : BudgetCounter) (b b' : RunBudget) (amount : ℤ)
    → counted b c amount ≡ ok b'
    → Adds c b.logical_model_calls b'.logical_model_calls
counted-Adds logical_model_call b b' amount h = reserved-Adds logical_model_call b b' amount h
counted-Adds transport_attempt b b' amount h = reserved-Adds transport_attempt b b' amount h
counted-Adds retry_delay b b' amount h = reserved-Adds retry_delay b b' amount h
counted-Adds (unknown_counter_name c) b b' amount h = ground arith

then-pure :
    {S A : Type 0}
    → (m : Exec S (Unit {0})) (a : A) (s : S) → (Exec.◌>>◌ m (Exec.pure a) s).1 ≡ (m s).1
then-pure m a s = elim (Result-cases (m s).0) [ inl (e, f) ↦ rw f refl | inr (_, f) ↦ rw f refl ]

calls_in-put :
    (m : Dict RunBudget) (run_id : Bytes) (b : RunBudget)
    → calls_in (put m run_id b) run_id ≡ b.logical_model_calls
calls_in-put m run_id b =
    ap (λ o. (budget_or_zero o).logical_model_calls) (get-put m run_id run_id b)
    ∙ rw (same_refl run_id) refl

-- A step that failed and changed nothing.
abbrev Fails : Result (Unit {0}) → ℕ → ℕ → Type 0
Fails r n m = ((e : Err) × (r ≡ err e)) × (m ≡ n)

reserve_budget-lem :
    (run_id : Bytes) (c : BudgetCounter) (amount : ℤ) (d : Store)
    → Fails
        (Exec.◌>>=◌ (reserve_budget run_id c amount) (λ b. Exec.pure tt) d).0
        (calls_in d.manifest.budgets run_id)
        (calls_in
          (Exec.◌>>=◌ (reserve_budget run_id c amount) (λ b. Exec.pure tt) d).1.manifest.budgets
          run_id)
      ⊎ Adds c (calls_in d.manifest.budgets run_id) (
          calls_in
            (Exec.◌>>=◌ (reserve_budget run_id c amount) (λ b. Exec.pure tt) d).1.manifest.budgets
            run_id)
unfolding reserve_budget
reserve_budget-lem run_id c amount d = elim (Option-cases (get d.manifest.budgets run_id)) [
  | inl e ↦ inl (rw e ((corrupt, refl), refl))
  | inr (b, e) ↦ elim (Result-cases (reserved b c amount)) [
    | inl (x, f) ↦ inl (rw (e, f) ((x, refl), refl))
    | inr (b', f) ↦
        let m = record d.manifest { budgets = put d.manifest.budgets run_id b' } in
        let had : calls_in d.manifest.budgets run_id ≡ b.logical_model_calls =
          ap (λ o. (budget_or_zero o).logical_model_calls) e in
        let wrote : (write_manifest (record d { manifest = m })).1.manifest ≡ m =
          (write_manifest-Replaced (record d { manifest = m })).manifest in
        inr (
          rw (e, f)
            (elim (Result-cases (write_manifest (record d { manifest = m })).0) [
              | inl (_, g) ↦
                  rw (g, wrote, calls_in-put d.manifest.budgets run_id b', had)
                    (reserved-Adds c b b' amount f)
              | inr (_, g) ↦
                  rw (g, wrote, calls_in-put d.manifest.budgets run_id b', had)
                    (reserved-Adds c b b' amount f)
            ]))
  ]
]

reserve-lem :
    (run_id : Bytes) (c : BudgetCounter) (amount : ℤ) (s : Session)
    → Fails
        (reserve run_id c amount s).0
        (used run_id s)
        (used run_id (reserve run_id c amount s).1)
      ⊎ Adds c (used run_id s) (used run_id (reserve run_id c amount s).1)
unfolding reserve durably used
reserve-lem run_id c amount s = elim (Option-cases s.durable) [
  | inl e ↦
      let b = budget_or_zero (get s.memory_budget run_id) in
      elim (Result-cases (counted b c amount)) [
        | inl (x, f) ↦ inl (rw (e, f) ((x, refl), refl))
        | inr (b', f) ↦
            inr (rw (e, f, calls_in-put s.memory_budget run_id b') (counted-Adds c b b' amount f))
      ]
  | inr (d, e) ↦ rw e (reserve_budget-lem run_id c amount d)
]

-- A reservation of another counter.
pub reserve-Keeps :
    (run_id : Bytes) (c : BudgetCounter) (amount : ℤ)
    → weight c ≡ 0
    → Keeps run_id (reserve run_id c amount)
reserve-Keeps run_id c amount h s = elim (reserve-lem run_id c amount s) [
  | inl (_, e) ↦ e
  | inr (e, _) ↦ omega (arith, e, h)
]

-- A reservation of a model call that returned.
pub reserve-counts :
    (run_id : Bytes) (amount : ℤ) (s : Session)
    → (reserve run_id logical_model_call amount s).0 ≡ ok tt
    → (used run_id (reserve run_id logical_model_call amount s).1 ≡ used run_id s + 1)
      × (used run_id s < 64)
reserve-counts run_id amount s h = elim (reserve-lem run_id logical_model_call amount s) [
  | inl ((x, f), _) ↦ cc
  | inr added ↦ added
]
