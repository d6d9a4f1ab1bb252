-- ===== src/Engine/Observers.antt =====
-- What a subscriber of `Observe` receives: internal/engine/session.go.
use coragent.Base.{
  ℕ, ◌+◌, ◌≤◌, ◌≡◌, refl, none, some, List, [], ◌∷◌, ◌++◌, map, Bytes, arith, ap, ◌∙◌, sym, ltb,
  if◌then◌else◌, Option-cases, ◌⊎◌, inl, inr, ◌<◌, Bool-cases, subst,
}
use coragent.Errors.{Result-cases}
use coragent.Event.{Event, EventKind, EventPayload, new_event}
use coragent.Store.Session.{append_event}
use coragent.Engine.{Session, Subscriber}
use coragent.Engine.Facts.{emit, persist_event, publish_event, enqueue, read_clock, durably}
use coragent.Engine.Steps.{persist_event-IsPersisted}
use coragent.Engine.Observe.{observe, subscriber, events_after}

events_after-append :
    (n : ℕ) (es : List Event) (e : Event)
    → events_after n (es ++ e ∷ []) ≡ events_after n es ++ (if ltb n e.cursor then e ∷ [] else [])
unfolding events_after
events_after-append n [] e = ground arith
events_after-append n (x ∷ es) e = ground (arith, events_after-append n es e)

-- The list has the events that are later than the cursor, in order, and no others.
abbrev pub Later : ℕ → List Event → List Event → Type 0
Later n [] q = q ≡ []
Later n (e ∷ es) q =
    ((e.cursor ≤ n) × Later n es q)
    ⊎ ((n < e.cursor) × ((later : List Event) × (q ≡ e ∷ later) × Later n es later))

events_after-Later : (n : ℕ) (es : List Event) → Later n es (events_after n es)
unfolding events_after
events_after-Later n [] = refl
events_after-Later n (e ∷ es) = elim (Bool-cases (ltb n e.cursor)) [
  | inl f ↦ rw f (inr (ground arith, (events_after n es, refl, events_after-Later n es)))
  | inr f ↦ rw f (inl (ground arith, events_after-Later n es))
]

-- The queue of the subscriber.
abbrev pub Receives : ℕ → ℕ → Session → Type 0
Receives id n s =
    (q : Subscriber) × (subscriber id s.subs ≡ some q) × (q.queued ≡ events_after n s.history)

subscriber-enqueue :
    (id : ℕ) (e : Event) (subs : List Subscriber) (q : Subscriber)
    → subscriber id subs ≡ some q
    → subscriber id (map (enqueue e) subs) ≡ some (enqueue e q)
unfolding subscriber enqueue
subscriber-enqueue id e [] q h = cc
subscriber-enqueue id e (x ∷ subs) q h = ground (arith, subscriber-enqueue id e subs q)

-- An error leaves the events, the subscribers and the cursor.
persist_event-kept :
    (run_id : Bytes) (k : EventKind) (p : EventPayload) (s : Session)
    → let t = (persist_event run_id k p s).1 in
      (t.history ≡ s.history) × (t.subs ≡ s.subs) × (s.cursor ≤ t.cursor)
unfolding persist_event read_clock durably
persist_event-kept run_id k p s =
    elim (Result-cases (new_event s.id run_id (s.cursor + 1) (s.now s.ticks) k p)) [
      | inl (x, f) ↦ rw f (refl, refl, omega arith)
      | inr (e, f) ↦ elim (Option-cases s.durable) [
        | inl g ↦ rw (f, g) (refl, refl, omega arith)
        | inr (d, g) ↦ elim (Result-cases (append_event e d).0) [
          | inl (x, b) ↦ rw (f, g, b) (refl, refl, omega arith)
          | inr (_, b) ↦ rw (f, g, b) (refl, refl, omega arith)
        ]
      ]
    ]

publish_event-Receives :
    (id n : ℕ) (e : Event) (s : Session)
    → n + 1 ≤ e.cursor
    → Receives id n s
    → Receives id n (publish_event e s)
unfolding publish_event
publish_event-Receives id n e s later (q, found, equal) = (
  enqueue e q,
  subscriber-enqueue id e s.subs q found,
  unfold enqueue in ground (arith, events_after-append n s.history e),
)

subscriber-append :
    (id : ℕ) (subs : List Subscriber) (q : Subscriber)
    → q.sub_id ≡ id
    → subscriber id subs ≡ none
    → subscriber id (subs ++ q ∷ []) ≡ some q
unfolding subscriber
subscriber-append id [] q e h = ground arith
subscriber-append id (x ∷ subs) q e h = ground (arith, subscriber-append id subs q e)

-- A call of `emitLocked`.
abbrev pub Emission : Type 0
Emission = Bytes × (EventKind × EventPayload)

-- The session after emissions, each of which may fail.
abbrev pub emissions : List Emission → Session → Session
emissions [] s = s
emissions ((run_id, (k, p)) ∷ es) s = emissions es (emit run_id k p s).1

emit-Receives :
    (id n : ℕ) (run_id : Bytes) (k : EventKind) (p : EventPayload) (s : Session)
    → Receives id n s
    → n ≤ s.cursor
    → Receives id n (emit run_id k p s).1 × (n ≤ (emit run_id k p s).1.cursor)
unfolding emit
emit-Receives id n run_id k p s (q, found, equal) old =
    let (history, subs, cursor) = persist_event-kept run_id k p s in
    let t = (persist_event run_id k p s).1 in
    let still : Receives id n t =
      (q, ap (subscriber id) subs ∙ found, equal ∙ sym (ap (events_after n) history)) in
    elim (Result-cases (persist_event run_id k p s).0) [
      | inl (x, f) ↦ rw f (still, omega arith)
      | inr (e, f) ↦
          let b = persist_event-IsPersisted run_id k p s t e (λ i. (f i, t)) in
          rw f (
            publish_event-Receives id n e t (omega (arith, b.place)) still,
            unfold publish_event in omega arith,
          )
    ]

emissions-Receives :
    (id n : ℕ) (es : List Emission) (s : Session)
    → Receives id n s
    → n ≤ s.cursor
    → Receives id n (emissions es s)
emissions-Receives id n [] s r old = r
emissions-Receives id n ((run_id, (k, p)) ∷ es) s r old =
    let (r', old') = emit-Receives id n run_id k p s r old in emissions-Receives id n es _ r' old'

-- Let no subscriber have the next key, and let the caller's cursor be none of the future. After `Observe` and any
-- emissions, of which some may fail, the new subscriber's queue is exactly the session's events whose cursors are greater,
-- in order: none is lost between the snapshot and the live events, and none comes twice.
pub observe-emissions :
    (n : ℕ) (es : List Emission) (s : Session)
    → subscriber s.next_sub s.subs ≡ none
    → n ≤ s.cursor
    → let t = emissions es (observe n s).1 in
      (q : Subscriber) × (subscriber s.next_sub t.subs ≡ some q) × Later n t.history q.queued
unfolding observe
observe-emissions n es s free old =
    let (q, found, equal) =
      emissions-Receives s.next_sub n es (observe n s).1
        (
          record { sub_id = s.next_sub; queued = events_after n s.history },
          subscriber-append s.next_sub s.subs _ refl free,
          refl,
        )
        old in
    let t = emissions es (observe n s).1 in
    (q, found, subst (Later n t.history) (sym equal) (events_after-Later n t.history))
