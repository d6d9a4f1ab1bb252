-- ===== src/Engine/Deltas.antt =====
-- The text that the stream of an attempt lets out: `onText` and the end of the stream in internal/engine/session.go.
use coragent.Base.{
  true, ◌≡◌, refl, sym, ap, ◌∙◌, inl, inr, Bool-cases, List, [], ◌∷◌, ◌++◌, Bytes, blank,
  append-nil, append_assoc, subst, All, All-append,
}
use coragent.Errors.{ok, ok-injective}
use coragent.Exec
use coragent.Exec.{Exec}
use coragent.Dataproj.Lines.{StreamRedactor, write, close}
use coragent.Dataproj.Cut.{OneLine}
use coragent.Dataproj.Stream.{writes, joined, redact_lines, lines_from, writes-redact_lines}
use coragent.Event.{Event, EventPayload, assistant_delta, text}
use coragent.Provider.{Response}
use coragent.Engine.{Session}
use coragent.Engine.Facts.{emit, persist_event, publish_event}
use coragent.Engine.Steps.{persist_event-IsPersisted}
use coragent.Engine.Retry.{Streamed}
use coragent.Engine.Stream.{on_text, stream_chunks, finish_stream, delta}

blank-nil : (s : Bytes) → blank s ≡ true → s ≡ []
blank-nil [] h = refl
blank-nil (c ∷ s) h = cc

abbrev said : EventPayload → Bytes
said (text t) = t
said _ = []

-- The text that events carry.
unfoldable pub text_of : List Event → Bytes
text_of [] = []
text_of (e ∷ es) = said e.payload ++ text_of es

text_of-append : (xs ys : List Event) → text_of (xs ++ ys) ≡ text_of xs ++ text_of ys
unfolding text_of
text_of-append [] ys = refl
text_of-append (x ∷ xs) ys =
    rw (text_of-append xs ys, append_assoc (said x.payload) (text_of xs) (text_of ys))

-- The events that the session has published since then are deltas, and this is the text that they carry.
pub record Emits (s t : Session) (x : Bytes) : Type 0 where
  pub events : List Event
  pub published : t.history ≡ s.history ++ events
  pub deltas : All (λ (e : Event). e.kind ≡ assistant_delta) events
  pub carried : text_of events ≡ x

silent : (s t : Session) → s ≡ t → Emits s t []
unfolding text_of
silent s t h = record {
  events = [];
  published = ap (λ x. x.history) (sym h) ∙ sym (append-nil s.history);
  deltas = tt;
  carried = refl;
}

then : (s t u : Session) (x y : Bytes) → Emits s t x → Emits t u y → Emits s u (x ++ y)
then s t u x y a b = record {
  events = a.events ++ b.events;
  published =
      b.published ∙ ap (λ z. z ++ b.events) a.published ∙ append_assoc s.history a.events b.events;
  deltas = All-append _ a.events b.events a.deltas b.deltas;
  carried = text_of-append a.events b.events ∙ rw (a.carried, b.carried) refl;
}

-- The one event of a delta carries its text, and no more.
delta-Emits :
    (run_id safe : Bytes) (s t : Session) → delta run_id safe s ≡ (ok tt, t) → Emits s t safe
unfolding emit publish_event text_of
delta-Emits run_id safe s t h =
    let grown : Session = record s { partial = s.partial ++ safe } in
    let (e, u, h1, k1) =
      Exec.>>=-eq-ok (persist_event run_id assistant_delta (text safe))
        (λ ev. Exec.modify (publish_event ev)) grown h in
    let b = persist_event-IsPersisted run_id assistant_delta (text safe) grown u e h1 in
    let there : t ≡ publish_event e u = sym (ap (λ x. x.1) k1) in
    record {
      events = e ∷ [];
      published = ap (λ x. x.history) there ∙ ap (λ z. z ++ e ∷ []) b.history;
      deltas = (b.kind, tt);
      carried = append-nil (said e.payload) ∙ ap said b.content;
    }

-- A delta that is let out, and one that is empty, add what `Write` returned.
on_text-lem :
    (run_id : Bytes) (st next : Streamed) (raw : Bytes) (s t : Session)
    → on_text run_id st raw s ≡ (ok next, t)
    → (next.redactor ≡ (write st.redactor raw).1)
      × (next.text ≡ st.text ++ (write st.redactor raw).0)
      × Emits s t (write st.redactor raw).0
unfolding on_text
on_text-lem run_id st next raw s t h =
    let (safe, redactor) = write st.redactor raw in
    elim (Bool-cases (blank safe)) [
      | inl e ↦
          let same : record st { redactor = redactor } ≡ next =
            ok-injective (ap (λ p. p.0) (rw e at h)) in
          (
            sym (ap (λ x. x.redactor) same),
            sym (ap (λ x. x.text) same) ∙ rw (blank-nil safe e) (sym (append-nil st.text)),
            rw (blank-nil safe e) (silent s t (ap (λ p. p.1) (rw e at h))),
          )
      | inr e ↦
          let grown : Streamed = record { redactor = redactor; text = st.text ++ safe } in
          let (_, u, first, last) =
            Exec.>>=-eq-ok (delta run_id safe) (λ _. Exec.pure grown) s (rw e at h) in
          let same : grown ≡ next = ok-injective (ap (λ p. p.0) last) in
          (
            sym (ap (λ x. x.redactor) same),
            sym (ap (λ x. x.text) same),
            subst (λ z. Emits s z safe) (ap (λ p. p.1) last) (delta-Emits run_id safe s u first),
          )
    ]

stream_chunks-lem :
    (run_id : Bytes) (st next : Streamed) (chunks : List Bytes) (s t : Session)
    → stream_chunks run_id st chunks s ≡ (ok next, t)
    → (next.redactor ≡ (writes st.redactor chunks).1)
      × (next.text ≡ st.text ++ (writes st.redactor chunks).0)
      × Emits s t (writes st.redactor chunks).0
unfolding stream_chunks writes
stream_chunks-lem run_id st next [] s t h =
    let same : st ≡ next = ok-injective (ap (λ p. p.0) h) in
    (
      sym (ap (λ x. x.redactor) same),
      sym (ap (λ x. x.text) same) ∙ sym (append-nil st.text),
      silent s t (ap (λ p. p.1) h),
    )
stream_chunks-lem run_id st next (raw ∷ chunks) s t h =
    let (mid, u, first, rest) =
      Exec.>>=-eq-ok (on_text run_id st raw) (λ next. stream_chunks run_id next chunks) s h in
    let (r1, t1, e1) = on_text-lem run_id st mid raw s u first in
    let (r2, t2, e2) = stream_chunks-lem run_id mid next chunks u t rest in
    (
      r2 ∙ ap (λ r. (writes r chunks).1) r1,
      t2
          ∙ ap (λ r. mid.text ++ (writes r chunks).0) r1
          ∙ ap (λ x. x ++ (writes (write st.redactor raw).1 chunks).0) t1
          ∙ append_assoc st.text (write st.redactor raw).0
              (writes (write st.redactor raw).1 chunks).0,
      subst (λ r. Emits s t ((write st.redactor raw).0 ++ (writes r chunks).0)) r1
          (then s u t (write st.redactor raw).0 (writes mid.redactor chunks).0 e1 e2),
    )

finish_stream-lem :
    (run_id : Bytes) (r got : Response) (st : Streamed) (out : Bytes) (s t : Session)
    → finish_stream run_id r st s ≡ (ok (got, out), t)
    → (out ≡ st.text ++ (close st.redactor).0) × Emits s t (close st.redactor).0
unfolding finish_stream
finish_stream-lem run_id r got st out s t h =
    let (trailing, last) = close st.redactor in
    elim (Bool-cases (blank trailing)) [
      | inl e ↦
          let same = ok-injective (ap (λ p. p.0) (rw e at h)) in
          (
            sym (ap (λ x. x.1) same) ∙ rw (blank-nil trailing e) (sym (append-nil st.text)),
            rw (blank-nil trailing e) (silent s t (ap (λ p. p.1) (rw e at h))),
          )
      | inr e ↦
          let end : Response × Bytes = (r, st.text ++ trailing) in
          let (_, u, first, last) =
            Exec.>>=-eq-ok (delta run_id trailing) (λ _. Exec.pure end) s (rw e at h) in
          (
            sym (ap (λ x. x.1) (ok-injective (ap (λ p. p.0) last))),
            subst (λ z. Emits s z trailing) (ap (λ p. p.1) last)
                (delta-Emits run_id trailing s u first),
          )
    ]

-- Let an attempt stream its chunks without an error, from a redactor with no newline pending, and let the stream end
-- without one. Then the session has published deltas and no other events meanwhile, and the text that they carry, like
-- the text that the engine remembers as let out, is the text of the chunks with each line redacted in turn, however the
-- text was cut.
pub stream-redact_lines :
    (run_id : Bytes) (start : StreamRedactor) (chunks : List Bytes) (r got : Response)
    (st : Streamed) (out : Bytes) (s t u : Session)
    → OneLine start.pending
    → stream_chunks run_id (record { redactor = start; text = [] }) chunks s ≡ (ok st, t)
    → finish_stream run_id r st t ≡ (ok (got, out), u)
    → let safe = redact_lines start.lines (lines_from start.pending (joined chunks)) in
      Emits s u safe × (out ≡ safe)
stream-redact_lines run_id start chunks r got st out s t u p h k =
    let (redactor, shown, streamed) =
      stream_chunks-lem run_id (record { redactor = start; text = [] }) st chunks s t h in
    let (all, ended) = finish_stream-lem run_id r got st out t u k in
    let whole =
      ap (λ q. (writes start chunks).0 ++ (close q).0) redactor
      ∙ writes-redact_lines start chunks p in
    (
      subst (Emits s u) whole
          (then s t u (writes start chunks).0 (close st.redactor).0 streamed ended),
      all ∙ ap (λ x. x ++ (close st.redactor).0) shown ∙ whole,
    )
