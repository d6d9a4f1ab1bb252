-- ===== src/Dataproj/Stream.antt =====
-- `StreamRedactor` of internal/dataproj/projector.go: how the text is cut into chunks does not matter.
use coragent.Base.{
  ℕ, ◌≡◌, refl, sym, Bool-cases, inl, inr, List, [], ◌∷◌, ◌++◌, Bytes, ◌==◌, ==_iff, if◌then◌else◌,
  All-append, append-nil, append_assoc,
}
use coragent.Dataproj.Lines.{
  LineRedactor, StreamRedactor, newline, last_newline, write_at, write, close, redact_line,
}
use coragent.Dataproj.Cut.{OneLine, last_newline-none, write_at-line}

-- The stream byte by byte: what a byte lets out, and the redactor after it.
unfoldable pub emitted : StreamRedactor → ℕ → Bytes
emitted r c = if c == newline then (redact_line r.lines r.pending).0 ++ newline ∷ [] else []

unfoldable pub after : StreamRedactor → ℕ → StreamRedactor
after r c =
    if c == newline
    then record { lines = (redact_line r.lines r.pending).2; pending = [] }
    else record r { pending = r.pending ++ c ∷ [] }

unfoldable pub feed : StreamRedactor → Bytes → Bytes × StreamRedactor
unfolding emitted after
feed r [] = ([], r)
feed r (c ∷ s) = let (out, last) = feed (after r c) s in (emitted r c ++ out, last)

write_at-feed :
    (l : LineRedactor) (p s : Bytes)
    → OneLine p
    → write_at l (p ++ s) (last_newline (p ++ s)) ≡ feed (record { lines = l; pending = p }) s
unfolding feed
write_at-feed l p [] h = rw (append-nil p, last_newline-none p h) (unfold write_at in refl)
write_at-feed l p (c ∷ s) h = elim (Bool-cases (c == newline)) [
  | inl e ↦
      rw
        (
          e,
          (==_iff c newline).0 e,
          write_at-line l p s h,
          write_at-feed (redact_line l p).2 [] s tt,
        )
        (rw
          (append_assoc (redact_line l p).0 (newline ∷ [])
            (feed (record { lines = (redact_line l p).2; pending = [] }) s).0)
          refl)
  | inr e ↦
      rw
        (
          e,
          sym (append_assoc p (c ∷ []) s),
          write_at-feed l (p ++ c ∷ []) s (All-append _ p (c ∷ []) h (e, tt)),
        )
        refl
]

feed-append :
    (r : StreamRedactor) (s t : Bytes)
    → feed r (s ++ t)
      ≡ (let (out, next) = feed r s in let (more, last) = feed next t in (out ++ more, last))
unfolding feed
feed-append r [] t = refl
feed-append r (c ∷ s) t = rw (
  feed-append (after r c) s t,
  append_assoc (emitted r c) (feed (after r c) s).0 (feed (feed (after r c) s).1 t).0,
)

after-OneLine : (r : StreamRedactor) (c : ℕ) → OneLine r.pending → OneLine (after r c).pending
unfolding after
after-OneLine r c h = elim (Bool-cases (c == newline)) [
  | inl e ↦ rw e tt
  | inr e ↦ rw e (All-append _ r.pending (c ∷ []) h (e, tt))
]

feed-OneLine : (r : StreamRedactor) (s : Bytes) → OneLine r.pending → OneLine (feed r s).1.pending
unfolding feed
feed-OneLine r [] h = h
feed-OneLine r (c ∷ s) h = feed-OneLine (after r c) s (after-OneLine r c h)

abbrev pub joined : List Bytes → Bytes
joined [] = []
joined (s ∷ ss) = s ++ joined ss

-- The chunks of a text, written one after the other.
unfoldable pub writes : StreamRedactor → List Bytes → Bytes × StreamRedactor
unfolding write
writes r [] = ([], r)
writes r (chunk ∷ chunks) =
    let (out, next) = write r chunk in let (more, last) = writes next chunks in (out ++ more, last)

writes-feed :
    (r : StreamRedactor) (chunks : List Bytes)
    → OneLine r.pending
    → writes r chunks ≡ feed r (joined chunks)
unfolding writes write
writes-feed r [] h = unfold feed in refl
writes-feed r (chunk ∷ chunks) h =
    rw
      (
        write_at-feed r.lines r.pending chunk h,
        writes-feed (feed r chunk).1 chunks (feed-OneLine r chunk h),
        feed-append r chunk (joined chunks),
      )
      refl

-- The lines of a text, the first of them after what is pending.
unfoldable pub lines_from : Bytes → Bytes → List Bytes
lines_from p [] = p ∷ []
lines_from p (c ∷ s) =
    let ended = p ∷ lines_from [] s in
    let longer = lines_from (p ++ c ∷ []) s in if c == newline then ended else longer

-- The lines, each redacted in turn, with a newline between two of them.
unfoldable pub redact_lines : LineRedactor → List Bytes → Bytes
redact_lines r [] = []
redact_lines r (line ∷ []) = (redact_line r line).0
redact_lines r (line ∷ next ∷ lines) =
    (redact_line r line).0 ++ newline ∷ redact_lines (redact_line r line).2 (next ∷ lines)

lines_from-some :
    (p s : Bytes) → (line : Bytes) × (rest : List Bytes) × (lines_from p s ≡ line ∷ rest)
unfolding lines_from
lines_from-some p [] = (p, [], refl)
lines_from-some p (c ∷ s) = elim (Bool-cases (c == newline)) [
  | inl e ↦ rw e (p, lines_from [] s, refl)
  | inr e ↦ rw e (lines_from-some (p ++ c ∷ []) s)
]

redact_lines-more :
    (r : LineRedactor) (line p s : Bytes)
    → redact_lines r (line ∷ lines_from p s)
      ≡ (redact_line r line).0 ++ newline ∷ redact_lines (redact_line r line).2 (lines_from p s)
unfolding redact_lines
redact_lines-more r line p s = let (first, rest, e) = lines_from-some p s in rw e refl

feed-redact_lines :
    (l : LineRedactor) (p s : Bytes)
    → (let (out, last) = feed (record { lines = l; pending = p }) s in out ++ (close last).0)
      ≡ redact_lines l (lines_from p s)
unfolding lines_from feed
feed-redact_lines l p [] = unfold close redact_lines in refl
feed-redact_lines l p (c ∷ s) = elim (Bool-cases (c == newline)) [
  | inl e ↦
      rw (e, redact_lines-more l p [] s, sym (feed-redact_lines (redact_line l p).2 [] s))
        (simp append_assoc)
  | inr e ↦ rw (e, sym (feed-redact_lines l (p ++ c ∷ []) s)) refl
]

-- However a text is cut into chunks, what the stream lets out by the end is the text's lines, each redacted by the
-- redactor of lines in turn, where no newline is pending at the start.
pub writes-redact_lines :
    (r : StreamRedactor) (chunks : List Bytes)
    → OneLine r.pending
    → (let (out, last) = writes r chunks in out ++ (close last).0)
      ≡ redact_lines r.lines (lines_from r.pending (joined chunks))
writes-redact_lines r chunks h =
    rw (writes-feed r chunks h) (feed-redact_lines r.lines r.pending (joined chunks))
