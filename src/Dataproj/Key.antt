-- ===== src/Dataproj/Key.antt =====
-- `LineRedactor` of internal/dataproj/projector.go across the lines of a private key.
use coragent.Base.{
  ◌+◌, true, false, ◌≡◌, refl, sym, ap, none, some, List, [], ◌∷◌, ◌++◌, Bytes, take, drop, All,
  append_assoc, append-nil,
}
use coragent.Dataproj.{Span, redact, marker}
use coragent.Dataproj.Lines.{
  LineRedactor, redact_line, redact_inside, redact_outside, redact_begun, newline,
}
use coragent.Dataproj.Stream.{redact_lines}

-- A marker on a line of its own, for each of the lines.
abbrev pub markers : List Bytes → Bytes
markers [] = []
markers (line ∷ lines) = newline ∷ (marker ++ markers lines)

-- The same redactor, inside of a private key.
abbrev inside : LineRedactor → LineRedactor
inside r = record r { in_private_key = true }

redact_line-inside :
    (r : LineRedactor) (line : Bytes)
    → r.find_end line ≡ none
    → redact_line (inside r) line ≡ (marker, 1, inside r)
unfolding redact_line redact_inside
redact_line-inside r line h = rw h refl

redact_line-begun :
    (r : LineRedactor) (line : Bytes) (b : Span)
    → r.in_private_key ≡ false
    → r.find_begin line ≡ some b
    → r.find_end (drop b.end line) ≡ none
    → redact_line r line ≡ (
      (redact r.detector (take b.start line)).0 ++ marker,
      (redact r.detector (take b.start line)).1 + 1,
      inside r,
    )
unfolding redact_line redact_outside redact_begun
redact_line-begun r line b o h n = rw (o, h, n) refl

body-markers :
    (r : LineRedactor) (body : List Bytes) (first : Bytes)
    → r.find_end first ≡ none
    → All (λ (line : Bytes). r.find_end line ≡ none) body
    → redact_lines (inside r) (first ∷ body) ≡ marker ++ markers body
unfolding redact_lines
body-markers r [] first h a =
    rw (redact_line-inside r first h, redact_lines) (sym (append-nil marker))
body-markers r (line ∷ body) first h (k, a) =
    rw (redact_line-inside r first h, body-markers r body line k a) refl

-- A line that begins a private key, and the lines after it as long as none ends the key: of the first line only what
-- stands before the begin marker is let out, redacted, and of the other lines nothing but a marker for each.
pub redact_lines-key :
    (r : LineRedactor) (line : Bytes) (body : List Bytes) (b : Span)
    → r.in_private_key ≡ false
    → r.find_begin line ≡ some b
    → r.find_end (drop b.end line) ≡ none
    → All (λ (line : Bytes). r.find_end line ≡ none) body
    → redact_lines r (line ∷ body)
      ≡ (redact r.detector (take b.start line)).0 ++ (marker ++ markers body)
unfolding redact_lines
redact_lines-key r line [] b o h n a =
    rw (redact_line-begun r line b o h n, redact_lines)
      (ap (λ t. (redact r.detector (take b.start line)).0 ++ t) (sym (append-nil marker)))
redact_lines-key r line (next ∷ body) b o h n (k, a) =
    rw (redact_line-begun r line b o h n, body-markers r body next k a)
      (append_assoc (redact r.detector (take b.start line)).0 marker (markers (next ∷ body)))
