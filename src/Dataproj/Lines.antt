-- ===== src/Dataproj/Lines.antt =====
-- internal/dataproj/projector.go: `LineRedactor` and `StreamRedactor`. What the two expressions for the markers of a
-- private key find in a line is a parameter, as the detector is.
use coragent.Base.{
  ℕ, suc, ◌+◌, Bool, true, false, Option, none, some, List, [], ◌∷◌, ◌++◌, Bytes, blank, ◌==◌, take,
  drop, if◌then◌else◌,
}
use coragent.Dataproj.{Detector, Span, redact, marker}

-- `LineRedactor`, with `privateKeyBegin.FindStringIndex` and `privateKeyEnd.FindStringIndex`.
pub record LineRedactor : Type 0 where
  pub detector : Detector
  pub find_begin : Bytes → Option Span
  pub find_end : Bytes → Option Span
  pub in_private_key : Bool

abbrev pub Projected : Type 0
Projected = Bytes × ℕ × LineRedactor

-- A line inside of a private key, by where the end marker stands.
unfoldable pub redact_inside : LineRedactor → Bytes → Option Span → Projected
redact_inside r line none = (marker, 1, r)
redact_inside r line (some e) =
    let (suffix, count) = redact r.detector (drop e.end line) in
    (marker ++ suffix, count + 1, record r { in_private_key = false })

-- A line with a begin marker, by where the end marker stands in what follows it.
unfoldable pub redact_begun : LineRedactor → Bytes → Bytes → Option Span → Projected
redact_begun r before remainder none =
    let (prefix, count) = redact r.detector before in
    (prefix ++ marker, count + 1, record r { in_private_key = true })
redact_begun r before remainder (some e) =
    let (prefix, prefix_count) = redact r.detector before in
    let (suffix, suffix_count) = redact r.detector (drop e.end remainder) in
    (prefix ++ (marker ++ suffix), prefix_count + suffix_count + 1, r)

unfoldable pub redact_outside : LineRedactor → Bytes → Option Span → Projected
unfolding redact_begun
redact_outside r line none = let (safe, count) = redact r.detector line in (safe, count, r)
redact_outside r line (some b) =
    let remainder = drop b.end line in
    redact_begun r (take b.start line) remainder (r.find_end remainder)

-- `LineRedactor.Redact`
unfoldable pub redact_line : LineRedactor → Bytes → Projected
unfolding redact_inside redact_outside
redact_line r line =
    if r.in_private_key
    then redact_inside r line (r.find_end line)
    else redact_outside r line (r.find_begin line)

-- '\n'
abbrev pub newline : ℕ
newline = 10

-- `StreamRedactor`
pub record StreamRedactor : Type 0 where
  pub lines : LineRedactor
  pub pending : Bytes

-- `strings.LastIndexByte(s, '\n')`
abbrev index_here : ℕ → Option ℕ → Option ℕ
index_here c none = if c == newline then some 0 else none
index_here c (some i) = some (suc i)

unfoldable pub last_newline : Bytes → Option ℕ
last_newline [] = none
last_newline (c ∷ s) = index_here c (last_newline s)

-- `strings.SplitAfter(s, "\n")`
abbrev onto_first : ℕ → List Bytes → List Bytes
onto_first c [] = (c ∷ []) ∷ []
onto_first c (l ∷ ls) = (c ∷ l) ∷ ls

unfoldable pub split_after : Bytes → List Bytes
split_after [] = [] ∷ []
split_after (c ∷ s) =
    let rest = split_after s in if c == newline then (c ∷ []) ∷ rest else onto_first c rest

-- `strings.TrimSuffix(s, "\n")`
unfoldable pub trim_newline : Bytes → Bytes
trim_newline [] = []
trim_newline (c ∷ []) = if c == newline then [] else c ∷ []
trim_newline (c ∷ d ∷ s) = c ∷ trim_newline (d ∷ s)

-- The loop of `Write` over the lines: what it writes, and the redactor of lines after it.
unfoldable pub project_lines : LineRedactor → List Bytes → Bytes × LineRedactor
unfolding redact_line trim_newline
project_lines r [] = ([], r)
project_lines r (line ∷ rest) =
    let (safe, count, next) = redact_line r (trim_newline line) in
    let (out, last) = project_lines next rest in
    if blank line then project_lines r rest else (safe ++ (newline ∷ out), last)

-- `Write`, by the place of the last newline in the pending text.
unfoldable pub write_at : LineRedactor → Bytes → Option ℕ → Bytes × StreamRedactor
unfolding split_after project_lines
write_at lines text none = ([], record { lines = lines; pending = text })
write_at lines text (some i) =
    let (out, next) = project_lines lines (split_after (take (suc i) text)) in
    (out, record { lines = next; pending = drop (suc i) text })

-- `Write`
unfoldable pub write : StreamRedactor → Bytes → Bytes × StreamRedactor
unfolding last_newline write_at
write r chunk = let text = r.pending ++ chunk in write_at r.lines text (last_newline text)

-- `Close`
unfoldable pub close : StreamRedactor → Bytes × StreamRedactor
unfolding redact_line
close r =
    let (safe, count, next) = redact_line r.lines r.pending in
    (safe, record { lines = next; pending = [] })
