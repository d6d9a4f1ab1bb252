-- ===== src/Dataproj.antt =====
-- internal/dataproj/projector.go: the detector of credentials and the projections of text. The regular
-- expressions are parameters: what they find in a text.
pub mod Merge
pub mod Mask
pub mod Lines
pub mod Cut
pub mod Stream
pub mod Key
pub mod Projection
mod Tests
use coragent.Base.{
  ℕ, ◌+◌, ◌-◌, Bool, true, false, ◌&&◌, ◌||◌, not, Option, none, some, List, [], ◌∷◌, ◌++◌, Bytes,
  codes, ltb, leb, ◌==◌, take, drop, length, if◌then◌else◌,
}
use coragent.Errors.{Result, ok, err, require, sensitive_prompt}

-- A pair of byte offsets, as `FindStringIndex` returns it.
pub record Span : Type 0 where
  pub start : ℕ
  pub end : ℕ

-- `detectorRule`: its name, and `FindAllStringIndex(text, -1)` of its expression.
pub record DetectorRule : Type 0 where
  pub name : Bytes
  pub find_all : Bytes → List Span

-- `Detector`
abbrev pub Detector : Type 0
Detector = List DetectorRule

pub record Match : Type 0 where
  pub rule : Bytes
  pub start : ℕ
  pub end : ℕ

unfoldable pub tagged : Bytes → List Span → List Match
tagged name [] = []
tagged name (s ∷ ss) = record { rule = name; start = s.start; end = s.end } ∷ tagged name ss

-- The matches of every rule, before they are sorted.
unfoldable pub raw_matches : Detector → Bytes → List Match
unfolding tagged
raw_matches [] text = []
raw_matches (r ∷ rules) text = tagged r.name (r.find_all text) ++ raw_matches rules text

-- The order of `sort.Slice`: by the start, and the longer match first.
abbrev pub before : Match → Match → Bool
before m n = if m.start == n.start then ltb n.end m.end else ltb m.start n.start

-- `sort.Slice`
unfoldable pub insert : Match → List Match → List Match
insert m [] = m ∷ []
insert m (n ∷ ns) = if before n m then n ∷ insert m ns else m ∷ n ∷ ns

unfoldable pub sort : List Match → List Match
unfolding insert
sort [] = []
sort (m ∷ ms) = insert m (sort ms)

-- The merging loop of `Matches`, with the last merged match.
unfoldable pub merge_from : Match → List Match → List Match
merge_from last [] = last ∷ []
merge_from last (m ∷ ms) =
    let joined =
      merge_from (record last { end = if ltb last.end m.end then m.end else last.end }) ms in
    let apart = last ∷ merge_from m ms in if leb m.start last.end then joined else apart

unfoldable pub merge : List Match → List Match
unfolding merge_from
merge [] = []
merge (m ∷ ms) = merge_from m ms

-- `Matches`
unfoldable pub matches : Detector → Bytes → List Match
unfolding raw_matches sort merge
matches d text = merge (sort (raw_matches d text))

abbrev pub is_empty {ℓ} : {A : Type ℓ} → List A → Bool
is_empty [] = true
is_empty (x ∷ xs) = false

-- `Contains`
unfoldable pub contains : Detector → Bytes → Bool
unfolding matches
contains d text = not (is_empty (matches d text))

abbrev pub marker : Bytes
marker = codes "[REDACTED:CREDENTIAL]"

-- `text[a:b]`
abbrev pub slice : Bytes → ℕ → ℕ → Bytes
slice text a b = take (b - a) (drop a text)

-- The loop of `Redact`.
unfoldable pub redact_from : Bytes → ℕ → List Match → Bytes
redact_from text last [] = drop last text
redact_from text last (m ∷ ms) = slice text last m.start ++ (marker ++ redact_from text m.end ms)

-- `Redact`: without a match it returns the text, as the loop does.
unfoldable pub redact : Detector → Bytes → Bytes × ℕ
unfolding matches redact_from
redact d text = (redact_from text 0 (matches d text), length (matches d text))

pub data Class : Type 0 where
  normal sensitive runtime_secret : Class

-- `Text`
pub record Text : Type 0 where
  pub content : Bytes
  pub class : Class
  pub redacted_count : ℕ

-- `ValidatePrompt`
unfoldable pub validate_prompt : Detector → Bytes → Result (Unit {0})
unfolding contains
validate_prompt d text = require (not (contains d text)) sensitive_prompt

-- `ProjectText`
unfoldable pub project_text : Detector → Bytes → Text
unfolding redact
project_text d raw =
    let (content, count) = redact d raw in
    record {
      content = content;
      class = if ltb 0 count then sensitive else normal;
      redacted_count = count;
    }

-- The bytes that may follow in a rune: how many, and the bounds of the first of them.
pub record Rest : Type 0 where
  pub need : ℕ
  pub low : ℕ
  pub high : ℕ

abbrev pub rest_of : ℕ → ℕ → ℕ → Option Rest
rest_of need low high = some (record { need = need; low = low; high = high })

abbrev pub within : ℕ → ℕ → ℕ → Bool
within low c high = leb low c && leb c high

-- The first byte of a rune in UTF-8.
unfoldable pub first_byte : ℕ → Option Rest
first_byte c =
    if ltb c 0x80
    then rest_of 0 0x80 0xBF
    else if within 0xC2 c 0xDF
    then rest_of 1 0x80 0xBF
    else if c == 0xE0
    then rest_of 2 0xA0 0xBF
    else if c == 0xED
    then rest_of 2 0x80 0x9F
    else if within 0xE1 c 0xEF
    then rest_of 2 0x80 0xBF
    else if c == 0xF0
    then rest_of 3 0x90 0xBF
    else if within 0xF1 c 0xF3
    then rest_of 3 0x80 0xBF
    else if c == 0xF4
    then rest_of 3 0x80 0x8F
    else none

unfoldable pub next_byte : Rest → ℕ → Option Rest
unfolding first_byte
next_byte r c =
    if r.need == 0
    then first_byte c
    else if within r.low c r.high
    then rest_of (r.need - 1) 0x80 0xBF
    else none

unfoldable pub utf8_from : Option Rest → Bytes → Bool
unfolding next_byte
utf8_from none s = false
utf8_from (some r) [] = r.need == 0
utf8_from (some r) (c ∷ s) = utf8_from (next_byte r c) s

-- `utf8.Valid`
unfoldable pub utf8_valid : Bytes → Bool
unfolding utf8_from
utf8_valid s = utf8_from (rest_of 0 0x80 0xBF) s

unfoldable pub has_zero : Bytes → Bool
has_zero [] = false
has_zero (c ∷ s) = c == 0 || has_zero s

-- `IsText`
unfoldable pub is_text : Bytes → Bool
unfolding utf8_valid has_zero
is_text s = utf8_valid s && not (has_zero s)
