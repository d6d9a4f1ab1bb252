-- ===== src/Dataproj/Tests.antt =====
-- Runs of internal/dataproj/projector.go on small texts. The detector finds the letter K, and a key is the lines
-- between a B and an E.
use coragent.Base.{
  ℕ, suc, ◌+◌, Option, none, some, List, [], ◌∷◌, ◌++◌, Bytes, codes, ◌≡◌, ◌⊎◌, refl, ◌==◌, true,
  false, if◌then◌else◌, arith, ◌<◌,
}
use coragent.Errors.{ok, err, sensitive_prompt}
use coragent.Dataproj.Projection.{project_text-validate_prompt}
use coragent.Dataproj.{
  normal, sensitive, is_empty, validate_prompt, project_text, Span, Detector, redact, raw_matches,
  marker, is_text,
}
use coragent.Dataproj.Merge.{covers}
use coragent.Dataproj.Mask.{mask, redact-mask}
use coragent.Dataproj.Lines.{LineRedactor, close}
use coragent.Dataproj.Stream.{writes, redact_lines, lines_from, writes-redact_lines}
use coragent.Dataproj.Key.{markers, redact_lines-key}

abbrev at : ℕ → ℕ → Span
at i width = record { start = i; end = i + width }

-- Every place of a byte.
abbrev places : ℕ → ℕ → Bytes → List Span
places b i [] = []
places b i (c ∷ s) = let rest = places b (suc i) s in if c == b then at i 1 ∷ rest else rest

abbrev first : List Span → Option Span
first [] = none
first (s ∷ ss) = some s

abbrev find_k : Detector
find_k = record { name = codes "k"; find_all = places 75 0 } ∷ []

abbrev lines : LineRedactor
lines = record {
  detector = find_k;
  find_begin = λ s. first (places 66 0 s);
  find_end = λ s. first (places 69 0 s);
  in_private_key = false;
}

redact_test : redact find_k (codes "aKKb") ≡ (codes "a[REDACTED:CREDENTIAL]b", 1)
unfolding redact
redact_test = refl

is_text_test : is_text (0xC3 ∷ 0xA9 ∷ []) ≡ true
unfolding is_text
is_text_test = refl

is_text_test_overlong : is_text (0xC0 ∷ 0x80 ∷ []) ≡ false
unfolding is_text
is_text_test_overlong = refl

is_text_test_zero : is_text (0x61 ∷ 0 ∷ []) ≡ false
unfolding is_text
is_text_test_zero = refl

stream_test :
    (writes (record { lines = lines; pending = [] }) (codes "aK" ∷ codes "b\nc" ∷ [])).0
    ≡ codes "a[REDACTED:CREDENTIAL]b\n"
unfolding writes redact
stream_test = refl

redact-mask_example :
    (redact find_k (codes "aKKb")).0
    ≡ mask (covers (raw_matches find_k (codes "aKKb"))) false 0 (codes "aKKb")
unfolding raw_matches
redact-mask_example =
    redact-mask find_k (codes "aKKb") (omega arith, (omega arith, tt))
      (omega arith, (omega arith, tt))

writes-redact_lines_example :
    (let (out, last) =
        writes (record { lines = lines; pending = [] }) (codes "aK" ∷ codes "b\nc" ∷ []) in
      out ++ (close last).0)
    ≡ redact_lines lines (lines_from [] (codes "aKb\nc"))
writes-redact_lines_example =
    writes-redact_lines (record { lines = lines; pending = [] }) (codes "aK" ∷ codes "b\nc" ∷ []) tt

redact_lines-key_example :
    redact_lines lines (codes "aBc" ∷ codes "key" ∷ [])
    ≡ (redact find_k (codes "a")).0 ++ (marker ++ markers (codes "key" ∷ []))
redact_lines-key_example =
    redact_lines-key lines (codes "aBc") (codes "key" ∷ []) (at 1 1) refl refl refl (refl, tt)

project_text-validate_prompt_example :
    ((raw_matches find_k (codes "aKb") ≡ [])
      × (validate_prompt find_k (codes "aKb") ≡ ok tt)
      × (project_text find_k (codes "aKb")
          ≡ record { content = codes "aKb"; class = normal; redacted_count = 0 }))
    ⊎ ((is_empty (raw_matches find_k (codes "aKb")) ≡ false)
        × (validate_prompt find_k (codes "aKb") ≡ err sensitive_prompt)
        × ((project_text find_k (codes "aKb")).class ≡ sensitive)
        × (0 < (project_text find_k (codes "aKb")).redacted_count))
project_text-validate_prompt_example = project_text-validate_prompt find_k (codes "aKb")
