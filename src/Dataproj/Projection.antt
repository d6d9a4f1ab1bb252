-- ===== src/Dataproj/Projection.antt =====
-- `Contains`, `ValidatePrompt` and `ProjectText` of internal/dataproj/projector.go.
use coragent.Base.{
  ◌<◌, true, false, ◌≡◌, ◌⊎◌, refl, ◌∙◌, Bool-cases, inl, inr, List, [], ◌∷◌, Bytes, arith, leb,
  ltb, length, if◌then◌else◌,
}
use coragent.Errors.{ok, err, sensitive_prompt}
use coragent.Dataproj.{
  Match, Detector, insert, sort, merge, merge_from, matches, raw_matches, before, is_empty,
  contains, validate_prompt, project_text, normal, sensitive, redact, redact_from,
}

insert-some : (m : Match) (ms : List Match) → is_empty (insert m ms) ≡ false
unfolding insert
insert-some m [] = refl
insert-some m (n ∷ ns) = elim (Bool-cases (before n m)) [ inl e ↦ rw e refl | inr e ↦ rw e refl ]

sort-is_empty : (ms : List Match) → is_empty (sort ms) ≡ is_empty ms
unfolding sort
sort-is_empty [] = refl
sort-is_empty (m ∷ ms) = insert-some m (sort ms)

merge_from-some : (last : Match) (ms : List Match) → is_empty (merge_from last ms) ≡ false
unfolding merge_from
merge_from-some last [] = refl
merge_from-some last (m ∷ ms) = elim (Bool-cases (leb m.start last.end)) [
  | inl c ↦
      rw c
        (merge_from-some (record last { end = if ltb last.end m.end then m.end else last.end }) ms)
  | inr c ↦ rw c refl
]

merge-is_empty : (ms : List Match) → is_empty (merge ms) ≡ is_empty ms
unfolding merge
merge-is_empty [] = refl
merge-is_empty (m ∷ ms) = merge_from-some m ms

matches-is_empty :
    (d : Detector) (text : Bytes) → is_empty (matches d text) ≡ is_empty (raw_matches d text)
unfolding matches
matches-is_empty d text =
    merge-is_empty (sort (raw_matches d text)) ∙ sort-is_empty (raw_matches d text)

is_empty-nil : (ms : List Match) → is_empty ms ≡ true → ms ≡ []
is_empty-nil [] h = refl
is_empty-nil (m ∷ ms) h = cc

is_empty-length : (ms : List Match) → is_empty ms ≡ false → 0 < length ms
is_empty-length [] h = cc
is_empty-length (m ∷ ms) h = omega arith

-- A prompt is refused exactly if some rule of the detector matches in it; then its projection is classified as
-- sensitive and counts at least one marker, and otherwise its projection is the text itself, classified as normal.
pub project_text-validate_prompt :
    (d : Detector) (text : Bytes)
    → ((raw_matches d text ≡ [])
        × (validate_prompt d text ≡ ok tt)
        × (project_text d text ≡ record { content = text; class = normal; redacted_count = 0 }))
      ⊎ ((is_empty (raw_matches d text) ≡ false)
          × (validate_prompt d text ≡ err sensitive_prompt)
          × ((project_text d text).class ≡ sensitive)
          × (0 < (project_text d text).redacted_count))
unfolding validate_prompt contains project_text redact
project_text-validate_prompt d text = elim (Bool-cases (is_empty (raw_matches d text))) [
  | inl e ↦
      let none_found : matches d text ≡ [] =
        is_empty-nil (matches d text) (matches-is_empty d text ∙ e) in
      inl (
        is_empty-nil (raw_matches d text) e,
        rw none_found refl,
        rw none_found (unfold redact_from in refl),
      )
  | inr e ↦
      let found : is_empty (matches d text) ≡ false = matches-is_empty d text ∙ e in
      let counted : 0 < length (matches d text) = is_empty-length (matches d text) found in
      inr (e, rw found refl, ground arith, counted)
]
