-- ===== src/Dataproj/Cut.antt =====
-- `Write` of internal/dataproj/projector.go, one line at a time.
use coragent.Base.{
  ℕ, zero, suc, ◌+◌, false, ◌≡◌, refl, ap, inl, inr, none, some, Option-cases, List, [], ◌∷◌, ◌++◌,
  Bytes, arith, ◌==◌, take, drop, length, All,
}
use coragent.Dataproj.Lines.{
  LineRedactor, newline, last_newline, split_after, trim_newline, project_lines, write_at,
  redact_line,
}

-- No newline stands in a text.
abbrev pub OneLine : Bytes → Type 0
OneLine = All (λ (c : ℕ). (c == newline) ≡ false)

-- The text up to a newline is the first line.
split_after-line :
    (p s : Bytes) → OneLine p → split_after (p ++ newline ∷ s) ≡ (p ++ newline ∷ []) ∷ split_after s
unfolding split_after
split_after-line [] s h = refl
split_after-line (c ∷ p) s (e, h) = rw (e, split_after-line p s h)

trim_newline-line : (p : Bytes) → OneLine p → trim_newline (p ++ newline ∷ []) ≡ p
unfolding trim_newline
trim_newline-line [] h = refl
trim_newline-line (c ∷ []) (e, h) = refl
trim_newline-line (c ∷ d ∷ p) (e, h) = rw (trim_newline-line (d ∷ p) h)

pub last_newline-none : (p : Bytes) → OneLine p → last_newline p ≡ none
unfolding last_newline
last_newline-none [] h = refl
last_newline-none (c ∷ p) (e, h) = rw (last_newline-none p h, e)

-- Where the last newline stands after a first line: in the rest, or at the end of that line.
last_newline-some :
    (p s : Bytes) (i : ℕ)
    → last_newline s ≡ some i
    → last_newline (p ++ newline ∷ s) ≡ some (length p + suc i)
unfolding last_newline
last_newline-some [] s i h = rw h (ap some (omega arith))
last_newline-some (c ∷ p) s i h = rw (last_newline-some p s i h) (ap some (omega arith))

last_newline-first :
    (p s : Bytes) → last_newline s ≡ none → last_newline (p ++ newline ∷ s) ≡ some (length p)
unfolding last_newline
last_newline-first [] s h = rw h
last_newline-first (c ∷ p) s h = rw (last_newline-first p s h)

take-line :
    {A : Type 0}
    → (p s : List A) (x : A) (i e : ℕ) → length p + i ≡ e
    → take (suc e) (p ++ x ∷ s) ≡ p ++ x ∷ take i s
take-line [] s x i e h = ap (λ j. x ∷ take j s) (omega arith)
take-line (c ∷ p) s x i zero h = ground arith
take-line (c ∷ p) s x i (suc e) h = rw (take-line p s x i e (omega arith))

drop-line :
    {A : Type 0}
    → (p s : List A) (x : A) (i e : ℕ) → length p + i ≡ e
    → drop (suc e) (p ++ x ∷ s) ≡ drop i s
drop-line [] s x i e h = ap (λ j. drop j s) (omega arith)
drop-line (c ∷ p) s x i zero h = ground arith
drop-line (c ∷ p) s x i (suc e) h = drop-line p s x i e (omega arith)

project_lines-line :
    (r : LineRedactor) (p : Bytes) (rest : List Bytes)
    → OneLine p
    → project_lines r ((p ++ newline ∷ []) ∷ rest) ≡ (
        let (safe, count, next) = redact_line r p in
        let (out, last) = project_lines next rest in (safe ++ newline ∷ out, last))
unfolding project_lines
project_lines-line r [] rest h = rw (trim_newline-line [] h)
project_lines-line r (c ∷ p) rest h = rw (trim_newline-line (c ∷ p) h)

-- A write of a first line and of more: the line is projected, and then the rest is written.
pub write_at-line :
    (l : LineRedactor) (p s : Bytes)
    → OneLine p
    → write_at l (p ++ newline ∷ s) (last_newline (p ++ newline ∷ s)) ≡ (
        let (safe, count, next) = redact_line l p in
        let (out, r) = write_at next s (last_newline s) in (safe ++ newline ∷ out, r))
unfolding write_at
write_at-line l p s h = elim (Option-cases (last_newline s)) [
  | inl e ↦
      rw
        (
          last_newline-first p s e,
          e,
          take-line p s newline 0 (length p) (omega arith),
          drop-line p s newline 0 (length p) (omega arith),
          split_after-line p [] h,
          project_lines-line l p (split_after []) h,
        )
        (unfold project_lines split_after in refl)
  | inr (i, e) ↦
      rw
        (
          last_newline-some p s i e,
          e,
          take-line p s newline (suc i) (length p + suc i) (omega arith),
          drop-line p s newline (suc i) (length p + suc i) (omega arith),
          split_after-line p (take (suc i) s) h,
          project_lines-line l p (split_after (take (suc i) s)) h,
        )
        refl
]
