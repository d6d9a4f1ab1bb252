-- ===== src/Dataproj/Mask.antt =====
-- `Redact` of internal/dataproj/projector.go against its description byte by byte.
use coragent.Base.{
  ℕ, zero, suc, ◌+◌, ◌-◌, ◌≤◌, ◌<◌, Bool, true, false, ◌≡◌, refl, sym, ap, ◌∙◌, List, [], ◌∷◌, ◌++◌,
  Bytes, arith, take, drop, length, length-drop, if◌then◌else◌,
}
use coragent.Dataproj.{Match, Detector, matches, raw_matches, redact, redact_from, marker}
use coragent.Dataproj.Merge.{
  covers, Apart, NonEmpty, Inside, covers-matches, matches-Apart, matches-Inside,
}

-- The text from an offset on: the bytes outside the matches as they are, and one marker where a match begins.
-- The flag says that the byte before was in a match.
unfoldable pub mask : (ℕ → Bool) → Bool → ℕ → Bytes → Bytes
mask f prev i [] = []
mask f prev i (c ∷ s) =
    let hidden = mask f true (i + 1) s in
    let plain = mask f false (i + 1) s in
    if f i then (if prev then hidden else marker ++ hidden) else c ∷ plain

drop-nil : {A : Type 0} → (n : ℕ) → drop {A = A} n [] ≡ []
drop-nil zero = refl
drop-nil (suc n) = refl

drop-drop : {A : Type 0} → (n k e : ℕ) (s : List A) → n + k ≡ e → drop k (drop n s) ≡ drop e s
drop-drop zero k e s h = ap (λ j. drop j s) (omega arith)
drop-drop (suc n) zero e [] h = sym (drop-nil e)
drop-drop (suc n) (suc k) e [] h = sym (drop-nil e)
drop-drop (suc n) k zero (c ∷ s) h = ground arith
drop-drop (suc n) k (suc e) (c ∷ s) h = drop-drop n k e s (omega arith)

drop-length : {A : Type 0} → (n : ℕ) (s : List A) → n < length s → 0 < length (drop n s)
drop-length n s h = omega (arith, length-drop n s)

module _ (f : ℕ → Bool) where
  mask-clean : (i : ℕ) (s : Bytes) → ((j : ℕ) → i ≤ j → f j ≡ false) → mask f false i s ≡ s
  unfolding mask
  mask-clean i [] h = refl
  mask-clean i (c ∷ s) h = rw (h i (omega arith), mask-clean (i + 1) s (λ j l. h j (omega arith)))

  mask-skip :
      (k i e : ℕ) (s : Bytes)
      → i + k ≡ e
      → ((j : ℕ) → i ≤ j → j < e → f j ≡ false)
      → mask f false i s ≡ take k s ++ mask f false e (drop k s)
  unfolding mask
  mask-skip zero i e s l h = ap (λ j. mask f false j s) (omega arith)
  mask-skip (suc k) i e [] l h = refl
  mask-skip (suc k) i e (c ∷ s) l h = rw (
    h i (omega arith) (omega arith),
    mask-skip k (i + 1) e s (omega arith) (λ j a b. h j (omega arith) (omega arith)),
  )

  mask-hidden :
      (k i e : ℕ) (s : Bytes)
      → i + k ≡ e
      → ((j : ℕ) → i ≤ j → j < e → f j ≡ true)
      → mask f true i s ≡ mask f true e (drop k s)
  unfolding mask
  mask-hidden zero i e s l h = ap (λ j. mask f true j s) (omega arith)
  mask-hidden (suc k) i e [] l h = refl
  mask-hidden (suc k) i e (c ∷ s) l h = rw (
    h i (omega arith) (omega arith),
    mask-hidden k (i + 1) e s (omega arith) (λ j a b. h j (omega arith) (omega arith)),
  )

  mask-begin :
      (i : ℕ) (s : Bytes) → 0 < length s → f i ≡ true → mask f false i s ≡ marker ++ mask f true i s
  unfolding mask
  mask-begin i [] l h = ground arith
  mask-begin i (c ∷ s) l h = rw h

  mask-end : (i : ℕ) (s : Bytes) → f i ≡ false → mask f true i s ≡ mask f false i s
  unfolding mask
  mask-end i [] h = refl
  mask-end i (c ∷ s) h = rw h

covers-Apart : (n : ℕ) (ms : List Match) (j : ℕ) → Apart n ms → j < n → covers ms j ≡ false
unfolding covers
covers-Apart n [] j a h = refl
covers-Apart n (m ∷ ms) j (b, l, a) h =
    ground (arith, covers-Apart (m.end + 1) ms j a (omega arith))

Apart-weaken : (n k : ℕ) (ms : List Match) → k ≤ n → Apart n ms → Apart k ms
Apart-weaken n k [] h a = tt
Apart-weaken n k (m ∷ ms) h (b, l, a) = (omega arith, l, a)

-- Within the first match, and past it.
covers-first :
    (m : Match) (ms : List Match) (j : ℕ) → m.start ≤ j → j < m.end → covers (m ∷ ms) j ≡ true
unfolding covers
covers-first m ms j a b = ground arith

covers-past : (m : Match) (ms : List Match) (j : ℕ) → m.end ≤ j → covers (m ∷ ms) j ≡ covers ms j
unfolding covers
covers-past m ms j a = ground arith

redact_from-mask :
    (f : ℕ → Bool) (text : Bytes) (n : ℕ) (ms : List Match)
    → Apart n ms
    → Inside (length text) ms
    → ((j : ℕ) → n ≤ j → f j ≡ covers ms j)
    → redact_from text n ms ≡ mask f false n (drop n text)
unfolding redact_from
redact_from-mask f text n [] a i h =
    sym (mask-clean f n (drop n text) (λ j l. h j l ∙ unfold covers in refl))
redact_from-mask f text n (m ∷ ms) (b, l, a) (k, i) h =
    let skipped : mask f false n (drop n text)
        ≡ take (m.start - n) (drop n text)
          ++ mask f false m.start (drop (m.start - n) (drop n text)) =
      mask-skip f (m.start - n) n m.start (drop n text) (omega arith)
        (λ j u v. h j u ∙ covers-Apart m.start (m ∷ ms) j (omega arith, l, a) v) in
    let begun : mask f false m.start (drop m.start text)
        ≡ marker ++ mask f true m.start (drop m.start text) =
      mask-begin f m.start (drop m.start text) (drop-length m.start text (omega arith))
        (h m.start b ∙ covers-first m ms m.start (omega arith) l) in
    let hidden : mask f true m.start (drop m.start text)
        ≡ mask f true m.end (drop (m.end - m.start) (drop m.start text)) =
      mask-hidden f (m.end - m.start) m.start m.end (drop m.start text) (omega arith)
        (λ j u v. h j (omega arith) ∙ covers-first m ms j u v) in
    let ended : mask f true m.end (drop m.end text) ≡ mask f false m.end (drop m.end text) =
      mask-end f m.end (drop m.end text) (
        h m.end (omega arith)
        ∙ covers-past m ms m.end (omega arith)
        ∙ covers-Apart (m.end + 1) ms m.end a (omega arith)) in
    let rest : redact_from text m.end ms ≡ mask f false m.end (drop m.end text) =
      redact_from-mask f text m.end ms (Apart-weaken (m.end + 1) m.end ms (omega arith) a) i
        (λ j u. h j (omega arith) ∙ covers-past m ms j u) in
    rw (
      skipped,
      drop-drop n (m.start - n) m.start text (omega arith),
      begun,
      hidden,
      drop-drop m.start (m.end - m.start) m.end text (omega arith),
      ended,
      rest,
    )

-- A redacted text is the text with every byte that some rule matched taken out, and one marker for each run of
-- such bytes, where the rules' matches are not empty and lie inside the text.
pub redact-mask :
    (d : Detector) (text : Bytes)
    → NonEmpty (raw_matches d text)
    → Inside (length text) (raw_matches d text)
    → (redact d text).0 ≡ mask (covers (raw_matches d text)) false 0 text
unfolding redact
redact-mask d text h i =
    redact_from-mask (covers (raw_matches d text)) text 0 (matches d text) (matches-Apart d text h)
      (matches-Inside d text (length text) i) (λ j l. sym (covers-matches d text j))
