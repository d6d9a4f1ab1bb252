-- ===== src/Dataproj/Merge.antt =====
-- The merged matches of `Matches` in internal/dataproj/projector.go: they cover what the rules found, and lie apart.
use coragent.Base.{
  ℕ, ◌+◌, ◌≤◌, ◌<◌, Bool, false, ◌&&◌, ◌||◌, ◌≡◌, refl, Bool-cases, inl, inr, List, [], ◌∷◌, Bytes,
  arith, ◌∙◌, ltb, leb, if◌then◌else◌, All,
}
use coragent.Dataproj.{
  Match, Detector, insert, sort, merge, merge_from, matches, raw_matches, before,
}

-- A byte offset lies in some match.
unfoldable pub covers : List Match → ℕ → Bool
covers [] i = false
covers (m ∷ ms) i = leb m.start i && ltb i m.end || covers ms i

covers-insert : (m : Match) (ms : List Match) (i : ℕ) → covers (insert m ms) i ≡ covers (m ∷ ms) i
unfolding covers insert
covers-insert m [] i = refl
covers-insert m (n ∷ ns) i = ground (arith, covers-insert m ns i)

pub covers-sort : (ms : List Match) (i : ℕ) → covers (sort ms) i ≡ covers ms i
unfolding covers sort
covers-sort [] i = refl
covers-sort (m ∷ ms) i = ground (arith, covers-insert m (sort ms) i, covers-sort ms i)

-- The starts ascend from a bound.
abbrev pub Ascends : ℕ → List Match → Type 0
Ascends s [] = Unit
Ascends s (m ∷ ms) = (s ≤ m.start) × Ascends m.start ms

insert-Ascends :
    (s : ℕ) (m : Match) (ms : List Match) → s ≤ m.start → Ascends s ms → Ascends s (insert m ms)
unfolding insert
insert-Ascends s m [] h a = (h, tt)
insert-Ascends s m (n ∷ ns) h (b, a) = elim (Bool-cases (before n m)) [
  | inl e ↦ rw e (b, insert-Ascends n.start m ns (ground arith) a)
  | inr e ↦ rw e (h, (ground arith, a))
]

pub sort-Ascends : (ms : List Match) → Ascends 0 (sort ms)
unfolding sort
sort-Ascends [] = tt
sort-Ascends (m ∷ ms) = insert-Ascends 0 m (sort ms) (omega arith) (sort-Ascends ms)

Ascends-weaken : (s n : ℕ) (ms : List Match) → s ≤ n → Ascends n ms → Ascends s ms
Ascends-weaken s n [] h a = tt
Ascends-weaken s n (m ∷ ms) h (b, a) = (omega arith, a)

-- The last match, with the next one that touches it.
abbrev extended : Match → Match → Match
extended last m = record last { end = if ltb last.end m.end then m.end else last.end }

covers-merge_from :
    (last : Match) (ms : List Match) (i : ℕ)
    → Ascends last.start ms
    → covers (merge_from last ms) i ≡ covers (last ∷ ms) i
unfolding covers merge_from
covers-merge_from last [] i a = refl
covers-merge_from last (m ∷ ms) i (b, a) = elim (Bool-cases (leb m.start last.end)) [
  | inl e ↦
      rw (e, covers-merge_from (extended last m) ms i (Ascends-weaken last.start m.start ms b a))
        (ground arith)
  | inr e ↦ rw e (unfold covers in rw (covers-merge_from m ms i a))
]

-- Matches that are not empty, and lie apart: at least one byte stands between two of them.
abbrev pub Apart : ℕ → List Match → Type 0
Apart n [] = Unit
Apart n (m ∷ ms) = (n ≤ m.start) × (m.start < m.end) × Apart (m.end + 1) ms

-- No match is empty.
abbrev pub NonEmpty : List Match → Type 0
NonEmpty = All (λ (m : Match). m.start < m.end)

module _ {ℓ} (P : Match → Type ℓ) where
  insert-All : (m : Match) (ms : List Match) → P m → All P ms → All P (insert m ms)
  unfolding insert
  insert-All m [] h a = (h, tt)
  insert-All m (n ∷ ns) h (b, a) = elim (Bool-cases (before n m)) [
    | inl e ↦ rw e (b, insert-All m ns h a)
    | inr e ↦ rw e (h, (b, a))
  ]

  pub sort-All : (ms : List Match) → All P ms → All P (sort ms)
  unfolding sort
  sort-All [] a = tt
  sort-All (m ∷ ms) (h, a) = insert-All m (sort ms) h (sort-All ms a)

-- Every match ends in a text of this length.
abbrev pub Inside : ℕ → List Match → Type 0
Inside n = All (λ (m : Match). m.end ≤ n)

merge_from-Inside :
    (n : ℕ) (last : Match) (ms : List Match)
    → last.end ≤ n
    → Inside n ms
    → Inside n (merge_from last ms)
unfolding merge_from
merge_from-Inside n last [] l i = (l, tt)
merge_from-Inside n last (m ∷ ms) l (k, i) = elim (Bool-cases (leb m.start last.end)) [
  | inl c ↦ rw c (merge_from-Inside n (extended last m) ms (ground arith) i)
  | inr c ↦ rw c (l, merge_from-Inside n m ms k i)
]

merge-Inside : (n : ℕ) (ms : List Match) → Inside n ms → Inside n (merge ms)
unfolding merge
merge-Inside n [] i = tt
merge-Inside n (m ∷ ms) (l, i) = merge_from-Inside n m ms l i

merge_from-Apart :
    (n : ℕ) (last : Match) (ms : List Match)
    → n ≤ last.start
    → last.start < last.end
    → Ascends last.start ms
    → NonEmpty ms
    → Apart n (merge_from last ms)
unfolding merge_from
merge_from-Apart n last [] l h a e = (l, h, tt)
merge_from-Apart n last (m ∷ ms) l h (b, a) (k, e) = elim (Bool-cases (leb m.start last.end)) [
  | inl c ↦ rw c (
      merge_from-Apart n (extended last m) ms l (ground arith)
        (Ascends-weaken last.start m.start ms b a) e)
  | inr c ↦ rw c (l, h, merge_from-Apart (last.end + 1) m ms (ground arith) k a e)
]

covers-merge : (ms : List Match) (i : ℕ) → Ascends 0 ms → covers (merge ms) i ≡ covers ms i
unfolding merge
covers-merge [] i a = refl
covers-merge (m ∷ ms) i (b, a) = covers-merge_from m ms i a

merge-Apart : (ms : List Match) → Ascends 0 ms → NonEmpty ms → Apart 0 (merge ms)
unfolding merge
merge-Apart [] a e = tt
merge-Apart (m ∷ ms) (b, a) (h, e) = merge_from-Apart 0 m ms b h a e

-- `Matches` covers a byte offset exactly if some rule found a match over it.
pub covers-matches :
    (d : Detector) (text : Bytes) (i : ℕ)
    → covers (matches d text) i ≡ covers (raw_matches d text) i
unfolding matches
covers-matches d text i =
    covers-merge (sort (raw_matches d text)) i (sort-Ascends (raw_matches d text))
    ∙ covers-sort (raw_matches d text) i

pub matches-Apart :
    (d : Detector) (text : Bytes) → NonEmpty (raw_matches d text) → Apart 0 (matches d text)
unfolding matches
matches-Apart d text e =
    merge-Apart (sort (raw_matches d text)) (sort-Ascends (raw_matches d text))
      (sort-All (λ (m : Match). m.start < m.end) (raw_matches d text) e)

pub matches-Inside :
    (d : Detector) (text : Bytes) (n : ℕ)
    → Inside n (raw_matches d text)
    → Inside n (matches d text)
unfolding matches
matches-Inside d text n i =
    merge-Inside n (sort (raw_matches d text))
      (sort-All (λ (m : Match). m.end ≤ n) (raw_matches d text) i)
