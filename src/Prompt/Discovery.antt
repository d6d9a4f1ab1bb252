-- ===== src/Prompt/Discovery.antt =====
-- What `DiscoverInstructions` of internal/prompt/instructions.go returns.
use coragent.Base.{
  ℕ, ◌≤◌, false, ◌≡◌, refl, subst, inl, inr, Bool-cases, List, [], ◌∷◌, Bytes, same, same_iff, ltb,
  leb, length, arith, All,
}
use coragent.Errors.{ok, ok-injective, >>=-eq-ok}
use coragent.Prompt.{Instruction}
use coragent.Prompt.Instructions.{
  Reading, absent, unreadable, bytes, Place, insert, sort, add, collect_one, collect, discover,
  places_from, scope_dirs, max_instruction,
}

-- The precedences ascend from a bound.
abbrev pub Ascends : ℕ → List Instruction → Type 0
Ascends n [] = Unit
Ascends n (d ∷ ds) = (n ≤ d.source.precedence) × Ascends d.source.precedence ds

insert-Ascends :
    (n : ℕ) (d : Instruction) (ds : List Instruction)
    → n ≤ d.source.precedence
    → Ascends n ds
    → Ascends n (insert d ds)
unfolding insert
insert-Ascends n d [] h a = (h, tt)
insert-Ascends n d (e ∷ es) h (b, a) =
    elim (Bool-cases (leb d.source.precedence e.source.precedence)) [
      | inl f ↦ rw f (h, (ground arith, a))
      | inr f ↦ rw f (b, insert-Ascends e.source.precedence d es (ground arith) a)
    ]

sort-Ascends : (ds : List Instruction) → Ascends 0 (sort ds)
unfolding sort
sort-Ascends [] = tt
sort-Ascends (d ∷ ds) = insert-Ascends 0 d (sort ds) (omega arith) (sort-Ascends ds)

-- No instruction of the list has the digest.
abbrev pub Without : Bytes → List Instruction → Type 0
Without h = All (λ (d : Instruction). same d.source.sha256 h ≡ false)

-- The digests are distinct.
abbrev pub Distinct : List Instruction → Type 0
Distinct [] = Unit
Distinct (d ∷ ds) = Without d.source.sha256 ds × Distinct ds

same_sym : (s t : Bytes) → same s t ≡ false → same t s ≡ false
same_sym s t h = ground (arith, same_iff s t, same_iff t s)

module _ {ℓ} (P : Instruction → Type ℓ) where
  insert-All : (d : Instruction) (ds : List Instruction) → P d → All P ds → All P (insert d ds)
  unfolding insert
  insert-All d [] h a = (h, tt)
  insert-All d (e ∷ es) h (b, a) = elim (Bool-cases (leb d.source.precedence e.source.precedence)) [
    | inl f ↦ rw f (h, (b, a))
    | inr f ↦ rw f (b, insert-All d es h a)
  ]

  sort-All : (ds : List Instruction) → All P ds → All P (sort ds)
  unfolding sort
  sort-All [] a = tt
  sort-All (d ∷ ds) (h, a) = insert-All d (sort ds) h (sort-All ds a)

insert-Distinct :
    (d : Instruction) (ds : List Instruction)
    → Without d.source.sha256 ds
    → Distinct ds
    → Distinct (insert d ds)
unfolding insert
insert-Distinct d [] h a = (tt, tt)
insert-Distinct d (e ∷ es) (h, k) (b, a) =
    elim (Bool-cases (leb d.source.precedence e.source.precedence)) [
      | inl f ↦ rw f ((h, k), (b, a))
      | inr f ↦ rw f (
        insert-All (λ (x : Instruction). same x.source.sha256 e.source.sha256 ≡ false) d es
            (same_sym e.source.sha256 d.source.sha256 h) b,
        insert-Distinct d es k a,
      )
    ]

sort-Distinct : (ds : List Instruction) → Distinct ds → Distinct (sort ds)
unfolding sort
sort-Distinct [] a = tt
sort-Distinct (d ∷ ds) (h, a) =
    insert-Distinct d (sort ds)
      (sort-All (λ (x : Instruction). same x.source.sha256 d.source.sha256 ≡ false) ds h)
      (sort-Distinct ds a)

module _ (read : Bytes → Reading) (hash project : Bytes → Bytes) where
  -- The instruction is the projection of some file of at most 256 KiB that was read, and its digest is that file's.
  abbrev pub FromFile : Instruction → Type 0
  FromFile d =
      (rel raw : Bytes) × (read rel ≡ bytes raw)
      × (length raw ≤ 262144)
      × (d.content ≡ project raw)
      × (d.source.sha256 ≡ hash raw)

  add-Without :
      (h : Bytes) (p : Place) (raw : Bytes) (ds : List Instruction)
      → same (hash raw) h ≡ false
      → Without h ds
      → Without h (add read hash project p raw ds)
  unfolding add
  add-Without h p raw [] n a = (n, tt)
  add-Without h p raw (d ∷ ds) n (b, a) = elim (Bool-cases (same d.source.sha256 (hash raw))) [
    | inl e ↦ rw e (b, a)
    | inr e ↦ rw e (b, add-Without h p raw ds n a)
  ]

  add-Distinct :
      (p : Place) (raw : Bytes) (ds : List Instruction)
      → Distinct ds
      → Distinct (add read hash project p raw ds)
  unfolding add
  add-Distinct p raw [] a = (tt, tt)
  add-Distinct p raw (d ∷ ds) (b, a) = elim (Bool-cases (same d.source.sha256 (hash raw))) [
    | inl e ↦ rw e (b, a)
    | inr e ↦ rw e (
      add-Without d.source.sha256 p raw ds (same_sym d.source.sha256 (hash raw) e) b,
      add-Distinct p raw ds a,
    )
  ]

  add-FromFile :
      (p : Place) (raw : Bytes) (ds : List Instruction)
      → read p.rel ≡ bytes raw
      → length raw ≤ 262144
      → All FromFile ds
      → All FromFile (add read hash project p raw ds)
  unfolding add
  add-FromFile p raw [] r l a = ((p.rel, raw, r, l, refl, refl), tt)
  add-FromFile p raw (d ∷ ds) r l (b, a) = elim (Bool-cases (same d.source.sha256 (hash raw))) [
    | inl e ↦ rw e (b, a)
    | inr e ↦ rw e (b, add-FromFile p raw ds r l a)
  ]

  collect_one-lem :
      (p : Place) (r : Reading) (ds es : List Instruction)
      → read p.rel ≡ r
      → collect_one read hash project p r ds ≡ ok es
      → Distinct ds
      → All FromFile ds
      → Distinct es × All FromFile es
  collect_one-lem p absent ds es e h d f =
      let same_docs : ds ≡ es = ok-injective h in
      (subst Distinct same_docs d, subst (All FromFile) same_docs f)
  collect_one-lem p (unreadable x) ds es e h d f = cc
  collect_one-lem p (bytes raw) ds es e h d f =
      elim (Bool-cases (ltb max_instruction (length raw))) [
        | inl g ↦ absurd (ground (arith, g, h))
        | inr g ↦
            let end : add read hash project p raw ds ≡ es = ok-injective (rw g at h) in
            (
              subst Distinct end (add-Distinct p raw ds d),
              subst (All FromFile) end (add-FromFile p raw ds e (ground arith) f),
            )
      ]

  collect-lem :
      (ps : List Place) (ds es : List Instruction)
      → collect read hash project ps ds ≡ ok es
      → Distinct ds
      → All FromFile ds
      → Distinct es × All FromFile es
  unfolding collect
  collect-lem [] ds es h d f =
      let same_docs : ds ≡ es = ok-injective h in
      (subst Distinct same_docs d, subst (All FromFile) same_docs f)
  collect-lem (p ∷ ps) ds es h d f =
      let (more, g, rest) =
        >>=-eq-ok (collect_one read hash project p (read p.rel) ds)
          (λ more. collect read hash project ps more) h in
      let (d', f') = collect_one-lem p (read p.rel) ds more refl g d f in
      collect-lem ps more es rest d' f'

  -- The instructions that are discovered: sorted by their precedence, with distinct digests, and the content of each
  -- is the projection of a file of at most 256 KiB that was read, whose digest it has.
  pub discover-lem :
      (active : Bytes) (docs : List Instruction)
      → discover read hash project active ≡ ok docs
      → Ascends 0 docs × Distinct docs × All FromFile docs
  unfolding discover
  discover-lem active docs h =
      let (found, f, sorted) =
        >>=-eq-ok (collect read hash project (places_from 0 (scope_dirs active)) [])
          (λ ds. ok (sort ds)) h in
      let (d, p) = collect-lem (places_from 0 (scope_dirs active)) [] found f tt tt in
      let end : sort found ≡ docs = ok-injective sorted in
      (
        subst (Ascends 0) end (sort-Ascends found),
        subst Distinct end (sort-Distinct found d),
        subst (All FromFile) end (sort-All FromFile found p),
      )
