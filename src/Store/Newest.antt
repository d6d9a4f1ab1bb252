-- ===== src/Store/Newest.antt =====
-- What `List` of internal/store/store.go returns, and in which order.
use coragent.Base.{
  ℕ, ◌+◌, Bool, true, false, ◌≡◌, refl, inl, inr, Bool-cases, List, [], ◌∷◌, ◌++◌, Bytes, ltb, ◌==◌,
  if◌then◌else◌, arith, ◌⊎◌, ◌<◌, ap, ◌∙◌, subst,
}
use coragent.Errors.{Result, ok, err, Result-cases}
use coragent.Store.{Store}
use coragent.Store.Open.{
  Codec, Entry, directory, missing, other_file, open_session, validate_session_id,
}
use coragent.Store.Listing.{
  Summary, less, newer, insert, sort, is_directory, with_opened, summaries, list,
}

-- A name is at most another one, byte by byte: it begins the other, or the first byte that differs is smaller.
abbrev pub AtMost : Bytes → Bytes → Type 0
AtMost s t =
    ((r : Bytes) × (t ≡ s ++ r))
    ⊎ ((p q r : Bytes) × (c d : ℕ) × (c < d) × (s ≡ p ++ c ∷ q) × (t ≡ p ++ d ∷ r))

-- The first session was active later, or both at the same time and their names are in order.
abbrev pub InOrder : Summary → Summary → Type 0
InOrder a b =
    (b.last_activity < a.last_activity)
    ⊎ ((a.last_activity ≡ b.last_activity) × AtMost a.session_id b.session_id)

-- The sessions stand in that order.
abbrev pub Newest : List Summary → Type 0
Newest [] = Unit
Newest (a ∷ []) = Unit
Newest (a ∷ b ∷ bs) = InOrder a b × Newest (b ∷ bs)

later_byte : (c : ℕ) (s t : Bytes) → AtMost s t → AtMost (c ∷ s) (c ∷ t)
later_byte c s t (inl (r, e)) = inl (r, ap (λ z. c ∷ z) e)
later_byte c s t (inr (p, q, r, a, b, l, e, f)) =
    inr (c ∷ p, q, r, a, b, l, ap (λ z. c ∷ z) e, ap (λ z. c ∷ z) f)

less-AtMost : (s t : Bytes) → less t s ≡ false → AtMost s t
unfolding less
less-AtMost [] t h = inl (t, refl)
less-AtMost (c ∷ s) [] h = cc
less-AtMost (c ∷ s) (d ∷ t) h = elim (Bool-cases (ltb c d)) [
  | inl e ↦ inr ([], s, t, c, d, ground arith, refl, refl)
  | inr e ↦
      let same : c ≡ d = ground (arith, e, h) in
      let rest : less t s ≡ false = ground (arith, e, h) in
      subst (λ z. AtMost (c ∷ s) (z ∷ t)) same (later_byte c s t (less-AtMost s t rest))
]

newer-InOrder : (a b : Summary) → newer b a ≡ false → InOrder a b
newer-InOrder a b h = elim (Bool-cases (b.last_activity == a.last_activity)) [
  | inl e ↦ inr (ground (arith, e), less-AtMost a.session_id b.session_id (rw e at h))
  | inr e ↦ inl (ground (arith, e, h))
]

less-asym : (s t : Bytes) → less s t ≡ true → less t s ≡ false
unfolding less
less-asym [] [] h = refl
less-asym [] (d ∷ t) h = refl
less-asym (c ∷ s) [] h = cc
less-asym (c ∷ s) (d ∷ t) h = ground (arith, less-asym s t)

newer-asym : (a b : Summary) → newer a b ≡ true → newer b a ≡ false
newer-asym a b h = ground (arith, less-asym a.session_id b.session_id)

insert-Newest : (a : Summary) (bs : List Summary) → Newest bs → Newest (insert a bs)
unfolding insert
insert-Newest a [] h = tt
insert-Newest a (b ∷ []) h = elim (Bool-cases (newer b a)) [
  | inl e ↦ rw e (newer-InOrder b a (newer-asym b a e), tt)
  | inr e ↦ rw e (newer-InOrder a b e, tt)
]
insert-Newest a (b ∷ d ∷ bs) (k, h) = elim (Bool-cases (newer b a)) [
  | inr e ↦ rw e (newer-InOrder a b e, (k, h))
  | inl e ↦ elim (Bool-cases (newer d a)) [
    | inl f ↦ rw (e, f) (k, rw f at (insert-Newest a (d ∷ bs) h))
    | inr f ↦ rw (e, f) (newer-InOrder b a (newer-asym b a e), (newer-InOrder a d f, h))
  ]
]

sort-Newest : (more : List Summary) → Newest (sort more)
unfolding sort
sort-Newest [] = tt
sort-Newest (a ∷ more) = insert-Newest a (sort more) (sort-Newest more)

-- How often a summary with an ID stands in a list.
unfoldable pub count : (Summary → Bool) → List Summary → ℕ
count p [] = 0
count p (a ∷ more) = (if p a then 1 else 0) + count p more

insert-count :
    (p : Summary → Bool) (a : Summary) (bs : List Summary)
    → count p (insert a bs) ≡ (if p a then 1 else 0) + count p bs
unfolding insert count
insert-count p a [] = refl
insert-count p a (b ∷ bs) = elim (Bool-cases (newer b a)) [
  | inl e ↦ rw e (omega (arith, insert-count p a bs))
  | inr e ↦ rw e refl
]

sort-count : (p : Summary → Bool) (more : List Summary) → count p (sort more) ≡ count p more
unfolding sort count
sort-count p [] = refl
sort-count p (a ∷ more) = omega (arith, insert-count p a (sort more), sort-count p more)

-- One for a session that opens and whose manifest fits.
abbrev fitting : (Summary → Bool) → Result Store → ℕ
fitting p (err e) = 0
fitting p (ok s) =
    if p (record {
      session_id = s.manifest.session_id;
      workspace = s.manifest.workspace;
      last_activity = s.manifest.updated_at;
      closed = s.manifest.closed;
    })
    then 1
    else 0

module _ (c : Codec) where
  -- How many entries of the root `Open` accepts, with a manifest that fits.
  unfoldable pub opening : (Summary → Bool) → List (Bytes × Entry) → ℕ
  unfolding open_session
  opening p [] = 0
  opening p ((name, entry) ∷ es) = fitting p (open_session c name [] entry) + opening p es

  no_directory :
      (p : Summary → Bool) (name : Bytes) (entry : Entry)
      → is_directory entry ≡ false
      → fitting p (open_session c name [] entry) ≡ 0
  unfolding open_session
  no_directory p name missing h = elim (Result-cases (validate_session_id name)) [
    | inl (x, f) ↦ rw f refl
    | inr (_, f) ↦ rw f refl
  ]
  no_directory p name other_file h = elim (Result-cases (validate_session_id name)) [
    | inl (x, f) ↦ rw f refl
    | inr (_, f) ↦ rw f refl
  ]
  no_directory p name (directory d) h = cc

  with_opened-count :
      (p : Summary → Bool) (r : Result Store) (rest : List Summary)
      → count p (with_opened r rest) ≡ fitting p r + count p rest
  unfolding count
  with_opened-count p (err e) rest = omega arith
  with_opened-count p (ok s) rest = refl

  summaries-count :
      (p : Summary → Bool) (es : List (Bytes × Entry)) → count p (summaries c es) ≡ opening p es
  unfolding summaries opening count
  summaries-count p [] = refl
  summaries-count p ((name, entry) ∷ es) = elim (Bool-cases (is_directory entry)) [
    | inl e ↦ rw e (
        with_opened-count p (open_session c name [] entry) (summaries c es)
        ∙ ap (λ n. fitting p (open_session c name [] entry) + n) (summaries-count p es))
    | inr e ↦ rw e (omega (arith, no_directory p name entry e, summaries-count p es))
  ]

  -- `List` gives the summaries of exactly the entries that `Open` accepts: whatever is looked for in the manifests, as
  -- many summaries have it as there are such entries. The latest activity comes first, and among sessions of the same
  -- time the smaller name.
  pub list-lem :
      (entries : List (Bytes × Entry))
      → Newest (list c entries)
        × ((p : Summary → Bool) → count p (list c entries) ≡ opening p entries)
  unfolding list
  list-lem entries = (
    sort-Newest (summaries c entries),
    λ p. sort-count p (summaries c entries) ∙ summaries-count p entries,
  )
