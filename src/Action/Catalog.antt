-- ===== src/Action/Catalog.antt =====
-- `NewBroker` and `Catalog` of internal/action/broker.go. The test of a schema is a parameter.
use coragent.Base.{
  ◌+◌, Bool, true, false, not, ◌&&◌, ◌≡◌, refl, subst, Option, none, some, Option-cases, List, [],
  ◌∷◌, ◌++◌, Bytes, blank, same, same_refl, length, if◌then◌else◌, is_some, arith, All, All-map,
  inl, inr, Bool-cases,
}
use coragent.Base.Dict.{Dict, get, put}
use coragent.Errors.{
  Result, ok, err, ◌>>◌, require, >>=-eq-ok, ok-injective, require-eq-ok, invalid_tool,
}
use mathlib.Core.Option.{some-injective}
use coragent.Provider.{ToolDefinition}
use coragent.Store.Listing.{less}
use coragent.Openai.Wire.{valid_tools}
use coragent.Action.{Tool}

-- A tool with its `Definition`.
pub record Offered : Type 0 where
  pub definition : ToolDefinition
  pub tool : Tool

-- `sort.Strings`
unfoldable pub insert : Bytes → List Bytes → List Bytes
unfolding less
insert s [] = s ∷ []
insert s (t ∷ ts) = if less t s then t ∷ insert s ts else s ∷ t ∷ ts

unfoldable pub sort : List Bytes → List Bytes
unfolding insert
sort [] = []
sort (s ∷ ss) = insert s (sort ss)

abbrev pub names : Dict Offered → List Bytes
names [] = []
names ((name, o) ∷ m) = name ∷ names m

abbrev definition_of : Option Offered → List ToolDefinition
definition_of none = []
definition_of (some o) = o.definition ∷ []

unfoldable pub definitions : Dict Offered → List Bytes → List ToolDefinition
definitions m [] = []
definitions m (name ∷ more) = definition_of (get m name) ++ definitions m more

-- `Catalog`
unfoldable pub catalog : Dict Offered → List ToolDefinition
unfolding sort definitions
catalog m = definitions m (sort (names m))

module _ (valid : Bytes → Bool) where
  -- The loop of `NewBrokerWithProjector`; a tool may be nil.
  unfoldable pub register : Dict Offered → List (Option Offered) → Result (Dict Offered)
  register m [] = ok m
  register m (none ∷ tools) = err invalid_tool
  register m (some o ∷ tools) = do
    require (not (blank o.definition.name) && valid o.definition.schema) invalid_tool
    require (not (is_some (get m o.definition.name))) invalid_tool
    register (put m o.definition.name o) tools

  -- `NewBroker`: its tools by name.
  unfoldable pub new_broker : List (Option Offered) → Result (Dict Offered)
  unfolding register
  new_broker tools = register [] tools

  -- A definition that the model may see.
  abbrev Usable : Offered → Type 0
  Usable o = (not (blank o.definition.name) && valid o.definition.schema) ≡ true

  abbrev AllUsable : Dict Offered → Type 0
  AllUsable = All (λ (e : Bytes × Offered). Usable e.1)

  put-Usable :
      (m : Dict Offered) (k : Bytes) (o : Offered) → AllUsable m → Usable o → AllUsable (put m k o)
  unfolding put
  put-Usable [] k o h u = (u, tt)
  put-Usable ((j, p) ∷ m) k o (h, hs) u = elim (Bool-cases (same j k)) [
    | inl e ↦ rw e (u, hs)
    | inr e ↦ rw e (h, put-Usable m k o hs u)
  ]

  get-Usable :
      (m : Dict Offered) (k : Bytes) (o : Offered) → AllUsable m → get m k ≡ some o → Usable o
  unfolding get
  get-Usable [] k o h e = cc
  get-Usable ((j, p) ∷ m) k o (h, hs) e = elim (Bool-cases (same j k)) [
    | inl f ↦ subst Usable (some-injective _ _ (rw f at e)) h
    | inr f ↦ get-Usable m k o hs (rw f at e)
  ]

  definitions-valid :
      (m : Dict Offered) (ns : List Bytes)
      → AllUsable m
      → valid_tools valid (definitions m ns) ≡ true
  unfolding definitions valid_tools
  definitions-valid m [] h = refl
  definitions-valid m (n ∷ ns) h = elim (Option-cases (get m n)) [
    | inl e ↦ rw e (definitions-valid m ns h)
    | inr (o, e) ↦ rw e (ground (arith, get-Usable m n o h e, definitions-valid m ns h))
  ]

length-put-new :
    (m : Dict Offered) (k : Bytes) (o : Offered)
    → is_some (get m k) ≡ false
    → length (put m k o) ≡ length m + 1
unfolding put get
length-put-new [] k o h = omega arith
length-put-new ((j, p) ∷ m) k o h = elim (Bool-cases (same j k)) [
  | inl e ↦ absurd (ground (arith, e, h))
  | inr e ↦ rw e (omega (arith, length-put-new m k o (rw e at h)))
]

names-held : (m : Dict Offered) → All (λ (k : Bytes). is_some (get m k) ≡ true) (names m)
unfolding get
names-held [] = tt
names-held ((j, p) ∷ m) =
    (rw (same_refl j) refl, All-map (names m) (λ k h. ground (arith, h)) (names-held m))

length-names : (m : Dict Offered) → length (names m) ≡ length m
length-names [] = refl
length-names ((j, p) ∷ m) = omega (arith, length-names m)

module _ (P : Bytes → Type 0) where
  insert-All : (s : Bytes) (ts : List Bytes) → P s → All P ts → All P (insert s ts)
  unfolding insert
  insert-All s [] h a = (h, tt)
  insert-All s (t ∷ ts) h (b, a) = elim (Bool-cases (less t s)) [
    | inl e ↦ rw e (b, insert-All s ts h a)
    | inr e ↦ rw e (h, (b, a))
  ]

  sort-All : (ss : List Bytes) → All P ss → All P (sort ss)
  unfolding sort
  sort-All [] a = tt
  sort-All (s ∷ ss) (h, a) = insert-All s (sort ss) h (sort-All ss a)

length-insert : (s : Bytes) (ts : List Bytes) → length (insert s ts) ≡ length ts + 1
unfolding insert
length-insert s [] = omega arith
length-insert s (t ∷ ts) = elim (Bool-cases (less t s)) [
  | inl e ↦ rw e (omega (arith, length-insert s ts))
  | inr e ↦ rw e (omega arith)
]

length-sort : (ss : List Bytes) → length (sort ss) ≡ length ss
unfolding sort
length-sort [] = refl
length-sort (s ∷ ss) = omega (arith, length-insert s (sort ss), length-sort ss)

length-definitions :
    (m : Dict Offered) (ns : List Bytes)
    → All (λ (k : Bytes). is_some (get m k) ≡ true) ns
    → length (definitions m ns) ≡ length ns
unfolding definitions
length-definitions m [] h = refl
length-definitions m (n ∷ ns) (h, hs) = elim (Option-cases (get m n)) [
  | inl e ↦ absurd (ground (arith, e, h))
  | inr (o, e) ↦ rw e (omega (arith, length-definitions m ns hs))
]

register-lem :
    (valid : Bytes → Bool) (m : Dict Offered) (tools : List (Option Offered)) (made : Dict Offered)
    → AllUsable valid m
    → register valid m tools ≡ ok made
    → AllUsable valid made × (length made ≡ length m + length tools)
unfolding register
register-lem valid m [] made u h =
    subst (λ (d : Dict Offered). AllUsable valid d × (length d ≡ length m + 0)) (ok-injective h)
      (u, omega arith)
register-lem valid m (none ∷ tools) made u h = cc
register-lem valid m (some o ∷ tools) made u h =
    let (_, usable, h1) =
      >>=-eq-ok (require (not (blank o.definition.name) && valid o.definition.schema) invalid_tool)
        _ h in
    let (_, free, h2) =
      >>=-eq-ok (require (not (is_some (get m o.definition.name))) invalid_tool) _ h1 in
    let (all, n) =
      register-lem valid (put m o.definition.name o) tools made
        (put-Usable valid m o.definition.name o u (require-eq-ok _ invalid_tool usable)) h2 in
    (all, omega (arith, n, length-put-new m o.definition.name o (ground (arith, free))))

-- The catalog of a broker that was built has one definition for each tool, and the adapter accepts them all: each has a
-- name and a valid schema.
pub catalog-valid :
    (valid : Bytes → Bool) (tools : List (Option Offered)) (made : Dict Offered)
    → new_broker valid tools ≡ ok made
    → (valid_tools valid (catalog made) ≡ true) × (length (catalog made) ≡ length tools)
unfolding new_broker catalog
catalog-valid valid tools made h =
    let (all, n) = register-lem valid [] tools made tt h in
    (
      definitions-valid valid made (sort (names made)) all,
      omega (
        arith,
        length-definitions made (sort (names made))
            (sort-All (λ k. is_some (get made k) ≡ true) (names made) (names-held made)),
        length-sort (names made),
        length-names made,
        n,
      ),
    )
