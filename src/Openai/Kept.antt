-- ===== src/Openai/Kept.antt =====
-- What `decodeStream` of internal/provider/openai/adapter.go keeps from line to line.
use coragent.Base.{
  ℕ, ◌+◌, ◌≤◌, Bool, false, ◌&&◌, ◌||◌, ◌≡◌, refl, sym, ap, ◌∙◌, subst, ◌⊎◌, inl, inr, Bool-cases,
  Option, none, some, Option-cases, List, [], ◌∷◌, ◌++◌, Bytes, codes, drop, blank, same, ltb, leb,
  ◌==◌, length, length-append, append-nil, append_assoc, arith, All, if◌then◌else◌,
}
use coragent.Base.Int.{pos, leb_ℤ, ltb_ℤ}
use coragent.Provider.{protocol, output_limit}
use coragent.Dataproj.Stream.{joined}
use coragent.Openai
use coragent.Openai.{
  Reader, Decoding, Builder, Part, Choice, Step, Flow, going, leaving, refusing, ◌>>◌, text_step,
  extend_step, part_step, parts_step, finish_step, choices_step, data_step, line_step, lines_step,
  field_step, chunk_step, builder_at, set_builder, builder_or_new, extended, require, calls_from,
  complete, call_of, decode_lines, Decoded, decoded, refused, conclude, fresh, is_new, index_of,
  max_tool_calls, max_tool_call_id, max_tool_name, no_builder,
}

joined-append : (ss : List Bytes) (t : Bytes) → joined (ss ++ t ∷ []) ≡ joined ss ++ t
joined-append [] t = append-nil t
joined-append (s ∷ ss) t = rw (joined-append ss t, append_assoc s (joined ss) t)

-- A builder within the limits.
abbrev pub Bounded : ℕ → Builder → Type 0
Bounded limit b = (length b.id ≤ 1024) × (length b.name ≤ 256) × (length b.arguments ≤ limit)

abbrev pub AllBounded : ℕ → List (ℕ × Builder) → Type 0
AllBounded limit = All (λ (e : ℕ × Builder). Bounded limit e.1)

-- What every step keeps: the text is what was sent, and the text and the builders are within the limits.
abbrev pub Kept : ℕ → Decoding → Type 0
Kept limit s =
    (s.text ≡ joined s.sent)
    × (length s.text ≤ limit)
    × AllBounded limit s.builders
    × (length s.builders ≤ 128)

abbrev pub Keeps : ℕ → Step → Type 0
Keeps limit a = (s : Decoding) → Kept limit s → Kept limit (a s).1

set_builder-Bounded :
    (limit : ℕ) (bs : List (ℕ × Builder)) (i : ℕ) (b : Builder)
    → AllBounded limit bs
    → Bounded limit b
    → AllBounded limit (set_builder bs i b)
unfolding set_builder
set_builder-Bounded limit [] i b h k = (k, tt)
set_builder-Bounded limit ((j, c) ∷ bs) i b (h, hs) k = elim (Bool-cases (j == i)) [
  | inl e ↦ rw e (k, hs)
  | inr e ↦ rw e (h, set_builder-Bounded limit bs i b hs k)
]

length-set_builder :
    (bs : List (ℕ × Builder)) (i : ℕ) (b : Builder)
    → length (set_builder bs i b) ≡ (if is_new (builder_at bs i) then length bs + 1 else length bs)
unfolding set_builder builder_at
length-set_builder [] i b = omega arith
length-set_builder ((j, c) ∷ bs) i b = ground (arith, length-set_builder bs i b)

pub builder_at-Bounded :
    (limit : ℕ) (bs : List (ℕ × Builder)) (i : ℕ)
    → AllBounded limit bs
    → Bounded limit (builder_or_new (builder_at bs i))
unfolding builder_at
builder_at-Bounded limit [] i h = omega arith
builder_at-Bounded limit ((j, c) ∷ bs) i (h, hs) = elim (Bool-cases (j == i)) [
  | inl e ↦ rw e h
  | inr e ↦ rw e (builder_at-Bounded limit bs i hs)
]

Flow-cases : (f : Flow) → (f ≡ going) ⊎ ((s : Decoding) (b : Step) → (Openai.next b s f).1 ≡ s)
Flow-cases going = inl refl
Flow-cases leaving = inr (λ s b. refl)
Flow-cases (refusing r) = inr (λ s b. refl)

module _ (r : Reader) (limit : ℕ) where
  then-Keeps : (a b : Step) → Keeps limit a → Keeps limit b → Keeps limit (a >> b)
  then-Keeps a b h k s p = elim (Flow-cases (a s).0) [
    | inl e ↦ rw e (k (a s).1 (h s p))
    | inr e ↦ subst (Kept limit) (sym (e (a s).1 b)) (h s p)
  ]

  text_step-Keeps : (content : Bytes) → Keeps limit (text_step r limit content)
  unfolding text_step
  text_step-Keeps content s (t, l, b, n) = elim (Bool-cases (blank content)) [
    | inl e ↦ rw e (t, l, b, n)
    | inr e ↦ elim (Bool-cases (ltb limit (length s.text + length content))) [
      | inl f ↦ rw (e, f) (t, l, b, n)
      | inr f ↦
          rw (e, f)
            (
              ap (λ x. x ++ content) t ∙ sym (joined-append s.sent content),
              ground (arith, length-append s.text content),
              b,
              n,
            )
    ]
  ]

  extended-Bounded :
      (b : Builder) (p : Part)
      → Bounded limit b
      → (ltb max_tool_call_id (length (extended b p).id)
          || ltb max_tool_name (length b.name + length p.name)
          || ltb limit (length b.arguments + length p.arguments))
        ≡ false
      → Bounded limit (extended b p)
  extended-Bounded b p (i, n, a) h =
      ground (arith, length-append b.name p.name, length-append b.arguments p.arguments)

  extend_step-Keeps :
      (p : Part) (s : Decoding)
      → Kept limit s
      → Kept limit (extend_step r limit p (builder_at s.builders (index_of p.index)) s).1
  unfolding extend_step
  extend_step-Keeps p s (t, l, b, n) =
      let found = builder_at s.builders (index_of p.index) in
      let old = builder_or_new found in
      elim (Bool-cases (is_new found && leb max_tool_calls (length s.builders))) [
        | inl e ↦ rw e (t, l, b, n)
        | inr e ↦ elim (Bool-cases (blank p.id || blank old.id || same old.id p.id)) [
          | inr f ↦ rw (e, f) (t, l, b, n)
          | inl f ↦
              elim (Bool-cases (
                ltb max_tool_call_id (length (extended old p).id)
                || ltb max_tool_name (length old.name + length p.name)
                || ltb limit (length old.arguments + length p.arguments))) [
                  | inl g ↦ rw (e, f, g) (t, l, b, n)
                  | inr g ↦
                      rw (e, f, g)
                        (
                          t,
                          l,
                          set_builder-Bounded limit s.builders (index_of p.index) (extended old p) b
                              (extended-Bounded old p
                                (builder_at-Bounded limit s.builders (index_of p.index) b) g),
                          ground (
                            arith,
                            length-set_builder s.builders (index_of p.index) (extended old p),
                          ),
                        )
                ]
        ]
      ]

  part_step-Keeps : (p : Part) → Keeps limit (part_step r limit p)
  unfolding part_step
  part_step-Keeps p =
      then-Keeps (require (leb_ℤ (pos 0) p.index && ltb_ℤ p.index (pos max_tool_calls)) protocol)
        (λ s. extend_step r limit p (builder_at s.builders (index_of p.index)) s) (λ s k. k)
        (extend_step-Keeps p)

  parts_step-Keeps : (ps : List Part) → Keeps limit (parts_step r limit ps)
  unfolding parts_step
  parts_step-Keeps [] = λ s k. k
  parts_step-Keeps (p ∷ ps) =
      then-Keeps (part_step r limit p) (parts_step r limit ps) (part_step-Keeps p)
        (parts_step-Keeps ps)

  finish_step-Keeps : (f : Option Bytes) → Keeps limit (finish_step r limit f)
  finish_step-Keeps none = λ s k. k
  finish_step-Keeps (some reason) = λ s k. k

  choices_step-Keeps : (cs : List Choice) → Keeps limit (choices_step r limit cs)
  unfolding choices_step
  choices_step-Keeps [] = λ s k. k
  choices_step-Keeps (c ∷ cs) =
      let first : Step = text_step r limit c.content in
      let second : Step = parts_step r limit c.parts in
      let third : Step = finish_step r limit c.finish_reason in
      then-Keeps (first >> second >> third) (choices_step r limit cs)
        (then-Keeps (first >> second) third
          (then-Keeps first second (text_step-Keeps c.content) (parts_step-Keeps c.parts))
          (finish_step-Keeps c.finish_reason))
        (choices_step-Keeps cs)

  data_step-Keeps : (text : Bytes) → Keeps limit (data_step r limit text)
  unfolding data_step
  data_step-Keeps text s k = elim (Bool-cases (same text (codes "[DONE]"))) [
    | inl e ↦ rw e k
    | inr e ↦ elim (Option-cases (r.parse text)) [
      | inl f ↦ rw (e, f) k
      | inr (cs, f) ↦ rw (e, f) (choices_step-Keeps cs (Openai.seen_data r limit s) k)
    ]
  ]

  field_step-Keeps : (line : Bytes) → Keeps limit (field_step r limit line)
  field_step-Keeps line s k =
      elim (Bool-cases (blank line || Openai.starts r limit (codes ":") line)) [
        | inl e ↦ rw e k
        | inr e ↦ rw e (
            then-Keeps (require (Openai.starts r limit (codes "data:") line) protocol)
              (data_step r limit (r.trim_space (drop 5 line))) (λ s k. k)
              (data_step-Keeps (r.trim_space (drop 5 line))) s k)
      ]

  line_step-Keeps : (line : Bytes) (done : Bool) → Keeps limit (line_step r limit line done)
  unfolding line_step
  line_step-Keeps line done =
      let first : Step = Openai.unless_done r limit done in
      let second : Step = Openai.change (λ s. record s { total = s.total + length line + 1 }) in
      let third : Step =
        λ s. require (leb s.total (Openai.stream_byte_limit limit)) output_limit s in
      then-Keeps (first >> second >> third) (field_step r limit line)
        (then-Keeps (first >> second) third (then-Keeps first second (λ s k. k) (λ s k. k))
          (λ s k. k))
        (field_step-Keeps line)

  pub lines_step-Keeps : (lines : List (Bytes × Bool)) → Keeps limit (lines_step r limit lines)
  unfolding lines_step
  lines_step-Keeps [] = λ s k. k
  lines_step-Keeps ((line, done) ∷ lines) =
      then-Keeps (line_step r limit line done) (lines_step r limit lines)
        (line_step-Keeps line done) (lines_step-Keeps lines)
