-- ===== src/Openai/Limits.antt =====
-- What `decodeStream` of internal/provider/openai/adapter.go guarantees of the responses it returns.
use coragent.Base.{
  ℕ, zero, suc, ◌+◌, ◌≤◌, Bool, true, false, ◌≡◌, refl, sym, ap, ◌∙◌, subst, inl, inr, Bool-cases,
  Option, none, some, List, [], ◌∷◌, Bytes, blank, length, arith, All,
}
use mathlib.Core.Option.{some-injective}
use coragent.Provider.{ToolCall, Response}
use coragent.Transcript.{RawMessage, document, invalid}
use coragent.Dataproj.Stream.{joined}
use coragent.Openai
use coragent.Openai.{
  Reader, Decoding, Builder, Part, Choice, Step, Flow, going, leaving, refusing, ◌>>◌, text_step,
  extend_step, part_step, parts_step, finish_step, choices_step, data_step, line_step, lines_step,
  field_step, chunk_step, builder_at, set_builder, builder_or_new, extended, require, calls_from,
  complete, call_of, decode_lines, Decoded, decoded, refused, conclude, fresh, is_new, index_of,
  max_tool_calls, max_tool_call_id, max_tool_name, no_builder,
}
use coragent.Openai.Kept.{Bounded, AllBounded, builder_at-Bounded, lines_step-Keeps}

none-ne-some : {A : Type 0} → (a : A) → ◌≡◌ {A = Option A} none (some a) → ⊥
none-ne-some a h = cc

decoded-injective : (a b : Response) → decoded a ≡ decoded b → a ≡ b
decoded-injective a b h = cc

refused-ne-decoded : {e : Openai.Refusal} (a : Response) → refused e ≡ decoded a → ⊥
refused-ne-decoded a h = cc

abbrev is_document : RawMessage → Bool
is_document (document d) = true
is_document (invalid d) = false

documented : (m : RawMessage) → is_document m ≡ true → (json : Bytes) × (m ≡ document json)
documented (document d) h = (d, refl)
documented (invalid d) h = cc

module _ (r : Reader) (limit : ℕ) where
  -- A call of a response: complete, with JSON arguments, and within the limits.
  abbrev pub Sound : ToolCall → Type 0
  Sound c =
      (blank c.id ≡ false)
      × (length c.id ≤ 1024)
      × (blank c.name ≡ false)
      × (length c.name ≤ 256)
      × ((arguments : Bytes) × (c.arguments ≡ r.raw arguments) × (length arguments ≤ limit))
      × ((json : Bytes) × (c.arguments ≡ document json))

  complete-Sound :
      (b : Builder) → Bounded limit b → complete r limit b ≡ true → Sound (call_of r limit b)
  complete-Sound b (i, n, a) h =
      let (json, e) = documented (r.raw b.arguments) (ground (arith, h)) in
      (ground (arith, h), i, ground (arith, h), n, (b.arguments, refl, a), (json, e))

  add_call-parts :
      (o : Option Builder) (rest : Option (List ToolCall)) (cs : List ToolCall)
      → Openai.add_call r limit o rest ≡ some cs
      → (b : Builder) × (ds : List ToolCall) × (o ≡ some b)
        × (rest ≡ some ds)
        × (complete r limit b ≡ true)
        × (call_of r limit b ∷ ds ≡ cs)
  add_call-parts none rest cs e = cc
  add_call-parts (some b) none cs e = cc
  add_call-parts (some b) (some ds) cs e = elim (Bool-cases (complete r limit b)) [
    | inl f ↦ (b, ds, refl, refl, f, some-injective _ _ (rw f at e))
    | inr f ↦ absurd (none-ne-some cs (rw f at e))
  ]

  calls_from-Sound :
      (bs : List (ℕ × Builder)) (left i : ℕ) (cs : List ToolCall)
      → AllBounded limit bs
      → calls_from r limit bs left i ≡ some cs
      → All Sound cs × (length cs ≡ left)
  unfolding calls_from
  calls_from-Sound bs zero i cs h e =
      let nothing : [] ≡ cs = some-injective _ _ e in
      subst (λ ds. All Sound ds × (length ds ≡ 0)) nothing (tt, refl)
  calls_from-Sound bs (suc left) i cs h e =
      let (b, ds, found, rest, sound, built) =
        add_call-parts (builder_at bs i) (calls_from r limit bs left (i + 1)) cs e in
      let (all, n) = calls_from-Sound bs left (i + 1) ds h rest in
      let bounded : Bounded limit b =
        subst (λ o. Bounded limit (builder_or_new o)) found (builder_at-Bounded limit bs i h) in
      subst (λ es. All Sound es × (length es ≡ suc left)) built
        ((complete-Sound b bounded sound, all), ap suc n)

  with_calls-parts :
      (s : Decoding) (found : Option (List ToolCall)) (res : Response)
      → Openai.with_calls r limit s found ≡ decoded res
      → (cs : List ToolCall) × (found ≡ some cs) × (res.calls ≡ cs) × (res.text ≡ s.text)
  with_calls-parts s none res e = cc
  with_calls-parts s (some cs) res e =
      let same_response = decoded-injective _ res e in
      (cs, refl, sym (ap (λ x. x.calls) same_response), sym (ap (λ x. x.text) same_response))

  concluded-parts :
      (scan_failed done : Bool) (s : Decoding) (res : Response)
      → Openai.conclude_going r limit scan_failed done s ≡ decoded res
      → (cs : List ToolCall) × (calls_from r limit s.builders (length s.builders) 0 ≡ some cs)
        × (res.calls ≡ cs)
        × (res.text ≡ s.text)
  concluded-parts true done s res e = cc
  concluded-parts false done s res e = elim (Bool-cases s.saw_data) [
    | inr f ↦ absurd (refused-ne-decoded res (rw f at e))
    | inl f ↦
        with_calls-parts s (calls_from r limit s.builders (length s.builders) 0) res (rw f at e)
  ]

  conclude-parts :
      (scan_failed done : Bool) (s : Decoding) (flow : Flow) (res : Response)
      → conclude r limit scan_failed done s flow ≡ decoded res
      → (cs : List ToolCall) × (calls_from r limit s.builders (length s.builders) 0 ≡ some cs)
        × (res.calls ≡ cs)
        × (res.text ≡ s.text)
  conclude-parts scan_failed done s (refusing x) res e = cc
  conclude-parts scan_failed done s going res e = concluded-parts scan_failed done s res e
  conclude-parts scan_failed done s leaving res e = concluded-parts scan_failed done s res e

  -- A response that the stream decodes to: its text is what `onText` was given, joined, and is within the limit of bytes;
  -- it has at most 128 calls, each with an ID, a name and arguments that are JSON, and all within their limits.
  pub decode_lines-Sound :
      (lines : List (Bytes × Bool)) (scan_failed done : Bool) (res : Response)
      → (decode_lines r limit lines scan_failed done).1 ≡ decoded res
      → (res.text ≡ joined (decode_lines r limit lines scan_failed done).0)
        × (length res.text ≤ limit)
        × (length res.calls ≤ 128)
        × All Sound res.calls
  unfolding decode_lines
  decode_lines-Sound lines scan_failed done res e =
      let s = (lines_step r limit lines (fresh r limit)).1 in
      let (text, long, bounded, few) =
        lines_step-Keeps r limit lines (fresh r limit) (refl, omega arith, tt, omega arith) in
      let (cs, found, calls, said) =
        conclude-parts scan_failed done s (lines_step r limit lines (fresh r limit)).0 res e in
      let (sound, n) = calls_from-Sound s.builders (length s.builders) 0 cs bounded found in
      (
        said ∙ text,
        subst (λ t. length t ≤ limit) (sym said) long,
        subst (λ ds. length ds ≤ 128) (sym calls) (omega (arith, n, few)),
        subst (All Sound) (sym calls) sound,
      )
