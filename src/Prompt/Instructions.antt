-- ===== src/Prompt/Instructions.antt =====
-- internal/prompt/instructions.go: the discovery of project instructions. Reading a file, its digest and the projection
-- of its text are parameters. Directories are clean paths inside of the workspace, without `..`.
use coragent.Base.{
  ℕ, ◌+◌, ◌*◌, ◌||◌, List, [], ◌∷◌, ◌++◌, Bytes, codes, blank, same, ltb, leb, length,
  if◌then◌else◌, ◌==◌,
}
use coragent.Errors.{Err, Result, ok, err, ◌>>=◌, unreadable_instruction}
use coragent.Prompt.{Instruction}

-- What a read of a file gives: the errors of the context, of opening, of reading and of closing are one case.
pub data Reading : Type 0 where
  absent : Reading
  unreadable : Err → Reading
  bytes : Bytes → Reading

-- `strings.Split(active, "/")`
abbrev onto_first : ℕ → List Bytes → List Bytes
onto_first c [] = (c ∷ []) ∷ []
onto_first c (s ∷ ss) = (c ∷ s) ∷ ss

unfoldable pub split_path : Bytes → List Bytes
split_path [] = [] ∷ []
split_path (c ∷ s) = let rest = split_path s in if c == 47 then [] ∷ rest else onto_first c rest

abbrev dot : Bytes
dot = codes "."

-- `path.Join`
abbrev pub join_path : Bytes → Bytes → Bytes
join_path dir name = if blank dir then name else dir ++ codes "/" ++ name

unfoldable pub scopes_from : Bytes → List Bytes → List Bytes
scopes_from current [] = []
scopes_from current (part ∷ parts) =
    let skipped = scopes_from current parts in
    let deeper = join_path current part ∷ scopes_from (join_path current part) parts in
    if blank part || same part dot then skipped else deeper

-- `scopeDirs`
unfoldable pub scope_dirs : Bytes → List Bytes
unfolding scopes_from split_path
scope_dirs active =
    if same active dot || blank active then dot ∷ [] else dot ∷ scopes_from [] (split_path active)

-- A file that may hold instructions.
pub record Place : Type 0 where
  pub dir : Bytes
  pub rel : Bytes
  pub precedence : ℕ

abbrev in_dir : Bytes → Bytes → Bytes
in_dir dir name = if same dir dot then name else join_path dir name

-- The files in the order of the two loops.
unfoldable pub places_from : ℕ → List Bytes → List Place
places_from depth [] = []
places_from depth (dir ∷ dirs) =
    record { dir = dir; rel = in_dir dir (codes "CLAUDE.md"); precedence = 10 + depth * 2 + 0 }
    ∷ record { dir = dir; rel = in_dir dir (codes "AGENTS.md"); precedence = 10 + depth * 2 + 1 }
    ∷ places_from (depth + 1) dirs

abbrev pub max_instruction : ℕ
max_instruction = 262144

-- A file with the digest of an instruction that was found is one more source of it.
abbrev found_again : Place → Instruction → Instruction
found_again p d =
    let higher = ltb d.source.precedence p.precedence in
    record d {
      source = record d.source {
        sources = d.source.sources ++ p.rel ∷ [];
        precedence = if higher then p.precedence else d.source.precedence;
        scope = if higher then p.dir else d.source.scope;
      };
    }

-- `sort.SliceStable`, by the precedence.
unfoldable pub insert : Instruction → List Instruction → List Instruction
insert d [] = d ∷ []
insert d (e ∷ es) =
    if leb d.source.precedence e.source.precedence then d ∷ e ∷ es else e ∷ insert d es

unfoldable pub sort : List Instruction → List Instruction
unfolding insert
sort [] = []
sort (d ∷ ds) = insert d (sort ds)

module _ (read : Bytes → Reading) (hash project : Bytes → Bytes) where
  abbrev pub fresh : Place → Bytes → Instruction
  fresh p raw = record {
    source = record {
      sources = p.rel ∷ [];
      scope = p.dir;
      sha256 = hash raw;
      precedence = p.precedence;
    };
    content = project raw;
  }

  -- `byHash[hash]`
  unfoldable pub add : Place → Bytes → List Instruction → List Instruction
  add p raw [] = fresh p raw ∷ []
  add p raw (d ∷ ds) =
      if same d.source.sha256 (hash raw) then found_again p d ∷ ds else d ∷ add p raw ds

  abbrev pub collect_one : Place → Reading → List Instruction → Result (List Instruction)
  collect_one p absent docs = ok docs
  collect_one p (unreadable e) docs = err e
  collect_one p (bytes raw) docs =
      if ltb max_instruction (length raw) then err unreadable_instruction else ok (add p raw docs)

  unfoldable pub collect : List Place → List Instruction → Result (List Instruction)
  unfolding add
  collect [] docs = ok docs
  collect (p ∷ ps) docs = collect_one p (read p.rel) docs >>= λ more. collect ps more

  -- `DiscoverInstructions`, from the directory of the active path on.
  unfoldable pub discover : Bytes → Result (List Instruction)
  unfolding scope_dirs places_from collect sort
  discover active = collect (places_from 0 (scope_dirs active)) [] >>= λ docs. ok (sort docs)
