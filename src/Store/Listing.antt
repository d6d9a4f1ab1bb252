-- ===== src/Store/Listing.antt =====
-- `List` of internal/store/store.go: the sessions that open, the newest first.
use coragent.Base.{ℕ, Bool, true, false, ◌&&◌, ◌||◌, List, [], ◌∷◌, Bytes, ltb, ◌==◌, if◌then◌else◌}
use coragent.Errors.{Result, ok, err}
use coragent.Store.{Store}
use coragent.Store.Open.{Codec, Entry, directory, missing, other_file, open_session}

-- `Summary`
pub record Summary : Type 0 where
  pub session_id : Bytes
  pub workspace : Bytes
  pub last_activity : ℕ
  pub closed : Bool

-- `<` on strings.
unfoldable pub less : Bytes → Bytes → Bool
less s [] = false
less [] (d ∷ t) = true
less (c ∷ s) (d ∷ t) = ltb c d || c == d && less s t

-- The order of `sort.Slice`.
abbrev pub newer : Summary → Summary → Bool
newer a b =
    if a.last_activity == b.last_activity
    then less a.session_id b.session_id
    else ltb b.last_activity a.last_activity

unfoldable pub insert : Summary → List Summary → List Summary
unfolding less
insert a [] = a ∷ []
insert a (b ∷ bs) = if newer b a then b ∷ insert a bs else a ∷ b ∷ bs

unfoldable pub sort : List Summary → List Summary
unfolding insert
sort [] = []
sort (a ∷ more) = insert a (sort more)

abbrev pub is_directory : Entry → Bool
is_directory missing = false
is_directory other_file = false
is_directory (directory d) = true

abbrev pub summary_of : Store → Summary
summary_of s = record {
  session_id = s.manifest.session_id;
  workspace = s.manifest.workspace;
  last_activity = s.manifest.updated_at;
  closed = s.manifest.closed;
}

abbrev pub with_opened : Result Store → List Summary → List Summary
with_opened (err e) rest = rest
with_opened (ok s) rest = summary_of s ∷ rest

module _ (c : Codec) where
  -- `Open` of an entry of the root.
  abbrev pub opened : Bytes × Entry → Result Store
  opened (name, entry) = open_session c name [] entry

  -- The loop over the entries: what is no directory, and what does not open, is passed over.
  unfoldable pub summaries : List (Bytes × Entry) → List Summary
  unfolding open_session
  summaries [] = []
  summaries (e ∷ es) =
      if is_directory e.1 then with_opened (opened e) (summaries es) else summaries es

  -- `List`, of a root with these entries; a root that is missing has none.
  unfoldable pub list : List (Bytes × Entry) → List Summary
  unfolding summaries sort
  list entries = sort (summaries entries)
