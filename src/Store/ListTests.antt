-- ===== src/Store/ListTests.antt =====
-- `List` of internal/store/store.go on a root with one session.
use coragent.Base.{ℕ, Bool, List, [], ◌∷◌, Bytes, codes, ◌≡◌, refl, length}
use coragent.Store.Open.{Entry, directory, other_file}
use coragent.Store.Tests.{flat_codec, session_id, new_session}
use coragent.Store.Listing.{Summary, list}
use coragent.Store.Newest.{Newest, count, opening, list-lem}

abbrev entries : List (Bytes × Entry)
entries =
    (session_id, directory (new_session []).disk)
    ∷ (codes "notes", other_file)
    ∷ (codes "..", directory (new_session []).disk)
    ∷ []

list_test : length (list flat_codec entries) ≡ 1
unfolding list coragent.Base.same
list_test = refl

list-lem_example :
    Newest (list flat_codec entries)
    × ((p : Summary → Bool) → count p (list flat_codec entries) ≡ opening flat_codec p entries)
list-lem_example = list-lem flat_codec entries
