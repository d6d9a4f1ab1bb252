-- ===== src/Base/Dict.antt =====
-- A Go map with string keys, as an association list. The order of iteration is not observed.
use mathlib.Core.Path.{◌≡◌, refl}
use mathlib.Core.Option.{Option, none, some}
use mathlib.Core.List.{List, [], ◌∷◌}
use coragent.Base.Lists.{All}
use native.Mathlib.Omega.{arith}
use mathlib.Core.Logic.{inl, inr}
use coragent.Base.Tests.{if◌then◌else◌, Bool-cases}
use coragent.Base.Text.{Bytes, same, same_iff}

abbrev pub Dict {ℓ} : Type ℓ → Type ℓ
Dict V = List (Bytes × V)

module _ {ℓ} {V : Type ℓ} where
  unfoldable pub get : Dict V → Bytes → Option V
  get [] k = none
  get ((j, v) ∷ m) k = if same j k then some v else get m k

  unfoldable pub put : Dict V → Bytes → V → Dict V
  put [] k v = (k, v) ∷ []
  put ((j, w) ∷ m) k v = if same j k then (k, v) ∷ m else (j, w) ∷ put m k v

  pub get-put :
      (m : Dict V) (k j : Bytes) (v : V)
      → get (put m k v) j ≡ (if same k j then some v else get m j)
  unfolding get put
  get-put [] k j v = refl
  get-put ((i, w) ∷ m) k j v =
      ground (arith, same_iff k j, same_iff i k, same_iff i j, get-put m k j v)

-- Every key has the property.
abbrev pub Keys {ℓ κ} : {V : Type ℓ} → (Bytes → Type κ) → Dict V → Type κ
Keys P m = All (λ e. P e.0) m

module _ {ℓ κ} {V : Type ℓ} (P : Bytes → Type κ) where
  pub Keys-put : (m : Dict V) (k : Bytes) (v : V) → P k → Keys P m → Keys P (put m k v)
  unfolding put
  Keys-put [] k v pk h = (pk, tt)
  Keys-put ((j, w) ∷ m) k v pk (h, hs) = elim (Bool-cases (same j k)) [
    | inl e ↦ rw e (pk, hs)
    | inr e ↦ rw e (h, Keys-put m k v pk hs)
  ]
