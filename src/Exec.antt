-- ===== src/Exec.antt =====
-- Go methods on a pointer that may fail: an error does not undo what a method changed before it.
use coragent.Base.{◌≡◌, ap, inl, inr, Bool, true, false}
use coragent.Errors.{Err, Result, ok, err, Result-cases}

abbrev pub Exec {ℓ} : Type ℓ → Type ℓ → Type ℓ
Exec S A = S → Result A × S

module _ {ℓ} {S A : Type ℓ} where
  abbrev pub gets : (S → A) → Exec S A
  gets view s = (ok (view s), s)

  abbrev pub lift : Result A → Exec S A
  lift r s = (r, s)

  abbrev pub pure : A → Exec S A
  pure a s = (ok a, s)

  abbrev pub raise : Err → Exec S A
  raise e s = (err e, s)

infixl 5 ◌>>◌
module _ {ℓ} {S A B : Type ℓ} where
  infixl 5 ◌>>=◌
  abbrev pub after : (A → Exec S B) → S → Result A → Result B × S
  after next s (err e) = (err e, s)
  after next s (ok a) = next a s

  abbrev pub ◌>>=◌ : Exec S A → (A → Exec S B) → Exec S B
  ◌>>=◌ m next s = after next (m s).1 (m s).0

abbrev pub ◌>>◌ : {S B : Type 0} → Exec S (Unit {0}) → Exec S B → Exec S B
◌>>◌ m rest = m >>= λ done. rest

module _ {S : Type 0} where
  abbrev pub modify : (S → S) → Exec S (Unit {0})
  modify f s = (ok tt, f s)

  abbrev pub ensure : Bool → Err → Exec S (Unit {0})
  ensure true e s = (ok tt, s)
  ensure false e s = (err e, s)

pub err-ne-ok :
    {S B : Type 0} (e : Err) {s t : S} {b : B} → ◌≡◌ {A = Result B × S} (err e, s) (ok b, t) → ⊥
err-ne-ok e h = cc (ap (λ p. p.0) h)

-- The parts of a run that returned.
pub >>=-eq-ok :
    {S A B : Type 0} (m : Exec S A) (f : A → Exec S B) (s : S) {b : B} {t : S}
    → (m >>= f) s ≡ (ok b, t)
    → (a : A) × (u : S) × (m s ≡ (ok a, u)) × (f a u ≡ (ok b, t))
>>=-eq-ok m f s {b} {t} h = elim (Result-cases (m s).0) [
  | inl g ↦ absurd (err-ne-ok g.0 (rw g.1 at h))
  | inr g ↦ (g.0, (m s).1, (λ i. (g.1 i, (m s).1)), rw g.1 at h)
]
