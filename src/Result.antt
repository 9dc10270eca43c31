-- ===== src/Result.antt =====
-- Results of Go functions that return an error or panic, and methods that also mutate an object.
-- What was written before an error or a panic stays written.
use go_autorest.Errors.{Error}

pub data Result {ℓ} (A : Type ℓ) : Type ℓ where
  ok : A → Result A
  err : Error → Result A
  panic : Result A

abbrev pub Exec {ℓ} : Type ℓ → Type ℓ → Type ℓ
Exec S A = S → Result A × S

module _ {ℓ} {S A : Type ℓ} where
  abbrev pub pure : A → Exec S A
  pure a s = (ok a, s)

  abbrev pub raise : Error → Exec S A
  raise e s = (err e, s)

  abbrev pub crash : Exec S A
  crash s = (panic, s)

  abbrev pub lift : Result A → Exec S A
  lift r s = (r, s)

  abbrev pub gets : (S → A) → Exec S A
  gets f s = (ok (f s), s)

abbrev pub modify : {S : Type 0} → (S → S) → Exec S (Unit {0})
modify f s = (ok tt, f s)

module _ {ℓ} {S A B : Type ℓ} where
  abbrev pub continue : Result A → (A → Exec S B) → Exec S B
  continue (ok a) f s = f a s
  continue (err e) f s = (err e, s)
  continue panic f s = (panic, s)

  infixl 10 ◌>>=◌ ◌>>◌
  abbrev pub ◌>>=◌ : Exec S A → (A → Exec S B) → Exec S B
  ◌>>=◌ m f s = let (r, s') = m s in continue r f s'

  abbrev pub ◌>>◌ : Exec S A → Exec S B → Exec S B
  ◌>>◌ m n s = let (r, s') = m s in continue r (λ _. n) s'

  -- `if err := m; err != nil { h(err) } else { k }`
  abbrev pub handle : Result A → (Error → Exec S B) → (A → Exec S B) → Exec S B
  handle (ok a) h f s = f a s
  handle (err e) h f s = h e s
  handle panic h f s = (panic, s)

  abbrev pub on_error : Exec S A → (Error → Exec S B) → (A → Exec S B) → Exec S B
  on_error m h f s = let (r, s') = m s in handle r h f s'
