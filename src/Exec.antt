-- ===== src/Exec.antt =====
-- Go code that changes state and may return an error: the state comes back beside the error.
pub mod Ensures
use high_throughput_payments.Base.{Bool, true, false}

pub data Result {ℓ} (E A : Type ℓ) : Type ℓ where
  ok : A → Result E A
  err : E → Result E A

abbrev pub Exec {ℓ} : Type ℓ → Type ℓ → Type ℓ → Type ℓ
Exec S E A = S → Result E A × S

module _ {ℓ} {S E A : Type ℓ} where
  unfoldable pub pure : A → Exec S E A
  pure a s = (ok a, s)

  unfoldable pub fail : E → Exec S E A
  fail e s = (err e, s)

  -- `if b { … } else { … }` between actions
  abbrev pub branch : Bool → Exec S E A → Exec S E A → Exec S E A
  branch true m n = m
  branch false m n = n

module _ {ℓ} {E F A : Type ℓ} where
  abbrev pub map_err : (E → F) → Result E A → Result F A
  map_err f (ok a) = ok a
  map_err f (err e) = err (f e)

module _ {ℓ} {S E F A : Type ℓ} where
  -- `if err != nil { return wrap(err) }`, for an error type of the caller's
  unfoldable pub or_else : Exec S E A → (E → F) → Exec S F A
  or_else m f s = let (r, s') = m s in (map_err f r, s')

  -- the error as a value, for a caller that looks at it
  unfoldable pub attempt : Exec S E A → Exec S F (Result E A)
  attempt m s = let (r, s') = m s in (ok r, s')

module _ {ℓ} {S E A B : Type ℓ} where
  abbrev pub continue : Result E A → (A → Exec S E B) → S → Result E B × S
  continue (ok a) f s = f a s
  continue (err e) f s = (err e, s)

  infixl 5 ◌>>=◌ ◌>>◌
  unfoldable pub ◌>>=◌ : Exec S E A → (A → Exec S E B) → Exec S E B
  ◌>>=◌ m f s = let (r, s') = m s in continue r f s'

  abbrev pub ◌>>◌ : Exec S E A → Exec S E B → Exec S E B
  m >> n = m >>= λ _. n
