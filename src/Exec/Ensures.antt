-- ===== src/Exec/Ensures.antt =====
-- Postconditions of actions: one rule for each way to build an action, to be applied backwards.
use high_throughput_payments.Base.{◌≡◌, refl, Bool, true, false}
use high_throughput_payments.Exec.{
  Result, ok, err, Exec, pure, fail, branch, map_err, or_else, attempt, continue, ◌>>=◌,
}

-- `Q` holds of the result and the state that `m` ends in, run from `s`
pub record Ensures {ℓ} {S E A : Type ℓ} (Q : Result E A → S → Type ℓ) (m : Exec S E A) (s : S)
    : Type ℓ where
  pub at : Q (m s).0 (m s).1

module _ {ℓ} {S E A : Type ℓ} {Q : Result E A → S → Type ℓ} {s : S} where
  pub Ensures-pure : (a : A) → Q (ok a) s → Ensures Q (pure a) s
  unfolding pure
  Ensures-pure a q = record { at = q }

  pub Ensures-fail : (e : E) → Q (err e) s → Ensures Q (fail e) s
  unfolding fail
  Ensures-fail e q = record { at = q }

  pub Ensures-branch :
      (b : Bool) (m n : Exec S E A)
      → (b ≡ true → Ensures Q m s)
      → (b ≡ false → Ensures Q n s)
      → Ensures Q (branch b m n) s
  Ensures-branch true m n qm qn = qm refl
  Ensures-branch false m n qm qn = qn refl

module _ {ℓ} {S E F A : Type ℓ} {s : S} where
  pub Ensures-or_else :
      {Q : Result F A → S → Type ℓ} (m : Exec S E A) (f : E → F)
      → Ensures (λ r. Q (map_err f r)) m s
      → Ensures Q (or_else m f) s
  unfolding or_else
  Ensures-or_else m f h = record { at = h.at }

  pub Ensures-attempt :
      {Q : Result F (Result E A) → S → Type ℓ} (m : Exec S E A)
      → Ensures (λ r. Q (ok r)) m s
      → Ensures Q (attempt m) s
  unfolding attempt
  Ensures-attempt m h = record { at = h.at }

-- what is left to show when the first part of a `do` block has ended
abbrev pub Continues {ℓ} :
    {S E A B : Type ℓ} → (Result E B → S → Type ℓ) → (A → Exec S E B) → Result E A → S → Type ℓ
Continues Q f (ok a) s = Ensures Q (f a) s
Continues Q f (err e) s = Q (err e) s

continue_lem {ℓ} :
    {S E A B : Type ℓ} (Q : Result E B → S → Type ℓ) (f : A → Exec S E B) (r : Result E A) (s : S)
    → Continues Q f r s
    → Q (continue r f s).0 (continue r f s).1
continue_lem Q f (ok a) s c = c.at
continue_lem Q f (err e) s c = c

pub Ensures-bind {ℓ} :
    {S E A B : Type ℓ} {Q : Result E B → S → Type ℓ} (m : Exec S E A) (f : A → Exec S E B) {s : S}
    → Ensures (Continues Q f) m s
    → Ensures Q (m >>= f) s
unfolding ◌>>=◌
Ensures-bind {Q} m f {s} h = record { at = continue_lem Q f (m s).0 (m s).1 h.at }
