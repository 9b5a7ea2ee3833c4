-- ===== src/Base/Rows.antt =====
-- Tables as lists of rows: what `SELECT`, `INSERT` and `UPDATE … WHERE` do to them.
use Prim.Native.Nat.{ℕ, suc, ◌+◌}
use mathlib.Core.Path.{◌≡◌, subst}
use mathlib.Core.Bool.{Bool, true, false, not, ◌&&◌, ◌||◌}
use mathlib.Core.Option.{Option, none, some}
use mathlib.Core.List.{List, [], ◌∷◌, map}
use mathlib.Core.Logic.{inl, inr}
use native.Mathlib.Omega.{arith}
use high_throughput_payments.Base.Tests.{if◌then◌else◌, if_split, Bool-cases}

module _ {ℓ} {A : Type ℓ} where
  abbrev pub length : List A → ℕ
  length [] = 0
  length (x ∷ xs) = suc (length xs)

  -- `SELECT EXISTS (… WHERE p)`
  abbrev pub any : (A → Bool) → List A → Bool
  any p [] = false
  any p (x ∷ xs) = p x || any p xs

  -- the first row of `SELECT … WHERE p`, which is what `QueryRow` reads
  abbrev pub find : (A → Bool) → List A → Option A
  find p [] = none
  find p (x ∷ xs) = if p x then some x else find p xs

  -- `UPDATE … SET f WHERE p`
  abbrev pub update : (A → Bool) → (A → A) → List A → List A
  update p f [] = []
  update p f (x ∷ xs) = (if p x then f x else x) ∷ update p f xs

  -- the number of rows that `p` selects
  abbrev pub count : (A → Bool) → List A → ℕ
  count p [] = 0
  count p (x ∷ xs) = (if p x then 1 else 0) + count p xs

  -- every row satisfies `P`
  abbrev pub All {κ} : (A → Type κ) → List A → Type κ
  All P [] = Unit
  All P (x ∷ xs) = P x × All P xs

  -- no two rows are the same by `same`, as a unique constraint asks
  abbrev pub distinct : (A → A → Bool) → List A → Bool
  distinct same [] = true
  distinct same (x ∷ xs) = not (any (same x) xs) && distinct same xs

module _ {ℓ κ} {A : Type ℓ} where
  pub All-map : (P Q : A → Type κ) (xs : List A) → ((x : A) → P x → Q x) → All P xs → All Q xs
  All-map P Q [] f h = tt
  All-map P Q (x ∷ xs) f (p, h) = (f x p, All-map P Q xs f h)

  pub All-both : (P Q : A → Type κ) (xs : List A) → All P xs → All Q xs → All (λ x. P x × Q x) xs
  All-both P Q [] h k = tt
  All-both P Q (x ∷ xs) (p, h) (q, k) = ((p, q), All-both P Q xs h k)

  -- what an UPDATE keeps of the rows that it selects holds of all rows after it
  pub All-update :
      (P : A → Type κ) (p : A → Bool) (f : A → A) (xs : List A)
      → ((x : A) → p x ≡ true → P x → P (f x))
      → All P xs
      → All P (update p f xs)
  All-update P p f [] k h = tt
  All-update P p f (x ∷ xs) k (q, h) =
      (if_split P (p x) _ _ (λ e. k x e q) (λ _. q), All-update P p f xs k h)

  -- the row that a SELECT reads
  pub All-find :
      (P : A → Type κ) (p : A → Bool) (xs : List A) (x : A)
      → find p xs ≡ some x
      → All P xs
      → P x × (p x ≡ true)
  All-find P p [] x q h = cc
  All-find P p (y ∷ ys) x q (k, h) = elim (Bool-cases (p y)) [
    | inl e ↦ let same : y ≡ x = cc (q, e) in subst (λ z. P z × (p z ≡ true)) same (k, e)
    | inr e ↦ All-find P p ys x (ground (arith, q, e)) h
  ]

  -- a row for which a SELECT EXISTS is true
  pub All-any :
      (P : A → Type κ) (p : A → Bool) (xs : List A)
      → any p xs ≡ true
      → All P xs
      → (x : A) × (p x ≡ true) × P x
  All-any P p [] q h = cc
  All-any P p (y ∷ ys) q (k, h) = elim (Bool-cases (p y)) [
    | inl e ↦ (y, e, k)
    | inr e ↦ All-any P p ys (ground (arith, q, e)) h
  ]

  pub All-of {μ} :
      {B : Type μ} (f : B → A) (P : A → Type κ) (xs : List B)
      → All (λ x. P (f x)) xs
      → All P (map f xs)
  All-of f P [] h = tt
  All-of f P (x ∷ xs) (p, h) = (p, All-of f P xs h)
