-- ===== src/Saga/Units.antt =====
-- The units of a product in `products`, under what deductions and restocks do to the rows.
use high_throughput_payments.Base.{
  ℕ, ◌+◌, ◌≤◌, String, List, [], ◌∷◌, ◌==◌, string_eq, ==_refl, ==_sound, ◌≡◌, refl, Bool, true,
  false, any, update, count, if◌then◌else◌, arith, Bool-cases, inl, inr, subst, sym,
}
use high_throughput_payments.Db.{Product}
use high_throughput_payments.Db.Products.{in_stock, take_one, put_one}

abbrev pub of_product : String → Product → Bool
of_product q r = r.id == q

-- the stock of a product, over all of its rows
abbrev pub total : String → List Product → ℕ
total q [] = 0
total q (r ∷ rs) = (if of_product q r then r.stock else 0) + total q rs

pub total-deduct :
    (q : String) (rs : List Product)
    → total q rs ≡ count (in_stock q) rs + total q (update (in_stock q) take_one rs)
total-deduct q [] = refl
total-deduct q (r ∷ rs) = ground (arith, total-deduct q rs)

pub total-deduct_other :
    (p q : String) (rs : List Product)
    → (p == q) ≡ false
    → total q (update (in_stock p) take_one rs) ≡ total q rs
total-deduct_other p q [] n = refl
total-deduct_other p q (r ∷ rs) n =
    ground (arith, total-deduct_other p q rs n, ==_sound r.id p, ==_sound r.id q, ==_refl p)

pub total-restock :
    (q : String) (rs : List Product)
    → total q (update (of_product q) put_one rs) ≡ total q rs + count (of_product q) rs
total-restock q [] = refl
total-restock q (r ∷ rs) = ground (arith, total-restock q rs)

pub total-restock_other :
    (p q : String) (rs : List Product)
    → (p == q) ≡ false
    → total q (update (of_product p) put_one rs) ≡ total q rs
total-restock_other p q [] n = refl
total-restock_other p q (r ∷ rs) n =
    ground (arith, total-restock_other p q rs n, ==_sound r.id p, ==_sound r.id q, ==_refl p)

pub count-deduct :
    (p q : String) (rs : List Product)
    → count (of_product q) (update (in_stock p) take_one rs) ≡ count (of_product q) rs
count-deduct p q [] = refl
count-deduct p q (r ∷ rs) = ground (arith, count-deduct p q rs)

pub count-restock :
    (p q : String) (rs : List Product)
    → count (of_product q) (update (of_product p) put_one rs) ≡ count (of_product q) rs
count-restock p q [] = refl
count-restock p q (r ∷ rs) = ground (arith, count-restock p q rs)

-- of a product with one row, at most one row is in stock, and one is as soon as any is
count-in_stock-le :
    (q : String) (rs : List Product) → count (in_stock q) rs ≤ count (of_product q) rs
count-in_stock-le q [] = omega arith
count-in_stock-le q (r ∷ rs) = ground (arith, count-in_stock-le q rs)

count-any :
    (q : String) (rs : List Product) → any (in_stock q) rs ≡ true → 1 ≤ count (in_stock q) rs
count-any q [] h = cc
count-any q (r ∷ rs) h = ground (arith, count-any q rs)

pub count-none :
    (q : String) (rs : List Product) → any (in_stock q) rs ≡ false → count (in_stock q) rs ≡ 0
count-none q [] h = refl
count-none q (r ∷ rs) h = ground (arith, count-none q rs)

pub count-one :
    (q : String) (rs : List Product)
    → count (of_product q) rs ≡ 1
    → any (in_stock q) rs ≡ true
    → count (in_stock q) rs ≡ 1
count-one q rs u h = omega (arith, count-in_stock-le q rs, count-any q rs h)

-- the units of product `q` that one unit of `p` is
abbrev pub unit : String → String → ℕ
unit p q = if p == q then 1 else 0

module _ (p q : String) (rs : List Product) where
  pub deduct_step :
      count (of_product q) rs ≡ 1
      → any (in_stock p) rs ≡ true
      → total q rs ≡ unit p q + total q (update (in_stock p) take_one rs)
  deduct_step u h = elim (Bool-cases (p == q)) [
    | inr n ↦ rw n (omega (arith, total-deduct_other p q rs n))
    | inl y ↦
        let same : p ≡ q = ==_sound p q y in
        let one = count-one q rs u (subst (λ x. any (in_stock x) rs ≡ true) same h) in
        rw y (
          subst (λ x. total q rs ≡ 1 + total q (update (in_stock x) take_one rs)) (sym same)
            (omega (arith, total-deduct q rs, one)))
  ]

  pub short_step :
      any (in_stock p) rs ≡ false → total q (update (in_stock p) take_one rs) ≡ total q rs
  short_step h = elim (Bool-cases (p == q)) [
    | inr n ↦ total-deduct_other p q rs n
    | inl y ↦
        let same : p ≡ q = ==_sound p q y in
        let none_left = count-none q rs (subst (λ x. any (in_stock x) rs ≡ false) same h) in
        subst (λ x. total q (update (in_stock x) take_one rs) ≡ total q rs) (sym same)
          (omega (arith, total-deduct q rs, none_left))
  ]

  pub restock_step :
      count (of_product q) rs ≡ 1
      → total q (update (of_product p) put_one rs) ≡ unit p q + total q rs
  restock_step u = elim (Bool-cases (p == q)) [
    | inr n ↦ rw n (omega (arith, total-restock_other p q rs n))
    | inl y ↦
        let same : p ≡ q = ==_sound p q y in
        rw y (
          subst (λ x. total q (update (of_product x) put_one rs) ≡ 1 + total q rs) (sym same)
            (omega (arith, total-restock q rs, u)))
  ]
