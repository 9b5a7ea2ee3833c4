-- ===== src/Db/Products.antt =====
-- internal/db/products_repo.go
use high_throughput_payments.Base.{
  ℕ, ◌+◌, ◌-◌, ◌^◌, String, ◌==◌, string_eq, ◌&&◌, ◌||◌, ◌≡◌, inl, inr, Bool, true, false,
  Bool-cases, not, Option, none, some, any, update, ltb, if◌then◌else◌,
}
use high_throughput_payments.Exec.{Result, ok, err, branch, pure, fail, ◌>>=◌}
use high_throughput_payments.Db.Schema.{Db, Product}
use high_throughput_payments.Db.Transaction.{
  Session, Env, Action, Call, Error, db_error, insufficient_stock, aborting, statement,
}
use high_throughput_payments.Exec.Ensures.{Ensures}
use high_throughput_payments.Db.Rules.{IsFailing}

-- the largest value of a column of type INT
abbrev pub max_int : ℕ
max_int = 2 ^ 31 - 1

abbrev pub in_stock : String → Product → Bool
in_stock product_id r = r.id == product_id && ltb 0 r.stock

abbrev pub take_one : Product → Product
take_one r = record r { stock = r.stock - 1 }

abbrev pub put_one : Product → Product
put_one r = record r { stock = r.stock + 1 }

-- UPDATE products SET stock = stock - 1 WHERE id = … AND stock > 0; the value is whether a row was
-- affected
abbrev deduct_row : String → Db → Option (Bool × Db)
deduct_row product_id d = some (
  any (in_stock product_id) d.products,
  record d { products = update (in_stock product_id) take_one d.products },
)

-- UPDATE products SET stock = stock + 1 WHERE id = …, an error if the sum leaves INT
abbrev restock_row : String → Db → Option (Unit {0} × Db)
restock_row product_id d =
    if any (λ r. r.id == product_id && not (ltb r.stock max_int)) d.products
    then none
    else some (tt, record d { products = update (λ r. r.id == product_id) put_one d.products })

module _ {W : Type 0} (env : Env) where
  unfoldable pub deduct_stock : String → Action W (Unit {0})
  deduct_stock product_id = do
    affected ← statement env Call.deduct_stock (deduct_row product_id)
    branch affected (pure tt) (fail insufficient_stock)

  unfoldable pub restock_stock : String → Action W (Unit {0})
  restock_stock product_id = statement env Call.restock_stock (restock_row product_id)

abbrev pub set_products : (Product → Bool) → (Product → Product) → Db → Db
set_products p f d = record d { products = update p f d.products }

pub Ensures-deduct_stock :
    {W : Type 0} {Q : Result Error (Unit {0}) → Session W → Type 0} (env : Env) (p : String)
    {s : Session W}
    → (IsFailing env Call.deduct_stock s → Q (err (db_error Call.deduct_stock)) (aborting s))
    → (any (in_stock p) s.work.products ≡ false
        → Q
            (err insufficient_stock)
            (record s { work = set_products (in_stock p) take_one s.work }))
    → (any (in_stock p) s.work.products ≡ true
        → Q (ok tt) (record s { work = set_products (in_stock p) take_one s.work }))
    → Ensures Q (deduct_stock env p) s
unfolding deduct_stock statement ◌>>=◌ pure fail
Ensures-deduct_stock env p {s} bad short taken =
    elim (Bool-cases (s.aborted || env.fails Call.deduct_stock)) [
      | inl e ↦ record { at = rw e (bad e) }
      | inr e ↦ elim (Bool-cases (any (in_stock p) s.work.products)) [
        | inl q ↦ record { at = rw e (rw q (taken q)) }
        | inr q ↦ record { at = rw e (rw q (short q)) }
      ]
    ]

-- a restock that would leave INT
abbrev pub overflows : String → Db → Bool
overflows p d = any (λ r. r.id == p && not (ltb r.stock max_int)) d.products

pub Ensures-restock_stock :
    {W : Type 0} {Q : Result Error (Unit {0}) → Session W → Type 0} (env : Env) (p : String)
    {s : Session W}
    → (IsFailing env Call.restock_stock s → Q (err (db_error Call.restock_stock)) (aborting s))
    → (overflows p s.work ≡ true → Q (err (db_error Call.restock_stock)) (aborting s))
    → (overflows p s.work ≡ false
        → Q (ok tt) (record s { work = set_products (λ r. r.id == p) put_one s.work }))
    → Ensures Q (restock_stock env p) s
unfolding restock_stock statement
Ensures-restock_stock env p {s} bad over fits =
    elim (Bool-cases (s.aborted || env.fails Call.restock_stock)) [
      | inl e ↦ record { at = rw e (bad e) }
      | inr e ↦ elim (Bool-cases (overflows p s.work)) [
        | inl q ↦ record { at = rw e (rw q (over q)) }
        | inr q ↦ record { at = rw e (rw q (fits q)) }
      ]
    ]
