-- ===== src/Db/Orders.antt =====
-- internal/db/orders_repo.go
use high_throughput_payments.Base.{
  ℕ, ◌∷◌, ◌==◌, nat_eq, ◌≡◌, ◌&&◌, ◌||◌, inl, inr, Bool, true, false, Bool-cases, Option-cases,
  Option, none, some, any, find, update, if◌then◌else◌,
}
use high_throughput_payments.Exec.{Result, ok, err, pure, ◌>>=◌, ◌>>◌}
use high_throughput_payments.Exec.Ensures.{Ensures}
use high_throughput_payments.Db.Rules.{IsFailing}
use high_throughput_payments.Db.Schema.{Db, Order, OrderStatus, order_status_eq}
use high_throughput_payments.Db.Transaction.{
  Session, Env, Action, Call, Error, db_error, aborting, no_id, order_not_found,
  order_not_cancellable, statement, pool_query,
}

-- INSERT INTO orders: `id` is the primary key
abbrev insert_order : Order → Db → Option (Unit {0} × Db)
insert_order o d =
    if any (λ r. r.id == o.id) d.orders then none else some (tt, record d { orders = o ∷ d.orders })

-- UPDATE orders SET status = 'cancelled' WHERE id = … AND status = 'pending' RETURNING …
abbrev pub is_pending : ℕ → Order → Bool
is_pending id r = r.id == id && r.status == OrderStatus.pending

abbrev pub set_cancelled : Order → Order
set_cancelled r = record r { status = OrderStatus.cancelled }

abbrev cancel_row : ℕ → Db → Option (Option Order × Db)
cancel_row id d = some (
  elim (find (is_pending id) d.orders) [ none ↦ none | some r ↦ some (set_cancelled r) ],
  record d { orders = update (is_pending id) set_cancelled d.orders },
)

-- no row is `pgx.ErrNoRows`
abbrev or_fail : {W A : Type 0} → Option A → Error → Action W A
or_fail o e s = elim o [ none ↦ (err e, s) | some a ↦ (ok a, s) ]

module _ {W : Type 0} (env : Env) where
  -- The order comes back with its new id and its creation time.
  unfoldable pub create : Order → Action W Order
  create o = do
    id ← or_fail env.order_id no_id
    let filled = record o { id = id; created_at = env.now }
    statement env Call.create_order (insert_order filled)
    pure filled

  unfoldable pub cancel_pending : ℕ → Action W Order
  cancel_pending id = do
    row ← statement env Call.cancel_pending (cancel_row id)
    or_fail row order_not_cancellable

  unfoldable pub get_by_id : ℕ → Action W Order
  get_by_id id = do
    row ← pool_query env Call.get_order (λ d. find (λ r. r.id == id) d.orders)
    or_fail row order_not_found

abbrev pub has_order : ℕ → Db → Bool
has_order id d = any (λ r. r.id == id) d.orders

abbrev pub add_order : Order → Db → Db
add_order o d = record d { orders = o ∷ d.orders }

abbrev pub cancel_order_in : ℕ → Db → Db
cancel_order_in id d = record d { orders = update (is_pending id) set_cancelled d.orders }

-- the order with its new id and its creation time
abbrev pub filled : Env → ℕ → Order → Order
filled env id o = record o { id = id; created_at = env.now }

module _ {W : Type 0} {Q : Result Error Order → Session W → Type 0} (env : Env) where
  pub Ensures-create :
      (o : Order) {s : Session W}
      → (env.order_id ≡ none → Q (err no_id) s)
      → (IsFailing env Call.create_order s → Q (err (db_error Call.create_order)) (aborting s))
      → ((id : ℕ)
          → env.order_id ≡ some id
          → has_order id s.work ≡ true
          → Q (err (db_error Call.create_order)) (aborting s))
      → ((id : ℕ)
          → env.order_id ≡ some id
          → has_order id s.work ≡ false
          → Q (ok (filled env id o)) (record s { work = add_order (filled env id o) s.work }))
      → Ensures Q (create env o) s
  unfolding create statement ◌>>=◌ pure
  Ensures-create o {s} no_uuid bad taken fresh = elim (Option-cases env.order_id) [
    | inl q ↦ record { at = rw q (no_uuid q) }
    | inr (id, q) ↦ elim (Bool-cases (s.aborted || env.fails Call.create_order)) [
      | inl f ↦ record { at = rw q (rw f (bad f)) }
      | inr f ↦ elim (Bool-cases (has_order id s.work)) [
        | inl p ↦ record { at = rw q (rw f (rw p (taken id q p))) }
        | inr p ↦ record { at = rw q (rw f (rw p (fresh id q p))) }
      ]
    ]
  ]

  pub Ensures-cancel_pending :
      (id : ℕ) {s : Session W}
      → (IsFailing env Call.cancel_pending s → Q (err (db_error Call.cancel_pending)) (aborting s))
      → (find (is_pending id) s.work.orders ≡ none
          → Q (err order_not_cancellable) (record s { work = cancel_order_in id s.work }))
      → ((o : Order)
          → find (is_pending id) s.work.orders ≡ some o
          → Q (ok (set_cancelled o)) (record s { work = cancel_order_in id s.work }))
      → Ensures Q (cancel_pending env id) s
  unfolding cancel_pending statement ◌>>=◌
  Ensures-cancel_pending id {s} bad missing found =
      elim (Bool-cases (s.aborted || env.fails Call.cancel_pending)) [
        | inl e ↦ record { at = rw e (bad e) }
        | inr e ↦ elim (Option-cases (find (is_pending id) s.work.orders)) [
          | inl q ↦ record { at = rw e (rw q (missing q)) }
          | inr (o, q) ↦ record { at = rw e (rw q (found o q)) }
        ]
      ]

  pub Ensures-get_by_id :
      (id : ℕ) {s : Session W}
      → (env.fails Call.get_order ≡ true → Q (err (db_error Call.get_order)) s)
      → (find (λ r. r.id == id) s.committed.orders ≡ none → Q (err order_not_found) s)
      → ((o : Order) → find (λ r. r.id == id) s.committed.orders ≡ some o → Q (ok o) s)
      → Ensures Q (get_by_id env id) s
  unfolding get_by_id pool_query ◌>>=◌
  Ensures-get_by_id id {s} bad missing found = elim (Bool-cases (env.fails Call.get_order)) [
    | inl e ↦ record { at = rw e (bad e) }
    | inr e ↦ elim (Option-cases (find (λ r. r.id == id) s.committed.orders)) [
      | inl q ↦ record { at = rw e (rw q (missing q)) }
      | inr (o, q) ↦ record { at = rw e (rw q (found o q)) }
    ]
  ]
