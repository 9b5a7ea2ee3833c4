-- ===== src/Db/Transaction.antt =====
-- One run of a handler against Postgres (pgx): `committed` is what other transactions see, `work`
-- what the open transaction sees. A statement that fails aborts its transaction, so that every
-- later statement and the commit fail too. `world` is what no rollback undoes: Stripe and the
-- state of its circuit breakers.
use high_throughput_payments.Base.{ℕ, Bool, true, false, ◌||◌, Option, none, some, if◌then◌else◌}
use high_throughput_payments.Exec.{Exec, Result, ok, err}
use high_throughput_payments.Db.Schema.{Db}

-- The calls of pgx that can return an error.
pub data Call : Type 0 where
  begin commit : Call
  create_order get_order cancel_pending : Call
  insert_event fetch_unpublished : Call
  mark_published : ℕ → Call
  mark_processed deduct_stock restock_stock : Call
  create_payment update_status_by_intent update_status_by_order : Call
  lock_order mark_cancelled is_cancelled get_payment : Call

-- What one run meets: which calls fail, what `uuid.NewV7` gives, and the time of the transaction.
pub record Env : Type 0 where
  pub fails : Call → Bool
  pub order_id : Option ℕ
  pub event_id : Option ℕ
  pub now : ℕ

-- The errors that the code tells apart by `errors.Is`, and those of the calls it only wraps.
pub data Error : Type 0 where
  db_error : Call → Error
  insufficient_stock order_not_found order_not_cancellable payment_not_found : Error
  no_id unmarshal_error invalid_order_id open_state too_many_requests : Error
  stripe_error kafka_error : Error

pub record Session (W : Type 0) : Type 0 where
  pub committed : Db
  pub work : Db
  pub aborted : Bool
  pub world : W

abbrev pub Action : Type 0 → Type 0 → Type 0
Action W A = Exec (Session W) Error A

-- `tx.Rollback`, deferred: it does nothing after a commit, as `work` is then never read again
abbrev pub rollback_tx : {W : Type 0} → Session W → Session W
rollback_tx s = record s { work = s.committed; aborted = false }

-- what a transaction begins with
abbrev pub opened : {W : Type 0} → Session W → Session W
opened s = record s { work = s.committed; aborted = false }

-- what a statement that fails leaves
abbrev pub aborting : {W : Type 0} → Session W → Session W
aborting s = record s { aborted = true }

module _ {W : Type 0} where
  -- `tx.Commit`; a commit that returns an error has changed nothing
  unfoldable pub commit_tx : Env → Action W (Unit {0})
  commit_tx env s =
      if s.aborted || env.fails commit
      then (err (db_error commit), s)
      else (ok tt, record s { committed = s.work })

  -- what a statement that Postgres answers leaves: `none` is an error of its own, such as a
  -- violated constraint
  answer : {A : Type 0} → Call → Session W → Option (A × Db) → Result Error A × Session W
  answer c s none = (err (db_error c), aborting s)
  answer c s (some (a, d)) = (ok a, record s { work = d })

  unfoldable pub statement : {A : Type 0} → Env → Call → (Db → Option (A × Db)) → Action W A
  unfolding answer
  statement env c query s =
      if s.aborted || env.fails c then (err (db_error c), aborting s) else answer c s (query s.work)

  -- `pool.QueryRow`: outside a transaction
  unfoldable pub pool_query : {A : Type 0} → Env → Call → (Db → A) → Action W A
  pool_query env c query s =
      if env.fails c then (err (db_error c), s) else (ok (query s.committed), s)

module _ {W E A : Type 0} where
  end_tx : Result E A × Session W → Result E A × Session W
  end_tx (r, s) = (r, rollback_tx s)

  -- `pool.Begin` with its deferred `tx.Rollback`; `wrap` is what the caller makes of an error of
  -- `Begin`
  unfoldable pub with_tx : Env → (Error → E) → Exec (Session W) E A → Exec (Session W) E A
  unfolding end_tx
  with_tx env wrap body s =
      if env.fails begin then (err (wrap (db_error begin)), s) else end_tx (body (opened s))
