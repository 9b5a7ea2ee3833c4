-- ===== src/Db/Faults.antt =====
-- The reasons for which any handler's database calls may return an error.
use high_throughput_payments.Base.{ℕ, ◌≡◌, true, false, none, some}
use high_throughput_payments.Db.Schema.{Db}
use high_throughput_payments.Db.Transaction.{Env, Call, Error, db_error, no_id}
use high_throughput_payments.Db.Outbox.{has_event}

pub data Fault (env : Env) (d : Db) : Error → Type 0 where
  call_failed : (c : Call) → env.fails c ≡ true → Fault env d (db_error c)
  no_event_uuid : env.event_id ≡ none → Fault env d no_id
  event_taken :
      (id : ℕ)
      → env.event_id ≡ some id
      → has_event id d ≡ true
      → Fault env d (db_error Call.insert_event)

-- nothing fails, and there is a new uuid for an event
pub record IsHealthy (env : Env) (d : Db) : Type 0 where
  pub answers : (c : Call) → env.fails c ≡ false
  pub event_id : ℕ
  pub drawn : env.event_id ≡ some event_id
  pub unused : has_event event_id d ≡ false

pub no-Fault : {env : Env} {d : Db} {e : Error} → IsHealthy env d → ¬ (Fault env d e)
no-Fault k (call_failed c f) = cc (k.answers c, f)
no-Fault k (no_event_uuid n) = cc (k.drawn, n)
no-Fault k (event_taken id n t) = cc (k.drawn, n, k.unused, t)
