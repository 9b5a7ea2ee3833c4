-- ===== src/Saga/Processed.antt =====
-- The marks of processed_events, through the outcomes of every handler and through runs.
use high_throughput_payments.Base.{ℕ, String, List, ◌≡◌, true, arith}
use high_throughput_payments.Exec.{Result}
use high_throughput_payments.Http.{Response}
use high_throughput_payments.Json.{Document}
use high_throughput_payments.Db.{Db, Env, Error, EventType, ProcessedEvent, same_event}
use high_throughput_payments.Db.ProcessedEvents.{is_processed, mark}
use high_throughput_payments.External.{UuidLib}
use high_throughput_payments.OrderService.Handlers.Outcomes as Orders
use high_throughput_payments.InventoryService.Handler.{InventoryHandler}
use high_throughput_payments.InventoryService.Events.{OrderCreatedEvent, CompensationEvent}
use high_throughput_payments.InventoryService.Handler.Outcomes as Inventory
use high_throughput_payments.PaymentService.Events as PaymentEvents
use high_throughput_payments.PaymentService.Handler.{PaymentHandler}
use high_throughput_payments.PaymentService.Handler.Created as Charging
use high_throughput_payments.PaymentService.Handler.Cancelled as Cancelling
use high_throughput_payments.PaymentService.Webhook.{WebhookHandler, Outcome}
use high_throughput_payments.PaymentService.Webhook.Settled as Settling
use high_throughput_payments.Saga.System.{Services, State, Input, run, run_induction}
use high_throughput_payments.Saga.Ran.{
  Ran, unread, ordered, order_cancelled_by, deducted, restocked_cancel, restocked_failure, charged,
  cancelled, settled, step-Ran,
}

same_event_refl : (k : ProcessedEvent) → same_event k k ≡ true
same_event_refl k = ground arith

pub is_processed-mark : (k : ProcessedEvent) (d : Db) → is_processed k (mark k d) ≡ true
is_processed-mark k d = ground (arith, same_event_refl k)

module _ (k : ProcessedEvent) where
  abbrev Marked : Db → Type 0
  Marked d = is_processed k d ≡ true

  ordering :
      {uuids : UuidLib} {env : Env} {doc : Document} {d d' : Db} {r : Response}
      → Orders.Created uuids env doc d r d'
      → Marked d
      → Marked d'
  ordering (Orders.Created.malformed q) m = m
  ordering _ m = m

  order_cancelling :
      {uuids : UuidLib} {env : Env} {text : String} {d d' : Db} {r : Response}
      → Orders.Cancelled uuids env text d r d'
      → Marked d
      → Marked d'
  order_cancelling (Orders.Cancelled.bad_id u) m = m
  order_cancelling _ m = m

  deducting :
      {h : InventoryHandler} {env : Env} {o : ℕ} {e : OrderCreatedEvent} {d d' : Db}
      {r : Result Error (Unit {0})}
      → Inventory.Deduction h env o e d r d'
      → Marked d
      → Marked d'
  deducting (Inventory.Deduction.faulty f) m = m
  deducting _ m = ground arith

  restocking :
      {h : InventoryHandler} {env : Env} {t : EventType} {o : ℕ} {e : CompensationEvent} {d d' : Db}
      {r : Result Error (Unit {0})}
      → Inventory.Compensated h env t o e d r d'
      → Marked d
      → Marked d'
  restocking (Inventory.Compensated.faulty f) m = m
  restocking _ m = ground arith

  charging :
      {W : Type 0} {h : PaymentHandler W} {env : Env} {o : ℕ} {e : PaymentEvents.OrderCreatedEvent}
      {d d' : Db} {w w' : W} {r : Result Error (Unit {0})}
      → Charging.Created h env o e d w r d' w'
      → Marked d
      → Marked d'
  charging (Charging.Created.faulty f) m = m
  charging _ m = ground arith

  cancelling :
      {W : Type 0} {h : PaymentHandler W} {env : Env} {o : ℕ} {d d' : Db} {w w' : W}
      {r : Result Error (Unit {0})}
      → Cancelling.Cancelled h env o d w r d' w'
      → Marked d
      → Marked d'
  cancelling (Cancelling.Cancelled.faulty f) m = m
  cancelling _ m = ground arith

  settling :
      {W : Type 0} {h : WebhookHandler W} {env : Env} {out : Outcome} {i : String} {d d' : Db}
      {w w' : W} {r : Response}
      → Settling.Settled h env out i d w r d' w'
      → Marked d
      → Marked d'
  settling (Settling.Settled.faulty f) m = m
  settling _ m = ground arith

  module _ {W : Type 0} (sv : Services W) where
    ran-Marked : {d d' : Db} {i : Env × Input} → Ran sv d i d' → Marked d → Marked d'
    ran-Marked (unread i) m = m
    ran-Marked (ordered env doc c) m = ordering c m
    ran-Marked (order_cancelled_by env text c) m = order_cancelling c m
    ran-Marked (deducted env doc e o u v c) m = deducting c m
    ran-Marked (restocked_cancel env doc e o u v c) m = restocking c m
    ran-Marked (restocked_failure env doc e o u v c) m = restocking c m
    ran-Marked (charged env doc e o u v c) m = charging c m
    ran-Marked (cancelled env doc e o u v c) m = cancelling c m
    ran-Marked (settled env req x out i y c) m = settling c m

    pub run-Marked :
        (is : List (Env × Input)) (t : State W)
        → is_processed k t.db ≡ true
        → is_processed k (run sv is t).db ≡ true
    run-Marked = run_induction sv (λ i t. ran-Marked (step-Ran sv i t))
