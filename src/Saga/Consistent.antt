-- ===== src/Saga/Consistent.antt =====
-- Payments against the cancels that Payment Service has recorded: an invariant, through the outcomes of every handler.
use high_throughput_payments.Base.{ℕ, String, ◌≡◌, ◌∙◌, true, false, any, distinct, arith}
use high_throughput_payments.Exec.{Result}
use high_throughput_payments.Http.{Response}
use high_throughput_payments.Json.{Document}
use high_throughput_payments.Db.{Db, Env, Error, EventType, payment_status_discrete}
use high_throughput_payments.Db.Payments.{of_order, of_intent}
use high_throughput_payments.External.{UuidLib}
use high_throughput_payments.OrderService.Handlers.Outcomes as Orders
use high_throughput_payments.InventoryService.Handler.{InventoryHandler}
use high_throughput_payments.InventoryService.Events.{OrderCreatedEvent, CompensationEvent}
use high_throughput_payments.InventoryService.Handler.Outcomes as Inventory
use high_throughput_payments.PaymentService.Events as PaymentEvents
use high_throughput_payments.PaymentService.Handler.{PaymentHandler}
use high_throughput_payments.PaymentService.Handler.Created as Charging
use high_throughput_payments.PaymentService.Handler.Cancelled as Cancelling
use high_throughput_payments.PaymentService.Webhook.{WebhookHandler, Outcome}
use high_throughput_payments.PaymentService.Webhook.Settled as Settling
use high_throughput_payments.Saga.Charged.{
  is_conflict, same_order, same_intent, conflict-add, conflict-refund, conflict-settle,
  conflict-quiet, conflict-settle_refund, not_charged_of_none, not_charged_of_first,
  distinct_orders-update, distinct_intents-update,
}

-- The unique constraints of `payments`, and no payment that is charged while its order stands in
-- `cancelled_orders`.
pub record Consistent (d : Db) : Type 0 where
  pub orders_unique : distinct same_order d.payments ≡ true
  pub intents_unique : distinct same_intent d.payments ≡ true
  pub no_conflict : any (is_conflict d.cancelled) d.payments ≡ false

-- Order Service and Inventory Service write neither table.
pub Ordering-Consistent :
    {uuids : UuidLib} {env : Env} {doc : Document} {d d' : Db} {r : Response}
    → Orders.Created uuids env doc d r d'
    → Consistent d
    → Consistent d'
Ordering-Consistent (Orders.Created.created req o i u c n m x v) k = record {
  orders_unique = k.orders_unique;
  intents_unique = k.intents_unique;
  no_conflict = k.no_conflict;
}
Ordering-Consistent _ k = record {
  orders_unique = k.orders_unique;
  intents_unique = k.intents_unique;
  no_conflict = k.no_conflict;
}

pub OrderCancelling-Consistent :
    {uuids : UuidLib} {env : Env} {text : String} {d d' : Db} {r : Response}
    → Orders.Cancelled uuids env text d r d'
    → Consistent d
    → Consistent d'
OrderCancelling-Consistent (Orders.Cancelled.bad_id u) k = k
OrderCancelling-Consistent _ k = record {
  orders_unique = k.orders_unique;
  intents_unique = k.intents_unique;
  no_conflict = k.no_conflict;
}

pub Deducting-Consistent :
    {h : InventoryHandler} {env : Env} {o : ℕ} {e : OrderCreatedEvent} {d d' : Db}
    {r : Result Error (Unit {0})}
    → Inventory.Deduction h env o e d r d'
    → Consistent d
    → Consistent d'
Deducting-Consistent (Inventory.Deduction.faulty f) k = k
Deducting-Consistent _ k = record {
  orders_unique = k.orders_unique;
  intents_unique = k.intents_unique;
  no_conflict = k.no_conflict;
}

pub Restocking-Consistent :
    {h : InventoryHandler} {env : Env} {t : EventType} {o : ℕ} {e : CompensationEvent} {d d' : Db}
    {r : Result Error (Unit {0})}
    → Inventory.Compensated h env t o e d r d'
    → Consistent d
    → Consistent d'
Restocking-Consistent (Inventory.Compensated.faulty f) k = k
Restocking-Consistent _ k = record {
  orders_unique = k.orders_unique;
  intents_unique = k.intents_unique;
  no_conflict = k.no_conflict;
}

-- A new payment is pending, under an order and an intent that had none.
pub Charging-Consistent :
    {W : Type 0} {h : PaymentHandler W} {env : Env} {o : ℕ} {e : PaymentEvents.OrderCreatedEvent}
    {d d' : Db} {w w' : W} {r : Result Error (Unit {0})}
    → Charging.Created h env o e d w r d' w'
    → Consistent d
    → Consistent d'
unfolding payment_status_discrete
Charging-Consistent (Charging.Created.succeeded i c q free) k = record {
  orders_unique = ground arith;
  intents_unique = ground arith;
  no_conflict = ground arith;
}
Charging-Consistent _ k = record {
  orders_unique = k.orders_unique;
  intents_unique = k.intents_unique;
  no_conflict = k.no_conflict;
}

-- A cancel finds no payment, or one that is not charged, or it refunds.
pub Cancelling-Consistent :
    {W : Type 0} {h : PaymentHandler W} {env : Env} {o : ℕ} {d d' : Db} {w w' : W}
    {r : Result Error (Unit {0})}
    → Cancelling.Cancelled h env o d w r d' w'
    → Consistent d
    → Consistent d'
Cancelling-Consistent {o} {d} (Cancelling.Cancelled.no_payment f q) k = record {
  orders_unique = k.orders_unique;
  intents_unique = k.intents_unique;
  no_conflict =
      conflict-add o d.cancelled d.payments k.no_conflict (not_charged_of_none o d.payments q);
}
Cancelling-Consistent {o} {d} (Cancelling.Cancelled.not_charged p f q c) k = record {
  orders_unique = k.orders_unique;
  intents_unique = k.intents_unique;
  no_conflict =
      conflict-add o d.cancelled d.payments k.no_conflict
        (not_charged_of_first o p d.payments k.orders_unique q c);
}
Cancelling-Consistent {o} {d} (Cancelling.Cancelled.refunded p i f q c s n t) k = record {
  orders_unique = distinct_orders-update _ (of_order o) d.payments ∙ k.orders_unique;
  intents_unique = distinct_intents-update _ (of_order o) d.payments ∙ k.intents_unique;
  no_conflict = conflict-refund o d.cancelled d.payments k.no_conflict;
}
Cancelling-Consistent _ k = record {
  orders_unique = k.orders_unique;
  intents_unique = k.intents_unique;
  no_conflict = k.no_conflict;
}

-- A webhook charges only a payment whose order is not cancelled, or refunds in the same transaction.
pub Settling-Consistent :
    {W : Type 0} {h : WebhookHandler W} {env : Env} {out : Outcome} {i : String} {d d' : Db}
    {w w' : W} {r : Response}
    → Settling.Settled h env out i d w r d' w'
    → Consistent d
    → Consistent d'
Settling-Consistent {out} {i} {d} (Settling.Settled.announced p id f c n t) k = record {
  orders_unique = distinct_orders-update _ (of_intent i) d.payments ∙ k.orders_unique;
  intents_unique = distinct_intents-update _ (of_intent i) d.payments ∙ k.intents_unique;
  no_conflict =
      conflict-settle i out.status d.cancelled p d.payments k.no_conflict k.intents_unique f.found
        c;
}
Settling-Consistent {out} {i} {d} (Settling.Settled.quiet p f c s) k = record {
  orders_unique = distinct_orders-update _ (of_intent i) d.payments ∙ k.orders_unique;
  intents_unique = distinct_intents-update _ (of_intent i) d.payments ∙ k.intents_unique;
  no_conflict = conflict-quiet i out.status d.cancelled d.payments k.no_conflict s;
}
Settling-Consistent {out} {i} {d} (Settling.Settled.refunded p id f c s q n t) k = record {
  orders_unique =
      distinct_orders-update _ (of_order p.order_id) _
      ∙ distinct_orders-update _ (of_intent i) d.payments
      ∙ k.orders_unique;
  intents_unique =
      distinct_intents-update _ (of_order p.order_id) _
      ∙ distinct_intents-update _ (of_intent i) d.payments
      ∙ k.intents_unique;
  no_conflict =
      conflict-settle_refund i out.status d.cancelled p d.payments k.no_conflict k.intents_unique
        f.found;
}
Settling-Consistent _ k = record {
  orders_unique = k.orders_unique;
  intents_unique = k.intents_unique;
  no_conflict = k.no_conflict;
}
