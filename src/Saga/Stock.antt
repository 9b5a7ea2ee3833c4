-- ===== src/Saga/Stock.antt =====
-- The stock of a product against the events of the outbox, through the outcomes of every handler.
use high_throughput_payments.Base.{
  ℕ, ◌+◌, String, List, ◌==◌, string_eq, string_discrete, ◌&&◌, ◌≡◌, ◌∙◌, Bool, false, none, some,
  count, arith,
}
use high_throughput_payments.Exec.{Result}
use high_throughput_payments.Http.{Response}
use high_throughput_payments.Json.{Document, Field, string_field}
use high_throughput_payments.Db.{
  Db, Env, Error, EventType, event_type_eq, event_type_discrete, inventory_deducted,
  inventory_restocked, OutboxRow,
}
use high_throughput_payments.External.{UuidLib}
use high_throughput_payments.OrderService.Handlers.Outcomes as Orders
use high_throughput_payments.InventoryService.Handler.{InventoryHandler}
use high_throughput_payments.InventoryService.Events.{OrderCreatedEvent, CompensationEvent}
use high_throughput_payments.InventoryService.Handler.Outcomes as Inventory
use high_throughput_payments.InventoryService.Handler.Outcomes.{inventory_row}
use high_throughput_payments.PaymentService.Events as PaymentEvents
use high_throughput_payments.PaymentService.Handler.{PaymentHandler}
use high_throughput_payments.PaymentService.Handler.Created as Charging
use high_throughput_payments.PaymentService.Handler.Cancelled as Cancelling
use high_throughput_payments.PaymentService.Webhook.{WebhookHandler, Outcome, outcome}
use high_throughput_payments.PaymentService.Webhook.Settled as Settling
use high_throughput_payments.Saga.Units.{
  of_product, total, deduct_step, short_step, restock_step, count-deduct, count-restock,
}

-- the event is of type `t` and its payload names product `q`
abbrev names_product : String → List Field → Bool
names_product q payload = elim (string_field "product_id" payload) [
  | none ↦ false
  | some p ↦ p == q
]

abbrev of_event : EventType → String → OutboxRow → Bool
of_event t q row = row.event_type == t && names_product q row.payload

-- the events of a type for a product that were ever written
abbrev pub written_events : EventType → String → Db → ℕ
written_events t q d = count (of_event t q) d.outbox

-- of a product with one row: the units at the start, less the deductions and with the restocks
pub record Balanced (q : String) (units : ℕ) (d : Db) : Type 0 where
  pub one_row : count (of_product q) d.products ≡ 1
  pub balance :
      total q d.products + written_events inventory_deducted q d
      ≡ units + written_events inventory_restocked q d

-- a webhook announces a payment's outcome only
outcome_lem :
    (x : String) (out : Outcome)
    → outcome x ≡ some out
    → ((out.outbox_type == inventory_deducted) ≡ false)
      × ((out.outbox_type == inventory_restocked) ≡ false)
unfolding outcome event_type_discrete
outcome_lem x out h = ground arith

module _ (q : String) (units : ℕ) where
  pub Deducting-Balanced :
      {h : InventoryHandler} {env : Env} {o : ℕ} {e : OrderCreatedEvent} {d d' : Db}
      {r : Result Error (Unit {0})}
      → Inventory.Deduction h env o e d r d'
      → Balanced q units d
      → Balanced q units d'
  unfolding string_field string_discrete event_type_discrete
  Deducting-Balanced (Inventory.Deduction.faulty f) b = b
  Deducting-Balanced (Inventory.Deduction.seen k) b = b
  Deducting-Balanced {e} {d} (Inventory.Deduction.deducted i k s n t) b = record {
    one_row = count-deduct e.product_id q d.products ∙ b.one_row;
    balance = omega (arith, b.balance, deduct_step e.product_id q d.products b.one_row s);
  }
  Deducting-Balanced {e} {d} (Inventory.Deduction.short i k s n t) b = record {
    one_row = count-deduct e.product_id q d.products ∙ b.one_row;
    balance = omega (arith, b.balance, short_step e.product_id q d.products s);
  }

  pub Restocking-Balanced :
      {h : InventoryHandler} {env : Env} {t : EventType} {o : ℕ} {e : CompensationEvent} {d d' : Db}
      {r : Result Error (Unit {0})}
      → Inventory.Compensated h env t o e d r d'
      → Balanced q units d
      → Balanced q units d'
  unfolding string_field string_discrete event_type_discrete
  Restocking-Balanced {e} {d} (Inventory.Compensated.restocked i k s n u) b = record {
    one_row = count-restock e.product_id q d.products ∙ b.one_row;
    balance = omega (arith, b.balance, restock_step e.product_id q d.products b.one_row);
  }
  Restocking-Balanced _ b = b

  -- Order Service and Payment Service change no product and write other events.
  pub Ordering-Balanced :
      {uuids : UuidLib} {env : Env} {doc : Document} {d d' : Db} {r : Response}
      → Orders.Created uuids env doc d r d'
      → Balanced q units d
      → Balanced q units d'
  unfolding event_type_discrete
  Ordering-Balanced (Orders.Created.malformed x) b = b
  Ordering-Balanced _ b = record { one_row = b.one_row; balance = omega (arith, b.balance) }

  pub OrderCancelling-Balanced :
      {uuids : UuidLib} {env : Env} {text : String} {d d' : Db} {r : Response}
      → Orders.Cancelled uuids env text d r d'
      → Balanced q units d
      → Balanced q units d'
  unfolding event_type_discrete
  OrderCancelling-Balanced (Orders.Cancelled.bad_id x) b = b
  OrderCancelling-Balanced _ b = record { one_row = b.one_row; balance = omega (arith, b.balance) }

  pub Charging-Balanced :
      {W : Type 0} {h : PaymentHandler W} {env : Env} {o : ℕ} {e : PaymentEvents.OrderCreatedEvent}
      {d d' : Db} {w w' : W} {r : Result Error (Unit {0})}
      → Charging.Created h env o e d w r d' w'
      → Balanced q units d
      → Balanced q units d'
  unfolding event_type_discrete
  Charging-Balanced (Charging.Created.faulty x) b = b
  Charging-Balanced _ b = record { one_row = b.one_row; balance = omega (arith, b.balance) }

  pub Cancelling-Balanced :
      {W : Type 0} {h : PaymentHandler W} {env : Env} {o : ℕ} {d d' : Db} {w w' : W}
      {r : Result Error (Unit {0})}
      → Cancelling.Cancelled h env o d w r d' w'
      → Balanced q units d
      → Balanced q units d'
  unfolding event_type_discrete
  Cancelling-Balanced (Cancelling.Cancelled.faulty x) b = b
  Cancelling-Balanced _ b = record { one_row = b.one_row; balance = omega (arith, b.balance) }

  pub Settling-Balanced :
      {W : Type 0} {h : WebhookHandler W} {env : Env} {out : Outcome} {i : String} {d d' : Db}
      {w w' : W} {r : Response} (x : String)
      → outcome x ≡ some out
      → Settling.Settled h env out i d w r d' w'
      → Balanced q units d
      → Balanced q units d'
  unfolding event_type_discrete
  Settling-Balanced x y (Settling.Settled.faulty f) b = b
  Settling-Balanced {out} x y (Settling.Settled.announced p id f c n t) b = record {
    one_row = b.one_row;
    balance =
        let (not_deducted, not_restocked) = outcome_lem x out y in
        rw not_deducted (rw not_restocked (omega (arith, b.balance)));
  }
  Settling-Balanced x y _ b = record { one_row = b.one_row; balance = omega (arith, b.balance) }
