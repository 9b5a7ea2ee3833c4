-- ===== src/Saga/Counts.antt =====
-- The results of Inventory Service for one order, against its marks in processed_events, through
-- the outcomes of every handler.
use high_throughput_payments.Base.{
  ℕ, ◌+◌, String, ◌==◌, nat_eq, ==_sound, ◌≡◌, Bool, false, ◌&&◌, ◌||◌, none, some, count,
  if◌then◌else◌, arith,
}
use high_throughput_payments.Exec.{Result}
use high_throughput_payments.Http.{Response}
use high_throughput_payments.Json.{Document}
use high_throughput_payments.Db.{
  Db, Env, Error, EventType, event_type_eq, event_type_discrete, group_discrete, order_created,
  order_cancelled, payment_failed, inventory_deducted, inventory_failed, inventory_restocked,
  inventory_service, payment_service, OutboxRow,
}
use high_throughput_payments.Db.ProcessedEvents.{processed_key, is_processed}
use high_throughput_payments.External.{UuidLib}
use high_throughput_payments.OrderService.Handlers.Outcomes as Orders
use high_throughput_payments.InventoryService.Handler.{InventoryHandler}
use high_throughput_payments.InventoryService.Events.{OrderCreatedEvent, CompensationEvent}
use high_throughput_payments.InventoryService.Handler.Outcomes as Inventory
use high_throughput_payments.PaymentService.Events as PaymentEvents
use high_throughput_payments.PaymentService.Handler.{PaymentHandler}
use high_throughput_payments.PaymentService.Handler.Created as Charging
use high_throughput_payments.PaymentService.Handler.Cancelled as Cancelling
use high_throughput_payments.PaymentService.Webhook.{WebhookHandler, Outcome, outcome}
use high_throughput_payments.PaymentService.Webhook.Settled as Settling

-- the event's key is a text of the order's id
abbrev pub keyed : UuidLib → ℕ → OutboxRow → Bool
keyed uuids o r = elim (uuids.parse r.partition_key) [ none ↦ false | some n ↦ o == n ]

abbrev pub is_result : OutboxRow → Bool
is_result r = r.event_type == inventory_deducted || r.event_type == inventory_failed

abbrev pub is_restock : OutboxRow → Bool
is_restock r = r.event_type == inventory_restocked

-- whether Inventory Service has processed an event of the order, as a number
abbrev pub times : ℕ → EventType → Db → ℕ
times o t d = if is_processed (processed_key o t inventory_service) d then 1 else 0

-- a webhook announces a payment's outcome only
outcome_lem :
    (x : String) (out : Outcome)
    → outcome x ≡ some out
    → ((out.outbox_type == inventory_deducted || out.outbox_type == inventory_failed) ≡ false)
      × ((out.outbox_type == inventory_restocked) ≡ false)
unfolding outcome event_type_discrete
outcome_lem x out h = ground arith

module _ (uuids : UuidLib) (o : ℕ) where
  -- one result for order.created, if it was processed, and one restock for each compensation
  pub record Once (d : Db) : Type 0 where
    pub results : count (λ r. is_result r && keyed uuids o r) d.outbox ≡ times o order_created d
    pub restocks :
        count (λ r. is_restock r && keyed uuids o r) d.outbox
        ≡ times o order_cancelled d + times o payment_failed d

  pub Deduction-Once :
      {h : InventoryHandler} {env : Env} {n : ℕ} {e : OrderCreatedEvent} {d d' : Db}
      {r : Result Error (Unit {0})}
      → h.consumer_group ≡ inventory_service
      → uuids.parse e.order_id ≡ some n
      → Inventory.Deduction h env n e d r d'
      → Once d
      → Once d'
  unfolding event_type_discrete group_discrete
  Deduction-Once {n} g q (Inventory.Deduction.faulty f) k = k
  Deduction-Once {n} g q (Inventory.Deduction.seen f) k = k
  Deduction-Once {h} {n} {d} g q (Inventory.Deduction.deducted i f s m t) k = record {
    results = ground (arith, k.results, q, g, f, ==_sound o n);
    restocks = ground (arith, k.restocks, q);
  }
  Deduction-Once {n} {d} g q (Inventory.Deduction.short i f s m t) k = record {
    results = ground (arith, k.results, q, g, f, ==_sound o n);
    restocks = ground (arith, k.restocks, q);
  }

  -- the compensations
  pub Compensated-Once :
      {h : InventoryHandler} {env : Env} {n : ℕ} {e : CompensationEvent} {d d' : Db}
      {r : Result Error (Unit {0})}
      → h.consumer_group ≡ inventory_service
      → uuids.parse e.order_id ≡ some n
      → Inventory.Compensated h env order_cancelled n e d r d'
      → Once d
      → Once d'
  unfolding event_type_discrete group_discrete
  Compensated-Once {n} g q (Inventory.Compensated.restocked i f s m t) k = record {
    results = ground (arith, k.results, q, g);
    restocks = ground (arith, k.restocks, q, g, f, ==_sound o n);
  }
  Compensated-Once g q _ k = k

  pub Restored-Once :
      {h : InventoryHandler} {env : Env} {n : ℕ} {e : CompensationEvent} {d d' : Db}
      {r : Result Error (Unit {0})}
      → h.consumer_group ≡ inventory_service
      → uuids.parse e.order_id ≡ some n
      → Inventory.Compensated h env payment_failed n e d r d'
      → Once d
      → Once d'
  unfolding event_type_discrete group_discrete
  Restored-Once {n} g q (Inventory.Compensated.restocked i f s m t) k = record {
    results = ground (arith, k.results, q, g);
    restocks = ground (arith, k.restocks, q, g, f, ==_sound o n);
  }
  Restored-Once g q _ k = k

  -- Order Service and Payment Service write other events and other marks.
  pub Ordered-Once :
      {env : Env} {doc : Document} {d d' : Db} {r : Response}
      → Orders.Created uuids env doc d r d'
      → Once d
      → Once d'
  unfolding event_type_discrete
  Ordered-Once (Orders.Created.malformed q) k = k
  Ordered-Once _ k = record {
    results = ground (arith, k.results);
    restocks = ground (arith, k.restocks);
  }

  pub OrderCancelled-Once :
      {env : Env} {text : String} {d d' : Db} {r : Response}
      → Orders.Cancelled uuids env text d r d'
      → Once d
      → Once d'
  unfolding event_type_discrete
  OrderCancelled-Once (Orders.Cancelled.bad_id q) k = k
  OrderCancelled-Once _ k = record {
    results = ground (arith, k.results);
    restocks = ground (arith, k.restocks);
  }

  module _ {W : Type 0} where
    pub Charged-Once :
        {h : PaymentHandler W} {env : Env} {n : ℕ} {e : PaymentEvents.OrderCreatedEvent} {d d' : Db}
        {w w' : W} {r : Result Error (Unit {0})}
        → h.consumer_group ≡ payment_service
        → Charging.Created h env n e d w r d' w'
        → Once d
        → Once d'
    unfolding event_type_discrete group_discrete
    Charged-Once g (Charging.Created.faulty q) k = k
    Charged-Once g _ k = record {
      results = ground (arith, k.results, g);
      restocks = ground (arith, k.restocks, g);
    }

    pub Cancelled-Once :
        {h : PaymentHandler W} {env : Env} {n : ℕ} {d d' : Db} {w w' : W}
        {r : Result Error (Unit {0})}
        → h.consumer_group ≡ payment_service
        → Cancelling.Cancelled h env n d w r d' w'
        → Once d
        → Once d'
    unfolding event_type_discrete group_discrete
    Cancelled-Once g (Cancelling.Cancelled.faulty q) k = k
    Cancelled-Once g _ k = record {
      results = ground (arith, k.results, g);
      restocks = ground (arith, k.restocks, g);
    }

    pub Settled-Once :
        {h : WebhookHandler W} {env : Env} {out : Outcome} {i : String} {d d' : Db} {w w' : W}
        {r : Response} (x : String)
        → outcome x ≡ some out
        → Settling.Settled h env out i d w r d' w'
        → Once d
        → Once d'
    unfolding event_type_discrete group_discrete
    Settled-Once x y (Settling.Settled.faulty q) k = k
    Settled-Once {out} x y (Settling.Settled.announced p id f c n t) k =
        let (not_result, not_restock) = outcome_lem x out y in
        record {
          results = rw not_result (ground (arith, k.results));
          restocks = rw not_restock (ground (arith, k.restocks));
        }
    Settled-Once x y _ k = record {
      results = ground (arith, k.results);
      restocks = ground (arith, k.restocks);
    }
