-- ===== src/Pipeline/Consumers.antt =====
-- The consumers on messages that were announced, through the outcomes of their handlers.
use high_throughput_payments.Base.{ℕ, String, List, ◌≡◌, refl, some}
use high_throughput_payments.Exec.{Result}
use high_throughput_payments.Json.{Field, object}
use high_throughput_payments.Db.{Db, Env, Error, Order, EventType, order_created}
use high_throughput_payments.External.{UuidLib}
use high_throughput_payments.InventoryService.Events as Stock
use high_throughput_payments.InventoryService.Handler.{InventoryHandler}
use high_throughput_payments.InventoryService.Handler.Outcomes as Inventory
use high_throughput_payments.PaymentService.Events as Charge
use high_throughput_payments.PaymentService.Events.{marshal_payment_event}
use high_throughput_payments.Saga.Messages.{
  order_created_roundtrip, order_cancelled_roundtrip, payment_event_roundtrip,
}
use high_throughput_payments.Pipeline.Orders.{Placed}
use high_throughput_payments.Pipeline.Grounded.{
  Tells, Announces, Grounded, Grounded-event, Grounded-apart,
}

-- the order that a message names, and its product
pub record About (uuids : UuidLib) (os : List Order) (o : Order) (id product : String)
    : Type 0 where
  pub placed : Placed os o
  pub same_id : id ≡ uuids.to_string o.id
  pub same_product : product ≡ o.product_id

module _ (uuids : UuidLib) (os : List Order) where
  -- the event that a handler announces for it
  pub told :
      {o : Order} (id product : String)
      → About uuids os o id product
      → Tells uuids os o id (marshal_payment_event (record { order_id = id; product_id = product }))
  told id product a = (a.placed, a.same_id, cc (a.same_id, a.same_product))

  pub parsed :
      {o : Order} {id product : String} (n : ℕ)
      → About uuids os o id product
      → uuids.parse id ≡ some n
      → n ≡ o.id
  parsed {o} n a q = cc (a.same_id, q, uuids.parse-to_string o.id)

  pub charge_names :
      (key : String) (body : List Field) (e : Charge.OrderCreatedEvent)
      → Announces uuids os order_created key body
      → Charge.unmarshal_order_created (object body) ≡ some e
      → (o : Order) × About uuids os o e.order_id e.product_id × (e.amount ≡ o.amount)
  charge_names key body e (o, p, u, a, k, b) q =
      let read =
        (order_created_roundtrip uuids
          (record {
            order_id = o.id;
            user_id = o.user_id;
            product_id = o.product_id;
            amount = o.amount;
          })
          u a).0 in
      (
        o,
        record { placed = p; same_id = cc (b, q, read); same_product = cc (b, q, read) },
        cc (b, q, read),
      )

  pub deduction_names :
      (key : String) (body : List Field) (e : Stock.OrderCreatedEvent)
      → Announces uuids os order_created key body
      → Stock.unmarshal_order_created (object body) ≡ some e
      → (o : Order) × About uuids os o e.order_id e.product_id
  deduction_names key body e (o, p, u, a, k, b) q =
      let read =
        (order_created_roundtrip uuids
          (record {
            order_id = o.id;
            user_id = o.user_id;
            product_id = o.product_id;
            amount = o.amount;
          })
          u a).1 in
      (o, record { placed = p; same_id = cc (b, q, read); same_product = cc (b, q, read) })

  pub compensation_names :
      (key : String) (body : List Field) (e : Stock.CompensationEvent) (o : Order)
      → Tells uuids os o key body
      → Stock.unmarshal_compensation (object body) ≡ some e
      → About uuids os o e.order_id e.product_id
  compensation_names key body e o (p, k, b) q =
      let read =
        payment_event_roundtrip
          (record { order_id = uuids.to_string o.id; product_id = o.product_id }) in
      record { placed = p; same_id = cc (b, q, read); same_product = cc (b, q, read) }

  pub cancel_names :
      (key : String) (body : List Field) (e : Charge.OrderCancelledEvent) (o : Order) (n : ℕ)
      → Tells uuids os o key body
      → Charge.unmarshal_order_cancelled (object body) ≡ some e
      → uuids.parse e.order_id ≡ some n
      → n ≡ o.id
  cancel_names key body e o n (p, k, b) q m = cc (
    b,
    q,
    m,
    uuids.parse-to_string o.id,
    (order_cancelled_roundtrip uuids (record { order_id = o.id; product_id = o.product_id })).0,
  )

module _ {uuids : UuidLib} {d : Db} where
  pub Deduction-Grounded :
      {h : InventoryHandler} {env : Env} {n : ℕ} {e : Stock.OrderCreatedEvent} {d' : Db}
      {r : Result Error (Unit {0})} (o : Order)
      → About uuids d.orders o e.order_id e.product_id
      → Inventory.Deduction h env n e d r d'
      → Grounded uuids d
      → Grounded uuids d'
  Deduction-Grounded {e} o a (Inventory.Deduction.deducted i k s m t) g =
      Grounded-event uuids _ ((o, told uuids d.orders e.order_id e.product_id a), refl)
        (Grounded-apart uuids _ _ g)
  Deduction-Grounded {e} o a (Inventory.Deduction.short i k s m t) g =
      Grounded-event uuids _ ((o, told uuids d.orders e.order_id e.product_id a), refl)
        (Grounded-apart uuids _ _ g)
  Deduction-Grounded o a _ g = g

  pub Compensated-Grounded :
      {h : InventoryHandler} {env : Env} {t : EventType} {n : ℕ} {e : Stock.CompensationEvent}
      {d' : Db} {r : Result Error (Unit {0})} (o : Order)
      → About uuids d.orders o e.order_id e.product_id
      → Inventory.Compensated h env t n e d r d'
      → Grounded uuids d
      → Grounded uuids d'
  Compensated-Grounded {e} o a (Inventory.Compensated.restocked i k s m t) g =
      Grounded-event uuids _ ((o, told uuids d.orders e.order_id e.product_id a), refl)
        (Grounded-apart uuids _ _ g)
  Compensated-Grounded o a _ g = g
