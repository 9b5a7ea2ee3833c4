-- ===== src/Saga/Success.antt =====
-- Runs of order.created in Payment Service and Inventory Service in which nothing fails.
use high_throughput_payments.Base.{
  ℕ, suc, String, nat_eq, string_eq, ==_refl, ◌≡◌, refl, ap, subst, sym, true, false, some, count,
  arith,
}
use high_throughput_payments.Exec.{Result, ok}
use high_throughput_payments.Exec.Ensures.{Ensures}
use high_throughput_payments.Json.{Document}
use high_throughput_payments.Db.{Db, Session, Env, Error}
use high_throughput_payments.Db.Faults.{IsHealthy, no-Fault}
use high_throughput_payments.Db.Payments.{is_cancelled_in, has_payment, find_payment}
use high_throughput_payments.Db.ProcessedEvents.{is_processed}
use high_throughput_payments.PaymentService.Events as PaymentEvents
use high_throughput_payments.PaymentService.Handler.{
  PaymentHandler, pending_payment, handle_order_created,
}
use high_throughput_payments.PaymentService.Handler.Created as Charging
use high_throughput_payments.InventoryService.Events as StockEvents
use high_throughput_payments.InventoryService.Handler as Stock
use high_throughput_payments.InventoryService.Handler.{InventoryHandler}
use high_throughput_payments.InventoryService.Handler.Outcomes as Outcomes
use high_throughput_payments.InventoryService.Handler.Outcomes.{has_stock}
use high_throughput_payments.Saga.Units.{of_product, total, deduct_step}

module _ {W : Type 0} {h : PaymentHandler W} {env : Env} {o : ℕ}
    {e : PaymentEvents.OrderCreatedEvent} where
  charge_outcome :
      {d d' : Db} {w w' : W} {r : Result Error (Unit {0})} (i : String)
      → Charging.Created h env o e d w r d' w'
      → IsHealthy env d
      → Charging.Charges h env o e d
      → (Charging.charged h env o e w).0 ≡ ok i
      → has_payment (pending_payment o e i) d ≡ false
      → (r ≡ ok tt) × (find_payment o d' ≡ some (pending_payment o e i))
  charge_outcome i (Charging.Created.faulty f) k n c t = absurd (no-Fault k f)
  charge_outcome i (Charging.Created.seen m) k n c t = absurd (cc (m, n.fresh))
  charge_outcome i (Charging.Created.skipped m x) k n c t = absurd (cc (x, n.wanted))
  charge_outcome i (Charging.Created.circuit_open e' m x b) k n c t = absurd (cc (x, c))
  charge_outcome i (Charging.Created.faulty_late m f) k n c t = absurd (no-Fault k f)
  charge_outcome i (Charging.Created.declined e' id m x b y z) k n c t = absurd (cc (x, c))
  charge_outcome {d} i (Charging.Created.taken i' m x y) k n c t =
      let same : i' ≡ i = cc (x, c) in
      absurd (cc (y, subst (λ j. has_payment (pending_payment o e j) d ≡ false) (sym same) t))
  charge_outcome i (Charging.Created.succeeded i' m x y) k n c t =
      let same : i' ≡ i = cc (x, c) in
      (refl, rw (==_refl o) (ap (λ j. some (pending_payment o e j)) same))

-- For a message that decodes and names an order: if nothing fails, the order is new to Payment
-- Service and not cancelled, and Stripe accepts the charge, where neither the order nor the intent
-- has a payment, then the handler of order.created succeeds and the order's payment is the pending
-- one of that intent.
pub charge_progress :
    {W : Type 0} (h : PaymentHandler W) (env : Env) (doc : Document)
    (e : PaymentEvents.OrderCreatedEvent) (o : ℕ) (i : String) (s : Session W)
    → PaymentEvents.unmarshal_order_created doc ≡ some e
    → h.uuids.parse e.order_id ≡ some o
    → IsHealthy env s.committed
    → is_processed (Charging.created_key h env o e) s.committed ≡ false
    → is_cancelled_in o s.committed ≡ false
    → (h.stripe.create_and_confirm e.amount e.order_id s.world).0 ≡ ok i
    → has_payment (pending_payment o e i) s.committed ≡ false
    → Ensures
        (λ r s'. (r ≡ ok tt) × (find_payment o s'.committed ≡ some (pending_payment o e i)))
        (handle_order_created h env doc)
        s
charge_progress h env doc e o i s u v k n c q t =
    Charging.handle_order_created_rule h env
      (λ r d _. (r ≡ ok tt) × (find_payment o d ≡ some (pending_payment o e i))) doc s
      (λ x. absurd (cc (u, x))) (λ e' u' v'. absurd (cc (u, v, u', v')))
      (λ e' o' r d' w u' v' x.
        let same_event : e' ≡ e = cc (u, u') in
        let same : o' ≡ o = cc (v, v') in
        charge_outcome i
          (subst (λ y. Charging.Created h env o y s.committed s.world r d' w) same_event
            (subst (λ y. Charging.Created h env y e' s.committed s.world r d' w) same x))
          k (record { fresh = n; wanted = c }) q t)

module _ {h : InventoryHandler} {env : Env} {o : ℕ} {e : StockEvents.OrderCreatedEvent} where
  deduct_outcome :
      {d d' : Db} {r : Result Error (Unit {0})}
      → Outcomes.Deduction h env o e d r d'
      → IsHealthy env d
      → is_processed (Outcomes.created_key h env o e) d ≡ false
      → count (of_product e.product_id) d.products ≡ 1
      → has_stock e.product_id d ≡ true
      → (r ≡ ok tt) × (total e.product_id d.products ≡ suc (total e.product_id d'.products))
  deduct_outcome (Outcomes.Deduction.faulty f) k n u t = absurd (no-Fault k f)
  deduct_outcome (Outcomes.Deduction.seen m) k n u t = absurd (cc (m, n))
  deduct_outcome (Outcomes.Deduction.short id m x y z) k n u t = absurd (cc (x, t))
  deduct_outcome {d} (Outcomes.Deduction.deducted id m x y z) k n u t =
      let step = deduct_step e.product_id e.product_id d.products u x in
      (refl, ground (arith, step, ==_refl e.product_id))

-- For a message that decodes and names an order: if nothing fails, the order is new to Inventory
-- Service, and its product has one row, in stock, then the handler of order.created succeeds and
-- takes exactly one unit.
pub deduct_progress :
    {W : Type 0} (h : InventoryHandler) (env : Env) (doc : Document)
    (e : StockEvents.OrderCreatedEvent) (o : ℕ) (s : Session W)
    → StockEvents.unmarshal_order_created doc ≡ some e
    → h.uuids.parse e.order_id ≡ some o
    → IsHealthy env s.committed
    → is_processed (Outcomes.created_key h env o e) s.committed ≡ false
    → count (of_product e.product_id) s.committed.products ≡ 1
    → has_stock e.product_id s.committed ≡ true
    → Ensures
        (λ r s'.
          (r ≡ ok tt)
          × (total e.product_id s.committed.products
              ≡ suc (total e.product_id s'.committed.products)))
        (Stock.handle_order_created h env doc)
        s
deduct_progress h env doc e o s u v k n c t =
    Outcomes.handle_order_created_rule h env
      (λ r d.
        (r ≡ ok tt)
        × (total e.product_id s.committed.products ≡ suc (total e.product_id d.products)))
      doc s (λ x. absurd (cc (u, x))) (λ e' u' v'. absurd (cc (u, v, u', v')))
      (λ e' o' r d' u' v' x.
        let same_event : e' ≡ e = cc (u, u') in
        let same : o' ≡ o = cc (v, v') in
        deduct_outcome
          (subst (λ y. Outcomes.Deduction h env o y s.committed r d') same_event
            (subst (λ y. Outcomes.Deduction h env y e' s.committed r d') same x))
          k n c t)
