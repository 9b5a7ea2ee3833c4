-- ===== src/Saga/Atomicity.antt =====
-- The tables after a handler that returns an error, or answers with one.
use high_throughput_payments.Base.{ℕ, ◌≡◌, refl, true, ◌<◌, String, arith}
use high_throughput_payments.Exec.{Result, ok, err}
use high_throughput_payments.Http.{Response}
use high_throughput_payments.Json.{Document}
use high_throughput_payments.Db.{
  Db, Session, Env, Error, EventType, order_cancelled, payment_failed,
}
use high_throughput_payments.External.{UuidLib}
use high_throughput_payments.OrderService.Handlers.{create_order, cancel_order}
use high_throughput_payments.OrderService.Handlers.Outcomes as Orders
use high_throughput_payments.InventoryService.Events as InventoryEvents
use high_throughput_payments.InventoryService.Handler as Inventory
use high_throughput_payments.InventoryService.Handler.{InventoryHandler}
use high_throughput_payments.InventoryService.Handler.Outcomes as Stock
use high_throughput_payments.PaymentService.Events as PaymentEvents
use high_throughput_payments.PaymentService.Handler.{PaymentHandler, handle_order_cancelled}
use high_throughput_payments.PaymentService.Handler as Payments
use high_throughput_payments.PaymentService.Handler.Created as Charging
use high_throughput_payments.PaymentService.Handler.Cancelled as Cancelling
use high_throughput_payments.PaymentService.Webhook.{
  WebhookHandler, Request, Outcome, handle_stripe_webhook,
}
use high_throughput_payments.PaymentService.Webhook.Settled as Settling
use high_throughput_payments.Saga.System.{
  Services, State, Input, post_order, post_cancel, inventory_order_created,
  inventory_order_cancelled, inventory_payment_failed, payment_order_created,
  payment_order_cancelled, post_webhook, inventory_handler, payment_handler, webhook_handler, start,
  step, fails, is_error,
}

module _ {W : Type 0} {h : PaymentHandler W} {env : Env} {o : ℕ} where
  failed_charge :
      {x : PaymentEvents.OrderCreatedEvent} {d d' : Db} {w w' : W} {r : Result Error (Unit {0})}
      (e : Error)
      → Charging.Created h env o x d w r d' w'
      → r ≡ err e
      → d' ≡ d
  failed_charge e (Charging.Created.skipped k c) q = cc
  failed_charge e (Charging.Created.declined x i c s b n t) q = cc
  failed_charge e (Charging.Created.succeeded i c s f) q = cc
  failed_charge e _ q = refl

  failed_cancel :
      {d d' : Db} {w w' : W} {r : Result Error (Unit {0})} (e : Error)
      → Cancelling.Cancelled h env o d w r d' w'
      → r ≡ err e
      → d' ≡ d
  failed_cancel e (Cancelling.Cancelled.no_payment k n) q = cc
  failed_cancel e (Cancelling.Cancelled.not_charged p k n c) q = cc
  failed_cancel e (Cancelling.Cancelled.refunded p i k n c s m t) q = cc
  failed_cancel e _ q = refl

module _ {h : InventoryHandler} {env : Env} {o : ℕ} where
  failed-Deduction :
      {x : InventoryEvents.OrderCreatedEvent} {d d' : Db} {r : Result Error (Unit {0})} (e : Error)
      → Stock.Deduction h env o x d r d'
      → r ≡ err e
      → d' ≡ d
  failed-Deduction e (Stock.Deduction.deducted i k c n t) q = cc
  failed-Deduction e (Stock.Deduction.short i k c n t) q = cc
  failed-Deduction e _ q = refl

  failed_restock :
      {t : EventType} {x : InventoryEvents.CompensationEvent} {d d' : Db}
      {r : Result Error (Unit {0})} (e : Error)
      → Stock.Compensated h env t o x d r d'
      → r ≡ err e
      → d' ≡ d
  failed_restock e (Stock.Compensated.restocked i k c n u) q = cc
  failed_restock e _ q = refl

module _ {W : Type 0} (env : Env) (doc : Document) (e : Error) (s : Session W) where
  -- If Payment Service's handler of order.created returns an error, no table has changed, not even
  -- the mark that the message was processed, whatever Stripe was asked.
  pub failed_charge_keeps_tables :
      (h : PaymentHandler W)
      → (Payments.handle_order_created h env doc s).0 ≡ err e
      → (Payments.handle_order_created h env doc s).1.committed ≡ s.committed
  failed_charge_keeps_tables h q =
      (Charging.handle_order_created_rule h env (λ r d _. r ≡ err e → d ≡ s.committed) doc s
          (λ _ _. refl) (λ _ _ _ _. refl) (λ _ _ _ _ _ _ _ c. failed_charge e c)).at
        q

  -- If Payment Service's handler of order.cancelled returns an error, no table has changed, also
  -- after a refund that Stripe has made.
  pub failed_cancel_keeps_tables :
      (h : PaymentHandler W)
      → (handle_order_cancelled h env doc s).0 ≡ err e
      → (handle_order_cancelled h env doc s).1.committed ≡ s.committed
  failed_cancel_keeps_tables h q =
      (Cancelling.handle_order_cancelled_rule h env (λ r d _. r ≡ err e → d ≡ s.committed) doc s
          (λ _ _. refl) (λ _ _ _ _. refl) (λ _ _ _ _ _ _ _ c. failed_cancel e c)).at
        q

  -- If Inventory Service's handler of order.created returns an error, no table has changed.
  pub failed_deduction_keeps_tables :
      (h : InventoryHandler)
      → (Inventory.handle_order_created h env doc s).0 ≡ err e
      → (Inventory.handle_order_created h env doc s).1.committed ≡ s.committed
  failed_deduction_keeps_tables h q =
      (Stock.handle_order_created_rule h env (λ r d. r ≡ err e → d ≡ s.committed) doc s
          (λ _ _. refl) (λ _ _ _ _. refl) (λ _ _ _ _ _ _ c. failed-Deduction e c)).at
        q

  -- If Inventory Service's compensation returns an error, no table has changed.
  pub failed_restock_keeps_tables :
      (h : InventoryHandler) (t : EventType)
      → (Inventory.handle_compensation h env t doc s).0 ≡ err e
      → (Inventory.handle_compensation h env t doc s).1.committed ≡ s.committed
  failed_restock_keeps_tables h t q =
      (Stock.handle_compensation_rule h env t (λ r d. r ≡ err e → d ≡ s.committed) doc s
          (λ _ _. refl) (λ _ _ _ _. refl) (λ _ _ _ _ _ _ c. failed_restock e c)).at
        q

module _ {uuids : UuidLib} {env : Env} where
  refused_order :
      {doc : Document} {d d' : Db} {r : Response}
      → Orders.Created uuids env doc d r d'
      → 300 < r.status
      → d' ≡ d
  refused_order (Orders.Created.created req o i u c n t m v) q = absurd (omega arith)
  refused_order _ q = refl

  refused_cancel :
      {text : String} {d d' : Db} {r : Response}
      → Orders.Cancelled uuids env text d r d'
      → 300 < r.status
      → d' ≡ d
  refused_cancel (Orders.Cancelled.cancelled i n o u q m t) x = absurd (omega arith)
  refused_cancel _ x = refl

refused_webhook :
    {W : Type 0} {h : WebhookHandler W} {env : Env} {out : Outcome} {i : String} {d d' : Db}
    {w w' : W} {r : Response}
    → Settling.Settled h env out i d w r d' w'
    → 300 < r.status
    → d' ≡ d
refused_webhook (Settling.Settled.faulty f) q = refl
refused_webhook (Settling.Settled.refund_failed p k c s f) q = refl
refused_webhook (Settling.Settled.unknown n) q = refl
refused_webhook (Settling.Settled.seen p n k) q = refl
refused_webhook _ q = absurd (omega arith)

module _ {W : Type 0} (env : Env) (s : Session W) where
  -- If `CreateOrder` answers with an error status, no table has changed.
  pub refused_order_keeps_tables :
      (uuids : UuidLib) (doc : Document)
      → 300 < (create_order uuids env doc s).0.status
      → (create_order uuids env doc s).1.committed ≡ s.committed
  refused_order_keeps_tables uuids doc = refused_order (Orders.create_order-Created uuids env doc s)

  -- If `CancelOrder` answers with an error status, no order has changed and no event was written.
  pub refused_cancel_keeps_tables :
      (uuids : UuidLib) (text : String)
      → 300 < (cancel_order uuids env text s).0.status
      → (cancel_order uuids env text s).1.committed ≡ s.committed
  refused_cancel_keeps_tables uuids text =
      refused_cancel (Orders.cancel_order-Cancelled uuids env text s)

  -- If the webhook answers with an error status, no table has changed, also after a refund that
  -- Stripe has made.
  pub refused_webhook_keeps_tables :
      (h : WebhookHandler W) (r : Request)
      → 300 < (handle_stripe_webhook h env r s).0.status
      → (handle_stripe_webhook h env r s).1.committed ≡ s.committed
  refused_webhook_keeps_tables h r =
      Settling.handle_stripe_webhook_rule h env (λ x d _. 300 < x.status → d ≡ s.committed) r s
        (λ _ _ _. refl) (λ _. refl) (λ _ _ _ _ _ _ _ _ _ c. refused_webhook c)

-- what a test of a result says of it
is_error_lem : {A : Type 0} (r : Result Error A) → is_error r ≡ true → (e : Error) × (r ≡ err e)
is_error_lem (err e) q = (e, refl)
is_error_lem (ok a) q = cc

module _ {W : Type 0} (sv : Services W) where
  -- If the handler of any input returns an error, or answers with an error status, no table has
  -- changed, also after a charge or a refund that Stripe has made.
  pub failed_keeps_tables :
      (i : Env × Input) (t : State W) → fails sv i t ≡ true → (step sv i t).db ≡ t.db
  unfolding step fails
  failed_keeps_tables (env, post_order doc) t q =
      refused_order_keeps_tables env (start sv t) sv.uuids doc (ground (arith, q))
  failed_keeps_tables (env, post_cancel text) t q =
      refused_cancel_keeps_tables env (start sv t) sv.uuids text (ground (arith, q))
  failed_keeps_tables (env, inventory_order_created doc) t q =
      let (e, r) = is_error_lem _ q in
      failed_deduction_keeps_tables env doc e (start sv t) (inventory_handler sv) r
  failed_keeps_tables (env, inventory_order_cancelled doc) t q =
      let (e, r) = is_error_lem _ q in
      failed_restock_keeps_tables env doc e (start sv t) (inventory_handler sv) order_cancelled r
  failed_keeps_tables (env, inventory_payment_failed doc) t q =
      let (e, r) = is_error_lem _ q in
      failed_restock_keeps_tables env doc e (start sv t) (inventory_handler sv) payment_failed r
  failed_keeps_tables (env, payment_order_created doc) t q =
      let (e, r) = is_error_lem _ q in
      failed_charge_keeps_tables env doc e (start sv t) (payment_handler sv) r
  failed_keeps_tables (env, payment_order_cancelled doc) t q =
      let (e, r) = is_error_lem _ q in
      failed_cancel_keeps_tables env doc e (start sv t) (payment_handler sv) r
  failed_keeps_tables (env, post_webhook r) t q =
      refused_webhook_keeps_tables env (start sv t) (webhook_handler sv) r (ground (arith, q))
