-- ===== src/Saga/Ran.antt =====
-- What one input does to the tables: the outcome of the handler that takes it, as one data type for
-- all inputs, so that an invariant of runs has a case for each handler.
use high_throughput_payments.Base.{ℕ, String, ◌≡◌, some}
use high_throughput_payments.Exec.{Result}
use high_throughput_payments.Http.{Response}
use high_throughput_payments.Json.{Document}
use high_throughput_payments.Db.{Db, Env, Error, order_cancelled, payment_failed}
use high_throughput_payments.OrderService.Handlers.Outcomes as Orders
use high_throughput_payments.InventoryService.Events as Stock
use high_throughput_payments.InventoryService.Handler.Outcomes as Inventory
use high_throughput_payments.PaymentService.Events as Payment
use high_throughput_payments.PaymentService.Handler.Created as Charging
use high_throughput_payments.PaymentService.Handler.Cancelled as Cancelling
use high_throughput_payments.PaymentService.Webhook.{Request, Outcome, outcome}
use high_throughput_payments.PaymentService.Webhook.Settled as Settling
use high_throughput_payments.Saga.System.{
  Services, State, Input, post_order, post_cancel, inventory_order_created,
  inventory_order_cancelled, inventory_payment_failed, payment_order_created,
  payment_order_cancelled, post_webhook, inventory_handler, payment_handler, webhook_handler, start,
  step,
}

module _ {W : Type 0} (sv : Services W) where
  pub data Ran (d : Db) : Env × Input → Db → Type 0 where
    -- a message or a request that cannot be read
    unread : (i : Env × Input) → Ran d i d
    ordered :
        (env : Env) (doc : Document) {r : Response} {d' : Db}
        → Orders.Created sv.uuids env doc d r d'
        → Ran d (env, post_order doc) d'
    order_cancelled_by :
        (env : Env) (text : String) {r : Response} {d' : Db}
        → Orders.Cancelled sv.uuids env text d r d'
        → Ran d (env, post_cancel text) d'
    deducted :
        (env : Env) (doc : Document) (e : Stock.OrderCreatedEvent) (o : ℕ)
        {r : Result Error (Unit {0})} {d' : Db}
        → Stock.unmarshal_order_created doc ≡ some e
        → sv.uuids.parse e.order_id ≡ some o
        → Inventory.Deduction (inventory_handler sv) env o e d r d'
        → Ran d (env, inventory_order_created doc) d'
    restocked_cancel :
        (env : Env) (doc : Document) (e : Stock.CompensationEvent) (o : ℕ)
        {r : Result Error (Unit {0})} {d' : Db}
        → Stock.unmarshal_compensation doc ≡ some e
        → sv.uuids.parse e.order_id ≡ some o
        → Inventory.Compensated (inventory_handler sv) env order_cancelled o e d r d'
        → Ran d (env, inventory_order_cancelled doc) d'
    restocked_failure :
        (env : Env) (doc : Document) (e : Stock.CompensationEvent) (o : ℕ)
        {r : Result Error (Unit {0})} {d' : Db}
        → Stock.unmarshal_compensation doc ≡ some e
        → sv.uuids.parse e.order_id ≡ some o
        → Inventory.Compensated (inventory_handler sv) env payment_failed o e d r d'
        → Ran d (env, inventory_payment_failed doc) d'
    charged :
        (env : Env) (doc : Document) (e : Payment.OrderCreatedEvent) (o : ℕ)
        {r : Result Error (Unit {0})} {d' : Db} {w w' : W}
        → Payment.unmarshal_order_created doc ≡ some e
        → sv.uuids.parse e.order_id ≡ some o
        → Charging.Created (payment_handler sv) env o e d w r d' w'
        → Ran d (env, payment_order_created doc) d'
    cancelled :
        (env : Env) (doc : Document) (e : Payment.OrderCancelledEvent) (o : ℕ)
        {r : Result Error (Unit {0})} {d' : Db} {w w' : W}
        → Payment.unmarshal_order_cancelled doc ≡ some e
        → sv.uuids.parse e.order_id ≡ some o
        → Cancelling.Cancelled (payment_handler sv) env o d w r d' w'
        → Ran d (env, payment_order_cancelled doc) d'
    settled :
        (env : Env) (req : Request) (event_type : String) (out : Outcome) (intent_id : String)
        {r : Response} {d' : Db} {w w' : W}
        → outcome event_type ≡ some out
        → Settling.Settled (webhook_handler sv) env out intent_id d w r d' w'
        → Ran d (env, post_webhook req) d'

  pub step-Ran : (i : Env × Input) (t : State W) → Ran t.db i (step sv i t).db
  unfolding step
  step-Ran (env, post_order doc) t =
      ordered env doc (Orders.create_order-Created sv.uuids env doc (start sv t))
  step-Ran (env, post_cancel text) t =
      order_cancelled_by env text (Orders.cancel_order-Cancelled sv.uuids env text (start sv t))
  step-Ran (env, inventory_order_created doc) t =
      (Inventory.handle_order_created_rule (inventory_handler sv) env (λ _ d. Ran t.db _ d) doc
        (start sv t) (λ _. unread _) (λ _ _ _. unread _)
        (λ e o r d' u v c. deducted env doc e o u v c)).at
  step-Ran (env, inventory_order_cancelled doc) t =
      (Inventory.handle_compensation_rule (inventory_handler sv) env order_cancelled
        (λ _ d. Ran t.db _ d) doc (start sv t) (λ _. unread _) (λ _ _ _. unread _)
        (λ e o r d' u v c. restocked_cancel env doc e o u v c)).at
  step-Ran (env, inventory_payment_failed doc) t =
      (Inventory.handle_compensation_rule (inventory_handler sv) env payment_failed
        (λ _ d. Ran t.db _ d) doc (start sv t) (λ _. unread _) (λ _ _ _. unread _)
        (λ e o r d' u v c. restocked_failure env doc e o u v c)).at
  step-Ran (env, payment_order_created doc) t =
      (Charging.handle_order_created_rule (payment_handler sv) env (λ _ d _. Ran t.db _ d) doc
        (start sv t) (λ _. unread _) (λ _ _ _. unread _)
        (λ e o r d' w u v c. charged env doc e o u v c)).at
  step-Ran (env, payment_order_cancelled doc) t =
      (Cancelling.handle_order_cancelled_rule (payment_handler sv) env (λ _ d _. Ran t.db _ d) doc
        (start sv t) (λ _. unread _) (λ _ _ _. unread _)
        (λ e o r d' w u v c. cancelled env doc e o u v c)).at
  step-Ran (env, post_webhook req) t =
      Settling.handle_stripe_webhook_rule (webhook_handler sv) env (λ _ d _. Ran t.db _ d) req
        (start sv t) (λ _ _. unread _) (unread _)
        (λ b e out i x d' w _ y c. settled env req e.event_type out i y c)
