-- ===== src/Pipeline/Growth.antt =====
-- The table `orders` through the outcomes of every handler.
use high_throughput_payments.Base.{ℕ, String, List, [], ◌∷◌}
use high_throughput_payments.Exec.{Result}
use high_throughput_payments.Http.{Response}
use high_throughput_payments.Json.{Document}
use high_throughput_payments.Db.{Db, Env, Error, EventType}
use high_throughput_payments.Db.Orders.{filled}
use high_throughput_payments.External.{UuidLib}
use high_throughput_payments.OrderService.Handlers.{new_order}
use high_throughput_payments.OrderService.Handlers.Outcomes as Orders
use high_throughput_payments.InventoryService.Handler.{InventoryHandler}
use high_throughput_payments.InventoryService.Events.{OrderCreatedEvent, CompensationEvent}
use high_throughput_payments.InventoryService.Handler.Outcomes as Inventory
use high_throughput_payments.PaymentService.Events as PaymentEvents
use high_throughput_payments.PaymentService.Handler.{PaymentHandler}
use high_throughput_payments.PaymentService.Handler.Created as Charging
use high_throughput_payments.PaymentService.Handler.Cancelled as Cancelling
use high_throughput_payments.PaymentService.Webhook.{WebhookHandler, Outcome}
use high_throughput_payments.PaymentService.Webhook.Settled as Settling
use high_throughput_payments.Saga.System.{Services, State, Input, step, run}
use high_throughput_payments.Saga.Ran.{
  Ran, unread, ordered, order_cancelled_by, deducted, restocked_cancel, restocked_failure, charged,
  cancelled, settled, step-Ran,
}
use high_throughput_payments.Pipeline.Orders.{
  Grows, Grows-refl, Grows-trans, Grows-add, Grows-cancel,
}

abbrev Growing : Db → Db → Type 0
Growing d d' = Grows d.orders d'.orders

ordering :
    {uuids : UuidLib} {env : Env} {doc : Document} {d d' : Db} {r : Response}
    → Orders.Created uuids env doc d r d'
    → Growing d d'
ordering {env} {d} (Orders.Created.created req o i u c n f m v) =
    Grows-add (filled env o (new_order req)) d.orders f
ordering _ = Grows-refl _

cancelling_order :
    {uuids : UuidLib} {env : Env} {text : String} {d d' : Db} {r : Response}
    → Orders.Cancelled uuids env text d r d'
    → Growing d d'
cancelling_order {d} (Orders.Cancelled.cancelled k i o u q n t) = Grows-cancel k d.orders
cancelling_order _ = Grows-refl _

-- the other handlers leave the table
deducting :
    {h : InventoryHandler} {env : Env} {o : ℕ} {e : OrderCreatedEvent} {d d' : Db}
    {r : Result Error (Unit {0})}
    → Inventory.Deduction h env o e d r d'
    → Growing d d'
deducting (Inventory.Deduction.faulty f) = Grows-refl _
deducting _ = Grows-refl _

restocking :
    {h : InventoryHandler} {env : Env} {t : EventType} {o : ℕ} {e : CompensationEvent} {d d' : Db}
    {r : Result Error (Unit {0})}
    → Inventory.Compensated h env t o e d r d'
    → Growing d d'
restocking (Inventory.Compensated.faulty f) = Grows-refl _
restocking _ = Grows-refl _

charging :
    {W : Type 0} {h : PaymentHandler W} {env : Env} {o : ℕ} {e : PaymentEvents.OrderCreatedEvent}
    {d d' : Db} {w w' : W} {r : Result Error (Unit {0})}
    → Charging.Created h env o e d w r d' w'
    → Growing d d'
charging (Charging.Created.faulty f) = Grows-refl _
charging _ = Grows-refl _

cancelling :
    {W : Type 0} {h : PaymentHandler W} {env : Env} {o : ℕ} {d d' : Db} {w w' : W}
    {r : Result Error (Unit {0})}
    → Cancelling.Cancelled h env o d w r d' w'
    → Growing d d'
cancelling (Cancelling.Cancelled.faulty f) = Grows-refl _
cancelling _ = Grows-refl _

settling :
    {W : Type 0} {h : WebhookHandler W} {env : Env} {out : Outcome} {i : String} {d d' : Db}
    {w w' : W} {r : Response}
    → Settling.Settled h env out i d w r d' w'
    → Growing d d'
settling (Settling.Settled.faulty f) = Grows-refl _
settling _ = Grows-refl _

module _ {W : Type 0} (sv : Services W) where
  ran-Grows : {d d' : Db} {i : Env × Input} → Ran sv d i d' → Growing d d'
  ran-Grows (unread i) = Grows-refl _
  ran-Grows (ordered env doc c) = ordering c
  ran-Grows (order_cancelled_by env text c) = cancelling_order c
  ran-Grows (deducted env doc e o u v c) = deducting c
  ran-Grows (restocked_cancel env doc e o u v c) = restocking c
  ran-Grows (restocked_failure env doc e o u v c) = restocking c
  ran-Grows (charged env doc e o u v c) = charging c
  ran-Grows (cancelled env doc e o u v c) = cancelling c
  ran-Grows (settled env req x out i y c) = settling c

  pub step-Grows : (i : Env × Input) (t : State W) → Growing t.db (step sv i t).db
  step-Grows i t = ran-Grows (step-Ran sv i t)

  -- Over any inputs, in any order and with any failures, an order that is stored stays stored under
  -- its id, with the user, product and amount that it was placed with, and one that is cancelled
  -- stays cancelled.
  pub run-Grows : (is : List (Env × Input)) (t : State W) → Growing t.db (run sv is t).db
  unfolding run
  run-Grows [] t = Grows-refl _
  run-Grows (i ∷ is) t = Grows-trans (step-Grows i t) (run-Grows is (step sv i t))
