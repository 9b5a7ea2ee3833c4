-- ===== src/InventoryService/Handler.antt =====
-- inventory-service/handler.go
pub mod Outcomes
pub mod Restocked
use high_throughput_payments.Base.{ℕ, String, Bool, true, false}
use high_throughput_payments.Exec.{Exec, Result, ok, err, branch, pure, fail, attempt, ◌>>=◌, ◌>>◌}
use high_throughput_payments.Json.{Document}
use high_throughput_payments.Db.{
  Session, Env, Action, Error, insufficient_stock, unmarshal_error, invalid_order_id, with_tx,
  commit_tx, EventType, ConsumerGroup, order_created, inventory_deducted, inventory_failed,
  inventory_restocked,
}
use high_throughput_payments.Db.Outbox
use high_throughput_payments.Db.Products.{deduct_stock, restock_stock}
use high_throughput_payments.Db.ProcessedEvents.{mark_processed}
use high_throughput_payments.External.{UuidLib, or_error}
use high_throughput_payments.InventoryService.Events.{
  OrderCreatedEvent, CompensationEvent, InventoryEvent, unmarshal_order_created,
  unmarshal_compensation, marshal_inventory_event,
}

pub record InventoryHandler : Type 0 where
  pub uuids : UuidLib
  pub consumer_group : ConsumerGroup

-- `errors.Is(err, db.ErrInsufficientStock)`
abbrev pub is_insufficient : Error → Bool
is_insufficient insufficient_stock = true
is_insufficient _ = false

module _ {W : Type 0} (h : InventoryHandler) (env : Env) where
  -- what `DeductStock` returned decides the event's type; any other error ends the handler
  deduction_type : Result Error (Unit {0}) → Action W EventType
  deduction_type (ok _) = pure inventory_deducted
  deduction_type (err e) = branch (is_insufficient e) (pure inventory_failed) (fail e)

  -- the transaction of `HandleOrderCreated`
  unfoldable pub created_tx : ℕ → OrderCreatedEvent → Action W (Unit {0})
  unfolding deduction_type
  created_tx order_id event = do
    is_new ← mark_processed env order_id order_created h.consumer_group
    branch is_new
        (do
          deducted ← attempt (deduct_stock env event.product_id)
          outbox_type ← deduction_type deducted
          Outbox.insert env outbox_type event.order_id outbox_type (
              marshal_inventory_event
                (record { order_id = event.order_id; product_id = event.product_id }))
          commit_tx env)
        (pure tt)

  unfoldable pub handle_order_created : Document → Action W (Unit {0})
  handle_order_created msg = do
    event ← or_error (unmarshal_order_created msg) unmarshal_error
    order_id ← or_error (h.uuids.parse event.order_id) invalid_order_id
    with_tx env (λ e. e) (created_tx order_id event)

  -- the transaction of `HandleCompensation(eventType)`
  unfoldable pub compensation_tx : EventType → ℕ → CompensationEvent → Action W (Unit {0})
  compensation_tx event_type order_id event = do
    is_new ← mark_processed env order_id event_type h.consumer_group
    branch is_new
        (do
          restock_stock env event.product_id
          Outbox.insert env inventory_restocked event.order_id inventory_restocked (
              marshal_inventory_event
                (record { order_id = event.order_id; product_id = event.product_id }))
          commit_tx env)
        (pure tt)

  unfoldable pub handle_compensation : EventType → Document → Action W (Unit {0})
  handle_compensation event_type msg = do
    event ← or_error (unmarshal_compensation msg) unmarshal_error
    order_id ← or_error (h.uuids.parse event.order_id) invalid_order_id
    with_tx env (λ e. e) (compensation_tx event_type order_id event)
