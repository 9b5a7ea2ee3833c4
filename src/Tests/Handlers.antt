-- ===== src/Tests/Handlers.antt =====
-- Tests of the single handlers, and the witnesses of what is stated of each.
use high_throughput_payments.Base.{◌≡◌, refl, some, string_discrete}
use high_throughput_payments.Base.Int.{pos}
use high_throughput_payments.Exec.{err, pure, fail, or_else, ◌>>=◌, attempt}
use high_throughput_payments.Exec.Ensures.{Ensures}
use high_throughput_payments.Http.{written, write_order}
use high_throughput_payments.Json.{string_field, int64_field, object}
use high_throughput_payments.External.{call_world, or_error}
use high_throughput_payments.Db.{
  Call, Session, Order, OrderStatus, db_error, with_tx, commit_tx, statement, pool_query,
  order_cancelled,
}
use high_throughput_payments.Db.Orders as OrdersRepo
use high_throughput_payments.Db.Outbox as Outbox
use high_throughput_payments.Db.Payments as Payments
use high_throughput_payments.Db.Products as Products
use high_throughput_payments.Db.ProcessedEvents.{mark_processed}
use high_throughput_payments.OrderService.Events as OrderEvents
use high_throughput_payments.OrderService.Handlers.{
  create_tx, create_order, cancel_order, get_order,
}
use high_throughput_payments.OrderService.Handlers.Reads.{get_order-create_order}
use high_throughput_payments.OrderService.Handlers.Outcomes as Orders
use high_throughput_payments.InventoryService.Events as StockEvents
use high_throughput_payments.InventoryService.Handler as Stock
use high_throughput_payments.InventoryService.Handler.Outcomes as StockOutcomes
use high_throughput_payments.InventoryService.Handler.Restocked as Restocking
use high_throughput_payments.PaymentService.Events as PaymentEvents
use high_throughput_payments.PaymentService.Handler as Paying
use high_throughput_payments.PaymentService.Handler.Created as Charging
use high_throughput_payments.PaymentService.Handler.Cancelled as Cancelling
use high_throughput_payments.PaymentService.Webhook.{
  Request, succeeded_outcome, webhook_failed, webhook_tx, handle_stripe_webhook,
}
use high_throughput_payments.PaymentService.Webhook.Settled as Settling
use high_throughput_payments.Saga.System.{
  start, payment_handler, inventory_handler, webhook_handler,
}
use high_throughput_payments.Saga.Messages.{order_created_roundtrip, compensation_roundtrip}
use high_throughput_payments.Tests.{
  Stripe, test_services, test_uuids, test_db, test_state, healthy, commit_fails, order_request,
  order_created_message, order_cancelled_message, to_string,
}

abbrev test_session : Session Stripe
test_session = start test_services test_state

abbrev charged_event : PaymentEvents.OrderCreatedEvent
charged_event = record { order_id = "11"; user_id = pos 7; product_id = "widget"; amount = pos 500 }

abbrev deducted_event : StockEvents.OrderCreatedEvent
deducted_event = record {
  order_id = "11";
  user_id = pos 7;
  product_id = "widget";
  amount = pos 500;
}

abbrev restocked_event : StockEvents.CompensationEvent
restocked_event = record { order_id = "11"; product_id = "widget" }

created_tx-Created_example :
    Ensures
      (λ r s'.
        Charging.Created
          (payment_handler test_services)
          (healthy 1)
          1
          charged_event
          test_db
          test_session.world
          r
          s'.committed
          s'.world)
      (with_tx
        (healthy 1)
        (λ e. e)
        (Paying.created_tx (payment_handler test_services) (healthy 1) 1 charged_event))
      test_session
created_tx-Created_example =
    Charging.created_tx-Created (payment_handler test_services) (healthy 1) 1 charged_event
      test_session

cancelled_tx-Cancelled_example :
    Ensures
      (λ r s'.
        Cancelling.Cancelled
          (payment_handler test_services)
          (healthy 1)
          1
          test_db
          test_session.world
          r
          s'.committed
          s'.world)
      (with_tx
        (healthy 1)
        (λ e. e)
        (Paying.cancelled_tx (payment_handler test_services) (healthy 1) 1))
      test_session
cancelled_tx-Cancelled_example =
    Cancelling.cancelled_tx-Cancelled (payment_handler test_services) (healthy 1) 1 test_session

webhook_tx-Settled_example :
    Ensures
      (λ r s'.
        Settling.Settled
          (webhook_handler test_services)
          (healthy 1)
          succeeded_outcome
          "pi_11"
          test_db
          test_session.world
          (written r)
          s'.committed
          s'.world)
      (with_tx
        (healthy 1)
        (λ _. webhook_failed)
        (webhook_tx (webhook_handler test_services) (healthy 1) succeeded_outcome "pi_11"))
      test_session
webhook_tx-Settled_example =
    Settling.webhook_tx-Settled (webhook_handler test_services) (healthy 1) succeeded_outcome
      "pi_11" test_session

created_tx-Deduction_example :
    Ensures
      (λ r s'.
        StockOutcomes.Deduction
          (inventory_handler test_services)
          (healthy 1)
          1
          deducted_event
          test_db
          r
          s'.committed)
      (with_tx
        (healthy 1)
        (λ e. e)
        (Stock.created_tx (inventory_handler test_services) (healthy 1) 1 deducted_event))
      test_session
created_tx-Deduction_example =
    StockOutcomes.created_tx-Deduction (inventory_handler test_services) (healthy 1) 1
      deducted_event test_session

compensation_tx-Restocked_example :
    Ensures
      (λ r s'.
        Restocking.Restocked
          (inventory_handler test_services)
          (healthy 1)
          order_cancelled
          1
          restocked_event
          test_db
          r
          s'.committed)
      (with_tx
        (healthy 1)
        (λ e. e)
        (Stock.compensation_tx
          (inventory_handler test_services)
          (healthy 1)
          order_cancelled
          1
          restocked_event))
      test_session
compensation_tx-Restocked_example =
    Restocking.compensation_tx-Restocked (inventory_handler test_services) (healthy 1)
      order_cancelled 1 restocked_event test_session

create_order-Created_example :
    let (r, s') = create_order test_uuids (healthy 1) order_request test_session in
    Orders.Created test_uuids (healthy 1) order_request test_db r s'.committed
create_order-Created_example =
    Orders.create_order-Created test_uuids (healthy 1) order_request test_session

abbrev the_order : Order
the_order = record {
  id = 1;
  user_id = pos 7;
  product_id = "widget";
  amount = pos 500;
  status = OrderStatus.pending;
  created_at = 1;
}

created_order :
    (create_order test_uuids (healthy 1) order_request test_session).0 ≡ write_order 201 the_order
unfolding create_order create_tx statement with_tx commit_tx pure ◌>>=◌ or_else or_error
    OrdersRepo.create Outbox.insert OrderEvents.unmarshal_create_order string_field int64_field
    string_discrete
created_order = refl

get_order-create_order_example :
    let s' = (create_order test_uuids (healthy 1) order_request test_session).1 in
    get_order test_uuids (healthy 2) (to_string 1) s' ≡ (write_order 200 the_order, s')
get_order-create_order_example =
    get_order-create_order test_uuids (healthy 1) (healthy 2) order_request test_session the_order
      created_order refl

cancel_order-Cancelled_example :
    let (r, s') = cancel_order test_uuids (healthy 1) "11" test_session in
    Orders.Cancelled test_uuids (healthy 1) "11" test_db r s'.committed
cancel_order-Cancelled_example =
    Orders.cancel_order-Cancelled test_uuids (healthy 1) "11" test_session

charge_fails :
    (Paying.handle_order_created
      (payment_handler test_services)
      commit_fails
      order_created_message
      test_session).0
    ≡ err (db_error Call.commit)
unfolding Paying.handle_order_created Paying.created_tx mark_processed statement with_tx commit_tx
    pure ◌>>=◌ attempt call_world or_error Payments.create Payments.lock_order Payments.is_cancelled
    PaymentEvents.unmarshal_order_created string_field int64_field string_discrete
charge_fails = refl

cancel_fails :
    (Paying.handle_order_cancelled
      (payment_handler test_services)
      commit_fails
      order_cancelled_message
      test_session).0
    ≡ err (db_error Call.commit)
unfolding Paying.handle_order_cancelled Paying.cancelled_tx mark_processed statement with_tx
    commit_tx pure ◌>>=◌ attempt call_world or_error Payments.mark_cancelled Payments.lock_order
    Payments.get_by_order_id_for_update PaymentEvents.unmarshal_order_cancelled string_field
    int64_field string_discrete
cancel_fails = refl

deduction_fails :
    (Stock.handle_order_created
      (inventory_handler test_services)
      commit_fails
      order_created_message
      test_session).0
    ≡ err (db_error Call.commit)
unfolding Stock.handle_order_created Stock.created_tx mark_processed statement with_tx commit_tx
    pure ◌>>=◌ attempt or_error Products.deduct_stock Outbox.insert
    StockEvents.unmarshal_order_created string_field int64_field string_discrete
deduction_fails = refl

restock_fails :
    (Stock.handle_compensation
      (inventory_handler test_services)
      commit_fails
      order_cancelled
      order_cancelled_message
      test_session).0
    ≡ err (db_error Call.commit)
unfolding Stock.handle_compensation Stock.compensation_tx mark_processed statement with_tx commit_tx
    pure ◌>>=◌ attempt or_error Products.restock_stock Outbox.insert
    StockEvents.unmarshal_compensation string_field int64_field string_discrete
restock_fails = refl

order_fails : (create_order test_uuids commit_fails order_request test_session).0.status ≡ 500
unfolding create_order create_tx statement with_tx commit_tx pure ◌>>=◌ or_else or_error
    OrdersRepo.create Outbox.insert OrderEvents.unmarshal_create_order string_field int64_field
    string_discrete
order_fails = refl

cancel_of_none : (cancel_order test_uuids commit_fails "11" test_session).0.status ≡ 404
unfolding cancel_order pool_query fail pure ◌>>=◌ attempt or_error OrdersRepo.get_by_id
cancel_of_none = refl

abbrev forged : Request
forged = record { body = some "payment_intent.succeeded"; signature = "other" }

webhook_refused :
    (handle_stripe_webhook (webhook_handler test_services) (healthy 1) forged test_session).0.status
    ≡ 400
unfolding handle_stripe_webhook ◌>>=◌ or_error string_discrete
webhook_refused = refl

order_created_roundtrip_example :
    (PaymentEvents.unmarshal_order_created (
        object (
          OrderEvents.marshal_order_created test_uuids
            (record { order_id = 1; user_id = pos 7; product_id = "widget"; amount = pos 500 })))
      ≡ some charged_event)
    × (StockEvents.unmarshal_order_created (
          object (
            OrderEvents.marshal_order_created test_uuids
              (record { order_id = 1; user_id = pos 7; product_id = "widget"; amount = pos 500 })))
        ≡ some deducted_event)
order_created_roundtrip_example =
    order_created_roundtrip test_uuids
      (record { order_id = 1; user_id = pos 7; product_id = "widget"; amount = pos 500 }) refl refl

compensation_roundtrip_example :
    (PaymentEvents.unmarshal_order_cancelled (
        object (
          OrderEvents.marshal_order_cancelled test_uuids
            (record { order_id = 1; product_id = "widget" })))
      ≡ some (record { order_id = "11" }))
    × (StockEvents.unmarshal_compensation (
          object (
            OrderEvents.marshal_order_cancelled test_uuids
              (record { order_id = 1; product_id = "widget" })))
        ≡ some restocked_event)
    × (StockEvents.unmarshal_compensation (
          object (
            PaymentEvents.marshal_payment_event
              (record { order_id = "11"; product_id = "widget" })))
        ≡ some restocked_event)
compensation_roundtrip_example =
    compensation_roundtrip test_uuids (record { order_id = 1; product_id = "widget" })
      (record { order_id = "11"; product_id = "widget" })
