-- ===== src/Tests/Saga.antt =====
-- Tests of the whole system: an order that is paid, cancelled and refunded, and the witnesses.
use high_throughput_payments.Base.{
  suc, ◌≡◌, refl, List, [], ◌∷◌, true, false, some, any, ◌&&◌, count, string_discrete,
}
use high_throughput_payments.Base.Int.{pos}
use high_throughput_payments.Exec.{ok}
use high_throughput_payments.Json.{string_field, int64_field}
use high_throughput_payments.Db.{Env}
use high_throughput_payments.PaymentService.Events.{unmarshal_order_created}
use high_throughput_payments.PaymentService.Handler.{handle_order_created}
use high_throughput_payments.Saga.System.{
  inventory_handler, Input, post_order, post_cancel, inventory_order_created, payment_order_created,
  payment_order_cancelled, inventory_order_cancelled, post_webhook, start, payment_handler,
  webhook_handler, run,
}
use high_throughput_payments.Saga.Consistent.{Consistent}
use high_throughput_payments.Saga.Safety.{run-Consistent}
use high_throughput_payments.Db.{payment_service}
use high_throughput_payments.Interleaving.Serial.{Serial}
use high_throughput_payments.Interleaving.View.{view}
use high_throughput_payments.Interleaving.Services.{services-Serial}
use high_throughput_payments.Saga.Stock.{Balanced}
use high_throughput_payments.Saga.Accounting.{run-Balanced}
use high_throughput_payments.Saga.Units.{total, of_product}
use high_throughput_payments.Saga.Charged.{is_charged}
use high_throughput_payments.Saga.Success.{charge_progress, deduct_progress}
use high_throughput_payments.InventoryService.Events as StockEvents
use high_throughput_payments.InventoryService.Handler as Stock
use high_throughput_payments.Saga.Progress.{cancel_progress, webhook_progress, Succeeds}
use high_throughput_payments.Exec.Ensures.{Ensures}
use high_throughput_payments.PaymentService.Events.{unmarshal_order_cancelled}
use high_throughput_payments.PaymentService.Handler.{handle_order_cancelled}
use high_throughput_payments.PaymentService.Webhook.{Request, handle_stripe_webhook}
use high_throughput_payments.Db.{Session, Payment, PaymentStatus, payment_status_discrete}
use high_throughput_payments.Db.Payments.{find_payment, is_cancelled_in, of_order}
use high_throughput_payments.Tests.{
  Stripe, test_services, test_db, test_state, healthy, order_request, order_created_message,
  order_cancelled_message,
}

abbrev pub paid_and_cancelled : List (Env × Input)
paid_and_cancelled =
    (healthy 1, post_order order_request)
    ∷ (healthy 2, inventory_order_created order_created_message)
    ∷ (healthy 3, payment_order_created order_created_message)
    ∷ (
      healthy 4,
      post_webhook (record { body = some "payment_intent.succeeded"; signature = "whsec" }),
    )
    ∷ (healthy 5, post_cancel "11")
    ∷ (healthy 6, payment_order_cancelled order_cancelled_message)
    ∷ (healthy 7, inventory_order_cancelled order_cancelled_message)
    ∷ []

pub test_db-Consistent : Consistent test_db
test_db-Consistent = record { orders_unique = refl; intents_unique = refl; no_conflict = refl }

run-Consistent_example : Consistent (run test_services paid_and_cancelled test_state).db
run-Consistent_example =
    run-Consistent test_services paid_and_cancelled test_state test_db-Consistent

-- the tables of order 1
services-Serial_example :
    Serial
      (view payment_service 1 test_db)
      (view payment_service 1 (run test_services paid_and_cancelled test_state).db)
services-Serial_example =
    services-Serial test_services paid_and_cancelled test_state 1 test_db-Consistent

widget_once : count (of_product "widget") test_db.products ≡ 1
unfolding string_discrete
widget_once = refl

run-Balanced_example : Balanced "widget" 3 (run test_services paid_and_cancelled test_state).db
unfolding string_discrete
run-Balanced_example =
    run-Balanced test_services "widget" 3 paid_and_cancelled test_state
      (record { one_row = widget_once; balance = refl })

abbrev charged_payment : PaymentStatus → Payment
charged_payment status = record {
  order_id = 1;
  stripe_payment_intent_id = "pi_11";
  product_id = "widget";
  amount = pos 500;
  status = status;
}

abbrev paid_session : PaymentStatus → Session Stripe
paid_session status =
    let d = record test_db { payments = charged_payment status ∷ [] } in
    record { committed = d; work = d; aborted = false; world = test_state.world }

cancel_progress_example :
    Ensures
      (λ r s'.
        (r ≡ ok tt)
        × (is_cancelled_in 1 s'.committed ≡ true)
        × (any (λ p. of_order 1 p && is_charged p) s'.committed.payments ≡ false))
      (handle_order_cancelled (payment_handler test_services) (healthy 5) order_cancelled_message)
      (paid_session PaymentStatus.succeeded)
unfolding unmarshal_order_cancelled string_field string_discrete payment_status_discrete
cancel_progress_example =
    cancel_progress (payment_handler test_services) (healthy 5) order_cancelled_message
      (record { order_id = "11" }) 1 (paid_session PaymentStatus.succeeded) refl refl
      (record { answers = λ c. refl; event_id = 5; drawn = refl; unused = refl }) (λ i w. refl) refl
      (record { orders_unique = refl; intents_unique = refl; no_conflict = refl })

abbrev succeeded_request : Request
succeeded_request = record { body = some "payment_intent.succeeded"; signature = "whsec" }

webhook_progress_example :
    let (resp, s') =
      handle_stripe_webhook
        (webhook_handler test_services)
        (healthy 4)
        succeeded_request
        (paid_session PaymentStatus.pending) in
    Succeeds "pi_11"
      (paid_session PaymentStatus.pending).committed
      (charged_payment PaymentStatus.pending)
      resp
      s'.committed
unfolding string_discrete
webhook_progress_example =
    webhook_progress (webhook_handler test_services) (healthy 4) succeeded_request
      "payment_intent.succeeded"
      (record { event_type = "payment_intent.succeeded"; intent_id = some "pi_11" }) "pi_11"
      (charged_payment PaymentStatus.pending) (paid_session PaymentStatus.pending) refl refl refl
      refl (record { answers = λ c. refl; event_id = 4; drawn = refl; unused = refl }) (λ i w. refl)
      refl refl

charge_progress_example :
    Ensures
      (λ r s'.
        (r ≡ ok tt) × (find_payment 1 s'.committed ≡ some (charged_payment PaymentStatus.pending)))
      (handle_order_created (payment_handler test_services) (healthy 3) order_created_message)
      (start test_services test_state)
unfolding unmarshal_order_created string_field int64_field string_discrete
charge_progress_example =
    charge_progress (payment_handler test_services) (healthy 3) order_created_message
      (record { order_id = "11"; user_id = pos 7; product_id = "widget"; amount = pos 500 }) 1
      "pi_11" (start test_services test_state) refl refl
      (record { answers = λ c. refl; event_id = 3; drawn = refl; unused = refl }) refl refl refl
      refl

deduct_progress_example :
    Ensures
      (λ r s'.
        (r ≡ ok tt)
        × (total "widget" test_db.products ≡ suc (total "widget" s'.committed.products)))
      (Stock.handle_order_created
        (inventory_handler test_services)
        (healthy 2)
        order_created_message)
      (start test_services test_state)
unfolding StockEvents.unmarshal_order_created string_field int64_field string_discrete
deduct_progress_example =
    deduct_progress (inventory_handler test_services) (healthy 2) order_created_message
      (record { order_id = "11"; user_id = pos 7; product_id = "widget"; amount = pos 500 }) 1
      (start test_services test_state) refl refl
      (record { answers = λ c. refl; event_id = 2; drawn = refl; unused = refl }) refl refl refl
