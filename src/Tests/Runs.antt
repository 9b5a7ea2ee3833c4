-- ===== src/Tests/Runs.antt =====
-- Examples of what holds of every run: repeated deliveries, results, refunds, orders and failures.
use high_throughput_payments.Base.{
  ◌≡◌, refl, [], ◌∷◌, ◌++◌, true, false, some, string_discrete, arith,
}
use high_throughput_payments.Exec.{pure, ◌>>=◌, attempt}
use high_throughput_payments.Json.{string_field, int64_field}
use high_throughput_payments.Db.{order_created, payment_service, with_tx, commit_tx, statement}
use high_throughput_payments.Db.Payments as Payments
use high_throughput_payments.Db.ProcessedEvents.{processed_key, mark_processed}
use high_throughput_payments.External.{call_world, or_error}
use high_throughput_payments.PaymentService.Events.{unmarshal_order_created}
use high_throughput_payments.PaymentService.Handler.{created_tx, handle_order_created}
use high_throughput_payments.Saga.System.{Input, payment_order_created, run, step, fails}
use high_throughput_payments.Saga.Atomicity.{failed_keeps_tables}
use high_throughput_payments.Saga.Counts.{Once}
use high_throughput_payments.Saga.ExactlyOnce.{run-Once}
use high_throughput_payments.Saga.RefundedOnce.{RefundedOnce, run-RefundedOnce}
use high_throughput_payments.Saga.Repeats.{message_key, repeat-run}
use high_throughput_payments.Pipeline.Orders.{Grows}
use high_throughput_payments.Pipeline.Growth.{run-Grows}
use high_throughput_payments.Tests.{
  test_services, test_uuids, test_db, test_state, healthy, commit_fails, order_created_message,
}
use high_throughput_payments.Tests.Saga.{paid_and_cancelled, test_db-Consistent}

run-Once_example : Once test_uuids 1 (run test_services paid_and_cancelled test_state).db
run-Once_example =
    run-Once test_services 1 paid_and_cancelled test_state
      (record { results = refl; restocks = refl })

run-RefundedOnce_example :
    RefundedOnce test_uuids 1 (run test_services paid_and_cancelled test_state).db
run-RefundedOnce_example =
    run-RefundedOnce test_services 1 paid_and_cancelled test_state test_db-Consistent (omega arith)

run-Grows_example : Grows test_db.orders (run test_services paid_and_cancelled test_state).db.orders
run-Grows_example = run-Grows test_services paid_and_cancelled test_state

abbrev charge_input : Input
charge_input = payment_order_created order_created_message

charge_handled : fails test_services (healthy 3, charge_input) test_state ≡ false
unfolding fails handle_order_created created_tx mark_processed statement with_tx commit_tx pure
    ◌>>=◌ attempt call_world or_error Payments.create Payments.lock_order Payments.is_cancelled
    unmarshal_order_created string_field int64_field string_discrete
charge_handled = refl

charge_key :
    message_key test_uuids charge_input ≡ some (processed_key 1 order_created payment_service)
unfolding unmarshal_order_created string_field int64_field string_discrete
charge_key = refl

repeat-run_example :
    run test_services
      ((healthy 3, charge_input)
        ∷ (paid_and_cancelled ++ (healthy 8, charge_input) ∷ paid_and_cancelled))
      test_state
    ≡ run test_services
        ((healthy 3, charge_input) ∷ (paid_and_cancelled ++ paid_and_cancelled))
        test_state
unfolding run
repeat-run_example =
    repeat-run test_services charge_input charge_input
      (processed_key 1 order_created payment_service) (healthy 3) (healthy 8) [] paid_and_cancelled
      paid_and_cancelled test_state charge_key charge_key charge_handled

charge_fails : fails test_services (commit_fails, charge_input) test_state ≡ true
unfolding fails handle_order_created created_tx mark_processed statement with_tx commit_tx pure
    ◌>>=◌ attempt call_world or_error Payments.create Payments.lock_order Payments.is_cancelled
    unmarshal_order_created string_field int64_field string_discrete
charge_fails = refl

failed_keeps_tables_example :
    (step test_services (commit_fails, charge_input) test_state).db ≡ test_db
failed_keeps_tables_example =
    failed_keeps_tables test_services (commit_fails, charge_input) test_state charge_fails
