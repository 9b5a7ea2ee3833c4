-- ===== src/Tests/Pipeline.antt =====
-- Tests of the services with their relay and Kafka: an order that is charged, settled and cancelled.
use high_throughput_payments.Base.{
  ◌==◌, string_eq, ◌≡◌, refl, sym, subst, ◌⊎◌, inl, inr, some, List, [], ◌∷◌, if_split,
}
use high_throughput_payments.Base.Int.{pos}
use native.Mathlib.Decide.{ℕ_discrete}
use high_throughput_payments.Exec.{Result}
use high_throughput_payments.Json.{object}
use high_throughput_payments.Db.{Error, Order, OrderStatus, OutboxRow, order_created}
use high_throughput_payments.Db.Outbox.{new_row}
use high_throughput_payments.Relay.{Message, message}
use high_throughput_payments.Saga.System.{payment_order_created, post_webhook, post_cancel}
use high_throughput_payments.Pipeline.{
  KafkaLog, State, Steps, none_yet, then_step, asks, polls, delivers, webhook, cancel,
  payment_created, served, polled,
}
use high_throughput_payments.Pipeline.Grounded.{IsAnnounced, order_fields}
use high_throughput_payments.Pipeline.Provenance.{IsGrounded, Steps-IsGrounded}
use high_throughput_payments.Tests.{Stripe, test_services, test_uuids, test_db, healthy}
use high_throughput_payments.Tests.Relay.{test_writer, Holds}

was_written :
    (m n : Message) (log : List Message)
    → Holds n (test_writer.write_messages m log).1
    → Holds n log ⊎ (n ≡ m)
was_written m n log =
    if_split (λ (r : Result Error (Unit {0}) × List Message). Holds n r.1 → Holds n log ⊎ (n ≡ m))
      (m.key == "down") _ _ (λ _ h. inl h) (λ _ h. elim h [ inl q ↦ inr q | inr k ↦ inl k ])

test_log : KafkaLog test_writer
test_log = record { Holds = λ log m. Holds m log; was_written = was_written }

abbrev placed_order : Order
placed_order = record {
  id = 1;
  user_id = pos 7;
  product_id = "widget";
  amount = pos 500;
  status = OrderStatus.pending;
  created_at = 1;
}

abbrev placed_row : OutboxRow
placed_row =
    new_row (healthy 1) 1 order_created "11" order_created (order_fields test_uuids placed_order)

abbrev placed_state : State Stripe (List Message)
placed_state = record {
  db = record test_db { orders = placed_order ∷ []; outbox = placed_row ∷ [] };
  stripe = record { charges = []; refunds = [] };
  kafka = message placed_row.event ∷ [];
}

placed-IsAnnounced : IsAnnounced test_uuids (placed_order ∷ []) (message placed_row.event)
unfolding ℕ_discrete
placed-IsAnnounced = ((placed_order, (OrderStatus.pending, refl), refl, refl, refl, refl), refl)

placed-IsGrounded : IsGrounded test_services test_log placed_state
unfolding ℕ_discrete test_log
placed-IsGrounded = record {
  tables = record {
    ids_unique = refl;
    events = (placed-IsAnnounced, tt);
    payments = tt;
    cancels = tt;
  };
  messages = λ m h. elim h [
    | inl q ↦ subst (IsAnnounced test_uuids (placed_order ∷ [])) (sym q) placed-IsAnnounced
    | inr e ↦ absurd e
  ];
}

-- Payment Service takes order.created, Stripe reports the success, the customer cancels, and the
-- relay polls.
abbrev charged_state : State Stripe (List Message)
charged_state =
    served test_services test_log (healthy 2) (payment_order_created (object placed_row.payload))
      placed_state

abbrev settled_state : State Stripe (List Message)
settled_state =
    served test_services test_log (healthy 3)
      (post_webhook (record { body = some "payment_intent.succeeded"; signature = "whsec" }))
      charged_state

abbrev cancelled_state : State Stripe (List Message)
cancelled_state = served test_services test_log (healthy 4) (post_cancel "11") settled_state

test_history :
    Steps test_services test_log placed_state
      (polled test_services test_log (healthy 5) cancelled_state)
unfolding test_log
test_history =
    then_step
      (then_step
        (then_step
          (then_step none_yet
            (delivers (healthy 2) (message placed_row.event) payment_created (inl refl) refl))
          (asks (healthy 3)
            (webhook (record { body = some "payment_intent.succeeded"; signature = "whsec" }))))
        (asks (healthy 4) (cancel "11")))
      (polls (healthy 5))

Steps-IsGrounded_example :
    IsGrounded test_services test_log (polled test_services test_log (healthy 5) cancelled_state)
Steps-IsGrounded_example = Steps-IsGrounded test_services test_log test_history placed-IsGrounded
