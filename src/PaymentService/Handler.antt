-- ===== src/PaymentService/Handler.antt =====
-- payment-service/handler.go
pub mod Created
pub mod Cancelled
use high_throughput_payments.Base.{ℕ, String, ◌==◌, Bool, true, false, Option}
use high_throughput_payments.Exec.{Exec, Result, ok, err, branch, pure, fail, attempt, ◌>>=◌, ◌>>◌}
use high_throughput_payments.Json.{Document}
use high_throughput_payments.Db.{
  Session, Env, Action, Error, payment_not_found, open_state, unmarshal_error, invalid_order_id,
  with_tx, commit_tx, Payment, PaymentStatus, payment_status_eq, ConsumerGroup, order_created,
  order_cancelled, payment_failed,
}
use high_throughput_payments.Db.Outbox
use high_throughput_payments.Db.Payments
use high_throughput_payments.Db.ProcessedEvents.{mark_processed}
use high_throughput_payments.External.{UuidLib, RefundIssuer, ChargeIssuer, call_world, or_error}
use high_throughput_payments.PaymentService.Events.{
  OrderCreatedEvent, PaymentEvent, unmarshal_order_created, unmarshal_order_cancelled,
  marshal_payment_event,
}
use high_throughput_payments.PaymentService.Refund.{refund}

pub record PaymentHandler (W : Type 0) : Type 0 where
  pub uuids : UuidLib
  pub stripe : ChargeIssuer W
  pub refunder : RefundIssuer W
  pub consumer_group : ConsumerGroup

-- `errors.Is(err, gobreaker.ErrOpenState)`
abbrev pub is_open_state : Error → Bool
is_open_state open_state = true
is_open_state _ = false

-- `errors.Is(err, db.ErrPaymentNotFound)`
abbrev pub is_not_found : Error → Bool
is_not_found payment_not_found = true
is_not_found _ = false

abbrev pub pending_payment : ℕ → OrderCreatedEvent → String → Payment
pending_payment order_id event intent_id = record {
  order_id = order_id;
  stripe_payment_intent_id = intent_id;
  product_id = event.product_id;
  amount = event.amount;
  status = PaymentStatus.pending;
}

module _ {W : Type 0} (h : PaymentHandler W) (env : Env) where
  -- The event's own text of the order id goes into the key and the payload.
  abbrev announce_failure : OrderCreatedEvent → Action W (Unit {0})
  announce_failure event =
      Outbox.insert env payment_failed event.order_id payment_failed (
        marshal_payment_event (record { order_id = event.order_id; product_id = event.product_id }))

  record_charge : ℕ → OrderCreatedEvent → Result Error String → Action W (Unit {0})
  record_charge order_id event (err e) =
      branch (is_open_state e) (fail e) do announce_failure event; commit_tx env
  record_charge order_id event (ok intent_id) = do
    Payments.create env (pending_payment order_id event intent_id)
    commit_tx env

  charge : ℕ → OrderCreatedEvent → Action W (Unit {0})
  unfolding record_charge
  charge order_id event = do
    charged ← attempt (call_world (h.stripe.create_and_confirm event.amount event.order_id))
    record_charge order_id event charged

  -- the transaction of `HandleOrderCreated`
  unfoldable pub created_tx : ℕ → OrderCreatedEvent → Action W (Unit {0})
  unfolding charge
  created_tx order_id event = do
    is_new ← mark_processed env order_id order_created h.consumer_group
    branch is_new
        (do
          Payments.lock_order env order_id
          cancelled ← Payments.is_cancelled env order_id
          branch cancelled (commit_tx env) (charge order_id event))
        (pure tt)

  unfoldable pub handle_order_created : Document → Action W (Unit {0})
  handle_order_created msg = do
    event ← or_error (unmarshal_order_created msg) unmarshal_error
    order_id ← or_error (h.uuids.parse event.order_id) invalid_order_id
    with_tx env (λ e. e) (created_tx order_id event)

  -- a payment that was charged is refunded; any other, or none, is left
  refund_if_charged : ℕ → Result Error Payment → Action W (Unit {0})
  refund_if_charged order_id (err e) = branch (is_not_found e) (pure tt) (fail e)
  refund_if_charged order_id (ok payment) =
      branch (payment.status == PaymentStatus.succeeded)
        (refund h.uuids h.refunder env order_id payment.product_id payment.stripe_payment_intent_id)
        (pure tt)

  -- the transaction of `HandleOrderCancelled`
  unfoldable pub cancelled_tx : ℕ → Action W (Unit {0})
  unfolding refund_if_charged
  cancelled_tx order_id = do
    is_new ← mark_processed env order_id order_cancelled h.consumer_group
    branch is_new
        (do
          Payments.lock_order env order_id
          Payments.mark_cancelled env order_id
          found ← attempt (Payments.get_by_order_id_for_update env order_id)
          refund_if_charged order_id found
          commit_tx env)
        (pure tt)

  unfoldable pub handle_order_cancelled : Document → Action W (Unit {0})
  handle_order_cancelled msg = do
    event ← or_error (unmarshal_order_cancelled msg) unmarshal_error
    order_id ← or_error (h.uuids.parse event.order_id) invalid_order_id
    with_tx env (λ e. e) (cancelled_tx order_id)
