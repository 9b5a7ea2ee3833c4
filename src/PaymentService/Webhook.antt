-- ===== src/PaymentService/Webhook.antt =====
-- payment-service/webhook.go
pub mod Settled
pub mod Accepted
use Prim.Native.String.{len}
use high_throughput_payments.Base.{
  ℕ, String, ◌==◌, string_eq, Bool, true, false, Option, none, some, ltb, if◌then◌else◌,
}
use high_throughput_payments.Exec.{
  Exec, Result, ok, err, branch, pure, fail, attempt, or_else, ◌>>=◌, ◌>>◌,
}
use high_throughput_payments.Http.{
  Response, Handling, write_error, write_header, respond, or_respond,
}
use high_throughput_payments.Db.{
  Session, Env, Action, Error, with_tx, commit_tx, PaymentStatus, payment_status_eq, EventType,
  ConsumerGroup, spelling, payment_completed, payment_failed, intent_succeeded,
  intent_payment_failed,
}
use high_throughput_payments.Db.Outbox
use high_throughput_payments.Db.Payments
use high_throughput_payments.Db.ProcessedEvents.{mark_processed}
use high_throughput_payments.External.{UuidLib, RefundIssuer, or_error}
use high_throughput_payments.PaymentService.Events.{PaymentEvent, marshal_payment_event}
use high_throughput_payments.PaymentService.Handler.{is_not_found}
use high_throughput_payments.PaymentService.Refund.{refund}

-- `stripe.Event`: its type, and the id of the PaymentIntent in its raw data (`none` if that does
-- not unmarshal)
pub record StripeEvent : Type 0 where
  pub event_type : String
  pub intent_id : Option String

pub record WebhookHandler (W : Type 0) : Type 0 where
  pub uuids : UuidLib
  pub refunder : RefundIssuer W
  pub signing_secret : String
  -- `webhook.ConstructEventWithOptions` on the body, the signature header and the secret
  pub construct_event : String → String → String → Option StripeEvent

-- the body (`none` if reading it fails) and the header Stripe-Signature
pub record Request : Type 0 where
  pub body : Option String
  pub signature : String

abbrev pub max_body_bytes : ℕ
max_body_bytes = 65536

-- `io.ReadAll` of an `http.MaxBytesReader`
abbrev pub read_body : Option String → Option String
read_body none = none
read_body (some b) = if ltb max_body_bytes (len b) then none else some b

-- what the `switch` on the event's type sets
pub record Outcome : Type 0 where
  pub stripe_type : EventType
  pub status : PaymentStatus
  pub outbox_type : EventType

abbrev pub succeeded_outcome : Outcome
succeeded_outcome = record {
  stripe_type = intent_succeeded;
  status = PaymentStatus.succeeded;
  outbox_type = payment_completed;
}

abbrev pub failed_outcome : Outcome
failed_outcome = record {
  stripe_type = intent_payment_failed;
  status = PaymentStatus.failed;
  outbox_type = payment_failed;
}

unfoldable pub outcome : String → Option Outcome
outcome event_type =
    if event_type == spelling intent_succeeded
    then some succeeded_outcome
    else if event_type == spelling intent_payment_failed
    then some failed_outcome
    else none

abbrev pub acknowledged : Response
acknowledged = write_header 200

abbrev pub webhook_failed : Response
webhook_failed = write_error 500 "failed to process webhook"

module _ {W : Type 0} where
  abbrev pub server : {A : Type 0} → Action W A → Handling W A
  server m = or_respond m webhook_failed

  module _ (h : WebhookHandler W) (env : Env) (o : Outcome) (intent_id : String) where
    -- the order was cancelled: refund a charge that succeeded, and stay quiet
    settle_cancelled : ℕ → String → Handling W Response
    settle_cancelled order_id product_id = do
      branch (o.status == PaymentStatus.succeeded)
          (server (refund h.uuids h.refunder env order_id product_id intent_id)) (pure tt)
      server (commit_tx env)
      pure acknowledged

    announce : ℕ → String → Handling W Response
    announce order_id product_id = do
      server (
          Outbox.insert env o.outbox_type (h.uuids.to_string order_id) o.outbox_type (
            marshal_payment_event
              (record { order_id = h.uuids.to_string order_id; product_id = product_id })))
      server (commit_tx env)
      pure acknowledged

    settle_order : ℕ → String → Handling W Response
    unfolding settle_cancelled announce
    settle_order order_id product_id = do
      is_new ←
          server (mark_processed env order_id o.stripe_type ConsumerGroup.payment_service_webhook)
      branch is_new
          (do
            cancelled ← server (Payments.is_cancelled env order_id)
            branch cancelled (settle_cancelled order_id product_id) (announce order_id product_id))
          (pure acknowledged)

    settle : Result Error (ℕ × String) → Handling W Response
    unfolding settle_order
    settle (err e) = branch (is_not_found e) (pure acknowledged) (fail webhook_failed)
    settle (ok (order_id, product_id)) = settle_order order_id product_id

    -- the transaction of `HandleStripeWebhook`
    unfoldable pub webhook_tx : Handling W Response
    unfolding settle
    webhook_tx = do
      updated ← attempt (Payments.update_status_by_intent_id env intent_id o.status)
      settle updated

  module _ (h : WebhookHandler W) (env : Env) where
    handle_payment : StripeEvent → Outcome → Handling W Response
    handle_payment event o = do
      intent_id ← or_error event.intent_id (write_error 400 "invalid payment intent payload")
      with_tx env (λ _. webhook_failed) (webhook_tx h env o intent_id)

    -- an event type that the service does not act on is acknowledged
    dispatch : StripeEvent → Option Outcome → Handling W Response
    unfolding handle_payment
    dispatch event none = pure acknowledged
    dispatch event (some o) = handle_payment event o

    unfoldable pub handle_stripe_webhook : Request → Session W → Response × Session W
    unfolding dispatch outcome
    handle_stripe_webhook r = respond do
      body ← or_error (read_body r.body) (write_error 400 "request body too large")
      event ←
          or_error (h.construct_event body r.signature h.signing_secret)
            (write_error 400 "signature verification failed")
      dispatch event (outcome event.event_type)
