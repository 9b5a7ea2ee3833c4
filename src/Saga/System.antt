-- ===== src/Saga/System.antt =====
-- The three services over one database and one Stripe: each input runs the handler that takes it,
-- in an environment of its own, and the committed tables are what the next input meets. The
-- handlers are put together as in the three `main` functions.
use high_throughput_payments.Base.{String, List, [], ◌∷◌, Bool, Option, ltb}
use high_throughput_payments.Exec.{Result, ok, err}
use high_throughput_payments.Json.{Document}
use high_throughput_payments.Db.{
  Db, Session, Env, Error, order_cancelled, payment_failed, inventory_service, payment_service,
}
use high_throughput_payments.External.{UuidLib, RefundIssuer, ChargeIssuer}
use high_throughput_payments.OrderService.Handlers.{create_order, cancel_order}
use high_throughput_payments.InventoryService.Handler
use high_throughput_payments.InventoryService.Handler.{InventoryHandler, handle_compensation}
use high_throughput_payments.PaymentService
use high_throughput_payments.PaymentService.Handler.{PaymentHandler, handle_order_cancelled}
use high_throughput_payments.PaymentService.Webhook.{
  WebhookHandler, Request, StripeEvent, handle_stripe_webhook,
}

pub record Services (W : Type 0) : Type 0 where
  pub uuids : UuidLib
  pub stripe : ChargeIssuer W
  pub refunder : RefundIssuer W
  pub signing_secret : String
  pub construct_event : String → String → String → Option StripeEvent

pub record State (W : Type 0) : Type 0 where
  pub db : Db
  pub world : W

-- the HTTP requests, and the Kafka messages by their topic and consumer
pub data Input : Type 0 where
  post_order : Document → Input
  post_cancel : String → Input
  inventory_order_created inventory_order_cancelled inventory_payment_failed : Document → Input
  payment_order_created payment_order_cancelled : Document → Input
  post_webhook : Request → Input

abbrev pub is_error : {A : Type 0} → Result Error A → Bool
is_error (ok _) = Bool.false
is_error (err _) = Bool.true

module _ {W : Type 0} (sv : Services W) where
  abbrev pub inventory_handler : InventoryHandler
  inventory_handler = record { uuids = sv.uuids; consumer_group = inventory_service }

  abbrev pub payment_handler : PaymentHandler W
  payment_handler = record {
    uuids = sv.uuids;
    stripe = sv.stripe;
    refunder = sv.refunder;
    consumer_group = payment_service;
  }

  abbrev pub webhook_handler : WebhookHandler W
  webhook_handler = record {
    uuids = sv.uuids;
    refunder = sv.refunder;
    signing_secret = sv.signing_secret;
    construct_event = sv.construct_event;
  }

  -- the session that a handler starts in
  abbrev pub start : State W → Session W
  start t = record { committed = t.db; work = t.db; aborted = Bool.false; world = t.world }

  abbrev pub state_of : Session W → State W
  state_of s = record { db = s.committed; world = s.world }

  handled : Env → Input → Session W → Session W
  handled env (post_order doc) s = (create_order sv.uuids env doc s).1
  handled env (post_cancel text) s = (cancel_order sv.uuids env text s).1
  handled env (inventory_order_created doc) s =
      (Handler.handle_order_created inventory_handler env doc s).1
  handled env (inventory_order_cancelled doc) s =
      (handle_compensation inventory_handler env order_cancelled doc s).1
  handled env (inventory_payment_failed doc) s =
      (handle_compensation inventory_handler env payment_failed doc s).1
  handled env (payment_order_created doc) s =
      (PaymentService.Handler.handle_order_created payment_handler env doc s).1
  handled env (payment_order_cancelled doc) s = (handle_order_cancelled payment_handler env doc s).1
  handled env (post_webhook r) s = (handle_stripe_webhook webhook_handler env r s).1

  unfoldable pub step : Env × Input → State W → State W
  unfolding handled
  step (env, input) t = state_of (handled env input (start t))

  -- the handler returns an error, or answers with an error status
  failed : Env → Input → Session W → Bool
  failed env (post_order doc) s = ltb 300 (create_order sv.uuids env doc s).0.status
  failed env (post_cancel text) s = ltb 300 (cancel_order sv.uuids env text s).0.status
  failed env (inventory_order_created doc) s =
      is_error (Handler.handle_order_created inventory_handler env doc s).0
  failed env (inventory_order_cancelled doc) s =
      is_error (handle_compensation inventory_handler env order_cancelled doc s).0
  failed env (inventory_payment_failed doc) s =
      is_error (handle_compensation inventory_handler env payment_failed doc s).0
  failed env (payment_order_created doc) s =
      is_error (PaymentService.Handler.handle_order_created payment_handler env doc s).0
  failed env (payment_order_cancelled doc) s =
      is_error (handle_order_cancelled payment_handler env doc s).0
  failed env (post_webhook r) s = ltb 300 (handle_stripe_webhook webhook_handler env r s).0.status

  unfoldable pub fails : Env × Input → State W → Bool
  unfolding failed
  fails (env, input) t = failed env input (start t)

  -- any inputs, in the order in which their transactions run
  unfoldable pub run : List (Env × Input) → State W → State W
  run [] t = t
  run (i ∷ is) t = run is (step i t)

  pub run_induction :
      {P : State W → Type 0}
      → ((i : Env × Input) (t : State W) → P t → P (step i t))
      → (is : List (Env × Input)) (t : State W) → P t
      → P (run is t)
  unfolding run
  run_induction keep [] t p = p
  run_induction keep (i ∷ is) t p = run_induction keep is (step i t) (keep i t p)
