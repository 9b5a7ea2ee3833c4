-- ===== src/Stripe.antt =====
-- internal/stripeclient/client.go: the parameters of Stripe's calls, with their idempotency keys.
-- stripe-go is an interface.
pub mod Kept
pub mod Keys
pub mod AtMostOnce
use Prim.Native.String.{◌++◌ as append}
use high_throughput_payments.Base.{String, Option, some, Bool, true, List, [], ◌∷◌}
use high_throughput_payments.Base.Int.{ℤ}
use high_throughput_payments.Exec.{Exec, Result}
use high_throughput_payments.Db.{Error}
use high_throughput_payments.ResilientStripe.{
  StripeClient, Client, create_and_confirm_payment_intent, refund_payment_intent,
}

-- `stripe.CurrencyUSD`
pub data Currency : Type 0 where
  usd : Currency

-- `stripe.PaymentIntentParams`, as far as it is set; `order_id` is its metadata, and
-- `idempotency_key` is `none` unless SetIdempotencyKey is called
pub record PaymentIntentParams : Type 0 where
  pub amount : ℤ
  pub currency : Currency
  pub payment_method : String
  pub confirm : Bool
  pub automatic_methods : Bool
  pub allow_redirects : String
  pub order_id : String
  pub idempotency_key : Option String

-- `stripe.RefundParams`
pub record RefundParams : Type 0 where
  pub payment_intent : String
  pub idempotency_key : Option String

-- `paymentintent.New` and `refund.New`; the first gives the id of the intent
pub record StripeGo (V : Type 0) : Type 0 where
  pub new_payment_intent : PaymentIntentParams → Exec V Error String
  pub new_refund : RefundParams → Exec V Error (Unit {0})

-- `TestPaymentMethod`
abbrev pub test_payment_method : String
test_payment_method = "pm_card_visa"

abbrev pub charge_params : ℤ → String → PaymentIntentParams
charge_params amount order_id = record {
  amount = amount;
  currency = usd;
  payment_method = test_payment_method;
  confirm = true;
  automatic_methods = true;
  allow_redirects = "never";
  order_id = order_id;
  idempotency_key = some (append "charge-" order_id);
}

abbrev pub refund_params : String → RefundParams
refund_params intent_id = record {
  payment_intent = intent_id;
  idempotency_key = some (append "refund-" intent_id);
}

-- `Client`: CreateAndConfirmPaymentIntent and RefundPaymentIntent
abbrev pub stripe_client : {V : Type 0} → StripeGo V → StripeClient V
stripe_client api = record {
  create_and_confirm = λ amount order_id. api.new_payment_intent (charge_params amount order_id);
  refund_payment_intent = λ intent_id. api.new_refund (refund_params intent_id);
}

-- what the handlers ask of Stripe
pub data StripeCall : Type 0 where
  charges : ℤ → String → StripeCall
  refunds : String → StripeCall

module _ {B V : Type 0} (c : Client B V) where
  abbrev pub call : StripeCall → B × V → B × V
  call (charges amount order_id) w = (create_and_confirm_payment_intent c amount order_id w).1
  call (refunds intent_id) w = (refund_payment_intent c intent_id w).1

  -- any calls, one after the other
  unfoldable pub calls : List StripeCall → B × V → B × V
  calls [] w = w
  calls (x ∷ xs) w = calls xs (call x w)
