-- ===== src/Tests.antt =====
-- Concrete parameters for the tests: a uuid library, a Stripe that logs its calls, an environment,
-- tables and messages.
pub mod Saga
pub mod Handlers
pub mod Relay
pub mod Pipeline
pub mod Runs
pub mod Pollers
pub mod Resilient
pub mod Interleaving
pub mod Consumer
pub mod Startup
pub mod Charges
use Prim.Native.String.{◌++◌ as append, [] as empty, ◌∷◌ as cons}
use high_throughput_payments.Base.{
  ℕ, zero, suc, String, ◌==◌, string_eq, ◌≡◌, refl, ap, true, false, Option, none, some, List, [],
  ◌∷◌, if◌then◌else◌,
}
use high_throughput_payments.Base.Int.{pos, is_positive}
use high_throughput_payments.Exec.{ok, err}
use high_throughput_payments.Json.{Document, object, str, num}
use high_throughput_payments.Db.{Db, Env, Call, stripe_error}
use high_throughput_payments.External.{UuidLib, ChargeIssuer, RefundIssuer}
use high_throughput_payments.PaymentService.Webhook.{StripeEvent}
use high_throughput_payments.Saga.System.{Services, State}

-- the text of `n` has `n + 1` characters
abbrev pub to_string : ℕ → String
to_string zero = "1"
to_string (suc n) = cons "1" (to_string n)

abbrev parse_rest : String → ℕ
parse_rest empty = zero
parse_rest (cons c s) = suc (parse_rest s)

abbrev pub parse : String → Option ℕ
parse empty = none
parse (cons c s) = some (parse_rest s)

parse_rest_lem : (n : ℕ) → parse_rest (to_string n) ≡ suc n
parse_rest_lem zero = refl
parse_rest_lem (suc n) = ap suc (parse_rest_lem n)

pub parse-to_string : (n : ℕ) → parse (to_string n) ≡ some n
parse-to_string zero = refl
parse-to_string (suc n) = ap some (parse_rest_lem n)

abbrev pub test_uuids : UuidLib
test_uuids = record { to_string = to_string; parse = parse; parse-to_string = parse-to_string }

pub record Stripe : Type 0 where
  pub charges : List String
  pub refunds : List String

-- It declines a charge that is not positive, and names an intent after the order.
abbrev pub test_stripe : ChargeIssuer Stripe
test_stripe = record {
  create_and_confirm = λ amount key w.
      if is_positive amount
      then (ok (append "pi_" key), record w { charges = append "pi_" key ∷ w.charges })
      else (err stripe_error, w);
}

abbrev pub test_refunder : RefundIssuer Stripe
test_refunder = record {
  refund_payment_intent = λ i w. (ok tt, record w { refunds = i ∷ w.refunds });
}

-- The body is the event's type, and the intent is that of order 1.
abbrev pub test_construct : String → String → String → Option StripeEvent
test_construct body signature secret =
    if signature == secret
    then some (record { event_type = body; intent_id = some "pi_11" })
    else none

abbrev pub test_services : Services Stripe
test_services = record {
  uuids = test_uuids;
  stripe = test_stripe;
  refunder = test_refunder;
  signing_secret = "whsec";
  construct_event = test_construct;
}

-- nothing fails; the new event has the given id, and a new order is order 1
abbrev pub healthy : ℕ → Env
healthy id = record { fails = λ _. false; order_id = some 1; event_id = some id; now = id }

abbrev pub test_db : Db
test_db = record {
  orders = [];
  outbox = [];
  products = (record { id = "widget"; stock = 3 }) ∷ [];
  processed = [];
  payments = [];
  cancelled = [];
}

abbrev pub test_state : State Stripe
test_state = record { db = test_db; world = record { charges = []; refunds = [] } }

abbrev pub order_request : Document
order_request =
    object
      (("user_id", num (pos 7)) ∷ ("product_id", str "widget") ∷ ("amount", num (pos 500)) ∷ [])

abbrev pub order_created_message : Document
order_created_message = object (
    ("order_id", str "11")
    ∷ ("user_id", num (pos 7))
    ∷ ("product_id", str "widget")
    ∷ ("amount", num (pos 500))
    ∷ [])

abbrev pub order_cancelled_message : Document
order_cancelled_message = object (("order_id", str "11") ∷ ("product_id", str "widget") ∷ [])

-- nothing fails but the commit
abbrev pub commit_fails : Env
commit_fails = record {
  fails = λ c. elim c [ Call.commit ↦ true | _ ↦ false ];
  order_id = some 1;
  event_id = some 1;
  now = 1;
}
