-- ===== src/External.antt =====
-- What the services call and the repository does not hold, as interfaces: google/uuid and Stripe.
-- Stripe's client is an interface in the source too (`refundIssuer`, `stripeClient`); its calls
-- act on a world of which the handlers see nothing but the results.
use high_throughput_payments.Base.{ℕ, String, ◌≡◌, refl, Option, none, some}
use high_throughput_payments.Base.Int.{ℤ}
use high_throughput_payments.Exec.{Exec, Result, ok, err}
use high_throughput_payments.Exec.Ensures.{Ensures}
use high_throughput_payments.Db.{Session, Action, Error}

-- A uuid is the number that its 16 bytes make.
pub record UuidLib : Type 0 where
  pub to_string : ℕ → String
  pub parse : String → Option ℕ
  pub parse-to_string : (id : ℕ) → parse (to_string id) ≡ some id

-- `refundIssuer` of payment-service/refund.go
pub record RefundIssuer (W : Type 0) : Type 0 where
  pub refund_payment_intent : String → W → Result Error (Unit {0}) × W

-- the charging method of `resilientstripe.Client`; the result is the id of the PaymentIntent
pub record ChargeIssuer (W : Type 0) : Type 0 where
  pub create_and_confirm : ℤ → String → W → Result Error String × W

module _ {W A : Type 0} where
  -- a call that acts on the world, inside a handler
  unfoldable pub call_world : (W → Result Error A × W) → Action W A
  call_world f s = let (r, w) = f s.world in (r, record s { world = w })

  pub Ensures-call_world :
      {Q : Result Error A → Session W → Type 0} (f : W → Result Error A × W) {s : Session W}
      → Q (f s.world).0 (record s { world = (f s.world).1 })
      → Ensures Q (call_world f) s
  unfolding call_world
  Ensures-call_world f q = record { at = q }

module _ {W E A : Type 0} where
  -- an early return with `e`, if there is no value
  unfoldable pub or_error : Option A → E → Exec (Session W) E A
  or_error none e s = (err e, s)
  or_error (some a) e s = (ok a, s)

  pub Ensures-or_error :
      {Q : Result E A → Session W → Type 0} (o : Option A) (e : E) {s : Session W}
      → (o ≡ none → Q (err e) s)
      → ((a : A) → o ≡ some a → Q (ok a) s)
      → Ensures Q (or_error o e) s
  unfolding or_error
  Ensures-or_error none e absent present = record { at = absent refl }
  Ensures-or_error (some a) e absent present = record { at = present a refl }
