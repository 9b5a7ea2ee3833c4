-- ===== src/ResilientStripe.antt =====
-- internal/resilientstripe/client.go: Stripe behind a retry and a circuit breaker. gobreaker and
-- retry-go are interfaces: `V` is the world of Stripe, `B` the state of the breakers and of time.
pub mod Attempts
use high_throughput_payments.Base.{ℕ, suc, String, ◌≡◌, ◌⊎◌, Bool, true, false, not, ltb}
use high_throughput_payments.Base.Int.{ℤ}
use high_throughput_payments.Exec.{Exec, ok, err}
use high_throughput_payments.Db.{Error, open_state, too_many_requests}

-- `stripeClient`
pub record StripeClient (V : Type 0) : Type 0 where
  pub create_and_confirm : ℤ → String → Exec V Error String
  pub refund_payment_intent : String → Exec V Error (Unit {0})

-- `retry.DoWithData` with a number of attempts and a context: if the context has ended, it returns
-- its error and does nothing. Else it tries: it returns the first success; after an error it waits and
-- tries again, or returns an error if the context ends in the wait; and once the attempts are used up
-- it returns an error.
pub record Retry (V A : Type 0) : Type 0 where
  -- `ctx.Err() != nil`
  pub is_cancelled : V → Bool
  pub do_with_data : ℕ → Exec V Error A → Exec V Error A
  -- the loop over the attempts
  pub tries : ℕ → Exec V Error A → Exec V Error A
  pub when_cancelled :
      (n : ℕ) (f : Exec V Error A) (v : V)
      → is_cancelled v ≡ true
      → (e : Error) × (do_with_data n f v ≡ (err e, v))
  pub when_active :
      (n : ℕ) (f : Exec V Error A) (v : V)
      → is_cancelled v ≡ false
      → do_with_data n f v ≡ tries n f v
  pub at_success :
      (n : ℕ) (f : Exec V Error A) (v v' : V) (a : A)
      → f v ≡ (ok a, v')
      → tries (suc n) f v ≡ (ok a, v')
  pub at_error :
      (n : ℕ) (f : Exec V Error A) (v v' : V) (e : Error)
      → f v ≡ (err e, v')
      → (tries (suc (suc n)) f v ≡ tries (suc n) f v')
        ⊎ ((e' : Error) × (tries (suc (suc n)) f v ≡ (err e', v')))
  pub at_last_error :
      (f : Exec V Error A) (v v' : V) (e : Error)
      → f v ≡ (err e, v')
      → (e' : Error) × (tries 1 f v ≡ (err e', v'))

-- `CircuitBreaker.Execute`: it refuses the call when it is open, or half-open with as many calls under
-- way as it lets through; else it runs it and counts its result.
pub record Breaker (B V A : Type 0) : Type 0 where
  pub refuses : B → Bool
  pub execute : Exec V Error A → Exec (B × V) Error A
  pub when_refused :
      (f : Exec V Error A) (b : B) (v : V)
      → refuses b ≡ true
      → (e : Error) × (b' : B) × ((e ≡ open_state) ⊎ (e ≡ too_many_requests))
        × (execute f (b, v) ≡ (err e, (b', v)))
  pub when_let_through :
      (f : Exec V Error A) (b : B) (v : V)
      → refuses b ≡ false
      → (b' : B) × (execute f (b, v) ≡ ((f v).0, (b', (f v).1)))

pub record Client (B V : Type 0) : Type 0 where
  pub inner : StripeClient V
  pub retry : Retry V String
  pub refund_retry : Retry V (Unit {0})
  pub breaker : Breaker B V String
  pub refund_breaker : Breaker B V (Unit {0})

-- `gobreaker.Settings`, with the timeout in milliseconds, and `Counts` as far as it is read
pub record Settings : Type 0 where
  pub name : String
  pub max_requests : ℕ
  pub timeout : ℕ
  pub ready_to_trip : ℕ → Bool

-- `breakerTimeout`
abbrev pub breaker_timeout : ℕ
breaker_timeout = 30000

-- `settings` and `refundSettings` of `New`: a breaker opens after five consecutive failures
abbrev pub settings : Settings
settings = record {
  name = "stripe";
  max_requests = 1;
  timeout = breaker_timeout;
  ready_to_trip = λ consecutive_failures. not (ltb consecutive_failures 5);
}

abbrev pub refund_settings : Settings
refund_settings = record settings { name = "stripe-refund" }

-- retry-go, and `gobreaker.NewCircuitBreaker` for the two types of result
pub record Libraries (B V : Type 0) : Type 0 where
  pub retry : Retry V String
  pub refund_retry : Retry V (Unit {0})
  pub new_breaker : Settings → Breaker B V String
  pub new_refund_breaker : Settings → Breaker B V (Unit {0})

-- `New`
abbrev pub new_client : {B V : Type 0} → Libraries B V → StripeClient V → Client B V
new_client libs client = record {
  inner = client;
  retry = libs.retry;
  refund_retry = libs.refund_retry;
  breaker = libs.new_breaker settings;
  refund_breaker = libs.new_refund_breaker refund_settings;
}

-- `len(retryDelays)`
abbrev pub attempts : ℕ
attempts = 4

module _ {B V : Type 0} (c : Client B V) where
  abbrev pub create_and_confirm_payment_intent : ℤ → String → Exec (B × V) Error String
  create_and_confirm_payment_intent amount order_id =
      c.breaker.execute (c.retry.do_with_data attempts (c.inner.create_and_confirm amount order_id))

  abbrev pub refund_payment_intent : String → Exec (B × V) Error (Unit {0})
  refund_payment_intent intent_id =
      c.refund_breaker.execute
        (c.refund_retry.do_with_data attempts (c.inner.refund_payment_intent intent_id))
