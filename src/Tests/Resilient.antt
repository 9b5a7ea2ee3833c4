-- ===== src/Tests/Resilient.antt =====
-- Tests of the Stripe client: a Stripe that fails twice before it answers, through four attempts.
use high_throughput_payments.Base.{
  ℕ, zero, suc, inl, ◌≡◌, refl, ap, Bool, true, false, not, ltb, if◌then◌else◌,
}
use high_throughput_payments.Base.Int.{pos}
use high_throughput_payments.Exec.{Exec, Result, ok, err}
use high_throughput_payments.ResilientStripe.Attempts.{Tried, client-Tried}
use high_throughput_payments.Db.{Error, stripe_error, open_state}
use high_throughput_payments.ResilientStripe.{
  Retry, Breaker, Client, create_and_confirm_payment_intent, refund_payment_intent,
}

-- the failures that are still to come, and whether the call was made
record Flaky : Type 0 where
  failures : ℕ
  done : Bool

abbrev flaky_call : {A : Type 0} → A → Exec Flaky Error A
flaky_call a v = elim v.failures [
  | zero ↦ (ok a, record v { done = true })
  | suc n ↦ (err stripe_error, record v { failures = n })
]

-- four attempts leave the call made
abbrev made : Flaky
made = record { failures = 0; done = true }

-- open after five consecutive failures
abbrev is_open : ℕ → Bool
is_open b = not (ltb b 5)

module _ {V A : Type 0} where
  abbrev on_error : Result Error A × V → (V → Result Error A × V) → Result Error A × V
  on_error (ok a, v) next = (ok a, v)
  on_error (err e, v) next = next v

  -- one attempt and `n` more
  abbrev attempts_more : ℕ → Exec V Error A → Exec V Error A
  attempts_more zero f v = f v
  attempts_more (suc n) f v = on_error (f v) (attempts_more n f)

  abbrev tries : ℕ → Exec V Error A → Exec V Error A
  tries zero f v = (err stripe_error, v)
  tries (suc n) f v = attempts_more n f v

  pub at_success :
      (n : ℕ) (f : Exec V Error A) (v v' : V) (a : A)
      → f v ≡ (ok a, v')
      → tries (suc n) f v ≡ (ok a, v')
  at_success zero f v v' a q = q
  at_success (suc n) f v v' a q = ap (λ x. on_error x (attempts_more n f)) q

  -- with a context that has ended in the worlds that `ended` says
  abbrev pub retry_until : (V → Bool) → Retry V A
  retry_until ended = record {
    is_cancelled = ended;
    do_with_data = λ n f v. if ended v then (err stripe_error, v) else tries n f v;
    tries = tries;
    when_cancelled = λ n f v c. (stripe_error, rw c refl);
    when_active = λ n f v c. rw c refl;
    at_success = at_success;
    at_error = λ n f v v' e q. inl (ap (λ x. on_error x (attempts_more n f)) q);
    at_last_error = λ f v v' e q. (e, q);
  }

  abbrev pub test_retry : Retry V A
  test_retry = retry_until (λ v. false)

  abbrev counted : ℕ → Result Error A × V → Result Error A × (ℕ × V)
  counted b (ok a, v) = (ok a, (0, v))
  counted b (err e, v) = (err e, (suc b, v))

  abbrev execute : Exec V Error A → Exec (ℕ × V) Error A
  execute f (b, v) = if is_open b then (err open_state, (b, v)) else counted b (f v)

  pub counted_lem : (b : ℕ) (x : Result Error A × V) → counted b x ≡ (x.0, ((counted b x).1.0, x.1))
  counted_lem b (ok a, v) = refl
  counted_lem b (err e, v) = refl

  abbrev pub test_breaker : Breaker ℕ V A
  test_breaker = record {
    refuses = is_open;
    execute = execute;
    when_refused = λ f b v q. (open_state, b, inl refl, rw q refl);
    when_let_through = λ f b v q. ((counted b (f v)).1.0, rw q (counted_lem b (f v)));
  }

abbrev test_client : Client ℕ Flaky
test_client = record {
  inner = record {
    create_and_confirm = λ amount order_id. flaky_call "pi_11";
    refund_payment_intent = λ i. flaky_call tt;
  };
  retry = test_retry;
  refund_retry = test_retry;
  breaker = test_breaker;
  refund_breaker = test_breaker;
}

-- a Stripe that counts its calls and fails at the first two
abbrev counting_call : {A : Type 0} → A → Exec ℕ Error A
counting_call a n = (if ltb n 2 then err stripe_error else ok a, suc n)

abbrev counting_client : Client ℕ ℕ
counting_client = record {
  inner = record {
    create_and_confirm = λ amount order_id. counting_call "pi_11";
    refund_payment_intent = λ i. counting_call tt;
  };
  retry = test_retry;
  refund_retry = test_retry;
  breaker = test_breaker;
  refund_breaker = test_breaker;
}

client-Tried_example :
    let (x, w) = create_and_confirm_payment_intent counting_client (pos 500) "11" (0, 0) in
    let (y, u) = refund_payment_intent counting_client "pi_11" (0, 0) in
    Tried (λ n. n) (counting_call "pi_11") 0 4 (x, w.1)
    × Tried (λ n. n) (counting_call tt) 0 4 (y, u.1)
client-Tried_example =
    client-Tried counting_client (λ n. n) (pos 500) "11" "pi_11" 0 0 (λ n. refl) (λ n. refl)

-- two failures are retried; at the fourth failed attempt the client gives up
retried :
    create_and_confirm_payment_intent test_client
      (pos 500)
      "11"
      (3, record { failures = 2; done = false })
    ≡ (ok "pi_11", (0, made))
retried = refl

given_up :
    create_and_confirm_payment_intent test_client
      (pos 500)
      "11"
      (3, record { failures = 5; done = false })
    ≡ (err stripe_error, (4, record { failures = 1; done = false }))
given_up = refl
