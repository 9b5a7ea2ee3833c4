-- ===== src/Tests/Charges.antt =====
-- A Stripe that keeps the requests it has carried out, by their idempotency keys.
use high_throughput_payments.Base.{
  ℕ, string_eq, ◌≡◌, refl, ◌⊎◌, inl, inr, Bool, false, List, [], ◌∷◌, any, if_split, if◌then◌else◌,
  arith,
}
use high_throughput_payments.Base.Int.{pos}
use high_throughput_payments.Exec.{ok}
use high_throughput_payments.ResilientStripe.{Libraries, new_client}
use high_throughput_payments.Stripe.{
  PaymentIntentParams, RefundParams, StripeGo, stripe_client, StripeCall, charges, refunds, calls,
}
use high_throughput_payments.Stripe.Keys.{same_key}
use high_throughput_payments.Stripe.AtMostOnce.{HonoursKeys, Once, calls-Once}
use high_throughput_payments.Tests.Resilient.{test_retry, test_breaker}

record Account : Type 0 where
  charged : List PaymentIntentParams
  refunded : List RefundParams

abbrev knows_charge : PaymentIntentParams → Account → Bool
knows_charge p v = any (λ q. same_key q.idempotency_key p.idempotency_key) v.charged

abbrev knows_refund : RefundParams → Account → Bool
knows_refund p v = any (λ q. same_key q.idempotency_key p.idempotency_key) v.refunded

abbrev test_api : StripeGo Account
test_api = record {
  new_payment_intent =
      λ p v. (ok p.order_id, if knows_charge p v then v else record v { charged = p ∷ v.charged });
  new_refund =
      λ p v. (ok tt, if knows_refund p v then v else record v { refunded = p ∷ v.refunded });
}

test_keys : HonoursKeys test_api
test_keys = record {
  charged = λ v. v.charged;
  refunded = λ v. v.refunded;
  has_pruned = λ v. false;
  charge_carried = λ p v n.
      if_split
        (λ (x : Account).
          (x.charged ≡ v.charged) ⊎ ((knows_charge p v ≡ false) × (x.charged ≡ p ∷ v.charged)))
        (knows_charge p v) _ _ (λ _. inl refl) (λ m. inr (m, refl));
  charge_refunded = λ p v.
      if_split (λ (x : Account). x.refunded ≡ v.refunded) (knows_charge p v) _ _ (λ _. refl)
        (λ _. refl);
  refund_carried = λ p v n.
      if_split
        (λ (x : Account).
          (x.refunded ≡ v.refunded) ⊎ ((knows_refund p v ≡ false) × (x.refunded ≡ p ∷ v.refunded)))
        (knows_refund p v) _ _ (λ _. inl refl) (λ m. inr (m, refl));
  refund_charged = λ p v.
      if_split (λ (x : Account). x.charged ≡ v.charged) (knows_refund p v) _ _ (λ _. refl)
        (λ _. refl);
  charge_pruned = λ p v n. refl;
  refund_pruned = λ p v n. refl;
}

abbrev test_libraries : Libraries ℕ Account
test_libraries = record {
  retry = test_retry;
  refund_retry = test_retry;
  new_breaker = λ s. test_breaker;
  new_refund_breaker = λ s. test_breaker;
}

abbrev account : Account
account = record { charged = []; refunded = [] }

abbrev asked : List StripeCall
asked = charges (pos 500) "11" ∷ charges (pos 500) "11" ∷ refunds "pi_11" ∷ refunds "pi_11" ∷ []

calls-Once_example :
    Once test_api test_keys
      (calls (new_client test_libraries (stripe_client test_api)) asked (0, account)).1
unfolding test_keys
calls-Once_example =
    calls-Once test_api test_keys test_libraries asked (0, account) refl
      ((tt, λ o. omega arith), (tt, λ o. omega arith))
