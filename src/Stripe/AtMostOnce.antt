-- ===== src/Stripe/AtMostOnce.antt =====
-- Repeated calls of internal/resilientstripe/client.go over internal/stripeclient/client.go.
use high_throughput_payments.Base.{
  Bool, String, string_eq, ◌≡◌, refl, sym, subst, ◌⊎◌, false, List, [], ◌∷◌, any,
}
use high_throughput_payments.Base.Int.{ℤ}
use high_throughput_payments.ResilientStripe.{Client, Libraries, new_client}
use high_throughput_payments.Stripe.{
  PaymentIntentParams, RefundParams, StripeGo, charge_params, refund_params, stripe_client,
  StripeCall, charges, refunds, call, calls,
}
use high_throughput_payments.Stripe.Keys.{
  same_key, AtMostOnce, carried, charge_key, refund_key, charge_key-filled, refund_key-filled,
}
use high_throughput_payments.Stripe.Kept.{execute_keeps}

-- What Stripe says of idempotency keys: a request whose key was used before changes nothing, until
-- Stripe removes the key, when it is 24 hours old or more. `charged` and `refunded` are the requests
-- that were carried out, and `has_pruned` says that the key of one of them has been removed.
pub record HonoursKeys {V : Type 0} (api : StripeGo V) : Type 0 where
  pub charged : V → List PaymentIntentParams
  pub refunded : V → List RefundParams
  pub has_pruned : V → Bool
  pub charge_carried :
      (p : PaymentIntentParams) (v : V)
      → has_pruned (api.new_payment_intent p v).1 ≡ false
      → (charged (api.new_payment_intent p v).1 ≡ charged v)
        ⊎ ((any (λ q. same_key q.idempotency_key p.idempotency_key) (charged v) ≡ false)
            × (charged (api.new_payment_intent p v).1 ≡ p ∷ charged v))
  pub charge_refunded :
      (p : PaymentIntentParams) (v : V) → refunded (api.new_payment_intent p v).1 ≡ refunded v
  pub refund_carried :
      (p : RefundParams) (v : V)
      → has_pruned (api.new_refund p v).1 ≡ false
      → (refunded (api.new_refund p v).1 ≡ refunded v)
        ⊎ ((any (λ q. same_key q.idempotency_key p.idempotency_key) (refunded v) ≡ false)
            × (refunded (api.new_refund p v).1 ≡ p ∷ refunded v))
  pub refund_charged : (p : RefundParams) (v : V) → charged (api.new_refund p v).1 ≡ charged v
  -- a key that has been removed does not come back
  pub charge_pruned :
      (p : PaymentIntentParams) (v : V)
      → has_pruned (api.new_payment_intent p v).1 ≡ false
      → has_pruned v ≡ false
  pub refund_pruned :
      (p : RefundParams) (v : V) → has_pruned (api.new_refund p v).1 ≡ false → has_pruned v ≡ false

-- the requests that were carried out at Stripe
module _ {V : Type 0} (api : StripeGo V) (k : HonoursKeys api) where
  abbrev ChargedOnce : V → Type 0
  ChargedOnce v = AtMostOnce (λ p. p.idempotency_key) (λ p. p.order_id) charge_key (k.charged v)

  abbrev RefundedOnce : V → Type 0
  RefundedOnce v =
      AtMostOnce (λ p. p.idempotency_key) (λ p. p.payment_intent) refund_key (k.refunded v)

  abbrev pub Once : V → Type 0
  Once v = ChargedOnce v × RefundedOnce v

  -- as long as no key has been removed
  abbrev Kept : V → Type 0
  Kept v = k.has_pruned v ≡ false → Once v

  charge-Kept :
      (amount : ℤ) (o : String) (v : V)
      → Kept v
      → Kept (api.new_payment_intent (charge_params amount o) v).1
  charge-Kept amount o v h n =
      let p = charge_params amount o in
      let (c, r) = h (k.charge_pruned p v n) in
      (
        carried (λ p. p.idempotency_key) (λ p. p.order_id) charge_key charge_key-filled p _ _ refl
            (k.charge_carried p v n) c,
        subst (AtMostOnce (λ p. p.idempotency_key) (λ p. p.payment_intent) refund_key)
            (sym (k.charge_refunded p v)) r,
      )

  refund-Kept : (i : String) (v : V) → Kept v → Kept (api.new_refund (refund_params i) v).1
  refund-Kept i v h n =
      let p = refund_params i in
      let (c, r) = h (k.refund_pruned p v n) in
      (
        subst (AtMostOnce (λ p. p.idempotency_key) (λ p. p.order_id) charge_key)
            (sym (k.refund_charged p v)) c,
        carried (λ p. p.idempotency_key) (λ p. p.payment_intent) refund_key refund_key-filled p _ _
            refl (k.refund_carried p v n) r,
      )

  module _ {B : Type 0} (libs : Libraries B V) where
    -- `resilientstripe.New(stripeclient.New(…))`
    abbrev client : Client B V
    client = new_client libs (stripe_client api)

    call-Kept : (x : StripeCall) (w : B × V) → Kept w.1 → Kept (call client x w).1
    call-Kept (charges amount o) (b, v) h =
        execute_keeps Kept (λ v. api.new_payment_intent (charge_params amount o) v)
          (charge-Kept amount o) client.breaker client.retry 3 b v h
    call-Kept (refunds i) (b, v) h =
        execute_keeps Kept (λ v. api.new_refund (refund_params i) v) (refund-Kept i)
          client.refund_breaker client.refund_retry 3 b v h

    calls-Kept : (xs : List StripeCall) (w : B × V) → Kept w.1 → Kept (calls client xs w).1
    unfolding calls
    calls-Kept [] w h = h
    calls-Kept (x ∷ xs) w h = calls-Kept xs (call client x w) (call-Kept x w h)

    -- If Stripe honours idempotency keys: from a Stripe of which this holds, as one with no
    -- requests, after any charges and refunds that are asked of the client, for whatever orders,
    -- intents and amounts, in any order, repeated or not, with retries, contexts that end and
    -- circuits that open, as long as Stripe has removed none of the keys (it does when they are 24
    -- hours old), Stripe has carried out at most one charge for each order and at most one refund
    -- for each intent, each with the key that the client makes of the order or intent.
    pub calls-Once :
        (xs : List StripeCall) (w : B × V)
        → k.has_pruned (calls client xs w).1 ≡ false
        → Once w.1
        → Once (calls client xs w).1
    calls-Once xs w n h = calls-Kept xs w (λ _. h) n
