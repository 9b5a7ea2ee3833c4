-- ===== src/PaymentService/Webhook/Accepted.antt =====
-- payment-service/webhook.go: a request that the handler acts on.
use high_throughput_payments.Base.{subst, sym, String, ◌≡◌, some}
use high_throughput_payments.Exec.Ensures.{Ensures, Ensures-bind}
use high_throughput_payments.Http.{Response, written}
use high_throughput_payments.External.{Ensures-or_error}
use high_throughput_payments.Db.{Session, Env, with_tx, payment_status_eq}
use high_throughput_payments.PaymentService.Webhook.{
  WebhookHandler, Request, StripeEvent, Outcome, read_body, outcome, dispatch, handle_payment,
  handle_stripe_webhook, webhook_failed, webhook_tx,
}

module _ {W : Type 0} (h : WebhookHandler W) (env : Env) where
  -- The handler on a request that it reads and verifies, of an event that it acts on with a
  -- PaymentIntent, is its transaction.
  pub accepted_rule :
      (Q : Response → Session W → Type 0) (r : Request) (s : Session W) (b : String)
      (e : StripeEvent) (out : Outcome) (i : String)
      → read_body r.body ≡ some b
      → h.construct_event b r.signature h.signing_secret ≡ some e
      → outcome e.event_type ≡ some out
      → e.intent_id ≡ some i
      → Ensures
          (λ x s'. Q (written x) s')
          (with_tx env (λ _. webhook_failed) (webhook_tx h env out i))
          s
      → let (resp, s') = handle_stripe_webhook h env r s in Q resp s'
  unfolding handle_stripe_webhook handle_payment
  accepted_rule Q r s b e out i read verified acts intent tx =
      (Ensures-bind {Q = λ x s'. Q (written x) s'} _ _ (
        Ensures-or_error (read_body r.body) _ (λ n. absurd (cc (n, read)))
          (λ b' p. Ensures-bind _ _ (
            Ensures-or_error (h.construct_event b' r.signature h.signing_secret) _
              (λ n. let same : b' ≡ b = cc (p, read) in absurd (cc (n, same, verified)))
              (λ e' v.
                let same_body : b' ≡ b = cc (p, read) in
                let same : e ≡ e' = cc (v, same_body, verified) in
                subst
                  (λ x.
                    Ensures (λ x s'. Q (written x) s') (dispatch h env x (outcome x.event_type)) s)
                  same
                  (subst (λ o. Ensures (λ x s'. Q (written x) s') (dispatch h env e o) s) (sym acts)
                    (Ensures-bind _ _ (
                      Ensures-or_error e.intent_id _ (λ n. absurd (cc (n, intent)))
                        (λ i' j.
                          subst
                            (λ n.
                              Ensures (λ x s'. Q (written x) s')
                                (with_tx env (λ _. webhook_failed) (webhook_tx h env out n)) s)
                            (cc (j, intent)) tx))))))))).at
