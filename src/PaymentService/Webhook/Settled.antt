-- ===== src/PaymentService/Webhook/Settled.antt =====
-- The outcomes of `HandleStripeWebhook` (payment-service/webhook.go).
use high_throughput_payments.Base.{
  ℕ, String, ◌==◌, ◌≡◌, refl, Bool, true, false, Option, some, none, find,
}
use high_throughput_payments.Exec.{Result, ok, ◌>>◌, pure}
use high_throughput_payments.Exec.Ensures.{
  Ensures, Ensures-bind, Ensures-branch, Ensures-pure, Ensures-fail, Ensures-attempt,
  Ensures-or_else,
}
use high_throughput_payments.Http.{Response, written, or_respond, write_error}
use high_throughput_payments.External.{Ensures-or_error}
use high_throughput_payments.Db.{
  Db, Session, Env, Error, with_tx, commit_tx, Ensures-commit, Ensures-with_tx, ConsumerGroup,
  ProcessedEvent, OutboxRow, Payment, PaymentStatus, payment_status_eq,
}
use high_throughput_payments.Db.Faults.{Fault, call_failed, no_event_uuid, event_taken}
use high_throughput_payments.Db.Outbox.{new_row, has_event, add_row, Ensures-insert}
use high_throughput_payments.Db.Payments.{
  of_intent, set_payments, is_cancelled_in, Ensures-is_cancelled,
  Ensures-update_status_by_intent_id,
}
use high_throughput_payments.Db.ProcessedEvents.{
  processed_key, is_processed, mark, Ensures-mark_processed,
}
use high_throughput_payments.PaymentService.Events.{marshal_payment_event}
use high_throughput_payments.PaymentService.Refund.{
  RefundFault, db_fault, refund_row, mark_refunded, Ensures-refund,
}
use high_throughput_payments.PaymentService.Webhook.{
  WebhookHandler, Request, StripeEvent, Outcome, read_body, outcome, dispatch, handle_payment,
  handle_stripe_webhook, acknowledged, webhook_failed, webhook_tx, settle, settle_order,
  settle_cancelled, announce,
}

module _ {W : Type 0} (h : WebhookHandler W) (env : Env) (out : Outcome) (i : String) where
  abbrev pub find_intent : Db → Option Payment
  find_intent d = find (of_intent i) d.payments

  abbrev pub webhook_key : Payment → ProcessedEvent
  webhook_key p = processed_key p.order_id out.stripe_type ConsumerGroup.payment_service_webhook

  -- the tables with the payment's new status, and with the webhook marked as processed
  abbrev pub updated : Db → Db
  updated d = set_payments (of_intent i) out.status d

  abbrev pub settled : Payment → Db → Db
  settled p d = mark (webhook_key p) (updated d)

  abbrev pub outcome_row : Payment → ℕ → OutboxRow
  outcome_row p id = new_row env id out.outbox_type (h.uuids.to_string p.order_id) out.outbox_type (
      marshal_payment_event
        (record { order_id = h.uuids.to_string p.order_id; product_id = p.product_id }))

  abbrev pub is_success : Bool
  is_success = out.status == PaymentStatus.succeeded

  abbrev pub refund_of : W → Result Error (Unit {0}) × W
  refund_of w = h.refunder.refund_payment_intent i w

  -- the payment is known and this event was not seen before
  pub record Fresh (d : Db) (p : Payment) : Type 0 where
    pub found : find_intent d ≡ some p
    pub new : is_processed (webhook_key p) d ≡ false

  pub data Settled (d : Db) (w : W) : Response → Db → W → Type 0 where
    faulty : {e : Error} → Fault env d e → Settled d w webhook_failed d w
    unknown : find_intent d ≡ none → Settled d w acknowledged d w
    seen :
        (p : Payment)
        → find_intent d ≡ some p
        → is_processed (webhook_key p) d ≡ true
        → Settled d w acknowledged d w
    announced :
        (p : Payment) (id : ℕ)
        → Fresh d p
        → is_cancelled_in p.order_id d ≡ false
        → env.event_id ≡ some id
        → has_event id d ≡ false
        → Settled d w acknowledged (add_row (outcome_row p id) (settled p d)) w
    quiet :
        (p : Payment)
        → Fresh d p
        → is_cancelled_in p.order_id d ≡ true
        → is_success ≡ false
        → Settled d w acknowledged (settled p d) w
    refunded :
        (p : Payment) (id : ℕ)
        → Fresh d p
        → is_cancelled_in p.order_id d ≡ true
        → is_success ≡ true
        → (refund_of w).0 ≡ ok tt
        → env.event_id ≡ some id
        → has_event id d ≡ false
        → Settled d w acknowledged
            (add_row
              (refund_row h.uuids env p.order_id p.product_id id)
              (mark_refunded p.order_id (settled p d)))
            (refund_of w).1
    refund_failed :
        (p : Payment) {e : Error}
        → Fresh d p
        → is_cancelled_in p.order_id d ≡ true
        → is_success ≡ true
        → RefundFault h.uuids h.refunder env p.order_id p.product_id i (settled p d) w e
        → Settled d w webhook_failed d (refund_of w).1

  module _ (d : Db) (w : W) where
    abbrev Goal : Result Response Response → Session W → Type 0
    Goal r s' = Settled d w (written r) s'.committed s'.world

    module _ (p : Payment) (k : Fresh d p) where
      abbrev working : Session W
      working = record { committed = d; work = settled p d; aborted = false; world = w }

      commit-quiet :
          is_cancelled_in p.order_id d ≡ true
          → is_success ≡ false
          → Ensures Goal ((or_respond (commit_tx env) webhook_failed) >> pure acknowledged) working
      commit-quiet c q = Ensures-bind _ _ (
          Ensures-or_else _ _
            (Ensures-commit env (λ f. faulty (call_failed _ f)) (Ensures-pure _ (quiet p k c q))))

      settle_cancelled-Settled :
          is_cancelled_in p.order_id d ≡ true
          → Ensures Goal (settle_cancelled h env out i p.order_id p.product_id) working
      unfolding settle_cancelled
      settle_cancelled-Settled c = Ensures-bind _ _ (
          Ensures-branch is_success _ _
            (λ q. Ensures-or_else _ _ (
              Ensures-refund h.uuids h.refunder env p.order_id p.product_id i (settled p d) w _ d
                (λ e ab d' f. refund_failed p k c q f)
                (λ id r n t. Ensures-bind _ _ (
                  Ensures-or_else _ _ (
                    Ensures-commit env (λ f. refund_failed p k c q (db_fault (call_failed _ f)))
                      (Ensures-pure _ (refunded p id k c q r n t)))))))
            (λ q. Ensures-pure tt (commit-quiet c q)))

      announce-Settled :
          is_cancelled_in p.order_id d ≡ false
          → Ensures Goal (announce h env out i p.order_id p.product_id) working
      unfolding announce
      announce-Settled c = Ensures-bind _ _ (
          Ensures-or_else _ _ (
            Ensures-insert env _ _ _ _ (λ n. faulty (no_event_uuid n))
              (λ f. faulty (call_failed _ f)) (λ id n t. faulty (event_taken id n t))
              (λ id n t. Ensures-bind _ _ (
                Ensures-or_else _ _ (
                  Ensures-commit env (λ f. faulty (call_failed _ f))
                    (Ensures-pure _ (announced p id k c n t)))))))

    settle_order-Settled :
        (p : Payment)
        → find_intent d ≡ some p
        → Ensures Goal
            (settle_order h env out i p.order_id p.product_id)
            (record { committed = d; work = updated d; aborted = false; world = w })
    unfolding settle_order
    settle_order-Settled p found = Ensures-bind _ _ (
        Ensures-or_else _ _ (
          Ensures-mark_processed env _ _ _ (λ f. faulty (call_failed _ f))
            (λ k. Ensures-pure _ (seen p found k))
            (λ k. Ensures-bind _ _ (
              Ensures-or_else _ _ (
                Ensures-is_cancelled env p.order_id (λ f. faulty (call_failed _ f))
                  (Ensures-branch (is_cancelled_in p.order_id d) _ _
                    (settle_cancelled-Settled p (record { found = found; new = k }))
                    (announce-Settled p (record { found = found; new = k }))))))))

  -- A run of the webhook's transaction, whatever fails in it, ends in one of these ways: 500 and
  -- the tables as before; 200 and nothing changed, if the intent is unknown or the report was seen
  -- before; 200, the payment's status set and the outcome's event written, if the order is not
  -- cancelled; 200 and no event, if it is and the payment failed; 200, a refund at Stripe and
  -- payment.refunded, if it is and the payment succeeded.
  pub webhook_tx-Settled :
      (s : Session W)
      → Ensures
          (λ r s'. Settled s.committed s.world (written r) s'.committed s'.world)
          (with_tx env (λ _. webhook_failed) (webhook_tx h env out i))
          s
  unfolding webhook_tx settle
  webhook_tx-Settled s =
      Ensures-with_tx env _ _ (λ f. faulty (call_failed _ f))
        (Ensures-bind _ _ (
          Ensures-attempt _ (
            Ensures-update_status_by_intent_id env i out.status
              (λ f. Ensures-fail _ (faulty (call_failed _ f))) (λ q. Ensures-pure _ (unknown q))
              (λ p q. settle_order-Settled s.committed s.world p q))))

module _ {W : Type 0} (h : WebhookHandler W) (env : Env) where
  handle_payment-Settled :
      (Q : Response → Db → W → Type 0) (e : StripeEvent) (out : Outcome) (s : Session W)
      → ((status : ℕ) (message : String) → Q (write_error status message) s.committed s.world)
      → ((i : String) (r : Response) (d' : Db) (w : W)
          → Settled h env out i s.committed s.world r d' w
          → Q r d' w)
      → Ensures (λ r s'. Q (written r) s'.committed s'.world) (handle_payment h env e out) s
  unfolding handle_payment
  handle_payment-Settled Q e out s refused ran = Ensures-bind _ _ (
      Ensures-or_error e.intent_id _ (λ _. refused _ _)
        (λ i _. record { at = ran i _ _ _ (webhook_tx-Settled h env out i s).at }))

  -- The handler on a request: it refuses one that it cannot read or verify, acknowledges one of
  -- another type, and runs the transaction for any other; only the last changes anything.
  pub handle_stripe_webhook_rule :
      (Q : Response → Db → W → Type 0) (r : Request) (s : Session W)
      → ((status : ℕ) (message : String) → Q (write_error status message) s.committed s.world)
      → Q acknowledged s.committed s.world
      → ((b : String) (e : StripeEvent) (out : Outcome) (i : String) (resp : Response) (d' : Db)
            (w : W)
          → h.construct_event b r.signature h.signing_secret ≡ some e
          → outcome e.event_type ≡ some out
          → Settled h env out i s.committed s.world resp d' w
          → Q resp d' w)
      → let (resp, s') = handle_stripe_webhook h env r s in Q resp s'.committed s'.world
  unfolding handle_stripe_webhook
  handle_stripe_webhook_rule Q r s refused other ran =
      (Ensures-bind _ _ (
        Ensures-or_error (read_body r.body) _ (λ _. refused _ _)
          (λ b _. Ensures-bind _ _ (
            Ensures-or_error (h.construct_event b r.signature h.signing_secret) _ (λ _. refused _ _)
              (λ e v. dispatched b e v (outcome e.event_type) refl))))).at
    where
      dispatched :
          (b : String) (e : StripeEvent)
          → h.construct_event b r.signature h.signing_secret ≡ some e
          → (out : Option Outcome) → outcome e.event_type ≡ out
          → Ensures (λ x s'. Q (written x) s'.committed s'.world) (dispatch h env e out) s
      dispatched b e v none _ = Ensures-pure _ other
      dispatched b e v (some out) q =
          handle_payment-Settled Q e out s refused (λ i x d' w. ran b e out i x d' w v q)
