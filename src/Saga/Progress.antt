-- ===== src/Saga/Progress.antt =====
-- Runs of a cancel and of a webhook in which nothing fails.
use high_throughput_payments.Base.{
  ℕ, String, nat_eq, string_eq, ==_refl, ◌≡◌, refl, ap, subst, string_discrete, true, false, ◌&&◌,
  some, List, any, find, update, if◌then◌else◌, arith,
}
use high_throughput_payments.Exec.{Result, ok}
use high_throughput_payments.Exec.Ensures.{Ensures}
use high_throughput_payments.Http.{Response}
use high_throughput_payments.Json.{Document}
use high_throughput_payments.Db.{
  Db, Session, Env, Error, Payment, PaymentStatus, payment_status_discrete,
}
use high_throughput_payments.Db.Faults.{IsHealthy, no-Fault}
use high_throughput_payments.Db.Payments.{
  of_order, of_intent, set_status, is_cancelled_in, add_cancelled,
}
use high_throughput_payments.Db.ProcessedEvents.{is_processed}
use high_throughput_payments.External.{RefundIssuer}
use high_throughput_payments.PaymentService.Events.{OrderCancelledEvent, unmarshal_order_cancelled}
use high_throughput_payments.PaymentService.Refund.{stripe_fault, db_fault}
use high_throughput_payments.PaymentService.Handler.{PaymentHandler, handle_order_cancelled}
use high_throughput_payments.PaymentService.Handler.Cancelled as Cancelling
use high_throughput_payments.PaymentService.Handler.Cancelled.{cancelled_key}
use high_throughput_payments.PaymentService.Webhook.{
  WebhookHandler, Request, StripeEvent, read_body, outcome, succeeded_outcome, acknowledged,
  handle_stripe_webhook,
}
use high_throughput_payments.PaymentService.Webhook.Accepted.{accepted_rule}
use high_throughput_payments.PaymentService.Webhook.Settled as Settling
use high_throughput_payments.Saga.Consistent.{Consistent, Cancelling-Consistent}
use high_throughput_payments.Saga.Charged.{
  is_charged, charged-none, find_intent-of_intent, find_intent-update,
}

-- Stripe makes every refund that it is asked for
abbrev pub AlwaysRefunds : {W : Type 0} → RefundIssuer W → Type 0
AlwaysRefunds {W} stripe = (i : String) (w : W) → (stripe.refund_payment_intent i w).0 ≡ ok tt

is_cancelled-add : (o : ℕ) (d : Db) → is_cancelled_in o (add_cancelled o d) ≡ true
is_cancelled-add o d = ground (arith, ==_refl o)

module _ {W : Type 0} {h : PaymentHandler W} {env : Env} {o : ℕ} where
  cancel_outcome :
      {d d' : Db} {w w' : W} {r : Result Error (Unit {0})}
      → Cancelling.Cancelled h env o d w r d' w'
      → IsHealthy env d
      → AlwaysRefunds h.refunder
      → is_processed (cancelled_key h env o) d ≡ false
      → (r ≡ ok tt) × (is_cancelled_in o d' ≡ true)
  cancel_outcome (Cancelling.Cancelled.faulty f) k a n = absurd (no-Fault k f)
  cancel_outcome (Cancelling.Cancelled.seen m) k a n = absurd (cc (m, n))
  cancel_outcome {d} (Cancelling.Cancelled.no_payment m q) k a n = (refl, is_cancelled-add o d)
  cancel_outcome {d} (Cancelling.Cancelled.not_charged p m q c) k a n = (refl, is_cancelled-add o d)
  cancel_outcome {d} (Cancelling.Cancelled.refunded p i m q c x y z) k a n =
      (refl, is_cancelled-add o d)
  cancel_outcome {w} (Cancelling.Cancelled.refund_failed p m q c (stripe_fault x)) k a n =
      absurd (cc (x, a p.stripe_payment_intent_id w))
  cancel_outcome (Cancelling.Cancelled.refund_failed p m q c (db_fault f)) k a n = absurd (
      no-Fault
        (record { answers = k.answers; event_id = k.event_id; drawn = k.drawn; unused = k.unused })
        f)

-- For a message that decodes and names an order, from consistent tables where the message is new:
-- if nothing fails and Stripe makes every refund that it is asked for, Payment Service's handler
-- of order.cancelled succeeds, the order is recorded as cancelled, and no payment of it is charged
-- any more.
pub cancel_progress :
    {W : Type 0} (h : PaymentHandler W) (env : Env) (doc : Document) (e : OrderCancelledEvent)
    (o : ℕ) (s : Session W)
    → unmarshal_order_cancelled doc ≡ some e
    → h.uuids.parse e.order_id ≡ some o
    → IsHealthy env s.committed
    → AlwaysRefunds h.refunder
    → is_processed (cancelled_key h env o) s.committed ≡ false
    → Consistent s.committed
    → Ensures
        (λ r s'.
          (r ≡ ok tt)
          × (is_cancelled_in o s'.committed ≡ true)
          × (any (λ p. of_order o p && is_charged p) s'.committed.payments ≡ false))
        (handle_order_cancelled h env doc)
        s
cancel_progress h env doc e o s u v k a n c =
    Cancelling.handle_order_cancelled_rule h env
      (λ r d _.
        (r ≡ ok tt)
        × (is_cancelled_in o d ≡ true)
        × (any (λ p. of_order o p && is_charged p) d.payments ≡ false))
      doc s (λ q. absurd (cc (u, q))) (λ e' u' v'. absurd (cc (u, v, u', v')))
      (λ e' o' r d' w u' v' x.
        let same : o' ≡ o = cc (u, v, u', v') in
        let y = subst (λ i. Cancelling.Cancelled h env i s.committed s.world r d' w) same x in
        let (p, q) = cancel_outcome y k a n in
        (p, q, charged-none o d'.cancelled d'.payments (Cancelling-Consistent y c).no_conflict q))

-- the answer, and the payment's status after a charge that succeeded
abbrev pub Succeeds : String → Db → Payment → Response → Db → Type 0
Succeeds i d p r d' =
    (r ≡ acknowledged)
    × (find (of_intent i) d'.payments
        ≡ some (
            set_status
              (if is_cancelled_in p.order_id d
                then PaymentStatus.refunded
                else PaymentStatus.succeeded)
              p))

module _ (i : String) (d : Db) (p : Payment) (n : find (of_intent i) d.payments ≡ some p) where
  abbrev charged_list : List Payment
  charged_list = update (of_intent i) (set_status PaymentStatus.succeeded) d.payments

  find-charged : find (of_intent i) charged_list ≡ some (set_status PaymentStatus.succeeded p)
  find-charged = cc (
    find_intent-update i (of_intent i) PaymentStatus.succeeded d.payments p n,
    find_intent-of_intent i d.payments p n,
  )

  find-refunded :
      find
        (of_intent i)
        (update (of_order p.order_id) (set_status PaymentStatus.refunded) charged_list)
      ≡ some (set_status PaymentStatus.refunded p)
  find-refunded = cc (
    find_intent-update i (of_order p.order_id) PaymentStatus.refunded charged_list
        (set_status PaymentStatus.succeeded p) find-charged,
    ==_refl p.order_id,
  )

module _ {W : Type 0} {h : WebhookHandler W} {env : Env} {i : String} where
  webhook_outcome :
      {d d' : Db} {w w' : W} {r : Response} (p : Payment)
      → Settling.Settled h env succeeded_outcome i d w r d' w'
      → IsHealthy env d
      → AlwaysRefunds h.refunder
      → Settling.Fresh h env succeeded_outcome i d p
      → Succeeds i d p r d'
  unfolding payment_status_discrete
  webhook_outcome p (Settling.Settled.faulty f) k a n = absurd (no-Fault k f)
  webhook_outcome p (Settling.Settled.unknown q) k a n = absurd (cc (q, n.found))
  webhook_outcome p (Settling.Settled.seen p' q m) k a n = absurd (cc (q, n.found, m, n.new))
  webhook_outcome {d} p (Settling.Settled.announced p' id f c x y) k a n =
      let same : p' ≡ p = cc (f.found, n.found) in (refl, cc (find-charged i d p n.found, same, c))
  webhook_outcome p (Settling.Settled.quiet p' f c s) k a n = absurd (cc s)
  webhook_outcome {d} p (Settling.Settled.refunded p' id f c s q x y) k a n =
      let same : p' ≡ p = cc (f.found, n.found) in (refl, cc (find-refunded i d p n.found, same, c))
  webhook_outcome {w} p (Settling.Settled.refund_failed p' f c s (stripe_fault x)) k a n =
      absurd (cc (x, a i w))
  webhook_outcome p (Settling.Settled.refund_failed p' f c s (db_fault x)) k a n = absurd (
      no-Fault
        (record { answers = k.answers; event_id = k.event_id; drawn = k.drawn; unused = k.unused })
        x)

-- When a request, read and verified, carries an event payment_intent.succeeded of an intent,
-- nothing fails and Stripe makes every refund that it is asked for, then the handler of webhooks
-- answers it with 200, for a payment that is known and that the report is new for; the payment ends
-- as succeeded or, if Payment Service has recorded its order as cancelled, as refunded.
pub webhook_progress :
    {W : Type 0} (h : WebhookHandler W) (env : Env) (r : Request) (b : String) (e : StripeEvent)
    (i : String) (p : Payment) (s : Session W)
    → read_body r.body ≡ some b
    → h.construct_event b r.signature h.signing_secret ≡ some e
    → e.event_type ≡ "payment_intent.succeeded"
    → e.intent_id ≡ some i
    → IsHealthy env s.committed
    → AlwaysRefunds h.refunder
    → find (of_intent i) s.committed.payments ≡ some p
    → is_processed (Settling.webhook_key h env succeeded_outcome i p) s.committed ≡ false
    → let (resp, s') = handle_stripe_webhook h env r s in Succeeds i s.committed p resp s'.committed
unfolding outcome string_discrete
webhook_progress h env r b e i p s read verified succeeded intent k a found new =
    accepted_rule h env (λ resp s'. Succeeds i s.committed p resp s'.committed) r s b e
      succeeded_outcome i read verified (ap outcome succeeded) intent
      (record {
        at =
            webhook_outcome p (Settling.webhook_tx-Settled h env succeeded_outcome i s).at k a
              (record { found = found; new = new });
      })
