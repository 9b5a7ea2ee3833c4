-- ===== src/PaymentService/Handler/Cancelled.antt =====
-- The outcomes of `HandleOrderCancelled` (payment-service/handler.go).
use high_throughput_payments.Base.{ℕ, ◌==◌, ◌≡◌, Bool, true, false, some, none}
use high_throughput_payments.Exec.{Result, ok, err}
use high_throughput_payments.Exec.Ensures.{
  Ensures, Continues, Ensures-bind, Ensures-branch, Ensures-pure, Ensures-fail, Ensures-attempt,
}
use high_throughput_payments.Db.{
  Db, Session, Env, Error, payment_not_found, unmarshal_error, invalid_order_id, with_tx, commit_tx,
  Ensures-commit, Ensures-with_tx, order_cancelled, ProcessedEvent, Payment, PaymentStatus,
  payment_status_eq,
}
use high_throughput_payments.Db.Faults.{Fault, call_failed}
use high_throughput_payments.Db.Outbox.{has_event, add_row}
use high_throughput_payments.Db.Payments.{
  find_payment, add_cancelled, Ensures-lock_order, Ensures-mark_cancelled,
  Ensures-get_by_order_id_for_update,
}
use high_throughput_payments.Db.ProcessedEvents.{
  processed_key, is_processed, mark, Ensures-mark_processed,
}
use high_throughput_payments.External.{Ensures-or_error}
use high_throughput_payments.Json.{Document}
use high_throughput_payments.PaymentService.Events.{OrderCancelledEvent, unmarshal_order_cancelled}
use high_throughput_payments.PaymentService.Refund.{
  RefundFault, db_fault, refund_row, mark_refunded, Ensures-refund,
}
use high_throughput_payments.PaymentService.Handler.{
  PaymentHandler, handle_order_cancelled, cancelled_tx, refund_if_charged,
}

module _ {W : Type 0} (h : PaymentHandler W) (env : Env) (o : ℕ) where
  abbrev pub cancelled_key : ProcessedEvent
  cancelled_key = processed_key o order_cancelled h.consumer_group

  -- the cancel is recorded
  abbrev pub recorded : Db → Db
  recorded d = add_cancelled o (mark cancelled_key d)

  abbrev pub is_charged : Payment → Bool
  is_charged p = p.status == PaymentStatus.succeeded

  -- `Stripe.refund` of the payment's intent, from the world `w`
  abbrev pub refund_of : Payment → W → Result Error (Unit {0}) × W
  refund_of p w = h.refunder.refund_payment_intent p.stripe_payment_intent_id w

  pub data Cancelled (d : Db) (w : W) : Result Error (Unit {0}) → Db → W → Type 0 where
    faulty : {e : Error} → Fault env d e → Cancelled d w (err e) d w
    seen : is_processed cancelled_key d ≡ true → Cancelled d w (ok tt) d w
    no_payment :
        is_processed cancelled_key d ≡ false
        → find_payment o d ≡ none
        → Cancelled d w (ok tt) (recorded d) w
    not_charged :
        (p : Payment)
        → is_processed cancelled_key d ≡ false
        → find_payment o d ≡ some p
        → is_charged p ≡ false
        → Cancelled d w (ok tt) (recorded d) w
    refunded :
        (p : Payment) (id : ℕ)
        → is_processed cancelled_key d ≡ false
        → find_payment o d ≡ some p
        → is_charged p ≡ true
        → (refund_of p w).0 ≡ ok tt
        → env.event_id ≡ some id
        → has_event id d ≡ false
        → Cancelled d w
            (ok tt)
            (add_row (refund_row h.uuids env o p.product_id id) (mark_refunded o (recorded d)))
            (refund_of p w).1
    refund_failed :
        (p : Payment) {e : Error}
        → is_processed cancelled_key d ≡ false
        → find_payment o d ≡ some p
        → is_charged p ≡ true
        → RefundFault h.uuids h.refunder env o p.product_id p.stripe_payment_intent_id
            (recorded d)
            w
            e
        → Cancelled d w (err e) d (refund_of p w).1

  module _ (d : Db) (w : W) (k : is_processed cancelled_key d ≡ false) where
    abbrev working : Session W
    working = record { committed = d; work = recorded d; aborted = false; world = w }

    abbrev Goal : Result Error (Unit {0}) → Session W → Type 0
    Goal r s' = Cancelled d w r s'.committed s'.world

    abbrev Rest : Result Error (Unit {0}) → Session W → Type 0
    Rest = Continues Goal (λ _. commit_tx env)

    settle-Cancelled :
        (p : Payment)
        → find_payment o d ≡ some p
        → Ensures Rest (refund_if_charged h env o (ok p)) working
    unfolding refund_if_charged
    settle-Cancelled p found =
        Ensures-branch (is_charged p) _ _
          (λ c.
            Ensures-refund h.uuids h.refunder env o p.product_id p.stripe_payment_intent_id
              (recorded d) w Rest d (λ e ab d' f. refund_failed p k found c f)
              (λ id q n t.
                Ensures-commit env (λ f. refund_failed p k found c (db_fault (call_failed _ f)))
                  (refunded p id k found c q n t)))
          (λ c.
            Ensures-pure tt
              (Ensures-commit env (λ f. faulty (call_failed _ f)) (not_charged p k found c)))

    missing-Cancelled :
        find_payment o d ≡ none
        → Ensures Rest (refund_if_charged h env o (err payment_not_found)) working
    unfolding refund_if_charged
    missing-Cancelled q =
        Ensures-pure tt (Ensures-commit env (λ f. faulty (call_failed _ f)) (no_payment k q))

  -- A run of the transaction of order.cancelled, whatever fails in it, ends in one of these ways:
  -- a fault, with the tables as before; a message seen before, with nothing changed; the cancel
  -- recorded, and no call of Stripe, if the order has no payment or one that did not succeed; the
  -- cancel recorded, the payment refunded at Stripe and in the table and payment.refunded written,
  -- if it succeeded.
  pub cancelled_tx-Cancelled :
      (s : Session W)
      → Ensures
          (λ r s'. Cancelled s.committed s.world r s'.committed s'.world)
          (with_tx env (λ e. e) (cancelled_tx h env o))
          s
  unfolding cancelled_tx
  cancelled_tx-Cancelled s =
      Ensures-with_tx env _ _ (λ f. faulty (call_failed _ f))
        (Ensures-bind _ _ (
          Ensures-mark_processed env _ _ _ (λ f. faulty (call_failed _ f))
            (λ k. Ensures-pure tt (seen k))
            λ k. Ensures-bind _ _ (
              Ensures-lock_order env o (λ f. faulty (call_failed _ f))
                (Ensures-bind _ _ (
                  Ensures-mark_cancelled env o (λ f. faulty (call_failed _ f))
                    (Ensures-bind _ _ (
                      Ensures-attempt _ (
                        Ensures-get_by_order_id_for_update env o
                          (λ f. Ensures-bind _ _ (Ensures-fail _ (faulty (call_failed _ f))))
                          (λ q. Ensures-bind _ _ (missing-Cancelled s.committed s.world k q))
                          λ p q.
                            Ensures-bind _ _ (settle-Cancelled s.committed s.world k p q)))))))))

module _ {W : Type 0} (h : PaymentHandler W) (env : Env) where
  -- The handler on a message: a message that it cannot read changes nothing, and any other runs
  -- the transaction.
  pub handle_order_cancelled_rule :
      (Q : Result Error (Unit {0}) → Db → W → Type 0) (doc : Document) (s : Session W)
      → (unmarshal_order_cancelled doc ≡ none → Q (err unmarshal_error) s.committed s.world)
      → ((e : OrderCancelledEvent)
          → unmarshal_order_cancelled doc ≡ some e
          → h.uuids.parse e.order_id ≡ none
          → Q (err invalid_order_id) s.committed s.world)
      → ((e : OrderCancelledEvent) (o : ℕ) (r : Result Error (Unit {0})) (d' : Db) (w : W)
          → unmarshal_order_cancelled doc ≡ some e
          → h.uuids.parse e.order_id ≡ some o
          → Cancelled h env o s.committed s.world r d' w
          → Q r d' w)
      → Ensures (λ r s'. Q r s'.committed s'.world) (handle_order_cancelled h env doc) s
  unfolding handle_order_cancelled
  handle_order_cancelled_rule Q doc s malformed bad_id ran = Ensures-bind _ _ (
      Ensures-or_error (unmarshal_order_cancelled doc) _ malformed (λ e u. Ensures-bind _ _ (
        Ensures-or_error (h.uuids.parse e.order_id) _ (bad_id e u)
          (λ o v. record { at = ran e o _ _ _ u v (cancelled_tx-Cancelled h env o s).at }))))
