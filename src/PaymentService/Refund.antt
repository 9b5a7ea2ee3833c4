-- ===== src/PaymentService/Refund.antt =====
-- payment-service/refund.go
use high_throughput_payments.Base.{ℕ, String, ◌≡◌, refl, Bool, true, false, some}
use high_throughput_payments.Exec.{Result, ok, err, ◌>>◌}
use high_throughput_payments.Exec.Ensures.{Ensures, Ensures-bind, Continues}
use high_throughput_payments.Db.{
  Db, Session, Env, Action, Error, PaymentStatus, payment_refunded, OutboxRow,
}
use high_throughput_payments.Db.Faults.{Fault, call_failed, no_event_uuid, event_taken}
use high_throughput_payments.Db.Outbox
use high_throughput_payments.Db.Payments
use high_throughput_payments.External.{UuidLib, RefundIssuer, call_world, Ensures-call_world}
use high_throughput_payments.PaymentService.Events.{marshal_payment_event}

-- Stripe's refund, the payment's status and the event, all inside the caller's transaction.
unfoldable pub refund :
    {W : Type 0} → UuidLib → RefundIssuer W → Env → ℕ → String → String → Action W (Unit {0})
refund uuids stripe env order_id product_id intent_id = do
  call_world (stripe.refund_payment_intent intent_id)
  Payments.update_status_by_order_id env order_id PaymentStatus.refunded
  Outbox.insert env payment_refunded (uuids.to_string order_id) payment_refunded (
      marshal_payment_event
        (record { order_id = uuids.to_string order_id; product_id = product_id }))

abbrev pub refund_row : UuidLib → Env → ℕ → String → ℕ → OutboxRow
refund_row uuids env order_id product_id id =
    Outbox.new_row env id payment_refunded (uuids.to_string order_id) payment_refunded (
      marshal_payment_event
        (record { order_id = uuids.to_string order_id; product_id = product_id }))

abbrev pub mark_refunded : ℕ → Db → Db
mark_refunded order_id = Payments.set_payments (Payments.of_order order_id) PaymentStatus.refunded

module _ {W : Type 0} (uuids : UuidLib) (stripe : RefundIssuer W) (env : Env) (o : ℕ)
    (product_id i : String) (d : Db) (w : W) where
  abbrev pub refunding : Result Error (Unit {0}) × W
  refunding = stripe.refund_payment_intent i w

  -- the reasons for which `refund` returns an error
  pub data RefundFault : Error → Type 0 where
    stripe_fault : {e : Error} → refunding.0 ≡ err e → RefundFault e
    db_fault : {e : Error} → Fault env d e → RefundFault e

  module _ (Q : Result Error (Unit {0}) → Session W → Type 0) (c : Db)
      (bad : (e : Error) (aborted : Bool) (d' : Db)
        → RefundFault e
        → Q (err e) (record { committed = c; work = d'; aborted = aborted; world = refunding.1 }))
      (good : (id : ℕ)
        → refunding.0 ≡ ok tt
        → env.event_id ≡ some id
        → Outbox.has_event id d ≡ false
        → Q (ok tt) (record {
          committed = c;
          work = Outbox.add_row (refund_row uuids env o product_id id) (mark_refunded o d);
          aborted = false;
          world = refunding.1;
        })) where
    after_stripe :
        (r : Result Error (Unit {0}))
        → refunding.0 ≡ r
        → Continues Q
            (λ _.
              Payments.update_status_by_order_id env o PaymentStatus.refunded
              >> Outbox.insert env payment_refunded (uuids.to_string o) payment_refunded (
                  marshal_payment_event
                    (record { order_id = uuids.to_string o; product_id = product_id })))
            r
            (record { committed = c; work = d; aborted = false; world = refunding.1 })
    after_stripe (err e) q = bad _ false d (stripe_fault q)
    after_stripe (ok _) q = Ensures-bind _ _ (
        Payments.Ensures-update_status_by_order_id env o _
          (λ f. bad _ true d (db_fault (call_failed _ f)))
          (Outbox.Ensures-insert env _ _ _ _ (λ n. bad _ false _ (db_fault (no_event_uuid n)))
            (λ f. bad _ true _ (db_fault (call_failed _ f)))
            (λ id n t. bad _ true _ (db_fault (event_taken id n t))) (λ id n t. good id q n t)))

    pub Ensures-refund :
        Ensures Q
          (refund uuids stripe env o product_id i)
          (record { committed = c; work = d; aborted = false; world = w })
    unfolding refund
    Ensures-refund = Ensures-bind _ _ (Ensures-call_world _ (after_stripe refunding.0 refl))
