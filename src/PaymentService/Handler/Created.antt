-- ===== src/PaymentService/Handler/Created.antt =====
-- The outcomes of `HandleOrderCreated` (payment-service/handler.go).
use high_throughput_payments.Base.{ℕ, String, ◌≡◌, refl, true, false, some, none}
use high_throughput_payments.Exec.{Result, ok, err}
use high_throughput_payments.Exec.Ensures.{
  Ensures, Ensures-bind, Ensures-branch, Ensures-pure, Ensures-fail, Ensures-attempt,
}
use high_throughput_payments.Db.{
  Db, Session, Env, Call, Error, db_error, unmarshal_error, invalid_order_id, with_tx,
  Ensures-commit, Ensures-with_tx, order_created, payment_failed, ProcessedEvent, OutboxRow,
}
use high_throughput_payments.Db.Faults.{Fault, call_failed, no_event_uuid, event_taken}
use high_throughput_payments.Db.Outbox.{new_row, has_event, add_row, Ensures-insert}
use high_throughput_payments.Db.Payments.{
  has_payment, add_payment, is_cancelled_in, Ensures-create, Ensures-lock_order,
  Ensures-is_cancelled,
}
use high_throughput_payments.Db.ProcessedEvents.{
  processed_key, is_processed, mark, Ensures-mark_processed,
}
use high_throughput_payments.External.{Ensures-call_world, Ensures-or_error}
use high_throughput_payments.Json.{Document}
use high_throughput_payments.PaymentService.Events.{
  OrderCreatedEvent, marshal_payment_event, unmarshal_order_created,
}
use high_throughput_payments.PaymentService.Handler.{
  PaymentHandler, is_open_state, pending_payment, created_tx, charge, record_charge,
  handle_order_created,
}

module _ {W : Type 0} (h : PaymentHandler W) (env : Env) (o : ℕ) (event : OrderCreatedEvent) where
  abbrev pub created_key : ProcessedEvent
  created_key = processed_key o order_created h.consumer_group

  abbrev pub failure_row : ℕ → OutboxRow
  failure_row id =
      new_row env id payment_failed event.order_id payment_failed (
        marshal_payment_event (record { order_id = event.order_id; product_id = event.product_id }))

  abbrev pub charged : W → Result Error String × W
  charged w = h.stripe.create_and_confirm event.amount event.order_id w

  -- the run reaches the call of Stripe
  pub record Charges (d : Db) : Type 0 where
    pub fresh : is_processed created_key d ≡ false
    pub wanted : is_cancelled_in o d ≡ false

  pub data Created (d : Db) (w : W) : Result Error (Unit {0}) → Db → W → Type 0 where
    faulty : {e : Error} → Fault env d e → Created d w (err e) d w
    seen : is_processed created_key d ≡ true → Created d w (ok tt) d w
    skipped :
        is_processed created_key d ≡ false
        → is_cancelled_in o d ≡ true
        → Created d w (ok tt) (mark created_key d) w
    circuit_open :
        (e : Error)
        → Charges d
        → (charged w).0 ≡ err e
        → is_open_state e ≡ true
        → Created d w (err e) d (charged w).1
    faulty_late : {e : Error} → Charges d → Fault env d e → Created d w (err e) d (charged w).1
    declined :
        (e : Error) (id : ℕ)
        → Charges d
        → (charged w).0 ≡ err e
        → is_open_state e ≡ false
        → env.event_id ≡ some id
        → has_event id d ≡ false
        → Created d w (ok tt) (add_row (failure_row id) (mark created_key d)) (charged w).1
    taken :
        (i : String)
        → Charges d
        → (charged w).0 ≡ ok i
        → has_payment (pending_payment o event i) d ≡ true
        → Created d w (err (db_error Call.create_payment)) d (charged w).1
    succeeded :
        (i : String)
        → Charges d
        → (charged w).0 ≡ ok i
        → has_payment (pending_payment o event i) d ≡ false
        → Created d w
            (ok tt)
            (add_payment (pending_payment o event i) (mark created_key d))
            (charged w).1

  record_charge-Created :
      (d : Db) (w : W) (r : Result Error String)
      → Charges d
      → (charged w).0 ≡ r
      → Ensures
          (λ r s'. Created d w r s'.committed s'.world)
          (record_charge h env o event r)
          (record {
            committed = d;
            work = mark created_key d;
            aborted = false;
            world = (charged w).1;
          })
  unfolding record_charge
  record_charge-Created d w (err e) c q =
      Ensures-branch (is_open_state e) _ _ (λ b. Ensures-fail e (circuit_open e c q b))
        (λ b. Ensures-bind _ _ (
          Ensures-insert env _ _ _ _ (λ n. faulty_late c (no_event_uuid n))
            (λ f. faulty_late c (call_failed _ f)) (λ id n t. faulty_late c (event_taken id n t))
            λ id n t.
              Ensures-commit env (λ f. faulty_late c (call_failed _ f)) (declined e id c q b n t)))
  record_charge-Created d w (ok i) c q = Ensures-bind _ _ (
      Ensures-create env _ (λ f. faulty_late c (call_failed _ f)) (λ t. taken i c q t)
        λ t. Ensures-commit env (λ f. faulty_late c (call_failed _ f)) (succeeded i c q t))

  charge-Created :
      (d : Db) (w : W)
      → Charges d
      → Ensures
          (λ r s'. Created d w r s'.committed s'.world)
          (charge h env o event)
          (record { committed = d; work = mark created_key d; aborted = false; world = w })
  unfolding charge
  charge-Created d w c =
      Ensures-bind _ _
        (Ensures-attempt _ (Ensures-call_world _ (record_charge-Created d w (charged w).0 c refl)))

  -- A run of the transaction of order.created, whatever fails in it, ends in one of these ways,
  -- with these tables and this Stripe: a database fault, with nothing changed; an order seen
  -- before, or cancelled, is not charged; an open circuit or a fault after Stripe's answer is an
  -- error that leaves the tables; any other answer of Stripe but success marks the message and
  -- writes payment.failed; a success marks the message and records one pending payment with the
  -- order, product and amount of the event.
  pub created_tx-Created :
      (s : Session W)
      → Ensures
          (λ r s'. Created s.committed s.world r s'.committed s'.world)
          (with_tx env (λ e. e) (created_tx h env o event))
          s
  unfolding created_tx
  created_tx-Created s =
      Ensures-with_tx env _ _ (λ f. faulty (call_failed _ f))
        (Ensures-bind _ _ (
          Ensures-mark_processed env _ _ _ (λ f. faulty (call_failed _ f))
            (λ k. Ensures-pure tt (seen k))
            λ k. Ensures-bind _ _ (
              Ensures-lock_order env o (λ f. faulty (call_failed _ f))
                (Ensures-bind _ _ (
                  Ensures-is_cancelled env o (λ f. faulty (call_failed _ f))
                    (Ensures-branch (is_cancelled_in o s.committed) _ _
                      (λ c. Ensures-commit env (λ f. faulty (call_failed _ f)) (skipped k c))
                      λ c.
                        charge-Created s.committed s.world (record { fresh = k; wanted = c })))))))

module _ {W : Type 0} (h : PaymentHandler W) (env : Env) where
  -- The handler on a message: a message that it cannot read changes nothing, and any other runs
  -- the transaction.
  pub handle_order_created_rule :
      (Q : Result Error (Unit {0}) → Db → W → Type 0) (doc : Document) (s : Session W)
      → (unmarshal_order_created doc ≡ none → Q (err unmarshal_error) s.committed s.world)
      → ((e : OrderCreatedEvent)
          → unmarshal_order_created doc ≡ some e
          → h.uuids.parse e.order_id ≡ none
          → Q (err invalid_order_id) s.committed s.world)
      → ((e : OrderCreatedEvent) (o : ℕ) (r : Result Error (Unit {0})) (d' : Db) (w : W)
          → unmarshal_order_created doc ≡ some e
          → h.uuids.parse e.order_id ≡ some o
          → Created h env o e s.committed s.world r d' w
          → Q r d' w)
      → Ensures (λ r s'. Q r s'.committed s'.world) (handle_order_created h env doc) s
  unfolding handle_order_created
  handle_order_created_rule Q doc s malformed bad_id ran = Ensures-bind _ _ (
      Ensures-or_error (unmarshal_order_created doc) _ malformed (λ e u. Ensures-bind _ _ (
        Ensures-or_error (h.uuids.parse e.order_id) _ (bad_id e u)
          (λ o v. record { at = ran e o _ _ _ u v (created_tx-Created h env o e s).at }))))
