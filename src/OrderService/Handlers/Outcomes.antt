-- ===== src/OrderService/Handlers/Outcomes.antt =====
-- The outcomes of the handlers of order-service/handlers.go.
use high_throughput_payments.Base.{ℕ, String, ◌==◌, nat_eq, ◌≡◌, true, false, none, some, find}
use high_throughput_payments.Exec.Ensures.{
  Ensures, Ensures-bind, Ensures-branch, Ensures-pure, Ensures-fail, Ensures-attempt,
  Ensures-or_else,
}
use high_throughput_payments.Http.{Response, written, write_order}
use high_throughput_payments.Json.{Document}
use high_throughput_payments.Db.{
  Db, Session, Env, Error, with_tx, Ensures-commit, Ensures-with_tx, order_created, order_cancelled,
  Order, OrderStatus, order_status_eq, OutboxRow,
}
use high_throughput_payments.Db.Faults.{Fault, call_failed, no_event_uuid, event_taken}
use high_throughput_payments.Db.Orders.{
  is_pending, set_cancelled, has_order, add_order, cancel_order_in, filled, Ensures-create,
  Ensures-cancel_pending, Ensures-get_by_id,
}
use high_throughput_payments.Db.Outbox.{new_row, has_event, add_row, Ensures-insert}
use high_throughput_payments.External.{UuidLib, Ensures-or_error}
use high_throughput_payments.OrderService.Events.{
  CreateOrderRequest, unmarshal_create_order, marshal_order_created, marshal_order_cancelled,
}
use high_throughput_payments.OrderService.Handlers.{
  is_incomplete, invalid_body, incomplete, create_failed, invalid_id, not_found, cancel_failed,
  conflict, new_order, create_tx, create_order, found_order, cancelled_order, cancel_tx,
  cancel_order,
}

module _ (uuids : UuidLib) (env : Env) where
  abbrev pub created_row : Order → ℕ → OutboxRow
  created_row o id = new_row env id order_created (uuids.to_string o.id) order_created (
      marshal_order_created uuids (record {
        order_id = o.id;
        user_id = o.user_id;
        product_id = o.product_id;
        amount = o.amount;
      }))

  abbrev pub cancelled_row : Order → ℕ → OutboxRow
  cancelled_row o id =
      new_row env id order_cancelled (uuids.to_string o.id) order_cancelled
        (marshal_order_cancelled uuids (record { order_id = o.id; product_id = o.product_id }))

  -- the outcomes of `CreateOrder` on a request body
  pub data Created (doc : Document) (d : Db) : Response → Db → Type 0 where
    malformed : unmarshal_create_order doc ≡ none → Created doc d invalid_body d
    rejected :
        (req : CreateOrderRequest)
        → unmarshal_create_order doc ≡ some req
        → is_incomplete req ≡ true
        → Created doc d incomplete d
    faulty : {e : Error} → Fault env d e → Created doc d create_failed d
    no_uuid :
        (req : CreateOrderRequest)
        → unmarshal_create_order doc ≡ some req
        → is_incomplete req ≡ false
        → env.order_id ≡ none
        → Created doc d create_failed d
    taken :
        (req : CreateOrderRequest) (order_id : ℕ)
        → unmarshal_create_order doc ≡ some req
        → is_incomplete req ≡ false
        → env.order_id ≡ some order_id
        → has_order order_id d ≡ true
        → Created doc d create_failed d
    created :
        (req : CreateOrderRequest) (order_id id : ℕ)
        → unmarshal_create_order doc ≡ some req
        → is_incomplete req ≡ false
        → env.order_id ≡ some order_id
        → has_order order_id d ≡ false
        → env.event_id ≡ some id
        → has_event id d ≡ false
        → Created doc d (write_order 201 (filled env order_id (new_order req))) (
            add_row
              (created_row (filled env order_id (new_order req)) id)
              (add_order (filled env order_id (new_order req)) d))

  module _ {W : Type 0} (doc : Document) where
    create_tx-Created :
        (req : CreateOrderRequest) (s : Session W)
        → unmarshal_create_order doc ≡ some req
        → is_incomplete req ≡ false
        → Ensures
            (λ r s'. Created doc s.committed (written r) s'.committed)
            (with_tx env (λ _. create_failed) (create_tx uuids env req))
            s
    unfolding create_tx
    create_tx-Created req s u c =
        Ensures-with_tx env _ _ (λ f. faulty (call_failed _ f))
          (Ensures-bind _ _ (
            Ensures-or_else _ _ (
              Ensures-create env (new_order req) (λ n. no_uuid req u c n)
                (λ f. faulty (call_failed _ f)) (λ id n t. taken req id u c n t)
                (λ order_id n t. Ensures-bind _ _ (
                  Ensures-or_else _ _ (
                    Ensures-insert env _ _ _ _ (λ m. faulty (no_event_uuid m))
                      (λ f. faulty (call_failed _ f)) (λ id m v. faulty (event_taken id m v))
                      (λ id m v. Ensures-bind _ _ (
                        Ensures-or_else _ _ (
                          Ensures-commit env (λ f. faulty (call_failed _ f))
                            (Ensures-pure _ (created req order_id id u c n t m v)))))))))))

    -- A call of `CreateOrder`, whatever fails in it, ends in one of these ways: 400 for a body
    -- that does not decode or lacks a field, or 500 for a fault or a uuid in use, with the tables
    -- as before; 201, with one pending order that has the request's fields and one order.created
    -- event for it.
    pub create_order-Created :
        (s : Session W)
        → let (r, s') = create_order uuids env doc s in Created doc s.committed r s'.committed
    unfolding create_order
    create_order-Created s =
        (Ensures-bind _ _ (
          Ensures-or_error (unmarshal_create_order doc) _ malformed (λ req u.
            Ensures-branch (is_incomplete req) _ _ (λ c. Ensures-fail _ (rejected req u c))
              (create_tx-Created req s u)))).at

  -- the outcomes of `CancelOrder` on the text of an id
  pub data Cancelled (text : String) (d : Db) : Response → Db → Type 0 where
    bad_id : uuids.parse text ≡ none → Cancelled text d invalid_id d
    missing :
        (id : ℕ)
        → uuids.parse text ≡ some id
        → find (λ r. r.id == id) d.orders ≡ none
        → Cancelled text d not_found d
    not_pending :
        (id : ℕ) (o : Order)
        → uuids.parse text ≡ some id
        → find (λ r. r.id == id) d.orders ≡ some o
        → (o.status == OrderStatus.pending) ≡ false
        → Cancelled text d conflict d
    race_lost :
        (id : ℕ)
        → uuids.parse text ≡ some id
        → find (is_pending id) d.orders ≡ none
        → Cancelled text d conflict d
    faulty : {e : Error} → Fault env d e → Cancelled text d cancel_failed d
    cancelled :
        (order_id id : ℕ) (o : Order)
        → uuids.parse text ≡ some order_id
        → find (is_pending order_id) d.orders ≡ some o
        → env.event_id ≡ some id
        → has_event id d ≡ false
        → Cancelled text d
            (write_order 200 (set_cancelled o))
            (add_row (cancelled_row (set_cancelled o) id) (cancel_order_in order_id d))

  module _ {W : Type 0} (text : String) where
    cancel_tx-Cancelled :
        (id : ℕ) (s : Session W)
        → uuids.parse text ≡ some id
        → Ensures
            (λ r s'. Cancelled text s.committed (written r) s'.committed)
            (with_tx env (λ _. cancel_failed) (cancel_tx uuids env id))
            s
    unfolding cancel_tx cancelled_order
    cancel_tx-Cancelled id s u =
        Ensures-with_tx env _ _ (λ f. faulty (call_failed _ f))
          (Ensures-bind _ _ (
            Ensures-attempt _ (
              Ensures-cancel_pending env id
                (λ f. Ensures-bind _ _ (Ensures-fail _ (faulty (call_failed _ f))))
                (λ q. Ensures-bind _ _ (Ensures-fail _ (race_lost id u q)))
                (λ o q. Ensures-bind _ _ (
                  Ensures-pure _ (
                    Ensures-bind _ _ (
                      Ensures-or_else _ _ (
                        Ensures-insert env _ _ _ _ (λ n. faulty (no_event_uuid n))
                          (λ f. faulty (call_failed _ f)) (λ n m t. faulty (event_taken n m t))
                          (λ n m t. Ensures-bind _ _ (
                            Ensures-or_else _ _ (
                              Ensures-commit env (λ f. faulty (call_failed _ f))
                                (Ensures-pure _ (cancelled id n o u q m t)))))))))))))

    -- A call of `CancelOrder`, whatever fails in it, ends in one of these ways: 400, 404, 409 or
    -- 500 with the tables as before, for a bad id, no order, an order that is not pending, or a
    -- fault; 200, with the order cancelled and one order.cancelled event for it.
    pub cancel_order-Cancelled :
        (s : Session W)
        → let (r, s') = cancel_order uuids env text s in Cancelled text s.committed r s'.committed
    unfolding cancel_order found_order
    cancel_order-Cancelled s =
        (Ensures-bind _ _ (
          Ensures-or_error (uuids.parse text) _ bad_id (λ id u. Ensures-bind _ _ (
            Ensures-attempt _ (
              Ensures-get_by_id env id
                (λ f. Ensures-bind _ _ (Ensures-fail _ (faulty (call_failed _ f))))
                (λ q. Ensures-bind _ _ (Ensures-fail _ (missing id u q)))
                (λ o q. Ensures-bind _ _ (
                  Ensures-pure _ (
                    Ensures-branch (o.status == OrderStatus.pending) _ _
                      (λ _. cancel_tx-Cancelled id s u)
                      (λ c. Ensures-fail _ (not_pending id o u q c)))))))))).at
