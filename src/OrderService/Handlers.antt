-- ===== src/OrderService/Handlers.antt =====
-- order-service/handlers.go
pub mod Outcomes
pub mod Reads
use high_throughput_payments.Base.{
  ℕ, String, ◌==◌, string_eq, Bool, true, false, not, ◌||◌, Option, none, some, if◌then◌else◌,
}
use high_throughput_payments.Base.Int.{is_positive}
use high_throughput_payments.Exec.{
  Exec, Result, ok, err, branch, pure, fail, attempt, or_else, ◌>>=◌, ◌>>◌,
}
use high_throughput_payments.Json.{Document}
use high_throughput_payments.Http.{
  Response, Handling, write_error, write_order, respond, or_respond,
}
use high_throughput_payments.Db.{
  Session, Env, Action, Error, order_not_found, order_not_cancellable, with_tx, commit_tx, Order,
  OrderStatus, order_status_eq, order_created, order_cancelled,
}
use high_throughput_payments.Db.Orders
use high_throughput_payments.Db.Outbox
use high_throughput_payments.External.{UuidLib, or_error}
use high_throughput_payments.OrderService.Events.{
  CreateOrderRequest, OrderCreatedEvent, OrderCancelledEvent, unmarshal_create_order,
  marshal_order_created, marshal_order_cancelled,
}

-- the guard of `CreateOrder`
abbrev pub is_incomplete : CreateOrderRequest → Bool
is_incomplete r = not (is_positive r.user_id) || r.product_id == "" || not (is_positive r.amount)

abbrev pub invalid_body : Response
invalid_body = write_error 400 "invalid request body"

abbrev pub incomplete : Response
incomplete = write_error 400 "user_id, product_id, and amount are required"

abbrev pub create_failed : Response
create_failed = write_error 500 "failed to create order"

abbrev pub invalid_id : Response
invalid_id = write_error 400 "invalid order id"

abbrev pub not_found : Response
not_found = write_error 404 "order not found"

abbrev pub fetch_failed : Response
fetch_failed = write_error 500 "failed to fetch order"

abbrev pub cancel_failed : Response
cancel_failed = write_error 500 "failed to cancel order"

abbrev pub conflict : Response
conflict = write_error 409 "order is not pending and cannot be cancelled"

-- `errors.Is(err, db.ErrOrderNotFound)`
abbrev pub is_order_not_found : Error → Bool
is_order_not_found order_not_found = true
is_order_not_found _ = false

-- `errors.Is(err, db.ErrOrderNotCancellable)`
abbrev pub is_not_cancellable : Error → Bool
is_not_cancellable order_not_cancellable = true
is_not_cancellable _ = false

abbrev pub new_order : CreateOrderRequest → Order
new_order req = record {
  id = 0;
  user_id = req.user_id;
  product_id = req.product_id;
  amount = req.amount;
  status = OrderStatus.pending;
  created_at = 0;
}

module _ {W : Type 0} (uuids : UuidLib) (env : Env) where
  -- the transaction of `CreateOrder`
  unfoldable pub create_tx : CreateOrderRequest → Handling W Response
  create_tx req = do
    order ← or_respond (Orders.create env (new_order req)) create_failed
    or_respond
        (Outbox.insert env order_created (uuids.to_string order.id) order_created (
          marshal_order_created uuids (record {
            order_id = order.id;
            user_id = order.user_id;
            product_id = order.product_id;
            amount = order.amount;
          })))
        create_failed
    or_respond (commit_tx env) create_failed
    pure (write_order 201 order)

  unfoldable pub create_order : Document → Session W → Response × Session W
  create_order doc = respond do
    req ← or_error (unmarshal_create_order doc) invalid_body
    branch (is_incomplete req) (fail incomplete) (with_tx env (λ _. create_failed) (create_tx req))

  -- `GetByID`, with the handler's answer to its errors
  found_order : Response → Result Error Order → Handling W Order
  found_order failed (ok order) = pure order
  found_order failed (err e) = fail (if is_order_not_found e then not_found else failed)

  unfoldable pub get_order : String → Session W → Response × Session W
  unfolding found_order
  get_order id_text = respond do
    id ← or_error (uuids.parse id_text) invalid_id
    got ← attempt (Orders.get_by_id env id)
    order ← found_order fetch_failed got
    pure (write_order 200 order)

  cancelled_order : Result Error Order → Handling W Order
  cancelled_order (ok order) = pure order
  cancelled_order (err e) = fail (if is_not_cancellable e then conflict else cancel_failed)

  -- the transaction of `CancelOrder`
  unfoldable pub cancel_tx : ℕ → Handling W Response
  unfolding cancelled_order
  cancel_tx id = do
    got ← attempt (Orders.cancel_pending env id)
    order ← cancelled_order got
    or_respond
        (Outbox.insert env order_cancelled (uuids.to_string order.id) order_cancelled (
          marshal_order_cancelled uuids
            (record { order_id = order.id; product_id = order.product_id })))
        cancel_failed
    or_respond (commit_tx env) cancel_failed
    pure (write_order 200 order)

  unfoldable pub cancel_order : String → Session W → Response × Session W
  unfolding found_order
  cancel_order id_text = respond do
    id ← or_error (uuids.parse id_text) invalid_id
    got ← attempt (Orders.get_by_id env id)
    existing ← found_order cancel_failed got
    branch (existing.status == OrderStatus.pending)
        (with_tx env (λ _. cancel_failed) (cancel_tx id)) (fail conflict)
