-- ===== src/OrderService/Events.antt =====
-- The request and the payloads of order-service/handlers.go.
use high_throughput_payments.Base.{ℕ, String, Option, none, some, List, [], ◌∷◌}
use high_throughput_payments.Base.Int.{ℤ}
use high_throughput_payments.Json.{
  Field, Document, object_fields, string_field, int64_field, str, num,
}
use high_throughput_payments.External.{UuidLib}

pub record CreateOrderRequest : Type 0 where
  pub user_id : ℤ
  pub product_id : String
  pub amount : ℤ

pub record OrderCreatedEvent : Type 0 where
  pub order_id : ℕ
  pub user_id : ℤ
  pub product_id : String
  pub amount : ℤ

pub record OrderCancelledEvent : Type 0 where
  pub order_id : ℕ
  pub product_id : String

infixl 5 ◌>>=◌
abbrev ◌>>=◌ : {A B : Type 0} → Option A → (A → Option B) → Option B
none >>= f = none
some a >>= f = f a

unfoldable pub unmarshal_create_order : Document → Option CreateOrderRequest
unmarshal_create_order doc = do
  fields ← object_fields doc
  user_id ← int64_field "user_id" fields
  product_id ← string_field "product_id" fields
  amount ← int64_field "amount" fields
  some (record { user_id = user_id; product_id = product_id; amount = amount })

-- A `uuid.UUID` marshals to its text.
abbrev pub marshal_order_created : UuidLib → OrderCreatedEvent → List Field
marshal_order_created uuids e =
    ("order_id", str (uuids.to_string e.order_id))
    ∷ ("user_id", num e.user_id)
    ∷ ("product_id", str e.product_id)
    ∷ ("amount", num e.amount)
    ∷ []

abbrev pub marshal_order_cancelled : UuidLib → OrderCancelledEvent → List Field
marshal_order_cancelled uuids e =
    ("order_id", str (uuids.to_string e.order_id)) ∷ ("product_id", str e.product_id) ∷ []
