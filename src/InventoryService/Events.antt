-- ===== src/InventoryService/Events.antt =====
-- The payloads that Inventory Service reads and writes: inventory-service/handler.go.
use high_throughput_payments.Base.{String, Option, none, some, List, [], ◌∷◌}
use high_throughput_payments.Base.Int.{ℤ}
use high_throughput_payments.Json.{Field, Document, object_fields, string_field, int64_field, str}

pub record OrderCreatedEvent : Type 0 where
  pub order_id : String
  pub user_id : ℤ
  pub product_id : String
  pub amount : ℤ

-- `order.cancelled` and `payment.failed` as this service reads them
pub record CompensationEvent : Type 0 where
  pub order_id : String
  pub product_id : String

pub record InventoryEvent : Type 0 where
  pub order_id : String
  pub product_id : String

infixl 5 ◌>>=◌
abbrev ◌>>=◌ : {A B : Type 0} → Option A → (A → Option B) → Option B
none >>= f = none
some a >>= f = f a

unfoldable pub unmarshal_order_created : Document → Option OrderCreatedEvent
unmarshal_order_created doc = do
  fields ← object_fields doc
  order_id ← string_field "order_id" fields
  user_id ← int64_field "user_id" fields
  product_id ← string_field "product_id" fields
  amount ← int64_field "amount" fields
  some (record { order_id = order_id; user_id = user_id; product_id = product_id; amount = amount })

unfoldable pub unmarshal_compensation : Document → Option CompensationEvent
unmarshal_compensation doc = do
  fields ← object_fields doc
  order_id ← string_field "order_id" fields
  product_id ← string_field "product_id" fields
  some (record { order_id = order_id; product_id = product_id })

abbrev pub marshal_inventory_event : InventoryEvent → List Field
marshal_inventory_event e = ("order_id", str e.order_id) ∷ ("product_id", str e.product_id) ∷ []
