-- ===== src/Pipeline/Requests.antt =====
-- The requests of Order Service, through their outcomes: an order that is placed and one that is
-- cancelled.
use high_throughput_payments.Base.{
  String, ◌≡◌, refl, true, some, Option-cases, inl, inr, arith, ◌∙◌,
}
use high_throughput_payments.Base.Int.{is_int64}
use high_throughput_payments.Http.{Response}
use high_throughput_payments.Json.{
  Document, int64_field, int64_field_lem, object_fields, string_field,
}
use high_throughput_payments.Db.{Db, Env, OrderStatus}
use high_throughput_payments.Db.Orders.{filled, set_cancelled}
use high_throughput_payments.External.{UuidLib}
use high_throughput_payments.OrderService.Events.{CreateOrderRequest, unmarshal_create_order}
use high_throughput_payments.OrderService.Handlers.{new_order}
use high_throughput_payments.OrderService.Handlers.Outcomes as Orders
use high_throughput_payments.Pipeline.Orders.{
  Grows-add, Grows-cancel, Placed-new, distinct-cancel, cancelled-stored,
}
use high_throughput_payments.Pipeline.Grounded.{Grounded, Grounded-orders, Grounded-event}

-- the numbers of a request that decodes are int64
request_fits :
    (doc : Document) (req : CreateOrderRequest)
    → unmarshal_create_order doc ≡ some req
    → (is_int64 req.user_id ≡ true) × (is_int64 req.amount ≡ true)
unfolding unmarshal_create_order
request_fits doc req q = elim (Option-cases (object_fields doc)) [
  | inl n ↦ absurd (ground (arith, n, q))
  | inr (fs, f) ↦ elim (Option-cases (int64_field "user_id" fs)) [
    | inl n ↦ absurd (ground (arith, f, n, q))
    | inr (u, e) ↦ elim (Option-cases (string_field "product_id" fs)) [
      | inl n ↦ absurd (ground (arith, f, e, n, q))
      | inr (p, g) ↦ elim (Option-cases (int64_field "amount" fs)) [
        | inl n ↦ absurd (ground (arith, f, e, g, n, q))
        | inr (a, h) ↦ (
          ground (arith, f, e, g, h, q, int64_field_lem "user_id" fs u e),
          ground (arith, f, e, g, h, q, int64_field_lem "amount" fs a h),
        )
      ]
    ]
  ]
]

module _ {uuids : UuidLib} {env : Env} where
  pub Created-Grounded :
      {doc : Document} {d d' : Db} {r : Response}
      → Orders.Created uuids env doc d r d'
      → Grounded uuids d
      → Grounded uuids d'
  Created-Grounded {doc} {d} (Orders.Created.created req o id u c n t m v) h =
      let (user, amount) = request_fits doc req u in
      Grounded-event uuids (Orders.created_row uuids env (filled env o (new_order req)) id)
        ((filled env o (new_order req), Placed-new _ d.orders, user, amount, refl, refl), refl)
        (Grounded-orders uuids _ (ground (arith, t, h.ids_unique))
          (Grows-add (filled env o (new_order req)) d.orders t) h)
  Created-Grounded (Orders.Created.malformed q) h = h
  Created-Grounded _ h = h

  pub Cancelled-Grounded :
      {text : String} {d d' : Db} {r : Response}
      → Orders.Cancelled uuids env text d r d'
      → Grounded uuids d
      → Grounded uuids d'
  Cancelled-Grounded {d} (Orders.Cancelled.cancelled k id o u q n t) h =
      let now = cancelled-stored k d.orders o h.ids_unique q in
      Grounded-event uuids (Orders.cancelled_row uuids env (set_cancelled o) id)
        (
          (
            set_cancelled o,
            ((OrderStatus.cancelled, now), refl, refl),
            (set_cancelled o, now, refl),
          ),
          refl,
        )
        (Grounded-orders uuids _ (distinct-cancel k d.orders ∙ h.ids_unique)
          (Grows-cancel k d.orders) h)
  Cancelled-Grounded _ h = h
