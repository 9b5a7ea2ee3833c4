-- ===== src/OrderService/Handlers/Reads.antt =====
-- `GetOrder` (order-service/handlers.go) after `CreateOrder`.
use high_throughput_payments.Base.{
  ℕ, String, ◌==◌, nat_eq, ==_refl, ◌≡◌, refl, ap, subst, false, Option, none, some, find, ◌∷◌,
}
use high_throughput_payments.Exec.{attempt, pure, ◌>>=◌}
use high_throughput_payments.Http.{Response, Body, write_order}
use high_throughput_payments.Json.{Document}
use high_throughput_payments.Db.{Db, Session, Env, Call, Order, pool_query}
use high_throughput_payments.Db.Orders.{get_by_id, filled}
use high_throughput_payments.External.{UuidLib, or_error}
use high_throughput_payments.OrderService.Handlers.{get_order, found_order, create_order, new_order}
use high_throughput_payments.OrderService.Handlers.Outcomes.{Created, create_order-Created}

module _ {W : Type 0} (uuids : UuidLib) (env : Env) where
  -- an order of the table
  get_order_found :
      (text : String) (id : ℕ) (o : Order) (s : Session W)
      → uuids.parse text ≡ some id
      → env.fails Call.get_order ≡ false
      → find (λ r. r.id == id) s.committed.orders ≡ some o
      → get_order uuids env text s ≡ (write_order 200 o, s)
  unfolding get_order found_order or_error attempt pure get_by_id pool_query ◌>>=◌
  get_order_found text id o s u h f = rw u (rw h (rw f refl))

-- the order of a response
abbrev order_of : Body → Option Order
order_of (Body.order_body o) = some o
order_of _ = none

stored :
    {uuids : UuidLib} {env : Env} {doc : Document} {d : Db} {r : Response} {d' : Db} (o : Order)
    → Created uuids env doc d r d'
    → r ≡ write_order 201 o
    → find (λ x. x.id == o.id) d'.orders ≡ some o
stored {env} {d} o (Created.created req order_id id u c n m v t) q =
    newest (filled env order_id (new_order req)) (ap (λ r. order_of r.body) q)
  where
    newest :
        (x : Order)
        → order_of (Body.order_body x) ≡ some o
        → find (λ y. y.id == o.id) (x ∷ d.orders) ≡ some o
    newest x e =
        let same : x ≡ o = cc e in
        subst (λ y. find (λ z. z.id == y.id) (x ∷ d.orders) ≡ some y) same (rw (==_refl x.id) refl)
stored o _ q = absurd (cc q)

module _ {W : Type 0} (uuids : UuidLib) (env later : Env) where
  -- When CreateOrder has answered 201 with an order, GetOrder of that order's id, as the client writes
  -- it, answers 200 with the same order, if the query does not fail, and changes nothing.
  pub get_order-create_order :
      (doc : Document) (s : Session W) (o : Order)
      → (create_order uuids env doc s).0 ≡ write_order 201 o
      → later.fails Call.get_order ≡ false
      → let s' = (create_order uuids env doc s).1 in
        get_order uuids later (uuids.to_string o.id) s' ≡ (write_order 200 o, s')
  get_order-create_order doc s o q h =
      get_order_found uuids later (uuids.to_string o.id) o.id o _ (uuids.parse-to_string o.id) h
        (stored o (create_order-Created uuids env doc s) q)
