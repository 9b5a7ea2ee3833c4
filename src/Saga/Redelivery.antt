-- ===== src/Saga/Redelivery.antt =====
-- Kafka delivers at least once: deliveries of order.created to Payment Service that come again.
use high_throughput_payments.Base.{ℕ, List, ◌≡◌, refl, true, some, subst, sym}
use high_throughput_payments.Exec.{Result, ok}
use high_throughput_payments.Json.{Document}
use high_throughput_payments.Db.{Db, Env, Error, order_created, payment_service}
use high_throughput_payments.Db.ProcessedEvents.{processed_key, is_processed}
use high_throughput_payments.PaymentService.Handler.{PaymentHandler, handle_order_created}
use high_throughput_payments.PaymentService.Events as PaymentEvents
use high_throughput_payments.PaymentService.Handler.Created as Charging
use high_throughput_payments.Saga.System.{
  Services, State, Input, payment_order_created, payment_handler, start, step, run,
}
use high_throughput_payments.Saga.Processed.{is_processed-mark, run-Marked}

-- the order that a message for Payment Service names
abbrev pub Names : {W : Type 0} → Services W → Document → ℕ → Type 0
Names sv doc o =
    (e : PaymentEvents.OrderCreatedEvent) × (PaymentEvents.unmarshal_order_created doc ≡ some e)
    × (sv.uuids.parse e.order_id ≡ some o)

module _ {W : Type 0} {h : PaymentHandler W} where
  pub charged_marks :
      {env : Env} {o : ℕ} {e : PaymentEvents.OrderCreatedEvent} {d d' : Db} {w w' : W}
      {r : Result Error (Unit {0})}
      → Charging.Created h env o e d w r d' w'
      → r ≡ ok tt
      → is_processed (processed_key o order_created h.consumer_group) d' ≡ true
  charged_marks (Charging.Created.seen k) q = k
  charged_marks {o} {d} (Charging.Created.skipped k c) q = is_processed-mark _ d
  charged_marks {o} {d} (Charging.Created.declined e i c s b n t) q = is_processed-mark _ d
  charged_marks {o} {d} (Charging.Created.succeeded i c s f) q = is_processed-mark _ d
  charged_marks _ q = cc

  -- the outcomes of a delivery for an order that is marked
  pub charged_again :
      {env : Env} {o : ℕ} {e : PaymentEvents.OrderCreatedEvent} {d d' : Db} {w w' : W}
      {r : Result Error (Unit {0})}
      → Charging.Created h env o e d w r d' w'
      → is_processed (processed_key o order_created h.consumer_group) d ≡ true
      → (d' ≡ d) × (w' ≡ w)
  charged_again (Charging.Created.faulty f) m = (refl, refl)
  charged_again (Charging.Created.seen k) m = (refl, refl)
  charged_again (Charging.Created.skipped k c) m = cc
  charged_again (Charging.Created.faulty_late c f) m = cc (c.fresh, m)
  charged_again (Charging.Created.circuit_open e c s b) m = cc (c.fresh, m)
  charged_again (Charging.Created.declined e i c s b n t) m = cc (c.fresh, m)
  charged_again (Charging.Created.taken i c s f) m = cc (c.fresh, m)
  charged_again (Charging.Created.succeeded i c s f) m = cc (c.fresh, m)

-- the order that a message names is one
Names-unique :
    {W : Type 0} (sv : Services W) (doc : Document) (o o' : ℕ) (e : PaymentEvents.OrderCreatedEvent)
    → Names sv doc o
    → PaymentEvents.unmarshal_order_created doc ≡ some e
    → sv.uuids.parse e.order_id ≡ some o'
    → o' ≡ o
Names-unique sv doc o o' e (e0, u0, v0) u v = cc (u0, u, v0, v)

module _ {W : Type 0} (sv : Services W) (o : ℕ) where
  abbrev IsMarked : Db → Type 0
  IsMarked d = is_processed (processed_key o order_created payment_service) d ≡ true

  first_delivery :
      (env : Env) (doc : Document) (t : State W)
      → Names sv doc o
      → (handle_order_created (payment_handler sv) env doc (start sv t)).0 ≡ ok tt
      → IsMarked (step sv (env, payment_order_created doc) t).db
  unfolding step
  first_delivery env doc t n q =
      (Charging.handle_order_created_rule (payment_handler sv) env (λ r d _. r ≡ ok tt → IsMarked d)
          doc (start sv t) (λ _ x. cc) (λ _ _ _ x. cc)
          (λ e o' r d' w u v c x.
            subst (λ y. is_processed (processed_key y order_created payment_service) d' ≡ true)
              (Names-unique sv doc o o' e n u v) (charged_marks c x))).at
        q

  later_delivery :
      (env : Env) (doc : Document) (t : State W)
      → Names sv doc o
      → IsMarked t.db
      → step sv (env, payment_order_created doc) t ≡ t
  unfolding step
  later_delivery env doc t n m =
      (Charging.handle_order_created_rule (payment_handler sv) env
        (λ _ d w. ◌≡◌ {A = State W} (record { db = d; world = w }) t) doc (start sv t) (λ _. refl)
        (λ _ _ _. refl)
        (λ e o' r d' w u v c.
          let k : is_processed (processed_key o' order_created payment_service) t.db ≡ true =
            subst (λ y. is_processed (processed_key y order_created payment_service) t.db ≡ true)
              (sym (Names-unique sv doc o o' e n u v)) m in
          let x = charged_again c k in cc (x.0, x.1))).at

  -- Once Payment Service's handling of an order.created message for an order has returned no
  -- error, a later one of a message for the same order, after whatever inputs and whatever fails
  -- in them or in it, changes neither the tables nor Stripe.
  pub charge_redelivery :
      (env env' : Env) (doc doc' : Document) (is : List (Env × Input)) (t : State W)
      → Names sv doc o
      → Names sv doc' o
      → (handle_order_created (payment_handler sv) env doc (start sv t)).0 ≡ ok tt
      → let t' = run sv is (step sv (env, payment_order_created doc) t) in
        step sv (env', payment_order_created doc') t' ≡ t'
  charge_redelivery env env' doc doc' is t n n' q =
      later_delivery env' doc' _ n' (run-Marked _ sv is _ (first_delivery env doc t n q))
