-- ===== src/Saga/Repeats.antt =====
-- Kafka delivers at least once: deliveries that come again, to any consumer.
use high_throughput_payments.Base.{
  ℕ, String, List, [], ◌∷◌, ◌++◌, ◌≡◌, ◌∙◌, refl, sym, ap, subst, true, false, Option, none, some,
  arith,
}
use high_throughput_payments.Exec.{Result, ok, err}
use high_throughput_payments.Db.{
  Db, Env, Error, EventType, ConsumerGroup, ProcessedEvent, order_created, order_cancelled,
  payment_failed, inventory_service, payment_service,
}
use high_throughput_payments.Db.ProcessedEvents.{processed_key, is_processed}
use high_throughput_payments.External.{UuidLib}
use high_throughput_payments.InventoryService.Handler.{InventoryHandler}
use high_throughput_payments.InventoryService.Events as Stock
use high_throughput_payments.InventoryService.Handler.Outcomes as Inventory
use high_throughput_payments.PaymentService.Handler.{PaymentHandler}
use high_throughput_payments.PaymentService.Events as Payment
use high_throughput_payments.PaymentService.Handler.Created as Charging
use high_throughput_payments.PaymentService.Handler.Cancelled as Cancelling
use high_throughput_payments.Saga.System.{
  Services, State, Input, inventory_order_created, inventory_order_cancelled,
  inventory_payment_failed, payment_order_created, payment_order_cancelled, inventory_handler,
  payment_handler, start, step, run, fails, is_error,
}
use high_throughput_payments.Saga.Processed.{is_processed-mark, run-Marked}
use high_throughput_payments.Saga.Redelivery.{charged_marks, charged_again}

-- the row of processed_events for an event that names an order by `id`
abbrev named :
    {E : Type 0}
    → UuidLib
    → Option E
    → (E → String)
    → EventType
    → ConsumerGroup
    → Option ProcessedEvent
named uuids none id t g = none
named uuids (some e) id t g = elim (uuids.parse (id e)) [
  | none ↦ none
  | some o ↦ some (processed_key o t g)
]

-- the row that marks a consumer's message as processed; a request has none
abbrev pub message_key : UuidLib → Input → Option ProcessedEvent
message_key uuids (inventory_order_created doc) =
    named uuids (Stock.unmarshal_order_created doc) (λ e. e.order_id) order_created
      inventory_service
message_key uuids (inventory_order_cancelled doc) =
    named uuids (Stock.unmarshal_compensation doc) (λ e. e.order_id) order_cancelled
      inventory_service
message_key uuids (inventory_payment_failed doc) =
    named uuids (Stock.unmarshal_compensation doc) (λ e. e.order_id) payment_failed
      inventory_service
message_key uuids (payment_order_created doc) =
    named uuids (Payment.unmarshal_order_created doc) (λ e. e.order_id) order_created
      payment_service
message_key uuids (payment_order_cancelled doc) =
    named uuids (Payment.unmarshal_order_cancelled doc) (λ e. e.order_id) order_cancelled
      payment_service
message_key uuids _ = none

named_lem :
    {E : Type 0} (uuids : UuidLib) (m : Option E) (id : E → String) (t : EventType)
    (g : ConsumerGroup) (k : ProcessedEvent) (e : E) (o : ℕ)
    → named uuids m id t g ≡ some k
    → m ≡ some e
    → uuids.parse (id e) ≡ some o
    → processed_key o t g ≡ k
named_lem uuids none id t g k e o q u v = cc
named_lem uuids (some x) id t g k e o q u v = let same : x ≡ e = cc u in ground (arith, q, v, same)

succeeds : (r : Result Error (Unit {0})) → is_error r ≡ false → r ≡ ok tt
succeeds (ok tt) q = refl
succeeds (err e) q = cc

by_key : {k l : ProcessedEvent} (d : Db) → k ≡ l → is_processed k d ≡ true → is_processed l d ≡ true
by_key d q m = subst (λ y. is_processed y d ≡ true) q m

module _ {h : InventoryHandler} {env : Env} {o : ℕ} where
  deducted_marks :
      {e : Stock.OrderCreatedEvent} {d d' : Db} {r : Result Error (Unit {0})}
      → Inventory.Deduction h env o e d r d'
      → r ≡ ok tt
      → is_processed (processed_key o order_created h.consumer_group) d' ≡ true
  deducted_marks (Inventory.Deduction.seen k) q = k
  deducted_marks {d} (Inventory.Deduction.deducted i k s n t) q = is_processed-mark _ d
  deducted_marks {d} (Inventory.Deduction.short i k s n t) q = is_processed-mark _ d
  deducted_marks _ q = cc

  deducted_again :
      {e : Stock.OrderCreatedEvent} {d d' : Db} {r : Result Error (Unit {0})}
      → Inventory.Deduction h env o e d r d'
      → is_processed (processed_key o order_created h.consumer_group) d ≡ true
      → d' ≡ d
  deducted_again (Inventory.Deduction.deducted i k s n t) m = cc
  deducted_again (Inventory.Deduction.short i k s n t) m = cc
  deducted_again _ m = refl

  restocked_marks :
      {t : EventType} {e : Stock.CompensationEvent} {d d' : Db} {r : Result Error (Unit {0})}
      → Inventory.Compensated h env t o e d r d'
      → r ≡ ok tt
      → is_processed (processed_key o t h.consumer_group) d' ≡ true
  restocked_marks (Inventory.Compensated.seen k) q = k
  restocked_marks {d} (Inventory.Compensated.restocked i k s n u) q = is_processed-mark _ d
  restocked_marks _ q = cc

  restocked_again :
      {t : EventType} {e : Stock.CompensationEvent} {d d' : Db} {r : Result Error (Unit {0})}
      → Inventory.Compensated h env t o e d r d'
      → is_processed (processed_key o t h.consumer_group) d ≡ true
      → d' ≡ d
  restocked_again (Inventory.Compensated.restocked i k s n u) m = cc
  restocked_again _ m = refl

module _ {W : Type 0} {h : PaymentHandler W} {env : Env} {o : ℕ} where
  cancelling_marks :
      {d d' : Db} {w w' : W} {r : Result Error (Unit {0})}
      → Cancelling.Cancelled h env o d w r d' w'
      → r ≡ ok tt
      → is_processed (processed_key o order_cancelled h.consumer_group) d' ≡ true
  cancelling_marks (Cancelling.Cancelled.seen k) q = k
  cancelling_marks {d} (Cancelling.Cancelled.no_payment f n) q = is_processed-mark _ d
  cancelling_marks {d} (Cancelling.Cancelled.not_charged p f n c) q = is_processed-mark _ d
  cancelling_marks {d} (Cancelling.Cancelled.refunded p i f n c s m t) q = is_processed-mark _ d
  cancelling_marks _ q = cc

  cancelling_again :
      {d d' : Db} {w w' : W} {r : Result Error (Unit {0})}
      → Cancelling.Cancelled h env o d w r d' w'
      → is_processed (processed_key o order_cancelled h.consumer_group) d ≡ true
      → (d' ≡ d) × (w' ≡ w)
  cancelling_again (Cancelling.Cancelled.faulty f) m = (refl, refl)
  cancelling_again (Cancelling.Cancelled.seen k) m = (refl, refl)
  cancelling_again (Cancelling.Cancelled.no_payment f n) m = cc
  cancelling_again (Cancelling.Cancelled.not_charged p f n c) m = cc
  cancelling_again (Cancelling.Cancelled.refunded p i f n c s x t) m = cc
  cancelling_again (Cancelling.Cancelled.refund_failed p f n c x) m = cc

module _ {W : Type 0} (sv : Services W) where
  abbrev Same : State W → Db → W → Type 0
  Same t d w = ◌≡◌ {A = State W} (record { db = d; world = w }) t

  -- a message that was handled is marked
  step-IsMarked :
      (env : Env) (i : Input) (k : ProcessedEvent) (t : State W)
      → message_key sv.uuids i ≡ some k
      → fails sv (env, i) t ≡ false
      → is_processed k (step sv (env, i) t).db ≡ true
  unfolding step fails
  step-IsMarked env (inventory_order_created doc) k t q f =
      (Inventory.handle_order_created_rule (inventory_handler sv) env
          (λ r d. is_error r ≡ false → is_processed k d ≡ true) doc (start sv t) (λ _ x. cc x)
          (λ _ _ _ x. cc x)
          (λ e o r d' u v c x.
            by_key d'
              (named_lem sv.uuids (Stock.unmarshal_order_created doc) (λ x. x.order_id)
                order_created inventory_service k e o q u v)
              (deducted_marks c (succeeds r x)))).at
        f
  step-IsMarked env (inventory_order_cancelled doc) k t q f =
      (Inventory.handle_compensation_rule (inventory_handler sv) env order_cancelled
          (λ r d. is_error r ≡ false → is_processed k d ≡ true) doc (start sv t) (λ _ x. cc x)
          (λ _ _ _ x. cc x)
          (λ e o r d' u v c x.
            by_key d'
              (named_lem sv.uuids (Stock.unmarshal_compensation doc) (λ x. x.order_id)
                order_cancelled inventory_service k e o q u v)
              (restocked_marks c (succeeds r x)))).at
        f
  step-IsMarked env (inventory_payment_failed doc) k t q f =
      (Inventory.handle_compensation_rule (inventory_handler sv) env payment_failed
          (λ r d. is_error r ≡ false → is_processed k d ≡ true) doc (start sv t) (λ _ x. cc x)
          (λ _ _ _ x. cc x)
          (λ e o r d' u v c x.
            by_key d'
              (named_lem sv.uuids (Stock.unmarshal_compensation doc) (λ x. x.order_id)
                payment_failed inventory_service k e o q u v)
              (restocked_marks c (succeeds r x)))).at
        f
  step-IsMarked env (payment_order_created doc) k t q f =
      (Charging.handle_order_created_rule (payment_handler sv) env
          (λ r d _. is_error r ≡ false → is_processed k d ≡ true) doc (start sv t) (λ _ x. cc x)
          (λ _ _ _ x. cc x)
          (λ e o r d' _ u v c x.
            by_key d'
              (named_lem sv.uuids (Payment.unmarshal_order_created doc) (λ x. x.order_id)
                order_created payment_service k e o q u v)
              (charged_marks c (succeeds r x)))).at
        f
  step-IsMarked env (payment_order_cancelled doc) k t q f =
      (Cancelling.handle_order_cancelled_rule (payment_handler sv) env
          (λ r d _. is_error r ≡ false → is_processed k d ≡ true) doc (start sv t) (λ _ x. cc x)
          (λ _ _ _ x. cc x)
          (λ e o r d' _ u v c x.
            by_key d'
              (named_lem sv.uuids (Payment.unmarshal_order_cancelled doc) (λ x. x.order_id)
                order_cancelled payment_service k e o q u v)
              (cancelling_marks c (succeeds r x)))).at
        f
  step-IsMarked env _ k t q f = cc q

  -- a message that is marked does nothing
  step-again :
      (env : Env) (i : Input) (k : ProcessedEvent) (t : State W)
      → message_key sv.uuids i ≡ some k
      → is_processed k t.db ≡ true
      → step sv (env, i) t ≡ t
  unfolding step
  step-again env (inventory_order_created doc) k t q m = cc (
    (Inventory.handle_order_created_rule (inventory_handler sv) env (λ _ d. d ≡ t.db) doc
        (start sv t) (λ _. refl) (λ _ _ _. refl)
        (λ e o r d' u v c. deducted_again c (
          by_key t.db
            (sym (
              named_lem sv.uuids (Stock.unmarshal_order_created doc) (λ x. x.order_id) order_created
                inventory_service k e o q u v))
            m))).at,
    Inventory.handle_order_created-world (inventory_handler sv) env doc (start sv t),
  )
  step-again env (inventory_order_cancelled doc) k t q m = cc (
    (Inventory.handle_compensation_rule (inventory_handler sv) env order_cancelled (λ _ d. d ≡ t.db)
        doc (start sv t) (λ _. refl) (λ _ _ _. refl)
        (λ e o r d' u v c. restocked_again c (
          by_key t.db
            (sym (
              named_lem sv.uuids (Stock.unmarshal_compensation doc) (λ x. x.order_id)
                order_cancelled inventory_service k e o q u v))
            m))).at,
    Inventory.handle_compensation-world (inventory_handler sv) env order_cancelled doc (start sv t),
  )
  step-again env (inventory_payment_failed doc) k t q m = cc (
    (Inventory.handle_compensation_rule (inventory_handler sv) env payment_failed (λ _ d. d ≡ t.db)
        doc (start sv t) (λ _. refl) (λ _ _ _. refl)
        (λ e o r d' u v c. restocked_again c (
          by_key t.db
            (sym (
              named_lem sv.uuids (Stock.unmarshal_compensation doc) (λ x. x.order_id) payment_failed
                inventory_service k e o q u v))
            m))).at,
    Inventory.handle_compensation-world (inventory_handler sv) env payment_failed doc (start sv t),
  )
  step-again env (payment_order_created doc) k t q m =
      (Charging.handle_order_created_rule (payment_handler sv) env (λ _ d w. Same t d w) doc
        (start sv t) (λ _. refl) (λ _ _ _. refl)
        (λ e o r d' w u v c.
          let e2 = charged_again c (
            by_key t.db
              (sym (
                named_lem sv.uuids (Payment.unmarshal_order_created doc) (λ x. x.order_id)
                  order_created payment_service k e o q u v))
              m) in
          cc (e2.0, e2.1))).at
  step-again env (payment_order_cancelled doc) k t q m =
      (Cancelling.handle_order_cancelled_rule (payment_handler sv) env (λ _ d w. Same t d w) doc
        (start sv t) (λ _. refl) (λ _ _ _. refl)
        (λ e o r d' w u v c.
          let e2 = cancelling_again c (
            by_key t.db
              (sym (
                named_lem sv.uuids (Payment.unmarshal_order_cancelled doc) (λ x. x.order_id)
                  order_cancelled payment_service k e o q u v))
              m) in
          cc (e2.0, e2.1))).at
  step-again env _ k t q m = cc q

  run-append :
      (is js : List (Env × Input)) (t : State W) → run sv (is ++ js) t ≡ run sv js (run sv is t)
  unfolding run
  run-append [] js t = refl
  run-append (i ∷ is) js t = run-append is js (step sv i t)

  -- If a consumer handles a message without an error, then a later message with the same row in
  -- processed_events, as the same message again or another for the same order, topic and group, can
  -- be left out: the run ends in the same tables and the same Stripe, whatever comes before, between
  -- and after, and whatever fails in it.
  pub repeat-run :
      (i j : Input) (k : ProcessedEvent) (env env' : Env)
      (before between later : List (Env × Input)) (t : State W)
      → message_key sv.uuids i ≡ some k
      → message_key sv.uuids j ≡ some k
      → fails sv (env, i) (run sv before t) ≡ false
      → run sv (before ++ (env, i) ∷ (between ++ (env', j) ∷ later)) t
        ≡ run sv (before ++ (env, i) ∷ (between ++ later)) t
  unfolding run
  repeat-run i j k env env' before between later t p q f =
      let t1 = step sv (env, i) (run sv before t) in
      let t2 = run sv between t1 in
      let again =
        step-again env' j k t2 q
          (run-Marked k sv between t1 (step-IsMarked env i k (run sv before t) p f)) in
      run-append before ((env, i) ∷ (between ++ (env', j) ∷ later)) t
      ∙ run-append between ((env', j) ∷ later) t1
      ∙ ap (run sv later) again
      ∙ sym (run-append between later t1)
      ∙ sym (run-append before ((env, i) ∷ (between ++ later)) t)
