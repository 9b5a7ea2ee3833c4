-- ===== src/InventoryService/Handler/Outcomes.antt =====
-- The outcomes of the handlers of inventory-service/handler.go.
use high_throughput_payments.Base.{
  ℕ, String, ◌==◌, string_eq, ◌≡◌, refl, Bool, true, false, some, none, any,
}
use high_throughput_payments.Exec.{Result, ok, err}
use high_throughput_payments.Exec.Ensures.{
  Ensures, Ensures-bind, Ensures-pure, Ensures-fail, Ensures-attempt,
}
use high_throughput_payments.Db.{
  Db, Session, Env, Call, Error, db_error, unmarshal_error, invalid_order_id, with_tx,
  Ensures-commit, Ensures-with_tx, EventType, order_created, inventory_deducted, inventory_failed,
  inventory_restocked, ProcessedEvent, OutboxRow,
}
use high_throughput_payments.Db.Faults.{Fault, call_failed, no_event_uuid, event_taken}
use high_throughput_payments.Db.Outbox.{new_row, has_event, add_row, Ensures-insert}
use high_throughput_payments.Db.Products.{
  in_stock, take_one, put_one, set_products, overflows, Ensures-deduct_stock, Ensures-restock_stock,
}
use high_throughput_payments.Db.ProcessedEvents.{
  processed_key, is_processed, mark, Ensures-mark_processed,
}
use high_throughput_payments.External.{Ensures-or_error}
use high_throughput_payments.Json.{Document}
use high_throughput_payments.InventoryService.Events.{
  OrderCreatedEvent, CompensationEvent, InventoryEvent, marshal_inventory_event,
  unmarshal_order_created, unmarshal_compensation,
}
use high_throughput_payments.InventoryService.Handler.{
  InventoryHandler, deduction_type, created_tx, compensation_tx, handle_order_created,
  handle_compensation,
}

abbrev pub inventory_row : Env → EventType → InventoryEvent → ℕ → OutboxRow
inventory_row env t e id = new_row env id t e.order_id t (marshal_inventory_event e)

-- the tables after `DeductStock`, and after `RestockStock`
abbrev pub deduct : String → Db → Db
deduct p d = set_products (in_stock p) take_one d

abbrev pub restock : String → Db → Db
restock p d = set_products (λ r. r.id == p) put_one d

abbrev pub has_stock : String → Db → Bool
has_stock p d = any (in_stock p) d.products

module _ (h : InventoryHandler) (env : Env) (o : ℕ) (event : OrderCreatedEvent) where
  abbrev pub created_key : ProcessedEvent
  created_key = processed_key o order_created h.consumer_group

  abbrev pub out_event : InventoryEvent
  out_event = record { order_id = event.order_id; product_id = event.product_id }

  pub data Deduction (d : Db) : Result Error (Unit {0}) → Db → Type 0 where
    faulty : {e : Error} → Fault env d e → Deduction d (err e) d
    seen : is_processed created_key d ≡ true → Deduction d (ok tt) d
    deducted :
        (id : ℕ)
        → is_processed created_key d ≡ false
        → has_stock event.product_id d ≡ true
        → env.event_id ≡ some id
        → has_event id d ≡ false
        → Deduction d (ok tt) (
            add_row
              (inventory_row env inventory_deducted out_event id)
              (deduct event.product_id (mark created_key d)))
    short :
        (id : ℕ)
        → is_processed created_key d ≡ false
        → has_stock event.product_id d ≡ false
        → env.event_id ≡ some id
        → has_event id d ≡ false
        → Deduction d (ok tt) (
            add_row
              (inventory_row env inventory_failed out_event id)
              (deduct event.product_id (mark created_key d)))

  -- a run, with the world that no call reaches
  created_tx_run :
      {W : Type 0} (s : Session W)
      → Ensures
          (λ r s'. Deduction s.committed r s'.committed × (s'.world ≡ s.world))
          (with_tx env (λ e. e) (created_tx h env o event))
          s
  unfolding created_tx deduction_type
  created_tx_run s =
      Ensures-with_tx env _ _ (λ f. (faulty (call_failed _ f), refl))
        (Ensures-bind _ _ (
          Ensures-mark_processed env _ _ _ (λ f. (faulty (call_failed _ f), refl))
            (λ k. Ensures-pure tt (seen k, refl))
            λ k. Ensures-bind _ _ (
              Ensures-attempt _ (
                Ensures-deduct_stock env event.product_id
                  (λ f. Ensures-bind _ _ (Ensures-fail _ (faulty (call_failed _ f), refl)))
                  (λ q. Ensures-bind _ _ (
                    Ensures-pure _ (
                      Ensures-bind _ _ (
                        Ensures-insert env _ _ _ _ (λ n. (faulty (no_event_uuid n), refl))
                          (λ f. (faulty (call_failed _ f), refl))
                          (λ id n t. (faulty (event_taken id n t), refl))
                          (λ id n t.
                            Ensures-commit env (λ f. (faulty (call_failed _ f), refl))
                              (short id k q n t, refl))))))
                  (λ q. Ensures-bind _ _ (
                    Ensures-pure _ (
                      Ensures-bind _ _ (
                        Ensures-insert env _ _ _ _ (λ n. (faulty (no_event_uuid n), refl))
                          (λ f. (faulty (call_failed _ f), refl))
                          (λ id n t. (faulty (event_taken id n t), refl))
                          (λ id n t.
                            Ensures-commit env (λ f. (faulty (call_failed _ f), refl))
                              (deducted id k q n t, refl))))))))))

  -- A run of the transaction of order.created, whatever fails in it, ends in one of these ways: a
  -- fault, with the tables as before; an order seen before, with nothing changed; a unit taken
  -- from the product and inventory.deducted written, if the product has a row in stock;
  -- inventory.failed written, if it has none.
  pub created_tx-Deduction :
      {W : Type 0} (s : Session W)
      → Ensures
          (λ r s'. Deduction s.committed r s'.committed)
          (with_tx env (λ e. e) (created_tx h env o event))
          s
  created_tx-Deduction s = record { at = (created_tx_run s).at.0 }

module _ (h : InventoryHandler) (env : Env) (t : EventType) (o : ℕ)
    (event : CompensationEvent) where
  abbrev pub compensation_key : ProcessedEvent
  compensation_key = processed_key o t h.consumer_group

  abbrev pub restocked_event : InventoryEvent
  restocked_event = record { order_id = event.order_id; product_id = event.product_id }

  pub data Compensated (d : Db) : Result Error (Unit {0}) → Db → Type 0 where
    faulty : {e : Error} → Fault env d e → Compensated d (err e) d
    seen : is_processed compensation_key d ≡ true → Compensated d (ok tt) d
    too_many :
        is_processed compensation_key d ≡ false
        → overflows event.product_id d ≡ true
        → Compensated d (err (db_error Call.restock_stock)) d
    restocked :
        (id : ℕ)
        → is_processed compensation_key d ≡ false
        → overflows event.product_id d ≡ false
        → env.event_id ≡ some id
        → has_event id d ≡ false
        → Compensated d (ok tt) (
            add_row
              (inventory_row env inventory_restocked restocked_event id)
              (restock event.product_id (mark compensation_key d)))

  compensation_tx_run :
      {W : Type 0} (s : Session W)
      → Ensures
          (λ r s'. Compensated s.committed r s'.committed × (s'.world ≡ s.world))
          (with_tx env (λ e. e) (compensation_tx h env t o event))
          s
  unfolding compensation_tx
  compensation_tx_run s =
      Ensures-with_tx env _ _ (λ f. (faulty (call_failed _ f), refl))
        (Ensures-bind _ _ (
          Ensures-mark_processed env _ _ _ (λ f. (faulty (call_failed _ f), refl))
            (λ k. Ensures-pure tt (seen k, refl))
            λ k. Ensures-bind _ _ (
              Ensures-restock_stock env event.product_id (λ f. (faulty (call_failed _ f), refl))
                (λ q. (too_many k q, refl))
                (λ q. Ensures-bind _ _ (
                  Ensures-insert env _ _ _ _ (λ n. (faulty (no_event_uuid n), refl))
                    (λ f. (faulty (call_failed _ f), refl))
                    (λ id n u. (faulty (event_taken id n u), refl))
                    (λ id n u.
                      Ensures-commit env (λ f. (faulty (call_failed _ f), refl))
                        (restocked id k q n u, refl)))))))

  pub compensation_tx-Compensated :
      {W : Type 0} (s : Session W)
      → Ensures
          (λ r s'. Compensated s.committed r s'.committed)
          (with_tx env (λ e. e) (compensation_tx h env t o event))
          s
  compensation_tx-Compensated s = record { at = (compensation_tx_run s).at.0 }

module _ (h : InventoryHandler) (env : Env) where
  -- The handler on a message: a message that it cannot read changes nothing, and any other runs
  -- the transaction.
  pub handle_order_created_rule :
      {W : Type 0} (Q : Result Error (Unit {0}) → Db → Type 0) (doc : Document) (s : Session W)
      → (unmarshal_order_created doc ≡ none → Q (err unmarshal_error) s.committed)
      → ((e : OrderCreatedEvent)
          → unmarshal_order_created doc ≡ some e
          → h.uuids.parse e.order_id ≡ none
          → Q (err invalid_order_id) s.committed)
      → ((e : OrderCreatedEvent) (o : ℕ) (r : Result Error (Unit {0})) (d' : Db)
          → unmarshal_order_created doc ≡ some e
          → h.uuids.parse e.order_id ≡ some o
          → Deduction h env o e s.committed r d'
          → Q r d')
      → Ensures (λ r s'. Q r s'.committed) (handle_order_created h env doc) s
  unfolding handle_order_created
  handle_order_created_rule Q doc s malformed bad_id ran = Ensures-bind _ _ (
      Ensures-or_error (unmarshal_order_created doc) _ malformed (λ e u. Ensures-bind _ _ (
        Ensures-or_error (h.uuids.parse e.order_id) _ (bad_id e u)
          (λ o v. record { at = ran e o _ _ u v (created_tx-Deduction h env o e s).at }))))

  -- it does not reach the world
  pub handle_order_created-world :
      {W : Type 0} (doc : Document) (s : Session W)
      → (handle_order_created h env doc s).1.world ≡ s.world
  unfolding handle_order_created
  handle_order_created-world doc s =
      (Ensures-bind {Q = λ _ s'. s'.world ≡ s.world} _ _ (
        Ensures-or_error (unmarshal_order_created doc) _ (λ _. refl)
          (λ e _. Ensures-bind _ _ (
            Ensures-or_error (h.uuids.parse e.order_id) _ (λ _. refl)
              (λ o _. record { at = (created_tx_run h env o e s).at.1 }))))).at

module _ (h : InventoryHandler) (env : Env) (t : EventType) where
  -- The handler on a message: a message that it cannot read changes nothing, and any other runs
  -- the transaction.
  pub handle_compensation_rule :
      {W : Type 0} (Q : Result Error (Unit {0}) → Db → Type 0) (doc : Document) (s : Session W)
      → (unmarshal_compensation doc ≡ none → Q (err unmarshal_error) s.committed)
      → ((e : CompensationEvent)
          → unmarshal_compensation doc ≡ some e
          → h.uuids.parse e.order_id ≡ none
          → Q (err invalid_order_id) s.committed)
      → ((e : CompensationEvent) (o : ℕ) (r : Result Error (Unit {0})) (d' : Db)
          → unmarshal_compensation doc ≡ some e
          → h.uuids.parse e.order_id ≡ some o
          → Compensated h env t o e s.committed r d'
          → Q r d')
      → Ensures (λ r s'. Q r s'.committed) (handle_compensation h env t doc) s
  unfolding handle_compensation
  handle_compensation_rule Q doc s malformed bad_id ran = Ensures-bind _ _ (
      Ensures-or_error (unmarshal_compensation doc) _ malformed (λ e u. Ensures-bind _ _ (
        Ensures-or_error (h.uuids.parse e.order_id) _ (bad_id e u)
          (λ o v. record { at = ran e o _ _ u v (compensation_tx-Compensated h env t o e s).at }))))

  pub handle_compensation-world :
      {W : Type 0} (doc : Document) (s : Session W)
      → (handle_compensation h env t doc s).1.world ≡ s.world
  unfolding handle_compensation
  handle_compensation-world doc s =
      (Ensures-bind {Q = λ _ s'. s'.world ≡ s.world} _ _ (
        Ensures-or_error (unmarshal_compensation doc) _ (λ _. refl)
          (λ e _. Ensures-bind _ _ (
            Ensures-or_error (h.uuids.parse e.order_id) _ (λ _. refl)
              (λ o _. record { at = (compensation_tx_run h env t o e s).at.1 }))))).at
