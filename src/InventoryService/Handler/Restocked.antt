-- ===== src/InventoryService/Handler/Restocked.antt =====
-- HandleCompensation of inventory-service/handler.go, by whether the product has a row.
use high_throughput_payments.Base.{
  ℕ, String, List, [], ◌∷◌, ◌==◌, string_eq, ◌≡◌, refl, sym, subst, Bool, true, false, some, any,
  update, Bool-cases, inl, inr, arith,
}
use high_throughput_payments.Exec.{Result, ok, err}
use high_throughput_payments.Exec.Ensures.{Ensures}
use high_throughput_payments.Db.{
  Db, Session, Env, Call, Error, db_error, with_tx, EventType, inventory_restocked, Product,
}
use high_throughput_payments.Db.Faults.{Fault}
use high_throughput_payments.Db.Outbox.{has_event, add_row}
use high_throughput_payments.Db.Products.{put_one, overflows}
use high_throughput_payments.Db.ProcessedEvents.{is_processed, mark}
use high_throughput_payments.InventoryService.Events.{CompensationEvent}
use high_throughput_payments.InventoryService.Handler.{InventoryHandler, compensation_tx}
use high_throughput_payments.InventoryService.Handler.Outcomes as Outcomes
use high_throughput_payments.InventoryService.Handler.Outcomes.{
  inventory_row, restock, compensation_key, restocked_event, compensation_tx-Compensated,
}

-- the product has a row
abbrev pub has_product : String → List Product → Bool
has_product p rs = any (λ r. r.id == p) rs

update-unknown :
    (p : String) (rs : List Product)
    → has_product p rs ≡ false
    → update (λ r. r.id == p) put_one rs ≡ rs
update-unknown p [] n = refl
update-unknown p (r ∷ rs) n = ground (arith, n, update-unknown p rs (ground (arith, n)))

module _ (h : InventoryHandler) (env : Env) (t : EventType) (o : ℕ)
    (event : CompensationEvent) where
  -- the event's row on top of what the transaction has done before it
  abbrev pub with_event : ℕ → Db → Db
  with_event id d =
      add_row (inventory_row env inventory_restocked (restocked_event h env t o event) id) d

  pub data Restocked (d : Db) : Result Error (Unit {0}) → Db → Type 0 where
    faulty : {e : Error} → Fault env d e → Restocked d (err e) d
    seen : is_processed (compensation_key h env t o event) d ≡ true → Restocked d (ok tt) d
    too_many :
        is_processed (compensation_key h env t o event) d ≡ false
        → overflows event.product_id d ≡ true
        → Restocked d (err (db_error Call.restock_stock)) d
    put_back :
        (id : ℕ)
        → is_processed (compensation_key h env t o event) d ≡ false
        → has_product event.product_id d.products ≡ true
        → overflows event.product_id d ≡ false
        → env.event_id ≡ some id
        → has_event id d ≡ false
        → Restocked d
            (ok tt)
            (with_event id (restock event.product_id (mark (compensation_key h env t o event) d)))
    unknown_product :
        (id : ℕ)
        → is_processed (compensation_key h env t o event) d ≡ false
        → has_product event.product_id d.products ≡ false
        → env.event_id ≡ some id
        → has_event id d ≡ false
        → Restocked d (ok tt) (with_event id (mark (compensation_key h env t o event) d))

  by_product :
      {d d' : Db} {r : Result Error (Unit {0})}
      → Outcomes.Compensated h env t o event d r d'
      → Restocked d r d'
  by_product (Outcomes.Compensated.faulty f) = faulty f
  by_product (Outcomes.Compensated.seen k) = seen k
  by_product (Outcomes.Compensated.too_many n k) = too_many n k
  by_product {d} (Outcomes.Compensated.restocked id n k i u) =
      elim (Bool-cases (has_product event.product_id d.products)) [
        | inl y ↦ put_back id n y k i u
        | inr z ↦
            subst
              (λ ps. Restocked d (ok tt) (
                with_event id
                  (record (mark (compensation_key h env t o event) d) { products = ps })))
              (sym (update-unknown event.product_id d.products z)) (unknown_product id n z i u)
      ]

  -- A run of a compensation, whatever fails in it, ends in one of these ways: a fault, or a stock
  -- that would leave the column's type, with the tables as before; an order seen before under this
  -- topic, with nothing changed; for a product that has a row, a unit put back and
  -- inventory.restocked written; for a product without one, inventory.restocked written although no
  -- unit is put back.
  pub compensation_tx-Restocked :
      {W : Type 0} (s : Session W)
      → Ensures
          (λ r s'. Restocked s.committed r s'.committed)
          (with_tx env (λ e. e) (compensation_tx h env t o event))
          s
  compensation_tx-Restocked s = record {
    at = by_product (compensation_tx-Compensated h env t o event s).at;
  }
