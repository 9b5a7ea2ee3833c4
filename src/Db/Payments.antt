-- ===== src/Db/Payments.antt =====
-- internal/db/payments_repo.go
use high_throughput_payments.Base.{
  ℕ, String, ◌∷◌, ◌==◌, nat_eq, string_eq, ◌≡◌, ◌||◌, inl, inr, Bool, true, false, Bool-cases,
  Option-cases, Option, none, some, any, find, update, if◌then◌else◌,
}
use high_throughput_payments.Exec.{Result, ok, err, pure, ◌>>=◌}
use high_throughput_payments.Exec.Ensures.{Ensures}
use high_throughput_payments.Db.Rules.{IsFailing, Ensures-total}
use high_throughput_payments.Db.Schema.{Db, Payment, PaymentStatus}
use high_throughput_payments.Db.Transaction.{
  Session, Env, Action, Call, Error, db_error, payment_not_found, aborting, statement,
}

abbrev pub of_order : ℕ → Payment → Bool
of_order order_id r = r.order_id == order_id

abbrev pub of_intent : String → Payment → Bool
of_intent intent_id r = r.stripe_payment_intent_id == intent_id

abbrev pub set_status : PaymentStatus → Payment → Payment
set_status status r = record r { status = status }

abbrev pub set_payments : (Payment → Bool) → PaymentStatus → Db → Db
set_payments p status d = record d { payments = update p (set_status status) d.payments }

abbrev pub is_cancelled_in : ℕ → Db → Bool
is_cancelled_in order_id d = any (λ o. o == order_id) d.cancelled

abbrev pub find_payment : ℕ → Db → Option Payment
find_payment order_id d = find (of_order order_id) d.payments

-- INSERT INTO payments: `order_id` is the primary key and the intent id is unique
abbrev insert_payment : Payment → Db → Option (Unit {0} × Db)
insert_payment p d =
    if any (of_order p.order_id) d.payments || any (of_intent p.stripe_payment_intent_id) d.payments
    then none
    else some (tt, record d { payments = p ∷ d.payments })

-- UPDATE payments SET status = … WHERE stripe_payment_intent_id = … RETURNING order_id, product_id
abbrev update_by_intent : String → PaymentStatus → Db → Option (Option Payment × Db)
update_by_intent intent_id status d =
    some (find (of_intent intent_id) d.payments, set_payments (of_intent intent_id) status d)

-- INSERT INTO cancelled_orders … ON CONFLICT DO NOTHING
abbrev pub add_cancelled : ℕ → Db → Db
add_cancelled order_id d = record d {
  cancelled = if is_cancelled_in order_id d then d.cancelled else order_id ∷ d.cancelled;
}

abbrev or_not_found : {W : Type 0} → Option Payment → Action W Payment
or_not_found o s = elim o [ none ↦ (err payment_not_found, s) | some p ↦ (ok p, s) ]

module _ {W : Type 0} (env : Env) where
  unfoldable pub create : Payment → Action W (Unit {0})
  create p = statement env Call.create_payment (insert_payment p)

  -- The order id and the product id of the payment that was updated.
  unfoldable pub update_status_by_intent_id : String → PaymentStatus → Action W (ℕ × String)
  update_status_by_intent_id intent_id status = do
    row ← statement env Call.update_status_by_intent (update_by_intent intent_id status)
    p ← or_not_found row
    pure (p.order_id, p.product_id)

  -- The advisory lock: it changes no table. One run at a time is modelled, so it never waits.
  unfoldable pub lock_order : ℕ → Action W (Unit {0})
  lock_order order_id = statement env Call.lock_order (λ d. some (tt, d))

  unfoldable pub mark_cancelled : ℕ → Action W (Unit {0})
  mark_cancelled order_id =
      statement env Call.mark_cancelled (λ d. some (tt, add_cancelled order_id d))

  unfoldable pub is_cancelled : ℕ → Action W Bool
  is_cancelled order_id =
      statement env Call.is_cancelled (λ d. some (is_cancelled_in order_id d, d))

  unfoldable pub get_by_order_id_for_update : ℕ → Action W Payment
  get_by_order_id_for_update order_id = do
    row ← statement env Call.get_payment (λ d. some (find (of_order order_id) d.payments, d))
    or_not_found row

  unfoldable pub update_status_by_order_id : ℕ → PaymentStatus → Action W (Unit {0})
  update_status_by_order_id order_id status =
      statement env Call.update_status_by_order
        (λ d. some (tt, set_payments (of_order order_id) status d))

abbrev pub add_payment : Payment → Db → Db
add_payment p d = record d { payments = p ∷ d.payments }

-- the constraints of `payments` that an insertion would break
abbrev pub has_payment : Payment → Db → Bool
has_payment p d =
    any (of_order p.order_id) d.payments || any (of_intent p.stripe_payment_intent_id) d.payments

module _ {W : Type 0} {Q : Result Error (Unit {0}) → Session W → Type 0} (env : Env) where
  pub Ensures-create :
      (p : Payment) {s : Session W}
      → (IsFailing env Call.create_payment s → Q (err (db_error Call.create_payment)) (aborting s))
      → (has_payment p s.work ≡ true → Q (err (db_error Call.create_payment)) (aborting s))
      → (has_payment p s.work ≡ false → Q (ok tt) (record s { work = add_payment p s.work }))
      → Ensures Q (create env p) s
  unfolding create statement
  Ensures-create p {s} bad taken fresh =
      elim (Bool-cases (s.aborted || env.fails Call.create_payment)) [
        | inl e ↦ record { at = rw e (bad e) }
        | inr e ↦ elim (Bool-cases (has_payment p s.work)) [
          | inl q ↦ record { at = rw e (rw q (taken q)) }
          | inr q ↦ record { at = rw e (rw q (fresh q)) }
        ]
      ]

  pub Ensures-lock_order :
      (o : ℕ) {s : Session W}
      → (IsFailing env Call.lock_order s → Q (err (db_error Call.lock_order)) (aborting s))
      → Q (ok tt) s
      → Ensures Q (lock_order env o) s
  unfolding lock_order
  Ensures-lock_order o bad good = Ensures-total env _ (λ _. tt) (λ d. d) bad good

  pub Ensures-mark_cancelled :
      (o : ℕ) {s : Session W}
      → (IsFailing env Call.mark_cancelled s → Q (err (db_error Call.mark_cancelled)) (aborting s))
      → Q (ok tt) (record s { work = add_cancelled o s.work })
      → Ensures Q (mark_cancelled env o) s
  unfolding mark_cancelled
  Ensures-mark_cancelled o bad good = Ensures-total env _ (λ _. tt) (add_cancelled o) bad good

  pub Ensures-update_status_by_order_id :
      (o : ℕ) (status : PaymentStatus) {s : Session W}
      → (IsFailing env Call.update_status_by_order s
          → Q (err (db_error Call.update_status_by_order)) (aborting s))
      → Q (ok tt) (record s { work = set_payments (of_order o) status s.work })
      → Ensures Q (update_status_by_order_id env o status) s
  unfolding update_status_by_order_id
  Ensures-update_status_by_order_id o status bad good =
      Ensures-total env _ (λ _. tt) (set_payments (of_order o) status) bad good

module _ {W : Type 0} (env : Env) where
  pub Ensures-is_cancelled :
      {Q : Result Error Bool → Session W → Type 0} (o : ℕ) {s : Session W}
      → (IsFailing env Call.is_cancelled s → Q (err (db_error Call.is_cancelled)) (aborting s))
      → Q (ok (is_cancelled_in o s.work)) s
      → Ensures Q (is_cancelled env o) s
  unfolding is_cancelled
  Ensures-is_cancelled o bad good = Ensures-total env _ (is_cancelled_in o) (λ d. d) bad good

  pub Ensures-get_by_order_id_for_update :
      {Q : Result Error Payment → Session W → Type 0} (o : ℕ) {s : Session W}
      → (IsFailing env Call.get_payment s → Q (err (db_error Call.get_payment)) (aborting s))
      → (find (of_order o) s.work.payments ≡ none → Q (err payment_not_found) s)
      → ((p : Payment) → find (of_order o) s.work.payments ≡ some p → Q (ok p) s)
      → Ensures Q (get_by_order_id_for_update env o) s
  unfolding get_by_order_id_for_update statement ◌>>=◌
  Ensures-get_by_order_id_for_update o {s} bad missing found =
      elim (Bool-cases (s.aborted || env.fails Call.get_payment)) [
        | inl e ↦ record { at = rw e (bad e) }
        | inr e ↦ elim (Option-cases (find (of_order o) s.work.payments)) [
          | inl q ↦ record { at = rw e (rw q (missing q)) }
          | inr (p, q) ↦ record { at = rw e (rw q (found p q)) }
        ]
      ]

  pub Ensures-update_status_by_intent_id :
      {Q : Result Error (ℕ × String) → Session W → Type 0} (i : String) (status : PaymentStatus)
      {s : Session W}
      → (IsFailing env Call.update_status_by_intent s
          → Q (err (db_error Call.update_status_by_intent)) (aborting s))
      → (find (of_intent i) s.work.payments ≡ none
          → Q
              (err payment_not_found)
              (record s { work = set_payments (of_intent i) status s.work }))
      → ((p : Payment)
          → find (of_intent i) s.work.payments ≡ some p
          → Q
              (ok (p.order_id, p.product_id))
              (record s { work = set_payments (of_intent i) status s.work }))
      → Ensures Q (update_status_by_intent_id env i status) s
  unfolding update_status_by_intent_id statement ◌>>=◌ pure
  Ensures-update_status_by_intent_id i status {s} bad missing found =
      elim (Bool-cases (s.aborted || env.fails Call.update_status_by_intent)) [
        | inl e ↦ record { at = rw e (bad e) }
        | inr e ↦ elim (Option-cases (find (of_intent i) s.work.payments)) [
          | inl q ↦ record { at = rw e (rw q (missing q)) }
          | inr (p, q) ↦ record { at = rw e (rw q (found p q)) }
        ]
      ]
