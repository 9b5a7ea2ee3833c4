-- ===== src/Saga/Accounting.antt =====
-- The stock of a product against the events of the outbox, through runs of the services.
use high_throughput_payments.Base.{ℕ, String, List}
use high_throughput_payments.Db.{Db, Env}
use high_throughput_payments.Saga.System.{Services, State, Input, run, run_induction}
use high_throughput_payments.Saga.Ran.{
  Ran, unread, ordered, order_cancelled_by, deducted, restocked_cancel, restocked_failure, charged,
  cancelled, settled, step-Ran,
}
use high_throughput_payments.Saga.Stock.{
  Balanced, Ordering-Balanced, OrderCancelling-Balanced, Deducting-Balanced, Restocking-Balanced,
  Charging-Balanced, Cancelling-Balanced, Settling-Balanced,
}

module _ {W : Type 0} (sv : Services W) (q : String) (u : ℕ) where
  ran-Balanced : {d d' : Db} {i : Env × Input} → Ran sv d i d' → Balanced q u d → Balanced q u d'
  ran-Balanced (unread i) k = k
  ran-Balanced (ordered env doc c) k = Ordering-Balanced q u c k
  ran-Balanced (order_cancelled_by env text c) k = OrderCancelling-Balanced q u c k
  ran-Balanced (deducted env doc e o x y c) k = Deducting-Balanced q u c k
  ran-Balanced (restocked_cancel env doc e o x y c) k = Restocking-Balanced q u c k
  ran-Balanced (restocked_failure env doc e o x y c) k = Restocking-Balanced q u c k
  ran-Balanced (charged env doc e o x y c) k = Charging-Balanced q u c k
  ran-Balanced (cancelled env doc e o x y c) k = Cancelling-Balanced q u c k
  ran-Balanced (settled env req x out i y c) k = Settling-Balanced q u x y c k

  -- If a product has one row, and its stock and the inventory.deducted events written for it
  -- together make `u` and the inventory.restocked events written for it, then they still do after
  -- any inputs, in any order and with any failures.
  pub run-Balanced :
      (is : List (Env × Input)) (t : State W) → Balanced q u t.db → Balanced q u (run sv is t).db
  run-Balanced = run_induction sv (λ i t. ran-Balanced (step-Ran sv i t))
