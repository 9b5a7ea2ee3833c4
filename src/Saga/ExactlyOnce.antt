-- ===== src/Saga/ExactlyOnce.antt =====
-- How often Inventory Service acts on an order, through runs of the services.
use high_throughput_payments.Base.{ℕ, List, refl}
use high_throughput_payments.Db.{Db, Env}
use high_throughput_payments.Saga.System.{Services, State, Input, run, run_induction}
use high_throughput_payments.Saga.Ran.{
  Ran, unread, ordered, order_cancelled_by, deducted, restocked_cancel, restocked_failure, charged,
  cancelled, settled, step-Ran,
}
use high_throughput_payments.Saga.Counts.{
  Once, Deduction-Once, Compensated-Once, Restored-Once, Ordered-Once, OrderCancelled-Once,
  Charged-Once, Cancelled-Once, Settled-Once,
}

module _ {W : Type 0} (sv : Services W) (o : ℕ) where
  ran-Once : {d d' : Db} {i : Env × Input} → Ran sv d i d' → Once sv.uuids o d → Once sv.uuids o d'
  ran-Once (unread i) k = k
  ran-Once (ordered env doc c) k = Ordered-Once sv.uuids o c k
  ran-Once (order_cancelled_by env text c) k = OrderCancelled-Once sv.uuids o c k
  ran-Once (deducted env doc e n u v c) k = Deduction-Once sv.uuids o refl v c k
  ran-Once (restocked_cancel env doc e n u v c) k = Compensated-Once sv.uuids o refl v c k
  ran-Once (restocked_failure env doc e n u v c) k = Restored-Once sv.uuids o refl v c k
  ran-Once (charged env doc e n u v c) k = Charged-Once sv.uuids o refl c k
  ran-Once (cancelled env doc e n u v c) k = Cancelled-Once sv.uuids o refl c k
  ran-Once (settled env req x out i y c) k = Settled-Once sv.uuids o x y c k

  -- If the tables hold one inventory.deducted or inventory.failed for the order when Inventory
  -- Service has processed its order.created, and none when it has not, and one inventory.restocked
  -- for each of its order.cancelled and payment.failed that was processed, then they still do after
  -- any inputs, in any order, repeated and with any failures. An event's order is what its key
  -- parses to.
  pub run-Once :
      (is : List (Env × Input)) (t : State W)
      → Once sv.uuids o t.db
      → Once sv.uuids o (run sv is t).db
  run-Once = run_induction sv (λ i t. ran-Once (step-Ran sv i t))
