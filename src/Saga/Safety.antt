-- ===== src/Saga/Safety.antt =====
-- Payments against the cancels that Payment Service has recorded, through runs of the services.
use high_throughput_payments.Base.{List}
use high_throughput_payments.Db.{Db, Env}
use high_throughput_payments.Saga.System.{Services, State, Input, step, run, run_induction}
use high_throughput_payments.Saga.Ran.{
  Ran, unread, ordered, order_cancelled_by, deducted, restocked_cancel, restocked_failure, charged,
  cancelled, settled, step-Ran,
}
use high_throughput_payments.Saga.Consistent.{
  Consistent, Ordering-Consistent, OrderCancelling-Consistent, Deducting-Consistent,
  Restocking-Consistent, Charging-Consistent, Cancelling-Consistent, Settling-Consistent,
}

module _ {W : Type 0} (sv : Services W) where
  pub ran-Consistent : {d d' : Db} {i : Env × Input} → Ran sv d i d' → Consistent d → Consistent d'
  ran-Consistent (unread i) k = k
  ran-Consistent (ordered env doc c) k = Ordering-Consistent c k
  ran-Consistent (order_cancelled_by env text c) k = OrderCancelling-Consistent c k
  ran-Consistent (deducted env doc e o u v c) k = Deducting-Consistent c k
  ran-Consistent (restocked_cancel env doc e o u v c) k = Restocking-Consistent c k
  ran-Consistent (restocked_failure env doc e o u v c) k = Restocking-Consistent c k
  ran-Consistent (charged env doc e o u v c) k = Charging-Consistent c k
  ran-Consistent (cancelled env doc e o u v c) k = Cancelling-Consistent c k
  ran-Consistent (settled env req x out i y c) k = Settling-Consistent c k

  -- One input, whatever it is and whatever fails, keeps the tables consistent.
  pub step-Consistent :
      (i : Env × Input) (t : State W) → Consistent t.db → Consistent (step sv i t).db
  step-Consistent i t = ran-Consistent (step-Ran sv i t)

  -- From consistent tables, after any inputs in any order and with any failures, no payment is
  -- charged whose order Payment Service has recorded as cancelled, by its handler of
  -- order.cancelled, and no order and no intent has two payments.
  pub run-Consistent :
      (is : List (Env × Input)) (t : State W) → Consistent t.db → Consistent (run sv is t).db
  run-Consistent = run_induction sv step-Consistent
