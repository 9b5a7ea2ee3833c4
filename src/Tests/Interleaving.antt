-- ===== src/Tests/Interleaving.antt =====
-- Interleaved transactions on one order, run.
use high_throughput_payments.Base.{
  ℕ, ◌==◌, nat_eq, if◌then◌else◌, List, [], ◌∷◌, ◌≡◌, refl, false, some, arith,
}
use high_throughput_payments.Db.{PaymentStatus}
use high_throughput_payments.Interleaving.{
  Report, Answer, Move, initial, run, step, advance, charge_from, cancel_from, webhook_from,
}
use high_throughput_payments.Interleaving.Invariant.{IsCoherent}
use high_throughput_payments.Interleaving.Coherent.{run-IsCoherent}
use high_throughput_payments.Interleaving.Serial.{Serial, run-Serial}
use high_throughput_payments.Interleaving.Progress.{StatementResult, is_open, drain, drain_lem}

initial-IsCoherent : IsCoherent initial
initial-IsCoherent = record {
  order_lock = refl;
  row_lock = refl;
  charge_in = tt;
  cancel_in = tt;
  webhook_in = tt;
  no_conflict = refl;
  refund_made = refl;
}

-- a charge, a cancel that waits for it at the lock, and Stripe's report
abbrev race : List Move
race =
    Move.charge_moves Answer.accepted
    ∷ Move.charge_moves Answer.accepted
    ∷ Move.cancel_moves
    ∷ Move.cancel_moves
    ∷ Move.charge_moves Answer.accepted
    ∷ Move.charge_moves Answer.accepted
    ∷ Move.charge_moves Answer.accepted
    ∷ Move.cancel_moves
    ∷ Move.charge_moves Answer.accepted
    ∷ Move.webhook_moves Report.success
    ∷ Move.webhook_moves Report.success
    ∷ Move.webhook_moves Report.success
    ∷ Move.cancel_moves
    ∷ Move.cancel_moves
    ∷ Move.cancel_moves
    ∷ Move.webhook_moves Report.success
    ∷ Move.webhook_moves Report.success
    ∷ Move.cancel_moves
    ∷ Move.cancel_moves
    ∷ Move.cancel_moves
    ∷ Move.cancel_moves
    ∷ []

-- the webhook comes before the cancel has read the payment, which is then refunded
race_refunds : (run race initial).tables.payment ≡ some PaymentStatus.refunded
unfolding run step advance charge_from cancel_from webhook_from
race_refunds = refl

run-IsCoherent_example : IsCoherent (run race initial)
run-IsCoherent_example = run-IsCoherent race initial initial-IsCoherent

run-Serial_example : Serial initial.tables (run race initial).tables
run-Serial_example = run-Serial race initial initial-IsCoherent

-- a charge that has begun, which Stripe declines
abbrev begun : List Move
begun = Move.charge_moves Answer.accepted ∷ Move.cancel_moves ∷ []

-- the second statement fails
abbrev results : ℕ → StatementResult
results n = if n == 9 then StatementResult.fails else StatementResult.carried_out Answer.declined

drain_lem_example : is_open (drain 11 results (run begun initial)) ≡ false
unfolding run step advance charge_from cancel_from
drain_lem_example =
    drain_lem 11 results (run begun initial) (run-IsCoherent begun initial initial-IsCoherent)
      (omega arith)
