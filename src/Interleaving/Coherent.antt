-- ===== src/Interleaving/Coherent.antt =====
-- Every statement of every handler keeps the interleavings coherent.
mod Booleans
mod Charge
mod Cancel
pub mod Webhook
use high_throughput_payments.Base.{
  ◌≡◌, refl, sym, ◌∙◌, ap, Bool, true, false, not, ◌&&◌, Option, none, some, List, [], ◌∷◌,
  if_split, arith,
}
use high_throughput_payments.Db.{PaymentStatus}
use high_throughput_payments.Interleaving.{
  Tables, ChargePc, CancelPc, WebhookPc, Report, State, Answer, Move, charge_locks, cancel_locks,
  cancel_locks_row, webhook_locks_row, seen_created, with_payment, with_report, reported_status,
  is_seen, after_fetch, first_update, after_check, charge_from, cancel_from, webhook_from, advance,
  or_wait, step, run,
}
use high_throughput_payments.Interleaving.Invariant.{
  is_some, is_success, is_refunded, cancel_fetched, ChargeIn, CancelIn, WebhookIn, IsCoherent,
  ChargeOk-unlocked, ChargeOk-has_payment, CancelOk-unfetched, fetched-locks, seen_of, seen_of,
  CancelOk-refund, WebhookOk-unlocked, WebhookOk-no_payment,
}
use high_throughput_payments.Interleaving.Coherent.Charge.{charge_from-IsCoherent, charge_fails_lem}
use high_throughput_payments.Interleaving.Coherent.Cancel.{cancel_from-IsCoherent, cancel_fails_lem}
use high_throughput_payments.Interleaving.Coherent.Webhook.{
  webhook_from-IsCoherent, webhook_fails_lem,
}

pub advance-IsCoherent :
    (m : Move) (s : State) → IsCoherent s → IsCoherent (or_wait s (advance m s))
unfolding advance
advance-IsCoherent (Move.charge_moves a) s k = charge_from-IsCoherent s.charge a s k
advance-IsCoherent Move.cancel_moves s k = cancel_from-IsCoherent s.cancel s k
advance-IsCoherent (Move.webhook_moves r) s k = webhook_from-IsCoherent s.webhook r s k
advance-IsCoherent Move.charge_fails s k = charge_fails_lem s k
advance-IsCoherent Move.cancel_fails s k = cancel_fails_lem s k
advance-IsCoherent Move.webhook_fails s k = webhook_fails_lem s k

-- From coherent transactions on an order, after any of their statements and errors in any order:
-- a payment that succeeded belongs to an order that is not cancelled, a payment marked as refunded
-- was refunded at Stripe, and what each open transaction has read under its locks still holds.
pub run-IsCoherent : (ms : List Move) (s : State) → IsCoherent s → IsCoherent (run ms s)
unfolding run step
run-IsCoherent [] s k = k
run-IsCoherent (m ∷ ms) s k = run-IsCoherent ms (or_wait s (advance m s)) (advance-IsCoherent m s k)
