-- ===== src/Interleaving/Sequential.antt =====
-- The handlers of Saga/System, which run one at a time, as the single steps of the interleavings.
use high_throughput_payments.Base.{ℕ, ◌==◌, nat_eq, ==_refl, ◌≡◌, refl, ap, ◌∙◌, false, some, arith}
use high_throughput_payments.Exec.{Result}
use high_throughput_payments.Db.{Db, Env, Error, PaymentStatus, event_type_eq, event_type_discrete}
use high_throughput_payments.PaymentService.Events.{OrderCreatedEvent}
use high_throughput_payments.PaymentService.Handler.{PaymentHandler}
use high_throughput_payments.PaymentService.Handler.Created as Charging
use high_throughput_payments.PaymentService.Handler.Cancelled as Cancelling
use high_throughput_payments.Interleaving.Invariant.{is_success}
use high_throughput_payments.Interleaving.Serial.{Atomic, Effect, none_yet, commits}
use high_throughput_payments.Interleaving.Marks.{
  created_key, cancelled_key, view_created, view_cancelled, view_other, ends, new_payment, no_row,
  order_sym, either_order, is_cancelled-add, is_cancelled-other,
}
use high_throughput_payments.Interleaving.View.{
  status_of, paid_in, view, paid_in-refund, paid_in-other_order, is_success-is_charged,
  charged-status,
}

Charging-own :
    {W : Type 0} {h : PaymentHandler W} {env : Env} {q : ℕ} {e : OrderCreatedEvent} {d : Db} {w : W}
    {r : Result Error (Unit {0})} {d' : Db} {w' : W}
    → Charging.Created h env q e d w r d' w'
    → Effect (view h.consumer_group q d) (view h.consumer_group q d')
unfolding event_type_discrete
Charging-own {h} {q} {d} {d'} (Charging.Created.skipped n c) =
    ends (commits (Atomic.skip n c)) (view_created h.consumer_group q d d' refl refl refl)
Charging-own {h} {q} {d} {d'} (Charging.Created.declined e id c s o n t) =
    ends (commits (Atomic.decline c.fresh c.wanted))
      (view_created h.consumer_group q d d' refl refl refl)
Charging-own {h} {q} {d} {d'} (Charging.Created.succeeded i c s n) =
    ends (commits (Atomic.charge c.fresh c.wanted (no_row q d.payments (ground (arith, n)))))
      (view_created h.consumer_group q d d' (rw (==_refl q) refl) refl refl)
Charging-own _ = none_yet

Charging-other :
    {W : Type 0} {h : PaymentHandler W} {env : Env} {q : ℕ} {e : OrderCreatedEvent} {d : Db} {w : W}
    {r : Result Error (Unit {0})} {d' : Db} {w' : W} (o : ℕ)
    → (o == q) ≡ false
    → Charging.Created h env q e d w r d' w'
    → Effect (view h.consumer_group o d) (view h.consumer_group o d')
Charging-other {h} {q} {d} {d'} o n (Charging.Created.skipped k c) =
    ends none_yet
      (view_other h.consumer_group o (created_key h.consumer_group q) d d' n refl refl refl)
Charging-other {h} {q} {d} {d'} o n (Charging.Created.declined e id c s i k t) =
    ends none_yet
      (view_other h.consumer_group o (created_key h.consumer_group q) d d' n refl refl refl)
Charging-other {h} {q} {d} {d'} o n (Charging.Created.succeeded i c s k) = ends none_yet (
    view_other h.consumer_group o (created_key h.consumer_group q) d d' n refl
      (new_payment o q _ d.payments refl (order_sym o q n)) refl)
Charging-other o n _ = none_yet

pub Charging-Effect :
    {W : Type 0} {h : PaymentHandler W} {env : Env} {q : ℕ} {e : OrderCreatedEvent} {d : Db} {w : W}
    {r : Result Error (Unit {0})} {d' : Db} {w' : W} (o : ℕ)
    → Charging.Created h env q e d w r d' w'
    → Effect (view h.consumer_group o d) (view h.consumer_group o d')
Charging-Effect {h} {q} {e} {d} {d'} o c =
    either_order (λ x. Effect (view h.consumer_group x d) (view h.consumer_group x d')) o q
      (Charging-own c) (λ n. Charging-other o n c)

Cancelling-own :
    {W : Type 0} {h : PaymentHandler W} {env : Env} {q : ℕ} {d : Db} {w : W}
    {r : Result Error (Unit {0})} {d' : Db} {w' : W}
    → Cancelling.Cancelled h env q d w r d' w'
    → Effect (view h.consumer_group q d) (view h.consumer_group q d')
Cancelling-own {h} {q} {d} {d'} (Cancelling.Cancelled.no_payment n f) =
    ends (commits (Atomic.cancel n (ap (λ p. is_success (status_of p)) f)))
      (view_cancelled h.consumer_group q d d' refl (is_cancelled-add q d) refl)
Cancelling-own {h} {q} {d} {d'} (Cancelling.Cancelled.not_charged p n f c) =
    ends
      (commits (Atomic.cancel n (ap (λ p. is_success (status_of p)) f ∙ is_success-is_charged p c)))
      (view_cancelled h.consumer_group q d d' refl (is_cancelled-add q d) refl)
Cancelling-own {h} {q} {d} {d'} (Cancelling.Cancelled.refunded p id n f c s i t) =
    let paid : paid_in q d.payments ≡ some PaymentStatus.succeeded =
      ap status_of f ∙ ap some (charged-status p c) in
    ends (commits (Atomic.cancel_refund n paid)) (
      view_cancelled h.consumer_group q d d'
        (paid_in-refund q PaymentStatus.refunded PaymentStatus.succeeded d.payments paid)
        (is_cancelled-add q d) refl)
Cancelling-own _ = none_yet

Cancelling-other :
    {W : Type 0} {h : PaymentHandler W} {env : Env} {q : ℕ} {d : Db} {w : W}
    {r : Result Error (Unit {0})} {d' : Db} {w' : W} (o : ℕ)
    → (o == q) ≡ false
    → Cancelling.Cancelled h env q d w r d' w'
    → Effect (view h.consumer_group o d) (view h.consumer_group o d')
Cancelling-other {h} {q} {d} {d'} o n (Cancelling.Cancelled.no_payment k f) = ends none_yet (
    view_other h.consumer_group o (cancelled_key h.consumer_group q) d d' n refl refl
      (is_cancelled-other o q d (order_sym o q n)))
Cancelling-other {h} {q} {d} {d'} o n (Cancelling.Cancelled.not_charged p k f c) = ends none_yet (
    view_other h.consumer_group o (cancelled_key h.consumer_group q) d d' n refl refl
      (is_cancelled-other o q d (order_sym o q n)))
Cancelling-other {h} {q} {d} {d'} o n (Cancelling.Cancelled.refunded p id k f c s i t) =
    ends none_yet (
      view_other h.consumer_group o (cancelled_key h.consumer_group q) d d' n refl
        (paid_in-other_order o q PaymentStatus.refunded d.payments (order_sym o q n))
        (is_cancelled-other o q d (order_sym o q n)))
Cancelling-other o n _ = none_yet

pub Cancelling-Effect :
    {W : Type 0} {h : PaymentHandler W} {env : Env} {q : ℕ} {d : Db} {w : W}
    {r : Result Error (Unit {0})} {d' : Db} {w' : W} (o : ℕ)
    → Cancelling.Cancelled h env q d w r d' w'
    → Effect (view h.consumer_group o d) (view h.consumer_group o d')
Cancelling-Effect {h} {q} {d} {d'} o c =
    either_order (λ x. Effect (view h.consumer_group x d) (view h.consumer_group x d')) o q
      (Cancelling-own c) (λ n. Cancelling-other o n c)
