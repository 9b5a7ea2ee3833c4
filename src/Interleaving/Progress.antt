-- ===== src/Interleaving/Progress.antt =====
-- Open transactions on an order come to an end: a schedule, and the statements that are left.
use high_throughput_payments.Base.{
  ℕ, zero, suc, ◌+◌, ◌≤◌, ◌<◌, ◌≡◌, refl, Bool, true, false, not, ◌&&◌, ◌||◌, none, some, if_split,
  if◌then◌else◌, arith,
}
use high_throughput_payments.Db.{PaymentStatus}
use high_throughput_payments.Interleaving.{
  ChargePc, CancelPc, WebhookPc, Report, State, Answer, Move, charge_locks, cancel_locks,
  webhook_locks_row, charge_from, cancel_from, webhook_from, advance, or_wait, step,
}
use high_throughput_payments.Interleaving.Invariant.{IsCoherent}
use high_throughput_payments.Interleaving.Coherent.{advance-IsCoherent}

-- the statements that a transaction has left at most
abbrev pub charge_left : ChargePc → ℕ
charge_left ChargePc.idle = 0
charge_left ChargePc.marked = 5
charge_left ChargePc.locked = 4
charge_left ChargePc.checked = 3
charge_left ChargePc.accepted = 2
charge_left ChargePc.declined = 2
charge_left ChargePc.skipping = 1
charge_left ChargePc.inserted = 1
charge_left ChargePc.announced = 1

abbrev pub cancel_left : CancelPc → ℕ
cancel_left CancelPc.idle = 0
cancel_left CancelPc.marked = 6
cancel_left CancelPc.locked = 5
cancel_left CancelPc.recorded = 4
cancel_left (CancelPc.fetched _) = 3
cancel_left CancelPc.refund_made = 2
cancel_left CancelPc.refund_recorded = 1

abbrev pub webhook_left : WebhookPc → ℕ
webhook_left WebhookPc.idle = 0
webhook_left (WebhookPc.updated _) = 5
webhook_left (WebhookPc.marked _) = 4
webhook_left (WebhookPc.checked _ _) = 3
webhook_left WebhookPc.refund_made = 2
webhook_left WebhookPc.refund_recorded = 1
webhook_left (WebhookPc.announced _) = 1

abbrev pub statements_left : State → ℕ
statements_left s = charge_left s.charge + cancel_left s.cancel + webhook_left s.webhook

abbrev pub charge_open : ChargePc → Bool
charge_open ChargePc.idle = false
charge_open _ = true

abbrev pub cancel_open : CancelPc → Bool
cancel_open CancelPc.idle = false
cancel_open _ = true

-- a transaction is open
abbrev pub is_open : State → Bool
is_open s = webhook_locks_row s.webhook || charge_open s.charge || cancel_open s.cancel

-- What becomes of a statement: it is carried out, with Stripe's answer if it is the charge's call, or
-- it fails, as the call of a refund that Stripe refuses, and ends its transaction.
pub data StatementResult : Type 0 where
  carried_out : Answer → StatementResult
  fails : StatementResult

abbrev pub charge_move : StatementResult → Move
charge_move (StatementResult.carried_out a) = Move.charge_moves a
charge_move StatementResult.fails = Move.charge_fails

abbrev pub cancel_move : StatementResult → Move
cancel_move (StatementResult.carried_out _) = Move.cancel_moves
cancel_move StatementResult.fails = Move.cancel_fails

abbrev pub webhook_move : StatementResult → Move
webhook_move (StatementResult.carried_out _) = Move.webhook_moves Report.success
webhook_move StatementResult.fails = Move.webhook_fails

-- the transaction that holds what the others may wait for
abbrev pub pick : StatementResult → State → Move
pick r s =
    if webhook_locks_row s.webhook
    then webhook_move r
    else if cancel_locks s.cancel
    then cancel_move r
    else if charge_open s.charge
    then charge_move r
    else cancel_move r

-- Nothing new begins, and the statements end as `results` says.
unfoldable pub drain : ℕ → (ℕ → StatementResult) → State → State
drain zero results s = s
drain (suc n) results s = if is_open s then drain n results (step (pick (results n) s) s) else s

abbrev Shorter : State → State → Type 0
Shorter s s' = statements_left s' < statements_left s

charge_shortens :
    (pc : ChargePc) (a : Answer) (s : State)
    → cancel_locks s.cancel ≡ false
    → charge_open pc ≡ true
    → Shorter
        (record s { charge = pc })
        (or_wait (record s { charge = pc }) (charge_from pc a (record s { charge = pc })))
unfolding charge_from
charge_shortens ChargePc.idle a s l o = cc
charge_shortens ChargePc.marked a s l o = rw l (omega arith)
charge_shortens ChargePc.locked a s l o = ground arith
charge_shortens ChargePc.checked Answer.accepted s l o = omega arith
charge_shortens ChargePc.checked Answer.declined s l o = omega arith
charge_shortens ChargePc.checked Answer.circuit_open s l o = omega arith
charge_shortens ChargePc.accepted a s l o = ground arith
charge_shortens _ a s l o = omega arith

cancel_shortens :
    (pc : CancelPc) (s : State)
    → (charge_locks s.charge && cancel_locks pc) ≡ false
    → (cancel_locks pc || not (charge_open s.charge)) ≡ true
    → webhook_locks_row s.webhook ≡ false
    → cancel_open pc ≡ true
    → Shorter
        (record s { cancel = pc })
        (or_wait (record s { cancel = pc }) (cancel_from pc (record s { cancel = pc })))
unfolding cancel_from
cancel_shortens CancelPc.idle s k c w o = cc
cancel_shortens CancelPc.marked s k c w o = rw (unlocked s.charge c) (omega arith)
  where
    unlocked : (pc : ChargePc) → not (charge_open pc) ≡ true → charge_locks pc ≡ false
    unlocked ChargePc.idle h = refl
    unlocked ChargePc.marked h = refl
    unlocked _ h = cc
cancel_shortens CancelPc.locked s k c w o = omega arith
cancel_shortens CancelPc.recorded s k c w o = rw w (omega arith)
cancel_shortens (CancelPc.fetched none) s k c w o = omega arith
cancel_shortens (CancelPc.fetched (some PaymentStatus.pending)) s k c w o = omega arith
cancel_shortens (CancelPc.fetched (some PaymentStatus.succeeded)) s k c w o = omega arith
cancel_shortens (CancelPc.fetched (some PaymentStatus.failed)) s k c w o = omega arith
cancel_shortens (CancelPc.fetched (some PaymentStatus.refunded)) s k c w o = omega arith
cancel_shortens CancelPc.refund_made s k c w o = omega arith
cancel_shortens CancelPc.refund_recorded s k c w o = omega arith

webhook_shortens :
    (pc : WebhookPc) (r : Report) (s : State)
    → webhook_locks_row pc ≡ true
    → Shorter
        (record s { webhook = pc })
        (or_wait (record s { webhook = pc }) (webhook_from pc r (record s { webhook = pc })))
unfolding webhook_from
webhook_shortens WebhookPc.idle r s o = cc
webhook_shortens (WebhookPc.updated x) r s o = ground arith
webhook_shortens (WebhookPc.marked x) r s o = omega arith
webhook_shortens (WebhookPc.checked x false) r s o = omega arith
webhook_shortens (WebhookPc.checked Report.success true) r s o = omega arith
webhook_shortens (WebhookPc.checked Report.failure true) r s o = omega arith
webhook_shortens WebhookPc.refund_made r s o = omega arith
webhook_shortens WebhookPc.refund_recorded r s o = omega arith
webhook_shortens (WebhookPc.announced x) r s o = omega arith

-- an open transaction has a statement left, so that its end by an error is progress
charge_goes : (pc : ChargePc) → charge_open pc ≡ true → 0 < charge_left pc
charge_goes ChargePc.idle o = cc
charge_goes _ o = omega arith

cancel_goes : (pc : CancelPc) → cancel_open pc ≡ true → 0 < cancel_left pc
cancel_goes CancelPc.idle o = cc
cancel_goes _ o = omega arith

webhook_goes : (pc : WebhookPc) → webhook_locks_row pc ≡ true → 0 < webhook_left pc
webhook_goes WebhookPc.idle o = cc
webhook_goes _ o = omega arith

After : State → Move → Type 0
After s m = Shorter s (or_wait s (advance m s))

module _ (s : State) where
  webhook-Shorter :
      (r : StatementResult) → webhook_locks_row s.webhook ≡ true → After s (webhook_move r)
  unfolding After advance
  webhook-Shorter (StatementResult.carried_out _) w = webhook_shortens s.webhook Report.success s w
  webhook-Shorter StatementResult.fails w = omega (arith, webhook_goes s.webhook w)

  charge-Shorter :
      (r : StatementResult)
      → cancel_locks s.cancel ≡ false
      → charge_open s.charge ≡ true
      → After s (charge_move r)
  unfolding After advance
  charge-Shorter (StatementResult.carried_out a) c o = charge_shortens s.charge a s c o
  charge-Shorter StatementResult.fails c o = omega (arith, charge_goes s.charge o)

  cancel-Shorter :
      (r : StatementResult)
      → IsCoherent s
      → (cancel_locks s.cancel || not (charge_open s.charge)) ≡ true
      → webhook_locks_row s.webhook ≡ false
      → cancel_open s.cancel ≡ true
      → After s (cancel_move r)
  unfolding After advance
  cancel-Shorter (StatementResult.carried_out _) k c w o =
      cancel_shortens s.cancel s k.order_lock c w o
  cancel-Shorter StatementResult.fails k c w o = omega (arith, cancel_goes s.cancel o)

  cancel_holds : (pc : CancelPc) → cancel_locks pc ≡ true → cancel_open pc ≡ true
  cancel_holds CancelPc.idle l = cc
  cancel_holds _ l = refl

  pick-Shorter :
      (r : StatementResult) → IsCoherent s → is_open s ≡ true → Shorter s (step (pick r s) s)
  unfolding step After
  pick-Shorter r k o =
      if_split (After s) (webhook_locks_row s.webhook) _ _ (webhook-Shorter r) (λ w.
        if_split (After s) (cancel_locks s.cancel) _ _
          (λ c. cancel-Shorter r k (ground (arith, c)) w (cancel_holds s.cancel c))
          (λ c.
            if_split (After s) (charge_open s.charge) _ _ (charge-Shorter r c)
              (λ h. cancel-Shorter r k (ground (arith, h)) w (ground (arith, o, w, h)))))

charge_ended : (pc : ChargePc) → charge_left pc ≤ 0 → charge_open pc ≡ false
charge_ended ChargePc.idle h = refl
charge_ended _ h = absurd (omega (arith, h))

cancel_ended : (pc : CancelPc) → cancel_left pc ≤ 0 → cancel_open pc ≡ false
cancel_ended CancelPc.idle h = refl
cancel_ended _ h = absurd (omega (arith, h))

webhook_ended : (pc : WebhookPc) → webhook_left pc ≤ 0 → webhook_locks_row pc ≡ false
webhook_ended WebhookPc.idle h = refl
webhook_ended _ h = absurd (omega (arith, h))

ended : (s : State) → statements_left s ≤ 0 → is_open s ≡ false
ended s h =
    let a : charge_open s.charge ≡ false = charge_ended s.charge (omega (arith, h)) in
    let b : cancel_open s.cancel ≡ false = cancel_ended s.cancel (omega (arith, h)) in
    let c : webhook_locks_row s.webhook ≡ false = webhook_ended s.webhook (omega (arith, h)) in
    ground (arith, a, b, c)

-- From coherent transactions on an order: when nothing new begins, and a transaction moves that
-- holds what the others may wait for, all of them have ended after as many statements as they have
-- left, whatever Stripe answers to the charge and whichever statements fail, the calls of a refund
-- among them. No two of them wait for one another.
pub drain_lem :
    (n : ℕ) (results : ℕ → StatementResult) (s : State)
    → IsCoherent s
    → statements_left s ≤ n
    → is_open (drain n results s) ≡ false
unfolding drain step
drain_lem zero results s k h = ended s h
drain_lem (suc n) results s k h =
    if_split (λ s'. is_open s' ≡ false) (is_open s) _ _
      (λ o.
        drain_lem n results (step (pick (results n) s) s)
          (advance-IsCoherent (pick (results n) s) s k)
          (let shorter : Shorter s (step (pick (results n) s) s) = pick-Shorter s (results n) k o in
            omega (arith, shorter, h)))
      (λ o. o)
