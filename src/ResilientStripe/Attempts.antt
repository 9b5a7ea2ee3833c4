-- ===== src/ResilientStripe/Attempts.antt =====
-- How often the client of internal/resilientstripe/client.go calls Stripe, and what its success means.
use high_throughput_payments.Base.{
  ℕ, zero, suc, ◌+◌, ◌≤◌, String, ◌≡◌, refl, ap, ◌∙◌, sym, subst, Bool-cases, inl, inr, arith,
}
use high_throughput_payments.Base.Int.{ℤ}
use high_throughput_payments.Exec.{Exec, Result, ok, err}
use high_throughput_payments.Db.{Error}
use high_throughput_payments.ResilientStripe.{
  Retry, Breaker, Client, create_and_confirm_payment_intent, refund_payment_intent,
}

-- what `calls` counts of the world goes up by one with each call of Stripe
abbrev pub Counts : {V A : Type 0} → (V → ℕ) → Exec V Error A → Type 0
Counts {V} calls f = (v : V) → calls (f v).1 ≡ suc (calls v)

-- Of a run from `v`: it has made at most `n` calls, and if it reports a success, that is the answer of
-- the call that it made last.
module _ {V A : Type 0} (calls : V → ℕ) (f : Exec V Error A) (v : V) where
  abbrev pub Tried : ℕ → Result Error A × V → Type 0
  Tried n (ok a, v') = (calls v' ≤ calls v + n) × ((u : V) × (f u ≡ (ok a, v')))
  Tried n (err e, v') = calls v' ≤ calls v + n

module _ {V A : Type 0} (calls : V → ℕ) (f : Exec V Error A) (k : Counts calls f) where
  counted : (v u : V) (x : Result Error A) → f v ≡ (x, u) → calls u ≡ suc (calls v)
  counted v u x q = ap (λ y. calls y.1) (sym q) ∙ k v

  -- one more call before the others
  one_more :
      (n : ℕ) (v u : V) (x : Result Error A × V)
      → calls u ≡ suc (calls v)
      → Tried calls f u n x
      → Tried calls f v (suc n) x
  one_more n v u (ok a, v') c (h, w) = (omega (arith, c, h), w)
  one_more n v u (err e, v') c h = omega (arith, c, h)

  module _ (r : Retry V A) where
    last_try : (v u : V) (x : Result Error A) → f v ≡ (x, u) → Tried calls f v 1 (r.tries 1 f v)
    last_try v u (ok a) q =
        subst (Tried calls f v 1) (sym (r.at_success zero f v u a q))
          (omega (arith, counted v u (ok a) q), (v, q))
    last_try v u (err e) q =
        let (e', l) = r.at_last_error f v u e q in
        subst (Tried calls f v 1) (sym l) (omega (arith, counted v u (err e) q))

    first_try :
        (n : ℕ) (v u : V) (x : Result Error A)
        → f v ≡ (x, u)
        → Tried calls f u (suc n) (r.tries (suc n) f u)
        → Tried calls f v (suc (suc n)) (r.tries (suc (suc n)) f v)
    first_try n v u (ok a) q rest =
        subst (Tried calls f v (suc (suc n))) (sym (r.at_success (suc n) f v u a q))
          (omega (arith, counted v u (ok a) q), (v, q))
    first_try n v u (err e) q rest = elim (r.at_error n f v u e q) [
      | inl l ↦
          subst (Tried calls f v (suc (suc n))) (sym l)
            (one_more (suc n) v u (r.tries (suc n) f u) (counted v u (err e) q) rest)
      | inr l ↦
          subst (Tried calls f v (suc (suc n))) (sym l.1) (omega (arith, counted v u (err e) q))
    ]

    tries-Tried : (n : ℕ) (v : V) → Tried calls f v (suc n) (r.tries (suc n) f v)
    tries-Tried zero v = last_try v (f v).1 (f v).0 refl
    tries-Tried (suc n) v = first_try n v (f v).1 (f v).0 refl (tries-Tried n (f v).1)

    retry-Tried : (n : ℕ) (v : V) → Tried calls f v (suc n) (r.do_with_data (suc n) f v)
    retry-Tried n v = elim (Bool-cases (r.is_cancelled v)) [
      | inl c ↦
          let (e, q) = r.when_cancelled (suc n) f v c in
          subst (Tried calls f v (suc n)) (sym q) (omega arith)
      | inr c ↦
          subst (Tried calls f v (suc n)) (sym (r.when_active (suc n) f v c)) (tries-Tried n v)
    ]

    execute-Tried :
        {B : Type 0} (b : Breaker B V A) (n : ℕ) (s : B) (v : V)
        → let (x, w) = b.execute (r.do_with_data (suc n) f) (s, v) in
          Tried calls f v (suc n) (x, w.1)
    execute-Tried b n s v = elim (Bool-cases (b.refuses s)) [
      | inl o ↦
          let (e, s', c, q) = b.when_refused (r.do_with_data (suc n) f) s v o in
          subst (λ y. Tried calls f v (suc n) (y.0, y.1.1)) (sym q) (omega arith)
      | inr o ↦
          let (s', q) = b.when_let_through (r.do_with_data (suc n) f) s v o in
          subst (λ y. Tried calls f v (suc n) (y.0, y.1.1)) (sym q) (retry-Tried n v)
    ]

-- A charge or a refund of the client calls Stripe at most four times, whatever the circuit, the context
-- and Stripe do; and it reports a success only after a call that succeeded, with the answer of that
-- call and with Stripe as that call left it.
pub client-Tried :
    {B V : Type 0} (c : Client B V) (calls : V → ℕ) (amount : ℤ) (order_id intent_id : String)
    (b : B) (v : V)
    → Counts calls (c.inner.create_and_confirm amount order_id)
    → Counts calls (c.inner.refund_payment_intent intent_id)
    → let (x, w) = create_and_confirm_payment_intent c amount order_id (b, v) in
      let (y, u) = refund_payment_intent c intent_id (b, v) in
      Tried calls (c.inner.create_and_confirm amount order_id) v 4 (x, w.1)
      × Tried calls (c.inner.refund_payment_intent intent_id) v 4 (y, u.1)
client-Tried c calls amount order_id intent_id b v k l = (
  execute-Tried calls (c.inner.create_and_confirm amount order_id) k c.retry c.breaker 3 b v,
  execute-Tried calls (c.inner.refund_payment_intent intent_id) l c.refund_retry c.refund_breaker 3
      b v,
)
