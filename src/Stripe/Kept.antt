-- ===== src/Stripe/Kept.antt =====
-- What a call keeps of the world of Stripe, the retry and the circuit breaker of
-- internal/resilientstripe/client.go keep.
use high_throughput_payments.Base.{
  ℕ, zero, suc, string_eq, ◌≡◌, refl, sym, ap, subst, inl, inr, Bool-cases,
}
use high_throughput_payments.Exec.{Exec, Result, ok, err}
use high_throughput_payments.Db.{Error}
use high_throughput_payments.ResilientStripe.{Retry, Breaker}

module _ {V A : Type 0} (P : V → Type 0) (f : Exec V Error A)
    (keep : (v : V) → P v → P (f v).1) where
  attempted :
      (r : Retry V A) (n : ℕ) (v u : V) (x : Result Error A)
      → f v ≡ (x, u)
      → P u
      → P (r.tries (suc n) f u).1
      → P (r.tries (suc (suc n)) f v).1
  attempted r n v u (ok a) q h rest =
      subst P (sym (ap (λ y. y.1) (r.at_success (suc n) f v u a q))) h
  attempted r n v u (err e) q h rest = elim (r.at_error n f v u e q) [
    | inl l ↦ subst P (sym (ap (λ y. y.1) l)) rest
    | inr l ↦ subst P (sym (ap (λ y. y.1) l.1)) h
  ]

  attempted_last :
      (r : Retry V A) (v u : V) (x : Result Error A) → f v ≡ (x, u) → P u → P (r.tries 1 f v).1
  attempted_last r v u (ok a) q h = subst P (sym (ap (λ y. y.1) (r.at_success zero f v u a q))) h
  attempted_last r v u (err e) q h =
      let (e', l) = r.at_last_error f v u e q in subst P (sym (ap (λ y. y.1) l)) h

  -- what an attempt keeps, all attempts keep
  tries_keep : (r : Retry V A) (n : ℕ) (v : V) → P v → P (r.tries (suc n) f v).1
  tries_keep r zero v h = attempted_last r v (f v).1 (f v).0 refl (keep v h)
  tries_keep r (suc n) v h =
      attempted r n v (f v).1 (f v).0 refl (keep v h) (tries_keep r n (f v).1 (keep v h))

  retry_keeps : (r : Retry V A) (n : ℕ) (v : V) → P v → P (r.do_with_data (suc n) f v).1
  retry_keeps r n v h = elim (Bool-cases (r.is_cancelled v)) [
    | inl c ↦ let (e, q) = r.when_cancelled (suc n) f v c in subst P (sym (ap (λ y. y.1) q)) h
    | inr c ↦ subst P (sym (ap (λ y. y.1) (r.when_active (suc n) f v c))) (tries_keep r n v h)
  ]

  -- and so does the circuit breaker
  pub execute_keeps :
      {B : Type 0} (k : Breaker B V A) (r : Retry V A) (n : ℕ) (b : B) (v : V)
      → P v
      → P (k.execute (r.do_with_data (suc n) f) (b, v)).1.1
  execute_keeps k r n b v h = elim (Bool-cases (k.refuses b)) [
    | inl o ↦
        let (e, b', c, q) = k.when_refused (r.do_with_data (suc n) f) b v o in
        subst P (sym (ap (λ y. y.1.1) q)) h
    | inr o ↦
        let (b', q) = k.when_let_through (r.do_with_data (suc n) f) b v o in
        subst P (sym (ap (λ y. y.1.1) q)) (retry_keeps r n v h)
  ]
