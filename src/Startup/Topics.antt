-- ===== src/Startup/Topics.antt =====
-- The connections and the topics of `EnsureTopic` (internal/outbox/topics.go).
use high_throughput_payments.Base.{ℕ, String, string_eq, ◌≡◌, ◌∙◌, ◌∷◌}
use high_throughput_payments.Exec.{Result, ok, err, ◌>>=◌}
use high_throughput_payments.Exec.Ensures.{Ensures, Ensures-bind}
use high_throughput_payments.Db.{EventType}
use high_throughput_payments.Startup.{Fatal, Platform, defer_to, ensure_topic}
use high_throughput_payments.Startup.Documented.{Documented, Ensures-call, Ensures-defer_to}

module _ {W C : Type 0} (p : Platform W C) (k : Documented p) where
  abbrev pub Keeps : W → W → Type 0
  Keeps w w' = (t : EventType) → k.Exists t w → k.Exists t w'

  abbrev pub OnOk : {A : Type 0} → Result Fatal A → Type 0 → Type 0
  OnOk (ok _) P = P
  OnOk (err _) P = Unit {0}

  -- the connections are those of before, topics stay, and on success the topic exists
  abbrev pub Made : EventType → W → Result Fatal (Unit {0}) → W → Type 0
  Made t w r w' = (k.connections w' ≡ k.connections w) × Keeps w w' × OnOk r (k.Exists t w')

  created_by :
      (c : C) (t : EventType) (n : ℕ) (w w' : W) (r : Result Fatal (Unit {0}))
      → p.create_topics c t n w ≡ (r, w')
      → OnOk r (k.Exists t (p.close c w'))
  created_by c t n w w' (ok _) q = k.close_topics c t w' (k.created c t n w w' q)
  created_by c t n w w' (err e) q = tt

  module _ (t : EventType) (n : ℕ) (w : W) (conn : C) where
    -- the first connection is open, and closed at the end
    abbrev Open : W → Type 0
    Open w' = (k.connections w' ≡ conn ∷ k.connections w) × Keeps w w'

    closed :
        (r : Result Fatal (Unit {0})) (w' : W)
        → Open w'
        → OnOk r (k.Exists t w')
        → Made t w r (p.close conn w')
    closed r w' o x =
        (k.close_ends conn w' _ o.0, (λ u e. k.close_topics conn u w' (o.1 u e)), made r x)
      where
        made :
            (r : Result Fatal (Unit {0}))
            → OnOk r (k.Exists t w')
            → OnOk r (k.Exists t (p.close conn w'))
        made (ok _) e = k.close_topics conn t w' e
        made (err e) x = tt

    -- a second connection, and the call of CreateTopics on it
    second :
        (a : String) (c : C) (w2 w3 w4 : W) (r : Result Fatal (Unit {0}))
        → Open w2
        → p.dial a w2 ≡ (ok c, w3)
        → p.create_topics c t n w3 ≡ (r, w4)
        → Open (p.close c w4)
    second a c w2 w3 w4 r o q q4 = (
      k.close_ends c w4 _ (k.create_keeps c t n w3 w4 r q4 ∙ k.dial_opens a w2 w3 c q) ∙ o.0,
      λ u e.
          k.close_topics c u w4
            (k.create_keeps_topics c t u n w3 w4 r q4 (k.dial_topics a u w2 w3 (ok c) q (o.1 u e))),
    )

    controller-Made :
        (host : String × ℕ) (w2 : W)
        → Open w2
        → Ensures
            (λ r w'. Made t w r (p.close conn w'))
            (p.dial (p.address host.0 host.1) >>= λ c. defer_to (p.close c) (p.create_topics c t n))
            w2
    controller-Made host w2 o = Ensures-bind _ _ (
        Ensures-call
          (λ c w3 q. Ensures-defer_to _ _ (
            Ensures-call
              (λ x w4 q4.
                closed (ok x) (p.close c w4) (second _ c w2 w3 w4 (ok x) o q q4)
                  (k.close_topics c t w4 (k.created c t n w3 w4 q4)))
              (λ e w4 q4. closed (err e) (p.close c w4) (second _ c w2 w3 w4 (err e) o q q4) tt)))
          (λ e w3 q.
            closed (err e) w3
              (k.dial_fails _ w2 w3 e q ∙ o.0, λ u x. k.dial_topics _ u w2 w3 (err e) q (o.1 u x))
              tt))

  -- Whatever fails in it, EnsureTopic leaves open the connections that were open before it, and no
  -- other, and no topic is lost; if it returns no error, the topic exists.
  pub ensure_topic-Made :
      (broker : String) (t : EventType) (n : ℕ) (w : W)
      → Ensures (Made t w) (ensure_topic p broker t n) w
  unfolding ensure_topic
  ensure_topic-Made broker t n w = Ensures-bind _ _ (
      Ensures-call
        (λ conn w1 q. Ensures-defer_to _ _ (
          Ensures-bind _ _ (
            Ensures-call
              (λ host w2 q2. controller-Made t n w conn host w2 (asked conn w1 w2 (ok host) q q2))
              (λ e w2 q2. closed t n w conn (err e) w2 (asked conn w1 w2 (err e) q q2) tt))))
        (λ e w1 q.
          (k.dial_fails broker w w1 e q, (λ u x. k.dial_topics broker u w w1 (err e) q x), tt)))
    where
      asked :
          (conn : C) (w1 w2 : W) (r : Result Fatal (String × ℕ))
          → p.dial broker w ≡ (ok conn, w1)
          → p.controller conn w1 ≡ (r, w2)
          → Open t n w conn w2
      asked conn w1 w2 r q q2 = (
        k.controller_keeps conn w1 w2 r q2 ∙ k.dial_opens broker w w1 conn q,
        λ u x. k.controller_topics conn u w1 w2 r q2 (k.dial_topics broker u w w1 (ok conn) q x),
      )
