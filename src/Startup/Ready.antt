-- ===== src/Startup/Ready.antt =====
-- What a service that has started has opened and created (the `main` functions, with
-- internal/db/postgres.go).
use high_throughput_payments.Base.{
  ℕ, String, ◌==◌, string_eq, ◌≡◌, refl, ap, ◌∙◌, List, [], ◌∷◌, if_split, All,
}
use high_throughput_payments.Exec.{Result, ok, err, pure, ◌>>=◌}
use high_throughput_payments.Exec.Ensures.{
  Ensures, Continues, Ensures-bind, Ensures-pure, Ensures-fail, Ensures-attempt,
}
use high_throughput_payments.Db.{
  EventType, order_created, order_cancelled, payment_completed, payment_failed, payment_refunded,
  inventory_deducted, inventory_failed, inventory_restocked,
}
use high_throughput_payments.Startup.{
  Fatal, missing_secret, Platform, Task, Running, start_service, Service, new_pool, env_or,
  required, ensure_topics, main, order_main, inventory_main, payment_main, with_secrets,
  order_topics, inventory_topics, payment_topics,
}
use high_throughput_payments.Startup.Documented.{
  Documented, Ensures-call, Ensures-defer_to, Ensures-weaken,
}
use high_throughput_payments.Startup.Topics.{Keeps, Made, OnOk, ensure_topic-Made}

module _ {W C : Type 0} (p : Platform W C) (k : Documented p) where
  -- a pool that cannot be reached is closed
  abbrev Opened : W → Result Fatal C → W → Type 0
  Opened w (ok c) w' = k.connections w' ≡ c ∷ k.connections w
  Opened w (err _) w' = k.connections w' ≡ k.connections w

  new_pool-Opened : (url : String) (w : W) → Ensures (Opened w) (new_pool p url) w
  unfolding new_pool
  new_pool-Opened url w = Ensures-bind _ _ (
      Ensures-call
        (λ c w1 q. Ensures-bind _ _ (
          Ensures-attempt _ (
            Ensures-call
              (λ x w2 q2.
                Ensures-pure c (k.ping_keeps c w1 w2 (ok x) q2 ∙ k.pool_opens url w w1 c q))
              (λ e w2 q2. Ensures-defer_to _ _ (
                Ensures-fail e (
                  k.close_ends c w2 _
                    (k.ping_keeps c w1 w2 (err e) q2 ∙ k.pool_opens url w w1 c q)))))))
        (λ e w1 q. k.pool_fails url w w1 e q))

  -- the topics of a list
  abbrev AllMade : List (EventType × ℕ) → W → Result Fatal (Unit {0}) → W → Type 0
  AllMade ts w r w' =
      (k.connections w' ≡ k.connections w)
      × Keeps p k w w'
      × OnOk p k r (All (λ t. k.Exists t.0 w') ts)

  ensure_topics-AllMade :
      (brokers : String) (ts : List (EventType × ℕ)) (w : W)
      → Ensures (AllMade ts w) (ensure_topics p brokers ts) w
  unfolding ensure_topics
  ensure_topics-AllMade brokers [] w = Ensures-pure tt (refl, (λ t x. x), tt)
  ensure_topics-AllMade brokers ((t, n) ∷ ts) w = Ensures-bind _ _ (
      Ensures-weaken (ensure_topic-Made p k (p.first_broker brokers) t n w)
        (both (λ w1. ensure_topics-AllMade brokers ts w1)))
    where
      and :
          (w1 : W)
          → Made p k t w (ok tt) w1
          → (r : Result Fatal (Unit {0})) (w2 : W) → AllMade ts w1 r w2
          → AllMade ((t, n) ∷ ts) w r w2
      and w1 (a, b, c) (ok x) w2 (d, e, f) = (d ∙ a, (λ u y. e u (b u y)), (e t c, f))
      and w1 (a, b, c) (err x) w2 (d, e, f) = (d ∙ a, (λ u y. e u (b u y)), tt)

      both :
          ((w1 : W) → Ensures (AllMade ts w1) (ensure_topics p brokers ts) w1)
          → (r : Result Fatal (Unit {0})) (w1 : W) → Made p k t w r w1
          → Continues (AllMade ((t, n) ∷ ts) w) (λ _. ensure_topics p brokers ts) r w1
      both rest (ok x) w1 m = Ensures-weaken (rest w1) (and w1 m)
      both rest (err x) w1 (a, b, c) = (a, b, tt)

  -- a service that has started
  abbrev Started : List (EventType × ℕ) → W → Result Fatal (Running C) → W → Type 0
  Started ts w (ok r) w' =
      (k.connections w' ≡ r.pool ∷ k.connections w) × All (λ t. k.Exists t.0 w') ts
  Started ts w (err e) w' = Unit {0}

  after_topics :
      (ts : List (EventType × ℕ)) (tasks : List Task) (port : String) (w w1 : W) (c : C)
      → k.connections w1 ≡ c ∷ k.connections w
      → (r : Result Fatal (Unit {0})) (w2 : W) → AllMade ts w1 r w2
      → Continues
          (Started ts w)
          (λ _. env_or p "PORT" port >>= λ at. pure (record { pool = c; tasks = tasks; port = at }))
          r
          w2
  unfolding env_or
  after_topics ts tasks port w w1 c o (ok x) w2 (a, b, e) =
      Ensures-bind _ _ (record { at = Ensures-pure _ (a ∙ o, e) })
  after_topics ts tasks port w w1 c o (err x) w2 m = tt

  start_service-Started :
      (ts : List (EventType × ℕ)) (tasks : List Task) (port : String) (w : W)
      → Ensures (Started ts w) (start_service p ts tasks port) w
  unfolding start_service env_or
  start_service-Started ts tasks port w =
      Ensures-bind _ _
        (record { at = Ensures-bind _ _ (Ensures-weaken (new_pool-Opened _ w) opened) })
    where
      opened :
          (r : Result Fatal C) (w1 : W)
          → Opened w r w1
          → Continues
              (Started ts w)
              (λ pool. env_or p "KAFKA_BROKERS" "localhost:9092" >>= λ brokers.
                ensure_topics p brokers ts >>= λ _. env_or p "PORT" port >>= λ at.
                pure (record { pool = pool; tasks = tasks; port = at }))
              r
              w1
      opened (ok c) w1 o = Ensures-bind _ _ (record {
        at =
            Ensures-bind _ _ (
              Ensures-weaken (ensure_topics-AllMade _ ts w1) (after_topics ts tasks port w w1 c o));
      })
      opened (err e) w1 o = tt

  -- the topics that the handlers of a service write
  abbrev pub written_by : Service → List EventType
  written_by Service.orders = order_created ∷ order_cancelled ∷ []
  written_by Service.inventory = inventory_deducted ∷ inventory_failed ∷ inventory_restocked ∷ []
  written_by Service.payments = payment_completed ∷ payment_failed ∷ payment_refunded ∷ []

  abbrev pub IsReady : Service → W → Result Fatal (Running C) → W → Type 0
  IsReady s w (ok r) w' =
      (k.connections w' ≡ r.pool ∷ k.connections w) × All (λ t. k.Exists t w') (written_by s)
  IsReady s w (err e) w' = Unit {0}

  after_start :
      (s : Service) (ts : List (EventType × ℕ)) (w : W)
      → ((w' : W) → All (λ t. k.Exists t.0 w') ts → All (λ t. k.Exists t w') (written_by s))
      → (r : Result Fatal (Running C)) (w' : W) → Started ts w r w'
      → IsReady s w r w'
  after_start s ts w f (ok r) w' (a, b) = (a, f w' b)
  after_start s ts w f (err e) w' x = tt

  Ensures-required :
      {Q : Result Fatal String → W → Type 0} (key : String) (w : W)
      → ((v : String) → Q (ok v) w)
      → Q (err (missing_secret key)) w
      → Ensures Q (required p key) w
  unfolding required
  Ensures-required {Q} key w present absent = record {
    at = if_split (λ r. Q r w) (p.getenv key w == "") _ _ (λ _. absent) (λ _. present _);
  }

  kept :
      (w w1 : W)
      → k.connections w1 ≡ k.connections w
      → (r : Result Fatal (Running C)) (w2 : W) → IsReady Service.payments w1 r w2
      → IsReady Service.payments w r w2
  kept w w1 q (ok r) w2 (a, b) = (a ∙ ap (λ cs. r.pool ∷ cs) q, b)
  kept w w1 q (err e) w2 x = tt

  with_secrets-IsReady :
      (w w1 : W)
      → k.connections w1 ≡ k.connections w
      → Ensures (IsReady Service.payments w) (with_secrets p) w1
  unfolding with_secrets
  with_secrets-IsReady w w1 q = Ensures-bind _ _ (
      Ensures-required "STRIPE_SECRET_KEY" w1
        (λ _. Ensures-bind _ _ (
          Ensures-required "STRIPE_WEBHOOK_SECRET" w1
            (λ _.
              Ensures-weaken
                (Ensures-weaken (start_service-Started _ _ _ w1) (
                  after_start Service.payments payment_topics w1
                    (λ w' (a, (b, (c, d))). (a, (b, (c, tt))))))
                (kept w w1 q))
            tt))
        tt)

  -- If pgx and kafka-go treat connections and topics as they document: a service whose startup
  -- ends without an error has one connection more than before, its pool, as those to Kafka are
  -- closed; and each topic that its handlers write exists.
  pub main-IsReady : (s : Service) (w : W) → Ensures (IsReady s w) (main p s) w
  unfolding main order_main inventory_main payment_main
  main-IsReady Service.orders w =
      Ensures-weaken (start_service-Started _ _ _ w)
        (after_start Service.orders order_topics w (λ w' a. a))
  main-IsReady Service.inventory w =
      Ensures-weaken (start_service-Started _ _ _ w)
        (after_start Service.inventory inventory_topics w (λ w' a. a))
  main-IsReady Service.payments w =
      Ensures-bind _ _ (record { at = with_secrets-IsReady w (p.load_dotenv w) (k.dotenv_keeps w) })
