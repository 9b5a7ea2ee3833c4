-- ===== src/Tests/Startup.antt =====
-- The services started on a platform that counts connections and remembers topics.
use high_throughput_payments.Base.{
  ℕ, suc, ◌==◌, ==_refl, ◌≡◌, refl, sym, ap, subst, true, List, [], ◌∷◌, any, arith,
  string_discrete,
}
use high_throughput_payments.Exec.{Exec, Result, ok, err, attempt, pure, ◌>>=◌}
use high_throughput_payments.Db.{EventType, event_type_eq, order_created, order_cancelled}
use high_throughput_payments.Startup.{
  Fatal, listen_error, Platform, Service, Running, main, order_main, env_or, new_pool, ensure_topic,
  ensure_topics, defer_to, relays, gets, posts_document, posts_text,
}
use high_throughput_payments.Startup.Shutdown.{HttpServer, signalled, program, program-Stopped}
use high_throughput_payments.Saga.System.{post_order, post_cancel}
use high_throughput_payments.Startup.Documented.{Documented}
use high_throughput_payments.Startup.Ready.{IsReady, main-IsReady}
use high_throughput_payments.Exec.Ensures.{Ensures}

record Machine : Type 0 where
  open_now : List ℕ
  opened : ℕ
  topics : List EventType

abbrev connect : Exec Machine Fatal ℕ
connect w = (ok w.opened, record w { open_now = w.opened ∷ w.open_now; opened = suc w.opened })

abbrev rest : List ℕ → List ℕ
rest [] = []
rest (c ∷ cs) = cs

abbrev test_platform : Platform Machine ℕ
test_platform = record {
  load_dotenv = λ w. w;
  getenv = λ key w. "set";
  first_broker = λ s. s;
  address = λ host port. host;
  open_pool = λ url. connect;
  ping = λ c w. (ok tt, w);
  dial = λ a. connect;
  controller = λ c w. (ok ("kafka", 9092), w);
  create_topics = λ c t n w. (ok tt, record w { topics = t ∷ w.topics });
  close = λ c w. record w { open_now = rest w.open_now };
}

abbrev Exists : EventType → Machine → Type 0
Exists t w = any (λ u. u == t) w.topics ≡ true

abbrev Connected : Machine → Result Fatal ℕ × Machine → Type 0
Connected w (ok c, w') = w'.open_now ≡ c ∷ w.open_now
Connected w (err _, w') = Unit {0}

test_documented : Documented test_platform
test_documented = record {
  connections = λ w. w.open_now;
  Exists = Exists;
  pool_opens = λ url w w' c q. subst (Connected w) q refl;
  pool_fails = λ url w w' e q. cc q;
  dial_opens = λ a w w' c q. subst (Connected w) q refl;
  dial_fails = λ a w w' e q. cc q;
  close_ends = λ c w cs q. ap rest q;
  ping_keeps = λ c w w' r q. ap (λ y. y.1.open_now) (sym q);
  controller_keeps = λ c w w' r q. ap (λ y. y.1.open_now) (sym q);
  create_keeps = λ c t n w w' r q. ap (λ y. y.1.open_now) (sym q);
  dotenv_keeps = λ w. refl;
  created = λ c t n w w' q. subst (λ y. Exists t y.1) q (rw (==_refl t) refl);
  dial_topics = λ a t w w' r q h. subst (λ y. Exists t y.1) q h;
  controller_topics = λ c t w w' r q h. subst (λ y. Exists t y.1) q h;
  create_keeps_topics = λ c t u n w w' r q h. subst (λ y. Exists u y.1) q (ground (arith, h));
  close_topics = λ c t w h. h;
}

abbrev off : Machine
off = record { open_now = []; opened = 0; topics = [] }

main-IsReady_example :
    Ensures
      (IsReady test_platform test_documented Service.payments off)
      (main test_platform Service.payments)
      off
main-IsReady_example = main-IsReady test_platform test_documented Service.payments off

-- a signal, and a shutdown that runs into its deadline
abbrev test_server : HttpServer Machine
test_server = record { wait = λ w. (signalled, w); shutdown = λ n w. (err listen_error, w) }

abbrev orders_running : Running ℕ
orders_running = record {
  pool = 0;
  tasks =
      relays
      ∷ gets "/health"
      ∷ posts_document "/orders" post_order
      ∷ gets "/orders/{id}"
      ∷ posts_text "/orders/{id}/cancel" post_cancel
      ∷ [];
  port = "set";
}

abbrev orders_machine : Machine
orders_machine = record {
  open_now = 0 ∷ [];
  opened = 5;
  topics = order_cancelled ∷ order_created ∷ [];
}

orders_started : main test_platform Service.orders off ≡ (ok orders_running, orders_machine)
unfolding main order_main env_or new_pool ensure_topic ensure_topics defer_to attempt pure ◌>>=◌
    string_discrete
orders_started = refl

program-Stopped_example :
    ((program test_platform test_server Service.orders off).0 ≡ ok tt)
    × ((program test_platform test_server Service.orders off).1.open_now ≡ [])
unfolding test_documented
program-Stopped_example =
    program-Stopped test_platform test_server test_documented
      (record { wait_keeps = λ w. refl; shutdown_keeps = λ n w. refl }) Service.orders
      orders_running off orders_machine orders_machine orders_started refl
