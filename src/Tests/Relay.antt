-- ===== src/Tests/Relay.antt =====
-- Tests of the relay: a poll over two events, of which Kafka refuses one.
use high_throughput_payments.Base.{
  ℕ, String, ◌==◌, string_eq, string_discrete, ◌≡◌, refl, true, false, none, List, [], ◌∷◌, subst,
  ◌⊎◌, inl, inr, if_split, if◌then◌else◌,
}
use native.Mathlib.Decide.{ℕ_discrete}
use high_throughput_payments.Exec.{Result, ok, err}
use high_throughput_payments.Db.{Db, Session, Error, kafka_error, OutboxRow, order_created}
use high_throughput_payments.Relay.{KafkaWriter, Message, publish_pending}
use high_throughput_payments.Relay.Published.{Published, publish_pending-Published}
use high_throughput_payments.Relay.Delivery.{is_done, unacked_stays, acked_is_recorded}
use high_throughput_payments.Relay.Run.{Selected, done, tick, run}
use high_throughput_payments.Relay.Recorded.{Acknowledges, IsRecorded, run-IsRecorded}
use high_throughput_payments.Relay.Oldest.{Oldest}
use high_throughput_payments.Tests.{healthy, test_db}

-- It refuses the messages of one key, and keeps a log of the others.
abbrev pub test_writer : KafkaWriter (List Message)
test_writer = record {
  write_messages = λ m log. if m.key == "down" then (err kafka_error, log) else (ok tt, m ∷ log);
}

abbrev pub test_row : ℕ → String → OutboxRow
test_row id key = record {
  event = record {
    id = id;
    topic = order_created;
    partition_key = key;
    event_type = order_created;
    schema_version = 1;
    payload = [];
    created_at = id;
  };
  published_at = none;
}

abbrev pub outbox_db : Db
outbox_db = record test_db { outbox = test_row 2 "down" ∷ test_row 1 "11" ∷ [] }

abbrev pub outbox_session : Session (List Message)
outbox_session = record { committed = outbox_db; work = outbox_db; aborted = false; world = [] }

publish_pending-Published_example :
    let s' = (publish_pending test_writer (healthy 3) outbox_session).1 in
    Published test_writer (healthy 3) outbox_db [] s'.committed s'.world
publish_pending-Published_example = publish_pending-Published test_writer (healthy 3) outbox_session

unacked_stays_example :
    is_done 2 (publish_pending test_writer (healthy 3) outbox_session).1.committed ≡ false
unfolding string_discrete ℕ_discrete
unacked_stays_example = unacked_stays test_writer (healthy 3) 2 outbox_session refl refl

acked_is_recorded_example :
    is_done 1 (publish_pending test_writer (healthy 3) outbox_session).1.committed ≡ true
unfolding string_discrete ℕ_discrete
acked_is_recorded_example =
    acked_is_recorded test_writer (healthy 3) 1 outbox_session (λ c. refl) refl refl

-- the log holds what was acknowledged
abbrev pub Holds : Message → List Message → Type 0
Holds m [] = ⊥
Holds m (x ∷ log) = (m ≡ x) ⊎ Holds m log

write_keeps :
    (m n : Message) (log : List Message)
    → Holds n log
    → Holds n (test_writer.write_messages m log).1
write_keeps m n log h =
    if_split (λ (r : Result Error (Unit {0}) × List Message). Holds n r.1) (m.key == "down") _ _
      (λ _. h) (λ _. inr h)

abbrev Written : Message → Result Error (Unit {0}) × List Message → Type 0
Written m (ok _, log) = Holds m log
Written m (err _, log) = Unit {0}

written : (m : Message) (log : List Message) → Written m (test_writer.write_messages m log)
written m log = if_split (Written m) (m.key == "down") _ _ (λ _. tt) (λ _. inl refl)

test_acknowledges : Acknowledges test_writer (λ log. log)
test_acknowledges = record {
  Acked = Holds;
  on_write = λ m w w' q. subst (Written m) q (written m w);
  write_keeps = write_keeps;
  close_keeps = λ n w h. h;
}

outbox-IsRecorded : IsRecorded test_writer (λ log. log) test_acknowledges outbox_db []
unfolding ℕ_discrete
outbox-IsRecorded = record { ids_unique = refl; sent = ((λ q. cc q), ((λ q. cc q), tt)) }

abbrev polls : List Selected
polls = tick [] (healthy 3) ∷ tick ((test_row 4 "12").event ∷ []) (healthy 5) ∷ done ∷ []

run-IsRecorded_example :
    let s' = run test_writer (λ log. log) polls outbox_session in
    IsRecorded test_writer (λ log. log) test_acknowledges s'.committed s'.world
run-IsRecorded_example =
    run-IsRecorded test_writer (λ log. log) test_acknowledges polls outbox_session outbox-IsRecorded
