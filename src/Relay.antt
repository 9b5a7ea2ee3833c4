-- ===== src/Relay.antt =====
-- internal/outbox/relay.go: one poll of the relay. Kafka's writer is a parameter, whose calls act
-- on the session's world; so is what it returns.
pub mod Published
pub mod Delivery
pub mod Batch
pub mod Run
pub mod Ids
pub mod Recorded
pub mod Pollers
pub mod Exclusive
pub mod Apart
pub mod SentOnce
pub mod Oldest
use high_throughput_payments.Base.{ℕ, String, List, [], ◌∷◌}
use high_throughput_payments.Exec.{Exec, Result, ok, err, pure, attempt, ◌>>=◌, ◌>>◌}
use high_throughput_payments.Json.{Field}
use high_throughput_payments.External.{call_world}
use high_throughput_payments.Db.{
  Session, Env, Action, Error, EventType, OutboxEvent, with_tx, commit_tx,
}
use high_throughput_payments.Db.Claims.{fetch_and_claim_unpublished, mark_published}

-- `kafka.Message` with its one header
pub record Message : Type 0 where
  pub topic : EventType
  pub key : String
  pub value : List Field
  pub event_type : EventType

pub record KafkaWriter (W : Type 0) : Type 0 where
  pub write_messages : Message → W → Result Error (Unit {0}) × W

abbrev pub message : OutboxEvent → Message
message e = record {
  topic = e.topic;
  key = e.partition_key;
  value = e.payload;
  event_type = e.event_type;
}

-- `batchSize` of `NewRelay`
abbrev pub batch_size : ℕ
batch_size = 100

module _ {W : Type 0} (writer : KafkaWriter W) (env : Env) where
  -- an error of `MarkPublished` is logged
  after_write : OutboxEvent → Result Error (Unit {0}) → Action W (Unit {0})
  after_write e (err _) = pure tt
  after_write e (ok _) = do attempt {F = Error} (mark_published env e.id); pure tt

  publish_event : OutboxEvent → Action W (Unit {0})
  unfolding after_write
  publish_event e = do
    sent ← attempt (call_world (writer.write_messages (message e)))
    after_write e sent

  -- the loop over the batch
  publish_all : List OutboxEvent → Action W (Unit {0})
  unfolding publish_event
  publish_all [] = pure tt
  publish_all (e ∷ es) = do publish_event e; publish_all es

  -- `publishPending`; an error is logged, and the caller reads no result
  unfoldable pub publish_pending : Action W (Unit {0})
  unfolding publish_all
  publish_pending =
      with_tx env (λ e. e)
        do events ← fetch_and_claim_unpublished env batch_size; publish_all events; commit_tx env
