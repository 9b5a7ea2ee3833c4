-- ===== src/Consumer.antt =====
-- internal/kafka/consumer.go. The reader of kafka-go is an interface, whose calls act on a world
-- that holds Kafka, the context and what the handlers change.
pub mod Offsets
use high_throughput_payments.Base.{
  ℕ, zero, suc, Bool, true, false, Option, none, some, if◌then◌else◌,
}
use high_throughput_payments.Exec.{Exec, Result, ok, err}
use high_throughput_payments.Json.{Document}
use high_throughput_payments.Db.{Error}

-- `kafka.Message`, as far as the consumers read it
pub record Message : Type 0 where
  pub partition : ℕ
  pub offset : ℕ
  pub value : Document

-- `kafka.Reader` and the context: `is_cancelled` is `ctx.Err() != nil`
pub record Reader (W : Type 0) : Type 0 where
  pub fetch_message : Exec W Error Message
  pub commit_messages : Message → Exec W Error (Unit {0})
  pub close : W → W
  pub is_cancelled : W → Bool

-- `Consumer`
pub record Consumer (W : Type 0) : Type 0 where
  pub reader : Reader W
  pub handler : Message → Exec W Error (Unit {0})

-- how an iteration of the loop ends: by `continue` or its end, or by `return`
pub data Turn (W : Type 0) : Type 0 where
  goes_on returns : W → Turn W

abbrev pub on_turn : {W : Type 0} → (W → Option W) → (W → Option W) → Turn W → Option W
on_turn next end (goes_on w) = next w
on_turn next end (returns w) = end w

module _ {W : Type 0} (c : Consumer W) where
  -- after the handler: an error leaves the offset, and one of the commit is logged
  abbrev pub after_handler : Message → Result Error (Unit {0}) × W → W
  after_handler m (err e, w) = w
  after_handler m (ok _, w) = ((c.reader).commit_messages m w).1

  abbrev pub after_fetch : Result Error Message × W → Turn W
  after_fetch (err e, w) = if (c.reader).is_cancelled w then returns w else goes_on w
  after_fetch (ok m, w) = goes_on (after_handler m (c.handler m w))

  -- one iteration of the loop
  unfoldable pub turn : W → Turn W
  turn w = after_fetch ((c.reader).fetch_message w)

  -- `Run`, with its deferred `Close`; `none` if it is still running after `n` iterations
  unfoldable pub run : ℕ → W → Option W
  run zero w = none
  run (suc n) w = on_turn (run n) (λ w'. some ((c.reader).close w')) (turn w)

  -- the loop's state after `n` iterations, as long as it runs
  unfoldable pub after : ℕ → W → Option W
  after zero w = some w
  after (suc n) w = on_turn (after n) (λ _. none) (turn w)
