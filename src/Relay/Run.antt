-- ===== src/Relay/Run.antt =====
-- `Relay.Run` (internal/outbox/relay.go): the polls until the context is cancelled, and what the
-- services insert between them.
use high_throughput_payments.Base.{List, [], ◌∷◌, nat_eq, none, if◌then◌else◌}
use high_throughput_payments.Db.{Db, Session, Env, OutboxEvent}
use high_throughput_payments.Db.Outbox.{has_event, add_row}
use high_throughput_payments.Relay.{KafkaWriter, publish_pending}

-- what the `select` of an iteration gives: `ctx.Done()`, or a tick; with it the events that the
-- services have inserted since the last one, and what the poll meets
pub data Selected : Type 0 where
  done : Selected
  tick : List OutboxEvent → Env → Selected

-- `id` is the primary key
abbrev pub insert_event : OutboxEvent → Db → Db
insert_event e d =
    if has_event e.id d then d else add_row (record { event = e; published_at = none }) d

abbrev pub insert_events : List OutboxEvent → Db → Db
insert_events [] d = d
insert_events (e ∷ es) d = insert_events es (insert_event e d)

module _ {W : Type 0} (writer : KafkaWriter W) (close : W → W) where
  -- `Run` over what `select` gives; it ends with `ctx.Done()`, and closes the writer
  unfoldable pub run : List Selected → Session W → Session W
  run [] s = s
  run (done ∷ xs) s = record s { world = close s.world }
  run (tick es env ∷ xs) s =
      run xs (publish_pending writer env (record s { committed = insert_events es s.committed })).1
