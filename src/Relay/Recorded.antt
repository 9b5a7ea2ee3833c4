-- ===== src/Relay/Recorded.antt =====
-- What is recorded as published over all polls of `Relay.Run` (internal/outbox/relay.go).
use high_throughput_payments.Base.{
  ℕ, List, [], ◌∷◌, ◌==◌, nat_eq, ◌≡◌, refl, sym, subst, ◌∙◌, true, false, All, All-map, All-of,
  update, distinct, if_split, arith,
}
use high_throughput_payments.Exec.{Result, ok, err}
use high_throughput_payments.Db.{Db, Session, Env, Error, OutboxEvent, OutboxRow}
use high_throughput_payments.Db.Outbox.{has_event}
use high_throughput_payments.Db.Claims.{
  is_unpublished, claimed, claimed_rows, publish_row, set_published,
}
use high_throughput_payments.Relay.{KafkaWriter, Message, message, batch_size, publish_pending}
use high_throughput_payments.Relay.Batch.{claimed_rows-All}
use high_throughput_payments.Relay.Published.{
  mark_all, acked, if_acked, Published, idle, marked, unrecorded, publish_pending-Published,
}
use high_throughput_payments.Relay.Ids.{same_id, Only, set-Only, distinct-set, distinct-Only}
use high_throughput_payments.Relay.Run.{Selected, done, tick, insert_event, insert_events, run}

-- What Kafka says of acknowledgements: a message that was written without an error was acknowledged,
-- and stays so.
pub record Acknowledges {W : Type 0} (writer : KafkaWriter W) (close : W → W) : Type 1 where
  pub Acked : Message → W → Type 0
  pub on_write : (m : Message) (w w' : W) → writer.write_messages m w ≡ (ok tt, w') → Acked m w'
  pub write_keeps : (m n : Message) (w : W) → Acked n w → Acked n (writer.write_messages m w).1
  pub close_keeps : (n : Message) (w : W) → Acked n w → Acked n (close w)

module _ {W : Type 0} (writer : KafkaWriter W) (close : W → W) (k : Acknowledges writer close) where
  -- every event that is recorded as published was acknowledged
  abbrev Sent : List OutboxRow → W → Type 0
  Sent rs w = All (λ r. is_unpublished r ≡ false → k.Acked (message r.event) w) rs

  pub record IsRecorded (d : Db) (w : W) : Type 0 where
    pub ids_unique : distinct same_id d.outbox ≡ true
    pub sent : Sent d.outbox w

  insert-IsRecorded :
      (e : OutboxEvent) (d : Db) (w : W) → IsRecorded d w → IsRecorded (insert_event e d) w
  insert-IsRecorded e d w h =
      if_split (λ d'. IsRecorded d' w) (has_event e.id d) _ _ (λ _. h)
        (λ n. record { ids_unique = ground (arith, n, h.ids_unique); sent = ((λ q. cc q), h.sent) })

  inserts-IsRecorded :
      (es : List OutboxEvent) (d : Db) (w : W) → IsRecorded d w → IsRecorded (insert_events es d) w
  inserts-IsRecorded [] d w h = h
  inserts-IsRecorded (e ∷ es) d w h =
      inserts-IsRecorded es (insert_event e d) w (insert-IsRecorded e d w h)

  -- what was acknowledged stays so while a batch is sent
  acked_keeps :
      (n : Message) (es : List OutboxEvent) (w : W) → k.Acked n w → k.Acked n (acked writer es w).1
  acked_keeps n [] w h = h
  acked_keeps n (e ∷ es) w h = acked_keeps n es _ (k.write_keeps (message e) n w h)

  IsRecorded-sent :
      (es : List OutboxEvent) (d : Db) (w : W) → IsRecorded d w → IsRecorded d (acked writer es w).1
  IsRecorded-sent es d w h = record {
    ids_unique = h.ids_unique;
    sent = All-map _ _ d.outbox (λ r p q. acked_keeps (message r.event) es w (p q)) h.sent;
  }

  abbrev AllAcked : List OutboxEvent → W → Type 0
  AllAcked es w = All (λ e. k.Acked (message e) w) es

  acked-AllAcked :
      (es : List OutboxEvent) (w : W) → AllAcked (acked writer es w).0 (acked writer es w).1
  acked-AllAcked [] w = tt
  acked-AllAcked (e ∷ es) w =
      by (writer.write_messages (message e) w).0 (writer.write_messages (message e) w).1 refl
        (acked-AllAcked es (writer.write_messages (message e) w).1)
    where
      by :
          (r : Result Error (Unit {0})) (w1 : W)
          → writer.write_messages (message e) w ≡ (r, w1)
          → AllAcked (acked writer es w1).0 (acked writer es w1).1
          → AllAcked (if_acked r e (acked writer es w1).0) (acked writer es w1).1
      by (ok _) w1 q h = (acked_keeps (message e) es w1 (k.on_write (message e) w w1 q), h)
      by (err x) w1 q h = h

  -- a property of the batch passes to what was acknowledged of it
  acked-All :
      (P : OutboxEvent → Type 0) (es : List OutboxEvent) (w : W)
      → All P es
      → All P (acked writer es w).0
  acked-All P [] w h = tt
  acked-All P (e ∷ es) w (p, h) = by (writer.write_messages (message e) w).0 _ (acked-All P es _ h)
    where
      by :
          (r : Result Error (Unit {0})) (sent : List OutboxEvent)
          → All P sent
          → All P (if_acked r e sent)
      by (ok _) sent g = (p, g)
      by (err x) sent g = g

  set-Sent :
      (now : ℕ) (e : OutboxEvent) (rs : List OutboxRow) (w : W)
      → Only e rs
      → k.Acked (message e) w
      → Sent rs w
      → Sent (update (λ r. r.id == e.id) (publish_row now) rs) w
  set-Sent now e [] w o a h = tt
  set-Sent now e (r ∷ rs) w (q, o) a (p, h) = (
    if_split (λ (x : OutboxRow). is_unpublished x ≡ false → k.Acked (message x.event) w)
        (r.id == e.id) _ _ (λ y _. subst (λ x. k.Acked (message x) w) (sym (q y)) a) (λ _. p),
    set-Sent now e rs w o a h,
  )

  mark_all-IsRecorded :
      (now : ℕ) (es : List OutboxEvent) (d : Db) (w : W)
      → All (λ e. Only e d.outbox) es
      → AllAcked es w
      → IsRecorded d w
      → IsRecorded (mark_all now es d) w
  mark_all-IsRecorded now [] d w o a h = h
  mark_all-IsRecorded now (e ∷ es) d w (o, os) (a, b) h =
      mark_all-IsRecorded now es (set_published now e.id d) w
        (All-map _ _ es (λ x p. set-Only now e.id x d.outbox p) os) b
        (record {
          ids_unique = distinct-set now e.id d.outbox ∙ h.ids_unique;
          sent = set-Sent now e d.outbox w o a h.sent;
        })

  poll-IsRecorded :
      (env : Env) {d : Db} {w : W} {d' : Db} {w' : W}
      → Published writer env d w d' w'
      → IsRecorded d w
      → IsRecorded d' w'
  poll-IsRecorded env (idle c f) h = h
  poll-IsRecorded env {d} {w} (unrecorded c f) h = IsRecorded-sent (claimed batch_size d) d w h
  poll-IsRecorded env {d} {w} marked h =
      mark_all-IsRecorded env.now (acked writer (claimed batch_size d) w).0 d _
        (acked-All (λ e. Only e d.outbox) (claimed batch_size d) w
          (All-of (λ r. r.event) (λ e. Only e d.outbox) (claimed_rows batch_size d)
            (claimed_rows-All (λ r. Only r.event d.outbox) batch_size d
              (distinct-Only d.outbox h.ids_unique))))
        (acked-AllAcked (claimed batch_size d) w) (IsRecorded-sent (claimed batch_size d) d w h)

  -- From a table of which this holds, as an empty one, over all polls of Run, with whatever events
  -- the services insert between them and whatever fails: each event of the table that is recorded
  -- as published was acknowledged by Kafka, and the ids of events are unique.
  pub run-IsRecorded :
      (xs : List Selected) (s : Session W)
      → IsRecorded s.committed s.world
      → let s' = run writer close xs s in IsRecorded s'.committed s'.world
  unfolding run
  run-IsRecorded [] s h = h
  run-IsRecorded (done ∷ xs) s h = record {
    ids_unique = h.ids_unique;
    sent =
        All-map _ _ s.committed.outbox (λ r p q. k.close_keeps (message r.event) s.world (p q))
          h.sent;
  }
  run-IsRecorded (tick es env ∷ xs) s h =
      run-IsRecorded xs
        (publish_pending writer env (record s { committed = insert_events es s.committed })).1
        (poll-IsRecorded env
          (publish_pending-Published writer env
            (record s { committed = insert_events es s.committed }))
          (inserts-IsRecorded es s.committed s.world h))
