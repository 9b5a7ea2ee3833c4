-- ===== src/Relay/Published.antt =====
-- The outcomes of `publishPending` (internal/outbox/relay.go).
use high_throughput_payments.Base.{ℕ, List, [], ◌∷◌, ◌≡◌, refl, true, false}
use high_throughput_payments.Exec.{Result, ok, err}
use high_throughput_payments.Exec.Ensures.{
  Ensures, Continues, Ensures-bind, Ensures-pure, Ensures-attempt,
}
use high_throughput_payments.Db.{
  Db, Session, Env, Call, Error, OutboxEvent, Ensures-commit, Ensures-commit_aborted,
  Ensures-with_tx,
}
use high_throughput_payments.Db.Claims.{
  claimed, set_published, Ensures-fetch_and_claim_unpublished, Ensures-mark_published,
  mark_published-aborted,
}
use high_throughput_payments.External.{Ensures-call_world}
use high_throughput_payments.Relay.{
  KafkaWriter, message, batch_size, after_write, publish_event, publish_all, publish_pending,
}

-- the rows of these events, one after the other, with their time of publication
abbrev pub mark_all : ℕ → List OutboxEvent → Db → Db
mark_all now [] d = d
mark_all now (e ∷ es) d = mark_all now es (set_published now e.id d)

abbrev pub if_acked : Result Error (Unit {0}) → OutboxEvent → List OutboxEvent → List OutboxEvent
if_acked (ok _) e es = e ∷ es
if_acked (err _) e es = es

module _ {W : Type 0} (writer : KafkaWriter W) where
  -- Every event is sent, whatever became of those before it: those that Kafka acknowledged, and the
  -- world after the last.
  abbrev pub acked : List OutboxEvent → W → List OutboxEvent × W
  acked [] w = ([], w)
  acked (e ∷ es) w =
      let (r, w1) = writer.write_messages (message e) w in
      let (sent, w2) = acked es w1 in (if_acked r e sent, w2)

  module _ (env : Env) where
    pub data Published (d : Db) (w : W) : Db → W → Type 0 where
      idle : (c : Call) → env.fails c ≡ true → Published d w d w
      marked :
          Published d w
            (mark_all env.now (acked (claimed batch_size d) w).0 d)
            (acked (claimed batch_size d) w).1
      unrecorded :
          (c : Call) → env.fails c ≡ true → Published d w d (acked (claimed batch_size d) w).1

    module _ {Q : Result Error (Unit {0}) → Session W → Type 0} (c : Db) where
      publish_all-aborted :
          (es : List OutboxEvent) (d : Db) (w : W)
          → Q (ok tt) (record { committed = c; work = d; aborted = true; world = (acked es w).1 })
          → Ensures Q
              (publish_all writer env es)
              (record { committed = c; work = d; aborted = true; world = w })
      unfolding publish_all publish_event after_write
      publish_all-aborted [] d w q = Ensures-pure tt q
      publish_all-aborted (e ∷ es) d w q = Ensures-bind _ _ (
          Ensures-bind _ _ (
            Ensures-attempt _ (
              Ensures-call_world _
                (unsent _ (publish_all-aborted es d (writer.write_messages (message e) w).1 q)))))
        where
          unsent :
              (r : Result Error (Unit {0})) {w1 : W}
              → Ensures Q
                  (publish_all writer env es)
                  (record { committed = c; work = d; aborted = true; world = w1 })
              → Ensures
                  (Continues Q (λ _. publish_all writer env es))
                  (after_write writer env e r)
                  (record { committed = c; work = d; aborted = true; world = w1 })
          unsent (err _) rest = Ensures-pure tt rest
          unsent (ok _) rest =
              Ensures-bind _ _
                (Ensures-attempt _ (mark_published-aborted env e.id refl (Ensures-pure tt rest)))

      publish_all_rule :
          (es : List OutboxEvent) (d : Db) (w : W)
          → Q (ok tt) (record {
            committed = c;
            work = mark_all env.now (acked es w).0 d;
            aborted = false;
            world = (acked es w).1;
          })
          → ((d' : Db) (id : ℕ)
              → env.fails (Call.mark_published id) ≡ true
              → Q
                  (ok tt)
                  (record { committed = c; work = d'; aborted = true; world = (acked es w).1 }))
          → Ensures Q
              (publish_all writer env es)
              (record { committed = c; work = d; aborted = false; world = w })
      unfolding publish_all publish_event after_write
      publish_all_rule [] d w good bad = Ensures-pure tt good
      publish_all_rule (e ∷ es) d w good bad = Ensures-bind _ _ (
          Ensures-bind _ _ (
            Ensures-attempt _ (
              Ensures-call_world _ (
                sent (λ d1 q. publish_all_rule es d1 w1 q bad)
                  (writer.write_messages (message e) w).0 good))))
        where
          w1 : W
          w1 = (writer.write_messages (message e) w).1

          sent :
              ((d1 : Db)
                → Q (ok tt) (record {
                  committed = c;
                  work = mark_all env.now (acked es w1).0 d1;
                  aborted = false;
                  world = (acked es w1).1;
                })
                → Ensures Q
                    (publish_all writer env es)
                    (record { committed = c; work = d1; aborted = false; world = w1 }))
              → (r : Result Error (Unit {0}))
              → Q (ok tt) (record {
                committed = c;
                work = mark_all env.now (if_acked r e (acked es w1).0) d;
                aborted = false;
                world = (acked es w1).1;
              })
              → Ensures
                  (Continues Q (λ _. publish_all writer env es))
                  (after_write writer env e r)
                  (record { committed = c; work = d; aborted = false; world = w1 })
          sent rest (err _) q = Ensures-pure tt (rest d q)
          sent rest (ok _) q = Ensures-bind _ _ (
              Ensures-attempt _ (
                Ensures-mark_published env e.id
                  (λ f. Ensures-pure tt (publish_all-aborted es d w1 (bad d e.id f)))
                  (Ensures-pure tt (rest (set_published env.now e.id d) q))))

    -- A poll, whatever fails in it, ends in one of the outcomes: it sends nothing; it sends the
    -- whole batch and records the events that Kafka acknowledged; or it sends the batch and a fault
    -- of the database leaves all of it unrecorded, to be sent again.
    pub publish_pending-Published :
        (s : Session W)
        → let s' = (publish_pending writer env s).1 in
          Published s.committed s.world s'.committed s'.world
    unfolding publish_pending
    publish_pending-Published s =
        (Ensures-with_tx {Q = λ _ s'. Published s.committed s.world s'.committed s'.world} env _ _
          (λ f. idle _ f)
          (Ensures-bind _ _ (
            Ensures-fetch_and_claim_unpublished env batch_size (λ f. idle _ f)
              (Ensures-bind _ _ (
                publish_all_rule s.committed (claimed batch_size s.committed) s.committed s.world
                  (Ensures-commit env (λ f. unrecorded _ f) marked)
                  (λ d' id f. Ensures-commit_aborted env s.committed d' _ (unrecorded _ f))))))).at
