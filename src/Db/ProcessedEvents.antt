-- ===== src/Db/ProcessedEvents.antt =====
-- internal/db/processed_events_repo.go
use high_throughput_payments.Base.{
  ℕ, ◌∷◌, ◌≡◌, ◌||◌, inl, inr, Bool, true, false, Bool-cases, Option, some, any, if◌then◌else◌,
}
use high_throughput_payments.Exec.{Result, ok, err}
use high_throughput_payments.Db.Schema.{Db, EventType, ConsumerGroup, ProcessedEvent, same_event}
use high_throughput_payments.Db.Transaction.{
  Session, Env, Action, Call, Error, db_error, aborting, statement,
}
use high_throughput_payments.Exec.Ensures.{Ensures}
use high_throughput_payments.Db.Rules.{IsFailing}

abbrev pub processed_key : ℕ → EventType → ConsumerGroup → ProcessedEvent
processed_key order_id event_type group = record {
  order_id = order_id;
  event_type = event_type;
  consumer_group = group;
}

abbrev pub is_processed : ProcessedEvent → Db → Bool
is_processed k d = any (same_event k) d.processed

abbrev pub mark : ProcessedEvent → Db → Db
mark k d = record d { processed = k ∷ d.processed }

-- INSERT INTO processed_events … ON CONFLICT DO NOTHING; the value is whether a row was inserted
abbrev mark_row : ProcessedEvent → Db → Option (Bool × Db)
mark_row k d = if is_processed k d then some (false, d) else some (true, mark k d)

unfoldable pub mark_processed : {W : Type 0} → Env → ℕ → EventType → ConsumerGroup → Action W Bool
mark_processed env order_id event_type group =
    statement env Call.mark_processed (mark_row (processed_key order_id event_type group))

pub Ensures-mark_processed :
    {W : Type 0} {Q : Result Error Bool → Session W → Type 0} (env : Env) (o : ℕ) (t : EventType)
    (g : ConsumerGroup) {s : Session W}
    → (IsFailing env Call.mark_processed s → Q (err (db_error Call.mark_processed)) (aborting s))
    → (is_processed (processed_key o t g) s.work ≡ true → Q (ok false) s)
    → (is_processed (processed_key o t g) s.work ≡ false
        → Q (ok true) (record s { work = mark (processed_key o t g) s.work }))
    → Ensures Q (mark_processed env o t g) s
unfolding mark_processed statement
Ensures-mark_processed env o t g {s} bad seen fresh =
    elim (Bool-cases (s.aborted || env.fails Call.mark_processed)) [
      | inl e ↦ record { at = rw e (bad e) }
      | inr e ↦ elim (Bool-cases (is_processed (processed_key o t g) s.work)) [
        | inl p ↦ record { at = rw e (rw p (seen p)) }
        | inr p ↦ record { at = rw e (rw p (fresh p)) }
      ]
    ]
