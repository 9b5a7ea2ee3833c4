-- ===== src/Db/Outbox.antt =====
-- internal/db/outbox_repo.go, the insert; the relay's queries stand beside the relay
use high_throughput_payments.Base.{
  ℕ, String, List, ◌∷◌, ◌==◌, nat_eq, ◌≡◌, ◌||◌, inl, inr, Bool, true, false, Bool-cases,
  Option-cases, Option, none, some, any, if◌then◌else◌,
}
use high_throughput_payments.Exec.{Result, ok, err}
use high_throughput_payments.Json.{Field}
use high_throughput_payments.Db.Schema.{Db, EventType, OutboxRow}
use high_throughput_payments.Db.Transaction.{
  Session, Env, Action, Call, Error, db_error, no_id, aborting, statement,
}
use high_throughput_payments.Exec.Ensures.{Ensures}
use high_throughput_payments.Db.Rules.{IsFailing}

-- the row of a new event: `schema_version` has its default, and it is not published
abbrev pub new_row : Env → ℕ → EventType → String → EventType → List Field → OutboxRow
new_row env id topic key event_type body = record {
  event = record {
    id = id;
    topic = topic;
    partition_key = key;
    event_type = event_type;
    schema_version = 1;
    payload = body;
    created_at = env.now;
  };
  published_at = none;
}

-- INSERT INTO outbox_events: `id` is the primary key
abbrev insert_row : OutboxRow → Db → Option (Unit {0} × Db)
insert_row row d =
    if any (λ r. r.id == row.id) d.outbox
    then none
    else some (tt, record d { outbox = row ∷ d.outbox })

module _ {W : Type 0} (env : Env) where
  unfoldable pub insert : EventType → String → EventType → List Field → Action W (Unit {0})
  insert topic key event_type body s = elim env.event_id [
    | none ↦ (err no_id, s)
    | some id ↦
        statement env Call.insert_event (insert_row (new_row env id topic key event_type body)) s
  ]

-- the row whose key an insertion would repeat
abbrev pub has_event : ℕ → Db → Bool
has_event id d = any (λ r. r.id == id) d.outbox

abbrev pub add_row : OutboxRow → Db → Db
add_row row d = record d { outbox = row ∷ d.outbox }

pub Ensures-insert :
    {W : Type 0} {Q : Result Error (Unit {0}) → Session W → Type 0} (env : Env) (t : EventType)
    (k : String) (e : EventType) (b : List Field) {s : Session W}
    → (env.event_id ≡ none → Q (err no_id) s)
    → (IsFailing env Call.insert_event s → Q (err (db_error Call.insert_event)) (aborting s))
    → ((id : ℕ)
        → env.event_id ≡ some id
        → has_event id s.work ≡ true
        → Q (err (db_error Call.insert_event)) (aborting s))
    → ((id : ℕ)
        → env.event_id ≡ some id
        → has_event id s.work ≡ false
        → Q (ok tt) (record s { work = add_row (new_row env id t k e b) s.work }))
    → Ensures Q (insert env t k e b) s
unfolding insert statement
Ensures-insert env t k e b {s} no_uuid bad taken fresh = elim (Option-cases env.event_id) [
  | inl q ↦ record { at = rw q (no_uuid q) }
  | inr (id, q) ↦ elim (Bool-cases (s.aborted || env.fails Call.insert_event)) [
    | inl f ↦ record { at = rw q (rw f (bad f)) }
    | inr f ↦ elim (Bool-cases (has_event id s.work)) [
      | inl p ↦ record { at = rw q (rw f (rw p (taken id q p))) }
      | inr p ↦ record { at = rw q (rw f (rw p (fresh id q p))) }
    ]
  ]
]
