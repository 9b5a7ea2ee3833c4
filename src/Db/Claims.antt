-- ===== src/Db/Claims.antt =====
-- internal/db/outbox_repo.go, the relay's queries: `FetchAndClaimUnpublished` and `MarkPublished`
use high_throughput_payments.Base.{
  ℕ, zero, suc, List, [], ◌∷◌, map, ◌==◌, ◌≡◌, nat_eq, Bool, true, false, none, some, update, ltb,
  if◌then◌else◌,
}
use high_throughput_payments.Exec.{Result}
use high_throughput_payments.Exec.Ensures.{Ensures}
use high_throughput_payments.Db.Rules.{IsFailing, Ensures-total, Ensures-aborted}
use high_throughput_payments.Db.Schema.{Db, OutboxEvent, OutboxRow}
use high_throughput_payments.Db.Transaction.{
  Session, Env, Action, Call, Error, db_error, aborting, statement,
}

-- `WHERE published_at IS NULL`
abbrev pub is_unpublished : OutboxRow → Bool
is_unpublished r = elim r.published_at [ none ↦ true | some _ ↦ false ]

abbrev pub unpublished : List OutboxRow → List OutboxRow
unpublished [] = []
unpublished (r ∷ rs) = let rest = unpublished rs in if is_unpublished r then r ∷ rest else rest

-- `ORDER BY created_at`; rows of one time keep the table's order here
abbrev pub insert_by_time : OutboxRow → List OutboxRow → List OutboxRow
insert_by_time r [] = r ∷ []
insert_by_time r (x ∷ xs) =
    let later = insert_by_time r xs in
    if ltb x.created_at r.created_at then x ∷ later else r ∷ x ∷ xs

abbrev pub by_time : List OutboxRow → List OutboxRow
by_time [] = []
by_time (r ∷ rs) = insert_by_time r (by_time rs)

-- `LIMIT n`
abbrev pub take : ℕ → List OutboxRow → List OutboxRow
take zero rs = []
take (suc n) [] = []
take (suc n) (r ∷ rs) = r ∷ take n rs

-- The rows that are claimed. One run at a time is modelled here, so none is locked and skipped;
-- Relay/Pollers has the locks.
abbrev pub claimed_rows : ℕ → Db → List OutboxRow
claimed_rows limit d = take limit (by_time (unpublished d.outbox))

abbrev pub claimed : ℕ → Db → List OutboxEvent
claimed limit d = map (λ r. r.event) (claimed_rows limit d)

abbrev pub publish_row : ℕ → OutboxRow → OutboxRow
publish_row now r = record r { published_at = some now }

abbrev pub set_published : ℕ → ℕ → Db → Db
set_published now id d = record d { outbox = update (λ r. r.id == id) (publish_row now) d.outbox }

module _ {W : Type 0} (env : Env) where
  unfoldable pub fetch_and_claim_unpublished : ℕ → Action W (List OutboxEvent)
  fetch_and_claim_unpublished limit =
      statement env Call.fetch_unpublished (λ d. some (claimed limit d, d))

  unfoldable pub mark_published : ℕ → Action W (Unit {0})
  mark_published id =
      statement env (Call.mark_published id) (λ d. some (tt, set_published env.now id d))

  pub Ensures-fetch_and_claim_unpublished :
      {Q : Result Error (List OutboxEvent) → Session W → Type 0} (limit : ℕ) {s : Session W}
      → (IsFailing env Call.fetch_unpublished s
          → Q (Result.err (db_error Call.fetch_unpublished)) (aborting s))
      → Q (Result.ok (claimed limit s.work)) s
      → Ensures Q (fetch_and_claim_unpublished limit) s
  unfolding fetch_and_claim_unpublished
  Ensures-fetch_and_claim_unpublished limit bad good =
      Ensures-total env _ (claimed limit) (λ d. d) bad good

  pub Ensures-mark_published :
      {Q : Result Error (Unit {0}) → Session W → Type 0} (id : ℕ) {s : Session W}
      → (IsFailing env (Call.mark_published id) s
          → Q (Result.err (db_error (Call.mark_published id))) (aborting s))
      → Q (Result.ok tt) (record s { work = set_published env.now id s.work })
      → Ensures Q (mark_published id) s
  unfolding mark_published
  Ensures-mark_published id bad good =
      Ensures-total env _ (λ _. tt) (set_published env.now id) bad good

  pub mark_published-aborted :
      {Q : Result Error (Unit {0}) → Session W → Type 0} (id : ℕ) {s : Session W}
      → s.aborted ≡ true
      → Q (Result.err (db_error (Call.mark_published id))) (aborting s)
      → Ensures Q (mark_published id) s
  unfolding mark_published
  mark_published-aborted id a bad = Ensures-aborted env _ _ a bad
