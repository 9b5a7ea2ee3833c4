-- ===== src/Db/Rules.antt =====
-- Rules for postconditions of the calls of pgx.
use high_throughput_payments.Base.{
  ◌≡◌, ◌||◌, true, Bool-cases, Option-cases, inl, inr, Option, none, some,
}
use high_throughput_payments.Exec.{Exec, Result, ok, err}
use high_throughput_payments.Exec.Ensures.{Ensures}
use high_throughput_payments.Db.Schema.{Db}
use high_throughput_payments.Db.Transaction.{
  Session, Env, Call, Error, db_error, begin, commit, rollback_tx, opened, aborting, commit_tx,
  statement, pool_query, with_tx,
}

-- the call returns an error: of its own, or since the transaction is aborted
abbrev pub IsFailing : {W : Type 0} → Env → Call → Session W → Type 0
IsFailing env c s = (s.aborted || env.fails c) ≡ true

module _ {W : Type 0} where
  pub Ensures-commit :
      {Q : Result Error (Unit {0}) → Session W → Type 0} (env : Env) {s : Session W}
      → (IsFailing env commit s → Q (err (db_error commit)) s)
      → Q (ok tt) (record s { committed = s.work })
      → Ensures Q (commit_tx env) s
  unfolding commit_tx
  Ensures-commit env {s} bad good = elim (Bool-cases (s.aborted || env.fails commit)) [
    | inl e ↦ record { at = rw e (bad e) }
    | inr e ↦ record { at = rw e good }
  ]

  -- the commit of a transaction that is aborted
  pub Ensures-commit_aborted :
      {Q : Result Error (Unit {0}) → Session W → Type 0} (env : Env) (c d : Db) (w : W)
      → Q (err (db_error commit)) (record { committed = c; work = d; aborted = true; world = w })
      → Ensures Q (commit_tx env) (record { committed = c; work = d; aborted = true; world = w })
  unfolding commit_tx
  Ensures-commit_aborted env c d w bad = record { at = bad }

  pub Ensures-statement :
      {A : Type 0} {Q : Result Error A → Session W → Type 0} (env : Env) (c : Call)
      (query : Db → Option (A × Db)) {s : Session W}
      → (IsFailing env c s → Q (err (db_error c)) (aborting s))
      → (query s.work ≡ none → Q (err (db_error c)) (aborting s))
      → ((a : A) (d : Db) → query s.work ≡ some (a, d) → Q (ok a) (record s { work = d }))
      → Ensures Q (statement env c query) s
  unfolding statement
  Ensures-statement env c query {s} bad refused good =
      elim (Bool-cases (s.aborted || env.fails c)) [
        | inl e ↦ record { at = rw e (bad e) }
        | inr e ↦ elim (Option-cases (query s.work)) [
          | inl q ↦ record { at = rw e (rw q (refused q)) }
          | inr ((a, d), q) ↦ record { at = rw e (rw q (good a d q)) }
        ]
      ]

  -- a statement that Postgres never refuses
  pub Ensures-total :
      {A : Type 0} {Q : Result Error A → Session W → Type 0} (env : Env) (c : Call) (value : Db → A)
      (next : Db → Db) {s : Session W}
      → (IsFailing env c s → Q (err (db_error c)) (aborting s))
      → Q (ok (value s.work)) (record s { work = next s.work })
      → Ensures Q (statement env c (λ d. some (value d, next d))) s
  unfolding statement
  Ensures-total env c value next {s} bad good = elim (Bool-cases (s.aborted || env.fails c)) [
    | inl e ↦ record { at = rw e (bad e) }
    | inr e ↦ record { at = rw e good }
  ]

  -- a statement of a transaction that is aborted
  pub Ensures-aborted :
      {A : Type 0} {Q : Result Error A → Session W → Type 0} (env : Env) (c : Call)
      (query : Db → Option (A × Db)) {s : Session W}
      → s.aborted ≡ true
      → Q (err (db_error c)) (aborting s)
      → Ensures Q (statement env c query) s
  unfolding statement
  Ensures-aborted env c query a bad = record { at = rw a bad }

  pub Ensures-pool_query :
      {A : Type 0} {Q : Result Error A → Session W → Type 0} (env : Env) (c : Call) (query : Db → A)
      {s : Session W}
      → (env.fails c ≡ true → Q (err (db_error c)) s)
      → Q (ok (query s.committed)) s
      → Ensures Q (pool_query env c query) s
  unfolding pool_query
  Ensures-pool_query env c query {s} bad good = elim (Bool-cases (env.fails c)) [
    | inl e ↦ record { at = rw e (bad e) }
    | inr e ↦ record { at = rw e good }
  ]

  pub Ensures-with_tx :
      {E A : Type 0} {Q : Result E A → Session W → Type 0} (env : Env) (wrap : Error → E)
      (body : Exec (Session W) E A) {s : Session W}
      → (env.fails begin ≡ true → Q (err (wrap (db_error begin))) s)
      → Ensures (λ r s'. Q r (rollback_tx s')) body (opened s)
      → Ensures Q (with_tx env wrap body) s
  unfolding with_tx
  Ensures-with_tx env wrap body {s} bad good = elim (Bool-cases (env.fails begin)) [
    | inl e ↦ record { at = rw e (bad e) }
    | inr e ↦ record { at = rw e good.at }
  ]
