-- ===== src/Relay/Delivery.antt =====
-- Which events `publishPending` (internal/outbox/relay.go) records as published.
use high_throughput_payments.Base.{
  ℕ, List, [], ◌∷◌, ◌==◌, nat_eq, ==_refl, ==_sound, ◌≡◌, refl, Bool, true, false, not, ◌&&◌, ◌∙◌,
  Bool-cases, inl, inr, any, update, arith,
}
use high_throughput_payments.Db.{Db, Session, Env, Call, OutboxEvent, OutboxRow}
use high_throughput_payments.Db.Outbox.{has_event}
use high_throughput_payments.Db.Claims.{is_unpublished, claimed, publish_row, set_published}
use high_throughput_payments.Relay.{KafkaWriter, batch_size, publish_pending}
use high_throughput_payments.Relay.Published.{
  mark_all, acked, Published, idle, marked, unrecorded, publish_pending-Published,
}

abbrev pub is_done_row : ℕ → OutboxRow → Bool
is_done_row id r = r.id == id && not (is_unpublished r)

-- the event is recorded as published
abbrev pub is_done : ℕ → Db → Bool
is_done id d = any (is_done_row id) d.outbox

abbrev pub names : ℕ → List OutboxEvent → Bool
names id es = any (λ e. e.id == id) es

not_done-set :
    (now k id : ℕ) (rs : List OutboxRow)
    → any (is_done_row id) rs ≡ false
    → (k == id) ≡ false
    → any (is_done_row id) (update (λ r. r.id == k) (publish_row now) rs) ≡ false
not_done-set now k id [] h n = refl
not_done-set now k id (r ∷ rs) h n =
    ground (arith, not_done-set now k id rs, ==_sound r.id k, ==_sound r.id id, ==_refl k)

not_done-mark_all :
    (now id : ℕ) (es : List OutboxEvent) (d : Db)
    → is_done id d ≡ false
    → names id es ≡ false
    → is_done id (mark_all now es d) ≡ false
not_done-mark_all now id [] d h n = h
not_done-mark_all now id (e ∷ es) d h n =
    not_done-mark_all now id es (set_published now e.id d)
      (not_done-set now e.id id d.outbox h (ground (arith, n))) (ground (arith, n))

done-set :
    (now k id : ℕ) (rs : List OutboxRow)
    → any (is_done_row id) rs ≡ true
    → any (is_done_row id) (update (λ r. r.id == k) (publish_row now) rs) ≡ true
done-set now k id [] h = cc
done-set now k id (r ∷ rs) h = ground (arith, done-set now k id rs)

done-set_this :
    (now k id : ℕ) (rs : List OutboxRow)
    → any (λ r. r.id == id) rs ≡ true
    → (k == id) ≡ true
    → any (is_done_row id) (update (λ r. r.id == k) (publish_row now) rs) ≡ true
done-set_this now k id [] h n = cc
done-set_this now k id (r ∷ rs) h n =
    ground (arith, done-set_this now k id rs, ==_sound k id, ==_sound r.id id, ==_refl id)

has-set :
    (now k id : ℕ) (rs : List OutboxRow)
    → any (λ r. r.id == id) (update (λ r. r.id == k) (publish_row now) rs)
      ≡ any (λ r. r.id == id) rs
has-set now k id [] = refl
has-set now k id (r ∷ rs) = ground (arith, has-set now k id rs)

done-mark_all :
    (now id : ℕ) (es : List OutboxEvent) (d : Db)
    → is_done id d ≡ true
    → is_done id (mark_all now es d) ≡ true
done-mark_all now id [] d h = h
done-mark_all now id (e ∷ es) d h =
    done-mark_all now id es (set_published now e.id d) (done-set now e.id id d.outbox h)

named-mark_all :
    (now id : ℕ) (es : List OutboxEvent) (d : Db)
    → has_event id d ≡ true
    → names id es ≡ true
    → is_done id (mark_all now es d) ≡ true
named-mark_all now id [] d h n = cc
named-mark_all now id (e ∷ es) d h n = elim (Bool-cases (e.id == id)) [
  | inl y ↦
      done-mark_all now id es (set_published now e.id d) (done-set_this now e.id id d.outbox h y)
  | inr y ↦
      named-mark_all now id es (set_published now e.id d) (has-set now e.id id d.outbox ∙ h)
        (ground (arith, n, y))
]

module _ {W : Type 0} (writer : KafkaWriter W) (env : Env) where
  not_done-Published :
      (id : ℕ) {d : Db} {w : W} {d' : Db} {w' : W}
      → Published writer env d w d' w'
      → is_done id d ≡ false
      → names id (acked writer (claimed batch_size d) w).0 ≡ false
      → is_done id d' ≡ false
  not_done-Published id (idle c f) h n = h
  not_done-Published id (unrecorded c f) h n = h
  not_done-Published id {d} marked h n = not_done-mark_all env.now id _ d h n

  -- An event that is not recorded as published, and whose sending in this poll Kafka did not
  -- acknowledge, is still not recorded as published after the poll, whatever fails in it.
  pub unacked_stays :
      (id : ℕ) (s : Session W)
      → is_done id s.committed ≡ false
      → names id (acked writer (claimed batch_size s.committed) s.world).0 ≡ false
      → is_done id (publish_pending writer env s).1.committed ≡ false
  unacked_stays id s = not_done-Published id (publish_pending-Published writer env s)

  done-Published :
      (id : ℕ) {d : Db} {w : W} {d' : Db} {w' : W}
      → Published writer env d w d' w'
      → ((c : Call) → env.fails c ≡ false)
      → has_event id d ≡ true
      → names id (acked writer (claimed batch_size d) w).0 ≡ true
      → is_done id d' ≡ true
  done-Published id (idle c f) k h n = absurd (cc (k c, f))
  done-Published id (unrecorded c f) k h n = absurd (cc (k c, f))
  done-Published id {d} marked k h n = named-mark_all env.now id _ d h n

  -- When no call of the database fails, an event of the table whose sending in this poll Kafka
  -- acknowledged is recorded as published after the poll.
  pub acked_is_recorded :
      (id : ℕ) (s : Session W)
      → ((c : Call) → env.fails c ≡ false)
      → has_event id s.committed ≡ true
      → names id (acked writer (claimed batch_size s.committed) s.world).0 ≡ true
      → is_done id (publish_pending writer env s).1.committed ≡ true
  acked_is_recorded id s = done-Published id (publish_pending-Published writer env s)
