-- ===== src/Http.antt =====
-- What the HTTP handlers write: `writeJSON` and `writeError` of order-service/handlers.go and of
-- payment-service/webhook.go. The header and the encoding of the body are not modelled.
use high_throughput_payments.Base.{ℕ, String}
use high_throughput_payments.Exec.{Exec, Result, ok, err, or_else}
use high_throughput_payments.Db.{Session, Order, Error}

pub data Body : Type 0 where
  no_body : Body
  -- `{"status":"ready"}`
  ready_body : Body
  error_body : String → Body
  order_body : Order → Body

pub record Response : Type 0 where
  pub status : ℕ
  pub body : Body

abbrev pub write_error : ℕ → String → Response
write_error status message = record { status = status; body = Body.error_body message }

-- `w.WriteHeader(status)` with no body
abbrev pub write_header : ℕ → Response
write_header status = record { status = status; body = Body.no_body }

abbrev pub write_order : ℕ → Order → Response
write_order status order = record { status = status; body = Body.order_body order }

-- A handler ends with the response that it has written, on an early return too.
abbrev pub Handling : Type 0 → Type 0 → Type 0
Handling W A = Exec (Session W) Response A

abbrev pub written : Result Response Response → Response
written (ok r) = r
written (err r) = r

abbrev pub respond : {W : Type 0} → Handling W Response → Session W → Response × Session W
respond m s = let (r, s') = m s in (written r, s')

-- `if err != nil { writeError(…); return }`
abbrev pub or_respond : {W A : Type 0} → Exec (Session W) Error A → Response → Handling W A
or_respond m r = or_else m (λ _. r)
