-- ===== src/Startup/Shutdown.antt =====
-- The `main` functions from the server on: the wait for a signal, the shutdown and what is deferred.
-- net/http and os/signal are an interface, whose calls act on the world of the platform.
use high_throughput_payments.Base.{ℕ, ◌≡◌, sym, ap, subst, refl, ◌∙◌, List, ◌∷◌}
use high_throughput_payments.Exec.{Exec, Result, ok, pure, fail, attempt, ◌>>=◌, ◌>>◌}
use high_throughput_payments.Http.{Response, Body}
use high_throughput_payments.Startup.{
  Fatal, listen_error, Platform, Running, Service, main, defer_to,
}
use high_throughput_payments.Startup.Documented.{Documented}
use high_throughput_payments.Startup.Ready.{IsReady, main-IsReady}

-- what ends the wait: `ctx.Done()`, or an error of ListenAndServe that is not ErrServerClosed
pub data Ending : Type 0 where
  signalled listen_failed : Ending

-- `healthHandler`
abbrev health_handler : Response
health_handler = record { status = 200; body = Body.ready_body }

-- the server and the context of one service
pub record HttpServer (W : Type 0) : Type 0 where
  pub wait : W → Ending × W
  -- `server.Shutdown` with a deadline in seconds
  pub shutdown : ℕ → Exec W Fatal (Unit {0})

abbrev pub shutdown_timeout : ℕ
shutdown_timeout = 10

module _ {W C : Type 0} (p : Platform W C) (server : HttpServer W) where
  -- An error of Shutdown is logged. `log.Fatal` ends the process, and nothing deferred runs.
  stop : Running C → Ending → Exec W Fatal (Unit {0})
  stop r listen_failed = fail listen_error
  stop r signalled =
      defer_to (p.close r.pool) do attempt (server.shutdown shutdown_timeout); pure tt

  -- the rest of `main`
  serve : Running C → Exec W Fatal (Unit {0})
  unfolding stop
  serve r w = let (ending, w1) = server.wait w in stop r ending w1

  -- the whole of `main`
  pub program : Service → Exec W Fatal (Unit {0})
  unfolding serve
  program s = do r ← main p s; serve r

  -- What is said of the server: neither the wait nor Shutdown opens or closes a connection of main.
  pub record LeavesConnections (k : Documented p) : Type 0 where
    pub wait_keeps : (w : W) → k.connections (server.wait w).1 ≡ k.connections w
    pub shutdown_keeps : (n : ℕ) (w : W) → k.connections (server.shutdown n w).1 ≡ k.connections w

  module _ (k : Documented p) (l : LeavesConnections k) where
    abbrev Stopped : List C → Result Fatal (Unit {0}) × W → Type 0
    Stopped cs y = (y.0 ≡ ok tt) × (k.connections y.1 ≡ cs)

    stop-Stopped :
        (r : Running C) (w : W) (cs : List C)
        → k.connections w ≡ r.pool ∷ cs
        → Stopped cs (stop r signalled w)
    unfolding stop defer_to attempt ◌>>=◌ pure
    stop-Stopped r w cs q =
        (refl, k.close_ends r.pool _ cs (l.shutdown_keeps shutdown_timeout w ∙ q))

    serve-Stopped :
        (r : Running C) (w w1 : W) (cs : List C)
        → k.connections w ≡ r.pool ∷ cs
        → server.wait w ≡ (signalled, w1)
        → Stopped cs (serve r w)
    unfolding serve
    serve-Stopped r w w1 cs q e =
        subst (λ y. Stopped cs (stop r y.0 y.1)) (sym e)
          (stop-Stopped r w1 cs (ap (λ y. k.connections y.1) (sym e) ∙ l.wait_keeps w ∙ q))

    -- If connections behave as documented, also while the server waits and shuts down: a service
    -- whose startup has ended without an error, and whose wait ends with a signal, returns from
    -- main, also when Shutdown returns an error, and then has the connections that were open before
    -- it started, its pool being closed.
    pub program-Stopped :
        (s : Service) (r : Running C) (w w1 w2 : W)
        → main p s w ≡ (ok r, w1)
        → server.wait w1 ≡ (signalled, w2)
        → ((program s w).0 ≡ ok tt) × (k.connections (program s w).1 ≡ k.connections w)
    unfolding program ◌>>=◌
    program-Stopped s r w w1 w2 q e =
        let ready = subst (λ y. IsReady p k s w y.0 y.1) q (main-IsReady p k s w).at in
        rw q (serve-Stopped r w1 w2 (k.connections w) ready.0 e)
