-- ===== src/Startup/Documented.antt =====
-- What the mains rely on of pgxpool and kafka-go, and rules for calls that may fail.
use high_throughput_payments.Base.{ℕ, String, string_eq, ◌≡◌, refl, List, ◌∷◌}
use high_throughput_payments.Exec.{Exec, Result, ok, err}
use high_throughput_payments.Exec.Ensures.{Ensures}
use high_throughput_payments.Db.{EventType}
use high_throughput_payments.Startup.{Fatal, Platform, defer_to}

-- What pgx and kafka-go say of connections: `connections` are those that are open, of which `Close`
-- ends one; and of topics, which stay, and exist when CreateTopics has returned no error.
pub record Documented {W C : Type 0} (p : Platform W C) : Type 1 where
  pub connections : W → List C
  pub Exists : EventType → W → Type 0
  pub pool_opens :
      (url : String) (w w' : W) (c : C)
      → p.open_pool url w ≡ (ok c, w')
      → connections w' ≡ c ∷ connections w
  pub pool_fails :
      (url : String) (w w' : W) (e : Fatal)
      → p.open_pool url w ≡ (err e, w')
      → connections w' ≡ connections w
  pub dial_opens :
      (a : String) (w w' : W) (c : C) → p.dial a w ≡ (ok c, w') → connections w' ≡ c ∷ connections w
  pub dial_fails :
      (a : String) (w w' : W) (e : Fatal)
      → p.dial a w ≡ (err e, w')
      → connections w' ≡ connections w
  pub close_ends :
      (c : C) (w : W) (cs : List C) → connections w ≡ c ∷ cs → connections (p.close c w) ≡ cs
  pub ping_keeps :
      (c : C) (w w' : W) (r : Result Fatal (Unit {0}))
      → p.ping c w ≡ (r, w')
      → connections w' ≡ connections w
  pub controller_keeps :
      (c : C) (w w' : W) (r : Result Fatal (String × ℕ))
      → p.controller c w ≡ (r, w')
      → connections w' ≡ connections w
  pub create_keeps :
      (c : C) (t : EventType) (n : ℕ) (w w' : W) (r : Result Fatal (Unit {0}))
      → p.create_topics c t n w ≡ (r, w')
      → connections w' ≡ connections w
  pub dotenv_keeps : (w : W) → connections (p.load_dotenv w) ≡ connections w
  pub created :
      (c : C) (t : EventType) (n : ℕ) (w w' : W)
      → p.create_topics c t n w ≡ (ok tt, w')
      → Exists t w'
  pub dial_topics :
      (a : String) (t : EventType) (w w' : W) (r : Result Fatal C)
      → p.dial a w ≡ (r, w')
      → Exists t w
      → Exists t w'
  pub controller_topics :
      (c : C) (t : EventType) (w w' : W) (r : Result Fatal (String × ℕ))
      → p.controller c w ≡ (r, w')
      → Exists t w
      → Exists t w'
  pub create_keeps_topics :
      (c : C) (t u : EventType) (n : ℕ) (w w' : W) (r : Result Fatal (Unit {0}))
      → p.create_topics c t n w ≡ (r, w')
      → Exists u w
      → Exists u w'
  pub close_topics : (c : C) (t : EventType) (w : W) → Exists t w → Exists t (p.close c w)

module _ {S E A : Type 0} where
  pub Ensures-call :
      {Q : Result E A → S → Type 0} {m : Exec S E A} {s : S}
      → ((a : A) (s' : S) → m s ≡ (ok a, s') → Q (ok a) s')
      → ((e : E) (s' : S) → m s ≡ (err e, s') → Q (err e) s')
      → Ensures Q m s
  Ensures-call {Q} {m} {s} good bad = record { at = by (m s).0 (m s).1 refl }
    where
      by : (r : Result E A) (s' : S) → m s ≡ (r, s') → Q r s'
      by (ok a) s' q = good a s' q
      by (err e) s' q = bad e s' q

  pub Ensures-defer_to :
      {Q : Result E A → S → Type 0} (f : S → S) (m : Exec S E A) {s : S}
      → Ensures (λ r s'. Q r (f s')) m s
      → Ensures Q (defer_to f m) s
  unfolding defer_to
  Ensures-defer_to f m h = record { at = h.at }

  pub Ensures-weaken :
      {P Q : Result E A → S → Type 0} {m : Exec S E A} {s : S}
      → Ensures P m s
      → ((r : Result E A) (s' : S) → P r s' → Q r s')
      → Ensures Q m s
  Ensures-weaken h f = record { at = f _ _ h.at }
