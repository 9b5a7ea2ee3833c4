-- ===== src/Interleaving/Coherent/Booleans.antt =====
-- Booleans of the locks that are held.
use high_throughput_payments.Base.{◌≡◌, Bool, true, false, ◌&&◌, arith}

pub and_true : (b : Bool) → (b && true) ≡ false → b ≡ false
and_true b h = ground arith

pub and_false : (b : Bool) → (b && false) ≡ false
and_false b = ground arith
