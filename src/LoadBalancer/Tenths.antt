-- ===== src/LoadBalancer/Tenths.antt =====
-- Floats for tests of loadbalancer/models.py: a float is a whole number of tenths.
use Prim.Native.Nat.{◌/◌}
use fusion_code_modelization.Common.{ℕ, ◌+◌, ◌-◌, ◌*◌, ◌≡◌, true, false, ltb, arith}
use fusion_code_modelization.LoadBalancer.Metrics.{FloatOps, FloatOrder}

abbrev pub tenths : FloatOps
tenths = record {
  Carrier = ℕ;
  add = λ a b. a + b;
  sub = λ a b. a - b;
  mul = λ a b. a * b / 10;
  divide = λ a n. a / n;
  tenths = λ n. n;
  quotient = λ a b. a * 10 / b;
  lt = ltb;
}

pub ltb-irreflexive : (a : ℕ) → ltb a a ≡ false
ltb-irreflexive a = ground arith

pub ltb_trans : (a b c : ℕ) → ltb a b ≡ true → ltb b c ≡ true → ltb a c ≡ true
ltb_trans a b c h k = ground arith

abbrev pub order : FloatOrder tenths
order = record { irreflexive = ltb-irreflexive; transitive = ltb_trans }
