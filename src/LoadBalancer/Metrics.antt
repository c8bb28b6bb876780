-- ===== src/LoadBalancer/Metrics.antt =====
-- loadbalancer/models.py. Python's floats are a parameter; counts are natural numbers.
use fusion_code_modelization.Common.{
  ℕ, String, ◌≡◌, Bool, true, false, List, ◌||◌, leb, filter, not, if◌then◌else◌,
}

-- The operations of `float` that the package uses: `tenths n` is the literal `n / 10`, and
-- `quotient a b` is Python's `a / b` of two integers.
pub record FloatOps : Type 1 where
  pub Carrier : Type 0
  pub add : Carrier → Carrier → Carrier
  pub sub : Carrier → Carrier → Carrier
  pub mul : Carrier → Carrier → Carrier
  pub divide : Carrier → ℕ → Carrier
  pub tenths : ℕ → Carrier
  pub quotient : ℕ → ℕ → Carrier
  pub lt : Carrier → Carrier → Bool

-- What holds of `<` on every float, NaN too.
pub record FloatOrder (F : FloatOps) : Type 0 where
  pub irreflexive : (a : F.Carrier) → F.lt a a ≡ false
  pub transitive : (a b c : F.Carrier) → F.lt a b ≡ true → F.lt b c ≡ true → F.lt a c ≡ true

-- `max(a, b)`
abbrev pub max_float : (F : FloatOps) → F.Carrier → F.Carrier → F.Carrier
max_float F a b = if F.lt a b then b else a

pub data LoadBalanceStrategy : Type 0 where
  round_robin least_loaded weighted_capacity affinity_based : LoadBalanceStrategy

pub record LoadMetric (F : FloatOps) : Type 0 where
  pub node_id : String
  pub cpu_percent : F.Carrier
  pub memory_percent : F.Carrier
  pub gpu_percent : F.Carrier
  pub active_tasks : ℕ
  pub max_tasks : ℕ
  pub weight : F.Carrier

module _ (F : FloatOps) where
  unfoldable pub load_score : LoadMetric F → F.Carrier
  load_score m =
      F.mul
        (F.add (F.add (F.mul m.cpu_percent (F.tenths 4)) (F.mul m.memory_percent (F.tenths 3)))
          (F.mul m.gpu_percent (F.tenths 3)))
        m.weight

  unfoldable pub available_capacity : LoadMetric F → F.Carrier
  available_capacity m =
      if leb m.max_tasks 0
      then F.tenths 0
      else max_float F (F.tenths 0) (F.sub (F.tenths 10) (F.quotient m.active_tasks m.max_tasks))

  unfoldable pub is_overloaded : LoadMetric F → Bool
  is_overloaded m = F.lt (F.tenths 800) (load_score m) || leb m.max_tasks m.active_tasks

  -- The nodes that are not overloaded.
  abbrev pub healthy : List (LoadMetric F) → List (LoadMetric F)
  healthy ms = filter (λ m. not (is_overloaded m)) ms

-- Why a decision was made: the texts of `reason`, with what is printed into them.
pub data Reason (F : FloatOps) : Type 0 where
  unset no_nodes_available no_suitable_node : Reason F
  picked : LoadBalanceStrategy → F.Carrier → F.Carrier → Reason F
  moving : String → ℕ → String → Reason F

pub record SchedulingDecision (F : FloatOps) : Type 0 where
  pub selected_node : String
  pub reason : Reason F
  pub alternatives : List String
  pub estimated_wait_ms : F.Carrier
  pub strategy : LoadBalanceStrategy

pub record BalancerConfig (F : FloatOps) : Type 0 where
  pub strategy : LoadBalanceStrategy
  pub overload_threshold : F.Carrier
  pub cooldown_seconds : F.Carrier
  pub max_retries : ℕ
  pub affinity_ttl_seconds : F.Carrier
