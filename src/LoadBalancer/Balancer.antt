-- ===== src/LoadBalancer/Balancer.antt =====
-- `LoadBalancer` of loadbalancer/balancer.py. `state_file` is what state.json holds, none where
-- there is no file that can be read. Ids and times of decisions are left out.
pub mod Laws
pub mod Turns
pub mod Restart
pub mod Relief
pub mod Capacity
mod Tests
use Prim.Native.Nat.{◌%◌}
use fusion_code_modelization.Common.{
  ℕ, suc, ◌+◌, ◌-◌, ◌*◌, String, Bool, true, false, Option, none, some, List, [], ◌∷◌, ◌++◌, map,
  filter, foldl, length, ltb, not, ◌==◌, ◌&&◌, if◌then◌else◌,
}
use fusion_code_modelization.Common.Dict
use fusion_code_modelization.Common.Dict.{Dict}
use fusion_code_modelization.LoadBalancer.Metrics.{
  FloatOps, max_float, LoadBalanceStrategy, round_robin, least_loaded, weighted_capacity,
  affinity_based, LoadMetric, load_score, available_capacity, is_overloaded, healthy, Reason, unset,
  no_nodes_available, no_suitable_node, picked, moving, SchedulingDecision, BalancerConfig,
}
use fusion_code_modelization.LoadBalancer.Strategy.{
  nth, pick, or_all, less_loaded, ids, Strategy, sticky, get_strategy, select, rotating, lightest,
  weighting,
}

pub record SavedState (F : FloatOps) : Type 0 where
  pub config : BalancerConfig F
  pub metrics : Dict (LoadMetric F)
  pub rr_index : ℕ

pub record LoadBalancer (F : FloatOps) : Type 0 where
  pub config : BalancerConfig F
  pub metrics : Dict (LoadMetric F)
  pub strategy : Strategy F
  pub rr_index : ℕ
  pub state_file : Option (SavedState F)

module _ (F : FloatOps) where
  -- `__init__`: the strategy is made before the saved configuration is read.
  abbrev loaded_state : LoadBalancer F → Option (SavedState F) → LoadBalancer F
  loaded_state b none = b
  loaded_state b (some s) = record b {
    config = s.config;
    metrics = s.metrics;
    rr_index = s.rr_index;
  }

  unfoldable pub new_balancer : BalancerConfig F → Option (SavedState F) → LoadBalancer F
  new_balancer config file =
      loaded_state
        (record {
          config = config;
          metrics = [];
          strategy = get_strategy F config.strategy;
          rr_index = 0;
          state_file = file;
        })
        file

  abbrev pub save_state : LoadBalancer F → LoadBalancer F
  save_state b = record b {
    state_file = some (record { config = b.config; metrics = b.metrics; rr_index = b.rr_index });
  }

  abbrev put_metrics : Dict (LoadMetric F) → List (LoadMetric F) → Dict (LoadMetric F)
  put_metrics metrics [] = metrics
  put_metrics metrics (m ∷ ms) = put_metrics (Dict.set metrics m.node_id m) ms

  unfoldable pub update_metrics : LoadBalancer F → List (LoadMetric F) → LoadBalancer F
  update_metrics b ms = record b { metrics = put_metrics b.metrics ms }

  unfoldable pub evaluate_cluster : LoadBalancer F → List (LoadMetric F)
  evaluate_cluster b = Dict.values b.metrics

  -- The next node in turn, and the index moved on.
  unfoldable pub take_turn :
      LoadBalancer F → List (LoadMetric F) → LoadBalancer F × Option (LoadMetric F)
  take_turn b ms =
      let available = or_all (healthy F ms) ms in
      (record b { rr_index = b.rr_index + 1 }, nth available (b.rr_index % length available))

  abbrev ask_strategy :
      LoadBalancer F → List (LoadMetric F) → String → LoadBalancer F × Option (LoadMetric F)
  ask_strategy b ms sid = let (s, m) = select F b.strategy ms sid in (record b { strategy = s }, m)

  -- With the affinity strategy configured, only an instance of it is given the session.
  abbrev pub for_session : Strategy F → String → String
  for_session (sticky affinity) sid = sid
  for_session _ sid = ""

  unfoldable pub choose :
      LoadBalancer F
      → LoadBalanceStrategy
      → List (LoadMetric F)
      → String
      → LoadBalancer F × Option (LoadMetric F)
  choose b round_robin ms sid = take_turn b ms
  choose b affinity_based ms sid = ask_strategy b ms (for_session b.strategy sid)
  choose b least_loaded ms sid = ask_strategy b ms ""
  choose b weighted_capacity ms sid = ask_strategy b ms ""

  abbrev pub no_decision : Reason F → SchedulingDecision F
  no_decision reason = record {
    selected_node = "";
    reason = reason;
    alternatives = [];
    estimated_wait_ms = F.tenths 0;
    strategy = least_loaded;
  }

  unfoldable pub decision_for :
      BalancerConfig F → List (LoadMetric F) → LoadMetric F → SchedulingDecision F
  decision_for config ms m = record {
    selected_node = m.node_id;
    reason = picked config.strategy (load_score F m) (available_capacity F m);
    alternatives = ids F (filter (λ o. not (o.node_id == m.node_id) && not (is_overloaded F o)) ms);
    estimated_wait_ms =
        if is_overloaded F m then F.mul config.cooldown_seconds (F.tenths 10000) else F.tenths 0;
    strategy = config.strategy;
  }

  abbrev pub decide :
      LoadBalancer F
      → List (LoadMetric F)
      → Option (LoadMetric F)
      → LoadBalancer F × SchedulingDecision F
  decide b ms none = (b, no_decision no_suitable_node)
  decide b ms (some m) = (save_state b, decision_for b.config ms m)

  abbrev pub select_in :
      LoadBalancer F → List (LoadMetric F) → String → LoadBalancer F × SchedulingDecision F
  select_in b [] sid = (b, no_decision no_nodes_available)
  select_in b (m ∷ ms) sid =
      let (b', chosen) = choose b b.config.strategy (m ∷ ms) sid in decide b' (m ∷ ms) chosen

  unfoldable pub select_node : LoadBalancer F → String → LoadBalancer F × SchedulingDecision F
  select_node b sid = select_in b (Dict.values b.metrics) sid

  -- `over.active_tasks - over.max_tasks + 1`, and 0 where that is negative.
  abbrev pub excess : LoadMetric F → ℕ
  excess m = m.active_tasks + 1 - m.max_tasks

  abbrev pub relief :
      BalancerConfig F → List (LoadMetric F) → LoadMetric F → LoadMetric F → SchedulingDecision F
  relief config under over target = record {
    selected_node = target.node_id;
    reason = moving over.node_id (excess over) target.node_id;
    alternatives = ids F (filter (λ m. not (m.node_id == target.node_id)) under);
    estimated_wait_ms = F.tenths 0;
    strategy = config.strategy;
  }

  abbrev relieve :
      BalancerConfig F
      → List (LoadMetric F)
      → Option (LoadMetric F)
      → LoadMetric F
      → List (SchedulingDecision F)
  relieve config under none over = []
  relieve config under (some target) over =
      if ltb 0 (excess over) then relief config under over target ∷ [] else []

  abbrev relieve_all :
      BalancerConfig F → List (LoadMetric F) → List (LoadMetric F) → List (SchedulingDecision F)
  relieve_all config under [] = []
  relieve_all config under (over ∷ overs) =
      relieve config under (pick (less_loaded F) under) over ++ relieve_all config under overs

  unfoldable pub rebalance : LoadBalancer F → List (SchedulingDecision F)
  rebalance b =
      let ms = Dict.values b.metrics in
      relieve_all b.config (healthy F ms) (filter (is_overloaded F) ms)

  abbrev sum : List F.Carrier → F.Carrier
  sum xs = foldl F.add (F.tenths 0) xs

  pub record Overview : Type 0 where
    pub total_nodes : ℕ
    pub healthy_nodes : ℕ
    pub overloaded_nodes : ℕ
    pub total_capacity : F.Carrier
    pub avg_load : F.Carrier
    pub nodes : List (LoadMetric F)

  abbrev pub avg_load_of : List (LoadMetric F) → F.Carrier
  avg_load_of ms = F.divide (sum (map (load_score F) ms)) (length ms)

  abbrev overview_of : List (LoadMetric F) → Overview
  overview_of [] = record {
    total_nodes = 0;
    healthy_nodes = 0;
    overloaded_nodes = 0;
    total_capacity = F.tenths 0;
    avg_load = F.tenths 0;
    nodes = [];
  }
  overview_of (m ∷ ms) = record {
    total_nodes = length (m ∷ ms);
    healthy_nodes = length (m ∷ ms) - length (filter (is_overloaded F) (m ∷ ms));
    overloaded_nodes = length (filter (is_overloaded F) (m ∷ ms));
    total_capacity = sum (map (available_capacity F) (m ∷ ms));
    avg_load = avg_load_of (m ∷ ms);
    nodes = m ∷ ms;
  }

  unfoldable pub get_cluster_overview : LoadBalancer F → Overview
  get_cluster_overview b = overview_of (Dict.values b.metrics)
