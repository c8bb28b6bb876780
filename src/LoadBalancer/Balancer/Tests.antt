-- ===== src/LoadBalancer/Balancer/Tests.antt =====
-- Runs of the load balancer at concrete nodes. A float is a whole number of tenths here.
use Prim.Native.Nat.{◌%◌}
use fusion_code_modelization.Common.{
  ℕ, ◌+◌, ◌<◌, ◌≡◌, refl, String, some, none, List, [], ◌∷◌, length, false, ◌⊎◌, arith,
}
use fusion_code_modelization.Common.Dict
use fusion_code_modelization.LoadBalancer.Metrics.{
  LoadBalanceStrategy, round_robin, least_loaded, affinity_based, LoadMetric, load_score,
  available_capacity, is_overloaded, healthy, no_nodes_available, BalancerConfig,
}
use fusion_code_modelization.LoadBalancer.Tenths.{tenths, order}
use fusion_code_modelization.LoadBalancer.Strategy.{
  nth, pick, round_robin_select, least_loaded_select, weighted_select, find_node, affinity_select,
  get_strategy, select,
}
use fusion_code_modelization.LoadBalancer.Strategy.Laws.{Among, candidates, affinity_stays}
use fusion_code_modelization.LoadBalancer.Balancer.{
  SavedState, LoadBalancer, new_balancer, update_metrics, take_turn, choose, decision_for,
  select_node, rebalance, get_cluster_overview,
}
use fusion_code_modelization.LoadBalancer.Balancer.Laws.{Kept, select_node_lem, after_selections}
use fusion_code_modelization.LoadBalancer.Balancer.Turns.{
  select_node-turns, turns_until, select_node_fair,
}
use fusion_code_modelization.LoadBalancer.Balancer.Relief.{IsRelief, rebalance-Relieves}

program : Unit {0}
unfolding load_score available_capacity is_overloaded pick round_robin_select least_loaded_select
    weighted_select find_node affinity_select get_strategy select new_balancer update_metrics
    take_turn choose decision_for select_node rebalance get_cluster_overview Dict.get Dict.set
program = tt

abbrev node : String → ℕ → ℕ → LoadMetric tenths
node name cpu tasks = record {
  node_id = name;
  cpu_percent = cpu;
  memory_percent = 0;
  gpu_percent = 0;
  active_tasks = tasks;
  max_tasks = 4;
  weight = 10;
}

abbrev config : LoadBalanceStrategy → BalancerConfig tenths
config st = record {
  strategy = st;
  overload_threshold = 800;
  cooldown_seconds = 300;
  max_retries = 3;
  affinity_ttl_seconds = 36000;
}

abbrev three : List (LoadMetric tenths)
three = node "a" 500 1 ∷ node "b" 100 1 ∷ node "c" 100 4 ∷ []

abbrev balancer : LoadBalanceStrategy → LoadBalancer tenths
balancer st = update_metrics tenths (new_balancer tenths (config st) none) three

-- Node `c` is full: the two others take turns, and the least loaded of them takes its tasks.
selections :
    ((select_node tenths (balancer round_robin) "").1.selected_node ≡ "a")
    × ((select_node tenths
          (after_selections tenths (balancer round_robin) ("" ∷ []))
          "").1.selected_node
        ≡ "b")
    × ((select_node tenths
          (after_selections tenths (balancer round_robin) ("" ∷ "" ∷ []))
          "").1.selected_node
        ≡ "a")
    × ((select_node tenths (balancer least_loaded) "").1.selected_node ≡ "b")
    × (length (rebalance tenths (balancer least_loaded)) ≡ 1)
    × ((get_cluster_overview tenths (balancer least_loaded)).healthy_nodes ≡ 2)
unfolding program
selections = (refl, refl, refl, refl, refl, refl)

-- Without metrics there is no node.
no_node :
    (select_node tenths (new_balancer tenths (config least_loaded) none) "").1.reason
    ≡ no_nodes_available
unfolding program
no_node = refl

three_known : (st : LoadBalanceStrategy) → Dict.values (balancer st).metrics ≡ three
unfolding program
three_known st = refl

is_robin : (balancer round_robin).config.strategy ≡ round_robin
unfolding program
is_robin = refl

select_node_lem_example :
    (m : LoadMetric tenths) × Among m three
    × ((is_overloaded tenths m ≡ false) ⊎ (healthy tenths three ≡ []))
    × ((select_node tenths (balancer affinity_based) "s").1.selected_node ≡ m.node_id)
    × ((select_node tenths (balancer affinity_based) "s").1.strategy
        ≡ (balancer affinity_based).config.strategy)
    × ((select_node tenths (balancer affinity_based) "s").1
        ≡ decision_for tenths (balancer affinity_based).config three m)
    × Kept tenths
        (balancer affinity_based).config.strategy
        (balancer affinity_based)
        (select_node tenths (balancer affinity_based) "s").0
unfolding program
select_node_lem_example =
    select_node_lem tenths order (balancer affinity_based) "s" (node "a" 500 1)
      (node "b" 100 1 ∷ node "c" 100 4 ∷ []) (three_known affinity_based) refl

select_node-turns_example :
    (m : LoadMetric tenths) × (nth
        (candidates tenths three)
        (((balancer round_robin).rr_index + 1) % length (candidates tenths three))
      ≡ some m)
    × ((select_node tenths (after_selections tenths (balancer round_robin) ("s" ∷ [])) "t").1
        ≡ decision_for tenths (balancer round_robin).config three m)
select_node-turns_example =
    select_node-turns tenths (balancer round_robin) ("s" ∷ []) "t" (node "a" 500 1)
      (node "b" 100 1 ∷ node "c" 100 4 ∷ []) (three_known round_robin) is_robin

two_candidates : length (candidates tenths three) ≡ 2
unfolding program
two_candidates = refl

abbrev one_session : List String
one_session = "s" ∷ []

one_before : length one_session ≡ turns_until (length (candidates tenths three)) 0 1
unfolding program
one_before = refl

select_node_fair_example :
    (m : LoadMetric tenths) × (1 < length (candidates tenths three))
    × (nth (candidates tenths three) 1 ≡ some m)
    × ((select_node tenths (after_selections tenths (balancer round_robin) ("s" ∷ [])) "t").1
        ≡ decision_for tenths (balancer round_robin).config three m)
select_node_fair_example =
    select_node_fair tenths (balancer round_robin) (node "a" 500 1)
      (node "b" 100 1 ∷ node "c" 100 4 ∷ []) 1 one_session "t" (three_known round_robin) is_robin
      (rw two_candidates (omega arith)) (unfold program in one_before)

rebalance-Relieves_example :
    IsRelief tenths
      (Dict.values (balancer least_loaded).metrics)
      (rebalance tenths (balancer least_loaded))
rebalance-Relieves_example = rebalance-Relieves tenths order (balancer least_loaded)

abbrev sticky_file : SavedState tenths
sticky_file = record { config = config affinity_based; metrics = []; rr_index = 0 }

chosen : (affinity_select tenths [] three "s").1 ≡ some (node "b" 100 1)
unfolding program
chosen = refl

affinity_stays_example :
    affinity_select tenths (affinity_select tenths [] three "s").0 three "s"
    ≡ ((affinity_select tenths [] three "s").0, some (node "b" 100 1))
unfolding program
affinity_stays_example =
    affinity_stays tenths order [] three three "s" (node "b" 100 1) (node "b" 100 1) refl chosen
      refl refl
