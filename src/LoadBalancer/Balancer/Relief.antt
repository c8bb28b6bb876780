-- ===== src/LoadBalancer/Balancer/Relief.antt =====
-- `rebalance` of loadbalancer/balancer.py.
use fusion_code_modelization.Common.{
  String, ◌+◌, ◌-◌, ◌≡◌, ◌⊎◌, refl, Bool, false, some, List, [], ◌∷◌, All, map, filter, ltb, ◌&&◌,
  Bool-cases, List-cases, inl, inr, ap, arith,
}
use fusion_code_modelization.Common.Dict
use fusion_code_modelization.LoadBalancer.Metrics.{
  FloatOps, FloatOrder, LoadMetric, load_score, is_overloaded, healthy, SchedulingDecision, Reason,
  moving, BalancerConfig,
}
use fusion_code_modelization.LoadBalancer.Strategy.{less_loaded, pick}
use fusion_code_modelization.LoadBalancer.Strategy.Laws.{Among, pick_lem}
use fusion_code_modelization.LoadBalancer.Balancer.{LoadBalancer, excess, relieve_all, rebalance}

-- What a decision to move tasks says: where to, and why.
abbrev pub told : {F : FloatOps} → SchedulingDecision F → String × Reason F
told d = (d.selected_node, d.reason)

module _ (F : FloatOps) where
  -- An overloaded node that runs more tasks than one below its limit.
  abbrev pub is_overfull : LoadMetric F → Bool
  is_overfull n = is_overloaded F n && ltb n.max_tasks (n.active_tasks + 1)

  -- The tasks of a node above one below its limit go to the target.
  abbrev pub order_to : LoadMetric F → LoadMetric F → String × Reason F
  order_to target n =
      (target.node_id, moving n.node_id (n.active_tasks + 1 - n.max_tasks) target.node_id)

  -- With a healthy node, one of least load takes the tasks of each node that is overfull, in order.
  -- Without one there is no decision.
  abbrev pub IsRelief : List (LoadMetric F) → List (SchedulingDecision F) → Type 0
  IsRelief ms ds =
      ((healthy F ms ≡ []) × (ds ≡ []))
      ⊎ ((m : LoadMetric F) × Among m (healthy F ms)
          × All (λ y. F.lt (load_score F y) (load_score F m) ≡ false) (healthy F ms)
          × (map told ds ≡ map (order_to m) (filter is_overfull ms)))

  relieve_all_none :
      (config : BalancerConfig F) (overs : List (LoadMetric F)) → relieve_all F config [] overs ≡ []
  unfolding pick
  relieve_all_none config [] = refl
  relieve_all_none config (over ∷ overs) = relieve_all_none config overs

  ltb-excess : (n : LoadMetric F) → ltb 0 (excess F n) ≡ ltb n.max_tasks (n.active_tasks + 1)
  ltb-excess n = ground arith

  module _ (config : BalancerConfig F) (under : List (LoadMetric F)) (m : LoadMetric F)
      (found : pick (less_loaded F) under ≡ some m) where
    relieve_all_found :
        (ms : List (LoadMetric F))
        → map told (relieve_all F config under (filter (is_overloaded F) ms))
          ≡ map (order_to m) (filter is_overfull ms)
    relieve_all_found [] = refl
    relieve_all_found (n ∷ ms) = elim (Bool-cases (is_overloaded F n)) [
      | inl over ↦ elim (Bool-cases (ltb n.max_tasks (n.active_tasks + 1))) [
        | inl y ↦ rw (over, found, ltb-excess n, y) (ap (◌∷◌ (order_to m n)) (relieve_all_found ms))
        | inr few ↦ rw (over, found, ltb-excess n, few) (relieve_all_found ms)
      ]
      | inr fine ↦ rw fine (relieve_all_found ms)
    ]

  -- If any node is healthy, there is one of least load among the healthy ones to which the decisions of
  -- `rebalance` move tasks: one decision for each overloaded node that runs more tasks than one below
  -- its limit, in the order of the nodes, which names that node and the number of its tasks above one
  -- below the limit. If no node is healthy, there is no decision.
  pub rebalance-Relieves :
      (o : FloatOrder F) (b : LoadBalancer F) → IsRelief (Dict.values b.metrics) (rebalance F b)
  unfolding rebalance
  rebalance-Relieves o b =
      let ms = Dict.values b.metrics in
      elim (List-cases (healthy F ms)) [
        | inl nobody ↦
            inl (nobody, rw nobody (relieve_all_none b.config (filter (is_overloaded F) ms)))
        | inr (x, rest, e) ↦
            let (m, found, there, best) =
              pick_lem (less_loaded F) (λ a. o.irreflexive (load_score F a))
                (λ a b c. o.transitive (load_score F a) (load_score F b) (load_score F c))
                (healthy F ms) x rest e in
            inr (m, there, best, relieve_all_found b.config (healthy F ms) m found ms)
      ]
