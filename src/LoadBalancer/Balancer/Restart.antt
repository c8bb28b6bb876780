-- ===== src/LoadBalancer/Balancer/Restart.antt =====
-- What a `LoadBalancer` of loadbalancer/balancer.py finds in its state file when it is made anew.
use fusion_code_modelization.Common.{String, ◌≡◌, refl, ap, none, some, List, [], ◌∷◌, true, Option}
use fusion_code_modelization.Common.Dict
use fusion_code_modelization.LoadBalancer.Metrics.{
  FloatOps, FloatOrder, LoadBalanceStrategy, round_robin, least_loaded, weighted_capacity,
  affinity_based, LoadMetric, BalancerConfig,
}
use fusion_code_modelization.LoadBalancer.Strategy.{get_strategy}
use fusion_code_modelization.LoadBalancer.Balancer.{
  SavedState, LoadBalancer, new_balancer, select_node, select_in, decide, choose, for_session,
}
use fusion_code_modelization.LoadBalancer.Balancer.Laws.{suits, choose_lem}

module _ (F : FloatOps) where
  -- The parts of a balancer that its state file holds.
  abbrev pub saved_parts : LoadBalancer F → SavedState F
  saved_parts b = record { config = b.config; metrics = b.metrics; rr_index = b.rr_index }

  -- A selection from known nodes writes the state file: a balancer that is made over it has the
  -- configuration, the metrics and the round-robin index that the old one has then, whatever
  -- configuration it is given. Its strategy object is that of the given configuration.
  pub new_balancer-select_node :
      (o : FloatOrder F) (b : LoadBalancer F) (sid : String) (x : LoadMetric F)
      (rest : List (LoadMetric F)) (given : BalancerConfig F)
      → Dict.values b.metrics ≡ x ∷ rest
      → suits F b.config.strategy b.strategy ≡ true
      → (saved_parts (new_balancer F given (select_node F b sid).0.state_file)
          ≡ saved_parts (select_node F b sid).0)
        × ((new_balancer F given (select_node F b sid).0.state_file).strategy
            ≡ get_strategy F given.strategy)
  unfolding select_node new_balancer
  new_balancer-select_node o b sid x rest given known h =
      let (m, found, there, kept) = choose_lem F o b b.config.strategy x rest sid h in
      (rw (known, select_in) (rw (found, decide)), rw (known, select_in) (rw (found, decide)))

  choose_blind :
      (b : LoadBalancer F) (st : LoadBalanceStrategy) (ms : List (LoadMetric F))
      (sid other : String)
      → for_session F b.strategy sid ≡ for_session F b.strategy other
      → choose F b st ms sid ≡ choose F b st ms other
  unfolding choose
  choose_blind b round_robin ms sid other h = refl
  choose_blind b least_loaded ms sid other h = refl
  choose_blind b weighted_capacity ms sid other h = refl
  choose_blind b affinity_based ms sid other h = rw h

  select_blind :
      (b : LoadBalancer F) (ms : List (LoadMetric F)) (sid other : String)
      → for_session F b.strategy sid ≡ for_session F b.strategy other
      → select_in F b ms sid ≡ select_in F b ms other
  select_blind b [] sid other h = refl
  select_blind b (x ∷ rest) sid other h =
      ap (λ r. decide F r.0 (x ∷ rest) r.1)
        (choose_blind b b.config.strategy (x ∷ rest) sid other h)

  for_session-get_strategy :
      (st : LoadBalanceStrategy) (sid other : String)
      → (st ≡ affinity_based → ⊥)
      → for_session F (get_strategy F st) sid ≡ for_session F (get_strategy F st) other
  unfolding get_strategy
  for_session-get_strategy round_robin sid other h = refl
  for_session-get_strategy least_loaded sid other h = refl
  for_session-get_strategy weighted_capacity sid other h = refl
  for_session-get_strategy affinity_based sid other h = absurd (h refl)

  strategy-new_balancer :
      (given : BalancerConfig F) (file : Option (SavedState F))
      → (new_balancer F given file).strategy ≡ get_strategy F given.strategy
  unfolding new_balancer
  strategy-new_balancer given none = refl
  strategy-new_balancer given (some s) = refl

  -- A balancer that is made with another strategy than affinity_based does not look at the session,
  -- also when the state file that it reads configures affinity_based: its strategy object is made
  -- before the file is read.
  pub select_node_blind :
      (given : BalancerConfig F) (file : Option (SavedState F)) (sid other : String)
      → (given.strategy ≡ affinity_based → ⊥)
      → select_node F (new_balancer F given file) sid
        ≡ select_node F (new_balancer F given file) other
  unfolding select_node
  select_node_blind given file sid other h =
      let b = new_balancer F given file in
      select_blind b (Dict.values b.metrics) sid other (
        rw (strategy-new_balancer given file) (for_session-get_strategy given.strategy sid other h))
