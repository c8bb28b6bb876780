-- ===== src/LoadBalancer/Balancer/Laws.antt =====
-- Which node `select_node` of loadbalancer/balancer.py takes.
use Prim.Native.Nat.{◌%◌}
use native.Mathlib.Nat.{mod-lt}
use fusion_code_modelization.Common.{
  zero, ◌+◌, ◌<◌, String, ◌≡◌, refl, sym, ap, ◌∙◌, Bool, true, false, some, List, [], ◌∷◌, length,
  arith, not, ◌⊎◌, inl, inr,
}
use fusion_code_modelization.Common.Dict
use fusion_code_modelization.LoadBalancer.Metrics.{
  FloatOps, FloatOrder, LoadBalanceStrategy, round_robin, least_loaded, weighted_capacity,
  affinity_based, LoadMetric, healthy, is_overloaded,
}
use fusion_code_modelization.LoadBalancer.Strategy.{
  nth, pick, or_all, Strategy, rotating, lightest, weighting, sticky, select, roomier, heavier,
  weighted_in, weighted_select,
}
use fusion_code_modelization.LoadBalancer.Strategy.Laws.{
  Among, Among-or_all, best_of-Among, or_all-cons, nth-Among, candidates, least_loaded_lem,
  affinity_lem,
}
use fusion_code_modelization.LoadBalancer.Balancer.{
  LoadBalancer, take_turn, choose, for_session, select_in, decide, decision_for, select_node,
  save_state,
}

module _ (F : FloatOps) where
  -- The instance is not a cycle over old metrics, unless turns are taken without it.
  abbrev pub suits : LoadBalanceStrategy → Strategy F → Bool
  suits round_robin _ = true
  suits _ (rotating s) = false
  suits _ _ = true

  weighted_lem :
      (hs : List (LoadMetric F)) (x : LoadMetric F) (rest : List (LoadMetric F))
      → (m : LoadMetric F) × (weighted_in F hs (x ∷ rest) ≡ some m) × Among m (or_all hs (x ∷ rest))
  unfolding pick
  weighted_lem [] x rest = (_, refl, best_of-Among (heavier F) x rest)
  weighted_lem (h ∷ hs) x rest = (_, refl, best_of-Among (roomier F) h hs)

  take_turn_lem :
      (b : LoadBalancer F) (x : LoadMetric F) (rest : List (LoadMetric F))
      → (m : LoadMetric F) × (nth
            (candidates F (x ∷ rest))
            (b.rr_index % length (candidates F (x ∷ rest)))
          ≡ some m)
        × Among m (candidates F (x ∷ rest))
  take_turn_lem b x rest =
      let (z, more, e) = or_all-cons (healthy F (x ∷ rest)) (x ∷ rest) x rest refl in
      let room : zero < length (candidates F (x ∷ rest)) = rw e (omega arith) in
      nth-Among (candidates F (x ∷ rest)) (b.rr_index % length (candidates F (x ∷ rest)))
        (mod-lt b.rr_index room)

  abbrev is_rotating : Strategy F → Bool
  is_rotating (rotating s) = true
  is_rotating _ = false

  select_lem :
      (o : FloatOrder F) (s : Strategy F) (x : LoadMetric F) (rest : List (LoadMetric F))
      (sid : String)
      → is_rotating s ≡ false
      → (m : LoadMetric F) × ((select F s (x ∷ rest) sid).1 ≡ some m)
        × Among m (candidates F (x ∷ rest))
        × (is_rotating (select F s (x ∷ rest) sid).0 ≡ false)
  unfolding select weighted_select
  select_lem o (rotating s) x rest sid h = cc
  select_lem o lightest x rest sid h =
      let (m, found, there, best) = least_loaded_lem F o x rest in (m, found, there, refl)
  select_lem o weighting x rest sid h =
      let (m, found, there) = weighted_lem (healthy F (x ∷ rest)) x rest in (m, found, there, refl)
  select_lem o (sticky affinity) x rest sid h =
      let (m, found, there, told) = affinity_lem F o affinity x rest sid in (m, found, there, refl)

  -- What a choice leaves of the balancer.
  pub record Kept (st : LoadBalanceStrategy) (b b' : LoadBalancer F) : Type 0 where
    pub config : b'.config ≡ b.config
    pub metrics : b'.metrics ≡ b.metrics
    pub suited : suits st b'.strategy ≡ true

  not_rotating : (s : Strategy F) → suits least_loaded s ≡ true → is_rotating s ≡ false
  not_rotating (rotating s) h = sym h
  not_rotating lightest h = refl
  not_rotating weighting h = refl
  not_rotating (sticky affinity) h = refl

  all_suit : (st : LoadBalanceStrategy) (s : Strategy F) → is_rotating s ≡ false → suits st s ≡ true
  all_suit round_robin s h = refl
  all_suit st (rotating s) h = cc
  all_suit least_loaded lightest h = refl
  all_suit least_loaded weighting h = refl
  all_suit least_loaded (sticky a) h = refl
  all_suit weighted_capacity lightest h = refl
  all_suit weighted_capacity weighting h = refl
  all_suit weighted_capacity (sticky a) h = refl
  all_suit affinity_based lightest h = refl
  all_suit affinity_based weighting h = refl
  all_suit affinity_based (sticky a) h = refl

  pub choose_lem :
      (o : FloatOrder F) (b : LoadBalancer F) (st : LoadBalanceStrategy) (x : LoadMetric F)
      (rest : List (LoadMetric F)) (sid : String)
      → suits st b.strategy ≡ true
      → (m : LoadMetric F) × ((choose F b st (x ∷ rest) sid).1 ≡ some m)
        × Among m (candidates F (x ∷ rest))
        × Kept st b (choose F b st (x ∷ rest) sid).0
  unfolding choose take_turn
  choose_lem o b round_robin x rest sid h =
      let (m, found, there) = take_turn_lem b x rest in
      (m, found, there, record { config = refl; metrics = refl; suited = refl })
  choose_lem o b least_loaded x rest sid h =
      let (m, found, there, still) =
        select_lem o b.strategy x rest "" (not_rotating b.strategy h) in
      (
        m,
        found,
        there,
        record { config = refl; metrics = refl; suited = all_suit least_loaded _ still },
      )
  choose_lem o b weighted_capacity x rest sid h =
      let (m, found, there, still) =
        select_lem o b.strategy x rest "" (not_rotating b.strategy h) in
      (
        m,
        found,
        there,
        record { config = refl; metrics = refl; suited = all_suit weighted_capacity _ still },
      )
  choose_lem o b affinity_based x rest sid h =
      let (m, found, there, still) =
        select_lem o b.strategy x rest (for_session F b.strategy sid) (not_rotating b.strategy h) in
      (
        m,
        found,
        there,
        record { config = refl; metrics = refl; suited = all_suit affinity_based _ still },
      )

  -- With nodes known and an instance that suits the configuration, `select_node` names one of them in
  -- its decision, which is not overloaded if any of them is not, and the decision is the one that its
  -- metrics give; the configuration and the metrics stay, and the instance still suits the
  -- configuration.
  pub select_node_lem :
      (o : FloatOrder F) (b : LoadBalancer F) (sid : String) (x : LoadMetric F)
      (rest : List (LoadMetric F))
      → Dict.values b.metrics ≡ x ∷ rest
      → suits b.config.strategy b.strategy ≡ true
      → (m : LoadMetric F) × Among m (x ∷ rest)
        × ((is_overloaded F m ≡ false) ⊎ (healthy F (x ∷ rest) ≡ []))
        × ((select_node F b sid).1.selected_node ≡ m.node_id)
        × ((select_node F b sid).1.strategy ≡ b.config.strategy)
        × ((select_node F b sid).1 ≡ decision_for F b.config (x ∷ rest) m)
        × Kept b.config.strategy b (select_node F b sid).0
  unfolding select_node decision_for
  select_node_lem o b sid x rest known h =
      let (m, found, there, kept) = choose_lem o b b.config.strategy x rest sid h in
      let decided : (select_node F b sid).1 ≡ decision_for F b.config (x ∷ rest) m =
        rw (known, select_in)
          (rw (found, decide) (ap (λ c. decision_for F c (x ∷ rest) m) kept.config)) in
      let (among, idle) = Among-or_all (λ n. not (is_overloaded F n)) m (x ∷ rest) there in
      (
        m,
        among,
        elim idle [ inl e ↦ inl (not_overloaded m e) | inr e ↦ inr e ],
        ap (λ d. d.selected_node) decided,
        ap (λ d. d.strategy) decided,
        decided,
        rw (known, select_in)
            (rw (found, decide)
              (record { config = kept.config; metrics = kept.metrics; suited = kept.suited })),
      )
    where
      not_overloaded :
          (n : LoadMetric F) → not (is_overloaded F n) ≡ true → is_overloaded F n ≡ false
      not_overloaded n e = ground arith

  -- The balancer after a selection for each session.
  abbrev pub after_selections : LoadBalancer F → List String → LoadBalancer F
  after_selections b [] = b
  after_selections b (sid ∷ sids) = after_selections (select_node F b sid).0 sids

  choose_turn :
      (b : LoadBalancer F) (st : LoadBalanceStrategy) (ms : List (LoadMetric F)) (sid : String)
      → st ≡ round_robin
      → choose F b st ms sid ≡ take_turn F b ms
  unfolding choose
  choose_turn b round_robin ms sid h = refl
  choose_turn b least_loaded ms sid h = cc
  choose_turn b weighted_capacity ms sid h = cc
  choose_turn b affinity_based ms sid h = cc

  -- With round robin configured, a selection decides for the candidate whose place is the index, taken
  -- modulo their number, moves the index on by one, and writes the state file.
  pub select_node-turn :
      (b : LoadBalancer F) (sid : String) (x : LoadMetric F) (rest : List (LoadMetric F))
      → Dict.values b.metrics ≡ x ∷ rest
      → b.config.strategy ≡ round_robin
      → (m : LoadMetric F) × (nth
            (candidates F (x ∷ rest))
            (b.rr_index % length (candidates F (x ∷ rest)))
          ≡ some m)
        × (select_node F b sid ≡ (
          save_state F (record b { rr_index = b.rr_index + 1 }),
          decision_for F b.config (x ∷ rest) m,
        ))
  unfolding select_node take_turn
  select_node-turn b sid x rest known robin =
      let (m, found, there) = take_turn_lem b x rest in
      (
        m,
        found,
        rw (known, select_in)
            (ap (λ r. decide F r.0 (x ∷ rest) r.1)
                (choose_turn b b.config.strategy (x ∷ rest) sid robin)
              ∙ ap (decide F (record b { rr_index = b.rr_index + 1 }) (x ∷ rest)) found),
      )
