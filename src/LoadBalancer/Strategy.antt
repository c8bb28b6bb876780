-- ===== src/LoadBalancer/Strategy.antt =====
-- loadbalancer/strategy.py. `min` and `max` with a key take the first of the best elements.
pub mod Laws
use Prim.Native.Nat.{◌%◌}
use fusion_code_modelization.Common.{
  ℕ, zero, suc, ◌+◌, String, Bool, true, false, Option, none, some, List, [], ◌∷◌, map, find?,
  length, not, ◌==◌, ◌&&◌, if◌then◌else◌,
}
use fusion_code_modelization.Common.Dict
use fusion_code_modelization.Common.Dict.{Dict}
use fusion_code_modelization.LoadBalancer.Metrics.{
  FloatOps, LoadBalanceStrategy, round_robin, least_loaded, weighted_capacity, affinity_based,
  LoadMetric, load_score, available_capacity, is_overloaded, healthy,
}

abbrev pub nth {ℓ} : {A : Type ℓ} → List A → ℕ → Option A
nth [] n = none
nth (x ∷ xs) zero = some x
nth (x ∷ xs) (suc n) = nth xs n

-- `best` or a better element: `better x best` says that `x` takes its place.
abbrev pub best_of {ℓ} : {A : Type ℓ} → (A → A → Bool) → A → List A → A
best_of better best [] = best
best_of better best (x ∷ xs) = best_of better (if better x best then x else best) xs

-- `min(xs, key=…)` and `max(xs, key=…)`, none for an empty list.
unfoldable pub pick {ℓ} : {A : Type ℓ} → (A → A → Bool) → List A → Option A
pick better [] = none
pick better (x ∷ xs) = some (best_of better x xs)

-- `xs`, or `ys` where it is empty.
abbrev pub or_all {ℓ} : {A : Type ℓ} → List A → List A → List A
or_all [] ys = ys
or_all (x ∷ xs) ys = x ∷ xs

abbrev pub same_texts : List String → List String → Bool
same_texts [] [] = true
same_texts (x ∷ xs) (y ∷ ys) = (x == y) && same_texts xs ys
same_texts _ _ = false

-- `RoundRobinStrategy`: the metrics that its cycle goes round, and the place in it.
pub record RoundRobin (F : FloatOps) : Type 0 where
  pub cycle : Option (List (LoadMetric F) × ℕ)
  pub node_ids : List String

module _ (F : FloatOps) where
  abbrev pub ids : List (LoadMetric F) → List String
  ids ms = map (λ m. m.node_id) ms

  -- The cycle that is gone round: a new one where the ids differ.
  abbrev pub current_cycle : RoundRobin F → List (LoadMetric F) → List (LoadMetric F) × ℕ
  current_cycle s ms =
      if same_texts (ids ms) s.node_ids
      then elim s.cycle [ none ↦ (ms, 0) | some c ↦ c ]
      else (ms, 0)

  unfoldable pub round_robin_select :
      RoundRobin F → List (LoadMetric F) → RoundRobin F × Option (LoadMetric F)
  round_robin_select s [] = (s, none)
  round_robin_select s (m ∷ ms) =
      let (round, place) = current_cycle s (m ∷ ms) in
      (
        record { cycle = some (round, place + 1); node_ids = ids (m ∷ ms) },
        nth round (place % length round),
      )

  abbrev pub less_loaded : LoadMetric F → LoadMetric F → Bool
  less_loaded x best = F.lt (load_score F x) (load_score F best)

  unfoldable pub least_loaded_select : List (LoadMetric F) → Option (LoadMetric F)
  least_loaded_select ms = pick less_loaded (or_all (healthy F ms) ms)

  abbrev pub capacity_weight : LoadMetric F → F.Carrier
  capacity_weight m = F.mul (available_capacity F m) m.weight

  abbrev pub roomier : LoadMetric F → LoadMetric F → Bool
  roomier x best = F.lt (capacity_weight best) (capacity_weight x)

  abbrev pub heavier : LoadMetric F → LoadMetric F → Bool
  heavier x best = F.lt best.weight x.weight

  -- `max` over the scored nodes, and over all by weight where none is scored.
  abbrev pub weighted_in : List (LoadMetric F) → List (LoadMetric F) → Option (LoadMetric F)
  weighted_in [] ms = pick heavier ms
  weighted_in (x ∷ xs) ms = pick roomier (x ∷ xs)

  unfoldable pub weighted_select : List (LoadMetric F) → Option (LoadMetric F)
  weighted_select ms = weighted_in (healthy F ms) ms

  unfoldable pub find_node : List (LoadMetric F) → String → Option (LoadMetric F)
  find_node ms node = find? (λ m. m.node_id == node) ms

  -- The node of a session, if it is there and not overloaded.
  abbrev pub usable : Option (LoadMetric F) → Option (LoadMetric F)
  usable none = none
  usable (some m) = if is_overloaded F m then none else some m

  abbrev pub preferred : Dict String → List (LoadMetric F) → String → Option (LoadMetric F)
  preferred affinity ms sid = elim (Dict.get affinity sid) [
    | none ↦ none
    | some node ↦ usable (find_node ms node)
  ]

  abbrev pub remember :
      Dict String → String → Option (LoadMetric F) → Dict String × Option (LoadMetric F)
  remember affinity sid none = (affinity, none)
  remember affinity sid (some m) =
      (if sid == "" then affinity else Dict.set affinity sid m.node_id, some m)

  -- A hit of the affinity table, or the least loaded node, which is then remembered.
  abbrev pub hit_or :
      Option (LoadMetric F)
      → Dict String
      → List (LoadMetric F)
      → String
      → Dict String × Option (LoadMetric F)
  hit_or (some m) affinity ms sid = (affinity, some m)
  hit_or none affinity ms sid = remember affinity sid (least_loaded_select ms)

  unfoldable pub affinity_select :
      Dict String → List (LoadMetric F) → String → Dict String × Option (LoadMetric F)
  affinity_select affinity [] sid = (affinity, none)
  affinity_select affinity (m ∷ ms) sid =
      hit_or (if sid == "" then none else preferred affinity (m ∷ ms) sid) affinity (m ∷ ms) sid

  -- `set_affinity`, `clear_affinity`
  unfoldable pub set_affinity : Dict String → String → String → Dict String
  set_affinity affinity sid node = Dict.set affinity sid node

  unfoldable pub clear_affinity : Dict String → String → Dict String
  clear_affinity affinity sid = Dict.remove affinity sid

  -- An instance of a strategy, with its state.
  pub data Strategy : Type 0 where
    rotating : RoundRobin F → Strategy
    lightest weighting : Strategy
    sticky : Dict String → Strategy

  unfoldable pub get_strategy : LoadBalanceStrategy → Strategy
  get_strategy round_robin = rotating (record { cycle = none; node_ids = [] })
  get_strategy least_loaded = lightest
  get_strategy weighted_capacity = weighting
  get_strategy affinity_based = sticky []

  -- `select`, whatever the instance.
  unfoldable pub select : Strategy → List (LoadMetric F) → String → Strategy × Option (LoadMetric F)
  select (rotating s) ms sid = let (s', m) = round_robin_select s ms in (rotating s', m)
  select lightest ms sid = (lightest, least_loaded_select ms)
  select weighting ms sid = (weighting, weighted_select ms)
  select (sticky affinity) ms sid =
      let (affinity', m) = affinity_select affinity ms sid in (sticky affinity', m)
