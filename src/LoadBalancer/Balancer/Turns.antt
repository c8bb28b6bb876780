-- ===== src/LoadBalancer/Balancer/Turns.antt =====
-- Round robin in loadbalancer/balancer.py: the turns that a sequence of selections takes.
use Prim.Native.Nat.{◌%◌}
use native.Mathlib.Nat.{mod-lt, mod-eq_of_lt, mod-add-mod, add-mod_left}
use fusion_code_modelization.Common.{
  ℕ, ◌+◌, ◌-◌, ◌<◌, String, ◌≡◌, refl, sym, ap, ◌∙◌, some, List, [], ◌∷◌, length, arith, leb,
  leb→le, Bool-cases, inl, inr, if◌then◌else◌,
}
use fusion_code_modelization.Common.Dict
use fusion_code_modelization.LoadBalancer.Metrics.{FloatOps, round_robin, LoadMetric}
use fusion_code_modelization.LoadBalancer.Strategy.{nth}
use fusion_code_modelization.LoadBalancer.Strategy.Laws.{candidates}
use fusion_code_modelization.LoadBalancer.Balancer.{LoadBalancer, decision_for, select_node}
use fusion_code_modelization.LoadBalancer.Balancer.Laws.{select_node-turn, after_selections}

-- From the index `r`, how many of the `n` places come before the place `i`.
abbrev pub turns_until : ℕ → ℕ → ℕ → ℕ
turns_until n r i = if leb (r % n) i then i - r % n else n - r % n + i

-- Fewer than `n` turns lead to the place.
turn_of : (n r i : ℕ) → i < n → (turns_until n r i < n) × ((r + turns_until n r i) % n ≡ i)
turn_of n r i h = elim (Bool-cases (leb (r % n) i)) [
  | inl p ↦ rw p (
    omega (arith, leb→le (r % n) i p),
    meets (i - r % n) i (omega (arith, leb→le (r % n) i p)) (mod-eq_of_lt h),
  )
  | inr p ↦ rw p (
    ground arith,
    meets (n - r % n + i) (n + i) (omega (arith, mod-lt r {m = n} (omega arith)))
        (add-mod_left n i ∙ mod-eq_of_lt h),
  )
]
  where
    meets : (k s : ℕ) → r % n + k ≡ s → s % n ≡ i → (r + k) % n ≡ i
    meets k s e q = sym (mod-add-mod r n k) ∙ ap (λ t. t % n) e ∙ q

module _ (F : FloatOps) where
  -- What a balancer in turn keeps.
  record Turned (b b' : LoadBalancer F) (n : ℕ) : Type 0 where
    config : b'.config ≡ b.config
    metrics : b'.metrics ≡ b.metrics
    moved : b'.rr_index ≡ b.rr_index + n

  one_turn :
      (b : LoadBalancer F) (sid : String) (x : LoadMetric F) (rest : List (LoadMetric F))
      → Dict.values b.metrics ≡ x ∷ rest
      → b.config.strategy ≡ round_robin
      → Turned b (select_node F b sid).0 1
  one_turn b sid x rest known robin =
      let (m, found, e) = select_node-turn F b sid x rest known robin in
      record {
        config = ap (λ r. r.0.config) e;
        metrics = ap (λ r. r.0.metrics) e;
        moved = ap (λ r. r.0.rr_index) e;
      }

  turns :
      (b : LoadBalancer F) (sids : List String) (x : LoadMetric F) (rest : List (LoadMetric F))
      → Dict.values b.metrics ≡ x ∷ rest
      → b.config.strategy ≡ round_robin
      → Turned b (after_selections F b sids) (length sids)
  turns b [] x rest known robin = record { config = refl; metrics = refl; moved = omega arith }
  turns b (sid ∷ sids) x rest known robin =
      let one = one_turn b sid x rest known robin in
      let b' = (select_node F b sid).0 in
      let more =
        turns b' sids x rest (ap Dict.values one.metrics ∙ known)
          (ap (λ c. c.strategy) one.config ∙ robin) in
      record {
        config = more.config ∙ one.config;
        metrics = more.metrics ∙ one.metrics;
        moved = more.moved ∙ omega (arith, one.moved);
      }

  -- With round robin configured and the metrics unchanged, the selection after `sids` takes the
  -- candidate whose place is the first index plus their number, modulo the number of candidates.
  pub select_node-turns :
      (b : LoadBalancer F) (sids : List String) (sid : String) (x : LoadMetric F)
      (rest : List (LoadMetric F))
      → Dict.values b.metrics ≡ x ∷ rest
      → b.config.strategy ≡ round_robin
      → (m : LoadMetric F) × (nth
            (candidates F (x ∷ rest))
            ((b.rr_index + length sids) % length (candidates F (x ∷ rest)))
          ≡ some m)
        × ((select_node F (after_selections F b sids) sid).1 ≡ decision_for F b.config (x ∷ rest) m)
  select_node-turns b sids sid x rest known robin =
      let b' = after_selections F b sids in
      let t = turns b sids x rest known robin in
      let (m, found, e) =
        select_node-turn F b' sid x rest (ap Dict.values t.metrics ∙ known)
          (ap (λ c. c.strategy) t.config ∙ robin) in
      (
        m,
        ap (λ r. nth (candidates F (x ∷ rest)) (r % length (candidates F (x ∷ rest)))) (sym t.moved)
            ∙ found,
        ap (λ r. r.1) e ∙ ap (λ c. decision_for F c (x ∷ rest) m) t.config,
      )

  -- No candidate waits for ever: with round robin configured and the metrics unchanged, the candidate
  -- at any place i of n is taken after `turns_until` further selections, for whatever sessions, and
  -- these are fewer than n.
  pub select_node_fair :
      (b : LoadBalancer F) (x : LoadMetric F) (rest : List (LoadMetric F)) (i : ℕ)
      (sids : List String) (sid : String)
      → Dict.values b.metrics ≡ x ∷ rest
      → b.config.strategy ≡ round_robin
      → i < length (candidates F (x ∷ rest))
      → length sids ≡ turns_until (length (candidates F (x ∷ rest))) b.rr_index i
      → (m : LoadMetric F) × (length sids < length (candidates F (x ∷ rest)))
        × (nth (candidates F (x ∷ rest)) i ≡ some m)
        × ((select_node F (after_selections F b sids) sid).1 ≡ decision_for F b.config (x ∷ rest) m)
  select_node_fair b x rest i sids sid known robin h e =
      let (below, at_i) = turn_of (length (candidates F (x ∷ rest))) b.rr_index i h in
      let (m, found, taken) = select_node-turns b sids sid x rest known robin in
      (
        m,
        omega (arith, e, below),
        ap (nth (candidates F (x ∷ rest)))
              (sym (ap (λ l. (b.rr_index + l) % length (candidates F (x ∷ rest))) e ∙ at_i))
            ∙ found,
        taken,
      )
