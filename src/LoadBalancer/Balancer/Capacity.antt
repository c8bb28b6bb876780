-- ===== src/LoadBalancer/Balancer/Capacity.antt =====
-- `predict_capacity` of loadbalancer/balancer.py. `int` of a float is a parameter, and so is what it takes
-- of one that is not finite.
use fusion_code_modelization.Common.{ℕ, ◌+◌, ◌-◌, ◌*◌, List, [], ◌∷◌}
use fusion_code_modelization.Common.Dict
use fusion_code_modelization.LoadBalancer.Metrics.{FloatOps, max_float, LoadMetric}
use fusion_code_modelization.LoadBalancer.Balancer.{LoadBalancer, avg_load_of}

-- With no nodes the source returns the two predicted numbers only.
pub record Forecast (F : FloatOps) : Type 0 where
  pub current_total_available_tasks : ℕ
  pub current_avg_load : F.Carrier
  pub predicted_available_tasks : ℕ
  pub predicted_avg_load : F.Carrier

module _ (F : FloatOps) (int_of : F.Carrier → ℕ) where
  abbrev pub total_available : List (LoadMetric F) → ℕ
  total_available [] = 0
  total_available (m ∷ ms) = (m.max_tasks - m.active_tasks) + total_available ms

  -- `max(0.5, 1.0 - duration_hours * 0.05)`, with 0.05 as 5 / 100
  abbrev pub decay_factor : F.Carrier → F.Carrier
  decay_factor hours =
      max_float F (F.tenths 5) (F.sub (F.tenths 10) (F.mul hours (F.quotient 5 100)))

  abbrev pub forecast : List (LoadMetric F) → F.Carrier → Forecast F
  forecast [] hours = record {
    current_total_available_tasks = 0;
    current_avg_load = F.tenths 0;
    predicted_available_tasks = 0;
    predicted_avg_load = F.tenths 0;
  }
  forecast (m ∷ ms) hours =
      let available = total_available (m ∷ ms) in
      let decay = decay_factor hours in
      record {
        current_total_available_tasks = available;
        current_avg_load = avg_load_of F (m ∷ ms);
        predicted_available_tasks = int_of (F.mul (F.tenths (available * 10)) decay);
        predicted_avg_load = F.mul (avg_load_of F (m ∷ ms)) decay;
      }

  unfoldable pub predict_capacity : LoadBalancer F → F.Carrier → Forecast F
  predict_capacity b hours = forecast (Dict.values b.metrics) hours
