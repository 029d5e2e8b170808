-- ===== src/Metrics.antt =====
-- client/metrics.py: the counters of jobs by script, and the processes marked as dead. The decorator
-- `skip_if_prometheus_disabled` makes every function a no-op when the metrics are off.
use ccp.Prelude.{ℕ, ◌+◌, String, Bool, List, [], ◌∷◌, ◌++◌, str_eq, if◌then◌else◌}

pub record Metrics : Type 0 where
  pub enabled : Bool
  pub job_counter : String → ℕ
  pub job_error_counter : String → ℕ
  pub dead : List ℕ

-- `counter.labels(script_name=name).inc()`
abbrev pub inc : String → (String → ℕ) → String → ℕ
inc name counter k = if str_eq k name then counter k + 1 else counter k

abbrev pub skip_if_prometheus_disabled : (Metrics → Metrics) → Metrics → Metrics
skip_if_prometheus_disabled f m = if m.enabled then f m else m

unfoldable pub job_completed : String → Metrics → Metrics
job_completed name =
    skip_if_prometheus_disabled λ m. record m { job_counter = inc name m.job_counter }

unfoldable pub job_failed : String → Metrics → Metrics
job_failed name = skip_if_prometheus_disabled λ m. record m {
  job_counter = inc name m.job_counter;
  job_error_counter = inc name m.job_error_counter;
}

unfoldable pub worker_exit : ℕ → Metrics → Metrics
worker_exit process_id =
    skip_if_prometheus_disabled λ m. record m { dead = m.dead ++ (process_id ∷ []) }
