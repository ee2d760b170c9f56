-- ===== src/Topology/Metrics.antt =====
-- runtime/go/internal/topology/engine.go: the accumulators of latency and errors.
use node_flow.Prelude.{
  ℕ, ◌+◌, ◌-◌, ◌≤◌, Bool, List, [], ◌∷◌, ◌++◌, length, take, drop, length-take_le, ltb,
  if◌then◌else◌, arith,
}
use node_flow.Topology.{Host, Metric}

module _ (h : Host) where
  abbrev pub no_metric : Metric h
  no_metric = record { count = 0; errors = 0; total_latency = h.zero_f; latencies = [] }

  -- The window of the latest samples.
  abbrev pub keep_latest : ℕ → List h.F → List h.F
  keep_latest limit samples =
      if ltb limit (length samples) then take limit (drop 1 samples) else samples

  pub length-keep_latest :
      (limit : ℕ) (samples : List h.F) → length (keep_latest limit samples) ≤ limit
  length-keep_latest limit samples = ground (arith, length-take_le limit (drop 1 samples))

  -- `record`.
  unfoldable pub record_metric : ℕ → Metric h → h.F → Bool → Metric h
  record_metric limit m duration failed = record {
    count = m.count + 1;
    errors = if failed then m.errors + 1 else m.errors;
    total_latency = h.add_f m.total_latency duration;
    latencies = keep_latest limit (m.latencies ++ (duration ∷ []));
  }

  unfoldable pub drop_sample : h.F → List h.F → List h.F
  drop_sample duration [] = []
  drop_sample duration (s ∷ samples) =
      if h.eq_f s duration then samples else s ∷ drop_sample duration samples

  -- `removeRecord`.
  unfoldable pub remove_record : Metric h → h.F → Bool → Metric h
  remove_record m duration failed =
      let total = h.sub_f m.total_latency duration in
      record {
        count = m.count - 1;
        errors = if failed then m.errors - 1 else m.errors;
        total_latency = if h.lt_f total h.zero_f then h.zero_f else total;
        latencies = drop_sample duration m.latencies;
      }

  -- The errors are among the calls, and the samples within their window.
  pub record IsMetric (limit : ℕ) (m : Metric h) : Type 0 where
    pub errors_le : m.errors ≤ m.count
    pub samples_le : length m.latencies ≤ limit

  pub no_metric-IsMetric : (limit : ℕ) → IsMetric limit no_metric
  no_metric-IsMetric limit = record { errors_le = omega arith; samples_le = omega arith }

  pub record_metric-IsMetric :
      (limit : ℕ) (m : Metric h) (duration : h.F) (failed : Bool)
      → IsMetric limit m
      → IsMetric limit (record_metric limit m duration failed)
  unfolding record_metric
  record_metric-IsMetric limit m duration failed fine =
      let some_errors = fine.errors_le in
      record {
        errors_le = ground arith;
        samples_le = length-keep_latest limit (m.latencies ++ (duration ∷ []));
      }

  pub length-drop_sample :
      (duration : h.F) (samples : List h.F) → length (drop_sample duration samples) ≤ length samples
  unfolding drop_sample
  length-drop_sample duration [] = omega arith
  length-drop_sample duration (s ∷ samples) = ground (arith, length-drop_sample duration samples)
