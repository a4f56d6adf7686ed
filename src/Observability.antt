-- ===== src/Observability.antt =====
-- lumenos_sandbox/observability.py: the metrics collector.
use lumenos_hiper_v.Prelude.{
  ℕ, ◌+◌, String, [], ◌∷◌, ◌++◌, List, Dict, lookup, insert, lookup-insert, get_or, ◌≡◌, arith,
  str_eq, if◌then◌else◌,
}

-- Gauges and timings are floats in the source; the callers in this model store whole numbers.
pub record MetricsCollector : Type 0 where
  pub counters : Dict ℕ
  pub gauges : Dict ℕ
  pub timers : Dict (List ℕ)

-- `MetricsCollector()`
abbrev pub no_metrics : MetricsCollector
no_metrics = record { counters = []; gauges = []; timers = [] }

-- `self._counters.get(name, 0)`
abbrev pub counter : String → MetricsCollector → ℕ
counter name m = get_or (lookup name m.counters) 0

-- `inc(name, value)`
unfoldable pub inc_by : String → ℕ → MetricsCollector → MetricsCollector
inc_by name value m = record m { counters = insert name (counter name m + value) m.counters }

-- `inc(name)`
abbrev pub inc : String → MetricsCollector → MetricsCollector
inc name = inc_by name 1

unfoldable pub set_gauge : String → ℕ → MetricsCollector → MetricsCollector
set_gauge name value m = record m { gauges = insert name value m.gauges }

-- `self._timers.setdefault(name, []).append(elapsed_ms)`
unfoldable pub record_time : String → ℕ → MetricsCollector → MetricsCollector
record_time name elapsed_ms m = record m {
  timers = insert name (get_or (lookup name m.timers) [] ++ elapsed_ms ∷ []) m.timers;
}

-- `inc` adds its value to the counter that it names, and to no other.
pub counter-inc_by :
    (name other : String) (value : ℕ) (m : MetricsCollector)
    → counter other (inc_by name value m)
      ≡ (if str_eq name other then counter name m + value else counter other m)
unfolding inc_by
counter-inc_by name other value m = rw lookup-insert (ground arith)
