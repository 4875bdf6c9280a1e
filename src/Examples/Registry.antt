-- ===== src/Examples/Registry.antt =====
-- The registry: a cleanup of four nodes, and a few events.
use madrpc.Prelude.{ℕ, ◌≡◌, refl, String, true, false, none, some, List, [], ◌∷◌, Distinct}
use madrpc.Prelude.Text.{str_dec}
use madrpc.Prelude.HashMap.{keys}
use madrpc.Metrics.Clock.{Clock}
use madrpc.Metrics.Registry.{NodeStats, State, default_metrics_config, registry_with_config, clean}
use madrpc.Metrics.Registry.Eviction.{Cleaned, clean-Cleaned}
use madrpc.Metrics.Registry.Events.{
  Event, called, node_requested, connection_opened, connection_closed, report_all, Totals,
  report_all-Totals,
}

abbrev last_used : ℕ → NodeStats
last_used ms = record { request_count = 1; last_request_ms = ms }

abbrev four : List (String × NodeStats)
four =
    ("a:1", last_used 9000)
    ∷ ("b:2", last_used 100)
    ∷ ("c:3", last_used 8000)
    ∷ ("d:4", last_used 9500)
    ∷ []

four-Distinct : Distinct str_dec (keys four)
unfolding str_dec
four-Distinct = (refl, (refl, (refl, (refl, tt))))

-- One is too old, and of the other three the oldest goes.
clean-Cleaned_example :
    Cleaned
      (λ (n : NodeStats). n.last_request_ms)
      5
      2
      10000
      four
      (clean (λ (n : NodeStats). n.last_request_ms) 5 2 10000 four)
clean-Cleaned_example =
    clean-Cleaned (λ (n : NodeStats). n.last_request_ms) 5 2 10000 four four-Distinct

abbrev clock : Clock
clock = record { timestamp_fallback = 0; last_timestamp = 0 }

abbrev events : List Event
events =
    connection_opened
    ∷ called (some 5) "add" 537 true
    ∷ node_requested (some 6) "a:1"
    ∷ called none "add" 2000000 false
    ∷ connection_closed
    ∷ []

report_all-Totals_example :
    (s : State) × (report_all events
        (record { clock = clock; registry = registry_with_config default_metrics_config })
      ≡ some s)
    × Totals events s.registry
report_all-Totals_example = report_all-Totals default_metrics_config clock events
