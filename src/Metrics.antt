-- ===== src/Metrics.antt =====
-- pkg/metrics/exporter.go: `scrapeRetryHandlerStatus`, with the series of one node by device. The child
-- proves what the counter of restarts counts.
pub mod Restarts
pub mod Scrape
pub mod Loop
use slingshot_operator.Prelude.{
  ℕ, suc, ◌+◌, ◌-◌, String, Bool, true, false, ◌&&◌, List, [], ◌∷◌, Option, none, some, ◌⊎◌, inl,
  inr, ltb, if◌then◌else◌,
}
use slingshot_operator.Prelude.Dict.{Dict, lookup, insert}
use slingshot_operator.Prelude.Int.{ℤ}

-- The scrape interval is in nanoseconds.
pub record Config : Type 0 where
  pub node_name : String
  pub metrics_port : ℤ
  pub scrape_interval : ℕ
  pub retry_handler_url : String

-- The count is the supervisor's, which is not negative.
pub record RetryHandlerStatus : Type 0 where
  pub device : String
  pub running : Bool
  pub restart_count : ℕ

-- The gauge and the counter that the scrape writes, the errors of scrapes that it counts, and what
-- the exporter remembers.
pub record Exporter : Type 0 where
  pub retry_handler_running : Dict ℕ
  pub retry_handler_restarts : Dict ℕ
  pub scrape_errors : ℕ
  pub last_restart_counts : Dict ℕ

abbrev pub new_exporter : Exporter
new_exporter = record {
  retry_handler_running = [];
  retry_handler_restarts = [];
  scrape_errors = 0;
  last_restart_counts = [];
}

-- The value of a series; one that was never written is 0.
unfoldable pub series : String → Dict ℕ → ℕ
unfolding lookup
series device m = elim (lookup device m) [ none ↦ 0 | some n ↦ n ]

-- The counter of a device that was seen with `last` restarts.
unfoldable pub add_restarts : Option ℕ → RetryHandlerStatus → Dict ℕ → Dict ℕ
unfolding series insert
add_restarts none status m = m
add_restarts (some last) status m =
    if ltb last status.restart_count
    then insert status.device (series status.device m + (status.restart_count - last)) m
    else m

unfoldable pub record_status : RetryHandlerStatus → Exporter → Exporter
unfolding lookup insert add_restarts
record_status status e = record e {
  retry_handler_running =
      insert status.device (if status.running then 1 else 0) e.retry_handler_running;
  retry_handler_restarts =
      add_restarts (lookup status.device e.last_restart_counts) status e.retry_handler_restarts;
  last_restart_counts = insert status.device status.restart_count e.last_restart_counts;
}

unfoldable pub record_statuses : List RetryHandlerStatus → Exporter → Exporter
unfolding record_status
record_statuses [] e = e
record_statuses (status ∷ statuses) e = record_statuses statuses (record_status status e)

-- One scrape, with the answer of the retry handler's client.
unfoldable pub scrape_retry_handler_status : String ⊎ List RetryHandlerStatus → Exporter → Exporter
unfolding record_statuses
scrape_retry_handler_status (inl err) e = record e { scrape_errors = e.scrape_errors + 1 }
scrape_retry_handler_status (inr statuses) e = record_statuses statuses e

unfoldable pub scrape_all : List (String ⊎ List RetryHandlerStatus) → Exporter → Exporter
unfolding scrape_retry_handler_status
scrape_all [] e = e
scrape_all (r ∷ rs) e = scrape_all rs (scrape_retry_handler_status r e)
