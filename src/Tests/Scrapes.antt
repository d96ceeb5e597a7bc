-- ===== src/Tests/Scrapes.antt =====
-- The metrics exporter at a concrete series of scrapes.
use slingshot_operator.Prelude.{◌≡◌, refl, String, true, List, [], ◌∷◌, none, ◌⊎◌, inr}
use slingshot_operator.Prelude.Int.{pos}
use slingshot_operator.DevicePlugin.Device.{CxiDevice}
use slingshot_operator.Metrics.Scrape.{HandlerEntry, gauge, scrape, new_exporter_config}
use slingshot_operator.DevicePlugin.Discovery.{discover_devices}
use slingshot_operator.Metrics.{Config, RetryHandlerStatus, series}
use slingshot_operator.Metrics.Restarts.{reported, gains}
use slingshot_operator.Metrics.Loop.{
  no_gauges, scraping, Scraper, started, after_scrape, handler_answer, ScraperRun, begun, scraped,
  ticked, changed,
}
use slingshot_operator.Metrics.Loop.Answers.{link_seen, failures}
use slingshot_operator.Metrics.Loop.Exact.{scraper_exact}
use slingshot_operator.Tests.Machine.{Machine, node_host}
use slingshot_operator.Tests.Agent.{machine}

-- Any body is decoded to one handler that was started again three times.
abbrev decode : String → String ⊎ List HandlerEntry
decode body = inr (record { device = "cxi0"; running = true; pid = pos 7; restarts = 3 } ∷ [])

abbrev config : Config
config = record {
  node_name = "node1";
  metrics_port = pos 9090;
  scrape_interval = 0;
  retry_handler_url = "http://localhost:8080";
}

abbrev scraped_from : Scraper Machine → Scraper Machine
scraped_from r =
    after_scrape r
      (scrape node_host decode (new_exporter_config config) r.gauges r.exporter r.world)

abbrev once : Scraper Machine
once = scraped_from (started machine)

abbrev again : Scraper Machine
again = record once { world = machine; phase = scraping }

abbrev found : List (String ⊎ List CxiDevice)
found = (discover_devices node_host machine).0 ∷ (discover_devices node_host machine).0 ∷ []

abbrev answers : List (String ⊎ List RetryHandlerStatus)
answers =
    handler_answer node_host decode config no_gauges machine
    ∷ handler_answer node_host decode config once.gauges machine
    ∷ []

twice-ScraperRun : ScraperRun node_host decode config machine found answers (scraped_from again)
twice-ScraperRun = scraped _ _ again refl (
    changed _ _ (record once { phase = scraping }) machine
      (ticked _ _ once refl (scraped [] [] (started machine) refl begun)))

scraper_exact_example :
    (series "cxi0" (scraped_from again).exporter.retry_handler_restarts
      ≡ gains none (reported "cxi0" answers))
    × (gauge "cxi0" "0000:41:00.0" (scraped_from again).gauges.device_link_state
        ≡ link_seen found "cxi0" "0000:41:00.0" none)
    × ((scraped_from again).gauges.discovery_errors ≡ failures found)
    × ((scraped_from again).exporter.scrape_errors ≡ failures answers)
scraper_exact_example =
    scraper_exact node_host decode config machine found answers (scraped_from again) "cxi0"
      "0000:41:00.0" refl twice-ScraperRun
