-- ===== src/Metrics/Loop.antt =====
-- pkg/metrics/exporter.go: `Start`, the loop of `runScraper` and `Stop`. The clock and the scheduler
-- choose the next step, and between two steps anyone may change the node and the retry handler.
pub mod Answers
pub mod Exact
use slingshot_operator.Prelude.{◌≡◌, String, Bool, true, false, List, [], ◌∷◌, ◌++◌, none, ◌⊎◌}
use slingshot_operator.Host.{Host}
use slingshot_operator.DevicePlugin.Device.{CxiDevice}
use slingshot_operator.DevicePlugin.Discovery.{discover_devices}
use slingshot_operator.Metrics.{Config, RetryHandlerStatus, Exporter, new_exporter}
use slingshot_operator.Metrics.Scrape.{
  Gauges, HandlerEntry, scrape_devices, scrape_driver_status, get_status, scrape,
  new_exporter_config,
}

-- No series is written yet.
abbrev pub no_gauges : Gauges
no_gauges = record {
  device_link_state = [];
  device_numa_node = [];
  device_count = none;
  driver_loaded = [];
  discovery_errors = 0;
}

-- Where the loop is: in `scrape`, in the `select`, or ended.
pub data ScraperPhase : Type 0 where
  scraping : ScraperPhase
  selecting : ScraperPhase
  ended : ScraperPhase

pub record Scraper (W : Type 0) : Type 0 where
  pub gauges : Gauges
  pub exporter : Exporter
  pub world : W
  pub phase : ScraperPhase
  pub stopped : Bool

abbrev pub started : {W : Type 0} → W → Scraper W
started w = record {
  gauges = no_gauges;
  exporter = new_exporter;
  world = w;
  phase = scraping;
  stopped = false;
}

abbrev pub after_scrape : {W : Type 0} → Scraper W → (Gauges × Exporter) × W → Scraper W
after_scrape r ((g, e), w) = record r { gauges = g; exporter = e; world = w; phase = selecting }

module _ {W : Type 0} (host : Host W) (decode : String → String ⊎ List HandlerEntry)
    (config : Config) where
  -- What the retry handler answers to a scrape, which asks it last.
  abbrev pub handler_answer : Gauges → W → String ⊎ List RetryHandlerStatus
  handler_answer g w =
      let (r, w1) = discover_devices host w in
      let (g', w2) = scrape_driver_status host decode (scrape_devices r g) w1 in
      (get_status host decode config.retry_handler_url w2).0

  -- The runs of the loop, by the answers of the discovery and of the retry handler.
  pub data ScraperRun (first : W)
      : List (String ⊎ List CxiDevice)
        → List (String ⊎ List RetryHandlerStatus)
        → Scraper W
        → Type 0 where
    begun : ScraperRun first [] [] (started first)
    scraped :
        (found : List (String ⊎ List CxiDevice)) (answers : List (String ⊎ List RetryHandlerStatus))
        (r : Scraper W)
        → r.phase ≡ scraping
        → ScraperRun first found answers r
        → ScraperRun first
            (found ++ (discover_devices host r.world).0 ∷ [])
            (answers ++ handler_answer r.gauges r.world ∷ [])
            (after_scrape r
              (scrape host decode (new_exporter_config config) r.gauges r.exporter r.world))
    ticked :
        (found : List (String ⊎ List CxiDevice)) (answers : List (String ⊎ List RetryHandlerStatus))
        (r : Scraper W)
        → r.phase ≡ selecting
        → ScraperRun first found answers r
        → ScraperRun first found answers (record r { phase = scraping })
    left :
        (found : List (String ⊎ List CxiDevice)) (answers : List (String ⊎ List RetryHandlerStatus))
        (r : Scraper W)
        → r.phase ≡ selecting
        → r.stopped ≡ true
        → ScraperRun first found answers r
        → ScraperRun first found answers (record r { phase = ended })
    closed :
        (found : List (String ⊎ List CxiDevice)) (answers : List (String ⊎ List RetryHandlerStatus))
        (r : Scraper W)
        → r.stopped ≡ false
        → ScraperRun first found answers r
        → ScraperRun first found answers (record r { stopped = true })
    changed :
        (found : List (String ⊎ List CxiDevice)) (answers : List (String ⊎ List RetryHandlerStatus))
        (r : Scraper W) (w : W)
        → ScraperRun first found answers r
        → ScraperRun first found answers (record r { world = w })
