-- ===== src/Metrics/Loop/Exact.antt =====
-- What the series of the exporter show after a run of its loop.
use slingshot_operator.Prelude.{
  ◌≡◌, refl, sym, ap, ◌∙◌, String, false, List, [], ◌∷◌, ◌++◌, none, ◌⊎◌, str_eq, arith,
}
use slingshot_operator.Host.{Host}
use slingshot_operator.DevicePlugin.Device.{CxiDevice}
use slingshot_operator.DevicePlugin.Discovery.{discover_devices}
use slingshot_operator.Metrics.{
  Config, RetryHandlerStatus, Exporter, new_exporter, series, scrape_retry_handler_status,
  scrape_all,
}
use slingshot_operator.Metrics.Restarts.{reported, gains, restarts_exact}
use slingshot_operator.Metrics.Scrape.{
  Gauges, HandlerEntry, gauge, modules, scrape_devices, scrape_modules, scrape_driver_status,
  scrape_retry_handler, scrape, new_exporter_config,
}
use slingshot_operator.Metrics.Scrape.Links.{link_after}
use slingshot_operator.Metrics.Loop.Answers.{
  link_seen, failures, failures-append, link_seen-append, scrape_all-append, errors-scrape_all,
  errors-scrape_devices, gauge-scrape_devices,
}
use slingshot_operator.Metrics.Loop.{
  Scraper, after_scrape, ScraperRun, begun, scraped, ticked, left, closed, changed, handler_answer,
}

module _ {W : Type 0} (host : Host W) (decode : String → String ⊎ List HandlerEntry) where
  -- The modules have gauges of their own.
  IsAside : Gauges → Gauges → Type 0
  IsAside g g' =
      (g'.device_link_state ≡ g.device_link_state) × (g'.discovery_errors ≡ g.discovery_errors)

  modules-IsAside :
      (names : List String) (g : Gauges) (w : W)
      → IsAside g (scrape_modules host decode names g w).0
  unfolding scrape_modules IsAside
  modules-IsAside [] g w = (refl, refl)
  modules-IsAside (name ∷ names) g w = modules-IsAside names _ _

  scrape-IsAside :
      (config : Config) (g : Gauges) (e : Exporter) (w : W)
      → IsAside (scrape_devices (discover_devices host w).0 g) (scrape host decode config g e w).0.0
  unfolding scrape scrape_driver_status
  scrape-IsAside config g e w = modules-IsAside modules _ (discover_devices host w).1

  module _ (config : Config) where
    scrape-answer :
        (g : Gauges) (e : Exporter) (w : W)
        → str_eq config.retry_handler_url "" ≡ false
        → (scrape host decode (new_exporter_config config) g e w).0.1
          ≡ scrape_retry_handler_status (handler_answer host decode config g w) e
    unfolding scrape scrape_retry_handler new_exporter_config
    scrape-answer g e w h = rw h refl

    -- What a run has come to, by the answers of the discovery and of the retry handler
    record Exact (found : List (String ⊎ List CxiDevice))
        (answers : List (String ⊎ List RetryHandlerStatus)) (r : Scraper W) : Type 0 where
      handlers : r.exporter ≡ scrape_all answers new_exporter
      links :
          (device pci : String)
          → gauge device pci r.gauges.device_link_state ≡ link_seen found device pci none
      errors : r.gauges.discovery_errors ≡ failures found

    after-Exact :
        (found : List (String ⊎ List CxiDevice)) (answers : List (String ⊎ List RetryHandlerStatus))
        (r : Scraper W)
        → str_eq config.retry_handler_url "" ≡ false
        → Exact found answers r
        → Exact
            (found ++ (discover_devices host r.world).0 ∷ [])
            (answers ++ handler_answer host decode config r.gauges r.world ∷ [])
            (after_scrape r
              (scrape host decode (new_exporter_config config) r.gauges r.exporter r.world))
    unfolding scrape_all link_seen IsAside
    after-Exact found answers r url h =
        let d = (discover_devices host r.world).0 in
        let a = handler_answer host decode config r.gauges r.world in
        let (same_links, same_errors) =
          scrape-IsAside (new_exporter_config config) r.gauges r.exporter r.world in
        record {
          handlers =
              scrape-answer r.gauges r.exporter r.world url
              ∙ ap (scrape_retry_handler_status a) h.handlers
              ∙ sym (scrape_all-append answers (a ∷ []) new_exporter);
          links = λ device pci.
              ap (gauge device pci) same_links
              ∙ gauge-scrape_devices d device pci r.gauges
              ∙ ap (link_after d device pci) (h.links device pci)
              ∙ sym (link_seen-append found (d ∷ []) device pci none);
          errors = omega (
            arith,
            same_errors,
            errors-scrape_devices d r.gauges,
            h.errors,
            failures-append found (d ∷ []),
          );
        }

    run-Exact :
        (first : W) (found : List (String ⊎ List CxiDevice))
        (answers : List (String ⊎ List RetryHandlerStatus)) (r : Scraper W)
        → str_eq config.retry_handler_url "" ≡ false
        → ScraperRun host decode config first found answers r
        → Exact found answers r
    unfolding scrape_all link_seen failures gauge
    run-Exact first _ _ _ url begun = record {
      handlers = refl;
      links = λ device pci. refl;
      errors = refl;
    }
    run-Exact first _ _ _ url (scraped found answers r p run) =
        after-Exact found answers r url (run-Exact first found answers r url run)
    run-Exact first _ _ _ url (ticked found answers r p run) =
        let h = run-Exact first found answers r url run in
        record { handlers = h.handlers; links = h.links; errors = h.errors }
    run-Exact first _ _ _ url (left found answers r p q run) =
        let h = run-Exact first found answers r url run in
        record { handlers = h.handlers; links = h.links; errors = h.errors }
    run-Exact first _ _ _ url (closed found answers r p run) =
        let h = run-Exact first found answers r url run in
        record { handlers = h.handlers; links = h.links; errors = h.errors }
    run-Exact first _ _ _ url (changed found answers r w run) =
        let h = run-Exact first found answers r url run in
        record { handlers = h.handlers; links = h.links; errors = h.errors }

    -- In every run of an exporter that has an address of the retry handler, whatever happens to the
    -- node and the retry handler in between: the counter of a device's restarts is the sum of the
    -- increases between the counts that were reported of it, where a count that falls and the first
    -- one add nothing; the gauge of a link has the value by the last discovery that found the device;
    -- and the scrapes that failed are counted, of the devices and of the retry handlers.
    pub scraper_exact :
        (first : W) (found : List (String ⊎ List CxiDevice))
        (answers : List (String ⊎ List RetryHandlerStatus)) (r : Scraper W) (device pci : String)
        → str_eq config.retry_handler_url "" ≡ false
        → ScraperRun host decode config first found answers r
        → (series device r.exporter.retry_handler_restarts ≡ gains none (reported device answers))
          × (gauge device pci r.gauges.device_link_state ≡ link_seen found device pci none)
          × (r.gauges.discovery_errors ≡ failures found)
          × (r.exporter.scrape_errors ≡ failures answers)
    unfolding series
    scraper_exact first found answers r device pci url run =
        let h = run-Exact first found answers r url run in
        let restarts = restarts_exact device answers new_exporter in
        let missed = errors-scrape_all answers new_exporter in
        (
          rw (h.handlers) (omega (arith, restarts)),
          h.links device pci,
          h.errors,
          rw (h.handlers) (omega (arith, missed)),
        )
