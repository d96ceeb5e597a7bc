-- ===== src/Metrics/Scrape.antt =====
-- pkg/metrics/exporter.go and helpers.go: `NewExporter`, `scrapeDevices`, `scrapeDriverStatus`, `scrape`
-- and the client of the retry handler, with the series of one node. The child proves which values
-- the links have.
pub mod Links
use Prim.Native.String.{◌++◌ as cat}
use slingshot_operator.Prelude.{
  ℕ, ◌+◌, ◌*◌, ◌^◌, String, Bool, true, false, not, ◌||◌, List, [], ◌∷◌, Option, none, some, ◌⊎◌,
  inl, inr, ◌==◌, str_eq, if◌then◌else◌, length,
}
use slingshot_operator.Prelude.Dict.{Dict, lookup, insert}
use slingshot_operator.Prelude.Int.{ℤ, pos, negsuc, int_eq}
use slingshot_operator.Prelude.Decimal.{itoa}
use slingshot_operator.Prelude.Text.{split}
use slingshot_operator.Prelude.Action.{Action, pure, ◌>>=◌}
use slingshot_operator.Host.{HttpResponse, Host}
use slingshot_operator.DevicePlugin.Device.{CxiDevice}
use slingshot_operator.DevicePlugin.Discovery.{discover_devices}
use slingshot_operator.DriverAgent.Modules.{any_line_names}
use slingshot_operator.Metrics.{Config, RetryHandlerStatus, Exporter, scrape_retry_handler_status}

-- The defaults of `NewExporter`.
unfoldable pub new_exporter_config : Config → Config
new_exporter_config config = record config {
  metrics_port = if int_eq config.metrics_port (pos 0) then pos 9090 else config.metrics_port;
  scrape_interval = if config.scrape_interval == 0 then 15 * 10 ^ 9 else config.scrape_interval;
}

-- The gauges of the devices, by name and PCI address, and of the modules, and the errors of the
-- discovery that are counted.
pub record Gauges : Type 0 where
  pub device_link_state : Dict (Dict ℤ)
  pub device_numa_node : Dict (Dict ℤ)
  pub device_count : Option ℕ
  pub driver_loaded : Dict ℕ
  pub discovery_errors : ℕ

abbrev pub series_of : Option (Dict ℤ) → Dict ℤ
series_of none = []
series_of (some m) = m

-- gauge.WithLabelValues(device, node, pci).Set(value)
unfoldable pub set_gauge : String → String → ℤ → Dict (Dict ℤ) → Dict (Dict ℤ)
unfolding lookup insert
set_gauge device pci value m = insert device (insert pci value (series_of (lookup device m))) m

unfoldable pub gauge : String → String → Dict (Dict ℤ) → Option ℤ
unfolding lookup
gauge device pci m = lookup pci (series_of (lookup device m))

-- The driver writes 1 for a link that is up and 0 for one that is down.
unfoldable pub link_value : String → ℤ
link_value state =
    if str_eq state "1" || str_eq state "up"
    then pos 1
    else if str_eq state "0" || str_eq state "down"
    then pos 0
    else negsuc 0

unfoldable pub record_device : CxiDevice → Gauges → Gauges
unfolding set_gauge link_value
record_device dev g = record g {
  device_link_state =
      set_gauge dev.name dev.pci_address (link_value dev.link_state) g.device_link_state;
  device_numa_node = set_gauge dev.name dev.pci_address dev.numa_node g.device_numa_node;
}

unfoldable pub record_devices : List CxiDevice → Gauges → Gauges
unfolding record_device
record_devices [] g = g
record_devices (dev ∷ devs) g = record_devices devs (record_device dev g)

-- By the answer of the discovery.
unfoldable pub scrape_devices : String ⊎ List CxiDevice → Gauges → Gauges
unfolding record_devices
scrape_devices (inl err) g = record g { discovery_errors = g.discovery_errors + 1 }
scrape_devices (inr devices) g =
    record_devices devices (record g { device_count = some (length devices) })

abbrev pub modules : List String
modules = "cxi_ss1" ∷ "cxi_user" ∷ "cxi_eth" ∷ "sbl" ∷ "sl" ∷ []

-- A handler in the answer of the supervisor; the JSON decoder is a parameter.
pub record HandlerEntry : Type 0 where
  pub device : String
  pub running : Bool
  pub pid : ℤ
  pub restarts : ℕ

abbrev status_of : HandlerEntry → RetryHandlerStatus
status_of h = record { device = h.device; running = h.running; restart_count = h.restarts }

abbrev statuses_of : List HandlerEntry → List RetryHandlerStatus
statuses_of [] = []
statuses_of (h ∷ hs) = status_of h ∷ statuses_of hs

abbrev decoded : String ⊎ List HandlerEntry → String ⊎ List RetryHandlerStatus
decoded (inl err) = inl (cat "failed to decode response: " err)
decoded (inr hs) = inr (statuses_of hs)

module _ {W : Type 0} (host : Host W) (decode : String → String ⊎ List HandlerEntry) where
  -- The package's own `isModuleLoaded`.
  unfoldable pub is_loaded : String → Action W Bool
  unfolding any_line_names split
  is_loaded name = do
    r ← host.read_file "/proc/modules"
    pure (elim r [ inl _ ↦ false | inr text ↦ any_line_names name (split b'\n' text) ])

  unfoldable pub scrape_modules : List String → Gauges → Action W Gauges
  unfolding is_loaded insert
  scrape_modules [] g = pure g
  scrape_modules (name ∷ names) g = do
    loaded ← is_loaded name
    scrape_modules names
        (record g { driver_loaded = insert name (if loaded then 1 else 0) g.driver_loaded })

  unfoldable pub scrape_driver_status : Gauges → Action W Gauges
  unfolding scrape_modules
  scrape_driver_status g = scrape_modules modules g

  abbrev read_status : String ⊎ HttpResponse → String ⊎ List RetryHandlerStatus
  unfolding itoa
  read_status (inl err) = inl (cat "failed to get retry handler status: " err)
  read_status (inr resp) =
      if not (resp.status_code == 200)
      then inl (cat "unexpected status code: " (itoa resp.status_code))
      else decoded (decode resp.body)

  unfoldable pub get_status : String → Action W (String ⊎ List RetryHandlerStatus)
  unfolding read_status
  get_status url = do r ← host.http_get (cat url "/status"); pure (read_status r)

  -- Without an address of the retry handler there is no client and nothing to do.
  unfoldable pub scrape_retry_handler : Config → Exporter → Action W Exporter
  unfolding get_status scrape_retry_handler_status
  scrape_retry_handler config e =
      if str_eq config.retry_handler_url ""
      then pure e
      else get_status config.retry_handler_url >>= λ r. pure (scrape_retry_handler_status r e)

  unfoldable pub scrape : Config → Gauges → Exporter → Action W (Gauges × Exporter)
  unfolding discover_devices scrape_devices scrape_driver_status scrape_retry_handler
  scrape config g e = do
    r ← discover_devices host
    g' ← scrape_driver_status (scrape_devices r g)
    e' ← scrape_retry_handler config e
    pure (g', e')
