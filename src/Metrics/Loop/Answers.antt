-- ===== src/Metrics/Loop/Answers.antt =====
-- Series of answers of the discovery and of the retry handler, and what they come to.
use slingshot_operator.Prelude.{
  ℕ, ◌+◌, ◌≡◌, refl, ap, ◌∙◌, String, List, [], ◌∷◌, ◌++◌, Option, some, length, ◌⊎◌, inl, inr,
  arith,
}
use slingshot_operator.Prelude.Int.{ℤ}
use slingshot_operator.DevicePlugin.Device.{CxiDevice}
use slingshot_operator.Metrics.{
  RetryHandlerStatus, Exporter, record_status, record_statuses, scrape_retry_handler_status,
  scrape_all,
}
use slingshot_operator.Metrics.Scrape.{Gauges, gauge, record_device, record_devices, scrape_devices}
use slingshot_operator.Metrics.Scrape.Links.{link_after, links_exact}

-- The value of a link after a series of discoveries
unfoldable pub link_seen : List (String ⊎ List CxiDevice) → String → String → Option ℤ → Option ℤ
link_seen [] device pci o = o
link_seen (r ∷ rs) device pci o = link_seen rs device pci (link_after r device pci o)

-- How many answers are errors
unfoldable pub failures : {A : Type 0} → List (String ⊎ A) → ℕ
failures [] = 0
failures (inl err ∷ rs) = failures rs + 1
failures (inr a ∷ rs) = failures rs

pub failures-append :
    {A : Type 0} (xs ys : List (String ⊎ A)) → failures (xs ++ ys) ≡ failures xs + failures ys
unfolding failures
failures-append [] ys = omega arith
failures-append (inl err ∷ xs) ys = omega (arith, failures-append xs ys)
failures-append (inr a ∷ xs) ys = failures-append xs ys

pub link_seen-append :
    (xs ys : List (String ⊎ List CxiDevice)) (device pci : String) (o : Option ℤ)
    → link_seen (xs ++ ys) device pci o ≡ link_seen ys device pci (link_seen xs device pci o)
unfolding link_seen
link_seen-append [] ys device pci o = refl
link_seen-append (x ∷ xs) ys device pci o =
    link_seen-append xs ys device pci (link_after x device pci o)

pub scrape_all-append :
    (xs ys : List (String ⊎ List RetryHandlerStatus)) (e : Exporter)
    → scrape_all (xs ++ ys) e ≡ scrape_all ys (scrape_all xs e)
unfolding scrape_all
scrape_all-append [] ys e = refl
scrape_all-append (x ∷ xs) ys e = scrape_all-append xs ys (scrape_retry_handler_status x e)

errors-statuses :
    (ss : List RetryHandlerStatus) (e : Exporter)
    → (record_statuses ss e).scrape_errors ≡ e.scrape_errors
unfolding record_statuses record_status
errors-statuses [] e = refl
errors-statuses (s ∷ ss) e = errors-statuses ss (record_status s e)

pub errors-scrape_all :
    (rs : List (String ⊎ List RetryHandlerStatus)) (e : Exporter)
    → (scrape_all rs e).scrape_errors ≡ e.scrape_errors + failures rs
unfolding scrape_all scrape_retry_handler_status failures
errors-scrape_all [] e = omega arith
errors-scrape_all (inl err ∷ rs) e =
    omega (arith, errors-scrape_all rs (record e { scrape_errors = e.scrape_errors + 1 }))
errors-scrape_all (inr ss ∷ rs) e =
    errors-scrape_all rs (record_statuses ss e) ∙ ap (λ n. n + failures rs) (errors-statuses ss e)

errors-devices :
    (ds : List CxiDevice) (g : Gauges) → (record_devices ds g).discovery_errors ≡ g.discovery_errors
unfolding record_devices record_device
errors-devices [] g = refl
errors-devices (d ∷ ds) g = errors-devices ds (record_device d g)

pub errors-scrape_devices :
    (r : String ⊎ List CxiDevice) (g : Gauges)
    → (scrape_devices r g).discovery_errors ≡ g.discovery_errors + failures (r ∷ [])
unfolding scrape_devices failures
errors-scrape_devices (inl err) g = refl
errors-scrape_devices (inr ds) g =
    let counted : Gauges = record g { device_count = some (length ds) } in
    omega (arith, errors-devices ds counted)

pub gauge-scrape_devices :
    (r : String ⊎ List CxiDevice) (device pci : String) (g : Gauges)
    → gauge device pci (scrape_devices r g).device_link_state
      ≡ link_after r device pci (gauge device pci g.device_link_state)
gauge-scrape_devices (inl err) device pci g = links_exact (inl err) device pci g
gauge-scrape_devices (inr ds) device pci g = links_exact (inr ds) device pci g
