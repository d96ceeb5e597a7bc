-- ===== src/DriverAgent/Install/Ready.antt =====
-- What the agent tells of the installation of the driver.
use Prim.Native.String.{◌++◌ as cat}
use slingshot_operator.Prelude.{
  ◌≡◌, refl, ap, String, true, false, none, some, inl, inr, str_eq, eq_iff, if◌then◌else◌,
  Bool-cases,
}
use slingshot_operator.Prelude.Action.{Error}
use slingshot_operator.Host.{Host}
use slingshot_operator.DriverAgent.Agent.{
  Config, Agent, driver_source_dkms, driver_source_prebuilt, driver_source_preinstalled,
  set_driver_ready, set_error, new_config, new_agent, readyz,
}
use slingshot_operator.DriverAgent.Install.{ensure_driver, recorded, start_agent}
use slingshot_operator.DriverAgent.Install.Ways.{
  ModuleLaws, Outcome, Installs, dkms-Installs, prebuilt-Installs, preinstalled-Installs,
}

-- The module that the source of the driver provides.
abbrev pub module_of : Config → String
module_of config = if str_eq config.driver_source driver_source_prebuilt then "cxi" else "cxi_ss1"

dkms_not_prebuilt :
    (s : String) → str_eq s driver_source_dkms ≡ true → str_eq s driver_source_prebuilt ≡ false
dkms_not_prebuilt s h =
    ap (λ (t : String). str_eq t driver_source_prebuilt) ((eq_iff s driver_source_dkms).0 h)

module _ {W : Type 0} (host : Host W) (Loaded : String → W → Type 0)
    (laws : ModuleLaws host Loaded) where
  pub ensure-Installs :
      (config : Config) → Installs host Loaded laws (module_of config) (ensure_driver host config)
  unfolding ensure_driver
  ensure-Installs config =
      let source = config.driver_source in
      elim (Bool-cases (str_eq source driver_source_dkms)) [
        | inl d ↦
            rw (d, ensure_driver)
              (rw (dkms_not_prebuilt source d) (dkms-Installs host Loaded laws config))
        | inr n ↦ elim (Bool-cases (str_eq source driver_source_prebuilt)) [
          | inl p ↦ rw (n, ensure_driver) (rw p (prebuilt-Installs host Loaded laws config))
          | inr q ↦ elim (Bool-cases (str_eq source driver_source_preinstalled)) [
            | inl p ↦
                rw (n, ensure_driver)
                  (rw (q) (rw p (preinstalled-Installs host Loaded laws config)))
            | inr o ↦ rw (n, ensure_driver) (rw (q) (rw o (λ a w. refl)))
          ]
        ]
      ]

  -- The answer of /readyz, for the error of the installation.
  abbrev pub Answer : String → Error × (Agent × W) → Agent × W → Type 0
  Answer name (none, _) (a, w) = (readyz a ≡ (200, "ready\n")) × Loaded name w
  Answer name (some err, _) (a, w) = readyz a ≡ (503, cat "not ready: " (cat err "\n"))

  answered :
      (name : String) (r : Error × (Agent × W))
      → Outcome host Loaded laws name new_agent r
      → Answer name r (recorded r)
  unfolding readyz set_driver_ready set_error recorded
  answered name (none, (a, w)) (e, l) = rw e (refl, l)
  answered name (some err, (a, w)) e = rw e refl

  -- Under the laws of the node, when the agent has started, /readyz answers 200 exactly if the
  -- installation of the driver succeeded, and then the driver's module is loaded: cxi for a prebuilt
  -- driver, cxi_ss1 for any other source. Otherwise it answers 503 with the error.
  pub start_answers :
      (config : Config) (w : W)
      → Answer
          (module_of config)
          (ensure_driver host (new_config config) (new_agent, w))
          (start_agent host config w)
  unfolding start_agent new_config
  start_answers config w =
      answered (module_of config) (ensure_driver host (new_config config) (new_agent, w))
        (ensure-Installs (new_config config) new_agent w)
