-- ===== src/DriverAgent/Install.antt =====
-- pkg/driveragent/agent.go: `ensureDriver`, the ways to install the driver, and the beginning of `Start`.
-- The client of the cluster, which `Start` makes first, and the goroutines stand in Watch.
pub mod Ways
pub mod Ready
use Prim.Native.String.{◌++◌ as cat}
use slingshot_operator.Prelude.{
  ℕ, String, Bool, true, false, not, List, [], ◌∷◌, Option, none, some, ◌⊎◌, str_eq, if◌then◌else◌,
}
use slingshot_operator.Prelude.Action.{Action, Error, pure, check, check_value, ◌>>=◌}
use slingshot_operator.Host.{Host}
use slingshot_operator.DriverAgent.Agent.{
  Config, Agent, driver_source_dkms, driver_source_prebuilt, driver_source_preinstalled,
  set_driver_ready, set_error, new_config, new_agent,
}
use slingshot_operator.DriverAgent.Modules.{
  load_module, is_module_loaded, get_kernel_version, run_depmod, run_dkms_add, run_dkms_build,
  run_dkms_install,
}
use slingshot_operator.DriverAgent.Version.{extract_version_from_url}
use slingshot_operator.DriverAgent.Download.{download_file, download_and_extract}
use slingshot_operator.DriverAgent.Source.{prepare_dkms_source}
use slingshot_operator.DriverAgent.Build.{
  pkg_name_of, build_dependency, build_cxi_driver, download_headers,
}

-- fmt.Sprintf with the template of a repository of HPE
abbrev repo_url : String → String → String
repo_url repo tag =
    cat "https://github.com/HewlettPackard/"
      (cat repo (cat "/archive/refs/tags/" (cat tag ".tar.gz")))

-- What a step of the installation does to the node and the agent.
abbrev pub Step : Type 0 → Type 0
Step W = Action (Agent × W) Error

module _ {W : Type 0} where
  -- A step that leaves the agent alone.
  abbrev pub on_host : Action W Error → Step W
  on_host m (a, w) = let (e, w') = m w in (e, (a, w'))

  abbrev pub on_host_value : {A : Type 0} → Action W A → Action (Agent × W) A
  on_host_value m (a, w) = let (r, w') = m w in (r, (a, w'))

  -- a.setDriverReady(true), and the return of nil
  unfoldable pub now_ready : Step W
  unfolding set_driver_ready
  now_ready (a, w) = (none, (set_driver_ready true a, w))

-- Steps that leave the agent alone, each with the context of its error; the first that fails ends
-- the installation.
unfoldable pub run_steps : {W : Type 0} → List (String × Action W Error) → Step W → Step W
run_steps [] last = last
run_steps ((context, m) ∷ steps) last = check context (on_host m) (run_steps steps last)

module _ {W : Type 0} (host : Host W) (config : Config) where
  -- cxi_user may come by udev: an error is logged only.
  unfoldable pub load_driver : Step W
  unfolding load_module
  load_driver =
      check "failed to load cxi_ss1: " (on_host (load_module host "cxi_ss1"))
        (on_host (load_module host "cxi_user") >>= λ _. now_ready)

  unfoldable pub multi_repo_steps : List (String × Action W Error)
  unfolding download_headers build_dependency build_cxi_driver
  multi_repo_steps =
      let tag = config.dkms_tag in
      ("downloading cassini-headers: ", download_headers host (repo_url "shs-cassini-headers" tag))
      ∷ ("building SBL: ", build_dependency host config "sbl" (repo_url "ss-sbl" tag))
      ∷ ("building SL: ", build_dependency host config "sl" (repo_url "ss-link" tag))
      ∷ ("building CXI driver: ", build_cxi_driver host config (repo_url "shs-cxi-driver" tag))
      ∷ []

  unfoldable pub install_dkms_multi_repo : Step W
  unfolding run_steps load_driver multi_repo_steps
  install_dkms_multi_repo = run_steps multi_repo_steps load_driver

  unfoldable pub legacy_steps : List (String × Action W Error)
  unfolding download_and_extract extract_version_from_url prepare_dkms_source run_dkms_add
      run_dkms_build run_dkms_install
  legacy_steps =
      let url = config.dkms_source_url in
      let source : String = "/tmp/cxi-driver" in
      let pkg_name = pkg_name_of config in
      let pkg_version =
        if str_eq config.dkms_pkg_version ""
        then extract_version_from_url url
        else config.dkms_pkg_version in
      ("failed to download driver source: ", download_and_extract host url source)
      ∷ ("failed to prepare DKMS source: ", prepare_dkms_source host source pkg_name pkg_version)
      ∷ ("dkms add failed: ", run_dkms_add host source)
      ∷ ("dkms build failed: ", run_dkms_build host pkg_name)
      ∷ ("dkms install failed: ", run_dkms_install host pkg_name)
      ∷ []

  unfoldable pub install_dkms_legacy : Step W
  unfolding run_steps load_driver legacy_steps
  install_dkms_legacy =
      if str_eq config.dkms_source_url ""
      then pure (some "DKMS source URL not configured (set DKMSTag or DKMSSourceURL)")
      else run_steps legacy_steps load_driver

  unfoldable pub install_dkms : Step W
  unfolding install_dkms_multi_repo install_dkms_legacy
  install_dkms =
      if not (str_eq config.dkms_tag "") then install_dkms_multi_repo else install_dkms_legacy

  unfoldable pub prebuilt_steps : String → List (String × Action W Error)
  unfolding download_file run_depmod
  prebuilt_steps version =
      let module_url = cat config.prebuilt_url (cat "/" (cat version "/cxi.ko")) in
      let module_path = cat "/lib/modules/" (cat version "/extra/cxi/cxi.ko") in
      ("failed to download prebuilt module: ", download_file host module_url module_path)
      ∷ ("depmod failed: ", run_depmod host)
      ∷ []

  unfoldable pub load_prebuilt : Step W
  unfolding load_module
  load_prebuilt = check "failed to load cxi module: " (on_host (load_module host "cxi")) now_ready

  unfoldable pub install_prebuilt : Step W
  unfolding get_kernel_version run_steps prebuilt_steps load_prebuilt
  install_prebuilt =
      if str_eq config.prebuilt_url ""
      then pure (some "prebuilt URL not configured")
      else check_value "failed to get kernel version: " (on_host_value (get_kernel_version host))
          (λ (version : String). run_steps (prebuilt_steps version) load_prebuilt)

  unfoldable pub verify_preinstalled : Step W
  unfolding is_module_loaded load_module
  verify_preinstalled = do
    loaded ← on_host_value (is_module_loaded host "cxi_ss1")
    if not loaded
        then check "cxi_ss1 module not found or loadable: " (on_host (load_module host "cxi_ss1"))
            now_ready
        else now_ready

  unfoldable pub ensure_driver : Step W
  unfolding install_dkms install_prebuilt verify_preinstalled
  ensure_driver =
      if str_eq config.driver_source driver_source_dkms
      then install_dkms
      else if str_eq config.driver_source driver_source_prebuilt
      then install_prebuilt
      else if str_eq config.driver_source driver_source_preinstalled
      then verify_preinstalled
      else pure (some (cat "unknown driver source: " config.driver_source))

-- The error of the installation becomes the last error.
unfoldable pub recorded : {W : Type 0} → Error × (Agent × W) → Agent × W
unfolding set_error
recorded (none, (a, w)) = (a, w)
recorded (some err, (a, w)) = (set_error (some err) a, w)

-- NewAgent and Start, up to the goroutines.
unfoldable pub start_agent : {W : Type 0} → Host W → Config → Action W Agent
unfolding new_config ensure_driver recorded
start_agent host config w = recorded (ensure_driver host (new_config config) (new_agent, w))
