-- ===== src/DriverAgent/Install/Ways.antt =====
-- What each way to install the driver comes to.
use Prim.Native.String.{◌++◌ as cat}
use slingshot_operator.Prelude.{
  ◌≡◌, refl, String, true, false, List, [], ◌∷◌, none, some, ◌⊎◌, inl, inr, str_eq, Bool-cases,
  Option-cases,
}
use slingshot_operator.Prelude.Text.{split}
use slingshot_operator.Prelude.Action.{
  Action, Error, pure, ◌>>=◌, check, check_ok, check_err, check-none, check_value_ok,
  check_value_err,
}
use slingshot_operator.Host.{FileError, Host}
use slingshot_operator.DriverAgent.Agent.{Config, Agent, set_driver_ready}
use slingshot_operator.DriverAgent.Modules.{
  command, any_line_names, load_module, is_module_loaded, get_kernel_version,
}
use slingshot_operator.DriverAgent.Install.{
  Step, run_steps, multi_repo_steps, legacy_steps, prebuilt_steps, load_prebuilt, on_host,
  on_host_value, now_ready, load_driver, install_dkms_multi_repo, install_dkms_legacy, install_dkms,
  install_prebuilt, verify_preinstalled,
}

false_not_true : false ≡ true → ⊥
false_not_true h = cc

-- What is relied on of the node, for a predicate that tells which modules are loaded: modprobe loads
-- the module if it succeeds and unloads none, and /proc/modules lists loaded modules only.
pub record ModuleLaws {W : Type 0} (host : Host W) (Loaded : String → W → Type 0) : Type 0 where
  pub load :
      (name : String) (w : W)
      → (host.run (command "modprobe" (name ∷ [])) w).0 ≡ none
      → Loaded name (host.run (command "modprobe" (name ∷ [])) w).1
  pub keep :
      (name other : String) (w : W)
      → Loaded name w
      → Loaded name (host.run (command "modprobe" (other ∷ [])) w).1
  pub listed :
      (name text : String) (w : W)
      → (host.read_file "/proc/modules" w).0 ≡ inr text
      → any_line_names name (split b'\n' text) ≡ true
      → Loaded name (host.read_file "/proc/modules" w).1

module _ {W : Type 0} (host : Host W) (Loaded : String → W → Type 0)
    (laws : ModuleLaws host Loaded) where
  -- A way to install the driver that ends with the module of the name loaded and the agent ready, or
  -- with an error and the agent as it was.
  abbrev pub Outcome : String → Agent → Error × (Agent × W) → Type 0
  Outcome name a (none, (a', w')) = (a' ≡ set_driver_ready true a) × Loaded name w'
  Outcome name a (some err, (a', w')) = a' ≡ a

  abbrev pub Installs : String → Step W → Type 0
  Installs name m = (a : Agent) (w : W) → Outcome name a (m (a, w))

  Installs-run_steps :
      (name : String) (steps : List (String × Action W Error)) (last : Step W)
      → Installs name last
      → Installs name (run_steps steps last)
  unfolding run_steps
  Installs-run_steps name [] last l = l
  Installs-run_steps name ((context, m) ∷ steps) last l = λ a w. elim (Option-cases (m w).0) [
    | inl e ↦
        rw (check_ok context (on_host m) (run_steps steps last) (a, w) e)
          (Installs-run_steps name steps last l a (m w).1)
    | inr (err, e) ↦ rw (check_err context (on_host m) (run_steps steps last) (a, w) err e) refl
  ]

  load-Loaded :
      (name : String) (w : W)
      → (load_module host name w).0 ≡ none
      → Loaded name (load_module host name w).1
  unfolding load_module
  load-Loaded name w h =
      let context : String = cat "modprobe " (cat name " failed: ") in
      let run = host.run (command "modprobe" (name ∷ [])) in
      let ok = check-none context run (pure none) w h in
      rw (check_ok context run (pure none) w ok) (laws.load name w ok)

  load-keep :
      (name other : String) (w : W) → Loaded name w → Loaded name (load_module host other w).1
  unfolding load_module
  load-keep name other w l =
      let context : String = cat "modprobe " (cat other " failed: ") in
      let run = host.run (command "modprobe" (other ∷ [])) in
      elim (Option-cases (run w).0) [
        | inl e ↦ rw (check_ok context run (pure none) w e) (laws.keep name other w l)
        | inr (err, e) ↦ rw (check_err context run (pure none) w err e) (laws.keep name other w l)
      ]

  Installs-load :
      (name context : String) (rest : Step W)
      → ((a : Agent) (w : W) → Loaded name w → Outcome name a (rest (a, w)))
      → Installs name (check context (on_host (load_module host name)) rest)
  Installs-load name context rest r a w =
      let load = load_module host name in
      elim (Option-cases (load w).0) [
        | inl e ↦
            rw (check_ok context (on_host load) rest (a, w) e)
              (r a (load w).1 (load-Loaded name w e))
        | inr (err, e) ↦ rw (check_err context (on_host load) rest (a, w) err e) refl
      ]

  now_ready-Outcome :
      (name : String) (a : Agent) (w : W) → Loaded name w → Outcome name a (now_ready (a, w))
  unfolding now_ready
  now_ready-Outcome name a w l = (refl, l)

  driver-Installs : (config : Config) → Installs "cxi_ss1" (load_driver host config)
  unfolding load_driver now_ready
  driver-Installs config =
      Installs-load "cxi_ss1" "failed to load cxi_ss1: "
        (on_host (load_module host "cxi_user") >>= λ _. now_ready)
        (λ a w l. (refl, load-keep "cxi_ss1" "cxi_user" w l))

  multi_repo-Installs : (config : Config) → Installs "cxi_ss1" (install_dkms_multi_repo host config)
  unfolding install_dkms_multi_repo
  multi_repo-Installs config =
      Installs-run_steps "cxi_ss1" (multi_repo_steps host config) (load_driver host config)
        (driver-Installs config)

  legacy-Installs : (config : Config) → Installs "cxi_ss1" (install_dkms_legacy host config)
  unfolding install_dkms_legacy
  legacy-Installs config = elim (Bool-cases (str_eq config.dkms_source_url "")) [
    | inl e ↦ rw (e, install_dkms_legacy) (λ a w. refl)
    | inr e ↦
        rw (e, install_dkms_legacy)
          (Installs-run_steps "cxi_ss1" (legacy_steps host config) (load_driver host config)
            (driver-Installs config))
  ]

  pub dkms-Installs : (config : Config) → Installs "cxi_ss1" (install_dkms host config)
  unfolding install_dkms
  dkms-Installs config = elim (Bool-cases (str_eq config.dkms_tag "")) [
    | inl e ↦ rw (e, install_dkms) (legacy-Installs config)
    | inr e ↦ rw (e, install_dkms) (multi_repo-Installs config)
  ]

  versioned-Installs :
      (config : Config) (version : String)
      → Installs "cxi" (run_steps (prebuilt_steps host config version) (load_prebuilt host config))
  unfolding load_prebuilt
  versioned-Installs config version =
      Installs-run_steps "cxi" (prebuilt_steps host config version) (load_prebuilt host config)
        (Installs-load "cxi" "failed to load cxi module: " now_ready (now_ready-Outcome "cxi"))

  prebuilt_of :
      (config : Config) (a : Agent) (w : W) (r : String ⊎ String)
      → (get_kernel_version host w).0 ≡ r
      → str_eq config.prebuilt_url "" ≡ false
      → Outcome "cxi" a (install_prebuilt host config (a, w))
  unfolding install_prebuilt
  prebuilt_of config a w (inl err) g e =
      let context : String = "failed to get kernel version: " in
      let get = on_host_value (get_kernel_version host) in
      let rest = λ (version : String).
        run_steps (prebuilt_steps host config version) (load_prebuilt host config) in
      rw (e, install_prebuilt) (rw (check_value_err context get rest (a, w) err g) refl)
  prebuilt_of config a w (inr version) g e =
      let context : String = "failed to get kernel version: " in
      let get = on_host_value (get_kernel_version host) in
      let rest = λ (version : String).
        run_steps (prebuilt_steps host config version) (load_prebuilt host config) in
      rw (e, install_prebuilt)
        (rw (check_value_ok context get rest (a, w) version g)
          (versioned-Installs config version a (get_kernel_version host w).1))

  pub prebuilt-Installs : (config : Config) → Installs "cxi" (install_prebuilt host config)
  unfolding install_prebuilt
  prebuilt-Installs config a w = elim (Bool-cases (str_eq config.prebuilt_url "")) [
    | inl e ↦ rw (e, install_prebuilt) refl
    | inr e ↦ prebuilt_of config a w (get_kernel_version host w).0 refl e
  ]

  listed_of :
      (name : String) (w : W) (r : FileError ⊎ String)
      → (host.read_file "/proc/modules" w).0 ≡ r
      → (is_module_loaded host name w).0 ≡ true
      → Loaded name (is_module_loaded host name w).1
  unfolding is_module_loaded
  listed_of name w (inl err) g e = absurd (false_not_true (rw g at e))
  listed_of name w (inr text) g e = laws.listed name text w g (rw g at e)

  pub preinstalled-Installs :
      (config : Config) → Installs "cxi_ss1" (verify_preinstalled host config)
  unfolding verify_preinstalled
  preinstalled-Installs config a w = elim (Bool-cases (is_module_loaded host "cxi_ss1" w).0) [
    | inl e ↦
        rw (e, verify_preinstalled)
          (now_ready-Outcome "cxi_ss1" a (is_module_loaded host "cxi_ss1" w).1
            (listed_of "cxi_ss1" w (host.read_file "/proc/modules" w).0 refl e))
    | inr e ↦
        rw (e, verify_preinstalled)
          (Installs-load "cxi_ss1" "cxi_ss1 module not found or loadable: " now_ready
            (now_ready-Outcome "cxi_ss1") a (is_module_loaded host "cxi_ss1" w).1)
  ]
