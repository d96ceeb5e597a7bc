-- ===== src/DriverAgent/Build.antt =====
-- pkg/driveragent/download.go: `buildDependency`, `buildCXIDriver` and `downloadHeaders`.
use Prim.Native.String.{◌++◌ as cat}
use slingshot_operator.Prelude.{
  String, Bool, not, ◌&&◌, List, [], ◌∷◌, ◌++◌, none, str_eq, if◌then◌else◌,
}
use slingshot_operator.Prelude.Dict.{Dict}
use slingshot_operator.Prelude.Text.{split, join}
use slingshot_operator.Prelude.FilePath.{join_path}
use slingshot_operator.Prelude.Action.{Action, Error, pure, check, check_value, ◌>>=◌}
use slingshot_operator.Host.{DirEntry, Host, with_text}
use slingshot_operator.DriverAgent.Agent.{Config, dkms_platform_rosetta}
use slingshot_operator.DriverAgent.Archive.{mode_0755}
use slingshot_operator.DriverAgent.Download.{download_and_extract}
use slingshot_operator.DriverAgent.Source.{exists, prepare_dkms_source, copy_dir}
use slingshot_operator.DriverAgent.Modules.{
  build_kernel_module, get_symvers_path, run_dkms_add, run_dkms_build, run_dkms_install,
}
use slingshot_operator.DriverAgent.Version.{extract_version_from_url}

abbrev headers_path : String
headers_path = "/tmp/cassini-headers/install/include"

-- The variables for the build of SBL, and whether the headers were found.
unfoldable pub sbl_env : String → Bool → Dict String
sbl_env platform has_headers =
    ("SBL_EXTERNAL_BUILD", "1")
    ∷ (
      if str_eq platform dkms_platform_rosetta
          then "PLATFORM_ROSETTA_HW"
          else "PLATFORM_CASSINI_HW",
      "1",
    )
    ∷ (if has_headers then ("KCPPFLAGS", cat "-I" headers_path) ∷ [] else [])

-- parts[len(parts)-1]
unfoldable pub last_of : List String → String
last_of [] = ""
last_of (part ∷ []) = part
last_of (part ∷ next ∷ parts) = last_of (next ∷ parts)

abbrev pub pkg_name_of : Config → String
pkg_name_of config = if str_eq config.dkms_pkg_name "" then "cxi-driver" else config.dkms_pkg_name

-- The configured version, else what stands behind the last dash of the tag, else the version in the
-- URL.
unfoldable pub pkg_version_of : Config → String → String
unfolding split last_of extract_version_from_url
pkg_version_of config url =
    let version =
      if str_eq config.dkms_pkg_version "" && not (str_eq config.dkms_tag "")
      then last_of (split b'-' config.dkms_tag)
      else config.dkms_pkg_version in
    if str_eq version "" then extract_version_from_url url else version

module _ {W : Type 0} (host : Host W) (config : Config) where
  sbl_build_env : Action W (Dict String)
  unfolding sbl_env exists
  sbl_build_env = do there ← exists host headers_path; pure (sbl_env config.dkms_platform there)

  build_env : String → Action W (Dict String)
  unfolding sbl_build_env
  build_env name = if str_eq name "sbl" then sbl_build_env else pure []

  -- An old build that cannot be removed is logged only.
  unfoldable pub build_dependency : String → String → Action W Error
  unfolding build_env join_path download_and_extract prepare_dkms_source build_kernel_module
  build_dependency name url =
      let dest = join_path "/tmp" name in
      do
        _ ← host.remove_all dest
        check (cat "failed to download " (cat name ": ")) (download_and_extract host url dest) (
            check (cat "failed to prepare " (cat name " source: "))
              (prepare_dkms_source host dest name "")
              (build_env name >>= λ env.
                check (cat "failed to build " (cat name ": ")) (build_kernel_module host dest env)
                  (pure none)))

  abbrev found_path : String → Bool → List String
  found_path path there = if there then path ∷ [] else []

  set_symbols : List String → Action W Unit
  unfolding join
  set_symbols [] = pure tt
  set_symbols (path ∷ paths) = do
    _ ← host.set_env "KBUILD_EXTRA_SYMBOLS" (join " " (path ∷ paths))
    pure tt

  -- KBUILD_EXTRA_SYMBOLS names the symvers files that are there; an error is logged only.
  set_symvers : Action W Unit
  unfolding exists get_symvers_path set_symbols
  set_symvers =
      let sbl_path = get_symvers_path "/tmp/sbl" in
      let sl_path = get_symvers_path "/tmp/sl" in
      do
        sbl ← exists host sbl_path
        sl ← exists host sl_path
        set_symbols (found_path sbl_path sbl ++ found_path sl_path sl)

  dkms_steps : String → String → Action W Error → Action W Error
  unfolding run_dkms_add run_dkms_build run_dkms_install
  dkms_steps path pkg_name next = check "dkms add failed: " (run_dkms_add host path) (
      check "dkms build failed: " (run_dkms_build host pkg_name)
        (check "dkms install failed: " (run_dkms_install host pkg_name) next))

  unfoldable pub build_cxi_driver : String → Action W Error
  unfolding set_symvers dkms_steps pkg_version_of download_and_extract prepare_dkms_source
  build_cxi_driver url = do
    _ ← host.remove_all "/tmp/cxi-driver"
    check "failed to download CXI driver: " (download_and_extract host url "/tmp/cxi-driver") (
        check "failed to prepare CXI driver source: "
          (prepare_dkms_source host "/tmp/cxi-driver" (pkg_name_of config)
            (pkg_version_of config url))
          (set_symvers >>= λ _. dkms_steps "/tmp/cxi-driver" (pkg_name_of config) (pure none)))

module _ {W : Type 0} (host : Host W) where
  copy_headers : List DirEntry → Action W Error
  unfolding join_path copy_dir
  copy_headers [] = pure none
  copy_headers (e ∷ es) =
      check (cat "failed to copy " (cat e.name ": "))
        (copy_dir host (join_path "/tmp/cassini-headers/include" e.name)
          (join_path "/tmp/cassini-headers/install/include" e.name))
        (copy_headers es)

  install_headers : Action W Error
  unfolding exists copy_headers
  install_headers = do
    there ← exists host "/tmp/cassini-headers/include"
    if there
        then check_value "failed to read include directory: "
            (with_text (host.read_dir "/tmp/cassini-headers/include")) copy_headers
        else pure none

  unfoldable pub download_headers : String → Action W Error
  unfolding install_headers download_and_extract prepare_dkms_source
  download_headers url = do
    _ ← host.remove_all "/tmp/cassini-headers"
    check "failed to download cassini-headers: "
        (download_and_extract host url "/tmp/cassini-headers")
        (check "failed to prepare cassini-headers: "
          (prepare_dkms_source host "/tmp/cassini-headers" "cassini-headers" "")
          (check "failed to create install directory: "
            (host.mkdir_all "/tmp/cassini-headers/install/include" mode_0755) install_headers))
