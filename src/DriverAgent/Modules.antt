-- ===== src/DriverAgent/Modules.antt =====
-- pkg/driveragent/module.go: the commands that build, install and load kernel modules, and the reads
-- of /proc. The output of the commands is left out.
use Prim.Native.String.{◌++◌ as cat}
use slingshot_operator.Prelude.{
  String, Bool, false, ◌||◌, List, [], ◌∷◌, none, ◌⊎◌, inl, inr, str_eq,
}
use slingshot_operator.Prelude.Dict.{Dict}
use slingshot_operator.Prelude.Text.{split, fields}
use slingshot_operator.Prelude.FilePath.{join_path}
use slingshot_operator.Prelude.Action.{Action, Error, pure, check, check_value, ◌>>=◌}
use slingshot_operator.Host.{Command, Host}

abbrev pub command : String → List String → Command
command name args = record { name = name; args = args; dir = ""; env = [] }

-- The first word of the line is the name.
abbrev names_module : String → List String → Bool
names_module name [] = false
names_module name (first ∷ _) = str_eq first name

-- The lines of /proc/modules are far shorter than the limit of the scanner.
unfoldable pub any_line_names : String → List String → Bool
unfolding fields
any_line_names name [] = false
any_line_names name (line ∷ lines) = names_module name (fields line) || any_line_names name lines

-- fields[2]
abbrev third : List String → String ⊎ String
third (_ ∷ _ ∷ version ∷ _) = inr version
third _ = inl "unexpected /proc/version format"

-- Module.symvers of a dependency
unfoldable pub get_symvers_path : String → String
unfolding join_path
get_symvers_path path = join_path path "Module.symvers"

module _ {W : Type 0} (host : Host W) where
  unfoldable pub load_module : String → Action W Error
  load_module name =
      check (cat "modprobe " (cat name " failed: ")) (host.run (command "modprobe" (name ∷ [])))
        (pure none)

  unfoldable pub unload_module : String → Action W Error
  unload_module name =
      check (cat "rmmod " (cat name " failed: ")) (host.run (command "rmmod" (name ∷ [])))
        (pure none)

  unfoldable pub is_module_loaded : String → Action W Bool
  unfolding any_line_names split
  is_module_loaded name = do
    r ← host.read_file "/proc/modules"
    pure (elim r [ inl _ ↦ false | inr text ↦ any_line_names name (split b'\n' text) ])

  unfoldable pub get_kernel_version : Action W (String ⊎ String)
  unfolding fields
  get_kernel_version = do
    r ← host.read_file "/proc/version"
    pure (elim r [
      | inl err ↦ inl (cat "failed to read /proc/version: " err.text)
      | inr text ↦ third (fields text)
    ])

  unfoldable pub run_depmod : Action W Error
  run_depmod = check "depmod failed: " (host.run (command "depmod" ("-a" ∷ []))) (pure none)

  unfoldable pub run_dkms_add : String → Action W Error
  run_dkms_add path =
      check "dkms add failed: " (host.run (command "dkms" ("add" ∷ path ∷ []))) (pure none)

  unfoldable pub run_dkms_build : String → Action W Error
  unfolding get_kernel_version
  run_dkms_build name = check_value "" get_kernel_version (λ version.
      check "dkms build failed: "
        (host.run (command "dkms" ("build" ∷ "-m" ∷ name ∷ "-k" ∷ version ∷ []))) (pure none))

  unfoldable pub run_dkms_install : String → Action W Error
  unfolding get_kernel_version
  run_dkms_install name = check_value "" get_kernel_version (λ version.
      check "dkms install failed: "
        (host.run (command "dkms" ("install" ∷ "-m" ∷ name ∷ "-k" ∷ version ∷ []))) (pure none))

  unfoldable pub run_dkms_remove : String → Action W Error
  run_dkms_remove name =
      check "dkms remove failed: " (host.run (command "dkms" ("remove" ∷ name ∷ "--all" ∷ [])))
        (pure none)

  -- The variables come after those of the agent's own environment.
  unfoldable pub build_kernel_module : String → Dict String → Action W Error
  unfolding get_kernel_version
  build_kernel_module path env = check_value "" get_kernel_version (λ version.
      check (cat "make failed in " (cat path ": "))
        (host.run (record {
          name = "make";
          args = cat "KDIR=/lib/modules/" (cat version "/build") ∷ [];
          dir = path;
          env = env;
        }))
        (pure none))
