-- ===== src/DriverAgent/Source.antt =====
-- pkg/driveragent/download.go: `prepareDKMSSource`, `generateDKMSConf` and `copyDir`.
pub mod Depth
use Prim.Native.String.{◌++◌ as cat}
use slingshot_operator.Prelude.{
  ℕ, zero, suc, String, Bool, true, false, List, [], ◌∷◌, none, some, inl, inr, if◌then◌else◌,
}
use slingshot_operator.Prelude.Text.{replace_all}
use slingshot_operator.Prelude.FilePath.{join_path}
use slingshot_operator.Prelude.Action.{Action, Error, pure, check, check_value, ◌>>=◌}
use slingshot_operator.Host.{DirEntry, FileInfo, Host, with_text}
use slingshot_operator.DriverAgent.Download.{mode_0666}

-- The template with its variables replaced.
unfoldable pub dkms_conf : String → String → String → String
unfolding replace_all
dkms_conf package_name package_version content =
    let named = replace_all content "@PACKAGE_NAME@" package_name in
    let versioned = replace_all named "@PACKAGE_VERSION@" package_version in
    replace_all versioned "@SHS_DKMS_AUX_DIR@" "/etc/shs-dkms"

module _ {W : Type 0} (host : Host W) where
  -- Does stat find the path?
  unfoldable pub exists : String → Action W Bool
  exists path = do r ← host.stat path; pure (elim r [ inl _ ↦ false | inr _ ↦ true ])

  unfoldable pub generate_dkms_conf : String → String → String → String → Action W Error
  unfolding dkms_conf
  generate_dkms_conf in_path out_path package_name package_version =
      check_value "failed to read dkms.conf.in: " (with_text (host.read_file in_path))
        (λ (content : String).
          check "failed to write dkms.conf: "
            (host.write_file out_path (dkms_conf package_name package_version content)) (pure none))

  move_entries : String → String → List DirEntry → Action W Error → Action W Error
  unfolding join_path
  move_entries nested source [] next = next
  move_entries nested source (e ∷ es) next =
      check (cat "failed to move " (cat e.name ": "))
        (host.rename (join_path nested e.name) (join_path source e.name))
        (move_entries nested source es next)

  -- A single directory is the one that GitHub puts around the sources.
  unfoldable pub flatten : String → List DirEntry → Action W Error → Action W Error
  unfolding move_entries join_path
  flatten source (e ∷ []) next = elim e.is_dir [
    | false ↦ next
    | true ↦
        let nested = join_path source e.name in
        check_value "failed to read nested directory: " (with_text (host.read_dir nested))
          (λ (es : List DirEntry).
            move_entries nested source es
              (check "failed to remove nested directory: " (host.remove nested) next))
  ]
  flatten source _ next = next

  process_template : String → String → String → Action W Error
  unfolding generate_dkms_conf exists join_path
  process_template source package_name package_version = do
    there ← exists (join_path source "dkms.conf.in")
    if there
        then check "failed to generate dkms.conf: "
            (generate_dkms_conf (join_path source "dkms.conf.in") (join_path source "dkms.conf")
              package_name package_version)
            (pure none)
        else pure none

  unfoldable pub prepare_dkms_source : String → String → String → Action W Error
  unfolding flatten process_template
  prepare_dkms_source source package_name package_version =
      check_value "failed to read source directory: " (with_text (host.read_dir source))
        (λ (es : List DirEntry).
          flatten source es (process_template source package_name package_version))

  pub copy_file : String → String → FileInfo → Action W Error
  copy_file src dst info = check_value "" (with_text (host.open_file src)) (λ (content : String).
      check "" (host.create_file dst mode_0666) (
        check "" (host.copy_content dst content) (check "" (host.chmod dst info.mode) (pure none))))

  -- The loop over the entries, with the copy of one of them.
  copy_entries :
      (String → String → Action W Error) → String → String → List DirEntry → Action W Error
  unfolding join_path
  copy_entries copy src dst [] = pure none
  copy_entries copy src dst (e ∷ es) =
      check "" (copy (join_path src e.name) (join_path dst e.name)) (copy_entries copy src dst es)

  -- The number bounds the depth. Each level makes the path longer, and Linux refuses a path of more
  -- than 4095 bytes with this error.
  unfoldable pub copy_levels : ℕ → String → String → Action W Error
  unfolding copy_file copy_entries
  copy_levels zero src dst = pure (some (cat "stat " (cat src ": file name too long")))
  copy_levels (suc depth) src dst = check_value "" (with_text (host.stat src)) (λ (info : FileInfo).
      if info.is_dir
      then check "" (host.mkdir_all dst info.mode) (
          check_value "" (with_text (host.read_dir src)) (copy_entries (copy_levels depth) src dst))
      else copy_file src dst info)

  unfoldable pub copy_dir : String → String → Action W Error
  unfolding copy_levels
  copy_dir src dst = copy_levels 4096 src dst
