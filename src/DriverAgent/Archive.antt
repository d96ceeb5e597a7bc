-- ===== src/DriverAgent/Archive.antt =====
-- pkg/driveragent/download.go: `extractTar` and `extractZip`. The child proves where they write.
pub mod Confined
use Prim.Native.String.{◌++◌ as cat}
use slingshot_operator.Prelude.{
  ℕ, String, Bool, true, false, List, [], ◌∷◌, Option, none, some, ◌⊎◌, inl, inr, starts_with,
  if◌then◌else◌,
}
use slingshot_operator.Prelude.FilePath.{clean, join_path, dir}
use slingshot_operator.Prelude.Action.{Action, Error, pure, check, check_value, ◌>>=◌}
use slingshot_operator.Host.{
  EntryKind, dir_entry, regular_file, symlink, other_entry, ArchiveEntry, TarStream, Host,
}

-- The path begins with the destination, as a text.
unfoldable pub is_inside : String → String → Bool
unfolding clean
is_inside dest target = starts_with (clean target) (clean dest)

-- 0755
abbrev pub mode_0755 : ℕ
mode_0755 = 493

module _ {W : Type 0} (host : Host W) where
  -- What is done for an entry whose path was found good, before the next round.
  unfoldable pub write_tar_entry :
      EntryKind → String → ArchiveEntry → Action W Error → Action W Error
  unfolding dir
  write_tar_entry dir_entry target header next =
      check "failed to create directory: " (host.mkdir_all target header.mode) next
  write_tar_entry regular_file target header next =
      check "failed to create parent directory: " (host.mkdir_all (dir target) mode_0755) (
        check "failed to create file: " (host.create_file target header.mode)
          (check "failed to write file: " (host.copy_content target header.content) next))
  write_tar_entry (symlink linkname) target header next =
      check "failed to create symlink: " (host.make_symlink linkname target) next
  write_tar_entry other_entry target header next = next

  -- A symbolic link of a zip file is written as a regular file.
  unfoldable pub write_zip_entry :
      EntryKind → String → ArchiveEntry → Action W Error → Action W Error
  unfolding dir
  write_zip_entry dir_entry target f next =
      check "failed to create directory: " (host.mkdir_all target f.mode) next
  write_zip_entry _ target f next =
      check "failed to create parent directory: " (host.mkdir_all (dir target) mode_0755) (
        check "failed to create file: " (host.create_file target f.mode) (
          check "failed to open zip entry: " (host.open_entry f)
            (check "failed to write file: " (host.copy_content target f.content) next)))

module _ {W : Type 0} (host : Host W) (dest : String) where
  -- The body of the loop.
  unfoldable pub extract_tar_entry : ArchiveEntry → Action W Error → Action W Error
  unfolding is_inside join_path write_tar_entry
  extract_tar_entry header next =
      let target = join_path dest header.name in
      if is_inside dest target
      then write_tar_entry host header.kind target header next
      else pure (some (cat "invalid tar path: " header.name))

  -- The error that ends the stream, if it is not the end of the file.
  abbrev end_of_tar : Error → Error
  end_of_tar none = none
  end_of_tar (some err) = some (cat "tar read error: " err)

  extract_tar_entries : Error → List ArchiveEntry → Action W Error
  unfolding extract_tar_entry
  extract_tar_entries read_error [] = pure (end_of_tar read_error)
  extract_tar_entries read_error (e ∷ es) = extract_tar_entry e (extract_tar_entries read_error es)

  unfoldable pub extract_tar : TarStream → Action W Error
  unfolding extract_tar_entries
  extract_tar stream = extract_tar_entries stream.read_error stream.entries

  unfoldable pub extract_zip_entry : ArchiveEntry → Action W Error → Action W Error
  unfolding is_inside join_path write_zip_entry
  extract_zip_entry f next =
      let target = join_path dest f.name in
      if is_inside dest target
      then write_zip_entry host f.kind target f next
      else pure (some (cat "invalid zip path: " f.name))

  extract_zip_entries : List ArchiveEntry → Action W Error
  unfolding extract_zip_entry
  extract_zip_entries [] = pure none
  extract_zip_entries (f ∷ fs) = extract_zip_entry f (extract_zip_entries fs)

  unfoldable pub extract_zip : String → Action W Error
  unfolding extract_zip_entries
  extract_zip path = check_value "failed to open zip: " (host.open_zip path) extract_zip_entries
