-- ===== src/DriverAgent/Archive/Confined.antt =====
-- Where the extraction of an archive writes.
use slingshot_operator.Prelude.{
  ℕ, ◌≡◌, refl, String, true, List, [], ◌∷◌, ◌⊎◌, inl, inr, Bool-cases, Option-cases,
}
use slingshot_operator.Prelude.FilePath.{join_path, dir}
use slingshot_operator.Prelude.Action.{
  Action, Error, check, check_ok, check_err, check_value_ok, check_value_err,
}
use slingshot_operator.Host.{
  EntryKind, dir_entry, regular_file, symlink, other_entry, ArchiveEntry, TarStream, Host,
}
use slingshot_operator.DriverAgent.Archive.{
  is_inside, mode_0755, extract_tar_entry, extract_tar_entries, extract_tar, extract_zip_entry,
  extract_zip_entries, extract_zip, write_tar_entry, write_zip_entry,
}

-- A property of the states of the node that every write to a path that begins with the destination
-- keeps, and the creation of the directory such a path is in.
pub record IsKeptBelow {W : Type 0} (host : Host W) (dest : String) (P : W → Type 0) : Type 0 where
  pub mkdir :
      (path : String) (mode : ℕ) (w : W)
      → is_inside dest path ≡ true
      → P w
      → P (host.mkdir_all path mode w).1
  pub mkdir_parent :
      (path : String) (w : W)
      → is_inside dest path ≡ true
      → P w
      → P (host.mkdir_all (dir path) mode_0755 w).1
  pub create :
      (path : String) (mode : ℕ) (w : W)
      → is_inside dest path ≡ true
      → P w
      → P (host.create_file path mode w).1
  pub copy :
      (path content : String) (w : W)
      → is_inside dest path ≡ true
      → P w
      → P (host.copy_content path content w).1
  pub link :
      (old path : String) (w : W)
      → is_inside dest path ≡ true
      → P w
      → P (host.make_symlink old path w).1
  pub open_entry : (e : ArchiveEntry) (w : W) → P w → P (host.open_entry e w).1
  pub open_zip : (path : String) (w : W) → P w → P (host.open_zip path w).1

module _ {W : Type 0} (P : W → Type 0) where
  -- An action that keeps the property.
  abbrev pub Keeps : {A : Type 0} → Action W A → Type 0
  Keeps m = (w : W) → P w → P (m w).1

  Keeps-check :
      (context : String) (m rest : Action W Error)
      → Keeps m
      → Keeps rest
      → Keeps (check context m rest)
  Keeps-check context m rest km kr w p = elim (Option-cases (m w).0) [
    | inl e ↦ rw (check_ok context m rest w e) (kr (m w).1 (km w p))
    | inr (err, e) ↦ rw (check_err context m rest w err e) (km w p)
  ]

module _ {W : Type 0} (host : Host W) (dest : String) (P : W → Type 0)
    (k : IsKeptBelow host dest P) where
  kept_file :
      (target content : String) (mode : ℕ) (next : Action W Error)
      → is_inside dest target ≡ true
      → Keeps P next
      → Keeps P (
          check "failed to create file: "
            (host.create_file target mode)
            (check "failed to write file: " (host.copy_content target content) next))
  kept_file target content mode next t kn =
      Keeps-check P "failed to create file: " (host.create_file target mode)
        (check "failed to write file: " (host.copy_content target content) next)
        (λ w. k.create target mode w t)
        (Keeps-check P "failed to write file: " (host.copy_content target content) next
          (λ w. k.copy target content w t) kn)

  kept_tar :
      (kind : EntryKind) (target : String) (e : ArchiveEntry) (next : Action W Error)
      → is_inside dest target ≡ true
      → Keeps P next
      → Keeps P (write_tar_entry host kind target e next)
  unfolding write_tar_entry
  kept_tar dir_entry target e next t kn =
      Keeps-check P "failed to create directory: " (host.mkdir_all target e.mode) next
        (λ w. k.mkdir target e.mode w t) kn
  kept_tar regular_file target e next t kn =
      Keeps-check P "failed to create parent directory: " (host.mkdir_all (dir target) mode_0755)
        (check "failed to create file: " (host.create_file target e.mode)
          (check "failed to write file: " (host.copy_content target e.content) next))
        (λ w. k.mkdir_parent target w t) (kept_file target e.content e.mode next t kn)
  kept_tar (symlink old) target e next t kn =
      Keeps-check P "failed to create symlink: " (host.make_symlink old target) next
        (λ w. k.link old target w t) kn
  kept_tar other_entry target e next t kn = kn

  kept_tar_entries :
      (err : Error) (es : List ArchiveEntry) → Keeps P (extract_tar_entries host dest err es)
  unfolding extract_tar_entries extract_tar_entry
  kept_tar_entries err [] = λ w p. p
  kept_tar_entries err (e ∷ es) = elim (Bool-cases (is_inside dest (join_path dest e.name))) [
    | inl t ↦
        rw (t, extract_tar_entry)
          (kept_tar e.kind (join_path dest e.name) e (extract_tar_entries host dest err es) t
            (kept_tar_entries err es))
    | inr f ↦ rw (f, extract_tar_entry) (λ w p. p)
  ]

  kept_zip_file :
      (target : String) (f : ArchiveEntry) (next : Action W Error)
      → is_inside dest target ≡ true
      → Keeps P next
      → Keeps P (
          check "failed to create parent directory: " (host.mkdir_all (dir target) mode_0755) (
            check "failed to create file: " (host.create_file target f.mode) (
              check "failed to open zip entry: "
                (host.open_entry f)
                (check "failed to write file: " (host.copy_content target f.content) next))))
  kept_zip_file target f next t kn =
      let write = check "failed to write file: " (host.copy_content target f.content) next in
      let opened = check "failed to open zip entry: " (host.open_entry f) write in
      let file = check "failed to create file: " (host.create_file target f.mode) opened in
      Keeps-check P "failed to create parent directory: " (host.mkdir_all (dir target) mode_0755)
        file (λ w. k.mkdir_parent target w t)
        (Keeps-check P "failed to create file: " (host.create_file target f.mode) opened
          (λ w. k.create target f.mode w t)
          (Keeps-check P "failed to open zip entry: " (host.open_entry f) write (k.open_entry f) (
            Keeps-check P "failed to write file: " (host.copy_content target f.content) next
              (λ w. k.copy target f.content w t) kn)))

  kept_zip :
      (kind : EntryKind) (target : String) (f : ArchiveEntry) (next : Action W Error)
      → is_inside dest target ≡ true
      → Keeps P next
      → Keeps P (write_zip_entry host kind target f next)
  unfolding write_zip_entry
  kept_zip dir_entry target f next t kn =
      Keeps-check P "failed to create directory: " (host.mkdir_all target f.mode) next
        (λ w. k.mkdir target f.mode w t) kn
  kept_zip regular_file target f next t kn = kept_zip_file target f next t kn
  kept_zip (symlink old) target f next t kn = kept_zip_file target f next t kn
  kept_zip other_entry target f next t kn = kept_zip_file target f next t kn

  kept_zip_entries : (fs : List ArchiveEntry) → Keeps P (extract_zip_entries host dest fs)
  unfolding extract_zip_entries extract_zip_entry
  kept_zip_entries [] = λ w p. p
  kept_zip_entries (f ∷ fs) = elim (Bool-cases (is_inside dest (join_path dest f.name))) [
    | inl t ↦
        rw (t, extract_zip_entry)
          (kept_zip f.kind (join_path dest f.name) f (extract_zip_entries host dest fs) t
            (kept_zip_entries fs))
    | inr e ↦ rw (e, extract_zip_entry) (λ w p. p)
  ]

  kept_zip_of :
      (path : String) (w : W) (r : String ⊎ List ArchiveEntry)
      → (host.open_zip path w).0 ≡ r
      → P w
      → P (extract_zip host dest path w).1
  unfolding extract_zip
  kept_zip_of path w (inl err) e p =
      rw
        (check_value_err "failed to open zip: " (host.open_zip path) (extract_zip_entries host dest)
          w err e)
        (k.open_zip path w p)
  kept_zip_of path w (inr fs) e p =
      rw
        (check_value_ok "failed to open zip: " (host.open_zip path) (extract_zip_entries host dest)
          w fs e)
        (kept_zip_entries fs (host.open_zip path w).1 (k.open_zip path w p))

  -- Whatever an archive holds, its extraction, of a tar stream and of a zip file, keeps every
  -- property of the node that is kept by writes to paths that begin, as texts, with the destination,
  -- by the creation of the directories that hold such paths, and by the opening of archives: nothing
  -- else is written.
  pub extract_confined :
      (stream : TarStream) (path : String)
      → Keeps P (extract_tar host dest stream) × Keeps P (extract_zip host dest path)
  unfolding extract_tar
  extract_confined stream path = (
    kept_tar_entries stream.read_error stream.entries,
    λ w p. kept_zip_of path w (host.open_zip path w).0 refl p,
  )
