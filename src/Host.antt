-- ===== src/Host.antt =====
-- The operating system of a node as the agents use it through Go's packages os, os/exec, net/http,
-- archive/tar and archive/zip: an interface over the type `W` of its states. Closing files and
-- bodies is left out.
use slingshot_operator.Prelude.{ℕ, String, Bool, List, ◌⊎◌, inl, inr}
use slingshot_operator.Prelude.Dict.{Dict}
use slingshot_operator.Prelude.Action.{Action, Error, pure, ◌>>=◌}

-- The error of a look at the file system, and whether it is that the file does not exist.
pub record FileError : Type 0 where
  pub not_exist : Bool
  pub text : String

pub record DirEntry : Type 0 where
  pub name : String
  pub is_dir : Bool
  pub is_symlink : Bool

pub record FileInfo : Type 0 where
  pub is_dir : Bool
  pub mode : ℕ

-- exec.Command(name, args...), the directory it runs in, empty for the own one, and what is added
-- to the environment.
pub record Command : Type 0 where
  pub name : String
  pub args : List String
  pub dir : String
  pub env : Dict String

-- The body of a response, like the contents of a file or of an entry of an archive, is named by a text.
pub record HttpResponse : Type 0 where
  pub status_code : ℕ
  pub body : String

pub data EntryKind : Type 0 where
  dir_entry : EntryKind
  regular_file : EntryKind
  symlink : String → EntryKind
  other_entry : EntryKind

pub record ArchiveEntry : Type 0 where
  pub name : String
  pub mode : ℕ
  pub kind : EntryKind
  pub content : String

-- What a tar reader yields: its entries, and the error that ends it, none at the end of the file.
pub record TarStream : Type 0 where
  pub entries : List ArchiveEntry
  pub read_error : Error

pub record Host (W : Type 0) : Type 0 where
  pub run : Command → Action W Error
  pub read_file : String → Action W (FileError ⊎ String)
  pub write_file : String → String → Action W Error
  pub read_dir : String → Action W (FileError ⊎ List DirEntry)
  pub read_link : String → Action W (FileError ⊎ String)
  pub stat : String → Action W (FileError ⊎ FileInfo)
  pub mkdir_all : String → ℕ → Action W Error
  pub remove : String → Action W Error
  pub remove_all : String → Action W Error
  pub rename : String → String → Action W Error
  pub make_symlink : String → String → Action W Error
  pub chmod : String → ℕ → Action W Error
  -- os.Open, which answers what names the contents, os.OpenFile to write a file anew, and io.Copy to
  -- the file of the path
  pub open_file : String → Action W (FileError ⊎ String)
  pub create_file : String → ℕ → Action W Error
  pub copy_content : String → String → Action W Error
  pub create_temp : Action W (String ⊎ String)
  pub set_env : String → String → Action W Error
  pub http_get : String → Action W (String ⊎ HttpResponse)
  -- gzip.NewReader, tar.NewReader with its calls of Next, zip.OpenReader with the opening of an entry
  pub gunzip : String → String ⊎ String
  pub tar_stream : String → TarStream
  pub open_zip : String → Action W (String ⊎ List ArchiveEntry)
  pub open_entry : ArchiveEntry → Action W Error

-- Calls of which only the text of the error is used.
abbrev pub with_text : {W A : Type 0} → Action W (FileError ⊎ A) → Action W (String ⊎ A)
with_text m = m >>= λ r. pure (elim r [ inl err ↦ inl err.text | inr a ↦ inr a ])
