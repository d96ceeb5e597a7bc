-- ===== src/Tests/Machine.antt =====
-- A node in memory: an instance of the interfaces of the agents that meets their laws. It keeps the
-- modules that were loaded, the files that were written, the labels of the node and the resources of
-- its devices.
use slingshot_operator.Prelude.{
  ◌≡◌, refl, sym, ap, ◌∙◌, String, true, false, List, [], ◌∷◌, none, ◌⊎◌, inl, inr, str_eq, eq_iff,
  eq_refl, mem, if◌then◌else◌, Bool-cases, arith,
}
use slingshot_operator.Prelude.Action.{Action, Error}
use slingshot_operator.Api.Device.{CxiDeviceResource}
use slingshot_operator.Kube.Client.{Fetch, found, not_found}
use slingshot_operator.Kube.NodeClient.{Node, NodeClient}
use slingshot_operator.Host.{FileError, DirEntry, Command, Host}
use slingshot_operator.DriverAgent.Devices.Settle.{NodeLaws}
use slingshot_operator.DriverAgent.Install.Ways.{ModuleLaws}
use slingshot_operator.DriverAgent.Archive.{is_inside}
use slingshot_operator.DriverAgent.Archive.Confined.{IsKeptBelow}

pub record Machine : Type 0 where
  pub loaded : List String
  pub written : List String
  pub node : Node
  pub resources : List CxiDeviceResource

abbrev pub missing_file : FileError
missing_file = record { not_exist = true; text = "no such file or directory" }

abbrev pub read_text : String → FileError ⊎ String
read_text path =
    if str_eq path "/proc/version" then inr "Linux version 6.1.0 (gcc)" else inl missing_file

abbrev pub class_entries : List DirEntry
class_entries =
    record { name = "cxi0"; is_dir = false; is_symlink = true }
    ∷ record { name = "notes"; is_dir = false; is_symlink = false }
    ∷ []

abbrev pub load_args : List String → List String → List String
load_args (name ∷ []) loaded = name ∷ loaded
load_args _ loaded = loaded

abbrev pub run_command : Command → Action Machine Error
run_command c w = (
  none,
  record w { loaded = if str_eq c.name "modprobe" then load_args c.args w.loaded else w.loaded },
)

abbrev pub write_path : String → Action Machine Error
write_path path w = (none, record w { written = path ∷ w.written })

abbrev pub done : Action Machine Error
done w = (none, w)

abbrev pub node_host : Host Machine
node_host = record {
  run = run_command;
  read_file = λ path w. (read_text path, w);
  write_file = λ path text. write_path path;
  read_dir = λ path w. (inr class_entries, w);
  read_link = λ path w. (inr "../../../0000:41:00.0", w);
  stat = λ path w. (inl missing_file, w);
  mkdir_all = λ path mode. done;
  remove = λ path. done;
  remove_all = λ path. done;
  rename = λ old new. write_path new;
  make_symlink = λ old path. write_path path;
  chmod = λ path mode. done;
  open_file = λ path w. (read_text path, w);
  create_file = λ path mode. write_path path;
  copy_content = λ path content. done;
  create_temp = λ w. (inr "/tmp/download-1.zip", w);
  set_env = λ key value. done;
  http_get = λ url w. (inr (record { status_code = 200; body = url }), w);
  gunzip = inr;
  tar_stream = λ content. record { entries = []; read_error = none };
  open_zip = λ path w. (inr [], w);
  open_entry = λ e. done;
}

abbrev pub get_own : String → Machine → String ⊎ Node
get_own name w = if str_eq w.node.name name then inr w.node else inl "not found"

abbrev pub find_resource : String → List CxiDeviceResource → Fetch CxiDeviceResource
find_resource name [] = not_found
find_resource name (x ∷ xs) = if str_eq x.name name then found x else find_resource name xs

abbrev pub put_resource : CxiDeviceResource → Action Machine Error
put_resource x w = (none, record w { resources = x ∷ w.resources })

abbrev pub node_client : NodeClient Machine
node_client = record {
  get_cxi_device = λ name w. (find_resource name w.resources, w);
  create_cxi_device = put_resource;
  update_cxi_device_status = put_resource;
  get_node = λ name w. (get_own name w, w);
  update_node = λ n w. (none, record w { node = n });
}

own_name : (name : String) (w : Machine) (n : Node) → get_own name w ≡ inr n → n.name ≡ name
own_name name w n h = ground (arith, eq_iff w.node.name name)

own_node :
    (n : Node)
    → get_own n.name (record { loaded = []; written = []; node = n; resources = [] }) ≡ inr n
own_node n = rw (eq_refl n.name) refl

pub node-NodeLaws : NodeLaws node_client
node-NodeLaws = record {
  get_node-pure = λ name w. refl;
  get_node-name = λ name w n h. own_name name w n h;
  get-update = λ n w h. own_node n;
}

abbrev pub IsLoaded : String → Machine → Type 0
IsLoaded name w = mem name w.loaded ≡ true

mem-cons : (x y : String) (xs : List String) → mem x xs ≡ true → mem x (y ∷ xs) ≡ true
unfolding mem
mem-cons x y xs h = ground (arith, h)

mem-head : (x : String) (xs : List String) → mem x (x ∷ xs) ≡ true
unfolding mem
mem-head x xs = rw (eq_refl x, mem) refl

no_file : (text : String) → inl missing_file ≡ inr text → ⊥
no_file text h = cc

pub node-ModuleLaws : ModuleLaws node_host IsLoaded
node-ModuleLaws = record {
  load = λ name w h. mem-head name w.loaded;
  keep = λ name other w h. mem-cons name other w.loaded h;
  listed = λ name text w h e. absurd (no_file text h);
}

-- No password file was written.
abbrev pub IsSafe : Machine → Type 0
IsSafe w = mem "/etc/passwd" w.written ≡ false

outside : true ≡ is_inside "/tmp/sbl" "/etc/passwd" → ⊥
unfolding is_inside
outside h = cc

write-IsSafe :
    (path : String) (w : Machine)
    → is_inside "/tmp/sbl" path ≡ true
    → IsSafe w
    → IsSafe (write_path path w).1
unfolding mem
write-IsSafe path w i s = elim (Bool-cases (str_eq path "/etc/passwd")) [
  | inl e ↦ absurd (outside (sym i ∙ ap (is_inside "/tmp/sbl") ((eq_iff path "/etc/passwd").0 e)))
  | inr f ↦ rw (f, mem) s
]

pub node-IsKeptBelow : IsKeptBelow node_host "/tmp/sbl" IsSafe
node-IsKeptBelow = record {
  mkdir = λ path mode w i s. s;
  mkdir_parent = λ path w i s. s;
  create = λ path mode w i s. write-IsSafe path w i s;
  copy = λ path content w i s. s;
  link = λ old path w i s. write-IsSafe path w i s;
  open_entry = λ e w s. s;
  open_zip = λ path w s. s;
}
