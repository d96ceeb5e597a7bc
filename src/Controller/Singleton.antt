-- ===== src/Controller/Singleton.antt =====
-- internal/controller/cxidriver_controller.go: the ConfigMap that names the one active CXIDriver.
-- The children prove that it keeps the driver single.
pub mod Laws
pub mod Exclusion
pub mod Frame
use Prim.Native.String.{◌++◌ as cat}
use slingshot_operator.Prelude.{
  String, Bool, true, false, List, [], ◌∷◌, Option, none, some, str_eq, if◌then◌else◌,
}
use slingshot_operator.Prelude.Dict.{Dict, get, insert, delete}
use slingshot_operator.Kube.Workload.{ConfigMap}
use slingshot_operator.Kube.Client.{
  Fetch, found, not_found, failed, Action, Error, Client, pure, ◌>>=◌,
}

abbrev pub singleton_config_map_name : String
singleton_config_map_name = "cxidriver-singleton"

abbrev pub singleton_active_key : String
singleton_active_key = "active-driver"

abbrev pub label_managed_by : String
label_managed_by = "app.kubernetes.io/managed-by"

-- `fmt.Errorf("…: %w", err)`, and nil for nil.
abbrev pub wrap : String → Error → Error
wrap context none = none
wrap context (some e) = some (cat context e)

-- The ConfigMap of a first claim, and the entries after a claim or a release.
abbrev pub claimed_map : String → String → ConfigMap
claimed_map namespace name = record {
  name = singleton_config_map_name;
  namespace = namespace;
  labels = (label_managed_by, "slingshot-operator") ∷ [];
  entries = (singleton_active_key, name) ∷ [];
}

unfoldable pub with_active : String → Dict String → Dict String
unfolding insert delete
with_active name entries =
    if str_eq name ""
    then delete singleton_active_key entries
    else insert singleton_active_key name entries

module _ {W : Type 0} (c : Client W) (namespace : String) where
  -- The name and the error; the name is empty where none is active, and beside an error.
  unfoldable pub get_active_cxi_driver : Action W (String × Error)
  unfolding get
  get_active_cxi_driver = do
    r ← c.get_config_map namespace singleton_config_map_name
    elim r [
      | found cm ↦ pure (get singleton_active_key cm.entries, none)
      | not_found ↦ pure ("", none)
      | failed e ↦ pure ("", some (cat "getting singleton ConfigMap: " e))
    ]

  create_active : String → Action W Error
  create_active name = do
    e ← c.create_config_map (claimed_map namespace name)
    pure (wrap "creating singleton ConfigMap: " e)

  update_active : String → ConfigMap → Action W Error
  unfolding with_active
  update_active name cm = do
    e ← c.update_config_map (record cm { entries = with_active name cm.entries })
    pure (wrap "updating singleton ConfigMap: " e)

  unfoldable pub set_active_cxi_driver : String → Action W Error
  unfolding create_active update_active
  set_active_cxi_driver name = do
    r ← c.get_config_map namespace singleton_config_map_name
    elim r [
      | found cm ↦ update_active name cm
      | not_found ↦ if str_eq name "" then pure none else create_active name
      | failed e ↦ pure (some (cat "getting singleton ConfigMap: " e))
    ]

  -- Claim the singleton: true if the ConfigMap was written.
  claim : String → Action W (Bool × Error)
  unfolding set_active_cxi_driver
  claim name = do
    e ← set_active_cxi_driver name
    elim e [ none ↦ pure (true, none) | some m ↦ pure (false, some m) ]

  -- Another driver is named: it stays active if it exists.
  check_other : String → String → Action W (Bool × Error)
  unfolding claim
  check_other active name = do
    r ← c.get_driver active
    elim r [
      | found d ↦ pure (false, none)
      | not_found ↦ claim name
      | failed e ↦ pure (false, some (cat "checking active CXIDriver: " e))
    ]

  decide_active : String → String × Error → Action W (Bool × Error)
  unfolding check_other
  decide_active name (active, some e) = pure (false, some e)
  decide_active name (active, none) =
      if str_eq active ""
      then claim name
      else if str_eq active name
      then pure (true, none)
      else check_other active name

  unfoldable pub is_active_cxi_driver : String → Action W (Bool × Error)
  unfolding get_active_cxi_driver decide_active
  is_active_cxi_driver name = do a ← get_active_cxi_driver; decide_active name a
