-- ===== src/DriverAgent/Labels.antt =====
-- pkg/driveragent/agent.go: the labels of a node, as `updateNodeLabels` computes them. The children
-- prove which they are.
pub mod Exact
pub mod Settle
use Prim.Native.String.{◌++◌ as cat}
use slingshot_operator.Prelude.{
  ℕ, String, Bool, true, false, not, ◌&&◌, List, [], ◌∷◌, map, Option, none, some, ltb, ◌==◌,
  str_eq, if◌then◌else◌, length, mem, starts_with,
}
use slingshot_operator.Prelude.Dict.{Dict, get, lookup, insert, delete}
use slingshot_operator.Prelude.Text.{ends_with}
use slingshot_operator.Prelude.Decimal.{itoa}
use slingshot_operator.Prelude.Int.{pos, negsuc}
use slingshot_operator.DevicePlugin.Device.{CxiDevice, switch_id, invalid_nid}

abbrev pub label_cxi_present : String
label_cxi_present = "slingshot.hpe.com/cxi-present"

abbrev pub label_device_count : String
label_device_count = "slingshot.hpe.com/device-count"

abbrev pub label_switch_id_prefix : String
label_switch_id_prefix = "slingshot.hpe.com/"

abbrev pub label_switch_id_suffix : String
label_switch_id_suffix = "-switch-id"

-- The labels and `labelsChanged`.
pub record LabelUpdate : Type 0 where
  pub labels : Dict String
  pub changed : Bool

-- The label is written unless it has the value.
unfoldable pub set_label : String → String → LabelUpdate → LabelUpdate
unfolding get insert
set_label key value s =
    if str_eq (get key s.labels) value
    then s
    else record { labels = insert key value s.labels; changed = true }

-- The label is removed if it is there.
unfoldable pub remove_label : String → LabelUpdate → LabelUpdate
unfolding lookup delete
remove_label key s = elim (lookup key s.labels) [
  | none ↦ s
  | some _ ↦ record { labels = delete key s.labels; changed = true }
]

abbrev pub switch_label : String → String
switch_label device = cat label_switch_id_prefix (cat device label_switch_id_suffix)

unfoldable pub label_device : ℕ → CxiDevice → LabelUpdate → LabelUpdate
unfolding set_label remove_label switch_id
label_device mask dev s =
    if not (dev.nid == invalid_nid)
    then (elim (switch_id dev mask) [
      | pos sid ↦ set_label (switch_label dev.name) (itoa sid) s
      | negsuc _ ↦ s
    ])
    else remove_label (switch_label dev.name) s

unfoldable pub label_devices : ℕ → List CxiDevice → LabelUpdate → LabelUpdate
unfolding label_device
label_devices mask [] s = s
label_devices mask (dev ∷ devs) s = label_devices mask devs (label_device mask dev s)

unfoldable pub is_switch_label : String → Bool
unfolding ends_with
is_switch_label key = starts_with key label_switch_id_prefix && ends_with key label_switch_id_suffix

abbrev pub label_keys : List CxiDevice → List String
label_keys devices = map (λ (d : CxiDevice). switch_label d.name) devices

-- `currentDeviceLabels` holds the labels of the devices, and the range over the labels, from which
-- it deletes as it goes, visits the keys that were there before.
unfoldable pub remove_stale : List String → List String → LabelUpdate → LabelUpdate
unfolding delete is_switch_label mem
remove_stale current [] s = s
remove_stale current (key ∷ keys) s = remove_stale current keys (
    if is_switch_label key && not (mem key current)
    then record { labels = delete key s.labels; changed = true }
    else s)

abbrev pub keys_of : Dict String → List String
keys_of labels = map (λ (e : String × String). e.0) labels

abbrev pub present_text : List CxiDevice → String
present_text devices = if ltb 0 (length devices) then "true" else "false"

unfoldable pub label_node : ℕ → List CxiDevice → Dict String → LabelUpdate
unfolding set_label label_devices remove_stale
label_node mask devices labels =
    let started : LabelUpdate = record { labels = labels; changed = false } in
    let present = set_label label_cxi_present (present_text devices) started in
    let counted = set_label label_device_count (itoa (length devices)) present in
    let switched = label_devices mask devices counted in
    remove_stale (label_keys devices) (keys_of switched.labels) switched
