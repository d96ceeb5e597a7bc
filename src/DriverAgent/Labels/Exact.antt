-- ===== src/DriverAgent/Labels/Exact.antt =====
-- The labels of a node after `updateNodeLabels`, and a second update that finds nothing to do.
use Prim.Native.Nat.{bit_and}
use Prim.Native.String.{◌++◌ as cat}
use text.Mathlib.TextLemmas.{append_assoc}
use text.Mathlib.TextPositions.{starts_with-append}
use slingshot_operator.Prelude.{
  ℕ, ◌≡◌, refl, sym, ap, ◌∙◌, String, Bool, true, false, not, ◌&&◌, List, [], ◌∷◌, Option, none,
  some, inl, inr, ltb, ◌==◌, str_eq, eq_iff, if◌then◌else◌, length, mem, is_some, Bool-cases, arith,
}
use slingshot_operator.Prelude.Dict.{Dict, get, lookup, delete, lookup-insert, lookup-delete}
use slingshot_operator.Prelude.Text.{ends_with-append}
use slingshot_operator.Prelude.Decimal.{itoa}
use slingshot_operator.Prelude.Decimal.Parse.{itoa_not_empty}
use slingshot_operator.DevicePlugin.Device.{CxiDevice, switch_id, invalid_nid}
use slingshot_operator.DriverAgent.Labels.{
  LabelUpdate, set_label, remove_label, label_device, label_devices, label_node, remove_stale,
  switch_label, is_switch_label, label_keys, keys_of, present_text, label_switch_id_prefix,
  label_switch_id_suffix, label_cxi_present, label_device_count,
}

-- The text of a device's label, none for a device without a NID.
abbrev pub switch_text : ℕ → CxiDevice → Option String
switch_text mask d = if d.nid == invalid_nid then none else some (itoa (bit_and d.nid mask))

-- What the last device with the label `key` makes of it, and `o` if there is none.
unfoldable pub last_text : ℕ → List CxiDevice → String → Option String → Option String
last_text mask [] key o = o
last_text mask (d ∷ ds) key o =
    last_text mask ds key (if str_eq (switch_label d.name) key then switch_text mask d else o)

lookup-set :
    (k v j : String) (s : LabelUpdate)
    → str_eq v "" ≡ false
    → lookup j (set_label k v s).labels ≡ (if str_eq k j then some v else lookup j s.labels)
unfolding set_label get
lookup-set k v j s h =
    ground (arith, lookup-insert k j v s.labels, eq_iff k j, eq_iff (get k s.labels) v)

lookup-remove :
    (k j : String) (s : LabelUpdate)
    → lookup j (remove_label k s).labels ≡ (if str_eq k j then none else lookup j s.labels)
unfolding remove_label
lookup-remove k j s = ground (arith, lookup-delete k j s.labels, eq_iff k j)

lookup-device :
    (mask : ℕ) (d : CxiDevice) (j : String) (s : LabelUpdate)
    → lookup j (label_device mask d s).labels
      ≡ (if str_eq (switch_label d.name) j then switch_text mask d else lookup j s.labels)
unfolding label_device switch_id
lookup-device mask d j s = elim (Bool-cases (d.nid == invalid_nid)) [
  | inl e ↦ rw e (lookup-remove (switch_label d.name) j s)
  | inr e ↦ rw e (
      let sid = bit_and d.nid mask in
      lookup-set (switch_label d.name) (itoa sid) j s (itoa_not_empty sid))
]

lookup-devices :
    (mask : ℕ) (ds : List CxiDevice) (j : String) (s : LabelUpdate)
    → lookup j (label_devices mask ds s).labels ≡ last_text mask ds j (lookup j s.labels)
unfolding label_devices last_text
lookup-devices mask [] j s = refl
lookup-devices mask (d ∷ ds) j s =
    lookup-devices mask ds j (label_device mask d s)
    ∙ ap (last_text mask ds j) (lookup-device mask d j s)

abbrev pub is_stale : List String → String → Bool
is_stale current key = is_switch_label key && not (mem key current)

lookup-stale :
    (current keys : List String) (j : String) (s : LabelUpdate)
    → lookup j (remove_stale current keys s).labels
      ≡ (if mem j keys && is_stale current j then none else lookup j s.labels)
unfolding remove_stale mem
lookup-stale current [] j s = refl
lookup-stale current (k ∷ keys) j s = elim (Bool-cases (is_stale current k)) [
  | inl e ↦
      rw (e, remove_stale)
        (ground (
          arith,
          lookup-stale current keys j (record { labels = delete k s.labels; changed = true }),
          lookup-delete k j s.labels,
          eq_iff k j,
        ))
  | inr e ↦ rw (e, remove_stale) (ground (arith, lookup-stale current keys j s, eq_iff k j))
]

pub mem-keys_of : (j : String) (m : Dict String) → mem j (keys_of m) ≡ is_some (lookup j m)
unfolding mem lookup
mem-keys_of j [] = refl
mem-keys_of j ((k, v) ∷ m) = ground (arith, mem-keys_of j m)

pub switch_label-is_switch_label : (device : String) → is_switch_label (switch_label device) ≡ true
unfolding is_switch_label
switch_label-is_switch_label device =
    let tail = cat device label_switch_id_suffix in
    let ending = append_assoc label_switch_id_prefix device label_switch_id_suffix in
    rw (starts_with-append label_switch_id_prefix tail) (
      rw (sym ending) (ends_with-append (cat label_switch_id_prefix device) label_switch_id_suffix))

pub mem-is_switch_label :
    (ds : List CxiDevice) (j : String) → mem j (label_keys ds) ≡ true → is_switch_label j ≡ true
unfolding mem
mem-is_switch_label [] j h = cc
mem-is_switch_label (d ∷ ds) j h = elim (Bool-cases (str_eq (switch_label d.name) j)) [
  | inl e ↦
      ap is_switch_label (sym ((eq_iff (switch_label d.name) j).0 e))
      ∙ switch_label-is_switch_label d.name
  | inr e ↦ mem-is_switch_label ds j (rw e at h)
]

pub last_text-not_mem :
    (mask : ℕ) (ds : List CxiDevice) (j : String) (o : Option String)
    → mem j (label_keys ds) ≡ false
    → last_text mask ds j o ≡ o
unfolding last_text mem
last_text-not_mem mask [] j o h = refl
last_text-not_mem mask (d ∷ ds) j o h = ground (arith, last_text-not_mem mask ds j o)

pub last_text-mem :
    (mask : ℕ) (ds : List CxiDevice) (j : String) (o p : Option String)
    → mem j (label_keys ds) ≡ true
    → last_text mask ds j o ≡ last_text mask ds j p
unfolding last_text mem
last_text-mem mask [] j o p h = cc
last_text-mem mask (d ∷ ds) j o p h = elim (Bool-cases (str_eq (switch_label d.name) j)) [
  | inl e ↦ rw e refl
  | inr e ↦ rw e (last_text-mem mask ds j o p (rw e at h))
]

-- The label `j` of a node with the given devices, and with the given labels before.
abbrev pub expected_label : ℕ → List CxiDevice → Dict String → String → Option String
expected_label mask ds labels j =
    if is_switch_label j
    then last_text mask ds j none
    else if str_eq label_device_count j
    then some (itoa (length ds))
    else if str_eq label_cxi_present j
    then some (present_text ds)
    else lookup j labels

lookup-sweep :
    (mask : ℕ) (ds : List CxiDevice) (s : LabelUpdate) (j : String)
    → lookup j
        (remove_stale
          (label_keys ds)
          (keys_of (label_devices mask ds s).labels)
          (label_devices mask ds s)).labels
      ≡ (if is_switch_label j then last_text mask ds j none else lookup j s.labels)
lookup-sweep mask ds s j =
    let switched = label_devices mask ds s in
    let swept = lookup-stale (label_keys ds) (keys_of switched.labels) j switched in
    let there = mem-keys_of j switched.labels in
    let before = lookup-devices mask ds j s in
    let o = lookup j s.labels in
    elim (Bool-cases (mem j (label_keys ds))) [
      | inl e ↦
          ground
            (arith, swept, before, mem-is_switch_label ds j e, last_text-mem mask ds j o none e, e)
      | inr e ↦ ground (
        arith,
        swept,
        there,
        before,
        last_text-not_mem mask ds j o e,
        last_text-not_mem mask ds j none e,
        e,
      )
    ]

present_not_empty : (ds : List CxiDevice) → str_eq (present_text ds) "" ≡ false
present_not_empty ds = elim (Bool-cases (ltb 0 (length ds))) [
  | inl e ↦ rw e refl
  | inr e ↦ rw e refl
]

-- After `updateNodeLabels` has worked on the labels of a node, the labels that begin like one of the
-- operator and end with -switch-id are those of the devices with a NID, each with the switch id of
-- the last device of its name; the two other labels of the operator tell whether there is a device
-- and how many; every other label is as before.
pub labels_exact :
    (mask : ℕ) (ds : List CxiDevice) (labels : Dict String) (j : String)
    → lookup j (label_node mask ds labels).labels ≡ expected_label mask ds labels j
unfolding label_node
labels_exact mask ds labels j =
    let started : LabelUpdate = record { labels = labels; changed = false } in
    let present = set_label label_cxi_present (present_text ds) started in
    let counted = set_label label_device_count (itoa (length ds)) present in
    lookup-sweep mask ds counted j
    ∙ ap (λ (o : Option String). if is_switch_label j then last_text mask ds j none else o)
        (lookup-set label_device_count (itoa (length ds)) j present (itoa_not_empty (length ds))
          ∙ ap
              (λ (o : Option String).
                if str_eq label_device_count j then some (itoa (length ds)) else o)
              (lookup-set label_cxi_present (present_text ds) j started (present_not_empty ds)))
