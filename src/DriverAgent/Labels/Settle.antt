-- ===== src/DriverAgent/Labels/Settle.antt =====
-- Labels that `updateNodeLabels` has written are not written again.
use Prim.Native.Nat.{bit_and}
use slingshot_operator.Prelude.{
  ℕ, ◌≡◌, refl, ap, ◌∙◌, String, true, false, List, [], ◌∷◌, Option, none, some, inl, inr, ◌==◌,
  eq_refl, length, mem, distinct, All, Bool-cases, arith,
}
use slingshot_operator.Prelude.Dict.{Dict, get, lookup}
use slingshot_operator.Prelude.Decimal.{itoa}
use slingshot_operator.DevicePlugin.Device.{CxiDevice, switch_id, invalid_nid}
use slingshot_operator.DriverAgent.Labels.{
  LabelUpdate, set_label, remove_label, label_device, label_devices, label_node, remove_stale,
  switch_label, label_keys, keys_of, present_text, label_cxi_present, label_device_count,
}
use slingshot_operator.DriverAgent.Labels.Exact.{
  switch_text, last_text, is_stale, expected_label, mem-keys_of, last_text-not_mem, labels_exact,
  switch_label-is_switch_label,
}

set_label_same : (k v : String) (s : LabelUpdate) → lookup k s.labels ≡ some v → set_label k v s ≡ s
unfolding set_label get
set_label_same k v s h = rw (h, get) (rw (eq_refl v) refl)

label_device_same :
    (mask : ℕ) (d : CxiDevice) (s : LabelUpdate)
    → lookup (switch_label d.name) s.labels ≡ switch_text mask d
    → label_device mask d s ≡ s
unfolding label_device switch_id remove_label
label_device_same mask d s h = elim (Bool-cases (d.nid == invalid_nid)) [
  | inl e ↦ rw e (rw (rw e at h, remove_label) refl)
  | inr e ↦ rw e (set_label_same (switch_label d.name) (itoa (bit_and d.nid mask)) s (rw e at h))
]

label_devices_same :
    (mask : ℕ) (ds : List CxiDevice) (s : LabelUpdate)
    → All (λ (d : CxiDevice). lookup (switch_label d.name) s.labels ≡ switch_text mask d) ds
    → label_devices mask ds s ≡ s
unfolding label_devices
label_devices_same mask [] s h = refl
label_devices_same mask (d ∷ ds) s (h, hs) =
    ap (label_devices mask ds) (label_device_same mask d s h) ∙ label_devices_same mask ds s hs

remove_stale_same :
    (current keys : List String) (s : LabelUpdate)
    → ((k : String) → mem k keys ≡ true → is_stale current k ≡ false)
    → remove_stale current keys s ≡ s
unfolding remove_stale mem
remove_stale_same current [] s h = refl
remove_stale_same current (k ∷ keys) s h =
    rw (h k (rw (eq_refl k, mem) refl), remove_stale)
      (remove_stale_same current keys s (λ j m. h j (ground (arith, m))))

All-map :
    {A : Type 0} {P Q : A → Type 0} (ds : List A) → ((d : A) → P d → Q d) → All P ds → All Q ds
All-map [] f h = tt
All-map (d ∷ ds) f (h, hs) = (f d h, All-map ds f hs)

-- Among devices with labels of their own the last with a label is the only one.
last_text-All :
    (mask : ℕ) (ds : List CxiDevice)
    → distinct (label_keys ds) ≡ true
    → All
        (λ (d : CxiDevice).
          (o : Option String) → last_text mask ds (switch_label d.name) o ≡ switch_text mask d)
        ds
unfolding last_text distinct
last_text-All mask [] h = tt
last_text-All mask (d ∷ ds) h = elim (Bool-cases (mem (switch_label d.name) (label_keys ds))) [
  | inl e ↦ absurd (ground (arith, rw (e, distinct) at h))
  | inr e ↦ (
    λ o.
        rw (eq_refl (switch_label d.name), last_text)
          (last_text-not_mem mask ds (switch_label d.name) (switch_text mask d) e),
    All-map ds (λ d' f o. f _) (last_text-All mask ds (rw (e, distinct) at h)),
  )
]

not_stale :
    (mask : ℕ) (ds : List CxiDevice) (before labels : Dict String) (k : String)
    → lookup k labels ≡ expected_label mask ds before k
    → mem k (keys_of labels) ≡ true
    → is_stale (label_keys ds) k ≡ false
not_stale mask ds before labels k e m =
    ground (arith, mem-keys_of k labels, last_text-not_mem mask ds k none)

-- A node whose labels are the expected ones of devices with labels of their own is left alone.
expected-settled :
    (mask : ℕ) (ds : List CxiDevice) (before labels : Dict String)
    → distinct (label_keys ds) ≡ true
    → ((j : String) → lookup j labels ≡ expected_label mask ds before j)
    → label_node mask ds labels ≡ record { labels = labels; changed = false }
unfolding label_node
expected-settled mask ds before labels h e =
    let s : LabelUpdate = record { labels = labels; changed = false } in
    let present = set_label_same label_cxi_present (present_text ds) s (e label_cxi_present) in
    let counted = set_label_same label_device_count (itoa (length ds)) s (e label_device_count) in
    let switched = label_devices_same mask ds s (
      All-map ds
        (λ (d : CxiDevice) f.
          e (switch_label d.name) ∙ rw (switch_label-is_switch_label d.name) (f none))
        (last_text-All mask ds h)) in
    let swept =
      remove_stale_same (label_keys ds) (keys_of labels) s
        (λ k m. not_stale mask ds before labels k (e k) m) in
    rw present (rw counted (rw switched swept))

-- For devices with labels of their own, a second update of the labels that the first one left finds
-- nothing to change.
pub labels_settle :
    (mask : ℕ) (ds : List CxiDevice) (labels : Dict String)
    → distinct (label_keys ds) ≡ true
    → label_node mask ds (label_node mask ds labels).labels
      ≡ record { labels = (label_node mask ds labels).labels; changed = false }
labels_settle mask ds labels h =
    expected-settled mask ds labels (label_node mask ds labels).labels h
      (labels_exact mask ds labels)
