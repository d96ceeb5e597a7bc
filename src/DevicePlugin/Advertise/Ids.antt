-- ===== src/DevicePlugin/Advertise/Ids.antt =====
-- The devices that kubelet is told of: their number, their ids and their NUMA nodes.
use slingshot_operator.Prelude.{
  ◌≡◌, refl, ap, String, Bool, true, false, not, ◌&&◌, ◌||◌, List, [], ◌∷◌, ◌++◌, inl, inr,
  Bool-cases, map, arith,
}
use slingshot_operator.Prelude.Int.{ℤ, is_nonneg, int_eq, int_eq_iff}
use slingshot_operator.DevicePlugin.Device.{CxiDevice}
use slingshot_operator.DevicePlugin.Plugin.{Plugin}
use slingshot_operator.DevicePlugin.Advertise.{Device, exclusive_device, mem_int, numa_nodes}

abbrev pub ids : List Device → List String
ids = map (λ d. d.id)

-- In exclusive mode the ids are the names of the devices, in order.
pub ids-exclusive : (ds : List CxiDevice) → ids (map exclusive_device ds) ≡ map (λ d. d.name) ds
unfolding exclusive_device
ids-exclusive [] = refl
ids-exclusive (d ∷ ds) = ap (λ ns. d.name ∷ ns) (ids-exclusive ds)

-- Some device is on the NUMA node.
unfoldable pub on_node : ℤ → List CxiDevice → Bool
on_node n [] = false
on_node n (d ∷ ds) = int_eq d.numa_node n || on_node n ds

mem_int-append : (n x : ℤ) (ns : List ℤ) → mem_int n (ns ++ x ∷ []) ≡ (mem_int n ns || int_eq x n)
unfolding mem_int
mem_int-append n x [] = ground arith
mem_int-append n x (m ∷ ns) = ground (arith, mem_int-append n x ns)

mem_int_of_eq : (m n : ℤ) (ns : List ℤ) → int_eq m n ≡ true → mem_int m ns ≡ mem_int n ns
mem_int_of_eq m n ns h = ap (λ k. mem_int k ns) ((int_eq_iff m n).0 h)

is_nonneg_of_eq : (m n : ℤ) → int_eq m n ≡ true → is_nonneg m ≡ is_nonneg n
is_nonneg_of_eq m n h = ap is_nonneg ((int_eq_iff m n).0 h)

mem-numa_nodes :
    (n : ℤ) (nodes : List ℤ) (ds : List CxiDevice)
    → mem_int n (numa_nodes nodes ds) ≡ (mem_int n nodes || is_nonneg n && on_node n ds)
unfolding numa_nodes on_node
mem-numa_nodes n nodes [] = ground arith
mem-numa_nodes n nodes (d ∷ ds) =
    elim (Bool-cases (is_nonneg d.numa_node && not (mem_int d.numa_node nodes))) [
      | inl new ↦ rw new (
          rw (mem-numa_nodes n (nodes ++ d.numa_node ∷ []) ds)
            (ground (arith, mem_int-append n d.numa_node nodes, is_nonneg_of_eq d.numa_node n)))
      | inr old ↦ rw old (
          rw (mem-numa_nodes n nodes ds)
            (ground (arith, mem_int_of_eq d.numa_node n nodes, is_nonneg_of_eq d.numa_node n)))
    ]

-- No NUMA node occurs twice.
pub distinct_nodes : List ℤ → Bool
distinct_nodes [] = true
distinct_nodes (n ∷ ns) = elim (mem_int n ns) [ true ↦ false | false ↦ distinct_nodes ns ]

distinct_nodes-append :
    (ns : List ℤ) (n : ℤ)
    → distinct_nodes ns ≡ true
    → mem_int n ns ≡ false
    → distinct_nodes (ns ++ n ∷ []) ≡ true
unfolding distinct_nodes mem_int
distinct_nodes-append [] n h k = refl
distinct_nodes-append (m ∷ ns) n h k =
    ground
      (arith, distinct_nodes-append ns n, mem_int-append m n ns, int_eq_iff n m, int_eq_iff m n)

distinct-numa_nodes :
    (nodes : List ℤ) (ds : List CxiDevice)
    → distinct_nodes nodes ≡ true
    → distinct_nodes (numa_nodes nodes ds) ≡ true
unfolding numa_nodes
distinct-numa_nodes nodes [] h = h
distinct-numa_nodes nodes (d ∷ ds) h =
    elim (Bool-cases (is_nonneg d.numa_node && not (mem_int d.numa_node nodes))) [
      | inl new ↦ rw new (
          distinct-numa_nodes (nodes ++ d.numa_node ∷ []) ds
            (distinct_nodes-append nodes d.numa_node h (ground arith)))
      | inr old ↦ rw old (distinct-numa_nodes nodes ds h)
    ]

-- The topology that every shared device carries: the NUMA nodes, each once, of exactly the physical
-- devices whose node is known.
pub shared_nodes :
    (ds : List CxiDevice) (n : ℤ)
    → (mem_int n (numa_nodes [] ds) ≡ (is_nonneg n && on_node n ds))
      × (distinct_nodes (numa_nodes [] ds) ≡ true)
unfolding distinct_nodes
shared_nodes ds n = (unfold mem_int in mem-numa_nodes n [] ds, distinct-numa_nodes [] ds refl)
