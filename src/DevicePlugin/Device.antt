-- ===== src/DevicePlugin/Device.antt =====
-- pkg/deviceplugin/discovery.go: a CXI device as it was discovered.
use Prim.Native.Nat.{bit_and}
use slingshot_operator.Prelude.{ℕ, String, ◌==◌, if◌then◌else◌}
use slingshot_operator.Prelude.Int.{ℤ, pos, negsuc}

pub record CxiDevice : Type 0 where
  pub name : String
  pub device_path : String
  pub pci_address : String
  pub numa_node : ℤ
  pub nid : ℕ  -- uint32
  pub link_state : String

abbrev pub default_switch_id_mask : ℕ
default_switch_id_mask = 0xfffc0

abbrev pub invalid_nid : ℕ
invalid_nid = 0xffffffff

-- `int` has 64 bits, so the masked NID is not negative.
unfoldable pub switch_id : CxiDevice → ℕ → ℤ
switch_id d mask = if d.nid == invalid_nid then negsuc 0 else pos (bit_and d.nid mask)

unfoldable pub switch_id_default : CxiDevice → ℤ
unfolding switch_id
switch_id_default d = switch_id d default_switch_id_mask
