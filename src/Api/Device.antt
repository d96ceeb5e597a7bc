-- ===== src/Api/Device.antt =====
-- api/v1/cxidevice_types.go: the CXIDevice resource, which the driver agent writes.
use slingshot_operator.Prelude.{ℕ, String, Bool, false, List, []}
use slingshot_operator.Prelude.Dict.{Dict}
use slingshot_operator.Prelude.Int.{ℤ, pos}
use slingshot_operator.Api.{Condition}

abbrev pub cxi_device_type_pf : String
cxi_device_type_pf = "pf"

abbrev pub link_state_up : String
link_state_up = "up"

abbrev pub link_state_down : String
link_state_down = "down"

abbrev pub link_state_unknown : String
link_state_unknown = "unknown"

abbrev pub health_status_healthy : String
health_status_healthy = "Healthy"

abbrev pub health_status_unhealthy : String
health_status_unhealthy = "Unhealthy"

abbrev pub health_status_unknown : String
health_status_unknown = "Unknown"

pub record RetryHandlerStats : Type 0 where
  pub total_retries : ℤ  -- int64
  pub timeout_retries : ℤ  -- int64
  pub nack_retries : ℤ  -- int64
  pub pending_retries : ℤ  -- int32

-- `RetryHandlerStatus` of a device.
pub record DeviceRetryStatus : Type 0 where
  pub enabled : Bool
  pub policy : String
  pub stats : RetryHandlerStats

-- Without the time of the check.
pub record DeviceHealth : Type 0 where
  pub status : String
  pub message : String

pub record CxiDeviceStatus : Type 0 where
  pub node : String
  pub device : String
  pub device_type : String
  pub pci_address : String
  pub numa_node : ℤ  -- int32
  pub nid : ℕ  -- uint32
  pub switch_id : ℤ  -- int32
  pub link_speed : String
  pub link_state : String
  pub driver_version : String
  pub cassini_generation : ℤ  -- int32
  pub retry_handler : DeviceRetryStatus
  pub health : DeviceHealth
  pub conditions : List Condition

-- The resource is cluster-scoped, so its name is its key.
pub record CxiDeviceResource : Type 0 where
  pub name : String
  pub labels : Dict String
  pub status : CxiDeviceStatus

-- The zero values.
abbrev pub no_retry_status : DeviceRetryStatus
no_retry_status = record {
  enabled = false;
  policy = "";
  stats = record {
    total_retries = pos 0;
    timeout_retries = pos 0;
    nack_retries = pos 0;
    pending_retries = pos 0;
  };
}

abbrev pub empty_device_status : CxiDeviceStatus
empty_device_status = record {
  node = "";
  device = "";
  device_type = "";
  pci_address = "";
  numa_node = pos 0;
  nid = 0;
  switch_id = pos 0;
  link_speed = "";
  link_state = "";
  driver_version = "";
  cassini_generation = pos 0;
  retry_handler = no_retry_status;
  health = record { status = ""; message = "" };
  conditions = [];
}
