-- ===== src/Kube/NodeClient.antt =====
-- The client of controller-runtime as the driver agent of a node uses it, an interface over the type
-- `W` of the states of the cluster and the node.
use slingshot_operator.Prelude.{String, ◌⊎◌}
use slingshot_operator.Prelude.Dict.{Dict}
use slingshot_operator.Api.Device.{CxiDeviceResource}
use slingshot_operator.Kube.Client.{Fetch, Action, Error}

-- corev1.Node, of which the agent uses the labels.
pub record Node : Type 0 where
  pub name : String
  pub labels : Dict String

pub record NodeClient (W : Type 0) : Type 0 where
  pub get_cxi_device : String → Action W (Fetch CxiDeviceResource)
  pub create_cxi_device : CxiDeviceResource → Action W Error
  pub update_cxi_device_status : CxiDeviceResource → Action W Error
  -- a node that is missing is an error like any other
  pub get_node : String → Action W (String ⊎ Node)
  pub update_node : Node → Action W Error
