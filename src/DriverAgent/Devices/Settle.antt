-- ===== src/DriverAgent/Devices/Settle.antt =====
-- An update of the labels of a node that succeeded is not repeated.
use slingshot_operator.Prelude.{
  ◌≡◌, refl, sym, ap, ◌∙◌, String, true, false, List, none, ◌⊎◌, inl, inr, distinct, Bool-cases,
}
use slingshot_operator.Prelude.Action.{
  Error, pure, check_ok, check-none, check_value_ok, check_value_err, some_not_none,
}
use slingshot_operator.Kube.NodeClient.{Node, NodeClient}
use slingshot_operator.Host.{Host}
use slingshot_operator.DevicePlugin.Device.{CxiDevice}
use slingshot_operator.DriverAgent.Agent.{Config}
use slingshot_operator.DriverAgent.Labels.{LabelUpdate, label_keys, label_node}
use slingshot_operator.DriverAgent.Labels.Settle.{labels_settle}
use slingshot_operator.DriverAgent.Devices.{write_labels, update_node_labels}

-- What is relied on of the client while no one else writes to the node: a read changes nothing and
-- gives the node that was asked for, and a write that succeeds is what the next read finds.
pub record NodeLaws {W : Type 0} (c : NodeClient W) : Type 0 where
  pub get_node-pure : (name : String) (w : W) → (c.get_node name w).1 ≡ w
  pub get_node-name :
      (name : String) (w : W) (node : Node) → (c.get_node name w).0 ≡ inr node → node.name ≡ name
  pub get-update :
      (node : Node) (w : W)
      → (c.update_node node w).0 ≡ none
      → (c.get_node node.name (c.update_node node w).1).0 ≡ inr node

module _ {W : Type 0} (host : Host W) (c : NodeClient W) (laws : NodeLaws c) (config : Config) where
  abbrev labelled : List CxiDevice → Node → Node
  labelled devices node = record node {
    labels = (label_node config.switch_id_mask devices node.labels).labels;
  }

  update_of_get :
      (devices : List CxiDevice) (node : Node) (w : W)
      → (c.get_node config.node_name w).0 ≡ inr node
      → update_node_labels host c config devices w ≡ write_labels host c config devices node w
  unfolding update_node_labels
  update_of_get devices node w g =
      check_value_ok "failed to get node: " (c.get_node config.node_name)
        (write_labels host c config devices) w node g
      ∙ ap (write_labels host c config devices node) (laws.get_node-pure config.node_name w)

  -- A node that needs no update is left alone.
  update_settled :
      (devices : List CxiDevice) (node : Node) (w : W)
      → (c.get_node config.node_name w).0 ≡ inr node
      → (label_node config.switch_id_mask devices node.labels).changed ≡ false
      → update_node_labels host c config devices w ≡ (none, w)
  unfolding write_labels
  update_settled devices node w g s = update_of_get devices node w g ∙ rw (s, write_labels) refl

  written :
      (devices : List CxiDevice) (node : Node) (w : W)
      → distinct (label_keys devices) ≡ true
      → node.name ≡ config.node_name
      → (c.update_node (labelled devices node) w).0 ≡ none
      → update_node_labels host c config devices (c.update_node (labelled devices node) w).1
        ≡ (none, (c.update_node (labelled devices node) w).1)
  written devices node w h n e =
      let new = labelled devices node in
      update_settled devices new (c.update_node new w).1
        (ap (λ (x : String). (c.get_node x (c.update_node new w).1).0) (sym n)
          ∙ laws.get-update new w e)
        (ap (λ (u : LabelUpdate). u.changed)
          (labels_settle config.switch_id_mask devices node.labels h))

  -- The node whose labels were written needs no update.
  written_settled :
      (devices : List CxiDevice) (node : Node) (w : W)
      → distinct (label_keys devices) ≡ true
      → (c.get_node config.node_name w).0 ≡ inr node
      → (write_labels host c config devices node w).0 ≡ none
      → update_node_labels host c config devices (write_labels host c config devices node w).1
        ≡ (none, (write_labels host c config devices node w).1)
  unfolding write_labels
  written_settled devices node w h g e =
      elim (Bool-cases (label_node config.switch_id_mask devices node.labels).changed) [
        | inl t ↦
            let write = c.update_node (labelled devices node) in
            let context : String = "failed to update node labels: " in
            let ok = check-none context write (pure none) w (rw (t, write_labels) at e) in
            rw (t, write_labels)
              (rw (check_ok context write (pure none) w ok)
                (written devices node w h (laws.get_node-name config.node_name w node g) ok))
        | inr f ↦ rw (f, write_labels) (update_settled devices node w g f)
      ]

  settle_of :
      (devices : List CxiDevice) (w : W) (r : String ⊎ Node)
      → distinct (label_keys devices) ≡ true
      → (c.get_node config.node_name w).0 ≡ r
      → (update_node_labels host c config devices w).0 ≡ none
      → update_node_labels host c config devices (update_node_labels host c config devices w).1
        ≡ (none, (update_node_labels host c config devices w).1)
  unfolding update_node_labels
  settle_of devices w (inl err) h g e =
      let err_at =
        check_value_err "failed to get node: " (c.get_node config.node_name)
          (write_labels host c config devices) w err g in
      absurd (some_not_none _ (sym (ap (λ (r : Error × W). r.0) err_at) ∙ e))
  settle_of devices w (inr node) h g e =
      let same = update_of_get devices node w g in
      rw same (written_settled devices node w h g (rw same at e))

  -- Under the laws of the client, an update of the node's labels that succeeded, for devices with
  -- labels of their own, leaves nothing to do: the same update succeeds again and writes nothing.
  pub node_labels_settle :
      (devices : List CxiDevice) (w : W)
      → distinct (label_keys devices) ≡ true
      → (update_node_labels host c config devices w).0 ≡ none
      → update_node_labels host c config devices (update_node_labels host c config devices w).1
        ≡ (none, (update_node_labels host c config devices w).1)
  node_labels_settle devices w h e = settle_of devices w (c.get_node config.node_name w).0 h refl e
