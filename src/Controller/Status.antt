-- ===== src/Controller/Status.antt =====
-- internal/controller/cxidriver_controller.go: `updateStatus` and the writes of the status. The
-- children state the laws of conditions and prove which ones a driver ends with.
pub mod Laws
pub mod Exact
use Prim.Native.String.{◌++◌ as cat}
use slingshot_operator.Prelude.{
  ℕ, String, Bool, true, false, not, ◌&&◌, Option, none, some, if◌then◌else◌,
}
use slingshot_operator.Prelude.Int.{ℤ, pos, int_eq, int_le, show_int, sub_int32}
use slingshot_operator.Api.{CxiDriver, CxiDriverStatus}
use slingshot_operator.Kube.Workload.{DaemonSet}
use slingshot_operator.Kube.Client.{
  Fetch, found, not_found, failed, Action, Error, Client, pure, ◌>>=◌,
}
use slingshot_operator.Controller.Singleton.{wrap}
use slingshot_operator.Controller.Conditions.{
  set_condition, remove_condition, set_degraded_condition, condition_type_available,
  condition_type_progressing, condition_type_degraded, condition_true, condition_false,
}

-- `ctrl.Result`; the delay in seconds, 0 for none.
pub record Result : Type 0 where
  pub requeue : Bool
  pub requeue_after : ℕ

abbrev pub finished : Result
finished = record { requeue = false; requeue_after = 0 }

abbrev pub requeue_after : ℕ → Result
requeue_after n = record { requeue = false; requeue_after = n }

-- The three counts of nodes, from the driver agent's DaemonSet if it was read.
pub record NodeCounts : Type 0 where
  pub ready : ℤ
  pub updating : ℤ
  pub failed_nodes : ℤ

unfoldable pub count_nodes : Fetch DaemonSet → NodeCounts
count_nodes (found ds) = record {
  ready = ds.status.number_ready;
  updating = sub_int32 ds.status.desired_number_scheduled ds.status.number_ready;
  failed_nodes = ds.status.number_unavailable;
}
count_nodes _ = record { ready = pos 0; updating = pos 0; failed_nodes = pos 0 }

-- The fields of the status that do not depend on conditions.
unfoldable pub record_counts : NodeCounts → CxiDriver → CxiDriver
record_counts n d = record d {
  status = record (d.status) {
    ready = n.ready;
    updating = n.updating;
    failed = n.failed_nodes;
    driver_version = d.spec.version;
    retry_handler_mode = d.spec.retry_handler.mode;
    observed_generation = d.generation;
  };
}

-- a > 0
abbrev pub is_positive : ℤ → Bool
is_positive a = not (int_le a (pos 0))

module _ {W : Type 0} (c : Client W) where
  unfoldable pub set_available : NodeCounts → CxiDriver → CxiDriver
  unfolding set_condition remove_condition
  set_available n d = remove_condition c condition_type_degraded (
      set_condition c condition_type_progressing condition_false "Deployed"
        "All components deployed"
        (set_condition c condition_type_available condition_true "Ready"
          (cat (show_int n.ready) " nodes ready") d))

  unfoldable pub condition_by_counts : NodeCounts → CxiDriver → CxiDriver
  unfolding set_available set_condition set_degraded_condition
  condition_by_counts n d =
      if is_positive n.ready && int_eq n.failed_nodes (pos 0)
      then set_available n d
      else if is_positive n.failed_nodes
      then set_degraded_condition c "NodesFailed" (cat (show_int n.failed_nodes) " nodes failed") d
      else set_condition c condition_type_available condition_false "WaitingForPods"
          "Waiting for pods to become ready" d

  -- One attempt: the latest object, with our status.
  unfoldable pub write_status : CxiDriver → Action W Error
  write_status d = do
    r ← c.get_driver d.name
    elim r [
      | found latest ↦ (do
        e ← c.update_driver_status (record latest { status = d.status })
        pure (wrap "updating CXIDriver status: " e))
      | not_found ↦ pure (some "fetching latest CXIDriver: not found")
      | failed e ↦ pure (some (cat "fetching latest CXIDriver: " e))
    ]

  unfoldable pub update_status_retry_on_conflict : CxiDriver → Action W Error
  unfolding write_status
  update_status_retry_on_conflict d = c.retry_on_conflict (write_status d)

  unfoldable pub update_status : String → CxiDriver → Action W Error
  unfolding update_status_retry_on_conflict count_nodes record_counts condition_by_counts
  update_status namespace d = do
    r ← c.get_daemon_set namespace (cat d.name "-driver-agent")
    update_status_retry_on_conflict
        (condition_by_counts (count_nodes r) (record_counts (count_nodes r) d))

  unfoldable pub update_status_with_retry : CxiDriver → Action W Result
  unfolding update_status_retry_on_conflict
  update_status_with_retry d = do
    e ←
        update_status_retry_on_conflict
          (record d { status = record (d.status) { observed_generation = d.generation } })
    elim e [ none ↦ pure finished | some _ ↦ pure (requeue_after 5) ]
