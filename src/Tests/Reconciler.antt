-- ===== src/Tests/Reconciler.antt =====
-- The reconciler at a cluster in memory.
use slingshot_operator.Prelude.{◌≡◌, refl, String, true, false, [], ◌∷◌, none, some, inr}
use slingshot_operator.Prelude.Dict.{lookup, insert, get}
use slingshot_operator.Prelude.Decimal.{itoa}
use slingshot_operator.Prelude.Int.{pos, show_int}
use slingshot_operator.Api.{CxiDriver, CxiDriverSpec}
use slingshot_operator.Kube.Workload.{no_resources}
use slingshot_operator.Controller.Singleton.{
  is_active_cxi_driver, set_active_cxi_driver, get_active_cxi_driver, claimed_map,
}
use slingshot_operator.Controller.Singleton.Exclusion.{
  active, claim_sound, active_excludes, takeover, ask_all, ask_all-single,
}
use slingshot_operator.Controller.Conditions.{
  condition_type_available, condition_type_progressing, condition_type_degraded, condition_true,
  condition_false,
}
use slingshot_operator.Controller.Status.{NodeCounts, condition_by_counts}
use slingshot_operator.Controller.Status.Laws.{condition_of, find_condition}
use slingshot_operator.Controller.Status.Exact.{condition, status_exact}
use slingshot_operator.Controller.Reconcile.{cxi_driver_finalizer, reconcile_driver, reconcile}
use slingshot_operator.Controller.Reconcile.Release.{gone_frees}
use slingshot_operator.Controller.Reconcile.Frame.{no_workload}
use slingshot_operator.Tests.Cluster.{
  Cluster, memory, memory-SingletonLaws, memory-ConditionLaws, memory-IsWorkloadProperty,
}

abbrev pub sample_spec : CxiDriverSpec
sample_spec = record {
  version = "1.8.3";
  source = record { source_type = "dkms"; repository = "repo"; prebuilt_cache = ""; dkms = none };
  retry_handler = record {
    enabled = true;
    mode = "daemonset";
    image = "";
    daemon_set = none;
    sidecar = none;
  };
  device_plugin = record {
    enabled = true;
    resource_name = "hpe.com/cxi";
    image = "";
    sharing_mode = "shared";
    shared_capacity = pos 100;
  };
  metrics_exporter = record {
    enabled = true;
    image = "";
    port = pos 9090;
    resources = no_resources;
  };
  node_selector = [];
  update_strategy = record {
    strategy_type = "";
    max_unavailable = "";
    rollback_on_failure = true;
    health_check_timeout = "5m";
  };
}

abbrev pub driver : String → CxiDriver
driver name = record {
  name = name;
  generation = 3;
  deletion_timestamp = none;
  finalizers = cxi_driver_finalizer ∷ [];
  spec = sample_spec;
  status = record {
    observed_generation = 0;
    ready = pos 0;
    updating = pos 0;
    failed = pos 0;
    driver_version = "";
    retry_handler_mode = "";
    webhook_ready = false;
    conditions = [];
  };
}

-- Two drivers, of which the first is active.
abbrev pub two : Cluster
two = record {
  drivers = ("a", driver "a") ∷ ("b", driver "b") ∷ [];
  config_map = some (claimed_map "ns" "a");
  daemon_sets = [];
  webhooks = [];
}

abbrev empty : Cluster
empty = record {
  drivers = ("a", driver "a") ∷ [];
  config_map = none;
  daemon_sets = [];
  webhooks = [];
}

claim_sound_example :
    active memory "ns" (is_active_cxi_driver memory "ns" "a" empty).1 ≡ ("a", none)
unfolding is_active_cxi_driver get_active_cxi_driver
claim_sound_example = claim_sound memory memory-SingletonLaws "ns" "a" empty refl refl

active_excludes_test : is_active_cxi_driver memory "ns" "b" two ≡ ((false, none), two)
unfolding get_active_cxi_driver lookup get
active_excludes_test =
    active_excludes memory memory-SingletonLaws "ns" "a" "b" (driver "a") two refl refl refl

takeover_example :
    (is_active_cxi_driver memory "ns" "b" (record two { drivers = ("b", driver "b") ∷ [] })).0
    ≡ (true, none)
unfolding get_active_cxi_driver set_active_cxi_driver lookup get insert
takeover_example =
    takeover memory memory-SingletonLaws "ns" "a" "b"
      (record two { drivers = ("b", driver "b") ∷ [] }) refl (inr refl) refl

ask_all-single_example :
    ask_all memory "ns" ("b" ∷ "a" ∷ "b" ∷ []) two ≡ (false ∷ true ∷ false ∷ [], two)
unfolding get_active_cxi_driver lookup get
ask_all-single_example =
    ask_all-single memory memory-SingletonLaws "ns" "a" (driver "a") two ("b" ∷ "a" ∷ "b" ∷ []) refl
      refl refl

-- A driver that is not the active one creates no DaemonSet.
no_workload_example : (reconcile_driver memory "ns" (driver "b") two).1.daemon_sets ≡ []
unfolding is_active_cxi_driver get_active_cxi_driver lookup get
no_workload_example =
    no_workload memory "ns" (λ w. w.daemon_sets ≡ []) (memory-IsWorkloadProperty []) (driver "b")
      two (inr (inr refl)) refl

abbrev some_failed : NodeCounts
some_failed = record { ready = pos 2; updating = pos 1; failed_nodes = pos 1 }

status_exact_example :
    let d' = condition_by_counts memory some_failed (driver "a") in
    (condition_of condition_type_available d'
      ≡ some (condition condition_type_available condition_false "NodesFailed" "1 nodes failed"))
    × (condition_of condition_type_degraded d'
        ≡ some (condition condition_type_degraded condition_true "NodesFailed" "1 nodes failed"))
    × (condition_of condition_type_progressing d' ≡ none)
unfolding show_int itoa find_condition
status_exact_example = status_exact memory memory-ConditionLaws some_failed (driver "a")

-- The driver "a" is gone and still named.
abbrev orphaned : Cluster
orphaned = record two { drivers = ("b", driver "b") ∷ [] }

gone_frees_example : active memory "ns" (reconcile memory "ns" "a" orphaned).1 ≡ ("", none)
unfolding lookup get set_active_cxi_driver
gone_frees_example =
    gone_frees memory memory-SingletonLaws "ns" "a" (claimed_map "ns" "a") orphaned refl refl refl
      refl
