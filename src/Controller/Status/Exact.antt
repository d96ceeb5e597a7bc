-- ===== src/Controller/Status/Exact.antt =====
-- Which conditions a reconciled driver ends with, by the counts of its nodes.
use Prim.Native.String.{◌++◌ as cat}
use slingshot_operator.Prelude.{
  ◌≡◌, String, Bool, ◌&&◌, none, some, inl, inr, Bool-cases, if◌then◌else◌,
}
use slingshot_operator.Prelude.Int.{pos, int_eq, show_int}
use slingshot_operator.Api.{CxiDriver, Condition}
use slingshot_operator.Kube.Client.{Client}
use slingshot_operator.Controller.Conditions.{
  condition_type_available, condition_type_progressing, condition_type_degraded, condition_true,
  condition_false,
}
use slingshot_operator.Controller.Status.{NodeCounts, is_positive, condition_by_counts}
use slingshot_operator.Controller.Status.Laws.{ConditionLaws, condition_of}

abbrev pub condition : String → String → String → String → Condition
condition kind status reason message = record {
  condition_type = kind;
  status = status;
  reason = reason;
  message = message;
}

-- Some node is ready and none has failed.
abbrev pub is_healthy : NodeCounts → Bool
is_healthy n = is_positive n.ready && int_eq n.failed_nodes (pos 0)

abbrev pub failed_message : NodeCounts → String
failed_message n = cat (show_int n.failed_nodes) " nodes failed"

module _ {W : Type 0} (c : Client W) (laws : ConditionLaws c) (n : NodeCounts) (d : CxiDriver) where
  -- The conditions after `updateStatus`. Available is true exactly if some node is ready and none
  -- has failed; else it is false with the reason. Degraded is dropped in that case, set if a node
  -- has failed, and left as it was otherwise. Progressing ends only in that case.
  pub status_exact :
      let d' = condition_by_counts c n d in
      (condition_of condition_type_available d'
        ≡ some (
            if is_healthy n
            then condition condition_type_available condition_true "Ready"
                (cat (show_int n.ready) " nodes ready")
            else if is_positive n.failed_nodes
            then condition condition_type_available condition_false "NodesFailed" (failed_message n)
            else condition condition_type_available condition_false "WaitingForPods"
                "Waiting for pods to become ready"))
      × (condition_of condition_type_degraded d' ≡ (
          if is_healthy n
          then none
          else if is_positive n.failed_nodes
          then some
              (condition condition_type_degraded condition_true "NodesFailed" (failed_message n))
          else condition_of condition_type_degraded d))
      × (condition_of condition_type_progressing d' ≡ (
          if is_healthy n
          then some (
              condition condition_type_progressing condition_false "Deployed"
                "All components deployed")
          else condition_of condition_type_progressing d))
  unfolding condition_by_counts
  status_exact = elim (Bool-cases (is_healthy n)) [
    | inl healthy ↦ rw healthy (
      simp (laws.find-set, laws.find-remove),
      simp laws.find-remove,
      simp (laws.find-set, laws.find-remove),
    )
    | inr ill ↦ rw ill (elim (Bool-cases (is_positive n.failed_nodes)) [
      | inl bad ↦ rw bad (simp laws.find-set, simp laws.find-set, simp laws.find-set)
      | inr waiting ↦ rw waiting (simp laws.find-set, simp laws.find-set, simp laws.find-set)
    ])
  ]
