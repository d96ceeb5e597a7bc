-- ===== src/Controller/Reconcile/Component.antt =====
-- What a component adds to the cluster on the way to the end of a run that no component failed.
use slingshot_operator.Prelude.{
  ◌≡◌, ◌≢◌, refl, ap, ◌∙◌, String, Bool, true, false, none, some, inl, inr, Option-cases, arith,
}
use slingshot_operator.Api.{CxiDriver, CxiDriverStatus}
use slingshot_operator.Kube.Client.{Action, Error, Client}
use slingshot_operator.Controller.Conditions.{
  set_condition, remove_condition, set_component_condition,
}
use slingshot_operator.Controller.Status.{Result, requeue_after}
use slingshot_operator.Controller.Reconcile.{component, optional_component}

-- The result of a run is not that of a component that failed.
abbrev pub NotFailed : {W : Type 0} → Result × W → Type 0
NotFailed r = r.0 ≢ requeue_after 30

module _ {W : Type 0} (c : Client W) (namespace : String) (kind reason message : String)
    (act : CxiDriver → Action W Error) (next : CxiDriver → Action W Result) where
  -- How a run goes on after a component, by the error of the component.
  component_ok :
      (d : CxiDriver) (w : W)
      → (act d w).0 ≡ none
      → component c namespace kind reason message act next d w
        ≡ next (set_component_condition c kind true "Ready" message d) (act d w).1
  unfolding component
  component_ok d w e = rw (e, component) refl

  component_err :
      (d : CxiDriver) (w : W) (m : String)
      → (act d w).0 ≡ some m
      → (component c namespace kind reason message act next d w).0 ≡ requeue_after 30
  unfolding component
  component_err d w m e = ground (arith, e)

module _ {W : Type 0} (c : Client W) (namespace : String) (d : CxiDriver) where
  -- The driver with another status
  abbrev pub at : CxiDriverStatus → CxiDriver
  at s = record d { status = s }

  -- From `P` before the rest of a run follows `Q` after it.
  abbrev pub LeadsTo : (P Q : W → Type 0) → (CxiDriver → Action W Result) → Type 0
  LeadsTo P Q next =
      (s : CxiDriverStatus) (w : W) → P w → NotFailed (next (at s) w) → Q (next (at s) w).1

  module _ (P P' Q : W → Type 0) (kind reason message : String) (act : CxiDriver → Action W Error)
      (next : CxiDriver → Action W Result) where
    pub component-LeadsTo :
        ((s : CxiDriverStatus) (w : W) → P w → (act (at s) w).0 ≡ none → P' (act (at s) w).1)
        → LeadsTo P' Q next
        → LeadsTo P Q (component c namespace kind reason message act next)
    unfolding set_component_condition set_condition
    component-LeadsTo acts rest s w p ok = elim (Option-cases (act (at s) w).0) [
      | inr (m, e) ↦
          absurd (ok (component_err c namespace kind reason message act next (at s) w m e))
      | inl e ↦
          let same = component_ok c namespace kind reason message act next (at s) w e in
          let s' = (set_component_condition c kind true "Ready" message (at s)).status in
          rw same (
            rest s' (act (at s) w).1 (acts s w p e)
              (λ failed. ok (ap (λ (r : Result × W). r.0) same ∙ failed)))
    ]

    pub optional-LeadsTo :
        (enabled : Bool)
        → ((s : CxiDriverStatus) (w : W)
            → enabled ≡ true
            → P w
            → (act (at s) w).0 ≡ none
            → P' (act (at s) w).1)
        → ((w : W) → enabled ≡ false → P w → P' w)
        → LeadsTo P' Q next
        → LeadsTo P Q (optional_component c namespace enabled kind reason message act next)
    unfolding optional_component remove_condition
    optional-LeadsTo true acts skip rest s w p ok =
        component-LeadsTo (λ s' w'. acts s' w' refl) rest s w p ok
    optional-LeadsTo false acts skip rest s w p ok =
        rest (remove_condition c kind (at s)).status w (skip w refl p) ok
