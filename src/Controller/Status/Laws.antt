-- ===== src/Controller/Status/Laws.antt =====
-- What the library documents of its condition helpers, as far as the reconciler relies on it.
use slingshot_operator.Prelude.{
  String, ◌≡◌, List, [], ◌∷◌, Option, none, some, str_eq, if◌then◌else◌,
}
use slingshot_operator.Api.{Condition, CxiDriver}
use slingshot_operator.Kube.Client.{Client}

-- meta.FindStatusCondition
unfoldable pub find_condition : String → List Condition → Option Condition
find_condition kind [] = none
find_condition kind (x ∷ xs) =
    if str_eq x.condition_type kind then some x else find_condition kind xs

-- The condition of one type of a driver.
abbrev pub condition_of : String → CxiDriver → Option Condition
condition_of kind d = find_condition kind d.status.conditions

module _ {W : Type 0} where
  -- Setting a condition replaces the one of its type, removing drops it, and the others stay.
  pub record ConditionLaws (c : Client W) : Type 0 where
    pub find-set :
        (kind : String) (x : Condition) (xs : List Condition)
        → find_condition kind (c.set_status_condition x xs)
          ≡ (if str_eq x.condition_type kind then some x else find_condition kind xs)
    pub find-remove :
        (kind t : String) (xs : List Condition)
        → find_condition kind (c.remove_status_condition t xs)
          ≡ (if str_eq t kind then none else find_condition kind xs)
