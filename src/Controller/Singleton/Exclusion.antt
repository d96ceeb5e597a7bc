-- ===== src/Controller/Singleton/Exclusion.antt =====
-- At most one CXIDriver is active.
use slingshot_operator.Prelude.{
  ◌≡◌, refl, ap, ◌∙◌, String, Bool, true, false, List, [], ◌∷◌, map, none, some, ◌⊎◌, inl, inr,
  str_eq, eq_iff, str_cases, arith,
}
use slingshot_operator.Prelude.Dict.{Dict, get, get-insert, get-delete}
use slingshot_operator.Api.{CxiDriver}
use slingshot_operator.Kube.Workload.{ConfigMap}
use slingshot_operator.Kube.Client.{
  Fetch, found, not_found, failed, Action, Error, Client, pure, ◌>>=◌,
}
use slingshot_operator.Controller.Singleton.{
  get_active_cxi_driver, set_active_cxi_driver, is_active_cxi_driver, singleton_config_map_name,
  singleton_active_key, wrap, with_active, create_active, update_active, claim, check_other,
  decide_active, claimed_map,
}
use slingshot_operator.Controller.Singleton.Laws.{SingletonLaws}

get-with_active :
    (name : String) (entries : Dict String)
    → get singleton_active_key (with_active name entries) ≡ name
unfolding with_active
get-with_active name entries = elim (str_cases name "") [
  | inl e ↦ rw e (get-delete singleton_active_key singleton_active_key entries)
  | inr e ↦ rw e (get-insert singleton_active_key singleton_active_key name entries)
]

wrap-none : (s : String) (e : Error) → wrap s e ≡ none → e ≡ none
wrap-none s none h = refl
wrap-none s (some m) h = cc

module _ {W : Type 0} (c : Client W) (namespace : String) where
  abbrev pub read : W → Fetch ConfigMap
  read w = (c.get_config_map namespace singleton_config_map_name w).0

  abbrev pub active : W → String × Error
  active w = (get_active_cxi_driver c namespace w).0

  -- The answers to a series of drivers that ask.
  pub ask_all : List String → Action W (List Bool)
  ask_all [] = pure []
  ask_all (n ∷ ns) = do a ← is_active_cxi_driver c namespace n; rest ← ask_all ns; pure (a.0 ∷ rest)

module _ {W : Type 0} (c : Client W) (laws : SingletonLaws c) (namespace : String) where
  pub active_of_read :
      (w : W) (cm : ConfigMap)
      → read c namespace w ≡ found cm
      → active c namespace w ≡ (get singleton_active_key cm.entries, none)
  unfolding get_active_cxi_driver
  active_of_read w cm e = ground arith

  active-create :
      (name : String) (w : W)
      → (create_active c namespace name w).0 ≡ none
      → active c namespace (create_active c namespace name w).1 ≡ (name, none)
  unfolding create_active get
  active-create name w h =
      let cm = claimed_map namespace name in
      active_of_read (c.create_config_map cm w).1 cm
        (laws.get-create cm w (wrap-none "creating singleton ConfigMap: " _ h))

  active-update :
      (name : String) (cm : ConfigMap) (w : W)
      → (cm.namespace ≡ namespace) × (cm.name ≡ singleton_config_map_name)
      → (update_active c namespace name cm w).0 ≡ none
      → active c namespace (update_active c namespace name cm w).1 ≡ (name, none)
  unfolding update_active
  active-update name cm w k h =
      let new = record cm { entries = with_active name cm.entries } in
      active_of_read (c.update_config_map new w).1 new (
        ground
          (arith, laws.get-update new w (wrap-none "updating singleton ConfigMap: " _ h), k.0, k.1))
      ∙ ap (λ (s : String). (s, none)) (get-with_active name cm.entries)

  active-set_of :
      (name : String) (w : W) (r : Fetch ConfigMap)
      → read c namespace w ≡ r
      → str_eq name "" ≡ false
      → (set_active_cxi_driver c namespace name w).0 ≡ none
      → active c namespace (set_active_cxi_driver c namespace name w).1 ≡ (name, none)
  unfolding set_active_cxi_driver
  active-set_of name w (found cm) e n h =
      let w' = (c.get_config_map namespace singleton_config_map_name w).1 in
      ground (
        arith,
        active-update name cm w' (laws.found_key namespace singleton_config_map_name w cm e),
      )
  active-set_of name w not_found e n h =
      ground (arith, active-create name (c.get_config_map namespace singleton_config_map_name w).1)
  active-set_of name w (failed m) e n h = ground arith

  -- A write of no name that succeeds on a ConfigMap that is there leaves no driver active.
  pub active-clear :
      (w : W) (cm : ConfigMap)
      → read c namespace w ≡ found cm
      → (set_active_cxi_driver c namespace "" w).0 ≡ none
      → active c namespace (set_active_cxi_driver c namespace "" w).1 ≡ ("", none)
  unfolding set_active_cxi_driver
  active-clear w cm e h =
      let w' = (c.get_config_map namespace singleton_config_map_name w).1 in
      ground
        (arith, active-update "" cm w' (laws.found_key namespace singleton_config_map_name w cm e))

  -- A write that succeeds leaves the given driver active.
  pub active-set :
      (name : String) (w : W)
      → str_eq name "" ≡ false
      → (set_active_cxi_driver c namespace name w).0 ≡ none
      → active c namespace (set_active_cxi_driver c namespace name w).1 ≡ (name, none)
  active-set name w = active-set_of name w (read c namespace w) refl

  pub get_active-pure : (w : W) → (get_active_cxi_driver c namespace w).1 ≡ w
  unfolding get_active_cxi_driver
  get_active-pure w = ground (arith, laws.get_config_map-pure namespace singleton_config_map_name w)

  is_active-eq-decide :
      (name : String) (w : W)
      → is_active_cxi_driver c namespace name w
        ≡ decide_active c namespace name (active c namespace w) w
  unfolding is_active_cxi_driver
  is_active-eq-decide name w =
      ap (decide_active c namespace name (active c namespace w)) (get_active-pure w)

  claim-active :
      (name : String) (w : W)
      → str_eq name "" ≡ false
      → (claim c namespace name w).0.0 ≡ true
      → active c namespace (claim c namespace name w).1 ≡ (name, none)
  unfolding claim
  claim-active name w n h = ground (arith, active-set name w)

  check_other-active :
      (a name : String) (w : W)
      → str_eq name "" ≡ false
      → (check_other c namespace a name w).0.0 ≡ true
      → active c namespace (check_other c namespace a name w).1 ≡ (name, none)
  unfolding check_other
  check_other-active a name w n h = ground (arith, claim-active name (c.get_driver a w).1)

  decide-active :
      (name : String) (w : W) (a : String) (e : Error)
      → active c namespace w ≡ (a, e)
      → str_eq name "" ≡ false
      → (decide_active c namespace name (a, e) w).0.0 ≡ true
      → active c namespace (decide_active c namespace name (a, e) w).1 ≡ (name, none)
  unfolding decide_active
  decide-active name w a (some m) k n h = cc
  decide-active name w a none k n h =
      ground (arith, claim-active name w, check_other-active a name w, eq_iff a name)

  -- Under the laws of the client, a driver, whose name is not empty, that is told that it is active
  -- is the one that the ConfigMap names afterwards.
  pub claim_sound :
      (name : String) (w : W)
      → str_eq name "" ≡ false
      → (is_active_cxi_driver c namespace name w).0.0 ≡ true
      → active c namespace (is_active_cxi_driver c namespace name w).1 ≡ (name, none)
  claim_sound name w n h = rw (is_active-eq-decide name w) (
      decide-active name w (active c namespace w).0 (active c namespace w).1 refl n
        (rw (is_active-eq-decide name w) at h))

  -- While the active driver exists, every other driver is refused, and the asking changes nothing.
  pub active_excludes :
      (a b : String) (d : CxiDriver) (w : W)
      → active c namespace w ≡ (a, none)
      → str_eq a "" ≡ false
      → (c.get_driver a w).0 ≡ found d
      → is_active_cxi_driver c namespace b w ≡ ((str_eq a b, none), w)
  active_excludes a b d w k n f =
      rw (is_active-eq-decide b w)
        (rw k (unfold decide_active check_other in ground (arith, laws.get_driver-pure a w)))

  -- Under the laws of the client, if the ConfigMap can be read and names no driver or one that is
  -- gone, and its write does not fail, then the driver that asks is told that it is active.
  pub takeover :
      (a b : String) (w : W)
      → active c namespace w ≡ (a, none)
      → (str_eq a "" ≡ true) ⊎ ((c.get_driver a w).0 ≡ not_found)
      → (set_active_cxi_driver c namespace b w).0 ≡ none
      → (is_active_cxi_driver c namespace b w).0 ≡ (true, none)
  takeover a b w k g s =
      rw (is_active-eq-decide b w)
        (rw k (unfold decide_active check_other claim in ground (arith, laws.get_driver-pure a w)))

  -- Under the laws of the client, while the driver that the ConfigMap names exists, it alone is told
  -- that it is active in any series of drivers that ask, and the asking changes nothing.
  pub ask_all-single :
      (a : String) (d : CxiDriver) (w : W) (names : List String)
      → active c namespace w ≡ (a, none)
      → str_eq a "" ≡ false
      → (c.get_driver a w).0 ≡ found d
      → ask_all c namespace names w ≡ (map (str_eq a) names, w)
  unfolding ask_all
  ask_all-single a d w [] k n f = refl
  ask_all-single a d w (x ∷ xs) k n f =
      rw (active_excludes a x d w k n f) (rw (ask_all-single a d w xs k n f))
