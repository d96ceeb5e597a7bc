-- ===== src/DevicePlugin/Prefer/Guarantees.antt =====
-- What kubelet may rely on in the answer of `selectPreferredDevices`.
use slingshot_operator.Prelude.{
  ℕ, zero, suc, ◌+◌, ◌≤◌, min, ◌≡◌, refl, sym, ap, ◌∙◌, String, Bool, true, false, not, ◌&&◌, ◌||◌,
  List, [], ◌∷◌, ◌++◌, inl, inr, str_eq, eq_iff, Bool-cases, length, take, mem, mem-append,
  length-append, length-take, take_all, arith,
}
use mathlib.Core.List.{append_assoc}
use slingshot_operator.Prelude.Dict.{Dict}
use slingshot_operator.Prelude.Int.{ℤ, pos, negsuc, rounds, int_eq}
use slingshot_operator.DevicePlugin.Plugin.{Plugin, sharing_mode_shared}
use slingshot_operator.DevicePlugin.Prefer.{
  preferred_numa, numa_of, build_numa_map, select_positive, select_preferred_devices,
}
use slingshot_operator.DevicePlugin.Prefer.Refinement.{
  keep, is_near, is_far, preference, select-eq-take,
}

mem-keep :
    (p : String → Bool) (x : String) (xs : List String) → mem x (keep p xs) ≡ (p x && mem x xs)
unfolding keep mem
mem-keep p x [] = ground arith
mem-keep p x (y ∷ ys) = elim (Bool-cases (str_eq y x)) [
  | inl same ↦ rw ((eq_iff y x).0 same) (ground (arith, mem-keep p x ys, eq_iff x x))
  | inr other ↦ ground (arith, mem-keep p x ys)
]

mem_of_take : (x : String) (n : ℕ) (xs : List String) → mem x (take n xs) ≡ true → mem x xs ≡ true
unfolding mem
mem_of_take x zero xs h = ground arith
mem_of_take x (suc n) [] h = h
mem_of_take x (suc n) (y ∷ ys) h = ground (arith, mem_of_take x n ys)

-- What a prefix holds of two lists in a row: all of the first, or nothing of the second.
take-append_cases :
    (x y : String) (n : ℕ) (xs ys : List String)
    → mem x (take n (xs ++ ys)) ≡ true
    → mem y xs ≡ true
    → mem y (take n (xs ++ ys)) ≡ false
    → mem x xs ≡ true
unfolding mem
take-append_cases x y zero xs ys h k l = ground arith
take-append_cases x y (suc n) [] ys h k l = ground arith
take-append_cases x y (suc n) (z ∷ xs) ys h k l =
    ground (arith, take-append_cases x y n xs ys, eq_iff z x, eq_iff z y)

mem-take-append :
    (x : String) (n : ℕ) (xs ys : List String)
    → length xs ≤ n
    → mem x xs ≡ true
    → mem x (take n (xs ++ ys)) ≡ true
unfolding mem
mem-take-append x zero [] ys h k = ground arith
mem-take-append x zero (z ∷ xs) ys h k = absurd (omega arith)
mem-take-append x (suc n) [] ys h k = ground arith
mem-take-append x (suc n) (z ∷ xs) ys h k = ground (arith, mem-take-append x n xs ys)

mem-preference :
    (m : Dict ℤ) (available must : List String) (x : String)
    → mem x (preference m available must) ≡ (mem x must || mem x available)
unfolding preference
mem-preference m available must x =
    let pref = preferred_numa m must available in
    let near = keep (is_near m pref must) available in
    let far = keep (is_far m pref must) available in
    rw (mem-append x must (near ++ far), mem-append x near far)
      (ground (
        arith,
        mem-keep (is_near m pref must) x available,
        mem-keep (is_far m pref must) x available,
      ))

-- Near and far devices together are the available ones that are not must-include.
length-near-far :
    (m : Dict ℤ) (pref : ℤ) (must xs : List String)
    → length (keep (is_near m pref must) xs) + length (keep (is_far m pref must) xs)
      ≡ length (keep (λ id. not (mem id must)) xs)
unfolding keep
length-near-far m pref must [] = omega arith
length-near-far m pref must (x ∷ xs) = ground (arith, length-near-far m pref must xs)

length-preference :
    (m : Dict ℤ) (available must : List String)
    → length (preference m available must)
      ≡ length must + length (keep (λ id. not (mem id must)) available)
unfolding preference
length-preference m available must =
    let pref = preferred_numa m must available in
    let near = keep (is_near m pref must) available in
    let far = keep (is_far m pref must) available in
    omega (
      arith,
      length-append must (near ++ far),
      length-append near far,
      length-near-far m pref must available,
    )

-- On every branch the answer has at most as many devices as were asked for, and none for a request
-- that is not positive.
pub select_bounds :
    (p : Plugin) (available must : List String) (count : ℤ)
    → length (select_preferred_devices p available must count) ≤ rounds count
unfolding select_preferred_devices
select_bounds p available must (pos zero) = omega arith
select_bounds p available must (negsuc n) = omega arith
select_bounds p available must (pos (suc n)) =
    elim (Bool-cases (str_eq p.config.sharing_mode sharing_mode_shared)) [
      | inl shared ↦
          unfold select_positive in rw shared (ground (arith, length-take (suc n) available))
      | inr exclusive ↦
          rw (select-eq-take p available must (suc n) exclusive)
            (omega (arith, length-take (suc n) (preference (build_numa_map p) available must)))
    ]

-- In shared mode the answer is the first devices that are available; the must-include devices have
-- no part in it, whatever they are.
pub select_shared :
    (p : Plugin) (available must : List String) (n : ℕ)
    → p.config.sharing_mode ≡ sharing_mode_shared
    → select_preferred_devices p available must (pos n) ≡ take n available
unfolding select_preferred_devices select_positive
select_shared p available must zero h = refl
select_shared p available must (suc n) h =
    ground (arith, eq_iff p.config.sharing_mode sharing_mode_shared, take_all (suc n) available)

-- The preference with the far devices set apart.
regroup :
    (m : Dict ℤ) (available must : List String)
    → let pref = preferred_numa m must available in
      preference m available must
      ≡ (must ++ keep (is_near m pref must) available) ++ keep (is_far m pref must) available
unfolding preference
regroup m available must = sym (append_assoc must _ _)

module _ (p : Plugin) (available must : List String)
    (exclusive : str_eq p.config.sharing_mode sharing_mode_shared ≡ false) where
  -- In any mode but the shared one, every device in the answer is a must-include or an available
  -- one.
  pub select_offered :
      (n : ℕ) (x : String)
      → mem x (select_preferred_devices p available must (pos n)) ≡ true
      → (mem x must || mem x available) ≡ true
  select_offered n x h =
      let m = build_numa_map p in
      cc (
        mem-preference m available must x,
        mem_of_take x n (preference m available must)
            (rw (select-eq-take p available must n exclusive) at h),
      )

  -- In any mode but the shared one, the answer has as many devices as were asked for, or all that
  -- there are: the must-include ones and the available ones that are not among them.
  pub select_fills :
      (n : ℕ)
      → length (select_preferred_devices p available must (pos n))
        ≡ min n (length must + length (keep (λ id. not (mem id must)) available))
  select_fills n =
      let m = build_numa_map p in
      rw (select-eq-take p available must n exclusive) (
        omega
          (arith, length-take n (preference m available must), length-preference m available must))

  -- In any mode but the shared one, with room for all must-include devices, each is in the answer.
  pub select_must :
      (n : ℕ) (x : String)
      → length must ≤ n
      → mem x must ≡ true
      → mem x (select_preferred_devices p available must (pos n)) ≡ true
  select_must n x h k =
      rw (select-eq-take p available must n exclusive)
        (unfold preference in mem-take-append x n must _ h k)

  -- In any mode but the shared one, a device off the preferred NUMA node is chosen only when every available
  -- device on it is: if `y` is available on that node and was left out, then all devices in the
  -- answer are must-include ones or on that node.
  pub select_local :
      (n : ℕ) (x y : String)
      → mem y available ≡ true
      → int_eq (numa_of (build_numa_map p) y) (preferred_numa (build_numa_map p) must available)
        ≡ true
      → mem y (select_preferred_devices p available must (pos n)) ≡ false
      → mem x (select_preferred_devices p available must (pos n)) ≡ true
      → (mem x must
          || int_eq
              (numa_of (build_numa_map p) x)
              (preferred_numa (build_numa_map p) must available))
        ≡ true
  select_local n x y a near out chosen =
      let m = build_numa_map p in
      let pref = preferred_numa m must available in
      let near' = keep (is_near m pref must) available in
      let far = keep (is_far m pref must) available in
      let e =
        select-eq-take p available must n exclusive ∙ ap (take n) (regroup m available must) in
      let both =
        take-append_cases x y n (must ++ near') far (rw e at chosen)
          (rw (mem-append y must near')
            (ground (arith, mem-keep (is_near m pref must) y available)))
          (rw e at out) in
      ground (arith, both, mem-append x must near', mem-keep (is_near m pref must) x available)
