-- ===== src/DevicePlugin/Prefer/Refinement.antt =====
-- The loops of `selectPreferredDevices` against an independent description of the choice: the first
-- `count` of the must-include devices, then the devices near to them, then the others.
use slingshot_operator.Prelude.{
  ℕ, zero, suc, ◌+◌, ◌≤◌, ◌≡◌, refl, sym, ap, ◌∙◌, String, Bool, true, false, not, ◌&&◌, ◌||◌, List,
  [], ◌∷◌, ◌++◌, inl, inr, leb, leb→le, str_eq, if◌then◌else◌, Bool-cases, length, take,
  take-append, take-append_of_le, take-take-append, length-take, mem, length-append, take_all,
  arith,
}
use mathlib.Core.Path.{fun_ext}
use mathlib.Core.List.{append-nil, append_assoc}
use slingshot_operator.Prelude.Dict.{Dict}
use slingshot_operator.Prelude.Int.{ℤ, pos, int_eq}
use slingshot_operator.DevicePlugin.Plugin.{Plugin, sharing_mode_shared}
use slingshot_operator.DevicePlugin.Prefer.{
  fill, take_must, preferred_numa, numa_of, separate, complete, select_exclusive, select_positive,
  build_numa_map, select_preferred_devices,
}

-- The elements that pass a Boolean test, in order.
unfoldable pub keep : (String → Bool) → List String → List String
keep p [] = []
keep p (x ∷ xs) = let rest = keep p xs in if p x then x ∷ rest else rest

fill-eq-take : (n : ℕ) (r xs : List String) → length r ≤ n → fill n r xs ≡ take n (r ++ xs)
unfolding fill
fill-eq-take n r [] h = rw append-nil (sym (take_all n r h))
fill-eq-take n r (id ∷ ids) h = elim (Bool-cases (leb n (length r))) [
  | inl full ↦
      let e : n ≡ length r = omega (arith, leb→le n (length r) full) in
      rw (full, fill) (rw e (sym (take-append r (id ∷ ids))))
  | inr room ↦
      rw (room, fill)
        (fill-eq-take n (r ++ id ∷ []) ids (ground (arith, length-append r (id ∷ [])))
          ∙ ap (take n) (append_assoc r (id ∷ []) ids))
]

take_must-eq-take :
    (n : ℕ) (r selected must : List String)
    → length r ≤ n
    → (take_must n r selected must).0 ≡ take n (r ++ must)
unfolding take_must
take_must-eq-take n r selected [] h = rw append-nil (sym (take_all n r h))
take_must-eq-take n r selected (id ∷ ids) h = elim (Bool-cases (leb n (length r))) [
  | inl full ↦
      let e : n ≡ length r = omega (arith, leb→le n (length r) full) in
      rw (full, take_must) (rw e (sym (take-append r (id ∷ ids))))
  | inr room ↦
      rw (room, take_must)
        (take_must-eq-take n (r ++ id ∷ []) (id ∷ selected) ids
            (ground (arith, length-append r (id ∷ [])))
          ∙ ap (take n) (append_assoc r (id ∷ []) ids))
]

-- With room for all of them, exactly the must-include devices are marked.
mem-take_must :
    (x : String) (n : ℕ) (r selected must : List String)
    → length r + length must ≤ n
    → mem x (take_must n r selected must).1 ≡ (mem x must || mem x selected)
unfolding take_must mem
mem-take_must x n r selected [] h = refl
mem-take_must x n r selected (id ∷ ids) h =
    ground (arith, length-append r (id ∷ []), mem-take_must x n (r ++ id ∷ []) (id ∷ selected) ids)

-- An available device that is not selected, on the preferred node or off it.
abbrev pub is_near : Dict ℤ → ℤ → List String → String → Bool
is_near m pref selected id = not (mem id selected) && int_eq (numa_of m id) pref

abbrev pub is_far : Dict ℤ → ℤ → List String → String → Bool
is_far m pref selected id = not (mem id selected) && not (int_eq (numa_of m id) pref)

separate-eq-keep :
    (m : Dict ℤ) (pref : ℤ) (selected same different ids : List String)
    → separate m pref selected same different ids
      ≡ (same ++ keep (is_near m pref selected) ids, different ++ keep (is_far m pref selected) ids)
unfolding separate keep
separate-eq-keep m pref selected same different [] = simp append-nil
separate-eq-keep m pref selected same different (id ∷ ids) = elim (Bool-cases (mem id selected)) [
  | inl old ↦ rw (old, separate) (separate-eq-keep m pref selected same different ids)
  | inr new ↦ elim (Bool-cases (int_eq (numa_of m id) pref)) [
    | inl near ↦
        rw (new, near, separate)
          (rw (separate-eq-keep m pref selected (same ++ id ∷ []) different ids)
            (simp append_assoc))
    | inr far ↦
        rw (new, far, separate)
          (rw (separate-eq-keep m pref selected same (different ++ id ∷ []) ids)
            (simp append_assoc))
  ]
]

-- The order in which devices are chosen: the must-include ones, then the near ones, then the others.
unfoldable pub preference : Dict ℤ → List String → List String → List String
preference m available must =
    let pref = preferred_numa m must available in
    must ++ (keep (is_near m pref must) available ++ keep (is_far m pref must) available)

complete-eq-take :
    (m : Dict ℤ) (n : ℕ) (result selected must available : List String)
    → length result ≤ n
    → let pref = preferred_numa m must available in
      complete m n result selected must available
      ≡ take n (
          result
          ++ (keep (is_near m pref selected) available ++ keep (is_far m pref selected) available))
unfolding complete
complete-eq-take m n result selected must available h =
    let pref = preferred_numa m must available in
    let near = keep (is_near m pref selected) available in
    let far = keep (is_far m pref selected) available in
    rw (separate-eq-keep m pref selected [] [] available) (
      rw (fill-eq-take n result near h) (
        fill-eq-take n (take n (result ++ near)) far (omega (arith, length-take n (result ++ near)))
        ∙ take-take-append n (result ++ near) far
        ∙ ap (take n) (append_assoc result near far)))

-- With fewer must-include devices than asked for, the marks do not differ from them.
complete_of_must :
    (m : Dict ℤ) (n : ℕ) (available must : List String)
    → length must ≤ n
    → complete m n must (take_must n [] [] must).1 must available
      ≡ take n (preference m available must)
unfolding preference mem
complete_of_must m n available must h =
    rw (complete-eq-take m n must (take_must n [] [] must).1 must available h) (
      ap
        (λ (marked : String → Bool).
          let pref = preferred_numa m must available in
          take n (
            must
            ++ (keep (λ id. not (marked id) && int_eq (numa_of m id) pref) available
                ++ keep (λ id. not (marked id) && not (int_eq (numa_of m id) pref)) available)))
        (fun_ext λ x. ground (arith, mem-take_must x n [] [] must)))

select_exclusive-eq-take :
    (m : Dict ℤ) (n : ℕ) (available must : List String)
    → select_exclusive m n available must ≡ take n (preference m available must)
unfolding select_exclusive
select_exclusive-eq-take m n available must =
    let e : (take_must n [] [] must).0 ≡ take n must =
      take_must-eq-take n [] [] must (omega arith) in
    elim (Bool-cases (leb n (length must))) [
      | inl full ↦
          let full' : leb n (length (take n must)) ≡ true = ground (arith, length-take n must) in
          rw (e, full') (unfold preference in sym (take-append_of_le n must _ (leb→le n _ full)))
      | inr room ↦
          let fits : length must ≤ n = ground arith in
          rw (e, take_all n must fits, room) (complete_of_must m n available must fits)
    ]

-- In any mode but the shared one, the choice for a count that is not negative is the first `count`
-- devices of the preference: the must-include devices, then the available ones left over, those on
-- the preferred NUMA node before the others.
pub select-eq-take :
    (p : Plugin) (available must : List String) (n : ℕ)
    → str_eq p.config.sharing_mode sharing_mode_shared ≡ false
    → select_preferred_devices p available must (pos n)
      ≡ take n (preference (build_numa_map p) available must)
unfolding select_preferred_devices select_positive
select-eq-take p available must zero h = refl
select-eq-take p available must (suc n) h =
    rw h (select_exclusive-eq-take (build_numa_map p) (suc n) available must)
