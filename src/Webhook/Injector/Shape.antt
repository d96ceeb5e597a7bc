-- ===== src/Webhook/Injector/Shape.antt =====
-- What the injected pod consists of.
use slingshot_operator.Prelude.{
  ℕ, ◌+◌, ◌≡◌, refl, Bool, true, false, List, [], ◌∷◌, ◌++◌, some, any, arith, if◌then◌else◌,
  Bool-cases, sym, ◌∙◌, inl, inr,
}
use slingshot_operator.Kube.Workload.{Container, Pod}
use slingshot_operator.Webhook.Injector.{
  SidecarInjectorConfig, already_injected, inject_sidecar, add_sidecar, mark_pod, is_sidecar,
  is_dev, has_dev_volume, find_cxi_devices, build_sidecar_container, dev_volume,
}

-- The elements that pass a test, counted, and those that do not.
unfoldable pub count {ℓ} : {A : Type ℓ} → (A → Bool) → List A → ℕ
count p [] = 0
count p (x ∷ xs) = (if p x then 1 else 0) + count p xs

unfoldable pub without {ℓ} : {A : Type ℓ} → (A → Bool) → List A → List A
without p [] = []
without p (x ∷ xs) = elim (p x) [ true ↦ without p xs | false ↦ x ∷ without p xs ]

count-append {ℓ} :
    {A : Type ℓ} (p : A → Bool) (xs ys : List A) → count p (xs ++ ys) ≡ count p xs + count p ys
unfolding count
count-append p [] ys = omega arith
count-append p (x ∷ xs) ys = omega (arith, count-append p xs ys)

count_none {ℓ} : {A : Type ℓ} (p : A → Bool) (xs : List A) → any p xs ≡ false → count p xs ≡ 0
unfolding count any
count_none p [] h = refl
count_none p (x ∷ xs) h = ground (arith, count_none p xs)

without_last {ℓ} :
    {A : Type ℓ} (p : A → Bool) (xs : List A) (y : A)
    → any p xs ≡ false
    → p y ≡ true
    → without p (xs ++ y ∷ []) ≡ xs
unfolding without any
without_last p [] y h k = ground arith
without_last p (x ∷ xs) y h k = ground (arith, without_last p xs y)

without_none {ℓ} : {A : Type ℓ} (p : A → Bool) (xs : List A) → any p xs ≡ false → without p xs ≡ xs
unfolding without any
without_none p [] h = refl
without_none p (x ∷ xs) h = ground (arith, without_none p xs)

abbrev pub sidecars : Pod → ℕ
sidecars p = count is_sidecar p.spec.containers + count is_sidecar p.spec.init_containers

-- A pod without the sidecar gets exactly one, and its other containers stay as they are.
abbrev pub OneSidecar : Pod → Pod → Type 0
OneSidecar p q =
    (sidecars q ≡ 1)
    × (without is_sidecar q.spec.containers ≡ p.spec.containers)
    × (without is_sidecar q.spec.init_containers ≡ p.spec.init_containers)

add_sidecar-OneSidecar :
    (native : Bool) (c : Container) (p : Pod)
    → is_sidecar c ≡ true
    → any is_sidecar p.spec.containers ≡ false
    → any is_sidecar p.spec.init_containers ≡ false
    → OneSidecar p (add_sidecar native c p)
unfolding add_sidecar count
add_sidecar-OneSidecar true c p s h k =
    let sidecar = record c { restart_policy = some "Always" } in
    (
      ground (
        arith,
        count-append is_sidecar p.spec.init_containers (sidecar ∷ []),
        count_none is_sidecar p.spec.init_containers k,
        count_none is_sidecar p.spec.containers h,
      ),
      without_none is_sidecar p.spec.containers h,
      without_last is_sidecar p.spec.init_containers sidecar k s,
    )
add_sidecar-OneSidecar false c p s h k = (
  ground (
    arith,
    count-append is_sidecar p.spec.containers (c ∷ []),
    count_none is_sidecar p.spec.init_containers k,
    count_none is_sidecar p.spec.containers h,
  ),
  without_last is_sidecar p.spec.containers c h s,
  without_none is_sidecar p.spec.init_containers k,
)

-- A pod that is not injected yet gets exactly one sidecar, and its other containers and init
-- containers stay as they are, in order.
pub inject_single :
    (config : SidecarInjectorConfig) (p : Pod)
    → already_injected p ≡ false
    → OneSidecar p (inject_sidecar config p)
unfolding inject_sidecar mark_pod already_injected build_sidecar_container
inject_single config p h =
    add_sidecar-OneSidecar config.use_native_sidecar
      (build_sidecar_container config (find_cxi_devices p)) (mark_pod p) refl (ground arith)
      (ground arith)

add_sidecar-volumes :
    (native : Bool) (c : Container) (p : Pod)
    → (add_sidecar native c p).spec.volumes ≡ p.spec.volumes
unfolding add_sidecar
add_sidecar-volumes true c p = refl
add_sidecar-volumes false c p = refl

-- The injected pod has a volume `dev` for the sidecar's mount: those that the pod had, or a single
-- new one if it had none. Its other volumes stay as they are, in order.
pub inject_volumes :
    (config : SidecarInjectorConfig) (p : Pod)
    → (count is_dev (inject_sidecar config p).spec.volumes
        ≡ (if has_dev_volume p then count is_dev p.spec.volumes else 1))
      × (without is_dev (inject_sidecar config p).spec.volumes ≡ without is_dev p.spec.volumes)
unfolding inject_sidecar mark_pod count
inject_volumes config p =
    rw
      (add_sidecar-volumes config.use_native_sidecar
        (build_sidecar_container config (find_cxi_devices p)) (mark_pod p))
      (elim (Bool-cases (has_dev_volume p)) [
        | inl e ↦ rw e (refl, refl)
        | inr e ↦ rw e (
          ground (
            arith,
            count-append is_dev p.spec.volumes (dev_volume ∷ []),
            count_none is_dev p.spec.volumes e,
          ),
          without_last is_dev p.spec.volumes dev_volume e refl
              ∙ sym (without_none is_dev p.spec.volumes e),
        )
      ])
