-- ===== src/Webhook/Injector/Once.antt =====
-- A pod is given the sidecar once, however often it passes the webhook.
use slingshot_operator.Prelude.{
  ◌≡◌, Bool, true, false, inl, inr, some, [], ◌∷◌, any-append, arith, ◌⊎◌, String, Option-cases,
  ◌∙◌, ap, refl,
}
use slingshot_operator.Prelude.Dict.{lookup, insert, get-insert, lookup-insert}
use slingshot_operator.Kube.Workload.{Pod, Container}
use slingshot_operator.Webhook.Admission.{allowed, patch_response, Request, Codec}
use slingshot_operator.Webhook.Injector.{
  SidecarInjectorConfig, should_inject, already_injected, inject_sidecar, mutate, handle,
  add_sidecar, container_requests_cxi, requests_cxi_device, annotation_sidecar_injected,
  annotation_inject_sidecar, mark_pod, find_cxi_devices, build_sidecar_container,
}

add_sidecar-annotations :
    (native : Bool) (c : Container) (p : Pod) → (add_sidecar native c p).annotations ≡ p.annotations
unfolding add_sidecar
add_sidecar-annotations true c p = refl
add_sidecar-annotations false c p = refl

add_sidecar-requests :
    (native : Bool) (c : Container) (p : Pod)
    → requests_cxi_device p ≡ true
    → requests_cxi_device (add_sidecar native c p) ≡ true
unfolding add_sidecar
add_sidecar-requests true c p h =
    let sidecar = record c { restart_policy = some "Always" } in
    ground (arith, any-append container_requests_cxi p.spec.init_containers (sidecar ∷ []))
add_sidecar-requests false c p h =
    ground (arith, any-append container_requests_cxi p.spec.containers (c ∷ []))

-- The annotation that asks for the sidecar is not the one that marks the pod.
should_inject_of :
    (p q : Pod)
    → lookup annotation_inject_sidecar q.annotations
      ≡ lookup annotation_inject_sidecar p.annotations
    → (requests_cxi_device p ≡ true → requests_cxi_device q ≡ true)
    → should_inject p ≡ true
    → should_inject q ≡ true
unfolding should_inject
should_inject_of p q e r h = elim (Option-cases (lookup annotation_inject_sidecar p.annotations)) [
  | inl n ↦ rw (e, should_inject) (rw (n, should_inject) (r (rw (n, should_inject) at h)))
  | inr (v, s) ↦ rw (e, should_inject) (rw (s, should_inject) (rw (s, should_inject) at h))
]

inject-annotations :
    (config : SidecarInjectorConfig) (p : Pod)
    → (inject_sidecar config p).annotations
      ≡ insert annotation_sidecar_injected "true" p.annotations
unfolding inject_sidecar mark_pod
inject-annotations config p =
    add_sidecar-annotations config.use_native_sidecar
      (build_sidecar_container config (find_cxi_devices p)) (mark_pod p)

inject-requests :
    (config : SidecarInjectorConfig) (p : Pod)
    → requests_cxi_device p ≡ true
    → requests_cxi_device (inject_sidecar config p) ≡ true
unfolding inject_sidecar mark_pod
inject-requests config p h =
    add_sidecar-requests config.use_native_sidecar
      (build_sidecar_container config (find_cxi_devices p)) (mark_pod p) h

inject-should_inject :
    (config : SidecarInjectorConfig) (p : Pod)
    → should_inject p ≡ true
    → should_inject (inject_sidecar config p) ≡ true
inject-should_inject config p h =
    should_inject_of p (inject_sidecar config p)
      (ap (lookup annotation_inject_sidecar) (inject-annotations config p)
        ∙ lookup-insert annotation_sidecar_injected annotation_inject_sidecar "true" p.annotations)
      (inject-requests config p) h

inject-already_injected :
    (config : SidecarInjectorConfig) (p : Pod) → already_injected (inject_sidecar config p) ≡ true
unfolding already_injected
inject-already_injected config p = rw (inject-annotations config p) (
    rw (get-insert annotation_sidecar_injected annotation_sidecar_injected "true" p.annotations)
      refl)

module _ {Raw : Type 0} (codec : Codec Raw) (config : SidecarInjectorConfig)
    (decode-encode : (p : Pod) (raw : Raw)
      → codec.encode_pod p ≡ inr raw
      → codec.decode_pod raw ≡ inr p) where
  encode_of_patch :
      (raw new : Raw) (p : Pod) (r : String ⊎ Raw)
      → codec.encode_pod (inject_sidecar config p) ≡ r
      → mutate codec config raw p ≡ patch_response raw new
      → (should_inject p ≡ true) × (r ≡ inr new)
  unfolding mutate
  encode_of_patch raw new p r e h = ground arith

  mutate-injected :
      (raw : Raw) (p : Pod)
      → should_inject p ≡ true
      → mutate codec config raw (inject_sidecar config p) ≡ allowed "already injected" []
  unfolding mutate
  mutate-injected raw p h =
      ground (arith, inject-should_inject config p h, inject-already_injected config p)

  decoded_again :
      (req : Request Raw) (new : Raw) (p : Pod)
      → mutate codec config req.object p ≡ patch_response req.object new
      → handle codec config (record req { object = new }) ≡ allowed "already injected" []
  unfolding handle
  decoded_again req new p h =
      let (s, e) =
        encode_of_patch req.object new p (codec.encode_pod (inject_sidecar config p)) refl h in
      rw (decode-encode (inject_sidecar config p) new e, handle) (mutate-injected new p s)

  inject_once_of :
      (req : Request Raw) (new : Raw) (r : String ⊎ Pod)
      → codec.decode_pod req.object ≡ r
      → handle codec config req ≡ patch_response req.object new
      → handle codec config (record req { object = new }) ≡ allowed "already injected" []
  unfolding handle
  inject_once_of req new (inl m) e h = ground arith
  inject_once_of req new (inr p) e h = decoded_again req new p (rw (e, handle) at h)

  -- If encoding a pod can be undone, a pod that the webhook has patched and that comes back to it
  -- is let through as already injected: it is never patched twice.
  pub inject_once :
      (req : Request Raw) (new : Raw)
      → handle codec config req ≡ patch_response req.object new
      → handle codec config (record req { object = new }) ≡ allowed "already injected" []
  inject_once req new = inject_once_of req new (codec.decode_pod req.object) refl
