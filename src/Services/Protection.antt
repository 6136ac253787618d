-- ===== src/Services/Protection.antt =====
-- `webhook` and `DeleteMandatory` of services/pod/pod.go.
use iapetos.Prelude.{◌≡◌, ◌⊎◌, inl, inr, true, false, some, arith, eq_iff}
use iapetos.Prelude.Maps.{contains, insert, or_empty, lookup-insert_self}
use iapetos.Effect.{done}
use iapetos.Api.{Pod}
use iapetos.Client.{ok, failure, force, Env}
use iapetos.Services.Objects
use iapetos.Services.Objects.{key_of}
use iapetos.Services.Pod

-- The pod with the mark that asks for its removal.
abbrev pub marked : Pod → Pod
marked pod = record pod {
  meta = record pod.meta {
    annotations = some (insert "nodeUnhealthy" "true" (or_empty pod.meta.annotations));
  };
}

module _ {W : Type 0} (env : Env W) where
  -- A pod that has the mark, or is not annotated "cockrochDB", is deleted at once, without a grace
  -- period, and the reply handed on.
  pub delete_mandatory_forces :
      (pod : Pod) (w : W)
      → (contains "cockrochDB" (or_empty pod.meta.annotations) ≡ false)
        ⊎ (contains "nodeUnhealthy" (or_empty pod.meta.annotations) ≡ true)
      → Pod.delete_mandatory env pod w ≡ done (env.pods.delete force pod w)
  unfolding Pod.delete_mandatory Pod.webhook
  delete_mandatory_forces pod w (inl free) = ground (arith, free)
  delete_mandatory_forces pod w (inr marked) = ground (arith, marked)

  -- Of a pod annotated "cockrochDB" without the mark, which the server has under the same version and
  -- whose update it takes: the first `DeleteMandatory` returns an error, and has deleted nothing but
  -- stored the pod with the mark. `DeleteMandatory` of the pod with the annotations that are stored
  -- then, in any world, is the deletion without a grace period.
  pub delete_mandatory_twice :
      (pod current kept : Pod) (w w1 w2 w3 : W)
      → contains "cockrochDB" (or_empty pod.meta.annotations) ≡ true
      → contains "nodeUnhealthy" (or_empty pod.meta.annotations) ≡ false
      → env.pods.get (key_of pod.meta) w ≡ (ok current, w1)
      → current.meta.resource_version ≡ pod.meta.resource_version
      → env.pods.update (marked pod) w1 ≡ (ok kept, w2)
      → kept.meta.annotations ≡ (marked pod).meta.annotations
      → (Pod.delete_mandatory env pod w ≡ done (some failure, w2))
        × (Pod.delete_mandatory env kept w3 ≡ done (env.pods.delete force kept w3))
  unfolding Pod.delete_mandatory Pod.webhook Pod.update Objects.is_exists
  delete_mandatory_twice pod current kept w w1 w2 w3 guarded unmarked there same taken echoed =
      let v = eq_iff pod.meta.resource_version current.meta.resource_version in
      let now = lookup-insert_self "nodeUnhealthy" "true" (or_empty pod.meta.annotations) in
      let has : contains "nodeUnhealthy" (or_empty kept.meta.annotations) ≡ true =
        ground (arith, echoed, now) in
      (
        ground (arith, guarded, unmarked, there, same, v, taken),
        delete_mandatory_forces kept w3 (inr has),
      )
