-- ===== src/Services/Answers.antt =====
-- The calls of the services always return; what they answer is the server's affair.
use iapetos.Prelude.{
  ◌≡◌, refl, true, false, String, Option, none, some, List, [], ◌∷◌, ◌==◌, if◌then◌else◌,
}
use iapetos.Effect.{call, pure, or_panic}
use iapetos.Effect.Total.{
  Total, Total-call, Total-bind, Total-pure, Total-if, Total-option, Total-or_panic, returns,
  Anything,
}
use iapetos.Api.{ObjectMeta, NamespacedName, Pod, Pvc, Pv, Svc, Node, NodeCondition}
use iapetos.Prelude.Maps.{or_empty}
use iapetos.Client.{Reply, ok, err, failure, Store, Env}
use iapetos.Client.Laws.{NodesReport}
use iapetos.Services.Objects
use iapetos.Services.Pod
use iapetos.Services.Pvc
use iapetos.Services.Pv
use iapetos.Services.Resource.{
  last_condition, condition_ready, node_status, provision_node, volume_status, is_node_ready,
  is_pv_can_use,
}
use iapetos.Services.Service

module _ {W A : Type 0} (store : Store W A) where
  pub is_exists-Total : (n : NamespacedName) → Total Anything (Objects.is_exists store n)
  unfolding Objects.is_exists
  is_exists-Total n = record { at = λ w. returns _ _ tt }

  pub delete-Total : (obj : A) → Total Anything (Objects.delete store obj)
  unfolding Objects.delete
  delete-Total obj = record { at = λ w. returns _ _ tt }

  pub update-Total :
      (meta_of : A → ObjectMeta) (obj : A) → Total Anything (Objects.update store meta_of obj)
  unfolding Objects.is_exists
  update-Total meta_of obj =
      Total-bind {P = Anything} (Objects.is_resource_version_same store meta_of obj)
        (λ same. if same then call (store.update obj) else pure (err failure))
        (record { at = λ w. returns _ _ tt })
        (λ same _.
          Total-if same _ _ (λ _. Total-call (store.update obj) (λ _. tt))
            (λ _. Total-pure (err failure) tt))

module _ {W : Type 0} (env : Env W) where
  pub pod_exists-Total : (n : NamespacedName) → Total Anything (Pod.is_exists env n)
  unfolding Pod.is_exists
  pod_exists-Total = is_exists-Total env.pods

  pub pod_create-Total : (pod : Pod) → Total Anything (Pod.create env pod)
  unfolding Pod.create
  pod_create-Total pod = Total-call _ (λ _. tt)

  pub pod_delete-Total : (pod : Pod) → Total Anything (Pod.delete env pod)
  unfolding Pod.delete
  pod_delete-Total = delete-Total env.pods

  webhook-Total : (pod : Pod) → Total Anything (Pod.webhook env pod)
  unfolding Pod.webhook Pod.update
  webhook-Total pod =
      Total-option (Pod.needs_mark (or_empty pod.meta.annotations)) _ _ (λ _. Total-pure _ tt)
        (λ _ _. Total-bind _ _ (update-Total env.pods Pod.pod_meta _) (λ _ _. Total-pure _ tt))

  pub pod_delete_mandatory-Total : (pod : Pod) → Total Anything (Pod.delete_mandatory env pod)
  unfolding Pod.delete_mandatory
  pod_delete_mandatory-Total pod =
      Total-bind _ _ (webhook-Total pod)
        λ refused _. Total-option refused _ _ (λ _. Total-call _ (λ _. tt)) (λ _ _. Total-pure _ tt)

  pub pvc_delete_mandatory-Total : (pvc : Pvc) → Total Anything (Pvc.delete_mandatory env pvc)
  unfolding Pvc.delete_mandatory
  pvc_delete_mandatory-Total pvc = Total-call _ (λ _. tt)

  pub pvc_exists-Total : (n : NamespacedName) → Total Anything (Pvc.is_exists env n)
  unfolding Pvc.is_exists
  pvc_exists-Total = is_exists-Total env.pvcs

  pub pvc_create-Total : (pvc : Pvc) → Total Anything (Pvc.create env pvc)
  unfolding Pvc.create
  pvc_create-Total pvc = Total-call _ (λ _. tt)

  pub pvc_delete-Total : (pvc : Pvc) → Total Anything (Pvc.delete env pvc)
  unfolding Pvc.delete
  pvc_delete-Total = delete-Total env.pvcs

  pub pv_get-Total : (n : NamespacedName) → Total Anything (Pv.get env n)
  unfolding Pv.get
  pv_get-Total n = Total-call _ (λ _. tt)

  pub pv_update-Total : (pv : Pv) → Total Anything (Pv.update env pv)
  unfolding Pv.update
  pv_update-Total = update-Total env.pvs Pv.pv_meta

  pub service_exists-Total : (n : NamespacedName) → Total Anything (Service.is_exists env n)
  unfolding Service.is_exists
  service_exists-Total = is_exists-Total env.services

  pub service_create-Total : (svc : Svc) → Total Anything (Service.create env svc)
  unfolding Service.create
  service_create-Total svc = Total-call _ (λ _. tt)

-- A node, if there is one, has a last condition.
abbrev HasCondition : Option Node → Type 0
HasCondition none = Unit
HasCondition (some n) = (c : NodeCondition) × (last_condition n.conditions ≡ some c)

last_condition-cons :
    (c : NodeCondition) (cs : List NodeCondition)
    → (l : NodeCondition) × (last_condition (c ∷ cs) ≡ some l)
unfolding last_condition
last_condition-cons c [] = (c, refl)
last_condition-cons c (d ∷ cs) = last_condition-cons d cs

module _ {W : Type 0} {env : Env W} (nodes : NodesReport env) where
  node_found :
      (n : NamespacedName) (w w' : W) (r : Reply Node)
      → env.nodes.get n w ≡ (r, w')
      → HasCondition (Objects.found r)
  node_found n w w' (ok node) e =
      let (c, cs, shape) = nodes.report n node w w' e in rw shape (last_condition-cons c cs)
  node_found n w w' (err x) e = tt

  node_exists-Total : (n : NamespacedName) → Total HasCondition (Objects.is_exists env.nodes n)
  unfolding Objects.is_exists
  node_exists-Total n = record {
    at = λ w. let (r, w') = env.nodes.get n w in returns _ _ (node_found n w w' r refl);
  }

  node_status-Total : (o : Option Node) → HasCondition o → Total Anything (node_status env o)
  node_status-Total none h = Total-pure false tt
  node_status-Total (some n) (c, e) =
      Total-bind {P = Anything} (or_panic (last_condition n.conditions)) _ (Total-or_panic _ c e tt)
        (λ c _. record { at = λ w. returns (condition_ready env c (env.now w)) w tt })

  -- `IsNodeReady` returns where nodes report their conditions.
  pub is_node_ready-Total : (n : NamespacedName) → Total Anything (is_node_ready env n)
  unfolding is_node_ready
  is_node_ready-Total n =
      Total-if (n.name == "") _ _ (λ _. Total-pure true tt)
        (λ _.
          Total-bind (Objects.is_exists env.nodes n) (node_status env) (node_exists-Total n)
            node_status-Total)

  provision_node-Total : (o : Option String) → Total Anything (provision_node env o)
  provision_node-Total none = Total-pure none tt
  provision_node-Total (some name) = Total-bind _ _ (is_node_ready-Total _) (λ _ _. Total-pure _ tt)

  volume_status-Total : (o : Option Pv) → Total Anything (volume_status env o)
  volume_status-Total none = Total-pure none tt
  volume_status-Total (some v) =
      Total-if (v.phase == "Available") _ _ (λ _. provision_node-Total _) (λ _. Total-pure none tt)

  pub is_pv_can_use-Total : (n : NamespacedName) → Total Anything (is_pv_can_use env n)
  unfolding is_pv_can_use
  is_pv_can_use-Total n =
      Total-bind (Objects.is_exists env.pvs n) (volume_status env) (is_exists-Total env.pvs n)
        (λ o _. volume_status-Total o)
