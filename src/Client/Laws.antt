-- ===== src/Client/Laws.antt =====
-- What theorems assume of the API server, each as a record of its documented behaviour.
use iapetos.Prelude.{String, ◌≡◌, refl, ◌⊎◌, inl, inr, List, ◌∷◌}
use iapetos.Effect.{M}
use iapetos.Effect.Total.{Total}
use iapetos.Api.{NamespacedName, Node, NodeCondition, StatefulPod}
use iapetos.Client.{ApiError, not_found, failure, Reply, ok, err, Store, Env}

-- The object with another resource version.
abbrev pub with_version : String → StatefulPod → StatefulPod
with_version v sp = record sp { meta = record sp.meta { resource_version = v } }

abbrev pub name_of : StatefulPod → NamespacedName
name_of sp = record { namespace = sp.meta.namespace; name = sp.meta.name }

-- An update that is taken answers with the object that was sent, under a new version.
pub record EchoesUpdates {W : Type 0} (env : Env W) : Type 0 where
  pub echo :
      (sp sp' : StatefulPod) (w w' : W)
      → env.stateful_pods.update sp w ≡ (ok sp', w')
      → sp' ≡ with_version sp'.meta.resource_version sp

-- Optimistic concurrency with nobody else writing in between: an update under the version that a
-- `Get` has just returned is taken, and where `Get` has found nothing, neither does the update.
pub record TakesCurrent {W : Type 0} (env : Env W) : Type 0 where
  pub current :
      (sp stored : StatefulPod) (w w' : W)
      → env.stateful_pods.get (name_of sp) w ≡ (ok stored, w')
      → (sp' : StatefulPod) × (w'' : W) × (env.stateful_pods.update
            (with_version stored.meta.resource_version sp)
            w'
          ≡ (ok sp', w''))
  pub missing :
      (sp : StatefulPod) (e : ApiError) (w w' : W)
      → env.stateful_pods.get (name_of sp) w ≡ (err e, w')
      → (w'' : W) × (env.stateful_pods.update sp w' ≡ (err not_found, w''))

-- Reading changes nothing.
pub record ReadsOnly {W A : Type 0} (store : Store W A) : Type 0 where
  pub get_keeps : (n : NamespacedName) (w : W) → (store.get n w).1 ≡ w

pub Total-reply :
    {W A B : Type 0} {Q : B → Type 0} (r : Reply A) (f : A → M W B) (g : ApiError → M W B)
    → ((a : A) → r ≡ ok a → Total Q (f a))
    → ((e : ApiError) → r ≡ err e → Total Q (g e))
    → Total Q (elim r [ ok a ↦ f a | err e ↦ g e ])
Total-reply (ok a) f g kf kg = kf a refl
Total-reply (err e) f g kf kg = kg e refl

pub Total-error :
    {W B : Type 0} {Q : B → Type 0} (e : ApiError) (m n : M W B)
    → Total Q m
    → Total Q n
    → Total Q (elim e [ not_found ↦ m | failure ↦ n ])
Total-error not_found m n km kn = km
Total-error failure m n km kn = kn

-- Every node that is found reports at least one condition.
pub record NodesReport {W : Type 0} (env : Env W) : Type 0 where
  pub report :
      (n : NamespacedName) (node : Node) (w w' : W)
      → env.nodes.get n w ≡ (ok node, w')
      → (c : NodeCondition) × (cs : List NodeCondition) × (node.conditions ≡ c ∷ cs)

pub Reply-cases :
    {A : Type 0} (r : Reply A) → ((a : A) × (r ≡ ok a)) ⊎ (r ≡ err not_found) ⊎ (r ≡ err failure)
Reply-cases (ok a) = inl (a, refl)
Reply-cases (err not_found) = inr (inl refl)
Reply-cases (err failure) = inr (inr refl)
