-- ===== src/Services/Interface.antt =====
-- `ServiceInf` of services/resource.go, and the five services as values of it. An object that a method
-- gives as nil is `none`; a `none` in place of a name is a panic. No caller makes a template for a
-- negative index.
use iapetos.Prelude.{ℕ, String, Bool, Option, none, some}
use iapetos.Prelude.Int.{ℤ, pos}
use iapetos.Effect.{M, pure, or_panic, ◌>>=◌}
use iapetos.Api.{NamespacedName, Pod, Pvc, Pv, Svc, StatefulPod}
use iapetos.Client.{ApiError, Reply, ok, err, Env}
use iapetos.Services.Pod as PodService
use iapetos.Services.Pvc as PvcService
use iapetos.Services.Pv as PvService
use iapetos.Services.Service as SvcService
use iapetos.Services.StatefulPod as StatefulPodService

pub record ServiceInf (W A : Type 0) : Type 0 where
  pub create : A → M W (Reply (Option A))
  pub update : A → M W (Reply (Option A))
  pub delete : A → M W (Option ApiError)
  pub is_exists : NamespacedName → M W (Option A)
  pub create_template : StatefulPod → String → ℕ → M W (Option A × StatefulPod)
  pub get_name : StatefulPod → ℤ → Option (String × StatefulPod)
  pub is_resource_version_same : A → M W Bool
  pub delete_mandatory : A → M W (Option ApiError)
  pub get : NamespacedName → M W (Reply (Option A))

-- A reply with its object as an `interface{}` that may be nil.
abbrev pub boxed : {A : Type 0} → Reply A → Reply (Option A)
boxed (ok a) = ok (some a)
boxed (err e) = err e

abbrev pub named : StatefulPod → Option String → Option (String × StatefulPod)
named sp none = none
named sp (some name) = some (name, sp)

-- The object that a template method has made, beside the changed `StatefulPod`.
abbrev pub made : {A : Type 0} → A × StatefulPod → Option A × StatefulPod
made (a, sp) = (some a, sp)

module _ {W : Type 0} (env : Env W) where
  -- `NewPodService` of services/pod/pod.go.
  unfoldable pub pod_service : ServiceInf W Pod
  pod_service = record {
    create = λ pod. PodService.create env pod >>= λ r. pure (boxed r);
    update = λ pod. PodService.update env pod >>= λ r. pure (boxed r);
    delete = PodService.delete env;
    is_exists = PodService.is_exists env;
    create_template = λ sp name index.
        or_panic (PodService.create_template sp name (pos index)) >>= λ t. pure (made t);
    get_name = λ sp index. some (PodService.get_name sp index, sp);
    is_resource_version_same = PodService.is_resource_version_same env;
    delete_mandatory = PodService.delete_mandatory env;
    get = PodService.get env;
  }

  -- `NewPVCService` of services/pvc/pvc.go.
  unfoldable pub pvc_service : ServiceInf W Pvc
  pvc_service = record {
    create = λ pvc. PvcService.create env pvc >>= λ r. pure (boxed r);
    update = λ pvc. PvcService.update env pvc >>= λ r. pure (boxed r);
    delete = PvcService.delete env;
    is_exists = PvcService.is_exists env;
    create_template =
        λ sp name index. PvcService.create_template env sp name index >>= λ t. pure (made t);
    get_name = PvcService.get_name;
    is_resource_version_same = PvcService.is_resource_version_same env;
    delete_mandatory = PvcService.delete_mandatory env;
    get = PvcService.get env;
  }

  -- `NewPVService` of services/pv/pv.go.
  unfoldable pub pv_service : ServiceInf W Pv
  pv_service = record {
    create = PvService.create env;
    update = λ pv. PvService.update env pv >>= λ r. pure (boxed r);
    delete = PvService.delete env;
    is_exists = PvService.is_exists env;
    create_template = λ sp name index. PvService.create_template env sp name (pos index);
    get_name = λ sp index. named sp (PvService.get_name sp index);
    is_resource_version_same = PvService.is_resource_version_same env;
    delete_mandatory = PvService.delete_mandatory env;
    get = λ n. PvService.get env n >>= λ r. pure (boxed r);
  }

  -- `NewPodService` of services/service/svc.go.
  unfoldable pub svc_service : ServiceInf W Svc
  svc_service = record {
    create = λ svc. SvcService.create env svc >>= λ r. pure (boxed r);
    update = λ svc. SvcService.update env svc >>= λ r. pure (boxed r);
    delete = SvcService.delete env;
    is_exists = SvcService.is_exists env;
    create_template =
        λ sp name index. or_panic (SvcService.create_template sp) >>= λ svc. pure (some svc, sp);
    get_name = λ sp index. some (SvcService.get_name sp, sp);
    is_resource_version_same = SvcService.is_resource_version_same env;
    delete_mandatory = SvcService.delete_mandatory env;
    get = SvcService.get env;
  }

  -- `NewStatefulPod` of services/statefulpod/statefulpod.go. `Update` is the one that goes on until it
  -- has no error, and then gives the object as it stands.
  unfoldable pub stateful_pod_service : ServiceInf W StatefulPod
  stateful_pod_service = record {
    create = λ sp. StatefulPodService.create env sp >>= λ r. pure (boxed r);
    update = λ sp. StatefulPodService.update_loop env env.rounds sp >>= λ sp'. pure (ok (some sp'));
    delete = StatefulPodService.delete env;
    is_exists = StatefulPodService.is_exists env;
    create_template = λ sp name index. StatefulPodService.create_template env sp name (pos index);
    get_name = λ sp index. some (StatefulPodService.get_name sp index, sp);
    is_resource_version_same = StatefulPodService.is_resource_version_same env;
    delete_mandatory = StatefulPodService.delete_mandatory env;
    get = StatefulPodService.get env;
  }
