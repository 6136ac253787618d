-- ===== src/Controllers/Interface.antt =====
-- The interfaces of the controllers under controllers/statefulpod/, and the constructors that give one
-- over a client. An operation that writes to the `StatefulPod` through its pointer gives the object back.
use iapetos.Prelude.{ℕ, Bool, Option}
use iapetos.Prelude.Int.{ℤ}
use iapetos.Effect.{M}
use iapetos.Api.{Pod, Pvc, PodStatus, PvcStatus, StatefulPod}
use iapetos.Client.{Reply, Env}
use iapetos.Controllers.Pod as PodController
use iapetos.Controllers.Pod.Monitor
use iapetos.Controllers.Pvc as PvcController
use iapetos.Controllers.Pv as PvController
use iapetos.Controllers.Reports
use iapetos.Controllers.Service as ServiceController
use iapetos.Controllers.StatefulPod as StatefulPodController
use iapetos.Controllers.StatefulPod.{Result}

pub record PodCtrlFunc (W : Type 0) : Type 0 where
  pub expansion_pod : StatefulPod → ℕ → M W (Reply PodStatus × StatefulPod)
  pub shrink_pod : StatefulPod → ℤ → M W Bool
  pub delete_pod_all : StatefulPod → M W Bool
  pub maintain_pod : StatefulPod → M W (Option ℕ)
  pub monitor_pod_status : StatefulPod → Pod → ℤ → M W (Bool × StatefulPod)
  pub pod_is_ok : StatefulPod → M W (Option ℕ × StatefulPod)
  pub is_pod_deleting : StatefulPod → ℕ → M W Bool

pub record PvcCtrlFunc (W : Type 0) : Type 0 where
  pub expansion_pvc : StatefulPod → ℕ → M W (Reply PvcStatus × StatefulPod)
  pub shrink_pvc : StatefulPod → ℤ → M W (Bool × StatefulPod)
  pub monitor_pvc_status : StatefulPod → Pvc → ℤ → M W (Bool × StatefulPod)
  pub delete_pvc_all : StatefulPod → M W Bool
  pub is_creation_pvc_timeout : StatefulPod → ℕ → M W (Bool × StatefulPod)

pub record PvCtrlFunc (W : Type 0) : Type 0 where
  pub set_pv_retain : StatefulPod → M W Bool
  pub set_pv_available : StatefulPod → M W Bool

pub record ServiceContrlIntf (W : Type 0) : Type 0 where
  pub create_service : StatefulPod → M W Bool

pub record StatefulPodCtrlFunc (W : Type 0) : Type 0 where
  pub core_ctrl : StatefulPod → M W (Result × StatefulPod)
  pub monitor_pod_status : Pod → M W Result
  pub monitor_pvc_status : Pvc → M W Result

module _ {W : Type 0} (env : Env W) where
  -- `NewPodCtrl` of pod_controller.
  unfoldable pub pod_ctrl : PodCtrlFunc W
  pod_ctrl = record {
    expansion_pod = PodController.expansion_pod env;
    shrink_pod = PodController.shrink_pod env;
    delete_pod_all = PodController.delete_pod_all env;
    maintain_pod = PodController.maintain_pod env;
    monitor_pod_status = Monitor.monitor_pod_status env;
    pod_is_ok = PodController.pod_is_ok env;
    is_pod_deleting = PodController.is_pod_deleting env;
  }

  -- `NewPVCCtrl`.
  unfoldable pub pvc_ctrl : PvcCtrlFunc W
  pvc_ctrl = record {
    expansion_pvc = PvcController.expansion_pvc env;
    shrink_pvc = PvcController.shrink_pvc env;
    monitor_pvc_status = PvcController.monitor_pvc_status env;
    delete_pvc_all = PvcController.delete_pvc_all env;
    is_creation_pvc_timeout = PvcController.is_creation_pvc_timeout env;
  }

  -- `NewPodCtrl` of pv_controller.
  unfoldable pub pv_ctrl : PvCtrlFunc W
  pv_ctrl = record {
    set_pv_retain = PvController.set_pv_retain env;
    set_pv_available = PvController.set_pv_available env;
  }

  -- `NewServiceController`.
  unfoldable pub service_controller : ServiceContrlIntf W
  service_controller = record { create_service = ServiceController.create_service env }

  -- `NewStatefulPodCtrl`.
  unfoldable pub stateful_pod_ctrl : StatefulPodCtrlFunc W
  stateful_pod_ctrl = record {
    core_ctrl = StatefulPodController.core_ctrl env;
    monitor_pod_status = Reports.monitor_pod env;
    monitor_pvc_status = Reports.monitor_pvc env;
  }
