-- ===== src/Controllers/Reports.antt =====
-- controllers/statefulpod/stateful_pod.go: `MonitorPodStatus` and `MonitorPVCStatus`, which look up the
-- `StatefulPod` of a child.
use iapetos.Prelude.{Bool, true, false, none, some}
use iapetos.Prelude.Int.{ℤ}
use iapetos.Prelude.Maps.{value_at, or_empty}
use iapetos.Effect.{M, pure, ◌>>=◌}
use iapetos.Api.{ObjectMeta, NamespacedName, Pod, Pvc, StatefulPod}
use iapetos.Client.{Env}
use iapetos.Controllers.Pod.Monitor.{monitor_pod_status}
use iapetos.Controllers.Pvc
use iapetos.Services.StatefulPod
use iapetos.Tools.{string_to_int}
use iapetos.Controllers.StatefulPod.{Result, finished, save}

module _ {W : Type 0} (env : Env W) where
  -- The `StatefulPod` that a child names in its annotations.
  abbrev pub parent_key : ObjectMeta → NamespacedName
  parent_key m = record {
    namespace = m.namespace;
    name = value_at "parentName" (or_empty m.annotations);
  }

  -- `index := tools.StringToInt(obj.Annotations["index"])`.
  abbrev pub child_index : ObjectMeta → ℤ
  child_index m = string_to_int (value_at "index" (or_empty m.annotations))

  -- The change is written back, if there is one.
  abbrev pub save_if : Bool × StatefulPod → M W Result
  save_if (false, sp) = pure finished
  save_if (true, sp) = do (r, _) ← save env sp; pure r

  -- `MonitorPodStatus`.
  unfoldable pub monitor_pod : Pod → M W Result
  monitor_pod pod = do
    parent ← StatefulPod.is_exists env (parent_key pod.meta)
    elim parent [
      | none ↦ pure finished
      | some sp ↦ (do
        changed ← monitor_pod_status env sp pod (child_index pod.meta)
        save_if changed)
    ]

  -- `MonitorPVCStatus`.
  unfoldable pub monitor_pvc : Pvc → M W Result
  monitor_pvc pvc = do
    parent ← StatefulPod.is_exists env (parent_key pvc.meta)
    elim parent [
      | none ↦ pure finished
      | some sp ↦ (do
        changed ← Pvc.monitor_pvc_status env sp pvc (child_index pvc.meta)
        save_if changed)
    ]
