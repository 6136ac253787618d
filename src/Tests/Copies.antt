-- ===== src/Tests/Copies.antt =====
-- Deep copies in a small memory, at an input: the library's structs are values, and its memory counts
-- the copies that were made.
use iapetos.Prelude.{ℕ, suc, ◌≡◌, refl, true, none, some, [], ◌∷◌}
use iapetos.Prelude.Int.{pos}
use iapetos.Effect.{done}
use iapetos.Api
use iapetos.Api.{PodPhase, PvcPhase}
use iapetos.Client.Laws.{with_version}
use iapetos.Controllers.Events.{DeepEqual, EventObject, update_passes}
use iapetos.Memory.{
  Value, Library, Slice, PodStatus, PvcStatus, StatefulPod, StatefulPodList, Memory, TypeMeta,
}
use iapetos.Memory.Aliasing.{IsReflexive, changed, update_passes-shared}
use iapetos.Memory.Copies.{CopiesAlike, IsNewArray}
use iapetos.Memory.DeepCopy.{
  Object, copy_int, copy_struct, copy_all, copy_slice, copy_pod_status, copy_spec, copy_status,
  copy_stateful_pod, stateful_pod_object, stateful_pod_list_object,
}
use iapetos.Memory.Reading.{read_stateful_pod, read_list}
use iapetos.Memory.Objects.{IsFresh}
use iapetos.Memory.Sharing.{
  IsObjectCopy, stateful_pod_object-IsObjectCopy, stateful_pod_list_object-copies,
  assign_pod_phase-leaves,
}
use iapetos.Memory.Writes.{assign, assign_pod_phase, assign_pvc_phase}
use iapetos.Controllers.Pvc
use iapetos.Memory.Monitor.{monitor_pvc_status}
use iapetos.Memory.Monitor.Refines.{monitor_pvc_status-refines}
use iapetos.Tests.Objects.{growing, bound_claim, world}
use iapetos.Tests.Server.{server}

abbrev library : Library
library = record { Heap = ℕ; Struct = Value; read = λ k h x. some x; copy = λ k x h. (x, suc h) }

library-CopiesAlike : CopiesAlike library
library-CopiesAlike = record { alike = λ k x h a e. e; keeps = λ j k y x h a e. e }

abbrev type_meta : TypeMeta
type_meta = record { kind = "StatefulPod"; api_version = Api.group_version }

abbrev first : ℕ → Slice
first a = record { array = a; len = 1 }

abbrev pod_at : ℕ → PodPhase → PodStatus
pod_at p phase = record { pod_name = "db-0"; status = phase; index = some p; node_name = "node" }

abbrev claim_at : ℕ → PvcPhase → PvcStatus
claim_at p phase = record {
  index = some p;
  pvc_name = "data-db-0";
  status = phase;
  capacity = "1Gi";
  access_modes = some (first 0);
  storage_class = "fast";
  pv_name = "volume";
}

-- `growing` with its size at the address `size` and its pod entries in the array `pods`.
abbrev laid_out : ℕ → ℕ → StatefulPod library
laid_out size pods = record {
  type_meta = type_meta;
  object_meta = growing.meta;
  spec = record {
    size = some size;
    selector = none;
    pv_recycle_policy = "Retain";
    service_template = none;
    pod_template = growing.spec.pod_template;
    pvc_template = growing.spec.pvc_template;
    pv_names = none;
  };
  status = record { pod_status_mes = some (first pods); pvc_status_mes = some (first 0) };
}

abbrev cached : StatefulPod library
cached = laid_out 0 0

abbrev copy : StatefulPod library
copy = laid_out 2 1

abbrev cache : Memory library
cache = record {
  ints = pos 2 ∷ pos 0 ∷ [];
  strings = ("ReadWriteOnce" ∷ []) ∷ [];
  pod_statuses = (pod_at 1 PodPhase.running ∷ []) ∷ [];
  pvc_statuses = (claim_at 1 PvcPhase.bound ∷ []) ∷ [];
  stateful_pods = (cached ∷ []) ∷ [];
  library = 0;
}

-- After the copy, and after each of two assignments to it.
abbrev copied : PodPhase → PvcPhase → Memory library
copied pod claim = record cache {
  ints = pos 2 ∷ pos 0 ∷ pos 2 ∷ pos 0 ∷ [];
  pod_statuses = (pod_at 1 PodPhase.running ∷ []) ∷ (pod_at 3 pod ∷ []) ∷ [];
  pvc_statuses = (claim_at 1 claim ∷ []) ∷ [];
  library = 2;
}

cached_read : read_stateful_pod cache cached ≡ some growing
cached_read = refl

copy_run : copy_stateful_pod cached cache ≡ done (copy, copied PodPhase.running PvcPhase.bound)
unfolding copy_stateful_pod copy_struct copy_spec copy_int copy_status copy_slice copy_all
    copy_pod_status
copy_run = refl

pod_run :
    assign_pod_phase copy 0 PodPhase.deleting (copied PodPhase.running PvcPhase.bound)
    ≡ done (tt, copied PodPhase.deleting PvcPhase.bound)
unfolding assign
pod_run = refl

claim_run :
    assign_pvc_phase copy 0 PvcPhase.deleting (copied PodPhase.running PvcPhase.bound)
    ≡ done (tt, copied PodPhase.running PvcPhase.deleting)
unfolding assign
claim_run = refl

stateful_pod_object-IsObjectCopy_example :
    (c : IsObjectCopy read_stateful_pod Object.stateful_pod cached growing
      (stateful_pod_object (some cached) cache))
    × IsFresh cache cached c.out
stateful_pod_object-IsObjectCopy_example =
    stateful_pod_object-IsObjectCopy library-CopiesAlike cache cached growing cached_read

assign_pod_phase-leaves_example :
    read_stateful_pod (copied PodPhase.deleting PvcPhase.bound) cached ≡ some growing
assign_pod_phase-leaves_example =
    assign_pod_phase-leaves library-CopiesAlike cache (copied PodPhase.running PvcPhase.bound)
      (copied PodPhase.deleting PvcPhase.bound) cached copy growing 0 PodPhase.deleting cached_read
      copy_run pod_run

-- A comparison that takes everything for equal.
abbrev lax : DeepEqual
lax = record { templates = λ a b. true; finalizers = λ a b. true; claims = λ a b. true }

lax-IsReflexive : IsReflexive lax
lax-IsReflexive = record { templates = λ a. refl; finalizers = λ a. refl; claims = λ a. refl }

abbrev stored : Api.StatefulPod
stored = with_version "2" (changed 0 PvcPhase.deleting growing)

update_passes-shared_example :
    (read_stateful_pod (copied PodPhase.running PvcPhase.deleting) copy
      ≡ some (changed 0 PvcPhase.deleting growing))
    × (read_stateful_pod (copied PodPhase.running PvcPhase.deleting) cached
        ≡ some (changed 0 PvcPhase.deleting growing))
    × (update_passes lax
          (EventObject.stateful_pod (changed 0 PvcPhase.deleting growing))
          (EventObject.stateful_pod stored)
        ≡ some true)
update_passes-shared_example =
    update_passes-shared library-CopiesAlike lax cache (copied PodPhase.running PvcPhase.bound)
      (copied PodPhase.running PvcPhase.deleting) cached copy growing stored 0 PvcPhase.deleting
      lax-IsReflexive cached_read copy_run claim_run refl

abbrev listed : StatefulPodList library
listed = record { type_meta = type_meta; list_meta = "7"; items = some (first 0) }

stateful_pod_list_object-copies_example :
    (c : IsObjectCopy read_list Object.stateful_pod_list listed
      ("7", growing ∷ [])
      (stateful_pod_list_object (some listed) cache))
    × IsNewArray 1 c.out.items
stateful_pod_list_object-copies_example =
    stateful_pod_list_object-copies library-CopiesAlike cache listed ("7", growing ∷ []) refl

abbrev leaving : Api.Pvc
leaving = record (bound_claim growing "data-db-0" 0) {
  meta = record (bound_claim growing "data-db-0" 0).meta { deletion_timestamp = some 5 };
}

value_run :
    Pvc.monitor_pvc_status server growing leaving (pos 0) (world growing)
    ≡ done ((true, changed 0 PvcPhase.deleting growing), world growing)
unfolding Pvc.monitor_pvc_status
value_run = refl

monitor_pvc_status-refines_example :
    (m' : Memory library) × (monitor_pvc_status cached leaving 0 cache ≡ done (true, m'))
    × (read_stateful_pod m' cached ≡ some (changed 0 PvcPhase.deleting growing))
monitor_pvc_status-refines_example =
    monitor_pvc_status-refines server cache cached growing (changed 0 PvcPhase.deleting growing)
      leaving 0 true (world growing) (world growing) cached_read
      (record { pods = refl; pvcs = refl }) value_run
