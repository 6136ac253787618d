-- ===== src/Tests/Objects.antt =====
-- Objects for the examples.
use iapetos.Prelude.{ℕ, String, none, some, List, [], ◌∷◌}
use iapetos.Prelude.Int.{pos}
use iapetos.Api.{
  Pod, Pvc, Pv, PodPhase, PvcPhase, PvcSpec, PodStatus, PvcStatus, StatefulPod, group_version,
}
use iapetos.Services.Pod
use iapetos.Services.Pvc
use iapetos.Tests.Server.{World}

abbrev pub spec : PvcSpec
spec = record {
  access_modes = "ReadWriteOnce" ∷ [];
  storage_class_name = some "fast";
  volume_name = "";
  storage_request = "1Gi";
  other_fields = "";
}

abbrev pub pod_entry : String → PodPhase → ℕ → PodStatus
pod_entry name phase i = record {
  pod_name = name;
  status = phase;
  index = pos i;
  node_name = "node";
}

abbrev pub claim_entry : String → PvcPhase → ℕ → PvcStatus
claim_entry name phase i = record {
  index = pos i;
  pvc_name = name;
  status = phase;
  capacity = "1Gi";
  access_modes = "ReadWriteOnce" ∷ [];
  storage_class = "fast";
  pv_name = "volume";
}

-- A `StatefulPod` with the size 2 and the given children.
abbrev pub cluster : List String → List PodStatus → List PvcStatus → StatefulPod
cluster finalizers pods pvcs = record {
  meta = record {
    name = "db";
    namespace = "default";
    uid = "1";
    resource_version = "1";
    annotations = none;
    labels = [];
    finalizers = finalizers;
    owner_references = [];
    creation_timestamp = 0;
    deletion_timestamp = none;
  };
  spec = record {
    size = some (pos 2);
    selector = none;
    pv_recycle_policy = "Retain";
    service_template = none;
    pod_template = record {
      hostname = "";
      subdomain = "";
      node_name = "";
      volumes = record { name = "data"; claim_name = some "" } ∷ [];
      other_fields = "";
    };
    pvc_template = some spec;
    pv_names = [];
  };
  status = record { pod_status_mes = pods; pvc_status_mes = pvcs };
}

-- One of two children is up.
abbrev pub growing : StatefulPod
growing =
    cluster [] (pod_entry "db-0" PodPhase.running 0 ∷ [])
      (claim_entry "data-db-0" PvcPhase.bound 0 ∷ [])

-- Both are up, and the first pod was deleted.
abbrev pub losing : StatefulPod
losing =
    cluster (group_version ∷ [])
      (pod_entry "db-0" PodPhase.deleting 0 ∷ pod_entry "db-1" PodPhase.running 1 ∷ [])
      (claim_entry "data-db-0" PvcPhase.deleting 0 ∷ claim_entry "data-db-1" PvcPhase.bound 1 ∷ [])

-- The world with one `StatefulPod` and nothing else.
abbrev pub world : StatefulPod → World
world sp = record {
  object = some sp;
  revision = 2;
  pods = [];
  claims = [];
  volumes = [];
  services = [];
}

-- A pod of the given index that has come up.
abbrev pub running_pod : StatefulPod → String → Pod
running_pod sp name = record (Pod.bare_pod sp name) { phase = PodPhase.running }

abbrev pub bound_claim : StatefulPod → String → ℕ → Pvc
bound_claim sp name i = record (Pvc.claim_of sp name i spec) { phase = PvcPhase.bound }

-- A volume of `losing`, released by its claim and to be kept.
abbrev pub released_volume : Pv
released_volume = record {
  meta = record {
    name = "volume";
    namespace = "";
    uid = "";
    resource_version = "1";
    annotations = none;
    labels = [];
    finalizers = [];
    owner_references = [];
    creation_timestamp = 0;
    deletion_timestamp = none;
  };
  reclaim_policy = "Retain";
  storage_class_name = "fast";
  claim_ref = none;
  phase = "Available";
}

-- The world in which the children of `losing` are gone and its volume is kept.
abbrev pub cleared : World
cleared = record (world losing) { volumes = released_volume ∷ [] }

-- `losing` as the server has it after its finalizer is gone, and the world then.
abbrev pub let_go : StatefulPod
let_go = record losing { meta = record losing.meta { finalizers = []; resource_version = "2" } }

abbrev pub after_let_go : World
after_let_go = record cleared { object = some let_go; revision = 3 }

-- The second pod of `losing` as `CreateTemplate` makes it, and what it writes into `losing`.
abbrev pub made_pod : Pod
made_pod = record (Pod.bare_pod losing "db-1") {
  meta = record (Pod.bare_pod losing "db-1").meta {
    annotations = some ((group_version, "true") ∷ ("parentName", "db") ∷ ("index", "1") ∷ []);
  };
  spec = record (Pod.bare_pod losing "db-1").spec {
    volumes = record { name = "data"; claim_name = some "data-db-1" } ∷ [];
  };
}

abbrev pub defaulted : StatefulPod
defaulted = record losing {
  spec = record losing.spec {
    pod_template = record losing.spec.pod_template {
      volumes = record { name = "data"; claim_name = some "data" } ∷ [];
    };
  };
}

-- `growing` as another writer has changed it meanwhile, and the world with it.
abbrev pub changed : StatefulPod
changed = record growing {
  meta = record growing.meta { resource_version = "9" };
  spec = record growing.spec { size = some (pos 5) };
}

-- Both children up, and the world with both pods running.
abbrev pub settled : StatefulPod
settled =
    cluster (group_version ∷ [])
      (pod_entry "db-0" PodPhase.running 0 ∷ pod_entry "db-1" PodPhase.running 1 ∷ [])
      (claim_entry "data-db-0" PvcPhase.bound 0 ∷ claim_entry "data-db-1" PvcPhase.bound 1 ∷ [])

abbrev pub running : World
running = record (world settled) {
  pods = running_pod settled "db-0" ∷ running_pod settled "db-1" ∷ [];
}
