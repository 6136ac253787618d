-- ===== src/Tests/Server.antt =====
-- An API server in memory: a list of objects for each kind, and one `StatefulPod` under optimistic
-- concurrency. Every node is there and ready.
use iapetos.Prelude.{
  ℕ, suc, ◌≡◌, ◌≢◌, refl, inl, inr, Bool, ◌&&◌, Option, none, some, List, [], ◌∷◌, ◌++◌, arith,
  ◌==◌, eq_refl, Bool-cases, if◌then◌else◌,
}
use iapetos.Prelude.Int.{pos}
use iapetos.Api.{NamespacedName, ObjectMeta, Pod, Pvc, Pv, Svc, Node, StatefulPod}
use iapetos.Client.{ApiError, not_found, failure, Reply, ok, err, Store, Env}
use iapetos.Client.Laws.{with_version, name_of}
use iapetos.Controllers.StatefulPod.Resizing.{Quiet}
use iapetos.Controllers.Sweep.Absence.{Answers}
use iapetos.Services.Objects.{key_of}
use iapetos.Services.Pod.{pod_meta}
use iapetos.Services.Pvc.{pvc_meta}
use iapetos.Services.Pv.{pv_meta}
use iapetos.Text.{itoa}

pub record World : Type 0 where
  pub object : Option StatefulPod
  pub revision : ℕ
  pub pods : List Pod
  pub claims : List Pvc
  pub volumes : List Pv
  pub services : List Svc

abbrev pub same_key : NamespacedName → NamespacedName → Bool
same_key a b = a.namespace == b.namespace && a.name == b.name

abbrev find : {A : Type 0} → (A → ObjectMeta) → NamespacedName → List A → Reply A
find meta n [] = err not_found
find meta n (a ∷ l) = if same_key n (key_of (meta a)) then ok a else find meta n l

abbrev remove : {A : Type 0} → (A → ObjectMeta) → NamespacedName → List A → List A
remove meta n [] = []
remove meta n (a ∷ l) = if same_key n (key_of (meta a)) then l else a ∷ remove meta n l

abbrev kept_in :
    {A : Type 0} → (A → ObjectMeta) → (World → List A) → (List A → World → World) → Store World A
kept_in meta list put = record {
  get = λ n w. (find meta n (list w), w);
  create = λ a w. (ok a, put (list w ++ a ∷ []) w);
  update = λ a w. (ok a, put (remove meta (key_of (meta a)) (list w) ++ a ∷ []) w);
  delete = λ o a w. (none, put (remove meta (key_of (meta a)) (list w)) w);
}

abbrev pub get_object : NamespacedName → Option StatefulPod → Reply StatefulPod
get_object n none = err not_found
get_object n (some sp) = if same_key n (name_of sp) then ok sp else err not_found

abbrev pub stored : StatefulPod → World → Reply StatefulPod × World
stored sp w = (ok sp, record w { object = some sp; revision = suc w.revision })

abbrev pub put_object : StatefulPod → Option StatefulPod → World → Reply StatefulPod × World
put_object sp none w = (err not_found, w)
put_object sp (some old) w =
    if same_key (name_of sp) (name_of old)
    then if sp.meta.resource_version == old.meta.resource_version
      then stored (with_version (itoa (pos w.revision)) sp) w
      else (err failure, w)
    else (err not_found, w)

abbrev pub ready_node : Node
ready_node = record {
  meta = record {
    name = "node";
    namespace = "";
    uid = "";
    resource_version = "";
    annotations = none;
    labels = [];
    finalizers = [];
    owner_references = [];
    creation_timestamp = 0;
    deletion_timestamp = none;
  };
  conditions = record { status = "True"; last_transition_time = 0 } ∷ [];
}

abbrev pub server : Env World
server = record {
  pods = kept_in pod_meta (λ w. w.pods) (λ l w. record w { pods = l });
  pvcs = kept_in pvc_meta (λ w. w.claims) (λ l w. record w { claims = l });
  pvs = kept_in pv_meta (λ w. w.volumes) (λ l w. record w { volumes = l });
  services = kept_in (λ s. s.meta) (λ w. w.services) (λ l w. record w { services = l });
  nodes = record {
    get = λ n w. (ok ready_node, w);
    create = λ n w. (ok n, w);
    update = λ n w. (ok n, w);
    delete = λ o n w. (none, w);
  };
  stateful_pods = record {
    get = λ n w. (get_object n w.object, w);
    create = λ sp w. stored sp w;
    update = λ sp w. put_object sp w.object w;
    delete = λ o sp w. (none, record w { object = none });
  };
  now = λ w. 0;
  config = record { node_timeout = pos 60; pod_timeout = pos 60 };
  rounds = 2;
}

put_object-echoes :
    (sp sp' : StatefulPod) (o : Option StatefulPod) (w w' : World)
    → put_object sp o w ≡ (ok sp', w')
    → sp' ≡ with_version sp'.meta.resource_version sp
put_object-echoes sp sp' none w w' h = absurd (ground (arith, h))
put_object-echoes sp sp' (some old) w w' h = ground (arith, h)

taken :
    (sp kept : StatefulPod) (o : Option StatefulPod) (w v : World)
    → get_object (name_of sp) o ≡ ok kept
    → (sp' : StatefulPod) × (w'' : World) × (put_object
          (with_version kept.meta.resource_version sp)
          o
          v
        ≡ (ok sp', w''))
taken sp kept none w v h = absurd (ground (arith, h))
taken sp kept (some old) w v h =
    let sent = with_version kept.meta.resource_version sp in
    let reply = stored (with_version (itoa (pos v.revision)) sent) v in
    elim (Bool-cases (same_key (name_of sp) (name_of old))) [
      | inl same ↦ (
        with_version (itoa (pos v.revision)) sent,
        reply.1,
        ground (arith, h, same, eq_refl old.meta.resource_version),
      )
      | inr other ↦ absurd (ground (arith, h, other))
    ]

refused :
    (sp : StatefulPod) (e : ApiError) (o : Option StatefulPod) (v : World)
    → get_object (name_of sp) o ≡ err e
    → (w'' : World) × (put_object sp o v ≡ (err not_found, w''))
refused sp e none v h = (v, refl)
refused sp e (some old) v h = (v, ground (arith, h))

pub server-Quiet : Quiet server
server-Quiet = record {
  echo = record { echo = λ sp sp' w w' h. put_object-echoes sp sp' w.object w w' h };
  current = record {
    current = λ sp kept w w' h. taken sp kept w'.object w w' (ground (arith, h));
    missing = λ sp e w w' h. refused sp e w'.object w' (ground (arith, h));
  };
  nodes = record {
    report = λ n node w w' h.
        (record { status = "True"; last_transition_time = 0 }, [], ground (arith, h));
  };
  rounds = omega arith;
}

find_answers :
    {A : Type 0} (meta : A → ObjectMeta) (n : NamespacedName) (l : List A)
    → find meta n l ≢ err failure
find_answers meta n [] h = absurd (ground (arith, h))
find_answers meta n (a ∷ l) h = elim (Bool-cases (same_key n (key_of (meta a)))) [
  | inl same ↦ absurd (ground (arith, h, same))
  | inr other ↦ find_answers meta n l (ground (arith, h, other))
]

pub pods_answer : (w : World) → Answers server.pods w
pods_answer w = record { no_failure = λ n. find_answers pod_meta n w.pods }

pub claims_answer : (w : World) → Answers server.pvcs w
claims_answer w = record { no_failure = λ n. find_answers pvc_meta n w.claims }
