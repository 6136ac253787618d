-- ===== src/Controllers/Routing.antt =====
-- How the event of a child finds its way back to its `StatefulPod`: the annotations that
-- services/pod/pod.go and services/pvc/pvc.go write, read by controllers/eventhandler.go and by the
-- monitors of controllers/statefulpod/stateful_pod.go.
use iapetos.Prelude.{
  ℕ, String, ◌≤◌, ◌≡◌, refl, inl, inr, true, some, [], ◌∷◌, ◌++◌, arith, Option-cases, ◌∙◌,
}
use iapetos.Prelude.Int.{pos}
use iapetos.Prelude.Maps.{
  StringMap, lookup, insert, value_at, or_empty, lookup-insert, lookup-insert_self,
}
use iapetos.Api.{Pod, PvcSpec, ObjectMeta, StatefulPod, group_version}
use iapetos.Controllers.Events.{EventObject, Queue, is_marked, request_of, on_create}
use iapetos.Services.Pod
use iapetos.Services.Pvc
use iapetos.Text.{itoa, max_int}
use iapetos.Text.RoundTrip.{atoi-itoa_pos}
use iapetos.Tools.{string_to_int}

-- `StringToInt` reads back what `strconv.Itoa` has printed of a number that fits an `int`.
string_to_int-itoa : (n : ℕ) → n ≤ max_int → string_to_int (itoa (pos n)) ≡ pos n
unfolding string_to_int
string_to_int-itoa = atoi-itoa_pos

-- What a child's metadata says: its event is put in the queue, and the monitor reads the parent and
-- the index from it.
pub record LeadsTo (m : ObjectMeta) (sp : StatefulPod) (index : ℕ) : Type 0 where
  pub marked : is_marked m ≡ true
  pub parent : value_at "parentName" (or_empty m.annotations) ≡ sp.meta.name
  pub space : m.namespace ≡ sp.meta.namespace
  pub numbered : string_to_int (value_at "index" (or_empty m.annotations)) ≡ pos index

annotated :
    (sp : StatefulPod) (index : ℕ) (m : ObjectMeta) (old : StringMap)
    → index ≤ max_int
    → m.annotations ≡ some (Pod.annotate sp (pos index) old)
    → m.namespace ≡ sp.meta.namespace
    → LeadsTo m sp index
unfolding Pod.annotate
annotated sp index m old fits e ns =
    let with_mark = insert group_version "true" old in
    let with_parent = insert "parentName" sp.meta.name with_mark in
    let all = insert "index" (itoa (pos index)) with_parent in
    let mark : lookup group_version all ≡ some "true" =
      lookup-insert "index" group_version _ with_parent
      ∙ lookup-insert "parentName" group_version _ with_mark
      ∙ lookup-insert_self group_version "true" old in
    let parent : lookup "parentName" all ≡ some sp.meta.name =
      lookup-insert "index" "parentName" _ with_parent
      ∙ lookup-insert_self "parentName" sp.meta.name with_mark in
    let number : lookup "index" all ≡ some (itoa (pos index)) =
      lookup-insert_self "index" (itoa (pos index)) with_parent in
    record {
      marked = ground (arith, e, mark);
      parent = ground (arith, e, parent);
      space = ns;
      numbered = ground (arith, e, number, string_to_int-itoa index fits);
    }

-- A claim that `CreateTemplate` makes leads to its `StatefulPod` and its index.
claim_of-LeadsTo :
    (sp : StatefulPod) (name : String) (index : ℕ) (spec : PvcSpec)
    → index ≤ max_int
    → LeadsTo (Pvc.claim_of sp name index spec).meta sp index
unfolding lookup
claim_of-LeadsTo sp name index spec fits = record {
  marked = refl;
  parent = refl;
  space = refl;
  numbered = string_to_int-itoa index fits;
}

-- A pod that `CreateTemplate` makes has the name asked for and leads to its `StatefulPod` and its index.
pub create_template-LeadsTo :
    (sp sp' : StatefulPod) (name : String) (index : ℕ) (pod : Pod)
    → index ≤ max_int
    → Pod.create_template sp name (pos index) ≡ some (pod, sp')
    → (pod.meta.name ≡ name) × LeadsTo pod.meta sp index
unfolding Pod.create_template Pod.set_labels Pod.add_annotations Pod.set_pvc
create_template-LeadsTo sp sp' name index pod fits h =
    let made = Pod.add_annotations sp (Pod.bare_pod sp name) (pos index) in
    elim (Option-cases (Pod.set_pvc made.1 made.0 (pos index))) [
      | inl e ↦ absurd (ground (arith, h, e))
      | inr ((claimed, sp2), e) ↦ (
        ground (arith, h, e),
        annotated sp index pod.meta (or_empty sp.meta.annotations) fits (ground (arith, h, e))
            (ground (arith, h, e)),
      )
    ]

-- The creation event of a pod that `CreateTemplate` makes, of an index that fits an `int`, puts one
-- request in the queue, at its end: the pod's name in the namespace of its `StatefulPod`.
create_template-queued :
    (sp sp' : StatefulPod) (name : String) (index : ℕ) (pod : Pod) (q : Queue)
    → index ≤ max_int
    → Pod.create_template sp name (pos index) ≡ some (pod, sp')
    → on_create (record { has_meta = true; object = EventObject.pod pod }) q
      ≡ q ++ record { namespace = sp.meta.namespace; name = name } ∷ []
unfolding on_create
create_template-queued sp sp' name index pod q fits h =
    let (named, leads) = create_template-LeadsTo sp sp' name index pod fits h in
    let key : request_of pod.meta ≡ record { namespace = sp.meta.namespace; name = name } =
      ground (arith, named, leads.space) in
    ground (arith, leads.marked, key)
