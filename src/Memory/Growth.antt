-- ===== src/Memory/Growth.antt =====
-- A memory that has grown: new cells may be there, and no old one has changed. What could be read of an
-- object then still reads the same.
use iapetos.Prelude.{ℕ, Option, none, some, List}
use iapetos.Prelude.Options.{◌⊑◌, ⊑-bind, ⊑-traverse}
use iapetos.Prelude.Slices.{get_elem?, take}
use iapetos.Memory.{
  Kind, Library, Slice, PodStatus, PvcStatus, StatefulPodSpec, StatefulPodStatus, StatefulPod,
  StatefulPodList, Memory,
}
use iapetos.Memory.Reading.{
  read_pointer, read_slice, read_index, read_strings, read_struct, read_pod_status, read_pvc_status,
  read_status, read_spec, read_stateful_pod, read_list,
}

pub record Grows {lib : Library} (m m' : Memory lib) : Type 0 where
  pub ints : (p : ℕ) → get_elem? m.ints p ⊑ get_elem? m'.ints p
  pub strings : (p : ℕ) → get_elem? m.strings p ⊑ get_elem? m'.strings p
  pub pod_statuses : (p : ℕ) → get_elem? m.pod_statuses p ⊑ get_elem? m'.pod_statuses p
  pub pvc_statuses : (p : ℕ) → get_elem? m.pvc_statuses p ⊑ get_elem? m'.pvc_statuses p
  pub stateful_pods : (p : ℕ) → get_elem? m.stateful_pods p ⊑ get_elem? m'.stateful_pods p
  pub library : (k : Kind) (x : lib.Struct k) → lib.read k m.library x ⊑ lib.read k m'.library x

pub Grows-refl : {lib : Library} (m : Memory lib) → Grows m m
Grows-refl m = record {
  ints = λ p a e. e;
  strings = λ p a e. e;
  pod_statuses = λ p a e. e;
  pvc_statuses = λ p a e. e;
  stateful_pods = λ p a e. e;
  library = λ k x a e. e;
}

pub Grows-trans : {lib : Library} {m m' m'' : Memory lib} → Grows m m' → Grows m' m'' → Grows m m''
Grows-trans g h = record {
  ints = λ p a e. h.ints p a (g.ints p a e);
  strings = λ p a e. h.strings p a (g.strings p a e);
  pod_statuses = λ p a e. h.pod_statuses p a (g.pod_statuses p a e);
  pvc_statuses = λ p a e. h.pvc_statuses p a (g.pvc_statuses p a e);
  stateful_pods = λ p a e. h.stateful_pods p a (g.stateful_pods p a e);
  library = λ k x a e. h.library k x a (g.library k x a e);
}

pub ⊑-pointer :
    {P V : Type 0} (f f' : P → Option V) (p : Option P)
    → ((x : P) → f x ⊑ f' x)
    → (read_pointer f p ⊑ read_pointer f' p)
⊑-pointer f f' none h = λ a e. e
⊑-pointer f f' (some p) h = ⊑-bind (f p) (f' p) _ _ (h p) (λ v a e. e)

pub ⊑-slice :
    {A V : Type 0} (l l' : List (List A)) (f f' : A → Option V) (s : Option Slice)
    → ((p : ℕ) → get_elem? l p ⊑ get_elem? l' p)
    → ((x : A) → f x ⊑ f' x)
    → (read_slice l f s ⊑ read_slice l' f' s)
⊑-slice l l' f f' none g h = λ a e. e
⊑-slice l l' f f' (some s) g h =
    ⊑-bind (get_elem? l s.array) (get_elem? l' s.array) _ _ (g s.array)
      (λ xs. ⊑-traverse f f' (take s.len xs) h)

module _ {lib : Library} {m m' : Memory lib} (g : Grows m m') where
  ⊑-index : (i : Option ℕ) → (read_index m.ints i ⊑ read_index m'.ints i)
  ⊑-index none = λ a e. e
  ⊑-index (some p) = g.ints p

  pub ⊑-pod_status : (s : PodStatus) → (read_pod_status m s ⊑ read_pod_status m' s)
  ⊑-pod_status s = ⊑-bind (read_index m.ints s.index) _ _ _ (⊑-index s.index) (λ i a e. e)

  ⊑-strings : (s : Option Slice) → (read_strings m s ⊑ read_strings m' s)
  ⊑-strings s = ⊑-slice m.strings m'.strings some some s g.strings (λ x a e. e)

  ⊑-pvc_status : (s : PvcStatus) → (read_pvc_status m s ⊑ read_pvc_status m' s)
  ⊑-pvc_status s =
      ⊑-bind (read_index m.ints s.index) _ _ _ (⊑-index s.index)
        (λ i. ⊑-bind (read_strings m s.access_modes) _ _ _ (⊑-strings s.access_modes) (λ l a e. e))

  pub ⊑-pvc_statuses :
      (s : Option Slice)
      → (read_slice m.pvc_statuses (read_pvc_status m) s
          ⊑ read_slice m'.pvc_statuses (read_pvc_status m') s)
  ⊑-pvc_statuses s = ⊑-slice m.pvc_statuses _ _ _ s g.pvc_statuses ⊑-pvc_status

  -- A struct whose fields are read as before but for those that are given.
  pub ⊑-status_with :
      (s : StatefulPodStatus) (pods : Option Slice)
      → (read_slice m.pod_statuses (read_pod_status m) s.pod_status_mes
          ⊑ read_slice m'.pod_statuses (read_pod_status m') pods)
      → (read_status m s ⊑ read_status m' (record s { pod_status_mes = pods }))
  ⊑-status_with s pods h =
      ⊑-bind (read_slice m.pod_statuses (read_pod_status m) s.pod_status_mes) _ _ _ h (λ pods.
        ⊑-bind (read_slice m.pvc_statuses (read_pvc_status m) s.pvc_status_mes) _ _ _
          (⊑-pvc_statuses s.pvc_status_mes) (λ pvcs a e. e))

  pub ⊑-struct : (k : Kind) (x : Option (lib.Struct k)) → (read_struct m k x ⊑ read_struct m' k x)
  ⊑-struct k x = ⊑-pointer (lib.read k m.library) (lib.read k m'.library) x (g.library k)

  pub ⊑-spec_with :
      (s : StatefulPodSpec lib) (size : Option ℕ) (pod : lib.Struct Kind.pod_spec)
      → (read_pointer (get_elem? m.ints) s.size ⊑ read_pointer (get_elem? m'.ints) size)
      → (lib.read Kind.pod_spec m.library s.pod_template ⊑ lib.read Kind.pod_spec m'.library pod)
      → (read_spec m s ⊑ read_spec m' (record s { size = size; pod_template = pod }))
  ⊑-spec_with s size pod hs hp = ⊑-bind (read_pointer (get_elem? m.ints) s.size) _ _ _ hs (λ size.
      ⊑-bind (read_struct m Kind.label_selector s.selector) _ _ _ (⊑-struct _ s.selector) (λ sel.
        ⊑-bind (read_struct m Kind.service_spec s.service_template) _ _ _
          (⊑-struct _ s.service_template)
          (λ svc. ⊑-bind (lib.read Kind.pod_spec m.library s.pod_template) _ _ _ hp (λ pod.
            ⊑-bind (read_struct m Kind.claim_spec s.pvc_template) _ _ _ (⊑-struct _ s.pvc_template)
              (λ pvc.
                ⊑-bind (read_strings m s.pv_names) _ _ _ (⊑-strings s.pv_names)
                  (λ names a e. e))))))

  pub ⊑-stateful_pod_with :
      (sp : StatefulPod lib) (meta : lib.Struct Kind.object_meta) (spec : StatefulPodSpec lib)
      (status : StatefulPodStatus)
      → (lib.read Kind.object_meta m.library sp.object_meta
          ⊑ lib.read Kind.object_meta m'.library meta)
      → (read_spec m sp.spec ⊑ read_spec m' spec)
      → (read_status m sp.status ⊑ read_status m' status)
      → (read_stateful_pod m sp
          ⊑ read_stateful_pod m' (record sp { object_meta = meta; spec = spec; status = status }))
  ⊑-stateful_pod_with sp meta spec status hm hs ht =
      ⊑-bind (lib.read Kind.object_meta m.library sp.object_meta) _ _ _ hm (λ meta.
        ⊑-bind (read_spec m sp.spec) _ _ _ hs
          (λ spec. ⊑-bind (read_status m sp.status) _ _ _ ht (λ status a e. e)))

  pub ⊑-spec : (s : StatefulPodSpec lib) → (read_spec m s ⊑ read_spec m' s)
  ⊑-spec s =
      ⊑-spec_with s s.size s.pod_template (⊑-pointer _ _ s.size g.ints)
        (g.library Kind.pod_spec s.pod_template)

  pub ⊑-status : (s : StatefulPodStatus) → (read_status m s ⊑ read_status m' s)
  ⊑-status s =
      ⊑-status_with s s.pod_status_mes
        (⊑-slice m.pod_statuses _ _ _ s.pod_status_mes g.pod_statuses ⊑-pod_status)

  pub ⊑-stateful_pod : (sp : StatefulPod lib) → (read_stateful_pod m sp ⊑ read_stateful_pod m' sp)
  ⊑-stateful_pod sp =
      ⊑-stateful_pod_with sp sp.object_meta sp.spec sp.status
        (g.library Kind.object_meta sp.object_meta) (⊑-spec sp.spec) (⊑-status sp.status)

  pub ⊑-items :
      (s : Option Slice)
      → (read_slice m.stateful_pods (read_stateful_pod m) s
          ⊑ read_slice m'.stateful_pods (read_stateful_pod m') s)
  ⊑-items s = ⊑-slice m.stateful_pods _ _ _ s g.stateful_pods ⊑-stateful_pod

  pub ⊑-list : (l : StatefulPodList lib) → (read_list m l ⊑ read_list m' l)
  ⊑-list l =
      ⊑-bind (lib.read Kind.list_meta m.library l.list_meta) _ _ _
        (g.library Kind.list_meta l.list_meta)
        (λ version.
          ⊑-bind (read_slice m.stateful_pods (read_stateful_pod m) l.items) _ _ _ (⊑-items l.items)
            (λ items a e. e))
