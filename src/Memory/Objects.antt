-- ===== src/Memory/Objects.antt =====
-- The deep copies of a `StatefulPod` and of its list, from the copies of their fields.
use iapetos.Prelude.{ℕ, ◌≤◌, ◌≡◌, refl, arith, String, Option, none, some, List, [], ◌∷◌, ◌++◌}
use iapetos.Prelude.Int.{ℤ}
use iapetos.Prelude.Options.{bind-some, bind-third, ⊑-some, ⊑-append, ⊑-length}
use iapetos.Prelude.Slices.{length, get_elem?, get_elem?-append_last}
use iapetos.Api
use iapetos.Memory.{
  Kind, Value, Library, Slice, StatefulPodSpec, StatefulPodStatus, StatefulPod, StatefulPodList,
  Memory, pod_statuses, stateful_pods,
}
use iapetos.Memory.Reading.{
  read_pointer, read_slice, read_struct, read_pod_status, read_spec, read_status, read_stateful_pod,
  read_list,
}
use iapetos.Memory.DeepCopy.{
  copy_int, copy_struct, copy_pod_status, copy_slice, copy_spec, copy_status, copy_stateful_pod,
  copy_stateful_pod_list,
}
use iapetos.Memory.Growth.{
  Grows, Grows-refl, Grows-trans, ⊑-pointer, ⊑-pod_status, ⊑-spec, ⊑-spec_with, ⊑-status,
  ⊑-status_with, ⊑-stateful_pod, ⊑-items, ⊑-stateful_pod_with,
}
use iapetos.Memory.Copies.{
  CopiesAlike, Copied, IsNew, IsNewArray, Grows-int, copy_int-done, copy_pod_status-Copied,
  IsRegion, copy_slice-Copied,
}

IsNew-le : (n k : ℕ) (p : Option ℕ) → n ≤ k → IsNew k p → IsNew n p
IsNew-le n k none h e = tt
IsNew-le n k (some p) h e = omega arith

IsNewArray-le : (n k : ℕ) (s : Option Slice) → n ≤ k → IsNewArray k s → IsNewArray n s
IsNewArray-le n k none h e = tt
IsNewArray-le n k (some s) h e = omega arith

-- Which pointers of a copy are new since a memory, and which are those of the original.
pub record SpecFresh {lib : Library} (m : Memory lib) (s out : StatefulPodSpec lib) : Type 0 where
  pub new_size : IsNew (length m.ints) out.size
  pub same_selector : out.selector ≡ s.selector
  pub same_service_template : out.service_template ≡ s.service_template
  pub same_pvc_template : out.pvc_template ≡ s.pvc_template
  pub same_pv_names : out.pv_names ≡ s.pv_names

SpecFresh-Grows :
    {lib : Library} (m m' : Memory lib) (s out : StatefulPodSpec lib)
    → Grows m m'
    → SpecFresh m' s out
    → SpecFresh m s out
SpecFresh-Grows m m' s out g h = record {
  new_size = IsNew-le _ _ out.size (⊑-length m.ints m'.ints g.ints) h.new_size;
  same_selector = h.same_selector;
  same_service_template = h.same_service_template;
  same_pvc_template = h.same_pvc_template;
  same_pv_names = h.same_pv_names;
}

pub record IsFresh {lib : Library} (m : Memory lib) (sp out : StatefulPod lib) : Type 0 where
  pub same_type : out.type_meta ≡ sp.type_meta
  pub spec : SpecFresh m sp.spec out.spec
  pub new_pods : IsNewArray (length m.pod_statuses) out.status.pod_status_mes
  pub same_pvcs : out.status.pvc_status_mes ≡ sp.status.pvc_status_mes

module _ {lib : Library} (copies : CopiesAlike lib) where
  copy_struct-Copied :
      (k : Kind) (m : Memory lib) (x : lib.Struct k) (v : Value k)
      → lib.read k m.library x ≡ some v
      → Copied (λ m. lib.read k m.library) m v (copy_struct k x m)
  unfolding copy_struct
  copy_struct-Copied k m x v e = record {
    out = (lib.copy k x m.library).0;
    after = record m { library = (lib.copy k x m.library).1 };
    runs = refl;
    grows = record {
      ints = λ p a e. e;
      strings = λ p a e. e;
      pod_statuses = λ p a e. e;
      pvc_statuses = λ p a e. e;
      stateful_pods = λ p a e. e;
      library = λ j y. copies.keeps j k y x m.library;
    };
    reads = copies.alike k x m.library v e;
  }

  copy_size-Copied :
      (m : Memory lib) (p : Option ℕ) (v : Option ℤ)
      → read_pointer (get_elem? m.ints) p ≡ some v
      → (c : Copied (λ m. read_pointer (get_elem? m.ints)) m v (copy_int p m)) × IsNew
          (length m.ints)
          c.out
  unfolding copy_int
  copy_size-Copied m none v e =
      (record { out = none; after = m; runs = refl; grows = Grows-refl m; reads = e }, tt)
  copy_size-Copied m (some p) v e =
      let (z, ez, ev) = bind-some (get_elem? m.ints p) _ v e in
      (
        record {
          out = some (length m.ints);
          after = record m { ints = m.ints ++ z ∷ [] };
          runs = copy_int-done m p z ez;
          grows = Grows-int m (z ∷ []);
          reads = rw (get_elem?-append_last m.ints z) ev;
        },
        omega arith,
      )

  copy_spec-Copied :
      (m : Memory lib) (s : StatefulPodSpec lib) (v : Api.StatefulPodSpec)
      → read_spec m s ≡ some v
      → (c : Copied read_spec m v (copy_spec s m)) × SpecFresh m s c.out
  unfolding copy_spec
  copy_spec-Copied m s v e =
      let (size, es, e') = bind-some (read_pointer (get_elem? m.ints) s.size) _ v e in
      let (_, _, (pod, ep)) =
        bind-third (read_struct m Kind.label_selector s.selector)
          (read_struct m Kind.service_spec s.service_template)
          (lib.read Kind.pod_spec m.library s.pod_template) _ v e' in
      let (c, new) = copy_size-Copied m s.size size es in
      let d =
        copy_struct-Copied Kind.pod_spec c.after s.pod_template pod
          (c.grows.library Kind.pod_spec s.pod_template pod ep) in
      let g = Grows-trans c.grows d.grows in
      let sized = ⊑-pointer _ _ c.out d.grows.ints size c.reads in
      (
        record {
          out = record s { size = c.out; pod_template = d.out };
          after = d.after;
          runs = rw (c.runs, d.runs) refl;
          grows = g;
          reads =
              ⊑-spec_with g s c.out d.out (⊑-some _ _ size es sized) (⊑-some _ _ pod ep d.reads) v
                e;
        },
        record {
          new_size = new;
          same_selector = refl;
          same_service_template = refl;
          same_pvc_template = refl;
          same_pv_names = refl;
        },
      )

  pod_statuses-IsRegion : IsRegion {lib = lib} pod_statuses
  pod_statuses-IsRegion = record {
    puts = λ l m. refl;
    grows = λ l m. record {
      ints = λ p a e. e;
      strings = λ p a e. e;
      pod_statuses = ⊑-append m.pod_statuses l;
      pvc_statuses = λ p a e. e;
      stateful_pods = λ p a e. e;
      library = λ k x a e. e;
    };
    stays = λ m m' g. g.pod_statuses;
  }

  copy_pods-Copied :
      (m : Memory lib) (s : Option Slice) (v : List Api.PodStatus)
      → read_slice m.pod_statuses (read_pod_status m) s ≡ some v
      → (c : Copied
          (λ m. read_slice m.pod_statuses (read_pod_status m))
          m
          v
          (copy_slice copy_pod_status pod_statuses s m))
        × IsNewArray (length m.pod_statuses) c.out
  copy_pods-Copied m s v e =
      copy_slice-Copied read_pod_status copy_pod_status copy_pod_status-Copied
        (λ m m' g. ⊑-pod_status g) pod_statuses pod_statuses-IsRegion m s v e

  copy_status-Copied :
      (m : Memory lib) (s : StatefulPodStatus) (v : Api.StatefulPodStatus)
      → read_status m s ≡ some v
      → (c : Copied read_status m v (copy_status s m)) × IsNewArray
          (length m.pod_statuses)
          c.out.pod_status_mes
        × (c.out.pvc_status_mes ≡ s.pvc_status_mes)
  unfolding copy_status
  copy_status-Copied m s v e =
      let (pods, ep, _) =
        bind-some (read_slice m.pod_statuses (read_pod_status m) s.pod_status_mes) _ v e in
      let (c, new) = copy_pods-Copied m s.pod_status_mes pods ep in
      (
        record {
          out = record s { pod_status_mes = c.out };
          after = c.after;
          runs = rw c.runs refl;
          grows = c.grows;
          reads = ⊑-status_with c.grows s c.out (⊑-some _ _ pods ep c.reads) v e;
        },
        new,
        refl,
      )

  pub copy_stateful_pod-Copied :
      (m : Memory lib) (sp : StatefulPod lib) (v : Api.StatefulPod)
      → read_stateful_pod m sp ≡ some v
      → (c : Copied read_stateful_pod m v (copy_stateful_pod sp m)) × IsFresh m sp c.out
  unfolding copy_stateful_pod
  copy_stateful_pod-Copied m sp v e =
      let ((meta, em), (spec, es), (status, et)) =
        bind-third (lib.read Kind.object_meta m.library sp.object_meta) (read_spec m sp.spec)
          (read_status m sp.status) _ v e in
      let a = copy_struct-Copied Kind.object_meta m sp.object_meta meta em in
      let (b, own) = copy_spec-Copied a.after sp.spec spec (⊑-spec a.grows sp.spec spec es) in
      let g = Grows-trans a.grows b.grows in
      let (c, new, same) =
        copy_status-Copied b.after sp.status status (⊑-status g sp.status status et) in
      let after_meta = Grows-trans b.grows c.grows in
      let end = Grows-trans a.grows after_meta in
      (
        record {
          out = record sp { object_meta = a.out; spec = b.out; status = c.out };
          after = c.after;
          runs = rw (a.runs, b.runs, c.runs) refl;
          grows = end;
          reads =
              ⊑-stateful_pod_with end sp a.out b.out c.out
                (⊑-some _ _ meta em (after_meta.library Kind.object_meta a.out meta a.reads))
                (⊑-some _ _ spec es (⊑-spec c.grows b.out spec b.reads))
                (⊑-some _ _ status et c.reads) v e;
        },
        record {
          same_type = refl;
          spec = SpecFresh-Grows m a.after sp.spec b.out a.grows own;
          new_pods =
              IsNewArray-le _ _ _ (⊑-length m.pod_statuses b.after.pod_statuses g.pod_statuses) new;
          same_pvcs = same;
        },
      )

  stateful_pods-IsRegion : IsRegion {lib = lib} stateful_pods
  stateful_pods-IsRegion = record {
    puts = λ l m. refl;
    grows = λ l m. record {
      ints = λ p a e. e;
      strings = λ p a e. e;
      pod_statuses = λ p a e. e;
      pvc_statuses = λ p a e. e;
      stateful_pods = ⊑-append m.stateful_pods l;
      library = λ k x a e. e;
    };
    stays = λ m m' g. g.stateful_pods;
  }

  pub copy_items-Copied :
      (m : Memory lib) (s : Option Slice) (v : List Api.StatefulPod)
      → read_slice m.stateful_pods (read_stateful_pod m) s ≡ some v
      → (c : Copied
          (λ m. read_slice m.stateful_pods (read_stateful_pod m))
          m
          v
          (copy_slice copy_stateful_pod stateful_pods s m))
        × IsNewArray (length m.stateful_pods) c.out
  copy_items-Copied m s v e =
      copy_slice-Copied read_stateful_pod copy_stateful_pod
        (λ m x v e. (copy_stateful_pod-Copied m x v e).0) (λ m m' g. ⊑-stateful_pod g) stateful_pods
        stateful_pods-IsRegion m s v e

  pub copy_list-Copied :
      (m : Memory lib) (l : StatefulPodList lib) (v : String × List Api.StatefulPod)
      → read_list m l ≡ some v
      → (c : Copied read_list m v (copy_stateful_pod_list l m)) × (c.out.type_meta ≡ l.type_meta)
        × IsNewArray (length m.stateful_pods) c.out.items
  unfolding copy_stateful_pod_list
  copy_list-Copied m l v e =
      let (meta, em, e') = bind-some (lib.read Kind.list_meta m.library l.list_meta) _ v e in
      let (items, ei, same) =
        bind-some (read_slice m.stateful_pods (read_stateful_pod m) l.items) _ v e' in
      let a = copy_struct-Copied Kind.list_meta m l.list_meta meta em in
      let (b, new) = copy_items-Copied a.after l.items items (⊑-items a.grows l.items items ei) in
      (
        record {
          out = record l { list_meta = a.out; items = b.out };
          after = b.after;
          runs = rw (a.runs, b.runs) refl;
          grows = Grows-trans a.grows b.grows;
          reads = rw (b.grows.library Kind.list_meta a.out meta a.reads) (rw b.reads same);
        },
        refl,
        IsNewArray-le _ _ b.out
            (⊑-length m.stateful_pods a.after.stateful_pods a.grows.stateful_pods) new,
      )
