-- ===== src/Memory/Entries.antt =====
-- A change of an entry of a claim in memory, as a reader of the `StatefulPod` sees it.
use iapetos.Prelude.{ℕ, ◌≡◌, ap, Option, none, some, List, arith}
use iapetos.Prelude.Options.{◌>>=◌, bind-some, traverse-modify}
use iapetos.Prelude.Slices.{get_elem?, modify, take, take-modify, get_elem?-modify_self}
use iapetos.Api
use iapetos.Controllers.Status.{with_pvcs}
use iapetos.Memory.{Kind, Library, Slice, PvcStatus, StatefulPodStatus, StatefulPod, Memory}
use iapetos.Memory.Reading.{
  read_slice, read_pod_status, read_pvc_status, read_spec, read_status, read_stateful_pod,
}

-- `f` changes an entry, and the reader sees the change `g`.
module _ {lib : Library} (f : PvcStatus → PvcStatus) (g : Api.PvcStatus → Api.PvcStatus)
    (shows : (m : Memory lib) (x : PvcStatus) (v : Api.PvcStatus)
      → read_pvc_status m x ≡ some v
      → read_pvc_status m (f x) ≡ some (g v)) where
  abbrev changed_status : ℕ → Api.StatefulPodStatus → Api.StatefulPodStatus
  changed_status i s = record s { pvc_status_mes = modify i g s.pvc_status_mes }

  abbrev pub assigned : Memory lib → ℕ → ℕ → Memory lib
  assigned m a i = record m { pvc_statuses = modify a (modify i f) m.pvc_statuses }

  read_pvcs-assigned :
      (m : Memory lib) (o : Option Slice) (s : Slice) (i : ℕ) (vs : List Api.PvcStatus)
      → o ≡ some s
      → read_slice m.pvc_statuses (read_pvc_status m) o ≡ some vs
      → read_slice (modify s.array (modify i f) m.pvc_statuses) (read_pvc_status m) o
        ≡ some (modify i g vs)
  read_pvcs-assigned m none s i vs here e = cc
  read_pvcs-assigned m (some t) s i vs here e =
      let (xs, ex, e') = bind-some (get_elem? m.pvc_statuses t.array) _ vs e in
      let same : s ≡ t = ground (arith, here) in
      rw (ap (λ s. s.array) same) (
        rw (get_elem?-modify_self t.array (modify i f) m.pvc_statuses ex) (
          rw (take-modify t.len i f xs)
            (traverse-modify (read_pvc_status m) f g i (take t.len xs) vs (shows m) e')))

  read_status-assigned :
      (m : Memory lib) (st : StatefulPodStatus) (s : Slice) (i : ℕ) (v : Api.StatefulPodStatus)
      → st.pvc_status_mes ≡ some s
      → read_status m st ≡ some v
      → read_status (assigned m s.array i) st ≡ some (changed_status i v)
  read_status-assigned m st s i v here e =
      let (pods, ep, e') =
        bind-some (read_slice m.pod_statuses (read_pod_status m) st.pod_status_mes) _ v e in
      let (pvcs, ec, e'') =
        bind-some (read_slice m.pvc_statuses (read_pvc_status m) st.pvc_status_mes) _ v e' in
      rw ep (
        rw (read_pvcs-assigned m st.pvc_status_mes s i pvcs here ec)
          (ap (λ o. o >>= λ t. some (changed_status i t)) e''))

  pub read_stateful_pod-assigned :
      (m : Memory lib) (sp : StatefulPod lib) (s : Slice) (i : ℕ) (v : Api.StatefulPod)
      → sp.status.pvc_status_mes ≡ some s
      → read_stateful_pod m sp ≡ some v
      → read_stateful_pod (assigned m s.array i) sp
        ≡ some (with_pvcs v (modify i g v.status.pvc_status_mes))
  read_stateful_pod-assigned m sp s i v here e =
      let (meta, em, e') = bind-some (lib.read Kind.object_meta m.library sp.object_meta) _ v e in
      let (spec, es, e'') = bind-some (read_spec m sp.spec) _ v e' in
      let (status, et, e3) = bind-some (read_status m sp.status) _ v e'' in
      rw em (
        rw es (
          rw (read_status-assigned m sp.status s i status here et)
            (ap (λ o. o >>= λ t. some (with_pvcs t (modify i g t.status.pvc_status_mes))) e3)))
