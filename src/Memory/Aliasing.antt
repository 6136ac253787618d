-- ===== src/Memory/Aliasing.antt =====
-- The claims' entries, which `StatefulPodStatus.DeepCopyInto` does not copy: the copy's slice is the
-- original's, and what is assigned through the one shows in the other.
use iapetos.Prelude.{ℕ, String, ◌≡◌, refl, ap, true, some, List}
use iapetos.Prelude.Options.{◌>>=◌, bind-some}
use iapetos.Prelude.Slices.{modify}
use iapetos.Effect.{done}
use iapetos.Api
use iapetos.Api.{PvcPhase}
use iapetos.Controllers.Events.{DeepEqual, EventObject, update_passes}
use iapetos.Controllers.Status.{with_pvcs, set_pvc_phase}
use iapetos.Services.StatefulPod.Settling.{SameButVersion}
use iapetos.Memory.{Library, PvcStatus, StatefulPod, Memory, pvc_statuses}
use iapetos.Memory.Reading.{read_index, read_strings, read_pvc_status, read_stateful_pod}
use iapetos.Memory.DeepCopy.{copy_stateful_pod}
use iapetos.Memory.Entries.{read_stateful_pod-assigned}
use iapetos.Memory.Growth.{⊑-stateful_pod}
use iapetos.Memory.Copies.{CopiesAlike}
use iapetos.Memory.Sharing.{copied_of, assign-done}
use iapetos.Memory.Writes.{assign_pvc_phase}

abbrev pub changed : ℕ → PvcPhase → Api.StatefulPod → Api.StatefulPod
changed i phase v = with_pvcs v (modify i (set_pvc_phase phase) v.status.pvc_status_mes)

module _ {lib : Library} where
  pub read_pvc_status-set :
      (phase : PvcPhase) (m : Memory lib) (x : PvcStatus) (v : Api.PvcStatus)
      → read_pvc_status m x ≡ some v
      → read_pvc_status m (record x { status = phase }) ≡ some (set_pvc_phase phase v)
  read_pvc_status-set phase m x v e =
      let (index, ei, e') = bind-some (read_index m.ints x.index) _ v e in
      let (modes, em, e'') = bind-some (read_strings m x.access_modes) _ v e' in
      rw ei (rw em (ap (λ o. o >>= λ s. some (set_pvc_phase phase s)) e''))

-- `reflect.DeepEqual` takes what is equal for equal.
pub record IsReflexive (eq : DeepEqual) : Type 0 where
  pub templates : (a : Api.PodSpec) → eq.templates a a ≡ true
  pub finalizers : (a : List String) → eq.finalizers a a ≡ true
  pub claims : (a : List Api.PvcStatus) → eq.claims a a ≡ true

update_passes-same :
    (eq : DeepEqual) (old new : Api.StatefulPod)
    → IsReflexive eq
    → SameButVersion old new
    → update_passes eq (EventObject.stateful_pod old) (EventObject.stateful_pod new) ≡ some true
unfolding update_passes
update_passes-same eq old new reflexive same =
    rw
      (
        ap (λ s. s.spec.pod_template) same,
        ap (λ s. s.meta.finalizers) same,
        ap (λ s. s.status.pvc_status_mes) same,
        reflexive.templates old.spec.pod_template,
        reflexive.finalizers old.meta.finalizers,
        reflexive.claims old.status.pvc_status_mes,
      )
      refl

module _ {lib : Library} (copies : CopiesAlike lib) where
  -- What is assigned through the copy shows in the copy and in the original alike, and nothing else does.
  assign_pvc_phase-shows :
      (m m1 m2 : Memory lib) (sp out : StatefulPod lib) (v : Api.StatefulPod) (i : ℕ)
      (phase : PvcPhase)
      → read_stateful_pod m sp ≡ some v
      → copy_stateful_pod sp m ≡ done (out, m1)
      → assign_pvc_phase out i phase m1 ≡ done (tt, m2)
      → (read_stateful_pod m2 out ≡ some (changed i phase v))
        × (read_stateful_pod m2 sp ≡ some (changed i phase v))
  assign_pvc_phase-shows m m1 m2 sp out v i phase e run write =
      let (g, reads, fresh) = copied_of copies m m1 sp out v e run in
      let (s, es, written) = assign-done pvc_statuses out.status.pvc_status_mes i _ m1 m2 write in
      let here : sp.status.pvc_status_mes ≡ some s = rw (← fresh.same_pvcs) es in
      rw written (
        read_stateful_pod-assigned _ (set_pvc_phase phase) (read_pvc_status-set phase) m1 out s i v
            es reads,
        read_stateful_pod-assigned _ (set_pvc_phase phase) (read_pvc_status-set phase) m1 sp s i v
            here (⊑-stateful_pod g sp v e),
      )

  -- Where a phase is assigned to an entry of a claim through a deep copy of a cached `StatefulPod`, the copy
  -- and the cached object both read with that phase and as before otherwise; and when this object has
  -- been stored under a new version, the event filter lets the update event of the write through, which
  -- compares these two. It is assumed that the copies of corev1 and metav1
  -- read as what they copy and change nothing else, and that `reflect.DeepEqual` takes what is equal
  -- for equal.
  pub update_passes-shared :
      (eq : DeepEqual) (m m1 m2 : Memory lib) (cached out : StatefulPod lib)
      (v stored : Api.StatefulPod) (i : ℕ) (phase : PvcPhase)
      → IsReflexive eq
      → read_stateful_pod m cached ≡ some v
      → copy_stateful_pod cached m ≡ done (out, m1)
      → assign_pvc_phase out i phase m1 ≡ done (tt, m2)
      → SameButVersion (changed i phase v) stored
      → (read_stateful_pod m2 out ≡ some (changed i phase v))
        × (read_stateful_pod m2 cached ≡ some (changed i phase v))
        × (update_passes eq
              (EventObject.stateful_pod (changed i phase v))
              (EventObject.stateful_pod stored)
            ≡ some true)
  update_passes-shared eq m m1 m2 cached out v stored i phase reflexive e run write same =
      let (written, shown) = assign_pvc_phase-shows m m1 m2 cached out v i phase e run write in
      (written, shown, update_passes-same eq (changed i phase v) stored reflexive same)
