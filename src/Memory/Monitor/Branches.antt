-- ===== src/Memory/Monitor/Branches.antt =====
-- The branches of `MonitorPVCStatus` over the memory, by what is read there.
use iapetos.Prelude.{
  ℕ, zero, suc, [], ◌∷◌, ◌<◌, ◌≡◌, refl, sym, ap, ◌∙◌, true, false, Option, none, some, List, arith,
  ltb,
}
use iapetos.Prelude.Options.{◌>>=◌, bind-some, get_elem?-traverse}
use iapetos.Prelude.Slices.{length, get_elem?, modify, take, get_elem?-lt, get_elem?-take}
use iapetos.Effect.{done}
use iapetos.Api
use iapetos.Api.{PvcPhase, is_claim_bound, is_claim_deleting, is_create_time_out, is_being_deleted}
use iapetos.Controllers.Status.{with_pvcs, set_pvc_phase}
use iapetos.Memory.{
  Kind, Library, Slice, PodStatus, PvcStatus, StatefulPod, Memory, Region, pod_statuses,
  pvc_statuses,
}
use iapetos.Memory.Reading.{
  read_slice, read_index, read_strings, read_pod_status, read_pvc_status, read_spec, read_status,
  read_stateful_pod,
}
use iapetos.Memory.Aliasing.{read_pvc_status-set}
use iapetos.Controllers.Pvc.{bind_claim}
use iapetos.Memory.Entries.{assigned, read_stateful_pod-assigned}
use iapetos.Memory.Monitor.{len_of, set_capacity, set_pv_name, element, on_deleted, on_bound}
use iapetos.Memory.Writes.{assign}

modify-modify :
    {A : Type 0} (i : ℕ) (f g : A → A) (xs : List A)
    → modify i g (modify i f xs) ≡ modify i (λ x. g (f x)) xs
modify-modify i f g [] = refl
modify-modify zero f g (x ∷ xs) = refl
modify-modify (suc i) f g (x ∷ xs) = ap (◌∷◌ x) (modify-modify i f g xs)

abbrev capacity_read : Api.Pvc → Api.PvcStatus → Api.PvcStatus
capacity_read pvc s = record s { capacity = pvc.spec.storage_request }

abbrev pv_name_read : Api.Pvc → Api.PvcStatus → Api.PvcStatus
pv_name_read pvc s = record s { pv_name = pvc.spec.volume_name }

module _ {lib : Library} where
  set_capacity-shows :
      (pvc : Api.Pvc) (m : Memory lib) (x : PvcStatus) (v : Api.PvcStatus)
      → read_pvc_status m x ≡ some v
      → read_pvc_status m (set_capacity pvc x) ≡ some (capacity_read pvc v)
  set_capacity-shows pvc m x v e =
      let (index, ei, e') = bind-some (read_index m.ints x.index) _ v e in
      let (modes, em, e'') = bind-some (read_strings m x.access_modes) _ v e' in
      rw ei (rw em (ap (λ o. o >>= λ s. some (capacity_read pvc s)) e''))

  set_pv_name-shows :
      (pvc : Api.Pvc) (m : Memory lib) (x : PvcStatus) (v : Api.PvcStatus)
      → read_pvc_status m x ≡ some v
      → read_pvc_status m (set_pv_name pvc x) ≡ some (pv_name_read pvc v)
  set_pv_name-shows pvc m x v e =
      let (index, ei, e') = bind-some (read_index m.ints x.index) _ v e in
      let (modes, em, e'') = bind-some (read_strings m x.access_modes) _ v e' in
      rw ei (rw em (ap (λ o. o >>= λ s. some (pv_name_read pvc s)) e''))

  -- What is read of a change of an entry of a claim that is there.
  assign-reads :
      (f : PvcStatus → PvcStatus) (g : Api.PvcStatus → Api.PvcStatus)
      → ((m : Memory lib) (x : PvcStatus) (v : Api.PvcStatus)
          → read_pvc_status m x ≡ some v
          → read_pvc_status m (f x) ≡ some (g v))
      → (m : Memory lib) (sp : StatefulPod lib) (v : Api.StatefulPod) (i : ℕ)
      → read_stateful_pod m sp ≡ some v
      → i < len_of sp.status.pvc_status_mes
      → (m' : Memory lib) × (assign pvc_statuses sp.status.pvc_status_mes i f m ≡ done (tt, m'))
        × (read_stateful_pod m' sp ≡ some (with_pvcs v (modify i g v.status.pvc_status_mes)))
  unfolding assign
  assign-reads f g shows m sp v i e low = at_slice sp.status.pvc_status_mes refl
    where
      at_slice :
          (o : Option Slice)
          → sp.status.pvc_status_mes ≡ o
          → (m' : Memory lib) × (assign pvc_statuses sp.status.pvc_status_mes i f m ≡ done (tt, m'))
            × (read_stateful_pod m' sp ≡ some (with_pvcs v (modify i g v.status.pvc_status_mes)))
      at_slice none here = absurd (omega (arith, low, ap len_of here))
      at_slice (some s) here = (
        assigned f g shows m s.array i,
        (let inside : ltb i s.len ≡ true = ground (arith, low, ap len_of here) in
            rw here (rw inside refl)),
        read_stateful_pod-assigned f g shows m sp s i v here e,
      )

  -- The entry at an index of a slice, and what is read of it.
  pub element-reads :
      {A V : Type 0} (region : Region lib A) (read : A → Option V) (o : Option Slice)
      (m : Memory lib) (vs : List V) (i : ℕ)
      → read_slice (region.arrays m) read o ≡ some vs
      → i < len_of o
      → len_of o ≡ length vs
      → (x : A) × (v : V) × (element region o i m ≡ done (x, m))
        × (get_elem? vs i ≡ some v)
        × (read x ≡ some v)
  unfolding element
  element-reads region read none m vs i e low whole = absurd (omega arith)
  element-reads region read (some s) m vs i e low whole =
      let (xs, ex, e') = bind-some (get_elem? (region.arrays m) s.array) _ vs e in
      let (v, ev) = get_elem?-lt vs i (omega (arith, low, whole)) in
      let (x, at, reads) = get_elem?-traverse read i (take s.len xs) vs v e' ev in
      let there : get_elem? xs i ≡ some x = sym (get_elem?-take s.len i xs low) ∙ at in
      let inside : ltb i s.len ≡ true = ground (arith, low) in
      (x, v, rw inside (rw ex (rw there refl)), ev, reads)

  pub pvc_status-reads :
      (m : Memory lib) (x : PvcStatus) (v : Api.PvcStatus)
      → read_pvc_status m x ≡ some v
      → x.status ≡ v.status
  pvc_status-reads m x v e =
      let (index, ei, e') = bind-some (read_index m.ints x.index) _ v e in
      let (modes, em, e'') = bind-some (read_strings m x.access_modes) _ v e' in ground (arith, e'')

  pub pod_status-reads :
      (m : Memory lib) (x : PodStatus) (v : Api.PodStatus)
      → read_pod_status m x ≡ some v
      → x.status ≡ v.status
  pod_status-reads m x v e =
      let (index, ei, e') = bind-some (read_index m.ints x.index) _ v e in ground (arith, e')

  pub slices-read :
      (m : Memory lib) (sp : StatefulPod lib) (v : Api.StatefulPod)
      → read_stateful_pod m sp ≡ some v
      → (read_slice m.pod_statuses (read_pod_status m) sp.status.pod_status_mes
          ≡ some v.status.pod_status_mes)
        × (read_slice m.pvc_statuses (read_pvc_status m) sp.status.pvc_status_mes
            ≡ some v.status.pvc_status_mes)
  slices-read m sp v e =
      let (meta, em, e') = bind-some (lib.read Kind.object_meta m.library sp.object_meta) _ v e in
      let (spec, es, e'') = bind-some (read_spec m sp.spec) _ v e' in
      let (status, et, e3) = bind-some (read_status m sp.status) _ v e'' in
      let (pods, ep, e4) =
        bind-some (read_slice m.pod_statuses (read_pod_status m) sp.status.pod_status_mes) _ status
          et in
      let (pvcs, ec, e5) =
        bind-some (read_slice m.pvc_statuses (read_pvc_status m) sp.status.pvc_status_mes) _ status
          e4 in
      (ground (arith, ep, e3, e5), ground (arith, ec, e3, e5))

  -- The three assignments of the branch for a bound claim.
  pub bind-reads :
      (m : Memory lib) (sp : StatefulPod lib) (v : Api.StatefulPod) (pvc : Api.Pvc) (i : ℕ)
      (x : PvcStatus)
      → read_stateful_pod m sp ≡ some v
      → i < len_of sp.status.pvc_status_mes
      → element pvc_statuses sp.status.pvc_status_mes i m ≡ done (x, m)
      → is_claim_bound x.status ≡ false
      → (m' : Memory lib) × (on_bound sp pvc i m ≡ done (true, m'))
        × (read_stateful_pod m' sp
            ≡ some (with_pvcs v (modify i (bind_claim pvc) v.status.pvc_status_mes)))
  unfolding on_bound
  bind-reads m sp v pvc i x e low at unbound =
      let (m1, run1, e1) =
        assign-reads _ (set_pvc_phase PvcPhase.bound) (read_pvc_status-set PvcPhase.bound) m sp v i
          e low in
      let pvcs1 = modify i (set_pvc_phase PvcPhase.bound) v.status.pvc_status_mes in
      let (m2, run2, e2) =
        assign-reads (set_capacity pvc) (capacity_read pvc) (set_capacity-shows pvc) m1 sp
          (with_pvcs v pvcs1) i e1 low in
      let pvcs2 = modify i (capacity_read pvc) pvcs1 in
      let (m3, run3, e3) =
        assign-reads (set_pv_name pvc) (pv_name_read pvc) (set_pv_name-shows pvc) m2 sp
          (with_pvcs v pvcs2) i e2 low in
      let once : modify i (pv_name_read pvc) pvcs2
          ≡ modify i (bind_claim pvc) v.status.pvc_status_mes =
        ap (modify i (pv_name_read pvc)) (
          modify-modify i (set_pvc_phase PvcPhase.bound) (capacity_read pvc)
            v.status.pvc_status_mes)
        ∙ modify-modify i _ (pv_name_read pvc) v.status.pvc_status_mes in
      (m3, ground (arith, at, unbound, run1, run2, run3), e3 ∙ ap (λ l. some (with_pvcs v l)) once)

  -- The branch for a claim with a deletion timestamp, where it writes.
  pub delete-reads :
      (m : Memory lib) (sp : StatefulPod lib) (v : Api.StatefulPod) (i : ℕ) (x : PvcStatus)
      (y : PodStatus)
      → read_stateful_pod m sp ≡ some v
      → i < len_of sp.status.pvc_status_mes
      → element pvc_statuses sp.status.pvc_status_mes i m ≡ done (x, m)
      → is_claim_deleting x.status ≡ false
      → element pod_statuses sp.status.pod_status_mes i m ≡ done (y, m)
      → is_create_time_out y.status ≡ false
      → (m' : Memory lib) × (on_deleted sp i m ≡ done (true, m'))
        × (read_stateful_pod m' sp
            ≡ some
                (with_pvcs v (modify i (set_pvc_phase PvcPhase.deleting) v.status.pvc_status_mes)))
  unfolding on_deleted
  delete-reads m sp v i x y e low at still there in_time =
      let (m', run, e') =
        assign-reads _ (set_pvc_phase PvcPhase.deleting) (read_pvc_status-set PvcPhase.deleting) m
          sp v i e low in
      (m', ground (arith, at, still, there, in_time, run), e')

  -- Where no entry is written.
  pub on_deleted-already :
      (m : Memory lib) (sp : StatefulPod lib) (i : ℕ) (x : PvcStatus)
      → element pvc_statuses sp.status.pvc_status_mes i m ≡ done (x, m)
      → is_claim_deleting x.status ≡ true
      → on_deleted sp i m ≡ done (false, m)
  unfolding on_deleted
  on_deleted-already m sp i x at already = ground (arith, at, already)

  pub on_deleted-late :
      (m : Memory lib) (sp : StatefulPod lib) (i : ℕ) (x : PvcStatus) (y : PodStatus)
      → element pvc_statuses sp.status.pvc_status_mes i m ≡ done (x, m)
      → is_claim_deleting x.status ≡ false
      → element pod_statuses sp.status.pod_status_mes i m ≡ done (y, m)
      → is_create_time_out y.status ≡ true
      → on_deleted sp i m ≡ done (false, m)
  unfolding on_deleted
  on_deleted-late m sp i x y at still there late = ground (arith, at, still, there, late)

  pub on_bound-already :
      (m : Memory lib) (sp : StatefulPod lib) (pvc : Api.Pvc) (i : ℕ) (x : PvcStatus)
      → element pvc_statuses sp.status.pvc_status_mes i m ≡ done (x, m)
      → is_claim_bound x.status ≡ true
      → on_bound sp pvc i m ≡ done (false, m)
  unfolding on_bound
  on_bound-already m sp pvc i x at already = ground (arith, at, already)
