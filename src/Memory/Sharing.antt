-- ===== src/Memory/Sharing.antt =====
-- Which writes through a deep copy the original does not see, and which it does.
use iapetos.Prelude.{
  ℕ, ◌≤◌, ◌≡◌, ◌≢◌, refl, inl, inr, String, Option, none, some, List, ltb, arith, Bool-cases,
}
use iapetos.Prelude.Slices.{length, modify, lt_of_get_elem?, get_elem?-modify_ne}
use iapetos.Effect.{Outcome, done}
use iapetos.Api
use iapetos.Api.{PodPhase, PvcPhase}
use iapetos.Memory.{
  Library, Slice, PodStatus, StatefulPod, StatefulPodList, Memory, Region, pod_statuses,
}
use iapetos.Memory.Reading.{read_stateful_pod, read_list}
use iapetos.Memory.DeepCopy.{
  Object, copy_stateful_pod, deep_copy, deep_copy_object, stateful_pod_object,
  stateful_pod_list_object,
}
use iapetos.Memory.Growth.{Grows, ⊑-stateful_pod, ⊑-list}
use iapetos.Memory.Copies.{CopiesAlike, IsNewArray}
use iapetos.Memory.Objects.{IsFresh, copy_stateful_pod-Copied, copy_list-Copied}
use iapetos.Memory.Writes.{assign, assign_pod_phase}

done-injective :
    {A W : Type 0} (a b : A) (w v : W) (o : Outcome (A × W))
    → o ≡ done (a, w)
    → o ≡ done (b, v)
    → (a ≡ b) × (w ≡ v)
done-injective a b w v o e h = (ground (arith, e, h), ground (arith, e, h))

-- What an assignment that did not panic has done.
pub assign-done :
    {lib : Library} {A : Type 0} (region : Region lib A) (s : Option Slice) (i : ℕ) (f : A → A)
    (m m2 : Memory lib)
    → assign region s i f m ≡ done (tt, m2)
    → (t : Slice) × (s ≡ some t)
      × (m2 ≡ region.put (modify t.array (modify i f) (region.arrays m)) m)
unfolding assign
assign-done region none i f m m2 h = absurd (ground (arith, h))
assign-done region (some t) i f m m2 h = elim (Bool-cases (ltb i t.len)) [
  | inl low ↦ (t, refl, ground (arith, h, low))
  | inr past ↦ absurd (ground (arith, h, past))
]

-- The result of `DeepCopyObject`: an object that reads as the receiver did, and the receiver still does.
pub record IsObjectCopy {lib : Library} {A V : Type 0} (read : Memory lib → A → Option V)
    (object : A → Object lib) (x : A) (v : V) (o : Outcome (Option (Object lib) × Memory lib))
    : Type 0 where
  pub out : A
  pub after : Memory lib
  pub runs : o ≡ done (some (object out), after)
  pub reads : read after out ≡ some v
  pub original : read after x ≡ some v

module _ {lib : Library} (copies : CopiesAlike lib) where
  -- `DeepCopyObject` of a `StatefulPod` that can be read returns an object of the same kind that reads
  -- the same, and leaves the original so, if the copies of corev1 and metav1 do. The copy has its size
  -- at a new address and its entries of pods in a new array; the pointers to its selector, its
  -- templates of service and claim and its volume names, and its entries of claims, are the original's.
  pub stateful_pod_object-IsObjectCopy :
      (m : Memory lib) (sp : StatefulPod lib) (v : Api.StatefulPod)
      → read_stateful_pod m sp ≡ some v
      → (c : IsObjectCopy read_stateful_pod Object.stateful_pod sp v
          (stateful_pod_object (some sp) m))
        × IsFresh m sp c.out
  unfolding deep_copy_object deep_copy
  stateful_pod_object-IsObjectCopy m sp v e =
      let (c, fresh) = copy_stateful_pod-Copied copies m sp v e in
      (
        record {
          out = c.out;
          after = c.after;
          runs = rw c.runs refl;
          reads = c.reads;
          original = ⊑-stateful_pod c.grows sp v e;
        },
        fresh,
      )

  -- `DeepCopyObject` of a list that can be read, the items of its array included, returns a list that
  -- reads the same, with copies of the items in an array of its own, and leaves the original so, if the
  -- copies of corev1 and metav1 do.
  pub stateful_pod_list_object-copies :
      (m : Memory lib) (l : StatefulPodList lib) (v : String × List Api.StatefulPod)
      → read_list m l ≡ some v
      → (c : IsObjectCopy read_list Object.stateful_pod_list l v
          (stateful_pod_list_object (some l) m))
        × IsNewArray (length m.stateful_pods) c.out.items
  unfolding deep_copy_object deep_copy
  stateful_pod_list_object-copies m l v e =
      let (c, _, new) = copy_list-Copied copies m l v e in
      (
        record {
          out = c.out;
          after = c.after;
          runs = rw c.runs refl;
          reads = c.reads;
          original = ⊑-list c.grows l v e;
        },
        new,
      )

  -- What is known of a copy that was made.
  pub copied_of :
      (m m1 : Memory lib) (sp out : StatefulPod lib) (v : Api.StatefulPod)
      → read_stateful_pod m sp ≡ some v
      → copy_stateful_pod sp m ≡ done (out, m1)
      → Grows m m1 × (read_stateful_pod m1 out ≡ some v) × IsFresh m sp out
  copied_of m m1 sp out v e run =
      let (c, fresh) = copy_stateful_pod-Copied copies m sp v e in
      let (eo, em) = done-injective out c.out m1 c.after (copy_stateful_pod sp m) run c.runs in
      rw (eo, em) (c.grows, c.reads, fresh)

  Grows-assigned :
      (m m1 : Memory lib) (p : ℕ) (f : List PodStatus → List PodStatus)
      → Grows m m1
      → length m.pod_statuses ≤ p
      → Grows m (record m1 { pod_statuses = modify p f m1.pod_statuses })
  Grows-assigned m m1 p f g h = record {
    ints = g.ints;
    strings = g.strings;
    pod_statuses = λ q a e.
        let apart : p ≢ q =
          λ same. absurd (omega (arith, same, lt_of_get_elem? m.pod_statuses q e)) in
        rw (get_elem?-modify_ne p q f m1.pod_statuses apart) (g.pod_statuses q a e);
    pvc_statuses = g.pvc_statuses;
    stateful_pods = g.stateful_pods;
    library = g.library;
  }

  -- A phase that is assigned to an entry of a pod through a deep copy of a `StatefulPod` does not show
  -- in the original, if the copies of corev1 and metav1 read as what they copy and change nothing else.
  pub assign_pod_phase-leaves :
      (m m1 m2 : Memory lib) (sp out : StatefulPod lib) (v : Api.StatefulPod) (i : ℕ)
      (phase : PodPhase)
      → read_stateful_pod m sp ≡ some v
      → copy_stateful_pod sp m ≡ done (out, m1)
      → assign_pod_phase out i phase m1 ≡ done (tt, m2)
      → read_stateful_pod m2 sp ≡ some v
  assign_pod_phase-leaves m m1 m2 sp out v i phase e run write =
      let (g, _, fresh) = copied_of m m1 sp out v e run in
      let (s, es, written) = assign-done pod_statuses out.status.pod_status_mes i _ m1 m2 write in
      let new : length m.pod_statuses ≤ s.array = ground (arith, fresh.new_pods, es) in
      rw written (⊑-stateful_pod (Grows-assigned m m1 s.array _ g new) sp v e)
