-- ===== src/Memory/Copies.antt =====
-- What the deep copies of api/v1/zz_generated.deepcopy.go give: for each type, a copy that reads the same.
use iapetos.Prelude.{ℕ, ◌≤◌, ◌≡◌, refl, Option, none, some, List, [], ◌∷◌, ◌++◌}
use iapetos.Prelude.Int.{ℤ}
use iapetos.Prelude.Options.{◌⊑◌, traverse, bind-some, ⊑-traverse, ⊑-append, ⊑-length}
use iapetos.Prelude.Slices.{length, get_elem?, take, get_elem?-append_last, take-length}
use iapetos.Effect.{Outcome, done, M}
use iapetos.Memory.{Kind, Library, Slice, PodStatus, Memory, Region}
use iapetos.Memory.Reading.{read_slice, read_index, read_pod_status}
use iapetos.Memory.DeepCopy.{copy_int, copy_all, copy_slice, copy_pod_status}
use iapetos.Memory.Growth.{Grows, Grows-refl, Grows-trans}

-- `DeepCopyInto` of corev1 and metav1: the copy reads the same, and what could be read before still can.
pub record CopiesAlike (lib : Library) : Type 0 where
  pub alike :
      (k : Kind) (x : lib.Struct k) (h : lib.Heap)
      → (lib.read k h x ⊑ lib.read k (lib.copy k x h).1 (lib.copy k x h).0)
  pub keeps :
      (j k : Kind) (y : lib.Struct j) (x : lib.Struct k) (h : lib.Heap)
      → (lib.read j h y ⊑ lib.read j (lib.copy k x h).1 y)

-- A copy that was made in a memory: the run has returned, the memory has grown, and the copy reads as `v`.
pub record Copied {lib : Library} {A V : Type 0} (read : Memory lib → A → Option V) (m : Memory lib)
    (v : V) (o : Outcome (A × Memory lib)) : Type 0 where
  pub out : A
  pub after : Memory lib
  pub runs : o ≡ done (out, after)
  pub grows : Grows m after
  pub reads : read after out ≡ some v

-- An address, or an array, that was not there when there were `n`.
abbrev pub IsNew : ℕ → Option ℕ → Type 0
IsNew n none = Unit
IsNew n (some p) = n ≤ p

abbrev pub IsNewArray : ℕ → Option Slice → Type 0
IsNewArray n none = Unit
IsNewArray n (some s) = n ≤ s.array

-- A region of the memory holds what is put there, and may grow.
pub record IsRegion {lib : Library} {A : Type 0} (region : Region lib A) : Type 0 where
  pub puts : (l : List (List A)) (m : Memory lib) → region.arrays (region.put l m) ≡ l
  pub grows : (l : List (List A)) (m : Memory lib) → Grows m (region.put (region.arrays m ++ l) m)
  pub stays :
      (m m' : Memory lib)
      → Grows m m'
      → (p : ℕ) → get_elem? (region.arrays m) p ⊑ get_elem? (region.arrays m') p

module _ {lib : Library} where
  pub Grows-int : (m : Memory lib) (l : List ℤ) → Grows m (record m { ints = m.ints ++ l })
  Grows-int m l = record {
    ints = ⊑-append m.ints l;
    strings = λ p a e. e;
    pod_statuses = λ p a e. e;
    pvc_statuses = λ p a e. e;
    stateful_pods = λ p a e. e;
    library = λ k x a e. e;
  }

  pub copy_int-done :
      (m : Memory lib) (p : ℕ) (v : ℤ)
      → get_elem? m.ints p ≡ some v
      → copy_int (some p) m ≡ done (some (length m.ints), record m { ints = m.ints ++ v ∷ [] })
  unfolding copy_int
  copy_int-done m p v e = rw e refl

  copy_index-Copied :
      (m : Memory lib) (i : Option ℕ) (v : ℤ)
      → read_index m.ints i ≡ some v
      → Copied (λ m. read_index m.ints) m v (copy_int i m)
  copy_index-Copied m none v e = cc
  copy_index-Copied m (some p) v e = record {
    out = some (length m.ints);
    after = record m { ints = m.ints ++ v ∷ [] };
    runs = copy_int-done m p v e;
    grows = Grows-int m (v ∷ []);
    reads = get_elem?-append_last m.ints v;
  }

  pub copy_pod_status-Copied :
      (m : Memory lib) (s : PodStatus) (v : _)
      → read_pod_status m s ≡ some v
      → Copied read_pod_status m v (copy_pod_status s m)
  unfolding copy_pod_status
  copy_pod_status-Copied m s v e =
      let (i, ei, es) = bind-some (read_index m.ints s.index) _ v e in
      let c = copy_index-Copied m s.index i ei in
      record {
        out = record s { index = c.out };
        after = c.after;
        runs = rw c.runs refl;
        grows = c.grows;
        reads = rw c.reads es;
      }

  -- Over the elements of a slice, with what is known of one.
  module _ {A V : Type 0} (read : Memory lib → A → Option V) (copy : A → M (Memory lib) A)
      (copied : (m : Memory lib) (x : A) (v : V) → read m x ≡ some v → Copied read m v (copy x m))
      (still : (m m' : Memory lib) → Grows m m' → (x : A) → read m x ⊑ read m' x) where
    copy_all-Copied :
        (m : Memory lib) (xs : List A) (vs : List V)
        → traverse (read m) xs ≡ some vs
        → Copied (λ m. traverse (read m)) m vs (copy_all copy xs m)
    unfolding copy_all
    copy_all-Copied m [] vs e = record {
      out = [];
      after = m;
      runs = refl;
      grows = Grows-refl m;
      reads = e;
    }
    copy_all-Copied m (x ∷ xs) vs e =
        let (v, ev, e') = bind-some (read m x) _ vs e in
        let (ws, ews, evs) = bind-some (traverse (read m) xs) _ vs e' in
        let c = copied m x v ev in
        let d =
          copy_all-Copied c.after xs ws
            (⊑-traverse (read m) (read c.after) xs (still m c.after c.grows) ws ews) in
        record {
          out = c.out ∷ d.out;
          after = d.after;
          runs = rw (c.runs, d.runs) refl;
          grows = Grows-trans c.grows d.grows;
          reads = rw (still c.after d.after d.grows c.out v c.reads) (rw d.reads evs);
        }

    pub copy_slice-Copied :
        (region : Region lib A)
        → IsRegion region
        → (m : Memory lib) (s : Option Slice) (vs : List V)
        → read_slice (region.arrays m) (read m) s ≡ some vs
        → (c : Copied
            (λ m. read_slice (region.arrays m) (read m))
            m
            vs
            (copy_slice copy region s m))
          × IsNewArray (length (region.arrays m)) c.out
    unfolding copy_slice
    copy_slice-Copied region ok m none vs e =
        (record { out = none; after = m; runs = refl; grows = Grows-refl m; reads = e }, tt)
    copy_slice-Copied region ok m (some s) vs e =
        let (xs, exs, e') = bind-some (get_elem? (region.arrays m) s.array) _ vs e in
        let c = copy_all-Copied m (take s.len xs) vs e' in
        let end = region.put (region.arrays c.after ++ c.out ∷ []) c.after in
        let grown = ok.grows (c.out ∷ []) c.after in
        let there : get_elem? (region.arrays end) (length (region.arrays c.after)) ≡ some c.out =
          rw (ok.puts (region.arrays c.after ++ c.out ∷ []) c.after)
            (get_elem?-append_last (region.arrays c.after) c.out) in
        (
          record {
            out = some (record { array = length (region.arrays c.after); len = length c.out });
            after = end;
            runs = rw (exs, c.runs) refl;
            grows = Grows-trans c.grows grown;
            reads =
                rw (there, take-length c.out)
                  (⊑-traverse (read c.after) (read end) c.out (still c.after end grown) vs c.reads);
          },
          ⊑-length (region.arrays m) (region.arrays c.after) (ok.stays m c.after c.grows),
        )
