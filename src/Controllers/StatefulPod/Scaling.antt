-- ===== src/Controllers/StatefulPod/Scaling.antt =====
-- The life of a `StatefulPod` of controllers/statefulpod/stateful_pod.go as a walk of its number of
-- entries: what the handlers do in any order, and the steps of that number that they refine.
use iapetos.Prelude.{
  ℕ, suc, ◌+◌, ◌≤◌, ◌<◌, ◌≡◌, refl, inl, inr, Bool, Option, none, some, List, [], ◌∷◌, arith,
}
use iapetos.Prelude.Int.{ℤ, pos, negsuc}
use iapetos.Effect.{done}
use iapetos.Effect.Total.{Total-result}
use iapetos.Api.{Pod, Pvc, StatefulPod}
use iapetos.Client.{Env}
use iapetos.Controllers.Pod.Monitor
use iapetos.Controllers.Pvc
use iapetos.Controllers.StatefulPod
use iapetos.Controllers.StatefulPod.Core.{CoreLength, core_ctrl-Total, get_index-bounds}
use iapetos.Controllers.StatefulPod.Monitoring.{AtMostOneLess, monitor_pvc_status-Kept}
use iapetos.Controllers.StatefulPod.PodMonitoring.{TakesDeletes, monitor_pod_status-Kept}
use iapetos.Controllers.StatefulPod.Resizing.{Quiet, pods_of}
use iapetos.Controllers.StatefulPod.WellFormed.{IsSized, IsWellFormed}

-- The object with another size, as its user asks for it.
abbrev pub resized : ℕ → StatefulPod → StatefulPod
resized m sp = record sp { spec = record sp.spec { size = some (pos m) } }

-- A step in the life of an object: a handler that has returned, at any world of any server that is
-- quiet and takes deletions of claims, or its user asking for a size of up to `bound`.
pub data Step (W : Type 0) (bound : ℕ) : StatefulPod → StatefulPod → Type 0 where
  core :
      {sp sp' : StatefulPod} (env : Env W) (r : StatefulPod.Result) (w w' : W)
      → Quiet env
      → StatefulPod.core_ctrl env sp w ≡ done ((r, sp'), w')
      → Step W bound sp sp'
  pod_report :
      {sp sp' : StatefulPod} (env : Env W) (pod : Pod) (i : ℕ) (b : Bool) (w w' : W)
      → Quiet env
      → TakesDeletes env.pvcs
      → Monitor.monitor_pod_status env sp pod (pos i) w ≡ done ((b, sp'), w')
      → Step W bound sp sp'
  claim_report :
      {sp sp' : StatefulPod} (env : Env W) (pvc : Pvc) (i : ℕ) (b : Bool) (w w' : W)
      → Pvc.monitor_pvc_status env sp pvc (pos i) w ≡ done ((b, sp'), w')
      → Step W bound sp sp'
  resize : {sp : StatefulPod} (m : ℕ) → m ≤ bound → Step W bound sp (resized m sp)

-- What the outside sees of it: the size that is asked for, and the number of entries.
pub record Scale : Type 0 where
  pub size : ℕ
  pub count : ℕ

-- What brings a step about: a pass of `CoreCtrl`, a report of a child, or the user's request for a size.
pub data Cause : Type 0 where
  pass report : Cause
  request : ℕ → Cause

-- The promise, by what brings the step about. A pass adds at most one entry, and only below the size;
-- or it drops one or two, and leaves no fewer than the size. A report loses at most one entry. A
-- request, for up to `bound`, changes the size alone. Nothing else changes the size.
pub data Move (bound : ℕ) : Cause → Scale → Scale → Type 0 where
  rest : {s : Scale} → Move bound Cause.pass s s
  grow :
      {size count : ℕ}
      → count < size
      → Move bound Cause.pass
          (record { size = size; count = count })
          (record { size = size; count = suc count })
  shrink :
      {size count : ℕ} (left : ℕ)
      → size ≤ left
      → left < count
      → count ≤ left + 2
      → Move bound Cause.pass
          (record { size = size; count = count })
          (record { size = size; count = left })
  hold : {s : Scale} → Move bound Cause.report s s
  lose :
      {size count : ℕ}
      → Move bound Cause.report
          (record { size = size; count = suc count })
          (record { size = size; count = count })
  resize :
      {size count : ℕ} (m : ℕ)
      → m ≤ bound
      → Move bound
          (Cause.request m)
          (record { size = size; count = count })
          (record { size = m; count = count })

-- One move for each cause of a list.
pub data Moves (bound : ℕ) : List Cause → Scale → Scale → Type 0 where
  none_left : {s : Scale} → Moves bound [] s s
  move :
      {c : Cause} {cs : List Cause} {s s' s'' : Scale}
      → Move bound c s s'
      → Moves bound cs s' s''
      → Moves bound (c ∷ cs) s s''

-- Finitely many steps.
pub data Walk {A : Type 0} (R : A → A → Type 0) : A → A → Type 0 where
  here : {a : A} → Walk R a a
  step : {a b c : A} → R a b → Walk R b c → Walk R a c

module _ {W : Type 0} {bound : ℕ} where
  abbrev cause : {sp sp' : StatefulPod} → Step W bound sp sp' → Cause
  cause (core _ _ _ _ _ _) = Cause.pass
  cause (pod_report _ _ _ _ _ _ _ _ _) = Cause.report
  cause (claim_report _ _ _ _ _ _ _) = Cause.report
  cause (resize m _) = Cause.request m

  -- What has brought the steps about, in their order.
  abbrev pub causes : {sp sp' : StatefulPod} → Walk (Step W bound) sp sp' → List Cause
  causes here = []
  causes (step s walk) = cause s ∷ causes walk

abbrev pub size_or_zero : Option ℤ → ℕ
size_or_zero none = 0
size_or_zero (some (pos n)) = n
size_or_zero (some (negsuc n)) = 0

abbrev pub view : StatefulPod → Scale
view sp = record { size = size_or_zero sp.spec.size; count = pods_of sp }

size_of : (o : Option ℤ) → IsSized o → o ≡ some (pos (size_or_zero o))
size_of none s = absurd s
size_of (some (pos n)) s = refl
size_of (some (negsuc n)) s = absurd s

module _ (bound : ℕ) where
  -- The change of the number of entries by `CoreCtrl` is a move of a pass.
  core-Move :
      (size len i n : ℕ)
      → i ≤ len
      → len ≤ suc i
      → CoreLength i size len n
      → Move bound Cause.pass
          (record { size = size; count = len })
          (record { size = size; count = n })
  core-Move size len i n lower upper (inl same) = rw same rest
  core-Move size len i n lower upper (inr (inl (low, at_end, more))) =
      rw more (grow (rw at_end low))
  core-Move size len i n lower upper (inr (inr (high, left))) =
      shrink n (omega arith) (omega arith) (omega arith)

  kept-Move :
      (size len n : ℕ)
      → AtMostOneLess len n
      → Move bound Cause.report
          (record { size = size; count = len })
          (record { size = size; count = n })
  kept-Move size len n (inl same) = rw same hold
  kept-Move size len n (inr less) = rw (← less) lose

  module _ {W : Type 0} where
    -- Each step keeps the object well-formed and is a move of its cause.
    Step-Move :
        (sp sp' : StatefulPod)
        → IsWellFormed sp
        → (s : Step W bound sp sp') → IsWellFormed sp' × Move bound (cause s) (view sp) (view sp')
    Step-Move sp sp' wf (core env r w w' quiet h) =
        let n = size_or_zero sp.spec.size in
        let (i, ei, lower, upper) = get_index-bounds sp n wf (size_of sp.spec.size wf.sized) in
        let (j, ej, total) = core_ctrl-Total quiet sp n wf (size_of sp.spec.size wf.sized) in
        let (wf', size, len) = Total-result w w' (r, sp') total h in
        let same : i ≡ j = ground (arith, ei, ej) in
        (
          wf',
          rw size (
              core-Move n (pods_of sp) j (pods_of sp') (rw (← same) lower) (rw (← same) upper) len),
        )
    Step-Move sp sp' wf (pod_report env pod i b w w' quiet takes h) =
        let total =
          monitor_pod_status-Kept env i takes (omega (arith, quiet.rounds)) quiet.nodes sp pod wf in
        let (wf', size, len) = Total-result w w' (b, sp') total h in
        (wf', rw size (kept-Move _ (pods_of sp) (pods_of sp') len))
    Step-Move sp sp' wf (claim_report env pvc i b w w' h) =
        let (wf', size, len) =
          Total-result w w' (b, sp') (monitor_pvc_status-Kept env i sp pvc wf) h in
        (wf', rw size (kept-Move _ (pods_of sp) (pods_of sp') len))
    Step-Move sp sp' wf (resize m below) =
        (record { aligned = wf.aligned; sized = tt; mountable = wf.mountable }, resize m below)

    -- Whatever passes of `CoreCtrl` and reports of the monitors happen to a well-formed object, in any
    -- order, on quiet servers that take deletions of claims and between any requests of its user for a
    -- size: it stays well-formed, and each of these steps makes one move of the size and the number of
    -- entries, a move of its own cause. A pass keeps the size, and adds one entry below it, or drops
    -- one or two and leaves no fewer than the size, or adds and drops none; a report keeps the size
    -- and loses one entry at most; a request sets the size to what it says and changes no entry.
    pub Walk-Move :
        (sp sp' : StatefulPod)
        → IsWellFormed sp
        → (walk : Walk (Step W bound) sp sp')
        → IsWellFormed sp' × Moves bound (causes walk) (view sp) (view sp')
    Walk-Move sp sp' wf here = (wf, none_left)
    Walk-Move sp sp'' wf (step {b = sp'} s walk) =
        let (wf', first) = Step-Move sp sp' wf s in
        let (wf'', others) = Walk-Move sp' sp'' wf' walk in (wf'', move first others)

  -- Neither the size nor the number of entries is above the bound.
  abbrev pub IsWithin : Scale → Type 0
  IsWithin s = (s.size ≤ bound) × (s.count ≤ bound)

  Move-IsWithin : (c : Cause) (s s' : Scale) → IsWithin s → Move bound c s s' → IsWithin s'
  Move-IsWithin _ s s' h rest = h
  Move-IsWithin _ s s' h (grow low) = (h.0, omega (arith, low, h.0))
  Move-IsWithin _ s s' h (shrink left _ high _) = (h.0, omega (arith, high, h.1))
  Move-IsWithin _ s s' h hold = h
  Move-IsWithin _ s s' h lose = (h.0, omega (arith, h.1))
  Move-IsWithin _ s s' h (resize m below) = (below, h.1)

  Moves-IsWithin : (cs : List Cause) (s s' : Scale) → IsWithin s → Moves bound cs s s' → IsWithin s'
  Moves-IsWithin _ s s' h none_left = h
  Moves-IsWithin _ s s'' h (move {c = c} {cs = cs} {s' = s'} first others) =
      Moves-IsWithin cs s' s'' (Move-IsWithin c s s' h first) others

  -- A well-formed object that begins with a size and a number of entries up to a bound, and is never
  -- asked for a size above it, never has more entries than that, after any passes of `CoreCtrl` and
  -- reports of the monitors on quiet servers that take deletions of claims.
  pub Walk-IsWithin :
      {W : Type 0} (sp sp' : StatefulPod)
      → IsWellFormed sp
      → IsWithin (view sp)
      → Walk (Step W bound) sp sp'
      → IsWithin (view sp')
  Walk-IsWithin sp sp' wf h walk =
      Moves-IsWithin (causes walk) (view sp) (view sp') h (Walk-Move sp sp' wf walk).1
