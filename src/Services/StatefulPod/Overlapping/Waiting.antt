-- ===== src/Services/StatefulPod/Overlapping/Waiting.antt =====
-- Every overlapping `Update` returns within a number of its own calls, whatever the schedule.
use iapetos.Prelude.{
  ℕ, suc, ◌-◌, ◌≤◌, ◌≡◌, ◌≢◌, ap, inl, inr, Option, none, some, List, arith, Option-cases,
}
use iapetos.Prelude.Slices.{
  get_elem?, modify, All, All-get_elem?, get_elem?-modify_ne, get_elem?-modify_self,
}
use iapetos.Api.{NamespacedName, StatefulPod}
use iapetos.Client.{Env}
use iapetos.Services.StatefulPod.Overlapping.{Stage, System, step, turn}
use iapetos.Services.StatefulPod.Overlapping.Counting.{
  eq_or_ne, open_count-modify, is_open-le, modify-same, All-modify,
}
use iapetos.Services.StatefulPod.Overlapping.Bound.{
  Optimistic, is_open, open_count, HasKey, cost, cost-closed, cost-fewer, Made, step-Made,
}

-- The calls that the worker of an index makes yet at most.
abbrev pub left_of : ℕ → Option StatefulPod → Option Stage → ℕ
left_of n o none = 0
left_of n o (some st) = cost n o st

left_of-fewer :
    (n : ℕ) (o o' : Option StatefulPod) (x : Option Stage) → left_of n o' x ≤ left_of (suc n) o x
left_of-fewer n o o' none = omega arith
left_of-fewer n o o' (some st) = cost-fewer n o o' st

module _ {W : Type 0} {env : Env W} {key : NamespacedName} (server : Optimistic env key) where
  abbrev pub left_in : List Stage → W → ℕ → ℕ
  left_in ws w k = left_of (open_count ws) (server.stored w) (get_elem? ws k)

  -- A call of the worker `j` leaves nobody more calls than before, and its own worker fewer.
  pub record Shortens (ws : List Stage) (w : W) (j k : ℕ) (ws' : List Stage) (w' : W) : Type 0 where
    pub shorter : left_in ws' w' k ≤ left_in ws w k
    pub own : j ≡ k → left_in ws' w' k ≤ left_in ws w k - 1
    pub keyed : All (HasKey key) ws'

  left_in-own :
      (ws : List Stage) (w w' : W) (j k : ℕ) (st st' : Stage)
      → j ≡ k
      → get_elem? ws j ≡ some st
      → (left_in ws w k ≡ cost (open_count ws) (server.stored w) st)
        × (left_in (modify j (λ _. st') ws) w' k
            ≡ cost (open_count (modify j (λ _. st') ws)) (server.stored w') st')
  left_in-own ws w w' j k st st' same e = rw (← same) (
    ap (left_of (open_count ws) (server.stored w)) e,
    ap (left_of (open_count (modify j (λ _. st') ws)) (server.stored w'))
        (get_elem?-modify_self j (λ _. st') ws e),
  )

  left_in-other :
      (ws : List Stage) (w' : W) (j k : ℕ) (st' : Stage)
      → j ≢ k
      → left_in (modify j (λ _. st') ws) w' k
        ≡ left_of (open_count (modify j (λ _. st') ws)) (server.stored w') (get_elem? ws k)
  left_in-other ws w' j k st' other =
      ap (left_of (open_count (modify j (λ _. st') ws)) (server.stored w'))
        (get_elem?-modify_ne j k (λ _. st') ws other)

  ends-Shortens :
      (ws : List Stage) (w w' : W) (j k : ℕ) (st : Stage) (sp : StatefulPod)
      → All (HasKey key) ws
      → get_elem? ws j ≡ some st
      → is_open st ≡ 1
      → Shortens ws w j k (modify j (λ _. Stage.finished sp) ws) w'
  ends-Shortens ws w w' j k st sp keys e unfinished =
      let fewer = open_count-modify j ws st (Stage.finished sp) e in
      let counts : open_count ws ≡ suc (open_count (modify j (λ _. Stage.finished sp) ws)) =
        omega (arith, fewer, unfinished) in
      let n = open_count (modify j (λ _. Stage.finished sp) ws) in
      let own_zero : j ≡ k → left_in (modify j (λ _. Stage.finished sp) ws) w' k ≡ 0 =
        λ same. (left_in-own ws w w' j k st (Stage.finished sp) same e).1 in
      record {
        shorter = elim (eq_or_ne j k) [
          | inl same ↦ omega (arith, own_zero same)
          | inr other ↦
              rw (left_in-other ws w' j k (Stage.finished sp) other, counts)
                (left_of-fewer n (server.stored w) (server.stored w') (get_elem? ws k))
        ];
        own = λ same. omega (arith, own_zero same);
        keyed = All-modify (HasKey key) j ws (Stage.finished sp) keys tt;
      }

  goes-Shortens :
      (ws : List Stage) (w w' : W) (j k : ℕ) (st st' : Stage)
      → All (HasKey key) ws
      → get_elem? ws j ≡ some st
      → is_open st ≡ 1
      → is_open st' ≡ 1
      → HasKey key st'
      → server.stored w' ≡ server.stored w
      → ((n : ℕ) → 1 ≤ n → suc (cost n (server.stored w) st') ≤ cost n (server.stored w) st)
      → Shortens ws w j k (modify j (λ _. st') ws) w'
  goes-Shortens ws w w' j k st st' keys e unfinished still has kept falls =
      let counted = open_count-modify j ws st st' e in
      let counts : open_count (modify j (λ _. st') ws) ≡ open_count ws =
        omega (arith, counted, unfinished, still) in
      let some_open = is_open-le j ws st e in
      let less = falls (open_count ws) (omega (arith, some_open, unfinished)) in
      let own_less : j ≡ k → suc (left_in (modify j (λ _. st') ws) w' k) ≤ left_in ws w k = λ same.
        let (before, now) = left_in-own ws w w' j k st st' same e in
        rw (before, now, counts, kept) less in
      record {
        shorter = elim (eq_or_ne j k) [
          | inl same ↦ omega (arith, own_less same)
          | inr other ↦ rw (left_in-other ws w' j k st' other, counts, kept) (omega arith)
        ];
        own = λ same. omega (arith, own_less same);
        keyed = All-modify (HasKey key) j ws st' keys has;
      }

  Made-Shortens :
      (ws : List Stage) (w : W) (j k : ℕ) (st : Stage) (r : Stage × W)
      → All (HasKey key) ws
      → get_elem? ws j ≡ some st
      → Made key server.stored st w r
      → Shortens ws w j k (modify j (λ _. r.0) ws) r.1
  Made-Shortens ws w j k st r keys e (Made.idle closed) = rw (modify-same j ws st e) (record {
    shorter = omega arith;
    own = λ same.
        let (before, _) = left_in-own ws w w j k st st same e in
        omega (arith, before, cost-closed (open_count ws) (server.stored w) st closed);
    keyed = keys;
  })
  Made-Shortens ws w j k st r keys e (Made.ends sp w' unfinished) =
      ends-Shortens ws w w' j k st sp keys e unfinished
  Made-Shortens ws w j k st r keys e (Made.goes st' w' unfinished still has kept falls) =
      goes-Shortens ws w w' j k st st' keys e unfinished still has kept falls

  pub turn-Shortens :
      (s : System W) (j k : ℕ)
      → All (HasKey key) s.workers
      → Shortens s.workers s.world j k (turn env j s).workers (turn env j s).world
  unfolding turn
  turn-Shortens s j k keys = elim (Option-cases (get_elem? s.workers j)) [
    | inl gone ↦ rw gone (record {
      shorter = omega arith;
      own = λ same.
          let none_left : left_in s.workers s.world k ≡ 0 =
            rw (← same) (ap (left_of (open_count s.workers) (server.stored s.world)) gone) in
          omega (arith, none_left);
      keyed = keys;
    })
    | inr (st, e) ↦ rw e (
        Made-Shortens s.workers s.world j k st (step env st s.world) keys e
          (step-Made server st s.world (All-get_elem? (HasKey key) s.workers j keys e)))
  ]
