-- ===== src/Services/StatefulPod/Overlapping/Returning.antt =====
-- Every overlapping `Update` returns within a number of its own calls, whatever the schedule.
use iapetos.Prelude.{
  ℕ, ◌+◌, ◌-◌, ◌*◌, ◌≤◌, ◌<◌, ◌≡◌, refl, ap, inl, inr, true, false, Option, none, some, List, [],
  ◌∷◌, arith, eqb, Option-cases, if◌then◌else◌,
}
use iapetos.Prelude.Slices.{length, get_elem?, All, get_elem?-lt, length-modify}
use iapetos.Api.{NamespacedName, StatefulPod}
use iapetos.Client.{Env}
use iapetos.Services.StatefulPod.Overlapping.{Stage, System, turn, run}
use iapetos.Services.StatefulPod.Overlapping.Bound.{
  Optimistic, HasKey, is_open, open_count, cost, cost-bounds,
}
use iapetos.Services.StatefulPod.Overlapping.Counting.{eq_or_ne, is_open-le, open_count-le}
use iapetos.Services.StatefulPod.Overlapping.Waiting.{left_of, left_in, turn-Shortens}

-- How often a schedule gives a worker its turn.
abbrev pub turns_of : ℕ → List ℕ → ℕ
turns_of k [] = 0
turns_of k (j ∷ js) = (if eqb j k then 1 else 0) + turns_of k js

left_of-max : (n : ℕ) (o : Option StatefulPod) (x : Option Stage) → left_of n o x ≤ 2 * n + 1
left_of-max n o none = omega arith
left_of-max n o (some st) = (cost-bounds n o st).1

-- A worker whose calls are used up has returned.
used_up :
    (n : ℕ) (o : Option StatefulPod) (st : Stage)
    → is_open st ≤ n
    → cost n o st ≡ 0
    → (sp : StatefulPod) × (st ≡ Stage.finished sp)
used_up n o (Stage.finished sp) h e = (sp, refl)
used_up n o (Stage.refreshing sp) h e =
    absurd (omega (arith, h, e, (cost-bounds n o (Stage.refreshing sp)).0 refl))
used_up n o (Stage.updating sp) h e =
    absurd (omega (arith, h, e, (cost-bounds n o (Stage.updating sp)).0 refl))

module _ {W : Type 0} {env : Env W} {key : NamespacedName} (server : Optimistic env key) where
  length-turn : (s : System W) (j : ℕ) → length (turn env j s).workers ≡ length s.workers
  unfolding turn
  length-turn s j = elim (Option-cases (get_elem? s.workers j)) [
    | inl gone ↦ rw gone refl
    | inr (st, e) ↦ rw e (length-modify j _ s.workers)
  ]

  pub length-run : (s : System W) (ks : List ℕ) → length (run env ks s).workers ≡ length s.workers
  unfolding run
  length-run s [] = refl
  length-run s (j ∷ js) = omega (arith, length-run (turn env j s) js, length-turn s j)

  run-left :
      (s : System W) (ks : List ℕ) (k : ℕ)
      → All (HasKey key) s.workers
      → left_in server (run env ks s).workers (run env ks s).world k
        ≤ left_in server s.workers s.world k - turns_of k ks
  unfolding run
  run-left s [] k keys = omega arith
  run-left s (j ∷ js) k keys =
      let t = turn env j s in
      let shortens = turn-Shortens server s j k keys in
      let rest = run-left t js k shortens.keyed in
      elim (eq_or_ne j k) [
        | inl same ↦
            let hit : eqb j k ≡ true = ground (arith, same) in
            rw hit (omega (arith, rest, shortens.own same))
        | inr other ↦
            let miss : eqb j k ≡ false = ground (arith, other) in
            rw miss (omega (arith, rest, shortens.shorter))
      ]

  -- Of any number of overlapping calls of `Update` for one name, each returns once it had twice as many
  -- turns as there are calls, and one more, whatever the schedule does in between, on a server under
  -- optimistic concurrency; an update and a reading of the version are a turn each.
  pub run_returns :
      (s : System W) (ks : List ℕ) (k : ℕ)
      → All (HasKey key) s.workers
      → k < length s.workers
      → 2 * length s.workers + 1 ≤ turns_of k ks
      → (sp : StatefulPod) × (get_elem? (run env ks s).workers k ≡ some (Stage.finished sp))
  run_returns s ks k keys low enough =
      let end = run env ks s in
      let there : k < length end.workers = omega (arith, length-run s ks, low) in
      let (st, e) = get_elem?-lt end.workers k there in
      let few =
        left_of-max (open_count s.workers) (server.stored s.world) (get_elem? s.workers k) in
      let none_left : left_in server end.workers end.world k ≡ 0 =
        omega (arith, run-left s ks k keys, few, open_count-le s.workers, enough) in
      let now = ap (left_of (open_count end.workers) (server.stored end.world)) e in
      let (sp, done) =
        used_up (open_count end.workers) (server.stored end.world) st
          (is_open-le k end.workers st e) (omega (arith, now, none_left)) in
      (sp, rw (← done) e)
