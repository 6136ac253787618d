-- ===== src/Services/StatefulPod/Overlapping/Bound.antt =====
-- How long overlapping calls of `Update` can hold each other up: a worker is set back only by another's
-- success, after which that other one is done.
use iapetos.Prelude.{
  ℕ, suc, ◌+◌, ◌-◌, ◌*◌, ◌≤◌, ◌≡◌, refl, inl, inr, Bool, true, false, Option, none, some, List, [],
  ◌∷◌, arith, ◌==◌, eq_refl, Bool-cases, Option-cases, if◌then◌else◌,
}
use iapetos.Api.{NamespacedName, StatefulPod}
use iapetos.Client.{not_found, failure, ok, err, Env}
use iapetos.Services.Objects.{key_of}
use iapetos.Services.StatefulPod.{take_version}
use iapetos.Services.StatefulPod.Overlapping.{Stage, step}

-- The server under optimistic concurrency, for one name: reading changes nothing, an update is taken
-- exactly under the version that is stored, and is what is stored then; another one changes nothing.
pub record Optimistic {W : Type 0} (env : Env W) (key : NamespacedName) : Type 0 where
  pub stored : W → Option StatefulPod
  pub reads_none : (w : W) → stored w ≡ none → env.stateful_pods.get key w ≡ (err not_found, w)
  pub reads_some :
      (w : W) (current : StatefulPod)
      → stored w ≡ some current
      → env.stateful_pods.get key w ≡ (ok current, w)
  pub absent :
      (w : W) (sp : StatefulPod)
      → key_of sp.meta ≡ key
      → stored w ≡ none
      → env.stateful_pods.update sp w ≡ (err not_found, w)
  pub stale :
      (w : W) (sp current : StatefulPod)
      → key_of sp.meta ≡ key
      → stored w ≡ some current
      → (sp.meta.resource_version == current.meta.resource_version) ≡ false
      → env.stateful_pods.update sp w ≡ (err failure, w)
  pub takes :
      (w : W) (sp current : StatefulPod)
      → key_of sp.meta ≡ key
      → stored w ≡ some current
      → (sp.meta.resource_version == current.meta.resource_version) ≡ true
      → (sp' : StatefulPod) × (w' : W) × (env.stateful_pods.update sp w ≡ (ok sp', w'))
        × (stored w' ≡ some sp')

-- 1 for a worker that has not returned.
abbrev pub is_open : Stage → ℕ
is_open (Stage.finished sp) = 0
is_open _ = 1

abbrev pub open_count : List Stage → ℕ
open_count [] = 0
open_count (st ∷ l) = is_open st + open_count l

abbrev pub HasKey : NamespacedName → Stage → Type 0
HasKey key (Stage.updating sp) = key_of sp.meta ≡ key
HasKey key (Stage.refreshing sp) = key_of sp.meta ≡ key
HasKey key (Stage.finished sp) = Unit

-- The calls that a worker makes at most, where `n` workers have not returned.
abbrev pub version_cost : ℕ → Bool → ℕ
version_cost n current = if current then 2 * n - 1 else 2 * n + 1

abbrev pub cost : ℕ → Option StatefulPod → Stage → ℕ
cost n stored (Stage.finished sp) = 0
cost n stored (Stage.refreshing sp) = 2 * n
cost n none (Stage.updating sp) = 2 * n - 1
cost n (some current) (Stage.updating sp) =
    version_cost n (sp.meta.resource_version == current.meta.resource_version)

version_cost-bounds :
    (n : ℕ) (b : Bool) → (2 * n ≤ version_cost n b + 1) × (version_cost n b ≤ 2 * n + 1)
version_cost-bounds n true = (omega arith, omega arith)
version_cost-bounds n false = (omega arith, omega arith)

pub cost-bounds :
    (n : ℕ) (o : Option StatefulPod) (st : Stage)
    → (is_open st ≡ 1 → 2 * n ≤ cost n o st + 1) × (cost n o st ≤ 2 * n + 1)
cost-bounds n o (Stage.finished sp) = (λ e. absurd (omega (arith, e)), omega arith)
cost-bounds n o (Stage.refreshing sp) = (λ e. omega arith, omega arith)
cost-bounds n none (Stage.updating sp) = (λ e. omega arith, omega arith)
cost-bounds n (some current) (Stage.updating sp) =
    let b = sp.meta.resource_version == current.meta.resource_version in
    (λ e. (version_cost-bounds n b).0, omega (arith, (version_cost-bounds n b).1))

pub cost-closed : (n : ℕ) (o : Option StatefulPod) (st : Stage) → is_open st ≡ 0 → cost n o st ≡ 0
cost-closed n o (Stage.finished sp) h = refl
cost-closed n o (Stage.updating sp) h = absurd (omega (arith, h))
cost-closed n o (Stage.refreshing sp) h = absurd (omega (arith, h))

-- When one more has returned, nobody's calls have become more, whatever is stored now.
pub cost-fewer : (n : ℕ) (o o' : Option StatefulPod) (st : Stage) → cost n o' st ≤ cost (suc n) o st
cost-fewer n o o' (Stage.finished sp) = omega arith
cost-fewer n o o' (Stage.refreshing sp) =
    omega (arith, (cost-bounds (suc n) o (Stage.refreshing sp)).0 refl)
cost-fewer n o o' (Stage.updating sp) = omega (
  arith,
  (cost-bounds (suc n) o (Stage.updating sp)).0 refl,
  (cost-bounds n o' (Stage.updating sp)).1,
)

cost-ready :
    (n : ℕ) (o : Option StatefulPod) (current sp : StatefulPod)
    → o ≡ some current
    → (sp.meta.resource_version == current.meta.resource_version) ≡ true
    → cost n o (Stage.updating sp) ≡ 2 * n - 1
cost-ready n o current sp e same = rw (e, same) refl

cost-stale :
    (n : ℕ) (o : Option StatefulPod) (current sp : StatefulPod)
    → o ≡ some current
    → (sp.meta.resource_version == current.meta.resource_version) ≡ false
    → cost n o (Stage.updating sp) ≡ 2 * n + 1
cost-stale n o current sp e other = rw (e, other) refl

cost-gone :
    (n : ℕ) (o : Option StatefulPod) (sp : StatefulPod)
    → o ≡ none
    → cost n o (Stage.updating sp) ≡ 2 * n - 1
cost-gone n o sp e = rw e refl

-- What a call does: nothing, its worker's return, or a step towards it that writes nothing.
pub data Made {W : Type 0} (key : NamespacedName) (stored : W → Option StatefulPod) (st : Stage)
    (w : W) : Stage × W → Type 0 where
  idle : is_open st ≡ 0 → Made key stored st w (st, w)
  ends : (sp : StatefulPod) (w' : W) → is_open st ≡ 1 → Made key stored st w (Stage.finished sp, w')
  goes :
      (st' : Stage) (w' : W)
      → is_open st ≡ 1
      → is_open st' ≡ 1
      → HasKey key st'
      → stored w' ≡ stored w
      → ((n : ℕ) → 1 ≤ n → suc (cost n (stored w) st') ≤ cost n (stored w) st)
      → Made key stored st w (st', w')

module _ {W : Type 0} {env : Env W} {key : NamespacedName} (server : Optimistic env key) where
  pub step-Made : (st : Stage) (w : W) → HasKey key st → Made key server.stored st w (step env st w)
  unfolding step
  step-Made (Stage.finished sp) w h = Made.idle refl
  step-Made (Stage.refreshing sp) w h = elim (Option-cases (server.stored w)) [
    | inl gone ↦
        rw (h, server.reads_none w gone)
          (Made.goes (Stage.updating sp) w refl refl h refl
            (λ n some_open. omega (arith, some_open, cost-gone n (server.stored w) sp gone)))
    | inr (current, e) ↦
        let newer = take_version sp (ok current) in
        let ready = eq_refl current.meta.resource_version in
        rw (h, server.reads_some w current e)
          (Made.goes (Stage.updating newer) w refl refl h refl (λ n some_open.
            omega (arith, some_open, cost-ready n (server.stored w) current newer e ready)))
  ]
  step-Made (Stage.updating sp) w h = elim (Option-cases (server.stored w)) [
    | inl gone ↦ rw (server.absent w sp h gone) (Made.ends sp w refl)
    | inr (current, e) ↦
        elim (Bool-cases (sp.meta.resource_version == current.meta.resource_version)) [
          | inl same ↦
              let (sp', w', taken, now) = server.takes w sp current h e same in
              rw taken (Made.ends sp' w' refl)
          | inr other ↦ rw (server.stale w sp current h e other) (
              Made.goes (Stage.refreshing sp) w refl refl h refl
                (λ n some_open. omega (arith, cost-stale n (server.stored w) current sp e other)))
        ]
  ]
