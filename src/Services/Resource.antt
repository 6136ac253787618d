-- ===== src/Services/Resource.antt =====
-- services/resource.go: names of child objects, and the state of nodes and volumes.
use iapetos.Prelude.{
  ℕ, suc, ◌-◌, ◌*◌, ◌%◌, ◌^◌, String, Bool, true, false, not, Option, none, some, List, [], ◌∷◌,
  leb, ltb, ◌==◌, if◌then◌else◌,
}
use iapetos.Prelude.Int.{ℤ, pos, negsuc, int64, ltb_ℤ}
use iapetos.Prelude.Maps.{lookup, or_empty}
use iapetos.Effect.{M, pure, gets, or_panic, ◌>>=◌}
use iapetos.Text.{itoa, dashed}
use iapetos.Api.{NamespacedName, Volume, Node, NodeCondition, Pv, StatefulPod}
use iapetos.Client.{Env}
use iapetos.Services.Objects.{is_exists}

abbrev pub second : ℕ
second = 10 ^ 9

-- `time.Second * time.Duration(n)`: a product of `int64`, which wraps around.
unfoldable pub duration : ℤ → ℤ
duration (pos n) = int64 (second * n)
duration (negsuc n) = int64 (2 ^ 64 - second * suc n % 2 ^ 64)

-- `now.Sub(since)`: where the difference does not fit in `int64`, the nearest number that does.
unfoldable pub elapsed : ℕ → ℕ → ℤ
elapsed since now =
    if leb since now
    then if ltb (now - since) (2 ^ 63) then pos (now - since) else pos (2 ^ 63 - 1)
    else if leb (since - now) (2 ^ 63)
    then negsuc (since - now - 1)
    else negsuc (2 ^ 63 - 1)

-- Whether the time-out of so many seconds from `since` is over: `now.Sub(since) >= timeOut`.
unfoldable pub has_passed : ℤ → ℕ → ℕ → Bool
has_passed timeout since now = not (ltb_ℤ (elapsed since now) (duration timeout))

-- `conditions[len(conditions)-1]`.
unfoldable pub last_condition : List NodeCondition → Option NodeCondition
last_condition [] = none
last_condition (c ∷ []) = some c
last_condition (c ∷ d ∷ cs) = last_condition (d ∷ cs)

-- The claim name of a volume with its default, and the volume that holds it from then on.
unfoldable pub default_volume : Volume → Option (String × Volume)
default_volume v = elim v.claim_name [
  | none ↦ none
  | some claim ↦
      let claim' = if claim == "" then "data" else claim in
      some (claim', record v { claim_name = some claim' })
]

-- The same for `Volumes[0]`; `none` where `Volumes` is empty or the volume has no claim (a panic).
unfoldable pub default_claim : List Volume → Option (String × List Volume)
default_claim [] = none
default_claim (v ∷ vs) = elim (default_volume v) [
  | none ↦ none
  | some (claim, v') ↦ some (claim, v' ∷ vs)
]

-- `SetPVCName`: the name, and the `StatefulPod` that it has written the default into.
unfoldable pub set_pvc_name : StatefulPod → ℤ → Option (String × StatefulPod)
set_pvc_name sp index = elim (default_claim sp.spec.pod_template.volumes) [
  | none ↦ none
  | some (claim, volumes) ↦ some (
    dashed claim (dashed sp.meta.name (itoa index)),
    record sp {
      spec = record sp.spec { pod_template = record sp.spec.pod_template { volumes = volumes } };
    },
  )
]

unfoldable pub set_service_name : StatefulPod → String
set_service_name sp = dashed sp.meta.name "service"

module _ {W : Type 0} (env : Env W) where
  -- Whether the last condition lets the node count as ready at the time `now`.
  abbrev pub condition_ready : NodeCondition → ℕ → Bool
  condition_ready c now =
      if c.status == "True"
      then true
      else not (has_passed env.config.node_timeout c.last_transition_time now)

  abbrev pub node_status : Option Node → M W Bool
  node_status none = pure false
  node_status (some n) = do
    c ← or_panic (last_condition n.conditions)
    now ← gets env.now
    pure (condition_ready c now)

  -- `IsNodeReady`.
  unfoldable pub is_node_ready : NamespacedName → M W Bool
  is_node_ready node_name =
      if node_name.name == ""
      then pure true
      else (do node ← is_exists env.nodes node_name; node_status node)

  -- The end of `IsPvCanUse`, on the node that the volume names, if it does.
  abbrev pub provision_node : Option String → M W (Option String)
  provision_node none = pure none
  provision_node (some node_name) = do
    ready ← is_node_ready (record { namespace = ""; name = node_name })
    pure (if ready then some node_name else none)

  abbrev pub volume_status : Option Pv → M W (Option String)
  volume_status none = pure none
  volume_status (some v) =
      if v.phase == "Available"
      then provision_node (lookup "kubevirt.io/provisionOnNode" (or_empty v.meta.annotations))
      else pure none

  -- `IsPvCanUse`: the node of a volume that is available and whose node is ready.
  unfoldable pub is_pv_can_use : NamespacedName → M W (Option String)
  is_pv_can_use pv_name = do pv ← is_exists env.pvs pv_name; volume_status pv
