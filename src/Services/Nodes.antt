-- ===== src/Services/Nodes.antt =====
-- `IsNodeReady` of services/resource.go, with the last condition read by its index.
use iapetos.Prelude.{
  ℕ, ◌+◌, ◌-◌, ◌*◌, ◌^◌, ◌<◌, ◌≤◌, ◌≡◌, ◌≢◌, ◌↔◌, refl, inl, inr, Bool, true, false, some, List, [],
  ◌∷◌, arith, ◌==◌, eq_iff, Bool-cases,
}
use iapetos.Prelude.Int.{pos}
use iapetos.Prelude.Slices.{length, get_elem?}
use iapetos.Effect.{done}
use iapetos.Api.{NamespacedName, Node, NodeCondition}
use iapetos.Client.{ok, Env}
use iapetos.Services.Objects
use iapetos.Services.Resource.{
  last_condition, condition_ready, has_passed, duration, elapsed, second, is_node_ready,
}

last_condition-get_elem? :
    (c : NodeCondition) (cs : List NodeCondition)
    → last_condition (c ∷ cs) ≡ get_elem? (c ∷ cs) (length cs)
unfolding last_condition
last_condition-get_elem? c [] = refl
last_condition-get_elem? c (d ∷ cs) = last_condition-get_elem? d cs

last_condition_at :
    (cs : List NodeCondition) (c : NodeCondition)
    → get_elem? cs (length cs - 1) ≡ some c
    → last_condition cs ≡ some c
last_condition_at [] c e = cc
last_condition_at (d ∷ cs) c e = ground (arith, last_condition-get_elem? d cs)

-- The node is not ready, and has not been so for `t` seconds or longer at the time `now`.
abbrev pub IsLost : ℕ → NodeCondition → ℕ → Type 0
IsLost t c now = (c.status ≢ "True") × (c.last_transition_time + second * t ≤ now)

-- A time-out that does not wrap around is over exactly if so many seconds have passed.
has_passed_iff :
    (t since now : ℕ)
    → second * t < 2 ^ 63
    → (has_passed (pos t) since now ≡ true) ↔ (since + second * t ≤ now)
unfolding has_passed elapsed duration
has_passed_iff t since now fits = (λ h. ground arith, λ h. ground arith)

module _ {W : Type 0} (env : Env W) where
  condition_ready_iff :
      (t : ℕ) (c : NodeCondition) (now : ℕ)
      → env.config.node_timeout ≡ pos t
      → second * t < 2 ^ 63
      → (condition_ready env c now ≡ false) ↔ IsLost t c now
  condition_ready_iff t c now set fits =
      let passed = has_passed_iff t c.last_transition_time now fits in
      elim (Bool-cases (c.status == "True")) [
        | inl up ↦ (λ h. ground (arith, h, up), λ l. ground (arith, up, eq_iff c.status "True", l))
        | inr down ↦ (
          λ h. (
            λ e. ground (arith, e, down, eq_iff c.status "True"),
            ground (arith, h, down, set, passed),
          ),
          λ l. ground (arith, down, l.1, set, passed),
        )
      ]

  -- Where the time-out of `t` seconds fits in an `int64` of nanoseconds: of a named node that is
  -- found and whose last condition is `c`, `IsNodeReady` says false exactly if `c` is not "True" and
  -- has been so for `t` seconds or longer at the time of the call. It changes nothing but what the
  -- look-up does.
  pub is_node_ready_iff :
      (t : ℕ) (n : NamespacedName) (node : Node) (c : NodeCondition) (w w' : W)
      → env.config.node_timeout ≡ pos t
      → second * t < 2 ^ 63
      → n.name ≢ ""
      → env.nodes.get n w ≡ (ok node, w')
      → get_elem? node.conditions (length node.conditions - 1) ≡ some c
      → (b : Bool) × (is_node_ready env n w ≡ done (b, w'))
        × ((b ≡ false) ↔ IsLost t c (env.now w'))
  unfolding is_node_ready Objects.is_exists
  is_node_ready_iff t n node c w w' set fits named found last =
      let l = last_condition_at node.conditions c last in
      (
        condition_ready env c (env.now w'),
        ground (arith, found, l, eq_iff n.name ""),
        condition_ready_iff t c (env.now w') set fits,
      )
