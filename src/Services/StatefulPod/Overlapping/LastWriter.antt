-- ===== src/Services/StatefulPod/Overlapping/LastWriter.antt =====
-- What overlapping calls of `Update` leave on the server.
use iapetos.Prelude.{
  ℕ, ◌≡◌, ◌⊎◌, refl, ap, ◌∙◌, inl, inr, some, List, [], ◌∷◌, arith, ◌==◌, Bool-cases, Option-cases,
}
use iapetos.Prelude.Slices.{
  get_elem?, modify, All, All-get_elem?, get_elem?-lt, lt_of_get_elem?, get_elem?-modify_ne,
  get_elem?-modify_self,
}
use iapetos.Api.{NamespacedName, StatefulPod}
use iapetos.Client.{Reply, ok, err, Env}
use iapetos.Client.Laws.{with_version, EchoesUpdates, Reply-cases}
use iapetos.Services.Objects.{key_of}
use iapetos.Services.StatefulPod.{take_version}
use iapetos.Services.StatefulPod.Settling.{SameButVersion}
use iapetos.Services.StatefulPod.Overlapping.{Stage, System, step, turn, run}
use iapetos.Services.StatefulPod.Overlapping.Bound.{Optimistic, HasKey}
use iapetos.Services.StatefulPod.Overlapping.Counting.{eq_or_ne}
use iapetos.Services.StatefulPod.Overlapping.Returning.{length-run}
use iapetos.Services.StatefulPod.Overlapping.Waiting.{turn-Shortens}

abbrev pub object_of : Stage → StatefulPod
object_of (Stage.updating sp) = sp
object_of (Stage.refreshing sp) = sp
object_of (Stage.finished sp) = sp

SameButVersion-trans :
    (a b c : StatefulPod) → SameButVersion a b → SameButVersion b c → SameButVersion a c
SameButVersion-trans a b c e h = h ∙ ap (with_version c.meta.resource_version) e

SameButVersion-end :
    (a : StatefulPod) (st : Stage) (sp : StatefulPod)
    → st ≡ Stage.finished sp
    → SameButVersion a (object_of st)
    → SameButVersion a sp
SameButVersion-end a st sp e h = let o : object_of st ≡ sp = ap object_of e in rw (← o) h

take_version-same :
    (sp : StatefulPod) (r : Reply StatefulPod) → SameButVersion sp (take_version sp r)
take_version-same sp (ok new) = refl
take_version-same sp (err e) = refl

module _ {W : Type 0} {env : Env W} {key : NamespacedName} (echo : EchoesUpdates env)
    (server : Optimistic env key) where
  step-same : (st : Stage) (w : W) → SameButVersion (object_of st) (object_of (step env st w).0)
  unfolding step
  step-same (Stage.finished sp) w = refl
  step-same (Stage.refreshing sp) w =
      take_version-same sp (env.stateful_pods.get (key_of sp.meta) w).0
  step-same (Stage.updating sp) w =
      let (r, w') = env.stateful_pods.update sp w in
      elim (Reply-cases r) [
        | inl (sp', e) ↦ rw e (echo.echo sp sp' w w' (ground (arith, e)))
        | inr (inl e) ↦ rw e refl
        | inr (inr e) ↦ rw e refl
      ]

  -- A call leaves what is stored, or its worker returns with what is stored then.
  step-stored :
      (st : Stage) (w : W)
      → HasKey key st
      → (server.stored (step env st w).1 ≡ server.stored w)
        ⊎ ((sp : StatefulPod) × ((step env st w).0 ≡ Stage.finished sp)
            × (server.stored (step env st w).1 ≡ some sp))
  unfolding step
  step-stored (Stage.finished sp) w h = inl refl
  step-stored (Stage.refreshing sp) w h = elim (Option-cases (server.stored w)) [
    | inl gone ↦ inl (rw (h, server.reads_none w gone) refl)
    | inr (current, e) ↦ inl (rw (h, server.reads_some w current e) refl)
  ]
  step-stored (Stage.updating sp) w h = elim (Option-cases (server.stored w)) [
    | inl gone ↦ inl (rw (server.absent w sp h gone) refl)
    | inr (current, e) ↦
        elim (Bool-cases (sp.meta.resource_version == current.meta.resource_version)) [
          | inl same ↦
              let (sp', w', taken, now) = server.takes w sp current h e same in
              inr (sp', rw taken refl, rw taken now)
          | inr other ↦ inl (rw (server.stale w sp current h e other) refl)
        ]
  ]

  step-finished :
      (st : Stage) (sp : StatefulPod) (w : W)
      → st ≡ Stage.finished sp
      → (step env st w).0 ≡ Stage.finished sp
  unfolding step
  step-finished st sp w e = rw e refl

  record Follows (start s : System W) : Type 0 where
    same :
        (k : ℕ) (st : Stage)
        → get_elem? start.workers k ≡ some st
        → (st' : Stage) × (get_elem? s.workers k ≡ some st')
          × SameButVersion (object_of st) (object_of st')
    source :
        (server.stored s.world ≡ server.stored start.world)
        ⊎ ((k : ℕ) × (sp : StatefulPod) × (get_elem? s.workers k ≡ some (Stage.finished sp))
            × (server.stored s.world ≡ some sp))

  turned-Follows :
      (start s : System W) (j : ℕ) (st : Stage)
      → HasKey key st
      → get_elem? s.workers j ≡ some st
      → Follows start s
      → Follows start (record {
        workers = modify j (λ _. (step env st s.world).0) s.workers;
        world = (step env st s.world).1;
      })
  turned-Follows start s j st has e f =
      let next = (step env st s.world).0 in
      let now = get_elem?-modify_self j (λ _. next) s.workers e in
      record {
        same = λ k st0 e0.
            let (st', e', kept) = f.same k st0 e0 in
            elim (eq_or_ne j k) [
              | inl hit ↦
                  let is_st : st' ≡ st = ground (arith, e, e', hit) in
                  (
                    next,
                    rw (← hit) now,
                    SameButVersion-trans (object_of st0) (object_of st) (object_of next)
                        (rw (← is_st) kept) (step-same st s.world),
                  )
              | inr other ↦ (st', rw (get_elem?-modify_ne j k (λ _. next) s.workers other) e', kept)
            ];
        source = elim (step-stored st s.world has) [
          | inr (sp, fin, there) ↦ inr (j, sp, now ∙ ap some fin, there)
          | inl kept ↦ elim f.source [
            | inl before ↦ inl (kept ∙ before)
            | inr (k, sp, at, there) ↦ elim (eq_or_ne j k) [
              | inl hit ↦
                  let is_fin : st ≡ Stage.finished sp = ground (arith, e, at, hit) in
                  inr (j, sp, now ∙ ap some (step-finished st sp s.world is_fin), kept ∙ there)
              | inr other ↦
                  inr
                    (k, sp, get_elem?-modify_ne j k (λ _. next) s.workers other ∙ at, kept ∙ there)
            ]
          ]
        ];
      }

  turn-Follows :
      (start s : System W) (j : ℕ)
      → All (HasKey key) s.workers
      → Follows start s
      → Follows start (turn env j s)
  unfolding turn
  turn-Follows start s j keys f = elim (Option-cases (get_elem? s.workers j)) [
    | inl gone ↦ rw gone f
    | inr (st, e) ↦
        rw e (turned-Follows start s j st (All-get_elem? (HasKey key) s.workers j keys e) e f)
  ]

  run-Follows :
      (start s : System W) (ks : List ℕ)
      → All (HasKey key) s.workers
      → Follows start s
      → Follows start (run env ks s)
  unfolding run
  run-Follows start s [] keys f = f
  run-Follows start s (j ∷ js) keys f =
      run-Follows start (turn env j s) js (turn-Shortens server s j j keys).keyed
        (turn-Follows start s j keys f)

  -- Whatever the schedule of overlapping calls of `Update` for one name, what is stored in the end is
  -- what was stored before, or the object of one worker, under a new version and with nothing of the
  -- others in it, and that worker has returned; on a server under optimistic concurrency that stores
  -- what it is sent.
  pub run-stores_one :
      (s : System W) (ks : List ℕ)
      → All (HasKey key) s.workers
      → (server.stored (run env ks s).world ≡ server.stored s.world)
        ⊎ ((k : ℕ) × (st : Stage) × (sp : StatefulPod) × (get_elem? s.workers k ≡ some st)
            × (get_elem? (run env ks s).workers k ≡ some (Stage.finished sp))
            × SameButVersion (object_of st) sp
            × (server.stored (run env ks s).world ≡ some sp))
  run-stores_one s ks keys =
      let f =
        run-Follows s s ks keys (record { same = λ k st e. (st, e, refl); source = inl refl }) in
      elim f.source [
        | inl before ↦ inl before
        | inr (k, sp, at, there) ↦
            let low = lt_of_get_elem? (run env ks s).workers k at in
            let (st, e) = get_elem?-lt s.workers k (omega (arith, low, length-run server s ks)) in
            let (st', e', kept) = f.same k st e in
            let is_fin : st' ≡ Stage.finished sp = ground (arith, at, e') in
            inr (k, st, sp, e, at, SameButVersion-end (object_of st) st' sp is_fin kept, there)
      ]
