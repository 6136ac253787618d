-- ===== src/Tests/Overlaps.antt =====
-- Overlapping updates, at an input: the server in memory is under optimistic concurrency.
use iapetos.Prelude.{
  ℕ, ◌≡◌, ◌⊎◌, refl, ap, ◌∙◌, inl, inr, true, Option, none, some, List, [], ◌∷◌, arith, ◌==◌,
  eq_refl, Bool-cases, if◌then◌else◌,
}
use iapetos.Prelude.Int.{pos}
use iapetos.Prelude.Slices.{get_elem?}
use iapetos.Api.{NamespacedName, StatefulPod}
use iapetos.Client.{not_found, failure, ok, err}
use iapetos.Client.Laws.{with_version, name_of}
use iapetos.Services.StatefulPod.Overlapping.{Stage, System, run}
use iapetos.Services.StatefulPod.Overlapping.Bound.{Optimistic}
use iapetos.Services.StatefulPod.Overlapping.LastWriter.{object_of, run-stores_one}
use iapetos.Services.StatefulPod.Settling.{SameButVersion}
use iapetos.Services.StatefulPod.Overlapping.Returning.{run_returns}
use iapetos.Tests.Objects.{growing, changed, world}
use iapetos.Tests.Server.{World, server, server-Quiet, stored, same_key, get_object, put_object}
use iapetos.Text.{itoa}

abbrev stored_at : NamespacedName → Option StatefulPod → Option StatefulPod
stored_at key none = none
stored_at key (some sp) = if same_key key (name_of sp) then some sp else none

same_key_refl : (key : NamespacedName) → same_key key key ≡ true
same_key_refl key = rw (eq_refl key.namespace, eq_refl key.name) refl

get_none :
    (key : NamespacedName) (o : Option StatefulPod)
    → stored_at key o ≡ none
    → get_object key o ≡ err not_found
get_none key none e = refl
get_none key (some sp) e = elim (Bool-cases (same_key key (name_of sp))) [
  | inl same ↦ absurd (ground (arith, e, same))
  | inr other ↦ rw other refl
]

get_some :
    (key : NamespacedName) (o : Option StatefulPod) (current : StatefulPod)
    → stored_at key o ≡ some current
    → get_object key o ≡ ok current
get_some key none current e = cc
get_some key (some sp) current e = elim (Bool-cases (same_key key (name_of sp))) [
  | inl same ↦ ground (arith, e, same)
  | inr other ↦ absurd (ground (arith, e, other))
]

put_none :
    (key : NamespacedName) (o : Option StatefulPod) (sp : StatefulPod) (w : World)
    → name_of sp ≡ key
    → stored_at key o ≡ none
    → put_object sp o w ≡ (err not_found, w)
put_none key none sp w named e = refl
put_none key (some old) sp w named e = elim (Bool-cases (same_key key (name_of old))) [
  | inl same ↦ absurd (ground (arith, e, same))
  | inr other ↦ let missed = ap (λ k. same_key k (name_of old)) named ∙ other in rw missed refl
]

put_some :
    (key : NamespacedName) (o : Option StatefulPod) (sp current : StatefulPod) (w : World)
    → name_of sp ≡ key
    → stored_at key o ≡ some current
    → put_object sp o w ≡ (
        if sp.meta.resource_version == current.meta.resource_version
        then stored (with_version (itoa (pos w.revision)) sp) w
        else (err failure, w))
put_some key none sp current w named e = cc
put_some key (some old) sp current w named e = elim (Bool-cases (same_key key (name_of old))) [
  | inl same ↦
      let it : old ≡ current = ground (arith, e, same) in
      let hit = ap (λ k. same_key k (name_of old)) named ∙ same in rw (hit, it) refl
  | inr other ↦ absurd (ground (arith, e, other))
]

pub server-Optimistic : (key : NamespacedName) → Optimistic server key
server-Optimistic key = record {
  stored = λ w. stored_at key w.object;
  reads_none = λ w e. rw (get_none key w.object e) refl;
  reads_some = λ w current e. rw (get_some key w.object current e) refl;
  absent = λ w sp named e. put_none key w.object sp w named e;
  stale = λ w sp current named e other. rw (put_some key w.object sp current w named e, other) refl;
  takes = λ w sp current named e same.
      let new = with_version (itoa (pos w.revision)) sp in
      (
        new,
        (stored new w).1,
        rw (put_some key w.object sp current w named e, same) refl,
        let hit = ap (same_key key) named ∙ same_key_refl key in rw hit refl,
      );
}

-- What is stored of an object that is there.
pub server_stores :
    (sp : StatefulPod) (w : World)
    → w.object ≡ some sp
    → (server-Optimistic (name_of sp)).stored w ≡ some sp
unfolding server-Optimistic
server_stores sp w e =
    ap (stored_at (name_of sp)) e ∙ (let k = same_key_refl (name_of sp) in rw k refl)

-- Two updates of one object: the second finds the version changed, reads it anew, and is taken then.
abbrev both : System World
both = record {
  workers = Stage.updating growing ∷ Stage.updating changed ∷ [];
  world = world growing;
}

abbrev schedule : List ℕ
schedule = 0 ∷ 1 ∷ 1 ∷ 1 ∷ 1 ∷ 1 ∷ []

run_returns_example :
    (sp : StatefulPod) × (get_elem? (run server schedule both).workers 1 ≡ some (Stage.finished sp))
run_returns_example =
    run_returns (server-Optimistic (name_of growing)) both schedule 1 (refl, (refl, tt))
      (omega arith) (omega arith)

run-stores_one_example :
    ((server-Optimistic (name_of growing)).stored (run server schedule both).world
      ≡ (server-Optimistic (name_of growing)).stored both.world)
    ⊎ ((k : ℕ) × (st : Stage) × (sp : StatefulPod) × (get_elem? both.workers k ≡ some st)
        × (get_elem? (run server schedule both).workers k ≡ some (Stage.finished sp))
        × SameButVersion (object_of st) sp
        × ((server-Optimistic (name_of growing)).stored (run server schedule both).world ≡ some sp))
run-stores_one_example =
    run-stores_one server-Quiet.echo (server-Optimistic (name_of growing)) both schedule
      (refl, (refl, tt))
