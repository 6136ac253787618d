-- ===== src/Services/Pvc.antt =====
-- services/pvc/pvc.go.
use iapetos.Prelude.{ℕ, String, Bool, Option, none, some, [], ◌∷◌}
use iapetos.Prelude.Int.{ℤ, pos}
use iapetos.Prelude.Slices.{get_elem?}
use iapetos.Effect.{M, pure, or_panic, ◌>>=◌}
use iapetos.Text.{itoa}
use iapetos.Api.{NamespacedName, ObjectMeta, Pvc, PvcPhase, PvcSpec, StatefulPod, group_version}
use iapetos.Client.{ApiError, Reply, ok, Env}
use iapetos.Services.Objects
use iapetos.Services.Pod.{controller_ref}
use iapetos.Services.Resource.{set_pvc_name, is_pv_can_use}

-- `GetName`, which writes the default claim name into the `StatefulPod`.
unfoldable pub get_name : StatefulPod → ℤ → Option (String × StatefulPod)
get_name = set_pvc_name

abbrev pub claim_of : StatefulPod → String → ℕ → PvcSpec → Pvc
claim_of sp name index spec = record {
  meta = record {
    name = name;
    namespace = sp.meta.namespace;
    uid = "";
    resource_version = "";
    annotations =
        some (
          (group_version, "true")
          ∷ ("parentName", sp.meta.name)
          ∷ ("index", itoa (pos index))
          ∷ []);
    labels = ("parentName", sp.meta.name) ∷ [];
    finalizers = [];
    owner_references = controller_ref sp ∷ [];
    creation_timestamp = 0;
    deletion_timestamp = none;
  };
  spec = spec;
  phase = PvcPhase.other "";
}

-- The template that names one volume and no class of storage.
abbrev pub use_volume : String → PvcSpec → PvcSpec
use_volume volume spec = record spec { storage_class_name = some ""; volume_name = volume }

abbrev pub chosen_spec : String → PvcSpec → Option String → PvcSpec
chosen_spec volume spec none = spec
chosen_spec volume spec (some _) = use_volume volume spec

abbrev pub with_template : StatefulPod → PvcSpec → StatefulPod
with_template sp spec = record sp { spec = record sp.spec { pvc_template = some spec } }

abbrev pub pvc_meta : Pvc → ObjectMeta
pvc_meta p = p.meta

module _ {W : Type 0} (env : Env W) where
  -- The claim template for `index`: the listed volume is used if it can be.
  unfoldable pub choose_volume : StatefulPod → ℕ → PvcSpec → M W PvcSpec
  choose_volume sp index spec = elim (get_elem? sp.spec.pv_names index) [
    | none ↦ pure spec
    | some volume ↦ (do
      node ← is_pv_can_use env (record { namespace = ""; name = volume })
      pure (chosen_spec volume spec node))
  ]

  -- `CreateTemplate`: the choice is written to the template of the `StatefulPod`, which is the one
  -- that every claim is made from. A nil template is a panic.
  unfoldable pub create_template : StatefulPod → String → ℕ → M W (Pvc × StatefulPod)
  create_template sp name index = do
    template ← or_panic sp.spec.pvc_template
    spec ← choose_volume sp index template
    let sp' = with_template sp spec
    pure (claim_of sp' name index spec, sp')

  unfoldable pub is_exists : NamespacedName → M W (Option Pvc)
  is_exists = Objects.is_exists env.pvcs

  unfoldable pub create : Pvc → M W (Reply Pvc)
  create = Objects.create env.pvcs

  unfoldable pub update : Pvc → M W (Reply Pvc)
  update = Objects.update env.pvcs pvc_meta

  unfoldable pub delete : Pvc → M W (Option ApiError)
  delete = Objects.delete env.pvcs

  unfoldable pub delete_mandatory : Pvc → M W (Option ApiError)
  delete_mandatory = Objects.delete_mandatory env.pvcs

  unfoldable pub is_resource_version_same : Pvc → M W Bool
  is_resource_version_same = Objects.is_resource_version_same env.pvcs pvc_meta

  -- `Get` returns nil, with no error.
  unfoldable pub get : NamespacedName → M W (Reply (Option Pvc))
  get _ = pure (ok none)
