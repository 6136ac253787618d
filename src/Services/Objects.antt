-- ===== src/Services/Objects.antt =====
-- The methods that the five services of services/ write alike, over the store of one kind. Logging
-- is left out.
use iapetos.Prelude.{String, Bool, false, Option, none, some, ◌==◌, if◌then◌else◌}
use iapetos.Effect.{M, pure, call, ◌>>=◌}
use iapetos.Api.{NamespacedName, ObjectMeta}
use iapetos.Client.{ApiError, not_found, failure, Reply, ok, err, plain, force, Store}

abbrev pub key_of : ObjectMeta → NamespacedName
key_of m = record { namespace = m.namespace; name = m.name }

-- `client.IgnoreNotFound(err)`.
abbrev pub ignore_not_found : Option ApiError → Option ApiError
ignore_not_found none = none
ignore_not_found (some not_found) = none
ignore_not_found (some failure) = some failure

-- Any error, "not found" or not, reads as absence.
abbrev pub found : {A : Type 0} → Reply A → Option A
found (ok a) = some a
found (err _) = none

abbrev pub same_version : String → Option ObjectMeta → Bool
same_version v none = false
same_version v (some new) = v == new.resource_version

module _ {W A : Type 0} (store : Store W A) where
  unfoldable pub is_exists : NamespacedName → M W (Option A)
  is_exists n = do r ← call (store.get n); pure (found r)

  abbrev pub create : A → M W (Reply A)
  create obj = call (store.create obj)

  unfoldable pub delete : A → M W (Option ApiError)
  delete obj = do e ← call (store.delete plain obj); pure (ignore_not_found e)

  -- `DeleteMandatory` reports "not found" too.
  abbrev pub delete_mandatory : A → M W (Option ApiError)
  delete_mandatory obj = call (store.delete force obj)

  module _ (meta_of : A → ObjectMeta) where
    abbrev meta_of_option : Option A → Option ObjectMeta
    meta_of_option none = none
    meta_of_option (some a) = some (meta_of a)

    abbrev pub is_resource_version_same : A → M W Bool
    is_resource_version_same obj = do
      new ← is_exists (key_of (meta_of obj))
      pure (same_version (meta_of obj).resource_version (meta_of_option new))

    abbrev pub update : A → M W (Reply A)
    update obj = do
      same ← is_resource_version_same obj
      if same then call (store.update obj) else pure (err failure)
