-- ===== src/Cluster/Laws.antt =====
-- What the operator relies on in the cluster and in the libraries.
use nfs_provisioner_operator.Base.{
  String, List, map, true, Option, none, some, [], ◌∷◌, ◌≡◌, ◌≢◌, ◌⊎◌, if◌then◌else◌, is_set,
}
use nfs_provisioner_operator.Base.Lists.{Elem}
use nfs_provisioner_operator.Base.Exec.{found, failed}
use nfs_provisioner_operator.Kube.Meta.{
  StringMap, ObjectMeta, zero_meta, OwnerReference, NamespacedName, key_of,
}
use nfs_provisioner_operator.Kube.Core.{Container}
use nfs_provisioner_operator.Kube.Security.{SecurityContextConstraints}
use nfs_provisioner_operator.Defaults
use nfs_provisioner_operator.Api.{ImageConfiguration, NfsProvisionerSpec, NfsProvisioner}
use nfs_provisioner_operator.Cluster.{
  Kind, Object, meta, Platform, nfs_provisioner, security_context_constraints,
  custom_resource_definition, persistent_volume_claim, service_account, cluster_role,
  cluster_role_binding, role, role_binding, deployment, service, storage_class,
}

-- The objects of a cluster.
abbrev pub View : Type 0
View = (k : Kind) → NamespacedName → Option (Object k)

abbrev pub StoredOwners : ObjectMeta → ObjectMeta → Type 0
StoredOwners sent kept = kept.owner_references ≡ sent.owner_references

-- A map that is empty may come back as nil.
abbrev pub StoredMap : StringMap → StringMap → Type 0
StoredMap (some (e ∷ m)) kept = kept ≡ some (e ∷ m)
StoredMap _ kept = Unit {0}

-- What a container adds to its capabilities, and what it drops.
abbrev pub capabilities : Container → List String × List String
capabilities c = (c.add_capabilities, c.drop_capabilities)

abbrev or_default : String → Option String → String
or_default default none = default
or_default default (some x) = x

-- Not set, an image or a pull policy is filled in from the definition of the custom resource, by the
-- defaults that the markers on `ImageConfiguration` give.
abbrev pub served_image : ImageConfiguration → ImageConfiguration
served_image c = record {
  image = some (or_default Defaults.nfs_image c.image);
  image_pull_policy = some (or_default "IfNotPresent" c.image_pull_policy);
}

abbrev served_images : Option ImageConfiguration → Option ImageConfiguration
served_images none = none
served_images (some c) = some (served_image c)

-- `omitempty`: a map that is empty is not sent, and read back as nil.
abbrev pub served_map : StringMap → StringMap
served_map (some []) = none
served_map m = m

-- A spec as it is read back. Two specs with the same are told apart by nothing but an empty selector
-- in place of none, and by defaults in place of settings that are missing.
abbrev pub served : NfsProvisionerSpec → NfsProvisionerSpec
served spec = record spec {
  node_selector = served_map spec.node_selector;
  nfs_image_configuration = served_images spec.nfs_image_configuration;
}

-- Constraints without their users and metadata. The constraints that the operator sends have these
-- set, by itself or by the server that it read them from, so that no default of the server replaces
-- them.
abbrev pub settings : SecurityContextConstraints → SecurityContextConstraints
settings scc = record scc { metadata = zero_meta; users = [] }

-- What a stored object shares with the object that was sent. The server fills in defaults and
-- bookkeeping, so only what the operator relies on is
-- listed.
abbrev pub Stored : (k : Kind) → Object k → Object k → Type 0
Stored nfs_provisioner sent kept =
    (served kept.spec ≡ served sent.spec)
    × (kept.metadata.name ≡ sent.metadata.name)
    × (kept.metadata.namespace ≡ sent.metadata.namespace)
    × (kept.metadata.deletion_timestamp ≡ sent.metadata.deletion_timestamp)
    × (kept.metadata.finalizers ≡ sent.metadata.finalizers)
Stored security_context_constraints sent kept =
    (kept.users ≡ sent.users) × (settings kept ≡ settings sent)
Stored custom_resource_definition sent kept = Unit {0}
Stored persistent_volume_claim sent kept =
    StoredOwners sent.metadata kept.metadata
    × (kept.access_modes ≡ sent.access_modes)
    × (kept.storage_request ≡ sent.storage_request)
Stored service_account sent kept = StoredOwners sent.metadata kept.metadata
Stored cluster_role sent kept = kept.rules ≡ sent.rules
Stored cluster_role_binding sent kept =
    (kept.subjects ≡ sent.subjects) × (kept.role_ref ≡ sent.role_ref)
Stored role sent kept = StoredOwners sent.metadata kept.metadata × (kept.rules ≡ sent.rules)
Stored role_binding sent kept =
    StoredOwners sent.metadata kept.metadata
    × (kept.subjects ≡ sent.subjects)
    × (kept.role_ref ≡ sent.role_ref)
Stored deployment sent kept =
    StoredOwners sent.metadata kept.metadata
    × StoredMap sent.match_labels kept.match_labels
    × StoredMap sent.template_labels kept.template_labels
    × (kept.pod.service_account_name ≡ sent.pod.service_account_name)
    × (kept.pod.volumes ≡ sent.pod.volumes)
    × (map capabilities kept.pod.containers ≡ map capabilities sent.pod.containers)
Stored service sent kept =
    StoredOwners sent.metadata kept.metadata × StoredMap sent.selector kept.selector
Stored storage_class sent kept = kept.provisioner ≡ sent.provisioner

abbrev pub key : (k : Kind) → Object k → NamespacedName
key k o = key_of (meta k o)

-- Not both being deleted and free of finalizers.
abbrev pub IsHeld : ObjectMeta → Type 0
IsHeld m = (m.deletion_timestamp ≡ none) ⊎ (m.finalizers ≢ [])

-- Another object than the one of kind `k` under `n`.
abbrev pub IsOther : Kind → NamespacedName → Kind → NamespacedName → Type 0
IsOther k n j i = ¬ ((j ≡ k) × (i ≡ n))

-- The reads and writes of the client, over the objects that the cluster holds. Reads see the
-- objects as they are, and a write that fails changes none.
pub record IsLawful (P : Platform) : Type 0 where
  pub view : P.State → View
  -- Reads.
  pub view-get : (k : Kind) (n : NamespacedName) (s : P.State) → view (P.get k n s).1 ≡ view s
  pub get-found :
      (k : Kind) (n : NamespacedName) (s : P.State) (o : Object k)
      → (P.get k n s).0 ≡ found o
      → view s k n ≡ some o
  pub get-missing :
      (k : Kind) (n : NamespacedName) (s : P.State) (e : P.Error)
      → (P.get k n s).0 ≡ failed e
      → P.is_not_found e ≡ true
      → view s k n ≡ none
  -- Creation, which fails on an object that exists.
  pub create-other :
      (k : Kind) (o : Object k) (s : P.State) (j : Kind) (i : NamespacedName)
      → IsOther k (key k o) j i
      → view (P.create k o s).1 j i ≡ view s j i
  pub create-keeps :
      (k : Kind) (o : Object k) (s : P.State) (j : Kind) (i : NamespacedName) (x : Object j)
      → view s j i ≡ some x
      → view (P.create k o s).1 j i ≡ some x
  pub create-done :
      (k : Kind) (o : Object k) (s : P.State)
      → (P.create k o s).0 ≡ none
      → (x : Object k) × (view (P.create k o s).1 k (key k o) ≡ some x) × Stored k o x
  pub create-failed :
      (k : Kind) (o : Object k) (s : P.State) (e : P.Error)
      → (P.create k o s).0 ≡ some e
      → view (P.create k o s).1 ≡ view s
  -- Updates. An object that is being deleted goes when its last finalizer does.
  pub update-other :
      (k : Kind) (o : Object k) (s : P.State) (j : Kind) (i : NamespacedName)
      → IsOther k (key k o) j i
      → view (P.update k o s).1 j i ≡ view s j i
  pub update-done :
      (k : Kind) (o : Object k) (s : P.State) (x : Object k)
      → (P.update k o s).0 ≡ none
      → view (P.update k o s).1 k (key k o) ≡ some x
      → Stored k o x
  pub update-stays :
      (k : Kind) (o : Object k) (s : P.State)
      → (P.update k o s).0 ≡ none
      → IsHeld (meta k o)
      → (x : Object k) × (view (P.update k o s).1 k (key k o) ≡ some x)
  pub update-failed :
      (k : Kind) (o : Object k) (s : P.State) (e : P.Error)
      → (P.update k o s).0 ≡ some e
      → view (P.update k o s).1 ≡ view s
  -- The status of a custom resource is written apart from the rest.
  pub update_status-other :
      (o : NfsProvisioner) (s : P.State) (j : Kind) (i : NamespacedName)
      → IsOther nfs_provisioner (key nfs_provisioner o) j i
      → view (P.update_status nfs_provisioner o s).1 j i ≡ view s j i
  pub update_status_self :
      (o : NfsProvisioner) (s : P.State) (x : NfsProvisioner)
      → view s nfs_provisioner (key nfs_provisioner o) ≡ some x
      → (y : NfsProvisioner) × (view
            (P.update_status nfs_provisioner o s).1
            nfs_provisioner
            (key nfs_provisioner o)
          ≡ some y)
        × (y.spec ≡ x.spec)
        × Stored nfs_provisioner x y
        × ((P.update_status nfs_provisioner o s).0 ≡ none → y.status ≡ o.status)
  -- Deletion of an object that no finalizer holds back.
  pub delete-other :
      (k : Kind) (o : Object k) (s : P.State) (j : Kind) (i : NamespacedName)
      → IsOther k (key k o) j i
      → view (P.delete k o s).1 j i ≡ view s j i
  pub delete-done :
      (k : Kind) (o : Object k) (s : P.State)
      → (P.delete k o s).0 ≡ none
      → view s k (key k o) ≡ some o
      → (meta k o).finalizers ≡ []
      → view (P.delete k o s).1 k (key k o) ≡ none
  pub delete-failed :
      (k : Kind) (o : Object k) (s : P.State) (e : P.Error)
      → (P.delete k o s).0 ≡ some e
      → view (P.delete k o s).1 ≡ view s
  -- An object is read under its own name.
  pub key-view :
      (k : Kind) (n : NamespacedName) (s : P.State) (o : Object k)
      → view s k n ≡ some o
      → key k o ≡ n
  pub held-view :
      (k : Kind) (n : NamespacedName) (s : P.State) (o : Object k)
      → view s k n ≡ some o
      → IsHeld (meta k o)

-- The reference by which an object is owned.
abbrev pub controller_of : NfsProvisioner → OwnerReference
controller_of m = record {
  api_version = "cache.jhouse.com/v1alpha1";
  kind = "NFSProvisioner";
  name = m.metadata.name;
  uid = m.metadata.uid;
  controller = true;
}

-- The helper functions of the libraries.
pub record HasHelpers (P : Platform) : Type 0 where
  pub ignore_not_found_lem :
      (e : P.Error) → P.ignore_not_found e ≡ (if P.is_not_found e then none else some e)
  -- Only the owner references change.
  pub references_only :
      (m : NfsProvisioner) (o : ObjectMeta)
      → (P.set_controller_reference m o).1
        ≡ record o { owner_references = (P.set_controller_reference m o).1.owner_references }
  -- An owner in a namespace owns nothing outside it, cluster-scoped objects included.
  pub cross_namespace :
      (m : NfsProvisioner) (o : ObjectMeta)
      → is_set m.metadata.namespace ≡ true
      → o.namespace ≢ m.metadata.namespace
      → (P.set_controller_reference m o).1 ≡ o
  -- An object of the owner's namespace that nothing owns gets the reference.
  pub same_namespace :
      (m : NfsProvisioner) (o : ObjectMeta)
      → o.namespace ≡ m.metadata.namespace
      → o.owner_references ≡ []
      → (P.set_controller_reference m o).1.owner_references ≡ controller_of m ∷ []
  pub add_finalizer_only :
      (o : ObjectMeta) (f : String)
      → P.add_finalizer o f ≡ record o { finalizers = (P.add_finalizer o f).finalizers }
  pub add_finalizer_elem : (o : ObjectMeta) (f : String) → Elem f (P.add_finalizer o f).finalizers
  pub remove_finalizer_only :
      (o : ObjectMeta) (f : String)
      → P.remove_finalizer o f ≡ record o { finalizers = (P.remove_finalizer o f).finalizers }
  pub remove_finalizer_elem :
      (o : ObjectMeta) (f : String) → ¬ Elem f (P.remove_finalizer o f).finalizers
  pub remove_finalizer_keeps :
      (o : ObjectMeta) (f g : String)
      → f ≢ g
      → Elem g o.finalizers
      → Elem g (P.remove_finalizer o f).finalizers
  pub is_zero-none : P.is_zero none ≡ true
