-- ===== src/Examples/Data.antt =====
-- Resources and clusters for the examples.
use nfs_provisioner_operator.Base.{none, some, [], ◌∷◌, if◌then◌else◌}
use nfs_provisioner_operator.Kube.Meta.{NamespacedName, zero_meta, named, same_name}
use nfs_provisioner_operator.Kube.Storage.{CustomResourceDefinition}
use nfs_provisioner_operator.Kube.Rbac.{ClusterRole}
use nfs_provisioner_operator.Api.{NfsProvisioner, NfsProvisionerSpec}
use nfs_provisioner_operator.Cluster.{nfs_provisioner, custom_resource_definition, cluster_role}
use nfs_provisioner_operator.Cluster.Laws.{View}
use nfs_provisioner_operator.Cluster.Memory.{Memory}
use nfs_provisioner_operator.Resources.Scc.{crd_key}
use nfs_provisioner_operator.Controller.Cleanup.{cluster_role_key}
use nfs_provisioner_operator.Controller.Reconcile.{finalizer_name}

abbrev pub req : NamespacedName
req = named "tenant" "nfs"

-- Only the empty choice of storage.
abbrev pub plain : NfsProvisionerSpec
plain = record {
  host_path_dir = "";
  pvc = "";
  storage_size = "";
  sc_for_nfs_pvc = "";
  node_selector = none;
  sc_for_nfs_provisioner = "";
  nfs_image_configuration = none;
}

abbrev pub resource : NfsProvisionerSpec → NfsProvisioner
resource spec = record {
  metadata = record zero_meta { name = "nfs"; namespace = "tenant"; uid = "u-1" };
  spec = spec;
  status = record { nodes = none; error = "" };
}

-- A resource as a user writes it, and as it is after the first run.
abbrev pub live : NfsProvisioner
live = resource plain

abbrev pub registered : NfsProvisioner
registered = record live { metadata = record live.metadata { finalizers = finalizer_name ∷ [] } }

-- The resource once it is being deleted.
abbrev pub deleted : NfsProvisioner
deleted = record registered {
  metadata = record registered.metadata { deletion_timestamp = some 5 };
}

-- One with two choices of storage, and one with a size that is no quantity.
abbrev pub torn : NfsProvisioner
torn = resource (record plain { pvc = "mine"; host_path_dir = "/srv" })

abbrev pub unsized : NfsProvisioner
unsized = resource (record plain { storage_size = "ten" })

-- Clusters that hold the resource, and nothing else or a little more.
abbrev pub only : NfsProvisioner → View
only m nfs_provisioner n = if same_name n req then some m else none
only m _ n = none

abbrev pub scc_crd : CustomResourceDefinition
scc_crd = record { metadata = record zero_meta { name = crd_key.name } }

abbrev pub with_crd : NfsProvisioner → View
with_crd m nfs_provisioner n = if same_name n req then some m else none
with_crd m custom_resource_definition n = if same_name n crd_key then some scc_crd else none
with_crd m _ n = none

abbrev pub old_role : ClusterRole
old_role = record { metadata = record zero_meta { name = cluster_role_key.name }; rules = [] }

abbrev pub with_role : NfsProvisioner → View
with_role m nfs_provisioner n = if same_name n req then some m else none
with_role m cluster_role n = if same_name n cluster_role_key then some old_role else none
with_role m _ n = none

abbrev pub calm : View → Memory
calm tables = record { tables = tables; outages = [] }
