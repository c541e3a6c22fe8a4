-- ===== src/Cluster.antt =====
-- What the operator calls and does not implement, as a parameter: the cluster behind
-- controller-runtime's client, and the helper functions of the Kubernetes libraries.
pub mod Laws
pub mod Growth
pub mod Answers
pub mod Memory
use nfs_provisioner_operator.Base.{String, Bool, Option}
use nfs_provisioner_operator.Base.Exec.{Reply}
use nfs_provisioner_operator.Kube.Meta.{Time, ObjectMeta, NamespacedName}
use nfs_provisioner_operator.Kube.Core.{ServiceAccount, Service, PersistentVolumeClaim, Quantity}
use nfs_provisioner_operator.Kube.Apps.{Deployment}
use nfs_provisioner_operator.Kube.Rbac.{ClusterRole, ClusterRoleBinding, Role, RoleBinding}
use nfs_provisioner_operator.Kube.Storage.{StorageClass, CustomResourceDefinition}
use nfs_provisioner_operator.Kube.Security.{SecurityContextConstraints}
use nfs_provisioner_operator.Api.{NfsProvisioner}

-- The kinds of object that the operator reads or writes.
pub data Kind : Type 0 where
  nfs_provisioner custom_resource_definition security_context_constraints : Kind
  persistent_volume_claim service_account cluster_role cluster_role_binding : Kind
  role role_binding deployment service storage_class : Kind

-- The Go type of an object of a kind.
abbrev pub Object : Kind → Type 0
Object nfs_provisioner = NfsProvisioner
Object custom_resource_definition = CustomResourceDefinition
Object security_context_constraints = SecurityContextConstraints
Object persistent_volume_claim = PersistentVolumeClaim
Object service_account = ServiceAccount
Object cluster_role = ClusterRole
Object cluster_role_binding = ClusterRoleBinding
Object role = Role
Object role_binding = RoleBinding
Object deployment = Deployment
Object service = Service
Object storage_class = StorageClass

abbrev pub meta : (k : Kind) → Object k → ObjectMeta
meta nfs_provisioner o = o.metadata
meta custom_resource_definition o = o.metadata
meta security_context_constraints o = o.metadata
meta persistent_volume_claim o = o.metadata
meta service_account o = o.metadata
meta cluster_role o = o.metadata
meta cluster_role_binding o = o.metadata
meta role o = o.metadata
meta role_binding o = o.metadata
meta deployment o = o.metadata
meta service o = o.metadata
meta storage_class o = o.metadata

-- The client's methods answer `none` for a nil error. `set_controller_reference` gives the error
-- and the meta that it leaves; `is_zero` is the method of a `*metav1.Time`; `parse_quantity` is
-- `resource.MustParse`, which panics where it has no value.
pub record Platform : Type 1 where
  pub State : Type 0
  pub Error : Type 0
  pub is_not_found : Error → Bool
  pub ignore_not_found : Error → Option Error
  pub get : (k : Kind) → NamespacedName → State → Reply Error (Object k) × State
  pub create : (k : Kind) → Object k → State → Option Error × State
  pub update : (k : Kind) → Object k → State → Option Error × State
  pub update_status : (k : Kind) → Object k → State → Option Error × State
  pub delete : (k : Kind) → Object k → State → Option Error × State
  pub set_controller_reference : NfsProvisioner → ObjectMeta → Option Error × ObjectMeta
  pub add_finalizer : ObjectMeta → String → ObjectMeta
  pub remove_finalizer : ObjectMeta → String → ObjectMeta
  pub is_zero : Option Time → Bool
  pub parse_quantity : String → Option Quantity
