-- ===== src/Controller/Cleanup.antt =====
-- `deleteExternalResources` of controllers/nfsprovisioner_controller.go.
use nfs_provisioner_operator.Base.Exec.{Exec, found, failed, ask, call, pure, ◌>>=◌, ◌>>◌}
use nfs_provisioner_operator.Kube.Meta.{NamespacedName, named}
use nfs_provisioner_operator.Defaults
use nfs_provisioner_operator.Cluster.{Kind, Platform, cluster_role, cluster_role_binding}

abbrev pub cluster_role_key : NamespacedName
cluster_role_key = named "" Defaults.cluster_role

abbrev pub cluster_role_binding_key : NamespacedName
cluster_role_binding_key = named "" Defaults.cluster_role_binding

module _ (P : Platform) where
  open P use {State, Error, get, delete}

  -- One half of the function: `if err == nil`, any error of the read is taken for absence.
  unfoldable pub delete_if_found : Kind → NamespacedName → Exec State Error (Unit {0})
  delete_if_found k n = do
    reply ← ask (get k n)
    elim reply [ found o ↦ call (delete k o) | failed _ ↦ pure tt ]

  unfoldable pub delete_external_resources : Exec State Error (Unit {0})
  unfolding delete_if_found
  delete_external_resources = do
    delete_if_found cluster_role cluster_role_key
    delete_if_found cluster_role_binding cluster_role_binding_key
