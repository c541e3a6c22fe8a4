-- ===== src/Defaults.antt =====
-- controllers/defaults/defaults.go: the names of the managed objects and the default settings.
use nfs_provisioner_operator.Base.{String, some, [], ◌∷◌}
use nfs_provisioner_operator.Kube.Meta.{StringMap}
use nfs_provisioner_operator.Kube.Core.{pull_always}

abbrev pub security_context_constraints : String
security_context_constraints = "nfs-provisioner"

abbrev pub pvc : String
pvc = "nfs-server"

abbrev pub storage_size : String
storage_size = "10G"

abbrev pub sc_for_nfs_pvc : String
sc_for_nfs_pvc = "local-sc"

abbrev pub service_account : String
service_account = "nfs-provisioner"

abbrev pub cluster_role : String
cluster_role = "nfs-provisioner-runner"

abbrev pub cluster_role_binding : String
cluster_role_binding = "nfs-provisioner-runner"

abbrev pub role : String
role = "leader-locking-nfs-provisioner"

abbrev pub role_binding : String
role_binding = "leader-locking-nfs-provisioner"

abbrev pub deployment : String
deployment = "nfs-provisioner"

abbrev pub service : String
service = "nfs-provisioner"

abbrev pub sc_for_nfs_provisioner : String
sc_for_nfs_provisioner = "nfs"

abbrev pub nfs_image : String
nfs_image =
    "k8s.gcr.io/sig-storage/nfs-provisioner@sha256:e943bb77c7df05ebdc8c7888b2db289b13bf9f012d6a3a5a74f14d4d5743d439"

abbrev pub nfs_image_pull_policy : String
nfs_image_pull_policy = pull_always

abbrev pub node_selector : StringMap
node_selector = some (("app", "nfs-provisioner") ∷ [])
