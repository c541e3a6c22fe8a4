-- ===== src/Resources/Agreement.antt =====
-- Writes to the custom resource alone leave the managed objects in place.
use nfs_provisioner_operator.Base.{Bool, true, false, ◌≡◌, ◌≢◌, ◌∙◌, if◌then◌else◌, is_set}
use nfs_provisioner_operator.Kube.Meta.{NamespacedName}
use nfs_provisioner_operator.Api.{NfsProvisioner}
use nfs_provisioner_operator.Cluster.{
  Kind, nfs_provisioner, persistent_volume_claim, service_account, cluster_role,
  cluster_role_binding, role, role_binding, deployment, service, storage_class,
}
use nfs_provisioner_operator.Cluster.Laws.{View}
use nfs_provisioner_operator.Cluster.Growth.{Present}
use nfs_provisioner_operator.Resources.All.{IsReady}

-- The views hold the same objects of every kind but the custom resource.
abbrev pub Agrees : View → View → Type 0
Agrees v w = (k : Kind) (n : NamespacedName) → k ≢ nfs_provisioner → w k n ≡ v k n

module _ (v w : View) (agree : Agrees v w) where
  pub Present-agree :
      (k : Kind) (n : NamespacedName) → k ≢ nfs_provisioner → Present v (k, n) → Present w (k, n)
  Present-agree k n other (x, e) = (x, agree k n other ∙ e)

  if_map : (b : Bool) (U V W : Type 0) → (V → W) → (if b then U else V) → (if b then U else W)
  if_map true U V W f u = u
  if_map false U V W f x = f x

  pub IsReady-agree : (m : NfsProvisioner) → IsReady m v → IsReady m w
  IsReady-agree m r = record {
    claim =
        if_map (is_set m.spec.host_path_dir) _ _ _
          (Present-agree persistent_volume_claim _ (λ p. cc)) r.claim;
    account = Present-agree service_account _ (λ p. cc) r.account;
    access = (
      Present-agree cluster_role _ (λ p. cc) r.access.0,
      (
        Present-agree cluster_role_binding _ (λ p. cc) r.access.1.0,
        (
          Present-agree role _ (λ p. cc) r.access.1.1.0,
          Present-agree role_binding _ (λ p. cc) r.access.1.1.1,
        ),
      ),
    );
    deployment = Present-agree deployment _ (λ p. cc) r.deployment;
    service = Present-agree service _ (λ p. cc) r.service;
    storage_class = Present-agree storage_class _ (λ p. cc) r.storage_class;
  }
