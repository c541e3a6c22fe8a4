-- ===== src/Resources/Works/Admitted.antt =====
-- The constraints that are made admit the pods of the deployment that is made.
use nfs_provisioner_operator.Base.{ap, String, none, some, ◌≡◌, subst}
use nfs_provisioner_operator.Base.Exec.{ok, found}
use nfs_provisioner_operator.Kube.Meta.{named}
use nfs_provisioner_operator.Kube.Security.{SecurityContextConstraints}
use nfs_provisioner_operator.Kube.Apps.{Deployment as AppDeployment}
use nfs_provisioner_operator.Kube.Storage.{CustomResourceDefinition}
use nfs_provisioner_operator.Api.{NfsProvisioner}
use nfs_provisioner_operator.Defaults
use nfs_provisioner_operator.Cluster.{
  Platform, custom_resource_definition, security_context_constraints, deployment,
}
use nfs_provisioner_operator.Cluster.Laws.{View, IsLawful, HasHelpers, Stored}
use nfs_provisioner_operator.Resources.Scc
use nfs_provisioner_operator.Resources.Scc.{crd_key, scc_key}
use nfs_provisioner_operator.Resources.Deployment
use nfs_provisioner_operator.Resources.Consistency.{Admits, build_scc-Admits}
use nfs_provisioner_operator.Resources.All.{
  ensure_all, ensure_all_resources-IsReady, ensure_all_resources-SccReady,
}
use nfs_provisioner_operator.Resources.Works.Made.{made}

-- The constraints and the deployment are in the cluster, and the one admits the pods of the other.
pub record Admitted (m : NfsProvisioner) (v : View) : Type 0 where
  pub constraints : SecurityContextConstraints
  pub here : v security_context_constraints scc_key ≡ some constraints
  pub pods : AppDeployment
  pub pods_here : v deployment (named m.metadata.namespace Defaults.deployment) ≡ some pods
  pub admits : Admits constraints m.metadata.namespace pods.pod

-- What the server keeps of constraints and of a deployment is all that admission looks at.
Admits-Stored :
    (scc scc_kept : SecurityContextConstraints) (d d_kept : AppDeployment) (namespace : String)
    → Stored security_context_constraints scc scc_kept
    → Stored deployment d d_kept
    → Admits scc namespace d.pod
    → Admits scc_kept namespace d_kept.pod
Admits-Stored scc scc_kept d d_kept namespace (users, same) (_, _, _, _, volumes, containers) h =
    rw
      (
        users,
        ap (λ (o : SecurityContextConstraints). o.allow_host_dir_volume_plugin) same,
        ap (λ (o : SecurityContextConstraints). o.allowed_capabilities) same,
        ap (λ (o : SecurityContextConstraints). o.required_drop_capabilities) same,
        ap (λ (o : SecurityContextConstraints). o.volumes) same,
        volumes,
        containers,
      )
      h

module _ (P : Platform) (L : IsLawful P) (H : HasHelpers P) (m : NfsProvisioner) where
  open L use {view}

  -- If the read of the constraints' definition succeeds, neither the constraints nor the deployment
  -- are in the cluster, and `EnsureAllResources` succeeds, then both are in the cluster afterwards,
  -- and the constraints admit the pods of the deployment: they list the service account of the
  -- resource's namespace, every capability that a container adds is allowed, every capability that
  -- has to be dropped is dropped, and every kind of volume is allowed.
  pub ensure_all_resources-Admitted :
      (s : P.State) (crd : CustomResourceDefinition)
      → (P.get custom_resource_definition crd_key s).0 ≡ found crd
      → view s security_context_constraints scc_key ≡ none
      → view s deployment (named m.metadata.namespace Defaults.deployment) ≡ none
      → (ensure_all P m s).0 ≡ ok tt
      → Admitted m (view (ensure_all P m s).1)
  ensure_all_resources-Admitted s crd seen no_scc no_pods fine =
      let (x, there, _) = ensure_all_resources-SccReady P L H m s crd seen fine in
      let scc = made P L H m s security_context_constraints scc_key no_scc (x, there) in
      let pods =
        made P L H m s deployment _ no_pods
          (ensure_all_resources-IsReady P L H m s fine).deployment in
      record {
        constraints = scc.kept;
        here = scc.here;
        pods = pods.kept;
        pods_here = pods.here;
        admits =
            Admits-Stored (Scc.build_scc P m) scc.kept
              (Deployment.build_deployment P m (Deployment.storage_type m)) pods.kept
              m.metadata.namespace
              (subst (λ o. Stored security_context_constraints o scc.kept) scc.built scc.stored)
              (subst (λ o. Stored deployment o pods.kept) pods.built pods.stored)
              (build_scc-Admits P m);
      }
