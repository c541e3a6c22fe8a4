-- ===== src/Controller/Works.antt =====
-- A first run on a resource.
use nfs_provisioner_operator.Base.{true, none, ◌≡◌, sym, subst}
use nfs_provisioner_operator.Base.Lists.{All}
use nfs_provisioner_operator.Base.Exec.{ok, found}
use nfs_provisioner_operator.Kube.Meta.{NamespacedName}
use nfs_provisioner_operator.Api.{NfsProvisioner}
use nfs_provisioner_operator.Cluster.{Platform, nfs_provisioner}
use nfs_provisioner_operator.Cluster.Laws.{View, IsLawful, HasHelpers}
use nfs_provisioner_operator.Cluster.Growth.{Ref}
use nfs_provisioner_operator.Resources.All.{rest_managed}
use nfs_provisioner_operator.Resources.Works.{Works, Works-agree}
use nfs_provisioner_operator.Resources.Works.Made.{ensure_all_resources-Works}
use nfs_provisioner_operator.Controller.Validate.{validate}
use nfs_provisioner_operator.Controller.Reconcile.{ReconcileResult}
use nfs_provisioner_operator.Controller.Steps.{start, run}
use nfs_provisioner_operator.Controller.Live.{live_parts}

module _ (P : Platform) (L : IsLawful P) (H : HasHelpers P) (req : NamespacedName) (s : P.State)
    (m : NfsProvisioner) where
  -- If the resource that a run reads is valid and not being deleted, the cluster has none of the
  -- objects that the managers after the first are to make, and the run succeeds, then what is in
  -- the cluster works together: the deployment, owned by the resource, with its pods' account and
  -- the claims that it mounts; the two bindings, each of which lists that account and names a role
  -- of its kind that is there, with the rules to make and delete volumes, to watch claims and
  -- classes, and to lock by endpoints; and the service, owned by the resource, which selects the
  -- labels of the pods.
  pub reconcile-Works :
      (P.get nfs_provisioner req s).0 ≡ found m
      → validate m ≡ none
      → P.is_zero m.metadata.deletion_timestamp ≡ true
      → All (λ (r : Ref). L.view s r.0 r.1 ≡ none) (rest_managed m)
      → (result : ReconcileResult) → (run P req s).0 ≡ ok result
      → Works m (L.view (run P req s).1)
  reconcile-Works seen valid alive missing result h =
      let (fine, _, agree, _) = live_parts P L H req s m seen valid alive result h in
      let absent =
        subst (λ (v : View). All (λ (r : Ref). v r.0 r.1 ≡ none) (rest_managed m))
          (sym (L.view-get nfs_provisioner req s)) missing in
      Works-agree _ _ agree m (ensure_all_resources-Works P L H m (start P req s) absent fine)
