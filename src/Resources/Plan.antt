-- ===== src/Resources/Plan.antt =====
-- The managers after the first as one plan: a list of objects, each read and created if missing.
use nfs_provisioner_operator.Base.{false, ◌≡◌, refl, ◌∙◌, ap, fun_ext, is_set, List, [], ◌∷◌}
use nfs_provisioner_operator.Base.Exec.{Outcome, Exec, ok, err, panic, continue, pure, ◌>>◌}
use nfs_provisioner_operator.Kube.Meta.{NamespacedName}
use nfs_provisioner_operator.Api.{NfsProvisioner}
use nfs_provisioner_operator.Cluster.{Kind, Object, Platform}
use nfs_provisioner_operator.Resources.GetOrCreate.{get_or_create}
use nfs_provisioner_operator.Resources.Refinement.{
  service_account_refines, storage_class_refines, service_refines, deployment_refines,
  cluster_role_refines, cluster_role_binding_refines, role_refines, role_binding_refines,
  pvc_refines,
}
use nfs_provisioner_operator.Resources.Refs.{
  pvc_ref, service_account_ref, cluster_role_ref, cluster_role_binding_ref, role_ref,
  role_binding_ref, deployment_ref, service_ref, storage_class_ref,
}
use nfs_provisioner_operator.Resources.ServiceAccount
use nfs_provisioner_operator.Resources.StorageClass
use nfs_provisioner_operator.Resources.Service
use nfs_provisioner_operator.Resources.Pvc
use nfs_provisioner_operator.Resources.Deployment
use nfs_provisioner_operator.Resources.Rbac
use nfs_provisioner_operator.Resources.All.{ensure_all, ensure_rest}
use nfs_provisioner_operator.Resources.Manager.{ensure_each, ensure_all_resources}
use nfs_provisioner_operator.Resources.Scc

module _ (P : Platform) where
  open P use {State, Error}

  -- An object of the plan: its name, and the one to create.
  pub record Entry : Type 0 where
    pub kind : Kind
    pub name : NamespacedName
    pub build : Outcome Error (Object kind)

  abbrev entry : (r : Kind × NamespacedName) → Outcome Error (Object r.0) → Entry
  entry r build = record { kind = r.0; name = r.1; build = build }

  -- Each entry in turn, up to the first that fails.
  pub create_missing : List Entry → Exec State Error (Unit {0})
  create_missing [] = pure tt
  create_missing (e ∷ es) = get_or_create P e.kind e.name e.build >> create_missing es

  continue_assoc :
      (r : Outcome Error (Unit {0})) (y z : Exec State Error (Unit {0})) (s : State)
      → (continue r (λ _. y) >> z) s ≡ continue r (λ _. y >> z) s
  continue_assoc (ok a) y z s = refl
  continue_assoc (err e) y z s = refl
  continue_assoc panic y z s = refl

  then_assoc : (x y z : Exec State Error (Unit {0})) → ((x >> y) >> z) ≡ (x >> (y >> z))
  then_assoc x y z = fun_ext λ s. continue_assoc (x s).0 y z (x s).1

  -- The objects of a resource that needs a claim made, in order.
  abbrev pub plan : NfsProvisioner → List Entry
  plan m =
      entry (pvc_ref m) (Pvc.build_pvc P m)
      ∷ entry (service_account_ref m) (ok (ServiceAccount.build_service_account P m))
      ∷ entry cluster_role_ref (ok (Rbac.build_cluster_role P m))
      ∷ entry cluster_role_binding_ref (ok (Rbac.build_cluster_role_binding P m))
      ∷ entry (role_ref m) (ok (Rbac.build_role P m))
      ∷ entry (role_binding_ref m) (ok (Rbac.build_role_binding P m))
      ∷ entry (deployment_ref m) (ok (Deployment.build_deployment P m (Deployment.storage_type m)))
      ∷ entry (service_ref m) (ok (Service.build_service P m))
      ∷ entry (storage_class_ref m) (ok (StorageClass.build_storage_class P m))
      ∷ []

  then_assoc_four :
      (a b c d z : Exec State Error (Unit {0}))
      → ((a >> (b >> (c >> d))) >> z) ≡ (a >> (b >> (c >> (d >> z))))
  then_assoc_four a b c d z =
      then_assoc a (b >> (c >> d)) z
      ∙ ap (λ w. a >> w) (then_assoc b (c >> d) z ∙ ap (λ w. b >> w) (then_assoc c d z))

  rbac_then :
      (m : NfsProvisioner) (z : Exec State Error (Unit {0}))
      → (Rbac.ensure_resource P m >> z) ≡ (
          Rbac.ensure_cluster_role P m
          >> (Rbac.ensure_cluster_role_binding P m
              >> (Rbac.ensure_role P m >> (Rbac.ensure_role_binding P m >> z))))
  unfolding Rbac.ensure_resource
  rbac_then m z =
      then_assoc_four (Rbac.ensure_cluster_role P m) (Rbac.ensure_cluster_role_binding P m)
        (Rbac.ensure_role P m) (Rbac.ensure_role_binding P m) z

  then_cong : {w x y z : Exec State Error (Unit {0})} → w ≡ x → y ≡ z → (w >> y) ≡ (x >> z)
  then_cong {x} {y} e f = ap (λ a. a >> y) e ∙ ap (λ b. x >> b) f

  ensure_rest_refines :
      (m : NfsProvisioner)
      → is_set m.spec.host_path_dir ≡ false
      → is_set m.spec.pvc ≡ false
      → ensure_rest P m ≡ create_missing (plan m)
  unfolding ensure_each create_missing
  ensure_rest_refines m no_path own = then_cong (fun_ext (pvc_refines P m no_path own)) (
      then_cong (service_account_refines P m) (
        rbac_then m _
        ∙ then_cong (cluster_role_refines P m) (
            then_cong (cluster_role_binding_refines P m) (
              then_cong (role_refines P m) (
                then_cong (role_binding_refines P m) (
                  then_cong (deployment_refines P m) (
                    then_cong (service_refines P m)
                      (then_cong (storage_class_refines P m) refl))))))))

  -- With neither a host path nor a claim of the user's, `EnsureAllResources` is the manager of the
  -- constraints followed by a plan of nine objects, in order, each of which is read and, if the
  -- read says that it is missing, created, up to the first that fails.
  pub ensure_all_resources_refines :
      (m : NfsProvisioner)
      → is_set m.spec.host_path_dir ≡ false
      → is_set m.spec.pvc ≡ false
      → ensure_all P m ≡ (Scc.ensure_resource P m >> create_missing (plan m))
  unfolding ensure_all_resources ensure_each
  ensure_all_resources_refines m no_path own =
      ap (λ y. Scc.ensure_resource P m >> y) (ensure_rest_refines m no_path own)
