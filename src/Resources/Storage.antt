-- ===== src/Resources/Storage.antt =====
-- The claim's manager succeeds in a cluster that answers, if the storage can be had.
use mathlib.Core.Option.{none-ne-some}
use nfs_provisioner_operator.Base.{
  true, false, none, some, [], ◌∷◌, ◌≡◌, refl, sym, ◌∙◌, ap, ◌⊎◌, inl, inr, Bool-cases, is_set,
}
use nfs_provisioner_operator.Base.Exec.{ok, Reply, found, failed}
use nfs_provisioner_operator.Kube.Meta.{NamespacedName, ObjectMeta, named, zero_meta}
use nfs_provisioner_operator.Kube.Core.{read_write_once, PersistentVolumeClaim, Quantity}
use nfs_provisioner_operator.Api.{NfsProvisioner}
use nfs_provisioner_operator.Defaults
use nfs_provisioner_operator.Cluster.{Platform, persistent_volume_claim}
use nfs_provisioner_operator.Cluster.Laws.{View, IsLawful, HasHelpers}
use nfs_provisioner_operator.Cluster.Growth.{Growing, Present, Present-grow}
use nfs_provisioner_operator.Cluster.Answers.{Answers}
use nfs_provisioner_operator.Resources.Success.{Fine, Works-get_or_create}
use nfs_provisioner_operator.Resources.Promises.{key-owned}
use nfs_provisioner_operator.Resources.Refinement.{pvc_refines}
use nfs_provisioner_operator.Resources.Pvc

-- The storage that the resource asks for can be had: a host path, a claim of the user's that
-- exists, or a claim to be made whose size is a quantity.
abbrev pub HasStorage : Platform → NfsProvisioner → View → Type 0
HasStorage P m v =
    (is_set m.spec.host_path_dir ≡ true)
    ⊎ ((is_set m.spec.pvc ≡ true)
        × Present v (persistent_volume_claim, named m.metadata.namespace m.spec.pvc))
    ⊎ ((is_set m.spec.pvc ≡ false)
        × ((size : Quantity) × (P.parse_quantity (Pvc.pvc_size m) ≡ some size)))

module _ (P : Platform) (L : IsLawful P) (A : Answers P L) (H : HasHelpers P)
    (m : NfsProvisioner) where
  open P use {State, Error, is_not_found, get, create, update}
  open L use {view, view-get}
  open A use {IsUp}

  pub unmarked :
      (o : ObjectMeta)
      → o.deletion_timestamp ≡ none
      → (P.set_controller_reference m o).1.deletion_timestamp ≡ none
  unmarked o e = ap (λ (x : ObjectMeta). x.deletion_timestamp) (H.references_only m o) ∙ e

  -- The claim's manager, in the three cases.
  pvc_given :
      (s : State)
      → IsUp s
      → is_set m.spec.host_path_dir ≡ false
      → is_set m.spec.pvc ≡ true
      → Present (view s) (persistent_volume_claim, named m.metadata.namespace m.spec.pvc)
      → Fine P L A (Pvc.ensure_resource P m s)
  unfolding Pvc.ensure_resource
  pvc_given s up no_path given (x, there) = by_reply (get persistent_volume_claim n s).0 refl
    where
      n : NamespacedName
      n = named m.metadata.namespace m.spec.pvc

      by_reply :
          (reply : Reply Error PersistentVolumeClaim)
          → (get persistent_volume_claim n s).0 ≡ reply
          → Fine P L A (Pvc.ensure_resource P m s)
      by_reply (found o) e =
          rw (no_path, given, e) (refl, A.get-IsUp persistent_volume_claim n s up)
      by_reply (failed e') e = absurd (
          none-ne-some x (
            sym (
              L.get-missing persistent_volume_claim n s e' e
                (A.get-answers persistent_volume_claim n s e' up e))
            ∙ there))

  pvc_of : Quantity → PersistentVolumeClaim
  pvc_of size = record {
    metadata =
        (P.set_controller_reference m
          (record zero_meta { name = Defaults.pvc; namespace = m.metadata.namespace })).1;
    access_modes = read_write_once ∷ [];
    storage_request = size;
    storage_class_name = some (Pvc.pvc_class m);
  }

  build_pvc-ok :
      (size : Quantity)
      → P.parse_quantity (Pvc.pvc_size m) ≡ some size
      → Pvc.build_pvc P m ≡ ok (pvc_of size)
  unfolding Pvc.build_pvc pvc_of
  build_pvc-ok size parsed = rw (Pvc.build_pvc, parsed)

  pvc_made :
      (s : State) (size : Quantity)
      → IsUp s
      → is_set m.spec.host_path_dir ≡ false
      → is_set m.spec.pvc ≡ false
      → P.parse_quantity (Pvc.pvc_size m) ≡ some size
      → Fine P L A (Pvc.ensure_resource P m s)
  unfolding pvc_of
  pvc_made s size up no_path own parsed = rw (pvc_refines P m no_path own s) (
      Works-get_or_create P L A persistent_volume_claim _ (Pvc.build_pvc P m) (pvc_of size)
        (build_pvc-ok size parsed) (key-owned P H m _) (unmarked _ refl) s up)

  pvc_idle :
      (s : State)
      → IsUp s
      → is_set m.spec.host_path_dir ≡ true
      → Fine P L A (Pvc.ensure_resource P m s)
  unfolding Pvc.ensure_resource
  pvc_idle s up path = rw path (refl, up)

  pub pvc-Fine :
      (s : State) → IsUp s → HasStorage P m (view s) → Fine P L A (Pvc.ensure_resource P m s)
  pvc-Fine s up (inl path) = pvc_idle s up path
  pvc-Fine s up (inr rest) = elim (Bool-cases (is_set m.spec.host_path_dir)) [
    | inl path ↦ pvc_idle s up path
    | inr no_path ↦ elim rest [
      | inl (given, there) ↦ pvc_given s up no_path given there
      | inr (own, (size, parsed)) ↦ pvc_made s size up no_path own parsed
    ]
  ]

  pub HasStorage-grow : (v w : View) → Growing v w → HasStorage P m v → HasStorage P m w
  HasStorage-grow v w g (inl path) = inl path
  HasStorage-grow v w g (inr (inl (given, there))) = inr (
      inl (
        given,
        Present-grow v w (persistent_volume_claim, named m.metadata.namespace m.spec.pvc) g there,
      ))
  HasStorage-grow v w g (inr (inr own)) = inr (inr own)
