-- ===== src/Examples/Builders.antt =====
-- What the managers build, and the helpers on strings.
use nfs_provisioner_operator.Base.{◌≤◌, none, [], ◌≡◌, ◌↔◌, refl, inl, inr}
use nfs_provisioner_operator.Base.Lists.{All}
use nfs_provisioner_operator.Base.Exec.{ok}
use nfs_provisioner_operator.Kube.Meta.{named}
use nfs_provisioner_operator.Kube.Core.{claim}
use nfs_provisioner_operator.Cluster.{persistent_volume_claim}
use nfs_provisioner_operator.Cluster.Growth.{Present}
use nfs_provisioner_operator.Cluster.Memory.{memory, memory_view}
use nfs_provisioner_operator.Cluster.Memory.Laws.{memory-IsLawful}
use nfs_provisioner_operator.Cluster.Memory.Helpers.{memory-HasHelpers}
use nfs_provisioner_operator.Cluster.Memory.Answers.{memory-Answers}
use nfs_provisioner_operator.Resources.Deployment
use nfs_provisioner_operator.Resources.All.{ensure_all}
use nfs_provisioner_operator.Resources.Succeed.{ensure_all_resources-succeeds}
use nfs_provisioner_operator.Resources.Consistency.{
  Grants, bindings-Grants, ensure_all_resources-claim,
}
use nfs_provisioner_operator.Resources.Ownership.{cluster_scoped, builders-unowned}
use nfs_provisioner_operator.Controller.Validate.{validate}
use nfs_provisioner_operator.Controller.Validity.{choices, validate-eq-none_iff}
use nfs_provisioner_operator.Examples.Data.{live, torn, only, calm}

validate-eq-none_iff_example : (validate torn ≡ none) ↔ (choices torn ≤ 1)
validate-eq-none_iff_example = validate-eq-none_iff torn

bindings-Grants_example : Grants memory live
bindings-Grants_example = bindings-Grants memory live memory-HasHelpers

live-done : (ensure_all memory live (calm (only live))).0 ≡ ok tt
unfolding memory-IsLawful memory-Answers
live-done =
    (ensure_all_resources-succeeds memory memory-IsLawful memory-Answers memory-HasHelpers live
      (calm (only live)) refl (inr (inr (refl, (10000000000, refl))))).0

ensure_all_resources-claim_example :
    Present
      (memory_view (ensure_all memory live (calm (only live))).1)
      (persistent_volume_claim, named "tenant" "nfs-server")
unfolding memory-IsLawful Deployment.build_deployment Deployment.get_volume_spec
ensure_all_resources-claim_example =
    ensure_all_resources-claim memory live memory-HasHelpers memory-IsLawful (calm (only live))
      live-done (record { name = "export-volume"; source = claim "nfs-server" }) "nfs-server"
      (inl refl) refl

builders-unowned_example : All (λ o. o.owner_references ≡ []) (cluster_scoped memory live)
builders-unowned_example = builders-unowned memory live memory-HasHelpers refl
