-- ===== src/Examples/Managers.antt =====
-- Runs of the managers.
use nfs_provisioner_operator.Base.{true, false, [], ◌∷◌, ◌≡◌, ◌≢◌, ◌↔◌, refl, inl, inr}
use nfs_provisioner_operator.Base.Exec.{ok, err, panic, ◌>>◌}
use nfs_provisioner_operator.Kube.Meta.{same_name}
use nfs_provisioner_operator.Kube.Security.{SecurityContextConstraints}
use nfs_provisioner_operator.Cluster.{security_context_constraints}
use nfs_provisioner_operator.Cluster.Memory.{Memory, unavailable, memory, memory_view}
use nfs_provisioner_operator.Cluster.Memory.Laws.{memory-IsLawful}
use nfs_provisioner_operator.Cluster.Memory.Helpers.{memory-HasHelpers}
use nfs_provisioner_operator.Cluster.Memory.Answers.{memory-Answers}
use nfs_provisioner_operator.Resources.Manager.{ensure_each}
use nfs_provisioner_operator.Resources.Scc
use nfs_provisioner_operator.Resources.Scc.{is_scc_crd_available}
use nfs_provisioner_operator.Resources.Pvc
use nfs_provisioner_operator.Resources.Manager.{new_resource_manager_set}
use nfs_provisioner_operator.Resources.Scc.{user_to_add, add_user}
use nfs_provisioner_operator.Resources.Scc.Mistakes.{add_user-mistaken}
use nfs_provisioner_operator.Resources.Works.Admitted.{Admitted, ensure_all_resources-Admitted}
use nfs_provisioner_operator.Resources.Plan.{create_missing, plan, ensure_all_resources_refines}
use nfs_provisioner_operator.Resources.All.{ensure_all}
use nfs_provisioner_operator.Resources.Settles.{ensure_all_resources-settles}
use nfs_provisioner_operator.Resources.Succeed.{ensure_all_resources-succeeds}
use nfs_provisioner_operator.Resources.Skips.{ensure_all_resources-skips}
use nfs_provisioner_operator.Resources.Panics.{BadSize, ClaimMissing, pvc-panic_iff}
use nfs_provisioner_operator.Examples.Data.{live, unsized, only, with_crd, scc_crd, calm}

abbrev fresh : Memory
fresh = calm (only live)

abbrev openshift : Memory
openshift = calm (with_crd live)

ensure_all_resources-succeeds_example :
    ((ensure_all memory live fresh).0 ≡ ok tt) × ((ensure_all memory live fresh).1.outages ≡ [])
unfolding memory-IsLawful memory-Answers
ensure_all_resources-succeeds_example =
    ensure_all_resources-succeeds memory memory-IsLawful memory-Answers memory-HasHelpers live fresh
      refl (inr (inr (refl, (10000000000, refl))))

fresh-done : (ensure_all memory live fresh).0 ≡ ok tt
unfolding memory-IsLawful memory-Answers
fresh-done =
    (ensure_all_resources-succeeds memory memory-IsLawful memory-Answers memory-HasHelpers live
      fresh refl (inr (inr (refl, (10000000000, refl))))).0

openshift-done : (ensure_all memory live openshift).0 ≡ ok tt
unfolding memory-IsLawful memory-Answers
openshift-done =
    (ensure_all_resources-succeeds memory memory-IsLawful memory-Answers memory-HasHelpers live
      openshift refl (inr (inr (refl, (10000000000, refl))))).0

ensure_all_resources-Admitted_example :
    Admitted live (memory_view (ensure_all memory live openshift).1)
unfolding memory-IsLawful same_name
ensure_all_resources-Admitted_example =
    ensure_all_resources-Admitted memory memory-IsLawful memory-HasHelpers live openshift scc_crd
      refl refl refl openshift-done

ensure_all_resources-settles_example :
    memory_view (ensure_all memory live (ensure_all memory live openshift).1).1
    ≡ memory_view (ensure_all memory live openshift).1
unfolding memory-IsLawful same_name
ensure_all_resources-settles_example =
    ensure_all_resources-settles memory memory-IsLawful memory-HasHelpers live openshift
      (inl (scc_crd, refl)) openshift-done

-- The claim's manager.
pvc-panic_iff_example :
    ((Pvc.ensure_resource memory unsized fresh).0 ≡ panic)
    ↔ (BadSize memory unsized × ClaimMissing memory unsized fresh)
pvc-panic_iff_example = pvc-panic_iff memory unsized fresh

ensure_all_resources_refines_example :
    ensure_all memory live
    ≡ (Scc.ensure_resource memory live >> create_missing memory (plan memory live))
ensure_all_resources_refines_example = ensure_all_resources_refines memory live refl refl

-- The first manager fails, and the other six are not run.
abbrev shaky : Memory
shaky = record { tables = with_crd live; outages = false ∷ true ∷ [] }

shaky-fails : (Scc.ensure_resource memory live shaky).0 ≡ err unavailable
unfolding Scc.ensure_resource is_scc_crd_available same_name
shaky-fails = refl

loop-fails : (ensure_each memory ((new_resource_manager_set memory).scc ∷ []) live shaky).0 ≢ ok tt
unfolding ensure_each Scc.ensure_resource is_scc_crd_available same_name
loop-fails h = cc

-- The account of the namespace `my-tenant` is taken for that of `tenant`.
abbrev shared : SecurityContextConstraints
shared = record (Scc.build_scc memory live) { users = user_to_add "my-tenant" ∷ [] }

add_user-mistaken_example : add_user memory live shared fresh ≡ (ok tt, fresh)
add_user-mistaken_example = add_user-mistaken memory live shared "my-" fresh (inl refl)

-- The read of the definition fails, though it is in the cluster.
abbrev hidden : Memory
hidden = record { tables = with_crd live; outages = true ∷ [] }

ensure_all_resources-skips_example :
    memory_view (ensure_all memory live hidden).1 security_context_constraints Scc.scc_key
    ≡ memory_view hidden security_context_constraints Scc.scc_key
unfolding memory-IsLawful
ensure_all_resources-skips_example =
    ensure_all_resources-skips memory memory-IsLawful memory-HasHelpers live hidden unavailable
      Scc.scc_key refl
