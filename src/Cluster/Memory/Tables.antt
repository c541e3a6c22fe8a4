-- ===== src/Cluster/Memory/Tables.antt =====
-- The tables of a cluster in memory, one for each kind of object.
use nfs_provisioner_operator.Base.{
  Option, ◌≡◌, ◌≢◌, refl, sym, ap, subst, inl, inr, Bool-cases, if◌then◌else◌,
}
use nfs_provisioner_operator.Kube.Meta.{NamespacedName, same_name, same_name_iff}
use nfs_provisioner_operator.Cluster.{
  Kind, Object, nfs_provisioner, custom_resource_definition, security_context_constraints,
  persistent_volume_claim, service_account, cluster_role, cluster_role_binding, role, role_binding,
  deployment, service, storage_class,
}
use nfs_provisioner_operator.Cluster.Laws.{View, IsOther}
use nfs_provisioner_operator.Cluster.Growth.{Kind-discrete}

abbrev Table : Kind → Type 0
Table k = NamespacedName → Option (Object k)

unfoldable pub put : (k : Kind) → Table k → View → View
put nfs_provisioner f t nfs_provisioner = f
put custom_resource_definition f t custom_resource_definition = f
put security_context_constraints f t security_context_constraints = f
put persistent_volume_claim f t persistent_volume_claim = f
put service_account f t service_account = f
put cluster_role f t cluster_role = f
put cluster_role_binding f t cluster_role_binding = f
put role f t role = f
put role_binding f t role_binding = f
put deployment f t deployment = f
put service f t service = f
put storage_class f t storage_class = f
put _ f t j = t j

put_self : (k : Kind) (f : Table k) (t : View) → put k f t k ≡ f
unfolding put
put_self nfs_provisioner f t = refl
put_self _ f t = refl

put-other : (k j : Kind) (f : Table k) (t : View) → j ≢ k → put k f t j ≡ t j
unfolding put
put-other nfs_provisioner nfs_provisioner f t differs = absurd (differs refl)
put-other custom_resource_definition custom_resource_definition f t differs = absurd (differs refl)
put-other security_context_constraints security_context_constraints f t differs =
    absurd (differs refl)
put-other persistent_volume_claim persistent_volume_claim f t differs = absurd (differs refl)
put-other service_account service_account f t differs = absurd (differs refl)
put-other cluster_role cluster_role f t differs = absurd (differs refl)
put-other cluster_role_binding cluster_role_binding f t differs = absurd (differs refl)
put-other role role f t differs = absurd (differs refl)
put-other role_binding role_binding f t differs = absurd (differs refl)
put-other deployment deployment f t differs = absurd (differs refl)
put-other service service f t differs = absurd (differs refl)
put-other storage_class storage_class f t differs = absurd (differs refl)
put-other _ _ f t differs = refl

-- The object of a kind under a name is replaced.
unfoldable pub write : (k : Kind) → NamespacedName → Option (Object k) → View → View
unfolding put same_name
write k n o t = put k (λ i. if same_name i n then o else t k i) t

pub write_self :
    (k : Kind) (n : NamespacedName) (o : Option (Object k)) (t : View) → write k n o t k n ≡ o
unfolding write
write_self k n o t = rw (put_self, (same_name_iff n n).1 refl)

pub write-other :
    (k : Kind) (n : NamespacedName) (o : Option (Object k)) (t : View) (j : Kind)
    (i : NamespacedName)
    → IsOther k n j i
    → write k n o t j i ≡ t j i
unfolding write
write-other k n o t j i differs = elim (Kind-discrete j k) [
  | yes p ↦ subst (λ l. write k n o t l i ≡ t l i) (sym p) (of_kind (λ q. differs (p, q)))
  | no p ↦ ap (λ (f : Table j). f i) (put-other k j _ t p)
]
  where
    of_kind : ¬ (i ≡ n) → write k n o t k i ≡ t k i
    of_kind q = elim (Bool-cases (same_name i n)) [
      | inl same ↦ absurd (q ((same_name_iff i n).0 same))
      | inr other ↦ rw (put_self, other)
    ]
