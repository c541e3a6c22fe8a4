-- ===== src/Cluster/Memory/Helpers.antt =====
-- The helper functions of the cluster in memory meet their laws.
use nfs_provisioner_operator.Base.{
  String, true, List, [], ◌∷◌, ◌≡◌, ◌≢◌, refl, inl, inr, Bool-cases, ◌==◌, eq_iff, is_set, arith,
}
use nfs_provisioner_operator.Base.Lists.{Elem, Elem-append_last}
use nfs_provisioner_operator.Kube.Meta.{ObjectMeta}
use nfs_provisioner_operator.Api.{NfsProvisioner}
use nfs_provisioner_operator.Cluster.Laws.{HasHelpers, controller_of}
use nfs_provisioner_operator.Cluster.Memory.{memory, listed, unlisted, refer, add}

unlisted-not : (f : String) (fs : List String) → ¬ Elem f (unlisted f fs)
unfolding unlisted
unlisted-not f [] = λ h. h
unlisted-not f (g ∷ fs) = elim (Bool-cases (g == f)) [
  | inl p ↦ rw p (unlisted-not f fs)
  | inr p ↦ rw p (λ h. ground (arith, eq_iff g f, unlisted-not f fs))
]

unlisted-keeps : (f g : String) (fs : List String) → f ≢ g → Elem g fs → Elem g (unlisted f fs)
unfolding unlisted
unlisted-keeps f g [] differs h = h
unlisted-keeps f g (x ∷ fs) differs (inl e) = elim (Bool-cases (x == f)) [
  | inl p ↦ absurd (differs (cc (e, (eq_iff x f).0 p)))
  | inr p ↦ rw p (inl e)
]
unlisted-keeps f g (x ∷ fs) differs (inr h) = elim (Bool-cases (x == f)) [
  | inl p ↦ rw p (unlisted-keeps f g fs differs h)
  | inr p ↦ rw p (inr (unlisted-keeps f g fs differs h))
]

listed-Elem : (f : String) (fs : List String) → listed f fs ≡ true → Elem f fs
unfolding listed
listed-Elem f [] h = cc
listed-Elem f (g ∷ fs) h = elim (Bool-cases (g == f)) [
  | inl p ↦ inl ((eq_iff g f).0 p)
  | inr p ↦ inr (listed-Elem f fs (ground arith))
]

add-Elem : (o : ObjectMeta) (f : String) → Elem f (add o f).finalizers
add-Elem o f = elim (Bool-cases (listed f o.finalizers)) [
  | inl p ↦ rw p (listed-Elem f o.finalizers p)
  | inr p ↦ rw p (Elem-append_last f o.finalizers)
]

add_only : (o : ObjectMeta) (f : String) → add o f ≡ record o { finalizers = (add o f).finalizers }
add_only o f = elim (Bool-cases (listed f o.finalizers)) [ inl p ↦ rw p | inr p ↦ rw p ]

module _ (m : NfsProvisioner) (o : ObjectMeta) where
  refer_only : (refer m o).1 ≡ record o { owner_references = (refer m o).1.owner_references }
  refer_only = ground arith

  refer_cross :
      is_set m.metadata.namespace ≡ true → o.namespace ≢ m.metadata.namespace → (refer m o).1 ≡ o
  refer_cross h differs = ground (arith, eq_iff o.namespace m.metadata.namespace)

  refer_same :
      o.namespace ≡ m.metadata.namespace
      → o.owner_references ≡ []
      → (refer m o).1.owner_references ≡ controller_of m ∷ []
  refer_same h free =
      rw ((eq_iff o.namespace m.metadata.namespace).1 h)
        (elim (Bool-cases (is_set m.metadata.namespace)) [
          | inl p ↦ rw (p, free)
          | inr p ↦ rw (p, free)
        ])

pub memory-HasHelpers : HasHelpers memory
memory-HasHelpers = record {
  ignore_not_found_lem = λ e. refl;
  references_only = refer_only;
  cross_namespace = refer_cross;
  same_namespace = refer_same;
  add_finalizer_only = add_only;
  add_finalizer_elem = add-Elem;
  remove_finalizer_only = λ o f. refl;
  remove_finalizer_elem = λ o f. unlisted-not f o.finalizers;
  remove_finalizer_keeps = λ o f g. unlisted-keeps f g o.finalizers;
  is_zero-none = refl;
}
