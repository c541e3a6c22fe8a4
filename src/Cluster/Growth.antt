-- ===== src/Cluster/Growth.antt =====
-- How a view of the cluster may grow: no object goes, and none changes, but for security context
-- constraints, which may get more users and other metadata.
use nfs_provisioner_operator.Base.{String, some, subst, sym, inl, inr, Bool-cases, ◌≡◌, refl, ◌∙◌}
use nfs_provisioner_operator.Base.Lists.{Elem}
use nfs_provisioner_operator.Kube.Meta.{NamespacedName, same_name, same_name_iff}
use nfs_provisioner_operator.Cluster.{Kind, Object, security_context_constraints}
use nfs_provisioner_operator.Cluster.Laws.{View, IsOther, settings}

-- An object of the cluster, by its kind and name.
abbrev pub Ref : Type 0
Ref = Kind × NamespacedName

abbrev pub Present : View → Ref → Type 0
Present v (k, n) = (x : Object k) × (v k n ≡ some x)

abbrev pub Grows : (k : Kind) → Object k → Object k → Type 0
Grows security_context_constraints x y =
    (settings y ≡ settings x) × ((u : String) → Elem u x.users → Elem u y.users)
Grows _ x y = y ≡ x

pub Grows-refl : (k : Kind) (x : Object k) → Grows k x x
Grows-refl security_context_constraints x = (refl, λ u h. h)
Grows-refl _ x = refl

pub Grows-trans : (k : Kind) (x y z : Object k) → Grows k x y → Grows k y z → Grows k x z
Grows-trans security_context_constraints x y z p q = (q.0 ∙ p.0, λ u h. q.1 u (p.1 u h))
Grows-trans _ x y z p q = q ∙ p

pub record Growing (v w : View) : Type 0 where
  pub at :
      (k : Kind) (n : NamespacedName) (x : Object k)
      → v k n ≡ some x
      → (y : Object k) × (w k n ≡ some y) × Grows k x y

pub Growing-refl : (v : View) → Growing v v
Growing-refl v = record { at = λ k n x e. (x, e, Grows-refl k x) }

pub Growing-of_eq : (v w : View) → w ≡ v → Growing v w
Growing-of_eq v w e = rw e (Growing-refl v)

pub Growing-trans : (u v w : View) → Growing u v → Growing v w → Growing u w
Growing-trans u v w p q = record {
  at = λ k n x e.
      let (y, ey, xy) = p.at k n x e in
      let (z, ez, yz) = q.at k n y ey in (z, ez, Grows-trans k x y z xy yz);
}

-- What is present stays present.
pub Present-grow : (v w : View) (r : Ref) → Growing v w → Present v r → Present w r
Present-grow v w (k, n) g (x, e) = let (y, ey, _) = g.at k n x e in (y, ey)

pub Kind-discrete : Discrete Kind
Kind-discrete = hlevel

-- The object under a reference is still there, perhaps grown.
abbrev Kept : View → View → (k : Kind) → NamespacedName → Type 0
Kept v w k n = (x : Object k) → v k n ≡ some x → (y : Object k) × (w k n ≡ some y) × Grows k x y

-- A view grows if the one object in which it changes does.
pub Growing-one :
    (v w : View) (k : Kind) (n : NamespacedName)
    → ((j : Kind) (i : NamespacedName) → IsOther k n j i → w j i ≡ v j i)
    → ((x : Object k) → v k n ≡ some x → (y : Object k) × (w k n ≡ some y) × Grows k x y)
    → Growing v w
Growing-one v w k n frame self = record { at = kept }
  where
    other : (j : Kind) (i : NamespacedName) → IsOther k n j i → Kept v w j i
    other j i differs x e = (x, frame j i differs ∙ e, Grows-refl j x)

    of_kind : (i : NamespacedName) → Kept v w k i
    of_kind i = elim (Bool-cases (same_name i n)) [
      | inl p ↦ subst (Kept v w k) (sym ((same_name_iff i n).0 p)) self
      | inr p ↦ other k i (λ q. cc (p, (same_name_iff i n).1 q.1))
    ]

    kept : (j : Kind) (i : NamespacedName) → Kept v w j i
    kept j i = elim (Kind-discrete j k) [
      | yes p ↦ subst (λ l. Kept v w l i) (sym p) (of_kind i)
      | no p ↦ other j i (λ q. p q.0)
    ]
