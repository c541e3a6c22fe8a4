-- ===== src/Kube/Meta.antt =====
-- `metav1.ObjectMeta`, `types.NamespacedName`, and the maps and times in them.
use nfs_provisioner_operator.Base.{
  ℕ, String, Bool, true, Option, none, List, [], ◌≡◌, ◌↔◌, ◌&&◌, ◌==◌, eq_iff, arith,
}

-- `map[string]string`; `none` is the nil map.
abbrev pub StringMap : Type 0
StringMap = Option (List (String × String))

-- A time in seconds since the zero time.
abbrev pub Time : Type 0
Time = ℕ

pub record OwnerReference : Type 0 where
  pub api_version : String
  pub kind : String
  pub name : String
  pub uid : String
  pub controller : Bool

pub record ObjectMeta : Type 0 where
  pub name : String
  pub generate_name : String
  pub namespace : String
  pub uid : String
  pub resource_version : String
  pub deletion_timestamp : Option Time
  pub labels : StringMap
  pub annotations : StringMap
  pub owner_references : List OwnerReference
  pub finalizers : List String

-- `metav1.ObjectMeta{}`
abbrev pub zero_meta : ObjectMeta
zero_meta = record {
  name = "";
  generate_name = "";
  namespace = "";
  uid = "";
  resource_version = "";
  deletion_timestamp = none;
  labels = none;
  annotations = none;
  owner_references = [];
  finalizers = [];
}

-- `types.NamespacedName`. The namespace of a cluster-scoped object is empty.
pub record NamespacedName : Type 0 where
  pub namespace : String
  pub name : String

abbrev pub named : String → String → NamespacedName
named namespace name = record { namespace = namespace; name = name }

abbrev pub key_of : ObjectMeta → NamespacedName
key_of meta = named meta.namespace meta.name

unfoldable pub same_name : NamespacedName → NamespacedName → Bool
same_name a b = a.namespace == b.namespace && a.name == b.name

pub same_name_iff : (a b : NamespacedName) → (same_name a b ≡ true) ↔ (a ≡ b)
unfolding same_name
same_name_iff a b = ground (arith, eq_iff a.namespace b.namespace, eq_iff a.name b.name)
