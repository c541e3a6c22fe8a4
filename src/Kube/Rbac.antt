-- ===== src/Kube/Rbac.antt =====
-- Roles and their bindings (`rbacv1`).
use nfs_provisioner_operator.Base.{String, List}
use nfs_provisioner_operator.Kube.Meta.{ObjectMeta}

pub record PolicyRule : Type 0 where
  pub api_groups : List String
  pub resources : List String
  pub resource_names : List String
  pub verbs : List String

pub record Subject : Type 0 where
  pub kind : String
  pub name : String
  pub namespace : String

pub record RoleRef : Type 0 where
  pub api_group : String
  pub kind : String
  pub name : String

pub record ClusterRole : Type 0 where
  pub metadata : ObjectMeta
  pub rules : List PolicyRule

pub record ClusterRoleBinding : Type 0 where
  pub metadata : ObjectMeta
  pub subjects : List Subject
  pub role_ref : RoleRef

pub record Role : Type 0 where
  pub metadata : ObjectMeta
  pub rules : List PolicyRule

pub record RoleBinding : Type 0 where
  pub metadata : ObjectMeta
  pub subjects : List Subject
  pub role_ref : RoleRef
